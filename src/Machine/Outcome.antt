-- ===== src/Machine/Outcome.antt =====
-- How an exchange ends, and what the machines can do before.
use colloq.Prelude.{
  ℕ, ◌≤◌, String, ◌≡◌, ◌≢◌, refl, sym, ◌∙◌, ap, subst, ◌⊎◌, inl, inr, Option, some, List, [], ◌∷◌,
  Memᴰ, true, ok, eq_refl, All-Memᴰ, length, arith,
}
use colloq.Prelude.Maps.{Map, lookup}
use colloq.Conversation as Conversation
use colloq.Conversation.{Conversation, GlobalState, is_terminal}
use colloq.Validate.Spec.{StateOk, IsValid, scope, role_ids}
use colloq.Project.{EndpointState, project_state}
use colloq.Project.Duality.{Dual, Dual-project_state}
use colloq.Trace.{Frame, data_, select, cancel, TraceReport, trace_report, verify_trace}
use colloq.Trace.Steps.{Run}
use colloq.Trace.Walk.{state_unique}
use colloq.Trace.Correct.{verify_trace_iff}
use colloq.Machine.{
  Machine, WireEnvelope, state, emit, emit_data, emit_select, emit_cancel, is_complete,
  is_successful, failure,
}
use colloq.Machine.Find.{Follows, state-Follows}
use colloq.Machine.Sync.{Emits, Synced, from_select}
use colloq.Machine.Exchange.{Exchange, Exchange-Run}

-- What a machine tells of its state is what the report tells of the global state.
pub record Tells (m : Machine) (r : TraceReport) : Type 0 where
  pub final_state : m.current ≡ r.final_state
  pub complete : is_complete m ≡ some r.complete
  pub successful : is_successful m ≡ some r.successful
  pub failed : failure m ≡ some r.failure

state-Tells :
    (m : Machine) (n : ℕ) (k role : String) (s : GlobalState)
    → m.current ≡ k
    → state m ≡ some (project_state s role)
    → Tells m (trace_report n k s)
unfolding is_complete is_successful failure trace_report project_state is_terminal
state-Tells m n k role (GlobalState.end i) p e = ground arith
state-Tells m n k role _ p e = ground arith

module _ {ℓ} {V : Type ℓ} (c : Conversation V) (v : IsValid c) where
  pub Follows-Tells :
      (n : ℕ) (role : String) (m : Machine) (s : GlobalState)
      → Follows c role m
      → Memᴰ s c.states
      → m.current ≡ Conversation.id s
      → Tells m (trace_report n (Conversation.id s) s)
  Follows-Tells n role m s h ms p =
      let (t, mt, q, at) = state-Follows c v h in
      let same = state_unique c v t s mt ms (q ∙ p) in
      state-Tells m n (Conversation.id s) role s p (at ∙ ap (λ u. some (project_state u role)) same)

  module _ (a b : String) (ne : a ≢ b) (two : role_ids c ≡ a ∷ b ∷ []) where
    -- Let the synchronised machines of the two different roles of a valid conversation start at
    -- its initial state and exchange envelopes, in any order, each emitted by one and accepted
    -- by the other. Then `verify_trace` accepts the frames, and the final state, completeness,
    -- success and failure of both machines are those of its report.
    pub Exchange-verify_trace :
        {x y x' y' : Machine} {fs : List (Frame V)}
        → Synced c a b x y
        → x.current ≡ c.initial
        → Exchange x y fs x' y'
        → (r : TraceReport) × (verify_trace c fs ≡ ok r) × Tells x' r × Tells y' r
    Exchange-verify_trace {x} {y} {x'} {y'} {fs} h start ex =
        let (final, run) = Exchange-Run c v a b ne two h ex in
        let (s, ms, p, at) = state-Follows c v final.left in
        let run' : Run c c.initial fs (Conversation.id s) =
          subst (λ k. Run c c.initial fs k) (sym p)
            (subst (λ k. Run c k fs x'.current) start run) in
        let r = trace_report (length fs) (Conversation.id s) s in
        (
          r,
          (verify_trace_iff c v fs r).1 (s, ms, run', refl),
          Follows-Tells (length fs) a x' s final.left ms (sym p),
          Follows-Tells (length fs) b y' s final.right ms (sym final.current ∙ sym p),
        )

-- The calls that a sending state allows.
module _ {ℓ} {V : Type ℓ} (m : Machine) where
  emit_data-some :
      (payload : V) (i to message next : String) (d : Option String) (f : Map String)
      → state m ≡ some (EndpointState.send i to message next d f)
      → emit_data m payload ≡ ok (emit m (data_ m.endpoint.role to message (some payload)) next)
  unfolding emit_data
  emit_data-some payload i to message next d f e = rw (e, emit_data)

  pub emit_select-some :
      (label i next : String) (branches f : Map String)
      → state m ≡ some (EndpointState.select i branches f)
      → lookup label branches ≡ some next
      → emit_select {V = V} m label ≡ ok (emit m (select m.endpoint.role label) next)
  unfolding emit_select
  emit_select-some label i next branches f e l = rw (e, l, emit_select)

  emit_cancel-some :
      (i to what next : String) (f : Map String)
      → state m ≡ some (EndpointState.send_cancel i to what next f)
      → emit_cancel {V = V} m ≡ ok (emit m (cancel m.endpoint.role to what) next)
  unfolding emit_cancel
  emit_cancel-some i to what next f e = rw (e, emit_cancel)

first_branch :
    (branches : Map String)
    → 2 ≤ length branches
    → (label : String) × (next : String) × (lookup label branches ≡ some next)
unfolding lookup
first_branch [] h = absurd (omega arith)
first_branch ((label, next) ∷ rest) h = (label, next, rw (eq_refl label))

module _ {ℓ} {V : Type ℓ} (c : Conversation V) (v : IsValid c) (payload : V) where
  abbrev pub CanEmit : Machine → Type ℓ
  CanEmit m = (e : WireEnvelope V) × (n : Machine) × Emits m e n

  can_emit :
      (a b : String) (x y : Machine) (s t : EndpointState)
      → Dual a b s t
      → state x ≡ some s
      → state y ≡ some t
      → ((i : String) (bs f : Map String) → s ≡ EndpointState.select i bs f → 2 ≤ length bs)
      → ((i : String) (bs f : Map String) → t ≡ EndpointState.select i bs f → 2 ≤ length bs)
      → (is_complete x ≡ some true) × (is_complete y ≡ some true) ⊎ (CanEmit x ⊎ CanEmit y)
  unfolding is_complete
  can_emit a b x y _ _ (Dual.sends {i} {m} {n} {d} {f}) p q h k =
      inr (inl (_, _, Emits.data_call payload (emit_data-some x payload i b m n d f p)))
  can_emit a b x y _ _ (Dual.receives {i} {m} {n} {d} {f}) p q h k =
      inr (inr (_, _, Emits.data_call payload (emit_data-some y payload i a m n d f q)))
  can_emit a b x y _ _ (Dual.selects {i} {bs} {f}) p q h k =
      let (label, next, l) = first_branch bs (h i bs f refl) in
      inr (inl (_, _, Emits.select_call label (emit_select-some x label i next bs f p l)))
  can_emit a b x y _ _ (Dual.branches {i} {bs} {f}) p q h k =
      let (label, next, l) = first_branch bs (k i bs f refl) in
      inr (inr (_, _, Emits.select_call label (emit_select-some y label i next bs f q l)))
  can_emit a b x y _ _ (Dual.cancels {i} {s = what} {n} {f}) p q h k =
      inr (inl (_, _, Emits.cancel_call (emit_cancel-some x i b what n f p)))
  can_emit a b x y _ _ (Dual.is_cancelled {i} {s = what} {n} {f}) p q h k =
      inr (inr (_, _, Emits.cancel_call (emit_cancel-some y i a what n f q)))
  can_emit a b x y _ _ Dual.ends p q h k = inl (rw (p, is_complete), rw (q, is_complete))
  can_emit a b x y _ _ Dual.fails p q h k = inl (rw (p, is_complete), rw (q, is_complete))

  -- A role that chooses has two branches or more.
  two_branches :
      (role i : String) (bs f : Map String) (s : GlobalState) (t : EndpointState)
      → Memᴰ s c.states
      → t ≡ project_state s role
      → t ≡ EndpointState.select i bs f
      → 2 ≤ length bs
  two_branches role i bs f s t m p q =
      let e = from_select role i bs f s (sym q ∙ p) in
      let h : StateOk (scope c) (GlobalState.choice i role bs f) =
        subst (StateOk (scope c)) e (All-Memᴰ (StateOk (scope c)) c.states v.declared.states m) in
      h.1.0

  module _ (a b : String) (ne : a ≢ b) (two : role_ids c ≡ a ∷ b ∷ []) where
    -- Let two machines of the two different roles of a valid conversation be synchronised, and
    -- some payload be given. Then both are complete, or one of them has a call that emits an
    -- envelope.
    pub Synced-progress :
        {x y : Machine}
        → Synced c a b x y
        → (is_complete x ≡ some true) × (is_complete y ≡ some true) ⊎ (CanEmit x ⊎ CanEmit y)
    Synced-progress {x} {y} h =
        let (s, ms, p, at) = state-Follows c v h.left in
        let (t, mt, q, at') = state-Follows c v h.right in
        let same = state_unique c v s t ms mt (p ∙ (h.current ∙ sym q)) in
        can_emit a b x y (project_state s a) (project_state t b)
          (subst (λ u. Dual a b (project_state s a) (project_state u b)) same
            (Dual-project_state c a b ne two s
              (All-Memᴰ (StateOk (scope c)) c.states v.declared.states ms)))
          at at' (λ i bs f e. two_branches a i bs f s (project_state s a) ms refl e)
          (λ i bs f e. two_branches b i bs f t (project_state t b) mt refl e)
