-- ===== src/Trace/Walk.antt =====
-- The loop of `verify_trace` and the steps of a conversation.
use mathlib.Core.List.Memᴰ
use mathlib.Core.Logic.{⊎_elim}
use colloq.Prelude.{
  ℕ, suc, String, ◌≡◌, refl, sym, ◌∙◌, subst, inl, inr, ◌↔◌, Option, none, some, List, [], ◌∷◌,
  Bool, true, false, ◌==◌, ◌&&◌, eq_iff, if◌then◌else◌, ok, err, Memᴰ, arith, iff_trans,
  Option-cases, some_inj,
}
use Prim.Native.String.{compare}
use colloq.Prelude.Maps.{Map, lookup, insert}
use colloq.Prelude.Sets.{StringSet, contains, insert_all, contains_iff, Memᴰ-insert_all}
use colloq.Prelude.Order.{compare-IsOrder}
use colloq.Conversation.{Conversation, GlobalState, id}
use colloq.Validate.{index_states}
use colloq.Validate.Spec.{IsValid, role_ids}
use colloq.Validate.StateMap.{lookup-index_states}
use colloq.Trace.{
  Frame, data_, select, cancel, fault, rejected, panic, expected_frame, describe_frame,
  collect_states, next_state, walk,
}
use colloq.Trace.Steps.{Step, sent, chosen, cancelled, failed, Run, done, more}

-- The map is the one that `validate` fills.
collect_states-eq :
    (index : ℕ) (m : Map GlobalState) (ss : List GlobalState)
    → collect_states m ss ≡ (index_states index m ss).0
unfolding collect_states index_states
collect_states-eq index m [] = refl
collect_states-eq index m (s ∷ ss) = collect_states-eq (suc index) (insert (id s) s m) ss

all_eq_iff :
    (a b c x y z : String) → ((a == x && b == y && c == z) ≡ true) ↔ ((a ≡ x) × (b ≡ y) × (c ≡ z))
all_eq_iff a b c x y z = ground (arith, eq_iff a x, eq_iff b y, eq_iff c z)

module _ {ℓ} {V : Type ℓ} (c : Conversation V) (v : IsValid c) where
  abbrev pub states : Map GlobalState
  states = collect_states [] c.states

  abbrev pub roles : StringSet
  roles = insert_all compare (role_ids c) []

  pub at_state :
      (k : String) (s : GlobalState) → (lookup k states ≡ some s) ↔ (Memᴰ s c.states × (id s ≡ k))
  at_state k s =
      rw (collect_states-eq 0 [] c.states) (lookup-index_states c.states v.declared.distinct k s)

  pub is_role : (k : String) → (contains k roles ≡ true) ↔ Memᴰ k (role_ids c)
  is_role k = iff_trans (contains_iff k roles) (
    λ m.
        ⊎_elim (λ t. t) (λ t. absurd (Memᴰ.not-nil t))
          ((Memᴰ-insert_all compare compare-IsOrder k (role_ids c) []).0 m),
    λ m. (Memᴰ-insert_all compare compare-IsOrder k (role_ids c) []).1 (inl m),
  )

  if_some :
      (b : Bool) {o : Option String} {n : String}
      → (if b then o else none) ≡ some n
      → (b ≡ true) × (o ≡ some n)
  if_some true h = (refl, h)
  if_some false h = cc

  -- The arms of the match are the steps.
  pub next_state-Step :
      (s : GlobalState) (frame : Frame V) (n : String)
      → Memᴰ s c.states
      → next_state roles s frame ≡ some n
      → Step c (id s) frame n
  unfolding next_state id
  next_state-Step s (fault o f) n m h =
      let (r, t) = if_some (contains o roles) h in failed m refl ((is_role o).0 r) t
  next_state-Step (GlobalState.send i from to message next d f) (data_ from' to' message' p) n m h =
      let (e, t) = if_some (from == from' && to == to' && message == message') h in
      let (x, y, z) = (all_eq_iff from to message from' to' message').0 e in
      rw (← x, ← y, ← z, ← some_inj t) (sent m)
  next_state-Step (GlobalState.choice i chooser bs f) (select by label) n m h =
      let (e, t) = if_some (chooser == by) h in rw (← (eq_iff chooser by).0 e) (chosen m t)
  next_state-Step (GlobalState.cancel i from to what next f) (cancel from' to' what') n m h =
      let (e, t) = if_some (from == from' && to == to' && what == what') h in
      let (x, y, z) = (all_eq_iff from to what from' to' what').0 e in
      rw (← x, ← y, ← z, ← some_inj t) (cancelled m)
  next_state-Step _ _ n m h = cc

  -- Each step is an arm of the match at the state that it leaves.
  abbrev pub Arm : String → Frame V → String → Type 0
  Arm i frame n =
      (s : GlobalState) × Memᴰ s c.states × (id s ≡ i) × (next_state roles s frame ≡ some n)

  pub Step-Arm : {i n : String} {frame : Frame V} → Step c i frame n → Arm i frame n
  unfolding next_state id
  Step-Arm (sent {i} {from} {to} {message} {next} {deadline} {f} m) = (
    GlobalState.send i from to message next deadline f,
    m,
    refl,
    rw ((all_eq_iff from to message from to message).1 (refl, refl, refl)),
  )
  Step-Arm (chosen {i} {chooser} {label} {next} {branches} {f} m e) =
      (GlobalState.choice i chooser branches f, m, refl, rw ((eq_iff chooser chooser).1 refl) e)
  Step-Arm (cancelled {i} {from} {to} {what} {next} {f} m) = (
    GlobalState.cancel i from to what next f,
    m,
    refl,
    rw ((all_eq_iff from to what from to what).1 (refl, refl, refl)),
  )
  Step-Arm (failed {i} {observer} {s} m p r t) = (s, m, p, rw ((is_role observer).1 r) t)

  -- States with one identifier are one state.
  pub state_unique : (s t : GlobalState) → Memᴰ s c.states → Memᴰ t c.states → id s ≡ id t → s ≡ t
  state_unique s t ms mt e =
      some_inj (sym ((at_state (id s) s).1 (ms, refl)) ∙ (at_state (id s) t).1 (mt, sym e))

  -- The loop in one equation, once the state is known.
  pub walk-cons :
      (step : ℕ) (k : String) (s : GlobalState) (frame : Frame V) (frames : List (Frame V))
      (n : String)
      → lookup k states ≡ some s
      → next_state roles s frame ≡ some n
      → walk states roles step k (frame ∷ frames) ≡ walk states roles (suc step) n frames
  unfolding walk
  walk-cons step k s frame frames n e t = rw (e, t, walk)

  pub walk-stuck :
      (step : ℕ) (k : String) (s : GlobalState) (frame : Frame V) (frames : List (Frame V))
      → lookup k states ≡ some s
      → next_state roles s frame ≡ none
      → walk states roles step k (frame ∷ frames)
        ≡ err (
            rejected (record {
              step = step;
              state = k;
              expected = expected_frame s;
              received = describe_frame frame;
            }))
  unfolding walk
  walk-stuck step k s frame frames e t = rw (e, t, walk)

  pub walk-lost :
      (step : ℕ) (k : String) (frame : Frame V) (frames : List (Frame V))
      → lookup k states ≡ none
      → walk states roles step k (frame ∷ frames) ≡ err panic
  unfolding walk
  walk-lost step k frame frames e = rw (e, walk)

  pub walk-nil : (step : ℕ) (k n : String) → walk {V = V} states roles step k [] ≡ ok n → k ≡ n
  unfolding walk
  walk-nil step k n h = cc

  pub walk-Run :
      (step : ℕ) (k : String) (frames : List (Frame V)) (n : String)
      → walk states roles step k frames ≡ ok n
      → Run c k frames n
  walk-Run step k [] n h = subst (Run c k []) (walk-nil step k n h) done
  walk-Run step k (frame ∷ frames) n h = elim (Option-cases (lookup k states)) [
    | inl e ↦ cc (walk-lost step k frame frames e)
    | inr (s, e) ↦ elim (Option-cases (next_state roles s frame)) [
      | inl t ↦ cc (walk-stuck step k s frame frames e t)
      | inr (j, t) ↦
          let (m, p) = (at_state k s).0 e in
          more (subst (λ u. Step c u frame j) p (next_state-Step s frame j m t))
            (walk-Run (suc step) j frames n (sym (walk-cons step k s frame frames j e t) ∙ h))
    ]
  ]

  pub Run-walk :
      (step : ℕ) {k n : String} {frames : List (Frame V)}
      → Run c k frames n
      → walk states roles step k frames ≡ ok n
  unfolding walk
  Run-walk step done = refl
  Run-walk step (more {i} {j} {k} {frame} {frames} x r) =
      let (s, m, p, t) = Step-Arm x in
      walk-cons step i s frame frames j ((at_state i s).1 (m, p)) t ∙ Run-walk (suc step) r
