-- ===== src/Machine/Local.antt =====
-- The moves of one machine of src/runtime.rs, whoever is at the other end, and the steps of the
-- conversation.
use mathlib.Core.Logic.{⊎_elim}
use colloq.Prelude.{
  String, ◌≡◌, ◌≢◌, refl, sym, ◌∙◌, ap, subst, inl, inr, Option, some, [], ◌∷◌, Memᴰ, ok, All-Memᴰ,
  ◌==◌, ◌&&◌, &&_iff, eq_iff, some_inj, ok_inj, none, Option-cases, Bool-cases, String-cases,
  Memᴰ_of_map,
}
use colloq.Prelude.Maps.{Map, lookup}
use colloq.Conversation as Conversation
use colloq.Conversation.{Conversation, GlobalState}
use colloq.Validate.Spec.{StateOk, IsValid, scope, role_ids, state_ids}
use colloq.Project.{EndpointState, project_state}
use colloq.Project.Duality.{one_of, valid_roles}
use colloq.Trace.{Frame, data_, select, cancel, fault}
use colloq.Trace.Steps.{Step, sent, chosen, cancelled, failed}
use colloq.Trace.Correct.{Step-state}
use colloq.Machine.{
  Machine, WireEnvelope, emit, accepts, accept, observe_failure_at, state, emit_select, select_from,
  selected,
}
use colloq.Machine.Exchange.{role-endpoint_for}
use colloq.Machine.Failure.{observe-edge, next_state-Follows}
use colloq.Machine.Refuses.{accept-Addressed}
use colloq.Machine.Find.{Follows, state-Follows}
use colloq.Machine.Sync.{Emits, Emits-Made, Sends, Step-Sends}

-- Of two roles, the one that differs from a third that is among them.
other_role :
    {a b from to role : String}
    → Memᴰ from (a ∷ b ∷ [])
    → Memᴰ to (a ∷ b ∷ [])
    → Memᴰ role (a ∷ b ∷ [])
    → from ≢ to
    → from ≢ role
    → to ≡ role
other_role {a} {b} {from} {to} {role} mf mt mr ne nr =
    ⊎_elim
      (λ p.
        ⊎_elim (λ q. absurd (ne (p ∙ sym q)))
          (λ q. ⊎_elim (λ r. absurd (nr (p ∙ sym r))) (λ r. q ∙ sym r) (one_of mr)) (one_of mt))
      (λ p.
        ⊎_elim (λ q. ⊎_elim (λ r. q ∙ sym r) (λ r. absurd (nr (p ∙ sym r))) (one_of mr))
          (λ q. absurd (ne (p ∙ sym q))) (one_of mt))
      (one_of mf)

module _ {ℓ} {V : Type ℓ} (m n : Machine) (label : String) (e : WireEnvelope V) where
  selected-frame :
      (o : Option String) → selected m label o ≡ ok (e, n) → e.frame ≡ select m.endpoint.role label
  unfolding selected emit
  selected-frame none h = absurd (cc h)
  selected-frame (some next) h = sym (ap (λ r. r.0.frame) (ok_inj h))

  select_from-frame :
      (s : EndpointState)
      → select_from m label s ≡ ok (e, n)
      → e.frame ≡ select m.endpoint.role label
  unfolding select_from
  select_from-frame (EndpointState.select i bs f) h = selected-frame (lookup label bs) h
  select_from-frame (EndpointState.send i to t next d f) h = absurd (cc h)
  select_from-frame (EndpointState.receive i from t next d f) h = absurd (cc h)
  select_from-frame (EndpointState.branch i by bs f) h = absurd (cc h)
  select_from-frame (EndpointState.send_cancel i to what next f) h = absurd (cc h)
  select_from-frame (EndpointState.receive_cancel i from what next f) h = absurd (cc h)
  select_from-frame (EndpointState.end i) h = absurd (cc h)
  select_from-frame (EndpointState.fail i failure) h = absurd (cc h)

  -- The frame that `emit_select` makes.
  pub emit_select-frame : emit_select m label ≡ ok (e, n) → e.frame ≡ select m.endpoint.role label
  unfolding emit_select
  emit_select-frame h = elim (Option-cases (state m)) [
    | inl x ↦ absurd (cc (rw (x, emit_select) at h))
    | inr (s, x) ↦ select_from-frame s (rw (x, emit_select) at h)
  ]

module _ {ℓ} {V : Type ℓ} (c : Conversation V) (v : IsValid c) where
  receiver :
      (from to role : String)
      → Memᴰ from (role_ids c)
      → Memᴰ to (role_ids c)
      → from ≢ to
      → Memᴰ role (role_ids c)
      → from ≢ role
      → to ≡ role
  receiver from to role mf mt ne mr nr =
      let (a, b, e, _) = valid_roles c v in
      other_role (subst (Memᴰ from) e mf) (subst (Memᴰ to) e mt) (subst (Memᴰ role) e mr) ne nr

  data_Step :
      (role i from to m n next : String) (d : Option String) (f : Map String) (frame : Frame V)
      → Memᴰ (GlobalState.send i from to m n d f) c.states
      → to ≡ role
      → accepts role (EndpointState.receive i from m n d f) frame ≡ some next
      → Step c i frame next
  unfolding accepts
  data_Step role i from to m n next d f (data_ from' to' m' p) x e h =
      elim (Bool-cases (from == from' && role == to' && m == m')) [
        | inl t ↦
            let (t, t2) = (&&_iff (from == from' && role == to') (m == m')).0 t in
            let (t0, t1) = (&&_iff (from == from') (role == to')).0 t in
            let same : data_ from to m p ≡ data_ from' to' m' p = λ k.
              data_ ((eq_iff from from').0 t0 k) ((e ∙ (eq_iff role to').0 t1) k)
                ((eq_iff m m').0 t2 k) p in
            let last : n ≡ next = some_inj (rw (t0, t1, t2) at h) in
            subst (λ u. Step c i u next) same (subst (Step c i (data_ from to m p)) last (sent x))
        | inr t ↦ absurd (cc (rw t at h))
      ]
  data_Step role i from to m n next d f (select by label) x e h = absurd (cc h)
  data_Step role i from to m n next d f (cancel from' to' what) x e h = absurd (cc h)
  data_Step role i from to m n next d f (fault observer failure) x e h = absurd (cc h)

  select_Step :
      (role i chooser next : String) (bs f : Map String) (frame : Frame V)
      → Memᴰ (GlobalState.choice i chooser bs f) c.states
      → accepts role (EndpointState.branch i chooser bs f) frame ≡ some next
      → Step c i frame next
  unfolding accepts
  select_Step role i chooser next bs f (select by label) x h = elim (Bool-cases (chooser == by)) [
    | inl t ↦
        subst (λ u. Step c i (select u label) next) ((eq_iff chooser by).0 t) (chosen x (rw t at h))
    | inr t ↦ absurd (cc (rw t at h))
  ]
  select_Step role i chooser next bs f (data_ from to m p) x h = absurd (cc h)
  select_Step role i chooser next bs f (cancel from to what) x h = absurd (cc h)
  select_Step role i chooser next bs f (fault observer failure) x h = absurd (cc h)

  cancel_Step :
      (role i from to what n next : String) (f : Map String) (frame : Frame V)
      → Memᴰ (GlobalState.cancel i from to what n f) c.states
      → to ≡ role
      → accepts role (EndpointState.receive_cancel i from what n f) frame ≡ some next
      → Step c i frame next
  unfolding accepts
  cancel_Step role i from to what n next f (cancel from' to' what') x e h =
      elim (Bool-cases (from == from' && role == to' && what == what')) [
        | inl t ↦
            let (t, t2) = (&&_iff (from == from' && role == to') (what == what')).0 t in
            let (t0, t1) = (&&_iff (from == from') (role == to')).0 t in
            let same : ◌≡◌ {A = Frame V} (cancel from to what) (cancel from' to' what') = λ k.
              cancel ((eq_iff from from').0 t0 k) ((e ∙ (eq_iff role to').0 t1) k)
                ((eq_iff what what').0 t2 k) in
            let last : n ≡ next = some_inj (rw (t0, t1, t2) at h) in
            subst (λ u. Step c i u next) same
              (subst (Step c i (cancel from to what)) last (cancelled x))
        | inr t ↦ absurd (cc (rw t at h))
      ]
  cancel_Step role i from to what n next f (data_ from' to' m p) x e h = absurd (cc h)
  cancel_Step role i from to what n next f (select by label) x e h = absurd (cc h)
  cancel_Step role i from to what n next f (fault observer failure) x e h = absurd (cc h)

  -- What a role accepts at a state is a step of the conversation.
  Step-accepts :
      (role : String) (s : GlobalState) (frame : Frame V) (next : String)
      → Memᴰ role (role_ids c)
      → Memᴰ s c.states
      → StateOk (scope c) s
      → accepts role (project_state s role) frame ≡ some next
      → Step c (Conversation.id s) frame next
  unfolding accepts project_state Conversation.id
  Step-accepts role (GlobalState.send i from to m n d f) frame next mr ms k h =
      elim (String-cases from role) [
        | inl (e, q) ↦ absurd (cc (rw e at h))
        | inr (e, q) ↦
            data_Step role i from to m n next d f frame ms
              (receiver from to role k.0.0 k.0.1.0 k.0.1.1 mr q) (rw e at h)
      ]
  Step-accepts role (GlobalState.choice i chooser bs f) frame next mr ms k h =
      elim (Bool-cases (chooser == role)) [
        | inl e ↦ absurd (cc (rw e at h))
        | inr e ↦ select_Step role i chooser next bs f frame ms (rw e at h)
      ]
  Step-accepts role (GlobalState.cancel i from to what n f) frame next mr ms k h =
      elim (String-cases from role) [
        | inl (e, q) ↦ absurd (cc (rw e at h))
        | inr (e, q) ↦
            cancel_Step role i from to what n next f frame ms
              (receiver from to role k.0.0 k.0.1.0 k.0.1.1 mr q) (rw e at h)
      ]
  Step-accepts role (GlobalState.end i) frame next mr ms k h = absurd (cc h)
  Step-accepts role (GlobalState.fail i g) frame next mr ms k h = absurd (cc h)

  -- A move of a machine of a role: a step of the conversation, after which it still runs the
  -- endpoint of the role.
  abbrev pub Moves : String → Machine → Frame V → Machine → Type ℓ
  Moves role m frame n = Step c m.current frame n.current × Follows c role n

  pub accept-Moves :
      (role : String) (m n : Machine) (e : WireEnvelope V) (frame : Frame V)
      → Follows c role m
      → Memᴰ role (role_ids c)
      → accept m e ≡ ok (frame, n)
      → Moves role m frame n
  accept-Moves role m n e frame h mr taken =
      let (_, _, (t, next, at, allowed, after)) = accept-Addressed m n e frame taken in
      let (s, ms, p, at') = state-Follows c v h in
      let same : t ≡ project_state s role = some_inj (sym at ∙ at') in
      let allowed' : accepts role (project_state s role) frame ≡ some next =
        subst (λ r. accepts r (project_state s role) frame ≡ some next)
          (role-endpoint_for c role m h.machine)
          (subst (λ u. accepts m.endpoint.role u frame ≡ some next) same allowed) in
      let step =
        Step-accepts role s frame next mr ms
          (All-Memᴰ (StateOk (scope c)) c.states v.declared.states ms) allowed' in
      let to_next : n.current ≡ next = ap (λ k. k.current) after in
      (
        subst (λ k. Step c k frame n.current) p
            (subst (Step c (Conversation.id s) frame) (sym to_next) step),
        record {
          machine = ap (λ k. k.endpoint) after ∙ h.machine;
          at = subst (λ k. Memᴰ k (state_ids c)) (sym to_next) (Step-state c v step);
        },
      )

  pub Emits-Moves :
      (role : String) (m n : Machine) (e : WireEnvelope V)
      → Follows c role m
      → Emits m e n
      → Moves role m e.frame n × (e.state ≡ m.current)
  unfolding emit
  Emits-Moves role m n e h x =
      let (s, ms, p, at) = state-Follows c v h in
      let (frame, next, sd, made) = Emits-Made (project_state s role) at x in
      let step = Step-Sends c role s (project_state s role) frame next ms refl (
        subst (λ r. Sends r (project_state s role) frame next)
          (role-endpoint_for c role m h.machine) sd) in
      subst (λ r. Moves role m r.0.frame r.1 × (r.0.state ≡ m.current)) (sym made)
        (
          (
            subst (λ k. Step c k frame next) p step,
            record { machine = h.machine; at = Step-state c v step },
          ),
          refl,
        )

  pub observe_failure_at-Moves :
      (role k f : String) (m n : Machine) (g : Frame V)
      → Follows c role m
      → Memᴰ role (role_ids c)
      → Memᴰ k (state_ids c)
      → observe_failure_at m k f ≡ ok (g, n)
      → Step c k g n.current × Follows c role n
  observe_failure_at-Moves role k f m n g h mr at e =
      let (s, ms, p) = Memᴰ_of_map Conversation.id k c.states at in
      let (j, edge, same, after) =
        observe-edge c v role m n s f g h ms (ap (λ i. observe_failure_at m i f) p ∙ e) in
      let here = ap (λ k. k.current) after in
      let own : Memᴰ m.endpoint.role (role_ids c) =
        subst (λ r. Memᴰ r (role_ids c)) (sym (role-endpoint_for c role m h.machine)) mr in
      (
        subst (λ u. Step c k u n.current) (sym same)
            (subst (Step c k (fault m.endpoint.role f)) (sym here) (failed ms p own edge)),
        next_state-Follows c v role f j n s (ap (λ k. k.endpoint) after ∙ h.machine) ms edge here,
      )
