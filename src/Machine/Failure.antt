-- ===== src/Machine/Failure.antt =====
-- What two machines are after a failure that both of them observe.
use colloq.Prelude.{
  String, ◌≡◌, ◌≢◌, refl, sym, ◌∙◌, ap, subst, inl, inr, Option, some, none, Memᴰ, false_of_not,
  Bool-cases, true, false, ok, ok_inj, All-Memᴰ, ◌==◌, if◌then◌else◌, eq_iff, eq_refl,
}
use colloq.Conversation as Conversation
use colloq.Conversation.{Conversation, GlobalState}
use colloq.Validate.Spec.{StateOk, IsValid, scope, role_ids, state_ids}
use colloq.Validate.Targets.{failure_target-fail, fail_declared}
use colloq.Project as Project
use colloq.Project.{EndpointState, project_state, failure_target}
use colloq.Trace.{Frame, fault}
use colloq.Trace.Steps.{Step, failed}
use colloq.Machine.{
  Machine, WireEnvelope, emit, next_sequence, state, state_at, observed, observe_failure,
  observe_failure_at, is_complete, is_successful, failure,
}
use colloq.Machine.Find.{Follows, state-Follows, state-endpoint_for}
use colloq.Machine.Sync.{Emits, Emits-Made, Sends, Step-Sends, Synced}
use colloq.Machine.Exchange.{role-endpoint_for}
use colloq.Trace.Correct.{Step-state}

-- Each role has the failure edges of the global state.
failure_target-project_state :
    (s : GlobalState) (role f : String)
    → failure_target (project_state s role) f ≡ Conversation.failure_target s f
unfolding failure_target Conversation.failure_target project_state
failure_target-project_state (GlobalState.send i from to m n d edges) role f =
    elim (Bool-cases (from == role)) [ inl e ↦ rw e | inr e ↦ rw e ]
failure_target-project_state (GlobalState.choice i chooser bs edges) role f =
    elim (Bool-cases (chooser == role)) [ inl e ↦ rw e | inr e ↦ rw e ]
failure_target-project_state (GlobalState.cancel i from to m n edges) role f =
    elim (Bool-cases (from == role)) [ inl e ↦ rw e | inr e ↦ rw e ]
failure_target-project_state (GlobalState.end i) role f = refl
failure_target-project_state (GlobalState.fail i g) role f = refl

-- The machine after a failure observed at the state `k`, with the next state `n`.
abbrev pub after_failure : Machine → String → String → Machine
after_failure m k n = record m {
  current = n;
  sequence = if m.current == k then next_sequence m.sequence else m.sequence;
}

module _ {ℓ} {V : Type ℓ} where
  observed-ok :
      (m : Machine) (k f : String) (o : Option String) {g : Frame V} {m' : Machine}
      → observed m k f o ≡ ok (g, m')
      → (n : String) × (o ≡ some n) × (g ≡ fault m.endpoint.role f) × (m' ≡ after_failure m k n)
  unfolding observed
  observed-ok m k f none h = cc
  observed-ok m k f (some n) h =
      (n, refl, ap (λ p. p.0) (sym (ok_inj h)), ap (λ p. p.1) (sym (ok_inj h)))

  observe-some :
      (m : Machine) (k f n : String) (t : EndpointState)
      → state_at m k ≡ some t
      → failure_target t f ≡ some n
      → observe_failure_at {V = V} m k f ≡ ok (fault m.endpoint.role f, after_failure m k n)
  unfolding observe_failure_at observed
  observe-some m k f n t e h = rw (e, h, observe_failure_at)

module _ {ℓ} {V : Type ℓ} (c : Conversation V) (v : IsValid c) where
  -- The edge that an observation takes.
  pub observe-edge :
      (role : String) (m m' : Machine) (s : GlobalState) (f : String) (g : Frame V)
      → Follows c role m
      → Memᴰ s c.states
      → observe_failure_at m (Conversation.id s) f ≡ ok (g, m')
      → (n : String) × (Conversation.failure_target s f ≡ some n)
        × (g ≡ fault m.endpoint.role f)
        × (m' ≡ after_failure m (Conversation.id s) n)
  unfolding observe_failure_at
  observe-edge role m m' s f g h x e =
      let at = state-endpoint_for c v role m s h.machine x in
      let (n, q, same, after) =
        observed-ok m (Conversation.id s) f (failure_target (project_state s role) f)
          (rw (at, observe_failure_at) at e) in
      (n, sym (failure_target-project_state s role f) ∙ q, same, after)

  fails_at :
      (role n f : String) (m : Machine)
      → Follows c role m
      → m.current ≡ n
      → Memᴰ (GlobalState.fail n f) c.states
      → (is_complete m ≡ some true) × (is_successful m ≡ some false) × (failure m ≡ some (some f))
  unfolding is_complete is_successful failure state project_state Conversation.id
  fails_at role n f m h p x =
      let at : state m ≡ some (EndpointState.fail n f) =
        ap (state_at m) p ∙ state-endpoint_for c v role m (GlobalState.fail n f) h.machine x in
      (rw (at, is_complete), rw (at, is_successful), rw (at, failure))

  -- Let a machine of a valid conversation run the projected endpoint of a role, and let its role
  -- be one of the conversation's. When it observes a failure, the frame that it returns is a
  -- step of the conversation to its new state, it still runs the endpoint, and it is complete,
  -- not successful, and has failed with that failure.
  pub observe_failure_lem :
      (role f : String) (m m' : Machine) (g : Frame V)
      → Follows c role m
      → Memᴰ m.endpoint.role (role_ids c)
      → observe_failure m f ≡ ok (g, m')
      → (g ≡ fault m.endpoint.role f)
        × Step c m.current g m'.current
        × Follows c role m'
        × (is_complete m' ≡ some true)
        × (is_successful m' ≡ some false)
        × (failure m' ≡ some (some f))
  unfolding observe_failure
  observe_failure_lem role f m m' g h r e =
      let (s, ms, p, at) = state-Follows c v h in
      let (n, edge, same, after) =
        observe-edge role m m' s f g h ms (ap (λ k. observe_failure_at m k f) p ∙ e) in
      let x =
        failure_target-fail c s f n (All-Memᴰ (StateOk (scope c)) c.states v.declared.states ms)
          edge in
      let q = ap (λ k. k.current) after in
      let h' : Follows c role m' = record {
        machine = ap (λ k. k.endpoint) after ∙ h.machine;
        at = subst (λ k. Memᴰ k (state_ids c)) (sym q) (fail_declared c n f x);
      } in
      let ended = fails_at role n f m' h' q x in
      (
        same,
        subst (λ k. Step c m.current k m'.current) (sym same)
            (subst (λ k. Step c m.current (fault m.endpoint.role f) k) (sym q)
              (failed ms p r edge)),
        h',
        ended.0,
        ended.1,
        ended.2,
      )

  -- What the other machine does with a failure seen at a state that both have.
  observe-other :
      (role : String) (m : Machine) (s : GlobalState) (f n : String)
      → Follows c role m
      → Memᴰ s c.states
      → Conversation.failure_target s f ≡ some n
      → observe_failure_at {V = V} m (Conversation.id s) f
        ≡ ok (fault m.endpoint.role f, after_failure m (Conversation.id s) n)
  observe-other role m s f n h x e =
      observe-some m (Conversation.id s) f n (project_state s role)
        (state-endpoint_for c v role m s h.machine x) (failure_target-project_state s role f ∙ e)

  pub next_state-Follows :
      (role f n : String) (m : Machine) (s : GlobalState)
      → m.endpoint ≡ Project.endpoint_for c role
      → Memᴰ s c.states
      → Conversation.failure_target s f ≡ some n
      → m.current ≡ n
      → Follows c role m
  next_state-Follows role f n m s h x e p = record {
    machine = h;
    at =
        subst (λ k. Memᴰ k (state_ids c)) (sym p)
          (fail_declared c n f (
            failure_target-fail c s f n (All-Memᴰ (StateOk (scope c)) c.states v.declared.states x)
              e));
  }

  module _ (a b f : String) where
    -- What is asked of a machine `m` that stands for `x` when it observes the failure at the
    -- state of `x`: the number it has afterwards is the next one of `x`.
    observe-both :
        {x y m' : Machine} {g : Frame V} (m : Machine)
        → Synced c a b x y
        → m.endpoint ≡ x.endpoint
        → m.conversation_identity ≡ x.conversation_identity
        → (if m.current == x.current then next_sequence m.sequence else m.sequence)
          ≡ next_sequence x.sequence
        → Memᴰ m.current (state_ids c)
        → observe_failure_at m x.current f ≡ ok (g, m')
        → (y' : Machine) × (observe_failure {V = V} y f ≡ ok (fault y.endpoint.role f, y'))
          × Synced c a b m' y'
    unfolding observe_failure
    observe-both {x} {y} {m'} {g} m h same iden num at e =
        let (s, ms, p, _) = state-Follows c v h.left in
        let stands : Follows c a m = record { machine = same ∙ h.left.machine; at = at } in
        let (n, edge, _, after) =
          observe-edge a m m' s f g stands ms (ap (λ k. observe_failure_at m k f) p ∙ e) in
        let y' = after_failure y (Conversation.id s) n in
        let q : Conversation.id s ≡ y.current = p ∙ h.current in
        (
          y',
          ap (λ k. observe_failure_at y k f) (sym q) ∙ observe-other b y s f n h.right ms edge,
          record {
            left =
                next_state-Follows a f n m' s (ap (λ k. k.endpoint) after ∙ stands.machine) ms edge
                  (ap (λ k. k.current) after);
            right = next_state-Follows b f n y' s h.right.machine ms edge refl;
            identity = ap (λ k. k.conversation_identity) after ∙ (iden ∙ h.identity);
            current = ap (λ k. k.current) after;
            sequence =
                ap (λ k. k.sequence) after
                ∙ (ap (λ k. if m.current == k then next_sequence m.sequence else m.sequence) p
                    ∙ (num
                        ∙ (ap next_sequence h.sequence
                            ∙ sym (rw ((eq_iff y.current (Conversation.id s)).1 (sym q)) refl))));
          },
        )

    -- Let two machines of a valid conversation be synchronised. When the first one observes a
    -- failure, the second one can observe it as well, and the two are synchronised again.
    pub observe_failure-Synced :
        {x y x' : Machine} {g : Frame V}
        → Synced c a b x y
        → observe_failure x f ≡ ok (g, x')
        → (y' : Machine) × (observe_failure {V = V} y f ≡ ok (fault y.endpoint.role f, y'))
          × Synced c a b x' y'
    unfolding observe_failure
    observe_failure-Synced {x} h e =
        observe-both x h refl refl (rw (eq_refl x.current) refl) h.left.at e

    -- Let two machines of a valid conversation be synchronised, and let the first one emit an
    -- envelope that leads to another state, and then observe a failure at the state before,
    -- since the sending failed. The second machine, which has accepted nothing, can observe the
    -- same failure, and the two are synchronised again.
    pub failed_send-Synced :
        {x y x' x'' : Machine} {e : WireEnvelope V} {g : Frame V}
        → Synced c a b x y
        → Emits x e x'
        → x'.current ≢ x.current
        → observe_failure_at x' x.current f ≡ ok (g, x'')
        → (y' : Machine) × (observe_failure {V = V} y f ≡ ok (fault y.endpoint.role f, y'))
          × Synced c a b x'' y'
    unfolding emit
    failed_send-Synced {x} {y} {x'} {x''} h sent moved failure_seen =
        let (s, ms, p, at_s) = state-Follows c v h.left in
        let (frame, next, sd, made) = Emits-Made (project_state s a) at_s sent in
        let step = Step-Sends c a s (project_state s a) frame next ms refl (
          subst (λ r. Sends r (project_state s a) frame next)
            (role-endpoint_for c a x h.left.machine) sd) in
        let same = ap (λ r. r.1) made in
        observe-both x' h (ap (λ k. k.endpoint) same) (ap (λ k. k.conversation_identity) same)
          (rw (false_of_not (λ q. moved ((eq_iff x'.current x.current).0 q)))
            (ap (λ k. k.sequence) same))
          (subst (λ k. Memᴰ k (state_ids c)) (sym (ap (λ k. k.current) same)) (Step-state c v step))
          failure_seen
