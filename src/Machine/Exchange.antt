-- ===== src/Machine/Exchange.antt =====
-- Two machines of one plan that exchange envelopes.
use colloq.Prelude.{
  String, ◌≡◌, ◌≢◌, refl, sym, ◌∙◌, ap, subst, some, List, [], ◌∷◌, Memᴰ, ok, ok_inj, All-Memᴰ,
}
use colloq.Conversation.{Conversation, GlobalState}
use colloq.Validate.Spec.{StateOk, IsValid, scope, role_ids}
use colloq.Project.{project_state, endpoint_for}
use colloq.Project.Duality.{Dual, Dual-project_state, Dual-sym}
use colloq.Trace.{Frame}
use colloq.Trace.Steps.{Step, Run, done, more}
use colloq.Trace.Walk.{state_unique}
use colloq.Trace.Correct.{Step-state}
use colloq.Machine.{Machine, WireEnvelope, next_sequence, emit, accept, accepts}
use colloq.Machine.Find.{state-Follows}
use colloq.Machine.Sync.{
  Emits, Emits-Made, Sends, Synced, Synced-sym, Step-Sends, accepts-Sends, accept-ok,
  validate_envelope-ok,
}

-- Machines that take turns in any order that they are able to.
pub data Exchange {ℓ} {V : Type ℓ}
    : Machine → Machine → List (Frame V) → Machine → Machine → Type ℓ where
  stop : {x y : Machine} → Exchange x y [] x y
  from_left :
      {x y x' y' x'' y'' : Machine} {e : WireEnvelope V} {f : Frame V} {fs : List (Frame V)}
      → Emits x e x'
      → accept y e ≡ ok (f, y')
      → Exchange x' y' fs x'' y''
      → Exchange x y (f ∷ fs) x'' y''
  from_right :
      {x y x' y' x'' y'' : Machine} {e : WireEnvelope V} {f : Frame V} {fs : List (Frame V)}
      → Emits y e y'
      → accept x e ≡ ok (f, x')
      → Exchange x' y' fs x'' y''
      → Exchange x y (f ∷ fs) x'' y''

pub role-endpoint_for {ℓ} :
    {V : Type ℓ} (c : Conversation V) (a : String) (m : Machine)
    → m.endpoint ≡ endpoint_for c a
    → m.endpoint.role ≡ a
unfolding endpoint_for
role-endpoint_for c a m e = ap (λ q. q.role) e

conversation-endpoint_for {ℓ} :
    {V : Type ℓ} (c : Conversation V) (a b : String) (x y : Machine)
    → x.endpoint ≡ endpoint_for c a
    → y.endpoint ≡ endpoint_for c b
    → x.endpoint.conversation ≡ y.endpoint.conversation
unfolding endpoint_for
conversation-endpoint_for c a b x y p q =
    ap (λ e. e.conversation) p ∙ sym (ap (λ e. e.conversation) q)

module _ {ℓ} {V : Type ℓ} (c : Conversation V) (v : IsValid c) where
  -- What follows when an envelope reaches the other machine.
  abbrev Delivered : String → String → Machine → Machine → WireEnvelope V × Machine → Type ℓ
  Delivered a b x y r =
      (y' : Machine) × (accept y r.0 ≡ ok (r.0.frame, y'))
      × Synced c a b r.1 y'
      × Step c x.current r.0.frame r.1.current

  module _ (a b : String)
      (dual : (s : GlobalState)
        → Memᴰ s c.states
        → Dual a b (project_state s a) (project_state s b)) where
    -- An emitted envelope is accepted, and both machines have made the same step.
    deliver :
        {x y x' : Machine} {e : WireEnvelope V}
        → Synced c a b x y
        → Emits x e x'
        → Delivered a b x y (e, x')
    unfolding emit
    deliver {x} {y} {x'} {e} h sent =
        let (s, ms, p, at) = state-Follows c v h.left in
        let (t, mt, q, at') = state-Follows c v h.right in
        let same = state_unique c v s t ms mt (p ∙ (h.current ∙ sym q)) in
        let (frame, next, sd, made) = Emits-Made (project_state s a) at sent in
        let sd' =
          subst (λ r. Sends r (project_state s a) frame next)
            (role-endpoint_for c a x h.left.machine) sd in
        let step =
          subst (λ k. Step c k frame next) p
            (Step-Sends c a s (project_state s a) frame next ms refl sd') in
        let y' = record y { current = next; sequence = next_sequence y.sequence } in
        let taken =
          subst (λ r. accepts r (project_state s b) frame ≡ some next)
            (sym (role-endpoint_for c b y h.right.machine))
            (accepts-Sends a b (project_state s a) (project_state s b) frame next (dual s ms)
              sd') in
        subst (Delivered a b x y) (sym made) (
          y',
          accept-ok y (emit x frame next).0 (project_state s b) next
              (validate_envelope-ok y (emit x frame next).0 refl
                (conversation-endpoint_for c a b x y h.left.machine h.right.machine) h.identity
                h.current h.sequence)
              (at' ∙ ap (λ u. some (project_state u b)) (sym same)) taken,
          record {
            left = record { machine = h.left.machine; at = Step-state c v step };
            right = record { machine = h.right.machine; at = Step-state c v step };
            identity = h.identity;
            current = refl;
            sequence = ap next_sequence h.sequence;
          },
          step,
        )

  module _ (a b : String) (ne : a ≢ b) (two : role_ids c ≡ a ∷ b ∷ []) where
    dual_at : (s : GlobalState) → Memᴰ s c.states → Dual a b (project_state s a) (project_state s b)
    dual_at s m =
        Dual-project_state c a b ne two s
          (All-Memᴰ (StateOk (scope c)) c.states v.declared.states m)

    -- Let two machines of the two different roles of a valid conversation be synchronised: they
    -- run the projected endpoints of one plan, at one state and one sequence number. Whatever
    -- the machine of the first role emits by a call that succeeds, the machine of the second
    -- role accepts; they are synchronised again, and the frame is a step of the conversation
    -- from the state before to the state after.
    pub accept-emit :
        {x y x' : Machine} {e : WireEnvelope V}
        → Synced c a b x y
        → Emits x e x'
        → (y' : Machine) × (accept y e ≡ ok (e.frame, y'))
          × Synced c a b x' y'
          × Step c x.current e.frame x'.current
    accept-emit h sent = deliver a b dual_at h sent

    -- The same, with the machines in their other parts.
    accept-emit_right :
        {x y y' : Machine} {e : WireEnvelope V}
        → Synced c a b x y
        → Emits y e y'
        → (x' : Machine) × (accept x e ≡ ok (e.frame, x'))
          × Synced c a b x' y'
          × Step c x.current e.frame x'.current
    accept-emit_right {x} {y} {y'} {e} h sent =
        let (x', r, s, t) = deliver b a (λ s m. Dual-sym (dual_at s m)) (Synced-sym c h) sent in
        let s' = Synced-sym c s in
        (
          x',
          r,
          s',
          subst (λ k. Step c x.current e.frame k) (sym s'.current)
              (subst (λ k. Step c k e.frame y'.current) (sym h.current) t),
        )

    -- Synchronised machines stay so, and the frames are a run of the conversation.
    pub Exchange-Run :
        {x y x' y' : Machine} {fs : List (Frame V)}
        → Synced c a b x y
        → Exchange x y fs x' y'
        → Synced c a b x' y' × Run c x.current fs x'.current
    Exchange-Run h stop = (h, done)
    Exchange-Run h (from_left {x} {y} {x'} {y'} {x''} {y''} {e} {f} {fs} sent got rest) =
        let (z, r, s, t) = accept-emit h sent in
        let same = ok_inj (sym r ∙ got) in
        let s' = subst (λ m. Synced c a b x' m) (ap (λ p. p.1) same) s in
        let (final, run) = Exchange-Run s' rest in
        (final, more (subst (λ g. Step c x.current g x'.current) (ap (λ p. p.0) same) t) run)
    Exchange-Run h (from_right {x} {y} {x'} {y'} {x''} {y''} {e} {f} {fs} sent got rest) =
        let (z, r, s, t) = accept-emit_right h sent in
        let same = ok_inj (sym r ∙ got) in
        let s' = subst (λ m. Synced c a b m y') (ap (λ p. p.1) same) s in
        let (final, run) = Exchange-Run s' rest in
        (
          final,
          more
              (subst (λ g. Step c x.current g x'.current) (ap (λ p. p.0) same)
                (subst (λ m. Step c x.current e.frame m.current) (ap (λ p. p.1) same) t))
              run,
        )
