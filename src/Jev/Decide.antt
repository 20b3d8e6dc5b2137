-- ===== src/Jev/Decide.antt =====
-- What a decision is good for: the machine of the chooser can emit its label.
use mathlib.Core.List.Memᴰ
use mathlib.Core.Logic.{⊎_elim}
use Prim.Native.String.{compare}
use colloq.Prelude.{
  String, ◌≡◌, refl, sym, ap, ◌∙◌, subst, inl, inr, some, [], ◌∷◌, true, ◌==◌, eq_iff, eq_refl,
  if◌then◌else◌, All-Memᴰ, Memᴰ, Result, ok, >>=-eq-ok, ok_inj, require, require-eq-ok, Bool-cases,
  ◌↔◌,
}
use colloq.Prelude.Maps.{Map, keys, lookup, contains_key, lookup_of_contains_key}
use colloq.Prelude.Order.{compare-IsOrder}
use colloq.Prelude.Sets.{insert_all, Memᴰ-insert_all}
use colloq.Conversation as Conversation
use colloq.Conversation.{Conversation, GlobalState}
use colloq.Machine.{Machine, emit, emit_select, state, state_at}
use colloq.Machine.Find.{Follows, state-endpoint_for}
use colloq.Machine.Outcome.{emit_select-some}
use colloq.Project.{EndpointState, project_state, endpoint_for}
use colloq.Trace.{Frame}
use package.colloq.Jev.{
  Floats, JevBinding, BoundChoice, ChoiceRequest, ChoiceAnswer, JevError, JevDecision, in_unit,
  bind, decide,
}
use package.colloq.Jev.Bound.{Options, Bound}
use package.colloq.Jev.Binds.{bind_iff}

contains_key-keys {ℓ} :
    {A : Type ℓ} (k : String) (m : Map A) → (contains_key k m ≡ true) ↔ Memᴰ k (keys m)
unfolding contains_key
contains_key-keys k [] = (λ h. cc, λ m. absurd (Memᴰ.not-nil m))
contains_key-keys k ((j, v) ∷ m) = elim (Bool-cases (j == k)) [
  | inl e ↦ (λ h. Memᴰ.head (sym ((eq_iff j k).0 e)), λ h. rw e refl)
  | inr e ↦ rw e (
    λ h. Memᴰ.tail ((contains_key-keys k m).0 h),
    λ h.
        ⊎_elim (λ p. absurd (cc (e, (eq_iff j k).1 (sym p)))) (contains_key-keys k m).1
          (Memᴰ.cases_cons h),
  )
]

module _ {V F : Type 0} (floats : Floats F) where
  -- A decision of a bound choice: its label is the escalation or an option of the binding.
  pub record Decided (x : BoundChoice V F) (r : JevDecision F) : Type 0 where
    pub escalated : r.escalated ≡ floats.lt r.confidence x.binding.threshold
    pub label : r.label ≡ (if r.escalated then x.binding.escalate else r.choice)
    pub option : contains_key r.choice x.binding.criteria ≡ true
    pub confidence : in_unit floats r.confidence ≡ true
    pub chooser : r.chooser ≡ x.chooser
    pub state : r.state ≡ x.binding.state

  decide-Decided :
      (choose : ChoiceRequest V → Result JevError (ChoiceAnswer F)) (x : BoundChoice V F) (s : V)
      (r : JevDecision F)
      → decide floats choose x s ≡ ok r
      → Decided x r
  unfolding decide
  decide-Decided choose x s r h =
      let (answer, _, h) = >>=-eq-ok (choose _) _ h in
      let (_, t, h) = >>=-eq-ok (require (contains_key answer.choice x.binding.criteria) _) _ h in
      let (_, u, h) = >>=-eq-ok (require (in_unit floats answer.confidence) _) _ h in
      subst (Decided x) (ok_inj h) (record {
        escalated = refl;
        label = refl;
        option = require-eq-ok _ _ t;
        confidence = require-eq-ok _ _ u;
        chooser = refl;
        state = refl;
      })

  -- So the label is a branch.
  Decided-branch :
      (x : BoundChoice V F) (r : JevDecision F)
      → Options floats x.binding x.branches
      → Decided x r
      → Memᴰ r.label x.branches
  Decided-branch x r k d =
      let option =
        All-Memᴰ (λ k. Memᴰ k x.branches) (keys x.binding.criteria) k.declared
          ((contains_key-keys r.choice x.binding.criteria).0 d.option) in
      subst (λ l. Memᴰ l x.branches) (sym d.label)
        (elim (Bool-cases r.escalated) [ inl e ↦ rw e k.escalate | inr e ↦ rw e option ])

  module _ (c : Conversation V) (b : JevBinding V F) (x : BoundChoice V F) where
    branch-lookup :
        Bound floats c b x
        → (k : Map String) (label : String) → x.branches ≡ insert_all compare (keys k) []
        → Memᴰ label x.branches
        → (next : String) × (lookup label k ≡ some next)
    branch-lookup bound k label set m =
        let member : Memᴰ label (keys k) =
          ⊎_elim (λ m. m) (λ m. absurd (Memᴰ.not-nil m))
            ((Memᴰ-insert_all compare compare-IsOrder label (keys k) []).0
              (subst (Memᴰ label) set m)) in
        lookup_of_contains_key label k ((contains_key-keys label k).1 member)

    chooser-state :
        (i : String) (labels edges : Map String)
        → project_state (GlobalState.choice i x.chooser labels edges) x.chooser
          ≡ EndpointState.select i labels edges
    unfolding project_state
    chooser-state i labels edges = rw (eq_refl x.chooser) refl

    -- When `bind` returns a choice and `decide` a decision for it, the decision escalates just
    -- when its confidence is below the threshold, its label is the escalation then and the
    -- chosen option otherwise, and a machine of the chooser at the state of the binding emits
    -- the selection of the label.
    pub decide-emit_select :
        (choose : ChoiceRequest V → Result JevError (ChoiceAnswer F)) (s : V) (r : JevDecision F)
        (m : Machine)
        → bind floats c b ≡ ok x
        → decide floats choose x s ≡ ok r
        → Follows c x.chooser m
        → m.current ≡ b.state
        → Decided x r
          × ((next : String) × (emit_select {V = V} m r.label
                ≡ ok (emit m (Frame.select x.chooser r.label) next)))
    unfolding Conversation.id state endpoint_for
    decide-emit_select choose s r m bound decided follows at =
        let (v, k) = (bind_iff floats c b x).0 bound in
        let d = decide-Decided choose x s r decided in
        let options = subst (λ y. Options floats y x.branches) (sym k.same) k.options in
        let (next, l) = branch-lookup k k.labels r.label k.set (Decided-branch x r options d) in
        let here : state m ≡ some (EndpointState.select b.state k.labels k.edges) =
          ap (state_at m) at
          ∙ (state-endpoint_for c v x.chooser m
                (GlobalState.choice b.state x.chooser k.labels k.edges) follows.machine k.state
              ∙ ap some (chooser-state b.state k.labels k.edges)) in
        (
          d,
          (
            next,
            emit_select-some m r.label b.state next k.labels k.edges here l
                ∙ ap (λ (role : String). ok (emit m (Frame.select role r.label) next))
                    (ap (λ e. e.role) follows.machine),
          ),
        )
