-- ===== src/Machine/Find.antt =====
-- The states of the machine of a role.
use mathlib.Core.List.Memᴰ
use mathlib.Core.Logic.{⊎_elim}
use colloq.Prelude.{
  String, ◌≡◌, refl, sym, ◌∙◌, ap, subst, inl, inr, some, List, [], ◌∷◌, map, ◌==◌, Memᴰ, find?,
  String-cases, Memᴰ-map, Memᴰ_of_map, Bool-cases,
}
use colloq.Conversation as Conversation
use colloq.Conversation.{GlobalState}
use colloq.Validate.Spec.{IsNodup, IsValid, state_ids}
use colloq.Project.{id, project_state, endpoint_for}
use colloq.Machine.{Machine, state_at, state}

-- Projection keeps the identifier of a state.
pub id-project_state :
    (s : GlobalState) (role : String) → id (project_state s role) ≡ Conversation.id s
unfolding id project_state Conversation.id
id-project_state (GlobalState.send i from to m n d f) role = elim (Bool-cases (from == role)) [
  | inl e ↦ rw e
  | inr e ↦ rw e
]
id-project_state (GlobalState.choice i chooser bs f) role = elim (Bool-cases (chooser == role)) [
  | inl e ↦ rw e
  | inr e ↦ rw e
]
id-project_state (GlobalState.cancel i from to what n f) role = elim (Bool-cases (from == role)) [
  | inl e ↦ rw e
  | inr e ↦ rw e
]
id-project_state (GlobalState.end i) role = refl
id-project_state (GlobalState.fail i f) role = refl

find-project :
    (role : String) (s : GlobalState) (ss : List GlobalState)
    → IsNodup (map Conversation.id ss)
    → Memᴰ s ss
    → find? (λ t. id t == Conversation.id s) (map (λ t. project_state t role) ss)
      ≡ some (project_state s role)
find-project role s [] n m = absurd (Memᴰ.not-nil m)
find-project role s (t ∷ ss) n m =
    elim (String-cases (id (project_state t role)) (Conversation.id s)) [
      | inl (e, p) ↦ rw e (
          ⊎_elim (λ q. ap (λ u. some (project_state u role)) (sym q))
            (λ q. absurd (
              n.0 (
                subst (λ u. Memᴰ u (map Conversation.id ss)) (sym p ∙ id-project_state t role)
                  (Memᴰ-map Conversation.id s ss q))))
            (Memᴰ.cases_cons m))
      | inr (e, p) ↦ rw e (
          ⊎_elim (λ q. absurd (p (id-project_state t role ∙ ap Conversation.id (sym q))))
            (λ q. find-project role s ss n.1 q) (Memᴰ.cases_cons m))
    ]

module _ {ℓ} {V : Type ℓ} (c : Conversation.Conversation V) where
  -- The machine runs the endpoint of the role, at a state of the conversation.
  pub record Follows (role : String) (m : Machine) : Type 0 where
    pub machine : m.endpoint ≡ endpoint_for c role
    pub at : Memᴰ m.current (state_ids c)

  pub state-endpoint_for :
      IsValid c
      → (role : String) (m : Machine) (s : GlobalState) → m.endpoint ≡ endpoint_for c role
      → Memᴰ s c.states
      → state_at m (Conversation.id s) ≡ some (project_state s role)
  unfolding state_at endpoint_for
  state-endpoint_for v role m s e x =
      ap (λ q. find? (λ t. id t == Conversation.id s) q.states) e
      ∙ find-project role s c.states v.declared.distinct x

  -- So its `state` never panics.
  pub state-Follows :
      IsValid c
      → {role : String} {m : Machine} → Follows role m
      → (s : GlobalState) × Memᴰ s c.states
        × (Conversation.id s ≡ m.current)
        × (state m ≡ some (project_state s role))
  unfolding state
  state-Follows v {role} {m} h =
      let (s, x, p) = Memᴰ_of_map Conversation.id m.current c.states h.at in
      (s, x, p, ap (state_at m) (sym p) ∙ state-endpoint_for v role m s h.machine x)
