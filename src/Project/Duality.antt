-- ===== src/Project/Duality.antt =====
-- How the two endpoints of a conversation match, state by state.
use mathlib.Core.List.Memᴰ
use mathlib.Core.Logic.{⊎_elim}
use colloq.Prelude.{
  String, ◌≡◌, ◌≢◌, refl, sym, ◌∙◌, ap, subst, ◌⊎◌, inl, inr, Option, List, [], ◌∷◌, map, true,
  false, ◌==◌, String-cases, Memᴰ, All, arith, length, ok, eq_refl, >>=-eq-ok, length-map, map-map,
}
use colloq.Prelude.Maps.{Map}
use colloq.Conversation.{Conversation, GlobalState, Role}
use colloq.Validate.{validate}
use colloq.Validate.Spec.{StateOk, IsValid, IsNodup, scope, role_ids}
use colloq.Validate.Correct.{validate_iff}
use colloq.Project.{
  EndpointState, Endpoint, project_state, endpoint_for, project_validated, project,
}

-- What the role `a` does where the role `b` does the matching thing, at the same state, towards
-- the same next states and on the same failures.
pub data Dual (a b : String) : EndpointState → EndpointState → Type 0 where
  sends :
      {i m n : String} {d : Option String} {f : Map String}
      → Dual a b (EndpointState.send i b m n d f) (EndpointState.receive i a m n d f)
  receives :
      {i m n : String} {d : Option String} {f : Map String}
      → Dual a b (EndpointState.receive i b m n d f) (EndpointState.send i a m n d f)
  selects :
      {i : String} {bs f : Map String}
      → Dual a b (EndpointState.select i bs f) (EndpointState.branch i a bs f)
  branches :
      {i : String} {bs f : Map String}
      → Dual a b (EndpointState.branch i b bs f) (EndpointState.select i bs f)
  cancels :
      {i s n : String} {f : Map String}
      → Dual a b (EndpointState.send_cancel i b s n f) (EndpointState.receive_cancel i a s n f)
  is_cancelled :
      {i s n : String} {f : Map String}
      → Dual a b (EndpointState.receive_cancel i b s n f) (EndpointState.send_cancel i a s n f)
  ends : {i : String} → Dual a b (EndpointState.end i) (EndpointState.end i)
  fails : {i f : String} → Dual a b (EndpointState.fail i f) (EndpointState.fail i f)

abbrev pub AllDual : String → String → List EndpointState → List EndpointState → Type 0
AllDual a b [] [] = Unit
AllDual a b [] (y ∷ ys) = ⊥
AllDual a b (x ∷ xs) [] = ⊥
AllDual a b (x ∷ xs) (y ∷ ys) = Dual a b x y × AllDual a b xs ys

-- Seen from the other role.
pub Dual-sym : {a b : String} {s t : EndpointState} → Dual a b s t → Dual b a t s
Dual-sym Dual.sends = Dual.receives
Dual-sym Dual.receives = Dual.sends
Dual-sym Dual.selects = Dual.branches
Dual-sym Dual.branches = Dual.selects
Dual-sym Dual.cancels = Dual.is_cancelled
Dual-sym Dual.is_cancelled = Dual.cancels
Dual-sym Dual.ends = Dual.ends
Dual-sym Dual.fails = Dual.fails

-- One of two roles, and the other.
pub one_of : {a b r : String} → Memᴰ r (a ∷ b ∷ []) → (r ≡ a) ⊎ (r ≡ b)
one_of m = ⊎_elim inl (λ t. inr (Memᴰ.eq_of_singleton t)) (Memᴰ.cases_cons m)

-- The two parties of a message, in either order.
pub Parties-cases :
    {a b from to : String}
    → Memᴰ from (a ∷ b ∷ [])
    → Memᴰ to (a ∷ b ∷ [])
    → from ≢ to
    → (from ≡ a) × (to ≡ b) ⊎ (from ≡ b) × (to ≡ a)
Parties-cases mf mt ne =
    ⊎_elim (λ p. ⊎_elim (λ q. absurd (ne (p ∙ sym q))) (λ q. inl (p, q)) (one_of mt))
      (λ p. ⊎_elim (λ q. inr (p, q)) (λ q. absurd (ne (p ∙ sym q))) (one_of mt)) (one_of mf)

module _ {ℓ} {V : Type ℓ} (c : Conversation V) (a b : String) (ne : a ≢ b)
    (two : role_ids c ≡ a ∷ b ∷ []) where
  same : (s : String) → (s == s) ≡ true
  same s = eq_refl s

  other : {s t : String} → s ≢ t → (s == t) ≡ false
  other {s} {t} h = elim (String-cases s t) [ inl (e, p) ↦ absurd (h p) | inr (e, p) ↦ e ]

  pub Dual-project_state :
      (s : GlobalState) → StateOk (scope c) s → Dual a b (project_state s a) (project_state s b)
  unfolding project_state
  Dual-project_state (GlobalState.send i from to m n d f) ((p, (q, r)), rest) =
      ⊎_elim (λ (x, y). rw (x, y, same a, other ne) Dual.sends)
        (λ (x, y). rw (x, y, same b, other (λ e. ne (sym e))) Dual.receives)
        (Parties-cases (subst (Memᴰ from) two p) (subst (Memᴰ to) two q) r)
  Dual-project_state (GlobalState.choice i chooser bs f) (p, rest) =
      ⊎_elim (λ (x : chooser ≡ a). rw (x, same a, other ne) Dual.selects)
        (λ (x : chooser ≡ b). rw (x, same b, other (λ e. ne (sym e))) Dual.branches)
        (one_of (subst (Memᴰ chooser) two p))
  Dual-project_state (GlobalState.cancel i from to s n f) ((p, (q, r)), rest) =
      ⊎_elim (λ (x, y). rw (x, y, same a, other ne) Dual.cancels)
        (λ (x, y). rw (x, y, same b, other (λ e. ne (sym e))) Dual.is_cancelled)
        (Parties-cases (subst (Memᴰ from) two p) (subst (Memᴰ to) two q) r)
  Dual-project_state (GlobalState.end i) h = Dual.ends
  Dual-project_state (GlobalState.fail i f) h = Dual.fails

  AllDual-project :
      (ss : List GlobalState)
      → All (StateOk (scope c)) ss
      → AllDual a b (map (λ s. project_state s a) ss) (map (λ s. project_state s b) ss)
  AllDual-project [] h = tt
  AllDual-project (s ∷ ss) h = (Dual-project_state s h.0, AllDual-project ss h.1)

two_of : (ids : List String) → length ids ≡ 2 → (a : String) × (b : String) × (ids ≡ a ∷ b ∷ [])
two_of [] h = absurd (omega arith)
two_of (a ∷ []) h = absurd (omega arith)
two_of (a ∷ b ∷ []) h = (a, b, refl)
two_of (a ∷ b ∷ d ∷ ids) h = absurd (omega arith)

module _ {ℓ} {V : Type ℓ} (c : Conversation V) where
  -- The identifiers of the two roles of a valid conversation.
  pub valid_roles : IsValid c → (a : String) × (b : String) × (role_ids c ≡ a ∷ b ∷ []) × (a ≢ b)
  valid_roles v =
      let (a, b, e) =
        two_of (role_ids c) (length-map (λ (r : Role). r.id) c.roles ∙ v.declared.two_roles) in
      let nodup : IsNodup (a ∷ b ∷ []) = subst IsNodup e v.declared.roles.1 in
      (a, b, e, λ p. nodup.0 (Memᴰ.head p))

  -- The projection goes by the identifiers of the roles.
  pub project_validated-eq :
      (a b : String)
      → role_ids c ≡ a ∷ b ∷ []
      → project_validated c ≡ endpoint_for c a ∷ endpoint_for c b ∷ []
  unfolding project_validated
  project_validated-eq a b e =
      map-map (endpoint_for c) (λ (r : Role). r.id) c.roles ∙ ap (map (endpoint_for c)) e

  pub project-valid :
      {es : List Endpoint} → project c ≡ ok es → IsValid c × (es ≡ project_validated c)
  unfolding project
  project-valid h =
      let (u, v, e) = >>=-eq-ok (validate c) (λ _. ok (project_validated c)) h in
      ((validate_iff c).0 v, cc)

  -- When `project` returns endpoints for a conversation, these are two endpoints of different
  -- roles with one initial state, and their states are dual one by one: where one sends, chooses
  -- or cancels, the other takes the same thing from it, with the same next states, deadlines and
  -- failure edges.
  pub project-dual :
      {es : List Endpoint}
      → project c ≡ ok es
      → (x : Endpoint) × (y : Endpoint) × (es ≡ x ∷ y ∷ [])
        × (x.role ≢ y.role)
        × (x.initial ≡ y.initial)
        × AllDual x.role y.role x.states y.states
  unfolding endpoint_for
  project-dual h =
      let (v, e) = project-valid h in
      let (a, b, two, ne) = valid_roles v in
      (
        endpoint_for c a,
        endpoint_for c b,
        e ∙ project_validated-eq a b two,
        ne,
        refl,
        AllDual-project c a b ne two c.states v.declared.states,
      )
