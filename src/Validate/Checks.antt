-- ===== src/Validate/Checks.antt =====
-- What each check of a state asks.
use colloq.Prelude.{
  subst, ap, ◌∙◌, some_inj, iff_trans, ℕ, suc, ◌≤◌, String, ◌≡◌, ◌≢◌, refl, sym, ◌↔◌, Option, none,
  some, List, [], ◌∷◌, ◌++◌, true, false, not, ◌==◌, eq_iff, ltb, length, arith, All, Bool,
}
use colloq.Prelude.Maps.{Map, lookup, contains_key, contains_key_iff}
use colloq.Prelude.Sets.{contains}
use colloq.Conversation.{GlobalState, send, choice, cancel, end, fail}
use colloq.Validate.Spec.{Scope, StateOk, FailureEdge, Branch, Parties}
use colloq.Validate.{
  Names, validate_roles, validate_target, terminal_edge, failure_edge, validate_failure_edges,
  validate_branches, validate_state, validate_states, type_kinds,
}
use colloq.Validate.Reachability.{Location, Diagnostic, report}
use colloq.Validate.Lookup.{report-nil, append-nil_iff}

-- The names that a state may use, as the tests of `validate` read them.
abbrev pub tested : Names → Scope
tested n = record {
  role = λ i. contains i n.roles ≡ true;
  type_ = λ i. contains i n.types ≡ true;
  failure = λ i. contains i n.failures ≡ true;
  state = λ i. contains_key i n.states ≡ true;
  fails = λ i f. (j : String) × (lookup i n.states ≡ some (fail j f));
}

pub not-false : (b : Bool) → (not b ≡ false) ↔ (b ≡ true)
not-false b = ground arith

differ : (s t : String) → ((s == t) ≡ false) ↔ (s ≢ t)
differ s t = (λ h e. ground (arith, eq_iff s t), λ h. ground (arith, eq_iff s t))

-- A check passes exactly when its condition holds; checks in a row, when all of theirs do.
pub check_iff {ℓ} :
    {P : Type ℓ} {b : Bool} (code : String) (path : Location)
    → (b ≡ false) ↔ P
    → (report b code path ≡ []) ↔ P
check_iff {b} code path h = iff_trans (report-nil b code path) h

pub both {ℓ κ} :
    {P : Type ℓ} {Q : Type κ} {xs ys : List Diagnostic}
    → (xs ≡ []) ↔ P
    → (ys ≡ []) ↔ Q
    → (xs ++ ys ≡ []) ↔ (P × Q)
both {xs} {ys} f g =
    iff_trans (append-nil_iff xs ys) (λ (a, b). (f.0 a, g.0 b), λ (p, q). (f.1 p, g.1 q))

small : (k : ℕ) → (ltb k 2 ≡ false) ↔ (2 ≤ k)
small k = ground arith

module _ (n : Names) where
  validate_roles-nil :
      (index : ℕ) (from to : String)
      → (validate_roles index from to n.roles ≡ []) ↔ Parties (tested n) from to
  unfolding validate_roles
  validate_roles-nil index from to =
      both (check_iff _ _ (not-false (contains from n.roles)))
        (both (check_iff _ _ (not-false (contains to n.roles))) (check_iff _ _ (differ from to)))

  validate_target-nil :
      (index : ℕ) (edge target : String)
      → (validate_target index edge target n.states ≡ []) ↔ (contains_key target n.states ≡ true)
  unfolding validate_target
  validate_target-nil index edge target = check_iff _ _ (not-false (contains_key target n.states))

  -- Where the target is there, it has to be the terminal failure of the edge.
  terminal_edge-nil :
      (path : Location) (failure : String) (o : Option GlobalState)
      → (terminal_edge path failure o ≡ [])
        ↔ ((s : GlobalState) → o ≡ some s → (j : String) × (s ≡ fail j failure))
  unfolding terminal_edge
  terminal_edge-nil path failure none = (λ h s e. cc, λ h. refl)
  terminal_edge-nil path failure (some (fail j t)) =
      iff_trans (check_iff _ _ (iff_trans (not-false (t == failure)) (eq_iff t failure))) (
        λ p s e. (j, let q : s ≡ fail j t = cc in subst (λ u. s ≡ fail j u) p q),
        λ h. let (k, e) = h (fail j t) refl in cc,
      )
  terminal_edge-nil path failure (some (send i from to message next deadline f)) =
      (λ h. cc, λ h. let (k, e) = h (send i from to message next deadline f) refl in cc)
  terminal_edge-nil path failure (some (choice i chooser branches f)) =
      (λ h. cc, λ h. let (k, e) = h (choice i chooser branches f) refl in cc)
  terminal_edge-nil path failure (some (cancel i from to scope next f)) =
      (λ h. cc, λ h. let (k, e) = h (cancel i from to scope next f) refl in cc)
  terminal_edge-nil path failure (some (end i)) = (λ h. cc, λ h. let (k, e) = h (end i) refl in cc)

  fails_iff :
      (failure target : String)
      → ((contains_key target n.states ≡ true)
          × ((s : GlobalState)
              → lookup target n.states ≡ some s
              → (j : String) × (s ≡ fail j failure)))
        ↔ ((j : String) × (lookup target n.states ≡ some (fail j failure)))
  fails_iff failure target = (
    λ (c, h).
        let (s, e) = (contains_key_iff target n.states).0 c in
        let (j, p) = h s e in (j, e ∙ ap some p),
    λ (j, e). (
      (contains_key_iff target n.states).1 (fail j failure, e),
      λ s q. (j, some_inj (sym q ∙ e)),
    ),
  )

  failure_edge-nil :
      (index : ℕ) (failure target : String)
      → (failure_edge index n.failures n.states failure target ≡ [])
        ↔ FailureEdge (tested n) (failure, target)
  unfolding failure_edge
  failure_edge-nil index failure target =
      both (check_iff _ _ (not-false (contains failure n.failures))) (
        iff_trans
          (both (validate_target-nil index _ target)
            (terminal_edge-nil _ failure (lookup target n.states)))
          (fails_iff failure target))

  validate_failure_edges-nil :
      (index : ℕ) (edges : Map String)
      → (validate_failure_edges index n.failures n.states edges ≡ [])
        ↔ All (FailureEdge (tested n)) edges
  unfolding validate_failure_edges
  validate_failure_edges-nil index [] = (λ h. tt, λ h. refl)
  validate_failure_edges-nil index ((failure, target) ∷ edges) =
      both (failure_edge-nil index failure target) (validate_failure_edges-nil index edges)

  validate_branches-nil :
      (index : ℕ) (branches : Map String)
      → (validate_branches index n.states branches ≡ []) ↔ All (Branch (tested n)) branches
  unfolding validate_branches
  validate_branches-nil index [] = (λ h. tt, λ h. refl)
  validate_branches-nil index ((label, target) ∷ branches) =
      both (both (check_iff _ _ (differ label "")) (validate_target-nil index label target))
        (validate_branches-nil index branches)

  -- The checks of a state pass exactly when the state is as it should be.
  pub validate_state-nil :
      (index : ℕ) (s : GlobalState) → (validate_state n index s ≡ []) ↔ StateOk (tested n) s
  unfolding validate_state
  validate_state-nil index (send i from to message next deadline on_failure) =
      both (validate_roles-nil index from to) (
        both (check_iff _ _ (not-false (contains message n.types))) (
          both (validate_target-nil index "next" next)
            (validate_failure_edges-nil index on_failure)))
  validate_state-nil index (choice i chooser branches on_failure) =
      both (check_iff _ _ (not-false (contains chooser n.roles))) (
        both (check_iff _ _ (small (length branches))) (
          both (validate_branches-nil index branches)
            (validate_failure_edges-nil index on_failure)))
  validate_state-nil index (cancel i from to scope next on_failure) =
      both (validate_roles-nil index from to) (
        both (check_iff _ _ (differ scope "")) (
          both (validate_target-nil index "next" next)
            (validate_failure_edges-nil index on_failure)))
  validate_state-nil index (fail i failure) =
      check_iff _ _ (not-false (contains failure n.failures))
  validate_state-nil index (end i) = (λ h. tt, λ h. refl)

  pub validate_states-nil :
      (index : ℕ) (ss : List GlobalState)
      → (validate_states n index ss ≡ []) ↔ All (StateOk (tested n)) ss
  unfolding validate_states
  validate_states-nil index [] = (λ h. tt, λ h. refl)
  validate_states-nil index (s ∷ ss) =
      both (validate_state-nil index s) (validate_states-nil (suc index) ss)

pub type_kinds-nil {ℓ} :
    {V : Type ℓ} (index : ℕ) (definitions : List (Map V))
    → (type_kinds index definitions ≡ []) ↔ All (λ d. contains_key "kind" d ≡ true) definitions
unfolding type_kinds
type_kinds-nil index [] = (λ h. tt, λ h. refl)
type_kinds-nil index (d ∷ definitions) =
    both (check_iff _ _ (not-false (contains_key "kind" d)))
      (type_kinds-nil (suc index) definitions)
