-- ===== src/Jev/Bound.antt =====
-- When a binding fits its conversation.
use Prim.Native.String.{compare}
use colloq.Prelude.{
  ℕ, ◌≤◌, String, ◌≡◌, ◌≢◌, refl, ◌↔◌, iff_trans, inl, inr, Option, List, [], ◌∷◌, Bool, true,
  false, not, ◌&&◌, ◌==◌, eq_iff, ltb, length, All, Memᴰ, ok, arith, String-cases,
}
use colloq.Prelude.Maps.{Map, keys, contains_key}
use colloq.Prelude.Sets.{StringSet, contains, contains_iff, insert_all}
use colloq.Conversation.{Conversation, GlobalState}
use colloq.Validate.{verdict}
use colloq.Validate.Checks.{check_iff, both, not-false}
use colloq.Validate.Reachability.{Diagnostic}
use package.colloq.Jev.{
  Floats, JevBinding, BoundChoice, jev_binding_format, is_blank, in_unit, option_diagnostics,
  branch_diagnostics, binding_diagnostics, choice_diagnostics,
}

differ : (s t : String) → (not (s == t) ≡ false) ↔ (s ≡ t)
differ s t = iff_trans (not-false (s == t)) (eq_iff s t)

same_false : (b : Bool) → (b ≡ false) ↔ (b ≡ false)
same_false b = (λ h. h, λ h. h)

option_diagnostics-nil :
    (branches : StringSet) (options : List String)
    → (option_diagnostics branches options ≡ []) ↔ All (λ k. Memᴰ k branches) options
unfolding option_diagnostics
option_diagnostics-nil branches [] = (λ h. tt, λ h. refl)
option_diagnostics-nil branches (k ∷ options) =
    both (check_iff _ _ (iff_trans (not-false (contains k branches)) (contains_iff k branches)))
      (option_diagnostics-nil branches options)

missing_iff :
    (branch escalate : String) (criteria : Map (Option String))
    → ((not (branch == escalate) && not (contains_key branch criteria)) ≡ false)
      ↔ (branch ≢ escalate → contains_key branch criteria ≡ true)
missing_iff branch escalate criteria = elim (String-cases branch escalate) [
  | inl (e, p) ↦ (λ h n. absurd (n p), λ h. rw e refl)
  | inr (e, n) ↦ (λ h _. ground (arith, e), λ h. let k = h n in rw (e, k) refl)
]

branch_diagnostics-nil :
    (escalate : String) (criteria : Map (Option String)) (branches : List String)
    → (branch_diagnostics escalate criteria branches ≡ [])
      ↔ All (λ k. k ≢ escalate → contains_key k criteria ≡ true) branches
unfolding branch_diagnostics
branch_diagnostics-nil escalate criteria [] = (λ h. tt, λ h. refl)
branch_diagnostics-nil escalate criteria (k ∷ branches) =
    both (check_iff _ _ (missing_iff k escalate criteria))
      (branch_diagnostics-nil escalate criteria branches)

pub verdict-ok : (ds : List Diagnostic) → (verdict ds ≡ ok tt) ↔ (ds ≡ [])
verdict-ok [] = (λ h. refl, λ h. refl)
verdict-ok (d ∷ ds) = (λ h. cc, λ h. cc)

few : (n : ℕ) → (ltb n 2 ≡ false) ↔ (2 ≤ n)
few n = ground arith

module _ {V F : Type 0} (floats : Floats F) where
  -- The fields of a binding, apart from the state it names.
  pub record Fields (module_id : String) (b : JevBinding V F) : Type 0 where
    pub format : b.colloq_jev ≡ jev_binding_format
    pub conversation : b.conversation ≡ module_id
    pub model : is_blank b.model ≡ false
    pub threshold : in_unit floats b.threshold ≡ true
    pub options : 2 ≤ length b.criteria

  -- The options are branches, each branch but that of the escalation is an option, and the
  -- escalation is a branch.
  pub record Options (b : JevBinding V F) (branches : List String) : Type 0 where
    pub declared : All (λ k. Memᴰ k branches) (keys b.criteria)
    pub covered : All (λ k. k ≢ b.escalate → contains_key k b.criteria ≡ true) branches
    pub escalate : Memᴰ b.escalate branches

  pub binding_diagnostics-nil :
      (module_id : String) (b : JevBinding V F)
      → (binding_diagnostics floats module_id b ≡ []) ↔ Fields module_id b
  unfolding binding_diagnostics
  binding_diagnostics-nil module_id b =
      iff_trans
        (both (check_iff _ _ (differ b.colloq_jev jev_binding_format)) (
          both (check_iff _ _ (differ b.conversation module_id)) (
            both (check_iff _ _ (same_false (is_blank b.model))) (
              both (check_iff _ _ (not-false (in_unit floats b.threshold)))
                (check_iff _ _ (few (length b.criteria)))))))
        (
          λ (f, (c, (m, (t, o)))). record {
            format = f;
            conversation = c;
            model = m;
            threshold = t;
            options = o;
          },
          λ k. (k.format, (k.conversation, (k.model, (k.threshold, k.options)))),
        )

  pub choice_diagnostics-nil :
      (b : JevBinding V F) (branches : StringSet)
      → (choice_diagnostics floats b branches ≡ []) ↔ Options b branches
  unfolding choice_diagnostics
  choice_diagnostics-nil b branches =
      iff_trans
        (both (option_diagnostics-nil branches (keys b.criteria)) (
          both (branch_diagnostics-nil b.escalate b.criteria branches) (
            check_iff _ _ (
              iff_trans (not-false (contains b.escalate branches))
                (contains_iff b.escalate branches)))))
        (
          λ (d, (c, e)). record { declared = d; covered = c; escalate = e },
          λ k. (k.declared, (k.covered, k.escalate)),
        )

  -- What `bind` returns: the choice state of the conversation, its chooser, and the set of its
  -- labels.
  pub record Bound (c : Conversation V) (b : JevBinding V F) (x : BoundChoice V F) : Type 0 where
    pub fields : Fields c.module_.id b
    pub labels : Map String
    pub edges : Map String
    pub state : Memᴰ (GlobalState.choice b.state x.chooser labels edges) c.states
    pub set : x.branches ≡ insert_all compare (keys labels) []
    pub options : Options b x.branches
    pub same : x.binding ≡ b
