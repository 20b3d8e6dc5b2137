-- ===== src/Validate.antt =====
-- `validate` of src/lib.rs and its helpers. A diagnostic is its code and its path; the text of its
-- message is left out.
pub mod Reachability
pub mod Lookup
pub mod StateMap
pub mod Spec
pub mod Checks
pub mod Correct
pub mod Targets
use Prim.Native.String.{◌++◌ as str_append}
use colloq.Prelude.{
  ℕ, zero, suc, String, Option, none, some, List, [], ◌∷◌, ◌++◌, map, Bool, true, false, not, ◌==◌,
  if◌then◌else◌, ltb, eqb, length, Result, ok, err,
}
use colloq.Prelude.Maps.{Map, lookup, insert, contains_key}
use colloq.Prelude.Sets.{StringSet, contains, add}
use Reachability.{Location, root, item, item_at, Diagnostic, report, validate_reachability}
use colloq.Conversation.{
  Conversation, GlobalState, send, choice, cancel, end, fail, id, conversation_format,
}

-- The loop of `unique_ids`: the set `seen` and the diagnostics.
id_check : String → ℕ → String → StringSet → List Diagnostic
id_check path index i seen =
    if i == ""
    then report true "CLQ0011" (item_at path index "id")
    else report (contains i seen) "CLQ0012" (item_at path index "id")

remember : String → StringSet → StringSet
remember i seen = if i == "" then seen else add i seen

unfoldable pub unique_ids : String → ℕ → StringSet → List String → StringSet × List Diagnostic
unfolding id_check remember
unique_ids path index seen [] = (seen, [])
unique_ids path index seen (i ∷ ids) =
    let (all_seen, rest) = unique_ids path (suc index) (remember i seen) ids in
    (all_seen, id_check path index i seen ++ rest)

-- The loop that fills the map `states`.
unfoldable pub index_states :
    ℕ → Map GlobalState → List GlobalState → Map GlobalState × List Diagnostic
index_states index states [] = (states, [])
index_states index states (s ∷ rest) =
    let (all_states, more) = index_states (suc index) (insert (id s) s states) rest in
    (
      all_states,
      report (contains_key (id s) states) "CLQ0004" (item_at "$.states" index "id") ++ more,
    )

unfoldable pub type_kinds {ℓ} : {V : Type ℓ} → ℕ → List (Map V) → List Diagnostic
type_kinds index [] = []
type_kinds index (definition ∷ rest) =
    report (not (contains_key "kind" definition)) "CLQ0003" (item "$.types" index)
    ++ type_kinds (suc index) rest

unfoldable pub validate_roles : ℕ → String → String → StringSet → List Diagnostic
validate_roles index from to roles =
    report (not (contains from roles)) "CLQ0013" (item_at "$.states" index "from")
    ++ (report (not (contains to roles)) "CLQ0014" (item_at "$.states" index "to")
        ++ report (from == to) "CLQ0015" (item "$.states" index))

unfoldable pub validate_target : ℕ → String → String → Map GlobalState → List Diagnostic
validate_target index edge target states =
    report (not (contains_key target states)) "CLQ0016" (item_at "$.states" index edge)

terminal_edge : Location → String → Option GlobalState → List Diagnostic
terminal_edge path failure none = []
terminal_edge path failure (some (fail i terminal_failure)) =
    report (not (terminal_failure == failure)) "CLQ0020" path
terminal_edge path failure (some (send _ _ _ _ _ _ _)) = report true "CLQ0020" path
terminal_edge path failure (some (choice _ _ _ _)) = report true "CLQ0020" path
terminal_edge path failure (some (cancel _ _ _ _ _ _)) = report true "CLQ0020" path
terminal_edge path failure (some (end _)) = report true "CLQ0020" path

failure_edge : ℕ → StringSet → Map GlobalState → String → String → List Diagnostic
unfolding terminal_edge validate_target
failure_edge index failures states failure target =
    let edge = str_append "on_failure." failure in
    report (not (contains failure failures)) "CLQ0019" (item_at "$.states" index edge)
    ++ (validate_target index edge target states
        ++ terminal_edge (item_at "$.states" index edge) failure (lookup target states))

unfoldable pub validate_failure_edges :
    ℕ → StringSet → Map GlobalState → Map String → List Diagnostic
unfolding failure_edge
validate_failure_edges index failures states [] = []
validate_failure_edges index failures states ((failure, target) ∷ rest) =
    failure_edge index failures states failure target
    ++ validate_failure_edges index failures states rest

unfoldable pub validate_branches : ℕ → Map GlobalState → Map String → List Diagnostic
unfolding validate_target
validate_branches index states [] = []
validate_branches index states ((label, target) ∷ rest) =
    (report (label == "") "CLQ0009" (item_at "$.states" index "branches")
      ++ validate_target index label target states)
    ++ validate_branches index states rest

-- The identifiers that the declarations of a conversation introduce.
pub record Names : Type 0 where
  pub roles : StringSet
  pub types : StringSet
  pub failures : StringSet
  pub states : Map GlobalState

-- One round of the loop over the states.
unfoldable pub validate_state : Names → ℕ → GlobalState → List Diagnostic
unfolding validate_roles validate_target validate_failure_edges validate_branches
validate_state n index (send i from to message next deadline on_failure) =
    validate_roles index from to n.roles
    ++ (report (not (contains message n.types)) "CLQ0006" (item_at "$.states" index "message")
        ++ (validate_target index "next" next n.states
            ++ validate_failure_edges index n.failures n.states on_failure))
validate_state n index (choice i chooser branches on_failure) =
    report (not (contains chooser n.roles)) "CLQ0007" (item_at "$.states" index "chooser")
    ++ (report (ltb (length branches) 2) "CLQ0008" (item_at "$.states" index "branches")
        ++ (validate_branches index n.states branches
            ++ validate_failure_edges index n.failures n.states on_failure))
validate_state n index (cancel i from to scope next on_failure) =
    validate_roles index from to n.roles
    ++ (report (scope == "") "CLQ0010" (item_at "$.states" index "scope")
        ++ (validate_target index "next" next n.states
            ++ validate_failure_edges index n.failures n.states on_failure))
validate_state n index (fail i failure) =
    report (not (contains failure n.failures)) "CLQ0019" (item_at "$.states" index "failure")
validate_state n index (end i) = []

unfoldable pub validate_states : Names → ℕ → List GlobalState → List Diagnostic
unfolding validate_state
validate_states n index [] = []
validate_states n index (s ∷ rest) = validate_state n index s ++ validate_states n (suc index) rest

-- `if diagnostics.is_empty() { validate_reachability(…) }`
abbrev go_on : List Diagnostic → List Diagnostic → List Diagnostic
go_on [] more = more
go_on (d ∷ ds) more = d ∷ ds

-- `if diagnostics.is_empty() { Ok(()) } else { Err(…) }`
abbrev pub verdict : List Diagnostic → Result (List Diagnostic) (Unit {0})
verdict [] = ok tt
verdict (d ∷ ds) = err (d ∷ ds)

module _ {ℓ} {V : Type ℓ} (c : Conversation V) where
  -- The sets and the map that the declarations fill.
  unfoldable pub names : Names
  names = record {
    roles = (unique_ids "$.roles" 0 [] (map (λ r. r.id) c.roles)).0;
    types = (unique_ids "$.types" 0 [] (map (λ t. t.id) c.types)).0;
    failures = (unique_ids "$.failures" 0 [] (map (λ f. f.id) c.failures)).0;
    states = (index_states 0 [] c.states).0;
  }

  -- What `validate` has collected before it looks at reachability.
  unfoldable pub declaration_diagnostics : List Diagnostic
  declaration_diagnostics =
      report (not (c.colloq_conversation == conversation_format)) "CLQ0001"
        (root "$.colloq_conversation")
      ++ ((unique_ids "$.roles" 0 [] (map (λ r. r.id) c.roles)).1
          ++ (report (not (eqb (length c.roles) 2)) "CLQ0002" (root "$.roles")
              ++ ((unique_ids "$.types" 0 [] (map (λ t. t.id) c.types)).1
                  ++ (type_kinds 0 (map (λ t. t.definition) c.types)
                      ++ ((unique_ids "$.failures" 0 [] (map (λ f. f.id) c.failures)).1
                          ++ ((index_states 0 [] c.states).1
                              ++ (report (not (contains_key c.initial names.states)) "CLQ0005"
                                    (root "$.initial")
                                  ++ validate_states names 0 c.states)))))))

  unfoldable pub diagnostics : List Diagnostic
  diagnostics =
      go_on declaration_diagnostics (validate_reachability c.initial c.states names.states)

  unfoldable pub validate : Result (List Diagnostic) (Unit {0})
  validate = verdict diagnostics
