-- ===== src/Plan/Wire.antt =====
-- The transition dictionary of src/plan.rs: `WireOperation`, `derive_wire_plan` and `PlanError`.
pub mod Table
pub mod Bounds
use Prim.Native.Nat.{compare as compare_ℕ}
use Prim.Native.String.{compare}
use colloq.Prelude.{
  ℕ, suc, ◌+◌, String, Option, none, some, List, [], ◌∷◌, ◌++◌, map, Bool, leb, if◌then◌else◌,
  Result, ok, err, ◌>>=◌, flat_map, Ordering,
}
use colloq.Prelude.Maps.{Map, keys}
use colloq.Prelude.Order.{lex, by_key}
use colloq.Prelude.Sets.{insert_all}
use colloq.Project.{Endpoint, EndpointState}
use colloq.Validate.Reachability.{Diagnostic}

abbrev pub compact_wire_format : String
compact_wire_format = "compact-json-v0"

-- Why a plan is `Invalid`, in place of the text of the message.
pub data Reason : Type 0 where
  representation endpoint_count duplicate_roles noncanonical_wire too_many_transitions : Reason
  endpoint_format endpoint_ids endpoint_conversation no_states duplicate_states : Reason
  no_initial state_id unknown_target unknown_role : Reason

pub data PlanError : Type 0 where
  invalid_conversation : List Diagnostic → PlanError
  codec : PlanError
  version : (actual : String) → PlanError
  identity_mismatch : (declared calculated : String) → PlanError
  invalid : Reason → PlanError

-- `Data` is spelled `data_`.
pub data WireOperation : Type 0 where
  data_ : (from to message : String) → WireOperation
  select : (by label : String) → WireOperation
  cancel : (from to scope : String) → WireOperation

-- The derived `Ord` compares the variants in their order, then the fields in theirs.
abbrev pub operation_key : WireOperation → ℕ × (String × (String × String))
operation_key (data_ from to message) = (0, (from, (to, message)))
operation_key (select by label) = (1, (by, (label, "")))
operation_key (cancel from to scope) = (2, (from, (to, scope)))

abbrev pub compare_operation : WireOperation → WireOperation → Ordering
compare_operation = by_key operation_key (lex compare_ℕ (lex compare (lex compare compare)))

-- An item of the `BTreeSet`, and the order of the set.
abbrev pub Entry : Type 0
Entry = String × WireOperation

abbrev pub compare_entry : Entry → Entry → Ordering
compare_entry = lex compare compare_operation

-- `u16` holds `id`.
pub record WireTransition : Type 0 where
  pub id : ℕ
  pub state : String
  pub operation : WireOperation

pub record CompactWirePlan : Type 0 where
  pub encoding : String
  pub transitions : List WireTransition

-- One round of the inner loop of `derive_wire_plan`: what a state of the role's machine inserts.
unfoldable pub state_entries : String → EndpointState → List Entry
state_entries role (EndpointState.send i to message next d f) = (i, data_ role to message) ∷ []
state_entries role (EndpointState.receive i from message next d f) =
    (i, data_ from role message) ∷ []
state_entries role (EndpointState.select i branches f) =
    map (λ label. (i, select role label)) (keys branches)
state_entries role (EndpointState.branch i from branches f) =
    map (λ label. (i, select from label)) (keys branches)
state_entries role (EndpointState.send_cancel i to scope next f) = (i, cancel role to scope) ∷ []
state_entries role (EndpointState.receive_cancel i from scope next f) =
    (i, cancel from role scope) ∷ []
state_entries role (EndpointState.end i) = []
state_entries role (EndpointState.fail i failure) = []

unfoldable pub endpoint_entries : Endpoint → List Entry
endpoint_entries e = flat_map (state_entries e.role) e.states

abbrev pub max_transitions : ℕ
max_transitions = 65535

-- `enumerate` and `u16::try_from(index + 1)`.
unfoldable pub number : ℕ → List Entry → Result PlanError (List WireTransition)
number index [] = ok []
number index ((state, operation) ∷ rest) =
    if leb (index + 1) max_transitions
    then (do
      more ← number (suc index) rest
      ok (record { id = index + 1; state = state; operation = operation } ∷ more))
    else err (invalid too_many_transitions)

unfoldable pub entries : List Endpoint → List Entry
entries endpoints = insert_all compare_entry (flat_map endpoint_entries endpoints) []

unfoldable pub derive_wire_plan : List Endpoint → Result PlanError CompactWirePlan
derive_wire_plan endpoints = do
  transitions ← number 0 (entries endpoints)
  ok (record { encoding = compact_wire_format; transitions = transitions })
