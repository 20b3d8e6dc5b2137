-- ===== src/Plan/Verify.antt =====
-- `ColloqPlan` of src/plan.rs and its verification: the structure of its endpoints, its identity
-- and its dictionary. A message of an `Invalid` error is its `Reason`.
use Prim.Native.String.{compare}
use colloq.Prelude.{
  String, Option, none, some, List, [], ◌∷◌, ◌++◌, map, Bool, true, false, not, ◌&&◌, ◌==◌, eqb,
  length, Result, ok, ◌>>=◌, ◌>>◌, require,
}
use colloq.Prelude.Maps.{values}
use colloq.Prelude.Sets.{StringSet, contains, insert_all}
use colloq.Conversation.{endpoint_format}
use colloq.Project.{Endpoint, EndpointState, id}
use colloq.Plan.Wire.{
  PlanError, version, identity_mismatch, invalid, Reason, WireOperation, data_, select, cancel,
  WireTransition, CompactWirePlan, derive_wire_plan,
}
use colloq.Plan.Identity.{valid_id, valid_sha256, sha256_identity, or_codec}
use colloq.Codec.{Bytes, Serializer}

abbrev pub plan_format : String
plan_format = "0.1.0"

pub record ColloqPlan : Type 0 where
  pub colloq_plan : String
  pub conversation : String
  pub conversation_identity : String
  pub plan_identity : String
  pub endpoints : List Endpoint
  pub wire : Option CompactWirePlan

-- What the identity of a plan is calculated from.
pub record SemanticPlan : Type 0 where
  pub colloq_plan : String
  pub conversation : String
  pub conversation_identity : String
  pub endpoints : List Endpoint
  pub wire : Option CompactWirePlan

unfoldable pub endpoint_successors : EndpointState → List String
endpoint_successors (EndpointState.send i to message next deadline on_failure) =
    next ∷ values on_failure
endpoint_successors (EndpointState.receive i from message next deadline on_failure) =
    next ∷ values on_failure
endpoint_successors (EndpointState.select i branches on_failure) =
    values branches ++ values on_failure
endpoint_successors (EndpointState.branch i from branches on_failure) =
    values branches ++ values on_failure
endpoint_successors (EndpointState.send_cancel i to scope next on_failure) =
    next ∷ values on_failure
endpoint_successors (EndpointState.receive_cancel i from scope next on_failure) =
    next ∷ values on_failure
endpoint_successors (EndpointState.end i) = []
endpoint_successors (EndpointState.fail i failure) = []

unfoldable pub endpoint_peer : EndpointState → Option String
endpoint_peer (EndpointState.send i to message next deadline on_failure) = some to
endpoint_peer (EndpointState.receive i from message next deadline on_failure) = some from
endpoint_peer (EndpointState.select i branches on_failure) = none
endpoint_peer (EndpointState.branch i from branches on_failure) = some from
endpoint_peer (EndpointState.send_cancel i to scope next on_failure) = some to
endpoint_peer (EndpointState.receive_cancel i from scope next on_failure) = some from
endpoint_peer (EndpointState.end i) = none
endpoint_peer (EndpointState.fail i failure) = none

abbrev pub is_empty {ℓ} : {A : Type ℓ} → List A → Bool
is_empty [] = true
is_empty (x ∷ xs) = false

-- The set that `collect` fills.
unfoldable pub collect : List String → StringSet
collect xs = insert_all compare xs []

-- The loop over the targets of a state.
unfoldable pub verify_targets : StringSet → List String → Result PlanError (Unit {0})
verify_targets state_ids [] = ok tt
verify_targets state_ids (target ∷ targets) = do
  require (contains target state_ids) (invalid Reason.unknown_target)
  verify_targets state_ids targets

unfoldable pub verify_role : StringSet → Option String → Result PlanError (Unit {0})
verify_role roles none = ok tt
verify_role roles (some peer) = require (contains peer roles) (invalid Reason.unknown_role)

-- The loop over the states of an endpoint.
unfoldable pub verify_states :
    StringSet → StringSet → List EndpointState → Result PlanError (Unit {0})
verify_states roles state_ids [] = ok tt
verify_states roles state_ids (state ∷ states) = do
  require (valid_id (id state)) (invalid Reason.state_id)
  verify_targets state_ids (endpoint_successors state)
  verify_role roles (endpoint_peer state)
  verify_states roles state_ids states

unfoldable pub verify_endpoint : Endpoint → String → StringSet → Result PlanError (Unit {0})
unfolding collect
verify_endpoint e conversation roles = do
  require (e.colloq_endpoint == endpoint_format) (invalid Reason.endpoint_format)
  require (valid_id e.role && valid_id e.initial) (invalid Reason.endpoint_ids)
  require (e.conversation == conversation) (invalid Reason.endpoint_conversation)
  require (not (is_empty e.states)) (invalid Reason.no_states)
  let state_ids = collect (map id e.states)
  require (eqb (length state_ids) (length e.states)) (invalid Reason.duplicate_states)
  require (contains e.initial state_ids) (invalid Reason.no_initial)
  verify_states roles state_ids e.states

unfoldable pub verify_endpoints : List Endpoint → String → StringSet → Result PlanError (Unit {0})
verify_endpoints [] conversation roles = ok tt
verify_endpoints (e ∷ es) conversation roles = do
  verify_endpoint e conversation roles
  verify_endpoints es conversation roles

-- The derived `PartialEq` of the dictionary and its parts.
abbrev pub equal_operation : WireOperation → WireOperation → Bool
equal_operation (data_ f t m) (data_ f' t' m') = f == f' && t == t' && m == m'
equal_operation (select b l) (select b' l') = b == b' && l == l'
equal_operation (cancel f t s) (cancel f' t' s') = f == f' && t == t' && s == s'
equal_operation _ _ = false

abbrev pub same_transitions : List WireTransition → List WireTransition → Bool
same_transitions [] [] = true
same_transitions (t ∷ ts) (u ∷ us) =
    (eqb t.id u.id && t.state == u.state && equal_operation t.operation u.operation)
    && same_transitions ts us
same_transitions _ _ = false

unfoldable pub same_wire : CompactWirePlan → CompactWirePlan → Bool
same_wire w v = w.encoding == v.encoding && same_transitions w.transitions v.transitions

unfoldable pub verify_wire : Option CompactWirePlan → List Endpoint → Result PlanError (Unit {0})
verify_wire none endpoints = ok tt
verify_wire (some wire) endpoints = do
  expected ← derive_wire_plan endpoints
  require (same_wire wire expected) (invalid Reason.noncanonical_wire)

module _ (json : Serializer SemanticPlan) (sha256 : Bytes → Bytes) where
  unfoldable pub calculate_identity : ColloqPlan → Result PlanError String
  calculate_identity p = do
    encoded ← or_codec (
        json.to_vec (record {
          colloq_plan = p.colloq_plan;
          conversation = p.conversation;
          conversation_identity = p.conversation_identity;
          endpoints = p.endpoints;
          wire = p.wire;
        }))
    ok (sha256_identity sha256 encoded)

  -- `ColloqPlan::verify`
  unfoldable pub verify : ColloqPlan → Result PlanError (Unit {0})
  unfolding verify_endpoints
  verify p = do
    require (p.colloq_plan == plan_format) (version p.colloq_plan)
    require (valid_id p.conversation && valid_sha256 p.conversation_identity)
        (invalid Reason.representation)
    require (eqb (length p.endpoints) 2) (invalid Reason.endpoint_count)
    let roles = collect (map (λ e. e.role) p.endpoints)
    require (eqb (length roles) (length p.endpoints)) (invalid Reason.duplicate_roles)
    verify_endpoints p.endpoints p.conversation roles
    calculated ← calculate_identity p
    require (p.plan_identity == calculated) (identity_mismatch p.plan_identity calculated)
    verify_wire p.wire p.endpoints
