-- ===== src/Project.antt =====
-- `Endpoint`, `EndpointState` and `project` of src/lib.rs: the local machine of each role.
pub mod Duality
use colloq.Prelude.{String, Option, none, List, map, ◌==◌, if◌then◌else◌, Result, ok, ◌>>=◌, ◌>>◌}
use colloq.Prelude.Maps.{Map, lookup}
use colloq.Conversation.{Conversation, GlobalState, endpoint_format}
use colloq.Validate.{validate}
use colloq.Validate.Reachability.{Diagnostic}

-- The fields in the source's order, as in `GlobalState`.
pub data EndpointState : Type 0 where
  send :
      (id to message next : String) (deadline : Option String) (on_failure : Map String)
      → EndpointState
  receive :
      (id from message next : String) (deadline : Option String) (on_failure : Map String)
      → EndpointState
  select : (id : String) (branches on_failure : Map String) → EndpointState
  branch : (id from : String) (branches on_failure : Map String) → EndpointState
  send_cancel : (id to scope next : String) (on_failure : Map String) → EndpointState
  receive_cancel : (id from scope next : String) (on_failure : Map String) → EndpointState
  end : (id : String) → EndpointState
  fail : (id failure : String) → EndpointState

pub record Endpoint : Type 0 where
  pub colloq_endpoint : String
  pub conversation : String
  pub role : String
  pub initial : String
  pub states : List EndpointState

-- `EndpointState::id`
unfoldable pub id : EndpointState → String
id (EndpointState.send i to message next deadline on_failure) = i
id (EndpointState.receive i from message next deadline on_failure) = i
id (EndpointState.select i branches on_failure) = i
id (EndpointState.branch i from branches on_failure) = i
id (EndpointState.send_cancel i to scope next on_failure) = i
id (EndpointState.receive_cancel i from scope next on_failure) = i
id (EndpointState.end i) = i
id (EndpointState.fail i failure) = i

-- `EndpointState::failure_target`
unfoldable pub failure_target : EndpointState → String → Option String
failure_target (EndpointState.send i to message next deadline edges) f = lookup f edges
failure_target (EndpointState.receive i from message next deadline edges) f = lookup f edges
failure_target (EndpointState.select i branches edges) f = lookup f edges
failure_target (EndpointState.branch i from branches edges) f = lookup f edges
failure_target (EndpointState.send_cancel i to scope next edges) f = lookup f edges
failure_target (EndpointState.receive_cancel i from scope next edges) f = lookup f edges
failure_target (EndpointState.end i) f = none
failure_target (EndpointState.fail i failure) f = none

unfoldable pub project_state : GlobalState → String → EndpointState
project_state (GlobalState.send i from to message next deadline on_failure) role =
    if from == role
    then EndpointState.send i to message next deadline on_failure
    else EndpointState.receive i from message next deadline on_failure
project_state (GlobalState.choice i chooser branches on_failure) role =
    if chooser == role
    then EndpointState.select i branches on_failure
    else EndpointState.branch i chooser branches on_failure
project_state (GlobalState.cancel i from to scope next on_failure) role =
    if from == role
    then EndpointState.send_cancel i to scope next on_failure
    else EndpointState.receive_cancel i from scope next on_failure
project_state (GlobalState.end i) role = EndpointState.end i
project_state (GlobalState.fail i failure) role = EndpointState.fail i failure

module _ {ℓ} {V : Type ℓ} (c : Conversation V) where
  unfoldable pub endpoint_for : String → Endpoint
  endpoint_for role = record {
    colloq_endpoint = endpoint_format;
    conversation = c.module_.id;
    role = role;
    initial = c.initial;
    states = map (λ s. project_state s role) c.states;
  }

  unfoldable pub project_validated : List Endpoint
  unfolding endpoint_for
  project_validated = map (λ r. endpoint_for r.id) c.roles

  unfoldable pub project : Result (List Diagnostic) (List Endpoint)
  unfolding project_validated
  project = do validate c; ok project_validated
