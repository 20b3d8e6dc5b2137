-- ===== src/Tests.antt =====
-- Tests of the definitions, and the properties at a small conversation: a client asks, and a
-- server takes another question or stops.
pub mod Traces
pub mod Machines
pub mod Plans
pub mod Compile
pub mod Nodes
pub mod Bindings
pub mod Generation
pub mod Drives
use colloq.Prelude.{ℕ, String, ◌≡◌, ◌≢◌, refl, none, List, [], ◌∷◌, false, ok, eq_iff}
use colloq.Conversation.{Conversation, GlobalState}
use colloq.Validate.{validate}
use colloq.Validate.Spec.{IsValid, role_ids}
use colloq.Validate.Correct.{validate_iff}
use colloq.Project.{project, project_validated, endpoint_for}
use colloq.Machine.{Machine}

abbrev pub talk : Conversation ℕ
talk = record {
  schema = none;
  colloq_conversation = "0.1.0";
  module_ = record { id = "talk"; semantic_version = none };
  roles =
      record { id = "client"; placement = []; capabilities = [] }
      ∷ record { id = "server"; placement = []; capabilities = [] }
      ∷ [];
  types = record { id = "question"; definition = ("kind", 0) ∷ [] } ∷ [];
  failures = record { id = "lost"; description = none; retryable = false } ∷ [];
  initial = "ask";
  states =
      GlobalState.send "ask" "client" "server" "question" "pick" none (("lost", "gone") ∷ [])
      ∷ GlobalState.choice "pick" "server" (("more", "ask") ∷ ("stop", "done") ∷ []) []
      ∷ GlobalState.end "done"
      ∷ GlobalState.fail "gone" "lost"
      ∷ [];
  annotations = [];
}

pub talk_ok : validate talk ≡ ok tt
unfolding validate colloq.Validate.diagnostics colloq.Validate.declaration_diagnostics
    colloq.Validate.unique_ids colloq.Prelude.Sets.contains colloq.Prelude.Sets.add
    colloq.Validate.type_kinds colloq.Prelude.Maps.contains_key colloq.Validate.index_states
    colloq.Prelude.Maps.insert colloq.Conversation.id colloq.Validate.names
    colloq.Validate.validate_states colloq.Prelude.Maps.lookup
    colloq.Validate.Reachability.validate_reachability colloq.Validate.Reachability.unreachable
    colloq.Validate.Reachability.search colloq.Validate.Reachability.explore
    colloq.Conversation.is_terminal colloq.Conversation.successors colloq.Prelude.Sets.insert
    colloq.Validate.Reachability.edge_count colloq.Validate.Reachability.visit
    colloq.Validate.validate_branches colloq.Validate.validate_failure_edges
    colloq.Validate.validate_roles colloq.Validate.validate_state colloq.Validate.validate_target
talk_ok = refl

pub talk_IsValid : IsValid talk
talk_IsValid = (validate_iff talk).0 talk_ok

pub talk-project : project talk ≡ ok (project_validated talk)
unfolding project
talk-project = rw talk_ok refl

pub apart : ◌≢◌ {A = String} "client" "server"
apart e = cc ((eq_iff "client" "server").1 e)

pub talk_roles : role_ids talk ≡ "client" ∷ "server" ∷ []
talk_roles = refl

abbrev pub client : Machine
client = record {
  endpoint = endpoint_for talk "client";
  conversation_identity = "c";
  plan_identity = "p";
  current = "ask";
  sequence = 0;
}

abbrev pub server : Machine
server = record {
  endpoint = endpoint_for talk "server";
  conversation_identity = "c";
  plan_identity = "p";
  current = "ask";
  sequence = 0;
}
