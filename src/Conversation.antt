-- ===== src/Conversation.antt =====
-- The data model of src/lib.rs: a conversation, its roles, types, failures and global states.
-- `serde_json::Value` is a type that the program does not implement: the parameter `V`.
use colloq.Prelude.{String, Option, none, List, [], ◌∷◌, ◌++◌, Bool, true, false}
use colloq.Prelude.Maps.{Map, lookup, values}

abbrev pub conversation_format : String
conversation_format = "0.1.0"

abbrev pub endpoint_format : String
endpoint_format = "0.1.0"

pub record Module : Type 0 where
  pub id : String
  pub semantic_version : Option String

pub record Role : Type 0 where
  pub id : String
  pub placement : List String
  pub capabilities : List String

pub record TypeDefinition {ℓ} (V : Type ℓ) : Type ℓ where
  pub id : String
  pub definition : Map V

pub record FailureDefinition : Type 0 where
  pub id : String
  pub description : Option String
  pub retryable : Bool

-- `from`, `to`, `message`, `next`, `deadline`, `on_failure`, and so on, in the source's order.
pub data GlobalState : Type 0 where
  send :
      (id from to message next : String) (deadline : Option String) (on_failure : Map String)
      → GlobalState
  choice : (id chooser : String) (branches on_failure : Map String) → GlobalState
  cancel : (id from to scope next : String) (on_failure : Map String) → GlobalState
  end : (id : String) → GlobalState
  fail : (id failure : String) → GlobalState

pub record Conversation {ℓ} (V : Type ℓ) : Type ℓ where
  pub schema : Option String
  pub colloq_conversation : String
  pub module_ : Module
  pub roles : List Role
  pub types : List (TypeDefinition V)
  pub failures : List FailureDefinition
  pub initial : String
  pub states : List GlobalState
  pub annotations : Map V

-- `GlobalState::id`
unfoldable pub id : GlobalState → String
id (send i from to message next deadline on_failure) = i
id (choice i chooser branches on_failure) = i
id (cancel i from to scope next on_failure) = i
id (end i) = i
id (fail i failure) = i

-- `GlobalState::successors`
unfoldable pub successors : GlobalState → List String
successors (send i from to message next deadline on_failure) = next ∷ values on_failure
successors (choice i chooser branches on_failure) = values branches ++ values on_failure
successors (cancel i from to scope next on_failure) = next ∷ values on_failure
successors (end i) = []
successors (fail i failure) = []

-- `GlobalState::failure_target`
unfoldable pub failure_target : GlobalState → String → Option String
failure_target (send i from to message next deadline on_failure) f = lookup f on_failure
failure_target (choice i chooser branches on_failure) f = lookup f on_failure
failure_target (cancel i from to scope next on_failure) f = lookup f on_failure
failure_target (end i) f = none
failure_target (fail i failure) f = none

-- `matches!(state, GlobalState::End { .. } | GlobalState::Fail { .. })`
unfoldable pub is_terminal : GlobalState → Bool
is_terminal (end i) = true
is_terminal (fail i failure) = true
is_terminal _ = false
