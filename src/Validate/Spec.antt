-- ===== src/Validate/Spec.antt =====
-- What a conversation has to be, said without sets, maps or a search.
use colloq.Prelude.{◌≤◌, String, ◌≡◌, ◌≢◌, List, [], ◌∷◌, map, true, length, All, Memᴰ}
use colloq.Prelude.Maps.{contains_key}
use colloq.Conversation.{
  Conversation, GlobalState, send, choice, cancel, end, fail, id, successors, is_terminal,
  conversation_format,
}

abbrev pub IsNodup : List String → Type 0
IsNodup [] = Unit
IsNodup (x ∷ xs) = (¬ Memᴰ x xs) × IsNodup xs

-- Identifiers of roles, types and failures: none empty, none twice.
abbrev pub IsIdSet : List String → Type 0
IsIdSet ids = All (λ i. i ≢ "") ids × IsNodup ids

-- The names that a state may use. `fails i f`: the state `i` is the terminal failure `f`.
pub record Scope : Type 1 where
  pub role : String → Type 0
  pub type_ : String → Type 0
  pub failure : String → Type 0
  pub state : String → Type 0
  pub fails : String → String → Type 0

module _ (n : Scope) where
  abbrev pub FailureEdge : String × String → Type 0
  FailureEdge e = n.failure e.0 × n.fails e.1 e.0

  abbrev pub Branch : String × String → Type 0
  Branch e = (e.0 ≢ "") × n.state e.1

  abbrev pub Parties : String → String → Type 0
  Parties from to = n.role from × (n.role to × (from ≢ to))

  abbrev pub StateOk : GlobalState → Type 0
  StateOk (send i from to message next deadline on_failure) =
      Parties from to × (n.type_ message × (n.state next × All FailureEdge on_failure))
  StateOk (choice i chooser branches on_failure) =
      n.role chooser × ((2 ≤ length branches) × (All Branch branches × All FailureEdge on_failure))
  StateOk (cancel i from to scope next on_failure) =
      Parties from to × ((scope ≢ "") × (n.state next × All FailureEdge on_failure))
  StateOk (fail i failure) = n.failure failure
  StateOk (end i) = Unit

-- The states that a conversation can be in, from `src`.
pub data Reachable (states : List GlobalState) (src : String) : String → Type 0 where
  here : Reachable states src src
  step :
      {u v : String} {s : GlobalState}
      → Reachable states src u
      → Memᴰ s states
      → id s ≡ u
      → Memᴰ v (successors s)
      → Reachable states src v

module _ {ℓ} {V : Type ℓ} (c : Conversation V) where
  abbrev pub role_ids : List String
  role_ids = map (λ r. r.id) c.roles

  abbrev pub type_ids : List String
  type_ids = map (λ t. t.id) c.types

  abbrev pub failure_ids : List String
  failure_ids = map (λ f. f.id) c.failures

  abbrev pub state_ids : List String
  state_ids = map id c.states

  abbrev pub scope : Scope
  scope = record {
    role = λ i. Memᴰ i role_ids;
    type_ = λ i. Memᴰ i type_ids;
    failure = λ i. Memᴰ i failure_ids;
    state = λ i. Memᴰ i state_ids;
    fails = λ i f. Memᴰ (fail i f) c.states;
  }

  -- What is asked of the declarations and of each state by itself.
  pub record IsDeclared : Type 0 where
    pub format : c.colloq_conversation ≡ conversation_format
    pub roles : IsIdSet role_ids
    pub two_roles : length c.roles ≡ 2
    pub types : IsIdSet type_ids
    pub kinds : All (λ d. contains_key "kind" d ≡ true) (map (λ t. t.definition) c.types)
    pub failures : IsIdSet failure_ids
    pub distinct : IsNodup state_ids
    pub initial : Memᴰ c.initial state_ids
    pub states : All (StateOk scope) c.states

  -- A valid conversation: every state can be reached, and a terminal one among them.
  pub record IsValid : Type 0 where
    pub declared : IsDeclared
    pub open declared use *
    pub reached : All (λ s. Reachable c.states c.initial (id s)) c.states
    pub ends :
        (s : GlobalState) × Memᴰ s c.states
        × Reachable c.states c.initial (id s)
        × (is_terminal s ≡ true)
