-- ===== src/Trace.antt =====
-- `Frame` and `verify_trace` of src/lib.rs: a trace is checked against the global states.
pub mod Steps
pub mod Walk
pub mod Correct
use Prim.Native.String.{◌++◌ as str_append}
use colloq.Prelude.{
  ℕ, zero, suc, String, Option, none, some, List, [], ◌∷◌, map, Bool, true, false, ◌&&◌, ◌==◌,
  if◌then◌else◌, length, Result, ok, err, ◌>>=◌, ◌>>◌, Ordering,
}
use Prim.Native.String.{compare}
use colloq.Prelude.Maps.{Map, lookup, insert, keys}
use colloq.Prelude.Sets.{StringSet, contains, insert_all}
use colloq.Conversation.{Conversation, GlobalState, id, failure_target, is_terminal}
use colloq.Validate.{validate}
use colloq.Validate.Reachability.{Diagnostic}

-- `Data` is spelled `data_`; its payload is a JSON value.
pub data Frame {ℓ} (V : Type ℓ) : Type ℓ where
  data_ : (from to message : String) (payload : Option V) → Frame V
  select : (by label : String) → Frame V
  cancel : (from to scope : String) → Frame V
  fault : (observer failure : String) → Frame V

pub record TraceReport : Type 0 where
  pub steps : ℕ
  pub final_state : String
  pub complete : Bool
  pub successful : Bool
  pub failure : Option String

pub record TraceError : Type 0 where
  pub step : ℕ
  pub state : String
  pub expected : String
  pub received : String

-- The errors of `verify_trace`; `panic` is a failed `expect` or a missing map key.
pub data VerifyError : Type 0 where
  invalid : List Diagnostic → VerifyError
  rejected : TraceError → VerifyError
  panic : VerifyError

-- The `format!` calls join texts.
infixr 65 ◌<>◌
abbrev ◌<>◌ : String → String → String
s <> t = str_append s t

join : List String → String
join [] = ""
join (label ∷ []) = label
join (label ∷ next ∷ labels) = label <> " | " <> join (next ∷ labels)

unfoldable pub expected_frame : GlobalState → String
unfolding join
expected_frame (GlobalState.send i from to message next deadline on_failure) =
    "data " <> from <> " -> " <> to <> ": " <> message
expected_frame (GlobalState.choice i chooser branches on_failure) =
    "select by " <> chooser <> ": " <> join (keys branches)
expected_frame (GlobalState.cancel i from to scope next on_failure) =
    "cancel " <> from <> " -> " <> to <> ": " <> scope
expected_frame (GlobalState.end i) = "end of conversation"
expected_frame (GlobalState.fail i failure) = "terminal failure " <> failure

unfoldable pub describe_frame {ℓ} : {V : Type ℓ} → Frame V → String
describe_frame (data_ from to message payload) = "data " <> from <> " -> " <> to <> ": " <> message
describe_frame (select by label) = "select by " <> by <> ": " <> label
describe_frame (cancel from to scope) = "cancel " <> from <> " -> " <> to <> ": " <> scope
describe_frame (fault observer failure) = "fault observed by " <> observer <> ": " <> failure

-- `.collect::<BTreeMap<_, _>>()`: of two states with one identifier the later one stays.
unfoldable pub collect_states : Map GlobalState → List GlobalState → Map GlobalState
collect_states m [] = m
collect_states m (s ∷ ss) = collect_states (insert (id s) s m) ss

-- The arms of the `match` in `verify_trace`: the next state, or none for the last arm.
unfoldable pub next_state {ℓ} : {V : Type ℓ} → StringSet → GlobalState → Frame V → Option String
next_state roles state (fault observer failure) =
    if contains observer roles then failure_target state failure else none
next_state roles (GlobalState.send i from to message next deadline f) (data_ from' to' message' p) =
    if from == from' && to == to' && message == message' then some next else none
next_state roles (GlobalState.choice i chooser branches f) (select by label) =
    if chooser == by then lookup label branches else none
next_state roles (GlobalState.cancel i from to scope next f) (cancel from' to' scope') =
    if from == from' && to == to' && scope == scope' then some next else none
next_state roles _ _ = none

is_end : GlobalState → Bool
is_end (GlobalState.end i) = true
is_end _ = false

end_failure : GlobalState → Option String
end_failure (GlobalState.fail i failure) = some failure
end_failure _ = none

unfoldable pub trace_report : ℕ → String → GlobalState → TraceReport
unfolding is_end end_failure
trace_report steps current terminal = record {
  steps = steps;
  final_state = current;
  complete = is_terminal terminal;
  successful = is_end terminal;
  failure = end_failure terminal;
}

-- `states[current]` after the loop.
unfoldable pub conclude : Map GlobalState → ℕ → String → Result VerifyError TraceReport
conclude states steps current = elim (lookup current states) [
  | none ↦ err panic
  | some terminal ↦ ok (trace_report steps current terminal)
]

abbrev checked : Result (List Diagnostic) (Unit {0}) → Result VerifyError (Unit {0})
checked (ok u) = ok u
checked (err ds) = err (invalid ds)

module _ {ℓ} {V : Type ℓ} where
  -- The loop over the frames, from the state `current`.
  unfoldable pub walk :
      Map GlobalState → StringSet → ℕ → String → List (Frame V) → Result VerifyError String
  walk states roles step current [] = ok current
  walk states roles step current (frame ∷ frames) = elim (lookup current states) [
    | none ↦ err panic
    | some state ↦ elim (next_state roles state frame) [
      | none ↦ err (
          rejected (record {
            step = step;
            state = current;
            expected = expected_frame state;
            received = describe_frame frame;
          }))
      | some next ↦ walk states roles (suc step) next frames
    ]
  ]

  unfoldable pub verify_trace : Conversation V → List (Frame V) → Result VerifyError TraceReport
  verify_trace c frames = do
    checked (validate c)
    let states = collect_states [] c.states
    let roles = insert_all compare (map (λ r. r.id) c.roles) []
    current ← walk states roles 0 c.initial frames
    conclude states (length frames) current
