-- ===== src/Machine.antt =====
-- `EndpointMachine` of src/runtime.rs. A method that fails has changed nothing: each changes the
-- machine after its last test. A method returns its result with the new machine.
pub mod Find
pub mod Sync
pub mod Exchange
pub mod Outcome
pub mod Refuses
pub mod Failure
pub mod Start
pub mod Local
use Prim.Native.Nat.{◌^◌, ◌%◌}
use colloq.Prelude.{
  ℕ, ◌+◌, String, Option, none, some, List, Bool, true, false, not, ◌&&◌, ◌==◌, eqb, if◌then◌else◌,
  find?, Result, ok, err, ◌>>=◌, ◌>>◌, require,
}
use colloq.Prelude.Maps.{lookup}
use colloq.Project.{Endpoint, EndpointState, id, failure_target}
use colloq.Trace.{Frame, data_, select, cancel, fault}
use colloq.Plan.Wire.{CompactWirePlan}
use colloq.Runtime.Error.{
  RuntimeError, unknown_role, wire_version, conversation_mismatch, identity_mismatch,
  state_mismatch, sequence_mismatch, protocol, panic,
}

abbrev pub wire_format : String
wire_format = "0.1.0"

pub record WireEnvelope {ℓ} (V : Type ℓ) : Type ℓ where
  pub colloq_wire : String
  pub conversation : String
  pub conversation_identity : String
  pub state : String
  pub sequence : ℕ
  pub frame : Frame V

-- `PreparedPlan` of src/plan.rs
pub record PreparedPlan : Type 0 where
  pub conversation : String
  pub conversation_identity : String
  pub plan_identity : String
  pub endpoints : List Endpoint
  pub wire : CompactWirePlan

-- `PreparedPlan::endpoint`
unfoldable pub endpoint : PreparedPlan → String → Option Endpoint
endpoint p role = find? (λ e. e.role == role) p.endpoints

pub record Machine : Type 0 where
  pub endpoint : Endpoint
  pub conversation_identity : String
  pub plan_identity : String
  pub current : String
  pub sequence : ℕ

abbrev pub start_at : PreparedPlan → String → Option Endpoint → Result RuntimeError Machine
start_at p role none = err (unknown_role role)
start_at p role (some e) = ok (record {
  endpoint = e;
  conversation_identity = p.conversation_identity;
  plan_identity = p.plan_identity;
  current = e.initial;
  sequence = 0;
})

unfoldable pub from_plan : PreparedPlan → String → Result RuntimeError Machine
from_plan p role = start_at p role (endpoint p role)

-- `self.sequence += 1` on a `u64`, which wraps in a release build.
unfoldable pub next_sequence : ℕ → ℕ
next_sequence n = (n + 1) % 2 ^ 64

-- `EndpointMachine::state` is this, and panics where it is `none`.
unfoldable pub state_at : Machine → String → Option EndpointState
state_at m i = find? (λ s. id s == i) m.endpoint.states

unfoldable pub state : Machine → Option EndpointState
state m = state_at m m.current

ends : EndpointState → Bool
ends (EndpointState.end i) = true
ends _ = false

fails : EndpointState → Option String
fails (EndpointState.fail i failure) = some failure
fails _ = none

abbrev is_some : Option String → Bool
is_some none = false
is_some (some f) = true

-- `is_complete`, `is_successful` and `failure`; `none` is the panic of `state`.
unfoldable pub is_complete : Machine → Option Bool
unfolding ends fails
is_complete m = elim (state m) [
  | none ↦ none
  | some s ↦ some (if ends s then true else is_some (fails s))
]

unfoldable pub is_successful : Machine → Option Bool
unfolding ends
is_successful m = elim (state m) [ none ↦ none | some s ↦ some (ends s) ]

unfoldable pub failure : Machine → Option (Option String)
unfolding fails
failure m = elim (state m) [ none ↦ none | some s ↦ some (fails s) ]

abbrev protocol_error {κ} : {A : Type κ} → Machine → String → Result RuntimeError A
protocol_error m action = err (protocol m.endpoint.role m.current action)

module _ {ℓ} {V : Type ℓ} where
  observed : Machine → String → String → Option String → Result RuntimeError (Frame V × Machine)
  observed m state_id f none = err (protocol m.endpoint.role state_id "observe failure")
  observed m state_id f (some next) = ok (
    fault m.endpoint.role f,
    record m {
      current = next;
      sequence = if m.current == state_id then next_sequence m.sequence else m.sequence;
    },
  )

  unfoldable pub observe_failure_at :
      Machine → String → String → Result RuntimeError (Frame V × Machine)
  unfolding observed
  observe_failure_at m state_id f = elim (state_at m state_id) [
    | none ↦ err panic
    | some s ↦ observed m state_id f (failure_target s f)
  ]

  unfoldable pub observe_failure : Machine → String → Result RuntimeError (Frame V × Machine)
  observe_failure m f = observe_failure_at m m.current f

  unfoldable pub emit : Machine → Frame V → String → WireEnvelope V × Machine
  emit m frame next = (
    record {
      colloq_wire = wire_format;
      conversation = m.endpoint.conversation;
      conversation_identity = m.conversation_identity;
      state = m.current;
      sequence = m.sequence;
      frame = frame;
    },
    record m { current = next; sequence = next_sequence m.sequence },
  )

  data_from : Machine → V → EndpointState → Result RuntimeError (WireEnvelope V × Machine)
  data_from m payload (EndpointState.send i to message next d f) =
      ok (emit m (data_ m.endpoint.role to message (some payload)) next)
  data_from m payload _ = protocol_error m "send data"

  unfoldable pub emit_data : Machine → V → Result RuntimeError (WireEnvelope V × Machine)
  unfolding data_from
  emit_data m payload = elim (state m) [ none ↦ err panic | some s ↦ data_from m payload s ]

  selected : Machine → String → Option String → Result RuntimeError (WireEnvelope V × Machine)
  selected m label none = protocol_error m "select branch"
  selected m label (some next) = ok (emit m (select m.endpoint.role label) next)

  select_from : Machine → String → EndpointState → Result RuntimeError (WireEnvelope V × Machine)
  unfolding selected
  select_from m label (EndpointState.select i branches f) = selected m label (lookup label branches)
  select_from m label _ = protocol_error m "select branch"

  unfoldable pub emit_select : Machine → String → Result RuntimeError (WireEnvelope V × Machine)
  unfolding select_from
  emit_select m label = elim (state m) [ none ↦ err panic | some s ↦ select_from m label s ]

  cancel_from : Machine → EndpointState → Result RuntimeError (WireEnvelope V × Machine)
  cancel_from m (EndpointState.send_cancel i to scope next f) =
      ok (emit m (cancel m.endpoint.role to scope) next)
  cancel_from m _ = protocol_error m "send cancellation"

  unfoldable pub emit_cancel : Machine → Result RuntimeError (WireEnvelope V × Machine)
  unfolding cancel_from
  emit_cancel m = elim (state m) [ none ↦ err panic | some s ↦ cancel_from m s ]

  unfoldable pub validate_envelope : Machine → WireEnvelope V → Result RuntimeError (Unit {0})
  validate_envelope m e = do
    require (e.colloq_wire == wire_format) (wire_version e.colloq_wire)
    require (e.conversation == m.endpoint.conversation)
        (conversation_mismatch m.endpoint.role m.endpoint.conversation e.conversation)
    require (e.conversation_identity == m.conversation_identity)
        (identity_mismatch m.endpoint.role m.conversation_identity e.conversation_identity)
    require (e.state == m.current) (state_mismatch m.endpoint.role m.current e.state)
    require (eqb e.sequence m.sequence) (sequence_mismatch m.endpoint.role m.sequence e.sequence)

  -- The arms of the `match` in `accept`: the next state, or none for the last arm.
  unfoldable pub accepts : String → EndpointState → Frame V → Option String
  accepts role (EndpointState.receive i from message next d f) (data_ from' to message' p) =
      if from == from' && role == to && message == message' then some next else none
  accepts role (EndpointState.branch i from branches f) (select by label) =
      if from == by then lookup label branches else none
  accepts role (EndpointState.receive_cancel i from scope next f) (cancel from' to scope') =
      if from == from' && role == to && scope == scope' then some next else none
  accepts role _ _ = none

  received : Machine → Frame V → Option String → Result RuntimeError (Frame V × Machine)
  received m frame none = protocol_error m "receive frame"
  received m frame (some next) =
      ok (frame, record m { current = next; sequence = next_sequence m.sequence })

  unfoldable pub accept : Machine → WireEnvelope V → Result RuntimeError (Frame V × Machine)
  unfolding received
  accept m e = do
    validate_envelope m e
    elim (state m) [
      | none ↦ err panic
      | some s ↦ received m e.frame (accepts m.endpoint.role s e.frame)
    ]
