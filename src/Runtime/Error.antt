-- ===== src/Runtime/Error.antt =====
-- `RuntimeError` of src/runtime.rs. The parts of its messages that are formatted for reading
-- only (`detail`, the texts of QUIC, Iroh and JSON errors) are left out.
use colloq.Prelude.{ℕ, String, Option, none, some}
use colloq.Plan.Wire.{PlanError}

-- The kinds of `std::io::Error` that the code tells apart.
pub data IoKind : Type 0 where
  timed_out would_block connection_reset connection_refused addr_not_available : IoKind
  not_connected other : IoKind

pub data FaultOperation : Type 0 where
  send receive : FaultOperation

-- `as_str`
unfoldable pub as_str : FaultOperation → String
as_str FaultOperation.send = "send"
as_str FaultOperation.receive = "receive"

-- `panic` is a failed `expect`.
pub data RuntimeError : Type 0 where
  plan : PlanError → RuntimeError
  unknown_role : String → RuntimeError
  codec : RuntimeError
  compact_wire : RuntimeError
  session_required : String → RuntimeError
  session_mismatch : (field expected actual : String) → RuntimeError
  session_rejected : String → RuntimeError
  io : IoKind → RuntimeError
  transport_closed : String → RuntimeError
  envelope_too_large : (actual limit : ℕ) → RuntimeError
  session_preface_too_large : (actual limit : ℕ) → RuntimeError
  wire_version : (actual : String) → RuntimeError
  conversation_mismatch : (role expected actual : String) → RuntimeError
  identity_mismatch : (role expected actual : String) → RuntimeError
  state_mismatch : (role expected actual : String) → RuntimeError
  sequence_mismatch : (role : String) (expected actual : ℕ) → RuntimeError
  protocol : (role state action : String) → RuntimeError
  application : RuntimeError
  worker_panicked : RuntimeError
  quic : RuntimeError
  iroh : RuntimeError
  iroh_peer_identity : (expected actual : String) → RuntimeError
  injected_failure : (role operation : String) (occurrence : ℕ) (failure : String) → RuntimeError
  panic : RuntimeError

io_failure : IoKind → String
io_failure timed_out = "transport.timeout"
io_failure would_block = "transport.timeout"
io_failure connection_reset = "transport.reset"
io_failure connection_refused = "transport.unreachable"
io_failure addr_not_available = "transport.unreachable"
io_failure not_connected = "transport.unreachable"
io_failure other = "transport.closed"

-- `RuntimeError::transport_failure`
unfoldable pub transport_failure : RuntimeError → Option String
unfolding io_failure
transport_failure (io kind) = some (io_failure kind)
transport_failure (transport_closed t) = some "transport.closed"
transport_failure quic = some "transport.closed"
transport_failure iroh = some "transport.closed"
transport_failure (injected_failure role operation occurrence failure) = some failure
transport_failure _ = none
