-- ===== src/Fault.antt =====
-- `FaultInjectingTransport` of src/runtime.rs: one failure at a chosen send or receive. The flag
-- `fired`, which the two sides share, is passed along with the state of a side.
pub mod Once
use Prim.Native.Nat.{◌^◌, ◌%◌}
use colloq.Prelude.{
  ℕ, ◌+◌, String, Option, none, some, List, [], ◌∷◌, Bool, true, false, not, ◌&&◌, ◌==◌, eqb,
  if◌then◌else◌, Result, ok, err,
}
use colloq.Runtime.Error.{
  FaultOperation, as_str, RuntimeError, application, injected_failure, transport_failure,
}
use colloq.Machine.{WireEnvelope}

pub record FaultPlan : Type 0 where
  pub role : String
  pub operation : FaultOperation
  pub occurrence : ℕ
  pub failure : String
  pub peer_failure : Option String

-- The fields but `inner`.
pub record Injector : Type 0 where
  pub role : String
  pub plan : FaultPlan
  pub sends : ℕ
  pub receives : ℕ
  pub fired : Bool

-- `FaultInjectingTransport::with_fired`
unfoldable pub with_fired : String → FaultPlan → Bool → Result RuntimeError Injector
with_fired role plan fired =
    if eqb plan.occurrence 0
    then err application
    else ok (record { role = role; plan = plan; sends = 0; receives = 0; fired = fired })

abbrev pub same_operation : FaultOperation → FaultOperation → Bool
same_operation FaultOperation.send FaultOperation.send = true
same_operation FaultOperation.send FaultOperation.receive = false
same_operation FaultOperation.receive FaultOperation.send = false
same_operation FaultOperation.receive FaultOperation.receive = true

-- `+= 1` on a `usize` of 64 bits, which wraps in a release build.
abbrev pub next_count : ℕ → ℕ
next_count n = (n + 1) % 2 ^ 64

unfoldable pub counted : Injector → FaultOperation → Injector
counted t FaultOperation.send = record t { sends = next_count t.sends }
counted t FaultOperation.receive = record t { receives = next_count t.receives }

unfoldable pub occurrence : Injector → FaultOperation → ℕ
occurrence t FaultOperation.send = t.sends
occurrence t FaultOperation.receive = t.receives

unfoldable pub should_inject : Injector → FaultOperation → Bool × Injector
should_inject t operation =
    let u = counted t operation in
    let fires =
      not u.fired
      && u.role == u.plan.role
      && same_operation operation u.plan.operation
      && eqb (occurrence u operation) u.plan.occurrence in
    (fires, if fires then record u { fired = true } else u)

unfoldable pub injected_error : Injector → FaultOperation → String → RuntimeError
injected_error t operation failure =
    injected_failure t.role (as_str operation) (occurrence t operation) failure

peer_error : Injector → FaultOperation → RuntimeError → Option String → RuntimeError
peer_error t operation error none = error
peer_error t operation error (some failure) = injected_error t operation failure

is_transport : Option String → Bool
is_transport none = false
is_transport (some f) = true

module _ {ℓ} {A : Type ℓ} where
  unfoldable pub map_peer_error :
      Injector → FaultOperation → Result RuntimeError A → Result RuntimeError A
  unfolding peer_error is_transport
  map_peer_error t operation (ok a) = ok a
  map_peer_error t operation (err error) =
      if not (t.role == t.plan.role) && t.fired && is_transport (transport_failure error)
      then err (peer_error t operation error t.plan.peer_failure)
      else err error

-- `Transport`, as an interface: each operation gives the transport back.
pub record Transport {ℓ κ} (T : Type ℓ) (V : Type κ) : Type (ℓ ⊔ κ) where
  pub send : T → WireEnvelope V → Result RuntimeError (Unit {0}) × T
  pub receive : T → Result RuntimeError (WireEnvelope V) × T
  pub abort : T → T
  pub plan : T → String
  pub finish : T → String → Result RuntimeError (Unit {0}) × T

module _ {ℓ κ} {T : Type ℓ} {V : Type κ} (inner : Transport T V) where
  -- `impl Transport for FaultInjectingTransport`
  unfoldable pub send :
      T × Injector → WireEnvelope V → Result RuntimeError (Unit {0}) × (T × Injector)
  send (t, i) e =
      let (fires, j) = should_inject i FaultOperation.send in
      if fires
      then (err (injected_error j FaultOperation.send j.plan.failure), (inner.abort t, j))
      else (let (result, u) = inner.send t e in
          (map_peer_error j FaultOperation.send result, (u, j)))

  unfoldable pub receive : T × Injector → Result RuntimeError (WireEnvelope V) × (T × Injector)
  receive (t, i) =
      let (fires, j) = should_inject i FaultOperation.receive in
      if fires
      then (err (injected_error j FaultOperation.receive j.plan.failure), (inner.abort t, j))
      else (let (result, u) = inner.receive t in
          (map_peer_error j FaultOperation.receive result, (u, j)))

  unfoldable pub plan : T × Injector → String
  plan (t, i) = inner.plan t

  unfoldable pub finish : T × Injector → String → Result RuntimeError (Unit {0}) × (T × Injector)
  finish (t, i) role = let (result, u) = inner.finish t role in (result, (u, i))

  unfoldable pub abort : T × Injector → T × Injector
  abort (t, i) = (inner.abort t, i)

  -- The transport with its fault.
  abbrev pub injecting : Transport (T × Injector) V
  injecting = record { send = send; receive = receive; abort = abort; plan = plan; finish = finish }
