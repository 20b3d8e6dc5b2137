-- ===== src/Drive.antt =====
-- The client and the server of src/runtime.rs: `run_generate_client_plan`,
-- `run_generate_server_plan` and what they call, over any transport. A step of a driver keeps
-- its state also when it fails.
pub mod Client
pub mod Server
pub mod Report
pub mod Keeps
pub mod Recorded
pub mod Reported
pub mod Verified
pub mod Passes
pub mod Ends
pub mod Bounded
pub mod Halts
use colloq.Prelude.{
  ℕ, zero, suc, ◌+◌, ◌%◌, ◌^◌, String, Option, none, some, List, [], ◌∷◌, ◌++◌, Bool, true, false,
  not, ◌&&◌, ◌==◌, eqb, leb, if◌then◌else◌, length, Result, ok, err,
}
use colloq.Codec.{Bytes, Serializer}
use colloq.Fault.{Transport}
use colloq.Machine.{
  Machine, PreparedPlan, WireEnvelope, from_plan, emit_data, emit_select, emit_cancel, accept,
  observe_failure, observe_failure_at, is_complete, is_successful, failure,
}
use colloq.Plan.Identity.{sha256_identity}
use colloq.Runtime.Error.{RuntimeError, application, panic, transport_failure}
use colloq.Trace.{Frame, data_, select, cancel}

-- What the drivers use of `serde_json::Value`.
pub record Payloads {ℓ} (V : Type ℓ) : Type ℓ where
  pub object : String → V → V
  pub string : String → V
  pub number : ℕ → V
  pub get : V → String → Option V
  pub as_u64 : V → Option ℕ
  pub as_str : V → Option String

-- The local variables of a driver.
pub record Driver {ℓ κ} (T : Type ℓ) (V : Type κ) : Type (ℓ ⊔ κ) where
  pub machine : Machine
  pub transport : T
  pub trace : List (Frame V)
  pub tokens : List ℕ

-- A step on a state, that may fail.
abbrev pub Act {ℓ κ} : Type ℓ → Type κ → Type (ℓ ⊔ κ)
Act S A = S → Result RuntimeError A × S

module _ {ℓ} {S : Type ℓ} where
  abbrev pub and_then {κ μ} :
      {A : Type κ} {B : Type μ}
      → Result RuntimeError A × S
      → (A → Act S B)
      → Result RuntimeError B × S
  and_then (ok a, s) next = next a s
  and_then (err e, s) next = (err e, s)

  infixl 5 ◌>>=◌
  abbrev pub ◌>>=◌ {κ μ} : {A : Type κ} {B : Type μ} → Act S A → (A → Act S B) → Act S B
  (act >>= next) s = and_then (act s) next

  infixl 5 ◌>>◌
  abbrev pub ◌>>◌ {κ μ} : {A : Type κ} {B : Type μ} → Act S A → Act S B → Act S B
  (act >> next) s = and_then (act s) (λ _. next)

  abbrev pub pure {κ} : {A : Type κ} → A → Act S A
  pure a s = (ok a, s)

  abbrev pub lift {κ} : {A : Type κ} → Result RuntimeError A → Act S A
  lift r s = (r, s)

-- A failed `expect` where there is nothing.
abbrev pub or_panic {κ} : {A : Type κ} → Option A → Result RuntimeError A
or_panic none = err panic
or_panic (some a) = ok a

module _ {ℓ κ} {T : Type ℓ} {V : Type κ} (io : Transport T V) where
  abbrev pub State : Type (ℓ ⊔ κ)
  State = Driver T V

  abbrev pub push : Frame V → State → State
  push frame s = record s { trace = s.trace ++ (frame ∷ []) }

  moved {μ} : {A : Type μ} → Result RuntimeError (A × Machine) → Act State A
  moved (ok (a, m)) s = (ok a, record s { machine = m })
  moved (err e) s = (err e, s)

  -- A call of the machine, which changes it only if it succeeds.
  unfoldable pub on_machine {μ} :
      {A : Type μ} → (Machine → Result RuntimeError (A × Machine)) → Act State A
  unfolding moved
  on_machine call s = moved (call s.machine) s

  abort_transport : Act State (Unit {0})
  abort_transport s = (ok tt, record s { transport = io.abort s.transport })

  record_frame : Frame V → Act State (Unit {0})
  record_frame frame s = (ok tt, push frame s)

  -- `transport.abort()`, the observation of the failure, and the record of it.
  unfoldable pub observe_and_record :
      (Machine → Result RuntimeError (Frame V × Machine)) → Act State (Unit {0})
  unfolding abort_transport record_frame
  observe_and_record call = abort_transport >> on_machine call >>= record_frame

  -- The arms for an error of the transport; `value` is returned after the observation.
  unfoldable pub failed_with {μ} :
      {A : Type μ}
      → (String → Machine → Result RuntimeError (Frame V × Machine))
      → A
      → RuntimeError
      → Option String
      → Act State A
  failed_with call value error none = lift (err error)
  failed_with call value error (some failure) = observe_and_record (call failure) >> pure value

  pub sent : WireEnvelope V → Result RuntimeError (Unit {0}) → Act State Bool
  sent envelope (ok u) s = (ok true, push envelope.frame s)
  sent envelope (err error) s =
      failed_with (λ failure m. observe_failure_at m envelope.state failure) false error
        (transport_failure error) s

  unfoldable pub send_and_record : WireEnvelope V → Act State Bool
  unfolding sent
  send_and_record envelope s =
      let (result, t) = io.send s.transport envelope in
      sent envelope result (record s { transport = t })

  pub accepted : Result RuntimeError (WireEnvelope V) → Act State (Option (Frame V))
  accepted (ok envelope) = do
    frame ← on_machine (λ m. accept m envelope)
    λ s. (ok (some frame), push frame s)
  accepted (err error) =
      failed_with (λ failure m. observe_failure m failure) none error (transport_failure error)

  unfoldable pub receive_and_record : Act State (Option (Frame V))
  unfolding accepted
  receive_and_record s =
      let (result, t) = io.receive s.transport in accepted result (record s { transport = t })

  -- `if !sent { break; }` before what follows.
  abbrev pub if_sent : Act State Bool → Bool → Act State Bool
  if_sent next true = next
  if_sent next false = pure false

  -- `tokens.push(id)`, with the number of tokens.
  abbrev pub push_token : ℕ → Act State ℕ
  push_token id s = (ok (length s.tokens + 1), record s { tokens = s.tokens ++ (id ∷ []) })

  -- A call that emits, and the sending of what it emits.
  unfoldable pub emit_and_send :
      (Machine → Result RuntimeError (WireEnvelope V × Machine)) → Act State Bool
  emit_and_send call = on_machine call >>= send_and_record

  pub unless_done : Bool → Act State Bool → Act State Bool
  unless_done true rest = pure true
  unless_done false rest = rest

  finish_call : Act State (Unit {0})
  finish_call s =
      let (result, t) = io.finish s.transport s.machine.endpoint.role in
      (result, record s { transport = t })

  -- `while !machine.is_complete() { … }`, of which a round tells whether it goes on, for as many
  -- rounds as there is fuel: the result tells whether the loop has ended.
  unfoldable pub while_incomplete : ℕ → Act State Bool → Act State Bool
  unfolding unless_done
  while_incomplete zero body = pure false
  while_incomplete (suc fuel) body =
      let rest = while_incomplete fuel body in
      do
        complete ← λ s. lift (or_panic (is_complete s.machine)) s
        unless_done complete (body >>= λ again. unless_done (not again) rest)

  -- The final test and call of both drivers.
  unfoldable pub finish_if_successful : Act State (Unit {0})
  unfolding finish_call
  finish_if_successful = do
    successful ← λ s. lift (or_panic (is_successful s.machine)) s
    if successful then finish_call else pure tt

  module _ (value : Payloads V) where
    id_of : Option ℕ → Result RuntimeError ℕ
    id_of none = err application
    id_of (some id) = ok id

    and_u64 : Option V → Option ℕ
    and_u64 none = none
    and_u64 (some v) = value.as_u64 v

    unfoldable pub token_payload : Frame V → Result RuntimeError ℕ
    unfolding id_of and_u64
    token_payload (data_ from to message (some payload)) =
        if message == "token" then id_of (and_u64 (value.get payload "id")) else err application
    token_payload _ = err application

    text_of : Option String → Result RuntimeError String
    text_of none = err application
    text_of (some text) = ok text

    and_str : Option V → Option String
    and_str none = none
    and_str (some v) = value.as_str v

    unfoldable pub prompt_payload : Frame V → Result RuntimeError String
    unfolding text_of and_str
    prompt_payload (data_ from to message (some payload)) =
        if message == "prompt"
        then text_of (and_str (value.get payload "text"))
        else err application
    prompt_payload _ = err application
