-- ===== src/Drive/Report.antt =====
-- The reports of src/runtime.rs, and the two drivers from a plan to their report.
use colloq.Prelude.{
  ℕ, String, Option, none, some, List, [], ◌∷◌, Bool, true, false, not, ◌&&◌, ◌==◌, eqb,
  if◌then◌else◌, Result, ok, err,
}
use colloq.Prelude.{◌>>=◌ as then_result}
use colloq.Codec.{Bytes, Serializer}
use colloq.Conversation.{Conversation}
use colloq.Fault.{Transport, FaultPlan}
use colloq.Machine.{Machine, PreparedPlan, from_plan, is_complete, is_successful, failure}
use colloq.Plan.Identity.{sha256_identity}
use colloq.Plan.Compile.{compile_prepared}
use colloq.Plan.Verify.{SemanticPlan}
use colloq.Plan.Wire.{PlanError}
use colloq.Runtime.Error.{RuntimeError, plan, application, panic}
use colloq.Trace.{Frame}
use package.colloq.Drive.{Act, State, Driver, Payloads, or_panic}
use package.colloq.Drive.Client.{client_main}
use package.colloq.Drive.Server.{server_main}

pub record ExecutionReport {κ} (V : Type κ) : Type κ where
  pub role : String
  pub transport : String
  pub conversation : String
  pub conversation_identity : String
  pub plan_identity : String
  pub semantic_trace_identity : String
  pub frames : ℕ
  pub tokens : List ℕ
  pub completed : Bool
  pub successful : Bool
  pub failure : Option String
  pub final_state : String
  pub semantic_trace : List (Frame V)

pub record DemoReport {κ} (V : Type κ) : Type κ where
  pub transport_plan : String
  pub conversation_identity : String
  pub plan_identity : String
  pub semantic_trace_equivalent : Bool
  pub outcome_equivalent : Bool
  pub fault_plan : Option FaultPlan
  pub client : ExecutionReport V
  pub server : ExecutionReport V

module _ {κ} {V : Type κ} (frames_json : Serializer (List (Frame V))) (sha256 : Bytes → Bytes) where
  -- A trace that is not written is a failed `expect`.
  unfoldable pub trace_identity : List (Frame V) → Result RuntimeError String
  trace_identity trace = elim (frames_json.to_vec trace) [
    | none ↦ err panic
    | some encoded ↦ ok (sha256_identity sha256 encoded)
  ]

  unfoldable pub report {ℓ} :
      {T : Type ℓ} → String → Driver T V → Result RuntimeError (ExecutionReport V)
  report transport s = then_result (trace_identity s.trace) (λ identity.
      then_result (or_panic (is_complete s.machine)) (λ completed.
        then_result (or_panic (is_successful s.machine)) (λ successful.
          then_result (or_panic (failure s.machine)) (λ failed. ok (record {
            role = s.machine.endpoint.role;
            transport = transport;
            conversation = s.machine.endpoint.conversation;
            conversation_identity = s.machine.conversation_identity;
            plan_identity = s.machine.plan_identity;
            semantic_trace_identity = identity;
            frames = s.machine.sequence;
            tokens = s.tokens;
            completed = completed;
            successful = successful;
            failure = failed;
            final_state = s.machine.current;
            semantic_trace = s.trace;
          })))))

  -- What a driver returns: a report, or nothing yet when its fuel has run out, with the transport.
  unfoldable pub outcome_of {ℓ} :
      {T : Type ℓ}
      → String
      → Result RuntimeError Bool × Driver T V
      → Result RuntimeError (Option (ExecutionReport V)) × T
  outcome_of transport (ok true, s) =
      (then_result (report transport s) (λ r. ok (some r)), s.transport)
  outcome_of transport (ok false, s) = (ok none, s.transport)
  outcome_of transport (err e, s) = (err e, s.transport)

  module _ {ℓ} {T : Type ℓ} (io : Transport T V) where
    unfoldable pub drive :
        Act (State io) Bool
        → T
        → Result RuntimeError Machine
        → Result RuntimeError (Option (ExecutionReport V)) × T
    unfolding outcome_of
    drive main t (err e) = (err e, t)
    drive main t (ok m) =
        outcome_of (io.plan t)
          (main (record { machine = m; transport = t; trace = []; tokens = [] }))

    unfoldable pub is_zero : Option ℕ → Bool
    is_zero none = false
    is_zero (some limit) = eqb limit 0

    unfoldable pub run_generate_client_plan :
        Payloads V
        → ℕ
        → PreparedPlan
        → T
        → String
        → Option ℕ
        → Result RuntimeError (Option (ExecutionReport V)) × T
    unfolding drive is_zero
    run_generate_client_plan value fuel p t prompt cancel_after =
        if is_zero cancel_after
        then (err application, t)
        else drive (client_main io value fuel prompt cancel_after) t (from_plan p "client")

    unfoldable pub run_generate_server_plan :
        Payloads V → ℕ → PreparedPlan → T → ℕ → Result RuntimeError (Option (ExecutionReport V)) × T
    unfolding drive
    run_generate_server_plan value fuel p t token_limit =
        drive (server_main io value fuel token_limit) t (from_plan p "server")

-- The drivers of a conversation, which compile it first.
module _ {κ} {V : Type κ} (json : Serializer (Conversation V)) (plan_json : Serializer SemanticPlan)
    (frames_json : Serializer (List (Frame V))) (sha256 : Bytes → Bytes) {T : Type κ}
    (io : Transport T V) (value : Payloads V) where
  unfoldable pub with_plan {μ} :
      {A : Type μ}
      → Result PlanError PreparedPlan
      → (PreparedPlan → T → Result RuntimeError A × T)
      → T
      → Result RuntimeError A × T
  with_plan (ok p) run t = run p t
  with_plan (err e) run t = (err (plan e), t)

  unfoldable pub run_generate_client :
      ℕ
      → Conversation V
      → T
      → String
      → Option ℕ
      → Result RuntimeError (Option (ExecutionReport V)) × T
  unfolding with_plan
  run_generate_client fuel c t prompt cancel_after =
      with_plan (compile_prepared json plan_json sha256 c)
        (λ p u. run_generate_client_plan frames_json sha256 io value fuel p u prompt cancel_after) t

  unfoldable pub run_generate_server :
      ℕ → Conversation V → T → ℕ → Result RuntimeError (Option (ExecutionReport V)) × T
  unfolding with_plan
  run_generate_server fuel c t token_limit =
      with_plan (compile_prepared json plan_json sha256 c)
        (λ p u. run_generate_server_plan frames_json sha256 io value fuel p u token_limit) t

-- The derived `PartialEq` of `Frame`, with that of its payloads.
module _ {κ} {V : Type κ} (same : V → V → Bool) where
  same_payload : Option V → Option V → Bool
  same_payload none none = true
  same_payload (some x) (some y) = same x y
  same_payload _ _ = false

  unfoldable pub same_frame : Frame V → Frame V → Bool
  unfolding same_payload
  same_frame (Frame.data_ f t m p) (Frame.data_ f' t' m' p') =
      f == f' && t == t' && m == m' && same_payload p p'
  same_frame (Frame.select b l) (Frame.select b' l') = b == b' && l == l'
  same_frame (Frame.cancel f t s) (Frame.cancel f' t' s') = f == f' && t == t' && s == s'
  same_frame (Frame.fault o f) (Frame.fault o' f') = o == o' && f == f'
  same_frame _ _ = false

  unfoldable pub same_trace : List (Frame V) → List (Frame V) → Bool
  unfolding same_frame
  same_trace [] [] = true
  same_trace (f ∷ fs) (g ∷ gs) = same_frame f g && same_trace fs gs
  same_trace _ _ = false

  same_bool : Bool → Bool → Bool
  same_bool true b = b
  same_bool false b = not b

  same_text : Option String → Option String → Bool
  same_text none none = true
  same_text (some s) (some t) = s == t
  same_text _ _ = false

  unfoldable pub demo_report : String → ExecutionReport V → ExecutionReport V → DemoReport V
  unfolding same_trace same_bool same_text
  demo_report transport_plan client server = record {
    transport_plan = transport_plan;
    conversation_identity = client.conversation_identity;
    plan_identity = client.plan_identity;
    semantic_trace_equivalent = same_trace client.semantic_trace server.semantic_trace;
    outcome_equivalent =
        client.completed
        && server.completed
        && same_bool client.successful server.successful
        && same_text client.failure server.failure
        && client.final_state == server.final_state;
    fault_plan = none;
    client = client;
    server = server;
  }
