-- ===== src/Tests/Machines.antt =====
-- The two machines of the small conversation.
use colloq.Prelude.{
  ℕ, String, ◌≡◌, ◌≢◌, refl, ◌⊎◌, Option, some, none, List, [], ◌∷◌, Memᴰ, true, false, ok, err,
  eq_iff, ◌==◌, if◌then◌else◌,
}
use colloq.Trace.{Frame, data_, fault, verify_trace, TraceReport}
use colloq.Trace.Steps.{Step}
use colloq.Project.{Endpoint, EndpointState, project_validated}
use colloq.Runtime.Error.{state_mismatch}
use colloq.Machine.{
  Machine, WireEnvelope, PreparedPlan, from_plan, emit_data, accept, accepts, state, next_sequence,
  observe_failure, observe_failure_at, is_complete, is_successful, failure,
}
use colloq.Machine.Find.{Follows}
use colloq.Machine.Sync.{Emits, Synced}
use colloq.Machine.Exchange.{from_left, stop, accept-emit}
use colloq.Machine.Outcome.{Tells, Exchange-verify_trace, CanEmit, Synced-progress}
use colloq.Machine.Refuses.{Addressed, accept-Addressed, accept-replay}
use colloq.Machine.Failure.{observe_failure_lem, observe_failure-Synced, failed_send-Synced}
use colloq.Machine.Start.{from_plan-Synced}
use package.colloq.Tests.{talk, talk_IsValid, talk_roles, apart, client, server}

synced : Synced talk "client" "server" client server
unfolding colloq.Conversation.id
synced = record {
  left = record { machine = refl; at = Memᴰ.head refl };
  right = record { machine = refl; at = Memᴰ.head refl };
  identity = refl;
  current = refl;
  sequence = refl;
}

abbrev question : Frame ℕ
question = data_ "client" "server" "question" (some 7)

abbrev envelope : WireEnvelope ℕ
envelope = record {
  colloq_wire = "0.1.0";
  conversation = "talk";
  conversation_identity = "c";
  state = "ask";
  sequence = 0;
  frame = question;
}

abbrev client_after : Machine
client_after = record client { current = "pick"; sequence = 1 }

abbrev server_after : Machine
server_after = record server { current = "pick"; sequence = 1 }

emitted : Emits client envelope client_after
unfolding emit_data state colloq.Machine.state_at colloq.Project.endpoint_for colloq.Project.id
    colloq.Project.project_state colloq.Machine.emit next_sequence
emitted = Emits.data_call 7 refl

accepted : accept server envelope ≡ ok (question, server_after)
unfolding accept colloq.Machine.validate_envelope colloq.Project.endpoint_for state
    colloq.Machine.state_at colloq.Project.id colloq.Project.project_state accepts next_sequence
accepted = refl

accept-emit_example :
    (n : Machine) × (accept server envelope ≡ ok (question, n))
    × Synced talk "client" "server" client_after n
    × Step talk "ask" question "pick"
accept-emit_example =
    accept-emit talk talk_IsValid "client" "server" apart talk_roles synced emitted

Exchange-verify_trace_example :
    (r : TraceReport) × (verify_trace talk (question ∷ []) ≡ ok r)
    × Tells client_after r
    × Tells server_after r
Exchange-verify_trace_example =
    Exchange-verify_trace talk talk_IsValid "client" "server" apart talk_roles synced refl
      (from_left emitted accepted stop)

Synced-progress_example :
    (is_complete client ≡ some true) × (is_complete server ≡ some true)
    ⊎ (CanEmit talk talk_IsValid 7 client ⊎ CanEmit talk talk_IsValid 7 server)
Synced-progress_example =
    Synced-progress talk talk_IsValid 7 "client" "server" apart talk_roles synced

accept-Addressed_example :
    Addressed server envelope
    × (question ≡ question)
    × ((s : EndpointState) × (next : String) × (state server ≡ some s)
        × (accepts "server" s question ≡ some next)
        × (server_after ≡ record server { current = next; sequence = next_sequence 0 }))
unfolding colloq.Project.endpoint_for
accept-Addressed_example = accept-Addressed server server_after envelope question accepted

accept-replay_example : accept server_after envelope ≡ err (state_mismatch "server" "pick" "ask")
unfolding colloq.Project.endpoint_for
accept-replay_example = accept-replay server server_after envelope question accepted

abbrev client_fault : Frame ℕ
client_fault = fault "client" "lost"

abbrev client_lost : Machine
client_lost = record client { current = "gone"; sequence = 1 }

lost : observe_failure {V = ℕ} client "lost" ≡ ok (fault "client" "lost", client_lost)
unfolding observe_failure observe_failure_at colloq.Machine.state_at colloq.Project.endpoint_for
    colloq.Project.id colloq.Project.project_state colloq.Project.failure_target
    colloq.Prelude.Maps.lookup next_sequence
lost = refl

observe_failure_lem_example :
    (client_fault ≡ fault "client" "lost")
    × Step talk "ask" client_fault "gone"
    × Follows talk "client" client_lost
    × (is_complete client_lost ≡ some true)
    × (is_successful client_lost ≡ some false)
    × (failure client_lost ≡ some (some "lost"))
unfolding colloq.Project.endpoint_for
observe_failure_lem_example =
    observe_failure_lem talk talk_IsValid "client" "lost" client client_lost client_fault
      synced.left (Memᴰ.head refl) lost

observe_failure-Synced_example :
    (n : Machine) × (observe_failure {V = ℕ} server "lost" ≡ ok (fault "server" "lost", n))
    × Synced talk "client" "server" client_lost n
unfolding colloq.Project.endpoint_for
observe_failure-Synced_example =
    observe_failure-Synced talk talk_IsValid "client" "server" "lost" synced lost

moved : ◌≢◌ {A = String} "pick" "ask"
moved e = cc ((eq_iff "pick" "ask").1 e)

lost_later :
    observe_failure_at {V = ℕ} client_after "ask" "lost" ≡ ok (fault "client" "lost", client_lost)
unfolding observe_failure_at colloq.Machine.state_at colloq.Project.endpoint_for colloq.Project.id
    colloq.Project.project_state colloq.Project.failure_target colloq.Prelude.Maps.lookup
lost_later = refl

failed_send-Synced_example :
    (n : Machine) × (observe_failure {V = ℕ} server "lost" ≡ ok (fault "server" "lost", n))
    × Synced talk "client" "server" client_lost n
unfolding colloq.Project.endpoint_for
failed_send-Synced_example =
    failed_send-Synced talk talk_IsValid "client" "server" "lost" synced emitted moved lost_later

abbrev prepared : PreparedPlan
prepared = record {
  conversation = "talk";
  conversation_identity = "c";
  plan_identity = "p";
  endpoints = project_validated talk;
  wire = record { encoding = "compact-json-v0"; transitions = [] };
}

from_plan-Synced_example :
    (x : Machine) × (y : Machine) × (from_plan prepared "client" ≡ ok x)
    × (from_plan prepared "server" ≡ ok y)
    × Synced talk "client" "server" x y
    × (x.current ≡ "ask")
    × (x.sequence ≡ 0)
from_plan-Synced_example =
    from_plan-Synced talk talk_IsValid prepared "client" "server" (λ e. (λ m. m, λ m. m))
      (Memᴰ.head refl) (Memᴰ.tail (Memᴰ.head refl))
