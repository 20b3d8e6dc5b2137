-- ===== src/Tests/Generation.antt =====
-- A small generation, and a peer that keeps to a script.
use colloq.Prelude.{
  ℕ, ◌%◌, String, Option, none, some, List, [], ◌∷◌, false, ◌==◌, if◌then◌else◌, length, Result, ok,
  err,
}
use colloq.Conversation.{Conversation, GlobalState}
use colloq.Plan.Verify.{SemanticPlan}
use colloq.Codec.{Bytes, Serializer}
use colloq.Fault.{Transport}
use colloq.Machine.{WireEnvelope}
use colloq.Runtime.Error.{RuntimeError, transport_closed}
use colloq.Trace.{Frame}
use colloq.Drive.{Payloads}

pub data Value : Type 0 where
  text : String → Value
  number : ℕ → Value
  object : String → Value → Value

unfoldable pub field_of : Value → String → Option Value
field_of (object name v) key = if name == key then some v else none
field_of _ key = none

unfoldable pub u64_of : Value → Option ℕ
u64_of (number n) = some n
u64_of _ = none

unfoldable pub str_of : Value → Option String
str_of (text s) = some s
str_of _ = none

abbrev pub values : Payloads Value
values = record {
  object = object;
  string = text;
  number = number;
  get = field_of;
  as_u64 = u64_of;
  as_str = str_of;
}

abbrev pub decide_state : GlobalState
decide_state =
    GlobalState.choice "decide" "server" (("done", "end") ∷ ("token", "emit") ∷ [])
      (("transport.closed", "closed") ∷ [])

abbrev pub act_state : GlobalState
act_state =
    GlobalState.choice "act" "client" (("cancel", "cancel") ∷ ("continue", "decide") ∷ [])
      (("transport.closed", "closed") ∷ [])

abbrev pub generate : Conversation Value
generate = record {
  schema = none;
  colloq_conversation = "0.1.0";
  module_ = record { id = "generate"; semantic_version = none };
  roles =
      record { id = "client"; placement = []; capabilities = [] }
      ∷ record { id = "server"; placement = []; capabilities = [] }
      ∷ [];
  types =
      record { id = "prompt"; definition = ("kind", text "record") ∷ [] }
      ∷ record { id = "token"; definition = ("kind", text "record") ∷ [] }
      ∷ [];
  failures = record { id = "transport.closed"; description = none; retryable = false } ∷ [];
  initial = "start";
  states =
      GlobalState.send "start" "client" "server" "prompt" "decide" none
        (("transport.closed", "closed") ∷ [])
      ∷ decide_state
      ∷ GlobalState.send "emit" "server" "client" "token" "act" none
          (("transport.closed", "closed") ∷ [])
      ∷ act_state
      ∷ GlobalState.cancel "cancel" "client" "server" "generation" "end"
          (("transport.closed", "closed") ∷ [])
      ∷ GlobalState.end "end"
      ∷ GlobalState.fail "closed" "transport.closed"
      ∷ [];
  annotations = [];
}

-- 32 bytes, the first of which counts.
unfoldable pub sha256 : Bytes → Bytes
sha256 b =
    (length b % 256)
    ∷ 0
    ∷ 0
    ∷ 0
    ∷ 0
    ∷ 0
    ∷ 0
    ∷ 0
    ∷ 0
    ∷ 0
    ∷ 0
    ∷ 0
    ∷ 0
    ∷ 0
    ∷ 0
    ∷ 0
    ∷ 0
    ∷ 0
    ∷ 0
    ∷ 0
    ∷ 0
    ∷ 0
    ∷ 0
    ∷ 0
    ∷ 0
    ∷ 0
    ∷ 0
    ∷ 0
    ∷ 0
    ∷ 0
    ∷ 0
    ∷ 0
    ∷ []

abbrev pub json : Serializer (Conversation Value)
json = record { to_vec = λ c. some (length c.states ∷ []); from_slice = λ b. none }

abbrev pub plan_json : Serializer SemanticPlan
plan_json = record { to_vec = λ p. some (length p.endpoints ∷ 7 ∷ []); from_slice = λ b. none }

abbrev pub frames_json : Serializer (List (Frame Value))
frames_json = record { to_vec = λ fs. some (length fs ∷ []); from_slice = λ b. none }

-- A peer that has these envelopes to send, and then is gone.
abbrev pub Script : Type 0
Script = List (WireEnvelope Value)

unfoldable pub next : Script → Result RuntimeError (WireEnvelope Value) × Script
next [] = (err (transport_closed "script"), [])
next (e ∷ es) = (ok e, es)

abbrev pub script : Transport Script Value
script = record {
  send = λ t e. (ok tt, t);
  receive = next;
  abort = λ t. [];
  plan = λ t. "script";
  finish = λ t role. (ok tt, t);
}

abbrev pub identity : String
identity = "sha256:0100000000000000000000000000000000000000000000000000000000000000"

abbrev pub envelope : String → ℕ → Frame Value → WireEnvelope Value
envelope state sequence frame = record {
  colloq_wire = "0.1.0";
  conversation = "generate";
  conversation_identity = identity;
  state = state;
  sequence = sequence;
  frame = frame;
}

abbrev pub prompt : Frame Value
prompt = Frame.data_ "client" "server" "prompt" (some (object "text" (text "hi")))

abbrev pub token : ℕ → Frame Value
token n = Frame.data_ "server" "client" "token" (some (object "id" (number n)))

abbrev pub select : String → String → Frame Value
select = Frame.select

abbrev pub cancel : Frame Value
cancel = Frame.cancel "client" "server" "generation"

abbrev pub trace : List (Frame Value)
trace =
    prompt
    ∷ select "server" "token"
    ∷ token 1
    ∷ select "client" "continue"
    ∷ select "server" "token"
    ∷ token 2
    ∷ select "client" "cancel"
    ∷ cancel
    ∷ []

abbrev pub for_client : Script
for_client =
    envelope "decide" 1 (select "server" "token")
    ∷ envelope "emit" 2 (token 1)
    ∷ envelope "decide" 4 (select "server" "token")
    ∷ envelope "emit" 5 (token 2)
    ∷ []
