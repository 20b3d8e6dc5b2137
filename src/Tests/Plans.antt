-- ===== src/Tests/Plans.antt =====
-- The dictionary of the small conversation, its codec, a session and an injected failure.
use mathlib.Core.List.Memᴰ
use mathlib.Core.Logic.{⊎_elim}
use colloq.Prelude.{
  ℕ, String, ◌≡◌, ◌≢◌, ◌↔◌, refl, ap, sym, ◌∙◌, Option, some, none, List, [], ◌∷◌, Memᴰ, true,
  false, ok, err, eq_iff, some_inj, Result, arith,
}
use colloq.Project.{Endpoint, endpoint_for, project_validated}
use colloq.Plan.Wire.{
  CompactWirePlan, WireTransition, data_, select, derive_wire_plan, compact_wire_format,
}
use colloq.Plan.Wire.Table.{IsTable, derive_wire_plan-IsTable, derive_wire_plan-ext}
use colloq.Runtime.Error.{FaultOperation}
use colloq.Trace.{Frame}
use colloq.Machine.{Machine, WireEnvelope, PreparedPlan, emit_data, accept}
use colloq.Machine.Find.{Follows}
use colloq.Machine.Sync.{Emits, Synced}
use colloq.Codec.{
  Bytes, Serializer, CompactEnvelope, CompactWireCodec, WireEncoding, EnvelopeCodec,
  transition_matches, carried, encode_json, encode, decode, encode_with, decode_with,
}
use colloq.Codec.RoundTrip.{decode-encode}
use colloq.Codec.Delivery.{accept-decode}
use colloq.Codec.Emitted.{encode-Emits}
use colloq.Memory.{MemoryPair, Side, memory_pair_with_codec}
use colloq.Memory.Order.{Survives, send_all, receive_all, receive_all-send_all}
use colloq.Session.{
  SessionPreface, Agrees, Shares, verify_peer, verify_peer_iff, local_session_preface, session_iff,
}
use colloq.Fault.{FaultPlan, Injector, with_fired}
use colloq.Fault.Once.{injections, injections-with_fired}
use package.colloq.Tests.{talk, talk_IsValid, talk_roles, apart, client, server}

abbrev pub dictionary : CompactWirePlan
dictionary = record {
  encoding = compact_wire_format;
  transitions =
      record { id = 1; state = "ask"; operation = data_ "client" "server" "question" }
      ∷ record { id = 2; state = "pick"; operation = select "server" "more" }
      ∷ record { id = 3; state = "pick"; operation = select "server" "stop" }
      ∷ [];
}

pub derived : derive_wire_plan (project_validated talk) ≡ ok dictionary
unfolding derive_wire_plan colloq.Plan.Wire.number colloq.Plan.Wire.entries
    colloq.Prelude.Sets.insert_all project_validated colloq.Plan.Wire.endpoint_entries
    colloq.Plan.Wire.state_entries colloq.Project.project_state colloq.Prelude.Sets.insert
derived = refl

dictionary-IsTable : IsTable (project_validated talk) dictionary.transitions
dictionary-IsTable = (derive_wire_plan-IsTable (project_validated talk) dictionary derived).1

derive_wire_plan-IsTable_example :
    (dictionary.encoding ≡ compact_wire_format)
    × IsTable (project_validated talk) dictionary.transitions
derive_wire_plan-IsTable_example =
    derive_wire_plan-IsTable (project_validated talk) dictionary derived

two_swap : (e x y : Endpoint) → Memᴰ e (x ∷ y ∷ []) → Memᴰ e (y ∷ x ∷ [])
two_swap e x y m =
    ⊎_elim (λ p. Memᴰ.tail (Memᴰ.head p)) (λ t. Memᴰ.head (Memᴰ.eq_of_singleton t))
      (Memᴰ.cases_cons m)

derive_wire_plan-ext_example :
    derive_wire_plan (endpoint_for talk "client" ∷ endpoint_for talk "server" ∷ [])
    ≡ derive_wire_plan (endpoint_for talk "server" ∷ endpoint_for talk "client" ∷ [])
derive_wire_plan-ext_example =
    derive_wire_plan-ext (endpoint_for talk "client" ∷ endpoint_for talk "server" ∷ [])
      (endpoint_for talk "server" ∷ endpoint_for talk "client" ∷ [])
      (λ e. (
        two_swap e (endpoint_for talk "client") (endpoint_for talk "server"),
        two_swap e (endpoint_for talk "server") (endpoint_for talk "client"),
      ))

-- A writer that keeps the three fields, with nothing for no payload.
payload_bytes : Option ℕ → Bytes
payload_bytes none = []
payload_bytes (some p) = p ∷ []

unfoldable written : CompactEnvelope ℕ → Bytes
unfolding payload_bytes
written x = x.transition ∷ x.sequence ∷ payload_bytes x.payload

read : Bytes → Option (CompactEnvelope ℕ)
read (t ∷ q ∷ []) = some (record { transition = t; sequence = q; payload = none })
read (t ∷ q ∷ p ∷ []) = some (record { transition = t; sequence = q; payload = some p })
read _ = none

read-payload :
    (t q : ℕ) (p : Option ℕ)
    → read (t ∷ q ∷ payload_bytes p) ≡ some (record { transition = t; sequence = q; payload = p })
unfolding payload_bytes read
read-payload t q none = refl
read-payload t q (some p) = refl

read-written : (x : CompactEnvelope ℕ) → read (written x) ≡ some x
unfolding written
read-written x = read-payload x.transition x.sequence x.payload

abbrev json : Serializer (CompactEnvelope ℕ)
json = record { to_vec = λ x. some (written x); from_slice = read }

client-Follows : Follows talk "client" client
unfolding colloq.Conversation.id
client-Follows = record { machine = refl; at = Memᴰ.head refl }

abbrev pub talk_plan : PreparedPlan
talk_plan = record {
  conversation = "talk";
  conversation_identity = "c";
  plan_identity = "p";
  endpoints = project_validated talk;
  wire = dictionary;
}

abbrev compact_codec : CompactWireCodec
compact_codec = record {
  conversation = "talk";
  conversation_identity = "c";
  plan_identity = "p";
  wire = dictionary;
}

abbrev asked : WireEnvelope ℕ
asked = record {
  colloq_wire = "0.1.0";
  conversation = "talk";
  conversation_identity = "c";
  state = "ask";
  sequence = 0;
  frame = Frame.data_ "client" "server" "question" (some 7);
}

asked_emitted : Emits client asked (record client { current = "pick"; sequence = 1 })
unfolding emit_data colloq.Machine.state colloq.Machine.state_at endpoint_for colloq.Project.id
    colloq.Project.project_state colloq.Machine.emit colloq.Machine.next_sequence
asked_emitted = Emits.data_call 7 refl

asked_bytes : encode json compact_codec asked ≡ ok (1 ∷ 0 ∷ 7 ∷ [])
unfolding encode colloq.Codec.or_else transition_matches encode_json colloq.Codec.within written
asked_bytes = refl

asked_read :
    (x : CompactEnvelope ℕ)
    → json.to_vec x ≡ some (1 ∷ 0 ∷ 7 ∷ [])
    → json.from_slice (1 ∷ 0 ∷ 7 ∷ []) ≡ some x
asked_read x e = ap read (sym (some_inj e)) ∙ read-written x

decode-encode_direct : decode json compact_codec (1 ∷ 0 ∷ 7 ∷ []) ≡ ok asked
decode-encode_direct =
    decode-encode json compact_codec dictionary-IsTable.numbered asked (1 ∷ 0 ∷ 7 ∷ [])
      (λ x _ _ e. asked_read x e) asked_bytes

decode-encode_example : decode json compact_codec (1 ∷ 0 ∷ 7 ∷ []) ≡ ok asked
decode-encode_example =
    decode-encode json compact_codec (IsTable.numbered dictionary-IsTable) asked (1 ∷ 0 ∷ 7 ∷ [])
      (λ x _ _ e. asked_read x e) asked_bytes

encode-Emits_example :
    (t : WireTransition) × (p : Option ℕ) × (transition_matches t asked ≡ true)
    × (carried asked.frame ≡ ok p)
    × (encode json compact_codec asked
        ≡ encode_json json (record { transition = t.id; sequence = 0; payload = p }))
unfolding endpoint_for
encode-Emits_example =
    encode-Emits talk talk_IsValid json compact_codec "client" (Memᴰ.head refl) dictionary-IsTable
      client-Follows refl refl asked_emitted

abbrev preface : SessionPreface
preface = record {
  colloq_session = "0.1.0";
  conversation = "talk";
  conversation_identity = "c";
  plan_identity = "p";
  role = "client";
  wire = WireEncoding.compact;
  endpoint_identity = none;
  channel_binding = none;
}

abbrev other_plan : PreparedPlan
other_plan = record talk_plan { plan_identity = "q" }

prefaced :
    local_session_preface (EnvelopeCodec.compact compact_codec) talk_plan "client" "server"
    ≡ ok preface
unfolding local_session_preface colloq.Codec.verify_plan colloq.Codec.require_session_field
    colloq.Session.require_endpoint colloq.Machine.endpoint project_validated
    colloq.Session.preface_for colloq.Session.encoding
prefaced = refl

session_iff_example :
    (◌≢◌ {A = String} "client" "server")
    × ((verify_peer preface other_plan "client" WireEncoding.compact ≡ ok tt)
        ↔ Shares talk_plan other_plan "client" WireEncoding.compact WireEncoding.compact)
unfolding colloq.Session.encoding
session_iff_example =
    session_iff (EnvelopeCodec.compact compact_codec) talk_plan other_plan "client" "server" preface
      WireEncoding.compact prefaced

abbrev second_receive : FaultPlan
second_receive = record {
  role = "client";
  operation = FaultOperation.receive;
  occurrence = 2;
  failure = "lost";
  peer_failure = none;
}

abbrev injector : Injector
injector = record { role = "client"; plan = second_receive; sends = 0; receives = 0; fired = false }

injector_ok : with_fired "client" second_receive false ≡ ok injector
unfolding with_fired
injector_ok = refl

abbrev operations : List FaultOperation
operations =
    FaultOperation.receive ∷ FaultOperation.send ∷ FaultOperation.receive ∷ FaultOperation.receive
    ∷ []

injections-with_fired_example : injections injector operations ≡ 1
injections-with_fired_example =
    injections-with_fired "client" second_receive injector operations injector_ok (omega arith)

abbrev reference_json : Serializer (WireEnvelope ℕ)
reference_json = record { to_vec = λ e. none; from_slice = λ b. none }

asked-Survives : Survives json reference_json (EnvelopeCodec.compact compact_codec) asked
unfolding encode_with decode_with
asked-Survives = (1 ∷ 0 ∷ 7 ∷ [], asked_bytes, decode-encode_direct)

receive_all-send_all_example :
    (n : MemoryPair) × (send_all json reference_json
        (memory_pair_with_codec (EnvelopeCodec.compact compact_codec))
        Side.client
        (asked ∷ asked ∷ [])
      ≡ ok n)
    × (receive_all json reference_json n Side.server 2 ≡ some (asked ∷ asked ∷ []))
receive_all-send_all_example =
    receive_all-send_all json reference_json (EnvelopeCodec.compact compact_codec) Side.client
      (asked ∷ asked ∷ []) (asked-Survives, (asked-Survives, tt))

synced : Synced talk "client" "server" client server
unfolding colloq.Conversation.id
synced = record {
  left = record { machine = refl; at = Memᴰ.head refl };
  right = record { machine = refl; at = Memᴰ.head refl };
  identity = refl;
  current = refl;
  sequence = refl;
}

accept-decode_example :
    (received : WireEnvelope ℕ) × (n : Machine) × (decode json compact_codec (1 ∷ 0 ∷ 7 ∷ [])
      ≡ ok received)
    × (accept server received ≡ ok (asked.frame, n))
    × Synced talk "client" "server" (record client { current = "pick"; sequence = 1 }) n
accept-decode_example =
    accept-decode talk talk_IsValid "client" "server" apart talk_roles json compact_codec
      dictionary-IsTable synced asked_emitted (1 ∷ 0 ∷ 7 ∷ []) (λ x _ _ e. asked_read x e)
      asked_bytes
