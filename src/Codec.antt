-- ===== src/Codec.antt =====
-- `EnvelopeCodec` and `CompactWireCodec` of src/runtime.rs. serde_json is a dependency: what it
-- writes and reads is the parameter `Serializer`, in which `none` is an error. The texts of the
-- `CompactWire` errors are left out.
pub mod RoundTrip
pub mod Emitted
pub mod Delivery
use colloq.Prelude.{
  ℕ, zero, suc, ◌+◌, ◌≢◌, String, Option, none, some, List, Bool, true, false, not, ◌&&◌, ◌==◌, eqb,
  ltb, if◌then◌else◌, find?, get_elem?, length, Result, ok, err, ◌>>=◌, ◌>>◌, require,
}
use colloq.Trace.{Frame, data_, select, cancel, fault}
use colloq.Plan.Wire.{WireOperation, WireTransition, CompactWirePlan}
use colloq.Runtime.Error.{
  RuntimeError, codec, compact_wire, envelope_too_large, wire_version, session_mismatch,
}
use colloq.Machine.{WireEnvelope, PreparedPlan, wire_format}

-- 16 MiB
abbrev pub max_envelope_bytes : ℕ
max_envelope_bytes = 16777216

-- The bytes of a `Vec<u8>`.
abbrev pub Bytes : Type 0
Bytes = List ℕ

-- `serde_json::to_vec` and `serde_json::from_slice` at one type.
pub record Serializer {ℓ} (A : Type ℓ) : Type ℓ where
  pub to_vec : A → Option Bytes
  pub from_slice : Bytes → Option A

pub record CompactEnvelope {ℓ} (V : Type ℓ) : Type ℓ where
  pub transition : ℕ
  pub sequence : ℕ
  pub payload : Option V

pub record CompactWireCodec : Type 0 where
  pub conversation : String
  pub conversation_identity : String
  pub plan_identity : String
  pub wire : CompactWirePlan

pub data WireEncoding : Type 0 where
  reference compact : WireEncoding

pub data EnvelopeCodec : Type 0 where
  reference : EnvelopeCodec
  compact : CompactWireCodec → EnvelopeCodec

-- `EnvelopeCodec::for_plan`
unfoldable pub for_plan : WireEncoding → PreparedPlan → EnvelopeCodec
for_plan WireEncoding.reference p = EnvelopeCodec.reference
for_plan WireEncoding.compact p = EnvelopeCodec.compact (record {
  conversation = p.conversation;
  conversation_identity = p.conversation_identity;
  plan_identity = p.plan_identity;
  wire = p.wire;
})

unfoldable pub require_session_field : String → String → String → Result RuntimeError (Unit {0})
require_session_field field expected actual =
    require (expected == actual) (session_mismatch field expected actual)

-- `EnvelopeCodec::verify_plan`
unfoldable pub verify_plan : EnvelopeCodec → PreparedPlan → Result RuntimeError (Unit {0})
verify_plan EnvelopeCodec.reference p = ok tt
verify_plan (EnvelopeCodec.compact c) p = do
  require_session_field "conversation" c.conversation p.conversation
  require_session_field "conversation_identity" c.conversation_identity p.conversation_identity
  require_session_field "plan_identity" c.plan_identity p.plan_identity

-- What a failed `?` or `ok_or_else` returns.
unfoldable pub or_else {ℓ} : {A : Type ℓ} → RuntimeError → Option A → Result RuntimeError A
or_else x none = err x
or_else x (some a) = ok a

unfoldable pub within {ℓ} : {A : Type ℓ} → Bytes → Result RuntimeError A → Result RuntimeError A
within bytes rest =
    if ltb max_envelope_bytes (length bytes)
    then err (envelope_too_large (length bytes) max_envelope_bytes)
    else rest

-- `encode_envelope` and `encode_compact_envelope`, which differ in the type that is written.
unfoldable pub encode_json {ℓ} : {A : Type ℓ} → Serializer A → A → Result RuntimeError Bytes
encode_json json a = do encoded ← or_else codec (json.to_vec a); within encoded (ok encoded)

-- `decode_envelope`
unfoldable pub decode_json {ℓ} : {A : Type ℓ} → Serializer A → Bytes → Result RuntimeError A
decode_json json encoded = within encoded (or_else codec (json.from_slice encoded))

-- `checked_sub(1)`, `get` and `filter`.
unfoldable pub numbered : ℕ → Option WireTransition → Option WireTransition
numbered i none = none
numbered i (some t) = if eqb t.id i then some t else none

unfoldable pub transition_at : List WireTransition → ℕ → Option WireTransition
unfolding numbered
transition_at ts zero = none
transition_at ts (suc index) = numbered (suc index) (get_elem? ts index)

module _ {ℓ} {V : Type ℓ} where
  unfoldable pub operation_matches : WireOperation → Frame V → Bool
  operation_matches (WireOperation.data_ from to message) (data_ from' to' message' payload) =
      from == from' && to == to' && message == message'
  operation_matches (WireOperation.select by label) (select by' label') =
      by == by' && label == label'
  operation_matches (WireOperation.cancel from to scope) (cancel from' to' scope') =
      from == from' && to == to' && scope == scope'
  operation_matches _ _ = false

  unfoldable pub transition_matches : WireTransition → WireEnvelope V → Bool
  unfolding operation_matches
  transition_matches t e =
      if t.state == e.state then operation_matches t.operation e.frame else false

  unfoldable pub carried : Frame V → Result RuntimeError (Option V)
  carried (data_ from to message payload) = ok payload
  carried (select by label) = ok none
  carried (cancel from to scope) = ok none
  carried (fault observer failure) = err compact_wire

  unfoldable pub reject_control_payload : Option V → Result RuntimeError (Unit {0})
  reject_control_payload none = ok tt
  reject_control_payload (some payload) = err compact_wire

  unfoldable pub frame_of : WireOperation → Option V → Result RuntimeError (Frame V)
  unfolding reject_control_payload
  frame_of (WireOperation.data_ from to message) payload = ok (data_ from to message payload)
  frame_of (WireOperation.select by label) payload = do
    reject_control_payload payload
    ok (select by label)
  frame_of (WireOperation.cancel from to scope) payload = do
    reject_control_payload payload
    ok (cancel from to scope)

module _ {ℓ} {V : Type ℓ} (json : Serializer (CompactEnvelope V)) (c : CompactWireCodec) where
  -- `CompactWireCodec::encode`
  unfoldable pub encode : WireEnvelope V → Result RuntimeError Bytes
  unfolding carried
  encode e = do
    require (e.colloq_wire == wire_format) (wire_version e.colloq_wire)
    require (e.conversation == c.conversation) compact_wire
    require (e.conversation_identity == c.conversation_identity) compact_wire
    t ← or_else compact_wire (find? (λ t. transition_matches t e) c.wire.transitions)
    payload ← carried e.frame
    encode_json json (record { transition = t.id; sequence = e.sequence; payload = payload })

  -- `CompactWireCodec::decode`
  unfoldable pub decode : Bytes → Result RuntimeError (WireEnvelope V)
  unfolding frame_of transition_at
  decode encoded = do
    e ← decode_json json encoded
    t ← or_else compact_wire (transition_at c.wire.transitions e.transition)
    frame ← frame_of t.operation e.payload
    ok (record {
      colloq_wire = wire_format;
      conversation = c.conversation;
      conversation_identity = c.conversation_identity;
      state = t.state;
      sequence = e.sequence;
      frame = frame;
    })

module _ {ℓ} {V : Type ℓ} (json : Serializer (CompactEnvelope V))
    (reference : Serializer (WireEnvelope V)) where
  -- `EnvelopeCodec::encode` and `EnvelopeCodec::decode`
  unfoldable pub encode_with : EnvelopeCodec → WireEnvelope V → Result RuntimeError Bytes
  encode_with EnvelopeCodec.reference e = encode_json reference e
  encode_with (EnvelopeCodec.compact c) e = encode json c e

  unfoldable pub decode_with : EnvelopeCodec → Bytes → Result RuntimeError (WireEnvelope V)
  decode_with EnvelopeCodec.reference encoded = decode_json reference encoded
  decode_with (EnvelopeCodec.compact c) encoded = decode json c encoded
