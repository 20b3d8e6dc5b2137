-- ===== src/Memory.antt =====
-- `MemoryTransport` of src/runtime.rs. The two transports of a pair share two channels of the
-- standard library, so the state is that of the pair. A call that waits for a message gives `none`.
pub mod Order
use colloq.Prelude.{
  ℕ, String, Option, none, some, List, [], ◌∷◌, ◌++◌, Bool, true, false, ◌&&◌, if◌then◌else◌,
  Result, ok, err, ◌>>=◌,
}
use colloq.Runtime.Error.{RuntimeError, transport_closed}
use colloq.Machine.{WireEnvelope, PreparedPlan}
use colloq.Codec.{
  Bytes, Serializer, CompactEnvelope, WireEncoding, EnvelopeCodec, for_plan, encode_with,
  decode_with,
}

-- What was sent and not received, and whether the two ends are still there.
pub record Channel : Type 0 where
  pub queue : List Bytes
  pub sender : Bool
  pub receiver : Bool

pub data Side : Type 0 where
  client server : Side

pub record MemoryPair : Type 0 where
  pub codec : EnvelopeCodec
  pub client_to_server : Channel
  pub server_to_client : Channel

abbrev pub other : Side → Side
other client = server
other server = client

-- The fields `outbound` and `inbound` of a side.
abbrev pub outbound : MemoryPair → Side → Channel
outbound m client = m.client_to_server
outbound m server = m.server_to_client

abbrev pub inbound : MemoryPair → Side → Channel
inbound m s = outbound m (other s)

abbrev pub set_outbound : MemoryPair → Side → Channel → MemoryPair
set_outbound m client c = record m { client_to_server = c }
set_outbound m server c = record m { server_to_client = c }

abbrev pub channel : Channel
channel = record { queue = []; sender = true; receiver = true }

-- `memory_pair_with_codec`
unfoldable pub memory_pair_with_codec : EnvelopeCodec → MemoryPair
memory_pair_with_codec codec = record {
  codec = codec;
  client_to_server = channel;
  server_to_client = channel;
}

unfoldable pub memory_pair : MemoryPair
memory_pair = memory_pair_with_codec EnvelopeCodec.reference

unfoldable pub memory_pair_compact : PreparedPlan → MemoryPair
memory_pair_compact plan = memory_pair_with_codec (for_plan WireEncoding.compact plan)

-- `Sender::send` and `Receiver::recv` of the standard library, at an end that may be taken away.
unfoldable pub push : Channel → Bytes → Result RuntimeError Channel
push c b =
    if c.sender && c.receiver
    then ok (record c { queue = c.queue ++ b ∷ [] })
    else err (transport_closed "memory")

popped : Channel → List Bytes → Option (Result RuntimeError (Bytes × Channel))
popped c [] = if c.sender then none else some (err (transport_closed "memory"))
popped c (b ∷ bs) = some (ok (b, record c { queue = bs }))

unfoldable pub pop : Channel → Option (Result RuntimeError (Bytes × Channel))
unfolding popped
pop c = if c.receiver then popped c c.queue else some (err (transport_closed "memory"))

-- `abort`, which takes both ends of a side away.
unfoldable pub abort : MemoryPair → Side → MemoryPair
abort m s =
    let n = set_outbound m s (record (outbound m s) { sender = false }) in
    set_outbound n (other s) (record (outbound n (other s)) { receiver = false })

module _ {ℓ} {V : Type ℓ} (json : Serializer (CompactEnvelope V))
    (reference : Serializer (WireEnvelope V)) where
  -- A `send` that fails has changed nothing.
  unfoldable pub send : MemoryPair → Side → WireEnvelope V → Result RuntimeError MemoryPair
  send m s e = do
    encoded ← encode_with json reference m.codec e
    c ← push (outbound m s) encoded
    ok (set_outbound m s c)

  received :
      MemoryPair
      → Side
      → Result RuntimeError (Bytes × Channel)
      → Result RuntimeError (WireEnvelope V) × MemoryPair
  received m s (err x) = (err x, m)
  received m s (ok (encoded, c)) =
      (decode_with json reference m.codec encoded, set_outbound m (other s) c)

  unfoldable pub receive :
      MemoryPair → Side → Option (Result RuntimeError (WireEnvelope V) × MemoryPair)
  unfolding received
  receive m s = elim (pop (inbound m s)) [ none ↦ none | some r ↦ some (received m s r) ]
