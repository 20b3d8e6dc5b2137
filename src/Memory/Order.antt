-- ===== src/Memory/Order.antt =====
-- The order of the messages of `MemoryTransport`.
use colloq.Prelude.{
  ℕ, zero, suc, ◌≡◌, refl, sym, ap, ◌∙◌, subst, Option, none, some, List, [], ◌∷◌, ◌++◌, true,
  Result, ok, err, ◌>>=◌, All, length,
}
use colloq.Runtime.Error.{RuntimeError}
use colloq.Machine.{WireEnvelope}
use colloq.Codec.{Bytes, Serializer, CompactEnvelope, EnvelopeCodec, encode_with, decode_with}
use colloq.Memory.{
  Channel, Side, client, server, MemoryPair, other, outbound, set_outbound, memory_pair_with_codec,
  push, popped, pop, send, received, receive,
}

abbrev open_with : List Bytes → Channel
open_with q = record { queue = q; sender = true; receiver = true }

pop-open :
    (c : Channel) (b : Bytes) (q : List Bytes)
    → c ≡ open_with (b ∷ q)
    → pop c ≡ some (ok (b, open_with q))
unfolding pop popped
pop-open c b q o = ap pop o

fresh :
    (codec : EnvelopeCodec) (s : Side) → outbound (memory_pair_with_codec codec) s ≡ open_with []
unfolding memory_pair_with_codec
fresh codec client = refl
fresh codec server = refl

append_nil {κ} : {A : Type κ} (xs : List A) → xs ++ [] ≡ xs
append_nil [] = refl
append_nil (x ∷ xs) = ap (λ t. x ∷ t) (append_nil xs)

append_one {κ} :
    {A : Type κ} (xs : List A) (y : A) (zs : List A) → (xs ++ y ∷ []) ++ zs ≡ xs ++ y ∷ zs
append_one [] y zs = refl
append_one (x ∷ xs) y zs = ap (λ t. x ∷ t) (append_one xs y zs)

outbound-set : (m : MemoryPair) (s : Side) (c : Channel) → outbound (set_outbound m s c) s ≡ c
outbound-set m client c = refl
outbound-set m server c = refl

codec-set : (m : MemoryPair) (s : Side) (c : Channel) → (set_outbound m s c).codec ≡ m.codec
codec-set m client c = refl
codec-set m server c = refl

module _ {ℓ} {V : Type ℓ} (json : Serializer (CompactEnvelope V))
    (reference : Serializer (WireEnvelope V)) where
  -- Several calls of `send`, and of `receive`: the first error ends them.
  abbrev pub send_all : MemoryPair → Side → List (WireEnvelope V) → Result RuntimeError MemoryPair
  send_all m s [] = ok m
  send_all m s (e ∷ es) = send json reference m s e >>= λ n. send_all n s es

  -- The envelopes that a number of calls of `receive` return, if none waits and none fails.
  abbrev pub receive_all : MemoryPair → Side → ℕ → Option (List (WireEnvelope V))
  receive_all m s zero = some []
  receive_all m s (suc n) = elim (receive json reference m s) [
    | none ↦ none
    | some (err x, next) ↦ none
    | some (ok e, next) ↦ elim (receive_all next s n) [ none ↦ none | some es ↦ some (e ∷ es) ]
  ]

  -- The codec writes the envelope and reads it back.
  abbrev pub Survives : EnvelopeCodec → WireEnvelope V → Type ℓ
  Survives codec e =
      (b : Bytes) × (encode_with json reference codec e ≡ ok b)
      × (decode_with json reference codec b ≡ ok e)

  send-open :
      (m : MemoryPair) (s : Side) (e : WireEnvelope V) (b : Bytes) (q : List Bytes)
      → outbound m s ≡ open_with q
      → encode_with json reference m.codec e ≡ ok b
      → send json reference m s e ≡ ok (set_outbound m s (open_with (q ++ b ∷ [])))
  unfolding send push
  send-open m s e b q o h = rw (h, o) refl

  receive-open :
      (m : MemoryPair) (s : Side) (e : WireEnvelope V) (b : Bytes) (q : List Bytes)
      → outbound m s ≡ open_with (b ∷ q)
      → decode_with json reference m.codec b ≡ ok e
      → receive json reference m (other s) ≡ some (ok e, set_outbound m s (open_with q))
  unfolding receive received pop
  receive-open m client e b q o h = rw (pop-open (outbound m client) b q o, h) refl
  receive-open m server e b q o h = rw (pop-open (outbound m server) b q o, h) refl

  -- The bytes of envelopes that survive, and what is read from them.
  data Reads (codec : EnvelopeCodec) : List Bytes → List (WireEnvelope V) → Type ℓ where
    nothing_more : Reads codec [] []
    one_more :
        {b : Bytes} {bs : List Bytes} {e : WireEnvelope V} {es : List (WireEnvelope V)}
        → decode_with json reference codec b ≡ ok e
        → Reads codec bs es
        → Reads codec (b ∷ bs) (e ∷ es)

  send_all-open :
      (m : MemoryPair) (s : Side) (q : List Bytes) (es : List (WireEnvelope V))
      → outbound m s ≡ open_with q
      → All (Survives m.codec) es
      → (n : MemoryPair) × (bs : List Bytes) × (send_all m s es ≡ ok n)
        × (n.codec ≡ m.codec)
        × (outbound n s ≡ open_with (q ++ bs))
        × Reads m.codec bs es
  send_all-open m s q [] o h =
      (m, [], refl, refl, o ∙ ap open_with (sym (append_nil q)), nothing_more)
  send_all-open m s q (e ∷ es) o ((b, w, r), rest) =
      let m' = set_outbound m s (open_with (q ++ b ∷ [])) in
      let same = codec-set m s (open_with (q ++ b ∷ [])) in
      let (n, bs, sent, kept, holds, reads) =
        send_all-open m' s (q ++ b ∷ []) es (outbound-set m s (open_with (q ++ b ∷ [])))
          (subst (λ k. All (Survives k) es) (sym same) rest) in
      (
        n,
        b ∷ bs,
        rw (send-open m s e b q o w) sent,
        kept ∙ same,
        holds ∙ ap open_with (append_one q b bs),
        one_more r (subst (λ k. Reads k bs es) same reads),
      )

  receive_all-some :
      (m n : MemoryPair) (s : Side) (k : ℕ) (e : WireEnvelope V) (es : List (WireEnvelope V))
      → receive json reference m s ≡ some (ok e, n)
      → receive_all n s k ≡ some es
      → receive_all m s (suc k) ≡ some (e ∷ es)
  receive_all-some m n s k e es h g = rw (h, g, receive_all) refl

  receive_all-open :
      (m : MemoryPair) (s : Side) (bs : List Bytes) (es : List (WireEnvelope V))
      → outbound m s ≡ open_with bs
      → Reads m.codec bs es
      → receive_all m (other s) (length es) ≡ some es
  receive_all-open m s [] [] o nothing_more = refl
  receive_all-open m s (b ∷ bs) (e ∷ es) o (one_more r rest) =
      let c = open_with bs in
      let more =
        receive_all-open (set_outbound m s c) s bs es (outbound-set m s c)
          (subst (λ k. Reads k bs es) (sym (codec-set m s c)) rest) in
      receive_all-some m (set_outbound m s c) (other s) (length es) e es
        (receive-open m s e b bs o r) more
  receive_all-open m s [] (e ∷ es) o r = elim r [ ]
  receive_all-open m s (b ∷ bs) [] o r = elim r [ ]

  -- Let a codec write each of some envelopes and read it back. When one side of a new pair of
  -- memory transports sends them one after the other, no `send` fails, and as many calls of
  -- `receive` by the other side return these envelopes in their order, without waiting.
  pub receive_all-send_all :
      (codec : EnvelopeCodec) (s : Side) (es : List (WireEnvelope V))
      → All (Survives codec) es
      → (n : MemoryPair) × (send_all (memory_pair_with_codec codec) s es ≡ ok n)
        × (receive_all n (other s) (length es) ≡ some es)
  unfolding memory_pair_with_codec
  receive_all-send_all codec s es h =
      let (n, bs, sent, kept, holds, reads) =
        send_all-open (memory_pair_with_codec codec) s [] es (fresh codec s) h in
      (n, sent, receive_all-open n s bs es holds (subst (λ k. Reads k bs es) (sym kept) reads))
