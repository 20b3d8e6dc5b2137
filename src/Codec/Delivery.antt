-- ===== src/Codec/Delivery.antt =====
-- From one machine to the other, through the compact codec.
use colloq.Prelude.{String, ◌≡◌, ◌≢◌, some, [], ◌∷◌, ok}
use colloq.Conversation.{Conversation}
use colloq.Validate.Spec.{IsValid, role_ids}
use colloq.Project.{project_validated}
use colloq.Plan.Wire.Table.{IsTable}
use colloq.Machine.{Machine, WireEnvelope, accept}
use colloq.Machine.Sync.{Emits, Synced}
use colloq.Machine.Exchange.{accept-emit}
use colloq.Codec.{Bytes, Serializer, CompactEnvelope, CompactWireCodec, carried, encode, decode}
use colloq.Codec.RoundTrip.{decode-encode}

-- Let two machines of the two different roles of a valid conversation be synchronised, let the
-- machine of the first role emit an envelope, and let a compact codec with a transition table of
-- the conversation's endpoints write it as bytes. If the JSON library reads these bytes back as
-- the compact envelope that they were written for, where that has the sequence and the data of
-- the envelope, the codec reads the bytes, the machine of the second role accepts what it reads,
-- with the frame that was emitted, and the two are synchronised again.
pub accept-decode {ℓ} :
    {V : Type ℓ} (c : Conversation V) (v : IsValid c) (a b : String) (ne : a ≢ b)
    (two : role_ids c ≡ a ∷ b ∷ []) (json : Serializer (CompactEnvelope V)) (k : CompactWireCodec)
    → IsTable (project_validated c) k.wire.transitions
    → {x y x' : Machine} {e : WireEnvelope V} → Synced c a b x y
    → Emits x e x'
    → (bytes : Bytes)
    → ((w : CompactEnvelope V)
        → w.sequence ≡ e.sequence
        → carried e.frame ≡ ok w.payload
        → json.to_vec w ≡ some bytes
        → json.from_slice bytes ≡ some w)
    → encode json k e ≡ ok bytes
    → (received : WireEnvelope V) × (y' : Machine) × (decode json k bytes ≡ ok received)
      × (accept y received ≡ ok (e.frame, y'))
      × Synced c a b x' y'
accept-decode c v a b ne two json k table {x} {y} {x'} {e} h sent bytes reads written =
    let (y', taken, synced, _) = accept-emit c v a b ne two h sent in
    (e, y', decode-encode json k table.numbered e bytes reads written, taken, synced)
