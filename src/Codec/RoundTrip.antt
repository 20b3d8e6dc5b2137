-- ===== src/Codec/RoundTrip.antt =====
-- Encoding and then decoding with the compact codec of src/runtime.rs.
use colloq.Prelude.{
  find?-some, ℕ, suc, ◌≡◌, refl, sym, ap, ◌∙◌, subst, Option, none, some, List, true, false, ◌==◌,
  ltb, find?, get_elem?, length, Result, ok, require, >>=-eq-ok, require-eq-ok, eq_iff, Bool-cases,
  inl, inr, arith, ok_inj, ok≢err, eqb_of_eq,
}
use colloq.Trace.{Frame, data_, select, cancel}
use colloq.Plan.Wire.{WireOperation, WireTransition}
use colloq.Plan.Wire.Table.{Numbered, Numbered-get}
use colloq.Runtime.Error.{RuntimeError, codec, compact_wire}
use colloq.Machine.{WireEnvelope, wire_format}
use colloq.Codec.{
  Bytes, Serializer, CompactEnvelope, CompactWireCodec, max_envelope_bytes, or_else, within,
  encode_json, decode_json, operation_matches, transition_matches, carried, frame_of, numbered,
  transition_at, reject_control_payload, encode, decode,
}

pub or_else-ok {ℓ} :
    {A : Type ℓ} (x : RuntimeError) (o : Option A) {a : A} → or_else x o ≡ ok a → o ≡ some a
unfolding or_else
or_else-ok x none h = cc
or_else-ok x (some a) h = ap some (ok_inj h)

within-ok {ℓ} :
    {A : Type ℓ} (b : Bytes) (r : Result RuntimeError A) {a : A}
    → within b r ≡ ok a
    → (ltb max_envelope_bytes (length b) ≡ false) × (r ≡ ok a)
unfolding within
within-ok b r h = elim (Bool-cases (ltb max_envelope_bytes (length b))) [
  | inl e ↦ absurd (ok≢err (sym (rw (e, within) at h)))
  | inr e ↦ (e, rw (e, within) at h)
]

module _ {ℓ} {A : Type ℓ} (json : Serializer A) where
  pub encode_json-ok :
      (a : A) (b : Bytes)
      → encode_json json a ≡ ok b
      → (json.to_vec a ≡ some b) × (ltb max_envelope_bytes (length b) ≡ false)
  unfolding encode_json
  encode_json-ok a b h =
      let (bytes, e, r) = >>=-eq-ok (or_else codec (json.to_vec a)) _ h in
      let (small, q) = within-ok bytes (ok bytes) r in
      let same = ok_inj q in
      (
        or_else-ok codec (json.to_vec a) e ∙ ap some same,
        subst (λ u. ltb max_envelope_bytes (length u) ≡ false) same small,
      )

  pub decode_json-ok :
      (a : A) (b : Bytes)
      → json.from_slice b ≡ some a
      → ltb max_envelope_bytes (length b) ≡ false
      → decode_json json b ≡ ok a
  unfolding decode_json within or_else
  decode_json-ok a b h e = rw (h, e)

transition_at-get :
    (ts : List WireTransition) (i : ℕ) (t : WireTransition)
    → Numbered 0 ts
    → get_elem? ts i ≡ some t
    → transition_at ts t.id ≡ some t
unfolding transition_at numbered
transition_at-get ts i t n h =
    let id_eq : t.id ≡ suc i = (Numbered-get 0 i ts t n h).0 ∙ omega arith in
    subst (λ k. transition_at ts k ≡ some t) (sym id_eq) (rw h (rw (eqb_of_eq id_eq) refl))

module _ {ℓ} {V : Type ℓ} where
  frame_of-carried :
      (o : WireOperation) (f : Frame V) (p : Option V)
      → operation_matches o f ≡ true
      → carried f ≡ ok p
      → frame_of o p ≡ ok f
  unfolding operation_matches carried frame_of reject_control_payload
  frame_of-carried (WireOperation.data_ x y m) (data_ x' y' m' q) p h g =
      ground (arith, eq_iff x x', eq_iff y y', eq_iff m m')
  frame_of-carried (WireOperation.select x l) (select x' l') p h g =
      ground (arith, eq_iff x x', eq_iff l l')
  frame_of-carried (WireOperation.cancel x y m) (cancel x' y' m') p h g =
      ground (arith, eq_iff x x', eq_iff y y', eq_iff m m')
  frame_of-carried _ _ p h g = cc

module _ {ℓ} {V : Type ℓ} (json : Serializer (CompactEnvelope V)) (c : CompactWireCodec) where
  -- What `encode` has found when it succeeds.
  pub record Encoded (e : WireEnvelope V) (b : Bytes) : Type ℓ where
    pub version : e.colloq_wire ≡ wire_format
    pub conversation : e.conversation ≡ c.conversation
    pub identity : e.conversation_identity ≡ c.conversation_identity
    pub transition : WireTransition
    pub payload : Option V
    pub place : ℕ
    pub at : get_elem? c.wire.transitions place ≡ some transition
    pub matches : transition_matches transition e ≡ true
    pub is_carried : carried e.frame ≡ ok payload
    pub written :
        json.to_vec
          (record { transition = transition.id; sequence = e.sequence; payload = payload })
        ≡ some b
    pub small : ltb max_envelope_bytes (length b) ≡ false

  encode-Encoded : (e : WireEnvelope V) (b : Bytes) → encode json c e ≡ ok b → Encoded e b
  unfolding encode
  encode-Encoded e b h =
      let (u0, h0, r0) = >>=-eq-ok (require (e.colloq_wire == wire_format) _) _ h in
      let (u1, h1, r1) = >>=-eq-ok (require (e.conversation == c.conversation) _) _ r0 in
      let (u2, h2, r2) =
        >>=-eq-ok (require (e.conversation_identity == c.conversation_identity) _) _ r1 in
      let (t, h3, r3) =
        >>=-eq-ok (or_else compact_wire (find? (λ t. transition_matches t e) c.wire.transitions)) _
          r2 in
      let (i, g, q) =
        find?-some (λ t. transition_matches t e) c.wire.transitions
          (or_else-ok compact_wire (find? (λ t. transition_matches t e) c.wire.transitions) h3) in
      let (p, h4, r4) = >>=-eq-ok (carried e.frame) _ r3 in
      let (w, s) =
        encode_json-ok json (record { transition = t.id; sequence = e.sequence; payload = p }) b
          r4 in
      record {
        version = (eq_iff e.colloq_wire wire_format).0 (require-eq-ok _ _ h0);
        conversation = (eq_iff e.conversation c.conversation).0 (require-eq-ok _ _ h1);
        identity =
            (eq_iff e.conversation_identity c.conversation_identity).0 (require-eq-ok _ _ h2);
        transition = t;
        payload = p;
        place = i;
        at = g;
        matches = q;
        is_carried = h4;
        written = w;
        small = s;
      }

  matches-state :
      (t : WireTransition) (e : WireEnvelope V)
      → transition_matches t e ≡ true
      → (t.state ≡ e.state) × (operation_matches t.operation e.frame ≡ true)
  unfolding transition_matches
  matches-state t e h = elim (Bool-cases (t.state == e.state)) [
    | inl x ↦ ((eq_iff t.state e.state).0 x, rw (x, transition_matches) at h)
    | inr x ↦ absurd (cc (rw (x, transition_matches) at h))
  ]

  -- Let the transitions of a compact codec be numbered from 1, and let the JSON library read
  -- some bytes back as the compact envelope that they were written for, where that has the
  -- sequence and the data of an envelope. When `encode` returns these bytes for the envelope,
  -- `decode` returns the envelope for them.
  pub decode-encode :
      Numbered 0 c.wire.transitions
      → (e : WireEnvelope V) (b : Bytes)
      → ((x : CompactEnvelope V)
          → x.sequence ≡ e.sequence
          → carried e.frame ≡ ok x.payload
          → json.to_vec x ≡ some b
          → json.from_slice b ≡ some x)
      → encode json c e ≡ ok b
      → decode json c b ≡ ok e
  unfolding decode or_else
  decode-encode n e b reads h =
      let x = encode-Encoded e b h in
      let (same_state, same_frame) = matches-state x.transition e x.matches in
      let item : CompactEnvelope V = record {
        transition = x.transition.id;
        sequence = e.sequence;
        payload = x.payload;
      } in
      let read = decode_json-ok json item b (reads item refl x.is_carried x.written) x.small in
      let at = transition_at-get c.wire.transitions x.place x.transition n x.at in
      let made =
        frame_of-carried x.transition.operation e.frame x.payload same_frame x.is_carried in
      rw (read, at, made, same_state, sym x.version, sym x.conversation, sym x.identity) refl
