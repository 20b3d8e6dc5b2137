-- ===== src/Machine/Refuses.antt =====
-- What a machine accepts, and what it refuses.
use colloq.Prelude.{
  ℕ, String, ◌≡◌, ◌≢◌, refl, sym, ◌∙◌, ap, inl, inr, Option, some, none, true, false, ok, err,
  require, >>=-eq-ok, require-eq-ok, eq_iff, eq_of_eqb, ok_inj, ok≢err, Option-cases, eqb,
  false_of_not, Bool-cases, arith, ◌==◌, if◌then◌else◌,
}
use colloq.Project.{EndpointState}
use colloq.Trace.{Frame}
use colloq.Runtime.Error.{sequence_mismatch, state_mismatch}
use colloq.Machine.{
  Machine, WireEnvelope, wire_format, next_sequence, state, validate_envelope, accepts, received,
  accept,
}

next_sequence-ne : (k : ℕ) → next_sequence k ≢ k
unfolding next_sequence
next_sequence-ne k h = omega arith

module _ {ℓ} {V : Type ℓ} where
  -- All that ties an envelope to the machine that accepts it.
  pub record Addressed (m : Machine) (e : WireEnvelope V) : Type 0 where
    pub version : e.colloq_wire ≡ wire_format
    pub conversation : e.conversation ≡ m.endpoint.conversation
    pub identity : e.conversation_identity ≡ m.conversation_identity
    pub state : e.state ≡ m.current
    pub sequence : e.sequence ≡ m.sequence

  pub validate_envelope-Addressed :
      (m : Machine) (e : WireEnvelope V) {u : Unit {0}}
      → validate_envelope m e ≡ ok u
      → Addressed m e
  unfolding validate_envelope
  validate_envelope-Addressed m e h =
      let (u0, h0, r0) = >>=-eq-ok (require (e.colloq_wire == wire_format) _) _ h in
      let (u1, h1, r1) = >>=-eq-ok (require (e.conversation == m.endpoint.conversation) _) _ r0 in
      let (u2, h2, r2) =
        >>=-eq-ok (require (e.conversation_identity == m.conversation_identity) _) _ r1 in
      let (u3, h3, r3) = >>=-eq-ok (require (e.state == m.current) _) _ r2 in
      record {
        version = (eq_iff e.colloq_wire wire_format).0 (require-eq-ok _ _ h0);
        conversation = (eq_iff e.conversation m.endpoint.conversation).0 (require-eq-ok _ _ h1);
        identity =
            (eq_iff e.conversation_identity m.conversation_identity).0 (require-eq-ok _ _ h2);
        state = (eq_iff e.state m.current).0 (require-eq-ok _ _ h3);
        sequence = eq_of_eqb (require-eq-ok _ _ r3);
      }

  received-ok :
      (m : Machine) (frame : Frame V) (o : Option String) {f : Frame V} {n : Machine}
      → received m frame o ≡ ok (f, n)
      → (next : String) × (o ≡ some next)
        × (f ≡ frame)
        × (n ≡ record m { current = next; sequence = next_sequence m.sequence })
  unfolding received
  received-ok m frame none h = cc
  received-ok m frame (some next) h =
      (next, refl, ap (λ p. p.0) (sym (ok_inj h)), ap (λ p. p.1) (sym (ok_inj h)))

  -- When a machine accepts an envelope, the version, conversation, identity, state and sequence
  -- number of the envelope are those of the machine, the frame returned is that of the envelope
  -- and is one that the state of the machine allows, and of the machine only the state and the
  -- sequence number change, to the next ones.
  pub accept-Addressed :
      (m n : Machine) (e : WireEnvelope V) (f : Frame V)
      → accept m e ≡ ok (f, n)
      → Addressed m e
        × (f ≡ e.frame)
        × ((s : EndpointState) × (next : String) × (state m ≡ some s)
            × (accepts m.endpoint.role s f ≡ some next)
            × (n ≡ record m { current = next; sequence = next_sequence m.sequence }))
  unfolding accept
  accept-Addressed m n e f h =
      let (u, checks, rest) = >>=-eq-ok (validate_envelope m e) _ h in
      elim (Option-cases (state m)) [
        | inl none_at ↦ absurd (ok≢err (sym (rw none_at at rest)))
        | inr (s, at_s) ↦
            let (next, taken, same, after) =
              received-ok m e.frame (accepts m.endpoint.role s e.frame) (rw at_s at rest) in
            (
              validate_envelope-Addressed m e checks,
              same,
              (s, next, at_s, ap (accepts m.endpoint.role s) same ∙ taken, after),
            )
      ]

  -- After a machine has accepted an envelope, it refuses the same envelope: with a sequence
  -- mismatch if the state of the envelope is the new state of the machine, and with a state
  -- mismatch otherwise.
  pub accept-replay :
      (m n : Machine) (e : WireEnvelope V) (f : Frame V)
      → accept m e ≡ ok (f, n)
      → accept n e
        ≡ err (
            if e.state == n.current
            then sequence_mismatch n.endpoint.role n.sequence e.sequence
            else state_mismatch n.endpoint.role n.current e.state)
  unfolding accept validate_envelope
  accept-replay m n e f h =
      let (to, same, (s, next, at_s, taken, after)) = accept-Addressed m n e f h in
      let conv : (e.conversation == n.endpoint.conversation) ≡ true =
        (eq_iff e.conversation n.endpoint.conversation).1
          (to.conversation ∙ ap (λ k. k.endpoint.conversation) (sym after)) in
      let iden : (e.conversation_identity == n.conversation_identity) ≡ true =
        (eq_iff e.conversation_identity n.conversation_identity).1
          (to.identity ∙ ap (λ k. k.conversation_identity) (sym after)) in
      let num : eqb e.sequence n.sequence ≡ false = false_of_not (λ q.
        next_sequence-ne m.sequence
          (ap (λ k. k.sequence) (sym after) ∙ (sym (eq_of_eqb q) ∙ to.sequence))) in
      elim (Bool-cases (e.state == n.current)) [
        | inl q ↦ rw ((eq_iff e.colloq_wire wire_format).1 to.version, conv, iden, q, num)
        | inr q ↦ rw ((eq_iff e.colloq_wire wire_format).1 to.version, conv, iden, q)
      ]
