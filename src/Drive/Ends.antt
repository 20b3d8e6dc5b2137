-- ===== src/Drive/Ends.antt =====
-- The loops of the drivers, and what a transport has left to deliver.
use colloq.Prelude.{
  ℕ, zero, suc, ◌≤◌, ◌<◌, String, ◌≡◌, ◌≢◌, refl, sym, ap, subst, Option, none, some, Bool, true,
  false, not, Result, ok, arith,
}
use colloq.Fault.{Transport}
use colloq.Machine.{Machine, WireEnvelope, is_complete}
use colloq.Runtime.Error.{RuntimeError}
use colloq.Trace.{Frame}
use package.colloq.Drive.{
  Act, ◌>>=◌, lift, or_panic, State, Payloads, receive_and_record, emit_and_send,
  finish_if_successful, while_incomplete, unless_done,
}
use package.colloq.Drive.Client.{
  finished, loop_and_finish, client_frame, client_round, client_rest, client_main,
}
use package.colloq.Drive.Keeps.{Keeps, and_then-ok, Keeps-push_token, Keeps-finish_if_successful}
use package.colloq.Drive.Passes.{Keeps-sent, Keeps-received, accepted-Passed}
use package.colloq.Drive.Reported.{client_frame-Kept}

-- What a transport has left to deliver: no operation adds to it, and a delivery takes from it.
pub record Drains {ℓ κ} {T : Type ℓ} {V : Type κ} (io : Transport T V) (left : T → ℕ)
    : Type (ℓ ⊔ κ) where
  pub sends : (t : T) (e : WireEnvelope V) → left (io.send t e).1 ≤ left t
  pub receives : (t : T) → left (io.receive t).1 ≤ left t
  pub delivers :
      (t : T) (e : WireEnvelope V) → (io.receive t).0 ≡ ok e → left (io.receive t).1 < left t
  pub aborts : (t : T) → left (io.abort t) ≤ left t
  pub finishes : (t : T) (role : String) → left (io.finish t role).1 ≤ left t

module _ {ℓ κ} {T : Type ℓ} {V : Type κ} (io : Transport T V) where
  pub again :
      (body rest : Act (State io) Bool) (b : Bool) (s t s' : State io)
      → body s ≡ (ok b, t)
      → unless_done io (not b) rest t ≡ (ok false, s')
      → (u : State io) × (body s ≡ (ok true, u)) × (rest u ≡ (ok false, s'))
  unfolding unless_done
  again body rest true s t s' h e = (t, h, e)
  again body rest false s t s' h e = absurd (cc (ap (λ r. r.0) e))

  -- A loop that has not ended has gone on after a round.
  pub round_of :
      (body rest : Act (State io) Bool) (complete : Bool) (s s' : State io)
      → unless_done io complete (body >>= λ b. unless_done io (not b) rest) s ≡ (ok false, s')
      → (u : State io) × (body s ≡ (ok true, u)) × (rest u ≡ (ok false, s'))
  unfolding unless_done
  round_of body rest true s s' e = absurd (cc (ap (λ r. r.0) e))
  round_of body rest false s s' e =
      let (b, t, first, last) = and_then-ok (body s) _ false s' e in
      again body rest b s t s' first last

  -- A loop ends if each round that goes on counts down.
  while_incomplete-ends :
      (measure : State io → ℕ) (body : Act (State io) Bool)
      → ((s s' : State io) → body s ≡ (ok true, s') → measure s' < measure s)
      → (fuel : ℕ) (s s' : State io) → measure s < fuel
      → while_incomplete io fuel body s ≢ (ok false, s')
  unfolding while_incomplete
  while_incomplete-ends measure body down zero s s' lt e = absurd (omega arith)
  while_incomplete-ends measure body down (suc fuel) s s' lt e =
      let (complete, t, first, last) =
        and_then-ok (lift (or_panic (is_complete s.machine)) s) _ false s' e in
      let same : t ≡ s = ap (λ r. r.1) (sym first) in
      let (u, one, rest) = round_of body (while_incomplete io fuel body) complete s s' (
        subst
          (λ x.
            unless_done io complete
              (body >>= λ b. unless_done io (not b) (while_incomplete io fuel body)) x
            ≡ (ok false, s'))
          same last) in
      let below = down s u one in
      while_incomplete-ends measure body down fuel u s' (omega arith) rest

  pub finished-true : (b : Bool) (s s' : State io) → finished io b s ≡ (ok false, s') → b ≡ false
  unfolding finished
  finished-true true s s' e =
      let (u, t, first, last) = and_then-ok (finish_if_successful io s) _ false s' e in
      absurd (cc (ap (λ r. r.0) last))
  finished-true false s s' e = refl

module _ {ℓ κ} {T : Type ℓ} {V : Type κ} (io : Transport T V) (left : T → ℕ)
    (d : Drains io left) where
  abbrev Within : ℕ → State io → Type 0
  Within k s = left s.transport ≤ k

  Within-emit_and_send :
      (k : ℕ) (call : Machine → Result RuntimeError (WireEnvelope V × Machine))
      → Keeps (Within k) (emit_and_send io call)
  Within-emit_and_send k =
      Keeps-sent io (λ tokens t. left t ≤ k) (λ tokens t e h. let le = d.sends t e in omega arith)
        (λ tokens t h. let le = d.receives t in omega arith)
        (λ tokens t h. let le = d.aborts t in omega arith)

  Within-receive_and_record : (k : ℕ) → Keeps (Within k) (receive_and_record io)
  Within-receive_and_record k =
      Keeps-received io (λ tokens t. left t ≤ k)
        (λ tokens t e h. let le = d.sends t e in omega arith)
        (λ tokens t h. let le = d.receives t in omega arith)
        (λ tokens t h. let le = d.aborts t in omega arith)

  -- A frame comes with an envelope of the transport.
  receive_and_record-less :
      (s s' : State io) (f : Frame V)
      → receive_and_record io s ≡ (ok (some f), s')
      → left s'.transport < left s.transport
  unfolding receive_and_record
  receive_and_record-less s s' f q =
      let (le, taken) =
        accepted-Passed io (λ tokens t. left t ≤ left (io.receive s.transport).1)
          (λ tokens t e h. let le = d.sends t e in omega arith)
          (λ tokens t h. let le = d.receives t in omega arith)
          (λ tokens t h. let le = d.aborts t in omega arith) (io.receive s.transport).0
          (record s { transport = (io.receive s.transport).1 }) s' (some f) (omega arith) q in
      let (e, came) = taken f refl in let lt = d.delivers s.transport e came in omega arith

  module _ (value : Payloads V) where
    client_frame-less :
        (n : Option ℕ) (o : Option (Frame V)) (s t s' : State io)
        → receive_and_record io s ≡ (ok o, t)
        → client_frame io value n o t ≡ (ok true, s')
        → left s'.transport < left s.transport
    unfolding client_frame
    client_frame-less n none s t s' first last = absurd (cc (ap (λ r. r.0) last))
    client_frame-less n (some f) s t s' first last =
        let lt = receive_and_record-less s t f first in
        let le : Within (left t.transport) s' =
          client_frame-Kept io value (Within (left t.transport))
            (λ call emits. Within-emit_and_send (left t.transport) call)
            (Within-receive_and_record (left t.transport))
            (Keeps-push_token io (Within (left t.transport)) (λ x tokens h. h))
            (Keeps-finish_if_successful io (Within (left t.transport))
              (λ x h. let le = d.finishes x.transport x.machine.endpoint.role in omega arith))
            n (some f) t true s' (omega arith) last in
        omega arith

    client_rest-ends :
        (fuel : ℕ) (n : Option ℕ) (b : Bool) (s s' : State io)
        → left s.transport < fuel
        → client_rest io value fuel n b s ≢ (ok false, s')
    unfolding client_rest loop_and_finish client_round
    client_rest-ends fuel n false s s' lt e = cc (ap (λ r. r.0) e)
    client_rest-ends fuel n true s s' lt e =
        let (b, t, first, last) =
          and_then-ok (while_incomplete io fuel (client_round io value n) s) _ false s' e in
        while_incomplete-ends io (λ x. left x.transport) (client_round io value n)
          (λ x y h.
            let (o, u, f, l) = and_then-ok (receive_and_record io x) _ true y h in
            client_frame-less n o x u y f l)
          fuel s t lt
          (subst (λ x. while_incomplete io fuel (client_round io value n) s ≡ (ok x, t))
            (finished-true io b t s' last) first)

    pub client_main-ends :
        (fuel : ℕ) (prompt : String) (n : Option ℕ) (s s' : State io)
        → left s.transport < fuel
        → client_main io value fuel prompt n s ≢ (ok false, s')
    unfolding client_main
    client_main-ends fuel prompt n s s' lt e =
        let (b, t, first, last) = and_then-ok (emit_and_send io _ s) _ false s' e in
        let le : Within (left s.transport) t =
          Within-emit_and_send (left s.transport) _ s b t (omega arith) first in
        client_rest-ends fuel n b t s' (omega arith) last
