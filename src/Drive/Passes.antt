-- ===== src/Drive/Passes.antt =====
-- What a driver keeps because its transport does: the calls that send and receive change no token.
use colloq.Prelude.{
  ℕ, List, String, ◌≡◌, refl, ap, subst, Option, none, some, Bool, false, Result, ok, err, ok_inj,
}
use colloq.Fault.{Transport}
use colloq.Machine.{Machine, WireEnvelope, accept, observe_failure}
use colloq.Runtime.Error.{RuntimeError, transport_failure}
use colloq.Trace.{Frame}
use package.colloq.Drive.{
  State, observe_and_record, abort_transport, record_frame, failed_with, sent, send_and_record,
  accepted, receive_and_record, emit_and_send,
}
use package.colloq.Drive.Keeps.{Keeps, and_then-ok, on_machine-ok}

module _ {ℓ κ μ} {T : Type ℓ} {V : Type κ} (io : Transport T V) (P : List ℕ → T → Type μ)
    (sends : (tokens : List ℕ) (t : T) (e : WireEnvelope V) → P tokens t → P tokens (io.send t e).1)
    (receives : (tokens : List ℕ) (t : T) → P tokens t → P tokens (io.receive t).1)
    (aborts : (tokens : List ℕ) (t : T) → P tokens t → P tokens (io.abort t)) where
  abbrev pub Passed : State io → Type μ
  Passed s = P s.tokens s.transport

  fails :
      (call : Machine → Result RuntimeError (Frame V × Machine)) (u : Unit {0}) (s s' : State io)
      → Passed s
      → observe_and_record io call s ≡ (ok u, s')
      → Passed s'
  unfolding observe_and_record abort_transport record_frame
  fails call u s s' h e =
      let (f, t, first, last) = and_then-ok _ _ u s' e in
      let (n, called, same) =
        on_machine-ok io call (record s { transport = io.abort s.transport }) t f first in
      subst Passed (ap (λ r. r.1) last) (subst Passed same (aborts s.tokens s.transport h))

  pub fails_with {ν} :
      {A : Type ν} (call : String → Machine → Result RuntimeError (Frame V × Machine)) (value a : A)
      (error : RuntimeError) (o : Option String) (s s' : State io)
      → Passed s
      → failed_with io call value error o s ≡ (ok a, s')
      → (value ≡ a) × Passed s'
  unfolding failed_with
  fails_with call value a error none s s' h e = absurd (cc (ap (λ r. r.0) e))
  fails_with call value a error (some f) s s' h e =
      let (u, t, first, last) = and_then-ok _ _ a s' e in
      (
        ok_inj (ap (λ r. r.0) last),
        subst Passed (ap (λ r. r.1) last) (fails (call f) u s t h first),
      )

  sent-Passed :
      (e : WireEnvelope V) (r : Result RuntimeError (Unit {0})) (s s' : State io) (b : Bool)
      → Passed s
      → sent io e r s ≡ (ok b, s')
      → Passed s'
  unfolding sent
  sent-Passed e (ok u) s s' b h q = subst Passed (ap (λ r. r.1) q) h
  sent-Passed e (err error) s s' b h q =
      (fails_with _ false b error (transport_failure error) s s' h q).1

  pub Keeps-sent :
      (call : Machine → Result RuntimeError (WireEnvelope V × Machine))
      → Keeps Passed (emit_and_send io call)
  unfolding emit_and_send send_and_record
  Keeps-sent call s b s' h q =
      let (e, t, first, last) = and_then-ok _ _ b s' q in
      let (n, called, same) = on_machine-ok io call s t e first in
      let h' : Passed t = subst Passed same h in
      sent-Passed e (io.send t.transport e).0 (record t { transport = (io.send t.transport e).1 })
        s' b (sends t.tokens t.transport e h') last

  pub accepted-Passed :
      (r : Result RuntimeError (WireEnvelope V)) (s s' : State io) (o : Option (Frame V))
      → Passed s
      → accepted io r s ≡ (ok o, s')
      → Passed s' × ((f : Frame V) → o ≡ some f → (e : WireEnvelope V) × (r ≡ ok e))
  unfolding accepted
  accepted-Passed (ok e) s s' o h q =
      let (g, t, first, last) = and_then-ok _ _ o s' q in
      let (n, called, same) = on_machine-ok io (λ m. accept m e) s t g first in
      (subst Passed (ap (λ r. r.1) last) (subst Passed same h), λ f x. (e, refl))
  accepted-Passed (err error) s s' o h q =
      let (value, le) =
        fails_with (λ failure m. observe_failure m failure) none o error (transport_failure error) s
          s' h q in
      (le, λ f x. absurd (cc (value, x)))

  pub Keeps-received : Keeps Passed (receive_and_record io)
  unfolding receive_and_record
  Keeps-received s o s' h q =
      (accepted-Passed (io.receive s.transport).0
        (record s { transport = (io.receive s.transport).1 }) s' o (receives s.tokens s.transport h)
        q).0
