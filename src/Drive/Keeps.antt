-- ===== src/Drive/Keeps.antt =====
-- What the steps of a driver keep.
use colloq.Prelude.{
  ℕ, zero, suc, ◌≡◌, refl, ap, subst, inl, inr, List, [], ◌∷◌, ◌++◌, Bool, true, false, not, Result,
  ok, err, ok_inj, Bool-cases,
}
use colloq.Fault.{Transport}
use colloq.Machine.{Machine, is_complete, is_successful}
use colloq.Runtime.Error.{RuntimeError}
use package.colloq.Drive.{
  Act, and_then, ◌>>=◌, pure, lift, or_panic, State, unless_done, while_incomplete, if_sent,
  push_token, finish_call, finish_if_successful, moved, on_machine,
}

-- Whenever the step succeeds from a state with the property, its state afterwards has it.
abbrev pub Keeps {ℓ κ μ} : {S : Type ℓ} {A : Type κ} → (S → Type μ) → Act S A → Type (ℓ ⊔ κ ⊔ μ)
Keeps {S} {A} P act = (s : S) (a : A) (s' : S) → P s → act s ≡ (ok a, s') → P s'

-- A chain that succeeds has succeeded at both of its links.
pub and_then-ok {ℓ κ ν} :
    {S : Type ℓ} {A : Type κ} {B : Type ν} (r : Result RuntimeError A × S) (next : A → Act S B)
    (b : B) (s' : S)
    → and_then r next ≡ (ok b, s')
    → (a : A) × (t : S) × (r ≡ (ok a, t)) × (next a t ≡ (ok b, s'))
and_then-ok (ok a, t) next b s' e = (a, t, refl, e)
and_then-ok (err x, t) next b s' e = absurd (cc (ap (λ r. r.0) e))

module _ {ℓ μ} {S : Type ℓ} (P : S → Type μ) where
  pub Keeps-pure {κ} : {A : Type κ} (a : A) → Keeps P (pure {S = S} a)
  Keeps-pure a s b s' p e = subst P (ap (λ r. r.1) e) p

  pub Keeps-lift {κ} : {A : Type κ} (r : Result RuntimeError A) → Keeps P (lift {S = S} r)
  Keeps-lift r s b s' p e = subst P (ap (λ r. r.1) e) p

  pub Keeps->>= {κ ν} :
      {A : Type κ} {B : Type ν} (act : Act S A) (next : A → Act S B)
      → Keeps P act
      → ((a : A) → Keeps P (next a))
      → Keeps P (act >>= next)
  Keeps->>= act next h k s b s' p e =
      let (a, t, first, last) = and_then-ok (act s) next b s' e in k a t b s' (h s a t p first) last

module _ {ℓ κ} {T : Type ℓ} {V : Type κ} (io : Transport T V) where
  moved-ok {ν} :
      {A : Type ν} (r : Result RuntimeError (A × Machine)) (s s' : State io) (a : A)
      → moved io r s ≡ (ok a, s')
      → (n : Machine) × (r ≡ ok (a, n)) × (record s { machine = n } ≡ s')
  unfolding moved
  moved-ok (ok (b, n)) s s' a e =
      let same = ok_inj (ap (λ r. r.0) e) in (n, ap (λ x. ok (x, n)) same, ap (λ r. r.1) e)
  moved-ok (err x) s s' a e = absurd (cc (ap (λ r. r.0) e))

  -- A call of the machine that succeeds has changed nothing else.
  pub on_machine-ok {ν} :
      {A : Type ν} (call : Machine → Result RuntimeError (A × Machine)) (s s' : State io) (a : A)
      → on_machine io call s ≡ (ok a, s')
      → (n : Machine) × (call s.machine ≡ ok (a, n)) × (record s { machine = n } ≡ s')
  unfolding on_machine
  on_machine-ok call s s' a e = moved-ok (call s.machine) s s' a e

module _ {ℓ κ μ} {T : Type ℓ} {V : Type κ} (io : Transport T V) (P : State io → Type μ) where
  pub Keeps-if_sent :
      (next : Act (State io) Bool) (sent : Bool) → Keeps P next → Keeps P (if_sent io next sent)
  Keeps-if_sent next true k = k
  Keeps-if_sent next false k = Keeps-pure P false

  Keeps-unless_done :
      (done : Bool) (rest : Act (State io) Bool) → Keeps P rest → Keeps P (unless_done io done rest)
  unfolding unless_done
  Keeps-unless_done true rest k = Keeps-pure P true
  Keeps-unless_done false rest k = k

  pub Keeps-while_incomplete :
      (fuel : ℕ) (body : Act (State io) Bool)
      → Keeps P body
      → Keeps P (while_incomplete io fuel body)
  unfolding while_incomplete
  Keeps-while_incomplete zero body k = Keeps-pure P false
  Keeps-while_incomplete (suc fuel) body k =
      Keeps->>= P (λ s. lift (or_panic (is_complete s.machine)) s) _
        (λ s a s' p e. subst P (ap (λ r. r.1) e) p)
        (λ complete. Keeps-unless_done complete _ (
          Keeps->>= P body _ k
            (λ again. Keeps-unless_done (not again) _ (Keeps-while_incomplete fuel body k))))

  pub Keeps-push_token :
      ((s : State io) (tokens : List ℕ) → P s → P (record s { tokens = tokens }))
      → (id : ℕ) → Keeps P (push_token io id)
  Keeps-push_token more id s a s' p e = subst P (ap (λ r. r.1) e) (more s (s.tokens ++ (id ∷ [])) p)

  module _
      (finishes : (s : State io)
        → P s
        → P (record s { transport = (io.finish s.transport s.machine.endpoint.role).1 })) where
    Keeps-finish_call : Keeps P (finish_call io)
    unfolding finish_call
    Keeps-finish_call s a s' p e = subst P (ap (λ r. r.1) e) (finishes s p)

    pub Keeps-finish_if_successful : Keeps P (finish_if_successful io)
    unfolding finish_if_successful
    Keeps-finish_if_successful =
        Keeps->>= P (λ s. lift (or_panic (is_successful s.machine)) s) _
          (λ s a s' p e. subst P (ap (λ r. r.1) e) p)
          (λ successful. elim (Bool-cases successful) [
            | inl h ↦ rw h Keeps-finish_call
            | inr h ↦ rw h (Keeps-pure P tt)
          ])
