-- ===== src/Plan/Wire/Bounds.antt =====
-- How many transitions a dictionary can have.
use colloq.Prelude.{
  ℕ, suc, ◌+◌, ◌≤◌, ◌≡◌, refl, sym, ◌↔◌, List, [], ◌∷◌, length, leb, ok, >>=-eq-ok, arith,
  Bool-cases, inl, inr, ok≢err, true,
}
use colloq.Project.{Endpoint}
use colloq.Plan.Wire.{
  Entry, WireTransition, CompactWirePlan, max_transitions, number, entries, derive_wire_plan,
  compact_wire_format,
}

number-fits :
    (k : ℕ) (es : List Entry)
    → k + length es ≤ max_transitions
    → (ts : List WireTransition) × (number k es ≡ ok ts)
unfolding number
number-fits k [] h = ([], refl)
number-fits k ((s, o) ∷ es) h =
    let (ts, e) = number-fits (suc k) es (omega (arith, h)) in
    let fits : leb (k + 1) max_transitions ≡ true = ground (arith, h) in
    (record { id = k + 1; state = s; operation = o } ∷ ts, rw (fits, e) refl)

number-bound :
    (k : ℕ) (es : List Entry) (ts : List WireTransition)
    → k ≤ max_transitions
    → number k es ≡ ok ts
    → k + length es ≤ max_transitions
unfolding number
number-bound k [] ts b h = omega (arith, b)
number-bound k ((s, o) ∷ es) ts b h = elim (Bool-cases (leb (k + 1) max_transitions)) [
  | inl e ↦
      let (rest, g, q) = >>=-eq-ok (number (suc k) es) _ (rw e at h) in
      omega (arith, number-bound (suc k) es rest (ground (arith, e)) g)
  | inr e ↦ absurd (ok≢err (sym (rw e at h)))
]

-- `derive_wire_plan` returns a plan just when the endpoints give at most 65535 different pairs
-- of a state and an operation.
pub derive_wire_plan_iff :
    (endpoints : List Endpoint)
    → ((w : CompactWirePlan) × (derive_wire_plan endpoints ≡ ok w))
      ↔ (length (entries endpoints) ≤ max_transitions)
unfolding derive_wire_plan
derive_wire_plan_iff endpoints = (
  λ (w, h).
      let (ts, g, q) = >>=-eq-ok (number 0 (entries endpoints)) _ h in
      omega (arith, number-bound 0 (entries endpoints) ts (omega arith) g),
  λ b.
      let (ts, g) = number-fits 0 (entries endpoints) (omega (arith, b)) in
      (record { encoding = compact_wire_format; transitions = ts }, rw g refl),
)
