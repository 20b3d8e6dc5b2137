-- ===== src/Prelude/Tests.antt =====
-- Boolean tests, results with errors, and how a proof splits on a computed value.
use Prim.Native.Nat.{ℕ, compare, Ordering}
use mathlib.Core.Path.{◌≡◌, refl}
use mathlib.Core.Logic.{◌⊎◌, inl, inr, ◌↔◌}
use mathlib.Core.Bool.{Bool, true, false, ◌&&◌, ◌||◌}
use mathlib.Core.Option.{Option, none, some}
use native.Mathlib.Omega.{arith}
use Prim.Native.String.{String}
use text.Mathlib.Text.{◌==◌}
use text.Mathlib.TextEquality.{eq_iff}

abbrev pub ltb : ℕ → ℕ → Bool
ltb a b = elim (compare a b) [ Ordering.lt ↦ true | _ ↦ false ]

abbrev pub leb : ℕ → ℕ → Bool
leb a b = elim (compare a b) [ Ordering.gt ↦ false | _ ↦ true ]

-- `==` on numbers; `==` itself is the test on texts.
abbrev pub eqb : ℕ → ℕ → Bool
eqb a b = elim (compare a b) [ Ordering.eq ↦ true | _ ↦ false ]

infix 1 if◌then◌else◌
abbrev pub if◌then◌else◌ {ℓ} : {A : Type ℓ} → Bool → A → A → A
if true then x else y = x
if false then x else y = y

pub Bool-cases : (b : Bool) → (b ≡ true) ⊎ (b ≡ false)
Bool-cases true = inl refl
Bool-cases false = inr refl

pub Option-cases {ℓ} : {A : Type ℓ} (o : Option A) → (o ≡ none) ⊎ ((a : A) × (o ≡ some a))
Option-cases none = inl refl
Option-cases (some a) = inr (a, refl)

pub some_inj {ℓ} : {A : Type ℓ} {a b : A} → some a ≡ some b → a ≡ b
some_inj h = cc

-- `↔` composes.
pub iff_trans {ℓ κ μ} : {A : Type ℓ} {B : Type κ} {C : Type μ} → A ↔ B → B ↔ C → A ↔ C
iff_trans f g = (λ a. g.0 (f.0 a), λ c. f.1 (g.1 c))

pub false_of_not : {b : Bool} → ¬ (b ≡ true) → b ≡ false
false_of_not {b = true} h = absurd (h refl)
false_of_not {b = false} h = refl

pub ||_iff : (a b : Bool) → ((a || b) ≡ true) ↔ ((a ≡ true) ⊎ (b ≡ true))
||_iff a b = ground arith

pub &&_iff : (a b : Bool) → ((a && b) ≡ true) ↔ ((a ≡ true) × (b ≡ true))
&&_iff a b = ground arith

-- Two texts are the same or not, with the test's value.
pub String-cases : (s t : String) → ((s == t) ≡ true) × (s ≡ t) ⊎ ((s == t) ≡ false) × ¬ (s ≡ t)
String-cases s t = elim (Bool-cases (s == t)) [
  | inl e ↦ inl (e, (eq_iff s t).0 e)
  | inr e ↦ inr (e, λ p. ground (arith, eq_iff s t))
]

pub data Result {ℓ κ} (E : Type ℓ) (A : Type κ) : Type (ℓ ⊔ κ) where
  ok : A → Result E A
  err : E → Result E A

module _ {ℓ κ μ} {E : Type ℓ} {A : Type κ} {B : Type μ} where
  infixl 5 ◌>>=◌
  abbrev pub ◌>>=◌ : Result E A → (A → Result E B) → Result E B
  err failure >>= next = err failure
  ok value >>= next = next value

  -- A chain that returns has returned at each of its links.
  pub >>=-eq-ok :
      (first : Result E A) (next : A → Result E B) {last : B}
      → (first >>= next) ≡ ok last
      → (mid : A) × (first ≡ ok mid) × (next mid ≡ ok last)
  >>=-eq-ok (err failure) next returned = cc
  >>=-eq-ok (ok value) next returned = (value, refl, returned)

-- The `?` of a test for its error alone.
infixl 5 ◌>>◌
abbrev pub ◌>>◌ {ℓ μ} : {E : Type ℓ} {B : Type μ} → Result E (Unit {0}) → Result E B → Result E B
first >> rest = first >>= λ _. rest

-- An early return with `failure` unless the test holds.
abbrev pub require {ℓ} : {E : Type ℓ} → Bool → E → Result E (Unit {0})
require test failure = elim test [ true ↦ ok tt | false ↦ err failure ]

pub require-eq-ok {ℓ} :
    {E : Type ℓ} (b : Bool) (e : E) {u : Unit {0}} → require b e ≡ ok u → b ≡ true
require-eq-ok true e h = refl
require-eq-ok false e h = cc

pub ok_inj {ℓ κ} : {E : Type ℓ} {A : Type κ} {a b : A} → ◌≡◌ {A = Result E A} (ok a) (ok b) → a ≡ b
ok_inj h = cc

pub err_inj {ℓ κ} :
    {E : Type ℓ} {A : Type κ} {a b : E} → ◌≡◌ {A = Result E A} (err a) (err b) → a ≡ b
err_inj h = cc

pub ok≢err {ℓ κ} :
    {E : Type ℓ} {A : Type κ} {a : A} {e : E} → ◌≡◌ {A = Result E A} (ok a) (err e) → ⊥
ok≢err h = cc

pub Result-cases {ℓ κ} :
    {E : Type ℓ} {A : Type κ} (r : Result E A) → ((a : A) × (r ≡ ok a)) ⊎ ((e : E) × (r ≡ err e))
Result-cases (ok a) = inl (a, refl)
Result-cases (err e) = inr (e, refl)

pub eqb_of_eq : {a b : ℕ} → a ≡ b → eqb a b ≡ true
eqb_of_eq h = ground arith

pub eq_of_eqb : {a b : ℕ} → eqb a b ≡ true → a ≡ b
eq_of_eqb h = ground arith
