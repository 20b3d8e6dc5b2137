-- ===== src/Prelude/Order.antt =====
-- Comparisons that are total orders, and that of texts: Rust's `Ord` on `String`.
use Prim.Native.Nat.{ℕ, compare as compare_ℕ, Ordering}
use Prim.Native.Char.{code}
use Prim.Native.String.{String, [], ◌∷◌, compare, then}
use Prim.Native.String.compare
use mathlib.Core.Path.{◌≡◌, refl, sym, ◌∙◌, ap, ap₂}
use mathlib.Core.Logic.{◌⊎◌, inl, inr}
use native.Mathlib.Omega.{arith}
use text.Mathlib.TextEquality.{path_by_compare}
use text.Mathlib.TextPositions.{compare_refl}

abbrev pub flip : Ordering → Ordering
flip Ordering.lt = Ordering.gt
flip Ordering.eq = Ordering.eq
flip Ordering.gt = Ordering.lt

-- The laws of Rust's `Ord`: consistent with equality, antisymmetric, transitive.
pub record IsOrder {ℓ} {A : Type ℓ} (cmp : A → A → Ordering) : Type ℓ where
  pub same : (a : A) → cmp a a ≡ Ordering.eq
  pub eq_of : (a b : A) → cmp a b ≡ Ordering.eq → a ≡ b
  pub flips : (a b : A) → cmp b a ≡ flip (cmp a b)
  pub trans : (a b c : A) → cmp a b ≡ Ordering.lt → cmp b c ≡ Ordering.lt → cmp a c ≡ Ordering.lt

flips_ℕ : (a b : ℕ) → compare_ℕ b a ≡ flip (compare_ℕ a b)
flips_ℕ a b = ground arith

flip-then : (o p : Ordering) → then (flip o) (flip p) ≡ flip (then o p)
flip-then Ordering.lt p = refl
flip-then Ordering.eq p = refl
flip-then Ordering.gt p = refl

compare_flips : (s t : String) → compare t s ≡ flip (compare s t)
compare_flips [] [] = compare.nil-nil ∙ sym (ap flip compare.nil-nil)
compare_flips [] (d ∷ t) = compare.cons-nil d t ∙ sym (ap flip (compare.nil-cons d t))
compare_flips (c ∷ s) [] = compare.nil-cons c s ∙ sym (ap flip (compare.cons-nil c s))
compare_flips (c ∷ s) (d ∷ t) = cc (
  compare.cons-cons c d s t,
  compare.cons-cons d c t s,
  flips_ℕ (code c) (code d),
  compare_flips s t,
  flip-then (compare_ℕ (code c) (code d)) (compare s t),
)

-- How a lexicographic comparison comes out as "less".
then-lt :
    (o p : Ordering)
    → then o p ≡ Ordering.lt
    → (o ≡ Ordering.lt) ⊎ (o ≡ Ordering.eq) × (p ≡ Ordering.lt)
then-lt Ordering.lt p h = inl refl
then-lt Ordering.eq p h = inr (refl, h)
then-lt Ordering.gt p h = cc

lt-then : (o p : Ordering) → o ≡ Ordering.lt → then o p ≡ Ordering.lt
lt-then Ordering.lt p h = refl
lt-then Ordering.eq p h = cc
lt-then Ordering.gt p h = cc

eq-then : (o p : Ordering) → o ≡ Ordering.eq → then o p ≡ p
eq-then Ordering.lt p h = cc
eq-then Ordering.eq p h = refl
eq-then Ordering.gt p h = cc

-- Transitivity of a lexicographic comparison, from that of its parts at the values at hand.
then_trans :
    (ab bc ac p q r : Ordering)
    → (ab ≡ Ordering.lt → bc ≡ Ordering.lt → ac ≡ Ordering.lt)
    → (ab ≡ Ordering.eq → ac ≡ bc)
    → (bc ≡ Ordering.eq → ac ≡ ab)
    → (p ≡ Ordering.lt → q ≡ Ordering.lt → r ≡ Ordering.lt)
    → then ab p ≡ Ordering.lt
    → then bc q ≡ Ordering.lt
    → then ac r ≡ Ordering.lt
then_trans ab bc ac p q r both left right rest h k = elim (then-lt ab p h) [
  | inl l ↦ elim (then-lt bc q k) [
    | inl m ↦ lt-then ac r (both l m)
    | inr m ↦ lt-then ac r (right m.0 ∙ l)
  ]
  | inr l ↦ elim (then-lt bc q k) [
    | inl m ↦ lt-then ac r (left l.0 ∙ m)
    | inr m ↦ eq-then ac r (left l.0 ∙ m.0) ∙ rest l.1 m.1
  ]
]

compare_trans :
    (s t u : String)
    → compare s t ≡ Ordering.lt
    → compare t u ≡ Ordering.lt
    → compare s u ≡ Ordering.lt
compare_trans [] [] u h k = cc
compare_trans [] (d ∷ t) [] h k = cc (compare.cons-nil d t)
compare_trans [] (d ∷ t) (e ∷ u) h k = compare.nil-cons e u
compare_trans (c ∷ s) [] u h k = cc (compare.cons-nil c s)
compare_trans (c ∷ s) (d ∷ t) [] h k = cc (compare.cons-nil d t)
compare_trans (c ∷ s) (d ∷ t) (e ∷ u) h k =
    compare.cons-cons c e s u
    ∙ then_trans (compare_ℕ (code c) (code d)) (compare_ℕ (code d) (code e))
        (compare_ℕ (code c) (code e)) (compare s t) (compare t u) (compare s u) (ground arith)
        (ground arith) (ground arith) (compare_trans s t u) (sym (compare.cons-cons c d s t) ∙ h)
        (sym (compare.cons-cons d e t u) ∙ k)

-- Rust's `Ord` on `String` is a total order.
pub compare-IsOrder : IsOrder compare
compare-IsOrder = record {
  same = compare_refl;
  eq_of = path_by_compare;
  flips = compare_flips;
  trans = compare_trans;
}

-- A derived `Ord` compares the first fields, then the second ones.
module _ {ℓ κ} {A : Type ℓ} {B : Type κ} (ca : A → A → Ordering) (cb : B → B → Ordering) where
  abbrev pub lex : A × B → A × B → Ordering
  lex x y = then (ca x.0 y.0) (cb x.1 y.1)

module _ {ℓ κ} {A : Type ℓ} {B : Type κ} (ca : A → A → Ordering) (cb : B → B → Ordering)
    (oa : IsOrder ca) (ob : IsOrder cb) where
  then-eq : (o p : Ordering) → then o p ≡ Ordering.eq → (o ≡ Ordering.eq) × (p ≡ Ordering.eq)
  then-eq Ordering.lt p h = cc
  then-eq Ordering.eq p h = (refl, h)
  then-eq Ordering.gt p h = cc

  lex_eq : (x y : A × B) → lex ca cb x y ≡ Ordering.eq → x ≡ y
  lex_eq x y h =
      let (p, q) = then-eq (ca x.0 y.0) (cb x.1 y.1) h in
      λ i. (oa.eq_of x.0 y.0 p i, ob.eq_of x.1 y.1 q i)

  lex_trans :
      (x y z : A × B)
      → lex ca cb x y ≡ Ordering.lt
      → lex ca cb y z ≡ Ordering.lt
      → lex ca cb x z ≡ Ordering.lt
  lex_trans x y z =
      then_trans (ca x.0 y.0) (ca y.0 z.0) (ca x.0 z.0) (cb x.1 y.1) (cb y.1 z.1) (cb x.1 z.1)
        (oa.trans x.0 y.0 z.0) (λ e. ap (λ a. ca a z.0) (oa.eq_of x.0 y.0 e))
        (λ e. ap (λ a. ca x.0 a) (sym (oa.eq_of y.0 z.0 e))) (ob.trans x.1 y.1 z.1)

  pub lex-IsOrder : IsOrder (lex ca cb)
  lex-IsOrder = record {
    same = λ x. eq-then _ _ (oa.same x.0) ∙ ob.same x.1;
    eq_of = lex_eq;
    flips =
        λ x y. ap₂ then (oa.flips x.0 y.0) (ob.flips x.1 y.1) ∙ flip-then (ca x.0 y.0) (cb x.1 y.1);
    trans = lex_trans;
  }

-- Values are compared by an injective key.
module _ {ℓ κ} {A : Type ℓ} {B : Type κ} (key : A → B) (cmp : B → B → Ordering) where
  abbrev pub by_key : A → A → Ordering
  by_key x y = cmp (key x) (key y)

  pub by_key-IsOrder : ((x y : A) → key x ≡ key y → x ≡ y) → IsOrder cmp → IsOrder by_key
  by_key-IsOrder injective o = record {
    same = λ x. o.same (key x);
    eq_of = λ x y h. injective x y (o.eq_of (key x) (key y) h);
    flips = λ x y. o.flips (key x) (key y);
    trans = λ x y z. o.trans (key x) (key y) (key z);
  }

pub compare_ℕ-IsOrder : IsOrder compare_ℕ
compare_ℕ-IsOrder = record {
  same = λ a. ground arith;
  eq_of = λ a b h. ground arith;
  flips = flips_ℕ;
  trans = λ a b c h k. ground arith;
}
