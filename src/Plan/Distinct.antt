-- ===== src/Plan/Distinct.antt =====
-- When a set has as many items as the list that it is filled from: how src/plan.rs tests that
-- identifiers are distinct.
use mathlib.Core.List.Memᴰ
use mathlib.Core.Logic.{⊎_elim}
use Prim.Native.String.{compare}
use colloq.Prelude.{
  suc, ◌+◌, ◌≤◌, String, ◌≡◌, refl, ap, List, [], ◌∷◌, length, arith, Memᴰ, ◌↔◌, Bool-cases, inl,
  inr, Ordering, subst, All-Memᴰ, true, ◌⊎◌,
}
use colloq.Prelude.Order.{compare-IsOrder, IsOrder}
use colloq.Prelude.Sets.{
  insert, insert_all, place, IsSorted, Below, All-Below, below_irrefl, contains, contains_iff,
  Memᴰ-insert, Memᴰ-insert_all, IsSorted-insert,
}
use colloq.Validate.Spec.{IsNodup}
use colloq.Plan.Verify.{collect}

o : IsOrder compare
o = compare-IsOrder

length-place_in :
    (x y : String) (ys rest : List String) (r : Ordering)
    → compare x y ≡ r
    → IsSorted compare (y ∷ ys)
    → Memᴰ x (y ∷ ys)
    → (Memᴰ x ys → length rest ≡ length ys)
    → length (place compare r x y ys rest) ≡ suc (length ys)
length-place_in x y ys rest Ordering.lt e s m h =
    let below = All-Below compare o x y ys e s.0 in
    absurd (below_irrefl compare o x x (All-Memᴰ (Below compare x) (y ∷ ys) (e, below) m) refl)
length-place_in x y ys rest Ordering.eq e s m h = refl
length-place_in x y ys rest Ordering.gt e s m h =
    ap suc (h (⊎_elim (λ p. absurd (cc (ap (compare x) p, o.same x))) (λ t. t) (Memᴰ.cases_cons m)))

-- An item that is there leaves the number of items; another one adds one.
length-insert_in :
    (x : String) (s : List String)
    → IsSorted compare s
    → Memᴰ x s
    → length (insert compare x s) ≡ length s
unfolding insert
length-insert_in x [] h m = absurd (Memᴰ.not-nil m)
length-insert_in x (y ∷ ys) h m =
    length-place_in x y ys (insert compare x ys) (compare x y) refl h m (length-insert_in x ys h.1)

length-place_out :
    (x y : String) (ys rest : List String) (r : Ordering)
    → (r ≡ Ordering.eq → x ≡ y)
    → ¬ (x ≡ y)
    → length rest ≡ suc (length ys)
    → length (place compare r x y ys rest) ≡ suc (suc (length ys))
length-place_out x y ys rest Ordering.lt e n h = refl
length-place_out x y ys rest Ordering.eq e n h = absurd (n (e refl))
length-place_out x y ys rest Ordering.gt e n h = ap suc h

length-insert_out :
    (x : String) (s : List String) → ¬ Memᴰ x s → length (insert compare x s) ≡ suc (length s)
unfolding insert
length-insert_out x [] n = refl
length-insert_out x (y ∷ ys) n =
    length-place_out x y ys (insert compare x ys) (compare x y) (o.eq_of x y) (λ e. n (Memᴰ.head e))
      (length-insert_out x ys (λ m. n (Memᴰ.tail m)))

Memᴰ-cases : (x : String) (s : List String) → Memᴰ x s ⊎ ¬ Memᴰ x s
Memᴰ-cases x s = elim (Bool-cases (contains x s)) [
  | inl e ↦ inl ((contains_iff x s).0 e)
  | inr e ↦ inr (λ m. cc (e, (contains_iff x s).1 m))
]

length-insert_all :
    (xs s : List String)
    → IsSorted compare s
    → length (insert_all compare xs s) ≤ length xs + length s
unfolding insert_all
length-insert_all [] s h = omega arith
length-insert_all (x ∷ xs) s h =
    let rest = length-insert_all xs (insert compare x s) (IsSorted-insert compare o x s h) in
    elim (Memᴰ-cases x s) [
      | inl m ↦ omega (arith, rest, length-insert_in x s h m)
      | inr n ↦ omega (arith, rest, length-insert_out x s n)
    ]

abbrev Apart : List String → List String → Type 0
Apart xs s = (a : String) → Memᴰ a xs → ¬ Memᴰ a s

full-insert_all :
    (xs s : List String)
    → IsSorted compare s
    → (length (insert_all compare xs s) ≡ length xs + length s) ↔ (IsNodup xs × Apart xs s)
unfolding insert_all
full-insert_all [] s h = (λ e. (tt, λ a m. absurd (Memᴰ.not-nil m)), λ d. omega arith)
full-insert_all (x ∷ xs) s h =
    let sorted = IsSorted-insert compare o x s h in
    let rest = full-insert_all xs (insert compare x s) sorted in
    (
      λ e. elim (Memᴰ-cases x s) [
        | inl m ↦ absurd (
            omega (
              arith,
              e,
              length-insert_all xs (insert compare x s) sorted,
              length-insert_in x s h m,
            ))
        | inr n ↦
            let (nodup, apart) = rest.0 (omega (arith, e, length-insert_out x s n)) in
            (
              (λ m. apart x m ((Memᴰ-insert compare o x x s).1 (inl refl)), nodup),
              λ a m.
                  ⊎_elim (λ p u. n (subst (λ b. Memᴰ b s) p u))
                    (λ t u. apart a t ((Memᴰ-insert compare o a x s).1 (inr u)))
                    (Memᴰ.cases_cons m),
            )
      ],
      λ ((out, nodup), apart). omega (
        arith,
        rest.1 (
          nodup,
          λ a m u.
              ⊎_elim (λ p. out (subst (λ b. Memᴰ b xs) p m)) (apart a (Memᴰ.tail m))
                ((Memᴰ-insert compare o a x s).0 u),
        ),
        length-insert_out x s (apart x (Memᴰ.head refl)),
      ),
    )

pub length-collect_iff : (xs : List String) → (length (collect xs) ≡ length xs) ↔ IsNodup xs
unfolding collect
length-collect_iff xs =
    let full = full-insert_all xs [] tt in
    (λ e. (full.0 (omega (arith, e))).0, λ n. omega (arith, full.1 (n, λ a m. Memᴰ.not-nil)))

pub contains-collect_iff :
    (k : String) (xs : List String) → (contains k (collect xs) ≡ true) ↔ Memᴰ k xs
unfolding collect
contains-collect_iff k xs = (
  λ h.
      ⊎_elim (λ m. m) (λ m. absurd (Memᴰ.not-nil m))
        ((Memᴰ-insert_all compare o k xs []).0 ((contains_iff k (insert_all compare xs [])).0 h)),
  λ m.
      (contains_iff k (insert_all compare xs [])).1 ((Memᴰ-insert_all compare o k xs []).1 (inl m)),
)
