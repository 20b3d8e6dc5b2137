-- ===== src/Prelude/Sorting.antt =====
-- `sort_by`, which is stable, and lists without an item twice.
use Prim.Native.Nat.{Ordering}
use mathlib.Core.Path.{◌≡◌, refl, sym, ap, subst}
use mathlib.Core.Logic.{◌⊎◌, inl, inr, ◌↔◌, ⊎_elim}
use mathlib.Core.List.{List, [], ◌∷◌, ◌++◌, Memᴰ}
use mathlib.Core.List.Memᴰ
use package.colloq.Prelude.Lists.{All-Memᴰ}
use package.colloq.Prelude.Order.{IsOrder}
use package.colloq.Prelude.Sets.{insert, place, IsSorted, Below, IsSorted-insert, below_irrefl}

module _ {ℓ} {A : Type ℓ} where
  abbrev pub before : Ordering → A → A → List A → List A → List A
  before Ordering.gt x y ys rest = y ∷ rest
  before _ x y ys rest = x ∷ y ∷ ys

  -- Before the first item that is not less.
  unfoldable pub put : (A → A → Ordering) → A → List A → List A
  put cmp x [] = x ∷ []
  put cmp x (y ∷ ys) = before (cmp x y) x y ys (put cmp x ys)

  -- `xs.sort_by(cmp)`, which keeps the order of equal items.
  unfoldable pub sort_by : (A → A → Ordering) → List A → List A
  unfolding put
  sort_by cmp [] = []
  sort_by cmp (x ∷ xs) = put cmp x (sort_by cmp xs)

  -- No item twice.
  abbrev pub Distinct : List A → Type ℓ
  Distinct [] = Unit
  Distinct (x ∷ xs) = (¬ Memᴰ x xs) × Distinct xs

  before-mem :
      (r : Ordering) (a x y : A) (ys rest : List A)
      → (Memᴰ a rest ↔ ((a ≡ x) ⊎ Memᴰ a ys))
      → Memᴰ a (before r x y ys rest) ↔ ((a ≡ x) ⊎ Memᴰ a (y ∷ ys))
  before-mem Ordering.lt a x y ys rest h = (Memᴰ.cases_cons, ⊎_elim Memᴰ.head Memᴰ.tail)
  before-mem Ordering.eq a x y ys rest h = (Memᴰ.cases_cons, ⊎_elim Memᴰ.head Memᴰ.tail)
  before-mem Ordering.gt a x y ys rest h = (
    λ m.
        ⊎_elim (λ p. inr (Memᴰ.head p)) (λ t. ⊎_elim inl (λ u. inr (Memᴰ.tail u)) (h.0 t))
          (Memᴰ.cases_cons m),
    ⊎_elim (λ p. Memᴰ.tail (h.1 (inl p)))
        (λ m. ⊎_elim Memᴰ.head (λ u. Memᴰ.tail (h.1 (inr u))) (Memᴰ.cases_cons m)),
  )

  Memᴰ-put :
      (cmp : A → A → Ordering) (a x : A) (s : List A) → Memᴰ a (put cmp x s) ↔ ((a ≡ x) ⊎ Memᴰ a s)
  unfolding put
  Memᴰ-put cmp a x [] = (Memᴰ.cases_cons, ⊎_elim Memᴰ.head Memᴰ.tail)
  Memᴰ-put cmp a x (y ∷ ys) = before-mem (cmp x y) a x y ys (put cmp x ys) (Memᴰ-put cmp a x ys)

  -- Sorting keeps the items.
  pub Memᴰ-sort_by :
      (cmp : A → A → Ordering) (a : A) (xs : List A) → Memᴰ a (sort_by cmp xs) ↔ Memᴰ a xs
  unfolding sort_by
  Memᴰ-sort_by cmp a [] = (λ m. m, λ m. m)
  Memᴰ-sort_by cmp a (x ∷ xs) =
      let (f, g) = Memᴰ-put cmp a x (sort_by cmp xs) in
      let (f', g') = Memᴰ-sort_by cmp a xs in
      (
        λ m. ⊎_elim Memᴰ.head (λ t. Memᴰ.tail (f' t)) (f m),
        λ m. g (⊎_elim inl (λ t. inr (g' t)) (Memᴰ.cases_cons m)),
      )

  pub Distinct-snoc : (xs : List A) (x : A) → Distinct xs → ¬ Memᴰ x xs → Distinct (xs ++ (x ∷ []))
  Distinct-snoc [] x d n = (Memᴰ.not-nil, tt)
  Distinct-snoc (y ∷ xs) x d n = (
    λ m. ⊎_elim d.0 (λ t. n (Memᴰ.head (sym (Memᴰ.eq_of_singleton t)))) (Memᴰ.append_cases xs m),
    Distinct-snoc xs x d.1 (λ m. n (Memᴰ.tail m)),
  )

module _ {ℓ} {A : Type ℓ} (cmp : A → A → Ordering) (o : IsOrder cmp) where
  before-place :
      (r : Ordering) (x y : A) (ys rest rest' : List A)
      → ¬ (r ≡ Ordering.eq)
      → rest ≡ rest'
      → before r x y ys rest ≡ place cmp r x y ys rest'
  before-place Ordering.lt x y ys rest rest' n e = refl
  before-place Ordering.eq x y ys rest rest' n e = absurd (n refl)
  before-place Ordering.gt x y ys rest rest' n e = ap (λ t. y ∷ t) e

  put-insert : (x : A) (s : List A) → ¬ Memᴰ x s → put cmp x s ≡ insert cmp x s
  unfolding put insert
  put-insert x [] n = refl
  put-insert x (y ∷ ys) n =
      before-place (cmp x y) x y ys (put cmp x ys) (insert cmp x ys)
        (λ e. n (Memᴰ.head (o.eq_of x y e))) (put-insert x ys (λ m. n (Memᴰ.tail m)))

  -- Items that differ come out strictly increasing.
  pub IsSorted-sort_by : (xs : List A) → Distinct xs → IsSorted cmp (sort_by cmp xs)
  unfolding sort_by
  IsSorted-sort_by [] d = tt
  IsSorted-sort_by (x ∷ xs) d =
      let fresh : ¬ Memᴰ x (sort_by cmp xs) = λ m. d.0 ((Memᴰ-sort_by cmp x xs).0 m) in
      subst (IsSorted cmp) (sym (put-insert x (sort_by cmp xs) fresh))
        (IsSorted-insert cmp o x (sort_by cmp xs) (IsSorted-sort_by xs d.1))

  pub Distinct-of_IsSorted : (xs : List A) → IsSorted cmp xs → Distinct xs
  Distinct-of_IsSorted [] h = tt
  Distinct-of_IsSorted (x ∷ xs) h = (
    λ m. below_irrefl cmp o x x (All-Memᴰ (Below cmp x) xs h.0 m) refl,
    Distinct-of_IsSorted xs h.1,
  )
