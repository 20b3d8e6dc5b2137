-- ===== src/Prelude/Sets.antt =====
-- `BTreeSet` as the list of its items in order, over a comparison.
use Prim.Native.Nat.{Ordering}
use Prim.Native.String.{String, compare}
use mathlib.Core.Path.{◌≡◌, refl, sym, ap, ◌∙◌}
use mathlib.Core.Logic.{◌⊎◌, inl, inr, ◌↔◌, ⊎_elim}
use mathlib.Core.Bool.{Bool, true, false, ◌||◌}
use mathlib.Core.List.{List, [], ◌∷◌, Memᴰ}
use mathlib.Core.List.Memᴰ
use native.Mathlib.Omega.{arith}
use text.Mathlib.Text.{◌==◌}
use text.Mathlib.TextEquality.{eq_iff}
use package.colloq.Prelude.Tests.{String-cases}
use package.colloq.Prelude.Lists.{All, All-Memᴰ}
use package.colloq.Prelude.Order.{IsOrder, flip, compare-IsOrder}

module _ {ℓ} {A : Type ℓ} (cmp : A → A → Ordering) where
  abbrev pub place : Ordering → A → A → List A → List A → List A
  place Ordering.lt x y ys rest = x ∷ y ∷ ys
  place Ordering.eq x y ys rest = y ∷ ys
  place Ordering.gt x y ys rest = y ∷ rest

  -- `set.insert(x)`: at its place in the order, if it is not there.
  unfoldable pub insert : A → List A → List A
  insert x [] = x ∷ []
  insert x (y ∷ ys) = place (cmp x y) x y ys (insert x ys)

  -- A set built from an iterator.
  unfoldable pub insert_all : List A → List A → List A
  insert_all [] s = s
  insert_all (x ∷ xs) s = insert_all xs (insert x s)

  abbrev pub Below : A → A → Type 0
  Below x y = cmp x y ≡ Ordering.lt

  -- Strictly increasing, so without duplicates.
  abbrev pub IsSorted : List A → Type ℓ
  IsSorted [] = Unit
  IsSorted (x ∷ xs) = All (Below x) xs × IsSorted xs

-- `set.contains(x)` on texts.
unfoldable pub contains : String → List String → Bool
contains k [] = false
contains k (j ∷ s) = j == k || contains k s

pub contains_iff : (k : String) (s : List String) → (contains k s ≡ true) ↔ Memᴰ k s
unfolding contains
contains_iff k [] = (λ h. cc, λ m. absurd (Memᴰ.not-nil m))
contains_iff k (j ∷ s) = elim (String-cases j k) [
  | inl (e, p) ↦ (λ h. Memᴰ.head (sym p), λ m. rw e)
  | inr (e, p) ↦ rw e (
    λ h. Memᴰ.tail ((contains_iff k s).0 h),
    λ m. ⊎_elim (λ q. absurd (p (sym q))) (contains_iff k s).1 (Memᴰ.cases_cons m),
  )
]

-- A set of texts.
abbrev pub StringSet : Type 0
StringSet = List String

unfoldable pub add : String → StringSet → StringSet
unfolding insert
add = insert compare

module _ {ℓ} {A : Type ℓ} (cmp : A → A → Ordering) (o : IsOrder cmp) where
  place-mem :
      (r : Ordering) (a x y : A) (ys rest : List A)
      → (r ≡ Ordering.eq → x ≡ y)
      → (Memᴰ a rest ↔ ((a ≡ x) ⊎ Memᴰ a ys))
      → Memᴰ a (place cmp r x y ys rest) ↔ ((a ≡ x) ⊎ Memᴰ a (y ∷ ys))
  place-mem Ordering.lt a x y ys rest e h = (Memᴰ.cases_cons, ⊎_elim Memᴰ.head Memᴰ.tail)
  place-mem Ordering.eq a x y ys rest e h = (inr, ⊎_elim (λ p. Memᴰ.head (p ∙ e refl)) (λ m. m))
  place-mem Ordering.gt a x y ys rest e h = (
    λ m.
        ⊎_elim (λ p. inr (Memᴰ.head p)) (λ t. ⊎_elim inl (λ u. inr (Memᴰ.tail u)) (h.0 t))
          (Memᴰ.cases_cons m),
    ⊎_elim (λ p. Memᴰ.tail (h.1 (inl p)))
        (λ m. ⊎_elim Memᴰ.head (λ u. Memᴰ.tail (h.1 (inr u))) (Memᴰ.cases_cons m)),
  )

  -- The set gains the item and nothing else.
  pub Memᴰ-insert : (a x : A) (s : List A) → Memᴰ a (insert cmp x s) ↔ ((a ≡ x) ⊎ Memᴰ a s)
  unfolding insert
  Memᴰ-insert a x [] = (Memᴰ.cases_cons, ⊎_elim Memᴰ.head Memᴰ.tail)
  Memᴰ-insert a x (y ∷ ys) =
      place-mem (cmp x y) a x y ys (insert cmp x ys) (o.eq_of x y) (Memᴰ-insert a x ys)

  pub Memᴰ-insert_all :
      (a : A) (xs s : List A) → Memᴰ a (insert_all cmp xs s) ↔ (Memᴰ a xs ⊎ Memᴰ a s)
  unfolding insert_all
  Memᴰ-insert_all a [] s = (inr, ⊎_elim (λ m. absurd (Memᴰ.not-nil m)) (λ m. m))
  Memᴰ-insert_all a (x ∷ xs) s = (
    λ m.
        ⊎_elim (λ t. inl (Memᴰ.tail t))
          (λ t. ⊎_elim (λ e. inl (Memᴰ.head e)) inr ((Memᴰ-insert a x s).0 t))
          ((Memᴰ-insert_all a xs (insert cmp x s)).0 m),
    λ w. (Memᴰ-insert_all a xs (insert cmp x s)).1 (
        ⊎_elim (λ m. ⊎_elim (λ e. inr ((Memᴰ-insert a x s).1 (inl e))) inl (Memᴰ.cases_cons m))
          (λ m. inr ((Memᴰ-insert a x s).1 (inr m))) w),
  )

  pub All-Below :
      (x y : A) (s : List A) → cmp x y ≡ Ordering.lt → All (Below cmp y) s → All (Below cmp x) s
  All-Below x y [] h k = tt
  All-Below x y (z ∷ s) h k = (o.trans x y z h k.0, All-Below x y s h k.1)

  pub below_irrefl : (x y : A) → cmp x y ≡ Ordering.lt → x ≡ y → ⊥
  below_irrefl x y h e = cc (ap (cmp x) e, o.same x)

  below_of_gt : (x y : A) → cmp x y ≡ Ordering.gt → cmp y x ≡ Ordering.lt
  below_of_gt x y h = o.flips x y ∙ ap flip h

  All-place :
      (y x z : A) (s rest : List A) (r : Ordering)
      → cmp y x ≡ Ordering.lt
      → All (Below cmp y) (z ∷ s)
      → All (Below cmp y) rest
      → All (Below cmp y) (place cmp r x z s rest)
  All-place y x z s rest Ordering.lt h k t = (h, k)
  All-place y x z s rest Ordering.eq h k t = k
  All-place y x z s rest Ordering.gt h k t = (k.0, t)

  All-insert :
      (y x : A) (s : List A)
      → cmp y x ≡ Ordering.lt
      → All (Below cmp y) s
      → All (Below cmp y) (insert cmp x s)
  unfolding insert
  All-insert y x [] h k = (h, tt)
  All-insert y x (z ∷ s) h k =
      All-place y x z s (insert cmp x s) (cmp x z) h k (All-insert y x s h k.1)

  IsSorted-place :
      (x y : A) (s rest : List A) (r : Ordering)
      → cmp x y ≡ r
      → IsSorted cmp (y ∷ s)
      → (cmp y x ≡ Ordering.lt → All (Below cmp y) rest)
      → IsSorted cmp rest
      → IsSorted cmp (place cmp r x y s rest)
  IsSorted-place x y s rest Ordering.lt e h b k = ((e, All-Below x y s e h.0), h)
  IsSorted-place x y s rest Ordering.eq e h b k = h
  IsSorted-place x y s rest Ordering.gt e h b k = (b (below_of_gt x y e), k)

  pub IsSorted-insert : (x : A) (s : List A) → IsSorted cmp s → IsSorted cmp (insert cmp x s)
  unfolding insert
  IsSorted-insert x [] h = (tt, tt)
  IsSorted-insert x (y ∷ s) h =
      IsSorted-place x y s (insert cmp x s) (cmp x y) refl h (λ b. All-insert y x s b h.0)
        (IsSorted-insert x s h.1)

  pub IsSorted-insert_all : (xs s : List A) → IsSorted cmp s → IsSorted cmp (insert_all cmp xs s)
  unfolding insert_all
  IsSorted-insert_all [] s h = h
  IsSorted-insert_all (x ∷ xs) s h = IsSorted-insert_all xs (insert cmp x s) (IsSorted-insert x s h)

  heads_eq :
      (x y : A) (xs ys : List A)
      → All (Below cmp x) xs
      → All (Below cmp y) ys
      → Memᴰ x (y ∷ ys)
      → Memᴰ y (x ∷ xs)
      → x ≡ y
  heads_eq x y xs ys hx hy mx my =
      ⊎_elim (λ e. e)
        (λ t.
          ⊎_elim sym
            (λ u. absurd (
              below_irrefl x x
                (o.trans x y x (All-Memᴰ (Below cmp x) xs hx u) (All-Memᴰ (Below cmp y) ys hy t))
                refl))
            (Memᴰ.cases_cons my))
        (Memᴰ.cases_cons mx)

  tail_sub :
      (x y a : A) (xs ys : List A)
      → x ≡ y
      → All (Below cmp x) xs
      → Memᴰ a (y ∷ ys)
      → Memᴰ a xs
      → Memᴰ a ys
  tail_sub x y a xs ys e hx m t =
      ⊎_elim (λ p. absurd (below_irrefl x a (All-Memᴰ (Below cmp x) xs hx t) (e ∙ sym p))) (λ u. u)
        (Memᴰ.cases_cons m)

  -- A set is determined by its items: what order they came in does not matter.
  pub IsSorted-ext :
      (xs ys : List A)
      → IsSorted cmp xs
      → IsSorted cmp ys
      → ((a : A) → Memᴰ a xs → Memᴰ a ys)
      → ((a : A) → Memᴰ a ys → Memᴰ a xs)
      → xs ≡ ys
  IsSorted-ext [] [] hx hy f g = refl
  IsSorted-ext [] (y ∷ ys) hx hy f g = absurd (Memᴰ.not-nil (g y (Memᴰ.head refl)))
  IsSorted-ext (x ∷ xs) [] hx hy f g = absurd (Memᴰ.not-nil (f x (Memᴰ.head refl)))
  IsSorted-ext (x ∷ xs) (y ∷ ys) hx hy f g =
      let e = heads_eq x y xs ys hx.0 hy.0 (f x (Memᴰ.head refl)) (g y (Memᴰ.head refl)) in
      let tails =
        IsSorted-ext xs ys hx.1 hy.1 (λ a t. tail_sub x y a xs ys e hx.0 (f a (Memᴰ.tail t)) t)
          (λ a t. tail_sub y x a ys xs (sym e) hy.0 (g a (Memᴰ.tail t)) t) in
      λ i. e i ∷ tails i

pub contains-add :
    (k j : String) (s : StringSet)
    → (contains k (add j s) ≡ true) ↔ ((k ≡ j) ⊎ (contains k s ≡ true))
unfolding add
contains-add k j s = (
  λ h.
      ⊎_elim inl (λ m. inr ((contains_iff k s).1 m))
        ((Memᴰ-insert compare compare-IsOrder k j s).0 ((contains_iff k (insert compare j s)).0 h)),
  λ w. (contains_iff k (insert compare j s)).1 (
      (Memᴰ-insert compare compare-IsOrder k j s).1
        (⊎_elim inl (λ h. inr ((contains_iff k s).0 h)) w)),
)

bool_ext : (a b : Bool) → (a ≡ true) ↔ (b ≡ true) → a ≡ b
bool_ext true b h = sym (h.0 refl)
bool_ext false true h = h.1 refl
bool_ext false false h = refl

-- The same as an equation of tests.
pub contains-add_eq :
    (k j : String) (s : StringSet) → contains k (add j s) ≡ (j == k || contains k s)
contains-add_eq k j s = bool_ext (contains k (add j s)) (j == k || contains k s) (
  λ h. ground (arith, contains-add k j s, eq_iff j k),
  λ h. (contains-add k j s).1 (ground (arith, eq_iff j k)),
)
