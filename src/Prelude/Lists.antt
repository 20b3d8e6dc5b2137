-- ===== src/Prelude/Lists.antt =====
-- Lists under native indices, predicates on lists, and the membership lemmas that the parts share.
use Prim.Native.Nat.{ℕ, zero, suc, ◌+◌}
use mathlib.Core.Path.{◌≡◌, refl, ap, sym, subst, ◌∙◌}
use mathlib.Core.Logic.{◌⊎◌, inl, inr, ◌↔◌, ⊎_elim}
use mathlib.Core.Bool.{Bool, true, false, ◌&&◌, ◌||◌}
use mathlib.Core.Option.{Option, none, some}
use mathlib.Core.List.{List, [], ◌∷◌, ◌++◌, map, Memᴰ}
use mathlib.Core.List.Memᴰ
use native.Mathlib.Omega.{arith}
use package.colloq.Prelude.Tests.{if◌then◌else◌, Bool-cases, some_inj}

module _ {ℓ} {A : Type ℓ} where
  abbrev pub length : List A → ℕ
  length [] = 0
  length (_ ∷ xs) = suc (length xs)

  abbrev pub get_elem? : List A → ℕ → Option A
  get_elem? [] i = none
  get_elem? (x ∷ xs) zero = some x
  get_elem? (x ∷ xs) (suc i) = get_elem? xs i

  -- The first item that passes, as `iter().find`.
  abbrev pub find? : (A → Bool) → List A → Option A
  find? p [] = none
  find? p (x ∷ xs) = if p x then some x else find? p xs

  abbrev pub any : (A → Bool) → List A → Bool
  any p [] = false
  any p (x ∷ xs) = p x || any p xs

  abbrev pub all : (A → Bool) → List A → Bool
  all p [] = true
  all p (x ∷ xs) = p x && all p xs

  pub length-append : (xs ys : List A) → length (xs ++ ys) ≡ length xs + length ys
  length-append [] ys = omega arith
  length-append (x ∷ xs) ys = omega (arith, length-append xs ys)

  pub List-cases : (xs : List A) → (xs ≡ []) ⊎ ((x : A) × (rest : List A) × (xs ≡ x ∷ rest))
  List-cases [] = inl refl
  List-cases (x ∷ xs) = inr (x, xs, refl)

  pub append-eq-nil : (xs ys : List A) → xs ++ ys ≡ [] → (xs ≡ []) × (ys ≡ [])
  append-eq-nil [] ys h = (refl, h)
  append-eq-nil (x ∷ xs) ys h = cc

  pub Memᴰ-cons : (a x : A) (xs : List A) → Memᴰ a (x ∷ xs) ↔ ((a ≡ x) ⊎ Memᴰ a xs)
  Memᴰ-cons a x xs = (Memᴰ.cases_cons, ⊎_elim Memᴰ.head Memᴰ.tail)

  pub Memᴰ-append : (a : A) (xs ys : List A) → Memᴰ a (xs ++ ys) ↔ (Memᴰ a xs ⊎ Memᴰ a ys)
  Memᴰ-append a xs ys = (Memᴰ.append_cases xs, ⊎_elim (Memᴰ.append_left ys) (Memᴰ.append_right xs))

  pub not-Memᴰ-nil : {a : A} → ¬ Memᴰ a []
  not-Memᴰ-nil = Memᴰ.not-nil

  pub Memᴰ-head : (a : A) (xs : List A) → Memᴰ a (a ∷ xs)
  Memᴰ-head a xs = Memᴰ.head refl

module _ {ℓ κ} {A : Type ℓ} (P : A → Type κ) where
  -- Every item satisfies `P`.
  abbrev pub All : List A → Type κ
  All [] = Unit
  All (x ∷ xs) = P x × All xs

  pub All-Memᴰ : {a : A} (xs : List A) → All xs → Memᴰ a xs → P a
  All-Memᴰ [] h m = absurd (Memᴰ.not-nil m)
  All-Memᴰ (x ∷ xs) h m = ⊎_elim (λ e. subst P (sym e) h.0) (All-Memᴰ xs h.1) (Memᴰ.cases_cons m)

  pub All_of_Memᴰ : (xs : List A) → ((a : A) → Memᴰ a xs → P a) → All xs
  All_of_Memᴰ [] h = tt
  All_of_Memᴰ (x ∷ xs) h = (h x (Memᴰ.head refl), All_of_Memᴰ xs (λ a m. h a (Memᴰ.tail m)))

module _ {ℓ κ} {A : Type ℓ} {B : Type κ} where
  pub length-map : (f : A → B) (xs : List A) → length (map f xs) ≡ length xs
  length-map f [] = refl
  length-map f (x ∷ xs) = ap suc (length-map f xs)

  pub Memᴰ-map : (f : A → B) (a : A) (xs : List A) → Memᴰ a xs → Memᴰ (f a) (map f xs)
  Memᴰ-map f a xs m = Memᴰ.map f m

  pub Memᴰ_of_map :
      (f : A → B) (b : B) (xs : List A) → Memᴰ b (map f xs) → (a : A) × Memᴰ a xs × (f a ≡ b)
  Memᴰ_of_map f b xs m = Memᴰ.of_map f xs m

  abbrev pub flat_map : (A → List B) → List A → List B
  flat_map f [] = []
  flat_map f (x ∷ xs) = f x ++ flat_map f xs

  pub Memᴰ-flat_map :
      (f : A → List B) (b : B) (xs : List A)
      → Memᴰ b (flat_map f xs) ↔ ((a : A) × Memᴰ a xs × Memᴰ b (f a))
  Memᴰ-flat_map f b [] = (λ m. absurd (Memᴰ.not-nil m), λ w. absurd (Memᴰ.not-nil w.1))
  Memᴰ-flat_map f b (x ∷ xs) = (
    λ m.
        ⊎_elim (λ l. (x, Memᴰ.head refl, l))
          (λ r. let (a, ma, mb) = (Memᴰ-flat_map f b xs).0 r in (a, Memᴰ.tail ma, mb))
          (Memᴰ.append_cases (f x) m),
    λ (a, ma, mb).
        ⊎_elim (λ e. Memᴰ.append_left (flat_map f xs) (subst (λ u. Memᴰ b (f u)) e mb))
          (λ r. Memᴰ.append_right (f x) ((Memᴰ-flat_map f b xs).1 (a, r, mb))) (Memᴰ.cases_cons ma),
  )

pub All_map {ℓ κ μ} :
    {A : Type ℓ} (P : A → Type κ) (Q : A → Type μ)
    → ((a : A) → P a → Q a)
    → (xs : List A) → All P xs
    → All Q xs
All_map P Q f [] h = tt
All_map P Q f (x ∷ xs) h = (f x h.0, All_map P Q f xs h.1)

pub map-map {ℓ κ μ} :
    {A : Type ℓ} {B : Type κ} {C : Type μ} (g : B → C) (f : A → B) (xs : List A)
    → map (λ x. g (f x)) xs ≡ map g (map f xs)
map-map g f [] = refl
map-map g f (x ∷ xs) = ap (λ t. g (f x) ∷ t) (map-map g f xs)

pub find?-some {ℓ} :
    {A : Type ℓ} (p : A → Bool) (xs : List A) {a : A}
    → find? p xs ≡ some a
    → (i : ℕ) × (get_elem? xs i ≡ some a) × (p a ≡ true)
find?-some p [] h = cc
find?-some p (x ∷ xs) h = elim (Bool-cases (p x)) [
  | inl e ↦ let same = some_inj (rw e at h) in (0, ap some same, ap p (sym same) ∙ e)
  | inr e ↦ let (i, g, q) = find?-some p xs (rw e at h) in (suc i, g, q)
]

pub find?-Memᴰ {ℓ} :
    {A : Type ℓ} (p : A → Bool) (a : A) (xs : List A)
    → Memᴰ a xs
    → p a ≡ true
    → (x : A) × (find? p xs ≡ some x)
find?-Memᴰ p a [] m h = absurd (Memᴰ.not-nil m)
find?-Memᴰ p a (x ∷ xs) m h = elim (Bool-cases (p x)) [
  | inl e ↦ (x, rw e refl)
  | inr e ↦
      ⊎_elim (λ (q : a ≡ x). absurd (cc (sym h ∙ (ap p q ∙ e))))
        (λ r. let (y, g) = find?-Memᴰ p a xs r h in (y, rw e g)) (Memᴰ.cases_cons m)
]

pub Memᴰ_of_get_elem? {ℓ} :
    {A : Type ℓ} (xs : List A) (i : ℕ) {a : A} → get_elem? xs i ≡ some a → Memᴰ a xs
Memᴰ_of_get_elem? [] i h = cc
Memᴰ_of_get_elem? (x ∷ xs) zero h = Memᴰ.head (sym (some_inj h))
Memᴰ_of_get_elem? (x ∷ xs) (suc i) h = Memᴰ.tail (Memᴰ_of_get_elem? xs i h)
