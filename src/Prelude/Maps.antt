-- ===== src/Prelude/Maps.antt =====
-- `BTreeMap<String, V>` as the list of its entries in key order.
use Prim.Native.Nat.{Ordering}
use Prim.Native.String.{String, compare}
use mathlib.Core.Path.{◌≡◌, refl, sym, ap, ◌∙◌}
use mathlib.Core.Logic.{inl, inr, ◌↔◌}
use mathlib.Core.Bool.{Bool, true, false}
use mathlib.Core.Option.{Option, none, some}
use mathlib.Core.List.{List, [], ◌∷◌, map, Memᴰ}
use native.Mathlib.Omega.{arith}
use text.Mathlib.Text.{◌==◌}
use text.Mathlib.TextEquality.{eq_iff, path_by_compare}
use text.Mathlib.TextPositions.{compare_refl}
use package.colloq.Prelude.Tests.{if◌then◌else◌, String-cases}

abbrev pub Map {ℓ} : Type ℓ → Type ℓ
Map V = List (String × V)

module _ {ℓ} {V : Type ℓ} where
  -- `map.get(k)`
  unfoldable pub lookup : String → Map V → Option V
  lookup k [] = none
  lookup k ((j, v) ∷ m) = if j == k then some v else lookup k m

  -- `map.contains_key(k)`
  unfoldable pub contains_key : String → Map V → Bool
  contains_key k [] = false
  contains_key k ((j, v) ∷ m) = if j == k then true else contains_key k m

  abbrev place : Ordering → String → V → String → V → Map V → Map V → Map V
  place Ordering.lt k v j w m rest = (k, v) ∷ (j, w) ∷ m
  place Ordering.eq k v j w m rest = (j, v) ∷ m
  place Ordering.gt k v j w m rest = (j, w) ∷ rest

  -- `map.insert(k, v)`: at its place in the order, or over the value that the key has.
  unfoldable pub insert : String → V → Map V → Map V
  insert k v [] = (k, v) ∷ []
  insert k v ((j, w) ∷ m) = place (compare k j) k v j w m (insert k v m)

  abbrev pub keys : Map V → List String
  keys m = map (λ e. e.0) m

  abbrev pub values : Map V → List V
  values m = map (λ e. e.1) m

  lookup-place :
      (o : Ordering) (k j : String) (v w : V) (m rest : Map V) (i : String)
      → (o ≡ Ordering.eq → k ≡ j)
      → (k ≡ j → o ≡ Ordering.eq)
      → lookup i rest ≡ (if k == i then some v else lookup i m)
      → lookup i (place o k v j w m rest)
        ≡ (if k == i then some v else if j == i then some w else lookup i m)
  unfolding lookup
  lookup-place Ordering.lt k j v w m rest i e f h = refl
  lookup-place Ordering.eq k j v w m rest i e f h = ground (arith, e refl)
  lookup-place Ordering.gt k j v w m rest i e f h = ground (arith, eq_iff k i, eq_iff j i)

  pub lookup-insert :
      (k i : String) (v : V) (m : Map V)
      → lookup i (insert k v m) ≡ (if k == i then some v else lookup i m)
  unfolding lookup insert
  lookup-insert k i v [] = refl
  lookup-insert k i v ((j, w) ∷ m) =
      lookup-place (compare k j) k j v w m (insert k v m) i (path_by_compare k j)
        (λ e. ap (compare k) (sym e) ∙ compare_refl k) (lookup-insert k i v m)

  pub contains_key-cons :
      (k j : String) (v : V) (m : Map V)
      → contains_key k ((j, v) ∷ m) ≡ (if j == k then true else contains_key k m)
  unfolding contains_key
  contains_key-cons k j v m = refl

  pub contains_key_iff :
      (k : String) (m : Map V) → (contains_key k m ≡ true) ↔ ((v : V) × (lookup k m ≡ some v))
  unfolding contains_key lookup
  contains_key_iff k [] = (λ h. cc, λ w. cc (w.1))
  contains_key_iff k ((j, v) ∷ m) = elim (String-cases j k) [
    | inl (e, p) ↦ (λ h. (v, rw e), λ w. rw e)
    | inr (e, p) ↦ rw e (contains_key_iff k m)
  ]

  pub Memᴰ_of_lookup : (k : String) (v : V) (m : Map V) → lookup k m ≡ some v → Memᴰ (k, v) m
  unfolding lookup
  Memᴰ_of_lookup k v [] h = cc
  Memᴰ_of_lookup k v ((j, w) ∷ m) h = elim (String-cases j k) [
    | inl (e, p) ↦ Memᴰ.head (let q : w ≡ v = ground arith in λ i. (sym p i, sym q i))
    | inr (e, p) ↦ Memᴰ.tail (Memᴰ_of_lookup k v m (rw e at h))
  ]

  pub lookup_of_contains_key :
      (k : String) (m : Map V) → contains_key k m ≡ true → (v : V) × (lookup k m ≡ some v)
  lookup_of_contains_key k m = (contains_key_iff k m).0

  pub contains_key_of_lookup :
      (k : String) (v : V) (m : Map V) → lookup k m ≡ some v → contains_key k m ≡ true
  contains_key_of_lookup k v m h = (contains_key_iff k m).1 (v, h)
