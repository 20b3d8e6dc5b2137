-- ===== src/Plan/Compile/Sorted.antt =====
-- The endpoints of a plan in the order of their roles.
use colloq.Prelude.{◌≡◌, refl, [], ◌∷◌, inl, inr, ◌⊎◌, Memᴰ, ◌↔◌, Ordering}
use mathlib.Core.List.Memᴰ
use mathlib.Core.Logic.{⊎_elim}
use Prim.Native.String.{compare}
use colloq.Prelude.Sorting.{before, put, sort_by}
use colloq.Project.{Endpoint}
use package.colloq.Plan.Compile.{sort_by_role}

before-two :
    (x y : Endpoint) (r : Ordering)
    → (before r x y [] (x ∷ []) ≡ x ∷ y ∷ []) ⊎ (before r x y [] (x ∷ []) ≡ y ∷ x ∷ [])
before-two x y Ordering.lt = inl refl
before-two x y Ordering.eq = inl refl
before-two x y Ordering.gt = inr refl

pub sort_by_role-two :
    (x y : Endpoint)
    → (sort_by_role (x ∷ y ∷ []) ≡ x ∷ y ∷ []) ⊎ (sort_by_role (x ∷ y ∷ []) ≡ y ∷ x ∷ [])
unfolding sort_by_role sort_by put
sort_by_role-two x y = before-two x y (compare x.role y.role)

two_swap : {A : Type 0} (e x y : A) → Memᴰ e (x ∷ y ∷ []) → Memᴰ e (y ∷ x ∷ [])
two_swap e x y m =
    ⊎_elim (λ p. Memᴰ.tail (Memᴰ.head p)) (λ t. Memᴰ.head (Memᴰ.eq_of_singleton t))
      (Memᴰ.cases_cons m)

pub swap_iff : {A : Type 0} (e x y : A) → Memᴰ e (x ∷ y ∷ []) ↔ Memᴰ e (y ∷ x ∷ [])
swap_iff e x y = (two_swap e x y, two_swap e y x)
