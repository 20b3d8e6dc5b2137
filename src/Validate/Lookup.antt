-- ===== src/Validate/Lookup.antt =====
-- What `unique_ids` and the loop over the states put into the sets and the map.
use mathlib.Core.List.Memᴰ
use mathlib.Core.Logic.{⊎_elim}
use colloq.Prelude.{
  ℕ, suc, String, ◌≡◌, ◌≢◌, refl, sym, subst, ◌⊎◌, inl, inr, ◌↔◌, List, [], ◌∷◌, true, false, All,
  All_map, All-Memᴰ, All_of_Memᴰ, false_of_not, Memᴰ, Bool, String-cases, ◌++◌,
}
use colloq.Prelude.Sets.{StringSet, contains, add, contains_iff, contains-add}
use colloq.Validate.Spec.{IsNodup, IsIdSet}
use colloq.Validate.{unique_ids, id_check, remember}
use colloq.Validate.Reachability.{Location, report}

-- A check passes exactly when its test is false.
pub report-nil :
    (b : Bool) (code : String) (path : Location) → (report b code path ≡ []) ↔ (b ≡ false)
report-nil true code path = (λ h. cc, λ h. cc)
report-nil false code path = (λ h. refl, λ h. refl)

pub append-nil_iff {ℓ} : {A : Type ℓ} (xs ys : List A) → (xs ++ ys ≡ []) ↔ ((xs ≡ []) × (ys ≡ []))
append-nil_iff [] ys = (λ h. (refl, h), λ h. h.1)
append-nil_iff (x ∷ xs) ys = (λ h. cc, λ h. cc (h.0))

remember-mem :
    (i k : String) (s : StringSet)
    → i ≢ ""
    → (contains k (remember i s) ≡ true) ↔ ((k ≡ i) ⊎ (contains k s ≡ true))
unfolding remember
remember-mem i k s h = elim (String-cases i "") [
  | inl (e, p) ↦ absurd (h p)
  | inr (e, p) ↦ rw e (contains-add k i s)
]

id_check-nil :
    (path : String) (index : ℕ) (i : String) (seen : StringSet)
    → (id_check path index i seen ≡ []) ↔ ((i ≢ "") × (contains i seen ≡ false))
unfolding id_check
id_check-nil path index i seen = elim (String-cases i "") [
  | inl (e, p) ↦ rw e (λ h. cc, λ h. absurd (h.0 p))
  | inr (e, p) ↦
      let r = report-nil (contains i seen) "CLQ0012" (Location.item_at path index "id") in
      rw e (λ h. (p, r.0 h), λ h. r.1 h.1)
]

-- None of the identifiers is empty, in the set already, or there twice, in the loop's order.
abbrev Fresh : StringSet → List String → Type 0
Fresh s [] = Unit
Fresh s (i ∷ ids) = (i ≢ "") × (contains i s ≡ false) × Fresh (add i s) ids

remember-eq : (i : String) (s : StringSet) → i ≢ "" → remember i s ≡ add i s
unfolding remember
remember-eq i s h = elim (String-cases i "") [ inl (e, p) ↦ absurd (h p) | inr (e, p) ↦ rw e ]

unique_ids-nil :
    (path : String) (index : ℕ) (s : StringSet) (ids : List String)
    → ((unique_ids path index s ids).1 ≡ []) ↔ Fresh s ids
unfolding unique_ids
unique_ids-nil path index s [] = (λ h. tt, λ h. refl)
unique_ids-nil path index s (i ∷ ids) =
    let both =
      append-nil_iff (id_check path index i s) (unique_ids path (suc index) (remember i s) ids).1 in
    let first = id_check-nil path index i s in
    let rest = unique_ids-nil path (suc index) (remember i s) ids in
    (
      λ h.
          let (p, q) = first.0 ((both.0 h).0) in
          (p, q, subst (λ t. Fresh t ids) (remember-eq i s p) (rest.0 ((both.0 h).1))),
      λ (p, q, f).
          both.1 (first.1 (p, q), rest.1 (subst (λ t. Fresh t ids) (sym (remember-eq i s p)) f)),
    )

unique_ids-mem :
    (path : String) (index : ℕ) (s : StringSet) (ids : List String) (k : String)
    → Fresh s ids
    → (contains k (unique_ids path index s ids).0 ≡ true) ↔ (Memᴰ k ids ⊎ (contains k s ≡ true))
unfolding unique_ids
unique_ids-mem path index s [] k f = (inr, ⊎_elim (λ m. absurd (Memᴰ.not-nil m)) (λ c. c))
unique_ids-mem path index s (i ∷ ids) k (p, q, f) =
    let rest =
      unique_ids-mem path (suc index) (remember i s) ids k
        (subst (λ t. Fresh t ids) (sym (remember-eq i s p)) f) in
    let one = remember-mem i k s p in
    (
      λ h.
          ⊎_elim (λ m. inl (Memᴰ.tail m)) (λ c. ⊎_elim (λ e. inl (Memᴰ.head e)) inr (one.0 c))
            (rest.0 h),
      ⊎_elim
          (λ m.
            ⊎_elim (λ e. rest.1 (inr (one.1 (inl e)))) (λ t. rest.1 (inl t)) (Memᴰ.cases_cons m))
          (λ c. rest.1 (inr (one.1 (inr c)))),
    )

not-contains-add :
    (k i : String) (s : StringSet)
    → (contains k (add i s) ≡ false) ↔ ((k ≢ i) × (contains k s ≡ false))
not-contains-add k i s = (
  λ h. (
    λ e. cc ((contains-add k i s).1 (inl e)),
    false_of_not (λ c. cc ((contains-add k i s).1 (inr c))),
  ),
  λ (p, q). false_of_not (λ c. ⊎_elim p (λ d. cc) ((contains-add k i s).0 c)),
)

Fresh-iff :
    (s : StringSet) (ids : List String)
    → Fresh s ids ↔ (All (λ i. i ≢ "") ids × All (λ i. contains i s ≡ false) ids × IsNodup ids)
Fresh-iff s [] = (λ h. (tt, tt, tt), λ h. tt)
Fresh-iff s (i ∷ ids) = (
  λ (p, q, f).
      let (named, out, once) = (Fresh-iff (add i s) ids).0 f in
      (
        (p, named),
        (q, All_map _ _ (λ k c. ((not-contains-add k i s).0 c).1) ids out),
        (
          λ m.
              ((not-contains-add i i s).0
                  (All-Memᴰ (λ k. contains k (add i s) ≡ false) ids out m)).0
                refl,
          once,
        ),
      ),
  λ (named, out, once). (
    named.0,
    out.0,
    (Fresh-iff (add i s) ids).1 (
      named.1,
      All_of_Memᴰ (λ k. contains k (add i s) ≡ false) ids
          (λ k m. (not-contains-add k i s).1 (
            λ e. once.0 (subst (λ u. Memᴰ u ids) e m),
            All-Memᴰ (λ k. contains k s ≡ false) ids out.1 m,
          )),
      once.1,
    ),
  ),
)

none_in_nil : (ids : List String) → All (λ i. contains i [] ≡ false) ids
unfolding contains
none_in_nil [] = tt
none_in_nil (i ∷ ids) = (refl, none_in_nil ids)

-- `unique_ids` reports nothing exactly when the identifiers are as they should be.
pub unique_ids-IsIdSet :
    (path : String) (ids : List String) → ((unique_ids path 0 [] ids).1 ≡ []) ↔ IsIdSet ids
unique_ids-IsIdSet path ids = (
  λ h. let (p, q, r) = (Fresh-iff [] ids).0 ((unique_ids-nil path 0 [] ids).0 h) in (p, r),
  λ (p, r). (unique_ids-nil path 0 [] ids).1 ((Fresh-iff [] ids).1 (p, none_in_nil ids, r)),
)

-- The set that it returns then holds exactly those identifiers.
pub contains-unique_ids :
    (path : String) (ids : List String) (k : String)
    → IsIdSet ids
    → (contains k (unique_ids path 0 [] ids).0 ≡ true) ↔ Memᴰ k ids
contains-unique_ids path ids k (p, r) =
    let mem = unique_ids-mem path 0 [] ids k ((Fresh-iff [] ids).1 (p, none_in_nil ids, r)) in
    (
      λ h. ⊎_elim (λ m. m) (λ c. absurd (Memᴰ.not-nil ((contains_iff k []).0 c))) (mem.0 h),
      λ m. mem.1 (inl m),
    )
