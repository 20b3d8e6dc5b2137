-- ===== src/Validate/StateMap.antt =====
-- The map of states that `validate` fills.
use mathlib.Core.List.Memᴰ
use mathlib.Core.Logic.{⊎_elim}
use colloq.Prelude.{
  ℕ, suc, String, ◌≡◌, ◌≢◌, refl, sym, ◌∙◌, ap, subst, ◌⊎◌, inl, inr, ◌↔◌, none, some, List, [],
  ◌∷◌, map, true, false, All, All_map, All-Memᴰ, All_of_Memᴰ, false_of_not, Option-cases, Memᴰ,
  some_inj, String-cases, Memᴰ-map, Memᴰ_of_map,
}
use colloq.Prelude.Maps.{Map, lookup, insert, contains_key, lookup-insert, contains_key_iff}
use colloq.Conversation.{GlobalState, id}
use colloq.Validate.Spec.{IsNodup}
use colloq.Validate.{index_states}
use colloq.Validate.Reachability.{Location, report}
use colloq.Validate.Lookup.{append-nil_iff, report-nil}

-- The identifiers differ from one another and from the keys of the map, in the loop's order.
abbrev FreshKeys : Map GlobalState → List GlobalState → Type 0
FreshKeys m [] = Unit
FreshKeys m (s ∷ ss) = (lookup (id s) m ≡ none) × FreshKeys (insert (id s) s m) ss

no_key : (k : String) (m : Map GlobalState) → (contains_key k m ≡ false) ↔ (lookup k m ≡ none)
no_key k m = (
  λ h. ⊎_elim (λ e. e) (λ w. cc ((contains_key_iff k m).1 w)) (Option-cases (lookup k m)),
  λ h. false_of_not (λ c. let (v, e) = (contains_key_iff k m).0 c in cc),
)

index_states-nil :
    (index : ℕ) (m : Map GlobalState) (ss : List GlobalState)
    → ((index_states index m ss).1 ≡ []) ↔ FreshKeys m ss
unfolding index_states
index_states-nil index m [] = (λ h. tt, λ h. refl)
index_states-nil index m (s ∷ ss) =
    let path = Location.item_at "$.states" index "id" in
    let both =
      append-nil_iff (report (contains_key (id s) m) "CLQ0004" path)
        (index_states (suc index) (insert (id s) s m) ss).1 in
    let first = report-nil (contains_key (id s) m) "CLQ0004" path in
    let rest = index_states-nil (suc index) (insert (id s) s m) ss in
    (
      λ h. ((no_key (id s) m).0 (first.0 (both.0 h).0), rest.0 (both.0 h).1),
      λ (p, f). both.1 (first.1 ((no_key (id s) m).1 p), rest.1 f),
    )

-- What `insert` does to one key.
lookup-insert_cases :
    (k i : String) (s t : GlobalState) (m : Map GlobalState)
    → lookup k (insert i s m) ≡ some t
    → (i ≡ k) × (s ≡ t) ⊎ (lookup k m ≡ some t)
lookup-insert_cases k i s t m h = elim (String-cases i k) [
  | inl (e, p) ↦ inl (p, some_inj (rw (lookup-insert, e) at h))
  | inr (e, p) ↦ inr (rw (lookup-insert, e) at h)
]

lookup-insert_new :
    (k : String) (s : GlobalState) (m : Map GlobalState)
    → id s ≡ k
    → lookup k (insert (id s) s m) ≡ some s
lookup-insert_new k s m p = elim (String-cases (id s) k) [
  | inl (e, q) ↦ rw (lookup-insert, e)
  | inr (e, q) ↦ absurd (q p)
]

lookup-insert_old :
    (k i : String) (s t : GlobalState) (m : Map GlobalState)
    → lookup i m ≡ none
    → lookup k m ≡ some t
    → lookup k (insert i s m) ≡ some t
lookup-insert_old k i s t m n h = elim (String-cases i k) [
  | inl (e, p) ↦ cc
  | inr (e, p) ↦ rw (lookup-insert, e) h
]

index_states-lookup :
    (index : ℕ) (m : Map GlobalState) (ss : List GlobalState) (k : String) (s : GlobalState)
    → FreshKeys m ss
    → (lookup k (index_states index m ss).0 ≡ some s)
      ↔ (Memᴰ s ss × (id s ≡ k) ⊎ (lookup k m ≡ some s))
unfolding index_states
index_states-lookup index m [] k s f = (inr, ⊎_elim (λ w. absurd (Memᴰ.not-nil w.0)) (λ h. h))
index_states-lookup index m (t ∷ ss) k s (p, f) =
    let rest = index_states-lookup (suc index) (insert (id t) t m) ss k s f in
    (
      λ h.
          ⊎_elim (λ w. inl (Memᴰ.tail w.0, w.1))
            (λ q.
              ⊎_elim (λ w. inl (Memᴰ.head (sym w.1), ap id (sym w.1) ∙ w.0)) inr
                (lookup-insert_cases k (id t) t s m q))
            (rest.0 h),
      ⊎_elim
          (λ w.
            ⊎_elim
              (λ e. rest.1 (
                inr (
                  subst (λ u. lookup k (insert (id t) t m) ≡ some u) (sym e)
                    (lookup-insert_new k t m (ap id (sym e) ∙ w.1)))))
              (λ t'. rest.1 (inl (t', w.1))) (Memᴰ.cases_cons w.0))
          (λ q. rest.1 (inr (lookup-insert_old k (id t) t s m p q))),
    )

none-insert :
    (k i : String) (s : GlobalState) (m : Map GlobalState)
    → (lookup k (insert i s m) ≡ none) ↔ ((i ≢ k) × (lookup k m ≡ none))
none-insert k i s m = elim (String-cases i k) [
  | inl (e, p) ↦ rw (lookup-insert, e) (λ h. cc, λ h. absurd (h.0 p))
  | inr (e, p) ↦ rw (lookup-insert, e) (λ h. (p, h), λ h. h.1)
]

FreshKeys-iff :
    (m : Map GlobalState) (ss : List GlobalState)
    → FreshKeys m ss ↔ (All (λ s. lookup (id s) m ≡ none) ss × IsNodup (map id ss))
FreshKeys-iff m [] = (λ h. (tt, tt), λ h. tt)
FreshKeys-iff m (s ∷ ss) = (
  λ (p, f).
      let (out, once) = (FreshKeys-iff (insert (id s) s m) ss).0 f in
      (
        (p, All_map _ _ (λ t n. ((none-insert (id t) (id s) s m).0 n).1) ss out),
        (
          λ q.
              let (t, u, e) = Memᴰ_of_map id (id s) ss q in
              ((none-insert (id t) (id s) s m).0
                  (All-Memᴰ (λ t. lookup (id t) (insert (id s) s m) ≡ none) ss out u)).0
                (sym e),
          once,
        ),
      ),
  λ (out, once). (
    out.0,
    (FreshKeys-iff (insert (id s) s m) ss).1 (
      All_of_Memᴰ (λ t. lookup (id t) (insert (id s) s m) ≡ none) ss
          (λ t u. (none-insert (id t) (id s) s m).1 (
            λ e. once.0 (subst (λ w. Memᴰ w (map id ss)) (sym e) (Memᴰ-map id t ss u)),
            All-Memᴰ (λ t. lookup (id t) m ≡ none) ss out.1 u,
          )),
      once.1,
    ),
  ),
)

all_new : (ss : List GlobalState) → All (λ s. lookup {V = GlobalState} (id s) [] ≡ none) ss
unfolding lookup
all_new [] = tt
all_new (s ∷ ss) = (refl, all_new ss)

-- No duplicate is reported exactly when the identifiers differ.
pub index_states-IsNodup :
    (ss : List GlobalState) → ((index_states 0 [] ss).1 ≡ []) ↔ IsNodup (map id ss)
index_states-IsNodup ss = (
  λ h. ((FreshKeys-iff [] ss).0 ((index_states-nil 0 [] ss).0 h)).1,
  λ n. (index_states-nil 0 [] ss).1 ((FreshKeys-iff [] ss).1 (all_new ss, n)),
)

module _ (ss : List GlobalState) (n : IsNodup (map id ss)) where
  -- The map has a state under its identifier, and nothing else.
  pub lookup-index_states :
      (k : String) (s : GlobalState)
      → (lookup k (index_states 0 [] ss).0 ≡ some s) ↔ (Memᴰ s ss × (id s ≡ k))
  unfolding lookup
  lookup-index_states k s =
      let both = index_states-lookup 0 [] ss k s ((FreshKeys-iff [] ss).1 (all_new ss, n)) in
      (λ h. ⊎_elim (λ w. w) (λ e. cc) (both.0 h), λ w. both.1 (inl w))

  pub contains_key-index_states :
      (k : String) → (contains_key k (index_states 0 [] ss).0 ≡ true) ↔ Memᴰ k (map id ss)
  contains_key-index_states k = (
    λ h.
        let (s, e) = (contains_key_iff k (index_states 0 [] ss).0).0 h in
        let (m, p) = (lookup-index_states k s).0 e in
        subst (λ u. Memᴰ u (map id ss)) p (Memᴰ-map id s ss m),
    λ m.
        let (s, u, p) = Memᴰ_of_map id k ss m in
        (contains_key_iff k (index_states 0 [] ss).0).1 (s, (lookup-index_states k s).1 (u, p)),
  )
