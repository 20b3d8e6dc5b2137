-- ===== src/Plan/Wire/Table.antt =====
-- The transition dictionary: its numbers, what is in it, and the order of the endpoints.
use mathlib.Core.List.Memᴰ
use mathlib.Core.Logic.{⊎_elim}
use colloq.Prelude.{
  ℕ, zero, suc, ◌+◌, ◌≤◌, String, ◌≡◌, refl, sym, ap, ◌∙◌, some, List, [], ◌∷◌, map, Memᴰ,
  get_elem?, ok, ◌>>=◌, >>=-eq-ok, flat_map, leb, arith, ok_inj, Bool-cases, inl, inr,
  Memᴰ-flat_map, ◌↔◌, iff_trans, some_inj, subst, ok≢err,
}
use colloq.Prelude.Order.{IsOrder, lex-IsOrder, by_key-IsOrder, compare-IsOrder, compare_ℕ-IsOrder}
use colloq.Prelude.Sets.{Memᴰ-insert_all, IsSorted, IsSorted-insert_all, IsSorted-ext}
use colloq.Project.{Endpoint}
use colloq.Plan.Wire.{
  WireOperation, data_, select, cancel, operation_key, Entry, compare_entry, WireTransition,
  CompactWirePlan, compact_wire_format, endpoint_entries, max_transitions, number, entries,
  derive_wire_plan,
}

-- A key gives its operation back.
operation_of : ℕ × (String × (String × String)) → WireOperation
operation_of (zero, (from, (to, message))) = data_ from to message
operation_of (suc zero, (by, (label, _))) = select by label
operation_of (suc (suc _), (from, (to, scope))) = cancel from to scope

operation_of-key : (o : WireOperation) → operation_of (operation_key o) ≡ o
unfolding operation_of
operation_of-key (data_ from to message) = refl
operation_of-key (select by label) = refl
operation_of-key (cancel from to scope) = refl

compare_entry-IsOrder : IsOrder compare_entry
compare_entry-IsOrder = lex-IsOrder _ _ compare-IsOrder (
    by_key-IsOrder operation_key _
      (λ x y e. sym (operation_of-key x) ∙ (ap operation_of e ∙ operation_of-key y))
      (lex-IsOrder _ _ compare_ℕ-IsOrder
        (lex-IsOrder _ _ compare-IsOrder (lex-IsOrder _ _ compare-IsOrder compare-IsOrder))))

-- The item that a transition stands for.
abbrev pub entry_of : WireTransition → Entry
entry_of t = (t.state, t.operation)

-- One transition after the other has the next number, and none is above the bound.
abbrev pub Numbered : ℕ → List WireTransition → Type 0
Numbered k [] = Unit
Numbered k (t ∷ ts) = (t.id ≡ k + 1) × ((t.id ≤ max_transitions) × Numbered (suc k) ts)

number-ok :
    (k : ℕ) (es : List Entry) (ts : List WireTransition)
    → number k es ≡ ok ts
    → Numbered k ts × (map entry_of ts ≡ es)
unfolding number
number-ok k [] ts h = rw⁻¹ (ok_inj h) (tt, refl)
number-ok k ((s, o) ∷ es) ts h = elim (Bool-cases (leb (k + 1) max_transitions)) [
  | inl e ↦
      let (rest, g, q) = >>=-eq-ok (number (suc k) es) _ (rw e at h) in
      let (numbered, same) = number-ok (suc k) es rest g in
      let p = ok_inj q in
      (rw⁻¹ p ((refl, (ground (arith, e), numbered))), rw⁻¹ p (ap (λ u. (s, o) ∷ u) same))
  | inr e ↦ absurd (ok≢err (sym (rw e at h)))
]

pub Numbered-get :
    (k i : ℕ) (ts : List WireTransition) (t : WireTransition)
    → Numbered k ts
    → get_elem? ts i ≡ some t
    → (t.id ≡ k + i + 1) × (t.id ≤ max_transitions)
Numbered-get k i [] t n h = cc
Numbered-get k zero (u ∷ ts) t n h =
    let same = some_inj h in
    (
      ap (λ u. u.id) (sym same) ∙ (n.0 ∙ omega arith),
      subst (λ w. w.id ≤ max_transitions) same n.1.0,
    )
Numbered-get k (suc i) (u ∷ ts) t n h =
    let (p, q) = Numbered-get (suc k) i ts t n.1.1 h in (omega (arith, p), q)

-- What is in the dictionary: what the states of the endpoints insert.
pub Memᴰ-entries :
    (a : Entry) (endpoints : List Endpoint)
    → Memᴰ a (entries endpoints) ↔ ((e : Endpoint) × Memᴰ e endpoints × Memᴰ a (endpoint_entries e))
unfolding entries
Memᴰ-entries a endpoints =
    iff_trans
      (iff_trans
        (Memᴰ-insert_all compare_entry compare_entry-IsOrder a (flat_map endpoint_entries endpoints)
          [])
        (λ w. ⊎_elim (λ m. m) (λ m. absurd (Memᴰ.not-nil m)) w, inl))
      (Memᴰ-flat_map endpoint_entries a endpoints)

entries-mono :
    (xs ys : List Endpoint)
    → ((e : Endpoint) → Memᴰ e xs → Memᴰ e ys)
    → (a : Entry) → Memᴰ a (entries xs)
    → Memᴰ a (entries ys)
entries-mono xs ys f a m =
    let (e, x, w) = (Memᴰ-entries a xs).0 m in (Memᴰ-entries a ys).1 (e, f e x, w)

entries-IsSorted : (endpoints : List Endpoint) → IsSorted compare_entry (entries endpoints)
unfolding entries
entries-IsSorted endpoints =
    IsSorted-insert_all compare_entry compare_entry-IsOrder (flat_map endpoint_entries endpoints) []
      tt

-- The set of a list goes by what is in the list alone.
entries-ext :
    (xs ys : List Endpoint) → ((e : Endpoint) → Memᴰ e xs ↔ Memᴰ e ys) → entries xs ≡ entries ys
unfolding entries
entries-ext xs ys h =
    IsSorted-ext compare_entry compare_entry-IsOrder (entries xs) (entries ys) (entries-IsSorted xs)
      (entries-IsSorted ys) (entries-mono xs ys (λ e. (h e).0)) (entries-mono ys xs (λ e. (h e).1))

-- What `derive_wire_plan` returns: transitions numbered from 1 by their place, in 16 bits, and
-- in a strictly increasing order those that the states of the endpoints give.
pub record IsTable (endpoints : List Endpoint) (ts : List WireTransition) : Type 0 where
  pub numbered : Numbered 0 ts
  pub sorted : IsSorted compare_entry (map entry_of ts)
  pub contents :
      (a : Entry)
      → Memᴰ a (map entry_of ts) ↔ ((e : Endpoint) × Memᴰ e endpoints × Memᴰ a (endpoint_entries e))

-- When `derive_wire_plan` returns a plan for some endpoints, its encoding is the compact one,
-- its transitions are numbered by their places from 1, none above 65535, they strictly increase
-- in the order of states and operations, and they are just the operations that some state of
-- some endpoint gives.
pub derive_wire_plan-IsTable :
    (endpoints : List Endpoint) (w : CompactWirePlan)
    → derive_wire_plan endpoints ≡ ok w
    → (w.encoding ≡ compact_wire_format) × IsTable endpoints w.transitions
unfolding derive_wire_plan
derive_wire_plan-IsTable endpoints w h =
    let (ts, g, q) = >>=-eq-ok (number 0 (entries endpoints)) _ h in
    let (numbered, same) = number-ok 0 (entries endpoints) ts g in
    let p = ap (λ (u : CompactWirePlan). u.transitions) (ok_inj q) in
    (
      ap (λ (u : CompactWirePlan). u.encoding) (sym (ok_inj q)),
      subst (IsTable endpoints) p (record {
        numbered = numbered;
        sorted = subst (IsSorted compare_entry) (sym same) (entries-IsSorted endpoints);
        contents = λ a.
            subst
              (λ u. Memᴰ a u ↔ ((e : Endpoint) × Memᴰ e endpoints × Memᴰ a (endpoint_entries e)))
              (sym same) (Memᴰ-entries a endpoints);
      }),
    )

-- For two lists with the same endpoints in them, in any order and number, `derive_wire_plan`
-- returns the same.
pub derive_wire_plan-ext :
    (xs ys : List Endpoint)
    → ((e : Endpoint) → Memᴰ e xs ↔ Memᴰ e ys)
    → derive_wire_plan xs ≡ derive_wire_plan ys
unfolding derive_wire_plan
derive_wire_plan-ext xs ys h =
    ap
      (λ es. number 0 es >>= λ ts. ok (record { encoding = compact_wire_format; transitions = ts }))
      (entries-ext xs ys h)
