-- ===== src/Validate/Reachability/Explore.antt =====
-- The search of the state graph: its fuel and its result.
use colloq.Validate.Reachability.{Search, enter, visit, explore, edge_count, search}
use mathlib.Core.List.Memᴰ
use mathlib.Core.Logic.{⊎_elim}
use colloq.Prelude.{
  ℕ, zero, suc, ◌+◌, ◌≤◌, String, ◌≡◌, refl, sym, ap, subst, ||_iff, ◌⊎◌, inl, inr, Option, none,
  some, List, [], ◌∷◌, true, false, if◌then◌else◌, length, length-append, arith, Memᴰ, List-cases,
  Bool-cases, Option-cases, eq_iff,
}
use colloq.Prelude.Maps.{Map, lookup}
use colloq.Prelude.Sets.{StringSet, contains, add, contains_iff, contains-add, contains-add_eq}
use colloq.Conversation.{GlobalState, successors, is_terminal}

-- The targets still to be queued: those of the states that have not been entered.
weight : StringSet → Map GlobalState → ℕ
weight r [] = 0
weight r ((k, s) ∷ m) = (if contains k r then 0 else length (successors s)) + weight r m

weight-add : (i : String) (r : StringSet) (m : Map GlobalState) → weight (add i r) m ≤ weight r m
unfolding weight
weight-add i r [] = omega arith
weight-add i r ((k, s) ∷ m) = ground (arith, contains-add_eq k i r, weight-add i r m)

weight-enter :
    (i : String) (r : StringSet) (m : Map GlobalState) (s : GlobalState)
    → contains i r ≡ false
    → lookup i m ≡ some s
    → weight (add i r) m + length (successors s) ≤ weight r m
unfolding weight lookup
weight-enter i r [] s h e = cc
weight-enter i r ((k, t) ∷ m) s h e =
    ground (arith, contains-add_eq k i r, weight-add i r m, weight-enter i r m s, eq_iff k i)

-- This falls in every round.
abbrev work : Map GlobalState → Search → ℕ
work m s = length s.queue + weight s.reachable m

work-visit :
    (m : Map GlobalState) (s : Search) (i : String) (rest : List String)
    → s.queue ≡ i ∷ rest
    → suc (work m (visit m s i rest)) ≤ work m s
unfolding visit
work-visit m s i rest e =
    let q = ap length e in
    elim (Bool-cases (contains i s.reachable)) [
      | inl old ↦ rw old (omega arith)
      | inr new ↦ elim (Option-cases (lookup i m)) [
        | inl gone ↦ rw (new, gone, enter) (omega (arith, weight-add i s.reachable m))
        | inr (t, found) ↦
            rw (new, found, enter)
              (omega (
                arith,
                length-append rest (successors t),
                weight-enter i s.reachable m t new found,
              ))
      ]
    ]

explore_ends :
    (m : Map GlobalState) (fuel : ℕ) (s : Search) → work m s ≤ fuel → (explore m fuel s).queue ≡ []
unfolding explore
explore_ends m zero s h = elim (List-cases s.queue) [
  | inl e ↦ e
  | inr (i, rest, e) ↦ absurd (omega (arith, ap length e))
]
explore_ends m (suc fuel) s h = elim (List-cases s.queue) [
  | inl e ↦ rw (e, explore) e
  | inr (i, rest, e) ↦
      rw (e, explore)
        (explore_ends m fuel (visit m s i rest) (omega (arith, work-visit m s i rest e)))
]

weight-nil : (m : Map GlobalState) → weight [] m ≡ edge_count m
unfolding weight edge_count contains
weight-nil [] = refl
weight-nil ((k, s) ∷ m) = ap (λ (n : ℕ). length (successors s) + n) (weight-nil m)

-- The fuel of the search for the reachable states is enough for any map of states: it ends with
-- an empty queue.
pub search_ends : (initial : String) (m : Map GlobalState) → (search initial m).queue ≡ []
unfolding search
search_ends initial m =
    explore_ends m (suc (edge_count m))
      (record { reachable = []; queue = initial ∷ []; reaches_terminal = false })
      (omega (arith, weight-nil m))

-- An invariant that each round keeps holds at the end.
pub explore_rule {ℓ} :
    (m : Map GlobalState) (P : Search → Type ℓ)
    → ((s : Search) (i : String) (rest : List String)
        → s.queue ≡ i ∷ rest
        → P s
        → P (visit m s i rest))
    → (fuel : ℕ) (s : Search) → P s
    → P (explore m fuel s)
unfolding explore
explore_rule m P keep zero s p = p
explore_rule m P keep (suc fuel) s p = elim (List-cases s.queue) [
  | inl e ↦ rw (e, explore) p
  | inr (i, rest, e) ↦
      rw (e, explore) (explore_rule m P keep fuel (visit m s i rest) (keep s i rest e p))
]

-- The paths from a state along the edges of a map of states.
pub data PathTo (m : Map GlobalState) (src : String) : String → Type 0 where
  here : PathTo m src src
  step :
      {u v : String} {s : GlobalState}
      → PathTo m src u
      → lookup u m ≡ some s
      → Memᴰ v (successors s)
      → PathTo m src v

module _ (m : Map GlobalState) (src : String) where
  -- Visited, or waiting in the queue.
  abbrev Known : Search → String → Type 0
  Known s v = (contains v s.reachable ≡ true) ⊎ Memᴰ v s.queue

  record Inv (s : Search) : Type 0 where
    source : Known s src
    queued : (v : String) → Memᴰ v s.queue → PathTo m src v
    sound : (v : String) → contains v s.reachable ≡ true → PathTo m src v
    closed :
        (u v : String) (t : GlobalState)
        → contains u s.reachable ≡ true
        → lookup u m ≡ some t
        → Memᴰ v (successors t)
        → Known s v
    ends :
        s.reaches_terminal ≡ true
        → (u : String) × (t : GlobalState) × (contains u s.reachable ≡ true)
          × (lookup u m ≡ some t)
          × (is_terminal t ≡ true)
    ended :
        (u : String) (t : GlobalState)
        → contains u s.reachable ≡ true
        → lookup u m ≡ some t
        → is_terminal t ≡ true
        → s.reaches_terminal ≡ true

  -- What was known stays known when `i` leaves the queue for the visited ones.
  Known-after :
      (s t : Search) (i v : String) (rest : List String)
      → s.queue ≡ i ∷ rest
      → contains i t.reachable ≡ true
      → (contains v s.reachable ≡ true → contains v t.reachable ≡ true)
      → (Memᴰ v rest → Memᴰ v t.queue)
      → Known s v
      → Known t v
  Known-after s t i v rest e new old more k =
      ⊎_elim (λ c. inl (old c))
        (λ q.
          ⊎_elim (λ p. inl (subst (λ w. contains w t.reachable ≡ true) (sym p) new))
            (λ r. inr (more r)) (Memᴰ.cases_cons (subst (Memᴰ v) e q)))
        k

  Inv-old :
      (s : Search) (i : String) (rest : List String)
      → s.queue ≡ i ∷ rest
      → contains i s.reachable ≡ true
      → Inv s
      → Inv (record s { queue = rest })
  Inv-old s i rest e old h =
      let known = λ (v : String).
        Known-after s (record s { queue = rest }) i v rest e old (λ c. c) (λ q. q) in
      record {
        source = known src h.source;
        queued = λ v q. h.queued v (subst (Memᴰ v) (sym e) (Memᴰ.tail q));
        sound = h.sound;
        closed = λ u v t p q x. known v (h.closed u v t p q x);
        ends = h.ends;
        ended = h.ended;
      }

  module _ (s : Search) (i : String) (rest : List String) (e : s.queue ≡ i ∷ rest) (h : Inv s) where
    -- The state of the loop once `i` is visited.
    abbrev entered : Search
    entered = record s { reachable = add i s.reachable; queue = rest }

    keeps : (v : String) → contains v s.reachable ≡ true → contains v (add i s.reachable) ≡ true
    keeps v c = (contains-add v i s.reachable).1 (inr c)

    to_i : PathTo m src i
    to_i = h.queued i (subst (Memᴰ i) (sym e) (Memᴰ.head refl))

    sound_after : (v : String) → contains v (add i s.reachable) ≡ true → PathTo m src v
    sound_after v c =
        ⊎_elim (λ p. subst (PathTo m src) (sym p) to_i) (h.sound v)
          ((contains-add v i s.reachable).0 c)

    queued_after : (v : String) → Memᴰ v rest → PathTo m src v
    queued_after v q = h.queued v (subst (Memᴰ v) (sym e) (Memᴰ.tail q))

    now : contains i (add i s.reachable) ≡ true
    now = (contains-add i i s.reachable).1 (inl refl)

    Inv-enter : (o : Option GlobalState) → lookup i m ≡ o → Inv (enter o entered)
    unfolding enter
    Inv-enter none gone =
        let known = λ (v : String). Known-after s entered i v rest e now (keeps v) (λ q. q) in
        record {
          source = known src h.source;
          queued = queued_after;
          sound = sound_after;
          closed = λ u v t p q x.
              ⊎_elim (λ same. cc) (λ c. known v (h.closed u v t c q x))
                ((contains-add u i s.reachable).0 p);
          ends = λ r. let (u, t, c, q, z) = h.ends r in (u, t, keeps u c, q, z);
          ended = λ u t p q z.
              ⊎_elim (λ same. cc) (λ c. h.ended u t c q z) ((contains-add u i s.reachable).0 p);
        }
    Inv-enter (some t) found =
        let t' = enter (some t) entered in
        let known = λ (v : String).
          Known-after s t' i v rest e now (keeps v) (λ q. Memᴰ.append_left (successors t) q) in
        record {
          source = known src h.source;
          queued =
              λ v q. ⊎_elim (queued_after v) (PathTo.step to_i found) (Memᴰ.append_cases rest q);
          sound = sound_after;
          closed = λ u v x p q y.
              ⊎_elim
                (λ same.
                  let eq : t ≡ x = cc in
                  inr (Memᴰ.append_right rest (subst (λ w. Memᴰ v (successors w)) (sym eq) y)))
                (λ c. known v (h.closed u v x c q y)) ((contains-add u i s.reachable).0 p);
          ends = λ r.
              ⊎_elim (λ z. (i, t, now, found, z))
                (λ z. let (u, x, c, q, y) = h.ends z in (u, x, keeps u c, q, y))
                ((||_iff (is_terminal t) s.reaches_terminal).0 r);
          ended = λ u x p q z. (||_iff (is_terminal t) s.reaches_terminal).1 (
              ⊎_elim (λ same. let eq : x ≡ t = cc in inl (subst (λ w. is_terminal w ≡ true) eq z))
                (λ c. inr (h.ended u x c q z)) ((contains-add u i s.reachable).0 p));
        }

  Inv-visit :
      (s : Search) (i : String) (rest : List String)
      → s.queue ≡ i ∷ rest
      → Inv s
      → Inv (visit m s i rest)
  unfolding visit
  Inv-visit s i rest e h = elim (Bool-cases (contains i s.reachable)) [
    | inl old ↦ rw old (Inv-old s i rest e old h)
    | inr new ↦ rw new (Inv-enter s i rest e h (lookup i m) refl)
  ]

  Inv-search : Inv (search src m)
  unfolding search
  Inv-search =
      explore_rule m Inv Inv-visit (suc (edge_count m))
        (record { reachable = []; queue = src ∷ []; reaches_terminal = false })
        (record {
          source = inr (Memᴰ.head refl);
          queued = λ v q. subst (PathTo m src) (sym (Memᴰ.eq_of_singleton q)) here;
          sound = λ v c. absurd (Memᴰ.not-nil ((contains_iff v []).0 c));
          closed = λ u v t c q x. absurd (Memᴰ.not-nil ((contains_iff u []).0 c));
          ends = λ r. cc;
          ended = λ u t c q z. absurd (Memᴰ.not-nil ((contains_iff u []).0 c));
        })

  not_queued : (v : String) → Known (search src m) v → contains v (search src m).reachable ≡ true
  not_queued v k =
      ⊎_elim (λ c. c) (λ q. absurd (Memᴰ.not-nil (subst (Memᴰ v) (search_ends src m) q))) k

  complete : {v : String} → PathTo m src v → contains v (search src m).reachable ≡ true
  complete here = not_queued src Inv-search.source
  complete (step {u} {v} {s} p found x) =
      not_queued v (Inv-search.closed u v s (complete p) found x)

  -- The search marks what some path leads to, and nothing else.
  pub reachable_iff :
      (v : String)
      → ((contains v (search src m).reachable ≡ true) → PathTo m src v)
        × (PathTo m src v → contains v (search src m).reachable ≡ true)
  reachable_iff v = (Inv-search.sound v, complete)

  pub reaches_terminal_sound :
      (search src m).reaches_terminal ≡ true
      → (u : String) × (t : GlobalState) × PathTo m src u
        × (lookup u m ≡ some t)
        × (is_terminal t ≡ true)
  reaches_terminal_sound r =
      let (u, t, c, q, z) = Inv-search.ends r in (u, t, Inv-search.sound u c, q, z)

  pub reaches_terminal_complete :
      (u : String) (t : GlobalState)
      → PathTo m src u
      → lookup u m ≡ some t
      → is_terminal t ≡ true
      → (search src m).reaches_terminal ≡ true
  reaches_terminal_complete u t p = Inv-search.ended u t (complete p)
