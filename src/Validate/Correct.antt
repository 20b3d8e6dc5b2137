-- ===== src/Validate/Correct.antt =====
-- `validate` and the valid conversations.
use colloq.Prelude.{
  ℕ, String, ◌≡◌, refl, sym, subst, ◌↔◌, some, List, [], ◌∷◌, map, true, false, not, ◌==◌, eq_iff,
  eqb, length, arith, All, All_map, Memᴰ, iff_trans, ok,
}
use colloq.Prelude.Maps.{Map, lookup, contains_key}
use colloq.Prelude.Sets.{contains}
use colloq.Conversation.{
  Conversation, GlobalState, send, choice, cancel, end, fail, id, is_terminal, conversation_format,
}
use colloq.Validate.Spec.{
  Scope, StateOk, FailureEdge, IsDeclared, IsValid, Reachable, scope, role_ids, type_ids,
  failure_ids, state_ids, IsIdSet, IsNodup,
}
use colloq.Validate.{names, declaration_diagnostics, diagnostics, validate, go_on, verdict}
use colloq.Validate.Reachability.{Diagnostic, search, unreachable, validate_reachability}
use colloq.Validate.Reachability.Explore.{
  PathTo, reachable_iff, reaches_terminal_sound, reaches_terminal_complete,
}
use colloq.Validate.Lookup.{unique_ids-IsIdSet, contains-unique_ids}
use colloq.Validate.StateMap.{index_states-IsNodup, lookup-index_states, contains_key-index_states}
use colloq.Validate.Checks.{tested, check_iff, both, not-false, validate_states-nil, type_kinds-nil}

-- One scope allows all that another does.
record Allows (a b : Scope) : Type 0 where
  role : (i : String) → a.role i → b.role i
  type_ : (i : String) → a.type_ i → b.type_ i
  failure : (i : String) → a.failure i → b.failure i
  state : (i : String) → a.state i → b.state i
  fails : (i f : String) → a.fails i f → b.fails i f

module _ (a b : Scope) (h : Allows a b) where
  edges : (es : Map String) → All (FailureEdge a) es → All (FailureEdge b) es
  edges = All_map _ _ (λ e p. (h.failure e.0 p.0, h.fails e.1 e.0 p.1))

  StateOk-Allows : (s : GlobalState) → StateOk a s → StateOk b s
  StateOk-Allows (send i from to message next deadline f) ((p, (q, r)), (t, (n, e))) =
      ((h.role from p, (h.role to q, r)), (h.type_ message t, (h.state next n, edges f e)))
  StateOk-Allows (choice i chooser branches f) (c, (two, (bs, e))) = (
    h.role chooser c,
    (two, (All_map _ _ (λ x p. (p.0, h.state x.1 p.1)) branches bs, edges f e)),
  )
  StateOk-Allows (cancel i from to what next f) ((p, (q, r)), (t, (n, e))) =
      ((h.role from p, (h.role to q, r)), (t, (h.state next n, edges f e)))
  StateOk-Allows (fail i failure) p = h.failure failure p
  StateOk-Allows (end i) p = tt

two_iff : (k : ℕ) → (not (eqb k 2) ≡ false) ↔ (k ≡ 2)
two_iff k = ground arith

module _ {ℓ} {V : Type ℓ} (c : Conversation V) where
  -- The tests of `validate`, as conditions.
  abbrev Tests : Type 0
  Tests =
      (c.colloq_conversation ≡ conversation_format)
      × (IsIdSet (role_ids c)
          × ((length c.roles ≡ 2)
              × (IsIdSet (type_ids c)
                  × (All (λ d. contains_key "kind" d ≡ true) (map (λ t. t.definition) c.types)
                      × (IsIdSet (failure_ids c)
                          × (IsNodup (state_ids c)
                              × ((contains_key c.initial (names c).states ≡ true)
                                  × All (StateOk (tested (names c))) c.states)))))))

  declaration_diagnostics-nil : (declaration_diagnostics c ≡ []) ↔ Tests
  unfolding declaration_diagnostics
  declaration_diagnostics-nil =
      both
        (check_iff _ _ (
          iff_trans (not-false (c.colloq_conversation == conversation_format))
            (eq_iff c.colloq_conversation conversation_format)))
        (both (unique_ids-IsIdSet _ (role_ids c)) (
          both (check_iff _ _ (two_iff (length c.roles))) (
            both (unique_ids-IsIdSet _ (type_ids c)) (
              both (type_kinds-nil 0 (map (λ t. t.definition) c.types)) (
                both (unique_ids-IsIdSet _ (failure_ids c)) (
                  both (index_states-IsNodup c.states) (
                    both (check_iff _ _ (not-false (contains_key c.initial (names c).states)))
                      (validate_states-nil (names c) 0 c.states))))))))

  -- The sets and the map hold the declared identifiers.
  module _ (r : IsIdSet (role_ids c)) (t : IsIdSet (type_ids c)) (f : IsIdSet (failure_ids c))
      (n : IsNodup (state_ids c)) where
    in_map :
        (k : String) (s : GlobalState)
        → (lookup k (names c).states ≡ some s) ↔ (Memᴰ s c.states × (id s ≡ k))
    unfolding names
    in_map = lookup-index_states c.states n

    declared_state : (k : String) → (contains_key k (names c).states ≡ true) ↔ Memᴰ k (state_ids c)
    unfolding names
    declared_state = contains_key-index_states c.states n

    tested-scope : Allows (tested (names c)) (scope c)
    unfolding names id
    tested-scope = record {
      role = λ i. (contains-unique_ids _ (role_ids c) i r).0;
      type_ = λ i. (contains-unique_ids _ (type_ids c) i t).0;
      failure = λ i. (contains-unique_ids _ (failure_ids c) i f).0;
      state = λ i. (declared_state i).0;
      fails = λ i g (j, e).
          let (m, p) = (in_map i (fail j g)).0 e in subst (λ u. Memᴰ (fail u g) c.states) p m;
    }

    scope-tested : Allows (scope c) (tested (names c))
    unfolding names id
    scope-tested = record {
      role = λ i. (contains-unique_ids _ (role_ids c) i r).1;
      type_ = λ i. (contains-unique_ids _ (type_ids c) i t).1;
      failure = λ i. (contains-unique_ids _ (failure_ids c) i f).1;
      state = λ i. (declared_state i).1;
      fails = λ i g m. (i, (in_map i (fail i g)).1 (m, refl));
    }

  IsDeclared_iff : Tests ↔ IsDeclared c
  IsDeclared_iff = (
    λ (a, (r, (two, (t, (k, (f, (n, (i, ss)))))))). record {
      format = a;
      roles = r;
      two_roles = two;
      types = t;
      kinds = k;
      failures = f;
      distinct = n;
      initial = (declared_state r t f n c.initial).0 i;
      states =
          All_map _ _ (StateOk-Allows (tested (names c)) (scope c) (tested-scope r t f n)) c.states
            ss;
    },
    λ d.
        let scoped = scope-tested d.roles d.types d.failures d.distinct in
        (
          d.format,
          (
            d.roles,
            (
              d.two_roles,
              (
                d.types,
                (
                  d.kinds,
                  (
                    d.failures,
                    (
                      d.distinct,
                      (
                        scoped.state c.initial d.initial,
                        All_map _ _ (StateOk-Allows (scope c) (tested (names c)) scoped) c.states
                            d.states,
                      ),
                    ),
                  ),
                ),
              ),
            ),
          ),
        ),
  )

  module _ (d : IsDeclared c) where
    state_at :
        (k : String) (s : GlobalState)
        → (lookup k (names c).states ≡ some s) ↔ (Memᴰ s c.states × (id s ≡ k))
    state_at = in_map d.roles d.types d.failures d.distinct

    reachable_of_path :
        {v : String} → PathTo (names c).states c.initial v → Reachable c.states c.initial v
    reachable_of_path PathTo.here = Reachable.here
    reachable_of_path (PathTo.step {u} {v} {s} p e m) =
        let (x, q) = (state_at u s).0 e in Reachable.step (reachable_of_path p) x q m

    path_of_reachable :
        {v : String} → Reachable c.states c.initial v → PathTo (names c).states c.initial v
    path_of_reachable Reachable.here = PathTo.here
    path_of_reachable (Reachable.step {u} {v} {s} p x q m) =
        PathTo.step (path_of_reachable p) ((state_at u s).1 (x, q)) m

    -- The search marks exactly the states that can be reached.
    marked_iff :
        (v : String)
        → (contains v (search c.initial (names c).states).reachable ≡ true)
          ↔ Reachable c.states c.initial v
    marked_iff v =
        let r = reachable_iff (names c).states c.initial v in
        (λ h. reachable_of_path (r.0 h), λ p. r.1 (path_of_reachable p))

    unreachable-nil :
        (ss : List GlobalState)
        → (unreachable (search c.initial (names c).states).reachable ss ≡ [])
          ↔ All (λ s. Reachable c.states c.initial (id s)) ss
    unfolding unreachable
    unreachable-nil [] = (λ h. tt, λ h. refl)
    unreachable-nil (s ∷ ss) =
        both (check_iff _ _ (iff_trans (not-false _) (marked_iff (id s)))) (unreachable-nil ss)

    abbrev Ends : Type 0
    Ends =
        (s : GlobalState) × Memᴰ s c.states
        × Reachable c.states c.initial (id s)
        × (is_terminal s ≡ true)

    terminal_iff : ((search c.initial (names c).states).reaches_terminal ≡ true) ↔ Ends
    terminal_iff = (
      λ h.
          let (u, s, p, e, z) = reaches_terminal_sound (names c).states c.initial h in
          let (m, q) = (state_at u s).0 e in
          (s, m, subst (Reachable c.states c.initial) (sym q) (reachable_of_path p), z),
      λ (s, m, p, z).
          reaches_terminal_complete (names c).states c.initial (id s) s (path_of_reachable p)
            ((state_at (id s) s).1 (m, refl)) z,
    )

    validate_reachability-nil :
        (validate_reachability c.initial c.states (names c).states ≡ [])
        ↔ (All (λ s. Reachable c.states c.initial (id s)) c.states × Ends)
    unfolding validate_reachability
    validate_reachability-nil =
        both (unreachable-nil c.states) (check_iff _ _ (iff_trans (not-false _) terminal_iff))

  go_on-nil : (ds more : List Diagnostic) → (go_on ds more ≡ []) ↔ ((ds ≡ []) × (more ≡ []))
  go_on-nil [] more = (λ h. (refl, h), λ h. h.1)
  go_on-nil (d ∷ ds) more = (λ h. cc, λ h. cc (h.0))

  diagnostics-nil : (diagnostics c ≡ []) ↔ IsValid c
  unfolding diagnostics
  diagnostics-nil =
      let parts =
        go_on-nil (declaration_diagnostics c)
          (validate_reachability c.initial c.states (names c).states) in
      let declared = iff_trans declaration_diagnostics-nil IsDeclared_iff in
      (
        λ h.
            let d = declared.0 (parts.0 h).0 in
            let (r, e) = (validate_reachability-nil d).0 (parts.0 h).1 in
            record { declared = d; reached = r; ends = e },
        λ v.
            parts.1
              (declared.1 v.declared, (validate_reachability-nil v.declared).1 (v.reached, v.ends)),
      )

  verdict-ok : (ds : List Diagnostic) → (verdict ds ≡ ok tt) ↔ (ds ≡ [])
  verdict-ok [] = (λ h. refl, λ h. refl)
  verdict-ok (d ∷ ds) = (λ h. cc, λ h. cc)

  -- `validate` returns `Ok` for a conversation just when the conversation is valid in the sense
  -- of `IsValid`: it has the format of the source; the identifiers of its roles, of its types
  -- and of its failures are distinct and not empty, and those of its states are distinct; it has
  -- two roles and every type a kind; its initial state and all that its states name are
  -- declared, a sender is not its receiver, a choice has two branches or more, labels of
  -- branches and scopes of cancellations are not empty; its failure edges end in the matching
  -- terminal failures; and every state can be reached from the initial one, a terminal state
  -- among them.
  pub validate_iff : (validate c ≡ ok tt) ↔ IsValid c
  unfolding validate
  validate_iff = iff_trans (verdict-ok (diagnostics c)) diagnostics-nil
