-- ===== src/Node/Peers.antt =====
-- The peers that a policy lists for a role of a plan.
use mathlib.Core.List.Memᴰ
use mathlib.Core.Logic.{⊎_elim}
use colloq.Prelude.{
  String, ◌≡◌, refl, sym, ◌∙◌, subst, ◌↔◌, ◌⊎◌, some, List, [], ◌∷◌, ◌&&◌, &&_iff, ◌==◌, eq_iff,
  All, Memᴰ, ok, some_inj, inl, inr, Bool-cases,
}
use colloq.Machine.{PreparedPlan}
use package.colloq.Node.{
  EndpointIds, AuthorizationRule, AuthorizationPolicy, authorize, peers_of, found, authorized_peers,
  rule_for,
}
use package.colloq.Node.Policy.{RuleOk, validate_iff, parse-ok}
use package.colloq.Node.Grants.{authorize_iff}

module _ {I : Type 0} (ids : EndpointIds I) (role plan : String) where
  -- A rule for the role and the plan names the peer.
  abbrev pub Names : AuthorizationRule → I → Type 0
  Names r i = (ids.from_str r.endpoint_identity ≡ some i) × (r.role ≡ role) × (r.plan ≡ plan)

  abbrev pub Listed : List AuthorizationRule → I → Type 0
  Listed rules i = (r : AuthorizationRule) × Memᴰ r rules × Names r i

  Listed-cons :
      (r : AuthorizationRule) (rules : List AuthorizationRule) (i : I)
      → Listed (r ∷ rules) i ↔ (Names r i ⊎ Listed rules i)
  Listed-cons r rules i = (
    λ (s, m, n).
        ⊎_elim (λ e. inl (subst (λ t. Names t i) e n)) (λ t. inr (s, t, n)) (Memᴰ.cases_cons m),
    ⊎_elim (λ n. (r, Memᴰ.head refl, n)) (λ (s, m, n). (s, Memᴰ.tail m, n)),
  )

  peers_of-Listed :
      (rules : List AuthorizationRule)
      → All (RuleOk ids) rules
      → (ps : List I) × (peers_of ids rules role plan ≡ ok ps)
        × ((i : I) → Memᴰ i ps ↔ Listed rules i)
  unfolding peers_of
  peers_of-Listed [] h =
      ([], refl, λ i. (λ m. absurd (Memᴰ.not-nil m), λ (r, m, n). absurd (Memᴰ.not-nil m)))
  peers_of-Listed (r ∷ rules) h =
      let (ps, e, f) = peers_of-Listed rules h.1 in
      let (j, at) = RuleOk.peer h.0 in
      elim (Bool-cases (r.role == role && r.plan == plan)) [
        | inl t ↦
            let (a, b) = (&&_iff (r.role == role) (r.plan == plan)).0 t in
            let names : (ids.from_str r.endpoint_identity ≡ some j)
                × (r.role ≡ role)
                × (r.plan ≡ plan) =
              (at, (eq_iff r.role role).0 a, (eq_iff r.plan plan).0 b) in
            (
              j ∷ ps,
              rw (t, (parse-ok ids r.endpoint_identity j).1 at, e) refl,
              λ i. (
                λ m. (Listed-cons r rules i).1 (
                    ⊎_elim (λ q. inl (subst (Names r) (sym q) names)) (λ u. inr ((f i).0 u))
                      (Memᴰ.cases_cons m)),
                λ l.
                    ⊎_elim (λ n. Memᴰ.head (some_inj (sym n.0 ∙ at))) (λ u. Memᴰ.tail ((f i).1 u))
                      ((Listed-cons r rules i).0 l),
              ),
            )
        | inr t ↦ (
          ps,
          rw t e,
          λ i. (
            λ m. (Listed-cons r rules i).1 (inr ((f i).0 m)),
            λ l.
                ⊎_elim
                  (λ n. absurd (
                    cc (
                      t,
                      (&&_iff (r.role == role) (r.plan == plan)).1
                          ((eq_iff r.role role).1 n.1, (eq_iff r.plan plan).1 n.2),
                    )))
                  (f i).1 ((Listed-cons r rules i).0 l),
          ),
        )
      ]

module _ {I : Type 0} (ids : EndpointIds I) where
  found-some :
      (role plan : String) (i : I) (ps : List I) → Memᴰ i ps → found ids role plan ps ≡ ok ps
  unfolding found
  found-some role plan i [] m = absurd (Memᴰ.not-nil m)
  found-some role plan i (p ∷ ps) m = refl

  -- If an identifier is parsed back from its text and `authorize` accepts a peer for a role and
  -- a plan, then `authorized_peers` returns a list of peers that has the peer in it, and that
  -- has just the peers that a rule for the role and the plan names.
  pub authorized_peers-authorize :
      ((i : I) → ids.from_str (ids.to_string i) ≡ some i)
      → (p : AuthorizationPolicy) (i : I) (role : String) (plan : PreparedPlan)
      → authorize ids p i role plan ≡ ok tt
      → (ps : List I) × (authorized_peers ids p role plan ≡ ok ps)
        × Memᴰ i ps
        × ((j : I) → Memᴰ j ps ↔ Listed ids role plan.plan_identity p.rules j)
  unfolding authorized_peers
  authorized_peers-authorize reads p i role plan h =
      let (k, m) = (authorize_iff ids p i role plan).0 h in
      let (ps, e, f) = peers_of-Listed ids role plan.plan_identity p.rules k.rules in
      let listed = (f i).1 (rule_for ids i role plan, m, (reads i, refl, refl)) in
      (
        ps,
        rw ((validate_iff ids p).1 k, e) (found-some role plan.plan_identity i ps listed),
        listed,
        f,
      )
