-- ===== src/Node/Policy.antt =====
-- The rules of an authorization policy, and what `allow` and `validate` do with them.
use mathlib.Core.List.Memᴰ
use mathlib.Core.Logic.{⊎_elim}
use colloq.Prelude.{
  String, ◌≡◌, ◌≢◌, refl, sym, ap, subst, ◌↔◌, iff_trans, ◌⊎◌, inl, inr, Option, none, some, List,
  [], ◌∷◌, ◌++◌, true, not, ◌&&◌, &&_iff, ||_iff, ◌||◌, ◌==◌, eq_iff, any, All, Memᴰ, ok, >>=-eq-ok,
  ok_inj, some_inj, require, require-eq-ok, arith, Bool-cases,
}
use colloq.Prelude.Order.{IsOrder, lex-IsOrder, by_key-IsOrder, compare-IsOrder}
use colloq.Prelude.Sets.{IsSorted}
use colloq.Prelude.Sorting.{Memᴰ-sort_by, IsSorted-sort_by, Distinct-snoc, Distinct-of_IsSorted}
use colloq.Machine.{PreparedPlan}
use package.colloq.Node.{
  EndpointIds, AuthorizationRule, AuthorizationPolicy, authorization_format, compare_rule, rule_for,
  same_rule, allows, allow, parse_endpoint_id, parsed, validate_rules, validate_policy,
  require_version,
}

rule_of : String × (String × String) → AuthorizationRule
rule_of (i, (r, p)) = record { endpoint_identity = i; role = r; plan = p }

compare_rule-IsOrder : IsOrder compare_rule
unfolding rule_of
compare_rule-IsOrder =
    by_key-IsOrder _ _ (λ x y e. ap rule_of e)
      (lex-IsOrder _ _ compare-IsOrder (lex-IsOrder _ _ compare-IsOrder compare-IsOrder))

module _ {I : Type 0} (ids : EndpointIds I) where
  same_rule_iff : (x y : AuthorizationRule) → (same_rule ids x y ≡ true) ↔ (x ≡ y)
  same_rule_iff x y = (
    λ h.
        let (e, p) =
          (&&_iff (x.endpoint_identity == y.endpoint_identity && x.role == y.role)
              (x.plan == y.plan)).0
            h in
        let (e, r) = (&&_iff (x.endpoint_identity == y.endpoint_identity) (x.role == y.role)).0 e in
        λ i. record {
          endpoint_identity = (eq_iff x.endpoint_identity y.endpoint_identity).0 e i;
          role = (eq_iff x.role y.role).0 r i;
          plan = (eq_iff x.plan y.plan).0 p i;
        },
    λ e.
        rw
          (
            (eq_iff x.endpoint_identity y.endpoint_identity).1 (ap (λ z. z.endpoint_identity) e),
            (eq_iff x.role y.role).1 (ap (λ z. z.role) e),
            (eq_iff x.plan y.plan).1 (ap (λ z. z.plan) e),
          )
          refl,
  )

  any-same :
      (w : AuthorizationRule) (rules : List AuthorizationRule)
      → (any (λ rule. same_rule ids rule w) rules ≡ true) ↔ Memᴰ w rules
  any-same w [] = (λ h. cc, λ m. absurd (Memᴰ.not-nil m))
  any-same w (r ∷ rules) =
      let rest = any-same w rules in
      let here = same_rule_iff r w in
      iff_trans (||_iff (same_rule ids r w) (any (λ rule. same_rule ids rule w) rules)) (
        ⊎_elim (λ h. Memᴰ.head (sym (here.0 h))) (λ h. Memᴰ.tail (rest.0 h)),
        λ m. ⊎_elim (λ e. inl (here.1 (sym e))) (λ t. inr (rest.1 t)) (Memᴰ.cases_cons m),
      )

  pub allows_iff :
      (p : AuthorizationPolicy) (w : AuthorizationRule) → (allows ids p w ≡ true) ↔ Memᴰ w p.rules
  unfolding allows
  allows_iff p w = any-same w p.rules

  -- `allow` adds the one rule and no other.
  pub Memᴰ-allow :
      (p : AuthorizationPolicy) (endpoint : I) (role : String) (plan : PreparedPlan)
      (r : AuthorizationRule)
      → Memᴰ r (allow ids p endpoint role plan).rules
        ↔ ((r ≡ rule_for ids endpoint role plan) ⊎ Memᴰ r p.rules)
  unfolding allow
  Memᴰ-allow p endpoint role plan r =
      let w = rule_for ids endpoint role plan in
      elim (Bool-cases (allows ids p w)) [
        | inl e ↦
            rw e (
              inr,
              ⊎_elim (λ q. subst (λ u. Memᴰ u p.rules) (sym q) ((allows_iff p w).0 e)) (λ m. m),
            )
        | inr e ↦ rw e (
          λ m.
              ⊎_elim inr (λ t. inl (Memᴰ.eq_of_singleton t))
                (Memᴰ.append_cases p.rules
                  ((Memᴰ-sort_by compare_rule r (p.rules ++ (w ∷ []))).0 m)),
          λ c.
              (Memᴰ-sort_by compare_rule r (p.rules ++ (w ∷ []))).1 (
                ⊎_elim (λ q. Memᴰ.append_right p.rules (Memᴰ.head q)) (Memᴰ.append_left (w ∷ []))
                  c),
        )
      ]

  pub allow-IsSorted :
      (p : AuthorizationPolicy) (endpoint : I) (role : String) (plan : PreparedPlan)
      → IsSorted compare_rule p.rules
      → IsSorted compare_rule (allow ids p endpoint role plan).rules
  unfolding allow
  allow-IsSorted p endpoint role plan k =
      let w = rule_for ids endpoint role plan in
      elim (Bool-cases (allows ids p w)) [
        | inl e ↦ rw e k
        | inr e ↦ rw e (
            IsSorted-sort_by compare_rule compare_rule-IsOrder (p.rules ++ (w ∷ [])) (
              Distinct-snoc p.rules w
                (Distinct-of_IsSorted compare_rule compare_rule-IsOrder p.rules k)
                (λ m. cc (e, (allows_iff p w).1 m))))
      ]

  -- What `validate` asks of a rule.
  pub record RuleOk (r : AuthorizationRule) : Type 0 where
    pub peer : (i : I) × (ids.from_str r.endpoint_identity ≡ some i)
    pub role : r.role ≢ ""
    pub plan : r.plan ≢ ""

  parsed-ok : (s : String) (o : Option I) (i : I) → (parsed ids s o ≡ ok i) ↔ (o ≡ some i)
  unfolding parsed
  parsed-ok s none i = (λ h. cc, λ h. cc)
  parsed-ok s (some j) i = (λ h. ap some (ok_inj h), λ h. ap ok (some_inj h))

  pub parse-ok : (s : String) (i : I) → (parse_endpoint_id ids s ≡ ok i) ↔ (ids.from_str s ≡ some i)
  unfolding parse_endpoint_id
  parse-ok s i = parsed-ok s (ids.from_str s) i

  named_iff : (r p : String) → (not (r == "" || p == "") ≡ true) ↔ ((r ≢ "") × (p ≢ ""))
  named_iff r p = (
    λ h. (λ e. ground (arith, eq_iff r ""), λ e. ground (arith, eq_iff p "")),
    λ n. ground (arith, eq_iff r "", eq_iff p "", n.0, n.1),
  )

  validate_rules_iff :
      (rules : List AuthorizationRule) → (validate_rules ids rules ≡ ok tt) ↔ All RuleOk rules
  unfolding validate_rules
  validate_rules_iff [] = (λ h. tt, λ u. refl)
  validate_rules_iff (r ∷ rules) = (
    λ h.
        let (i, e, h) = >>=-eq-ok (parse_endpoint_id ids r.endpoint_identity) _ h in
        let (u, t, h) = >>=-eq-ok (require (not (r.role == "" || r.plan == "")) _) _ h in
        let (n, q) = (named_iff r.role r.plan).0 (require-eq-ok _ _ t) in
        (
          record { peer = (i, (parse-ok r.endpoint_identity i).0 e); role = n; plan = q },
          (validate_rules_iff rules).0 h,
        ),
    λ k.
        let (i, e) = k.0.peer in
        rw ((parse-ok r.endpoint_identity i).1 e, (named_iff r.role r.plan).1 (k.0.role, k.0.plan))
          ((validate_rules_iff rules).1 k.1),
  )

  -- A policy of this version, every rule of which is well formed.
  pub record IsPolicy (p : AuthorizationPolicy) : Type 0 where
    pub format : p.colloq_authorization ≡ authorization_format
    pub rules : All RuleOk p.rules

  pub validate_iff : (p : AuthorizationPolicy) → (validate_policy ids p ≡ ok tt) ↔ IsPolicy p
  unfolding validate_policy require_version
  validate_iff p = (
    λ h.
        let (u, t, h) =
          >>=-eq-ok (require (p.colloq_authorization == authorization_format) _) _ h in
        record {
          format = (eq_iff p.colloq_authorization authorization_format).0 (require-eq-ok _ _ t);
          rules = (validate_rules_iff p.rules).0 h;
        },
    λ k.
        rw ((eq_iff p.colloq_authorization authorization_format).1 k.format)
          ((validate_rules_iff p.rules).1 k.rules),
  )
