-- ===== src/Node/Grants.antt =====
-- Whom an authorization policy lets in, and how it grows.
use mathlib.Core.Logic.{⊎_elim}
use colloq.Prelude.{
  String, ◌≡◌, ◌≢◌, refl, sym, ap, ◌∙◌, subst, ◌↔◌, iff_trans, ◌⊎◌, inl, inr, some, All_of_Memᴰ,
  All-Memᴰ, Memᴰ, ok, >>=-eq-ok, some_inj, require-eq-ok, Bool-cases,
}
use colloq.Prelude.Sets.{IsSorted}
use colloq.Machine.{PreparedPlan}
use package.colloq.Node.{
  EndpointIds, AuthorizationPolicy, compare_rule, rule_for, allows, allow, validate_policy,
  authorize,
}
use package.colloq.Node.Policy.{
  RuleOk, IsPolicy, Memᴰ-allow, allow-IsSorted, validate_iff, allows_iff,
}

module _ {I : Type 0} (ids : EndpointIds I) where
  pub authorize_iff :
      (p : AuthorizationPolicy) (endpoint : I) (role : String) (plan : PreparedPlan)
      → (authorize ids p endpoint role plan ≡ ok tt)
        ↔ (IsPolicy ids p × Memᴰ (rule_for ids endpoint role plan) p.rules)
  unfolding authorize
  authorize_iff p endpoint role plan = (
    λ h.
        let (u, v, t) = >>=-eq-ok (validate_policy ids p) _ h in
        (
          (validate_iff ids p).0 v,
          (allows_iff ids p (rule_for ids endpoint role plan)).0 (require-eq-ok _ _ t),
        ),
    λ (k, m).
        rw ((validate_iff ids p).1 k, (allows_iff ids p (rule_for ids endpoint role plan)).1 m)
          refl,
  )

  allow-format :
      (p : AuthorizationPolicy) (endpoint : I) (role : String) (plan : PreparedPlan)
      → (allow ids p endpoint role plan).colloq_authorization ≡ p.colloq_authorization
  unfolding allow
  allow-format p endpoint role plan =
      elim (Bool-cases (allows ids p (rule_for ids endpoint role plan))) [
        | inl e ↦ rw e refl
        | inr e ↦ rw e refl
      ]

  rule-Ok :
      (endpoint : I) (role : String) (plan : PreparedPlan)
      → ((i : I) → ids.from_str (ids.to_string i) ≡ some i)
      → role ≢ ""
      → plan.plan_identity ≢ ""
      → RuleOk ids (rule_for ids endpoint role plan)
  rule-Ok endpoint role plan reads n q = record {
    peer = (endpoint, reads endpoint);
    role = n;
    plan = q;
  }

  -- Rules that are well formed and strictly increasing.
  pub record IsOrderly (p : AuthorizationPolicy) : Type 0 where
    pub policy : IsPolicy ids p
    pub sorted : IsSorted compare_rule p.rules

  -- If an identifier is parsed back from its text, then `allow` for a role and a plan whose
  -- names are not empty keeps a policy well formed, and its rules strictly increasing, so
  -- without duplicates.
  pub allow-IsOrderly :
      ((i : I) → ids.from_str (ids.to_string i) ≡ some i)
      → (p : AuthorizationPolicy) (endpoint : I) (role : String) (plan : PreparedPlan) → role ≢ ""
      → plan.plan_identity ≢ ""
      → IsOrderly p
      → IsOrderly (allow ids p endpoint role plan)
  allow-IsOrderly reads p endpoint role plan n q k = record {
    policy = record {
      format = allow-format p endpoint role plan ∙ k.policy.format;
      rules = All_of_Memᴰ (RuleOk ids) (allow ids p endpoint role plan).rules (λ r m.
          ⊎_elim (λ e. subst (RuleOk ids) (sym e) (rule-Ok endpoint role plan reads n q))
            (All-Memᴰ (RuleOk ids) p.rules k.policy.rules)
            ((Memᴰ-allow ids p endpoint role plan r).0 m));
    };
    sorted = allow-IsSorted ids p endpoint role plan k.sorted;
  }

  -- If an identifier is parsed back from its text and the policy is well formed and in order,
  -- then after `allow` for a peer, a role and a plan whose names are not empty, `authorize`
  -- accepts just that peer for that role and plan identity, and what it accepted before.
  pub authorize-allow :
      ((i : I) → ids.from_str (ids.to_string i) ≡ some i)
      → (p : AuthorizationPolicy) (endpoint other : I) (role role' : String)
        (plan plan' : PreparedPlan)
      → role ≢ ""
      → plan.plan_identity ≢ ""
      → IsOrderly p
      → (authorize ids (allow ids p endpoint role plan) other role' plan' ≡ ok tt) ↔ (
          ((other ≡ endpoint) × (role' ≡ role) × (plan'.plan_identity ≡ plan.plan_identity))
          ⊎ (authorize ids p other role' plan' ≡ ok tt))
  authorize-allow reads p endpoint other role role' plan plan' n q k =
      let next = allow-IsOrderly reads p endpoint role plan n q k in
      let new = Memᴰ-allow ids p endpoint role plan (rule_for ids other role' plan') in
      iff_trans (authorize_iff (allow ids p endpoint role plan) other role' plan') (
        λ (_, m).
            ⊎_elim
              (λ e. inl (
                some_inj (
                    sym (reads other)
                    ∙ (ap (λ r. ids.from_str r.endpoint_identity) e ∙ reads endpoint)),
                ap (λ r. r.role) e,
                ap (λ r. r.plan) e,
              ))
              (λ t. inr ((authorize_iff p other role' plan').1 (k.policy, t))) (new.0 m),
        λ c. (
          next.policy,
          new.1 (
              ⊎_elim
                (λ (a, b, d).
                  inl (λ i. record {
                    endpoint_identity = ids.to_string (a i);
                    role = b i;
                    plan = d i;
                  }))
                (λ h. inr (((authorize_iff p other role' plan').0 h).1)) c),
        ),
      )
