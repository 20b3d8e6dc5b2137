-- ===== src/Machine/Start.antt =====
-- Two machines that start from one prepared plan.
use colloq.Prelude.{
  Memᴰ, sym, ◌↔◌, find?-some, find?-Memᴰ, Memᴰ_of_get_elem?, Memᴰ_of_map, Memᴰ-map, eq_iff, subst,
  ap, String, ◌≡◌, refl, ◌∙◌, some, ok, ok_inj, ◌==◌, eq_refl, inl, inr, Option-cases,
}
use colloq.Conversation.{Conversation}
use colloq.Validate.Spec.{IsValid, role_ids, state_ids}
use colloq.Project.{Endpoint, endpoint_for, project_validated}
use colloq.Machine.{Machine, PreparedPlan, endpoint, from_plan, start_at}
use colloq.Machine.Find.{Follows}
use colloq.Machine.Sync.{Synced}

-- A machine at the start of a plan.
started : PreparedPlan → Endpoint → Machine
started p e = record {
  endpoint = e;
  conversation_identity = p.conversation_identity;
  plan_identity = p.plan_identity;
  current = e.initial;
  sequence = 0;
}

from_plan-some :
    (p : PreparedPlan) (role : String) (e : Endpoint)
    → endpoint p role ≡ some e
    → from_plan p role ≡ ok (started p e)
unfolding from_plan started
from_plan-some p role e h = rw (h, from_plan) refl

from_plan-ok :
    (p : PreparedPlan) (role : String) (m : Machine)
    → from_plan p role ≡ ok m
    → (e : Endpoint) × (endpoint p role ≡ some e) × (started p e ≡ m)
unfolding from_plan started
from_plan-ok p role m h = elim (Option-cases (endpoint p role)) [
  | inl n ↦ absurd (cc (n, h))
  | inr (e, f) ↦ (e, f, ok_inj (ap (start_at p role) (sym f) ∙ h))
]

module _ {ℓ} {V : Type ℓ} (c : Conversation V) (v : IsValid c) where
  -- A plan with the endpoints of the conversation, in any order, gives each role its own.
  endpoint-project :
      (p : PreparedPlan) (role : String)
      → ((e : Endpoint) → Memᴰ e p.endpoints ↔ Memᴰ e (project_validated c))
      → Memᴰ role (role_ids c)
      → endpoint p role ≡ some (endpoint_for c role)
  unfolding endpoint endpoint_for project_validated
  endpoint-project p role same m =
      let (r, x, q) = Memᴰ_of_map (λ r. r.id) role c.roles m in
      let own : Memᴰ (endpoint_for c role) p.endpoints = (same (endpoint_for c role)).1 (
        subst (λ k. Memᴰ (endpoint_for c k) (project_validated c)) q
          (Memᴰ-map (λ t. endpoint_for c t.id) r c.roles x)) in
      let (e, found) =
        find?-Memᴰ (λ t. t.role == role) (endpoint_for c role) p.endpoints own (eq_refl role) in
      let (i, at, fits) = find?-some (λ t. t.role == role) p.endpoints found in
      let (t, y, made) =
        Memᴰ_of_map (λ t. endpoint_for c t.id) e c.roles
          ((same e).0 (Memᴰ_of_get_elem? p.endpoints i at)) in
      let name : t.id ≡ role = ap (λ u. u.role) made ∙ (eq_iff e.role role).0 fits in
      found ∙ ap some (sym made ∙ ap (endpoint_for c) name)

  -- Let a prepared plan have the endpoints of a valid conversation, in any order. For two of its
  -- roles, `from_plan` returns machines that are synchronised, at the initial state and the
  -- sequence number 0.
  pub from_plan-Synced :
      (p : PreparedPlan) (a b : String)
      → ((e : Endpoint) → Memᴰ e p.endpoints ↔ Memᴰ e (project_validated c))
      → Memᴰ a (role_ids c)
      → Memᴰ b (role_ids c)
      → (x : Machine) × (y : Machine) × (from_plan p a ≡ ok x)
        × (from_plan p b ≡ ok y)
        × Synced c a b x y
        × (x.current ≡ c.initial)
        × (x.sequence ≡ 0)
  unfolding endpoint_for started
  from_plan-Synced p a b same ma mb = (
    started p (endpoint_for c a),
    started p (endpoint_for c b),
    from_plan-some p a (endpoint_for c a) (endpoint-project p a same ma),
    from_plan-some p b (endpoint_for c b) (endpoint-project p b same mb),
    record {
      left = record { machine = refl; at = v.declared.initial };
      right = record { machine = refl; at = v.declared.initial };
      identity = refl;
      current = refl;
      sequence = refl;
    },
    refl,
    refl,
  )

  -- A machine of such a plan is of one of the roles of the conversation, at its initial state.
  pub from_plan-Follows :
      (p : PreparedPlan) (role : String) (m : Machine)
      → ((e : Endpoint) → Memᴰ e p.endpoints ↔ Memᴰ e (project_validated c))
      → from_plan p role ≡ ok m
      → Follows c role m × Memᴰ role (role_ids c) × (m.current ≡ c.initial)
  unfolding endpoint_for project_validated started endpoint
  from_plan-Follows p role m same h =
      let (e, found, made) = from_plan-ok p role m h in
      let (i, at, fits) = find?-some (λ t. t.role == role) p.endpoints found in
      let (t, y, own) =
        Memᴰ_of_map (λ t. endpoint_for c t.id) e c.roles
          ((same e).0 (Memᴰ_of_get_elem? p.endpoints i at)) in
      let name : t.id ≡ role = ap (λ u. u.role) own ∙ (eq_iff e.role role).0 fits in
      let at : m.current ≡ c.initial =
        ap (λ u. u.current) (sym made) ∙ ap (λ u. u.initial) (sym own) in
      (
        record {
          machine = ap (λ u. u.endpoint) (sym made) ∙ (sym own ∙ ap (endpoint_for c) name);
          at = subst (λ k. Memᴰ k (state_ids c)) (sym at) v.declared.initial;
        },
        subst (λ k. Memᴰ k (role_ids c)) name (Memᴰ-map (λ r. r.id) t c.roles y),
        at,
      )
