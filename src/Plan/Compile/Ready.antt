-- ===== src/Plan/Compile/Ready.antt =====
-- When a conversation compiles, and what the plan is good for.
use colloq.Prelude.{
  String, ◌≡◌, ◌≢◌, refl, sym, ap, ◌∙◌, subst, some, List, [], ◌∷◌, map, length, inl, inr, All,
  Memᴰ, ◌↔◌, iff_trans, Result, ok, err, >>=-eq-ok, ok_inj,
}
use mathlib.Core.List.Memᴰ
use colloq.Conversation.{Conversation}
use colloq.Validate.{validate}
use colloq.Validate.Reachability.{Diagnostic}
use colloq.Validate.Spec.{IsValid, IsNodup, role_ids}
use colloq.Validate.Correct.{validate_iff}
use colloq.Project.{Endpoint, endpoint_for, project_validated}
use colloq.Project.Duality.{valid_roles, project_validated-eq}
use colloq.Plan.Wire.{CompactWirePlan, derive_wire_plan}
use colloq.Plan.Identity.{or_diagnostics, conversation_identity_validated}
use colloq.Plan.Verify.{ColloqPlan, SemanticPlan, calculate_identity, verify}
use colloq.Plan.Checked.{EndpointOk}
use colloq.Plan.Checked.Whole.{IsPlan, verify_iff}
use colloq.Codec.{Bytes, Serializer}
use package.colloq.Plan.Compile.{sort_by_role, sealed, compile}
use package.colloq.Plan.Compile.Endpoints.{IsNamed, endpoint_for-Ok}
use package.colloq.Plan.Compile.Sorted.{sort_by_role-two, swap_iff}

-- The writer never fails: `to_vec` only does so on keys that are no text.
abbrev pub Writes {ℓ} : {A : Type ℓ} → Serializer A → Type ℓ
Writes {A} json = (a : A) → (b : Bytes) × (json.to_vec a ≡ some b)

or_diagnostics-ok :
    {r : Result (List Diagnostic) (Unit {0})} {u : Unit {0}} → or_diagnostics r ≡ ok u → r ≡ ok tt
unfolding or_diagnostics
or_diagnostics-ok {r = ok tt} h = refl
or_diagnostics-ok {r = err e} h = cc

module _ {ℓ} {V : Type ℓ} (c : Conversation V) where
  -- The endpoints of a plan, by the two roles in one order or the other.
  abbrev pub Fit : List Endpoint → Type 0
  Fit es =
      (length es ≡ 2)
      × IsNodup (map (λ e. e.role) es)
      × All (EndpointOk c.module_.id (map (λ e. e.role) es)) es

  pair-Fit :
      (v : IsValid c) (n : IsNamed c) (a b : String)
      → a ≢ b
      → ((k : String) → Memᴰ k (role_ids c) ↔ Memᴰ k (a ∷ b ∷ []))
      → Fit (endpoint_for c a ∷ endpoint_for c b ∷ [])
  unfolding endpoint_for
  pair-Fit v n a b ne h = (
    refl,
    (λ m. ne (Memᴰ.eq_of_singleton m), (Memᴰ.not-nil, tt)),
    (
      endpoint_for-Ok c v n a (a ∷ b ∷ []) ((h a).1 (Memᴰ.head refl)) (λ k. (h k).0),
      (
        endpoint_for-Ok c v n b (a ∷ b ∷ []) ((h b).1 (Memᴰ.tail (Memᴰ.head refl))) (λ k. (h k).0),
        tt,
      ),
    ),
  )

  pub sorted-Fit : IsValid c → IsNamed c → Fit (sort_by_role (project_validated c))
  sorted-Fit v n =
      let (a, b, e, ne) = valid_roles c v in
      let two = project_validated-eq c a b e in
      let same : (k : String) → Memᴰ k (role_ids c) ↔ Memᴰ k (a ∷ b ∷ []) =
        λ k. (subst (Memᴰ k) e, subst (Memᴰ k) (sym e)) in
      elim (sort_by_role-two (endpoint_for c a) (endpoint_for c b)) [
        | inl q ↦ subst Fit (sym (ap sort_by_role two ∙ q)) (pair-Fit v n a b ne same)
        | inr q ↦
            subst Fit (sym (ap sort_by_role two ∙ q))
              (pair-Fit v n b a (λ p. ne (sym p)) (λ k. iff_trans (same k) (swap_iff k a b)))
      ]

  -- Sorting keeps the endpoints.
  pub sort_by_role-same :
      IsValid c
      → (e : Endpoint) → Memᴰ e (sort_by_role (project_validated c)) ↔ Memᴰ e (project_validated c)
  sort_by_role-same v e =
      let (a, b, p, _) = valid_roles c v in
      let two = project_validated-eq c a b p in
      let x = endpoint_for c a in
      let y = endpoint_for c b in
      elim (sort_by_role-two x y) [
        | inl q ↦ (
          subst (Memᴰ e) (ap sort_by_role two ∙ (q ∙ sym two)),
          subst (Memᴰ e) (sym (ap sort_by_role two ∙ (q ∙ sym two))),
        )
        | inr q ↦ (
          λ m.
              subst (Memᴰ e) (sym two)
                ((swap_iff e x y).1 (subst (Memᴰ e) (ap sort_by_role two ∙ q) m)),
          λ m.
              subst (Memᴰ e) (sym (ap sort_by_role two ∙ q))
                ((swap_iff e x y).0 (subst (Memᴰ e) two m)),
        )
      ]

module _ {ℓ} {V : Type ℓ} (json : Serializer (Conversation V)) (plan_json : Serializer SemanticPlan)
    (sha256 : Bytes → Bytes) (c : Conversation V) where
  -- What is known of a compiled plan.
  pub record Compiled (p : ColloqPlan) : Type ℓ where
    pub valid : IsValid c
    pub plan : IsPlan plan_json sha256 p
    pub endpoints : p.endpoints ≡ sort_by_role (project_validated c)
    pub conversation : p.conversation ≡ c.module_.id
    pub identity : conversation_identity_validated json sha256 c ≡ ok p.conversation_identity
    pub wire :
        (w : CompactWirePlan) × (p.wire ≡ some w)
        × (derive_wire_plan (sort_by_role (project_validated c)) ≡ ok w)

  sealed-ok :
      (p q : ColloqPlan)
      → sealed plan_json sha256 p ≡ ok q
      → (i : String) × (q ≡ record p { plan_identity = i }) × IsPlan plan_json sha256 q
  unfolding sealed
  sealed-ok p q h =
      let (i, _, r) = >>=-eq-ok (calculate_identity plan_json sha256 p) _ h in
      let (_, e, s) = >>=-eq-ok (verify plan_json sha256 (record p { plan_identity = i })) _ r in
      (
        i,
        sym (ok_inj s),
        subst (IsPlan plan_json sha256) (ok_inj s)
            ((verify_iff plan_json sha256 (record p { plan_identity = i })).0 e),
      )

  pub compile-Compiled : (p : ColloqPlan) → compile json plan_json sha256 c ≡ ok p → Compiled p
  unfolding compile
  compile-Compiled p h =
      let (_, ok_c, r) = >>=-eq-ok (or_diagnostics (validate c)) _ h in
      let (i, made, s) = >>=-eq-ok (conversation_identity_validated json sha256 c) _ r in
      let (w, derived, t) = >>=-eq-ok (derive_wire_plan (sort_by_role (project_validated c))) _ s in
      let (k, same, plan) = sealed-ok _ p t in
      record {
        valid = (validate_iff c).0 (or_diagnostics-ok ok_c);
        plan = plan;
        endpoints = ap (λ q. q.endpoints) same;
        conversation = ap (λ q. q.conversation) same;
        identity = made ∙ ap (λ q. ok q.conversation_identity) (sym same);
        wire = (w, ap (λ q. q.wire) same, derived);
      }
