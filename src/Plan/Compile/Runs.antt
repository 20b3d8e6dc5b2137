-- ===== src/Plan/Compile/Runs.antt =====
-- The machines of a compiled conversation, and what its identities depend on.
use colloq.Prelude.{
  String, ◌≡◌, ◌↔◌, refl, sym, ap, ◌∙◌, subst, Option, some, none, Memᴰ, ok, ◌>>=◌, >>=-eq-ok,
  ok_inj,
}
use colloq.Prelude.Maps.{Map}
use colloq.Conversation.{Conversation}
use colloq.Validate.Spec.{IsValid, role_ids}
use colloq.Project.{Endpoint, project_validated}
use colloq.Plan.Wire.{derive_wire_plan}
use colloq.Plan.Wire.Table.{derive_wire_plan-ext, IsTable, derive_wire_plan-IsTable}
use colloq.Plan.Identity.{
  conversation_identity, conversation_identity_validated, IsDigest, sha256_identity,
  sha256_identity_inj, or_codec,
}
use colloq.Plan.Verify.{ColloqPlan, SemanticPlan, calculate_identity, verify}
use colloq.Plan.Checked.Whole.{IsPlan, verify_iff}
use colloq.Machine.{Machine, PreparedPlan, from_plan}
use colloq.Machine.Start.{from_plan-Synced}
use colloq.Machine.Sync.{Synced}
use colloq.Codec.{Bytes, Serializer}
use package.colloq.Plan.Compile.{
  sort_by_role, compile, prepared, compile_prepared, wire_or_derived, for_role, prepare, or_plan,
}
use package.colloq.Plan.Compile.Ready.{Compiled, compile-Compiled, sort_by_role-same}

module _ {ℓ} {V : Type ℓ} (json : Serializer (Conversation V)) (plan_json : Serializer SemanticPlan)
    (sha256 : Bytes → Bytes) (c : Conversation V) where
  prepared-ok :
      (p : ColloqPlan) (q : PreparedPlan)
      → Compiled json plan_json sha256 c p
      → prepared p ≡ ok q
      → (q.endpoints ≡ sort_by_role (project_validated c))
        × (derive_wire_plan (sort_by_role (project_validated c)) ≡ ok q.wire)
  unfolding prepared wire_or_derived
  prepared-ok p q k h =
      let (w, e, derived) = k.wire in
      let (v, f, same) = >>=-eq-ok (wire_or_derived p.wire p.endpoints) _ h in
      (
        ap (λ t. t.endpoints) (sym (ok_inj same)) ∙ k.endpoints,
        derived
            ∙ (sym (ap (λ o. wire_or_derived o p.endpoints) e)
                ∙ (f ∙ ap (λ (t : PreparedPlan). ok t.wire) (ok_inj same))),
      )

  -- A prepared plan has the endpoints of its conversation, which is valid.
  pub compile_prepared-endpoints :
      (q : PreparedPlan)
      → compile_prepared json plan_json sha256 c ≡ ok q
      → IsValid c × ((e : Endpoint) → Memᴰ e q.endpoints ↔ Memᴰ e (project_validated c))
  unfolding compile_prepared
  compile_prepared-endpoints q h =
      let (p, e, r) = >>=-eq-ok (compile json plan_json sha256 c) _ h in
      let k = compile-Compiled json plan_json sha256 c p e in
      let (es, _) = prepared-ok p q k r in
      let same = sort_by_role-same c k.valid in
      (
        k.valid,
        λ u. (λ m. (same u).0 (subst (Memᴰ u) es m), λ m. subst (Memᴰ u) (sym es) ((same u).1 m)),
      )

  for_role-from_plan :
      (q : PreparedPlan) (role : String)
      → compile_prepared json plan_json sha256 c ≡ ok q
      → for_role json plan_json sha256 c role ≡ from_plan q role
  unfolding for_role
  for_role-from_plan q role h = ap (λ r. or_plan r >>= λ p. from_plan p role) h

  -- When `PreparedPlan::compile` returns a plan for a conversation, its dictionary is a
  -- transition table of the projected endpoints, and for two of the roles
  -- `EndpointMachine::for_role` returns machines that are synchronised, at the initial state and
  -- the sequence number 0.
  pub compile_prepared-Synced :
      (q : PreparedPlan) (a b : String)
      → compile_prepared json plan_json sha256 c ≡ ok q
      → Memᴰ a (role_ids c)
      → Memᴰ b (role_ids c)
      → IsTable (project_validated c) q.wire.transitions
        × ((x : Machine) × (y : Machine) × (for_role json plan_json sha256 c a ≡ ok x)
            × (for_role json plan_json sha256 c b ≡ ok y)
            × Synced c a b x y
            × (x.current ≡ c.initial)
            × (x.sequence ≡ 0))
  unfolding compile_prepared
  compile_prepared-Synced q a b h ma mb =
      let (p, e, r) = >>=-eq-ok (compile json plan_json sha256 c) _ h in
      let k = compile-Compiled json plan_json sha256 c p e in
      let (es, derived) = prepared-ok p q k r in
      let same = sort_by_role-same c k.valid in
      let (x, y, fx, fy, synced, at, zero) =
        from_plan-Synced c k.valid q a b
          (λ u.
            (λ m. (same u).0 (subst (Memᴰ u) es m), λ m. subst (Memᴰ u) (sym es) ((same u).1 m)))
          ma mb in
      (
        (derive_wire_plan-IsTable (project_validated c) q.wire
            (sym (derive_wire_plan-ext _ _ same) ∙ derived)).1,
        (x, y, for_role-from_plan q a h ∙ fx, for_role-from_plan q b h ∙ fy, synced, at, zero),
      )

  pub prepare-compile :
      (p : ColloqPlan)
      → compile json plan_json sha256 c ≡ ok p
      → prepare plan_json sha256 p ≡ compile_prepared json plan_json sha256 c
  unfolding prepare compile_prepared
  prepare-compile p h =
      let k = compile-Compiled json plan_json sha256 c p h in
      rw (h, (verify_iff plan_json sha256 p).1 k.plan) refl

  -- `compile` and `conversation_identity` return the same for a conversation with another schema
  -- and other annotations.
  pub compile-metadata :
      (schema : Option String) (annotations : Map V)
      → (compile json plan_json sha256 (record c { schema = schema; annotations = annotations })
          ≡ compile json plan_json sha256 c)
        × (conversation_identity json sha256
              (record c { schema = schema; annotations = annotations })
            ≡ conversation_identity json sha256 c)
  unfolding compile conversation_identity conversation_identity_validated colloq.Validate.validate
      colloq.Validate.diagnostics colloq.Validate.declaration_diagnostics colloq.Validate.names
      project_validated colloq.Project.endpoint_for
  compile-metadata schema annotations = (refl, refl)

-- The bytes that the identity of a plan is the digest of.
pub Written : Serializer SemanticPlan → ColloqPlan → Bytes → Type 0
Written json p b =
    json.to_vec (record {
      colloq_plan = p.colloq_plan;
      conversation = p.conversation;
      conversation_identity = p.conversation_identity;
      endpoints = p.endpoints;
      wire = p.wire;
    })
    ≡ some b

module _ (json : Serializer SemanticPlan) (sha256 : Bytes → Bytes) where
  or_codec-ok {ℓ} : {A : Type ℓ} (o : Option A) {a : A} → or_codec o ≡ ok a → o ≡ some a
  unfolding or_codec
  or_codec-ok none h = cc
  or_codec-ok (some a) h = ap some (ok_inj h)

  Written-identity :
      (p : ColloqPlan)
      → IsPlan json sha256 p
      → (b : Bytes) × Written json p b × (sha256_identity sha256 b ≡ p.plan_identity)
  unfolding calculate_identity Written
  Written-identity p k =
      let (b, e, same) = >>=-eq-ok (or_codec (json.to_vec _)) _ k.identity in
      (b, or_codec-ok _ e, ok_inj same)

  -- If a digest has 32 bytes, two plans that `verify` accepts and that have one plan identity
  -- are written as bytes with one SHA-256 digest.
  pub verify-same_identity :
      ((b : Bytes) → IsDigest (sha256 b))
      → (p q : ColloqPlan) → verify json sha256 p ≡ ok tt
      → verify json sha256 q ≡ ok tt
      → p.plan_identity ≡ q.plan_identity
      → (x : Bytes) × (y : Bytes) × Written json p x × Written json q y × (sha256 x ≡ sha256 y)
  verify-same_identity d p q hp hq e =
      let (x, wx, px) = Written-identity p ((verify_iff json sha256 p).0 hp) in
      let (y, wy, qy) = Written-identity q ((verify_iff json sha256 q).0 hq) in
      (x, y, wx, wy, sha256_identity_inj sha256 d x y (px ∙ (e ∙ sym qy)))
