-- ===== src/Plan/Compile/Succeeds.antt =====
-- When a conversation compiles, and the machines that run it.
use colloq.Prelude.{
  ◌≤◌, String, ◌≡◌, refl, sym, ◌∙◌, subst, some, none, [], map, length, true, All-Memᴰ, All_of_Memᴰ,
  Memᴰ, Memᴰ-map, Memᴰ_of_map, ◌↔◌, ok,
}
use colloq.Conversation as Conversation
use colloq.Conversation.{Conversation, GlobalState}
use colloq.Validate.Spec.{IsValid, role_ids, state_ids}
use colloq.Validate.Correct.{validate_iff}
use colloq.Project.{endpoint_for, project_validated, project_state}
use colloq.Project.Duality.{valid_roles}
use colloq.Plan.Wire.{CompactWirePlan, derive_wire_plan, max_transitions, entries}
use colloq.Plan.Wire.Table.{derive_wire_plan-ext}
use colloq.Plan.Wire.Bounds.{derive_wire_plan_iff}
use colloq.Plan.Identity.{
  IsDigest, conversation_identity_validated, sha256_identity, valid_sha256-sha256_identity,
  valid_id, valid_sha256, or_diagnostics, or_codec,
}
use colloq.Plan.Verify.{ColloqPlan, SemanticPlan, calculate_identity, plan_format}
use colloq.Plan.Checked.{EndpointOk, StateOk}
use colloq.Plan.Checked.Whole.{IsPlan, verify_iff}
use colloq.Machine.Find.{id-project_state}
use colloq.Codec.{Bytes, Serializer}
use package.colloq.Plan.Compile.{sort_by_role, sealed, compile}
use package.colloq.Plan.Compile.Endpoints.{IsNamed}
use package.colloq.Plan.Compile.Ready.{
  Writes, sorted-Fit, sort_by_role-same, Compiled, compile-Compiled,
}

module _ {ℓ} {V : Type ℓ} (json : Serializer (Conversation V)) (plan_json : Serializer SemanticPlan)
    (sha256 : Bytes → Bytes) (c : Conversation V) where
  role-named :
      (p : ColloqPlan)
      → Compiled json plan_json sha256 c p
      → (r : String) → Memᴰ r (role_ids c)
      → EndpointOk p.conversation (map (λ e. e.role) p.endpoints) (endpoint_for c r)
  unfolding project_validated
  role-named p k r m =
      let (t, x, q) = Memᴰ_of_map (λ r. r.id) r c.roles m in
      let own : Memᴰ (endpoint_for c r) (project_validated c) =
        subst (λ i. Memᴰ (endpoint_for c i) (project_validated c)) q
          (Memᴰ-map (λ u. endpoint_for c u.id) t c.roles x) in
      All-Memᴰ (EndpointOk p.conversation (map (λ e. e.role) p.endpoints)) p.endpoints
        k.plan.endpoints
        (subst (Memᴰ (endpoint_for c r)) (sym k.endpoints)
          ((sort_by_role-same c k.valid (endpoint_for c r)).1 own))

  -- A compiled conversation has identifiers for names.
  Compiled-IsNamed : (p : ColloqPlan) → Compiled json plan_json sha256 c p → IsNamed c
  unfolding endpoint_for
  Compiled-IsNamed p k =
      let (a, b, e, _) = valid_roles c k.valid in
      let first = role-named p k a (subst (Memᴰ a) (sym e) (Memᴰ.head refl)) in
      record {
        module_ = subst (λ n. valid_id n ≡ true) k.conversation k.plan.named;
        roles = All_of_Memᴰ _ (role_ids c) (λ r m. EndpointOk.named (role-named p k r m));
        states = All_of_Memᴰ _ (state_ids c) (λ i m.
            let (s, x, q) = Memᴰ_of_map Conversation.id i c.states m in
            subst (λ n. valid_id n ≡ true) (id-project_state s a ∙ q)
              (StateOk.named (
                All-Memᴰ _ (endpoint_for c a).states first.states
                  (Memᴰ-map (λ t. project_state t a) s c.states x))));
      }

  fits_iff :
      IsValid c
      → ((w : CompactWirePlan) × (derive_wire_plan (sort_by_role (project_validated c)) ≡ ok w))
        ↔ (length (entries (project_validated c)) ≤ max_transitions)
  fits_iff v =
      subst
        (λ r.
          ((w : CompactWirePlan) × (r ≡ ok w))
          ↔ (length (entries (project_validated c)) ≤ max_transitions))
        (sym (derive_wire_plan-ext _ _ (sort_by_role-same c v)))
        (derive_wire_plan_iff (project_validated c))

  -- The identity of a plan is what its contents give, whatever it declares.
  calculated :
      (p : ColloqPlan)
      → Writes plan_json
      → (i : String) × ((j : String)
          → calculate_identity plan_json sha256 (record p { plan_identity = j }) ≡ ok i)
  unfolding calculate_identity or_codec
  calculated p w =
      let (b, e) = w (record {
        colloq_plan = p.colloq_plan;
        conversation = p.conversation;
        conversation_identity = p.conversation_identity;
        endpoints = p.endpoints;
        wire = p.wire;
      }) in
      (sha256_identity sha256 b, λ j. rw e refl)

  unsealed : String → CompactWirePlan → ColloqPlan
  unsealed i w = record {
    colloq_plan = plan_format;
    conversation = c.module_.id;
    conversation_identity = i;
    plan_identity = "";
    endpoints = sort_by_role (project_validated c);
    wire = some w;
  }

  identified :
      Writes json
      → ((b : Bytes) → IsDigest (sha256 b))
      → (i : String) × (conversation_identity_validated json sha256 c ≡ ok i)
        × (valid_sha256 i ≡ true)
  unfolding conversation_identity_validated or_codec
  identified w d =
      let (b, e) = w (record c { schema = none; annotations = [] }) in
      (sha256_identity sha256 b, rw e refl, valid_sha256-sha256_identity sha256 d b)

  unsealed-IsPlan :
      IsValid c
      → IsNamed c
      → (i k : String) (w : CompactWirePlan) → valid_sha256 i ≡ true
      → derive_wire_plan (sort_by_role (project_validated c)) ≡ ok w
      → calculate_identity plan_json sha256 (record (unsealed i w) { plan_identity = k }) ≡ ok k
      → IsPlan plan_json sha256 (record (unsealed i w) { plan_identity = k })
  unfolding unsealed
  unsealed-IsPlan v n i k w s derived e =
      let (two, nodup, all) = sorted-Fit c v n in
      record {
        format = refl;
        named = n.module_;
        identified = s;
        two = two;
        roles = nodup;
        endpoints = all;
        identity = e;
        wire = derived;
      }

  -- If the JSON writer never fails and a digest has 32 bytes, `ColloqPlan::compile` returns a
  -- plan for a conversation just when the conversation is valid, its module, roles and states
  -- have identifiers for names, and its endpoints give at most 65535 different transitions.
  pub compile_iff :
      Writes json
      → Writes plan_json
      → ((b : Bytes) → IsDigest (sha256 b))
      → ((p : ColloqPlan) × (compile json plan_json sha256 c ≡ ok p))
        ↔ (IsValid c × IsNamed c × (length (entries (project_validated c)) ≤ max_transitions))
  unfolding compile sealed or_diagnostics unsealed
  compile_iff wc wp d = (
    λ (p, h).
        let k = compile-Compiled json plan_json sha256 c p h in
        (k.valid, Compiled-IsNamed p k, (fits_iff k.valid).0 (k.wire.0, k.wire.2)),
    λ (v, n, small).
        let (i, made, s) = identified wc d in
        let (w, derived) = (fits_iff v).1 small in
        let (k, sum) = calculated (unsealed i w) wp in
        let plan = unsealed-IsPlan v n i k w s derived (sum k) in
        (
          record (unsealed i w) { plan_identity = k },
          rw
              (
                (validate_iff c).1 v,
                made,
                derived,
                sum "",
                (verify_iff plan_json sha256 (record (unsealed i w) { plan_identity = k })).1 plan,
              )
              refl,
        ),
  )
