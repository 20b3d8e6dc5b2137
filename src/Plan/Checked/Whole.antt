-- ===== src/Plan/Checked/Whole.antt =====
-- What a whole plan has to be for `ColloqPlan::verify` of src/plan.rs.
use colloq.Prelude.{
  ◌≡◌, refl, sym, ap, ◌∙◌, ◌↔◌, iff_trans, Option, none, some, List, [], ◌∷◌, map, Bool, true, ◌&&◌,
  &&_iff, ◌==◌, eq_iff, eq_refl, eqb, eqb_of_eq, eq_of_eqb, length, length-map, All, Result, ok,
  err, ◌>>=◌, ◌>>◌, require, ok_inj, subst,
}
use colloq.Project.{Endpoint}
use colloq.Validate.Spec.{IsNodup}
use colloq.Plan.Wire.{
  PlanError, WireOperation, data_, select, cancel, WireTransition, CompactWirePlan,
  derive_wire_plan, identity_mismatch,
}
use colloq.Plan.Identity.{valid_id, valid_sha256}
use colloq.Plan.Verify.{
  ColloqPlan, SemanticPlan, plan_format, equal_operation, same_transitions, same_wire, verify_wire,
  calculate_identity, verify,
}
use colloq.Codec.{Bytes, Serializer}
use package.colloq.Plan.Checked.{
  EndpointOk, Canonical, require_iff, then_iff, eqb_iff, distinct_iff, verify_endpoints_iff,
}

three : (a b c : Bool) → (a && b && c) ≡ true → (a ≡ true) × (b ≡ true) × (c ≡ true)
three a b c h = let (p, r) = (&&_iff (a && b) c).0 h in let (p, q) = (&&_iff a b).0 p in (p, q, r)

-- The derived equality tests decide equality.
same_operation_eq : (o p : WireOperation) → equal_operation o p ≡ true → o ≡ p
same_operation_eq (data_ f t m) (data_ f' t' m') h =
    let (p, q, r) = three (f == f') (t == t') (m == m') h in
    λ i. data_ ((eq_iff f f').0 p i) ((eq_iff t t').0 q i) ((eq_iff m m').0 r i)
same_operation_eq (select b l) (select b' l') h =
    let (p, q) = (&&_iff (b == b') (l == l')).0 h in
    λ i. select ((eq_iff b b').0 p i) ((eq_iff l l').0 q i)
same_operation_eq (cancel f t m) (cancel f' t' m') h =
    let (p, q, r) = three (f == f') (t == t') (m == m') h in
    λ i. cancel ((eq_iff f f').0 p i) ((eq_iff t t').0 q i) ((eq_iff m m').0 r i)
same_operation_eq (data_ f t m) (select b l) h = cc
same_operation_eq (data_ f t m) (cancel f' t' m') h = cc
same_operation_eq (select b l) (data_ f t m) h = cc
same_operation_eq (select b l) (cancel f t m) h = cc
same_operation_eq (cancel f t m) (data_ f' t' m') h = cc
same_operation_eq (cancel f t m) (select b l) h = cc

same_operation_refl : (o : WireOperation) → equal_operation o o ≡ true
same_operation_refl (data_ f t m) = rw (eq_refl f, eq_refl t, eq_refl m) refl
same_operation_refl (select b l) = rw (eq_refl b, eq_refl l) refl
same_operation_refl (cancel f t m) = rw (eq_refl f, eq_refl t, eq_refl m) refl

same_transitions_eq : (ts us : List WireTransition) → same_transitions ts us ≡ true → ts ≡ us
same_transitions_eq [] [] h = refl
same_transitions_eq [] (u ∷ us) h = cc
same_transitions_eq (t ∷ ts) [] h = cc
same_transitions_eq (t ∷ ts) (u ∷ us) h =
    let (head, rest) =
      (&&_iff (eqb t.id u.id && t.state == u.state && equal_operation t.operation u.operation)
          (same_transitions ts us)).0
        h in
    let (i, s, o) =
      three (eqb t.id u.id) (t.state == u.state) (equal_operation t.operation u.operation) head in
    λ j.
      record {
        id = eq_of_eqb {a = t.id} {b = u.id} i j;
        state = (eq_iff t.state u.state).0 s j;
        operation = same_operation_eq t.operation u.operation o j;
      }
      ∷ same_transitions_eq ts us rest j

same_transitions_refl : (ts : List WireTransition) → same_transitions ts ts ≡ true
same_transitions_refl [] = refl
same_transitions_refl (t ∷ ts) =
    rw
      (
        eqb_of_eq {a = t.id} {b = t.id} refl,
        eq_refl t.state,
        same_operation_refl t.operation,
        same_transitions_refl ts,
      )
      refl

same_wire_iff : (w v : CompactWirePlan) → (same_wire w v ≡ true) ↔ (w ≡ v)
unfolding same_wire
same_wire_iff w v = (
  λ h.
      let (e, t) =
        (&&_iff (w.encoding == v.encoding) (same_transitions w.transitions v.transitions)).0 h in
      λ i. record {
        encoding = (eq_iff w.encoding v.encoding).0 e i;
        transitions = same_transitions_eq w.transitions v.transitions t i;
      },
  λ p.
      subst
        (λ (u : CompactWirePlan).
          (w.encoding == u.encoding && same_transitions w.transitions u.transitions) ≡ true)
        p (rw (eq_refl w.encoding, same_transitions_refl w.transitions) refl),
)

-- A chain that returns: its first link returns, and the rest for what it returns.
bind_iff {ℓ κ} :
    {E : Type ℓ} {A : Type κ} (r : Result E A) (f : A → Result E (Unit {0}))
    → ((r >>= f) ≡ ok tt) ↔ ((a : A) × (r ≡ ok a) × (f a ≡ ok tt))
bind_iff (ok a) f = (λ h. (a, refl, h), λ (b, p, q). subst (λ c. f c ≡ ok tt) (sym (ok_inj p)) q)
bind_iff (err e) f = (λ h. absurd (cc h), λ (b, p, q). absurd (cc p))

verify_wire_iff :
    (wire : Option CompactWirePlan) (es : List Endpoint)
    → (verify_wire wire es ≡ ok tt) ↔ Canonical wire es
unfolding verify_wire
verify_wire_iff none es = (λ h. tt, λ u. refl)
verify_wire_iff (some w) es = iff_trans (bind_iff (derive_wire_plan es) _) (
  λ (v, p, q). p ∙ ap ok (sym ((require_iff _ (same_wire_iff w v)).0 q)),
  λ h. (w, h, (require_iff _ (same_wire_iff w w)).1 refl),
)

module _ (json : Serializer SemanticPlan) (sha256 : Bytes → Bytes) (p : ColloqPlan) where
  -- A plan of this version has a valid name and identity, two endpoints of different roles,
  -- each of them fit, the identity that its contents give, and the dictionary of its endpoints.
  pub record IsPlan : Type 0 where
    pub format : p.colloq_plan ≡ plan_format
    pub named : valid_id p.conversation ≡ true
    pub identified : valid_sha256 p.conversation_identity ≡ true
    pub two : length p.endpoints ≡ 2
    pub roles : IsNodup (map (λ e. e.role) p.endpoints)
    pub endpoints : All (EndpointOk p.conversation (map (λ e. e.role) p.endpoints)) p.endpoints
    pub identity : calculate_identity json sha256 p ≡ ok p.plan_identity
    pub wire : Canonical p.wire p.endpoints

  identity_iff :
      {Q : Type 0} {s : Result PlanError (Unit {0})}
      → (s ≡ ok tt) ↔ Q
      → ((do
        calculated ← calculate_identity json sha256 p
        require (p.plan_identity == calculated) (identity_mismatch p.plan_identity calculated)
        s)
          ≡ ok tt)
        ↔ ((calculate_identity json sha256 p ≡ ok p.plan_identity) × Q)
  identity_iff f = iff_trans (bind_iff (calculate_identity json sha256 p) _) (
    λ (c, e, h).
        let (same, q) = (then_iff (require_iff _ (eq_iff p.plan_identity c)) f).0 h in
        (e ∙ ap ok (sym same), q),
    λ (e, q). (
      p.plan_identity,
      e,
      (then_iff (require_iff _ (eq_iff p.plan_identity p.plan_identity)) f).1 (refl, q),
    ),
  )

  -- `ColloqPlan::verify` accepts a plan just when the plan is well formed in the sense of
  -- `IsPlan`: the version is supported, the names are identifiers, there are two endpoints of
  -- different roles, each leads only to its own states and names only roles of the plan, the
  -- identity is the one that the contents give, and a dictionary is the one that the endpoints
  -- give.
  pub verify_iff : (verify json sha256 p ≡ ok tt) ↔ IsPlan
  unfolding verify
  verify_iff =
      iff_trans
        (then_iff (require_iff _ (eq_iff p.colloq_plan plan_format)) (
          then_iff
            (require_iff _
              (&&_iff (valid_id p.conversation) (valid_sha256 p.conversation_identity)))
            (then_iff (require_iff _ (eqb_iff (length p.endpoints) 2)) (
              then_iff
                (require_iff _ (
                  distinct_iff (map (λ (e : Endpoint). e.role) p.endpoints) (length p.endpoints)
                    (length-map (λ (e : Endpoint). e.role) p.endpoints)))
                (then_iff
                  (verify_endpoints_iff p.endpoints p.conversation
                    (map (λ (e : Endpoint). e.role) p.endpoints))
                  (identity_iff (verify_wire_iff p.wire p.endpoints)))))))
        (
          λ (f, ((n, i), (t, (r, (es, (c, w)))))). record {
            format = f;
            named = n;
            identified = i;
            two = t;
            roles = r;
            endpoints = es;
            identity = c;
            wire = w;
          },
          λ h. (
            h.format,
            ((h.named, h.identified), (h.two, (h.roles, (h.endpoints, (h.identity, h.wire))))),
          ),
        )
