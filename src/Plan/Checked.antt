-- ===== src/Plan/Checked.antt =====
-- What `ColloqPlan::verify` of src/plan.rs checks, said without sets or loops.
pub mod Whole
use colloq.Prelude.{
  ℕ, String, ◌≡◌, ◌≢◌, refl, sym, ap, ◌∙◌, ◌↔◌, iff_trans, Option, none, some, List, [], ◌∷◌, map,
  Bool, true, false, not, ◌&&◌, &&_iff, ◌==◌, eq_iff, eqb, eqb_of_eq, eq_of_eqb, length, length-map,
  All, Memᴰ, Result, ok, err, ◌>>◌, require, require-eq-ok, >>=-eq-ok, arith, not-Memᴰ-nil,
}
use colloq.Prelude.Sets.{StringSet, contains}
use colloq.Conversation.{endpoint_format}
use colloq.Project.{Endpoint, EndpointState, id}
use colloq.Validate.Spec.{IsNodup}
use colloq.Plan.Wire.{
  PlanError, invalid, Reason, WireOperation, data_, select, cancel, WireTransition, CompactWirePlan,
  derive_wire_plan,
}
use colloq.Plan.Identity.{valid_id, valid_sha256}
use colloq.Plan.Verify.{
  ColloqPlan, SemanticPlan, plan_format, endpoint_successors, endpoint_peer, is_empty, collect,
  verify_targets, verify_role, verify_states, verify_endpoint, verify_endpoints, equal_operation,
  same_transitions, same_wire, verify_wire, calculate_identity, verify,
}
use colloq.Plan.Distinct.{length-collect_iff, contains-collect_iff}
use colloq.Codec.{Bytes, Serializer}

-- The peer that a state names, if any, is a role.
abbrev pub PeerOk : List String → Option String → Type 0
PeerOk roles none = Unit
PeerOk roles (some peer) = Memᴰ peer roles

-- A state has a valid identifier, leads to states of the endpoint, and names a role of the plan.
pub record StateOk (roles ids : List String) (s : EndpointState) : Type 0 where
  pub named : valid_id (id s) ≡ true
  pub targets : All (λ t. Memᴰ t ids) (endpoint_successors s)
  pub peer : PeerOk roles (endpoint_peer s)

pub record EndpointOk (conversation : String) (roles : List String) (e : Endpoint) : Type 0 where
  pub format : e.colloq_endpoint ≡ endpoint_format
  pub named : valid_id e.role ≡ true
  pub starts : valid_id e.initial ≡ true
  pub same : e.conversation ≡ conversation
  pub distinct : IsNodup (map id e.states)
  pub initial : Memᴰ e.initial (map id e.states)
  pub states : All (StateOk roles (map id e.states)) e.states

-- The dictionary, if there is one, is the one that the endpoints give.
abbrev pub Canonical : Option CompactWirePlan → List Endpoint → Type 0
Canonical none endpoints = Unit
Canonical (some wire) endpoints = derive_wire_plan endpoints ≡ ok wire

-- A step of a chain that is a test, and its condition.
pub require_iff {ℓ κ} :
    {E : Type ℓ} {P : Type κ} {b : Bool} (e : E) → (b ≡ true) ↔ P → (require b e ≡ ok tt) ↔ P
require_iff {b = true} e f = (λ h. f.0 refl, λ p. refl)
require_iff {b = false} e f = (λ h. absurd (cc h), λ p. absurd (cc (f.1 p)))

pub then_iff {ℓ κ μ} :
    {E : Type ℓ} {P : Type κ} {Q : Type μ} {r s : Result E (Unit {0})}
    → (r ≡ ok tt) ↔ P
    → (s ≡ ok tt) ↔ Q
    → ((r >> s) ≡ ok tt) ↔ (P × Q)
then_iff {r = ok u} f g = (λ h. (f.0 refl, g.0 h), λ p. g.1 p.1)
then_iff {r = err e} f g = (λ h. absurd (cc h), λ p. absurd (cc (f.1 p.0)))

module _ (roles ids : List String) where
  verify_targets_iff :
      (ts : List String) → (verify_targets (collect ids) ts ≡ ok tt) ↔ All (λ t. Memᴰ t ids) ts
  unfolding verify_targets
  verify_targets_iff [] = (λ h. tt, λ u. refl)
  verify_targets_iff (t ∷ ts) =
      then_iff (require_iff _ (contains-collect_iff t ids)) (verify_targets_iff ts)

  verify_role_iff : (o : Option String) → (verify_role (collect roles) o ≡ ok tt) ↔ PeerOk roles o
  unfolding verify_role
  verify_role_iff none = (λ h. tt, λ u. refl)
  verify_role_iff (some peer) = require_iff _ (contains-collect_iff peer roles)

  true_iff : (b : Bool) → (b ≡ true) ↔ (b ≡ true)
  true_iff b = (λ h. h, λ h. h)

  verify_states_iff :
      (ss : List EndpointState)
      → (verify_states (collect roles) (collect ids) ss ≡ ok tt) ↔ All (StateOk roles ids) ss
  unfolding verify_states
  verify_states_iff [] = (λ h. tt, λ u. refl)
  verify_states_iff (s ∷ ss) =
      iff_trans
        (then_iff (require_iff _ (true_iff (valid_id (id s)))) (
          then_iff (verify_targets_iff (endpoint_successors s))
            (then_iff (verify_role_iff (endpoint_peer s)) (verify_states_iff ss))))
        (
          λ (n, (t, (p, r))). (record { named = n; targets = t; peer = p }, r),
          λ (s, r). (s.named, (s.targets, (s.peer, r))),
        )

eqb_iff : (a b : ℕ) → (eqb a b ≡ true) ↔ (a ≡ b)
eqb_iff a b = (eq_of_eqb, eqb_of_eq)

-- An endpoint with an initial state has a state.
not-empty : (ss : List EndpointState) {i : String} → Memᴰ i (map id ss) → not (is_empty ss) ≡ true
not-empty [] m = absurd (not-Memᴰ-nil m)
not-empty (s ∷ ss) m = refl

distinct_iff :
    (ids : List String) (n : ℕ)
    → length ids ≡ n
    → (eqb (length (collect ids)) n ≡ true) ↔ IsNodup ids
distinct_iff ids n e =
    iff_trans (eqb_iff (length (collect ids)) n)
      (iff_trans (λ h. h ∙ sym e, λ h. h ∙ e) (length-collect_iff ids))

verify_endpoint_iff :
    (e : Endpoint) (conversation : String) (roles : List String)
    → (verify_endpoint e conversation (collect roles) ≡ ok tt) ↔ EndpointOk conversation roles e
unfolding verify_endpoint
verify_endpoint_iff e conversation roles =
    iff_trans
      (then_iff (require_iff _ (eq_iff e.colloq_endpoint endpoint_format)) (
        then_iff (require_iff _ (&&_iff (valid_id e.role) (valid_id e.initial))) (
          then_iff (require_iff _ (eq_iff e.conversation conversation)) (
            then_iff (require_iff _ (true_iff [] [] (not (is_empty e.states)))) (
              then_iff
                (require_iff _
                  (distinct_iff (map id e.states) (length e.states) (length-map id e.states)))
                (then_iff (require_iff _ (contains-collect_iff e.initial (map id e.states)))
                  (verify_states_iff roles (map id e.states) e.states)))))))
      (
        λ (f, ((n, s), (c, (_, (d, (i, ss)))))). record {
          format = f;
          named = n;
          starts = s;
          same = c;
          distinct = d;
          initial = i;
          states = ss;
        },
        λ e'. (
          e'.format,
          (
            (e'.named, e'.starts),
            (e'.same, (not-empty e.states e'.initial, (e'.distinct, (e'.initial, e'.states)))),
          ),
        ),
      )

verify_endpoints_iff :
    (es : List Endpoint) (conversation : String) (roles : List String)
    → (verify_endpoints es conversation (collect roles) ≡ ok tt)
      ↔ All (EndpointOk conversation roles) es
unfolding verify_endpoints
verify_endpoints_iff [] conversation roles = (λ h. tt, λ u. refl)
verify_endpoints_iff (e ∷ es) conversation roles =
    then_iff (verify_endpoint_iff e conversation roles) (verify_endpoints_iff es conversation roles)
