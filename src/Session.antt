-- ===== src/Session.antt =====
-- The session preface of src/runtime.rs, which two network peers compare before any frame.
use colloq.Prelude.{
  String, ◌≡◌, ◌≢◌, refl, sym, ap, ◌∙◌, Option, none, some, true, not, ◌==◌, Result, ok, err, ◌>>◌,
  require, >>=-eq-ok, require-eq-ok, eq_iff, ◌↔◌, Option-cases, inl, inr, ok≢err, ok_inj, arith,
}
use colloq.Project.{Endpoint}
use colloq.Runtime.Error.{RuntimeError, unknown_role, session_mismatch}
use colloq.Machine.{PreparedPlan, endpoint}
use colloq.Codec.{WireEncoding, EnvelopeCodec, require_session_field, verify_plan}

abbrev pub session_format : String
session_format = "0.1.0"

-- `WireEncoding::as_str`
unfoldable pub encoding_name : WireEncoding → String
encoding_name WireEncoding.reference = "reference"
encoding_name WireEncoding.compact = "compact"

-- `EnvelopeCodec::encoding`
unfoldable pub encoding : EnvelopeCodec → WireEncoding
encoding EnvelopeCodec.reference = WireEncoding.reference
encoding (EnvelopeCodec.compact c) = WireEncoding.compact

pub record SessionPreface : Type 0 where
  pub colloq_session : String
  pub conversation : String
  pub conversation_identity : String
  pub plan_identity : String
  pub role : String
  pub wire : WireEncoding
  pub endpoint_identity : Option String
  pub channel_binding : Option String

-- `plan.endpoint(role).is_none()` and the early return.
has_endpoint : PreparedPlan → String → Option Endpoint → Result RuntimeError (Unit {0})
has_endpoint p role none = err (unknown_role role)
has_endpoint p role (some e) = ok tt

unfoldable pub require_endpoint : PreparedPlan → String → Result RuntimeError (Unit {0})
unfolding has_endpoint
require_endpoint p role = has_endpoint p role (endpoint p role)

-- `SessionPreface::for_plan`
unfoldable pub preface_for :
    PreparedPlan → String → WireEncoding → Result RuntimeError SessionPreface
preface_for p role wire = do
  require_endpoint p role
  ok (record {
    colloq_session = session_format;
    conversation = p.conversation;
    conversation_identity = p.conversation_identity;
    plan_identity = p.plan_identity;
    role = role;
    wire = wire;
    endpoint_identity = none;
    channel_binding = none;
  })

-- `SessionPreface::verify_peer`
unfoldable pub verify_peer :
    SessionPreface → PreparedPlan → String → WireEncoding → Result RuntimeError (Unit {0})
verify_peer s p expected_role expected_wire = do
  require_endpoint p expected_role
  require_session_field "colloq_session" session_format s.colloq_session
  require_session_field "conversation" p.conversation s.conversation
  require_session_field "conversation_identity" p.conversation_identity s.conversation_identity
  require_session_field "plan_identity" p.plan_identity s.plan_identity
  require_session_field "role" expected_role s.role
  require_session_field "wire" (encoding_name expected_wire) (encoding_name s.wire)

unfoldable pub local_session_preface :
    EnvelopeCodec → PreparedPlan → String → String → Result RuntimeError SessionPreface
local_session_preface codec p local_role peer_role = do
  verify_plan codec p
  require_endpoint p peer_role
  require (not (local_role == peer_role))
      (session_mismatch "role_pair" "distinct local and peer roles" local_role)
  preface_for p local_role (encoding codec)

-- What the fields of a preface have to be.
pub record Agrees (s : SessionPreface) (p : PreparedPlan) (role : String) (wire : WireEncoding)
    : Type 0 where
  pub known : (e : Endpoint) × (endpoint p role ≡ some e)
  pub version : s.colloq_session ≡ session_format
  pub conversation : s.conversation ≡ p.conversation
  pub identity : s.conversation_identity ≡ p.conversation_identity
  pub plan : s.plan_identity ≡ p.plan_identity
  pub same_role : s.role ≡ role
  pub same_wire : s.wire ≡ wire

field-ok :
    (name expected actual : String) {u : Unit {0}}
    → require_session_field name expected actual ≡ ok u
    → actual ≡ expected
unfolding require_session_field
field-ok name expected actual h = sym ((eq_iff expected actual).0 (require-eq-ok _ _ h))

field-same :
    (name : String) {expected actual : String}
    → actual ≡ expected
    → require_session_field name expected actual ≡ ok tt
unfolding require_session_field
field-same name {expected} {actual} h = rw ((eq_iff expected actual).1 (sym h)) refl

endpoint-ok :
    (p : PreparedPlan) (role : String) {u : Unit {0}}
    → require_endpoint p role ≡ ok u
    → (e : Endpoint) × (endpoint p role ≡ some e)
unfolding require_endpoint has_endpoint
endpoint-ok p role h = elim (Option-cases (endpoint p role)) [
  | inl e ↦ absurd (ok≢err (sym (rw e at h)))
  | inr w ↦ w
]

endpoint-known :
    (p : PreparedPlan) (role : String) {e : Endpoint}
    → endpoint p role ≡ some e
    → require_endpoint p role ≡ ok tt
unfolding require_endpoint has_endpoint
endpoint-known p role h = rw h refl

encoding_name_inj : (a b : WireEncoding) → encoding_name a ≡ encoding_name b → a ≡ b
unfolding encoding_name
encoding_name_inj WireEncoding.reference WireEncoding.reference h = refl
encoding_name_inj WireEncoding.reference WireEncoding.compact h =
    absurd (cc ((eq_iff "reference" "compact").1 h))
encoding_name_inj WireEncoding.compact WireEncoding.reference h =
    absurd (cc ((eq_iff "compact" "reference").1 h))
encoding_name_inj WireEncoding.compact WireEncoding.compact h = refl

-- `verify_peer` accepts a preface for a plan, a role and an encoding just when the plan has the
-- role, the preface has the session version, and its conversation, identities, role and encoding
-- are those expected.
pub verify_peer_iff :
    (s : SessionPreface) (p : PreparedPlan) (role : String) (wire : WireEncoding)
    → (verify_peer s p role wire ≡ ok tt) ↔ Agrees s p role wire
unfolding verify_peer
verify_peer_iff s p role wire = (
  λ h.
      let (u0, h0, r0) = >>=-eq-ok (require_endpoint p role) _ h in
      let (u1, h1, r1) =
        >>=-eq-ok (require_session_field "colloq_session" session_format s.colloq_session) _ r0 in
      let (u2, h2, r2) =
        >>=-eq-ok (require_session_field "conversation" p.conversation s.conversation) _ r1 in
      let (u3, h3, r3) =
        >>=-eq-ok
          (require_session_field "conversation_identity" p.conversation_identity
            s.conversation_identity)
          _ r2 in
      let (u4, h4, r4) =
        >>=-eq-ok (require_session_field "plan_identity" p.plan_identity s.plan_identity) _ r3 in
      let (u5, h5, r5) = >>=-eq-ok (require_session_field "role" role s.role) _ r4 in
      record {
        known = endpoint-ok p role h0;
        version = field-ok _ _ _ h1;
        conversation = field-ok _ _ _ h2;
        identity = field-ok _ _ _ h3;
        plan = field-ok _ _ _ h4;
        same_role = field-ok _ _ _ h5;
        same_wire = encoding_name_inj s.wire wire (field-ok _ _ _ r5);
      },
  λ a.
      rw
        (
          endpoint-known p role a.known.1,
          field-same "colloq_session" a.version,
          field-same "conversation" a.conversation,
          field-same "conversation_identity" a.identity,
          field-same "plan_identity" a.plan,
          field-same "role" a.same_role,
          field-same "wire" (ap encoding_name a.same_wire),
        )
        refl,
)

local_session_preface-ok :
    (k : EnvelopeCodec) (p : PreparedPlan) (a b : String) (s : SessionPreface)
    → local_session_preface k p a b ≡ ok s
    → (a ≢ b) × (preface_for p a (encoding k) ≡ ok s)
unfolding local_session_preface
local_session_preface-ok k p a b s h =
    let (u0, h0, r0) = >>=-eq-ok (verify_plan k p) _ h in
    let (u1, h1, r1) = >>=-eq-ok (require_endpoint p b) _ r0 in
    let (u2, h2, r2) = >>=-eq-ok (require (not (a == b)) _) _ r1 in
    let apart : not (a == b) ≡ true = require-eq-ok _ _ h2 in (λ e. ground (arith, eq_iff a b), r2)

-- What two peers have in common: the plan of the one that verifies has the role, and the two
-- plans and encodings are the same by their identifiers and names.
pub record Shares (p q : PreparedPlan) (role : String) (sent wire : WireEncoding) : Type 0 where
  pub known : (e : Endpoint) × (endpoint q role ≡ some e)
  pub conversation : p.conversation ≡ q.conversation
  pub identity : p.conversation_identity ≡ q.conversation_identity
  pub plan : p.plan_identity ≡ q.plan_identity
  pub same_wire : sent ≡ wire

-- When `local_session_preface` returns a preface for a role and a peer role, the two roles
-- differ, and `verify_peer` accepts the preface for that role with another plan and an encoding
-- just when that plan has the role and the two sides have the same conversation, conversation
-- identity, plan identity and encoding.
pub session_iff :
    (k : EnvelopeCodec) (p q : PreparedPlan) (a b : String) (s : SessionPreface) (w : WireEncoding)
    → local_session_preface k p a b ≡ ok s
    → (a ≢ b) × ((verify_peer s q a w ≡ ok tt) ↔ Shares p q a (encoding k) w)
unfolding preface_for
session_iff k p q a b s w h =
    let (ne, made) = local_session_preface-ok k p a b s h in
    let (u, _, r) = >>=-eq-ok (require_endpoint p a) _ made in
    let same = ok_inj r in
    (
      ne,
      (
        λ e.
            let g = (verify_peer_iff s q a w).0 e in
            record {
              known = g.known;
              conversation = ap (λ t. t.conversation) same ∙ g.conversation;
              identity = ap (λ t. t.conversation_identity) same ∙ g.identity;
              plan = ap (λ t. t.plan_identity) same ∙ g.plan;
              same_wire = ap (λ t. t.wire) same ∙ g.same_wire;
            },
        λ g. (verify_peer_iff s q a w).1 (record {
          known = g.known;
          version = ap (λ t. t.colloq_session) (sym same);
          conversation = ap (λ t. t.conversation) (sym same) ∙ g.conversation;
          identity = ap (λ t. t.conversation_identity) (sym same) ∙ g.identity;
          plan = ap (λ t. t.plan_identity) (sym same) ∙ g.plan;
          same_role = ap (λ t. t.role) (sym same);
          same_wire = ap (λ t. t.wire) (sym same) ∙ g.same_wire;
        }),
      ),
    )
