-- ===== src/Plan/Compile.antt =====
-- `ColloqPlan::compile`, `prepare` and `PreparedPlan::compile` of src/plan.rs, and
-- `EndpointMachine::for_role` of src/runtime.rs.
pub mod Endpoints
pub mod Sorted
pub mod Ready
pub mod Succeeds
pub mod Runs
use Prim.Native.String.{compare}
use colloq.Prelude.{
  String, Option, none, some, List, [], ◌∷◌, ◌==◌, find?, Result, ok, err, ◌>>=◌, ◌>>◌, Ordering,
}
use colloq.Prelude.Sorting.{sort_by}
use colloq.Conversation.{Conversation}
use colloq.Validate.{validate}
use colloq.Project.{Endpoint, project_validated}
use colloq.Plan.Wire.{PlanError, CompactWirePlan, derive_wire_plan}
use colloq.Plan.Identity.{or_diagnostics, conversation_identity_validated}
use colloq.Plan.Verify.{ColloqPlan, SemanticPlan, plan_format, calculate_identity, verify}
use colloq.Runtime.Error.{RuntimeError, plan}
use colloq.Machine.{Machine, PreparedPlan, from_plan}
use colloq.Codec.{Bytes, Serializer}

-- `sort_by` with the order of the roles.
unfoldable pub sort_by_role : List Endpoint → List Endpoint
sort_by_role es = sort_by (λ x y. compare x.role y.role) es

-- `ColloqPlan::endpoint`
unfoldable pub plan_endpoint : ColloqPlan → String → Option Endpoint
plan_endpoint p role = find? (λ e. e.role == role) p.endpoints

unfoldable pub wire_or_derived :
    Option CompactWirePlan → List Endpoint → Result PlanError CompactWirePlan
wire_or_derived none endpoints = derive_wire_plan endpoints
wire_or_derived (some wire) endpoints = ok wire

-- `ColloqPlan::prepared`
unfoldable pub prepared : ColloqPlan → Result PlanError PreparedPlan
prepared p = do
  wire ← wire_or_derived p.wire p.endpoints
  ok (record {
    conversation = p.conversation;
    conversation_identity = p.conversation_identity;
    plan_identity = p.plan_identity;
    endpoints = p.endpoints;
    wire = wire;
  })

-- `#[from] PlanError`
abbrev pub or_plan {ℓ} : {A : Type ℓ} → Result PlanError A → Result RuntimeError A
or_plan (ok a) = ok a
or_plan (err e) = err (plan e)

module _ (plan_json : Serializer SemanticPlan) (sha256 : Bytes → Bytes) where
  -- `ColloqPlan::prepare`
  unfoldable pub prepare : ColloqPlan → Result PlanError PreparedPlan
  prepare p = do verify plan_json sha256 p; prepared p

  -- A plan gets its identity, and is verified.
  unfoldable pub sealed : ColloqPlan → Result PlanError ColloqPlan
  sealed p = do
    identity ← calculate_identity plan_json sha256 p
    verify plan_json sha256 (record p { plan_identity = identity })
    ok (record p { plan_identity = identity })

module _ {ℓ} {V : Type ℓ} (json : Serializer (Conversation V)) (plan_json : Serializer SemanticPlan)
    (sha256 : Bytes → Bytes) where
  -- `ColloqPlan::compile`
  unfoldable pub compile : Conversation V → Result PlanError ColloqPlan
  unfolding sealed sort_by_role
  compile c = do
    or_diagnostics (validate c)
    identity ← conversation_identity_validated json sha256 c
    wire ← derive_wire_plan (sort_by_role (project_validated c))
    sealed plan_json sha256 (record {
      colloq_plan = plan_format;
      conversation = c.module_.id;
      conversation_identity = identity;
      plan_identity = "";
      endpoints = sort_by_role (project_validated c);
      wire = some wire;
    })

  -- `PreparedPlan::compile`
  unfoldable pub compile_prepared : Conversation V → Result PlanError PreparedPlan
  compile_prepared c = do p ← compile c; prepared p

  -- `EndpointMachine::for_role`
  unfoldable pub for_role : Conversation V → String → Result RuntimeError Machine
  for_role c role = do p ← or_plan (compile_prepared c); from_plan p role
