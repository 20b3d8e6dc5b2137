-- ===== src/Tests/Compile.antt =====
-- The plan of the small conversation, with a writer and a digest that are easy to compute.
use colloq.Prelude.{
  ℕ, ◌≤◌, ◌<◌, ◌%◌, String, ◌≡◌, ◌≢◌, ◌↔◌, refl, Option, some, none, List, [], ◌∷◌, Memᴰ, length,
  All, ok, eq_iff, arith,
}
use colloq.Conversation.{Conversation}
use colloq.Validate.Spec.{IsValid}
use colloq.Project.{project_validated, endpoint_for}
use colloq.Plan.Wire.{CompactWirePlan, derive_wire_plan, entries, max_transitions}
use colloq.Plan.Wire.Bounds.{derive_wire_plan_iff}
use colloq.Plan.Wire.Table.{IsTable}
use colloq.Plan.Identity.{IsDigest, conversation_identity, sha256_identity}
use colloq.Plan.Verify.{ColloqPlan, SemanticPlan, verify}
use colloq.Plan.Checked.Whole.{IsPlan, verify_iff}
use colloq.Plan.Compile.{compile, compile_prepared, prepare, sort_by_role, for_role}
use colloq.Plan.Compile.Endpoints.{IsNamed}
use colloq.Plan.Compile.Ready.{Writes}
use colloq.Plan.Compile.Succeeds.{compile_iff}
use colloq.Plan.Compile.Runs.{
  compile_prepared-Synced, prepare-compile, compile-metadata, Written, verify-same_identity,
}
use colloq.Machine.{Machine, PreparedPlan}
use colloq.Machine.Sync.{Synced}
use colloq.Codec.{Bytes, Serializer}
use package.colloq.Tests.Plans.{dictionary, derived}
use package.colloq.Tests.{talk, talk_ok}

-- 32 bytes, the first of which counts.
unfoldable sha256 : Bytes → Bytes
sha256 b =
    (length b % 256)
    ∷ 0
    ∷ 0
    ∷ 0
    ∷ 0
    ∷ 0
    ∷ 0
    ∷ 0
    ∷ 0
    ∷ 0
    ∷ 0
    ∷ 0
    ∷ 0
    ∷ 0
    ∷ 0
    ∷ 0
    ∷ 0
    ∷ 0
    ∷ 0
    ∷ 0
    ∷ 0
    ∷ 0
    ∷ 0
    ∷ 0
    ∷ 0
    ∷ 0
    ∷ 0
    ∷ 0
    ∷ 0
    ∷ 0
    ∷ 0
    ∷ 0
    ∷ []

sha256-IsDigest : (b : Bytes) → IsDigest (sha256 b)
unfolding sha256
sha256-IsDigest b = (refl, (omega arith, ground arith))

abbrev json : Serializer (Conversation ℕ)
json = record { to_vec = λ c. some (length c.states ∷ []); from_slice = λ b. none }

abbrev plan_json : Serializer SemanticPlan
plan_json = record { to_vec = λ p. some (length p.endpoints ∷ 7 ∷ []); from_slice = λ b. none }

json-Writes : Writes json
json-Writes c = (length c.states ∷ [], refl)

plan_json-Writes : Writes plan_json
plan_json-Writes p = (length p.endpoints ∷ 7 ∷ [], refl)

compile_iff_example :
    ((p : ColloqPlan) × (compile json plan_json sha256 talk ≡ ok p))
    ↔ (IsValid talk × IsNamed talk × (length (entries (project_validated talk)) ≤ max_transitions))
compile_iff_example =
    compile_iff json plan_json sha256 talk json-Writes plan_json-Writes sha256-IsDigest

derive_wire_plan_iff_example :
    ((w : CompactWirePlan) × (derive_wire_plan (project_validated talk) ≡ ok w))
    ↔ (length (entries (project_validated talk)) ≤ max_transitions)
derive_wire_plan_iff_example = derive_wire_plan_iff (project_validated talk)

talk-IsNamed : IsNamed talk
unfolding colloq.Plan.Identity.valid_id colloq.Conversation.id
talk-IsNamed = record {
  module_ = refl;
  roles = (refl, (refl, tt));
  states = (refl, (refl, (refl, (refl, tt))));
}

abbrev plan : ColloqPlan
plan = record {
  colloq_plan = "0.1.0";
  conversation = "talk";
  conversation_identity = "sha256:0100000000000000000000000000000000000000000000000000000000000000";
  plan_identity = "sha256:0200000000000000000000000000000000000000000000000000000000000000";
  endpoints = project_validated talk;
  wire = some dictionary;
}

abbrev prepared_plan : PreparedPlan
prepared_plan = record {
  conversation = plan.conversation;
  conversation_identity = plan.conversation_identity;
  plan_identity = plan.plan_identity;
  endpoints = plan.endpoints;
  wire = dictionary;
}

sorted : sort_by_role (project_validated talk) ≡ project_validated talk
unfolding sort_by_role project_validated colloq.Prelude.Sorting.sort_by colloq.Prelude.Sorting.put
sorted = refl

plan_verified : verify plan_json sha256 plan ≡ ok tt
unfolding verify colloq.Plan.Identity.valid_id colloq.Plan.Identity.valid_sha256
    colloq.Prelude.Text.strip_prefix project_validated colloq.Plan.Verify.collect
    colloq.Prelude.Sets.insert_all colloq.Prelude.Sets.insert colloq.Plan.Verify.verify_endpoint
    colloq.Project.id colloq.Project.project_state colloq.Prelude.Sets.contains
    colloq.Plan.Verify.verify_states colloq.Plan.Verify.verify_targets
    colloq.Plan.Verify.endpoint_successors colloq.Plan.Verify.verify_role
    colloq.Plan.Verify.endpoint_peer colloq.Plan.Verify.calculate_identity
    colloq.Plan.Identity.or_codec sha256_identity colloq.Prelude.Hex.encode_hex
    colloq.Plan.Verify.same_wire colloq.Plan.Verify.verify_endpoints colloq.Plan.Verify.verify_wire
    derive_wire_plan colloq.Plan.Wire.endpoint_entries entries colloq.Plan.Wire.number
    colloq.Plan.Wire.state_entries colloq.Prelude.Hex.hex_digit endpoint_for sha256
plan_verified = refl

compiled : compile json plan_json sha256 talk ≡ ok plan
unfolding compile colloq.Plan.Identity.or_diagnostics colloq.Plan.Compile.sealed
    colloq.Plan.Identity.conversation_identity_validated colloq.Plan.Identity.or_codec
    sha256_identity colloq.Plan.Verify.calculate_identity colloq.Prelude.Hex.encode_hex
    colloq.Prelude.Hex.hex_digit sha256
compiled = rw (talk_ok, sorted, derived, plan_verified) refl

compiled_prepared : compile_prepared json plan_json sha256 talk ≡ ok prepared_plan
unfolding compile_prepared colloq.Plan.Compile.prepared colloq.Plan.Compile.wire_or_derived
compiled_prepared = rw compiled refl

verify_iff_example : (verify plan_json sha256 plan ≡ ok tt) ↔ IsPlan plan_json sha256 plan
verify_iff_example = verify_iff plan_json sha256 plan

compile_prepared-Synced_example :
    IsTable (project_validated talk) prepared_plan.wire.transitions
    × ((x : Machine) × (y : Machine) × (for_role json plan_json sha256 talk "client" ≡ ok x)
        × (for_role json plan_json sha256 talk "server" ≡ ok y)
        × Synced talk "client" "server" x y
        × (x.current ≡ talk.initial)
        × (x.sequence ≡ 0))
compile_prepared-Synced_example =
    compile_prepared-Synced json plan_json sha256 talk prepared_plan "client" "server"
      compiled_prepared (Memᴰ.head refl) (Memᴰ.tail (Memᴰ.head refl))

prepare-compile_example :
    prepare plan_json sha256 plan ≡ compile_prepared json plan_json sha256 talk
prepare-compile_example = prepare-compile json plan_json sha256 talk plan compiled

compile-metadata_example :
    (compile json plan_json sha256
        (record talk { schema = some "other.json"; annotations = ("editor", 1) ∷ [] })
      ≡ compile json plan_json sha256 talk)
    × (conversation_identity json sha256
          (record talk { schema = some "other.json"; annotations = ("editor", 1) ∷ [] })
        ≡ conversation_identity json sha256 talk)
compile-metadata_example =
    compile-metadata json plan_json sha256 talk (some "other.json") (("editor", 1) ∷ [])

verify-same_identity_example :
    (x : Bytes) × (y : Bytes) × Written plan_json plan x
    × Written plan_json plan y
    × (sha256 x ≡ sha256 y)
verify-same_identity_example =
    verify-same_identity plan_json sha256 sha256-IsDigest plan plan plan_verified plan_verified refl
