-- ===== src/Tests/Drives.antt =====
-- The client and the server of the generation, each with a peer that keeps to a script.
use colloq.Prelude.{
  ℕ, ◌%◌, String, All-Memᴰ, Memᴰ, some_inj, subst, sym, ◌≡◌, ◌≤◌, ◌<◌, refl, arith, Option, none,
  some, List, [], ◌∷◌, true, false, ◌==◌, if◌then◌else◌, length, Result, ok, err,
}
use colloq.Prelude.Maps.{Map, lookup}
use colloq.Conversation
use colloq.Conversation.{Conversation, GlobalState}
use colloq.Validate.Spec.{IsValid}
use colloq.Plan.Verify.{SemanticPlan}
use colloq.Machine.{WireEnvelope}
use colloq.Runtime.Error.{RuntimeError}
use colloq.Drive.{Payloads}
use colloq.Drive.Report.{ExecutionReport, run_generate_client, run_generate_server}
use colloq.Drive.Ends.{Drains}
use colloq.Drive.Bounded.{Closes}
use colloq.Drive.Halts.{Returns, run_generate_client-Returns, run_generate_server-Returns}
use colloq.Drive.Verified.{Verified, run_generate_client-Verified, run_generate_server-Verified}
use package.colloq.Tests.Generation.{
  Value, field_of, u64_of, str_of, values, decide_state, act_state, generate, sha256, json,
  plan_json, frames_json, Script, next, script, identity, envelope, prompt, token, select, cancel,
  trace, for_client, text, number, object,
}

abbrev client_run : Result RuntimeError (Option (ExecutionReport Value)) × Script
client_run =
    run_generate_client json plan_json frames_json sha256 script values 5 generate for_client "hi"
      (some 2)

abbrev client_report : ExecutionReport Value
client_report = record {
  role = "client";
  transport = "script";
  conversation = "generate";
  conversation_identity = identity;
  plan_identity = "sha256:0200000000000000000000000000000000000000000000000000000000000000";
  semantic_trace_identity =
      "sha256:0100000000000000000000000000000000000000000000000000000000000000";
  frames = 8;
  tokens = 1 ∷ 2 ∷ [];
  completed = true;
  successful = true;
  failure = none;
  final_state = "end";
  semantic_trace = trace;
}

client_returns : client_run ≡ (ok (some client_report), [])
unfolding run_generate_client colloq.Validate.validate colloq.Validate.diagnostics
    colloq.Validate.declaration_diagnostics colloq.Validate.unique_ids colloq.Prelude.Sets.contains
    colloq.Prelude.Sets.add colloq.Validate.type_kinds colloq.Prelude.Maps.contains_key
    colloq.Validate.index_states colloq.Prelude.Maps.insert colloq.Conversation.id
    colloq.Validate.names colloq.Validate.validate_states colloq.Prelude.Maps.lookup
    colloq.Validate.Reachability.validate_reachability colloq.Validate.Reachability.unreachable
    colloq.Validate.Reachability.search colloq.Validate.Reachability.explore
    colloq.Conversation.is_terminal colloq.Conversation.successors colloq.Prelude.Sets.insert
    colloq.Validate.Reachability.edge_count colloq.Validate.Reachability.visit
    colloq.Validate.validate_branches colloq.Validate.validate_failure_edges
    colloq.Validate.validate_roles colloq.Validate.validate_state colloq.Validate.validate_target
    colloq.Plan.Verify.verify colloq.Plan.Identity.valid_id colloq.Plan.Identity.valid_sha256
    colloq.Prelude.Text.strip_prefix colloq.Project.project_validated colloq.Plan.Verify.collect
    colloq.Prelude.Sets.insert_all colloq.Plan.Verify.verify_endpoint colloq.Project.id
    colloq.Project.project_state colloq.Plan.Verify.verify_states colloq.Plan.Verify.verify_targets
    colloq.Plan.Verify.endpoint_successors colloq.Plan.Verify.verify_role
    colloq.Plan.Verify.endpoint_peer colloq.Plan.Verify.calculate_identity
    colloq.Plan.Identity.or_codec colloq.Plan.Identity.sha256_identity colloq.Prelude.Hex.encode_hex
    colloq.Plan.Verify.same_wire colloq.Plan.Verify.verify_endpoints colloq.Plan.Verify.verify_wire
    colloq.Plan.Wire.derive_wire_plan colloq.Plan.Wire.endpoint_entries colloq.Plan.Wire.entries
    colloq.Plan.Wire.number colloq.Plan.Wire.state_entries colloq.Prelude.Hex.hex_digit
    colloq.Project.endpoint_for sha256 colloq.Plan.Compile.compile
    colloq.Plan.Identity.or_diagnostics colloq.Plan.Compile.sealed
    colloq.Plan.Identity.conversation_identity_validated colloq.Plan.Compile.sort_by_role
    colloq.Prelude.Sorting.sort_by colloq.Prelude.Sorting.put colloq.Plan.Compile.compile_prepared
    colloq.Plan.Compile.prepared colloq.Plan.Compile.wire_or_derived colloq.Drive.Report.with_plan
    colloq.Drive.Report.run_generate_client_plan colloq.Drive.Report.drive
    colloq.Drive.Report.is_zero colloq.Drive.Report.outcome_of colloq.Drive.Report.report
    colloq.Drive.Report.trace_identity colloq.Drive.Client.client_main
    colloq.Drive.Client.client_rest colloq.Drive.Client.client_round
    colloq.Drive.Client.client_frame colloq.Drive.Client.client_token colloq.Drive.Client.reached
    colloq.Drive.Client.answer_token colloq.Drive.Client.loop_and_finish
    colloq.Drive.Client.finished colloq.Drive.emit_and_send colloq.Drive.on_machine
    colloq.Drive.send_and_record colloq.Drive.receive_and_record colloq.Drive.while_incomplete
    colloq.Drive.finish_if_successful colloq.Drive.token_payload colloq.Machine.from_plan
    colloq.Machine.endpoint colloq.Machine.emit_data colloq.Machine.emit_select
    colloq.Machine.emit_cancel colloq.Machine.accept colloq.Machine.is_complete
    colloq.Machine.is_successful colloq.Machine.failure colloq.Machine.state colloq.Machine.state_at
    colloq.Machine.emit colloq.Machine.next_sequence colloq.Machine.validate_envelope
    colloq.Machine.accepts colloq.Tests.Generation.next colloq.Tests.Generation.field_of
    colloq.Tests.Generation.u64_of
client_returns = refl

run_generate_client-Verified_example : IsValid generate × Verified generate client_report
run_generate_client-Verified_example =
    run_generate_client-Verified json plan_json frames_json sha256 script values 5 generate
      for_client [] "hi" (some 2) client_report client_returns

abbrev for_server : Script
for_server = envelope "start" 0 prompt ∷ envelope "act" 3 (select "client" "continue") ∷ []

abbrev server_run : Result RuntimeError (Option (ExecutionReport Value)) × Script
server_run =
    run_generate_server json plan_json frames_json sha256 script values 3 generate for_server 1

abbrev server_report : ExecutionReport Value
server_report = record client_report {
  role = "server";
  frames = 5;
  tokens = 1 ∷ [];
  semantic_trace =
      prompt
      ∷ select "server" "token"
      ∷ token 1
      ∷ select "client" "continue"
      ∷ select "server" "done"
      ∷ [];
}

server_returns : server_run ≡ (ok (some server_report), [])
unfolding run_generate_server colloq.Validate.validate colloq.Validate.diagnostics
    colloq.Validate.declaration_diagnostics colloq.Validate.unique_ids colloq.Prelude.Sets.contains
    colloq.Prelude.Sets.add colloq.Validate.type_kinds colloq.Prelude.Maps.contains_key
    colloq.Validate.index_states colloq.Prelude.Maps.insert colloq.Conversation.id
    colloq.Validate.names colloq.Validate.validate_states colloq.Prelude.Maps.lookup
    colloq.Validate.Reachability.validate_reachability colloq.Validate.Reachability.unreachable
    colloq.Validate.Reachability.search colloq.Validate.Reachability.explore
    colloq.Conversation.is_terminal colloq.Conversation.successors colloq.Prelude.Sets.insert
    colloq.Validate.Reachability.edge_count colloq.Validate.Reachability.visit
    colloq.Validate.validate_branches colloq.Validate.validate_failure_edges
    colloq.Validate.validate_roles colloq.Validate.validate_state colloq.Validate.validate_target
    colloq.Plan.Verify.verify colloq.Plan.Identity.valid_id colloq.Plan.Identity.valid_sha256
    colloq.Prelude.Text.strip_prefix colloq.Project.project_validated colloq.Plan.Verify.collect
    colloq.Prelude.Sets.insert_all colloq.Plan.Verify.verify_endpoint colloq.Project.id
    colloq.Project.project_state colloq.Plan.Verify.verify_states colloq.Plan.Verify.verify_targets
    colloq.Plan.Verify.endpoint_successors colloq.Plan.Verify.verify_role
    colloq.Plan.Verify.endpoint_peer colloq.Plan.Verify.calculate_identity
    colloq.Plan.Identity.or_codec colloq.Plan.Identity.sha256_identity colloq.Prelude.Hex.encode_hex
    colloq.Plan.Verify.same_wire colloq.Plan.Verify.verify_endpoints colloq.Plan.Verify.verify_wire
    colloq.Plan.Wire.derive_wire_plan colloq.Plan.Wire.endpoint_entries colloq.Plan.Wire.entries
    colloq.Plan.Wire.number colloq.Plan.Wire.state_entries colloq.Prelude.Hex.hex_digit
    colloq.Project.endpoint_for sha256 colloq.Plan.Compile.compile
    colloq.Plan.Identity.or_diagnostics colloq.Plan.Compile.sealed
    colloq.Plan.Identity.conversation_identity_validated colloq.Plan.Compile.sort_by_role
    colloq.Prelude.Sorting.sort_by colloq.Prelude.Sorting.put colloq.Plan.Compile.compile_prepared
    colloq.Plan.Compile.prepared colloq.Plan.Compile.wire_or_derived colloq.Drive.Report.with_plan
    colloq.Drive.Report.run_generate_server_plan colloq.Drive.Report.drive
    colloq.Drive.Report.outcome_of colloq.Drive.Report.report colloq.Drive.Report.trace_identity
    colloq.Drive.Client.loop_and_finish colloq.Drive.Client.finished colloq.Drive.emit_and_send
    colloq.Drive.on_machine colloq.Drive.send_and_record colloq.Drive.receive_and_record
    colloq.Drive.while_incomplete colloq.Drive.finish_if_successful colloq.Drive.prompt_payload
    colloq.Machine.from_plan colloq.Machine.endpoint colloq.Machine.emit_data
    colloq.Machine.emit_select colloq.Machine.accept colloq.Machine.is_complete
    colloq.Machine.is_successful colloq.Machine.failure colloq.Machine.state colloq.Machine.state_at
    colloq.Machine.emit colloq.Machine.next_sequence colloq.Machine.validate_envelope
    colloq.Machine.accepts colloq.Tests.Generation.next colloq.Tests.Generation.field_of
    colloq.Tests.Generation.str_of colloq.Drive.Server.server_main colloq.Drive.Server.server_rest
    colloq.Drive.Server.server_round colloq.Drive.Server.server_turn colloq.Drive.Server.send_token
    colloq.Drive.Server.after_token colloq.Drive.Server.token_count colloq.Drive.Server.server_frame
server_returns = refl

run_generate_server-Verified_example : IsValid generate × Verified generate server_report
run_generate_server-Verified_example =
    run_generate_server-Verified json plan_json frames_json sha256 script values 3 generate
      for_server [] 1 server_report server_returns

next-length : (t : Script) → length (next t).1 ≤ length t
unfolding next
next-length [] = omega arith
next-length (e ∷ es) = omega arith

next-less : (t : Script) (e : WireEnvelope Value) → (next t).0 ≡ ok e → length (next t).1 < length t
unfolding next
next-less [] e h = absurd (cc h)
next-less (x ∷ es) e h = omega arith

-- The envelopes that are left are counted down.
script-Drains : Drains script length
unfolding next
script-Drains = record {
  sends = λ t e. omega arith;
  receives = next-length;
  delivers = next-less;
  aborts = λ t. omega arith;
  finishes = λ t role. omega arith;
}

run_generate_client-Returns_example : Returns client_run
run_generate_client-Returns_example =
    run_generate_client-Returns json plan_json frames_json sha256 script values length script-Drains
      5 generate for_client "hi" (some 2) (omega arith)

branches_eq :
    {i by i' by' : String} {bs bs' f f' : Map String}
    → GlobalState.choice i by bs f ≡ GlobalState.choice i' by' bs' f'
    → bs ≡ bs'
branches_eq h = cc

abbrev DoneEnds : GlobalState → Type 0
DoneEnds g =
    (i by n : String) (bs f : Map String)
    → g ≡ GlobalState.choice i by bs f
    → lookup "done" bs ≡ some n
    → (h : GlobalState) × Memᴰ h generate.states
      × (Conversation.id h ≡ n)
      × (Conversation.is_terminal h ≡ true)

generate-Closes : Closes generate
unfolding Closes lookup Conversation.id Conversation.is_terminal
generate-Closes i by n bs f m e =
    let decide : DoneEnds decide_state = λ i by n bs f q e. (
      GlobalState.end "end",
      Memᴰ.tail (Memᴰ.tail (Memᴰ.tail (Memᴰ.tail (Memᴰ.tail (Memᴰ.head refl))))),
      some_inj (subst (λ b. lookup "done" b ≡ some n) (sym (branches_eq q)) e),
      refl,
    ) in
    let act : DoneEnds act_state = λ i by n bs f q e.
      absurd (cc (subst (λ b. lookup "done" b ≡ some n) (sym (branches_eq q)) e)) in
    All-Memᴰ DoneEnds generate.states
      (
        (λ _ _ _ _ _ q _. absurd (cc q)),
        (
          decide,
          (
            (λ _ _ _ _ _ q _. absurd (cc q)),
            (
              act,
              (
                (λ _ _ _ _ _ q _. absurd (cc q)),
                ((λ _ _ _ _ _ q _. absurd (cc q)), ((λ _ _ _ _ _ q _. absurd (cc q)), tt)),
              ),
            ),
          ),
        ),
      )
      m i by n bs f refl e

run_generate_server-Returns_example : Returns server_run
run_generate_server-Returns_example =
    run_generate_server-Returns json plan_json frames_json sha256 script values generate
      generate-Closes 3 1 for_server (omega arith)
