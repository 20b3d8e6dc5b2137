-- ===== src/Tests/Traces.antt =====
-- Validation, projection and traces of the small conversation.
use colloq.Prelude.{
  ℕ, String, ◌≡◌, ◌≢◌, ◌↔◌, refl, Option, some, none, List, [], ◌∷◌, Memᴰ, true, false, ok, err,
}
use colloq.Conversation.{GlobalState}
use colloq.Validate.{validate}
use colloq.Validate.Spec.{IsValid}
use colloq.Validate.Reachability.{search}
use colloq.Validate.Reachability.Explore.{search_ends}
use colloq.Validate.Correct.{validate_iff}
use colloq.Project.{Endpoint, project_validated}
use colloq.Project.Duality.{AllDual, project-dual}
use colloq.Trace.{
  Frame, data_, select, fault, verify_trace, VerifyError, rejected, panic, TraceReport,
}
use colloq.Trace.Steps.{Run, sent, chosen, done, more}
use colloq.Trace.Correct.{verify_trace_iff, Stuck, verify_trace-Stuck, verify_trace-ne-panic}
use package.colloq.Tests.{talk, talk_ok, talk_IsValid, talk-project}

validate_iff_example : (validate talk ≡ ok tt) ↔ IsValid talk
validate_iff_example = validate_iff talk

project-dual_example :
    (x : Endpoint) × (y : Endpoint) × (project_validated talk ≡ x ∷ y ∷ [])
    × (x.role ≢ y.role)
    × (x.initial ≡ y.initial)
    × AllDual x.role y.role x.states y.states
project-dual_example = project-dual talk talk-project

-- A question, and the end.
abbrev whole : List (Frame ℕ)
whole = data_ "client" "server" "question" (some 7) ∷ select "server" "stop" ∷ []

whole-Run : Run talk "ask" whole "done"
unfolding colloq.Prelude.Maps.lookup
whole-Run = more (sent (Memᴰ.head refl)) (more (chosen (Memᴰ.tail (Memᴰ.head refl)) refl) done)

verify_trace_iff_example :
    verify_trace talk whole
    ≡ ok (record {
      steps = 2;
      final_state = "done";
      complete = true;
      successful = true;
      failure = none;
    })
unfolding colloq.Conversation.id colloq.Trace.trace_report colloq.Conversation.is_terminal
verify_trace_iff_example =
    (verify_trace_iff talk talk_IsValid whole _).1
      (GlobalState.end "done", Memᴰ.tail (Memᴰ.tail (Memᴰ.head refl)), whole-Run, refl)

-- The server may not answer before a question.
abbrev early : List (Frame ℕ)
early = select "server" "stop" ∷ []

abbrev early_error : VerifyError
early_error = rejected (record {
  step = 0;
  state = "ask";
  expected = "data client -> server: question";
  received = "select by server: stop";
})

early_rejected : verify_trace talk early ≡ err early_error
unfolding verify_trace colloq.Trace.walk colloq.Prelude.Maps.lookup colloq.Trace.collect_states
    colloq.Prelude.Maps.insert colloq.Conversation.id colloq.Trace.next_state
    colloq.Trace.expected_frame colloq.Trace.describe_frame
early_rejected = rw talk_ok refl

verify_trace-Stuck_example : Stuck talk talk_IsValid 0 "ask" early early_error
verify_trace-Stuck_example = verify_trace-Stuck talk talk_IsValid early early_error early_rejected

verify_trace-ne-panic_example : verify_trace talk early ≢ err panic
verify_trace-ne-panic_example = verify_trace-ne-panic talk early

search_ends_example : (search "ask" (("done", GlobalState.end "done") ∷ [])).queue ≡ []
search_ends_example = search_ends "ask" (("done", GlobalState.end "done") ∷ [])
