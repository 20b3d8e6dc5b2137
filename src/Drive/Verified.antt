-- ===== src/Drive/Verified.antt =====
-- The reports of src/runtime.rs, and `verify_trace` of src/lib.rs.
use colloq.Prelude.{
  ℕ, String, ◌≡◌, refl, sym, ap, ◌∙◌, subst, inl, inr, Option, none, some, some_inj, List, [], Bool,
  true, false, Memᴰ, ◌↔◌, Result, Result-cases, ok, err, ok_inj, >>=-eq-ok, if◌then◌else◌, length,
}
use colloq.Codec.{Bytes, Serializer}
use colloq.Conversation
use colloq.Conversation.{Conversation}
use colloq.Validate.Spec.{IsValid, role_ids}
use colloq.Fault.{Transport}
use colloq.Machine.{Machine, PreparedPlan, from_plan, is_complete, is_successful, failure}
use colloq.Machine.Find.{Follows, state-Follows}
use colloq.Machine.Outcome.{Follows-Tells}
use colloq.Machine.Start.{from_plan-Follows}
use colloq.Project.{Endpoint, project_validated}
use colloq.Plan.Verify.{SemanticPlan}
use colloq.Plan.Wire.{PlanError}
use colloq.Plan.Compile.{compile_prepared}
use colloq.Plan.Compile.Runs.{compile_prepared-endpoints}
use colloq.Runtime.Error.{RuntimeError}
use colloq.Trace.{Frame, TraceReport, trace_report, verify_trace}
use colloq.Trace.Correct.{verify_trace_iff}
use colloq.Trace.Steps.{Run, done}
use package.colloq.Drive.{Act, State, Driver, Payloads, or_panic}
use package.colloq.Drive.Client.{client_main}
use package.colloq.Drive.Server.{server_main}
use package.colloq.Drive.Report.{
  ExecutionReport, trace_identity, report, outcome_of, drive, is_zero, run_generate_client_plan,
  run_generate_server_plan, with_plan, run_generate_client, run_generate_server,
}
use package.colloq.Drive.Keeps.{Keeps}
use package.colloq.Drive.Recorded.{
  Recorded, Keeps-emit_and_send, Keeps-receive_and_record, Keeps-pushed, Keeps-finished,
}
use package.colloq.Drive.Reported.{client-Kept, server-Kept}

-- The report tells of the trace in it what `verify_trace` tells.
pub record Verified {κ} {V : Type κ} (c : Conversation V) (r : ExecutionReport V) : Type κ where
  pub told : TraceReport
  pub verified : verify_trace c r.semantic_trace ≡ ok told
  pub final_state : r.final_state ≡ told.final_state
  pub complete : r.completed ≡ told.complete
  pub successful : r.successful ≡ told.successful
  pub failed : r.failure ≡ told.failure

or_panic-ok {κ} : {A : Type κ} (o : Option A) (a b : A) → or_panic o ≡ ok a → o ≡ some b → a ≡ b
or_panic-ok none a b h e = absurd (cc e)
or_panic-ok (some x) a b h e = sym (ok_inj h) ∙ some_inj e

-- What a report is made of.
record TellsOf {ℓ κ} {T : Type ℓ} {V : Type κ} (s : Driver T V) (r : ExecutionReport V)
    : Type κ where
  pub final_state : s.machine.current ≡ r.final_state
  pub complete : or_panic (is_complete s.machine) ≡ ok r.completed
  pub successful : or_panic (is_successful s.machine) ≡ ok r.successful
  pub failed : or_panic (failure s.machine) ≡ ok r.failure
  pub trace : s.trace ≡ r.semantic_trace

module _ {κ} {V : Type κ} (frames_json : Serializer (List (Frame V))) (sha256 : Bytes → Bytes)
    {T : Type κ} where
  report-ok :
      (name : String) (s : Driver T V) (r : ExecutionReport V)
      → report frames_json sha256 name s ≡ ok r
      → TellsOf s r
  unfolding report
  report-ok name s r h =
      let (i, hi, h1) = >>=-eq-ok (trace_identity frames_json sha256 s.trace) _ h in
      let (x, hx, h2) = >>=-eq-ok (or_panic (is_complete s.machine)) _ h1 in
      let (y, hy, h3) = >>=-eq-ok (or_panic (is_successful s.machine)) _ h2 in
      let (z, hz, h4) = >>=-eq-ok (or_panic (failure s.machine)) _ h3 in
      record {
        final_state = ap (λ (q : ExecutionReport V). q.final_state) (ok_inj h4);
        complete = hx ∙ ap (λ (q : ExecutionReport V). ok q.completed) (ok_inj h4);
        successful = hy ∙ ap (λ (q : ExecutionReport V). ok q.successful) (ok_inj h4);
        failed = hz ∙ ap (λ (q : ExecutionReport V). ok q.failure) (ok_inj h4);
        trace = ap (λ (q : ExecutionReport V). q.semantic_trace) (ok_inj h4);
      }

  module _ (io : Transport T V) (c : Conversation V) (v : IsValid c) (role : String)
      (mr : Memᴰ role (role_ids c)) where
    report-Verified :
        (name : String) (s : Driver T V) (r : ExecutionReport V)
        → Recorded io c v role mr s
        → report frames_json sha256 name s ≡ ok r
        → Verified c r
    report-Verified name s r h made =
        let made_of = report-ok name s r made in
        let (g, mg, p, at) = state-Follows c v h.follows in
        let expected = trace_report (length s.trace) (Conversation.id g) g in
        let tells = Follows-Tells c v (length s.trace) role s.machine g h.follows mg (sym p) in
        record {
          told = expected;
          verified =
              subst (λ fs. verify_trace c fs ≡ ok expected) made_of.trace
                ((verify_trace_iff c v s.trace expected).1
                  (g, mg, subst (Run c c.initial s.trace) (sym p) h.run, refl));
          final_state = sym made_of.final_state ∙ tells.final_state;
          complete = or_panic-ok _ _ _ made_of.complete tells.complete;
          successful = or_panic-ok _ _ _ made_of.successful tells.successful;
          failed = or_panic-ok _ _ _ made_of.failed tells.failed;
        }

    outcome_of-Verified :
        (name : String) (x : Result RuntimeError Bool × State io) (r : ExecutionReport V) (u : T)
        → ((b : Bool) → x.0 ≡ ok b → Recorded io c v role mr x.1)
        → outcome_of frames_json sha256 name x ≡ (ok (some r), u)
        → Verified c r
    unfolding outcome_of
    outcome_of-Verified name (ok true, s) r u k h =
        let (q, made, same) = >>=-eq-ok (report frames_json sha256 name s) _ (ap (λ y. y.0) h) in
        report-Verified name s r (k true refl) (made ∙ ap ok (some_inj (ok_inj same)))
    outcome_of-Verified name (ok false, s) r u k h = absurd (cc (ap (λ y. y.0) h))
    outcome_of-Verified name (err e, s) r u k h = absurd (cc (ap (λ y. y.0) h))

    drive-Verified :
        (main : Act (State io) Bool) (t u : T) (m : Machine) (x : Result RuntimeError Machine)
        (r : ExecutionReport V)
        → x ≡ ok m
        → Keeps (Recorded io c v role mr) main
        → Follows c role m
        → m.current ≡ c.initial
        → drive frames_json sha256 io main t x ≡ (ok (some r), u)
        → Verified c r
    unfolding drive
    drive-Verified main t u m x r e k f at h =
        let s : State io = record { machine = m; transport = t; trace = []; tokens = [] } in
        outcome_of-Verified (io.plan t) (main s) r u
          (λ b q.
            k s b (main s).1
              (record { follows = f; run = subst (λ i. Run c c.initial [] i) (sym at) done })
              (ap (λ y. (y, (main s).1)) q))
          (ap (drive frames_json sha256 io main t) (sym e) ∙ h)

module _ {κ} {V : Type κ} (frames_json : Serializer (List (Frame V))) (sha256 : Bytes → Bytes)
    {T : Type κ} (io : Transport T V) (c : Conversation V) (v : IsValid c) where
  from_plan-Verified :
      (main : Act (State io) Bool) (t u : T) (p : PreparedPlan) (role : String)
      (r : ExecutionReport V)
      → ((e : Endpoint) → Memᴰ e p.endpoints ↔ Memᴰ e (project_validated c))
      → ((mr : Memᴰ role (role_ids c)) → Keeps (Recorded io c v role mr) main)
      → drive frames_json sha256 io main t (from_plan p role) ≡ (ok (some r), u)
      → Verified c r
  unfolding drive
  from_plan-Verified main t u p role r same k h = elim (Result-cases (from_plan p role)) [
    | inr (e, q) ↦ absurd (cc (ap (λ y. y.0) (ap (drive frames_json sha256 io main t) (sym q) ∙ h)))
    | inl (m, q) ↦
        let (f, mr, at) = from_plan-Follows c v p role m same q in
        drive-Verified frames_json sha256 io c v role mr main t u m (from_plan p role) r q (k mr) f
          at h
  ]

module _ {κ} {V : Type κ} (json : Serializer (Conversation V)) (plan_json : Serializer SemanticPlan)
    (frames_json : Serializer (List (Frame V))) (sha256 : Bytes → Bytes) {T : Type κ}
    (io : Transport T V) (value : Payloads V) (fuel : ℕ) (c : Conversation V) (t u : T) where
  pub with_plan-ok {μ} :
      {A : Type μ} (x : Result PlanError PreparedPlan)
      (run : PreparedPlan → T → Result RuntimeError A × T) (a : A)
      → with_plan json plan_json frames_json sha256 io value x run t ≡ (ok a, u)
      → (p : PreparedPlan) × (x ≡ ok p) × (run p t ≡ (ok a, u))
  unfolding with_plan
  with_plan-ok (ok p) run a h = (p, refl, h)
  with_plan-ok (err e) run a h = absurd (cc (ap (λ y. y.0) h))

  pub guarded-ok {μ} :
      {A : Type μ} (b : Bool) (e : RuntimeError) (rest : Result RuntimeError A × T) (a : A)
      → (if b then (err e, t) else rest) ≡ (ok a, u)
      → rest ≡ (ok a, u)
  guarded-ok true e rest a h = absurd (cc (ap (λ y. y.0) h))
  guarded-ok false e rest a h = h

  -- When `run_generate_client` returns a report for a conversation, over any transport, the
  -- conversation is valid, `verify_trace` accepts the trace in the report, and the final state,
  -- completeness, success and failure in the report are those that `verify_trace` returns.
  pub run_generate_client-Verified :
      (prompt : String) (cancel_after : Option ℕ) (r : ExecutionReport V)
      → run_generate_client json plan_json frames_json sha256 io value fuel c t prompt cancel_after
        ≡ (ok (some r), u)
      → IsValid c × Verified c r
  unfolding run_generate_client run_generate_client_plan
  run_generate_client-Verified prompt n r h =
      let (p, e, q) = with_plan-ok (compile_prepared json plan_json sha256 c) _ (some r) h in
      let (v, same) = compile_prepared-endpoints json plan_json sha256 c p e in
      (
        v,
        from_plan-Verified frames_json sha256 io c v (client_main io value fuel prompt n) t u p
            "client" r same
            (λ mr.
              client-Kept io value (Recorded io c v "client" mr)
                (Keeps-emit_and_send io c v "client" mr)
                (Keeps-receive_and_record io c v "client" mr) (Keeps-pushed io c v "client" mr)
                (Keeps-finished io c v "client" mr) fuel prompt n)
            (guarded-ok (is_zero frames_json sha256 io n) _ _ (some r) q),
      )

  -- When `run_generate_server` returns a report for a conversation, over any transport, the
  -- conversation is valid, `verify_trace` accepts the trace in the report, and the final state,
  -- completeness, success and failure in the report are those that `verify_trace` returns.
  pub run_generate_server-Verified :
      (limit : ℕ) (r : ExecutionReport V)
      → run_generate_server json plan_json frames_json sha256 io value fuel c t limit
        ≡ (ok (some r), u)
      → IsValid c × Verified c r
  unfolding run_generate_server run_generate_server_plan
  run_generate_server-Verified limit r h =
      let (p, e, q) = with_plan-ok (compile_prepared json plan_json sha256 c) _ (some r) h in
      let (v, same) = compile_prepared-endpoints json plan_json sha256 c p e in
      (
        v,
        from_plan-Verified frames_json sha256 io c v (server_main io value fuel limit) t u p
            "server" r same
            (λ mr.
              server-Kept io value (Recorded io c v "server" mr)
                (Keeps-emit_and_send io c v "server" mr)
                (Keeps-receive_and_record io c v "server" mr) (Keeps-pushed io c v "server" mr)
                (Keeps-finished io c v "server" mr) fuel limit)
            q,
      )
