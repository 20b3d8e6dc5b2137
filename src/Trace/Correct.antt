-- ===== src/Trace/Correct.antt =====
-- `verify_trace` and the runs of a conversation.
use colloq.Prelude.{
  ℕ, suc, ◌+◌, String, ◌≡◌, ◌≢◌, refl, sym, ◌∙◌, ap, subst, inl, inr, ◌↔◌, none, some, List, [],
  ◌∷◌, ◌++◌, true, length, Result, ok, err, ◌>>=◌, Memᴰ, arith, Option-cases, some_inj, ok_inj,
  err_inj, ok≢err, Result-cases, >>=-eq-ok, All-Memᴰ, Memᴰ_of_map,
}
use colloq.Prelude.Maps.{lookup}
use colloq.Conversation.{Conversation, GlobalState, id, failure_target, is_terminal}
use colloq.Prelude.Sets.{StringSet}
use colloq.Validate.Reachability.{Diagnostic}
use colloq.Validate.{validate}
use colloq.Validate.Spec.{StateOk, IsValid, scope, state_ids}
use colloq.Validate.Correct.{validate_iff}
use colloq.Validate.Targets.{failure_target-fail, branch_declared, fail_declared}
use colloq.Trace.{
  Frame, TraceReport, VerifyError, invalid, rejected, panic, next_state, trace_report, walk,
  conclude, verify_trace, TraceError, expected_frame, describe_frame,
}
use colloq.Trace.Steps.{Step, sent, chosen, cancelled, failed, Run, done, more}
use colloq.Trace.Walk.{
  states, roles, at_state, state_unique, Step-Arm, next_state-Step, walk-cons, walk-stuck, walk-Run,
  Run-walk,
}

terminal_none {ℓ} :
    {V : Type ℓ} (known : StringSet) (s : GlobalState) (frame : Frame V) (n : String)
    → is_terminal s ≡ true
    → next_state known s frame ≡ some n
    → ⊥
unfolding next_state is_terminal failure_target
terminal_none known s frame n t h = ground arith

verify_trace-invalid {ℓ} :
    {V : Type ℓ} (c : Conversation V) (frames : List (Frame V)) (ds : List Diagnostic)
    → validate c ≡ err ds
    → verify_trace c frames ≡ err (invalid ds)
unfolding verify_trace
verify_trace-invalid c frames ds e = rw (e, verify_trace)

module _ {ℓ} {V : Type ℓ} (c : Conversation V) (v : IsValid c) where
  all_ok : {s : GlobalState} → Memᴰ s c.states → StateOk (scope c) s
  all_ok m = All-Memᴰ (StateOk (scope c)) c.states v.declared.states m

  -- A step leads to a state of the conversation.
  pub Step-state : {i n : String} {frame : Frame V} → Step c i frame n → Memᴰ n (state_ids c)
  Step-state (sent m) = (all_ok m).1.1.0
  Step-state (chosen {label} {next} {branches} m e) =
      branch_declared c branches label next (all_ok m).1.1.0 e
  Step-state (cancelled m) = (all_ok m).1.1.0
  Step-state (failed {failure} {next} {s} m p r t) =
      fail_declared c next failure (failure_target-fail c s failure next (all_ok m) t)

  pub Run-state :
      {i n : String} {frames : List (Frame V)}
      → Run c i frames n
      → Memᴰ i (state_ids c)
      → Memᴰ n (state_ids c)
  Run-state done m = m
  Run-state (more x r) m = Run-state r (Step-state x)

  -- A state that is declared is found.
  found : (k : String) → Memᴰ k (state_ids c) → (s : GlobalState) × (lookup k (states c v) ≡ some s)
  found k m = let (s, x, p) = Memᴰ_of_map id k c.states m in (s, (at_state c v k s).1 (x, p))

  conclude-some :
      (steps : ℕ) (k : String) (s : GlobalState)
      → lookup k (states c v) ≡ some s
      → conclude (states c v) steps k ≡ ok (trace_report steps k s)
  unfolding conclude
  conclude-some steps k s e = rw (e, conclude)

  -- Where `verify_trace` is, once the conversation is valid.
  verify_trace-eq :
      (frames : List (Frame V))
      → verify_trace c frames ≡ (
          walk (states c v) (roles c v) 0 c.initial frames >>= λ k.
          conclude (states c v) (length frames) k)
  unfolding verify_trace
  verify_trace-eq frames = rw ((validate_iff c).1 v, verify_trace)

  -- What an accepted trace is.
  abbrev Accepted : List (Frame V) → TraceReport → Type ℓ
  Accepted frames r =
      (s : GlobalState) × Memᴰ s c.states
      × Run c c.initial frames (id s)
      × (r ≡ trace_report (length frames) (id s) s)

  accepted :
      (frames : List (Frame V)) (r : TraceReport) → verify_trace c frames ≡ ok r → Accepted frames r
  accepted frames r h =
      let (k, w, e) =
        >>=-eq-ok (walk (states c v) (roles c v) 0 c.initial frames)
          (λ k. conclude (states c v) (length frames) k) (sym (verify_trace-eq frames) ∙ h) in
      let run = walk-Run c v 0 c.initial frames k w in
      let (s, f) = found k (Run-state run v.declared.initial) in
      let (m, p) = (at_state c v k s).0 f in
      (
        s,
        m,
        subst (Run c c.initial frames) (sym p) run,
        ok_inj (sym e ∙ conclude-some (length frames) k s f)
            ∙ ap (λ u. trace_report (length frames) u s) (sym p),
      )

  accepts :
      (frames : List (Frame V)) (r : TraceReport) → Accepted frames r → verify_trace c frames ≡ ok r
  accepts frames r (s, m, run, e) =
      verify_trace-eq frames
      ∙ (ap (λ w. w >>= λ k. conclude (states c v) (length frames) k) (Run-walk c v 0 run)
          ∙ (conclude-some (length frames) (id s) s ((at_state c v (id s) s).1 (m, refl))
              ∙ ap ok (sym e)))

  -- For a valid conversation, `verify_trace` returns a report for some frames just when the
  -- frames are a run of the conversation from its initial state to some state, and the report is
  -- that of this state and of the number of frames.
  pub verify_trace_iff :
      (frames : List (Frame V)) (r : TraceReport)
      → (verify_trace c frames ≡ ok r) ↔ (
          (s : GlobalState) × Memᴰ s c.states
          × Run c c.initial frames (id s)
          × (r ≡ trace_report (length frames) (id s) s))
  verify_trace_iff frames r = (accepted frames r, accepts frames r)

  -- Where the loop stops: after a run, at a frame that no step takes.
  pub record Stuck (step : ℕ) (k : String) (frames : List (Frame V)) (x : VerifyError)
      : Type ℓ where
    pub report : TraceError
    pub is_rejected : x ≡ rejected report
    pub before : List (Frame V)
    pub frame : Frame V
    pub after : List (Frame V)
    pub split : frames ≡ before ++ frame ∷ after
    pub run : Run c k before report.state
    pub counted : report.step ≡ step + length before
    pub stuck : (n : String) → ¬ Step c report.state frame n

  no-Step :
      (k : String) (s : GlobalState) (frame : Frame V)
      → lookup k (states c v) ≡ some s
      → next_state (roles c v) s frame ≡ none
      → (n : String) → ¬ Step c k frame n
  no-Step k s frame e t n x =
      let (u, m, p, a) = Step-Arm c v x in
      let same : u ≡ s = some_inj (sym ((at_state c v k u).1 (m, p)) ∙ e) in cc (t, a, same)

  walk-nil_ok :
      (step : ℕ) (k : String) {x : VerifyError}
      → walk {V = V} (states c v) (roles c v) step k [] ≡ err x
      → ⊥
  unfolding walk
  walk-nil_ok step k h = ok≢err h

  -- Every error of the loop is a rejected frame.
  walk-Stuck :
      (step : ℕ) (k : String) (frames : List (Frame V)) (x : VerifyError)
      → Memᴰ k (state_ids c)
      → walk (states c v) (roles c v) step k frames ≡ err x
      → Stuck step k frames x
  walk-Stuck step k [] x m h = absurd (walk-nil_ok step k h)
  walk-Stuck step k (frame ∷ frames) x m h =
      let (s, e) = found k m in
      elim (Option-cases (next_state (roles c v) s frame)) [
        | inl t ↦ record {
          report = record {
            step = step;
            state = k;
            expected = expected_frame s;
            received = describe_frame frame;
          };
          is_rejected = err_inj (sym h ∙ walk-stuck c v step k s frame frames e t);
          before = [];
          frame = frame;
          after = frames;
          split = refl;
          run = done;
          counted = omega arith;
          stuck = no-Step k s frame e t;
        }
        | inr (j, t) ↦
            let (q, p) = (at_state c v k s).0 e in
            let one = subst (λ u. Step c u frame j) p (next_state-Step c v s frame j q t) in
            let rest =
              walk-Stuck (suc step) j frames x (Step-state one)
                (sym (walk-cons c v step k s frame frames j e t) ∙ h) in
            record {
              report = rest.report;
              is_rejected = rest.is_rejected;
              before = frame ∷ rest.before;
              frame = rest.frame;
              after = rest.after;
              split = ap (λ fs. frame ∷ fs) rest.split;
              run = more one rest.run;
              counted = omega (arith, rest.counted);
              stuck = rest.stuck;
            }
      ]

  bind_err :
      (w : Result VerifyError String) (n : ℕ) {x : VerifyError}
      → ((k : String) → w ≡ ok k → (r : TraceReport) × (conclude (states c v) n k ≡ ok r))
      → (w >>= λ k. conclude (states c v) n k) ≡ err x
      → w ≡ err x
  bind_err (ok k) n f h = let (r, e) = f k refl in absurd (ok≢err (sym e ∙ h))
  bind_err (err y) n f h = ap err (err_inj h)

  -- For a valid conversation, when `verify_trace` returns an error, the error is a rejected
  -- frame: the frames before it are a run from the initial state to the state that the error
  -- names, the error counts them, and no step of the conversation takes the frame there.
  pub verify_trace-Stuck :
      (frames : List (Frame V)) (x : VerifyError)
      → verify_trace c frames ≡ err x
      → Stuck 0 c.initial frames x
  verify_trace-Stuck frames x h = walk-Stuck 0 c.initial frames x v.declared.initial (
      bind_err (walk (states c v) (roles c v) 0 c.initial frames) (length frames)
        (λ k w.
          let (s, e) =
            found k (Run-state (walk-Run c v 0 c.initial frames k w) v.declared.initial) in
          (trace_report (length frames) k s, conclude-some (length frames) k s e))
        (sym (verify_trace-eq frames) ∙ h))

  -- In a valid conversation no frame is a step from a terminal state.
  pub terminal_stuck :
      {i n : String} {frame : Frame V} (s : GlobalState)
      → Memᴰ s c.states
      → id s ≡ i
      → is_terminal s ≡ true
      → ¬ Step c i frame n
  terminal_stuck {i} {n} {frame} s m p t x =
      let (u, mu, q, a) = Step-Arm c v x in
      let same = state_unique c v u s mu m (q ∙ sym p) in
      terminal_none (roles c v) s frame n t
        (subst (λ w. next_state (roles c v) w frame ≡ some n) same a)

-- `verify_trace` never fails an `expect` or the index of the last state, for any conversation
-- and any frames.
pub verify_trace-ne-panic {ℓ} :
    {V : Type ℓ} (c : Conversation V) (frames : List (Frame V)) → verify_trace c frames ≢ err panic
verify_trace-ne-panic c frames h = elim (Result-cases (validate c)) [
  | inl (u, e) ↦ cc (Stuck.is_rejected (verify_trace-Stuck c ((validate_iff c).0 e) frames panic h))
  | inr (ds, e) ↦ cc (verify_trace-invalid c frames ds e)
]
