-- ===== src/Drive/Recorded.antt =====
-- The trace of a driver and the steps of the conversation.
use colloq.Prelude.{
  ℕ, String, ◌≡◌, sym, ap, ◌∙◌, subst, Option, none, some, List, [], ◌∷◌, ◌++◌, Bool, false, Memᴰ,
  Result, ok, err,
}
use colloq.Conversation.{Conversation}
use colloq.Validate.Spec.{IsValid, role_ids, state_ids}
use colloq.Fault.{Transport}
use colloq.Machine.{Machine, WireEnvelope, accept, observe_failure, observe_failure_at}
use colloq.Machine.Find.{Follows}
use colloq.Machine.Local.{accept-Moves, Emits-Moves, observe_failure_at-Moves}
use colloq.Machine.Sync.{Emits}
use colloq.Runtime.Error.{RuntimeError, transport_failure}
use colloq.Trace.{Frame}
use colloq.Trace.Steps.{Step, Run, done, more}
use package.colloq.Drive.{
  State, push, observe_and_record, abort_transport, record_frame, failed_with, sent,
  send_and_record, accepted, receive_and_record, emit_and_send, push_token, finish_if_successful,
}
use package.colloq.Drive.Keeps.{
  Keeps, and_then-ok, on_machine-ok, Keeps-push_token, Keeps-finish_if_successful,
}

Run-snoc {ℓ} :
    {V : Type ℓ} (c : Conversation V) {i j k : String} (fs : List (Frame V)) (f : Frame V)
    → Run c i fs j
    → Step c j f k
    → Run c i (fs ++ (f ∷ [])) k
Run-snoc c fs f done s = more s done
Run-snoc c _ f (more {frames} s run) t = more s (Run-snoc c frames f run t)

module _ {ℓ κ} {T : Type ℓ} {V : Type κ} (io : Transport T V) (c : Conversation V) (v : IsValid c)
    (role : String) (mr : Memᴰ role (role_ids c)) where
  -- The machine runs the endpoint of its role, and the trace leads to its state.
  pub record Recorded (s : State io) : Type κ where
    pub follows : Follows c role s.machine
    pub run : Run c c.initial s.trace s.machine.current

  -- An envelope was emitted, and is not in the trace yet.
  record Emitted (e : WireEnvelope V) (s : State io) : Type κ where
    pub follows : Follows c role s.machine
    pub at : Memᴰ e.state (state_ids c)
    pub run : Run c c.initial s.trace e.state
    pub step : Step c e.state e.frame s.machine.current

  -- An observation of a failure at the state where the trace has led.
  fails :
      (k : String) (call : Machine → Result RuntimeError (Frame V × Machine)) (s s' : State io)
      → Run c c.initial s.trace k
      → ((n : Machine) (g : Frame V)
          → call s.machine ≡ ok (g, n)
          → Step c k g n.current × Follows c role n)
      → observe_and_record io call s ≡ (ok tt, s')
      → Recorded s'
  unfolding observe_and_record abort_transport record_frame
  fails k call s s' run moves e =
      let (g, t, first, last) = and_then-ok _ _ tt s' e in
      let (n, called, same) =
        on_machine-ok io call (record s { transport = io.abort s.transport }) t g first in
      let (step, follows) = moves n g called in
      subst Recorded (ap (λ u. push io g u) same ∙ ap (λ r. r.1) last)
        (record { follows = follows; run = Run-snoc c s.trace g run step })

  fails_with {μ} :
      {A : Type μ} (k : String) (call : String → Machine → Result RuntimeError (Frame V × Machine))
      (value a : A) (error : RuntimeError) (o : Option String) (s s' : State io)
      → Run c c.initial s.trace k
      → ((f : String) (n : Machine) (g : Frame V)
          → call f s.machine ≡ ok (g, n)
          → Step c k g n.current × Follows c role n)
      → failed_with io call value error o s ≡ (ok a, s')
      → Recorded s'
  unfolding failed_with
  fails_with k call value a error none s s' run moves e = absurd (cc (ap (λ r. r.0) e))
  fails_with k call value a error (some f) s s' run moves e =
      let (u, t, first, last) = and_then-ok _ _ a s' e in
      subst Recorded (ap (λ r. r.1) last) (fails k (call f) s t run (moves f) first)

  sent-Recorded :
      (e : WireEnvelope V) (r : Result RuntimeError (Unit {0})) (s s' : State io) (b : Bool)
      → Emitted e s
      → sent io e r s ≡ (ok b, s')
      → Recorded s'
  unfolding sent
  sent-Recorded e (ok u) s s' b h q =
      subst Recorded (ap (λ r. r.1) q)
        (record { follows = h.follows; run = Run-snoc c s.trace e.frame h.run h.step })
  sent-Recorded e (err error) s s' b h q =
      fails_with e.state (λ failure m. observe_failure_at m e.state failure) false b error
        (transport_failure error) s s' h.run
        (λ f n g called.
          observe_failure_at-Moves c v role e.state f s.machine n g h.follows mr h.at called)
        q

  -- What is emitted and sent is recorded, or the failure of the sending is.
  pub Keeps-emit_and_send :
      (call : Machine → Result RuntimeError (WireEnvelope V × Machine))
      → ((m n : Machine) (e : WireEnvelope V) → call m ≡ ok (e, n) → Emits m e n)
      → Keeps Recorded (emit_and_send io call)
  unfolding emit_and_send send_and_record
  Keeps-emit_and_send call emits s b s' h q =
      let (e, t, first, last) = and_then-ok _ _ b s' q in
      let (n, called, same) = on_machine-ok io call s t e first in
      let ((step, follows), at) =
        Emits-Moves c v role s.machine n e h.follows (emits s.machine n e called) in
      let emitted : Emitted e (record s { machine = n }) = record {
        follows = follows;
        at = subst (λ k. Memᴰ k (state_ids c)) (sym at) (Follows.at h.follows);
        run = subst (Run c c.initial s.trace) (sym at) h.run;
        step = subst (λ k. Step c k e.frame n.current) (sym at) step;
      } in
      let emitted' : Emitted e t = subst (Emitted e) same emitted in
      sent-Recorded e (io.send t.transport e).0 (record t { transport = (io.send t.transport e).1 })
        s' b
        (record {
          follows = emitted'.follows;
          at = emitted'.at;
          run = emitted'.run;
          step = emitted'.step;
        })
        last

  accepted-Recorded : (r : Result RuntimeError (WireEnvelope V)) → Keeps Recorded (accepted io r)
  unfolding accepted observe_failure
  accepted-Recorded (ok e) s f s' h q =
      let (g, t, first, last) = and_then-ok _ _ f s' q in
      let (n, called, same) = on_machine-ok io (λ m. accept m e) s t g first in
      let (step, follows) = accept-Moves c v role s.machine n e g h.follows mr called in
      subst Recorded (ap (λ u. push io g u) same ∙ ap (λ r. r.1) last)
        (record { follows = follows; run = Run-snoc c s.trace g h.run step })
  accepted-Recorded (err error) s f s' h q =
      fails_with s.machine.current (λ failure m. observe_failure m failure) none f error
        (transport_failure error) s s' h.run
        (λ g n u called.
          observe_failure_at-Moves c v role s.machine.current g s.machine n u h.follows mr
            (Follows.at h.follows) called)
        q

  pub other-Recorded : (s : State io) (t : T) → Recorded s → Recorded (record s { transport = t })
  other-Recorded s t h = record { follows = h.follows; run = h.run }

  pub more-Recorded :
      (s : State io) (tokens : List ℕ) → Recorded s → Recorded (record s { tokens = tokens })
  more-Recorded s tokens h = record { follows = h.follows; run = h.run }

  -- What is received and accepted is recorded, or the failure of the receiving is.
  pub Keeps-receive_and_record : Keeps Recorded (receive_and_record io)
  unfolding receive_and_record
  Keeps-receive_and_record s f s' h q =
      accepted-Recorded (io.receive s.transport).0
        (record s { transport = (io.receive s.transport).1 }) f s'
        (other-Recorded s (io.receive s.transport).1 h) q

  pub Keeps-pushed : (id : ℕ) → Keeps Recorded (push_token io id)
  Keeps-pushed = Keeps-push_token io Recorded more-Recorded

  pub Keeps-finished : Keeps Recorded (finish_if_successful io)
  Keeps-finished =
      Keeps-finish_if_successful io Recorded
        (λ s h. other-Recorded s (io.finish s.transport s.machine.endpoint.role).1 h)
