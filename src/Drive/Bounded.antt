-- ===== src/Drive/Bounded.antt =====
-- The rounds of the server in src/runtime.rs, and its count of tokens.
use colloq.Prelude.{
  ℕ, zero, suc, ◌<◌, ◌+◌, ◌-◌, String, ◌≡◌, ◌≢◌, refl, sym, ap, ◌∙◌, subst, ◌⊎◌, inl, inr, Option,
  none, some, List, [], ◌∷◌, ◌++◌, Bool, true, false, not, Result, ok, err, Bool-cases, length, leb,
  Memᴰ, arith,
}
use colloq.Prelude.Maps.{Map, lookup}
use colloq.Conversation
use colloq.Conversation.{Conversation, GlobalState, is_terminal}
use colloq.Validate.Spec.{IsValid, role_ids}
use colloq.Fault.{Transport}
use colloq.Machine.{Machine, WireEnvelope, emit_select, is_complete}
use colloq.Machine.Local.{Emits-Moves, emit_select-frame}
use colloq.Machine.Outcome.{Tells, Follows-Tells}
use colloq.Machine.Sync.{Emits}
use colloq.Runtime.Error.{RuntimeError, transport_failure}
use colloq.Trace.{Frame}
use colloq.Trace.Steps.{Step}
use package.colloq.Drive.{
  Act, ◌>>=◌, lift, or_panic, State, Payloads, emit_and_send, receive_and_record, prompt_payload,
  send_and_record, sent, while_incomplete, unless_done,
}
use package.colloq.Drive.Client.{loop_and_finish}
use package.colloq.Drive.Server.{
  token_count, after_token, send_token, server_turn, server_round, server_rest, server_main,
}
use package.colloq.Drive.Keeps.{Keeps, and_then-ok, on_machine-ok}
use package.colloq.Drive.Passes.{Keeps-sent, Keeps-received, fails_with}
use package.colloq.Drive.Ends.{round_of, finished-true}
use package.colloq.Drive.Recorded.{
  Recorded, Keeps-emit_and_send, Keeps-receive_and_record, Keeps-pushed, Keeps-finished,
}
use package.colloq.Drive.Reported.{server_frame-Kept, server_round-Kept}

-- The branch `done` of a choice leads to a terminal state.
unfoldable pub Closes {κ} : {V : Type κ} → Conversation V → Type 0
Closes c =
    (i by n : String) (bs f : Map String)
    → Memᴰ (GlobalState.choice i by bs f) c.states
    → lookup "done" bs ≡ some n
    → (g : GlobalState) × Memᴰ g c.states × (Conversation.id g ≡ n) × (is_terminal g ≡ true)

done_target {κ} :
    {V : Type κ} (c : Conversation V)
    → Closes c
    → {k n : String} {f : Frame V} → Step c k f n
    → (by : String) → f ≡ Frame.select by "done"
    → (g : GlobalState) × Memᴰ g c.states × (Conversation.id g ≡ n) × (is_terminal g ≡ true)
unfolding Closes
done_target c closes (Step.sent m) by e = absurd (cc e)
done_target c closes (Step.chosen {i} {chooser} {label} {next} {branches} {f} m q) by e =
    closes i chooser next branches f m (subst (λ l. lookup l branches ≡ some next) (cc e) q)
done_target c closes (Step.cancelled m) by e = absurd (cc e)
done_target c closes (Step.failed m i o t) by e = absurd (cc e)

length-snoc {ℓ} : {A : Type ℓ} (xs : List A) (x : A) → length (xs ++ (x ∷ [])) ≡ length xs + 1
length-snoc [] x = refl
length-snoc (y ∷ xs) x = let same = length-snoc xs x in omega arith

module _ {ℓ κ} {T : Type ℓ} {V : Type κ} (io : Transport T V) where
  done_stops :
      (fuel : ℕ) (body : Act (State io) Bool) (s s' : State io)
      → is_complete s.machine ≡ some true
      → while_incomplete io (suc fuel) body s ≢ (ok false, s')
  unfolding while_incomplete unless_done
  done_stops fuel body s s' c e = cc (ap (λ r. r.0) (rw c at e))

  -- A loop ends if each round that goes on counts down or completes the machine.
  counted-ends :
      (Inv : State io → Type κ) (measure : State io → ℕ) (body : Act (State io) Bool)
      → Keeps Inv body
      → ((s s' : State io)
          → Inv s
          → body s ≡ (ok true, s')
          → (is_complete s'.machine ≡ some true) ⊎ (measure s' < measure s))
      → (fuel : ℕ) (s s' : State io) → Inv s
      → measure s + 1 < fuel
      → while_incomplete io fuel body s ≢ (ok false, s')
  unfolding while_incomplete
  counted-ends Inv measure body keeps down zero s s' i lt e = absurd (omega arith)
  counted-ends Inv measure body keeps down (suc zero) s s' i lt e = absurd (omega arith)
  counted-ends Inv measure body keeps down (suc (suc fuel)) s s' i lt e =
      let (complete, t, first, last) =
        and_then-ok (lift (or_panic (is_complete s.machine)) s) _ false s' e in
      let same : t ≡ s = ap (λ r. r.1) (sym first) in
      let (u, one, rest) = round_of io body (while_incomplete io (suc fuel) body) complete s s' (
        subst
          (λ x.
            unless_done io complete
              (body >>= λ b. unless_done io (not b) (while_incomplete io (suc fuel) body)) x
            ≡ (ok false, s'))
          same last) in
      elim (down s u i one) [
        | inl c ↦ done_stops fuel body u s' c rest
        | inr below ↦
            counted-ends Inv measure body keeps down (suc fuel) u s' (keeps s true u i one)
              (omega arith) rest
      ]

  sent-true :
      (e : WireEnvelope V) (r : Result RuntimeError (Unit {0})) (s s' : State io)
      → sent io e r s ≡ (ok true, s')
      → s'.machine ≡ s.machine
  unfolding sent
  sent-true e (ok u) s s' q = sym (ap (λ x. x.1.machine) q)
  sent-true e (err error) s s' q =
      let (value, _) =
        fails_with io (λ tokens t. Unit {0}) (λ _ _ _ h. h) (λ _ _ h. h) (λ _ _ h. h) _ false true
          error (transport_failure error) s s' tt q in
      absurd (cc value)

  emit_and_send-true :
      (call : Machine → Result RuntimeError (WireEnvelope V × Machine)) (s s' : State io)
      → emit_and_send io call s ≡ (ok true, s')
      → (e : WireEnvelope V) × (call s.machine ≡ ok (e, s'.machine))
  unfolding emit_and_send send_and_record
  emit_and_send-true call s s' q =
      let (e, t, first, last) = and_then-ok _ _ true s' q in
      let (n, called, same) = on_machine-ok io call s t e first in
      let at : n ≡ s'.machine =
        ap (λ x. x.machine) same
        ∙ sym (
            sent-true e (io.send t.transport e).0
              (record t { transport = (io.send t.transport e).1 }) s' last) in
      (e, subst (λ m. call s.machine ≡ ok (e, m)) at called)

  abbrev Has : List ℕ → State io → Type 0
  Has tokens s = s.tokens ≡ tokens

  Has-emit_and_send :
      (tokens : List ℕ) (call : Machine → Result RuntimeError (WireEnvelope V × Machine))
      → Keeps (Has tokens) (emit_and_send io call)
  Has-emit_and_send tokens =
      Keeps-sent io (λ ts t. ts ≡ tokens) (λ _ _ _ h. h) (λ _ _ h. h) (λ _ _ h. h)

  Has-receive_and_record : (tokens : List ℕ) → Keeps (Has tokens) (receive_and_record io)
  Has-receive_and_record tokens =
      Keeps-received io (λ ts t. ts ≡ tokens) (λ _ _ _ h. h) (λ _ _ h. h) (λ _ _ h. h)

  module _ (value : Payloads V) where
    -- After a token is sent it is counted, and the answer does not change the count.
    after_token-counts :
        (id : ℕ) (b : Bool) (s s' : State io)
        → after_token io value id b s ≡ (ok true, s')
        → s'.tokens ≡ s.tokens ++ (id ∷ [])
    unfolding after_token
    after_token-counts id false s s' e = absurd (cc (ap (λ r. r.0) e))
    after_token-counts id true s s' e =
        let more : List ℕ = s.tokens ++ (id ∷ []) in
        let counted : State io = record s { tokens = more } in
        let (o, t, first, last) = and_then-ok (receive_and_record io counted) _ true s' e in
        server_frame-Kept io value (Has more) (Has-receive_and_record more) o t true s'
          (Has-receive_and_record more counted o t refl first) last

    send_token-counts :
        (b : Bool) (s s' : State io)
        → send_token io value b s ≡ (ok true, s')
        → length s'.tokens ≡ length s.tokens + 1
    unfolding send_token token_count
    send_token-counts false s s' e = absurd (cc (ap (λ r. r.0) e))
    send_token-counts true s s' e =
        let (b, t, first, last) =
          and_then-ok (emit_and_send io _ s) (after_token io value (length s.tokens + 1)) true s'
            e in
        let same = Has-emit_and_send s.tokens _ s b t refl first in
        let grown = after_token-counts (length s.tokens + 1) b t s' last in
        ap length grown
        ∙ (length-snoc t.tokens (length s.tokens + 1) ∙ ap (λ ts. length ts + 1) same)

    module _ (c : Conversation V) (v : IsValid c) (role : String) (mr : Memᴰ role (role_ids c))
        (closes : Closes c) where
      done_completes :
          (s s' : State io)
          → Recorded io c v role mr s
          → emit_and_send io (λ m. emit_select m "done") s ≡ (ok true, s')
          → is_complete s'.machine ≡ some true
      unfolding colloq.Trace.trace_report is_terminal
      done_completes s s' h q =
          let (e, called) = emit_and_send-true (λ m. emit_select m "done") s s' q in
          let ((step, follows), at) =
            Emits-Moves c v role s.machine s'.machine e h.follows
              (Emits.select_call "done" called) in
          let (g, mg, q', terminal) =
            done_target c closes step s.machine.endpoint.role
              (emit_select-frame s.machine s'.machine "done" e called) in
          Tells.complete (Follows-Tells c v 0 role s'.machine g follows mg (sym q'))
          ∙ ap some terminal

      server_turn-counts :
          (limit : ℕ) (s s' : State io)
          → Recorded io c v role mr s
          → server_turn io value limit (length s.tokens) s ≡ (ok true, s')
          → (is_complete s'.machine ≡ some true)
            ⊎ ((length s.tokens < limit) × (length s'.tokens ≡ length s.tokens + 1))
      unfolding server_turn
      server_turn-counts limit s s' h e = elim (Bool-cases (leb limit (length s.tokens))) [
        | inl x ↦ inl (done_completes s s' h (rw x at e))
        | inr x ↦
            let (b, t, first, last) =
              and_then-ok (emit_and_send io _ s) (send_token io value) true s' (rw x at e) in
            let same = Has-emit_and_send s.tokens _ s b t refl first in
            inr ((ground arith), send_token-counts b t s' last ∙ ap (λ ts. length ts + 1) same)
      ]

      server_rest-ends :
          (fuel limit : ℕ) (o : Option (Frame V)) (s s' : State io)
          → Recorded io c v role mr s
          → limit + 1 < fuel
          → server_rest io value fuel limit o s ≢ (ok false, s')
      unfolding server_rest loop_and_finish server_round token_count
      server_rest-ends fuel limit none s s' h lt e = cc (ap (λ r. r.0) e)
      server_rest-ends fuel limit (some f) s s' h lt e =
          let (u, s1, first, last) =
            and_then-ok (lift (prompt_payload io value f) s) _ false s' e in
          let h1 : Recorded io c v role mr s1 =
            subst (Recorded io c v role mr) (ap (λ r. r.1) first) h in
          let (b, t, loops, stops) =
            and_then-ok (while_incomplete io fuel (server_round io value limit) s1) _ false s'
              last in
          counted-ends (Recorded io c v role mr) (λ x. limit - length x.tokens)
            (server_round io value limit)
            (server_round-Kept io value (Recorded io c v role mr)
              (Keeps-emit_and_send io c v role mr) (Keeps-receive_and_record io c v role mr)
              (Keeps-pushed io c v role mr) (Keeps-finished io c v role mr) limit)
            (λ x y i q. elim (server_turn-counts limit x y i q) [
              | inl stopped ↦ inl stopped
              | inr (below, grown) ↦ inr (omega arith)
            ])
            fuel s1 t h1 (omega arith)
            (subst (λ x. while_incomplete io fuel (server_round io value limit) s1 ≡ (ok x, t))
              (finished-true io b t s' stops) loops)

      pub server_main-ends :
          (fuel limit : ℕ) (s s' : State io)
          → Recorded io c v role mr s
          → limit + 1 < fuel
          → server_main io value fuel limit s ≢ (ok false, s')
      unfolding server_main
      server_main-ends fuel limit s s' h lt e =
          let (o, t, first, last) = and_then-ok (receive_and_record io s) _ false s' e in
          server_rest-ends fuel limit o t s' (Keeps-receive_and_record io c v role mr s o t h first)
            lt last
