-- ===== src/Drive/Reported.antt =====
-- The calls and rounds of both drivers, and what they keep.
use colloq.Prelude.{
  ℕ, String, ◌≡◌, ap, subst, inl, inr, Option, none, some, Bool, true, false, Result, ok,
  Bool-cases, leb, ◌==◌, ◌+◌,
}
use colloq.Fault.{Transport}
use colloq.Machine.{Machine, WireEnvelope, emit_data, emit_select, emit_cancel}
use colloq.Runtime.Error.{RuntimeError}
use colloq.Machine.Sync.{Emits}
use colloq.Trace.{Frame, data_, select, cancel, fault}
use package.colloq.Drive.{
  Act, pure, lift, State, Payloads, emit_and_send, receive_and_record, if_sent, push_token,
  token_payload, prompt_payload, while_incomplete, finish_if_successful,
}
use package.colloq.Drive.Client.{
  finished, loop_and_finish, reached, answer_token, client_token, client_frame, client_round,
  client_rest, client_main,
}
use package.colloq.Drive.Server.{
  expect_cancel, server_frame, token_count, after_token, send_token, server_turn, server_round,
  server_rest, server_main,
}
use package.colloq.Drive.Keeps.{
  Keeps, Keeps-pure, Keeps-lift, Keeps->>=, Keeps-if_sent, Keeps-while_incomplete,
}

module _ {ℓ κ μ} {T : Type ℓ} {V : Type κ} (io : Transport T V) (value : Payloads V)
    (R : State io → Type μ) (receive-Kept : Keeps R (receive_and_record io)) where
  expect_cancel-Kept : (o : Option (Frame V)) → Keeps R (expect_cancel io value o)
  unfolding expect_cancel
  expect_cancel-Kept none = Keeps-pure R false
  expect_cancel-Kept (some (cancel from to what)) = Keeps-pure R true
  expect_cancel-Kept (some (data_ from to m p)) = Keeps-lift R _
  expect_cancel-Kept (some (select by label)) = Keeps-lift R _
  expect_cancel-Kept (some (fault observer failure)) = Keeps-lift R _

  pub server_frame-Kept : (o : Option (Frame V)) → Keeps R (server_frame io value o)
  unfolding server_frame
  server_frame-Kept none = Keeps-pure R false
  server_frame-Kept (some (data_ from to m p)) = Keeps-lift R _
  server_frame-Kept (some (cancel from to what)) = Keeps-lift R _
  server_frame-Kept (some (fault observer failure)) = Keeps-lift R _
  server_frame-Kept (some (select by label)) = elim (Bool-cases (label == "continue")) [
    | inl h ↦ rw h (Keeps-pure R true)
    | inr h ↦ elim (Bool-cases (label == "cancel")) [
      | inl t ↦
          rw (h, t)
            (Keeps->>= R (receive_and_record io) (expect_cancel io value) receive-Kept
              expect_cancel-Kept)
      | inr t ↦ rw (h, t) (Keeps-lift R _)
    ]
  ]

module _ {ℓ κ μ} {T : Type ℓ} {V : Type κ} (io : Transport T V) (value : Payloads V)
    (R : State io → Type μ)
    (emit-Kept : (call : Machine → Result RuntimeError (WireEnvelope V × Machine))
      → ((m n : Machine) (e : WireEnvelope V) → call m ≡ ok (e, n) → Emits m e n)
      → Keeps R (emit_and_send io call))
    (receive-Kept : Keeps R (receive_and_record io))
    (push-Kept : (id : ℕ) → Keeps R (push_token io id))
    (finish-Kept : Keeps R (finish_if_successful io)) where
  abbrev Kept {ν} : {A : Type ν} → Act (State io) A → Type (ℓ ⊔ κ ⊔ ν ⊔ μ)
  Kept act = Keeps R act

  data-Kept : (payload : V) → Kept (emit_and_send io (λ m. emit_data m payload))
  data-Kept payload = emit-Kept (λ m. emit_data m payload) (λ m n e. Emits.data_call payload)

  select-Kept : (label : String) → Kept (emit_and_send io (λ m. emit_select m label))
  select-Kept label = emit-Kept (λ m. emit_select m label) (λ m n e. Emits.select_call label)

  cancel-Kept : Kept (emit_and_send io emit_cancel)
  cancel-Kept = emit-Kept emit_cancel (λ m n e. Emits.cancel_call)

  finished-Kept : (b : Bool) → Kept (finished io b)
  unfolding finished
  finished-Kept true =
      Keeps->>= R (finish_if_successful io) (λ _. pure true) finish-Kept (λ _. Keeps-pure R true)
  finished-Kept false = Keeps-pure R false

  loop-Kept :
      (fuel : ℕ) (round : Act (State io) Bool) → Kept round → Kept (loop_and_finish io fuel round)
  unfolding loop_and_finish
  loop-Kept fuel round k =
      Keeps->>= R (while_incomplete io fuel round) (finished io)
        (Keeps-while_incomplete io R fuel round k) finished-Kept

  answer-Kept : (b : Bool) → Kept (answer_token io value b)
  unfolding answer_token
  answer-Kept true =
      Keeps->>= R (emit_and_send io (λ m. emit_select m "cancel"))
        (if_sent io (emit_and_send io emit_cancel)) (select-Kept "cancel")
        (λ b. Keeps-if_sent io R (emit_and_send io emit_cancel) b cancel-Kept)
  answer-Kept false = select-Kept "continue"

  client_token-Kept : (n : Option ℕ) (o : Option (Frame V)) → Kept (client_token io value n o)
  unfolding client_token
  client_token-Kept n none = Keeps-pure R false
  client_token-Kept n (some f) =
      Keeps->>= R (lift (token_payload io value f)) _ (Keeps-lift R (token_payload io value f))
        (λ id.
          Keeps->>= R (push_token io id) _ (push-Kept id)
            (λ count. answer-Kept (reached io value n count)))

  pub client_frame-Kept : (n : Option ℕ) (o : Option (Frame V)) → Kept (client_frame io value n o)
  unfolding client_frame
  client_frame-Kept n none = Keeps-pure R false
  client_frame-Kept n (some (data_ from to m p)) = Keeps-lift R _
  client_frame-Kept n (some (cancel from to what)) = Keeps-lift R _
  client_frame-Kept n (some (fault observer failure)) = Keeps-lift R _
  client_frame-Kept n (some (select by label)) = elim (Bool-cases (label == "done")) [
    | inl h ↦ rw h (Keeps-pure R true)
    | inr h ↦ elim (Bool-cases (label == "token")) [
      | inl t ↦
          rw (h, t)
            (Keeps->>= R (receive_and_record io) (client_token io value n) receive-Kept
              (client_token-Kept n))
      | inr t ↦ rw (h, t) (Keeps-lift R _)
    ]
  ]

  client_rest-Kept : (fuel : ℕ) (n : Option ℕ) (b : Bool) → Kept (client_rest io value fuel n b)
  unfolding client_rest client_round
  client_rest-Kept fuel n true = loop-Kept fuel (client_round io value n) (
      Keeps->>= R (receive_and_record io) (client_frame io value n) receive-Kept
        (client_frame-Kept n))
  client_rest-Kept fuel n false = Keeps-pure R true

  pub client-Kept :
      (fuel : ℕ) (prompt : String) (n : Option ℕ) → Kept (client_main io value fuel prompt n)
  unfolding client_main
  client-Kept fuel prompt n =
      Keeps->>= R _ (client_rest io value fuel n)
        (data-Kept (value.object "text" (value.string prompt))) (client_rest-Kept fuel n)

  token_count-Kept : Kept (token_count io value)
  unfolding token_count
  token_count-Kept s a s' p e = subst R (ap (λ r. r.1) e) p

  after_token-Kept : (id : ℕ) (b : Bool) → Kept (after_token io value id b)
  unfolding after_token
  after_token-Kept id b = Keeps-if_sent io R _ b (
      Keeps->>= R (push_token io id) _ (push-Kept id) (λ _.
        Keeps->>= R (receive_and_record io) (server_frame io value) receive-Kept
          (server_frame-Kept io value R receive-Kept)))

  send_token-Kept : (b : Bool) → Kept (send_token io value b)
  unfolding send_token
  send_token-Kept b = Keeps-if_sent io R _ b (
      Keeps->>= R (token_count io value) _ token_count-Kept (λ count.
        Keeps->>= R _ (after_token io value (count + 1))
          (data-Kept (value.object "id" (value.number (count + 1))))
          (after_token-Kept (count + 1))))

  server_turn-Kept : (limit count : ℕ) → Kept (server_turn io value limit count)
  unfolding server_turn
  server_turn-Kept limit count = elim (Bool-cases (leb limit count)) [
    | inl h ↦ rw h (select-Kept "done")
    | inr h ↦ rw h (
        Keeps->>= R (emit_and_send io (λ m. emit_select m "token")) (send_token io value)
          (select-Kept "token") send_token-Kept)
  ]

  pub server_round-Kept : (limit : ℕ) → Kept (server_round io value limit)
  unfolding server_round
  server_round-Kept limit =
      Keeps->>= R (token_count io value) (server_turn io value limit) token_count-Kept
        (server_turn-Kept limit)

  server_rest-Kept :
      (fuel limit : ℕ) (o : Option (Frame V)) → Kept (server_rest io value fuel limit o)
  unfolding server_rest
  server_rest-Kept fuel limit none = Keeps-pure R true
  server_rest-Kept fuel limit (some f) =
      Keeps->>= R (lift (prompt_payload io value f)) _ (Keeps-lift R _)
        (λ _. loop-Kept fuel (server_round io value limit) (server_round-Kept limit))

  pub server-Kept : (fuel limit : ℕ) → Kept (server_main io value fuel limit)
  unfolding server_main
  server-Kept fuel limit =
      Keeps->>= R (receive_and_record io) (server_rest io value fuel limit) receive-Kept
        (server_rest-Kept fuel limit)
