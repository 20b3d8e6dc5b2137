-- ===== src/Drive/Server.antt =====
-- The server of src/runtime.rs: the loop of `run_generate_server_plan`.
use colloq.Prelude.{
  ℕ, ◌+◌, Option, none, some, Bool, true, false, ◌==◌, leb, length, if◌then◌else◌, ok, err,
}
use colloq.Fault.{Transport}
use colloq.Machine.{emit_data, emit_select}
use colloq.Runtime.Error.{application}
use colloq.Trace.{Frame, select, cancel}
use package.colloq.Drive.{
  Act, State, Payloads, ◌>>=◌, ◌>>◌, pure, lift, emit_and_send, receive_and_record, if_sent,
  push_token, prompt_payload,
}
use package.colloq.Drive.Client.{loop_and_finish}

module _ {ℓ κ} {T : Type ℓ} {V : Type κ} (io : Transport T V) (value : Payloads V) where
  unfoldable pub expect_cancel : Option (Frame V) → Act (State io) Bool
  expect_cancel none = pure false
  expect_cancel (some (cancel from to scope)) = pure true
  expect_cancel (some _) = lift (err application)

  unfoldable pub server_frame : Option (Frame V) → Act (State io) Bool
  unfolding expect_cancel
  server_frame none = pure false
  server_frame (some (select by label)) =
      if label == "continue"
      then pure true
      else if label == "cancel"
      then receive_and_record io >>= expect_cancel
      else lift (err application)
  server_frame (some _) = lift (err application)

  unfoldable pub token_count : Act (State io) ℕ
  token_count s = (ok (length s.tokens), s)

  -- A token is counted once it is sent.
  unfoldable pub after_token : ℕ → Bool → Act (State io) Bool
  unfolding server_frame
  after_token id sent =
      if_sent io (push_token io id >>= λ _. receive_and_record io >>= server_frame) sent

  unfoldable pub send_token : Bool → Act (State io) Bool
  unfolding token_count after_token
  send_token sent =
      if_sent io
        (token_count >>= λ count.
          emit_and_send io (λ m. emit_data m (value.object "id" (value.number (count + 1))))
          >>= after_token (count + 1))
        sent

  unfoldable pub server_turn : ℕ → ℕ → Act (State io) Bool
  unfolding send_token
  server_turn token_limit count =
      if leb token_limit count
      then emit_and_send io (λ m. emit_select m "done")
      else (emit_and_send io (λ m. emit_select m "token") >>= send_token)

  -- The body of the loop of the server.
  unfoldable pub server_round : ℕ → Act (State io) Bool
  unfolding server_turn token_count
  server_round token_limit = token_count >>= server_turn token_limit

  -- The report follows at once when there is no prompt.
  unfoldable pub server_rest : ℕ → ℕ → Option (Frame V) → Act (State io) Bool
  server_rest fuel token_limit none = pure true
  server_rest fuel token_limit (some prompt) =
      lift (prompt_payload io value prompt) >> loop_and_finish io fuel (server_round token_limit)

  -- `run_generate_server_plan` from its first call to its report.
  unfoldable pub server_main : ℕ → ℕ → Act (State io) Bool
  unfolding server_rest server_round
  server_main fuel token_limit = receive_and_record io >>= server_rest fuel token_limit
