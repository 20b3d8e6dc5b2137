-- ===== src/Drive/Client.antt =====
-- The client of src/runtime.rs: the loop of `run_generate_client_plan`.
use colloq.Prelude.{ℕ, String, Option, none, some, Bool, true, false, ◌==◌, leb, if◌then◌else◌, err}
use colloq.Fault.{Transport}
use colloq.Machine.{emit_data, emit_select, emit_cancel}
use colloq.Runtime.Error.{application}
use colloq.Trace.{Frame, select}
use package.colloq.Drive.{
  Act, State, Payloads, ◌>>=◌, ◌>>◌, pure, lift, emit_and_send, receive_and_record, if_sent,
  push_token, token_payload, while_incomplete, finish_if_successful,
}

-- The loop of a driver, and what follows it. It tells whether the loop has ended.
module _ {ℓ κ} {T : Type ℓ} {V : Type κ} (io : Transport T V) where
  unfoldable pub finished : Bool → Act (State io) Bool
  finished true = finish_if_successful io >> pure true
  finished false = pure false

  unfoldable pub loop_and_finish : ℕ → Act (State io) Bool → Act (State io) Bool
  unfolding finished
  loop_and_finish fuel round = while_incomplete io fuel round >>= finished

module _ {ℓ κ} {T : Type ℓ} {V : Type κ} (io : Transport T V) (value : Payloads V) where
  -- `cancel_after.is_some_and(|limit| tokens.len() >= limit)`
  unfoldable pub reached : Option ℕ → ℕ → Bool
  reached none tokens = false
  reached (some limit) tokens = leb limit tokens

  unfoldable pub answer_token : Bool → Act (State io) Bool
  answer_token true =
      emit_and_send io (λ m. emit_select m "cancel") >>= if_sent io (emit_and_send io emit_cancel)
  answer_token false = emit_and_send io (λ m. emit_select m "continue")

  unfoldable pub client_token : Option ℕ → Option (Frame V) → Act (State io) Bool
  unfolding reached answer_token
  client_token cancel_after none = pure false
  client_token cancel_after (some token) = do
    id ← lift (token_payload io value token)
    count ← push_token io id
    answer_token (reached cancel_after count)

  unfoldable pub client_frame : Option ℕ → Option (Frame V) → Act (State io) Bool
  unfolding client_token
  client_frame cancel_after none = pure false
  client_frame cancel_after (some (select by label)) =
      if label == "done"
      then pure true
      else if label == "token"
      then receive_and_record io >>= client_token cancel_after
      else lift (err application)
  client_frame cancel_after (some _) = lift (err application)

  -- The body of the loop of the client.
  unfoldable pub client_round : Option ℕ → Act (State io) Bool
  unfolding client_frame
  client_round cancel_after = receive_and_record io >>= client_frame cancel_after

  -- The report follows at once when the prompt is not sent.
  unfoldable pub client_rest : ℕ → Option ℕ → Bool → Act (State io) Bool
  client_rest fuel cancel_after true = loop_and_finish io fuel (client_round cancel_after)
  client_rest fuel cancel_after false = pure true

  -- `run_generate_client_plan` from its first call to its report.
  unfoldable pub client_main : ℕ → String → Option ℕ → Act (State io) Bool
  unfolding client_rest client_round
  client_main fuel prompt cancel_after =
      emit_and_send io (λ m. emit_data m (value.object "text" (value.string prompt)))
      >>= client_rest fuel cancel_after
