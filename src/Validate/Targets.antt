-- ===== src/Validate/Targets.antt =====
-- Where the edges of a valid conversation lead.
use colloq.Prelude.{String, ◌≡◌, some, Memᴰ, All, All-Memᴰ, Memᴰ-map}
use colloq.Prelude.Maps.{Map, lookup, Memᴰ_of_lookup}
use colloq.Conversation.{Conversation, GlobalState, id, failure_target}
use colloq.Validate.Spec.{StateOk, FailureEdge, Branch, scope, state_ids}

module _ {ℓ} {V : Type ℓ} (c : Conversation V) where
  pub edge_fails :
      (f : Map String) (failure n : String)
      → All (FailureEdge (scope c)) f
      → lookup failure f ≡ some n
      → Memᴰ (GlobalState.fail n failure) c.states
  edge_fails f failure n h e =
      (All-Memᴰ (FailureEdge (scope c)) f h (Memᴰ_of_lookup failure n f e)).1

  -- A failure edge leads to the terminal state of that very failure.
  pub failure_target-fail :
      (s : GlobalState) (failure n : String)
      → StateOk (scope c) s
      → failure_target s failure ≡ some n
      → Memᴰ (GlobalState.fail n failure) c.states
  unfolding failure_target
  failure_target-fail (GlobalState.send i from to m next d f) failure n ok e =
      edge_fails f failure n (ok.1.1.1) e
  failure_target-fail (GlobalState.choice i chooser bs f) failure n ok e =
      edge_fails f failure n (ok.1.1.1) e
  failure_target-fail (GlobalState.cancel i from to what next f) failure n ok e =
      edge_fails f failure n (ok.1.1.1) e
  failure_target-fail (GlobalState.end i) failure n ok e = cc
  failure_target-fail (GlobalState.fail i g) failure n ok e = cc

  -- A branch leads to a state of the conversation.
  pub branch_declared :
      (bs : Map String) (label n : String)
      → All (Branch (scope c)) bs
      → lookup label bs ≡ some n
      → Memᴰ n (state_ids c)
  branch_declared bs label n h e =
      (All-Memᴰ (Branch (scope c)) bs h (Memᴰ_of_lookup label n bs e)).1

  pub fail_declared :
      (n failure : String) → Memᴰ (GlobalState.fail n failure) c.states → Memᴰ n (state_ids c)
  unfolding id
  fail_declared n failure m = Memᴰ-map id (GlobalState.fail n failure) c.states m
