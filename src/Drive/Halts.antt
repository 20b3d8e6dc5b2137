-- ===== src/Drive/Halts.antt =====
-- The drivers of src/runtime.rs and the fuel of their loops.
use colloq.Prelude.{
  ℕ, ◌<◌, ◌+◌, String, ◌≡◌, ◌≢◌, refl, sym, ap, subst, ◌⊎◌, inl, inr, Option, none, some, List, [],
  Bool, true, false, Result, ok, err, ok_inj, >>=-eq-ok,
}
use colloq.Codec.{Bytes, Serializer}
use colloq.Conversation.{Conversation}
use colloq.Fault.{Transport}
use colloq.Machine.{Machine, from_plan}
use colloq.Plan.Verify.{SemanticPlan}
use colloq.Plan.Compile.{compile_prepared}
use colloq.Plan.Compile.Runs.{compile_prepared-endpoints}
use colloq.Machine.Start.{from_plan-Follows}
use colloq.Trace.Steps.{Run, done}
use colloq.Runtime.Error.{RuntimeError}
use colloq.Trace.{Frame}
use package.colloq.Drive.{Act, State, Driver, Payloads}
use package.colloq.Drive.Client.{client_main}
use package.colloq.Drive.Server.{server_main}
use package.colloq.Drive.Report.{
  ExecutionReport, report, outcome_of, drive, is_zero, run_generate_client_plan,
  run_generate_client, run_generate_server_plan, run_generate_server,
}
use package.colloq.Drive.Verified.{with_plan-ok, guarded-ok}
use package.colloq.Drive.Bounded.{Closes, server_main-ends}
use package.colloq.Drive.Ends.{Drains, client_main-ends}

-- A report, or an error of the source.
pub Returns {ℓ κ} :
    {V : Type κ} {T : Type ℓ} → Result RuntimeError (Option (ExecutionReport V)) × T → Type (ℓ ⊔ κ)
Returns {V} {T} x =
    ((r : ExecutionReport V) × (u : T) × (x ≡ (ok (some r), u)))
    ⊎ ((e : RuntimeError) × (u : T) × (x ≡ (err e, u)))

returns {ℓ κ} :
    {V : Type κ} {T : Type ℓ} (x : Result RuntimeError (Option (ExecutionReport V)) × T)
    → ((u : T) → x ≢ (ok none, u))
    → Returns x
unfolding Returns
returns (ok none, u) h = absurd (h u refl)
returns (ok (some r), u) h = inl (r, u, refl)
returns (err e, u) h = inr (e, u, refl)

module _ {κ} {V : Type κ} (frames_json : Serializer (List (Frame V))) (sha256 : Bytes → Bytes)
    {T : Type κ} where
  outcome_of-none :
      (name : String) (x : Result RuntimeError Bool × Driver T V) (u : T)
      → outcome_of frames_json sha256 name x ≡ (ok none, u)
      → (s : Driver T V) × (x ≡ (ok false, s))
  unfolding outcome_of
  outcome_of-none name (ok true, s) u h =
      let (r, made, other) = >>=-eq-ok (report frames_json sha256 name s) _ (ap (λ y. y.0) h) in
      absurd (cc (ok_inj other))
  outcome_of-none name (ok false, s) u h = (s, refl)
  outcome_of-none name (err e, s) u h = absurd (cc (ap (λ y. y.0) h))

  -- A driver runs out of fuel only where its loop does.
  drive-none :
      (io : Transport T V) (main : Act (State io) Bool) (t u : T) (x : Result RuntimeError Machine)
      → drive frames_json sha256 io main t x ≡ (ok none, u)
      → (m : Machine) × (s : State io) × (x ≡ ok m)
        × (main (record { machine = m; transport = t; trace = []; tokens = [] }) ≡ (ok false, s))
  unfolding drive
  drive-none io main t u (err e) h = absurd (cc (ap (λ y. y.0) h))
  drive-none io main t u (ok m) h =
      let (s, e) =
        outcome_of-none (io.plan t)
          (main (record { machine = m; transport = t; trace = []; tokens = [] })) u h in
      (m, s, refl, e)

module _ {κ} {V : Type κ} (json : Serializer (Conversation V)) (plan_json : Serializer SemanticPlan)
    (frames_json : Serializer (List (Frame V))) (sha256 : Bytes → Bytes) {T : Type κ}
    (io : Transport T V) (value : Payloads V) where
  -- Over a transport that has fewer envelopes left to deliver than there is fuel, where no
  -- operation adds to them and each delivery takes one away, `run_generate_client` returns a
  -- report or an error.
  pub run_generate_client-Returns :
      (left : T → ℕ)
      → Drains io left
      → (fuel : ℕ) (c : Conversation V) (t : T) (prompt : String) (cancel_after : Option ℕ)
      → left t < fuel
      → Returns (
          run_generate_client json plan_json frames_json sha256 io value fuel c t prompt
            cancel_after)
  unfolding run_generate_client run_generate_client_plan
  run_generate_client-Returns left d fuel c t prompt n lt = returns _ (λ u h.
      let (p, e, q) =
        with_plan-ok json plan_json frames_json sha256 io value fuel c t u
          (compile_prepared json plan_json sha256 c) _ none h in
      let rest =
        guarded-ok json plan_json frames_json sha256 io value fuel c t u
          (is_zero frames_json sha256 io n) _ _ none q in
      let (m, s, made, stops) =
        drive-none frames_json sha256 io (client_main io value fuel prompt n) t u
          (from_plan p "client") rest in
      client_main-ends io left d value fuel prompt n _ s lt stops)

  -- If the branch `done` of each choice of a conversation leads to a terminal state,
  -- `run_generate_server` with fuel for two rounds more than its limit of tokens returns a
  -- report or an error, over any transport.
  pub run_generate_server-Returns :
      (c : Conversation V)
      → Closes c
      → (fuel limit : ℕ) (t : T) → limit + 1 < fuel
      → Returns (run_generate_server json plan_json frames_json sha256 io value fuel c t limit)
  unfolding run_generate_server run_generate_server_plan
  run_generate_server-Returns c closes fuel limit t lt = returns _ (λ u h.
      let (p, e, q) =
        with_plan-ok json plan_json frames_json sha256 io value fuel c t u
          (compile_prepared json plan_json sha256 c) _ none h in
      let (v, same) = compile_prepared-endpoints json plan_json sha256 c p e in
      let (m, s, made, stops) =
        drive-none frames_json sha256 io (server_main io value fuel limit) t u
          (from_plan p "server") q in
      let (follows, mr, at) = from_plan-Follows c v p "server" m same made in
      server_main-ends io value c v "server" mr closes fuel limit _ s
        (record { follows = follows; run = subst (λ i. Run c c.initial [] i) (sym at) done }) lt
        stops)
