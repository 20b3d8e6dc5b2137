-- ===== src/Tests/Bindings.antt =====
-- A binding of the choice of the small conversation, with numbers for JSON values, and percents
-- for floating-point numbers.
use mathlib.Core.List.Memᴰ
use colloq.Prelude.{
  ℕ, String, Bool, true, ◌≡◌, ◌≢◌, ◌↔◌, refl, Option, some, none, List, [], ◌∷◌, ok, Result, leb,
  ltb, arith,
}
use colloq.Machine.{Machine, emit, emit_select}
use colloq.Machine.Find.{Follows}
use colloq.Trace.{Frame}
use colloq.Validate.Spec.{IsValid}
use colloq.Jev.{
  Floats, JsonValue, JevBinding, BoundChoice, ChoiceRequest, ChoiceAnswer, JevError, JevDecision,
  HttpResponse, bind, decide, choose,
}
use colloq.Jev.Bound.{Bound}
use colloq.Jev.Binds.{bind_iff}
use colloq.Jev.Decide.{Decided, decide-emit_select}
use colloq.Jev.Retry.{Asked, choose-Asked}
use package.colloq.Tests.{talk, talk_ok, server}

abbrev percents : Floats ℕ
percents = record { is_finite = λ x. true; le = leb; lt = ltb; zero = 0; one = 100 }

abbrev binding : JevBinding ℕ ℕ
binding = record {
  schema = none;
  colloq_jev = "0.1.0";
  conversation = "talk";
  state = "pick";
  model = "one";
  instructions = 5;
  criteria = ("more", none) ∷ ("stop", some "no question left") ∷ [];
  threshold = 90;
  escalate = "stop";
}

abbrev bound : BoundChoice ℕ ℕ
bound = record { binding = binding; chooser = "server"; branches = "more" ∷ "stop" ∷ [] }

bound_ok : bind percents talk binding ≡ ok bound
unfolding bind colloq.Jev.binding_diagnostics colloq.Jev.choice_diagnostics
    colloq.Jev.option_diagnostics colloq.Jev.branch_diagnostics colloq.Jev.is_blank
    colloq.Jev.in_unit colloq.Prelude.Sets.contains colloq.Prelude.Maps.contains_key
    colloq.Prelude.Sets.insert_all colloq.Prelude.Sets.insert colloq.Conversation.id
bound_ok = rw talk_ok refl

bind_iff_example :
    (bind percents talk binding ≡ ok bound) ↔ (IsValid talk × Bound percents talk binding bound)
bind_iff_example = bind_iff percents talk binding bound

abbrev unsure : ChoiceRequest ℕ → Result JevError (ChoiceAnswer ℕ)
unsure request = ok (record { choice = "more"; probabilities = ("more", 60) ∷ []; confidence = 60 })

abbrev decision : JevDecision ℕ
decision = record {
  state = "pick";
  chooser = "server";
  label = "stop";
  choice = "more";
  confidence = 60;
  threshold = 90;
  escalated = true;
  probabilities = ("more", 60) ∷ [];
  model = "one";
}

decided : decide percents unsure bound 3 ≡ ok decision
unfolding decide colloq.Prelude.Maps.contains_key
decided = refl

abbrev choosing : Machine
choosing = record server { current = "pick"; sequence = 1 }

choosing-Follows : Follows talk "server" choosing
unfolding colloq.Conversation.id
choosing-Follows = record { machine = refl; at = Memᴰ.tail (Memᴰ.head refl) }

decide-emit_select_example :
    Decided percents bound decision
    × ((next : String) × (emit_select {V = ℕ} choosing "stop"
          ≡ ok (emit choosing (Frame.select "server" "stop") next)))
decide-emit_select_example =
    decide-emit_select percents talk binding bound unsure 3 decision choosing bound_ok decided
      choosing-Follows refl

-- A service that is busy once, and then has an answer that is no JSON.
abbrev busy_once : ℕ → Option (HttpResponse ℕ)
busy_once n = some (record { status = elim (leb n 0) [ true ↦ 429 | _ ↦ 200 ]; json = none })

abbrev no_json : JsonValue ℕ (ChoiceAnswer ℕ)
no_json = record { get = λ v k. none; as_str = λ v. none; from_value = λ v. none }

choose-Asked_example : Asked no_json busy_once 0 2 (choose no_json busy_once)
choose-Asked_example = choose-Asked no_json busy_once
