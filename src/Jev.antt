-- ===== src/Jev.antt =====
-- src/jev.rs: the binding of a choice state to a question, its decision, and the retries of the
-- client. JSON values, floating-point numbers and the HTTP service are parameters. The texts of
-- messages are left out.
pub mod Bound
pub mod Binds
pub mod Decide
pub mod Retry
use Prim.Native.String.{compare, ◌++◌ as str_append}
use colloq.Prelude.{
  ℕ, suc, ◌+◌, String, Option, none, some, List, [], ◌∷◌, ◌++◌, Bool, true, false, not, ◌&&◌, ◌||◌,
  ◌==◌, eqb, leb, ltb, if◌then◌else◌, length, find?, all, Result, ok, err, ◌>>=◌, ◌>>◌, require,
}
use colloq.Prelude.Maps.{Map, keys, contains_key}
use colloq.Prelude.Sets.{StringSet, contains, insert_all}
use colloq.Prelude.Text.{codes}
use colloq.Conversation.{Conversation, GlobalState, id}
use colloq.Validate.{validate, verdict}
use colloq.Validate.Reachability.{Diagnostic, Location, root, report}

abbrev pub jev_binding_format : String
jev_binding_format = "0.1.0"

abbrev pub question_id : String
question_id = "colloq_choice"

-- What the code uses of `f64`.
pub record Floats (F : Type 0) : Type 0 where
  pub is_finite : F → Bool
  pub le : F → F → Bool
  pub lt : F → F → Bool
  pub zero : F
  pub one : F

-- What the code uses of `serde_json::Value`; `from_value` is that of the type `A`.
pub record JsonValue (V A : Type 0) : Type 0 where
  pub get : V → String → Option V
  pub as_str : V → Option String
  pub from_value : V → Option A

pub record JevBinding (V F : Type 0) : Type 0 where
  pub schema : Option String
  pub colloq_jev : String
  pub conversation : String
  pub state : String
  pub model : String
  pub instructions : V
  pub criteria : Map (Option String)
  pub threshold : F
  pub escalate : String

pub record BoundChoice (V F : Type 0) : Type 0 where
  pub binding : JevBinding V F
  pub chooser : String
  pub branches : StringSet

pub record ChoiceRequest (V : Type 0) : Type 0 where
  pub model : String
  pub state : V
  pub instructions : V
  pub criteria : Map (Option String)

pub record ChoiceAnswer (F : Type 0) : Type 0 where
  pub choice : String
  pub probabilities : Map F
  pub confidence : F

pub data JevError : Type 0 where
  unavailable invalid_answer : JevError

-- `JevError::failure_id`
unfoldable pub failure_id : JevError → String
failure_id unavailable = "jev.unavailable"
failure_id invalid_answer = "jev.invalid_answer"

pub record JevDecision (F : Type 0) : Type 0 where
  pub state : String
  pub chooser : String
  pub label : String
  pub choice : String
  pub confidence : F
  pub threshold : F
  pub escalated : Bool
  pub probabilities : Map F
  pub model : String

-- `char::is_whitespace`
is_whitespace : ℕ → Bool
is_whitespace c =
    (leb 9 c && leb c 13)
    || (leb 8192 c && leb c 8202)
    || (eqb c 32 || eqb c 133 || eqb c 160 || eqb c 5760)
    || (eqb c 8232 || eqb c 8233 || eqb c 8239 || eqb c 8287 || eqb c 12288)

-- `text.trim().is_empty()`
unfoldable pub is_blank : String → Bool
unfolding is_whitespace
is_blank text = all is_whitespace (codes text)

module _ {F : Type 0} (floats : Floats F) where
  -- `x.is_finite() && (0.0..=1.0).contains(&x)`
  unfoldable pub in_unit : F → Bool
  in_unit x = floats.is_finite x && (floats.le floats.zero x && floats.le x floats.one)

-- The arms of the `match` on the bound state.
abbrev pub choice_of : Option GlobalState → Option (String × StringSet)
choice_of (some (GlobalState.choice i chooser branches on_failure)) =
    some (chooser, insert_all compare (keys branches) [])
choice_of _ = none

no_choice : Option GlobalState → List Diagnostic
no_choice (some state) = record { code = "CLQJ006"; path = root "$.state" } ∷ []
no_choice none = record { code = "CLQJ007"; path = root "$.state" } ∷ []

-- The loop over the options.
unfoldable pub option_diagnostics : StringSet → List String → List Diagnostic
option_diagnostics branches [] = []
option_diagnostics branches (option ∷ options) =
    report (not (contains option branches)) "CLQJ008" (root (str_append "$.criteria." option))
    ++ option_diagnostics branches options

-- The loop over the branches.
unfoldable pub branch_diagnostics : String → Map (Option String) → List String → List Diagnostic
branch_diagnostics escalate criteria [] = []
branch_diagnostics escalate criteria (branch ∷ branches) =
    report (not (branch == escalate) && not (contains_key branch criteria)) "CLQJ009"
      (root "$.criteria")
    ++ branch_diagnostics escalate criteria branches

module _ {V F : Type 0} (floats : Floats F) where
  -- What `bind` has collected before it looks at the state.
  unfoldable pub binding_diagnostics : String → JevBinding V F → List Diagnostic
  unfolding is_blank in_unit
  binding_diagnostics module_id b =
      report (not (b.colloq_jev == jev_binding_format)) "CLQJ001" (root "$.colloq_jev")
      ++ (report (not (b.conversation == module_id)) "CLQJ002" (root "$.conversation")
          ++ (report (is_blank b.model) "CLQJ003" (root "$.model")
              ++ (report (not (in_unit floats b.threshold)) "CLQJ004" (root "$.threshold")
                  ++ report (ltb (length b.criteria) 2) "CLQJ005" (root "$.criteria"))))

  -- The rest of `bind`, for a state that is a choice.
  unfoldable pub choice_diagnostics : JevBinding V F → StringSet → List Diagnostic
  choice_diagnostics b branches =
      option_diagnostics branches (keys b.criteria)
      ++ (branch_diagnostics b.escalate b.criteria branches
          ++ report (not (contains b.escalate branches)) "CLQJ010" (root "$.escalate"))

  bind_at :
      JevBinding V F
      → List Diagnostic
      → Option GlobalState
      → Option (String × StringSet)
      → Result (List Diagnostic) (BoundChoice V F)
  unfolding no_choice choice_diagnostics
  bind_at b ds state none = err (ds ++ no_choice state)
  bind_at b ds state (some (chooser, branches)) = do
    verdict (ds ++ choice_diagnostics b branches)
    ok (record { binding = b; chooser = chooser; branches = branches })

  unfoldable pub bind : Conversation V → JevBinding V F → Result (List Diagnostic) (BoundChoice V F)
  unfolding bind_at binding_diagnostics
  bind c b = do
    validate c
    let state = find? (λ s. id s == b.state) c.states
    bind_at b (binding_diagnostics c.module_.id b) state (choice_of state)

  -- `BoundChoice::decide`, with the decider as a function.
  unfoldable pub decide :
      (ChoiceRequest V → Result JevError (ChoiceAnswer F))
      → BoundChoice V F
      → V
      → Result JevError (JevDecision F)
  unfolding in_unit
  decide choose x state = do
    answer ← choose (record {
      model = x.binding.model;
      state = state;
      instructions = x.binding.instructions;
      criteria = x.binding.criteria;
    })
    require (contains_key answer.choice x.binding.criteria) invalid_answer
    require (in_unit floats answer.confidence) invalid_answer
    let escalated = floats.lt answer.confidence x.binding.threshold
    ok (record {
      state = x.binding.state;
      chooser = x.chooser;
      label = if escalated then x.binding.escalate else answer.choice;
      choice = answer.choice;
      confidence = answer.confidence;
      threshold = x.binding.threshold;
      escalated = escalated;
      probabilities = answer.probabilities;
      model = x.binding.model;
    })

-- An answer of the service: its status, and its body if that is JSON.
pub record HttpResponse (V : Type 0) : Type 0 where
  pub status : ℕ
  pub json : Option V

module _ {V F : Type 0} (value : JsonValue V (ChoiceAnswer F)) where
  is_choice : Option String → Bool
  is_choice none = false
  is_choice (some t) = t == "choice"

  type_of : V → Option String
  type_of answer = elim (value.get answer "type") [ none ↦ none | some t ↦ value.as_str t ]

  or_invalid {ℓ} : {A : Type ℓ} → Option A → Result JevError A
  or_invalid none = err invalid_answer
  or_invalid (some a) = ok a

  answer_of : V → Option V
  answer_of response = elim (value.get response "answers") [
    | none ↦ none
    | some answers ↦ value.get answers question_id
  ]

  unfoldable pub parse_choice_response : V → Result JevError (ChoiceAnswer F)
  unfolding is_choice type_of or_invalid answer_of
  parse_choice_response response = do
    answer ← or_invalid (answer_of response)
    require (is_choice (type_of answer)) invalid_answer
    or_invalid (value.from_value answer)

  -- The part of the loop after the test for a retry.
  unfoldable pub final_answer : HttpResponse V → Result JevError (ChoiceAnswer F)
  unfolding or_invalid
  final_answer r =
      if leb 200 r.status && ltb r.status 300
      then (do body ← or_invalid r.json; parse_choice_response body)
      else err unavailable

  -- 429 and 529.
  abbrev pub retryable : HttpResponse V → Bool
  retryable r = eqb r.status 429 || eqb r.status 529

  -- One round of the loop: with no retry left, and with what the rest of the loop returns.
  ended : Option (HttpResponse V) → ℕ → Result JevError (ChoiceAnswer F) × ℕ
  ended none attempt = (err unavailable, attempt + 1)
  ended (some r) attempt = (final_answer r, attempt + 1)

  retried :
      Option (HttpResponse V)
      → ℕ
      → Result JevError (ChoiceAnswer F) × ℕ
      → Result JevError (ChoiceAnswer F) × ℕ
  retried none attempt more = (err unavailable, attempt + 1)
  retried (some r) attempt more = if retryable r then more else (final_answer r, attempt + 1)

  -- The loop of `TypeSafeClient::choose`, with the rest of `backoff`: `responses` has what each
  -- attempt gets, `none` for an error of the transport. The number of attempts comes with it.
  unfoldable pub attempts :
      (ℕ → Option (HttpResponse V)) → List ℕ → ℕ → Result JevError (ChoiceAnswer F) × ℕ
  unfolding ended retried
  attempts responses [] attempt = ended (responses attempt) attempt
  attempts responses (delay ∷ backoff) attempt =
      retried (responses attempt) attempt (attempts responses backoff (suc attempt))

  -- `Decider::choose` for `TypeSafeClient`
  unfoldable pub choose : (ℕ → Option (HttpResponse V)) → Result JevError (ChoiceAnswer F) × ℕ
  choose responses = attempts responses (250 ∷ 1000 ∷ []) 0
