-- ===== src/Validate/Reachability.antt =====
-- `validate_reachability` of src/lib.rs: the search of the state graph, and what it reports.
pub mod Explore
use colloq.Prelude.{
  ℕ, zero, suc, ◌+◌, String, Option, none, some, List, [], ◌∷◌, ◌++◌, Bool, true, false, not, ◌||◌,
  if◌then◌else◌, length,
}
use colloq.Prelude.Maps.{Map, lookup}
use colloq.Prelude.Sets.{StringSet, contains, add}
use colloq.Conversation.{GlobalState, id, successors, is_terminal}

-- The path of a diagnostic: `$.roles`, `$.types[3]`, `$.states[3].next`, `$.states[id=end]`.
pub data Location : Type 0 where
  root : String → Location
  item : String → ℕ → Location
  item_at : String → ℕ → String → Location
  by_id : String → String → Location

pub record Diagnostic : Type 0 where
  pub code : String
  pub path : Location

-- `if bad { diagnostics.push(…) }`
abbrev pub report : Bool → String → Location → List Diagnostic
report bad code path = if bad then record { code = code; path = path } ∷ [] else []

-- The variables of the loop.
pub record Search : Type 0 where
  pub reachable : StringSet
  pub queue : List String
  pub reaches_terminal : Bool

enter : Option GlobalState → Search → Search
enter none s = s
enter (some state) s = record s {
  reaches_terminal = is_terminal state || s.reaches_terminal;
  queue = s.queue ++ successors state;
}

-- The body of the loop, after `i` left the front of the queue.
unfoldable pub visit : Map GlobalState → Search → String → List String → Search
unfolding enter
visit states s i rest =
    if contains i s.reachable
    then record s { queue = rest }
    else enter (lookup i states) (record s { reachable = add i s.reachable; queue = rest })

-- `while let Some(id) = queue.pop_front()`, for as many rounds as there is fuel.
unfoldable pub explore : Map GlobalState → ℕ → Search → Search
unfolding visit
explore states zero s = s
explore states (suc fuel) s = elim s.queue [
  | [] ↦ s
  | i ∷ rest ↦ explore states fuel (visit states s i rest)
]

-- Each state is entered once, so no more than this many targets are ever queued.
unfoldable pub edge_count : Map GlobalState → ℕ
edge_count [] = 0
edge_count ((_, s) ∷ states) = length (successors s) + edge_count states

unfoldable pub search : String → Map GlobalState → Search
search initial states =
    explore states (suc (edge_count states))
      (record { reachable = []; queue = initial ∷ []; reaches_terminal = false })

unfoldable pub unreachable : StringSet → List GlobalState → List Diagnostic
unreachable reachable [] = []
unreachable reachable (s ∷ states) =
    report (not (contains (id s) reachable)) "CLQ0017" (by_id "$.states" (id s))
    ++ unreachable reachable states

unfoldable pub validate_reachability : String → List GlobalState → Map GlobalState → List Diagnostic
validate_reachability initial listed states =
    let s = search initial states in
    unreachable s.reachable listed ++ report (not s.reaches_terminal) "CLQ0018" (root "$.states")
