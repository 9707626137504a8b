-- ===== src/Session/Fork.antt =====
-- session/fork.go: a session that starts with the turns of another one.
pub mod Retained
use kkode.Prelude.{
  ℕ, suc, Bool, true, false, ◌||◌, not, ◌&&◌, List, [], ◌∷◌, ◌++◌, if◌then◌else◌, Option, none,
  some, Result, ok, err, length, ltb,
}
use kkode.Strings.{Text, codes, is_empty, text_eq}
use kkode.Gateway.Runs.{Metadata, entries, put}
use kkode.Llm.Loop.{Response, Item}
use kkode.Session.{Turn, Event, Session}

module _ {Rest : Type 0} where
  -- The loop of `retainedTurns`: the turns up to the one with the id, and whether it was there.
  unfoldable pub turns_up_to : Text → List (Turn Rest) → List (Turn Rest) × Bool
  unfolding text_eq
  turns_up_to id [] = ([], false)
  turns_up_to id (t ∷ ts) =
      let rest = turns_up_to id ts in
      if text_eq t.id id then (t ∷ [], true) else (t ∷ rest.0, rest.1)

  -- `retainedTurns`
  unfoldable pub retained_turns : List (Turn Rest) → Text → List (Turn Rest) × Bool
  unfolding is_empty turns_up_to
  retained_turns ts id = if is_empty id then (ts, true) else turns_up_to id ts

  -- `retainedTurnIDs`: the keys of the map, all of them true
  unfoldable pub retained_turn_ids : List (Turn Rest) → List Text
  unfolding is_empty
  retained_turn_ids [] = []
  retained_turn_ids (t ∷ ts) =
      let rest = retained_turn_ids ts in if is_empty t.id then rest else t.id ∷ rest

unfoldable pub is_key : Text → List Text → Bool
unfolding text_eq
is_key k [] = false
is_key k (j ∷ js) = text_eq j k || is_key k js

-- The loop of `retainedEvents`. `fresh` gives the id that `NewID` makes for an event.
unfoldable pub events_of : (Event → Text) → Text → List Text → List Event → List Event
unfolding is_key is_empty
events_of fresh session ids [] = []
events_of fresh session ids (e ∷ es) =
    let rest = events_of fresh session ids es in
    if is_empty e.turn_id || is_key e.turn_id ids
    then record e { id = fresh e; session_id = session } ∷ rest
    else rest

-- `retainedEvents`
unfoldable pub retained_events : (Event → Text) → List Event → Text → List Text → List Event
unfolding events_of
retained_events fresh es session [] = []
retained_events fresh es session (k ∷ ids) = events_of fresh session (k ∷ ids) es

pub data ForkError : Type 0 where
  turn_not_found : Text → Text → ForkError

module _ {Rest : Type 0} where
  unfoldable pub last_turn : List (Turn Rest) → Option (Turn Rest)
  last_turn [] = none
  last_turn (t ∷ []) = some t
  last_turn (t ∷ u ∷ ts) = last_turn (u ∷ ts)

  -- The response that the fork goes on from.
  unfoldable pub last_response : List (Turn Rest) → Option Response
  unfolding last_turn
  last_response ts = elim (last_turn ts) [ none ↦ none | some t ↦ t.response ]

  unfoldable pub fork_metadata : Session Rest → Text → Metadata
  unfolding put is_empty
  fork_metadata s at =
      let m = put (entries s.metadata) (codes "forked_from") s.id in
      if is_empty at then m else put m (codes "forked_at_turn") at

  -- The fork with the turns that it keeps.
  abbrev pub forked :
      Text → (Event → Text) → ℕ → Session Rest → Text → List (Turn Rest) → Session Rest
  forked new_id fresh now s at ts = record s {
    id = new_id;
    created_at = now;
    updated_at = now;
    turns = ts;
    events = retained_events fresh s.events new_id (retained_turn_ids ts);
    last_response_id = elim (last_response ts) [ none ↦ [] | some r ↦ r.response_id ];
    last_input_items = elim (last_response ts) [ none ↦ [] | some r ↦ r.output ];
    metadata = some (fork_metadata s at);
  }

  -- `ForkSession` for a source that is not nil. The new session's id, those of its events and the
  -- time come from the caller.
  unfoldable pub fork_session :
      Text → (Event → Text) → ℕ → Session Rest → Text → Result ForkError (Session Rest)
  unfolding retained_turns is_empty
  fork_session new_id fresh now s at =
      let (ts, found) = retained_turns s.turns at in
      if not (is_empty at) && not found
      then err (turn_not_found at s.id)
      else ok (forked new_id fresh now s at ts)
