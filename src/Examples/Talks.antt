-- ===== src/Examples/Talks.antt =====
-- The theorems on agents and sessions at concrete inputs.
use kkode.Prelude.{
  ◌++◌, false, List, [], ◌∷◌, All, ◌≡◌, ◌≢◌, ◌⊎◌, refl, Option, none, some, Result, ok, err,
}
use kkode.Prelude.Int.{pos}
use kkode.Strings.{Text, codes}
use kkode.Llm.Tools.{ToolCall, ToolResult}
use kkode.Llm.Loop.{Request, Response}
use kkode.Agent.Guardrails.{Guardrails, check_input}
use kkode.Agent.Guardrails.Allowed.{Accepts, IsClear}
use kkode.Agent.Running.{Trace, run_prepared}
use kkode.Agent.Running.Guarded.{IsAllowedAnswer, run_prepared-IsAllowed, run_prepared-turn}
use kkode.Session.{Turn, Event, build, Session}
use kkode.Session.Fork.{fork_session, turn_not_found, retained_turn_ids}
use kkode.Session.Fork.Retained.{IsOther, IsForkAt, fork_session-turns}

-- A lower case for texts that have no upper case.
abbrev lower : Text → Text
lower t = t

abbrev rules : Guardrails
rules = record {
  blocked_substrings = codes "rm" ∷ [];
  blocked_output_substrings = codes "key" ∷ [];
  input_policies = record { name = []; check = some (λ t. none) } ∷ [];
  output_policies = [];
  redact_transcript = false;
}

abbrev request : Request (Unit {0})
request = record {
  model = codes "m";
  messages = [];
  input_items = [];
  previous_response_id = [];
  rest = tt;
}

abbrev reply : Response
reply = record { response_id = codes "1"; text = codes "ok"; output = []; tool_calls = [] }

abbrev provider : Request (Unit {0}) → Unit {0} → Result Text (Option Response) × Unit {0}
provider req w = (ok (some reply), w)

abbrev no_calls : List ToolCall → Trace × Unit {0} → List ToolResult × (Trace × Unit {0})
no_calls cs s = ([], s)

no_fault :
    (run_prepared lower rules provider no_calls (pos 0) (some []) (codes "hi") request tt).fault
    ≡ none
unfolding run_prepared
no_fault = refl

run_prepared-IsAllowed_example :
    All (IsClear lower (codes "hi")) rules.blocked_substrings
    × All (Accepts (codes "hi")) rules.input_policies
    × IsAllowedAnswer lower rules
        (run_prepared lower rules provider no_calls
          (pos 0)
          (some [])
          (codes "hi")
          request
          tt).response
run_prepared-IsAllowed_example =
    run_prepared-IsAllowed lower rules provider no_calls (pos 0) (codes "hi") request tt (some [])
      no_fault

run_prepared-turn_example :
    ((check_input lower rules (codes "rm -r") ≢ none)
      × ((run_prepared lower rules provider no_calls
            (pos 0)
            (some [])
            (codes "rm -r")
            request
            tt).world
          ≡ tt)
      × ((run_prepared lower rules provider no_calls
            (pos 0)
            (some [])
            (codes "rm -r")
            request
            tt).transcript
          ≡ some []))
    ⊎ ((check_input lower rules (codes "rm -r") ≡ none)
        × ((run_prepared lower rules provider no_calls
              (pos 0)
              (some [])
              (codes "rm -r")
              request
              tt).transcript
            ≡ some (
                []
                ++ record {
                  request = request;
                  response =
                      (run_prepared lower rules provider no_calls
                        (pos 0)
                        (some [])
                        (codes "rm -r")
                        request
                        tt).response;
                  fault =
                      (run_prepared lower rules provider no_calls
                        (pos 0)
                        (some [])
                        (codes "rm -r")
                        request
                        tt).fault;
                }
                  ∷ [])))
run_prepared-turn_example =
    run_prepared-turn lower rules provider no_calls (pos 0) (codes "rm -r") request tt []

abbrev turn : Text → Turn (Unit {0})
turn id = record {
  id = id;
  prompt = [];
  request = request;
  response = some reply;
  started_at = 0;
  ended_at = 0;
  error = [];
}

abbrev event : Text → Event
event id = record {
  id = codes "e";
  session_id = codes "s";
  turn_id = id;
  at = 0;
  kind = [];
  tool = [];
  payload = [];
  error = [];
}

abbrev talk : Session (Unit {0})
talk = record {
  id = codes "s";
  project_root = [];
  provider_name = [];
  model = [];
  agent_name = [];
  mode = build;
  created_at = 0;
  updated_at = 0;
  turns = turn (codes "a") ∷ turn (codes "b") ∷ [];
  events = event (codes "a") ∷ event (codes "b") ∷ [];
  todos = [];
  summary = [];
  last_response_id = [];
  last_input_items = [];
  metadata = none;
}

abbrev fresh_id : Event → Text
fresh_id e = codes "f"

fork_session-turns_example :
    ((fork_session (codes "n") fresh_id 1 talk (codes "a")
        ≡ err (turn_not_found (codes "a") (codes "s")))
      × (codes "a" ≢ [])
      × All (IsOther (codes "a")) talk.turns)
    ⊎ ((f : Session (Unit {0})) × (fork_session (codes "n") fresh_id 1 talk (codes "a") ≡ ok f)
        × IsForkAt (codes "a") talk.turns f.turns)
fork_session-turns_example = fork_session-turns (codes "n") fresh_id 1 talk (codes "a")

abbrev fork : Session (Unit {0})
fork = record talk {
  id = codes "n";
  created_at = 1;
  updated_at = 1;
  turns = turn (codes "a") ∷ [];
  events = record (event (codes "a")) { id = codes "f"; session_id = codes "n" } ∷ [];
  last_response_id = codes "1";
  metadata = some ((codes "forked_from", codes "s") ∷ (codes "forked_at_turn", codes "a") ∷ []);
}

talk-forks : fork_session (codes "n") fresh_id 1 talk (codes "a") ≡ ok fork
unfolding fork_session kkode.Session.Fork.retained_events kkode.Session.Fork.last_response
    kkode.Session.Fork.fork_metadata retained_turn_ids
talk-forks = refl
