-- ===== src/Examples/Listing.antt =====
-- `List` of a manager with two runs, in the order of an insertion sort.
use kkode.Prelude.{ℕ, false, List, [], ◌∷◌, if◌then◌else◌, ltb, none}
use kkode.Prelude.Int.{pos}
use kkode.Strings.{Text, codes}
use kkode.Gateway.Runs.{queued, Run}
use kkode.Gateway.Manager.{waiting, Manager}
use kkode.Gateway.Manager.Queries.{RunQuery}

abbrev run_at : Text → ℕ → Run
run_at id now = record {
  id = id;
  session_id = codes "s";
  turn_id = [];
  status = queued;
  prompt = codes "p";
  provider = [];
  model = [];
  working_directory = [];
  max_output_tokens = pos 0;
  mcp_servers = [];
  skills = [];
  subagents = [];
  enabled_tools = [];
  disabled_tools = [];
  context_blocks = [];
  events_url = [];
  started_at = now;
  ended_at = 0;
  duration_ms = 0;
  error = [];
  metadata = none;
}

abbrev two_runs : Manager
two_runs = record {
  runs =
      (
        codes "r",
        record { run = run_at (codes "r") 5; asked = false; stopped = false; phase = waiting },
      )
      ∷ (
        codes "q",
        record { run = run_at (codes "q") 6; asked = false; stopped = false; phase = waiting },
      )
      ∷ [];
  slots = none;
  occupied = 0;
  snapshots = [];
}

abbrev of_session : RunQuery
of_session = record {
  session_id = codes "s";
  turn_id = [];
  status = [];
  provider = [];
  model = [];
  request_id = [];
  idempotency_key_value = [];
  limit = pos 1;
  offset = pos 0;
}

abbrev put_in : Run → List Run → List Run
put_in r [] = r ∷ []
put_in r (s ∷ rs) =
    let rest = put_in r rs in if ltb r.started_at s.started_at then s ∷ rest else r ∷ s ∷ rs

abbrev sorted : List Run → List Run
sorted [] = []
sorted (r ∷ rs) = put_in r (sorted rs)
