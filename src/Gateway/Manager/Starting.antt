-- ===== src/Gateway/Manager/Starting.antt =====
-- `Start` and `claimAcceptedRun` of gateway/run_manager.go, and a request that comes twice.
use kkode.Prelude.{
  ℕ, Bool, true, false, [], ◌∷◌, ◌++◌, if◌then◌else◌, Option, none, some, Result, ok, err,
}
use kkode.Strings.{Text, is_empty, trim_space}
use kkode.Gateway.Runs.{
  queued, Run, StartRequest, run_events_url, clone_run, same_idempotent_run,
  mark_idempotency_reused,
}
use kkode.Gateway.Requests.{sanitize_run_start_request}
use kkode.Gateway.Manager.{claiming, ManagedRun, Manager, find, modify, drop_run, to_waiting}

-- The record that `Start` accepts.
unfoldable pub accepted : Text → StartRequest → ℕ → Run
accepted id req now = record {
  id = id;
  session_id = req.session_id;
  turn_id = [];
  status = queued;
  prompt = req.prompt;
  provider = req.provider;
  model = req.model;
  working_directory = req.working_directory;
  max_output_tokens = req.max_output_tokens;
  mcp_servers = req.mcp_servers;
  skills = req.skills;
  subagents = req.subagents;
  enabled_tools = req.enabled_tools;
  disabled_tools = req.disabled_tools;
  context_blocks = req.context_blocks;
  events_url = run_events_url id;
  started_at = now;
  ended_at = 0;
  duration_ms = 0;
  error = [];
  metadata = req.metadata;
}

pub data StartError : Type 0 where
  already_exists : StartError
  claim_failed : Text → StartError

-- The entry that `Start` makes before it asks the store
abbrev pub entered : Run → ManagedRun
entered run = record { run = run; asked = false; stopped = false; phase = claiming }

-- `claimAcceptedRun`: the store's answer is the run that it holds under the id, and whether this
-- call has put it there.
abbrev pub Claim : Type 0
Claim = Run → Result Text (Run × Bool)

-- `Start` under the lock: its answer if the id is known, and else the run, entered.
unfoldable pub look_up : StartRequest → ℕ → Manager → Option (Result StartError Run) × Manager
unfolding find accepted same_idempotent_run mark_idempotency_reused clone_run
look_up req now m = elim (find req.run_id m.runs) [
  | some r ↦
      if same_idempotent_run r.run req
      then (some (ok (mark_idempotency_reused (clone_run r.run))), m)
      else (some (err already_exists), m)
  | none ↦ (none, record m { runs = (req.run_id, entered (accepted req.run_id req now)) ∷ m.runs })
]

-- `Start` after the claim. A run that the store has not taken in is deleted.
unfoldable pub claimed :
    Manager → Text → StartRequest → Result Text (Run × Bool) → Result StartError Run × Manager
unfolding same_idempotent_run mark_idempotency_reused clone_run drop_run modify
claimed m id req (err e) = (err (claim_failed e), record m { runs = drop_run id m.runs })
claimed m id req (ok (saved, false)) =
    if same_idempotent_run saved req
    then (ok (mark_idempotency_reused (clone_run saved)), record m { runs = drop_run id m.runs })
    else (err already_exists, record m { runs = drop_run id m.runs })
claimed m id req (ok (saved, true)) = (
  ok (clone_run saved),
  record m { runs = modify id to_waiting m.runs; snapshots = m.snapshots ++ saved ∷ [] },
)

abbrev pub after_look :
    Claim
    → StartRequest
    → ℕ
    → Option (Result StartError Run) × Manager
    → Result StartError Run × Manager
after_look claim req now (some reply, m) = (reply, m)
after_look claim req now (none, m) = claimed m req.run_id req (claim (accepted req.run_id req now))

-- `Start` from its look at the runs on, with no other call between its parts: the request is
-- sanitised and has an id, its own or a fresh one.
unfoldable pub start : Claim → StartRequest → ℕ → Manager → Result StartError Run × Manager
unfolding look_up claimed accepted
start claim req now m = after_look claim req now (look_up req now m)

-- `Start` from its first line on; `fresh` is what `session.NewID` gives.
unfoldable pub start_unchecked :
    (Text → Text) → Claim → Text → StartRequest → ℕ → Manager → Result StartError Run × Manager
unfolding start sanitize_run_start_request trim_space is_empty
start_unchecked redact claim fresh req now m =
    let clean = sanitize_run_start_request redact req in
    let id = if is_empty (trim_space clean.run_id) then fresh else trim_space clean.run_id in
    start claim (record clean { run_id = id }) now m

-- The state after a request that the store has taken in.
abbrev added : StartRequest → ℕ → Manager → Manager
added req now m = record m {
  runs = (req.run_id, to_waiting (entered (accepted req.run_id req now))) ∷ m.runs;
  snapshots = m.snapshots ++ accepted req.run_id req now ∷ [];
}
