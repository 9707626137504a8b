-- ===== src/Gateway/Runs.antt =====
-- The run of gateway/dto.go and the pure functions on it of gateway/run_manager.go: what a finished
-- execution makes of a run, and which runs a query selects.
pub mod Settling
use kkode.Prelude.{
  ℕ, zero, suc, ◌-◌, ◌/◌, ◌+◌, Bool, true, false, ◌&&◌, ◌||◌, not, List, [], ◌∷◌, ◌++◌, ◌==◌, ltb,
  if◌then◌else◌, Option, none, some,
}
use kkode.Prelude.Int.{ℤ, pos, negsuc}
use kkode.Strings.{Text, codes, is_empty, text_eq, trim_space}

-- The texts that the code compares a status with, and any other text, the empty one included.
pub data Status : Type 0 where
  queued running cancelling completed failed cancelled : Status
  other : Text → Status

-- `isTerminalRunStatus` of gateway/server.go
unfoldable pub is_terminal : Status → Bool
is_terminal completed = true
is_terminal failed = true
is_terminal cancelled = true
is_terminal queued = false
is_terminal running = false
is_terminal cancelling = false
is_terminal (other t) = false

-- The statuses that a finished execution turns into `completed`.
unfoldable pub is_unsettled : Status → Bool
unfolding is_empty
is_unsettled (other t) = is_empty t
is_unsettled queued = true
is_unsettled running = true
is_unsettled cancelling = true
is_unsettled completed = false
is_unsettled failed = false
is_unsettled cancelled = false

abbrev pub Metadata : Type 0
Metadata = List (Text × Text)

-- Reading a key that is missing, or a nil map, gives the empty text.
unfoldable pub lookup : Metadata → Text → Text
unfolding text_eq
lookup [] k = []
lookup ((j, v) ∷ m) k = if text_eq j k then v else lookup m k

unfoldable pub put : Metadata → Text → Text → Metadata
unfolding text_eq
put [] k v = (k, v) ∷ []
put ((j, u) ∷ m) k v = if text_eq j k then (k, v) ∷ m else (j, u) ∷ put m k v

abbrev pub entries : Option Metadata → Metadata
entries none = []
entries (some m) = m

-- Times are nanoseconds, and 0 is the zero time. The token usage, which is only copied, is left out.
pub record Run : Type 0 where
  pub id : Text
  pub session_id : Text
  pub turn_id : Text
  pub status : Status
  pub prompt : Text
  pub provider : Text
  pub model : Text
  pub working_directory : Text
  pub max_output_tokens : ℤ
  pub mcp_servers : List Text
  pub skills : List Text
  pub subagents : List Text
  pub enabled_tools : List Text
  pub disabled_tools : List Text
  pub context_blocks : List Text
  pub events_url : Text
  pub started_at : ℕ
  pub ended_at : ℕ
  pub duration_ms : ℕ
  pub error : Text
  pub metadata : Option Metadata

-- `RunStartRequest`, without the flag for streamed previews.
pub record StartRequest : Type 0 where
  pub run_id : Text
  pub session_id : Text
  pub prompt : Text
  pub provider : Text
  pub model : Text
  pub working_directory : Text
  pub max_preview_bytes : ℤ
  pub max_output_tokens : ℤ
  pub mcp_servers : List Text
  pub skills : List Text
  pub subagents : List Text
  pub enabled_tools : List Text
  pub disabled_tools : List Text
  pub context_blocks : List Text
  pub metadata : Option Metadata

-- The empty slice and nil are one list here: the code only asks for the length.
abbrev pub or_text : Text → Text → Text
or_text t u = if is_empty t then u else t

abbrev pub or_list : List Text → List Text → List Text
or_list [] ys = ys
or_list (x ∷ xs) ys = x ∷ xs

abbrev pub or_tokens : ℤ → ℤ → ℤ
or_tokens (pos zero) m = m
or_tokens (pos (suc n)) m = pos (suc n)
or_tokens (negsuc n) m = negsuc n

-- `runDurationMS`
unfoldable pub run_duration_ms : ℕ → ℕ → ℕ
run_duration_ms started ended =
    if started == 0 || ended == 0 || ltb ended started then 0 else (ended - started) / 1000000

-- `cloneRun`: copies do not alias, so only the derived field changes.
unfoldable pub clone_run : Run → Run
unfolding run_duration_ms
clone_run r = record r { duration_ms = run_duration_ms r.started_at r.ended_at }

-- `runEventsURL`
unfoldable pub run_events_url : Text → Text
unfolding is_empty trim_space
run_events_url id =
    if is_empty (trim_space id)
    then []
    else codes "/api/v1/runs/" ++ (trim_space id ++ codes "/events")

abbrev pub request_id_key : Text
request_id_key = codes "request_id"

abbrev pub idempotency_key : Text
idempotency_key = codes "idempotency_key"

abbrev pub idempotency_reused_key : Text
idempotency_reused_key = codes "idempotency_reused"

-- `withRequestIDMetadata` of gateway/request_id.go
unfoldable pub with_request_id : Option Metadata → Text → Option Metadata
unfolding trim_space put is_empty
with_request_id m id =
    if is_empty (trim_space id) then m else some (put (entries m) request_id_key (trim_space id))

-- What the starter's result leaves out is the request's; its id always is.
unfoldable pub adopt : StartRequest → Option Run → Run → Run
unfolding clone_run is_empty
adopt req none run = run
adopt req (some r) run = clone_run (record r {
  id = req.run_id;
  session_id = or_text r.session_id req.session_id;
  prompt = or_text r.prompt req.prompt;
  metadata = elim r.metadata [ none ↦ req.metadata | some m ↦ some m ];
})

-- The fields that are still empty, the request id and the address of the events.
unfoldable pub fill : StartRequest → ℕ → Run → Run
unfolding with_request_id run_events_url is_empty
fill req now r = record r {
  id = or_text r.id req.run_id;
  session_id = or_text r.session_id req.session_id;
  provider = or_text r.provider req.provider;
  model = or_text r.model req.model;
  working_directory = or_text r.working_directory req.working_directory;
  max_output_tokens = or_tokens r.max_output_tokens req.max_output_tokens;
  mcp_servers = or_list r.mcp_servers req.mcp_servers;
  skills = or_list r.skills req.skills;
  subagents = or_list r.subagents req.subagents;
  enabled_tools = or_list r.enabled_tools req.enabled_tools;
  disabled_tools = or_list r.disabled_tools req.disabled_tools;
  context_blocks = or_list r.context_blocks req.context_blocks;
  metadata = with_request_id r.metadata (lookup (entries req.metadata) request_id_key);
  events_url = run_events_url (or_text r.id req.run_id);
  ended_at = if r.ended_at == 0 then now else r.ended_at;
}

-- An error of the starter, and whether it is a context's: `errors.Is` with `context.Canceled` or
-- `context.DeadlineExceeded`.
pub record StarterError : Type 0 where
  pub text : Text
  pub of_context : Bool

-- The end of the update: the error of the run's context comes first, then the starter's.
unfoldable pub settle : Option Text → Option StarterError → Run → Run
unfolding is_unsettled is_empty
settle (some e) err r = record r { error = or_text r.error e; status = cancelled }
settle none (some e) r = record r {
  error = e.text;
  status = if e.of_context then cancelled else failed;
}
settle none none r = record r { status = if is_unsettled r.status then completed else r.status }

-- The last update of `execute`.
unfoldable pub finish_run :
    StartRequest → ℕ → Option Run → Option StarterError → Option Text → Run → Run
unfolding adopt fill settle
finish_run req now result err ctx_err r = settle ctx_err err (fill req now (adopt req result r))

-- `sameIdempotentRun`
unfoldable pub same_idempotent_run : Run → StartRequest → Bool
unfolding lookup trim_space text_eq is_empty
same_idempotent_run existing req =
    let key = trim_space (lookup (entries req.metadata) idempotency_key) in
    not (is_empty key)
    && text_eq existing.session_id req.session_id
    && text_eq (trim_space (lookup (entries existing.metadata) idempotency_key)) key

-- `markIdempotencyReused`
unfoldable pub mark_idempotency_reused : Run → Run
unfolding put
mark_idempotency_reused r = record r {
  metadata = some (put (entries r.metadata) idempotency_reused_key (codes "true"));
}
