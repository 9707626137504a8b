-- ===== src/Gateway/Service/Stream.antt =====
-- `writeRunSSE` of gateway/server.go and the snapshot of events before it: which events of a run a
-- client of the stream is sent, and when the stream ends.
pub mod Numbered
use kkode.Prelude.{
  ℕ, zero, suc, ◌+◌, Bool, true, false, ◌&&◌, ◌||◌, not, List, [], ◌∷◌, ◌++◌, map, ◌==◌, leb, ltb,
  if◌then◌else◌, Option, none, some, Result, ok, err, length, take,
}
use kkode.Strings.{Text, is_empty, text_eq}
use kkode.Gateway.Runs.{Run, Status, Metadata, is_terminal}
use kkode.Gateway.Events.{RunEvent, run_event_type, change_event}

-- A value of a channel with the time it came, a tick of the heartbeat, and the two ends: the
-- channel is closed, or the request's context is done.
pub data Input (A : Type 0) : Type 0 where
  received : ℕ → A → Input A
  tick closed done : Input A

-- What is written to the client.
pub data Frame : Type 0 where
  event : RunEvent → Frame
  heartbeat : Frame

-- `redactStringMap` of gateway/session_export.go
unfoldable pub redact_values : (Text → Text) → Metadata → Metadata
redact_values redact [] = []
redact_values redact ((k, v) ∷ m) = (k, redact v) ∷ redact_values redact m

-- `redactRunEventSnapshot` of gateway/run_manager.go, with `llm.RedactSecrets` as an argument
unfoldable pub redact_run : (Text → Text) → Run → Run
unfolding redact_values
redact_run redact r = record r {
  prompt = redact r.prompt;
  error = redact r.error;
  metadata = elim r.metadata [ none ↦ none | some m ↦ some (redact_values redact m) ];
  context_blocks = map redact r.context_blocks;
}

-- `redactRawJSON` of gateway/session_export.go; the argument is `llm.RedactSecrets` on bytes.
abbrev pub redact_raw_json : (List ℕ → List ℕ) → List ℕ → List ℕ
redact_raw_json redact [] = []
redact_raw_json redact (c ∷ cs) = redact (c ∷ cs)

-- `eventType == "" || event.Type == eventType`
unfoldable pub is_wanted : Text → Text → Bool
unfolding is_empty text_eq
is_wanted wanted kind = is_empty wanted || text_eq kind wanted

-- The event that stands for the state of a run.
abbrev pub state_event : ℕ → ℕ → Run → RunEvent
state_event seq now r = record (change_event r) { seq = seq; at = now }

-- The number that an event gets behind the number `seq`.
abbrev pub next_seq : ℕ → ℕ → ℕ
next_seq seq n = if leb n seq then seq + 1 else n

abbrev pub stamped : ℕ → ℕ → RunEvent → RunEvent
stamped n now e = record e { seq = n; at = if e.at == 0 then now else e.at }

-- The number and the status of the last event of the snapshot.
abbrev pub last_seq : ℕ → List RunEvent → ℕ
last_seq n [] = n
last_seq n (e ∷ es) = last_seq e.seq es

abbrev pub last_status : Status → List RunEvent → Status
last_status s [] = s
last_status s (e ∷ es) = last_status e.run.status es

-- What the loop reads: the channel of events, else the channel of runs, else nothing.
pub data Source : Type 0 where
  events : List (Input RunEvent) → Source
  runs : List (Input Run) → Source
  no_subscriber : Source

module _ (redact : Text → Text) (redact_json : List ℕ → List ℕ) where
  -- `redactRunEvent` of gateway/run_manager.go
  unfoldable pub redact_run_event : RunEvent → RunEvent
  unfolding redact_run
  redact_run_event e = record e {
    message = redact e.message;
    error = redact e.error;
    payload = redact_raw_json redact_json e.payload;
    run = redact_run redact e.run;
  }

  -- `writeRunSSEEvent`
  abbrev pub written : RunEvent → Frame
  written e = event (redact_run_event e)

  unfoldable pub fallback_events : Run → ℕ → Text → ℕ → List RunEvent
  unfolding is_wanted redact_run_event run_event_type
  fallback_events r after wanted now =
      if leb 1 after
      then []
      else if is_wanted wanted (run_event_type r.status)
      then redact_run_event (state_event 1 now r) ∷ []
      else []

  -- `runEventSnapshotWithLimit`, from the answer of `RunEventLister` where there is one
  unfoldable pub snapshot :
      Option (Result Text (List RunEvent)) → Run → ℕ → Text → ℕ → List RunEvent
  unfolding fallback_events redact_run_event is_empty
  snapshot none r after wanted now = fallback_events r after wanted now
  snapshot (some (err e)) r after wanted now = fallback_events r after wanted now
  snapshot (some (ok (e ∷ es))) r after wanted now = map redact_run_event (e ∷ es)
  snapshot (some (ok [])) r after wanted now =
      if ltb 0 after || not (is_empty wanted) then [] else fallback_events r after wanted now

  -- The loop over the events of `RunEventSubscriber`
  unfoldable pub follow_events : Text → ℕ → List (Input RunEvent) → List Frame
  unfolding is_wanted is_terminal redact_run_event
  follow_events wanted seq [] = []
  follow_events wanted seq (closed ∷ is) = []
  follow_events wanted seq (done ∷ is) = []
  follow_events wanted seq (tick ∷ is) = heartbeat ∷ follow_events wanted seq is
  follow_events wanted seq (received now e ∷ is) =
      let n = if is_wanted wanted e.kind then next_seq seq e.seq else seq in
      let rest = follow_events wanted n is in
      let others = if is_terminal e.run.status then [] else rest in
      if is_wanted wanted e.kind then written (stamped n now e) ∷ others else others

  -- The loop over the runs of `RunSubscriber`
  unfoldable pub follow_runs : Text → ℕ → List (Input Run) → List Frame
  unfolding is_wanted is_terminal redact_run_event run_event_type
  follow_runs wanted seq [] = []
  follow_runs wanted seq (closed ∷ is) = []
  follow_runs wanted seq (done ∷ is) = []
  follow_runs wanted seq (tick ∷ is) = heartbeat ∷ follow_runs wanted seq is
  follow_runs wanted seq (received now r ∷ is) =
      let hit = is_wanted wanted (run_event_type r.status) in
      let rest = follow_runs wanted (if hit then seq + 1 else seq) is in
      if not hit
      then rest
      else written (state_event (seq + 1) now r) ∷ (if is_terminal r.status then [] else rest)

  -- The frames before the loop, and the number that it starts from.
  unfoldable pub opening : Run → Text → ℕ → List RunEvent → List Frame × ℕ
  unfolding is_wanted redact_run_event run_event_type
  opening r wanted now es =
      let first =
        if is_wanted wanted (run_event_type r.status)
        then written (state_event 1 now r) ∷ []
        else [] in
      if last_seq 0 es == 0 then (map written es ++ first, 1) else (map written es, last_seq 0 es)

  unfoldable pub follow : Text → ℕ → Source → List Frame
  unfolding follow_events follow_runs
  follow wanted seq (events is) = follow_events wanted seq is
  follow wanted seq (runs is) = follow_runs wanted seq is
  follow wanted seq no_subscriber = []

  -- `writeRunSSE` with the events of the snapshot
  unfoldable pub write_run_sse : Run → Text → ℕ → List RunEvent → Source → List Frame
  unfolding opening is_terminal follow
  write_run_sse r wanted now es source =
      let start = opening r wanted now es in
      if is_terminal (last_status r.status es)
      then start.0
      else start.0 ++ follow wanted start.1 source
