-- ===== src/Gateway/Manager.antt =====
-- `AsyncRunManager` of gateway/run_manager.go: the runs of one gateway process and the goroutine
-- that executes each. The functions are what happens under the manager's lock or between two waits:
-- a cancellation is the change of the run under the lock and, later, the call of the context's
-- cancel function, and a start is the entry of the run and, later, what the store's answer makes of
-- it.
pub mod Steps
pub mod Consistency
pub mod Invariant
pub mod Preserved
pub mod Reachable
pub mod Untouched
pub mod Final
pub mod Queries
pub mod Starting
pub mod Stats
pub mod Recovery
pub mod Lifecycle
pub mod Distinct
pub mod Work
pub mod Draining
use kkode.Prelude.{
  ℕ, zero, suc, ◌+◌, ◌-◌, Bool, true, false, ◌&&◌, ◌||◌, not, List, [], ◌∷◌, ◌++◌, ltb,
  if◌then◌else◌, Option, none, some, Result, ok, err,
}
use kkode.Strings.{Text, codes, is_empty, text_eq, trim_space}
use kkode.Gateway.Runs.{
  Status, queued, running, cancelling, completed, failed, cancelled, other, Run, StartRequest,
  StarterError, is_terminal, clone_run, finish_run, same_idempotent_run, mark_idempotency_reused,
  run_events_url,
}

-- Where a run stands: in `Start`, while the store is asked; then in `execute`, before
-- `acquireRunSlot` returns, between it and the update to `running`, in the starter, and after the
-- last update.
pub data Phase : Type 0 where
  claiming waiting holding executing ended : Phase

-- `managedRun`, with its goroutine. `asked` says that a call of `Cancel` or `Shutdown` has taken the
-- cancel function of the run's context, and `stopped` that it has called it. The call that the
-- goroutine itself makes when it has ended is left out: nothing looks at the context then.
pub record ManagedRun : Type 0 where
  pub run : Run
  pub asked : Bool
  pub stopped : Bool
  pub phase : Phase

abbrev pub Runs : Type 0
Runs = List (Text × ManagedRun)

-- `slots` is the capacity of the channel `runSlots`, or none without a limit; `occupied` is its
-- length; `snapshots` are the copies of runs that the calls took under the lock, in the
-- order of the locks, to save and publish once the lock is free.
pub record Manager : Type 0 where
  pub runs : Runs
  pub slots : Option ℕ
  pub occupied : ℕ
  pub snapshots : List Run

unfoldable pub find : Text → Runs → Option ManagedRun
unfolding text_eq
find id [] = none
find id ((j, m) ∷ rs) = if text_eq j id then some m else find id rs

unfoldable pub modify : Text → (ManagedRun → ManagedRun) → Runs → Runs
unfolding text_eq
modify id f [] = []
modify id f ((j, m) ∷ rs) = if text_eq j id then (j, f m) ∷ rs else (j, m) ∷ modify id f rs

-- The room that `acquireRunSlot` needs.
unfoldable pub has_room : Manager → Bool
has_room m = elim m.slots [ none ↦ true | some n ↦ ltb m.occupied n ]

-- Without a limit no slot is taken or given back.
unfoldable pub take_slot : Option ℕ → ℕ → ℕ
take_slot none n = n
take_slot (some c) n = n + 1

unfoldable pub release_slot : Option ℕ → ℕ → ℕ
release_slot none n = n
release_slot (some c) n = n - 1

-- `acquireRunSlot` succeeds.
abbrev pub to_holding : ManagedRun → ManagedRun
to_holding r = record r { phase = holding }

-- The store has taken the run in, and its goroutine starts.
abbrev pub to_waiting : ManagedRun → ManagedRun
to_waiting r = record r { phase = waiting }

-- The cancel function of the run's context is called.
abbrev pub to_stopped : ManagedRun → ManagedRun
to_stopped r = record r { stopped = true }

-- It gives up, and the run is closed.
abbrev pub refuse_run : ℕ → Text → Run → Run
refuse_run now e r = record r { status = cancelled; ended_at = now; error = e }

abbrev pub to_refused : ℕ → Text → ManagedRun → ManagedRun
to_refused now e r = record r { run = refuse_run now e r.run; phase = ended }

-- The update before the starter is called.
abbrev pub begin_run : ℕ → Run → Run
begin_run now r = record r { status = running; started_at = now }

abbrev pub to_executing : ℕ → ManagedRun → ManagedRun
to_executing now r = record r { run = begin_run now r.run; phase = executing }

-- The update after it.
abbrev pub to_ended :
    StartRequest → ℕ → Option Run → Option StarterError → Option Text → ManagedRun → ManagedRun
to_ended req now result e ctx_err r = record r {
  run = finish_run req now result e ctx_err r.run;
  phase = ended;
}

unfoldable pub is_cancellable : Status → Bool
is_cancellable queued = true
is_cancellable running = true
is_cancellable _ = false

-- What `Cancel` does under the lock to a run that this process owns.
unfoldable pub cancel_owned : ℕ → ManagedRun → ManagedRun
unfolding is_cancellable
cancel_owned now r =
    if is_cancellable r.run.status
    then record r { run = record (r.run) { status = cancelling; ended_at = now }; asked = true }
    else r

-- What `Shutdown` does to each run under the lock.
unfoldable pub shut_down_owned : ℕ → ManagedRun → ManagedRun
unfolding is_terminal
shut_down_owned now r = if is_terminal r.run.status then r else record r {
  run = record (r.run) {
    status = cancelling;
    ended_at = now;
    error = codes "gateway shutting down";
  };
  asked = true;
}

unfoldable pub shut_down_all : ℕ → Runs → Runs
unfolding shut_down_owned
shut_down_all now [] = []
shut_down_all now ((j, r) ∷ rs) = (j, shut_down_owned now r) ∷ shut_down_all now rs

-- The copies of runs that a shutdown takes.
unfoldable pub shut_down_events : ℕ → Runs → List Run
unfolding shut_down_owned is_terminal clone_run
shut_down_events now [] = []
shut_down_events now ((j, r) ∷ rs) =
    let rest = shut_down_events now rs in
    if is_terminal r.run.status then rest else clone_run (shut_down_owned now r).run ∷ rest

-- `delete` on the map of runs
unfoldable pub drop_run : Text → Runs → Runs
unfolding text_eq
drop_run id [] = []
drop_run id ((j, m) ∷ rs) = if text_eq j id then rs else (j, m) ∷ drop_run id rs

-- `update` under the lock: the change of one run, and the copy of it.
unfoldable pub changed : Manager → Text → (ManagedRun → ManagedRun) → Manager
unfolding find modify clone_run
changed m id f = elim (find id m.runs) [
  | none ↦ m
  | some r ↦ record m {
    runs = modify id f m.runs;
    snapshots = m.snapshots ++ clone_run (f r).run ∷ [];
  }
]
