-- ===== src/Gateway/Manager/Recovery.antt =====
-- `RecoverStaleRuns` of gateway/run_manager.go: the runs that a process before this one has left are
-- closed, page by page. The store of runs is the list of its runs, and a save of a run replaces the
-- one with its id.
pub mod Closed
pub mod Pages
pub mod Ended
use kkode.Prelude.{
  ℕ, zero, suc, Bool, true, false, List, [], ◌∷◌, ◌++◌, if◌then◌else◌, Option, none, some, take,
}
use kkode.Strings.{Text, codes, text_eq}
use kkode.Gateway.Runs.{
  Status, queued, running, cancelling, completed, failed, cancelled, other, Run, is_terminal,
  run_duration_ms,
}

pub record Store : Type 0 where
  pub saved : List Run
  pub published : List Run

-- A recovery has ended, or a listing or a save has failed, with the store at that point. `out_of_fuel` belongs to
-- the model only.
pub data Recovery : Type 0 where
  finished : Store → Recovery
  broken : Text → Store → Recovery
  out_of_fuel : Recovery

-- The query by one of the three statuses that are asked for.
unfoldable pub is_asked : Status → Status → Bool
is_asked queued queued = true
is_asked running running = true
is_asked cancelling cancelling = true
is_asked _ _ = false

unfoldable pub has_status : Status → Run → Bool
unfolding is_asked
has_status s r = is_asked s r.status

unfoldable pub with_status : Status → List Run → List Run
unfolding has_status
with_status s [] = []
with_status s (r ∷ rs) = let rest = with_status s rs in if has_status s r then r ∷ rest else rest

-- `SaveRun`
unfoldable pub save_run : Run → List Run → List Run
unfolding text_eq
save_run r [] = r ∷ []
save_run r (q ∷ rs) = let rest = save_run r rs in if text_eq q.id r.id then r ∷ rs else q ∷ rest

-- `now` gives the time at which a run is closed, which is read for each.
abbrev pub closed_run : (Run → ℕ) → Run → Run
closed_run now r = record r {
  status = failed;
  ended_at = now r;
  duration_ms = run_duration_ms r.started_at (now r);
  error = codes "gateway restarted before this run completed";
}

abbrev pub close_in : (Run → ℕ) → Run → Store → Store
close_in now r st = record {
  saved = save_run (closed_run now r) st.saved;
  published = st.published ++ closed_run now r ∷ [];
}

-- The loop over a page. `fails` says which saves fail.
unfoldable pub recover_each : (Run → Option Text) → (Run → ℕ) → List Run → Store → Recovery
unfolding is_terminal save_run
recover_each fails now [] st = finished st
recover_each fails now (r ∷ rs) st = elim (is_terminal r.status) [
  | true ↦ recover_each fails now rs st
  | false ↦ elim (fails r) [
    | none ↦ recover_each fails now rs (close_in now r st)
    | some e ↦ broken e st
  ]
]

abbrev pub and_then : Recovery → (Store → Recovery) → Recovery
and_then (finished st) f = f st
and_then (broken e st) f = broken e st
and_then out_of_fuel f = out_of_fuel

-- One page, and the rest of the loop, which an empty page ends.
unfoldable pub recover_page :
    (Run → Option Text) → (Run → ℕ) → Store → (Store → Recovery) → List Run → Recovery
unfolding recover_each
recover_page fails now st rest [] = finished st
recover_page fails now st rest (r ∷ rs) = and_then (recover_each fails now (r ∷ rs) st) rest

-- The loop over the pages of a status, each of 1000 runs at most. `unlisted` says which calls of
-- `ListRuns` fail.
unfoldable pub recover_status :
    ℕ → (Status → Store → Option Text) → (Run → Option Text) → (Run → ℕ) → Status → Store → Recovery
unfolding with_status recover_page
recover_status zero unlisted fails now s st = out_of_fuel
recover_status (suc n) unlisted fails now s st = elim (unlisted s st) [
  | some e ↦ broken e st
  | none ↦
      recover_page fails now st (recover_status n unlisted fails now s)
        (take 1000 (with_status s st.saved))
]

-- `RecoverStaleRuns`
unfoldable pub recover_stale_runs :
    ℕ → (Status → Store → Option Text) → (Run → Option Text) → (Run → ℕ) → Store → Recovery
unfolding recover_status
recover_stale_runs n unlisted fails now st =
    and_then
      (and_then (recover_status n unlisted fails now queued st)
        (recover_status n unlisted fails now running))
      (recover_status n unlisted fails now cancelling)
