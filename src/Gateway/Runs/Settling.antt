-- ===== src/Gateway/Runs/Settling.antt =====
-- How a run ends.
use kkode.Prelude.{ℕ, Bool, true, false, ◌≡◌, refl, if◌then◌else◌, Option, none, some}
use kkode.Strings.{Text, is_empty}
use kkode.Gateway.Runs.{
  Status, queued, running, cancelling, completed, failed, cancelled, other, is_terminal,
  is_unsettled, Run, StartRequest, StarterError, clone_run, adopt, fill, settle, finish_run,
}

-- A status that the code compares with, or none.
abbrev pub IsKnown : Status → Type 0
IsKnown (other t) = is_empty t ≡ true
IsKnown queued = Unit {0}
IsKnown running = Unit {0}
IsKnown cancelling = Unit {0}
IsKnown completed = Unit {0}
IsKnown failed = Unit {0}
IsKnown cancelled = Unit {0}

abbrev pub IsKnownResult : Option Run → Type 0
IsKnownResult none = Unit {0}
IsKnownResult (some r) = IsKnown r.status

pub IsKnown-settles :
    (s : Status) → IsKnown s → is_terminal (if is_unsettled s then completed else s) ≡ true
unfolding is_terminal is_unsettled
IsKnown-settles queued k = refl
IsKnown-settles running k = refl
IsKnown-settles cancelling k = refl
IsKnown-settles completed k = refl
IsKnown-settles failed k = refl
IsKnown-settles cancelled k = refl
IsKnown-settles (other t) k = rw k refl

settle-is_terminal :
    (ctx_err : Option Text) (e : Option StarterError) (r : Run)
    → IsKnown r.status
    → is_terminal (settle ctx_err e r).status ≡ true
unfolding settle
settle-is_terminal (some x) e r k = unfold is_terminal in refl
settle-is_terminal none (some x) r k = by_kind x.of_context
  where
    by_kind : (b : Bool) → is_terminal (if b then cancelled else failed) ≡ true
    by_kind true = unfold is_terminal in refl
    by_kind false = unfold is_terminal in refl
settle-is_terminal none none r k = IsKnown-settles r.status k

-- The status before the last branches: the starter's, or the run's if the starter gave no result.
adopted-IsKnown :
    (req : StartRequest) (now : ℕ) (result : Option Run) (r : Run)
    → IsKnownResult result
    → IsKnown r.status
    → IsKnown (fill req now (adopt req result r)).status
unfolding fill adopt clone_run
adopted-IsKnown req now none r k h = h
adopted-IsKnown req now (some x) r k h = k

-- The last update of `execute` leaves every run in a terminal status, provided that the starter's
-- result, if any, has a status that the code knows or none.
pub finish_run-is_terminal :
    (req : StartRequest) (now : ℕ) (result : Option Run) (e : Option StarterError)
    (ctx_err : Option Text) (r : Run)
    → IsKnownResult result
    → IsKnown r.status
    → is_terminal (finish_run req now result e ctx_err r).status ≡ true
unfolding finish_run
finish_run-is_terminal req now result e ctx_err r k h =
    settle-is_terminal ctx_err e _ (adopted-IsKnown req now result r k h)

-- A run whose context has an error ends as cancelled, whatever the starter returned.
pub finish_run-cancelled :
    (req : StartRequest) (now : ℕ) (result : Option Run) (e : Option StarterError) (x : Text)
    (r : Run)
    → (finish_run req now result e (some x) r).status ≡ cancelled
unfolding finish_run settle
finish_run-cancelled req now result e x r = refl
