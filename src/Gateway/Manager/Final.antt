-- ===== src/Gateway/Manager/Final.antt =====
-- A run that has ended stays as it is in the run manager of gateway/run_manager.go.
use kkode.Prelude.{Bool, ◌≡◌, some}
use kkode.Strings.{Text}
use kkode.Gateway.Manager.{ManagedRun, Runs, Manager, find}

-- The run is kept with its phase; its context may be cancelled later.
abbrev pub IsKept : Text → ManagedRun → Manager → Type 0
IsKept id r m = (b : Bool) × (find id m.runs ≡ some (record r { stopped = b }))
