-- ===== src/Gateway/Manager/Steps.antt =====
-- The steps of the run manager, in any order that the environment chooses.
use kkode.Prelude.{ℕ, Bool, true, false, ◌++◌, ◌≡◌, Option, none, some, Result}
use kkode.Strings.{Text}
use kkode.Gateway.Runs.{Run, StartRequest, StarterError}
use kkode.Gateway.Manager.{
  claiming, waiting, holding, executing, ManagedRun, Manager, find, modify, has_room, take_slot,
  release_slot, to_holding, to_refused, to_stopped, to_executing, to_ended, cancel_owned,
  shut_down_all, shut_down_events, changed,
}
use kkode.Gateway.Manager.Starting.{look_up, claimed}

-- The context of a stopped run has an error; another may have one too, when its time is over.
abbrev pub SeesStop : Bool → Option Text → Type 0
SeesStop false e = Unit {0}
SeesStop true none = ⊥
SeesStop true (some e) = Unit {0}

-- `Allowed` is what the starter may return.
pub data Step (Allowed : Option Run → Type 0) (m m' : Manager) : Type 0 where
  acquire :
      (id : Text) (r : ManagedRun)
      → find id m.runs ≡ some r
      → r.phase ≡ waiting
      → has_room m ≡ true
      → m'
        ≡ record m { runs = modify id to_holding m.runs; occupied = take_slot m.slots m.occupied }
      → Step Allowed m m'
  refuse :
      (id : Text) (r : ManagedRun) (now : ℕ) (e : Text)
      → find id m.runs ≡ some r
      → r.phase ≡ waiting
      → r.stopped ≡ true
      → m' ≡ changed m id (to_refused now e)
      → Step Allowed m m'
  begin :
      (id : Text) (r : ManagedRun) (now : ℕ)
      → find id m.runs ≡ some r
      → r.phase ≡ holding
      → m' ≡ changed m id (to_executing now)
      → Step Allowed m m'
  finish :
      (id : Text) (r : ManagedRun) (req : StartRequest) (now : ℕ) (result : Option Run)
      (e : Option StarterError) (ctx_err : Option Text)
      → find id m.runs ≡ some r
      → r.phase ≡ executing
      → Allowed result
      → SeesStop r.stopped ctx_err
      → m' ≡ record (changed m id (to_ended req now result e ctx_err)) {
        occupied = release_slot m.slots m.occupied;
      }
      → Step Allowed m m'
  -- The locked part of `Cancel`
  cancel : (id : Text) (now : ℕ) → m' ≡ changed m id (cancel_owned now) → Step Allowed m m'
  -- The end of `Cancel`, or of a round of the loop of `Shutdown`. The call for a run that was deleted
  -- in between changes nothing and is no step.
  stop :
      (id : Text) (r : ManagedRun)
      → find id m.runs ≡ some r
      → r.asked ≡ true
      → m' ≡ record m { runs = modify id to_stopped m.runs }
      → Step Allowed m m'
  -- The locked part of `Shutdown`
  shut_down :
      (now : ℕ)
      → m' ≡ record m {
        runs = shut_down_all now m.runs;
        snapshots = m.snapshots ++ shut_down_events now m.runs;
      }
      → Step Allowed m m'
  -- The locked part of `Start`
  submit : (req : StartRequest) (now : ℕ) → m' ≡ (look_up req now m).1 → Step Allowed m m'
  -- The end of `Start`, with whatever the store has answered
  answer :
      (id : Text) (r : ManagedRun) (req : StartRequest) (said : Result Text (Run × Bool))
      → find id m.runs ≡ some r
      → r.phase ≡ claiming
      → m' ≡ (claimed m id req said).1
      → Step Allowed m m'

pub data Reach (Allowed : Option Run → Type 0) (m : Manager) : Manager → Type 0 where
  here : Reach Allowed m m
  next : {a b : Manager} → Reach Allowed m a → Step Allowed a b → Reach Allowed m b
