-- ===== src/Examples/Lives.antt =====
-- The theorems on the life of runs at concrete inputs.
use kkode.Prelude.{[], ◌≡◌, refl, none, some, arith}
use kkode.Prelude.Int.{pos}
use kkode.Strings.{Text, codes}
use kkode.Gateway.Runs.{StartRequest}
use kkode.Gateway.Runs.Settling.{IsKnownResult}
use kkode.Gateway.Manager.{ended, ManagedRun, Manager, find, cancel_owned, changed}
use kkode.Gateway.Manager.Starting.{look_up, entered, accepted}
use kkode.Gateway.Manager.Steps.{Reach, here, next, submit, cancel}
use kkode.Gateway.Manager.Reachable.{fresh}
use kkode.Gateway.Manager.Draining.{Works, Reach-drains}
use kkode.Gateway.Manager.Invariant.{SlotsFit}

abbrev request : StartRequest
request = record {
  run_id = codes "r";
  session_id = codes "s";
  prompt = codes "p";
  provider = [];
  model = [];
  working_directory = [];
  max_preview_bytes = pos 0;
  max_output_tokens = pos 0;
  mcp_servers = [];
  skills = [];
  subagents = [];
  enabled_tools = [];
  disabled_tools = [];
  context_blocks = [];
  metadata = none;
}

abbrev one_claiming : Manager
one_claiming = (look_up request 5 (fresh (some 1))).1

abbrev claiming_run : ManagedRun
claiming_run = entered (accepted (codes "r") request 5)

claiming_found : find (codes "r") one_claiming.runs ≡ some claiming_run
unfolding look_up find
claiming_found = refl

abbrev stopped_run : ManagedRun
stopped_run = cancel_owned 6 claiming_run

abbrev one_stopping : Manager
one_stopping = changed one_claiming (codes "r") (cancel_owned 6)

to_stopping : Reach IsKnownResult (fresh (some 1)) one_stopping
to_stopping = next (next here (submit request 5 refl)) (cancel (codes "r") 6 refl)

Reach-drains_example :
    (m' : Manager) × Works IsKnownResult one_stopping m'
    × SlotsFit m'.slots m'.occupied 0
    × ((id : Text) (r : ManagedRun) → find id m'.runs ≡ some r → r.phase ≡ ended)
unfolding look_up changed
Reach-drains_example =
    Reach-drains IsKnownResult request (some 1) {m = one_stopping} (λ x k. k) tt (omega arith)
      to_stopping
