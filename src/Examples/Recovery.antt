-- ===== src/Examples/Recovery.antt =====
-- The recovery of stale runs at a concrete store.
use kkode.Prelude.{[], ◌∷◌, ◌≡◌, refl, none}
use kkode.Prelude.Int.{pos}
use kkode.Strings.{Text, codes, text_eq}
use kkode.Gateway.Runs.{Status, running, completed, Run}
use kkode.Gateway.Manager.Recovery.{Store, finished, closed_run, recover_stale_runs}
use kkode.Gateway.Manager.Recovery.Closed.{AreDistinct}
use kkode.Gateway.Manager.Recovery.Ended.{recover_stale_runs-Ends}

abbrev run_of : Text → Status → Run
run_of id s = record {
  id = id;
  session_id = codes "s";
  turn_id = [];
  status = s;
  prompt = codes "p";
  provider = [];
  model = [];
  working_directory = [];
  max_output_tokens = pos 0;
  mcp_servers = [];
  skills = [];
  subagents = [];
  enabled_tools = [];
  disabled_tools = [];
  context_blocks = [];
  events_url = [];
  started_at = 5;
  ended_at = 0;
  duration_ms = 0;
  error = [];
  metadata = none;
}

abbrev left_store : Store
left_store = record {
  saved = run_of (codes "r") running ∷ run_of (codes "q") completed ∷ [];
  published = [];
}

left_ids : AreDistinct left_store.saved
unfolding kkode.Gateway.Manager.Recovery.Closed.find_run text_eq
left_ids = (refl, (refl, tt))

recover_stale_runs-Ends_example :
    (after : Store) × (recover_stale_runs 3 (λ t x. none) (λ r. none) (λ r. 9) left_store
      ≡ finished after)
    × (after.saved
        ≡ closed_run (λ r. 9) (run_of (codes "r") running) ∷ run_of (codes "q") completed ∷ [])
unfolding kkode.Gateway.Manager.Recovery.has_status
recover_stale_runs-Ends_example =
    recover_stale_runs-Ends (λ t x. none) (λ r. none) (λ r. 9) left_store (λ t x. refl) (λ r. refl)
      left_ids
