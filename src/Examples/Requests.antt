-- ===== src/Examples/Requests.antt =====
-- The theorems on requests to start a run at concrete inputs.
use kkode.Prelude.{
  ℕ, suc, false, List, [], ◌∷◌, ◌≡◌, ◌↔◌, refl, none, some, ok, err, arith, map, All, not, ◌&&◌,
}
use kkode.Prelude.Int.{pos}
use kkode.Strings.{Text, codes, text_eq, is_empty, trim_space}
use kkode.Strings.Bytes.{IsLongestWithin}
use kkode.Filepath.{is_abs, join_path}
use kkode.Filepath.Clean.{IsName, render}
use kkode.Workspace.Inside.{IsInside}
use kkode.Gateway.Runs.{StartRequest}
use kkode.Gateway.Requests.{
  truncate_context_block, sanitize_unique_strings, sanitize_working_directory,
  sanitize_run_start_request, has_name,
}
use kkode.Gateway.Requests.Validation.{validate_run_start_request}
use kkode.Gateway.Requests.Accepted.{IsAccepted, validate_run_start_request_iff}
use kkode.Gateway.Requests.Blocks.{truncate_context_block-IsLongestWithin}
use kkode.Gateway.Requests.Selections.{AreDistinct, sanitize_unique_strings_lem}
use kkode.Gateway.Requests.Folders.{accepted-IsInside}
use kkode.Gateway.Service.{refuse}
use kkode.Gateway.Service.Starting.{Boundary, refused, start_run, retry_run}
use kkode.Gateway.Service.Starting.Guarded.{IsGuarded, start_run-IsGuarded}

abbrev request : StartRequest
request = record {
  run_id = [];
  session_id = codes "s";
  prompt = codes "p";
  provider = [];
  model = [];
  working_directory = codes "./a//b/";
  max_preview_bytes = pos 0;
  max_output_tokens = pos 10;
  mcp_servers = [];
  skills = codes "go" ∷ [];
  subagents = [];
  enabled_tools = [];
  disabled_tools = [];
  context_blocks = [];
  metadata = none;
}

truncate_context_block-IsLongestWithin_example : IsLongestWithin 4 (codes "가나") (codes "가")
unfolding truncate_context_block
truncate_context_block-IsLongestWithin_example =
    truncate_context_block-IsLongestWithin (codes "가나") 4 (omega arith)

abbrev names : List Text
names = codes " a" ∷ [] ∷ codes "a" ∷ codes "b " ∷ []

sanitize_unique_strings_lem_example :
    AreDistinct (codes "a" ∷ codes "b" ∷ [])
    × ((t : Text)
        → has_name (codes "a" ∷ codes "b" ∷ []) t
          ≡ not (is_empty t) && has_name (map trim_space names) t)
    × (sanitize_unique_strings (codes "a" ∷ codes "b" ∷ []) ≡ codes "a" ∷ codes "b" ∷ [])
unfolding sanitize_unique_strings
sanitize_unique_strings_lem_example = sanitize_unique_strings_lem names

validate_run_start_request_iff_example :
    (validate_run_start_request request ≡ ok tt) ↔ IsAccepted request
validate_run_start_request_iff_example = validate_run_start_request_iff request

root_names : All IsName (codes "r" ∷ [])
unfolding is_empty text_eq
root_names =
    (record { has_text = refl; not_dot = refl; not_dotdot = refl; no_slash = (refl, tt) }, tt)

request-accepted : validate_run_start_request (sanitize_run_start_request (λ t. t) request) ≡ ok tt
unfolding validate_run_start_request sanitize_run_start_request
request-accepted = refl

accepted-IsInside_example :
    (is_abs (codes "a/b") ≡ false)
    × IsInside (codes "r" ∷ []) (join_path (codes "/r") (codes "a/b"))
unfolding sanitize_working_directory render
accepted-IsInside_example =
    accepted-IsInside (λ t. t) request (codes "r" ∷ []) root_names request-accepted

-- The state counts the calls of a starter that is busy.
abbrev boundary : Boundary ℕ
boundary = record {
  starter = some (λ req n. (err (codes "busy"), suc n));
  validator = none;
  lister = none;
  getter = none;
  default_mcp_servers = codes "docs" ∷ [];
  digest = λ t. t;
  equal_fold = text_eq;
  redact = λ t. t;
}

start_run-IsGuarded_example :
    IsGuarded boundary 0 (refused (refuse 500 (codes "start_run_failed")), 1)
    × IsGuarded boundary 0 (refused (refuse 501 (codes "run_retry_missing")), 0)
unfolding start_run retry_run
start_run-IsGuarded_example =
    start_run-IsGuarded boundary (codes "req_1") [] (codes "run_1") request 0
