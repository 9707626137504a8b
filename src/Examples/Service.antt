-- ===== src/Examples/Service.antt =====
-- The theorems on the HTTP service at concrete inputs.
use kkode.Prelude.{ℕ, true, false, List, [], ◌∷◌, ◌≡◌, refl, none, ok, arith, take, drop}
use kkode.Prelude.Int.{pos}
use kkode.Strings.{Text, codes, text_eq}
use kkode.Gateway.Runs.{Run, StartRequest, run_events_url, completed, running}
use kkode.Gateway.Manager.Starting.{accepted}
use kkode.Gateway.Events.{RunEvent, change_event}
use kkode.Gateway.Service.Routes.{reached, run_new}
use kkode.Gateway.Service.Routes.Fitting.{Fits, is_open}
use kkode.Gateway.Service.Access.{HttpRequest, ServerConfig, Net, at_api, serve}
use kkode.Gateway.Service.Access.Admitted.{IsAuthorized, serve-IsAdmitted}
use kkode.Gateway.Service.Paging.{page_slice, trim_page, read_all, read_all-all}
use kkode.Gateway.Service.Stream.{received, tick, heartbeat, events, follow, follow_events}
use kkode.Gateway.Service.Stream.Numbered.{AreNumbered, follow-AreNumbered, follow_events-ends}

abbrev config : ServerConfig
config = record {
  api_key = codes "k";
  allow_localhost_no_auth = false;
  cors_origins = [];
  max_request_bytes = pos 0;
  fresh_id = codes "req_1";
}

abbrev network : Net
network = record {
  split_host = λ a. none;
  loopback = λ h. none;
  equal_fold = text_eq;
  mux = λ path. ok at_api;
}

abbrev post_runs : HttpRequest
post_runs = record {
  method = codes "POST";
  path = codes "/api/v1/runs";
  remote_addr = codes "10.0.0.1:80";
  request_id = [];
  authorization = codes "Bearer k";
  origin = [];
  has_body = true;
  content_length = pos 20;
}

serve-IsAdmitted_example :
    (is_open run_new ≡ false → IsAuthorized config network post_runs)
    × Fits (codes "POST") (reached run_new)
unfolding serve
serve-IsAdmitted_example = serve-IsAdmitted config network post_runs

abbrev items : List ℕ
items = 7 ∷ 8 ∷ 9 ∷ []

read_all-all_example :
    (read_all (λ n. page_slice items (pos 2) (pos n)) 3 0 ≡ items)
    × (read_all (λ n. trim_page (take 3 (drop n items)) 2) 3 0 ≡ items)
read_all-all_example = read_all-all items 2 (omega arith)

abbrev request : StartRequest
request = record {
  run_id = codes "r";
  session_id = codes "s";
  prompt = codes "p";
  provider = [];
  model = [];
  working_directory = [];
  max_preview_bytes = pos 0;
  max_output_tokens = pos 0;
  mcp_servers = [];
  skills = [];
  subagents = [];
  enabled_tools = [];
  disabled_tools = [];
  context_blocks = [];
  metadata = none;
}

abbrev run_at : Text → ℕ → Run
run_at id now = accepted id request now

abbrev ended_run : Run
ended_run = record (run_at (codes "r") 5) { status = completed }

abbrev ended_event : RunEvent
ended_event = record (change_event ended_run) { seq = 4 }

follow-AreNumbered_example :
    AreNumbered [] 2 (follow (λ t. t) (λ p. p) [] 2 (events (tick ∷ received 8 ended_event ∷ [])))
follow-AreNumbered_example =
    follow-AreNumbered (λ t. t) (λ p. p) [] 2 (events (tick ∷ received 8 ended_event ∷ []))

follow_events-ends_example :
    follow_events
      (λ t. t)
      (λ p. p)
      (codes "run.running")
      2
      (tick ∷ received 8 ended_event ∷ tick ∷ [])
    ≡ heartbeat ∷ []
unfolding kkode.Gateway.Runs.is_terminal follow_events kkode.Gateway.Events.run_event_type
follow_events-ends_example =
    follow_events-ends (λ t. t) (λ p. p) (codes "run.running") 2 (tick ∷ []) (tick ∷ []) 8
      ended_event refl
