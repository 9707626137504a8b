-- ===== src/Gateway/Service/Starting.antt =====
-- `startRun` and `retryRun` of gateway/server.go, with what gateway/request_id.go adds to the
-- metadata: how a request from outside becomes one that the starter of runs is handed.
pub mod Guarded
use kkode.Prelude.{
  ℕ, Bool, true, false, ◌||◌, not, List, [], ◌∷◌, ◌++◌, if◌then◌else◌, Option, none, some, Result,
  ok, err,
}
use kkode.Prelude.Int.{pos}
use kkode.Strings.{Text, codes, is_empty, trim_space, join}
use kkode.Gateway.Runs.{
  Run, StartRequest, Metadata, entries, put, lookup, with_request_id, idempotency_key,
  idempotency_reused_key, mark_idempotency_reused, clone_run,
}
use kkode.Gateway.Requests.{sanitize_run_start_request, sanitize_run_metadata, text_less}
use kkode.Gateway.Requests.Validation.{RequestError, validate_run_start_request}
use kkode.Gateway.Manager.Queries.{RunQuery}
use kkode.Gateway.Service.{Refusal, refuse}

-- `withIdempotencyMetadata`
unfoldable pub with_idempotency : Option Metadata → Text → Option Metadata
unfolding trim_space put is_empty
with_idempotency m key =
    if is_empty (trim_space key) then m else some (put (entries m) idempotency_key (trim_space key))

abbrev default_mcp_key : Text
default_mcp_key = codes "default_mcp_servers"

unfoldable pub insert_text : Text → List Text → List Text
unfolding text_less
insert_text t [] = t ∷ []
insert_text t (u ∷ us) =
    let rest = insert_text t us in if text_less u t then u ∷ rest else t ∷ u ∷ us

-- The trimmed names that are not empty, in the order of `sort.Strings`.
unfoldable pub server_names : List Text → List Text
unfolding trim_space is_empty insert_text
server_names [] = []
server_names (n ∷ ns) =
    let rest = server_names ns in
    if is_empty (trim_space n) then rest else insert_text (trim_space n) rest

abbrev put_names : Option Metadata → List Text → Option Metadata
put_names m [] = m
put_names m (n ∷ ns) = some (put (entries m) default_mcp_key (join (n ∷ ns) (codes ",")))

-- `withDefaultMCPMetadata`, from the names of the servers
unfoldable pub with_default_mcp : Option Metadata → List Text → Option Metadata
unfolding server_names put join
with_default_mcp m servers = put_names m (server_names servers)

-- `idempotencyKeyFromRequest`
unfoldable pub idempotency_key_from_request : Text → Option Metadata → Text
unfolding trim_space is_empty lookup
idempotency_key_from_request header m =
    if is_empty (trim_space header)
    then trim_space (lookup (entries m) idempotency_key)
    else trim_space header

-- What the handlers are configured with. The state that the functions read and change is `S`;
-- `digest` is the hexadecimal text of the first 16 bytes of the SHA-256 sum, `equal_fold` is
-- `strings.EqualFold`, `redact` is `llm.RedactSecrets`.
pub record Boundary (S : Type 0) : Type 0 where
  pub starter : Option (StartRequest → S → Result Text Run × S)
  pub validator : Option (StartRequest → S → Result Text (Unit {0}))
  pub lister : Option (RunQuery → S → Result Text (List Run))
  pub getter : Option (Text → S → Result Text Run)
  pub default_mcp_servers : List Text
  pub digest : Text → Text
  pub equal_fold : Text → Text → Bool
  pub redact : Text → Text

-- The answers: an error, a run that exists with the header of a replay, and 202 with the run.
pub data Reply : Type 0 where
  refused : Refusal → Reply
  replayed started : Run → Reply

-- `idempotentRunID`
unfoldable pub idempotent_run_id : (Text → Text) → Text → Text → Text
unfolding trim_space
idempotent_run_id digest session key =
    codes "run_idem_" ++ digest (trim_space session ++ 0 ∷ trim_space key)

abbrev pub key_of : StartRequest → Text
key_of req = trim_space (lookup (entries req.metadata) idempotency_key)

-- The id of a request with an idempotency key.
unfoldable pub identified : (Text → Text) → StartRequest → StartRequest
unfolding trim_space lookup is_empty idempotent_run_id
identified digest req =
    if is_empty (key_of req)
    then req
    else record req { run_id = idempotent_run_id digest req.session_id (key_of req) }

abbrev key_query : StartRequest → RunQuery
key_query req = record {
  session_id = req.session_id;
  turn_id = [];
  status = [];
  provider = [];
  model = [];
  request_id = [];
  idempotency_key_value = key_of req;
  limit = pos 1;
  offset = pos 0;
}

abbrev first_found : Result Text (List Run) → Option Run
first_found (err e) = none
first_found (ok []) = none
first_found (ok (r ∷ rs)) = some (mark_idempotency_reused (clone_run r))

module _ {S : Type 0} (b : Boundary S) where
  -- `findIdempotentRun`
  unfoldable pub find_idempotent_run : StartRequest → S → Option Run
  unfolding lookup trim_space is_empty mark_idempotency_reused clone_run
  find_idempotent_run req s =
      if is_empty (key_of req)
      then none
      else elim b.lister [ none ↦ none | some list ↦ first_found (list (key_query req) s) ]

  -- `isIdempotencyReplay`
  unfoldable pub is_idempotency_replay : Run → Bool
  unfolding lookup trim_space
  is_idempotency_replay r =
      b.equal_fold (trim_space (lookup (entries r.metadata) idempotency_reused_key)) (codes "true")

  -- The request of `startRun` before it is validated.
  unfoldable pub prepared : Text → Text → StartRequest → StartRequest
  unfolding sanitize_run_start_request with_request_id with_idempotency idempotency_key_from_request
      with_default_mcp
  prepared request_id header req =
      let clean = sanitize_run_start_request b.redact req in
      let traced = with_request_id clean.metadata request_id in
      record clean {
        metadata =
            with_default_mcp (with_idempotency traced (idempotency_key_from_request header traced))
              b.default_mcp_servers;
      }

  -- `RunValidator`, where there is one
  unfoldable pub preflight : StartRequest → S → Result Text (Unit {0})
  preflight req s = elim b.validator [ none ↦ ok tt | some validate ↦ validate req s ]

  abbrev pub Starter : Type 0
  Starter = StartRequest → S → Result Text Run × S

  abbrev pub refused_by : ℕ → Text → Reply
  refused_by status code = refused (refuse status code)

  -- What `startRun` answers after the starter, and after the tests before it, the last one first:
  -- the validator, the run with the key, and the bounds.
  abbrev pub answered : Result Text Run → Reply
  answered (err e) = refused_by 500 (codes "start_run_failed")
  answered (ok r) = if is_idempotency_replay r then replayed r else started r

  abbrev pub after_preflight : Starter → StartRequest → S → Result Text (Unit {0}) → Reply × S
  after_preflight start req s (err e) = (refused_by 400 (codes "invalid_run_preflight"), s)
  after_preflight start req s (ok _) = (answered (start req s).0, (start req s).1)

  unfoldable pub after_search : Starter → StartRequest → S → Option Run → Reply × S
  unfolding preflight is_idempotency_replay
  after_search start req s (some existing) = (replayed existing, s)
  after_search start req s none = after_preflight start req s (preflight req s)

  unfoldable pub after_bounds :
      Starter → StartRequest → S → Result RequestError (Unit {0}) → Reply × S
  unfolding after_search identified find_idempotent_run
  after_bounds start req s (err e) = (refused_by 400 (codes "invalid_run"), s)
  after_bounds start req s (ok _) =
      after_search start (identified b.digest req) s (find_idempotent_run req s)

  unfoldable pub after_starter : StartRequest → S → Option Starter → Reply × S
  unfolding after_bounds validate_run_start_request
  after_starter req s none = (refused_by 501 (codes "run_starter_missing"), s)
  after_starter req s (some start) = after_bounds start req s (validate_run_start_request req)

  -- `startRun` for a body that `decodeJSON` reads, from the header of the idempotency key and the
  -- request id of the context
  unfoldable pub start_run : Text → Text → StartRequest → S → Reply × S
  unfolding prepared after_starter
  start_run request_id header req s = after_starter (prepared request_id header req) s b.starter

  -- The request of `retryRun` before it is validated.
  unfoldable pub retry_request : Text → Run → StartRequest
  unfolding sanitize_run_metadata put with_request_id with_default_mcp sanitize_run_start_request
  retry_request request_id r = sanitize_run_start_request b.redact (record {
    run_id = [];
    session_id = r.session_id;
    prompt = r.prompt;
    provider = r.provider;
    model = r.model;
    working_directory = r.working_directory;
    max_preview_bytes = pos 0;
    max_output_tokens = r.max_output_tokens;
    mcp_servers = r.mcp_servers;
    skills = r.skills;
    subagents = r.subagents;
    enabled_tools = r.enabled_tools;
    disabled_tools = r.disabled_tools;
    context_blocks = r.context_blocks;
    metadata =
        with_default_mcp
          (with_request_id
            (some (put (entries (sanitize_run_metadata r.metadata)) (codes "retried_from") r.id))
            request_id)
          b.default_mcp_servers;
  })

  -- What `retryRun` answers, from the end of the handler to its start.
  abbrev pub retry_answered : Result Text Run → Reply
  retry_answered (err e) = refused_by 500 (codes "retry_run_failed")
  retry_answered (ok r) = started r

  abbrev pub retry_preflight : Starter → StartRequest → S → Result Text (Unit {0}) → Reply × S
  retry_preflight start req s (err e) = (refused_by 400 (codes "invalid_run_preflight"), s)
  retry_preflight start req s (ok _) = (retry_answered (start req s).0, (start req s).1)

  unfoldable pub retry_bounds :
      Starter → StartRequest → S → Result RequestError (Unit {0}) → Reply × S
  unfolding preflight
  retry_bounds start req s (err e) = (refused_by 400 (codes "invalid_run"), s)
  retry_bounds start req s (ok _) = retry_preflight start req s (preflight req s)

  unfoldable pub retry_found : Text → Starter → S → Result Text Run → Reply × S
  unfolding retry_request retry_bounds validate_run_start_request
  retry_found request_id start s (err e) = (refused_by 404 (codes "run_not_found"), s)
  retry_found request_id start s (ok original) =
      let req = retry_request request_id original in
      retry_bounds start req s (validate_run_start_request req)

  unfoldable pub retry_configured :
      Text → Text → S → Option (Text → S → Result Text Run) → Option Starter → Reply × S
  unfolding retry_found
  retry_configured request_id run_id s (some get) (some start) =
      retry_found request_id start s (get run_id s)
  retry_configured request_id run_id s (some get) none =
      (refused_by 501 (codes "run_retry_missing"), s)
  retry_configured request_id run_id s none o = (refused_by 501 (codes "run_retry_missing"), s)

  -- `retryRun`
  unfoldable pub retry_run : Text → Text → S → Reply × S
  unfolding retry_configured
  retry_run request_id run_id s = retry_configured request_id run_id s b.getter b.starter
