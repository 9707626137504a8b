-- ===== src/Gateway/Service/Routes.antt =====
-- The routes of gateway/api.go and of the handlers that it calls: from the method and the path of a
-- request to the endpoint that it reaches.
pub mod Fitting
use kkode.Prelude.{Bool, ◌&&◌, not, List, [], ◌∷◌, ltb, ◌==◌, if◌then◌else◌}
use kkode.Strings.{Text, codes, is_empty, text_eq, trim_space, trim, trim_prefix, split}
use kkode.Strings.Bytes.{byte_len}
use kkode.Gateway.Requests.Validation.{valid_run_metadata_key}
use kkode.Gateway.Service.{Refusal, refuse}

-- The handlers that the chain ends in, with the ids that the path names.
pub data Endpoint : Type 0 where
  health ready api_index openapi provider_list model_list : Endpoint
  session_list session_new run_list run_new : Endpoint
  provider_detail session_detail : Text → Endpoint
  run_detail run_cancel run_events run_transcript run_retry : Text → Endpoint

pub data Outcome : Type 0 where
  reached : Endpoint → Outcome
  refused : Refusal → Outcome
  no_content : Outcome

abbrev pub get : Text
get = codes "GET"

abbrev pub post : Text
post = codes "POST"

abbrev pub not_allowed : Outcome
not_allowed = refused (refuse 405 (codes "method_not_allowed"))

abbrev pub not_found : Outcome
not_found = refused (refuse 404 (codes "not_found"))

abbrev pub only_get : Text → Endpoint → Outcome
only_get method e = if text_eq method get then reached e else not_allowed

abbrev pub only_post : Text → Endpoint → Outcome
only_post method e = if text_eq method post then reached e else not_allowed

-- `validateRunIDText` and `validateSessionIDText` of gateway/session_export.go pass.
unfoldable pub is_run_id : Text → Bool
unfolding trim_space is_empty byte_len valid_run_metadata_key
is_run_id id =
    not (is_empty (trim_space id))
    && not (ltb 128 (byte_len (trim_space id)))
    && valid_run_metadata_key (trim_space id)

unfoldable pub is_session_id : Text → Bool
unfolding is_empty byte_len valid_run_metadata_key
is_session_id id = not (is_empty id) && not (ltb 128 (byte_len id)) && valid_run_metadata_key id

-- `handleRuns` behind the id: the parts of the path from the third on
unfoldable pub run_route : Text → Text → List Text → Outcome
unfolding text_eq
run_route method id [] = only_get method (run_detail id)
run_route method id (verb ∷ []) =
    if text_eq verb (codes "cancel")
    then only_post method (run_cancel id)
    else if text_eq verb (codes "events")
    then only_get method (run_events id)
    else if text_eq verb (codes "transcript")
    then only_get method (run_transcript id)
    else if text_eq verb (codes "retry")
    then only_post method (run_retry id)
    else not_found
run_route method id (verb ∷ part ∷ parts) = not_found

-- `handleRuns`, from the parts of the path behind `runs`
unfoldable pub handle_runs : Text → List Text → Outcome
unfolding run_route is_run_id
handle_runs method [] =
    if text_eq method get
    then reached run_list
    else if text_eq method post
    then reached run_new
    else not_allowed
handle_runs method (id ∷ parts) =
    if is_run_id id then run_route method id parts else refused (refuse 400 (codes "invalid_run"))

abbrev pub session_route : Text → Text → List Text → Outcome
session_route method id [] = only_get method (session_detail id)
session_route method id (part ∷ parts) = not_found

-- `handleSessions`
unfoldable pub handle_sessions : Text → List Text → Outcome
unfolding is_session_id text_eq
handle_sessions method [] =
    if text_eq method get
    then reached session_list
    else if text_eq method post
    then reached session_new
    else not_allowed
handle_sessions method (id ∷ parts) =
    if is_session_id id
    then session_route method id parts
    else refused (refuse 400 (codes "invalid_session"))

-- The routes of `handleProviders`
unfoldable pub handle_providers : Text → List Text → Outcome
unfolding text_eq
handle_providers method [] = only_get method provider_list
handle_providers method (name ∷ []) = only_get method (provider_detail name)
handle_providers method (name ∷ part ∷ parts) = not_found

-- `handleModels` and `handleOpenAPI` of gateway/openapi_api.go, which have no parts behind them
unfoldable pub handle_single : Endpoint → Text → List Text → Outcome
unfolding text_eq
handle_single e method [] = only_get method e
handle_single e method (part ∷ parts) = not_allowed

unfoldable pub drop_empty : List Text → List Text
unfolding is_empty
drop_empty [] = []
drop_empty (t ∷ ts) = let rest = drop_empty ts in if is_empty t then rest else t ∷ rest

-- `splitPath`
unfoldable pub split_path : Text → List Text
unfolding is_empty drop_empty split
split_path path = if is_empty path then [] else drop_empty (split path (codes "/"))

-- The `switch` of `handleAPI`
unfoldable pub route : Text → List Text → Outcome
unfolding handle_runs handle_sessions handle_providers handle_single text_eq
route method [] = only_get method api_index
route method (name ∷ parts) =
    if text_eq name (codes "openapi.yaml")
    then handle_single openapi method parts
    else if text_eq name (codes "providers")
    then handle_providers method parts
    else if text_eq name (codes "models")
    then handle_single model_list method parts
    else if text_eq name (codes "sessions")
    then handle_sessions method parts
    else if text_eq name (codes "runs")
    then handle_runs method parts
    else not_found

-- `handleAPI`
unfoldable pub handle_path : Text → Text → Outcome
unfolding split_path route trim trim_prefix
handle_path method path =
    route method (split_path (trim (λ c. c == b'/') (trim_prefix path (codes "/api/v1"))))
