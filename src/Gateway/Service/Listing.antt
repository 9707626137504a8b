-- ===== src/Gateway/Service/Listing.antt =====
-- `listRuns` of gateway/server.go, with the manager's `List` and `Count` as the lister and counter.
use kkode.Prelude.{
  ℕ, ◌+◌, Bool, ◌||◌, ◌&&◌, not, List, [], ◌∷◌, ltb, Option, Result, ok, ◌>>=◌, ◌>>◌, reject_if,
}
use kkode.Prelude.Int.{ℤ, pos}
use kkode.Strings.{Text, codes, is_empty, trim_space}
use kkode.Strings.Bytes.{byte_len}
use kkode.Gateway.Runs.{Run}
use kkode.Gateway.Requests.{has_name}
use kkode.Gateway.Requests.Validation.{
  valid_run_metadata_key, validate_request_id_value, validate_idempotency_key_value,
}
use kkode.Gateway.Manager.{Manager}
use kkode.Gateway.Manager.Queries.{RunQuery, list_runs, count_runs}
use kkode.Gateway.Service.{Refusal, refuse, or_refuse, or_missing}
use kkode.Gateway.Service.Paging.{Page, trim_page, next_offset, query_limit, query_non_negative}

-- The parameters of the query, each empty where the address leaves it out.
pub record ListParams : Type 0 where
  pub request_id : Text
  pub idempotency : Text
  pub turn_id : Text
  pub provider : Text
  pub model : Text
  pub status : Text
  pub limit : Text
  pub offset : Text
  pub session_id : Text

-- `isValidRunStatus`
unfoldable pub is_valid_run_status : Text → Bool
unfolding has_name
is_valid_run_status s =
    has_name
      (codes "queued"
        ∷ codes "running"
        ∷ codes "cancelling"
        ∷ codes "completed"
        ∷ codes "failed"
        ∷ codes "cancelled"
        ∷ [])
      s

-- `validateOptionalIDFilter`, for the bound of 128 bytes of its callers here
unfoldable pub is_id_filter : Text → Bool
unfolding trim_space is_empty byte_len valid_run_metadata_key
is_id_filter value =
    is_empty (trim_space value)
    || (not (ltb 128 (byte_len (trim_space value))) && valid_run_metadata_key (trim_space value))

abbrev pub invalid_run_list : Text
invalid_run_list = codes "invalid_run_list"

abbrev pub invalid_list : Refusal
invalid_list = refuse 400 invalid_run_list

-- The query, without limit and offset, of parameters that pass.
abbrev pub query_of : ListParams → ℤ → ℤ → RunQuery
query_of p limit offset = record {
  session_id = trim_space p.session_id;
  turn_id = trim_space p.turn_id;
  status = trim_space p.status;
  provider = trim_space p.provider;
  model = trim_space p.model;
  request_id = trim_space p.request_id;
  idempotency_key_value = trim_space p.idempotency;
  limit = limit;
  offset = offset;
}

-- `RunListResponse`
pub record RunListResponse : Type 0 where
  pub page : Page Run
  pub total : ℕ
  pub limit : ℕ
  pub offset : ℕ
  pub next : ℕ

-- The tests of `listRuns`, with the limit and the offset that they read.
unfoldable pub list_params : (Text → Option ℤ) → ListParams → Result Refusal (ℕ × ℕ)
unfolding trim_space is_empty byte_len validate_request_id_value validate_idempotency_key_value
    is_id_filter is_valid_run_status query_limit query_non_negative
list_params atoi p = do
  or_refuse invalid_run_list (validate_request_id_value (trim_space p.request_id))
  or_refuse invalid_run_list (validate_idempotency_key_value (trim_space p.idempotency))
  reject_if (not (is_id_filter (trim_space p.turn_id))) invalid_list
  reject_if (ltb 128 (byte_len (trim_space p.provider))) invalid_list
  reject_if (ltb 128 (byte_len (trim_space p.model))) invalid_list
  reject_if
      (not (is_empty (trim_space p.status)) && not (is_valid_run_status (trim_space p.status)))
      invalid_list
  limit ← or_missing invalid_run_list (query_limit atoi p.limit 50 200)
  offset ← or_missing invalid_run_list (query_non_negative atoi p.offset 0)
  reject_if (not (is_id_filter (trim_space p.session_id))) invalid_list
  ok (limit, offset)

-- The page that the lister is asked for: one run more than the limit.
unfoldable pub run_page : (List Run → List Run) → Manager → ListParams → ℕ → ℕ → Page Run
unfolding list_runs trim_page
run_page arrange m p limit offset =
    trim_page (list_runs arrange (query_of p (pos (limit + 1)) (pos offset)) m) limit

-- The answer of `listRuns`.
unfoldable pub listed : (List Run → List Run) → Manager → ListParams → ℕ → ℕ → RunListResponse
unfolding run_page count_runs next_offset
listed arrange m p limit offset = record {
  page = run_page arrange m p limit offset;
  total = count_runs (query_of p (pos 0) (pos 0)) m.runs;
  limit = limit;
  offset = offset;
  next =
      next_offset offset (run_page arrange m p limit offset).returned
        (run_page arrange m p limit offset).truncated;
}

-- `listRuns`
unfoldable pub list_runs_response :
    (Text → Option ℤ)
    → (List Run → List Run)
    → Manager
    → ListParams
    → Result Refusal RunListResponse
unfolding list_params listed
list_runs_response atoi arrange m p = list_params atoi p >>= λ b. ok (listed arrange m p b.0 b.1)
