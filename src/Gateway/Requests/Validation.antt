-- ===== src/Gateway/Requests/Validation.antt =====
-- The tests of gateway/context_blocks.go, gateway/request_id.go and `validateRunStartRequest` of
-- gateway/server.go on a request to start a run, and what a request that passes them satisfies.
use kkode.Prelude.{
  ℕ, Bool, true, false, ◌||◌, ◌&&◌, not, List, [], ◌∷◌, ◌==◌, ltb, leb, length, Option, Result, ok,
  ◌>>◌, reject_if,
}
use kkode.Prelude.Int.{is_negative, magnitude}
use kkode.Strings.{Text, codes, is_empty, text_eq, trim_space, split}
use kkode.Strings.Bytes.{byte_len}
use kkode.Gateway.Runs.{Metadata, StartRequest, entries, request_id_key, idempotency_key}
use kkode.Gateway.Requests.{slash, has_name}

-- The errors, one for each text, without the limits and labels that they print.
pub data RequestError : Type 0 where
  needs_session_and_prompt preview_negative preview_too_large tokens_negative tokens_too_many :
      RequestError
  prompt_too_long provider_too_long model_too_long directory_too_long directory_escapes :
      RequestError
  too_many_items item_too_long item_not_identifier too_many_blocks : RequestError
  too_many_entries key_too_long key_not_identifier value_too_long : RequestError
  request_id_too_long idempotency_key_too_long : RequestError

abbrev pub max_run_prompt_bytes : ℕ
max_run_prompt_bytes = 262144

-- The `case`s of `validRunMetadataKey`
unfoldable pub is_identifier_code : ℕ → Bool
is_identifier_code c =
    (leb b'a' c && leb c b'z')
    || (leb b'A' c && leb c b'Z')
    || (leb b'0' c && leb c b'9')
    || c == b'_'
    || c == b'-'
    || c == b'.'

unfoldable pub all_identifier_codes : Text → Bool
unfolding is_identifier_code
all_identifier_codes [] = true
all_identifier_codes (c ∷ s) = is_identifier_code c && all_identifier_codes s

-- `validRunMetadataKey`
unfoldable pub valid_run_metadata_key : Text → Bool
unfolding is_empty all_identifier_codes
valid_run_metadata_key key = not (is_empty key) && all_identifier_codes key

-- `workingDirectoryEscapesRoot`
unfoldable pub working_directory_escapes_root : Text → Bool
unfolding is_empty has_name split
working_directory_escapes_root value =
    not (is_empty value) && has_name (split value slash) (codes "..")

-- The loop of `validateRunSelectorList`
unfoldable pub check_items : Bool → List Text → Result RequestError (Unit {0})
unfolding byte_len valid_run_metadata_key
check_items identifier [] = ok tt
check_items identifier (value ∷ values) = do
  reject_if (ltb 128 (byte_len value)) item_too_long
  reject_if (identifier && not (valid_run_metadata_key value)) item_not_identifier
  check_items identifier values

-- `validateRunSelectorList`
unfoldable pub validate_run_selector_list : List Text → Bool → Result RequestError (Unit {0})
unfolding check_items
validate_run_selector_list values identifier = do
  reject_if (ltb 256 (length values)) too_many_items
  check_items identifier values

-- `validateRunRequestShape`
unfoldable pub validate_run_request_shape : StartRequest → Result RequestError (Unit {0})
unfolding byte_len working_directory_escapes_root validate_run_selector_list
validate_run_request_shape req = do
  reject_if (ltb max_run_prompt_bytes (byte_len req.prompt)) prompt_too_long
  reject_if (ltb 128 (byte_len req.provider)) provider_too_long
  reject_if (ltb 128 (byte_len req.model)) model_too_long
  reject_if (ltb max_run_prompt_bytes (byte_len req.working_directory)) directory_too_long
  reject_if (working_directory_escapes_root req.working_directory) directory_escapes
  validate_run_selector_list req.mcp_servers true
  validate_run_selector_list req.skills true
  validate_run_selector_list req.subagents true
  validate_run_selector_list req.enabled_tools false
  validate_run_selector_list req.disabled_tools false
  reject_if (ltb 64 (length req.context_blocks)) too_many_blocks

-- `validateRequestIDValue` of gateway/request_id.go; the empty text has no bytes.
unfoldable pub validate_request_id_value : Text → Result RequestError (Unit {0})
unfolding byte_len trim_space
validate_request_id_value value =
    reject_if (ltb 128 (byte_len (trim_space value))) request_id_too_long

-- `validateIdempotencyKeyValue` of gateway/request_id.go
unfoldable pub validate_idempotency_key_value : Text → Result RequestError (Unit {0})
unfolding byte_len trim_space
validate_idempotency_key_value value =
    reject_if (ltb 128 (byte_len (trim_space value))) idempotency_key_too_long

abbrev pub only_if : Bool → Result RequestError (Unit {0}) → Result RequestError (Unit {0})
only_if true r = r
only_if false r = ok tt

-- The loop of `validateRunMetadata`. Go picks the order of a map's entries, and with it only which
-- error is told first.
unfoldable pub check_entries : Metadata → Result RequestError (Unit {0})
unfolding byte_len valid_run_metadata_key text_eq validate_request_id_value
    validate_idempotency_key_value
check_entries [] = ok tt
check_entries ((key, value) ∷ m) = do
  reject_if (ltb 128 (byte_len key)) key_too_long
  reject_if (not (valid_run_metadata_key key)) key_not_identifier
  reject_if (ltb 1024 (byte_len value)) value_too_long
  only_if (text_eq key request_id_key) (validate_request_id_value value)
  only_if (text_eq key idempotency_key) (validate_idempotency_key_value value)
  check_entries m

-- `validateRunMetadata`
unfoldable pub validate_run_metadata : Option Metadata → Result RequestError (Unit {0})
unfolding check_entries
validate_run_metadata m = do
  reject_if (ltb 64 (length (entries m))) too_many_entries
  check_entries (entries m)

-- `validateRunStartRequest` of gateway/server.go
unfoldable pub validate_run_start_request : StartRequest → Result RequestError (Unit {0})
unfolding trim_space is_empty validate_run_request_shape validate_run_metadata
validate_run_start_request req = do
  reject_if (is_empty (trim_space req.session_id) || is_empty (trim_space req.prompt))
      needs_session_and_prompt
  reject_if (is_negative req.max_preview_bytes) preview_negative
  reject_if (ltb 8388608 (magnitude req.max_preview_bytes)) preview_too_large
  reject_if (is_negative req.max_output_tokens) tokens_negative
  reject_if (ltb 32768 (magnitude req.max_output_tokens)) tokens_too_many
  validate_run_request_shape req
  validate_run_metadata req.metadata
