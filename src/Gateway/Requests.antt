-- ===== src/Gateway/Requests.antt =====
-- What gateway/context_blocks.go makes of a request to start a run before it is looked at: texts
-- are trimmed, lists lose their repetitions, and long context blocks are cut.
pub mod Blocks
pub mod Folders
pub mod Selections
pub mod Validation
pub mod Accepted
use kkode.Prelude.{
  ℕ, zero, suc, ◌+◌, Bool, true, false, ◌||◌, List, [], ◌∷◌, ◌++◌, ◌==◌, ltb, leb, if◌then◌else◌,
  length, Option, none, some,
}
use kkode.Strings.{
  Text, codes, is_empty, text_eq, trim_space, contains, replace_all, trim_prefix, trim,
}
use kkode.Strings.Bytes.{utf8_len, byte_len}
use kkode.Gateway.Runs.{Metadata, StartRequest, put, entries}

abbrev pub max_run_context_block_bytes : ℕ
max_run_context_block_bytes = 32768

-- The loop of `truncateContextBlock`; `used` counts the bytes of what the loop has passed.
unfoldable pub fitting : ℕ → ℕ → Text → Text
unfolding utf8_len
fitting used max [] = []
fitting used max (c ∷ s) =
    let rest = fitting (used + utf8_len c) max s in
    if ltb max (used + utf8_len c) then [] else c ∷ rest

-- `truncateContextBlock` for a bound that is not negative
unfoldable pub truncate_context_block : Text → ℕ → Text
unfolding byte_len fitting
truncate_context_block text max =
    if max == 0 then [] else if leb (byte_len text) max then text else fitting 0 max text

abbrev pub truncation_note : Text
truncation_note = codes "\n[context block이 길어서 일부만 저장했어요]"

-- One round of `SanitizeContextBlocks`: the text of a block, or that it is passed over.
unfoldable pub context_block : Text → Option Text
unfolding is_empty byte_len truncate_context_block
context_block text =
    let cut = truncate_context_block text max_run_context_block_bytes in
    if is_empty text
    then none
    else if ltb max_run_context_block_bytes (byte_len text)
    then if is_empty cut then none else some (cut ++ truncation_note)
    else some text

abbrev pub add_some {ℓ} : {A : Type ℓ} → Option A → List A → List A
add_some none xs = xs
add_some (some x) xs = x ∷ xs

-- `SanitizeContextBlocks`, with `llm.RedactSecrets` as an argument. The empty slice is nil.
unfoldable pub sanitize_context_blocks : (Text → Text) → List Text → List Text
unfolding context_block trim_space
sanitize_context_blocks redact [] = []
sanitize_context_blocks redact (block ∷ blocks) =
    add_some (context_block (trim_space (redact block))) (sanitize_context_blocks redact blocks)

-- `seen[name]`, also for the texts that a slice has
unfoldable pub has_name : List Text → Text → Bool
unfolding text_eq
has_name [] p = false
has_name (q ∷ qs) p = text_eq q p || has_name qs p

-- The loop of `sanitizeUniqueStrings`.
unfoldable pub unique_from : List Text → List Text → List Text
unfolding is_empty has_name trim_space
unique_from seen [] = []
unique_from seen (name ∷ names) =
    let t = trim_space name in
    let skipped = is_empty t || has_name seen t in
    let rest = unique_from (if skipped then seen else t ∷ seen) names in
    if skipped then rest else t ∷ rest

-- `sanitizeUniqueStrings`
unfoldable pub sanitize_unique_strings : List Text → List Text
unfolding unique_from
sanitize_unique_strings names = unique_from [] names

-- The order of Go's strings, which UTF-8 keeps from the code points.
unfoldable pub text_less : Text → Text → Bool
text_less s [] = false
text_less [] (d ∷ t) = true
text_less (c ∷ s) (d ∷ t) = let rest = text_less s t in if c == d then rest else ltb c d

unfoldable pub insert_entry : Text × Text → Metadata → Metadata
unfolding text_less
insert_entry e [] = e ∷ []
insert_entry e (f ∷ m) =
    let rest = insert_entry e m in if text_less f.0 e.0 then f ∷ rest else e ∷ f ∷ m

-- The entries of a map in the order of their keys, which are all different.
unfoldable pub by_key : Metadata → Metadata
unfolding insert_entry
by_key [] = []
by_key (e ∷ m) = insert_entry e (by_key m)

-- The loop of `sanitizeRunMetadata`: of two keys with one trimmed text, the later one stays.
unfoldable pub put_clean : Metadata → Metadata → Metadata
unfolding put trim_space is_empty
put_clean out [] = out
put_clean out ((k, v) ∷ m) =
    put_clean
      (if is_empty (trim_space k) || is_empty (trim_space v)
        then out
        else put out (trim_space k) (trim_space v))
      m

abbrev pub some_entries : Metadata → Option Metadata
some_entries [] = none
some_entries (e ∷ m) = some (e ∷ m)

-- `sanitizeRunMetadata`
unfoldable pub sanitize_run_metadata : Option Metadata → Option Metadata
unfolding by_key put_clean
sanitize_run_metadata m = some_entries (put_clean [] (by_key (entries m)))

abbrev pub double_slash : Text
double_slash = codes "//"

abbrev pub slash : Text
slash = codes "/"

-- The loop of `sanitizeWorkingDirectory` that halves slashes. Each round shortens the text, so its
-- length is enough fuel.
unfoldable pub collapse : ℕ → Text → Text
unfolding contains replace_all
collapse zero s = s
collapse (suc n) s =
    let next = collapse n (replace_all s double_slash slash) in
    if contains s double_slash then next else s

-- The statements of `sanitizeWorkingDirectory` between its two tests.
unfoldable pub folder_text : Text → Text
unfolding trim_space replace_all collapse trim_prefix trim
folder_text value =
    let slashed = replace_all (trim_space value) (b'\\' ∷ []) slash in
    trim (λ c. c == b'/') (trim_prefix (collapse (length slashed) slashed) (codes "./"))

-- `sanitizeWorkingDirectory`
unfoldable pub sanitize_working_directory : Text → Text
unfolding trim_space is_empty folder_text text_eq
sanitize_working_directory value =
    if is_empty (trim_space value)
    then []
    else if text_eq (folder_text value) (codes ".")
    then []
    else folder_text value

-- `sanitizeRunStartRequest`
unfoldable pub sanitize_run_start_request : (Text → Text) → StartRequest → StartRequest
unfolding trim_space sanitize_working_directory sanitize_run_metadata sanitize_unique_strings
    sanitize_context_blocks
sanitize_run_start_request redact req = record req {
  session_id = trim_space req.session_id;
  prompt = trim_space req.prompt;
  provider = trim_space req.provider;
  model = trim_space req.model;
  working_directory = sanitize_working_directory req.working_directory;
  metadata = sanitize_run_metadata req.metadata;
  mcp_servers = sanitize_unique_strings req.mcp_servers;
  skills = sanitize_unique_strings req.skills;
  subagents = sanitize_unique_strings req.subagents;
  context_blocks = sanitize_context_blocks redact req.context_blocks;
  enabled_tools = sanitize_unique_strings req.enabled_tools;
  disabled_tools = sanitize_unique_strings req.disabled_tools;
}
