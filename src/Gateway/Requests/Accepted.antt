-- ===== src/Gateway/Requests/Accepted.antt =====
-- What a request satisfies exactly where `validateRunStartRequest` of gateway/server.go accepts it.
use kkode.Prelude.{
  ℕ, ◌≤◌, Bool, true, false, ◌||◌, ◌&&◌, not, List, [], ◌∷◌, ◌≡◌, ◌↔◌, refl, arith, ltb, length,
  All, Result, ok, reject_if-pass, pass-reject_if, reject_if-ok, ok-reject_if, >>-pass, pass->>,
}
use kkode.Prelude.Int.{is_negative, magnitude}
use kkode.Strings.{Text, is_empty, text_eq, trim_space}
use kkode.Strings.Bytes.{byte_len}
use kkode.Gateway.Runs.{Metadata, StartRequest, entries, request_id_key, idempotency_key}
use kkode.Gateway.Requests.Validation.{
  RequestError, valid_run_metadata_key, working_directory_escapes_root, check_items,
  validate_run_selector_list, validate_run_request_shape, validate_request_id_value,
  validate_idempotency_key_value, only_if, check_entries, validate_run_metadata,
  validate_run_start_request, max_run_prompt_bytes,
}

abbrev pub IsItem : Bool → Text → Type 0
IsItem identifier t = (byte_len t ≤ 128) × ((identifier && not (valid_run_metadata_key t)) ≡ false)

-- At most 256 texts of at most 128 bytes, identifiers where the list asks for them.
pub record IsSelection (identifier : Bool) (ts : List Text) : Type 0 where
  pub few : length ts ≤ 256
  pub items : All (IsItem identifier) ts

pub record IsEntry (e : Text × Text) : Type 0 where
  pub key_short : byte_len e.0 ≤ 128
  pub key_valid : valid_run_metadata_key e.0 ≡ true
  pub value_short : byte_len e.1 ≤ 1024
  pub request_id_short : text_eq e.0 request_id_key ≡ true → byte_len (trim_space e.1) ≤ 128
  pub idempotency_short : text_eq e.0 idempotency_key ≡ true → byte_len (trim_space e.1) ≤ 128

pub record IsShaped (req : StartRequest) : Type 0 where
  pub prompt_short : byte_len req.prompt ≤ max_run_prompt_bytes
  pub provider_short : byte_len req.provider ≤ 128
  pub model_short : byte_len req.model ≤ 128
  pub directory_short : byte_len req.working_directory ≤ max_run_prompt_bytes
  pub directory_stays : working_directory_escapes_root req.working_directory ≡ false
  pub servers : IsSelection true req.mcp_servers
  pub chosen_skills : IsSelection true req.skills
  pub chosen_agents : IsSelection true req.subagents
  pub enabled : IsSelection false req.enabled_tools
  pub disabled : IsSelection false req.disabled_tools
  pub few_blocks : length req.context_blocks ≤ 64

pub record IsAccepted (req : StartRequest) : Type 0 where
  pub names_session : is_empty (trim_space req.session_id) ≡ false
  pub has_prompt : is_empty (trim_space req.prompt) ≡ false
  pub preview_natural : is_negative req.max_preview_bytes ≡ false
  pub preview_bounded : magnitude req.max_preview_bytes ≤ 8388608
  pub tokens_natural : is_negative req.max_output_tokens ≡ false
  pub tokens_bounded : magnitude req.max_output_tokens ≤ 32768
  pub shape : IsShaped req
  pub few_entries : length (entries req.metadata) ≤ 64
  pub all_entries : All IsEntry (entries req.metadata)

within : (a b : ℕ) → ltb a b ≡ false → b ≤ a
within a b h = ground arith

not_over : (a b : ℕ) → b ≤ a → ltb a b ≡ false
not_over a b h = ground arith

check_items→All :
    (identifier : Bool) (ts : List Text)
    → check_items identifier ts ≡ ok tt
    → All (IsItem identifier) ts
unfolding check_items
check_items→All identifier [] h = tt
check_items→All identifier (t ∷ ts) h =
    let (a, h) = reject_if-pass _ _ _ h in
    let (b, h) = reject_if-pass _ _ _ h in
    ((within 128 (byte_len t) a, b), check_items→All identifier ts h)

All→check_items :
    (identifier : Bool) (ts : List Text)
    → All (IsItem identifier) ts
    → check_items identifier ts ≡ ok tt
unfolding check_items
All→check_items identifier [] h = refl
All→check_items identifier (t ∷ ts) (k, h) =
    pass-reject_if _ _ _ (not_over 128 (byte_len t) k.0)
      (pass-reject_if _ _ _ k.1 (All→check_items identifier ts h))

selected :
    (identifier : Bool) (ts : List Text)
    → validate_run_selector_list ts identifier ≡ ok tt
    → IsSelection identifier ts
unfolding validate_run_selector_list
selected identifier ts h =
    let (a, h) = reject_if-pass _ _ _ h in
    record { few = within 256 (length ts) a; items = check_items→All identifier ts h }

select :
    (identifier : Bool) (ts : List Text)
    → IsSelection identifier ts
    → validate_run_selector_list ts identifier ≡ ok tt
unfolding validate_run_selector_list
select identifier ts k =
    pass-reject_if _ _ _ (not_over 256 (length ts) k.few) (All→check_items identifier ts k.items)

shaped : (req : StartRequest) → validate_run_request_shape req ≡ ok tt → IsShaped req
unfolding validate_run_request_shape
shaped req h =
    let (a, h) = reject_if-pass _ _ _ h in
    let (b, h) = reject_if-pass _ _ _ h in
    let (c, h) = reject_if-pass _ _ _ h in
    let (d, h) = reject_if-pass _ _ _ h in
    let (e, h) = reject_if-pass _ _ _ h in
    let (f, h) = >>-pass _ _ h in
    let (g, h) = >>-pass _ _ h in
    let (i, h) = >>-pass _ _ h in
    let (j, h) = >>-pass _ _ h in
    let (k, h) = >>-pass _ _ h in
    record {
      prompt_short = within _ (byte_len req.prompt) a;
      provider_short = within _ (byte_len req.provider) b;
      model_short = within _ (byte_len req.model) c;
      directory_short = within _ (byte_len req.working_directory) d;
      directory_stays = e;
      servers = selected true req.mcp_servers f;
      chosen_skills = selected true req.skills g;
      chosen_agents = selected true req.subagents i;
      enabled = selected false req.enabled_tools j;
      disabled = selected false req.disabled_tools k;
      few_blocks = within 64 (length req.context_blocks) (reject_if-ok _ _ h);
    }

shape_up : (req : StartRequest) → IsShaped req → validate_run_request_shape req ≡ ok tt
unfolding validate_run_request_shape
shape_up req s = pass-reject_if _ _ _ (not_over _ (byte_len req.prompt) s.prompt_short) (
    pass-reject_if _ _ _ (not_over _ (byte_len req.provider) s.provider_short) (
      pass-reject_if _ _ _ (not_over _ (byte_len req.model) s.model_short) (
        pass-reject_if _ _ _ (not_over _ (byte_len req.working_directory) s.directory_short) (
          pass-reject_if _ _ _ s.directory_stays (
            pass->> _ _ (select true req.mcp_servers s.servers) (
              pass->> _ _ (select true req.skills s.chosen_skills) (
                pass->> _ _ (select true req.subagents s.chosen_agents) (
                  pass->> _ _ (select false req.enabled_tools s.enabled) (
                    pass->> _ _ (select false req.disabled_tools s.disabled) (
                      ok-reject_if _ _
                        (not_over 64 (length req.context_blocks) s.few_blocks)))))))))))

only_if-pass :
    (b : Bool) (r : Result RequestError (Unit {0})) → only_if b r ≡ ok tt → b ≡ true → r ≡ ok tt
only_if-pass true r h e = h
only_if-pass false r h e = cc

pass-only_if :
    (b : Bool) (r : Result RequestError (Unit {0})) → (b ≡ true → r ≡ ok tt) → only_if b r ≡ ok tt
pass-only_if true r h = h refl
pass-only_if false r h = refl

not-true : (b : Bool) → not b ≡ false → b ≡ true
not-true b h = ground arith

true-not : (b : Bool) → b ≡ true → not b ≡ false
true-not b h = ground arith

check_entries→All : (m : Metadata) → check_entries m ≡ ok tt → All IsEntry m
unfolding check_entries
check_entries→All [] h = tt
check_entries→All ((k, v) ∷ m) h =
    let (a, h) = reject_if-pass _ _ _ h in
    let (b, h) = reject_if-pass _ _ _ h in
    let (c, h) = reject_if-pass _ _ _ h in
    let (d, h) = >>-pass _ _ h in
    let (e, h) = >>-pass _ _ h in
    (
      record {
        key_short = within 128 (byte_len k) a;
        key_valid = not-true _ b;
        value_short = within 1024 (byte_len v) c;
        request_id_short = λ q.
            within 128 (byte_len (trim_space v))
              (reject_if-ok _ _ (unfold validate_request_id_value in only_if-pass _ _ d q));
        idempotency_short = λ q.
            within 128 (byte_len (trim_space v))
              (reject_if-ok _ _ (unfold validate_idempotency_key_value in only_if-pass _ _ e q));
      },
      check_entries→All m h,
    )

All→check_entries : (m : Metadata) → All IsEntry m → check_entries m ≡ ok tt
unfolding check_entries validate_request_id_value validate_idempotency_key_value
All→check_entries [] h = refl
All→check_entries ((k, v) ∷ m) (e, h) =
    pass-reject_if _ _ _ (not_over 128 (byte_len k) e.key_short) (
      pass-reject_if _ _ _ (true-not _ e.key_valid) (
        pass-reject_if _ _ _ (not_over 1024 (byte_len v) e.value_short) (
          pass->> _ _
            (pass-only_if _ _ (λ q.
              ok-reject_if _ _ (not_over 128 (byte_len (trim_space v)) (e.request_id_short q))))
            (pass->> _ _
              (pass-only_if _ _ (λ q.
                ok-reject_if _ _ (not_over 128 (byte_len (trim_space v)) (e.idempotency_short q))))
              (All→check_entries m h)))))

neither : (a b : Bool) → (a || b) ≡ false → (a ≡ false) × (b ≡ false)
neither a b h = ground arith

to_accepted : (req : StartRequest) → validate_run_start_request req ≡ ok tt → IsAccepted req
unfolding validate_run_start_request validate_run_metadata
to_accepted req h =
    let (a, h) = reject_if-pass _ _ _ h in
    let (b, h) = reject_if-pass _ _ _ h in
    let (c, h) = reject_if-pass _ _ _ h in
    let (d, h) = reject_if-pass _ _ _ h in
    let (e, h) = reject_if-pass _ _ _ h in
    let (f, h) = >>-pass _ _ h in
    let (g, h) = reject_if-pass _ _ _ h in
    let (n, p) =
      neither (is_empty (trim_space req.session_id)) (is_empty (trim_space req.prompt)) a in
    record {
      names_session = n;
      has_prompt = p;
      preview_natural = b;
      preview_bounded = within 8388608 (magnitude req.max_preview_bytes) c;
      tokens_natural = d;
      tokens_bounded = within 32768 (magnitude req.max_output_tokens) e;
      shape = shaped req f;
      few_entries = within 64 (length (entries req.metadata)) g;
      all_entries = check_entries→All (entries req.metadata) h;
    }

of_accepted : (req : StartRequest) → IsAccepted req → validate_run_start_request req ≡ ok tt
unfolding validate_run_start_request validate_run_metadata
of_accepted req k = pass-reject_if _ _ _ (ground (arith, k.names_session, k.has_prompt)) (
    pass-reject_if _ _ _ k.preview_natural (
      pass-reject_if _ _ _ (not_over 8388608 (magnitude req.max_preview_bytes) k.preview_bounded) (
        pass-reject_if _ _ _ k.tokens_natural (
          pass-reject_if _ _ _ (not_over 32768 (magnitude req.max_output_tokens) k.tokens_bounded) (
            pass->> _ _ (shape_up req k.shape) (
              pass-reject_if _ _ _ (not_over 64 (length (entries req.metadata)) k.few_entries)
                (All→check_entries (entries req.metadata) k.all_entries)))))))

-- `validateRunStartRequest` accepts a request exactly where it names a session and has a prompt, its
-- numbers, texts, lists and metadata keep within their bounds, the names of servers, skills and
-- subagents and the metadata's keys are identifiers, and its working directory has no `..`.
pub validate_run_start_request_iff :
    (req : StartRequest) → (validate_run_start_request req ≡ ok tt) ↔ IsAccepted req
validate_run_start_request_iff req = (to_accepted req, of_accepted req)
