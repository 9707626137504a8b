-- ===== src/Gateway/Service/Routes/Fitting.antt =====
-- Which methods and ids reach an endpoint.
use kkode.Prelude.{
  ℕ, ◌≤◌, ◌&&◌, not, ltb, arith, Bool, true, false, ◌==◌, List, [], ◌∷◌, ◌≡◌, refl, if◌then◌else◌,
}
use kkode.Strings.{Text, codes, text_eq, is_empty, trim_space, trim, trim_prefix}
use kkode.Strings.Bytes.{byte_len}
use kkode.Gateway.Requests.Validation.{valid_run_metadata_key}
use kkode.Gateway.Service.Routes.{
  Endpoint, health, ready, api_index, openapi, provider_list, model_list, session_new, run_new,
  provider_detail, session_detail, run_detail, run_cancel, run_events, run_transcript, run_retry,
  Outcome, reached, refused, no_content, not_allowed, post, get, is_run_id, is_session_id,
  run_route, handle_runs, handle_sessions, handle_providers, handle_single, route, split_path,
  handle_path,
}

-- The endpoints that make or change a session or a run.
abbrev pub changes_state : Endpoint → Bool
changes_state session_new = true
changes_state run_new = true
changes_state (run_cancel id) = true
changes_state (run_retry id) = true
changes_state _ = false

-- The endpoints outside of the API.
abbrev pub is_open : Endpoint → Bool
is_open health = true
is_open ready = true
is_open _ = false

-- A text that has something in it, has at most 128 bytes and is made of the bytes of identifiers.
abbrev pub IsId : Text → Type 0
IsId t = (is_empty t ≡ false) × (byte_len t ≤ 128) × (valid_run_metadata_key t ≡ true)

-- The id of a session is an identifier; that of a run is one but for the spaces around it, with which
-- it is handed on.
abbrev pub HasValidId : Endpoint → Type 0
HasValidId (session_detail id) = IsId id
HasValidId (run_detail id) = IsId (trim_space id)
HasValidId (run_cancel id) = IsId (trim_space id)
HasValidId (run_events id) = IsId (trim_space id)
HasValidId (run_transcript id) = IsId (trim_space id)
HasValidId (run_retry id) = IsId (trim_space id)
HasValidId _ = Unit {0}

within_bounds :
    (t : Text)
    → (not (is_empty t) && not (ltb 128 (byte_len t)) && valid_run_metadata_key t) ≡ true
    → IsId t
within_bounds t h =
    (ground (arith, h), ltb-false (byte_len t) (ground (arith, h)), ground (arith, h))
  where
    ltb-false : (n : ℕ) → ltb 128 n ≡ false → n ≤ 128
    ltb-false n e = ground (arith, e)

is_run_id_lem : (id : Text) → is_run_id id ≡ true → IsId (trim_space id)
unfolding is_run_id
is_run_id_lem id h = within_bounds (trim_space id) h

is_session_id_lem : (id : Text) → is_session_id id ≡ true → IsId id
unfolding is_session_id
is_session_id_lem id h = within_bounds id h

-- An endpoint that is reached by this method has a valid id, and is one that changes nothing
-- unless the method is POST.
abbrev pub Fits : Text → Outcome → Type 0
Fits method (reached e) = (changes_state e ≡ true → text_eq method post ≡ true) × HasValidId e
Fits method (refused f) = Unit {0}
Fits method no_content = Unit {0}

Fits-if :
    (method : Text) (b : Bool) (x y : Outcome)
    → (b ≡ true → Fits method x)
    → Fits method y
    → Fits method (if b then x else y)
Fits-if method true x y h k = h refl
Fits-if method false x y h k = k

pub only_get-Fits :
    (method : Text) (e : Endpoint)
    → changes_state e ≡ false
    → HasValidId e
    → Fits method (if text_eq method get then reached e else not_allowed)
only_get-Fits method e c h =
    Fits-if method (text_eq method get) _ _ (λ _. (λ d. absurd (cc (c, d)), h)) tt

only_post-Fits :
    (method : Text) (e : Endpoint)
    → HasValidId e
    → Fits method (if text_eq method post then reached e else not_allowed)
only_post-Fits method e h = Fits-if method (text_eq method post) _ _ (λ q. (λ _. q, h)) tt

run_route-Fits :
    (method id : Text) (parts : List Text)
    → IsId (trim_space id)
    → Fits method (run_route method id parts)
unfolding run_route
run_route-Fits method id [] h = only_get-Fits method (run_detail id) refl h
run_route-Fits method id (verb ∷ []) h =
    Fits-if method (text_eq verb (codes "cancel")) _ _
      (λ _. only_post-Fits method (run_cancel id) h)
      (Fits-if method (text_eq verb (codes "events")) _ _
        (λ _. only_get-Fits method (run_events id) refl h)
        (Fits-if method (text_eq verb (codes "transcript")) _ _
          (λ _. only_get-Fits method (run_transcript id) refl h)
          (Fits-if method (text_eq verb (codes "retry")) _ _
            (λ _. only_post-Fits method (run_retry id) h) tt)))
run_route-Fits method id (verb ∷ part ∷ parts) h = tt

handle_runs-Fits : (method : Text) (parts : List Text) → Fits method (handle_runs method parts)
unfolding handle_runs
handle_runs-Fits method [] =
    Fits-if method (text_eq method get) _ _ (λ _. (λ d. absurd (cc d), tt))
      (only_post-Fits method run_new tt)
handle_runs-Fits method (id ∷ parts) =
    Fits-if method (is_run_id id) _ _ (λ e. run_route-Fits method id parts (is_run_id_lem id e)) tt

handle_sessions-Fits :
    (method : Text) (parts : List Text) → Fits method (handle_sessions method parts)
unfolding handle_sessions
handle_sessions-Fits method [] =
    Fits-if method (text_eq method get) _ _ (λ _. (λ d. absurd (cc d), tt))
      (only_post-Fits method session_new tt)
handle_sessions-Fits method (id ∷ []) =
    Fits-if method (is_session_id id) _ _
      (λ h. only_get-Fits method (session_detail id) refl (is_session_id_lem id h)) tt
handle_sessions-Fits method (id ∷ part ∷ parts) = Fits-if method (is_session_id id) _ _ (λ _. tt) tt

handle_providers-Fits :
    (method : Text) (parts : List Text) → Fits method (handle_providers method parts)
unfolding handle_providers
handle_providers-Fits method [] = only_get-Fits method provider_list refl tt
handle_providers-Fits method (name ∷ []) = only_get-Fits method (provider_detail name) refl tt
handle_providers-Fits method (name ∷ part ∷ parts) = tt

handle_single-Fits :
    (e : Endpoint) (method : Text) (parts : List Text)
    → changes_state e ≡ false
    → HasValidId e
    → Fits method (handle_single e method parts)
unfolding handle_single
handle_single-Fits e method [] c h = only_get-Fits method e c h
handle_single-Fits e method (part ∷ parts) c h = tt

route-Fits : (method : Text) (parts : List Text) → Fits method (route method parts)
unfolding route
route-Fits method [] = only_get-Fits method api_index refl tt
route-Fits method (name ∷ parts) =
    Fits-if method (text_eq name (codes "openapi.yaml")) _ _
      (λ _. handle_single-Fits openapi method parts refl tt)
      (Fits-if method (text_eq name (codes "providers")) _ _
        (λ _. handle_providers-Fits method parts)
        (Fits-if method (text_eq name (codes "models")) _ _
          (λ _. handle_single-Fits model_list method parts refl tt)
          (Fits-if method (text_eq name (codes "sessions")) _ _
            (λ _. handle_sessions-Fits method parts)
            (Fits-if method (text_eq name (codes "runs")) _ _ (λ _. handle_runs-Fits method parts)
              tt))))

-- Whatever the path, an endpoint of the API that makes or changes a session or a run is reached by
-- POST only, and the id of a session or a run that an endpoint is handed is an identifier of at
-- most 128 bytes.
pub handle_path-Fits : (method path : Text) → Fits method (handle_path method path)
unfolding handle_path
handle_path-Fits method path =
    route-Fits method (split_path (trim (λ c. c == b'/') (trim_prefix path (codes "/api/v1"))))
