-- ===== src/Gateway/Service/Access.antt =====
-- The chain that `buildHandler` of gateway/server.go puts in front of the routes, with
-- gateway/auth.go, gateway/cors.go and gateway/request_id.go. A handler
-- is a function from the request to its response; handlers do not panic here, and the access log,
-- which only reads, is left out.
pub mod Admitted
use kkode.Prelude.{
  ℕ, Bool, true, false, ◌&&◌, ◌||◌, not, List, [], ◌∷◌, ◌++◌, ltb, if◌then◌else◌, Option, none,
  some, Result, ok, err, ◌>>◌, reject_if, ◌>>=◌, ◌==◌,
}
use kkode.Prelude.Int.{ℤ, pos, negsuc, is_negative, magnitude}
use kkode.Strings.{Text, codes, is_empty, text_eq, trim_space, trim, trim_prefix, split, fields}
use kkode.Strings.Bytes.{byte_len}
use kkode.Gateway.Requests.Validation.{
  RequestError, valid_run_metadata_key, validate_request_id_value,
}
use kkode.Gateway.Service.{Refusal, refuse}
use kkode.Gateway.Service.Routes.{
  Endpoint, health, ready, Outcome, refused, no_content, only_get, handle_path,
}

-- What the chain reads of a request.
pub record HttpRequest : Type 0 where
  pub method : Text
  pub path : Text
  pub remote_addr : Text
  pub request_id : Text
  pub authorization : Text
  pub origin : Text
  pub has_body : Bool
  pub content_length : ℤ

-- `Config`, as far as the chain reads it. `fresh_id` is what `RequestIDGenerator` gives.
pub record ServerConfig : Type 0 where
  pub api_key : Text
  pub allow_localhost_no_auth : Bool
  pub cors_origins : List Text
  pub max_request_bytes : ℤ
  pub fresh_id : Text

pub data Mount : Type 0 where
  at_health at_ready at_api : Mount

-- What Go's library decides: the host of an address, whether a text is an address and a loopback
-- one, `strings.EqualFold`, and what `http.ServeMux` picks for a path, its own answers included.
pub record Net : Type 0 where
  pub split_host : Text → Option Text
  pub loopback : Text → Option Bool
  pub equal_fold : Text → Text → Bool
  pub mux : Text → Result Refusal Mount

pub record Response : Type 0 where
  pub headers : List (Text × Text)
  pub outcome : Outcome

abbrev pub plain : Outcome → Response
plain o = record { headers = []; outcome = o }

abbrev pub with_headers : List (Text × Text) → Response → Response
with_headers hs r = record r { headers = hs ++ r.headers }

abbrev pub Handler : Type 0
Handler = HttpRequest → Response

abbrev pub bearer_of : (Text → Text → Bool) → List Text → Text
bearer_of equal_fold (scheme ∷ token ∷ []) =
    if equal_fold scheme (codes "Bearer") then token else []
bearer_of equal_fold _ = []

module _ (cfg : ServerConfig) (net : Net) where
  -- `bearerToken`
  unfoldable pub bearer_token : Text → Text
  unfolding fields
  bearer_token header = bearer_of net.equal_fold (fields header)

  -- `isLocalRequest`
  unfoldable pub is_local_request : HttpRequest → Bool
  is_local_request r =
      let host = elim (net.split_host r.remote_addr) as (λ _. Text) [
        | none ↦ r.remote_addr
        | some h ↦ h
      ] in
      elim (net.loopback host) [ none ↦ net.equal_fold host (codes "localhost") | some b ↦ b ]

  -- `withAPIAuth`
  unfoldable pub with_api_auth : Handler → Handler
  unfolding is_local_request bearer_token is_empty text_eq
  with_api_auth next r =
      if is_empty cfg.api_key
      then next r
      else if cfg.allow_localhost_no_auth && is_local_request r
      then next r
      else if text_eq (bearer_token r.authorization) cfg.api_key
      then next r
      else plain (refused (refuse 401 (codes "unauthorized")))

  -- `bodyLimitMiddleware`, with the default that `New` puts for 0. A body without a length is cut
  -- off while it is read, which is behind the chain.
  abbrev pub body_limit : ℕ
  body_limit =
      if magnitude cfg.max_request_bytes == 0 then 33554432 else magnitude cfg.max_request_bytes

  unfoldable pub body_limit_middleware : Handler → Handler
  body_limit_middleware next r =
      if not (is_negative cfg.max_request_bytes)
        && r.has_body
        && ltb body_limit (magnitude r.content_length)
      then plain (refused (refuse 413 (codes "request_too_large")))
      else next r

  -- The handlers of the paths that `ServeMux` knows.
  unfoldable pub mounted : Mount → Handler
  unfolding handle_path with_api_auth text_eq body_limit_middleware
  mounted at_health r = plain (only_get r.method health)
  mounted at_ready r = plain (only_get r.method ready)
  mounted at_api r =
      body_limit_middleware (with_api_auth (λ q. plain (handle_path q.method q.path))) r

  abbrev pub dispatched : Result Refusal Mount → Handler
  dispatched (err e) r = plain (refused e)
  dispatched (ok mount) r = mounted mount r

  unfoldable pub dispatch : Handler
  unfolding mounted
  dispatch r = dispatched (net.mux r.path) r

  -- `allowedCORSOrigin`
  unfoldable pub allowed_cors_origin : List Text → Text → Bool
  unfolding is_empty trim_space text_eq
  allowed_cors_origin [] origin = false
  allowed_cors_origin (item ∷ items) origin =
      not (is_empty origin)
      && (text_eq (trim_space item) (codes "*")
          || text_eq (trim_space item) origin
          || allowed_cors_origin items origin)

  abbrev pub cors_headers : Text → List (Text × Text)
  cors_headers origin =
      (codes "Access-Control-Allow-Origin", origin)
      ∷ (codes "Vary", codes "Origin")
      ∷ (
        codes "Access-Control-Allow-Headers",
        codes "Authorization, Content-Type, X-Request-Id, Idempotency-Key",
      )
      ∷ (codes "Access-Control-Allow-Methods", codes "GET, POST, PUT, DELETE, OPTIONS")
      ∷ (codes "Access-Control-Expose-Headers", codes "X-Request-Id, X-Idempotent-Replay")
      ∷ []

  abbrev pub allowance : HttpRequest → List (Text × Text)
  allowance r = if allowed_cors_origin cfg.cors_origins r.origin then cors_headers r.origin else []

  abbrev pub no_origins : List Text → Bool
  no_origins [] = true
  no_origins (item ∷ items) = false

  -- `corsMiddleware`
  unfoldable pub cors_middleware : Handler → Handler
  unfolding allowed_cors_origin text_eq is_empty
  cors_middleware next r =
      if no_origins cfg.cors_origins
      then next r
      else with_headers (allowance r) (
          if text_eq r.method (codes "OPTIONS") && not (is_empty r.origin)
          then plain no_content
          else next r)

  -- `securityHeadersMiddleware`
  abbrev pub security_headers_middleware : Handler → Handler
  security_headers_middleware next r =
      with_headers ((codes "X-Content-Type-Options", codes "nosniff") ∷ []) (next r)

  abbrev pub request_id_header : Text
  request_id_header = codes "X-Request-Id"

  -- The id that the answer carries: the request's, or a fresh one where that is empty or too long.
  unfoldable pub answer_id : HttpRequest → Text
  unfolding trim_space is_empty byte_len
  answer_id r =
      if is_empty (trim_space r.request_id) || ltb 128 (byte_len (trim_space r.request_id))
      then cfg.fresh_id
      else trim_space r.request_id

  abbrev pub after_request_id : Result RequestError (Unit {0}) → Handler → Handler
  after_request_id (err e) next r = plain (refused (refuse 400 (codes "invalid_request_id")))
  after_request_id (ok _) next r = next r

  -- `requestIDMiddleware`
  unfoldable pub request_id_middleware : Handler → Handler
  unfolding answer_id validate_request_id_value trim_space
  request_id_middleware next r =
      with_headers ((request_id_header, answer_id r) ∷ [])
        (after_request_id (validate_request_id_value (trim_space r.request_id)) next r)

  -- `buildHandler`
  unfoldable pub serve : Handler
  unfolding request_id_middleware cors_middleware dispatch
  serve = request_id_middleware (security_headers_middleware (cors_middleware dispatch))
