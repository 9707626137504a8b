-- ===== src/Gateway/Service/Access/Admitted.antt =====
-- Which requests get past the chain, and what every answer carries.
use kkode.Prelude.{
  Bool, true, false, ◌&&◌, not, List, [], ◌∷◌, ◌≡◌, refl, ap, ◌∙◌, arith, Option, none, some, ◌⊎◌,
  inl, inr, Result, ok, err, if◌then◌else◌, Bool-cases, ltb,
}
use kkode.Prelude.Int.{is_negative, magnitude}
use kkode.Strings.{Text, codes, is_empty, text_eq, trim_space, fields}
use kkode.Strings.Prefixes.{text_eq_iff}
use kkode.Gateway.Requests.Validation.{validate_request_id_value, RequestError}
use kkode.Gateway.Service.{Refusal}
use kkode.Gateway.Service.Routes.{
  Outcome, Endpoint, reached, refused, no_content, not_allowed, handle_path, health, ready, get,
}
use kkode.Gateway.Service.Routes.Fitting.{Fits, is_open, handle_path-Fits, only_get-Fits}
use kkode.Gateway.Service.Access.{
  HttpRequest, ServerConfig, Net, Mount, at_health, at_ready, at_api, Response, Handler, bearer_of,
  bearer_token, is_local_request, with_api_auth, body_limit_middleware, body_limit, mounted,
  dispatched, dispatch, cors_middleware, no_origins, request_id_middleware, after_request_id, serve,
}

empty_text : (t : Text) → is_empty t ≡ true → t ≡ []
unfolding is_empty
empty_text [] h = refl
empty_text (c ∷ t) h = cc h

-- An empty token is no key.
nothing : {key : Text} → [] ≡ key → is_empty key ≡ false → ⊥
unfolding is_empty
nothing h n = cc (ap is_empty h, n)

module _ (cfg : ServerConfig) (net : Net) where
  -- The address's host, or the whole address where it has no port.
  abbrev pub HasHost : Text → Text → Type 0
  HasHost address host =
      (net.split_host address ≡ some host) ⊎ ((net.split_host address ≡ none) × (address ≡ host))

  -- The host is a loopback address, or it is no address and is called localhost.
  abbrev pub IsLoopback : Text → Type 0
  IsLoopback host =
      (net.loopback host ≡ some true)
      ⊎ ((net.loopback host ≡ none) × (net.equal_fold host (codes "localhost") ≡ true))

  abbrev pub IsLocal : HttpRequest → Type 0
  IsLocal r = (host : Text) × HasHost r.remote_addr host × IsLoopback host

  -- The header is two words, `Bearer` and the key.
  abbrev pub BearsKey : HttpRequest → Type 0
  BearsKey r =
      (scheme : Text) × (fields r.authorization ≡ scheme ∷ cfg.api_key ∷ [])
      × (net.equal_fold scheme (codes "Bearer") ≡ true)

  -- No key is asked for, or the request comes from the machine itself and that is enough, or it
  -- bears the key.
  abbrev pub IsAuthorized : HttpRequest → Type 0
  IsAuthorized r =
      (cfg.api_key ≡ []) ⊎ ((cfg.allow_localhost_no_auth ≡ true) × IsLocal r) ⊎ BearsKey r

  IsLoopback-of :
      (host : Text) (o : Option Bool)
      → net.loopback host ≡ o
      → (elim o [ none ↦ net.equal_fold host (codes "localhost") | some b ↦ b ]) ≡ true
      → IsLoopback host
  IsLoopback-of host none e h = inr (e, h)
  IsLoopback-of host (some b) e h = inl (e ∙ ap some h)

  local-host :
      (address : Text) (o : Option Text)
      → net.split_host address ≡ o
      → HasHost address (elim o as (λ _. Text) [ none ↦ address | some h ↦ h ])
  local-host address none e = inr (e, refl)
  local-host address (some h) e = inl e

  is_local_request-IsLocal : (r : HttpRequest) → is_local_request cfg net r ≡ true → IsLocal r
  unfolding is_local_request
  is_local_request-IsLocal r h = (
    _,
    local-host r.remote_addr (net.split_host r.remote_addr) refl,
    IsLoopback-of _ (net.loopback _) refl h,
  )

  BearsKey-of :
      (r : HttpRequest) (words : List Text)
      → fields r.authorization ≡ words
      → is_empty cfg.api_key ≡ false
      → bearer_of net.equal_fold words ≡ cfg.api_key
      → BearsKey r
  BearsKey-of r [] e n h = absurd (nothing h n)
  BearsKey-of r (a ∷ []) e n h = absurd (nothing h n)
  BearsKey-of r (a ∷ b ∷ c ∷ words) e n h = absurd (nothing h n)
  BearsKey-of r (scheme ∷ token ∷ []) e n h =
      elim (Bool-cases (net.equal_fold scheme (codes "Bearer"))) [
        | inl q ↦ (scheme, e ∙ ap (λ t. scheme ∷ t ∷ []) (rw q at h), q)
        | inr q ↦ absurd (nothing (rw q at h) n)
      ]

  bears_key :
      (r : HttpRequest)
      → is_empty cfg.api_key ≡ false
      → text_eq (bearer_token cfg net r.authorization) cfg.api_key ≡ true
      → BearsKey r
  unfolding bearer_token
  bears_key r n h =
      BearsKey-of r (fields r.authorization) refl n
        ((text_eq_iff (bearer_of net.equal_fold (fields r.authorization)) cfg.api_key).0 h)

  -- An endpoint is reached by a request that may, in the way it may be.
  abbrev pub IsAdmitted : HttpRequest → Outcome → Type 0
  IsAdmitted r (reached e) = (is_open e ≡ false → IsAuthorized r) × Fits r.method (reached e)
  IsAdmitted r (refused f) = Unit {0}
  IsAdmitted r no_content = Unit {0}

  IsAdmitted-api :
      (r : HttpRequest) (o : Outcome) → IsAuthorized r → Fits r.method o → IsAdmitted r o
  IsAdmitted-api r (reached e) a f = (λ _. a, f)
  IsAdmitted-api r (refused f) a h = tt
  IsAdmitted-api r no_content a h = tt

  IsAdmitted-if :
      (r : HttpRequest) (b : Bool) (x y : Response)
      → (b ≡ true → IsAdmitted r x.outcome)
      → (b ≡ false → IsAdmitted r y.outcome)
      → IsAdmitted r (if b then x else y).outcome
  IsAdmitted-if r true x y h k = h refl
  IsAdmitted-if r false x y h k = k refl

  api_auth-IsAdmitted :
      (r : HttpRequest)
      → IsAdmitted r
          (with_api_auth cfg net
            (λ q. record { headers = []; outcome = handle_path q.method q.path })
            r).outcome
  unfolding with_api_auth
  api_auth-IsAdmitted r =
      let fits = handle_path-Fits r.method r.path in
      let o = handle_path r.method r.path in
      IsAdmitted-if r (is_empty cfg.api_key) _ _
        (λ e. IsAdmitted-api r o (inl (empty_text cfg.api_key e)) fits)
        (λ n.
          IsAdmitted-if r (cfg.allow_localhost_no_auth && is_local_request cfg net r) _ _
            (λ e.
              IsAdmitted-api r o
                (inr (inl (ground (arith, e), is_local_request-IsLocal r (ground (arith, e)))))
                fits)
            (λ _.
              IsAdmitted-if r (text_eq (bearer_token cfg net r.authorization) cfg.api_key) _ _
                (λ e. IsAdmitted-api r o (inr (inr (bears_key r n e))) fits) (λ _. tt)))

  open-IsAdmitted :
      (r : HttpRequest) (e : Endpoint)
      → is_open e ≡ true
      → Fits r.method (if text_eq r.method get then reached e else not_allowed)
      → IsAdmitted r (if text_eq r.method get then reached e else not_allowed)
  open-IsAdmitted r e o f = elim (Bool-cases (text_eq r.method get)) [
    | inl q ↦ rw q (λ n. absurd (cc (n, o)), rw q at f)
    | inr q ↦ rw q tt
  ]

  dispatched-IsAdmitted :
      (r : HttpRequest) (m : Result Refusal Mount) → IsAdmitted r (dispatched cfg net m r).outcome
  unfolding mounted body_limit_middleware
  dispatched-IsAdmitted r (err e) = tt
  dispatched-IsAdmitted r (ok at_health) =
      open-IsAdmitted r health refl (only_get-Fits r.method health refl tt)
  dispatched-IsAdmitted r (ok at_ready) =
      open-IsAdmitted r ready refl (only_get-Fits r.method ready refl tt)
  dispatched-IsAdmitted r (ok at_api) =
      IsAdmitted-if r
        (not (is_negative cfg.max_request_bytes)
          && r.has_body
          && ltb (body_limit cfg net) (magnitude r.content_length))
        _ _ (λ _. tt) (λ _. api_auth-IsAdmitted r)

  cors-IsAdmitted :
      (r : HttpRequest) → IsAdmitted r (cors_middleware cfg net (dispatch cfg net) r).outcome
  unfolding cors_middleware dispatch
  cors-IsAdmitted r =
      IsAdmitted-if r (no_origins cfg net cfg.cors_origins) _ _
        (λ _. dispatched-IsAdmitted r (net.mux r.path))
        (λ _.
          IsAdmitted-if r (text_eq r.method (codes "OPTIONS") && not (is_empty r.origin)) _ _
            (λ _. tt) (λ _. dispatched-IsAdmitted r (net.mux r.path)))

  after_request_id-IsAdmitted :
      (r : HttpRequest) (next : Handler) (v : Result RequestError (Unit {0}))
      → IsAdmitted r (next r).outcome
      → IsAdmitted r (after_request_id cfg net v next r).outcome
  after_request_id-IsAdmitted r next (err e) h = tt
  after_request_id-IsAdmitted r next (ok u) h = h

  -- Whatever the server is asked and however its paths are mounted, an endpoint of the API is
  -- reached only where no key is configured, or local requests need no key and the request's address
  -- is a loopback one or localhost, or its authorization is the word `Bearer`, in any case, and the
  -- key; one that makes or changes a session or a run by POST only; and an endpoint that is handed
  -- the id of a session by an identifier of at most 128 bytes, the id of a run by one with
  -- nothing but spaces around it.
  pub serve-IsAdmitted : (r : HttpRequest) → IsAdmitted r (serve cfg net r).outcome
  unfolding serve request_id_middleware
  serve-IsAdmitted r =
      after_request_id-IsAdmitted r _ (validate_request_id_value (trim_space r.request_id))
        (cors-IsAdmitted r)
