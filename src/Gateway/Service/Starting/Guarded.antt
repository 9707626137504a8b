-- ===== src/Gateway/Service/Starting/Guarded.antt =====
-- What stands between a request to start or to retry a run and the starter.
use kkode.Prelude.{◌≡◌, refl, Option, none, some, Result, ok, err, Bool-cases, inl, inr, ◌⊎◌}
use kkode.Strings.{Text, is_empty}
use kkode.Gateway.Runs.{Run, StartRequest}
use kkode.Gateway.Requests.Validation.{RequestError, validate_run_start_request}
use kkode.Gateway.Requests.Accepted.{IsAccepted, validate_run_start_request_iff}
use kkode.Gateway.Service.Starting.{
  Boundary, Reply, refused, replayed, started, identified, key_of, find_idempotent_run, prepared,
  preflight, start_run, retry_request, retry_run, Starter, after_preflight, after_search,
  after_bounds, after_starter, retry_preflight, retry_bounds, retry_found, retry_configured,
}

-- The state is as before, and no run was started; or it is what the starter makes of it from a
-- request that is accepted and passes the validator.
pub record IsHandedOver {S : Type 0} (b : Boundary S) (s after : S) : Type 0 where
  pub start : StartRequest → S → Result Text Run × S
  pub request : StartRequest
  pub configured : b.starter ≡ some start
  pub accepted : IsAccepted request
  pub passes : preflight b request s ≡ ok tt
  pub state : after ≡ (start request s).1

abbrev pub IsStarted : Reply → Type 0
IsStarted (refused e) = ⊥
IsStarted (replayed r) = ⊥
IsStarted (started r) = Unit {0}

abbrev pub IsGuarded : {S : Type 0} → Boundary S → S → Reply × S → Type 0
IsGuarded b s (r, after) = ((after ≡ s) × (IsStarted r → ⊥)) ⊎ IsHandedOver b s after

IsAccepted-identified :
    (digest : Text → Text) (req : StartRequest)
    → validate_run_start_request req ≡ ok tt
    → IsAccepted (identified digest req)
unfolding identified validate_run_start_request
IsAccepted-identified digest req h = elim (Bool-cases (is_empty (key_of req))) [
  | inl e ↦ rw e ((validate_run_start_request_iff req).0 h)
  | inr e ↦ rw e ((validate_run_start_request_iff _).0 h)
]

module _ {S : Type 0} (b : Boundary S) where
  -- The starter gets the request.
  handed :
      (start : Starter b) (req : StartRequest) (s : S)
      → b.starter ≡ some start
      → IsAccepted req
      → preflight b req s ≡ ok tt
      → IsHandedOver b s (start req s).1
  handed start req s e a p = record {
    start = start;
    request = req;
    configured = e;
    accepted = a;
    passes = p;
    state = refl;
  }

  after_preflight-IsGuarded :
      (start : Starter b) (req : StartRequest) (s : S) (p : Result Text (Unit {0}))
      → b.starter ≡ some start
      → IsAccepted req
      → preflight b req s ≡ p
      → IsGuarded b s (after_preflight b start req s p)
        × IsGuarded b s (retry_preflight b start req s p)
  after_preflight-IsGuarded start req s (err f) e a p = (inl (refl, λ h. h), inl (refl, λ h. h))
  after_preflight-IsGuarded start req s (ok tt) e a p =
      (inr (handed start req s e a p), inr (handed start req s e a p))

  after_search-IsGuarded :
      (start : Starter b) (req : StartRequest) (s : S) (found : Option Run)
      → b.starter ≡ some start
      → IsAccepted req
      → IsGuarded b s (after_search b start req s found)
  unfolding after_search
  after_search-IsGuarded start req s (some existing) e a = inl (refl, λ h. h)
  after_search-IsGuarded start req s none e a =
      (after_preflight-IsGuarded start req s (preflight b req s) e a refl).0

  after_bounds-IsGuarded :
      (start : Starter b) (req : StartRequest) (s : S) (v : Result RequestError (Unit {0}))
      → b.starter ≡ some start
      → validate_run_start_request req ≡ v
      → IsGuarded b s (after_bounds b start req s v) × IsGuarded b s (retry_bounds b start req s v)
  unfolding after_bounds retry_bounds
  after_bounds-IsGuarded start req s (err f) e v = (inl (refl, λ h. h), inl (refl, λ h. h))
  after_bounds-IsGuarded start req s (ok tt) e v = (
    after_search-IsGuarded start (identified b.digest req) s (find_idempotent_run b req s) e
        (IsAccepted-identified b.digest req v),
    (after_preflight-IsGuarded start req s (preflight b req s) e
        ((validate_run_start_request_iff req).0 v) refl).1,
  )

  after_starter-IsGuarded :
      (req : StartRequest) (s : S) (o : Option (Starter b))
      → b.starter ≡ o
      → IsGuarded b s (after_starter b req s o)
  unfolding after_starter
  after_starter-IsGuarded req s none e = inl (refl, λ h. h)
  after_starter-IsGuarded req s (some start) e =
      (after_bounds-IsGuarded start req s (validate_run_start_request req) e refl).0

  retry_found-IsGuarded :
      (request_id : Text) (start : Starter b) (s : S) (found : Result Text Run)
      → b.starter ≡ some start
      → IsGuarded b s (retry_found b request_id start s found)
  unfolding retry_found
  retry_found-IsGuarded request_id start s (err f) e = inl (refl, λ h. h)
  retry_found-IsGuarded request_id start s (ok original) e =
      (after_bounds-IsGuarded start (retry_request b request_id original) s
        (validate_run_start_request (retry_request b request_id original)) e refl).1

  retry_configured-IsGuarded :
      (request_id run_id : Text) (s : S) (g : Option (Text → S → Result Text Run))
      (o : Option (Starter b))
      → b.starter ≡ o
      → IsGuarded b s (retry_configured b request_id run_id s g o)
  unfolding retry_configured
  retry_configured-IsGuarded request_id run_id s none o e = inl (refl, λ h. h)
  retry_configured-IsGuarded request_id run_id s (some get) none e = inl (refl, λ h. h)
  retry_configured-IsGuarded request_id run_id s (some get) (some start) e =
      retry_found-IsGuarded request_id start s (get run_id s) e

  -- Whatever `startRun` and `retryRun` are asked, they either leave the state as it was and answer
  -- with no new run, or hand the starter a request that is within all bounds of
  -- `validateRunStartRequest` and that the validator passes.
  pub start_run-IsGuarded :
      (request_id header run_id : Text) (req : StartRequest) (s : S)
      → IsGuarded b s (start_run b request_id header req s)
        × IsGuarded b s (retry_run b request_id run_id s)
  unfolding start_run retry_run
  start_run-IsGuarded request_id header run_id req s = (
    after_starter-IsGuarded (prepared b request_id header req) s b.starter refl,
    retry_configured-IsGuarded request_id run_id s b.getter b.starter refl,
  )
