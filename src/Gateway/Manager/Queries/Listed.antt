-- ===== src/Gateway/Manager/Queries/Listed.antt =====
-- What `List` of gateway/run_manager.go gives, for a manager without a store.
use kkode.Prelude.{◌≤◌, List, [], ◌∷◌, ◌++◌, ◌≡◌, ◌⊎◌, All}
use kkode.Strings.{Text}
use kkode.Gateway.Runs.{Run, lookup, entries, request_id_key, idempotency_key}
use kkode.Gateway.Events.{status_text}
use kkode.Gateway.Manager.{Runs, Manager}
use kkode.Gateway.Manager.Queries.{RunQuery}

-- The same runs in some order
pub data IsShuffle : List Run → List Run → Type 0 where
  empty : IsShuffle [] []
  insert :
      (r : Run) (rs before after : List Run)
      → IsShuffle rs (before ++ after)
      → IsShuffle (r ∷ rs) (before ++ r ∷ after)

abbrev pub IsNewestFirst : List Run → Type 0
IsNewestFirst [] = Unit {0}
IsNewestFirst (r ∷ rs) = All (λ s. s.started_at ≤ r.started_at) rs × IsNewestFirst rs

-- A walk of the map, sorted
abbrev pub IsArranging : (List Run → List Run) → Type 0
IsArranging arrange = (rs : List Run) → IsShuffle rs (arrange rs) × IsNewestFirst (arrange rs)

-- A field of the query asks for nothing, or the run has it.
abbrev pub Asks : Text → Text → Type 0
Asks wanted found = (wanted ≡ []) ⊎ (found ≡ wanted)

pub record IsWanted (q : RunQuery) (r : Run) : Type 0 where
  pub by_session : Asks q.session_id r.session_id
  pub by_turn : Asks q.turn_id r.turn_id
  pub by_status : Asks q.status (status_text r.status)
  pub by_provider : Asks q.provider r.provider
  pub by_model : Asks q.model r.model
  pub by_request : Asks q.request_id (lookup (entries r.metadata) request_id_key)
  pub by_key : Asks q.idempotency_key_value (lookup (entries r.metadata) idempotency_key)
