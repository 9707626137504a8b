-- ===== src/Gateway/Manager/Queries.antt =====
-- `List`, `Count` and `runMatchesQuery` of gateway/run_manager.go, for a manager without a store.
pub mod Listed
use kkode.Prelude.{
  ℕ, zero, suc, ◌+◌, ◌-◌, Bool, ◌&&◌, ◌||◌, List, [], ◌∷◌, leb, ltb, arith, if◌then◌else◌, length,
  length-take, length-drop, take, drop, min, ◌≡◌, inl, inr, refl, ap, ◌∙◌, Bool-cases,
}
use kkode.Prelude.Int.{ℤ, pos, negsuc}
use kkode.Strings.{Text, is_empty, text_eq}
use kkode.Gateway.Runs.{Run, lookup, entries, request_id_key, idempotency_key, clone_run}
use kkode.Gateway.Events.{status_text}
use kkode.Gateway.Manager.{Runs, Manager}

-- `RunQuery`
pub record RunQuery : Type 0 where
  pub session_id : Text
  pub turn_id : Text
  pub status : Text
  pub provider : Text
  pub model : Text
  pub request_id : Text
  pub idempotency_key_value : Text
  pub limit : ℤ
  pub offset : ℤ

-- A field of the query that is empty asks for nothing.
abbrev pub agrees : Text → Text → Bool
agrees wanted found = is_empty wanted || text_eq found wanted

-- `runMatchesQuery`
unfoldable pub run_matches_query : Run → RunQuery → Bool
unfolding is_empty text_eq lookup
run_matches_query r q =
    agrees q.session_id r.session_id
    && agrees q.turn_id r.turn_id
    && agrees q.status (status_text r.status)
    && agrees q.provider r.provider
    && agrees q.model r.model
    && agrees q.request_id (lookup (entries r.metadata) request_id_key)
    && agrees q.idempotency_key_value (lookup (entries r.metadata) idempotency_key)

-- The loop of `List`
unfoldable pub matching : RunQuery → Runs → List Run
unfolding run_matches_query clone_run
matching q [] = []
matching q ((id, m) ∷ rs) =
    let rest = matching q rs in if run_matches_query m.run q then clone_run m.run ∷ rest else rest

-- `if limit <= 0 { limit = 50 }`
unfoldable pub page_limit : ℤ → ℕ
page_limit (pos zero) = 50
page_limit (pos (suc n)) = suc n
page_limit (negsuc n) = 50

-- The last lines of `List`. A page behind the end is empty.
unfoldable pub page_from : ℤ → List Run → List Run
page_from (pos n) rs = if leb (length rs) n then [] else drop n rs
page_from (negsuc n) rs = rs

-- `List`. `arrange` is the order in which the map is walked with what `sort.Slice` makes of it: runs
-- that started at one time stand in any order, another one in each call.
unfoldable pub list_runs : (List Run → List Run) → RunQuery → Manager → List Run
unfolding matching page_limit page_from
list_runs arrange q m = take (page_limit q.limit) (page_from q.offset (arrange (matching q m.runs)))

-- `Count`
unfoldable pub count_runs : RunQuery → Runs → ℕ
unfolding run_matches_query
count_runs q [] = 0
count_runs q ((id, m) ∷ rs) =
    let rest = count_runs q rs in if run_matches_query m.run q then rest + 1 else rest

pub length-matching : (q : RunQuery) (rs : Runs) → length (matching q rs) ≡ count_runs q rs
unfolding matching count_runs
length-matching q [] = refl
length-matching q ((id, m) ∷ rs) = elim (Bool-cases (run_matches_query m.run q)) [
  | inl e ↦ rw (e, matching, count_runs) (omega (arith, length-matching q rs))
  | inr e ↦ rw (e, matching, count_runs) (length-matching q rs)
]

pub length-page_from : (n : ℕ) (rs : List Run) → length (page_from (pos n) rs) ≡ length rs - n
unfolding page_from
length-page_from n rs = elim (Bool-cases (leb (length rs) n)) [
  | inl e ↦ rw e (ground (arith))
  | inr e ↦ rw e (length-drop n rs)
]
