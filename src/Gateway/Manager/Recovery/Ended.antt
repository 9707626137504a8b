-- ===== src/Gateway/Manager/Recovery/Ended.antt =====
-- Where `RecoverStaleRuns` of gateway/run_manager.go ends, and what it leaves of the runs.
use kkode.Prelude.{
  ℕ, zero, suc, ◌≤◌, ◌<◌, Bool, true, false, List, [], ◌∷◌, map, ◌≡◌, refl, sym, ap, ◌∙◌, arith,
  if◌then◌else◌, Option, none, take, length, All, ap₂, length-map, ◌||◌, Bool-cases, inl, inr,
}
use kkode.Strings.{Text, codes}
use kkode.Gateway.Runs.{
  Status, queued, running, cancelling, completed, failed, cancelled, other, Run, run_duration_ms,
}
use kkode.Gateway.Manager.Recovery.{
  Store, finished, has_status, is_asked, with_status, recover_page, recover_status,
  recover_stale_runs, and_then,
}
use kkode.Gateway.Manager.Recovery.Closed.{
  AreDistinct, closed_if, closed-has_status, count_status, IsListed,
}
use kkode.Gateway.Manager.Recovery.Pages.{
  with_status-IsListed, with_status-AreDistinct, take-AreDistinct, take-All, recover_each-IsClosed,
}

module _ (now : Run → ℕ) (s : Status) (unlisted : Status → Store → Option Text) where
  with_status-nil : (rs : List Run) → with_status s rs ≡ [] → map (closed_if now s) rs ≡ rs
  unfolding with_status
  with_status-nil [] h = refl
  with_status-nil (q ∷ rs) h = elim (Bool-cases (has_status s q)) [
    | inl e ↦ absurd (cc (rw e at h))
    | inr e ↦ rw e (ap (◌∷◌ q) (with_status-nil rs (rw e at h)))
  ]

  take-nil : (rs : List Run) → take 1000 rs ≡ [] → rs ≡ []
  take-nil [] h = refl
  take-nil (r ∷ rs) h = absurd (cc h)

  recover_status-Ends :
      (n : ℕ) (fails : Run → Option Text) (st : Store)
      → ((t : Status) (x : Store) → unlisted t x ≡ none)
      → ((r : Run) → fails r ≡ none)
      → AreDistinct st.saved
      → count_status now s st.saved < n
      → (after : Store) × (recover_status n unlisted fails now s st ≡ finished after)
        × AreDistinct after.saved
        × (after.saved ≡ map (closed_if now s) st.saved)
  unfolding recover_page
  recover_status-Ends zero fails st lists works d h = absurd (omega (arith, h))
  recover_status-Ends (suc n) fails st lists works d h =
      go (take 1000 (with_status s st.saved)) refl
        (take-AreDistinct now s 1000 _ (with_status-AreDistinct now s st.saved d))
        (take-All now s (IsListed now s st.saved) 1000 _ (with_status-IsListed now s st.saved d))
        (λ next. recover_status-Ends n fails next lists works)
    where
      listed :
          recover_status (suc n) unlisted fails now s st
          ≡ recover_page fails now st
              (recover_status n unlisted fails now s)
              (take 1000 (with_status s st.saved))
      listed = unfold recover_status in rw (lists s st, recover_status) refl

      go :
          (page : List Run)
          → take 1000 (with_status s st.saved) ≡ page
          → AreDistinct page
          → All (IsListed now s st.saved) page
          → ((next : Store)
              → AreDistinct next.saved
              → count_status now s next.saved < n
              → (after : Store) × (recover_status n unlisted fails now s next ≡ finished after)
                × AreDistinct after.saved
                × (after.saved ≡ map (closed_if now s) next.saved))
          → (after : Store) × (recover_status (suc n) unlisted fails now s st ≡ finished after)
            × AreDistinct after.saved
            × (after.saved ≡ map (closed_if now s) st.saved)
      go [] e p k ih = (
        st,
        listed ∙ ap (recover_page fails now st (recover_status n unlisted fails now s)) e,
        d,
        sym (with_status-nil st.saved (take-nil (with_status s st.saved) e)),
      )
      go (r ∷ rs) e p k ih =
          let (next, f, c) = recover_each-IsClosed now s fails (r ∷ rs) st works p d k in
          let (after, g, d', m) = ih next c.distinct (omega (arith, h, c.fewer)) in
          (
            after,
            listed
                ∙ ap (recover_page fails now st (recover_status n unlisted fails now s)) e
                ∙ ap (λ x. and_then x (recover_status n unlisted fails now s)) f
                ∙ g,
            d',
            m ∙ c.same,
          )

  count_status-le : (rs : List Run) → count_status now s rs ≤ length rs
  unfolding count_status
  count_status-le [] = omega arith
  count_status-le (q ∷ rs) = elim (Bool-cases (has_status s q)) [
    | inl e ↦ rw e (omega (arith, count_status-le rs))
    | inr e ↦ rw e (omega (arith, count_status-le rs))
  ]

-- The statuses of runs that nobody owns any more.
abbrev pub is_stale : Status → Bool
is_stale queued = true
is_stale running = true
is_stale cancelling = true
is_stale _ = false

is_stale_lem :
    (r : Run)
    → is_stale r.status ≡ (has_status queued r || has_status running r || has_status cancelling r)
unfolding has_status is_asked
is_stale_lem r = go r.status
  where
    go :
        (s : Status)
        → is_stale s ≡ (is_asked queued s || is_asked running s || is_asked cancelling s)
    go queued = refl
    go running = refl
    go cancelling = refl
    go completed = refl
    go failed = refl
    go cancelled = refl
    go (other t) = refl

-- What a recovery owes each run.
abbrev pub closed_if_stale : (Run → ℕ) → Run → Run
closed_if_stale now r =
    if is_stale r.status
    then record r {
      status = failed;
      ended_at = now r;
      duration_ms = run_duration_ms r.started_at (now r);
      error = codes "gateway restarted before this run completed";
    }
    else r

closed_if-all :
    (now : Run → ℕ) (r : Run)
    → closed_if now cancelling (closed_if now running (closed_if now queued r))
      ≡ closed_if_stale now r
closed_if-all now r = elim (Bool-cases (has_status queued r)) [
  | inl q ↦
      rw (is_stale_lem r, q, closed-has_status now running r, closed-has_status now cancelling r)
        refl
  | inr q ↦ elim (Bool-cases (has_status running r)) [
    | inl p ↦ rw (is_stale_lem r, q, p, closed-has_status now cancelling r) refl
    | inr p ↦ elim (Bool-cases (has_status cancelling r)) [
      | inl c ↦ rw (is_stale_lem r, q, p, c) refl
      | inr c ↦ rw (is_stale_lem r, q, p, c) refl
    ]
  ]
]

map-all :
    (now : Run → ℕ) (rs : List Run)
    → map (closed_if now cancelling) (map (closed_if now running) (map (closed_if now queued) rs))
      ≡ map (closed_if_stale now) rs
map-all now [] = refl
map-all now (r ∷ rs) = ap₂ ◌∷◌ (closed_if-all now r) (map-all now rs)

-- Where every listing and every save succeeds and no id stands twice in the store,
-- `RecoverStaleRuns` ends, whatever the number of runs, and then the store has the same runs as
-- before, each that was queued, running or cancelling closed as failed at a time of its own, with the
-- duration up to then, and every other one unchanged. One round more than there are runs
-- is enough for each status.
pub recover_stale_runs-Ends :
    (unlisted : Status → Store → Option Text) (fails : Run → Option Text) (now : Run → ℕ)
    (st : Store)
    → ((t : Status) (x : Store) → unlisted t x ≡ none)
    → ((r : Run) → fails r ≡ none)
    → AreDistinct st.saved
    → (after : Store) × (recover_stale_runs (suc (length st.saved)) unlisted fails now st
        ≡ finished after)
      × (after.saved ≡ map (closed_if_stale now) st.saved)
unfolding recover_stale_runs
recover_stale_runs-Ends unlisted fails now st lists works d =
    let n = suc (length st.saved) in
    let (a, e, p, m) =
      recover_status-Ends now queued unlisted n fails st lists works d
        (omega (arith, count_status-le now queued unlisted st.saved)) in
    let (b, f, q, k) = recover_status-Ends now running unlisted n fails a lists works p (
      omega (
        arith,
        count_status-le now running unlisted a.saved,
        ap length m,
        length-map st.saved (closed_if now queued),
      )) in
    let (c, g, r, l) = recover_status-Ends now cancelling unlisted n fails b lists works q (
      omega (
        arith,
        count_status-le now cancelling unlisted b.saved,
        ap length k,
        ap length m,
        length-map a.saved (closed_if now running),
        length-map st.saved (closed_if now queued),
      )) in
    (
      c,
      ap
            (λ x.
              and_then (and_then x (recover_status n unlisted fails now running))
                (recover_status n unlisted fails now cancelling))
            e
          ∙ ap (λ x. and_then x (recover_status n unlisted fails now cancelling)) f
          ∙ g,
      l
          ∙ ap (map (closed_if now cancelling)) (k ∙ ap (map (closed_if now running)) m)
          ∙ map-all now st.saved,
    )
