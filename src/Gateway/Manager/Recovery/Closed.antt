-- ===== src/Gateway/Manager/Recovery/Closed.antt =====
-- What the save of one closed run leaves of the runs.
use kkode.Prelude.{
  ℕ, ◌+◌, true, false, List, [], ◌∷◌, map, ◌≡◌, refl, sym, ap, ◌∙◌, subst, arith, if◌then◌else◌,
  Option, none, some, Bool-cases, inl, inr,
}
use kkode.Strings.{Text, text_eq}
use kkode.Strings.Prefixes.{text_eq_iff, text_eq_refl}
use kkode.Gateway.Runs.{
  Status, queued, running, cancelling, completed, failed, cancelled, other, Run,
}
use kkode.Gateway.Manager.Recovery.{has_status, save_run, closed_run}

unfoldable pub find_run : Text → List Run → Option Run
find_run id [] = none
find_run id (r ∷ rs) = if text_eq r.id id then some r else find_run id rs

-- No id stands twice.
abbrev pub AreDistinct : List Run → Type 0
AreDistinct [] = Unit {0}
AreDistinct (r ∷ rs) = (find_run r.id rs ≡ none) × AreDistinct rs

-- A run of the status is closed, any other one stays.
abbrev pub closed_if : (Run → ℕ) → Status → Run → Run
closed_if now s r = if has_status s r then closed_run now r else r

pub closed-has_status :
    (now : Run → ℕ) (s : Status) (r : Run) → has_status s (closed_run now r) ≡ false
unfolding has_status
closed-has_status now queued r = refl
closed-has_status now running r = refl
closed-has_status now cancelling r = refl
closed-has_status now completed r = refl
closed-has_status now failed r = refl
closed-has_status now cancelled r = refl
closed-has_status now (other t) r = refl

pub some_inj : (a b : Run) → some a ≡ some b → a ≡ b
some_inj a b e = ap (λ o. elim o [ none ↦ a | some r ↦ r ]) e

module _ (now : Run → ℕ) (s : Status) where
  closed_if-hit : (r : Run) → has_status s r ≡ true → closed_if now s r ≡ closed_run now r
  closed_if-hit r h = rw h refl

  closed_if-closed : (r : Run) → closed_if now s (closed_run now r) ≡ closed_run now r
  closed_if-closed r = rw (closed-has_status now s r) refl

  -- Closing a run of the status does not change what closing all of them gives.
  pub map-save_run :
      (r : Run) (rs : List Run)
      → find_run r.id rs ≡ some r
      → has_status s r ≡ true
      → map (closed_if now s) (save_run (closed_run now r) rs) ≡ map (closed_if now s) rs
  unfolding find_run save_run
  map-save_run r [] f h = absurd (none_some f)
    where
      none_some : none ≡ some r → ⊥
      none_some e = cc
  map-save_run r (q ∷ rs) f h = elim (Bool-cases (text_eq q.id r.id)) [
    | inl e ↦ rw e (
        ap (λ x. x ∷ map (closed_if now s) rs)
          (closed_if-closed r
            ∙ sym (closed_if-hit r h)
            ∙ sym (ap (closed_if now s) (some_inj q r (rw e at f)))))
    | inr e ↦ rw e (ap (λ xs. closed_if now s q ∷ xs) (map-save_run r rs (rw e at f) h))
  ]

  unfoldable pub count_status : List Run → ℕ
  count_status [] = 0
  count_status (r ∷ rs) = let rest = count_status rs in if has_status s r then rest + 1 else rest

  pub count-save_run :
      (r : Run) (rs : List Run)
      → find_run r.id rs ≡ some r
      → has_status s r ≡ true
      → count_status (save_run (closed_run now r) rs) + 1 ≡ count_status rs
  unfolding find_run save_run count_status
  count-save_run r [] f h = absurd (none_some f)
    where
      none_some : none ≡ some r → ⊥
      none_some e = cc
  count-save_run r (q ∷ rs) f h = elim (Bool-cases (text_eq q.id r.id)) [
    | inl e ↦
        let same : has_status s q ≡ true = ap (has_status s) (some_inj q r (rw e at f)) ∙ h in
        rw (e, same, closed-has_status now s r) refl
    | inr e ↦ elim (Bool-cases (has_status s q)) [
      | inl g ↦ rw (e, g) (omega (arith, count-save_run r rs (rw e at f) h))
      | inr g ↦ rw (e, g) (count-save_run r rs (rw e at f) h)
    ]
  ]

  pub find-save_run :
      (r : Run) (id : Text) (rs : List Run)
      → text_eq r.id id ≡ false
      → find_run id (save_run (closed_run now r) rs) ≡ find_run id rs
  unfolding find_run save_run
  find-save_run r id [] n = rw n refl
  find-save_run r id (q ∷ rs) n = elim (Bool-cases (text_eq q.id r.id)) [
    | inl e ↦
        let other : text_eq q.id id ≡ false =
          ap (λ x. text_eq x id) ((text_eq_iff q.id r.id).0 e) ∙ n in
        rw (e, n, other) refl
    | inr e ↦ elim (Bool-cases (text_eq q.id id)) [
      | inl g ↦ rw (e, g) refl
      | inr g ↦ rw (e, g) (find-save_run r id rs n)
    ]
  ]

  text_eq_flip : (a b : Text) → text_eq a b ≡ false → text_eq b a ≡ false
  text_eq_flip a b h = elim (Bool-cases (text_eq b a)) [
    | inl e ↦
        absurd
          (cc (subst (λ x. text_eq x b ≡ false) (sym ((text_eq_iff b a).0 e)) h, text_eq_refl b))
    | inr e ↦ e
  ]

  pub save_run-AreDistinct :
      (r : Run) (rs : List Run) → AreDistinct rs → AreDistinct (save_run (closed_run now r) rs)
  unfolding save_run
  save_run-AreDistinct r [] d = (unfold find_run in refl, tt)
  save_run-AreDistinct r (q ∷ rs) d = elim (Bool-cases (text_eq q.id r.id)) [
    | inl e ↦ rw e (ap (λ x. find_run x rs) (sym ((text_eq_iff q.id r.id).0 e)) ∙ d.0, d.1)
    | inr e ↦
        rw e
          (find-save_run r q.id rs (text_eq_flip q.id r.id e) ∙ d.0, save_run-AreDistinct r rs d.1)
  ]

  abbrev pub IsListed : List Run → Run → Type 0
  IsListed rs r = (find_run r.id rs ≡ some r) × (has_status s r ≡ true)
