-- ===== src/Gateway/Manager/Recovery/Pages.antt =====
-- What the runs of one page are, and what is left of them after it.
use kkode.Prelude.{
  ℕ, zero, suc, ◌+◌, true, false, List, [], ◌∷◌, map, ◌≡◌, refl, sym, ap, ◌∙◌, subst, arith, Option,
  none, some, take, length, All, All-mono, Bool-cases, inl, inr,
}
use kkode.Strings.{Text, text_eq}
use kkode.Strings.Prefixes.{text_eq_iff, text_eq_refl}
use kkode.Gateway.Runs.{Status, queued, running, cancelling, Run, is_terminal}
use kkode.Gateway.Manager.Recovery.{
  Store, finished, is_asked, has_status, with_status, save_run, closed_run, close_in, recover_each,
}
use kkode.Gateway.Manager.Recovery.Closed.{
  find_run, AreDistinct, closed_if, map-save_run, count_status, count-save_run, find-save_run,
  save_run-AreDistinct, IsListed,
}

no_run : (r : Run) → none ≡ some r → ⊥
no_run r e = cc

asked-live : (s t : Status) → is_asked s t ≡ true → is_terminal t ≡ false
unfolding is_asked is_terminal
asked-live queued queued h = refl
asked-live running running h = refl
asked-live cancelling cancelling h = refl
asked-live _ _ h = cc

live : (s : Status) (r : Run) → has_status s r ≡ true → is_terminal r.status ≡ false
unfolding has_status
live s r h = asked-live s r.status h

module _ (now : Run → ℕ) (s : Status) where
  IsListed-later :
      (q : Run) (rs : List Run) (r : Run)
      → find_run q.id rs ≡ none
      → IsListed now s rs r
      → IsListed now s (q ∷ rs) r
  IsListed-later q rs r n k = (
    elim (Bool-cases (text_eq q.id r.id)) [
      | inl e ↦
          absurd (no_run r (sym n ∙ ap (λ x. find_run x rs) ((text_eq_iff q.id r.id).0 e) ∙ k.0))
      | inr e ↦ unfold find_run in rw e k.0
    ],
    k.1,
  )

  pub with_status-IsListed :
      (rs : List Run) → AreDistinct rs → All (IsListed now s rs) (with_status s rs)
  unfolding with_status
  with_status-IsListed [] d = tt
  with_status-IsListed (q ∷ rs) d =
      let later =
        All-mono (IsListed now s rs) (IsListed now s (q ∷ rs)) (with_status s rs)
          (λ r. IsListed-later q rs r d.0) (with_status-IsListed rs d.1) in
      elim (Bool-cases (has_status s q)) [
        | inl e ↦ rw e ((unfold find_run in rw (text_eq_refl q.id) refl, e), later)
        | inr e ↦ rw e later
      ]

  find-with_status :
      (id : Text) (rs : List Run) → find_run id rs ≡ none → find_run id (with_status s rs) ≡ none
  unfolding find_run with_status
  find-with_status id [] n = refl
  find-with_status id (q ∷ rs) n = elim (Bool-cases (text_eq q.id id)) [
    | inl e ↦ absurd (no_run q (sym (rw e at n)))
    | inr e ↦ elim (Bool-cases (has_status s q)) [
      | inl g ↦ rw (g, e) (find-with_status id rs (rw e at n))
      | inr g ↦ rw g (find-with_status id rs (rw e at n))
    ]
  ]

  pub with_status-AreDistinct : (rs : List Run) → AreDistinct rs → AreDistinct (with_status s rs)
  unfolding with_status
  with_status-AreDistinct [] d = tt
  with_status-AreDistinct (q ∷ rs) d = elim (Bool-cases (has_status s q)) [
    | inl g ↦ rw g (find-with_status q.id rs d.0, with_status-AreDistinct rs d.1)
    | inr g ↦ rw g (with_status-AreDistinct rs d.1)
  ]

  find-take :
      (n : ℕ) (id : Text) (rs : List Run) → find_run id rs ≡ none → find_run id (take n rs) ≡ none
  unfolding find_run
  find-take zero id rs h = refl
  find-take (suc n) id [] h = refl
  find-take (suc n) id (q ∷ rs) h = elim (Bool-cases (text_eq q.id id)) [
    | inl e ↦ absurd (no_run q (sym (rw e at h)))
    | inr e ↦ rw e (find-take n id rs (rw e at h))
  ]

  pub take-AreDistinct : (n : ℕ) (rs : List Run) → AreDistinct rs → AreDistinct (take n rs)
  take-AreDistinct zero rs d = tt
  take-AreDistinct (suc n) [] d = tt
  take-AreDistinct (suc n) (q ∷ rs) d = (find-take n q.id rs d.0, take-AreDistinct n rs d.1)

  pub take-All : (P : Run → Type 0) (n : ℕ) (rs : List Run) → All P rs → All P (take n rs)
  take-All P zero rs h = tt
  take-All P (suc n) [] h = tt
  take-All P (suc n) (q ∷ rs) h = (h.0, take-All P n rs h.1)

  -- The runs of a page that are not closed yet stay in the store.
  IsListed-save_run :
      (r : Run) (page rs : List Run)
      → find_run r.id page ≡ none
      → All (IsListed now s rs) page
      → All (IsListed now s (save_run (closed_run now r) rs)) page
  unfolding find_run
  IsListed-save_run r [] rs n h = tt
  IsListed-save_run r (q ∷ page) rs n h = elim (Bool-cases (text_eq q.id r.id)) [
    | inl e ↦ absurd (no_run q (sym (rw e at n)))
    | inr e ↦ (
      (find-save_run now s r q.id rs (flip q.id r.id e) ∙ h.0.0, h.0.1),
      IsListed-save_run r page rs (rw e at n) h.1,
    )
  ]
    where
      flip : (a b : Text) → text_eq a b ≡ false → text_eq b a ≡ false
      flip a b h = elim (Bool-cases (text_eq b a)) [
        | inl e ↦
            absurd (
              cc (subst (λ x. text_eq x b ≡ false) (sym ((text_eq_iff b a).0 e)) h, text_eq_refl b))
        | inr e ↦ e
      ]

  recover_each-live :
      (fails : Run → Option Text) (r : Run) (rs : List Run) (st : Store)
      → is_terminal r.status ≡ false
      → fails r ≡ none
      → recover_each fails now (r ∷ rs) st ≡ recover_each fails now rs (close_in now r st)
  unfolding recover_each
  recover_each-live fails r rs st t w = rw (t, recover_each) (rw w refl)

  -- A page is closed: the store that it leaves closes to the same runs and has fewer to close.
  pub record IsClosed (before after : Store) (n : ℕ) : Type 0 where
    pub distinct : AreDistinct after.saved
    pub same : map (closed_if now s) after.saved ≡ map (closed_if now s) before.saved
    pub fewer : count_status now s after.saved + n ≡ count_status now s before.saved

  pub recover_each-IsClosed :
      (fails : Run → Option Text) (page : List Run) (st : Store)
      → ((r : Run) → fails r ≡ none)
      → AreDistinct page
      → AreDistinct st.saved
      → All (IsListed now s st.saved) page
      → (after : Store) × (recover_each fails now page st ≡ finished after)
        × IsClosed st after (length page)
  recover_each-IsClosed fails [] st works p d h =
      (st, unfold recover_each in refl, record { distinct = d; same = refl; fewer = omega arith })
  recover_each-IsClosed fails (r ∷ page) st works p d h =
      let (after, e, k) =
        recover_each-IsClosed fails page (close_in now r st) works p.1
          (save_run-AreDistinct now s r st.saved d) (IsListed-save_run r page st.saved p.0 h.1) in
      (
        after,
        recover_each-live fails r page st (live s r h.0.1) (works r) ∙ e,
        record {
          distinct = k.distinct;
          same = k.same ∙ map-save_run now s r st.saved h.0.0 h.0.1;
          fewer = omega (arith, k.fewer, count-save_run now s r st.saved h.0.0 h.0.1);
        },
      )
