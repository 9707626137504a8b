-- ===== src/Session/Fork/Retained.antt =====
-- What a fork of session/fork.go keeps of its source.
use kkode.Prelude.{
  ℕ, Bool, true, false, ◌||◌, not, ◌&&◌, List, [], ◌∷◌, ◌++◌, Result, ok, err, All, ◌≡◌, ◌≢◌, ◌⊎◌,
  inl, inr, refl, ap, subst, Bool-cases, arith,
}
use kkode.Strings.{Text, is_empty, text_eq}
use kkode.Strings.Prefixes.{text_eq_iff}
use kkode.Session.{Turn, Event, Session}
use kkode.Session.Fork.{
  turns_up_to, retained_turns, retained_turn_ids, is_key, events_of, retained_events, ForkError,
  turn_not_found, fork_session, forked,
}

not_equal : (a b : Text) → text_eq a b ≡ false → a ≢ b
not_equal a b e h = clash e ((text_eq_iff a b).1 h)
  where
    clash : {b : Bool} → b ≡ false → b ≡ true → ⊥
    clash e q = cc

module _ {Rest : Type 0} where
  abbrev pub IsOther : Text → Turn Rest → Type 0
  IsOther id t = t.id ≢ id

  -- `kept` is the turns up to the first one with the id.
  pub record IsUpTo (id : Text) (turns kept : List (Turn Rest)) : Type 0 where
    pub before : List (Turn Rest)
    pub at : Turn Rest
    pub later : List (Turn Rest)
    pub of_source : turns ≡ before ++ at ∷ later
    pub of_kept : kept ≡ before ++ at ∷ []
    pub has_id : at.id ≡ id
    pub is_first : All (IsOther id) before

  turns_up_to-cases :
      (id : Text) (ts : List (Turn Rest))
      → (((turns_up_to id ts).1 ≡ false) × All (IsOther id) ts)
        ⊎ (((turns_up_to id ts).1 ≡ true) × IsUpTo id ts (turns_up_to id ts).0)
  unfolding turns_up_to
  turns_up_to-cases id [] = inl (refl, tt)
  turns_up_to-cases id (t ∷ ts) = elim (Bool-cases (text_eq t.id id)) [
    | inl e ↦ rw e (
        inr (
          refl,
          record {
            before = [];
            at = t;
            later = ts;
            of_source = refl;
            of_kept = refl;
            has_id = (text_eq_iff t.id id).0 e;
            is_first = tt;
          },
        ))
    | inr e ↦ rw e (elim (turns_up_to-cases id ts) [
      | inl h ↦ inl (h.0, (not_equal t.id id e, h.1))
      | inr h ↦ inr (
        h.0,
        record {
          before = t ∷ h.1.before;
          at = h.1.at;
          later = h.1.later;
          of_source = ap (◌∷◌ t) h.1.of_source;
          of_kept = ap (◌∷◌ t) h.1.of_kept;
          has_id = h.1.has_id;
          is_first = (not_equal t.id id e, h.1.is_first);
        },
      )
    ])
  ]

  -- What a fork at a turn has of the turns.
  abbrev pub IsForkAt : Text → List (Turn Rest) → List (Turn Rest) → Type 0
  IsForkAt at source kept = ((at ≡ []) × (kept ≡ source)) ⊎ IsUpTo at source kept

  -- A fork either keeps all turns, when no turn is named, or exactly those up to the first turn that
  -- has the id; it fails if and only if an id is given that no turn has.
  pub fork_session-turns :
      (new_id : Text) (fresh : Event → Text) (now : ℕ) (s : Session Rest) (at : Text)
      → ((fork_session new_id fresh now s at ≡ err (turn_not_found at s.id))
          × (at ≢ [])
          × All (IsOther at) s.turns)
        ⊎ ((f : Session Rest) × (fork_session new_id fresh now s at ≡ ok f)
            × IsForkAt at s.turns f.turns)
  unfolding fork_session retained_turns is_empty
  fork_session-turns new_id fresh now s [] =
      inr (forked new_id fresh now s [] s.turns, refl, inl (refl, refl))
  fork_session-turns new_id fresh now s (c ∷ at) = elim (turns_up_to-cases (c ∷ at) s.turns) [
    | inl h ↦ inl (rw (h.0) refl, (λ e. cc), h.1)
    | inr h ↦ inr (
      forked new_id fresh now s (c ∷ at) (turns_up_to (c ∷ at) s.turns).0,
      rw (h.0) refl,
      inr h.1,
    )
  ]

-- An event of the fork is the fork's, and of one of its turns or of none.
abbrev pub IsOfFork : Text → List Text → Event → Type 0
IsOfFork session ids e =
    (e.session_id ≡ session) × ((is_empty e.turn_id || is_key e.turn_id ids) ≡ true)

events_of-IsOfFork :
    (fresh : Event → Text) (session : Text) (ids : List Text) (es : List Event)
    → All (IsOfFork session ids) (events_of fresh session ids es)
unfolding events_of
events_of-IsOfFork fresh session ids [] = tt
events_of-IsOfFork fresh session ids (e ∷ es) =
    elim (Bool-cases (is_empty e.turn_id || is_key e.turn_id ids)) [
      | inl q ↦ rw q ((refl, q), events_of-IsOfFork fresh session ids es)
      | inr q ↦ rw q (events_of-IsOfFork fresh session ids es)
    ]

retained_events-IsOfFork :
    (fresh : Event → Text) (es : List Event) (session : Text) (ids : List Text)
    → All (IsOfFork session ids) (retained_events fresh es session ids)
unfolding retained_events
retained_events-IsOfFork fresh es session [] = tt
retained_events-IsOfFork fresh es session (k ∷ ids) = events_of-IsOfFork fresh session (k ∷ ids) es

-- Each event of a fork has the fork's id, and names a turn that the fork has, or no turn.
pub fork_session-events :
    {Rest : Type 0} (new_id : Text) (fresh : Event → Text) (now : ℕ) (s f : Session Rest)
    (at : Text)
    → fork_session new_id fresh now s at ≡ ok f
    → (f.id ≡ new_id) × All (IsOfFork new_id (retained_turn_ids f.turns)) f.events
unfolding fork_session
fork_session-events {Rest} new_id fresh now s f at e =
    elim (Bool-cases (not (is_empty at) && not (retained_turns s.turns at).1)) [
      | inl q ↦ absurd (err_ok (rw q at e))
      | inr q ↦
          subst (λ g. (g.id ≡ new_id) × All (IsOfFork new_id (retained_turn_ids g.turns)) g.events)
            (ok_injective (rw q at e)) (refl, retained_events-IsOfFork fresh s.events new_id _)
    ]
  where
    err_ok :
        {x : ForkError} {g : Session Rest}
        → ◌≡◌ {A = Result ForkError (Session Rest)} (err x) (ok g)
        → ⊥
    err_ok e = cc

    ok_injective :
        {g h : Session Rest} → ◌≡◌ {A = Result ForkError (Session Rest)} (ok g) (ok h) → g ≡ h
    ok_injective e = ground arith
