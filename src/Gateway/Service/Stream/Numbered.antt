-- ===== src/Gateway/Service/Stream/Numbered.antt =====
-- The numbers and kinds of the events of a stream, and where it ends.
use kkode.Prelude.{
  ℕ, ◌+◌, ◌<◌, Bool, true, false, List, [], ◌∷◌, ◌++◌, if◌then◌else◌, ◌≡◌, refl, ap, arith,
  Bool-cases, inl, inr,
}
use kkode.Strings.{Text}
use kkode.Gateway.Runs.{Run, is_terminal}
use kkode.Gateway.Events.{RunEvent, run_event_type}
use kkode.Gateway.Service.Stream.{
  Input, received, tick, closed, done, Frame, event, heartbeat, is_wanted, next_seq, follow_events,
  redact_run_event, follow_runs, follow, Source, events, runs, no_subscriber,
}

-- Every event is of the wanted type, and its number is above the one before it, the first one's
-- above `n`.
abbrev pub AreNumbered : Text → ℕ → List Frame → Type 0
AreNumbered wanted n [] = Unit {0}
AreNumbered wanted n (heartbeat ∷ fs) = AreNumbered wanted n fs
AreNumbered wanted n (event e ∷ fs) =
    (n < e.seq) × (is_wanted wanted e.kind ≡ true) × AreNumbered wanted e.seq fs

module _ (redact : Text → Text) (redact_json : List ℕ → List ℕ) where
  next_seq-lt : (seq n : ℕ) → seq < next_seq seq n
  next_seq-lt seq n = ground arith

  AreNumbered-if :
      (wanted : Text) (n : ℕ) (b : Bool) (fs : List Frame)
      → AreNumbered wanted n fs
      → AreNumbered wanted n (if b then [] else fs)
  AreNumbered-if wanted n true fs h = tt
  AreNumbered-if wanted n false fs h = h

  follow_events-AreNumbered :
      (wanted : Text) (seq : ℕ) (is : List (Input RunEvent))
      → AreNumbered wanted seq (follow_events redact redact_json wanted seq is)
  unfolding follow_events
  follow_events-AreNumbered wanted seq [] = tt
  follow_events-AreNumbered wanted seq (closed ∷ is) = tt
  follow_events-AreNumbered wanted seq (done ∷ is) = tt
  follow_events-AreNumbered wanted seq (tick ∷ is) = follow_events-AreNumbered wanted seq is
  follow_events-AreNumbered wanted seq (received now e ∷ is) =
      let n = next_seq seq e.seq in
      elim (Bool-cases (is_wanted wanted e.kind)) [
        | inl w ↦
            unfold redact_run_event in
            rw w (
              next_seq-lt seq e.seq,
              w,
              AreNumbered-if wanted n (is_terminal e.run.status) _
                  (follow_events-AreNumbered wanted n is),
            )
        | inr w ↦ rw w (
            AreNumbered-if wanted seq (is_terminal e.run.status) _
              (follow_events-AreNumbered wanted seq is))
      ]

  follow_runs-AreNumbered :
      (wanted : Text) (seq : ℕ) (is : List (Input Run))
      → AreNumbered wanted seq (follow_runs redact redact_json wanted seq is)
  unfolding follow_runs
  follow_runs-AreNumbered wanted seq [] = tt
  follow_runs-AreNumbered wanted seq (closed ∷ is) = tt
  follow_runs-AreNumbered wanted seq (done ∷ is) = tt
  follow_runs-AreNumbered wanted seq (tick ∷ is) = follow_runs-AreNumbered wanted seq is
  follow_runs-AreNumbered wanted seq (received now r ∷ is) =
      elim (Bool-cases (is_wanted wanted (run_event_type r.status))) [
        | inl w ↦
            unfold redact_run_event in
            rw w (
              omega arith,
              w,
              AreNumbered-if wanted (seq + 1) (is_terminal r.status) _
                  (follow_runs-AreNumbered wanted (seq + 1) is),
            )
        | inr w ↦ rw w (follow_runs-AreNumbered wanted seq is)
      ]

  -- Whatever comes through a channel of events or of runs, behind the number that the snapshot ends
  -- with a stream writes only events of the wanted type, and their numbers rise from each to the
  -- next.
  pub follow-AreNumbered :
      (wanted : Text) (seq : ℕ) (source : Source)
      → AreNumbered wanted seq (follow redact redact_json wanted seq source)
  unfolding follow
  follow-AreNumbered wanted seq (events is) = follow_events-AreNumbered wanted seq is
  follow-AreNumbered wanted seq (runs is) = follow_runs-AreNumbered wanted seq is
  follow-AreNumbered wanted seq no_subscriber = tt

  -- A stream that follows the events of a run ends at the first event of an ended run, whatever
  -- types it passes over: what comes after that event changes nothing.
  pub follow_events-ends :
      (wanted : Text) (seq : ℕ) (front back : List (Input RunEvent)) (now : ℕ) (e : RunEvent)
      → is_terminal e.run.status ≡ true
      → follow_events redact redact_json wanted seq (front ++ received now e ∷ back)
        ≡ follow_events redact redact_json wanted seq (front ++ received now e ∷ [])
  unfolding follow_events
  follow_events-ends wanted seq [] back now e h = rw h refl
  follow_events-ends wanted seq (closed ∷ is) back now e h = refl
  follow_events-ends wanted seq (done ∷ is) back now e h = refl
  follow_events-ends wanted seq (tick ∷ is) back now e h =
      ap (◌∷◌ heartbeat) (follow_events-ends wanted seq is back now e h)
  follow_events-ends wanted seq (received at f ∷ is) back now e h =
      rw
        (follow_events-ends wanted (if is_wanted wanted f.kind then next_seq seq f.seq else seq) is
          back now e h)
        refl
