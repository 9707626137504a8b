-- ===== src/Agent/Running/Guarded.antt =====
-- That a run of agent/agent.go keeps its guardrails.
use kkode.Prelude.{
  List, [], ◌∷◌, ◌++◌, Option, none, some, All, ◌≡◌, ◌≢◌, ◌⊎◌, inl, inr, refl, sym, subst,
  Option-cases, Result, ok, err,
}
use kkode.Prelude.Int.{ℤ}
use kkode.Strings.{Text}
use kkode.Llm.Tools.{ToolCall, ToolResult}
use kkode.Llm.Loop.{Request, Response, LoopError}
use kkode.Agent.Guardrails.{Guardrails, check_input, check_output}
use kkode.Agent.Guardrails.Allowed.{Accepts, IsClear, check_input_iff, check_output_iff}
use kkode.Agent.Running.{
  Trace, Entry, Outcome, add_entry, returned_with, output_blocked, concluded, run_prepared,
}

abbrev pub IsAllowedAnswer : (Text → Text) → Guardrails → Option Response → Type 0
IsAllowedAnswer lower g none = ⊥
IsAllowedAnswer lower g (some r) =
    All (IsClear lower r.text) g.blocked_output_substrings × All (Accepts r.text) g.output_policies

some-none : {A : Type 0} {a : A} → some a ≡ none → ⊥
some-none e = cc

module _ {Rest W : Type 0} (lower : Text → Text) (g : Guardrails) (req : Request Rest)
    (trace : Trace) (w : W) where
  concluded-IsAllowed :
      (turns : Option (List (Entry Rest))) (x : Result LoopError (Option Response))
      → (concluded lower g turns req x trace w).fault ≡ none
      → IsAllowedAnswer lower g (concluded lower g turns req x trace w).response
  unfolding concluded returned_with output_blocked
  concluded-IsAllowed turns (err e) h = absurd (some-none h)
  concluded-IsAllowed turns (ok none) h = absurd (some-none h)
  concluded-IsAllowed turns (ok (some r)) h = elim (Option-cases (check_output lower g r.text)) [
    | inl e ↦ rw (e, IsAllowedAnswer) ((check_output_iff lower g r.text).0 e)
    | inr (x, e) ↦ absurd (some-none (rw (e, concluded) at h))
  ]

  -- Each branch adds the turn that it returns.
  abbrev IsAdded : List (Entry Rest) → Outcome Rest W → Type 0
  IsAdded turns o =
      o.transcript
      ≡ some (turns ++ record { request = req; response = o.response; fault = o.fault } ∷ [])

  concluded-IsAdded :
      (turns : List (Entry Rest)) (x : Result LoopError (Option Response))
      → IsAdded turns (concluded lower g (some turns) req x trace w)
  unfolding concluded returned_with output_blocked add_entry
  concluded-IsAdded turns (err e) = refl
  concluded-IsAdded turns (ok none) = refl
  concluded-IsAdded turns (ok (some r)) = elim (Option-cases (check_output lower g r.text)) [
    | inl e ↦ rw (e, concluded) refl
    | inr (x, e) ↦ rw (e, concluded) refl
  ]

module _ {Rest W : Type 0} (lower : Text → Text) (g : Guardrails)
    (generate : Request Rest → W → Result Text (Option Response) × W)
    (run_calls : List ToolCall → Trace × W → List ToolResult × (Trace × W)) (limit : ℤ)
    (prompt : Text) (req : Request Rest) (w : W) where
  -- A run without an error had a prompt that the guardrails allow and returns an answer that they
  -- allow.
  pub run_prepared-IsAllowed :
      (turns : Option (List (Entry Rest)))
      → (run_prepared lower g generate run_calls limit turns prompt req w).fault ≡ none
      → All (IsClear lower prompt) g.blocked_substrings
        × All (Accepts prompt) g.input_policies
        × IsAllowedAnswer lower g
            (run_prepared lower g generate run_calls limit turns prompt req w).response
  unfolding run_prepared concluded
  run_prepared-IsAllowed turns h = elim (Option-cases (check_input lower g prompt)) [
    | inl e ↦
        let (a, b) = (check_input_iff lower g prompt).0 e in
        (
          a,
          b,
          rw (e, IsAllowedAnswer)
              (concluded-IsAllowed lower g req _ _ turns _ (rw (e, run_prepared) at h)),
        )
    | inr (x, e) ↦ absurd (some-none (rw (e, run_prepared) at h))
  ]

  -- A run with a transcript whose prompt the guardrails allow adds exactly one turn at its end, with
  -- the request and the answer and the error that it returns: where the loop fails, where the
  -- guardrails refuse the answer, and where the run completes. A run whose prompt they refuse adds
  -- none, and leaves the state of the provider and the tools as it was.
  pub run_prepared-turn :
      (turns : List (Entry Rest))
      → ((check_input lower g prompt ≢ none)
          × ((run_prepared lower g generate run_calls limit (some turns) prompt req w).world ≡ w)
          × ((run_prepared lower g generate run_calls limit (some turns) prompt req w).transcript
              ≡ some turns))
        ⊎ ((check_input lower g prompt ≡ none)
            × ((run_prepared lower g generate run_calls limit (some turns) prompt req w).transcript
                ≡ some (
                    turns
                    ++ record {
                      request = req;
                      response =
                          (run_prepared lower g generate run_calls limit
                            (some turns)
                            prompt
                            req
                            w).response;
                      fault =
                          (run_prepared lower g generate run_calls limit
                            (some turns)
                            prompt
                            req
                            w).fault;
                    }
                      ∷ [])))
  unfolding run_prepared
  run_prepared-turn turns = elim (Option-cases (check_input lower g prompt)) [
    | inl e ↦ inr (e, rw (e, run_prepared) (concluded-IsAdded lower g req _ _ turns _))
    | inr (x, e) ↦ inl (
      subst (λ o. o ≢ none) (sym e) some-none,
      rw (e, run_prepared) refl,
      rw (e, run_prepared) refl,
    )
  ]
