-- ===== src/Agent/Guardrails/Allowed.antt =====
-- Which texts pass the guardrails of agent/guardrails.go.
use kkode.Prelude.{
  true, false, List, [], ◌∷◌, Option, none, some, All, ◌≡◌, ◌↔◌, inl, inr, refl, Bool-cases,
  Option-cases,
}
use kkode.Strings.{Text, is_empty, contains}
use kkode.Agent.Guardrails.{
  GuardrailPolicy, Guardrails, Direction, input, output, GuardrailError, check_policies,
  check_blocked, or_policies, check_input, check_output,
}

-- A policy that has no check, or whose check finds nothing.
abbrev pub Accepts : Text → GuardrailPolicy → Type 0
Accepts t p = elim p.check [ none ↦ Unit | some check ↦ check t ≡ none ]

check_policies_iff :
    (kind : Direction) (t : Text) (ps : List GuardrailPolicy)
    → (check_policies kind t ps ≡ none) ↔ All (Accepts t) ps
unfolding check_policies
check_policies_iff kind t [] = (λ h. tt, λ h. refl)
check_policies_iff kind t (p ∷ ps) = elim (Option-cases p.check) [
  | inl e ↦
      rw e
        (λ h. (tt, (check_policies_iff kind t ps).0 h), λ h. (check_policies_iff kind t ps).1 h.1)
  | inr (check, e) ↦ rw e (elim (Option-cases (check t)) [
    | inl q ↦
        rw q (
          λ h. (refl, (check_policies_iff kind t ps).0 h),
          λ h. (check_policies_iff kind t ps).1 h.1,
        )
    | inr (x, q) ↦ rw q (λ h. absurd (clash h), λ h. absurd (clash h.0))
  ])
]
  where
    clash : {A : Type 0} {a : A} → some a ≡ none → ⊥
    clash e = cc

module _ (lower : Text → Text) where
  -- The text does not contain the blocked one, whatever the case of the letters.
  abbrev pub IsClear : Text → Text → Type 0
  IsClear t b = is_empty b ≡ false → contains (lower t) (lower b) ≡ false

  check_blocked_iff :
      (kind : Direction) (t : Text) (bs : List Text)
      → (check_blocked lower kind t bs ≡ none) ↔ All (IsClear t) bs
  unfolding check_blocked
  check_blocked_iff kind t [] = (λ h. tt, λ h. refl)
  check_blocked_iff kind t (b ∷ bs) = elim (Bool-cases (is_empty b)) [
    | inl e ↦ rw e (
      λ h. (λ q. absurd (true_false q), (check_blocked_iff kind t bs).0 h),
      λ h. (check_blocked_iff kind t bs).1 h.1,
    )
    | inr e ↦ rw e (elim (Bool-cases (contains (lower t) (lower b))) [
      | inl q ↦ rw q (λ h. absurd (clash h), λ h. absurd (true_false (h.0 refl)))
      | inr q ↦ rw q (
        λ h. (λ _. refl, (check_blocked_iff kind t bs).0 h),
        λ h. (check_blocked_iff kind t bs).1 h.1,
      )
    ])
  ]
    where
      clash : {A : Type 0} {a : A} → some a ≡ none → ⊥
      clash e = cc

      true_false : true ≡ false → ⊥
      true_false e = cc

  or_policies_iff :
      (found : Option GuardrailError) (kind : Direction) (t : Text) (ps : List GuardrailPolicy)
      → (or_policies lower found kind t ps ≡ none) ↔ ((found ≡ none) × All (Accepts t) ps)
  or_policies_iff none kind t ps =
      (λ h. (refl, (check_policies_iff kind t ps).0 h), λ h. (check_policies_iff kind t ps).1 h.1)
  or_policies_iff (some e) kind t ps = (λ h. absurd (clash h), λ h. absurd (clash h.0))
    where
      clash : {A : Type 0} {a : A} → some a ≡ none → ⊥
      clash e = cc

  -- A prompt passes if and only if it contains none of the blocked texts that are not empty, both in
  -- lower case, and every input policy that has a check accepts it.
  pub check_input_iff :
      (g : Guardrails) (t : Text)
      → (check_input lower g t ≡ none)
        ↔ (All (IsClear t) g.blocked_substrings × All (Accepts t) g.input_policies)
  unfolding check_input
  check_input_iff g t = (
    λ h. (
      (check_blocked_iff input t g.blocked_substrings).0
          ((or_policies_iff _ input t g.input_policies).0 h).0,
      ((or_policies_iff _ input t g.input_policies).0 h).1,
    ),
    λ h.
        (or_policies_iff _ input t g.input_policies).1
          ((check_blocked_iff input t g.blocked_substrings).1 h.0, h.1),
  )

  -- An answer passes under the same condition with the texts and the policies for outputs.
  pub check_output_iff :
      (g : Guardrails) (t : Text)
      → (check_output lower g t ≡ none)
        ↔ (All (IsClear t) g.blocked_output_substrings × All (Accepts t) g.output_policies)
  unfolding check_output
  check_output_iff g t = (
    λ h. (
      (check_blocked_iff output t g.blocked_output_substrings).0
          ((or_policies_iff _ output t g.output_policies).0 h).0,
      ((or_policies_iff _ output t g.output_policies).0 h).1,
    ),
    λ h.
        (or_policies_iff _ output t g.output_policies).1
          ((check_blocked_iff output t g.blocked_output_substrings).1 h.0, h.1),
  )
