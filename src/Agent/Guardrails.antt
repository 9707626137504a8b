-- ===== src/Agent/Guardrails.antt =====
-- agent/guardrails.go: the tests of a prompt before a run and of the answer after it.
pub mod Allowed
use kkode.Prelude.{
  ℕ, Bool, true, false, ◌&&◌, not, List, [], ◌∷◌, if◌then◌else◌, Option, none, some,
}
use kkode.Strings.{Text, codes, is_empty, trim_space, contains}

-- `GuardrailPolicy`, whose check may be nil; a check answers an error's text or none.
pub record GuardrailPolicy : Type 0 where
  pub name : Text
  pub check : Option (Text → Option Text)

-- `Guardrails`
pub record Guardrails : Type 0 where
  pub blocked_substrings : List Text
  pub blocked_output_substrings : List Text
  pub input_policies : List GuardrailPolicy
  pub output_policies : List GuardrailPolicy
  pub redact_transcript : Bool

pub data Direction : Type 0 where
  input output : Direction

-- The errors of the two tests, with the values of their messages.
pub data GuardrailError : Type 0 where
  blocked : Direction → Text → GuardrailError
  blocked_by_policy : Direction → Text → Text → GuardrailError

abbrev pub policy_name : GuardrailPolicy → Text
policy_name p = if is_empty (trim_space p.name) then codes "policy" else trim_space p.name

-- `checkPolicies`
unfoldable pub check_policies : Direction → Text → List GuardrailPolicy → Option GuardrailError
unfolding is_empty trim_space
check_policies kind text [] = none
check_policies kind text (p ∷ ps) =
    let rest = check_policies kind text ps in
    elim p.check [
      | none ↦ rest
      | some check ↦ elim (check text) [
        | none ↦ rest
        | some e ↦ some (blocked_by_policy kind (policy_name p) e)
      ]
    ]

-- `lower` is `strings.ToLower`.
module _ (lower : Text → Text) where
  -- `checkBlocked`
  unfoldable pub check_blocked : Direction → Text → List Text → Option GuardrailError
  unfolding is_empty contains
  check_blocked kind text [] = none
  check_blocked kind text (b ∷ bs) =
      let rest = check_blocked kind text bs in
      if is_empty b
      then rest
      else if contains (lower text) (lower b)
      then some (blocked kind b)
      else rest

  -- One test, and then the other if it found nothing.
  abbrev pub or_policies :
      Option GuardrailError → Direction → Text → List GuardrailPolicy → Option GuardrailError
  or_policies none kind text ps = check_policies kind text ps
  or_policies (some e) kind text ps = some e

  -- `CheckInput`
  unfoldable pub check_input : Guardrails → Text → Option GuardrailError
  unfolding check_blocked check_policies
  check_input g t =
      or_policies (check_blocked input t g.blocked_substrings) input t g.input_policies

  -- `CheckOutput`
  unfoldable pub check_output : Guardrails → Text → Option GuardrailError
  unfolding check_blocked check_policies
  check_output g t =
      or_policies (check_blocked output t g.blocked_output_substrings) output t g.output_policies
