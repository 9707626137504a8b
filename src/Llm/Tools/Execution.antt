-- ===== src/Llm/Tools/Execution.antt =====
-- Every call of a tool gets one answer, whatever its handler does.
use kkode.Prelude.{true, List, [], ◌∷◌, ◌≡◌, refl, arith, none, some, Bool-cases, inl, inr, ◌⊎◌}
use kkode.Strings.{Text, is_empty, text_eq}
use kkode.Llm.Tools.{
  ToolCall, ToolResult, Ending, returned, failed, threw, executed, answer, Handler, ToolRegistry,
  handler_of, execute, execute_call, execute_calls,
}

-- The result is for the call.
abbrev pub IsAnswer : ToolCall → ToolResult → Type 0
IsAnswer c r = (r.call_id ≡ c.call_id) × (r.custom ≡ c.custom)

-- One answer to each call, in the order of the calls.
abbrev pub AreAnswers : List ToolCall → List ToolResult → Type 0
AreAnswers [] [] = Unit {0}
AreAnswers [] (r ∷ rs) = ⊥
AreAnswers (c ∷ cs) [] = ⊥
AreAnswers (c ∷ cs) (r ∷ rs) = IsAnswer c r × AreAnswers cs rs

-- A handler that returns names no other call than its own.
abbrev pub KeepsId : ToolCall → Ending → Type 0
KeepsId c (returned r) = (is_empty r.call_id ≡ true) ⊎ (r.call_id ≡ c.call_id)
KeepsId c (failed r e) = Unit {0}
KeepsId c (threw m) = Unit {0}

answer-IsAnswer : (c : ToolCall) (e : Ending) → KeepsId c e → IsAnswer c (answer c (executed c e))
unfolding answer executed
answer-IsAnswer c (returned r) k = ground arith
answer-IsAnswer c (failed r e) k = ground arith
answer-IsAnswer c (threw m) k = ground arith

module _ {W : Type 0} where
  abbrev pub IsHonest : Handler W → Type 0
  IsHonest h = (c : ToolCall) (w : W) → KeepsId c (h c w).0

  abbrev pub AreHonest : ToolRegistry W → Type 0
  AreHonest [] = Unit {0}
  AreHonest ((n, none) ∷ reg) = AreHonest reg
  AreHonest ((n, some h) ∷ reg) = IsHonest h × AreHonest reg

  handler_cases :
      (reg : ToolRegistry W) (n : Text)
      → AreHonest reg
      → (handler_of reg n ≡ none)
        ⊎ ((handler_of reg n ≡ some none)
            ⊎ ((h : Handler W) × (handler_of reg n ≡ some (some h)) × IsHonest h))
  unfolding handler_of
  handler_cases [] n k = inl refl
  handler_cases ((m, none) ∷ reg) n k = elim (Bool-cases (text_eq m n)) [
    | inl q ↦ rw q (inr (inl refl))
    | inr q ↦ rw q (handler_cases reg n k)
  ]
  handler_cases ((m, some h) ∷ reg) n k = elim (Bool-cases (text_eq m n)) [
    | inl q ↦ rw q (inr (inr (h, refl, k.0)))
    | inr q ↦ rw q (handler_cases reg n k.1)
  ]

  pub execute_call-IsAnswer :
      (reg : ToolRegistry W) (c : ToolCall) (w : W)
      → AreHonest reg
      → IsAnswer c (execute_call reg c w).0
  unfolding execute_call
  execute_call-IsAnswer reg c w k = elim (handler_cases reg c.name k) [
    | inl e ↦ rw (e, execute) (refl, refl)
    | inr (inl e) ↦ rw (e, execute) (refl, refl)
    | inr (inr (h, e, honest)) ↦ rw (e, execute) (answer-IsAnswer c (h c w).0 (honest c w))
  ]

  -- `executeToolCalls`, run in sequence, answers each call once and in order, be its tool missing,
  -- nil, failing or panicking. A handler that returns names no other call than its own.
  pub execute_calls-AreAnswers :
      (reg : ToolRegistry W) (cs : List ToolCall) (w : W)
      → AreHonest reg
      → AreAnswers cs (execute_calls reg cs w).0
  unfolding execute_calls
  execute_calls-AreAnswers reg [] w k = tt
  execute_calls-AreAnswers reg (c ∷ cs) w k =
      (execute_call-IsAnswer reg c w k, execute_calls-AreAnswers reg cs (execute_call reg c w).1 k)
