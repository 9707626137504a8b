-- ===== src/Llm/Loop/Rounds.antt =====
-- `RunToolLoop` against its rounds, one after the other.
use kkode.Prelude.{
  ℕ, zero, suc, ◌<◌, List, [], ◌∷◌, ◌≡◌, refl, sym, ap, ap₂, subst, ◌∙◌, arith, Option, none, some,
  Result, ok, err, ◌↔◌, ◌⊎◌, inl, inr,
}
use kkode.Strings.{Text}
use kkode.Llm.Tools.{ToolCall, ToolResult}
use kkode.Llm.Loop.{Request, Response, LoopError, exceeded, next_request, respond, rounds}

module _ {Rest W : Type 0} (generate : Request Rest → W → Result Text (Option Response) × W)
    (run_calls : List ToolCall → W → List ToolResult × W) (max : ℕ) where
  -- Rounds that went on: the provider asked for tools in each.
  pub data Rounds : ℕ → Request Rest → W → Request Rest → W → Type 0 where
    start : {req : Request Rest} {w : W} → Rounds zero req w req w
    round :
        {n : ℕ} {req req' : Request Rest} {w w' : W} (resp : Response) (c : ToolCall)
        (cs : List ToolCall) (u : W)
        → generate req w ≡ (ok (some resp), u)
        → resp.tool_calls ≡ c ∷ cs
        → Rounds n (next_request req resp (run_calls (c ∷ cs) u).0) (run_calls (c ∷ cs) u).1 req' w'
        → Rounds (suc n) req w req' w'

  -- The loop ended within `n` rounds with the provider's response, which asks for no tool.
  pub record EndsWith (n : ℕ) (req : Request Rest) (w : W) (resp : Response) (w' : W) : Type 0 where
    pub count : ℕ
    pub last_request : Request Rest
    pub before : W
    pub in_time : count < n
    pub went_on : Rounds count req w last_request before
    pub answered : generate last_request before ≡ (ok (some resp), w')
    pub no_tools : resp.tool_calls ≡ []

  ended :
      (old resp : Response) (w w' : W)
      → ◌≡◌ {A = Result LoopError Response × W} (ok old, w) (ok resp, w')
      → old.tool_calls ≡ []
      → (◌≡◌ {A = Result Text (Option Response) × W} (ok (some old), w) (ok (some resp), w'))
        × (resp.tool_calls ≡ [])
  ended old resp w w' h e =
      let same : old ≡ resp = ok_path (ap (λ p. p.0) h) in
      (ap₂ (λ r v. (ok (some r), v)) same (ap (λ p. p.1) h), subst (λ r. r.tool_calls ≡ []) same e)
    where
      ok_path : ◌≡◌ {A = Result LoopError Response} (ok old) (ok resp) → old ≡ resp
      ok_path p = cc

  module _ (again : Request Rest → W → Result LoopError Response × W) (req : Request Rest) where
    respond-stop :
        (resp : Response) (w : W)
        → resp.tool_calls ≡ []
        → respond generate run_calls max again req (ok (some resp), w) ≡ (ok resp, w)
    unfolding respond
    respond-stop resp w e = simp e

    respond-go :
        (resp : Response) (w : W) (c : ToolCall) (cs : List ToolCall)
        → resp.tool_calls ≡ c ∷ cs
        → respond generate run_calls max again req (ok (some resp), w)
          ≡ again (next_request req resp (run_calls (c ∷ cs) w).0) (run_calls (c ∷ cs) w).1
    unfolding respond
    respond-go resp w c cs e = simp e

    -- How a round can end with a response, or go on.
    respond_inv :
        (r : Result Text (Option Response) × W) (resp : Response) (w' : W)
        → respond generate run_calls max again req r ≡ (ok resp, w')
        → ((r ≡ (ok (some resp), w')) × (resp.tool_calls ≡ []))
          ⊎ ((old : Response) × (c : ToolCall) × (cs : List ToolCall) × (u : W) × (r
                ≡ (ok (some old), u))
              × (old.tool_calls ≡ c ∷ cs)
              × (again (next_request req old (run_calls (c ∷ cs) u).0) (run_calls (c ∷ cs) u).1
                  ≡ (ok resp, w')))
    unfolding respond
    respond_inv (err e, w) resp w' h = cc
    respond_inv (ok none, w) resp w' h = cc
    respond_inv (ok (some old), w) resp w' h = by_calls old.tool_calls refl
      where
        by_calls :
            (ts : List ToolCall)
            → old.tool_calls ≡ ts
            → ((◌≡◌ {A = Result Text (Option Response) × W} (ok (some old), w) (ok (some resp), w'))
                × (resp.tool_calls ≡ []))
              ⊎ ((old' : Response) × (c : ToolCall) × (cs : List ToolCall) × (u : W) × (◌≡◌
                    {A = Result Text (Option Response) × W}
                    (ok (some old), w)
                    (ok (some old'), u))
                  × (old'.tool_calls ≡ c ∷ cs)
                  × (again (next_request req old' (run_calls (c ∷ cs) u).0) (run_calls (c ∷ cs) u).1
                      ≡ (ok resp, w')))
        by_calls [] e = inl (ended old resp w w' (sym (respond-stop old w e) ∙ h) e)
        by_calls (c ∷ cs) e = inr (old, c, cs, w, refl, e, sym (respond-go old w c cs e) ∙ h)

  -- The loop's response, read back to the rounds before it.
  pub rounds-EndsWith :
      (n : ℕ) (req : Request Rest) (w w' : W) (resp : Response)
      → rounds generate run_calls max n req w ≡ (ok resp, w')
      → EndsWith n req w resp w'
  unfolding rounds
  rounds-EndsWith zero req w w' resp h = absurd (no_response (ap (λ p. p.0) h))
    where
      no_response : ◌≡◌ {A = Result LoopError Response} (err (exceeded max)) (ok resp) → ⊥
      no_response e = cc
  rounds-EndsWith (suc n) req w w' resp h =
      elim (respond_inv (rounds generate run_calls max n) req (generate req w) resp w' h) [
        | inl (g, e) ↦ record {
          count = 0;
          last_request = req;
          before = w;
          in_time = omega arith;
          went_on = start;
          answered = g;
          no_tools = e;
        }
        | inr (old, c, cs, u, g, e, again) ↦
            let k = rounds-EndsWith n _ _ w' resp again in
            record {
              count = suc k.count;
              last_request = k.last_request;
              before = k.before;
              in_time = omega (arith, k.in_time);
              went_on = round old c cs u g e k.went_on;
              answered = k.answered;
              no_tools = k.no_tools;
            }
      ]

  rounds_of :
      (n m : ℕ) (req last : Request Rest) (w u w' : W) (resp : Response)
      → m < n
      → Rounds m req w last u
      → generate last u ≡ (ok (some resp), w')
      → resp.tool_calls ≡ []
      → rounds generate run_calls max n req w ≡ (ok resp, w')
  unfolding rounds
  rounds_of zero m req last w u w' resp h r g e = absurd (omega arith)
  rounds_of (suc n) _ req last w u w' resp h start g e =
      ap (respond generate run_calls max (rounds generate run_calls max n) req) g
      ∙ respond-stop (rounds generate run_calls max n) req resp w' e
  rounds_of (suc n) _ req last w u w' resp h (round {n = m} old c cs v g' e' r) g e =
      ap (respond generate run_calls max (rounds generate run_calls max n) req) g'
      ∙ respond-go (rounds generate run_calls max n) req old v c cs e'
      ∙ rounds_of n m _ last _ u w' resp (omega arith) r g e

  -- With `n` rounds left the loop returns a response exactly where, fewer than `n` rounds on, in
  -- each of which the provider asked for tools and they were run, it gives that response and asks
  -- for none.
  pub rounds_iff :
      (n : ℕ) (req : Request Rest) (w w' : W) (resp : Response)
      → (rounds generate run_calls max n req w ≡ (ok resp, w')) ↔ EndsWith n req w resp w'
  rounds_iff n req w w' resp = (
    rounds-EndsWith n req w w' resp,
    λ k.
        rounds_of n k.count req k.last_request w k.before w' resp k.in_time k.went_on k.answered
          k.no_tools,
  )
