-- ===== src/Llm/Loop/Transcript.antt =====
-- What the provider is sent in a later round of `RunToolLoop`.
use kkode.Prelude.{
  ℕ, suc, List, [], ◌∷◌, ◌++◌, ◌≡◌, refl, sym, ap, subst, ◌∙◌, map, length, Option, Result, All,
  append-nil, append_assoc,
}
use kkode.Strings.{Text}
use kkode.Llm.Tools.{ToolCall, ToolResult}
use kkode.Llm.Tools.Execution.{AreAnswers}
use kkode.Llm.Loop.{Item, Request, Response, result_item, next_request}
use kkode.Llm.Loop.Rounds.{Rounds, start, round}

-- A response that asked for tools, and their results.
abbrev pub Exchange : Type 0
Exchange = Response × List ToolResult

-- The items that the exchanges add to the input, in order: what the provider put out, the reasoning
-- included, and then a result for each call.
abbrev pub transcript : List Exchange → List Item
transcript [] = []
transcript ((resp, results) ∷ es) = (resp.output ++ map result_item results) ++ transcript es

abbrev pub IsAnswered : Exchange → Type 0
IsAnswered (resp, results) = AreAnswers resp.tool_calls results

regroup : (a b c d : List Item) → ((a ++ b) ++ c) ++ d ≡ a ++ ((b ++ c) ++ d)
regroup a b c d =
    append_assoc (a ++ b) c d ∙ append_assoc a b (c ++ d) ∙ ap (◌++◌ a) (sym (append_assoc b c d))

module _ {Rest W : Type 0} (generate : Request Rest → W → Result Text (Option Response) × W)
    (run_calls : List ToolCall → W → List ToolResult × W) (max : ℕ) where
  -- A request that grew out of another by these exchanges.
  pub record GrownBy (es : List Exchange) (req last : Request Rest) : Type 0 where
    pub all_answered : All IsAnswered es
    pub items : last.input_items ≡ req.input_items ++ transcript es
    pub same_model : last.model ≡ req.model
    pub same_rest : last.rest ≡ req.rest

  -- The exchanges of the rounds: what the provider answered in each, and the results of its calls.
  abbrev pub exchanges :
      {k : ℕ} {req last : Request Rest} {w u : W}
      → Rounds generate run_calls max k req w last u
      → List Exchange
  exchanges start = []
  exchanges (round resp c cs u g e r) = (resp, (run_calls (c ∷ cs) u).0) ∷ exchanges r

  -- After `k` rounds the provider is sent the first input followed by the `k` exchanges of the
  -- rounds: all that it put out in each, and then one result for each call that it made, in order; the model and the other
  -- settings are the first request's. Whatever runs the calls answers each of them.
  pub Rounds-GrownBy :
      {k : ℕ} {req last : Request Rest} {w u : W}
      → ((cs : List ToolCall) (w : W) → AreAnswers cs (run_calls cs w).0)
      → (rounds_made : Rounds generate run_calls max k req w last u)
      → (length (exchanges rounds_made) ≡ k) × GrownBy (exchanges rounds_made) req last
  unfolding next_request
  Rounds-GrownBy {req} h start = (
    refl,
    record {
      all_answered = tt;
      items = sym (append-nil req.input_items);
      same_model = refl;
      same_rest = refl;
    },
  )
  Rounds-GrownBy {req} h (round resp c cs u g e r) =
      let (n, k) = Rounds-GrownBy h r in
      let results = (run_calls (c ∷ cs) u).0 in
      (
        ap suc n,
        record {
          all_answered =
              (subst (λ ts. AreAnswers ts results) (sym e) (h (c ∷ cs) u), k.all_answered);
          items =
              k.items
              ∙ regroup req.input_items resp.output (map result_item results)
                  (transcript (exchanges r));
          same_model = k.same_model;
          same_rest = k.same_rest;
        },
      )
