-- ===== src/Examples/Tools.antt =====
-- The theorems on tool calls, the loop, the router and the pipeline at concrete inputs.
use kkode.Prelude.{
  ℕ, zero, suc, [], ◌∷◌, ◌≡◌, ◌↔◌, inl, inr, refl, length, false, Option, none, some, Result, ok,
}
use kkode.Strings.{Text, codes, is_empty}
use kkode.Llm.Tools.{
  ToolCall, returned, Handler, ToolRegistry, empty_result, execute_calls, handler_of,
}
use kkode.Llm.Tools.Execution.{AreHonest, AreAnswers, execute_calls-AreAnswers}
use kkode.Llm.Loop.{Request, Response, next_request, rounds}
use kkode.Llm.Loop.Rounds.{Rounds, start, round, EndsWith, rounds_iff}
use kkode.Llm.Loop.Transcript.{exchanges, GrownBy, Rounds-GrownBy}
use kkode.Llm.Router.{Router, provider_for}
use kkode.Llm.Router.Longest.{IsKeyed, IsReordering, provider_for-IsReordering}
use kkode.Llm.Pipeline.{Pipeline}

abbrev ask : ToolCall
ask = record { id = []; call_id = codes "1"; name = codes "t"; arguments = []; custom = false }

-- A tool that counts its calls in the world.
abbrev counting : Handler ℕ
counting c w = (returned empty_result, suc w)

abbrev registry : ToolRegistry ℕ
registry = (codes "t", some counting) ∷ (codes "u", none) ∷ []

registry-AreHonest : AreHonest registry
unfolding is_empty
registry-AreHonest = (λ c w. inl refl, tt)

execute_calls-AreAnswers_example :
    AreAnswers (ask ∷ ask ∷ []) (execute_calls registry (ask ∷ ask ∷ []) 0).0
execute_calls-AreAnswers_example =
    execute_calls-AreAnswers registry (ask ∷ ask ∷ []) 0 registry-AreHonest

new_keys : (handler_of {W = ℕ} [] (codes "u") ≡ none) × Unit {0}
unfolding handler_of
new_keys = (refl, tt)

abbrev asking : Response
asking = record { response_id = codes "a"; text = []; output = []; tool_calls = ask ∷ [] }

abbrev done : Response
done = record { response_id = codes "b"; text = codes "ok"; output = []; tool_calls = [] }

-- A provider that asks for the tool once.
abbrev provider : Request (Unit {0}) → ℕ → Result Text (Option Response) × ℕ
provider req zero = (ok (some asking), zero)
provider req (suc n) = (ok (some done), suc n)

abbrev first : Request (Unit {0})
first = record {
  model = codes "m";
  messages = [];
  input_items = [];
  previous_response_id = [];
  rest = tt;
}

rounds_iff_example :
    (rounds provider (execute_calls registry) 8 8 first 0 ≡ (ok done, 1))
    ↔ EndsWith provider (execute_calls registry) 8 8 first 0 done 1
rounds_iff_example = rounds_iff provider (execute_calls registry) 8 8 first 0 1 done

abbrev second : Request (Unit {0})
second = next_request first asking (execute_calls registry (ask ∷ []) 0).0

one_round :
    Rounds provider
      (execute_calls registry)
      8
      1
      first
      0
      second
      (execute_calls registry (ask ∷ []) 0).1
one_round = round asking ask [] 0 refl refl start

Rounds-GrownBy_example :
    (length (exchanges provider (execute_calls registry) 8 one_round) ≡ 1)
    × GrownBy provider
        (execute_calls registry)
        8
        (exchanges provider (execute_calls registry) 8 one_round)
        first
        second
Rounds-GrownBy_example =
    Rounds-GrownBy provider (execute_calls registry) 8
      (λ cs w. execute_calls-AreAnswers registry cs w registry-AreHonest) one_round

abbrev router : Router ℕ
router = record {
  providers = (codes "p", 1) ∷ (codes "q", 2) ∷ [];
  aliases = (codes "a", codes "p") ∷ (codes "ab", codes "q") ∷ [];
}

aliases-IsKeyed : IsKeyed ((codes "a", codes "p") ∷ (codes "ab", codes "q") ∷ [])
aliases-IsKeyed k u v (inl p) (inl q) = cc
aliases-IsKeyed k u v (inl p) (inr (inl q)) = cc
aliases-IsKeyed k u v (inr (inl p)) (inl q) = cc
aliases-IsKeyed k u v (inr (inl p)) (inr (inl q)) = cc
aliases-IsKeyed k u v (inr (inr p)) h = absurd p
aliases-IsKeyed k u v (inl p) (inr (inr q)) = absurd q
aliases-IsKeyed k u v (inr (inl p)) (inr (inr q)) = absurd q

turned :
    IsReordering
      ((codes "a", codes "p") ∷ (codes "ab", codes "q") ∷ [])
      ((codes "ab", codes "q") ∷ (codes "a", codes "p") ∷ [])
turned a = (
  λ h. elim h [ inl p ↦ inr (inl p) | inr k ↦ elim k [ inl q ↦ inl q | inr x ↦ absurd x ] ],
  λ h. elim h [ inl p ↦ inr (inl p) | inr k ↦ elim k [ inl q ↦ inl q | inr x ↦ absurd x ] ],
)

provider_for-IsReordering_example :
    provider_for router (codes "abc")
    ≡ provider_for
        (record router { aliases = (codes "ab", codes "q") ∷ (codes "a", codes "p") ∷ [] })
        (codes "abc")
provider_for-IsReordering_example =
    provider_for-IsReordering router ((codes "ab", codes "q") ∷ (codes "a", codes "p") ∷ [])
      (codes "abc") aliases-IsKeyed turned

abbrev pipeline : Pipeline (Unit {0}) Text Text (Unit {0}) ℕ
pipeline = record {
  provider_name = [];
  request_converter = some (λ req opts.
      ok (record { operation = opts.operation; model = []; body = []; stream = false }));
  response_converter = some (λ r. ok done);
  caller = some (λ req w. (ok (record { provider = []; model = []; body = [] }), suc w));
  streamer = none;
  options = record { operation = []; stream = false };
  stream_options = record { operation = []; stream = false };
}
