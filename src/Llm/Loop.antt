-- ===== src/Llm/Loop.antt =====
-- `RunToolLoop` of llm/tools.go: call the provider, run the tools that it asks for, and go on with
-- their results until it asks for none.
pub mod Rounds
pub mod Transcript
use kkode.Prelude.{
  ℕ, zero, suc, Bool, true, false, ◌==◌, List, [], ◌∷◌, ◌++◌, map, if◌then◌else◌, Option, none,
  some, Result, ok, err,
}
use kkode.Prelude.Int.{ℤ, pos, negsuc}
use kkode.Strings.{Text}
use kkode.Llm.Tools.{ToolCall, ToolResult}

-- `ItemType`
pub data ItemType : Type 0 where
  message function_call custom_tool_call function_output custom_tool_output reasoning unknown :
      ItemType

pub record ReasoningItem : Type 0 where
  pub id : Text
  pub summary : List Text
  pub text : List Text
  pub encrypted_content : Text
  pub raw : Text

pub record Item : Type 0 where
  pub item_type : ItemType
  pub role : Text
  pub content : Text
  pub tool_call : Option ToolCall
  pub tool_result : Option ToolResult
  pub reasoning_item : Option ReasoningItem
  pub provider_raw : Text

-- `Message` less its parts, and the fields of `Request` that the loop copies, are a type of their
-- own, `Rest`: nothing here looks at them.
pub record Request (Rest : Type 0) : Type 0 where
  pub model : Text
  pub messages : List Text
  pub input_items : List Item
  pub previous_response_id : Text
  pub rest : Rest

pub record Response : Type 0 where
  pub response_id : Text
  pub text : Text
  pub output : List Item
  pub tool_calls : List ToolCall

-- `itemTypeForResult`
unfoldable pub item_type_for : ToolResult → ItemType
item_type_for r = if r.custom then custom_tool_output else function_output

unfoldable pub result_item : ToolResult → Item
unfolding item_type_for
result_item r = record {
  item_type = item_type_for r;
  role = [];
  content = [];
  tool_call = none;
  tool_result = some r;
  reasoning_item = none;
  provider_raw = [];
}

pub data LoopError : Type 0 where
  provider_required nil_response : LoopError
  provider_failed : Text → LoopError
  exceeded : ℕ → LoopError

-- `if max <= 0 { max = 8 }`
unfoldable pub iterations : ℤ → ℕ
iterations (pos zero) = 8
iterations (pos (suc n)) = suc n
iterations (negsuc n) = 8

module _ {Rest : Type 0} where
  -- The request of the next round.
  unfoldable pub next_request : Request Rest → Response → List ToolResult → Request Rest
  unfolding result_item
  next_request req resp results = record req {
    messages = [];
    input_items = (req.input_items ++ resp.output) ++ map result_item results;
    previous_response_id = resp.response_id;
  }

-- A provider may fail, or return nil. `run_calls` stands for `executeToolCalls`, run in sequence or
-- in parallel, and `max` for the limit that the error names.
module _ {Rest W : Type 0} (generate : Request Rest → W → Result Text (Option Response) × W)
    (run_calls : List ToolCall → W → List ToolResult × W) (max : ℕ) where
  -- The rest of a round, once the provider has answered.
  unfoldable pub respond :
      (Request Rest → W → Result LoopError Response × W)
      → Request Rest
      → Result Text (Option Response) × W
      → Result LoopError Response × W
  unfolding next_request
  respond again req (err e, w) = (err (provider_failed e), w)
  respond again req (ok none, w) = (err nil_response, w)
  respond again req (ok (some resp), w) = elim resp.tool_calls [
    | [] ↦ (ok resp, w)
    | c ∷ cs ↦ let (results, w') = run_calls (c ∷ cs) w in again (next_request req resp results) w'
  ]

  -- The loop with this many rounds left.
  unfoldable pub rounds : ℕ → Request Rest → W → Result LoopError Response × W
  unfolding respond
  rounds zero req w = (err (exceeded max), w)
  rounds (suc n) req w = respond (rounds n) req (generate req w)

module _ {Rest W : Type 0} where
  -- `RunToolLoop`
  unfoldable pub run_tool_loop :
      Option (Request Rest → W → Result Text (Option Response) × W)
      → (List ToolCall → W → List ToolResult × W)
      → ℤ
      → Request Rest
      → W
      → Result LoopError Response × W
  unfolding rounds iterations
  run_tool_loop none run_calls limit req w = (err provider_required, w)
  run_tool_loop (some generate) run_calls limit req w =
      rounds generate run_calls (iterations limit) (iterations limit) req w
