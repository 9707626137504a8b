-- ===== src/Llm/Tools.antt =====
-- llm/tools.go and the types of llm/types.go that it works on: the registry of tool handlers.
-- A handler is code that the registry is given: what it does to the world `W` is its own.
pub mod Execution
use kkode.Prelude.{
  ℕ, zero, suc, Bool, true, false, ◌&&◌, List, [], ◌∷◌, ◌++◌, if◌then◌else◌, Option, none, some,
}
use kkode.Strings.{Text, is_empty, text_eq}

pub record ToolCall : Type 0 where
  pub id : Text
  pub call_id : Text
  pub name : Text
  pub arguments : Text
  pub custom : Bool

-- The text of an error: what a handler said, or one of the messages of tools.go with its values.
pub data ErrorText : Type 0 where
  said : Text → ErrorText
  not_registered nil_handler cancelled : Text → ErrorText
  panicked : Text → Text → ErrorText

-- `err.Error() == ""`
unfoldable pub is_blank : ErrorText → Bool
unfolding is_empty
is_blank (said t) = is_empty t
is_blank (not_registered n) = false
is_blank (nil_handler n) = false
is_blank (cancelled c) = false
is_blank (panicked n t) = false

pub record ToolResult : Type 0 where
  pub call_id : Text
  pub name : Text
  pub output : Text
  pub error : ErrorText
  pub custom : Bool
  pub raw_json : Text

-- How a handler's call ends: it returns a result with or without an error, or it panics.
pub data Ending : Type 0 where
  returned : ToolResult → Ending
  failed : ToolResult → Text → Ending
  threw : Text → Ending

-- The result of `Execute`, with its error if there is one.
pub record Executed : Type 0 where
  pub result : ToolResult
  pub failure : Option ErrorText

abbrev pub blank_error : ErrorText
blank_error = said []

abbrev pub empty_result : ToolResult
empty_result = record {
  call_id = [];
  name = [];
  output = [];
  error = blank_error;
  custom = false;
  raw_json = [];
}

-- `ToolResult{CallID: call.CallID, Name: call.Name, Error: e, Custom: call.Custom}`
abbrev pub error_result : ToolCall → ErrorText → ToolResult
error_result c e = record {
  call_id = c.call_id;
  name = c.name;
  output = [];
  error = e;
  custom = c.custom;
  raw_json = [];
}

abbrev pub or_else : Text → Text → Text
or_else t u = if is_empty t then u else t

-- The last lines of `Execute`.
unfoldable pub filled : ToolCall → ToolResult → ToolResult
unfolding is_empty
filled c r = record r {
  call_id = or_else r.call_id c.call_id;
  name = or_else r.name c.name;
  custom = c.custom;
}

unfoldable pub executed : ToolCall → Ending → Executed
unfolding filled
executed c (returned r) = record { result = filled c r; failure = none }
executed c (failed r e) = record { result = error_result c (said e); failure = some (said e) }
executed c (threw m) = record {
  result = error_result c (panicked c.name m);
  failure = some (panicked c.name m);
}

-- What `executeToolCall` makes of it.
unfoldable pub answer : ToolCall → Executed → ToolResult
unfolding is_blank
answer c e = elim e.failure [
  | none ↦ e.result
  | some x ↦ if is_blank e.result.error then error_result c x else e.result
]

module _ (W : Type 0) where
  abbrev pub Handler : Type 0
  Handler = ToolCall → W → Ending × W

  -- A map from names to handlers, some of which may be nil.
  abbrev pub ToolRegistry : Type 0
  ToolRegistry = List (Text × Option Handler)

module _ {W : Type 0} where
  unfoldable pub handler_of : ToolRegistry W → Text → Option (Option (Handler W))
  unfolding text_eq
  handler_of [] n = none
  handler_of ((m, h) ∷ reg) n = if text_eq m n then some h else handler_of reg n

  -- `ToolRegistry.Execute`
  unfoldable pub execute : ToolRegistry W → ToolCall → W → Executed × W
  unfolding handler_of executed
  execute reg c w = elim (handler_of reg c.name) [
    | none ↦ (record { result = empty_result; failure = some (not_registered c.name) }, w)
    | some none ↦ (record { result = empty_result; failure = some (nil_handler c.name) }, w)
    | some (some h) ↦ let (ending, w') = h c w in (executed c ending, w')
  ]

  -- `executeToolCall`
  unfoldable pub execute_call : ToolRegistry W → ToolCall → W → ToolResult × W
  unfolding execute answer
  execute_call reg c w = let (e, w') = execute reg c w in (answer c e, w')

  -- The sequential branch of `executeToolCalls`.
  unfoldable pub execute_calls : ToolRegistry W → List ToolCall → W → List ToolResult × W
  unfolding execute_call
  execute_calls reg [] w = ([], w)
  execute_calls reg (c ∷ cs) w =
      let (r, w') = execute_call reg c w in let (rs, w'') = execute_calls reg cs w' in (r ∷ rs, w'')
