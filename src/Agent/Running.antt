-- ===== src/Agent/Running.antt =====
-- `RunPrepared`, `traceTools` and `New` of agent/agent.go: the guardrails around a tool loop, and the
-- trace of it. The observer is shown the events of the trace, and the one of a prompt that is
-- refused, which has no trace; times are left out.
pub mod Guarded
use kkode.Prelude.{
  ℕ, Bool, true, false, List, [], ◌∷◌, ◌++◌, map, if◌then◌else◌, Option, none, some, Result, ok,
  err,
}
use kkode.Prelude.Int.{ℤ, pos, negsuc}
use kkode.Strings.{Text, codes}
use kkode.Llm.Tools.{ToolCall, ToolResult, Ending, returned, failed, threw, Handler, ToolRegistry}
use kkode.Llm.Loop.{Request, Response, LoopError, run_tool_loop}
use kkode.Agent.Guardrails.{Guardrails, GuardrailError, check_input, check_output}

-- What a run or an event of it reports as an error.
pub data Fault : Type 0 where
  by_guardrail : GuardrailError → Fault
  by_loop : LoopError → Fault
  by_tool : Text → Fault
  nil_answer : Fault

-- `TraceEvent`
pub record TraceEvent : Type 0 where
  pub kind : Text
  pub message : Text
  pub tool : Text
  pub fault : Option Fault

abbrev pub Trace : Type 0
Trace = List TraceEvent

abbrev pub event : Text → Text → Option Fault → TraceEvent
event kind message fault = record { kind = kind; message = message; tool = []; fault = fault }

abbrev pub tool_event : Text → Text → Text → Option Fault → TraceEvent
tool_event kind name message fault = record {
  kind = kind;
  message = message;
  tool = name;
  fault = fault;
}

-- The event after a handler's call; a panic leaves none. `redact` is `RedactSecrets`.
unfoldable pub call_events : (Text → Text) → Text → Ending → Trace
call_events redact name (returned r) =
    tool_event (codes "tool.completed") name (redact r.output) none ∷ []
call_events redact name (failed r e) =
    tool_event (codes "tool.failed") name [] (some (by_tool e)) ∷ []
call_events redact name (threw t) = []

module _ {W : Type 0} where
  -- The middleware of `traceTools`
  unfoldable pub traced : (Text → Text) → Text → Handler W → Handler (Trace × W)
  unfolding call_events
  traced redact name h call (trace, w) =
      let (ending, w') = h call w in
      (
        ending,
        (
          (trace ++ tool_event (codes "tool.started") name [] none ∷ [])
              ++ call_events redact name ending,
          w',
        ),
      )

  -- A handler that is nil is wrapped too, so that its call panics.
  abbrev pub nil_call : Handler W
  nil_call call w =
      (threw (codes "runtime error: invalid memory address or nil pointer dereference"), w)

  abbrev pub or_nil_call : Option (Handler W) → Handler W
  or_nil_call none = nil_call
  or_nil_call (some h) = h

  -- `traceTools`, with `WithMiddleware`
  unfoldable pub trace_tools : (Text → Text) → ToolRegistry W → ToolRegistry (Trace × W)
  unfolding traced
  trace_tools redact [] = []
  trace_tools redact ((name, h) ∷ reg) =
      (name, some (traced redact name (or_nil_call h))) ∷ trace_tools redact reg

-- A turn of the transcript.
pub record Entry (Rest : Type 0) : Type 0 where
  pub request : Request Rest
  pub response : Option Response
  pub fault : Option Fault

-- What `RunPrepared` returns, the events that the observer is shown, and the state after it. The
-- result is nil if the prompt is refused.
pub record Outcome (Rest W : Type 0) : Type 0 where
  pub response : Option Response
  pub trace : Option Trace
  pub fault : Option Fault
  pub observed : Trace
  pub transcript : Option (List (Entry Rest))
  pub world : W

abbrev pub as_pointer : Result LoopError Response → Result LoopError (Option Response)
as_pointer (ok r) = ok (some r)
as_pointer (err e) = err e

-- `Transcript.Add`, if there is a transcript.
unfoldable pub add_entry :
    {Rest : Type 0} → Option (List (Entry Rest)) → Entry Rest → Option (List (Entry Rest))
add_entry none x = none
add_entry (some turns) x = some (turns ++ x ∷ [])

module _ {Rest W : Type 0} where
  -- The provider does not see the trace.
  abbrev pub untraced :
      (Request Rest → W → Result Text (Option Response) × W)
      → Request Rest
      → Trace × W
      → Result Text (Option Response) × (Trace × W)
  untraced generate req (trace, w) = let (r, w') = generate req w in (r, (trace, w'))

  -- The last lines of `RunPrepared`, after the last event.
  unfoldable pub returned_with :
      Option (List (Entry Rest))
      → Request Rest
      → Option Response
      → Option Fault
      → Trace
      → W
      → Outcome Rest W
  unfolding add_entry
  returned_with turns req response fault trace w = record {
    response = response;
    trace = some trace;
    fault = fault;
    observed = trace;
    transcript = add_entry turns (record { request = req; response = response; fault = fault });
    world = w;
  }

  -- The branch of an answer that the guardrails refuse, which returns by itself.
  unfoldable pub output_blocked :
      Option (List (Entry Rest))
      → Request Rest
      → Response
      → GuardrailError
      → Trace
      → W
      → Outcome Rest W
  unfolding add_entry
  output_blocked turns req resp e trace w =
      let shown =
        trace ++ event (codes "guardrail.output_blocked") [] (some (by_guardrail e)) ∷ [] in
      record {
        response = some resp;
        trace = some shown;
        fault = some (by_guardrail e);
        observed = shown;
        transcript =
            add_entry turns
              (record { request = req; response = some resp; fault = some (by_guardrail e) });
        world = w;
      }

  -- `RunPrepared` after its first test, once the loop has ended.
  unfoldable pub concluded :
      (Text → Text)
      → Guardrails
      → Option (List (Entry Rest))
      → Request Rest
      → Result LoopError (Option Response)
      → Trace
      → W
      → Outcome Rest W
  unfolding check_output returned_with output_blocked
  concluded lower g turns req (err e) trace w =
      returned_with turns req none (some (by_loop e))
        (trace ++ event (codes "agent.failed") [] (some (by_loop e)) ∷ []) w
  concluded lower g turns req (ok none) trace w =
      returned_with turns req none (some nil_answer)
        (trace ++ event (codes "agent.failed") [] (some nil_answer) ∷ []) w
  concluded lower g turns req (ok (some r)) trace w = elim (check_output lower g r.text) [
    | some e ↦ output_blocked turns req r e trace w
    | none ↦
        returned_with turns req (some r) none
          (trace ++ event (codes "agent.completed") r.text none ∷ []) w
  ]

  -- `RunPrepared`. `run_calls` stands for `executeToolCalls` with the traced handlers.
  unfoldable pub run_prepared :
      (Text → Text)
      → Guardrails
      → (Request Rest → W → Result Text (Option Response) × W)
      → (List ToolCall → Trace × W → List ToolResult × (Trace × W))
      → ℤ
      → Option (List (Entry Rest))
      → Text
      → Request Rest
      → W
      → Outcome Rest W
  unfolding check_input run_tool_loop concluded
  run_prepared lower g generate run_calls limit turns prompt req w =
      elim (check_input lower g prompt) [
        | some e ↦ record {
          response = none;
          trace = none;
          fault = some (by_guardrail e);
          observed = event (codes "guardrail.blocked") [] (some (by_guardrail e)) ∷ [];
          transcript = turns;
          world = w;
        }
        | none ↦
            let (result, (trace, w')) =
              run_tool_loop (some (untraced generate)) run_calls limit req
                (event (codes "agent.started") prompt none ∷ [], w) in
            concluded lower g turns req (as_pointer result) trace w'
      ]
