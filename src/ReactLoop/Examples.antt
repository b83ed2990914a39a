-- ===== src/ReactLoop/Examples.antt =====
-- A message with one call, its result, and the answer behind it.
use auto_reign.Prelude.{◌≤◌, ◌≡◌, ◌⊎◌, refl, false, some, List, [], ◌∷◌, map, codes, ok}
use auto_reign.Json.{Value, str, object, end, field}
use auto_reign.RuntimeTypes.{ToolCall, ToolResult}
use auto_reign.ReactLoop.Chunks.{Chunk, runtime_error}
use auto_reign.ReactLoop.Stream.{
  GraphItem, chunk, tool_message, Turn, initial, stream, handled, before_first, begins_with,
}
use auto_reign.ReactLoop.Protocol.{InOrder, stream-InOrder}
use auto_reign.ReactLoop.Budget.{
  TokenCounter, total, remaining_tokens, share, fit_result, fit_output, ToolOutput, message,
  execute_with_budget,
}
use auto_reign.ReactLoop.Shares.{Run, calls_of, run_all, EndsTurn, output_tokens, run_all-remaining}

abbrev call_value : Value
call_value = object (
    field (some (codes "id")) (str (codes "c1")) (
      field (some (codes "name")) (str (codes "search"))
        (field (some (codes "args")) (object end) end)))

abbrev asking : Chunk
asking = record {
  id = some (codes "m1");
  content = str [];
  content_blocks = [];
  tool_calls = call_value ∷ [];
  has_invalid_tool_calls = false;
  additional_kwargs = end;
  response_metadata = end;
}

abbrev result : ToolResult
result = record {
  call_id = codes "c1";
  content = codes "{}";
  is_error = false;
  metadata = object end;
}

abbrev items : List GraphItem
items =
    chunk asking
    ∷ tool_message (record { artifact = some result; tool_call_id = codes "c1" })
    ∷ tool_message (record { artifact = some result; tool_call_id = codes "c2" })
    ∷ []

abbrev turn : Turn
turn = record { provider = codes "p"; model = codes "m"; merge = λ left right. right }

handled_message :
    handled (runtime_error (codes "x\nDuring task with name 'agent'")) ≡ runtime_error (codes "x")
unfolding handled before_first begins_with
handled_message = refl

stream-InOrder_example : InOrder (stream turn items initial).1.sent
stream-InOrder_example = stream-InOrder turn items

abbrev counter : TokenCounter
counter = record {
  model_input = 10;
  assistant_tool_call = λ call. 5;
  tool_result = λ id content. 7;
}

abbrev call : ToolCall
call = record { id = codes "c1"; name = codes "search"; arguments = end }

abbrev runs : List Run
runs =
    (call, λ budget. ok (message (some result))) ∷ (call, λ budget. ok (message (some result))) ∷ []

abbrev outputs : List ToolOutput
outputs = message (some result) ∷ message (some result) ∷ []

both_run : run_all counter 40 (calls_of runs) runs ≡ ok outputs
unfolding execute_with_budget fit_output share remaining_tokens fit_result
both_run = refl

run_all-remaining_example :
    EndsTurn counter runs outputs
    ⊎ (total (map (output_tokens counter) outputs) ≤ remaining_tokens counter 40 (calls_of runs))
run_all-remaining_example = run_all-remaining counter 40 runs outputs both_run
