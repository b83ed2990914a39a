-- ===== src/ReactLoop/Budget.antt =====
-- The tokens that are left for the results of one turn's calls.
use auto_reign.Prelude.{
  ℕ, ◌+◌, ◌-◌, ◌/◌, Bool, true, false, Option, none, some, List, [], ◌∷◌, map, Text, codes, Result,
  ok, err, ◌>>=◌, if◌then◌else◌, leb, any, length, get_last?, ◌==◌, text_key,
}
use auto_reign.Json.{Value, str, bool, object, end, field}
use auto_reign.RuntimeTypes.{ToolCall, ToolResult}
use auto_reign.ReactLoop.Chunks.{LoopError, runtime_tool_call}

-- The counter of tokens: of the messages before the turn with the tools' definitions, of a call, and of
-- a result by its call's id and its content.
pub record TokenCounter : Type 0 where
  pub model_input : ℕ
  pub assistant_tool_call : ToolCall → ℕ
  pub tool_result : Text → Text → ℕ

unfoldable pub context_too_large_result : ToolCall → ToolResult
context_too_large_result call = record {
  call_id = call.id;
  content =
      codes
        "{\"code\":\"context_too_large\",\"message\":\"The tool result exceeds the remaining context budget.\"}";
  is_error = true;
  metadata = object (
      field (some (codes "tool")) (str call.name)
        (field (some (codes "code")) (str (codes "context_too_large")) end));
}

unfoldable pub terminal_budget_audit : ToolCall → ToolResult
terminal_budget_audit call = record {
  call_id = call.id;
  content = codes "{}";
  is_error = true;
  metadata = object (
      field (some (codes "tool")) (str call.name) (
        field (some (codes "code")) (str (codes "context_too_large"))
          (field (some (codes "terminal")) (bool true) end)));
}

-- What is read of a message of the graph's state: whether it is the assistant's, and its calls.
pub record StateMessage : Type 0 where
  pub is_assistant : Bool
  pub tool_calls : List Value

runtime_tool_calls : List Value → Result LoopError (List ToolCall)
runtime_tool_calls [] = ok []
runtime_tool_calls (value ∷ values) = do
  call ← runtime_tool_call value
  calls ← runtime_tool_calls values
  ok (call ∷ calls)

abbrev siblings_of : ToolCall → List ToolCall → List ToolCall
siblings_of call siblings =
    if any (λ item. item.id == call.id) siblings then siblings else call ∷ []

siblings_in : Option StateMessage → ToolCall → Result LoopError (List ToolCall)
unfolding runtime_tool_calls
siblings_in none call = ok (call ∷ [])
siblings_in (some message) call = elim message.tool_calls [
  | [] ↦ ok (call ∷ [])
  | value ∷ values ↦
      if message.is_assistant
      then (runtime_tool_calls (value ∷ values) >>= λ siblings. ok (siblings_of call siblings))
      else ok (call ∷ [])
]

-- `_sibling_tool_calls`
unfoldable pub sibling_tool_calls : List StateMessage → ToolCall → Result LoopError (List ToolCall)
unfolding siblings_in
sibling_tool_calls messages call = siblings_in (get_last? messages) call

abbrev is_round : StateMessage → Bool
is_round message = elim message.tool_calls [ [] ↦ false | value ∷ values ↦ message.is_assistant ]

abbrev count_rounds : List StateMessage → ℕ
count_rounds [] = 0
count_rounds (message ∷ messages) = (if is_round message then 1 else 0) + count_rounds messages

-- `_context_guard`, with the tokens that its counter finds.
unfoldable pub guard_context : ℕ → ℕ → ℕ → List StateMessage → Result LoopError (Unit {0})
guard_context max_tool_rounds token_budget used messages =
    if leb max_tool_rounds (count_rounds messages)
    then err LoopError.tool_call_limit_exceeded
    else (if leb used token_budget then ok tt else err LoopError.context_too_large)

-- What a tool of the graph returns: a ToolMessage, whose artifact is `none` where it is no ToolResult, or
-- an output of another kind.
pub data ToolOutput : Type 0 where
  message : Option ToolResult → ToolOutput
  other_output : ToolOutput

abbrev pub or_terminal : ToolCall → Option ToolResult → ToolResult
or_terminal call none = terminal_budget_audit call
or_terminal call (some result) = result

abbrev pub total : List ℕ → ℕ
total [] = 0
total (n ∷ ns) = n + total ns

module _ (counter : TokenCounter) where
  -- `_remaining_tokens`, which is an integer below 0 where this is 0 and more was used than there is.
  unfoldable pub remaining_tokens : ℕ → List ToolCall → ℕ
  remaining_tokens token_budget calls =
      token_budget - (counter.model_input + total (map counter.assistant_tool_call calls))

  -- `// len(siblings)`: rounding down, an integer below 0 stays below 0.
  unfoldable pub share : ℕ → List ToolCall → ℕ
  share token_budget calls = remaining_tokens token_budget calls / length calls

  abbrev pub result_tokens : ToolResult → ℕ
  result_tokens result = counter.tool_result result.call_id result.content

  -- `_fit_result`
  unfoldable pub fit_result : ToolCall → ToolResult → ℕ → Option ToolResult
  fit_result call candidate remaining =
      let result =
        if leb (result_tokens candidate) remaining
        then candidate
        else context_too_large_result call in
      if leb (result_tokens result) remaining then some result else none

  -- From the output on: what is no ToolMessage is passed on as it is.
  unfoldable pub fit_output : ToolCall → ℕ → ToolOutput → Result LoopError ToolOutput
  fit_output call remaining other_output = ok other_output
  fit_output call remaining (message none) = err LoopError.type_error
  fit_output call remaining (message (some candidate)) =
      ok (message (some (or_terminal call (fit_result call candidate remaining))))

  -- `execute_with_budget`. A tool that the registry knows is given the share, and returns an output or
  -- raises; for a name that it does not know, `registry.execute` makes the result.
  unfoldable pub execute_with_budget :
      ℕ
      → List ToolCall
      → ToolCall
      → Option (ℕ → Result LoopError ToolOutput)
      → ToolResult
      → Result LoopError ToolOutput
  execute_with_budget token_budget siblings call none unknown =
      if leb (share token_budget siblings) 0
      then ok (message (some (terminal_budget_audit call)))
      else ok (message (some unknown))
  execute_with_budget token_budget siblings call (some execute) unknown =
      let remaining = share token_budget siblings in
      if leb remaining 0
      then ok (message (some (terminal_budget_audit call)))
      else (execute remaining >>= λ output. fit_output call remaining output)
