-- ===== src/Reducer/Examples.antt =====
-- A run with one tool call: an answer begun, a call and its result, and the answer's end.
use auto_reign.Prelude.{
  ◌≡◌, refl, true, false, none, some, List, [], ◌∷◌, ◌++◌, Text, codes, Result, ok, err, take,
  is_blank, is_space, is_surrogate,
}
use auto_reign.Prelude.Dict
use auto_reign.TextOffsets.{utf16_code_units, advance_utf16_offset, encode_utf16_le}
use auto_reign.TextOffsets.Laws.{js_length}
use auto_reign.Json.{
  object, str, null, end, field, sized, serialize, canonical_json, validate_json_value,
  string_bytes, digits_before, decimal, int_chars, add_bytes, add_node, key_bytes, count_keys,
  visit, round, scan, dumps, dump_items, dump_fields, utf8_size, max_json_string_chars,
}
use auto_reign.Datetime.{
  Datetime, is_leap, days_in_month, datetime, in_range, two_digits, four_digits, six_digits,
  isoformat, number, expect, fraction, fromisoformat, timestamp, without_z, is_written,
  is_canonical_timestamp,
}
use auto_reign.RuntimeTypes.{
  ToolCall, ToolResult, AssistantMessageEvent, text_content, RuntimeEvent, text_delta,
  assistant_message, tool_start, tool_result,
}
use auto_reign.ChatBlocks.{
  Fresh, Block, BlockError, is_valid_chat_block_id, existing_id, ensure_json_safe,
  canonical_timestamp, has_keys, copy_text_block, copy_tool_block, create_text_block,
  append_text_block, create_tool_block, allowed, update_tool_block, apply_tool_result,
}
use auto_reign.MessageChain.{
  assistant, all_dicts, assistant_content_is_valid, named, text_or, dict_or, arguments_fit,
  normalize_reasoning, text_or_none, normalize_model_info, normalize_marker, normalize_version,
  arguments_canonical, normalize_tool_call, normalize_calls, normalize_tool_calls,
  normalize_assistant, normalize_tool, canonical_arguments, serialize_assistant_event,
  serialize_tool_result, declare_call, declare_calls, accept_tool, close_chain, step, steps,
  validate_messages_chain,
}
use auto_reign.MessageChain as Chain
use auto_reign.Reducer.State.{Reducer, ReducerError, Emission, Python, new, has_unresolved}
use auto_reign.Reducer.Content.{assistant_visible_text, join}
use auto_reign.Reducer.Deltas.{open_text_block, block_at, extend_text_block, accept_delta}
use auto_reign.Reducer.Assistants.{
  complete_text_block, normalized_assistant, copy_tool_call, copy_tool_calls, record_message,
  accept_assistant,
}
use auto_reign.Reducer.Assistants as Assistants
use auto_reign.Reducer.Tools.{
  same_call, accept_tool_start, tool_block_at, add_sources, collect_metadata, resolve_call,
  accept_tool_result,
}
use auto_reign.Reducer.Accept.{accept, accept_all}
use auto_reign.Reducer.ToolSteps.{accept_tool_result-once}
use auto_reign.Reducer.Finish.{
  Success, Partial, success_terminal_answer, validate_envelope, finish_success,
  terminal_partial_block, terminal_partial_blocks, partial_result,
}
use auto_reign.Reducer.Endings.{all_terminal, Kept, partial_result-Kept}
use auto_reign.Reducer.View.{Shows}
use auto_reign.Reducer.Shows.{accept-Shows}
use auto_reign.Reducer.Runs.{RunShows, new-RunShows}

abbrev python : Python
python = record { loads = λ written. some (object end); same_arguments = λ a b. true }

abbrev noon : Datetime
noon = record {
  year = 2025;
  month = 2;
  day = 28;
  hour = 12;
  minute = 0;
  second = 0;
  microsecond = 5;
}

abbrev fresh : Text → Fresh
fresh id = record { uuid = id; now = noon }

abbrev call : ToolCall
call = record { id = codes "c1"; name = codes "search"; arguments = end }

abbrev result : ToolResult
result = record { call_id = codes "c1"; content = codes "found"; is_error = false; metadata = null }

abbrev says : Text → List ToolCall → AssistantMessageEvent
says text calls = record {
  content = text_content text;
  tool_calls = calls;
  reasoning_content = none;
  provider = none;
  model = none;
  compacted = false;
  summary_compacted = false;
  compaction_version = none;
}

-- Up to the call's start, its result, and the rest.
abbrev first_events : List (Fresh × RuntimeEvent)
first_events =
    (fresh (codes "b1"), text_delta (codes "a😀"))
    ∷ (fresh (codes "b2"), text_delta (codes "!"))
    ∷ (fresh (codes "b3"), assistant_message (says (codes "a😀!") (call ∷ [])))
    ∷ (fresh (codes "b4"), tool_start call)
    ∷ []

abbrev run : List (Fresh × RuntimeEvent)
run =
    first_events
    ++ (fresh (codes "b5"), tool_result call result)
      ∷ (fresh (codes "b6"), text_delta (codes "ok"))
      ∷ (fresh (codes "b7"), assistant_message (says (codes "ok") []))
      ∷ []

abbrev outcome : Result ReducerError (List Emission) × Reducer
outcome = accept_all python run (new (codes "p") (codes "m"))

-- The state when the call has started.
abbrev waiting : Reducer
waiting = (accept_all python first_events (new (codes "p") (codes "m"))).1

abbrev sent : Result ReducerError (List Emission) → List Emission
sent (ok es) = es
sent (err e) = []

abbrev emissions : List Emission
emissions = sent outcome.0

-- A state that has one answer, and what is stored of it.
abbrev ended : Reducer
ended = record (new (codes "p") (codes "m")) {
  messages_chain =
      object (
        field (some (codes "role")) (str (codes "assistant"))
          (field (some (codes "content")) (str (codes "ok")) end))
      ∷ [];
}

abbrev success : Success
success = record {
  value = codes "ok";
  messages_chain =
      assistant (record {
        content = str (codes "ok");
        reasoning_content = none;
        tool_calls = [];
        model_info = none;
        compacted = none;
        summary_compacted = none;
        compaction_version = none;
      })
      ∷ [];
  blocks = [];
  context_compactions = [];
  sources = [];
  termination_reason = none;
}

abbrev closed_blocks : Result BlockError (List Block) → List Block
closed_blocks (ok blocks) = blocks
closed_blocks (err e) = []

abbrev answer : Result ReducerError (List Emission) × Reducer
answer = accept_tool_result python call result waiting

abbrev start : Result ReducerError (List Emission) × Reducer
start = accept python (fresh (codes "b1")) (text_delta (codes "a😀")) (new (codes "p") (codes "m"))

runs-ok :
    (outcome ≡ (ok emissions, outcome.1))
    × (terminal_partial_blocks waiting.blocks
        ≡ ok (closed_blocks (terminal_partial_blocks waiting.blocks)))
    × (answer ≡ (ok (sent answer.0), answer.1))
    × (start ≡ (ok (sent start.0), start.1))
unfolding accept_all accept accept_delta open_text_block block_at extend_text_block has_unresolved
    create_text_block copy_text_block existing_id is_valid_chat_block_id canonical_timestamp
    ensure_json_safe validate_json_value canonical_json serialize sized scan round visit count_keys
    key_bytes string_bytes utf8_size add_node add_bytes dumps dump_items dump_fields has_keys
    append_text_block is_canonical_timestamp is_written timestamp isoformat two_digits four_digits
    six_digits fromisoformat number expect fraction datetime in_range days_in_month is_leap
    without_z advance_utf16_offset utf16_code_units encode_utf16_le accept_assistant
    assistant_visible_text complete_text_block record_message normalized_assistant copy_tool_calls
    copy_tool_call Assistants.declare_calls serialize_assistant_event canonical_arguments
    accept_tool_start same_call create_tool_block copy_tool_block accept_tool_result tool_block_at
    resolve_call apply_tool_result allowed update_tool_block serialize_tool_result collect_metadata
    add_sources Dict.has is_blank is_space is_surrogate all_dicts assistant_content_is_valid
    Dict.put Dict.get decimal digits_before int_chars terminal_partial_blocks terminal_partial_block
runs-ok = (refl, refl, refl, refl)

success-ok : finish_success python ended ≡ ok success
unfolding finish_success success_terminal_answer validate_envelope validate_messages_chain steps
    step normalize_assistant normalize_tool named text_or dict_or arguments_fit normalize_reasoning
    text_or_none normalize_model_info normalize_marker normalize_version arguments_canonical
    normalize_tool_call normalize_calls normalize_tool_calls Chain.accept_assistant declare_calls
    declare_call accept_tool close_chain canonical_json serialize sized scan round visit count_keys
    key_bytes string_bytes utf8_size add_node add_bytes dumps dump_items dump_fields
    assistant_visible_text has_unresolved all_dicts assistant_content_is_valid is_blank is_space
    decimal digits_before int_chars Dict.get Dict.put
success-ok = refl

new-RunShows_example : RunShows (new (codes "p") (codes "m")) emissions outcome.1
new-RunShows_example =
    new-RunShows python (codes "p") (codes "m") run outcome.1 emissions
      (refl, (refl, (refl, (refl, (refl, (refl, (refl, tt))))))) runs-ok.0

partial_result-Kept_example :
    (all_terminal (closed_blocks (terminal_partial_blocks waiting.blocks)) ≡ true)
    × ((r : Partial) × (partial_result waiting ≡ ok r)
        × Kept
            (take max_json_string_chars (join waiting.value_parts))
            (closed_blocks (terminal_partial_blocks waiting.blocks))
            r)
partial_result-Kept_example =
    partial_result-Kept waiting (closed_blocks (terminal_partial_blocks waiting.blocks)) runs-ok.1

accept_tool_result-once_example :
    (e : ReducerError) × (accept_tool_result python call result answer.1 ≡ (err e, answer.1))
accept_tool_result-once_example =
    accept_tool_result-once python waiting answer.1 call call result result (sent answer.0)
      runs-ok.2 refl

accept-Shows_example :
    Shows (fresh (codes "b1")) (new (codes "p") (codes "m")) (sent start.0) start.1
unfolding js_length
accept-Shows_example =
    accept-Shows python (fresh (codes "b1")) (text_delta (codes "a😀")) (new (codes "p") (codes "m"))
      start.1 (sent start.0) (record { value = refl; open_text = (refl, refl); unique = tt }) refl
      runs-ok.3
