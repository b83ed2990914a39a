-- ===== src/MessageChain/Examples.antt =====
-- A chain with one call and its result.
use auto_reign.Prelude.{
  ◌≡◌, refl, Text, codes, Option, some, none, ok, List, [], ◌∷◌, is_blank, is_space, remove,
}
use auto_reign.Prelude.Dict
use auto_reign.Json.{
  Value, array, object, str, nil, cons, end, field, canonical_json, serialize, sized, scan, round,
  visit, count_keys, key_bytes, string_bytes, utf8_size, add_node, add_bytes, dumps, dump_items,
  dump_fields, decimal, digits_before, int_chars,
}
use auto_reign.MessageChain.Messages.{Message, assistant, tool}
use auto_reign.MessageChain.Serialize.{canonical_arguments}
use auto_reign.MessageChain.Normalize.{
  all_dicts, assistant_content_is_valid, named, text_or, dict_or, arguments_fit,
  normalize_reasoning, text_or_none, normalize_model_info, normalize_marker, normalize_version,
  arguments_canonical, normalize_tool_call, normalize_calls, normalize_tool_calls,
  normalize_assistant, normalize_tool,
}
use auto_reign.MessageChain.Validate.{
  declare_call, declare_calls, accept_assistant, accept_tool, close_chain, step, steps,
  validate_messages_chain,
}
use auto_reign.MessageChain.Trace.{IsChain}
use auto_reign.MessageChain.Sound.{validate_messages_chain-IsChain}

-- `json.loads` on the one text that the chain holds.
abbrev loads : Text → Option Value
loads written = some (object end)

abbrev raw_call : Value
raw_call = object (
    field (some (codes "id")) (str (codes "c1")) (
      field (some (codes "type")) (str (codes "function")) (
        field (some (codes "function"))
          (object (
            field (some (codes "name")) (str (codes "search"))
              (field (some (codes "arguments")) (str (codes "{}")) end)))
          end)))

abbrev raw_chain : Value
raw_chain = array (
    cons
      (object (
        field (some (codes "role")) (str (codes "assistant")) (
          field (some (codes "content")) (str (codes "Let me look."))
            (field (some (codes "tool_calls")) (array (cons raw_call nil)) end))))
      (cons
        (object (
          field (some (codes "role")) (str (codes "tool")) (
            field (some (codes "tool_call_id")) (str (codes "c1")) (
              field (some (codes "name")) (str (codes "search"))
                (field (some (codes "content")) (str (codes "found")) end)))))
        nil))

abbrev chain : List Message
chain =
    assistant (record {
      content = str (codes "Let me look.");
      tool_calls = record { id = codes "c1"; name = codes "search"; arguments = codes "{}" } ∷ [];
      reasoning_content = none;
      model_info = none;
      compacted = none;
      summary_compacted = none;
      compaction_version = none;
    })
    ∷ tool (record {
      tool_call_id = codes "c1";
      name = codes "search";
      content = codes "found";
      is_error = none;
    })
    ∷ []

raw_chain-ok : validate_messages_chain loads raw_chain ≡ ok chain
unfolding validate_messages_chain steps step normalize_assistant normalize_tool named text_or
    dict_or arguments_fit normalize_reasoning text_or_none normalize_model_info normalize_marker
    normalize_version arguments_canonical normalize_tool_call normalize_calls normalize_tool_calls
    accept_assistant declare_calls declare_call accept_tool close_chain all_dicts
    assistant_content_is_valid Dict.put Dict.get Dict.has remove canonical_arguments canonical_json
    serialize sized scan round visit count_keys key_bytes string_bytes utf8_size add_node add_bytes
    dumps dump_items dump_fields decimal digits_before int_chars is_blank is_space
raw_chain-ok = refl

validate_messages_chain-IsChain_example : IsChain chain
validate_messages_chain-IsChain_example =
    validate_messages_chain-IsChain loads raw_chain chain raw_chain-ok
