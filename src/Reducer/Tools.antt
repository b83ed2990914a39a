-- ===== src/Reducer/Tools.antt =====
-- `_accept_tool_start`, `_accept_tool_result` and `_collect_metadata`.
use auto_reign.Prelude.{
  ℕ, Bool, not, ◌&&◌, ◌||◌, Option, none, some, List, [], ◌∷◌, ◌++◌, Text, codes, Result, ok, err,
  set, get_elem?, length, contains, any, leb, ltb, nat_beq, if◌then◌else◌, ◌==◌, text_key,
}
use auto_reign.Prelude.Dict
use auto_reign.Prelude.Exec.{pure, self, modify, ensure, lift, ◌>>=◌, ◌>>◌}
use auto_reign.Json.{Value, Items, str, array, object, nil, cons, get_field, canonical_json}
use auto_reign.RuntimeTypes.{ToolCall, ToolResult}
use auto_reign.ChatBlocks.{
  ToolBlock, ToolBlockStatus, Block, text, tool, Fresh, create_tool_block, apply_tool_result,
}
use auto_reign.MessageChain.{serialize_tool_result}
use auto_reign.Reducer.State.{
  ReducerError, runtime_event_invalid, runtime_event_orphan_tool_start,
  runtime_event_duplicate_tool_start, runtime_event_tool_start_mismatch,
  runtime_event_orphan_tool_result, runtime_event_duplicate_tool_result,
  runtime_event_tool_result_mismatch, block_error, chain_error, index_error, key_error, Emission,
  block_created, block_updated, Reducer, Method, Python,
}

-- `==` of two calls, which are dataclasses.
unfoldable pub same_call : Python → ToolCall → ToolCall → Bool
same_call python a b =
    a.id == b.id && a.name == b.name && python.same_arguments a.arguments b.arguments

unfoldable pub declared_or : ReducerError → Option ToolCall → Result ReducerError ToolCall
declared_or e none = err e
declared_or e (some call) = ok call

unfoldable pub accept_tool_start : Python → Fresh → ToolCall → Method (List Emission)
unfolding declared_or same_call
accept_tool_start python fresh call = do
  s ← self
  declared ←
      lift (λ e. e) (declared_or runtime_event_orphan_tool_start (Dict.get call.id s.declared))
  ensure (not (contains s.started call.id)) runtime_event_duplicate_tool_start
  ensure (same_call python declared call) runtime_event_tool_start_mismatch
  modify (λ s. record s { started = call.id ∷ s.started })
  block ← lift block_error (create_tool_block fresh call ToolBlockStatus.pending none none)
  modify (λ s. record s {
    tool_block_indexes = Dict.put call.id (length s.blocks) s.tool_block_indexes;
    blocks = s.blocks ++ tool block ∷ [];
  })
  pure (block_created (tool block) ∷ [])

tool_block_of : Option Block → Result ReducerError ToolBlock
tool_block_of none = err index_error
tool_block_of (some (text _)) = err runtime_event_invalid
tool_block_of (some (tool block)) = ok block

-- block = self.blocks[self._tool_block_indexes[event.call.id]], which must be a tool block.
unfoldable pub tool_block_at : Reducer → Option ℕ → Result ReducerError (ℕ × ToolBlock)
unfolding tool_block_of
tool_block_at s none = err key_error
tool_block_at s (some index) = elim (tool_block_of (get_elem? s.blocks index)) [
  | ok block ↦ ok (index, block)
  | err e ↦ err e
]

abbrev pub max_result_sources : ℕ
max_result_sources = 20

abbrev pub max_termination_reason_chars : ℕ
max_termination_reason_chars = 128

-- `json.loads(canonical_json(source))`, where an error passes over the source.
reload_source : Python → Value → Option Value
reload_source python source = elim (canonical_json source) [
  | err e ↦ none
  | ok written ↦ python.loads written
]

-- What one source adds.
add_source : Python → Value → List Value → List Value
unfolding reload_source
add_source python (object fields) sources = elim (reload_source python (object fields)) [
  | none ↦ sources
  | some copy ↦ sources ++ copy ∷ []
]
add_source python _ sources = sources

-- `for source in raw_sources`, which ends where the list is full.
unfoldable pub add_sources : Python → Items → List Value → List Value
unfolding add_source
add_sources python nil sources = sources
add_sources python (cons source rest) sources =
    let more = add_sources python rest (add_source python source sources) in
    if leb max_result_sources (length sources) then sources else more

collect_sources : Python → Option Value → List Value → List Value
collect_sources python (some (array items)) sources = add_sources python items sources
collect_sources python _ sources = sources

is_control : ℕ → Bool
is_control c = ltb c 32 || nat_beq c 127

reason_of : Option Value → Option Text → Option Text
unfolding is_control
reason_of (some (str reason)) old =
    if leb 1 (length reason)
      && leb (length reason) max_termination_reason_chars
      && not (any is_control reason)
    then some reason
    else old
reason_of _ old = old

unfoldable pub collect_metadata : Python → Value → Reducer → Reducer
unfolding collect_sources reason_of
collect_metadata python (object metadata) s = record s {
  sources = collect_sources python (get_field (codes "sources") metadata) s.sources;
  termination_reason =
      reason_of (get_field (codes "termination_reason") metadata) s.termination_reason;
}
collect_metadata python _ s = s

-- From the completion of the block on.
unfoldable pub resolve_call :
    Python → ToolCall → ToolResult → ℕ → ToolBlock → Method (List Emission)
resolve_call python call result index block = do
  completed ← lift block_error (apply_tool_result block result)
  modify (λ s. record s {
    blocks = set s.blocks index (tool completed);
    resolved = call.id ∷ s.resolved;
  })
  message ← lift chain_error (serialize_tool_result call result)
  modify (λ s. record s { messages_chain = s.messages_chain ++ message ∷ [] })
  modify (collect_metadata python result.metadata)
  pure (block_updated (tool completed) ∷ [])

unfoldable pub accept_tool_result : Python → ToolCall → ToolResult → Method (List Emission)
unfolding declared_or same_call
accept_tool_result python call result = do
  s ← self
  declared ←
      lift (λ e. e) (declared_or runtime_event_orphan_tool_result (Dict.get call.id s.declared))
  ensure (contains s.started call.id) runtime_event_orphan_tool_result
  ensure (not (contains s.resolved call.id)) runtime_event_duplicate_tool_result
  ensure (same_call python declared call && result.call_id == call.id)
      runtime_event_tool_result_mismatch
  (index, block) ← lift (λ e. e) (tool_block_at s (Dict.get call.id s.tool_block_indexes))
  resolve_call python call result index block
