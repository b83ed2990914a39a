-- ===== src/Reducer/ToolSteps.antt =====
-- What an accepted start or result of a tool has done, read off the methods.
use auto_reign.Prelude.{
  ℕ, ◌≡◌, refl, true, false, Option, none, some, List, [], ◌∷◌, ◌++◌, Text, arith, inl, inr, ok,
  err, Bool-cases, Result-cases, get_elem?, set, length, text_key, text_beq_iff, contains,
}
use auto_reign.Prelude.Dict
use auto_reign.Prelude.Dict.{Dict}
use auto_reign.Prelude.Options.{Option-cases}
use auto_reign.Json.{Value, object}
use auto_reign.RuntimeTypes.{ToolCall, ToolResult}
use auto_reign.ChatBlocks.{
  ToolBlock, ToolBlockStatus, text, tool, Fresh, create_tool_block, apply_tool_result,
}
use auto_reign.MessageChain.{serialize_tool_result}
use auto_reign.Reducer.State.{
  ReducerError, runtime_event_orphan_tool_result, runtime_event_duplicate_tool_result, Emission,
  block_created, block_updated, Reducer, Python,
}
use auto_reign.Reducer.Tools.{
  accept_tool_start, declared_or, tool_block_at, collect_metadata, resolve_call, accept_tool_result,
}

-- The block of a declared call, made once.
pub record Started (fresh : Fresh) (s : Reducer) (call : ToolCall) (t : Reducer)
    (es : List Emission) : Type 0 where
  pub declared : Dict.has call.id s.declared ≡ true
  pub first : contains s.started call.id ≡ false
  pub block : ToolBlock
  pub created : create_tool_block fresh call ToolBlockStatus.pending none none ≡ ok block
  pub emitted : es ≡ block_created (tool block) ∷ []
  pub after : t ≡ record s {
    started = call.id ∷ s.started;
    tool_block_indexes = Dict.put call.id (length s.blocks) s.tool_block_indexes;
    blocks = s.blocks ++ tool block ∷ [];
  }

pub accept_tool_start-Started :
    (python : Python) (fresh : Fresh) (s t : Reducer) (call : ToolCall) (es : List Emission)
    → accept_tool_start python fresh call s ≡ (ok es, t)
    → Started fresh s call t es
unfolding accept_tool_start Dict.has
accept_tool_start-Started python fresh s t call es h =
    elim (Option-cases (Dict.get call.id s.declared)) [
      | inl missing ↦ ground arith
      | inr (declared, found) ↦
          elim (Result-cases (create_tool_block fresh call ToolBlockStatus.pending none none)) [
            | inr (e, raised) ↦ ground arith
            | inl (b, created) ↦ record {
              declared = ground arith;
              first = ground arith;
              block = b;
              created = created;
              emitted = ground arith;
              after = ground arith;
            }
          ]
    ]

tool_block_at-ok :
    (s : Reducer) (at : Option ℕ) (index : ℕ) (block : ToolBlock)
    → tool_block_at s at ≡ ok (index, block)
    → (at ≡ some index) × (get_elem? s.blocks index ≡ some (tool block))
unfolding tool_block_at
tool_block_at-ok s none index block h = ground arith
tool_block_at-ok s (some i) index block h = elim (Option-cases (get_elem? s.blocks i)) [
  | inl missing ↦ ground arith
  | inr (text b, found) ↦ ground arith
  | inr (tool b, found) ↦ ground arith
]

collect_metadata-fields :
    (python : Python) (metadata : Value) (s : Reducer)
    → (r : List Value × Option Text) × (collect_metadata python metadata s
        ≡ record s { sources = r.0; termination_reason = r.1 })
unfolding collect_metadata
collect_metadata-fields python (object fields) s = (_, refl)
collect_metadata-fields python _ s = ((s.sources, s.termination_reason), refl)

abbrev answered_state : Reducer → ToolCall → ℕ → ToolBlock → Value → Reducer
answered_state s call index completed message = record s {
  blocks = set s.blocks index (tool completed);
  resolved = call.id ∷ s.resolved;
  messages_chain = s.messages_chain ++ message ∷ [];
}

-- The block of a call, completed by its result.
pub record Resolution (s : Reducer) (call : ToolCall) (result : ToolResult) (index : ℕ)
    (block : ToolBlock) (t : Reducer) (es : List Emission) : Type 0 where
  pub completed : ToolBlock
  pub message : Value
  pub sources : List Value
  pub reason : Option Text
  pub applied : apply_tool_result block result ≡ ok completed
  pub serialized : serialize_tool_result call result ≡ ok message
  pub emitted : es ≡ block_updated (tool completed) ∷ []
  pub after : t ≡ record (answered_state s call index completed message) {
    sources = sources;
    termination_reason = reason;
  }

resolve_call-Resolution :
    (python : Python) (s t : Reducer) (call : ToolCall) (result : ToolResult) (index : ℕ)
    (block : ToolBlock) (es : List Emission)
    → resolve_call python call result index block s ≡ (ok es, t)
    → Resolution s call result index block t es
unfolding resolve_call
resolve_call-Resolution python s t call result index block es h =
    elim (Result-cases (apply_tool_result block result)) [
      | inr (e, raised) ↦ ground arith
      | inl (c, applied) ↦ elim (Result-cases (serialize_tool_result call result)) [
        | inr (e, raised) ↦ ground arith
        | inl (m, serialized) ↦
            let noted =
              collect_metadata-fields python result.metadata (answered_state s call index c m) in
            record {
              completed = c;
              message = m;
              sources = noted.0.0;
              reason = noted.0.1;
              applied = applied;
              serialized = serialized;
              emitted = ground arith;
              after = ground (arith, noted.1);
            }
      ]
    ]

-- The answer to a started call, taken once.
pub record Answered (s : Reducer) (call : ToolCall) (result : ToolResult) (t : Reducer)
    (es : List Emission) : Type 0 where
  pub declared : Dict.has call.id s.declared ≡ true
  pub started : contains s.started call.id ≡ true
  pub first : contains s.resolved call.id ≡ false
  pub own : result.call_id ≡ call.id
  pub index : ℕ
  pub block : ToolBlock
  pub indexed : Dict.get call.id s.tool_block_indexes ≡ some index
  pub found : get_elem? s.blocks index ≡ some (tool block)
  pub resolution : Resolution s call result index block t es

pub accept_tool_result-Answered :
    (python : Python) (s t : Reducer) (call : ToolCall) (result : ToolResult) (es : List Emission)
    → accept_tool_result python call result s ≡ (ok es, t)
    → Answered s call result t es
unfolding accept_tool_result Dict.has
accept_tool_result-Answered python s t call result es h =
    elim (Option-cases (Dict.get call.id s.declared)) [
      | inl missing ↦ ground arith
      | inr (declared, known) ↦
          elim (Result-cases (tool_block_at s (Dict.get call.id s.tool_block_indexes))) [
            | inr (e, raised) ↦ ground arith
            | inl ((i, b), at) ↦
                let here = tool_block_at-ok s (Dict.get call.id s.tool_block_indexes) i b at in
                record {
                  declared = ground arith;
                  started = ground arith;
                  first = ground arith;
                  own = ground (arith, text_beq_iff result.call_id call.id);
                  index = i;
                  block = b;
                  indexed = here.0;
                  found = here.1;
                  resolution = resolve_call-Resolution python s t call result i b es (ground arith);
                }
          ]
    ]

-- A call is answered once: right after a result of it that was accepted, a further result of a call
-- with its id, whatever it says, raises and changes nothing.
pub accept_tool_result-once :
    (python : Python) (s t : Reducer) (call again : ToolCall) (result other : ToolResult)
    (es : List Emission)
    → accept_tool_result python call result s ≡ (ok es, t)
    → again.id ≡ call.id
    → (e : ReducerError) × (accept_tool_result python again other t ≡ (err e, t))
unfolding accept_tool_result declared_or
accept_tool_result-once python s t call again result other es h same_id =
    let answered = accept_tool_result-Answered python s t call result es h in
    let after = answered.resolution.after in
    let resolved : contains t.resolved again.id ≡ true =
      ground (arith, after, text_beq_iff again.id call.id) in
    elim (Option-cases (Dict.get again.id t.declared)) [
      | inl missing ↦ (runtime_event_orphan_tool_result, rw missing refl)
      | inr (declared, found) ↦ elim (Bool-cases (contains t.started again.id)) [
        | inr early ↦ (runtime_event_orphan_tool_result, rw (found, early) refl)
        | inl started ↦ (runtime_event_duplicate_tool_result, rw (found, started, resolved) refl)
      ]
    ]
