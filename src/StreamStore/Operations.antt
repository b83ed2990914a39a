-- ===== src/StreamStore/Operations.antt =====
-- The operations of `MemoryChatStreamStore`, each under the lock.
use auto_reign.Prelude.{
  ℕ, ◌+◌, Bool, true, false, ◌&&◌, Option, none, some, List, [], ◌∷◌, ◌++◌, Text, ok, ℤ, pos, leb,
  nat_beq, nat_key, text_key, ◌==◌, if◌then◌else◌,
}
use auto_reign.Prelude.Dict
use auto_reign.Prelude.Dict.{Dict}
use auto_reign.Prelude.Exec.{pure, raise, self, modify, ensure, lift, ◌>>=◌, ◌>>◌}
use auto_reign.TextOffsets.{advance_utf16_offset}
use auto_reign.Json.{Value, Fields}
use auto_reign.Datetime.{timestamp}
use auto_reign.ChatBlocks.{Block, block_id, copy_chat_block}
use auto_reign.StreamStore.State.{
  MemoryState, Method, Now, Store, active_state, block_error, chat_stream_invalid_subtask_id,
  chat_stream_invalid_task_id, chat_stream_not_active, chat_stream_offset_mismatch,
  chat_stream_stale_generation, check_block_id, check_generation_id, check_offset, check_text,
  cleanup_expired, is_active_for, json_object, offset_error, owned_state, positive_id, remove_state,
  touch, write_state,
}

-- The state of a stream that starts.
abbrev pub fresh_state : ℕ → ℕ → Text → Now → ℕ → MemoryState
fresh_state task_id subtask_id generation_id now ttl = record {
  task_id = task_id;
  subtask_id = subtask_id;
  generation_id = generation_id;
  offset = 0;
  cached_content = [];
  blocks = [];
  started_at = timestamp now.moment;
  last_activity_at = timestamp now.moment;
  status_updated = none;
  cancelled = false;
  expires_at = now.instant + ttl;
}

-- `self._states.pop(old_subtask_id, None)`, if the task has an active stream.
unfoldable pub forget_active : Option ℕ → Store → Store
forget_active none s = s
forget_active (some old) s = record s { states = Dict.pop old s.states }

-- The state that the subtask had, and its task's slot.
unfoldable pub forget_old : ℕ → Option MemoryState → Store → Store
forget_old subtask_id none s = s
forget_old subtask_id (some old) s = record s {
  states = Dict.pop subtask_id s.states;
  active_by_task =
      if is_active_for subtask_id (Dict.get old.task_id s.active_by_task)
      then Dict.pop old.task_id s.active_by_task
      else s.active_by_task;
}

-- `generation_id` is the fresh `uuid4`.
unfoldable pub start : Text → Now → ℤ → ℤ → Method Text
unfolding forget_active forget_old
start generation_id now task_id subtask_id = do
  task_id ← lift (λ e. e) (positive_id chat_stream_invalid_task_id task_id)
  subtask_id ← lift (λ e. e) (positive_id chat_stream_invalid_subtask_id subtask_id)
  modify (cleanup_expired now)
  modify (λ s. forget_active (Dict.get task_id s.active_by_task) s)
  modify (λ s. forget_old subtask_id (Dict.get subtask_id s.states) s)
  modify (λ s. record s {
    states = Dict.put subtask_id (fresh_state task_id subtask_id generation_id now s.ttl) s.states;
    active_by_task = Dict.put task_id subtask_id s.active_by_task;
  })
  pure generation_id

-- The state of the task's active stream; a slot that leads nowhere is given up.
unfoldable pub active_of : ℕ → Option ℕ → Method (Option MemoryState)
active_of task_id none s = (ok none, s)
active_of task_id (some subtask_id) s =
    let given_up = record s { active_by_task = Dict.pop task_id s.active_by_task } in
    elim (Dict.get subtask_id s.states) [
      | none ↦ (ok none, given_up)
      | some state ↦
          if nat_beq state.task_id task_id then (ok (some state), s) else (ok none, given_up)
    ]

-- A snapshot has the fields of the state but for `cancelled` and `expires_at`.
unfoldable pub get_active : Now → ℤ → Method (Option MemoryState)
unfolding active_of
get_active now task_id = do
  task_id ← lift (λ e. e) (positive_id chat_stream_invalid_task_id task_id)
  modify (cleanup_expired now)
  s ← self
  active_of task_id (Dict.get task_id s.active_by_task)

unfoldable pub validate_generation : Now → ℤ → ℤ → Text → Method (Unit {0})
validate_generation now task_id subtask_id generation_id = do
  task_id ← lift (λ e. e) (positive_id chat_stream_invalid_task_id task_id)
  subtask_id ← lift (λ e. e) (positive_id chat_stream_invalid_subtask_id subtask_id)
  lift (λ e. e) (check_generation_id generation_id)
  state ← active_state subtask_id now
  ensure (nat_beq state.task_id task_id) chat_stream_not_active
  ensure (state.generation_id == generation_id) chat_stream_stale_generation

-- Behind the checks of the arguments.
unfoldable pub append_content : Now → ℕ → ℕ → Text → MemoryState → Method ℕ
append_content now subtask_id offset content state = do
  ensure (nat_beq state.offset offset) chat_stream_offset_mismatch
  let longer : MemoryState = record state { cached_content = state.cached_content ++ content }
  write_state subtask_id longer
  next ← lift offset_error (advance_utf16_offset (pos state.offset) content)
  touch subtask_id now (record longer { offset = next })
  pure next

unfoldable pub append_text : Now → ℤ → Text → Text → ℤ → Text → Method ℕ
append_text now subtask_id generation_id block offset content = do
  subtask_id ← lift (λ e. e) (positive_id chat_stream_invalid_subtask_id subtask_id)
  lift (λ e. e) (check_generation_id generation_id)
  lift (λ e. e) (check_block_id block)
  offset ← lift (λ e. e) (check_offset offset)
  _ ← lift (λ e. e) (check_text content)
  state ← owned_state subtask_id generation_id now
  append_content now subtask_id offset content state

-- The loop over the blocks, with its `else`: the first block with the id is replaced.
unfoldable pub upsert : Block → List Block → List Block
upsert block [] = block ∷ []
upsert block (current ∷ blocks) =
    let rest = upsert block blocks in
    if block_id current == block_id block then block ∷ blocks else current ∷ rest

unfoldable pub upsert_block : Now → ℤ → Text → Value → Method (Unit {0})
upsert_block now subtask_id generation_id block = do
  subtask_id ← lift (λ e. e) (positive_id chat_stream_invalid_subtask_id subtask_id)
  lift (λ e. e) (check_generation_id generation_id)
  canonical ← lift block_error (copy_chat_block block)
  state ← owned_state subtask_id generation_id now
  touch subtask_id now (record state { blocks = upsert canonical state.blocks })

unfoldable pub set_cancelled : Now → ℤ → Text → Method (Unit {0})
set_cancelled now subtask_id generation_id = do
  subtask_id ← lift (λ e. e) (positive_id chat_stream_invalid_subtask_id subtask_id)
  lift (λ e. e) (check_generation_id generation_id)
  state ← owned_state subtask_id generation_id now
  touch subtask_id now (record state { cancelled = true })

unfoldable pub cancelled_in : Now → Text → Option MemoryState → Method Bool
cancelled_in now generation_id none s = (ok false, s)
cancelled_in now generation_id (some state) s =
    if leb state.expires_at now.instant
    then (ok false, remove_state state s)
    else if state.generation_id == generation_id
    then (ok state.cancelled, s)
    else raise chat_stream_stale_generation s

unfoldable pub is_cancelled : Now → ℤ → Text → Method Bool
unfolding cancelled_in
is_cancelled now subtask_id generation_id = do
  subtask_id ← lift (λ e. e) (positive_id chat_stream_invalid_subtask_id subtask_id)
  lift (λ e. e) (check_generation_id generation_id)
  s ← self
  cancelled_in now generation_id (Dict.get subtask_id s.states)

unfoldable pub set_status_snapshot :
    (Text → Option Value) → Now → ℤ → Text → Fields → Method (Unit {0})
set_status_snapshot loads now subtask_id generation_id payload = do
  subtask_id ← lift (λ e. e) (positive_id chat_stream_invalid_subtask_id subtask_id)
  lift (λ e. e) (check_generation_id generation_id)
  canonical ← lift (λ e. e) (json_object loads payload)
  state ← owned_state subtask_id generation_id now
  touch subtask_id now (record state { status_updated = some canonical })

-- Whether the state is that of the task and of this generation.
unfoldable pub is_own : ℕ → Text → Option MemoryState → Bool
is_own task_id generation_id none = false
is_own task_id generation_id (some state) =
    nat_beq state.task_id task_id && state.generation_id == generation_id

unfoldable pub finalize : Now → ℤ → ℤ → Text → Method (Unit {0})
unfolding is_own
finalize now task_id subtask_id generation_id = do
  task_id ← lift (λ e. e) (positive_id chat_stream_invalid_task_id task_id)
  subtask_id ← lift (λ e. e) (positive_id chat_stream_invalid_subtask_id subtask_id)
  lift (λ e. e) (check_generation_id generation_id)
  modify (cleanup_expired now)
  modify (λ s.
      if is_active_for subtask_id (Dict.get task_id s.active_by_task)
        && is_own task_id generation_id (Dict.get subtask_id s.states)
      then record s {
        active_by_task = Dict.pop task_id s.active_by_task;
        states = Dict.pop subtask_id s.states;
      }
      else s)
