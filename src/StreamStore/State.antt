-- ===== src/StreamStore/State.antt =====
-- The store, its errors, the checks of arguments, and the helpers of its operations.
use auto_reign.Prelude.{
  ℕ, suc, ◌+◌, ◌*◌, Bool, false, not, ◌&&◌, Option, none, some, List, [], ◌∷◌, Text, Result, ok,
  err, map_err, guard, ℤ, pos, negsuc, leb, nat_beq, nat_key, text_key, ◌==◌, if◌then◌else◌,
  is_blank,
}
use auto_reign.Prelude.Dict
use auto_reign.Prelude.Dict.{Dict}
use auto_reign.Prelude.Exec.{Exec, pure, raise, self, modify, ensure, lift, ◌>>=◌, ◌>>◌}
use auto_reign.TextOffsets.{TextOffsetError, utf16_code_units}
use auto_reign.Json.{Value, Fields, object, canonical_json}
use auto_reign.Datetime.{Datetime, timestamp}
use auto_reign.ChatBlocks.{Block, BlockError, is_valid_chat_block_id}

pub data StreamError : Type 0 where
  chat_stream_invalid_ttl chat_stream_invalid_task_id chat_stream_invalid_subtask_id : StreamError
  chat_stream_invalid_block_id chat_stream_invalid_generation_id : StreamError
  chat_stream_invalid_offset chat_stream_invalid_content : StreamError
  chat_stream_invalid_status_snapshot : StreamError
  chat_stream_offset_mismatch chat_stream_not_active chat_stream_stale_generation : StreamError
  block_error : BlockError → StreamError
  offset_error : TextOffsetError → StreamError

-- What the clock says: a moment in UTC, and its place in time in microseconds, which is what
-- comparisons and sums with a `timedelta` read.
pub record Now : Type 0 where
  pub moment : Datetime
  pub instant : ℕ

pub record MemoryState : Type 0 where
  pub task_id : ℕ
  pub subtask_id : ℕ
  pub generation_id : Text
  pub offset : ℕ
  pub cached_content : Text
  pub blocks : List Block
  pub started_at : Text
  pub last_activity_at : Text
  pub status_updated : Option Fields
  pub cancelled : Bool
  pub expires_at : ℕ

pub record Store : Type 0 where
  pub ttl : ℕ
  pub active_by_task : Dict ℕ ℕ
  pub states : Dict ℕ MemoryState

abbrev pub Method : Type 0 → Type 0
Method A = Exec Store StreamError A

-- `__init__`, with the seconds of the time to live.
unfoldable pub new_store : ℤ → Result StreamError Store
new_store (negsuc _) = err chat_stream_invalid_ttl
new_store (pos ttl_seconds) =
    if leb 60 ttl_seconds && leb ttl_seconds 86400
    then ok (record { ttl = ttl_seconds * 1000000; active_by_task = []; states = [] })
    else err chat_stream_invalid_ttl

-- `_positive_id`, whose error names the argument.
unfoldable pub positive_id : StreamError → ℤ → Result StreamError ℕ
positive_id invalid (pos (suc n)) = ok (suc n)
positive_id invalid _ = err invalid

-- `_generation_id`
unfoldable pub check_generation_id : Text → Result StreamError (Unit {0})
check_generation_id value = guard (not (is_blank value)) chat_stream_invalid_generation_id

-- `_block_id`
unfoldable pub check_block_id : Text → Result StreamError (Unit {0})
check_block_id value = guard (is_valid_chat_block_id value) chat_stream_invalid_block_id

-- `_offset`
unfoldable pub check_offset : ℤ → Result StreamError ℕ
check_offset (pos n) = ok n
check_offset (negsuc _) = err chat_stream_invalid_offset

-- `_text`
unfoldable pub check_text : Text → Result StreamError ℕ
check_text value = map_err (λ _. chat_stream_invalid_content) (utf16_code_units value)

-- Behind `json.loads`: the snapshot must be a dict again.
unfoldable pub decoded : Option Value → Result StreamError Fields
decoded (some (object fields)) = ok fields
decoded _ = err chat_stream_invalid_status_snapshot

-- `_json_object`; `loads` is `json.loads`.
unfoldable pub json_object : (Text → Option Value) → Fields → Result StreamError Fields
unfolding decoded
json_object loads payload = elim (canonical_json (object payload)) [
  | err e ↦ err chat_stream_invalid_status_snapshot
  | ok serialized ↦ decoded (loads serialized)
]

abbrev pub is_active_for : ℕ → Option ℕ → Bool
is_active_for subtask_id none = false
is_active_for subtask_id (some active) = nat_beq active subtask_id

-- `_remove_state`
unfoldable pub remove_state : MemoryState → Store → Store
remove_state state s = record s {
  states = Dict.pop state.subtask_id s.states;
  active_by_task =
      if is_active_for state.subtask_id (Dict.get state.task_id s.active_by_task)
      then Dict.pop state.task_id s.active_by_task
      else s.active_by_task;
}

-- The loop of `_cleanup_expired` over a copy of the states.
unfoldable pub remove_expired : Now → Dict ℕ MemoryState → Store → Store
remove_expired now [] s = s
remove_expired now ((id, state) ∷ rest) s =
    remove_expired now rest (if leb state.expires_at now.instant then remove_state state s else s)

unfoldable pub cleanup_expired : Now → Store → Store
cleanup_expired now s = remove_expired now s.states s

unfoldable pub state_or_inactive : Option MemoryState → Result StreamError MemoryState
state_or_inactive none = err chat_stream_not_active
state_or_inactive (some state) = ok state

-- The tests of `_active_state` on a state that there is.
unfoldable pub live_state : ℕ → Now → MemoryState → Method MemoryState
live_state subtask_id now state s =
    if leb state.expires_at now.instant
    then raise chat_stream_not_active (remove_state state s)
    else if is_active_for subtask_id (Dict.get state.task_id s.active_by_task)
    then (ok state, s)
    else raise chat_stream_not_active s

-- `_active_state`
unfoldable pub active_state : ℕ → Now → Method MemoryState
unfolding state_or_inactive
active_state subtask_id now = do
  s ← self
  state ← lift (λ e. e) (state_or_inactive (Dict.get subtask_id s.states))
  live_state subtask_id now state

-- `_active_state` and `_require_generation`.
unfoldable pub owned_state : ℕ → Text → Now → Method MemoryState
owned_state subtask_id generation_id now = do
  state ← active_state subtask_id now
  ensure (state.generation_id == generation_id) chat_stream_stale_generation
  pure state

-- A change of the object in `_states`.
unfoldable pub write_state : ℕ → MemoryState → Method (Unit {0})
write_state subtask_id state =
    modify (λ s. record s { states = Dict.put subtask_id state s.states })

-- `_touch`, and the write of the state.
unfoldable pub touch : ℕ → Now → MemoryState → Method (Unit {0})
touch subtask_id now state = do
  s ← self
  write_state subtask_id
      (record state { last_activity_at = timestamp now.moment; expires_at = now.instant + s.ttl })
