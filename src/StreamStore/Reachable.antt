-- ===== src/StreamStore/Reachable.antt =====
-- The stores that the operations lead to from a new one.
use auto_reign.Prelude.{
  ℕ, ◌≡◌, refl, Option, none, [], Text, ok, ℤ, pos, negsuc, nat_key, text_key, arith,
}
use auto_reign.Prelude.Dict
use auto_reign.Prelude.Dict.{Dict}
use auto_reign.Json.{Value, Fields}
use auto_reign.StreamStore.State.{Now, MemoryState, Store, new_store}
use auto_reign.StreamStore.Operations.{
  start, get_active, validate_generation, append_text, upsert_block, set_cancelled, is_cancelled,
  set_status_snapshot, finalize,
}
use auto_reign.StreamStore.Sound.{IsSound}
use auto_reign.StreamStore.Steps.{
  append_text-Keeps, finalize-Keeps, get_active-Keeps, is_cancelled-Keeps, set_cancelled-Keeps,
  set_status_snapshot-Keeps, start-Keeps, upsert_block-Keeps, validate_generation-Keeps,
}

-- One operation after another, whatever their arguments are and whether they raise or not.
pub data Reachable (loads : Text → Option Value) : Store → Type 0 where
  made : (ttl : ℤ) (s : Store) → new_store ttl ≡ ok s → Reachable loads s
  started :
      (s : Store) (uuid : Text) (now : Now) (task subtask : ℤ)
      → Reachable loads s
      → Reachable loads (start uuid now task subtask s).1
  asked :
      (s : Store) (now : Now) (task : ℤ)
      → Reachable loads s
      → Reachable loads (get_active now task s).1
  validated :
      (s : Store) (now : Now) (task subtask : ℤ) (generation : Text)
      → Reachable loads s
      → Reachable loads (validate_generation now task subtask generation s).1
  appended :
      (s : Store) (now : Now) (subtask : ℤ) (generation block : Text) (offset : ℤ) (content : Text)
      → Reachable loads s
      → Reachable loads (append_text now subtask generation block offset content s).1
  upserted :
      (s : Store) (now : Now) (subtask : ℤ) (generation : Text) (block : Value)
      → Reachable loads s
      → Reachable loads (upsert_block now subtask generation block s).1
  cancelled :
      (s : Store) (now : Now) (subtask : ℤ) (generation : Text)
      → Reachable loads s
      → Reachable loads (set_cancelled now subtask generation s).1
  looked :
      (s : Store) (now : Now) (subtask : ℤ) (generation : Text)
      → Reachable loads s
      → Reachable loads (is_cancelled now subtask generation s).1
  reported :
      (s : Store) (now : Now) (subtask : ℤ) (generation : Text) (payload : Fields)
      → Reachable loads s
      → Reachable loads (set_status_snapshot loads now subtask generation payload s).1
  finalized :
      (s : Store) (now : Now) (task subtask : ℤ) (generation : Text)
      → Reachable loads s
      → Reachable loads (finalize now task subtask generation s).1

abbrev no_states : Dict ℕ MemoryState
no_states = []

get-nil : (id : ℕ) → Dict.get id no_states ≡ none
unfolding Dict.get
get-nil id = refl

new_store-IsSound : (ttl : ℤ) (s : Store) → new_store ttl ≡ ok s → IsSound s
unfolding new_store
new_store-IsSound (pos n) s h id state found =
    let empty : s.states ≡ [] = ground arith in
    let missing : Dict.get id s.states ≡ none = rw empty (get-nil id) in
    absurd (ground (arith, missing))
new_store-IsSound (negsuc n) s h id state found = cc

-- In every store that the operations lead to, whatever their arguments and whether they raise or
-- not, each stream is kept under its own id, and its offset is the length in UTF-16 code units of
-- the text that it holds.
pub Reachable-IsSound : (loads : Text → Option Value) (s : Store) → Reachable loads s → IsSound s
Reachable-IsSound loads _ (made ttl s ok_s) = new_store-IsSound ttl s ok_s
Reachable-IsSound loads _ (started s uuid now task subtask r) =
    (start-Keeps uuid now task subtask s (Reachable-IsSound loads s r)).0
Reachable-IsSound loads _ (asked s now task r) =
    (get_active-Keeps now task s (Reachable-IsSound loads s r)).0
Reachable-IsSound loads _ (validated s now task subtask g r) =
    (validate_generation-Keeps now task subtask g s (Reachable-IsSound loads s r)).0
Reachable-IsSound loads _ (appended s now subtask g block offset content r) =
    (append_text-Keeps now subtask g block offset content s (Reachable-IsSound loads s r)).0
Reachable-IsSound loads _ (upserted s now subtask g block r) =
    (upsert_block-Keeps now subtask g block s (Reachable-IsSound loads s r)).0
Reachable-IsSound loads _ (cancelled s now subtask g r) =
    (set_cancelled-Keeps now subtask g s (Reachable-IsSound loads s r)).0
Reachable-IsSound loads _ (looked s now subtask g r) =
    (is_cancelled-Keeps now subtask g s (Reachable-IsSound loads s r)).0
Reachable-IsSound loads _ (reported s now subtask g payload r) =
    (set_status_snapshot-Keeps loads now subtask g payload s (Reachable-IsSound loads s r)).0
Reachable-IsSound loads _ (finalized s now task subtask g r) =
    (finalize-Keeps now task subtask g s (Reachable-IsSound loads s r)).0
