-- ===== src/StreamStore/Steps.antt =====
-- What each operation of the store does to its soundness (chat_stream_memory.py).
use auto_reign.Prelude.{
  ℕ, ◌≡◌, refl, sym, ap, ◌∙◌, true, false, ◌&&◌, Option, none, some, Text, Result, ok, ℤ, leb,
  nat_beq, nat_key, text_key, ◌==◌, if◌then◌else◌, arith, inl, inr, Bool-cases,
}
use auto_reign.Prelude.Dict
use auto_reign.Prelude.Dict.{Dict}
use auto_reign.Prelude.Exec.{Exec, pure, modify, ensure, lift, ◌>>=◌, ◌>>◌}
use auto_reign.Prelude.Options.{Option-cases}
use auto_reign.TextOffsets.{utf16_code_units}
use auto_reign.TextOffsets.Laws.{js_length}
use auto_reign.Json.{Value, Fields}
use auto_reign.ChatBlocks.{copy_chat_block}
use auto_reign.StreamStore.State.{
  StreamError, chat_stream_invalid_task_id, chat_stream_invalid_subtask_id, chat_stream_not_active,
  chat_stream_stale_generation, block_error, Now, MemoryState, Store, positive_id,
  check_generation_id, check_block_id, check_offset, check_text, json_object, is_active_for,
  cleanup_expired, active_state, owned_state, touch,
}
use auto_reign.StreamStore.Operations.{
  fresh_state, start, get_active, validate_generation, append_text, upsert, upsert_block,
  set_cancelled, is_cancelled, set_status_snapshot, finalize, forget_active, forget_old, active_of,
  cancelled_in, is_own,
}
use auto_reign.StreamStore.Sound.{
  IsSoundState, IsSound, Keeps, Any, Keeps-bind, Keeps-lift, Keeps-ensure, Keeps-modify,
  pop-IsSound, put-IsSound, remove_state-IsSound, cleanup_expired-IsSound, active_state-Keeps,
  owned_state-Keeps, touch-Keeps, append_content-Keeps,
}

-- The check of an argument, and what follows it.
Keeps-check :
    {A B : Type 0} {Q : B → Type 0} (r : Result StreamError A) (f : A → Exec Store StreamError B)
    → ((a : A) → r ≡ ok a → Keeps Q (f a))
    → Keeps Q (lift (λ e. e) r >>= f)
Keeps-check r f rest = Keeps-bind (lift (λ e. e) r) f (Keeps-lift (λ e. e) r) rest

Keeps-touching :
    (id : ℕ) (generation : Text) (now : Now) (change : MemoryState → MemoryState)
    → ((state : MemoryState) → IsSoundState id state → IsSoundState id (change state))
    → Keeps Any (owned_state id generation now >>= λ state. touch id now (change state))
Keeps-touching id generation now change sound =
    Keeps-bind (owned_state id generation now) _ (owned_state-Keeps id generation now)
      (λ state h. touch-Keeps id now (change state) (sound state h))

check_text-ok :
    (content : Text) (units : ℕ)
    → check_text content ≡ ok units
    → utf16_code_units content ≡ ok units
unfolding check_text
check_text-ok content units h = ground arith

pub append_text-Keeps :
    (now : Now) (subtask : ℤ) (generation block : Text) (offset : ℤ) (content : Text)
    → Keeps Any (append_text now subtask generation block offset content)
unfolding append_text
append_text-Keeps now subtask generation block offset content =
    Keeps-check (positive_id chat_stream_invalid_subtask_id subtask) _ (λ id e1.
      Keeps-check (check_generation_id generation) _ (λ u e2.
        Keeps-check (check_block_id block) _ (λ v e3. Keeps-check (check_offset offset) _ (λ at e4.
          Keeps-check (check_text content) _ (λ units counted.
            Keeps-bind (owned_state id generation now) _ (owned_state-Keeps id generation now)
              (λ state sound.
                append_content-Keeps now id at units content state sound
                  (check_text-ok content units counted)))))))

pub upsert_block-Keeps :
    (now : Now) (subtask : ℤ) (generation : Text) (block : Value)
    → Keeps Any (upsert_block now subtask generation block)
unfolding upsert_block
upsert_block-Keeps now subtask generation block =
    Keeps-check (positive_id chat_stream_invalid_subtask_id subtask) _ (λ id e1.
      Keeps-check (check_generation_id generation) _ (λ u e2.
        Keeps-bind (lift block_error (copy_chat_block block)) _
          (Keeps-lift block_error (copy_chat_block block))
          (λ canonical e3.
            Keeps-touching id generation now
              (λ state. record state { blocks = upsert canonical state.blocks })
              (λ state h. record { measured = h.measured; keyed = h.keyed }))))

pub set_cancelled-Keeps :
    (now : Now) (subtask : ℤ) (generation : Text) → Keeps Any (set_cancelled now subtask generation)
unfolding set_cancelled
set_cancelled-Keeps now subtask generation =
    Keeps-check (positive_id chat_stream_invalid_subtask_id subtask) _ (λ id e1.
      Keeps-check (check_generation_id generation) _ (λ u e2.
        Keeps-touching id generation now (λ state. record state { cancelled = true })
          (λ state h. record { measured = h.measured; keyed = h.keyed })))

pub set_status_snapshot-Keeps :
    (loads : Text → Option Value) (now : Now) (subtask : ℤ) (generation : Text) (payload : Fields)
    → Keeps Any (set_status_snapshot loads now subtask generation payload)
unfolding set_status_snapshot
set_status_snapshot-Keeps loads now subtask generation payload =
    Keeps-check (positive_id chat_stream_invalid_subtask_id subtask) _ (λ id e1.
      Keeps-check (check_generation_id generation) _ (λ u e2.
        Keeps-check (json_object loads payload) _ (λ canonical e3.
          Keeps-touching id generation now
            (λ state. record state { status_updated = some canonical })
            (λ state h. record { measured = h.measured; keyed = h.keyed }))))

pub validate_generation-Keeps :
    (now : Now) (task subtask : ℤ) (generation : Text)
    → Keeps Any (validate_generation now task subtask generation)
unfolding validate_generation
validate_generation-Keeps now task subtask generation =
    Keeps-check (positive_id chat_stream_invalid_task_id task) _ (λ task_id e0.
      Keeps-check (positive_id chat_stream_invalid_subtask_id subtask) _ (λ id e1.
        Keeps-check (check_generation_id generation) _ (λ u e2.
          Keeps-bind (active_state id now) _ (active_state-Keeps id now) (λ state h.
            Keeps-bind (ensure (nat_beq state.task_id task_id) chat_stream_not_active) _
              (Keeps-ensure (nat_beq state.task_id task_id) chat_stream_not_active)
              (λ v any.
                Keeps-ensure (state.generation_id == generation) chat_stream_stale_generation)))))

cancelled_in-Keeps :
    (now : Now) (generation : Text) (found : Option MemoryState)
    → Keeps Any (cancelled_in now generation found)
unfolding cancelled_in
cancelled_in-Keeps now generation none s h = (h, λ a returned. tt)
cancelled_in-Keeps now generation (some state) s h =
    elim (Bool-cases (leb state.expires_at now.instant)) [
      | inl expired ↦ rw expired (remove_state-IsSound state s h, λ a returned. tt)
      | inr live ↦ elim (Bool-cases (state.generation_id == generation)) [
        | inl own ↦ rw (live, own) (h, λ a returned. tt)
        | inr stale ↦ rw (live, stale) (h, λ a returned. tt)
      ]
    ]

pub is_cancelled-Keeps :
    (now : Now) (subtask : ℤ) (generation : Text) → Keeps Any (is_cancelled now subtask generation)
unfolding is_cancelled
is_cancelled-Keeps now subtask generation =
    Keeps-check (positive_id chat_stream_invalid_subtask_id subtask) _ (λ id e1.
      Keeps-check (check_generation_id generation) _
        (λ u e2 s h. cancelled_in-Keeps now generation (Dict.get id s.states) s h))

forget_active-IsSound :
    (active : Option ℕ) (s : Store) → IsSound s → IsSound (forget_active active s)
unfolding forget_active
forget_active-IsSound none s h = h
forget_active-IsSound (some old) s h = pop-IsSound s old s.active_by_task h

forget_old-IsSound :
    (id : ℕ) (old : Option MemoryState) (s : Store) → IsSound s → IsSound (forget_old id old s)
unfolding forget_old
forget_old-IsSound id none s h = h
forget_old-IsSound id (some old) s h =
    pop-IsSound s id (forget_old id (some old) s).active_by_task h

started-Keeps :
    (task_id id : ℕ) (uuid : Text) (now : Now)
    → Keeps Any (
        modify (λ s. record s {
          states = Dict.put id (fresh_state task_id id uuid now s.ttl) s.states;
          active_by_task = Dict.put task_id id s.active_by_task;
        })
        >> pure uuid)
unfolding js_length
started-Keeps task_id id uuid now s h = (
  put-IsSound s id (fresh_state task_id id uuid now s.ttl) (Dict.put task_id id s.active_by_task) h
      (record { measured = refl; keyed = refl }),
  λ a returned. tt,
)

pub start-Keeps :
    (uuid : Text) (now : Now) (task subtask : ℤ) → Keeps Any (start uuid now task subtask)
unfolding start
start-Keeps uuid now task subtask =
    Keeps-check (positive_id chat_stream_invalid_task_id task) _ (λ task_id e0.
      Keeps-check (positive_id chat_stream_invalid_subtask_id subtask) _ (λ id e1 s h.
        let s1 = cleanup_expired now s in
        let s2 = forget_active (Dict.get task_id s1.active_by_task) s1 in
        let s3 = forget_old id (Dict.get id s2.states) s2 in
        started-Keeps task_id id uuid now s3 (
          forget_old-IsSound id (Dict.get id s2.states) s2 (
            forget_active-IsSound (Dict.get task_id s1.active_by_task) s1
              (cleanup_expired-IsSound now s h)))))

active_of-states :
    (task_id : ℕ) (slot : Option ℕ) (s : Store) → (active_of task_id slot s).1.states ≡ s.states
unfolding active_of
active_of-states task_id none s = refl
active_of-states task_id (some id) s = elim (Option-cases (Dict.get id s.states)) [
  | inl missing ↦ ground arith
  | inr (state, found) ↦ ground arith
]

active_of-Keeps : (task_id : ℕ) (slot : Option ℕ) → Keeps Any (active_of task_id slot)
active_of-Keeps task_id slot s h = (
  λ id state found. h id state (ap (Dict.get id) (sym (active_of-states task_id slot s)) ∙ found),
  λ a returned. tt,
)

pub get_active-Keeps : (now : Now) (task : ℤ) → Keeps Any (get_active now task)
unfolding get_active
get_active-Keeps now task =
    Keeps-check (positive_id chat_stream_invalid_task_id task) _ (λ task_id e0.
      Keeps-bind (modify (cleanup_expired now))
        (λ u s. active_of task_id (Dict.get task_id s.active_by_task) s)
        (Keeps-modify (cleanup_expired now) (cleanup_expired-IsSound now))
        (λ u any s h. active_of-Keeps task_id (Dict.get task_id s.active_by_task) s h))

abbrev ended : ℕ → ℕ → Text → Store → Store
ended task_id id generation s =
    if is_active_for id (Dict.get task_id s.active_by_task)
      && is_own task_id generation (Dict.get id s.states)
    then record s {
      active_by_task = Dict.pop task_id s.active_by_task;
      states = Dict.pop id s.states;
    }
    else s

ended-IsSound :
    (task_id id : ℕ) (generation : Text) (s : Store)
    → IsSound s
    → IsSound (ended task_id id generation s)
ended-IsSound task_id id generation s h =
    elim (is_active_for id (Dict.get task_id s.active_by_task)
        && is_own task_id generation (Dict.get id s.states))
      as (λ b. IsSound (
        if b
        then record s {
          active_by_task = Dict.pop task_id s.active_by_task;
          states = Dict.pop id s.states;
        }
        else s)) [ true ↦ pop-IsSound s id (Dict.pop task_id s.active_by_task) h | false ↦ h ]

pub finalize-Keeps :
    (now : Now) (task subtask : ℤ) (generation : Text)
    → Keeps Any (finalize now task subtask generation)
unfolding finalize
finalize-Keeps now task subtask generation =
    Keeps-check (positive_id chat_stream_invalid_task_id task) _ (λ task_id e0.
      Keeps-check (positive_id chat_stream_invalid_subtask_id subtask) _ (λ id e1.
        Keeps-check (check_generation_id generation) _ (λ u e2 s h. (
          ended-IsSound task_id id generation (cleanup_expired now s)
              (cleanup_expired-IsSound now s h),
          λ a returned. tt,
        ))))
