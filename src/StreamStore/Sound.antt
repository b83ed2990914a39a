-- ===== src/StreamStore/Sound.antt =====
-- The offsets of the streams against their texts (chat_stream_memory.py).
use auto_reign.Prelude.{
  ℕ, ◌+◌, ◌≡◌, refl, Bool, true, false, some, [], ◌∷◌, ◌++◌, Text, Result, ok, err, pos, leb,
  nat_beq, nat_key, text_key, ◌==◌, if◌then◌else◌, arith, Bool-cases, inl, inr, Result-cases,
}
use auto_reign.Prelude.Dict
use auto_reign.Prelude.Dict.{Dict, get-put, get-pop}
use auto_reign.Prelude.Exec.{Exec, modify, ensure, lift, ◌>>=◌}
use auto_reign.Prelude.Options.{Option-cases}
use auto_reign.TextOffsets.{advance_utf16_offset, utf16_code_units}
use auto_reign.TextOffsets.Laws.{js_length, js_length-append, advance-ok}
use auto_reign.Datetime.{timestamp}
use auto_reign.StreamStore.State.{
  StreamError, chat_stream_stale_generation, Now, MemoryState, Store, is_active_for, remove_state,
  remove_expired, cleanup_expired, live_state, active_state, owned_state, write_state, touch,
}
use auto_reign.StreamStore.Operations.{append_content}

-- What holds of the state that is kept under an id.
pub record IsSoundState (id : ℕ) (state : MemoryState) : Type 0 where
  pub measured : state.offset ≡ js_length state.cached_content
  pub keyed : state.subtask_id ≡ id

abbrev pub IsSound : Store → Type 0
IsSound s =
    (id : ℕ) (state : MemoryState) → Dict.get id s.states ≡ some state → IsSoundState id state

-- A method that keeps the store sound, and what holds of what it returns.
abbrev pub Keeps : {A : Type 0} → (A → Type 0) → Exec Store StreamError A → Type 0
Keeps {A} P m = (s : Store) → IsSound s → IsSound (m s).1 × ((a : A) → (m s).0 ≡ ok a → P a)

abbrev pub Any : {A : Type 0} → A → Type 0
Any a = Unit

pub Keeps-bind :
    {A B : Type 0} {P : A → Type 0} {Q : B → Type 0} (m : Exec Store StreamError A)
    (f : A → Exec Store StreamError B)
    → Keeps P m
    → ((a : A) → P a → Keeps Q (f a))
    → Keeps Q (m >>= f)
Keeps-bind m f first rest s h = elim (Result-cases (m s).0) [
  | inl (a, e) ↦ rw e (rest a ((first s h).1 a e) (m s).1 (first s h).0)
  | inr (raised, e) ↦ rw e ((first s h).0, λ a returned. ground arith)
]

pub Keeps-lift :
    {A F : Type 0} (f : F → StreamError) (r : Result F A) → Keeps (λ a. r ≡ ok a) (lift f r)
Keeps-lift f (ok a) s h = (h, λ b returned. ground arith)
Keeps-lift f (err e) s h = (h, λ b returned. ground arith)

pub Keeps-ensure : (test : Bool) (e : StreamError) → Keeps Any (ensure test e)
Keeps-ensure true e s h = (h, λ a returned. tt)
Keeps-ensure false e s h = (h, λ a returned. tt)

pub Keeps-modify :
    (f : Store → Store) → ((s : Store) → IsSound s → IsSound (f s)) → Keeps Any (modify f)
Keeps-modify f keeps s h = (keeps s h, λ a returned. tt)

pub pop-IsSound :
    (s : Store) (k : ℕ) (slots : Dict ℕ ℕ)
    → IsSound s
    → IsSound (record s { states = Dict.pop k s.states; active_by_task = slots })
pop-IsSound s k slots h id state found = h id state (ground (arith, get-pop k id s.states))

pub put-IsSound :
    (s : Store) (k : ℕ) (new : MemoryState) (slots : Dict ℕ ℕ)
    → IsSound s
    → IsSoundState k new
    → IsSound (record s { states = Dict.put k new s.states; active_by_task = slots })
put-IsSound s k new slots h sound id state found = elim (Bool-cases (nat_beq id k)) [
  | inl same ↦ ground (arith, get-put k id new s.states, sound.measured, sound.keyed)
  | inr other ↦ h id state (ground (arith, get-put k id new s.states))
]

pub remove_state-IsSound :
    (state : MemoryState) (s : Store) → IsSound s → IsSound (remove_state state s)
unfolding remove_state
remove_state-IsSound state s h =
    pop-IsSound s state.subtask_id (remove_state state s).active_by_task h

remove_expired-IsSound :
    (now : Now) (states : Dict ℕ MemoryState) (s : Store)
    → IsSound s
    → IsSound (remove_expired now states s)
unfolding remove_expired
remove_expired-IsSound now [] s h = h
remove_expired-IsSound now ((id, state) ∷ rest) s h =
    remove_expired-IsSound now rest
      (if leb state.expires_at now.instant then remove_state state s else s)
      (elim (leb state.expires_at now.instant)
        as (λ b. IsSound (if b then remove_state state s else s)) [
          | true ↦ remove_state-IsSound state s h
          | false ↦ h
        ])

pub cleanup_expired-IsSound : (now : Now) (s : Store) → IsSound s → IsSound (cleanup_expired now s)
unfolding cleanup_expired
cleanup_expired-IsSound now s h = remove_expired-IsSound now s.states s h

live_state-Keeps :
    (id : ℕ) (now : Now) (state : MemoryState)
    → IsSoundState id state
    → Keeps (IsSoundState id) (live_state id now state)
unfolding live_state
live_state-Keeps id now state sound s h = elim (Bool-cases (leb state.expires_at now.instant)) [
  | inl expired ↦ rw expired (remove_state-IsSound state s h, λ a returned. ground arith)
  | inr live ↦ elim (Bool-cases (is_active_for id (Dict.get state.task_id s.active_by_task))) [
    | inl active ↦ rw (live, active) (h, λ a returned. ground (arith, sound.measured, sound.keyed))
    | inr other ↦ rw (live, other) (h, λ a returned. ground arith)
  ]
]

pub active_state-Keeps : (id : ℕ) (now : Now) → Keeps (IsSoundState id) (active_state id now)
unfolding active_state
active_state-Keeps id now s h = elim (Option-cases (Dict.get id s.states)) [
  | inl missing ↦ rw missing (h, λ a returned. ground arith)
  | inr (state, found) ↦ rw found (live_state-Keeps id now state (h id state found) s h)
]

pub owned_state-Keeps :
    (id : ℕ) (generation_id : Text) (now : Now)
    → Keeps (IsSoundState id) (owned_state id generation_id now)
unfolding owned_state
owned_state-Keeps id generation_id now =
    Keeps-bind (active_state id now) _ (active_state-Keeps id now) (λ state sound.
      Keeps-bind (ensure (state.generation_id == generation_id) chat_stream_stale_generation) _
        (Keeps-ensure (state.generation_id == generation_id) chat_stream_stale_generation)
        (λ u any s h. (h, λ a returned. ground (arith, sound.measured, sound.keyed))))

write_state-Keeps :
    (id : ℕ) (state : MemoryState) → IsSoundState id state → Keeps Any (write_state id state)
unfolding write_state
write_state-Keeps id state sound s h =
    (put-IsSound s id state s.active_by_task h sound, λ a returned. tt)

pub touch-Keeps :
    (id : ℕ) (now : Now) (state : MemoryState)
    → IsSoundState id state
    → Keeps Any (touch id now state)
unfolding touch
touch-Keeps id now state sound s h =
    write_state-Keeps id
      (record state { last_activity_at = timestamp now.moment; expires_at = now.instant + s.ttl })
      (record { measured = sound.measured; keyed = sound.keyed }) s h

advance-counted :
    (offset units : ℕ) (content : Text)
    → utf16_code_units content ≡ ok units
    → advance_utf16_offset (pos offset) content ≡ ok (offset + units)
unfolding advance_utf16_offset
advance-counted offset units content counted = rw counted refl

rewritten-IsSound :
    (s : Store) (k : ℕ) (between new : MemoryState)
    → IsSound s
    → IsSoundState k new
    → IsSound (record s { states = Dict.put k new (Dict.put k between s.states) })
rewritten-IsSound s k between new h sound id state found = elim (Bool-cases (nat_beq id k)) [
  | inl same ↦
      ground (arith, get-put k id new (Dict.put k between s.states), sound.measured, sound.keyed)
  | inr other ↦ h id state (
      ground (arith, get-put k id new (Dict.put k between s.states), get-put k id between s.states))
]

-- The text is written before its length, but the check of the text has counted it: the length is
-- always written too.
pub append_content-Keeps :
    (now : Now) (id offset units : ℕ) (content : Text) (state : MemoryState)
    → IsSoundState id state
    → utf16_code_units content ≡ ok units
    → Keeps Any (append_content now id offset content state)
unfolding append_content write_state touch
append_content-Keeps now id offset units content state sound counted s h =
    let advanced : advance_utf16_offset (pos state.offset) content ≡ ok (state.offset + units) =
      advance-counted state.offset units content counted in
    elim (Bool-cases (nat_beq state.offset offset)) [
      | inr elsewhere ↦ rw elsewhere (h, λ a returned. tt)
      | inl here ↦
          rw (here, advanced)
            (
              rewritten-IsSound s id
                  (record state { cached_content = state.cached_content ++ content }) _ h
                  (record {
                    measured = rw (js_length-append state.cached_content content) (
                        omega (
                          arith,
                          sound.measured,
                          ((advance-ok state.offset (state.offset + units) content).0 advanced).1,
                        ));
                    keyed = sound.keyed;
                  }),
              λ a returned. tt,
            )
    ]
