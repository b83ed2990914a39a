-- ===== src/History/Order.antt =====
-- The user's parts of the turns of `_runtime_turns`, and their order.
use auto_reign.Prelude.{
  ℕ, ◌≡◌, refl, sym, ◌∙◌, ap, inl, inr, not, Option, none, some, List, [], ◌∷◌, ◌++◌, map,
  append-nil, append_assoc, Text, ok, arith, Bool-cases, Result-cases, nat_key, if◌then◌else◌, pos,
}
use auto_reign.Prelude.Dict.{Dict}
use auto_reign.Json.{Value, decimal}
use auto_reign.Tasks.{Subtask, is_assistant, Tables, list_subtasks}
use auto_reign.Contexts.{SubtaskContext, list_runtime_for_subtasks}
use auto_reign.History.Projector.{project_assistant}
use auto_reign.History.Projection.{RuntimeUserContext, Base64}
use auto_reign.History.Turns.{
  RuntimeTaskTurn, RuntimeAssistantTurn, user_turn, answers_from, with_answers, has_turns, same_id,
  turns_of, up_to, user_ids, contexts_by_subtask, runtime_turns,
}

-- What the user asked in a turn.
abbrev pub asked_in : RuntimeTaskTurn → Text × Text
asked_in turn = (turn.user.message_id, turn.user.text)

abbrev pub asked_by : List Subtask → List (Text × Text)
asked_by [] = []
asked_by (s ∷ subtasks) =
    let rest = asked_by subtasks in
    if not (is_assistant s.role) then (decimal (pos s.id), s.prompt) ∷ rest else rest

with_answers-asked :
    (answers : List RuntimeAssistantTurn) (turns : List RuntimeTaskTurn)
    → map asked_in (with_answers answers turns) ≡ map asked_in turns
unfolding with_answers
with_answers-asked answers [] = refl
with_answers-asked answers (turn ∷ []) = refl
with_answers-asked answers (turn ∷ next ∷ turns) =
    ap (λ later. asked_in turn ∷ later) (with_answers-asked answers (next ∷ turns))

map-append-last :
    (turns : List RuntimeTaskTurn) (turn : RuntimeTaskTurn)
    → map asked_in (turns ++ (turn ∷ [])) ≡ map asked_in turns ++ (asked_in turn ∷ [])
map-append-last [] turn = refl
map-append-last (t ∷ turns) turn = ap (λ later. asked_in t ∷ later) (map-append-last turns turn)

turns_of-asked :
    (loads : Text → Option Value) (contexts : Dict ℕ (List RuntimeUserContext))
    (subtasks : List Subtask) (turns result : List RuntimeTaskTurn) (current : Option ℕ)
    → turns_of loads contexts subtasks turns current ≡ ok result
    → map asked_in result ≡ map asked_in turns ++ asked_by subtasks
unfolding turns_of
turns_of-asked loads contexts [] turns result current h =
    let same : result ≡ turns = ground arith in
    ap (λ ts. map asked_in ts) same ∙ sym (append-nil (map asked_in turns))
turns_of-asked loads contexts (s ∷ subtasks) turns result current h =
    elim (Bool-cases (not (is_assistant s.role))) [
      | inl user ↦
          let next = user_turn contexts s in
          let rest =
            turns_of-asked loads contexts subtasks (turns ++ (next ∷ [])) result (some s.message_id)
              (ground arith) in
          rw user (
            rest
            ∙ (ap (λ asked. asked ++ asked_by subtasks) (map-append-last turns next)
                ∙ append_assoc (map asked_in turns) (asked_in next ∷ []) (asked_by subtasks)))
      | inr answer ↦ elim (Bool-cases (not (has_turns turns))) [
        | inl before_any ↦
            rw answer (turns_of-asked loads contexts subtasks turns result current (ground arith))
        | inr later ↦ elim (Bool-cases (same_id s.parent_id current)) [
          | inr other ↦ ground arith
          | inl parent ↦
              let answers = answers_from s.id 0 (project_assistant loads s.status s.result) in
              let rest =
                turns_of-asked loads contexts subtasks (with_answers answers turns) result current
                  (ground arith) in
              rw answer
                (rest ∙ ap (λ asked. asked ++ asked_by subtasks) (with_answers-asked answers turns))
        ]
      ]
    ]

-- Where the turns of a task are made, their user's parts are the user's messages up to the given one,
-- each with its own text, in the order of the messages: none is left out and none comes twice.
pub runtime_turns-asked :
    (base64 : Base64) (loads : Text → Option Value) (user_id task_id cutoff current : ℕ)
    (db : Tables) (contexts : List SubtaskContext) (turns : List RuntimeTaskTurn)
    → runtime_turns base64 loads user_id task_id cutoff current db contexts ≡ ok turns
    → map asked_in turns ≡ asked_by (up_to cutoff (list_subtasks user_id task_id none db))
unfolding runtime_turns
runtime_turns-asked base64 loads user_id task_id cutoff current db contexts turns h =
    let subtasks = up_to cutoff (list_subtasks user_id task_id none db) in
    elim (Result-cases (
      contexts_by_subtask base64 current
        (list_runtime_for_subtasks user_id (user_ids subtasks) contexts) [])) [
          | inr (e, raised) ↦ ground arith
          | inl (by_subtask, returned) ↦
              turns_of-asked loads by_subtask subtasks [] turns none (rw returned at h)
        ]
