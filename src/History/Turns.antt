-- ===== src/History/Turns.antt =====
-- `_runtime_turns`: a task's rows up to a message, as the turns of its user with the answers to each.
use auto_reign.Prelude.{
  ℕ, suc, Bool, true, false, not, Option, none, some, List, [], ◌∷◌, ◌++◌, Text, codes, Result, ok,
  err, ◌>>=◌, leb, nat_beq, nat_key, if◌then◌else◌, text_key, ◌==◌, pos,
}
use auto_reign.Prelude.Dict
use auto_reign.Prelude.Dict.{Dict}
use auto_reign.Json.{Value, str, array, object, Items, nil, cons, get_field, decimal}
use auto_reign.Tasks.{Subtask, is_assistant, Tables, list_subtasks}
use auto_reign.Contexts.{SubtaskContext, SubtaskRuntimeContextProjection, list_runtime_for_subtasks}
use auto_reign.History.Projector.{project_assistant}
use auto_reign.History.Projection.{
  TurnError, history_invalid, RuntimeUserContext, Base64, project_runtime_contexts,
}

pub record RuntimeUserTurn : Type 0 where
  pub message_id : Text
  pub text : Text
  pub contexts : List RuntimeUserContext

pub record RuntimeAssistantTurn : Type 0 where
  pub message_id : Text
  pub text : Text

pub record RuntimeTaskTurn : Type 0 where
  pub user : RuntimeUserTurn
  pub assistants : List RuntimeAssistantTurn

text_of_block : Value → Text
text_of_block (object block) = elim (get_field (codes "text") block) [
  | none ↦ []
  | some v ↦ elim v [ str s ↦ s | _ ↦ [] ]
]
text_of_block _ = []

texts_of_blocks : Items → Text
unfolding text_of_block
texts_of_blocks nil = []
texts_of_blocks (cons block items) = text_of_block block ++ texts_of_blocks items

-- `_projected_assistant_text`
unfoldable pub projected_assistant_text : Option Value → Text
unfolding texts_of_blocks
projected_assistant_text (some (str s)) = s
projected_assistant_text (some (array items)) = texts_of_blocks items
projected_assistant_text _ = []

abbrev is_str : Text → Option Value → Bool
is_str s (some (str t)) = t == s
is_str s _ = false

abbrev answer_text : Value → Option Text
answer_text (object message) =
    if is_str (codes "assistant") (get_field (codes "role") message)
    then some (projected_assistant_text (get_field (codes "content") message))
    else none
answer_text _ = none

abbrev with_answer : ℕ → ℕ → Option Text → List RuntimeAssistantTurn → List RuntimeAssistantTurn
with_answer id index none rest = rest
with_answer id index (some []) rest = rest
with_answer id index (some (c ∷ s)) rest =
    record { message_id = decimal (pos id) ++ (codes ":" ++ decimal (pos index)); text = c ∷ s }
    ∷ rest

-- The answers among the messages, each with its index; those without a text are left out.
unfoldable pub answers_from : ℕ → ℕ → List Value → List RuntimeAssistantTurn
answers_from id index [] = []
answers_from id index (message ∷ messages) =
    with_answer id index (answer_text message) (answers_from id (suc index) messages)

-- contexts_by_subtask.setdefault(row.subtask_id, []).extend(projected)
abbrev pub contexts_at : ℕ → Dict ℕ (List RuntimeUserContext) → List RuntimeUserContext
contexts_at id d = elim (Dict.get id d) [ none ↦ [] | some contexts ↦ contexts ]

abbrev extend :
    ℕ
    → List RuntimeUserContext
    → Dict ℕ (List RuntimeUserContext)
    → Dict ℕ (List RuntimeUserContext)
extend id [] d = d
extend id (context ∷ contexts) d = Dict.put id (contexts_at id d ++ (context ∷ contexts)) d

unfoldable pub contexts_by_subtask :
    Base64
    → ℕ
    → List SubtaskRuntimeContextProjection
    → Dict ℕ (List RuntimeUserContext)
    → Result TurnError (Dict ℕ (List RuntimeUserContext))
contexts_by_subtask base64 current [] d = ok d
contexts_by_subtask base64 current (row ∷ rows) d = do
  projected ← project_runtime_contexts base64 row (nat_beq row.subtask_id current)
  contexts_by_subtask base64 current rows (extend row.subtask_id projected d)

-- The last turn gets the answers.
unfoldable pub with_answers :
    List RuntimeAssistantTurn → List RuntimeTaskTurn → List RuntimeTaskTurn
with_answers answers [] = []
with_answers answers (turn ∷ []) = record turn { assistants = turn.assistants ++ answers } ∷ []
with_answers answers (turn ∷ next ∷ turns) = turn ∷ with_answers answers (next ∷ turns)

abbrev pub user_turn : Dict ℕ (List RuntimeUserContext) → Subtask → RuntimeTaskTurn
user_turn contexts s = record {
  user = record {
    message_id = decimal (pos s.id);
    text = s.prompt;
    contexts = contexts_at s.id contexts;
  };
  assistants = [];
}

abbrev pub same_id : Option ℕ → Option ℕ → Bool
same_id none none = true
same_id (some a) (some b) = nat_beq a b
same_id _ _ = false

abbrev pub has_turns : List RuntimeTaskTurn → Bool
has_turns [] = false
has_turns (turn ∷ turns) = true

-- The loop over the subtasks, with `turns` and `current_user_message_id`.
unfoldable pub turns_of :
    (Text → Option Value)
    → Dict ℕ (List RuntimeUserContext)
    → List Subtask
    → List RuntimeTaskTurn
    → Option ℕ
    → Result TurnError (List RuntimeTaskTurn)
turns_of loads contexts [] turns current = ok turns
turns_of loads contexts (s ∷ subtasks) turns current =
    let as_user =
      turns_of loads contexts subtasks (turns ++ (user_turn contexts s ∷ [])) (some s.message_id) in
    let before_any = turns_of loads contexts subtasks turns current in
    let answered =
      turns_of loads contexts subtasks
        (with_answers (answers_from s.id 0 (project_assistant loads s.status s.result)) turns)
        current in
    if not (is_assistant s.role)
    then as_user
    else (if not (has_turns turns)
        then before_any
        else (if same_id s.parent_id current then answered else err history_invalid))

abbrev pub up_to : ℕ → List Subtask → List Subtask
up_to cutoff [] = []
up_to cutoff (s ∷ subtasks) =
    let rest = up_to cutoff subtasks in if leb s.message_id cutoff then s ∷ rest else rest

abbrev pub user_ids : List Subtask → List ℕ
user_ids [] = []
user_ids (s ∷ subtasks) =
    if is_assistant s.role then user_ids subtasks else s.id ∷ user_ids subtasks

unfoldable pub runtime_turns :
    Base64
    → (Text → Option Value)
    → ℕ
    → ℕ
    → ℕ
    → ℕ
    → Tables
    → List SubtaskContext
    → Result TurnError (List RuntimeTaskTurn)
runtime_turns base64 loads user_id task_id cutoff current db contexts = do
  let subtasks = up_to cutoff (list_subtasks user_id task_id none db)
  by_subtask ←
      contexts_by_subtask base64 current
        (list_runtime_for_subtasks user_id (user_ids subtasks) contexts) []
  turns_of loads by_subtask subtasks [] none
