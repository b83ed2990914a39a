-- ===== src/Tasks/Runs.antt =====
-- Any order of the repository's operations.
use auto_reign.Prelude.{
  ℕ, ◌≡◌, refl, sym, ◌∙◌, subst, true, Option, none, some, List, [], ◌∷◌, Text, arith,
}
use auto_reign.Json.{Value}
use auto_reign.Tasks.Rows.{Status, Task, Subtask, Tables}
use auto_reign.Tasks.Writes.{
  create_task, create_turn, mark_running, finish_assistant, cancel_assistant, fail_active_assistant,
  require_task, task_or_error, reset_failed_assistant,
}
use auto_reign.Tasks.Edits.{
  rename, delete_found, soft_delete, update_if_terminal, soft_delete_if_terminal,
  set_model_override, set_model_override_if_terminal, recover_interrupted,
}
use auto_reign.Tasks.Evolution.{
  Evolved, EvolvedRows, IsKeyed, same, is_settled, Change-EvolvedRows, Change-IsKeyed,
}
use auto_reign.Tasks.Steps.{
  Changes, mark_running-Changes, finish_assistant-Changes, cancel_assistant-Changes,
  fail_active_assistant-Changes, reset_failed_assistant-Changes,
}
use auto_reign.Tasks.Recovery.{recover_interrupted-Changes}
use auto_reign.Tasks.Turns.{IsFresh, create_turn-Changes}

-- One call of the repository, whether it raises or not. The database gives new rows ids of their own.
pub data Step : Tables → Tables → Type 0 where
  task_created :
      (id now user_id : ℕ) (agent_id : Option Text) (name : Text) (model : Option Value)
      (db : Tables)
      → Step db (create_task id now user_id agent_id name model db).1
  turn_created :
      (user_row_id assistant_row_id now : ℕ) (task : Task) (prompt : Text) (db : Tables)
      → IsFresh user_row_id db.subtasks
      → IsFresh assistant_row_id db.subtasks
      → ¬ (user_row_id ≡ assistant_row_id)
      → Step db (create_turn user_row_id assistant_row_id now task prompt db).1
  marked_running :
      (now user_id subtask_id : ℕ) (db : Tables)
      → Step db (mark_running now user_id subtask_id db).1
  finished :
      (now user_id subtask_id : ℕ) (status : Status) (result : Option Value) (message : Option Text)
      (db : Tables)
      → Step db (finish_assistant now user_id subtask_id status result message db).1
  was_cancelled :
      (now user_id subtask_id : ℕ) (result : Option Value) (db : Tables)
      → Step db (cancel_assistant now user_id subtask_id result db).1
  has_failed :
      (now user_id task_id subtask_id : ℕ) (result : Option Value) (message : Text) (db : Tables)
      → Step db (fail_active_assistant now user_id task_id subtask_id result message db).1
  was_reset :
      (now user_id task_id subtask_id : ℕ) (db : Tables)
      → Step db (reset_failed_assistant now user_id task_id subtask_id db).1
  renamed :
      (now user_id task_id : ℕ) (name : Text) (db : Tables)
      → Step db (rename now user_id task_id name db).1
  deleted : (now user_id task_id : ℕ) (db : Tables) → Step db (soft_delete now user_id task_id db).1
  deleted_at_rest :
      (now user_id task_id : ℕ) (db : Tables)
      → Step db (soft_delete_if_terminal now user_id task_id db).1
  model_set :
      (now user_id task_id : ℕ) (model : Option Value) (db : Tables)
      → Step db (set_model_override now user_id task_id model db).1
  model_set_at_rest :
      (now user_id task_id : ℕ) (model : Option Value) (db : Tables)
      → Step db (set_model_override_if_terminal now user_id task_id model db).1
  recovered : (now : ℕ) (db : Tables) → Step db (recover_interrupted now db).1

pub data Run : Tables → Tables → Type 0 where
  rest : (db : Tables) → Run db db
  go_on : (db next after : Tables) → Step db next → Run next after → Run db after

delete_found-subtasks :
    (now : ℕ) (t : Option Task) (db : Tables) → (delete_found now t db).1.subtasks ≡ db.subtasks
unfolding delete_found
delete_found-subtasks now none db = refl
delete_found-subtasks now (some t) db = refl

rename-subtasks :
    (now user_id task_id : ℕ) (name : Text) (db : Tables)
    → (rename now user_id task_id name db).1.subtasks ≡ db.subtasks
unfolding rename require_task task_or_error
rename-subtasks now user_id task_id name db = ground arith

set_model_override-subtasks :
    (now user_id task_id : ℕ) (model : Option Value) (db : Tables)
    → (set_model_override now user_id task_id model db).1.subtasks ≡ db.subtasks
unfolding set_model_override require_task task_or_error
set_model_override-subtasks now user_id task_id model db = ground arith

Step-Changes : (db after : Tables) → IsKeyed db.subtasks → Step db after → Changes db after
unfolding create_task soft_delete soft_delete_if_terminal set_model_override_if_terminal
    update_if_terminal
Step-Changes db _ keyed (task_created id now user_id agent_id name model _) = same refl
Step-Changes db _ keyed
      (turn_created user_row_id assistant_row_id now task prompt _ first second apart) =
    create_turn-Changes user_row_id assistant_row_id now task prompt db keyed first second apart
Step-Changes db _ keyed (marked_running now user_id subtask_id _) =
    mark_running-Changes now user_id subtask_id db keyed
Step-Changes db _ keyed (finished now user_id subtask_id status result message _) =
    finish_assistant-Changes now user_id subtask_id status result message db keyed
Step-Changes db _ keyed (was_cancelled now user_id subtask_id result _) =
    cancel_assistant-Changes now user_id subtask_id result db keyed
Step-Changes db _ keyed (has_failed now user_id task_id subtask_id result message _) =
    fail_active_assistant-Changes now user_id task_id subtask_id result message db
Step-Changes db _ keyed (was_reset now user_id task_id subtask_id _) =
    reset_failed_assistant-Changes now user_id task_id subtask_id db keyed
Step-Changes db _ keyed (renamed now user_id task_id name _) =
    same (rename-subtasks now user_id task_id name db)
Step-Changes db _ keyed (deleted now user_id task_id _) = same (delete_found-subtasks now _ db)
Step-Changes db _ keyed (deleted_at_rest now user_id task_id _) = same refl
Step-Changes db _ keyed (model_set now user_id task_id model _) =
    same (set_model_override-subtasks now user_id task_id model db)
Step-Changes db _ keyed (model_set_at_rest now user_id task_id model _) = same refl
Step-Changes db _ keyed (recovered now _) = recover_interrupted-Changes now db keyed

-- One call leaves every message at its place with its owner, task, number, parent and prompt. Its
-- status goes on from pending, from running to anything but pending, and from failed only back to
-- pending; a completed or cancelled message does not change at all. New rows come behind the others.
pub Step-EvolvedRows :
    (db after : Tables)
    → IsKeyed db.subtasks
    → Step db after
    → EvolvedRows db.subtasks after.subtasks
Step-EvolvedRows db after keyed step =
    Change-EvolvedRows db.subtasks after.subtasks (Step-Changes db after keyed step)

pub Step-IsKeyed :
    (db after : Tables) → IsKeyed db.subtasks → Step db after → IsKeyed after.subtasks
Step-IsKeyed db after keyed step =
    Change-IsKeyed db.subtasks after.subtasks keyed (Step-Changes db after keyed step)

-- What is left of a row after any number of writes.
pub record Lasting (old new : Subtask) : Type 0 where
  pub id : new.id ≡ old.id
  pub user_id : new.user_id ≡ old.user_id
  pub task_id : new.task_id ≡ old.task_id
  pub role : new.role ≡ old.role
  pub message_id : new.message_id ≡ old.message_id
  pub parent_id : new.parent_id ≡ old.parent_id
  pub prompt : new.prompt ≡ old.prompt
  pub settled : is_settled old.status ≡ true → new ≡ old

abbrev pub LastingRows : List Subtask → List Subtask → Type 0
LastingRows [] later = Unit
LastingRows (s ∷ rows) [] = ⊥
LastingRows (s ∷ rows) (t ∷ later) = Lasting s t × LastingRows rows later

Lasting-refl : (s : Subtask) → Lasting s s
Lasting-refl s = record {
  id = refl;
  user_id = refl;
  task_id = refl;
  role = refl;
  message_id = refl;
  parent_id = refl;
  prompt = refl;
  settled = λ h. refl;
}

Lasting-after : (a b c : Subtask) → Evolved a b → Lasting b c → Lasting a c
Lasting-after a b c e l = record {
  id = l.id ∙ e.id;
  user_id = l.user_id ∙ e.user_id;
  task_id = l.task_id ∙ e.task_id;
  role = l.role ∙ e.role;
  message_id = l.message_id ∙ e.message_id;
  parent_id = l.parent_id ∙ e.parent_id;
  prompt = l.prompt ∙ e.prompt;
  settled = λ h.
      let one = e.settled h in
      l.settled (subst (λ (s : Subtask). is_settled s.status ≡ true) (sym one) h) ∙ one;
}

LastingRows-refl : (rows : List Subtask) → LastingRows rows rows
LastingRows-refl [] = tt
LastingRows-refl (s ∷ rows) = (Lasting-refl s, LastingRows-refl rows)

LastingRows-after :
    (as_ bs cs : List Subtask) → EvolvedRows as_ bs → LastingRows bs cs → LastingRows as_ cs
LastingRows-after [] bs cs e l = tt
LastingRows-after (a ∷ as_) [] cs e l = elim e [ ]
LastingRows-after (a ∷ as_) (b ∷ bs) [] e l = elim l [ ]
LastingRows-after (a ∷ as_) (b ∷ bs) (c ∷ cs) e l =
    (Lasting-after a b c e.0 l.0, LastingRows-after as_ bs cs e.1 l.1)

-- After any sequence of calls, ids and the numbers of a task's messages are still unique, every
-- message is at its place with its owner, task, role, number, parent and prompt, and a message that
-- was completed or cancelled is unchanged.
pub Run-LastingRows :
    (db after : Tables)
    → IsKeyed db.subtasks
    → Run db after
    → IsKeyed after.subtasks × LastingRows db.subtasks after.subtasks
Run-LastingRows db _ keyed (rest _) = (keyed, LastingRows-refl db.subtasks)
Run-LastingRows db after keyed (go_on _ next _ step run) =
    let (later_keyed, lasting) = Run-LastingRows next after (Step-IsKeyed db next keyed step) run in
    (
      later_keyed,
      LastingRows-after db.subtasks next.subtasks after.subtasks
          (Step-EvolvedRows db next keyed step) lasting,
    )
