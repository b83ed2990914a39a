-- ===== src/Contexts/Runs.antt =====
-- Any order of the operations on contexts.
use auto_reign.Prelude.{ℕ, ◌≡◌, sym, ◌∙◌, ap, inl, inr, Option, List, [], ◌∷◌, Text, nat_key, In}
use auto_reign.Tasks.Members.{In-append, append-In_left}
use auto_reign.Contexts.Rows.{ContextStatus, SubtaskContext}
use auto_reign.Contexts.Operations.{
  Draft, draft_row, create_draft, bind_drafts, delete_draft, mark_parsed, mark_failed,
}
use auto_reign.Contexts.Bindings.{
  Rows, HasKeys, Safe, Safe-refl, delete_draft-Safe, mark_parsed-Safe, mark_failed-Safe,
}
use auto_reign.Contexts.Requests.{bind_drafts-Bound}

pub data Step : Rows → Rows → Type 0 where
  created :
      (id now user_id : ℕ) (d : Draft) (rows : Rows)
      → ((x : SubtaskContext) → In x rows → ¬ (x.id ≡ id))
      → Step rows (create_draft id now user_id d rows).1
  was_bound :
      (user_id : ℕ) (ids : List ℕ) (subtask_id : ℕ) (rows : Rows)
      → Step rows (bind_drafts user_id ids subtask_id rows).1
  deleted :
      (user_id context_id : ℕ) (rows : Rows) → Step rows (delete_draft user_id context_id rows).1
  was_parsed :
      (user_id context_id : ℕ) (text : Option Text) (status : ContextStatus) (rows : Rows)
      → Step rows (mark_parsed user_id context_id text status rows).1
  has_failed :
      (user_id context_id : ℕ) (code : Text) (rows : Rows)
      → Step rows (mark_failed user_id context_id code rows).1

pub data Run : Rows → Rows → Type 0 where
  rest : (rows : Rows) → Run rows rows
  go_on : (rows next after : Rows) → Step rows next → Run next after → Run rows after

create_draft-Safe :
    (id now user_id : ℕ) (d : Draft) (rows : Rows)
    → HasKeys rows
    → ((x : SubtaskContext) → In x rows → ¬ (x.id ≡ id))
    → Safe rows (create_draft id now user_id d rows).1
unfolding create_draft
create_draft-Safe id now user_id d rows keys fresh =
    let row = draft_row id now user_id d in
    record {
      keeps = λ x member h. append-In_left x rows (row ∷ []) member;
      keys = λ x y x_in y_in same. elim (In-append x rows (row ∷ []) x_in) [
        | inl x_before ↦ elim (In-append y rows (row ∷ []) y_in) [
          | inl y_before ↦ keys x y x_before y_before same
          | inr (inl y_last) ↦
              absurd (fresh x x_before (same ∙ ap (λ (c : SubtaskContext). c.id) y_last))
          | inr (inr none_left) ↦ absurd none_left
        ]
        | inr (inl x_last) ↦ elim (In-append y rows (row ∷ []) y_in) [
          | inl y_before ↦
              absurd (fresh y y_before (sym same ∙ ap (λ (c : SubtaskContext). c.id) x_last))
          | inr (inl y_last) ↦ x_last ∙ sym y_last
          | inr (inr none_left) ↦ absurd none_left
        ]
        | inr (inr none_left) ↦ absurd none_left
      ];
    }

bind_drafts-Safe :
    (user_id : ℕ) (ids : List ℕ) (subtask_id : ℕ) (rows : Rows)
    → HasKeys rows
    → Safe rows (bind_drafts user_id ids subtask_id rows).1
bind_drafts-Safe user_id ids subtask_id rows keys =
    elim (bind_drafts-Bound user_id ids subtask_id rows keys) [
      | inl (ordered, after, returned, b) ↦ rw returned b.safe
      | inr raised ↦ rw raised (Safe-refl rows keys)
    ]

Step-Safe : (rows after : Rows) → HasKeys rows → Step rows after → Safe rows after
Step-Safe rows _ keys (created id now user_id d _ fresh) =
    create_draft-Safe id now user_id d rows keys fresh
Step-Safe rows _ keys (was_bound user_id ids subtask_id _) =
    bind_drafts-Safe user_id ids subtask_id rows keys
Step-Safe rows _ keys (deleted user_id context_id _) =
    delete_draft-Safe user_id context_id rows keys
Step-Safe rows _ keys (was_parsed user_id context_id text status _) =
    mark_parsed-Safe user_id context_id text status rows keys
Step-Safe rows _ keys (has_failed user_id context_id code _) =
    mark_failed-Safe user_id context_id code rows keys

-- From rows with unique ids, whatever sequence of operations follows, whether they raise or not: ids
-- stay unique, and every context that is bound to a message is still there as it was.
pub Run-Safe : (rows after : Rows) → HasKeys rows → Run rows after → Safe rows after
Run-Safe rows _ keys (rest _) = Safe-refl rows keys
Run-Safe rows after keys (go_on _ next _ step run) =
    let one = Step-Safe rows next keys step in
    let more = Run-Safe next after one.keys run in
    record { keeps = λ x member h. more.keeps x (one.keeps x member h) h; keys = more.keys }
