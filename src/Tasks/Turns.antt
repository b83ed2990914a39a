-- ===== src/Tasks/Turns.antt =====
-- The ids and numbers of the messages of a new turn (create_turn of task_repository.py).
use auto_reign.Prelude.{
  ℕ, ◌≤◌, ◌≡◌, refl, sym, ◌∙◌, ap, subst, ◌⊎◌, inl, inr, max, true, Option, none, some, List, [],
  ◌∷◌, ◌++◌, Text, nat_beq, nat_beq_iff, arith, Bool-cases, append_assoc,
}
use auto_reign.Tasks.Rows.{Task, Subtask, Tables}
use auto_reign.Tasks.Writes.{user_row, assistant_row, larger, or_zero, max_message_id, create_turn}
use auto_reign.Tasks.Members.{In, In-append}
use auto_reign.Tasks.Evolution.{IsKeyed, added}
use auto_reign.Tasks.Steps.{Changes}

-- An id that no row has.
abbrev pub IsFresh : ℕ → List Subtask → Type 0
IsFresh id rows = (x : Subtask) → In x rows → ¬ (x.id ≡ id)

-- A message behind those of its task.
abbrev pub IsNew : Subtask → List Subtask → Type 0
IsNew a rows = (x : Subtask) → In x rows → x.task_id ≡ a.task_id → ¬ (x.message_id ≡ a.message_id)

larger-or_zero : (m : Option ℕ) (n : ℕ) → or_zero (larger m n) ≡ max (or_zero m) n
larger-or_zero none n = omega arith
larger-or_zero (some m) n = refl

pub max_message_id-above :
    (task_id : ℕ) (x : Subtask) (rows : List Subtask)
    → In x rows
    → x.task_id ≡ task_id
    → x.message_id ≤ or_zero (max_message_id task_id rows)
unfolding max_message_id
max_message_id-above task_id x [] h same_task = elim h [ ]
max_message_id-above task_id x (s ∷ rows) (inl here) same_task =
    let picked : nat_beq s.task_id task_id ≡ true =
      (nat_beq_iff s.task_id task_id).1 (sym (ap (λ (s : Subtask). s.task_id) here) ∙ same_task) in
    let number : x.message_id ≡ s.message_id = ap (λ (s : Subtask). s.message_id) here in
    rw (picked, larger-or_zero (max_message_id task_id rows) s.message_id, number) (omega arith)
max_message_id-above task_id x (s ∷ rows) (inr later) same_task =
    let below = max_message_id-above task_id x rows later same_task in
    elim (Bool-cases (nat_beq s.task_id task_id)) [
      | inr other ↦ rw other below
      | inl picked ↦
          rw (picked, larger-or_zero (max_message_id task_id rows) s.message_id) (omega arith)
    ]

In-last : (x a : Subtask) (rows : List Subtask) → In x (rows ++ (a ∷ [])) → In x rows ⊎ (x ≡ a)
In-last x a rows h = elim (In-append x rows (a ∷ []) h) [
  | inl before ↦ inl before
  | inr (inl last) ↦ inr last
  | inr (inr nothing) ↦ elim nothing [ ]
]

append-IsKeyed :
    (a : Subtask) (rows : List Subtask)
    → IsKeyed rows
    → IsFresh a.id rows
    → IsNew a rows
    → IsKeyed (rows ++ (a ∷ []))
append-IsKeyed a rows keyed fresh new = record {
  primary = λ x y x_in y_in same_id. elim (In-last x a rows x_in) [
    | inl x_before ↦ elim (In-last y a rows y_in) [
      | inl y_before ↦ keyed.primary x y x_before y_before same_id
      | inr y_last ↦ absurd (fresh x x_before (same_id ∙ ap (λ (s : Subtask). s.id) y_last))
    ]
    | inr x_last ↦ elim (In-last y a rows y_in) [
      | inl y_before ↦ absurd (fresh y y_before (sym same_id ∙ ap (λ (s : Subtask). s.id) x_last))
      | inr y_last ↦ x_last ∙ sym y_last
    ]
  ];
  messages = λ x y x_in y_in same_task same_message. elim (In-last x a rows x_in) [
    | inl x_before ↦ elim (In-last y a rows y_in) [
      | inl y_before ↦ keyed.messages x y x_before y_before same_task same_message
      | inr y_last ↦ absurd (
          new x x_before (same_task ∙ ap (λ (s : Subtask). s.task_id) y_last)
            (same_message ∙ ap (λ (s : Subtask). s.message_id) y_last))
    ]
    | inr x_last ↦ elim (In-last y a rows y_in) [
      | inl y_before ↦ absurd (
          new y y_before (sym same_task ∙ ap (λ (s : Subtask). s.task_id) x_last)
            (sym same_message ∙ ap (λ (s : Subtask). s.message_id) x_last))
      | inr y_last ↦ x_last ∙ sym y_last
    ]
  ];
}

pub create_turn-Changes :
    (user_row_id assistant_row_id now : ℕ) (task : Task) (prompt : Text) (db : Tables)
    → IsKeyed db.subtasks
    → IsFresh user_row_id db.subtasks
    → IsFresh assistant_row_id db.subtasks
    → ¬ (user_row_id ≡ assistant_row_id)
    → Changes db (create_turn user_row_id assistant_row_id now task prompt db).1
unfolding create_turn
create_turn-Changes user_row_id assistant_row_id now task prompt db keyed fresh_user fresh_assistant
      apart =
    let rows = db.subtasks in
    let previous = max_message_id task.id rows in
    let first = user_row user_row_id now task previous prompt in
    let second = assistant_row assistant_row_id task previous in
    let one : IsKeyed (rows ++ (first ∷ [])) =
      append-IsKeyed first rows keyed fresh_user (λ x member same_task same_message.
        let below = max_message_id-above task.id x rows member same_task in omega arith) in
    let two : IsKeyed ((rows ++ (first ∷ [])) ++ (second ∷ [])) =
      append-IsKeyed second (rows ++ (first ∷ [])) one
        (λ x member same_id. elim (In-last x first rows member) [
          | inl before ↦ fresh_assistant x before same_id
          | inr last ↦ apart (sym (ap (λ (s : Subtask). s.id) last) ∙ same_id)
        ])
        (λ x member same_task same_message. elim (In-last x first rows member) [
          | inl before ↦
              let below = max_message_id-above task.id x rows before same_task in omega arith
          | inr last ↦
              let number : x.message_id ≡ first.message_id =
                ap (λ (s : Subtask). s.message_id) last in
              omega arith
        ]) in
    added (first ∷ second ∷ []) (subst IsKeyed (append_assoc rows (first ∷ []) (second ∷ [])) two)
      refl
