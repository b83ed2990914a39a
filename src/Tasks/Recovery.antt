-- ===== src/Tasks/Recovery.antt =====
-- The recovery after a restart (recover_interrupted of repositories/task_repository.py).
use auto_reign.Prelude.{
  ℕ, ◌≡◌, refl, sym, ◌∙◌, ap, subst, inl, inr, true, List, [], ◌∷◌, ok, nat_beq, nat_beq_iff,
  nat_key, arith, Bool-cases, contains, length,
}
use auto_reign.Tasks.Rows.{Status, Task, Subtask, Tables, is_active_status, join_rows}
use auto_reign.Tasks.Writes.{with_status}
use auto_reign.Tasks.Edits.{
  is_interrupted, interrupted, subtask_ids, task_ids, broken_off, break_off, recover_rows,
  recover_interrupted,
}
use auto_reign.Tasks.Members.{In, In-where, In-join, In-update, where-In, join-In, In-nothing}
use auto_reign.Tasks.Evolution.{IsKeyed, same, updated, broken_off-Evolved}
use auto_reign.Tasks.Steps.{Changes}

selected :
    (rows : List (Subtask × Task)) (id : ℕ)
    → contains (subtask_ids rows) id ≡ true
    → (s : Subtask) × (t : Task) × In (s, t) rows × (s.id ≡ id)
selected [] id h = cc
selected ((s, t) ∷ rows) id h = elim (Bool-cases (nat_beq id s.id)) [
  | inl here ↦ (s, t, inl refl, sym ((nat_beq_iff id s.id).0 here))
  | inr other ↦
      let (a, b, member, same_id) = selected rows id (ground arith) in (a, b, inr member, same_id)
]

contains-selected :
    (rows : List (Subtask × Task)) (s : Subtask) (t : Task)
    → In (s, t) rows
    → contains (subtask_ids rows) s.id ≡ true
contains-selected [] s t h = elim h [ ]
contains-selected ((a, b) ∷ rows) s t (inl here) =
    ground (arith, ap (λ (p : Subtask × Task). p.0) here, nat_beq_iff s.id a.id)
contains-selected ((a, b) ∷ rows) s t (inr later) = ground (arith, contains-selected rows s t later)

selected_active :
    (db : Tables) (x : Subtask)
    → IsKeyed db.subtasks
    → In x db.subtasks
    → contains (subtask_ids (interrupted db)) x.id ≡ true
    → is_active_status x.status ≡ true
selected_active db x keyed member picked =
    let (s, t, found, same_id) = selected (interrupted db) x.id picked in
    let (row, holds) = In-where is_interrupted (s, t) (join_rows db.subtasks db.tasks) found in
    let (s_in, t_in) = In-join s t db.subtasks db.tasks row in
    let active : is_active_status s.status ≡ true = ground arith in
    subst (λ (y : Subtask). is_active_status y.status ≡ true)
      (keyed.primary s x s_in member same_id) active

recover_rows-Changes :
    (now : ℕ) (rows : List (Subtask × Task)) (db : Tables)
    → ((x : Subtask)
        → In x db.subtasks
        → contains (subtask_ids rows) x.id ≡ true
        → is_active_status x.status ≡ true)
    → Changes db (recover_rows now rows db).1
unfolding recover_rows
recover_rows-Changes now [] db h = same refl
recover_rows-Changes now (row ∷ rows) db h =
    updated (λ s. contains (subtask_ids (row ∷ rows)) s.id) (broken_off now)
      (λ x. (refl, refl, refl)) (λ x found picked. broken_off-Evolved now x (h x found picked)) refl

pub recover_interrupted-Changes :
    (now : ℕ) (db : Tables) → IsKeyed db.subtasks → Changes db (recover_interrupted now db).1
unfolding recover_interrupted
recover_interrupted-Changes now db keyed =
    recover_rows-Changes now (interrupted db) db
      (λ x member picked. selected_active db x keyed member picked)

-- A row that is still in progress would have been selected.
nothing_left :
    (now : ℕ) (db : Tables) (rows : List (Subtask × Task)) (s : Subtask) (t : Task)
    → interrupted db ≡ rows
    → In (s, t) (interrupted (break_off now rows db))
    → ⊥
nothing_left now db rows s t all_of h =
    let after = break_off now rows db in
    let (row, holds) = In-where is_interrupted (s, t) (join_rows after.subtasks after.tasks) h in
    let (s_in, t_in) = In-join s t after.subtasks after.tasks row in
    let (x, x_in, s_is) =
      In-update (λ s. contains (subtask_ids rows) s.id) (broken_off now) s db.subtasks s_in in
    let (u, u_in, t_is) =
      In-update (λ t. contains (task_ids rows) t.id) (with_status Status.failed now) t db.tasks
        t_in in
    elim (Bool-cases (contains (subtask_ids rows) x.id)) [
      | inl picked ↦ ground arith
      | inr left ↦
          let same_row : s ≡ x = s_is ∙ rw left refl in
          let same_id : t.id ≡ u.id = ground arith in
          let same_user : t.user_id ≡ u.user_id = ground arith in
          let still : is_interrupted (x, u) ≡ true = ground arith in
          let was_there : In (x, u) (interrupted db) =
            where-In is_interrupted (x, u) (join_rows db.subtasks db.tasks)
              (join-In x u db.subtasks db.tasks x_in u_in) still in
          cc (contains-selected rows x u (subst (In (x, u)) all_of was_there))
    ]

recover_rows-cleared :
    (now : ℕ) (db : Tables) (rows : List (Subtask × Task))
    → interrupted db ≡ rows
    → ((recover_rows now rows db).0 ≡ ok (length rows))
      × (interrupted (recover_rows now rows db).1 ≡ [])
unfolding recover_rows
recover_rows-cleared now db [] all_of = (refl, all_of)
recover_rows-cleared now db (row ∷ rows) all_of = (
  refl,
  In-nothing (interrupted (break_off now (row ∷ rows) db))
      (λ p h. nothing_left now db (row ∷ rows) p.0 p.1 all_of h),
)

-- After the recovery no answer of an owned task is in progress, and the number that it returns is
-- that of the answers that were.
pub recover_interrupted-cleared :
    (now : ℕ) (db : Tables)
    → ((recover_interrupted now db).0 ≡ ok (length (interrupted db)))
      × (interrupted (recover_interrupted now db).1 ≡ [])
unfolding recover_interrupted
recover_interrupted-cleared now db = recover_rows-cleared now db (interrupted db) refl
