-- ===== src/Tasks/Members.antt =====
-- Which rows a query returns, and which rows an update by an id touches.
use auto_reign.Prelude.{
  ℕ, ◌≡◌, refl, subst, ◌∙◌, ap, ◌⊎◌, inl, inr, Bool, true, Option, none, some, List, [], ◌∷◌, ◌++◌,
  ok, if◌then◌else◌, arith, Bool-cases, Result-cases,
}
pub use auto_reign.Prelude.{In}
use auto_reign.Tasks.Rows.{
  Task, Subtask, Tables, is_assistant, where_rows, first_row, one_or_none, update_rows, with_each,
  join_rows, is_owned, get_owned_assistant, owned_or_error, found_or_error,
}

module _ {A : Type 0} where
  pub In-where :
      (p : A → Bool) (x : A) (xs : List A) → In x (where_rows p xs) → In x xs × (p x ≡ true)
  In-where p x [] h = elim h [ ]
  In-where p x (y ∷ ys) h = elim (Bool-cases (p y)) [
    | inr out ↦ let (member, holds) = In-where p x ys (rw out at h) in (inr member, holds)
    | inl kept ↦
        let split : (x ≡ y) ⊎ In x (where_rows p ys) = rw kept at h in
        elim split [
          | inl same ↦ (inl same, ap p same ∙ kept)
          | inr later ↦ let (member, holds) = In-where p x ys later in (inr member, holds)
        ]
  ]

  pub In-update :
      (p : A → Bool) (f : A → A) (y : A) (rows : List A)
      → In y (update_rows p f rows)
      → (x : A) × In x rows × (y ≡ (if p x then f x else x))
  In-update p f y [] h = elim h [ ]
  In-update p f y (x ∷ rows) (inl here) = (x, inl refl, here)
  In-update p f y (x ∷ rows) (inr later) =
      let (z, member, e) = In-update p f y rows later in (z, inr member, e)

  pub update-In :
      (p : A → Bool) (f : A → A) (x : A) (rows : List A)
      → In x rows
      → In (if p x then f x else x) (update_rows p f rows)
  update-In p f x [] h = elim h [ ]
  update-In p f x (y ∷ rows) (inl here) = inl (ap (λ z. if p z then f z else z) here)
  update-In p f x (y ∷ rows) (inr later) = inr (update-In p f x rows later)

  pub where-In :
      (p : A → Bool) (x : A) (xs : List A) → In x xs → p x ≡ true → In x (where_rows p xs)
  where-In p x [] h holds = elim h [ ]
  where-In p x (y ∷ ys) (inl here) holds =
      let kept : p y ≡ true = subst (λ z. p z ≡ true) here holds in rw kept (inl here)
  where-In p x (y ∷ ys) (inr later) holds = elim (Bool-cases (p y)) [
    | inl kept ↦ rw kept (inr (where-In p x ys later holds))
    | inr out ↦ rw out (where-In p x ys later holds)
  ]

  pub append-In_left : (x : A) (xs ys : List A) → In x xs → In x (xs ++ ys)
  append-In_left x [] ys h = elim h [ ]
  append-In_left x (y ∷ xs) ys (inl here) = inl here
  append-In_left x (y ∷ xs) ys (inr later) = inr (append-In_left x xs ys later)

  pub append-In_right : (x : A) (xs ys : List A) → In x ys → In x (xs ++ ys)
  append-In_right x [] ys h = h
  append-In_right x (y ∷ xs) ys h = inr (append-In_right x xs ys h)

  pub In-nothing : (xs : List A) → ((x : A) → In x xs → ⊥) → xs ≡ []
  In-nothing [] h = refl
  In-nothing (x ∷ xs) h = absurd (h x (inl refl))

  pub In-first : (x : A) (xs : List A) → first_row xs ≡ some x → In x xs
  In-first x [] h = cc
  In-first x (y ∷ ys) h = inl (ground arith)

  pub In-one : (x : A) (xs : List A) → one_or_none xs ≡ ok (some x) → In x xs
  In-one x [] h = ground arith
  In-one x (y ∷ []) h = inl (ground arith)
  In-one x (y ∷ z ∷ ys) h = ground arith

  pub In-append : (x : A) (xs ys : List A) → In x (xs ++ ys) → In x xs ⊎ In x ys
  In-append x [] ys h = inr h
  In-append x (y ∷ xs) ys (inl same) = inl (inl same)
  In-append x (y ∷ xs) ys (inr later) = elim (In-append x xs ys later) [
    | inl left ↦ inl (inr left)
    | inr right ↦ inr right
  ]

module _ {A B : Type 0} where
  In-with_each :
      (x : A) (y : B) (a : A) (bs : List B) → In (x, y) (with_each a bs) → (x ≡ a) × In y bs
  In-with_each x y a [] h = elim h [ ]
  In-with_each x y a (b ∷ bs) (inl same) = (ap (λ p. p.0) same, inl (ap (λ p. p.1) same))
  In-with_each x y a (b ∷ bs) (inr later) =
      let (first, member) = In-with_each x y a bs later in (first, inr member)

  pub In-join :
      (x : A) (y : B) (xs : List A) (ys : List B) → In (x, y) (join_rows xs ys) → In x xs × In y ys
  In-join x y [] ys h = elim h [ ]
  In-join x y (a ∷ xs) ys h = elim (In-append (x, y) (with_each a ys) (join_rows xs ys) h) [
    | inl here ↦ let (first, member) = In-with_each x y a ys here in (inl first, member)
    | inr later ↦ let (left, right) = In-join x y xs ys later in (inr left, right)
  ]

  with_each-In : (a : A) (y : B) (bs : List B) → In y bs → In (a, y) (with_each a bs)
  with_each-In a y [] h = elim h [ ]
  with_each-In a y (b ∷ bs) (inl here) = inl (ap (λ z. (a, z)) here)
  with_each-In a y (b ∷ bs) (inr later) = inr (with_each-In a y bs later)

  pub join-In :
      (x : A) (y : B) (xs : List A) (ys : List B) → In x xs → In y ys → In (x, y) (join_rows xs ys)
  join-In x y [] ys h k = elim h [ ]
  join-In x y (a ∷ xs) ys (inl here) k =
      append-In_left (x, y) (with_each a ys) (join_rows xs ys)
        (subst (λ z. In (x, y) (with_each z ys)) here (with_each-In x y ys k))
  join-In x y (a ∷ xs) ys (inr later) k =
      append-In_right (x, y) (with_each a ys) (join_rows xs ys) (join-In x y xs ys later k)

-- What `_get_owned_assistant` found.
pub record OwnedAssistant (user_id subtask_id : ℕ) (db : Tables) (s : Subtask) (t : Task)
    : Type 0 where
  pub subtask_row : In s db.subtasks
  pub task_row : In t db.tasks
  pub role : is_assistant s.role ≡ true
  pub owned : is_owned user_id subtask_id (s, t) ≡ true

owned_or_error-ok :
    (row : Option (Subtask × Task)) (s : Subtask) (t : Task)
    → owned_or_error row ≡ ok (s, t)
    → (row ≡ some (s, t)) × (is_assistant s.role ≡ true)
unfolding owned_or_error
owned_or_error-ok none s t h = ground arith
owned_or_error-ok (some (a, b)) s t h = ground arith

pub get_owned_assistant-OwnedAssistant :
    (user_id subtask_id : ℕ) (db : Tables) (s : Subtask) (t : Task)
    → get_owned_assistant user_id subtask_id db ≡ ok (s, t)
    → OwnedAssistant user_id subtask_id db s t
unfolding get_owned_assistant found_or_error
get_owned_assistant-OwnedAssistant user_id subtask_id db s t h =
    elim (Result-cases
      (one_or_none (where_rows (is_owned user_id subtask_id) (join_rows db.subtasks db.tasks)))) [
        | inr (e, raised) ↦ ground arith
        | inl (row, found) ↦
            let (same, role) = owned_or_error-ok row s t (rw found at h) in
            let (member, owned) =
              In-where (is_owned user_id subtask_id) (s, t) (join_rows db.subtasks db.tasks)
                (In-one (s, t) _ (found ∙ ap ok same)) in
            let (left, right) = In-join s t db.subtasks db.tasks member in
            record { subtask_row = left; task_row = right; role = role; owned = owned }
      ]
