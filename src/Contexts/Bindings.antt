-- ===== src/Contexts/Bindings.antt =====
-- What the operations on contexts do to the bound ones (subtask_context_repository.py).
use auto_reign.Prelude.{
  ℕ, ◌≡◌, refl, sym, ◌∙◌, ap, subst, ◌⊎◌, inl, inr, Bool, true, false, not, Option, some, List, [],
  ◌∷◌, Text, nat_beq, nat_beq_iff, nat_key, if◌then◌else◌, arith, Bool-cases, In,
}
use auto_reign.Prelude.Options.{Option-cases}
use auto_reign.Tasks.{where_rows, first_row, update_rows}
use auto_reign.Tasks.Members.{In-where, In-first, In-update, update-In}
use auto_reign.Contexts.Rows.{ContextStatus, SubtaskContext, is_context_of, get}
use auto_reign.Contexts.Operations.{
  delete_rows, delete_found, delete_draft, is_parsing_draft, found_draft, get_parsing_draft, parsed,
  is_parsed_status, mark_parsed, failed_with, mark_failed,
}

abbrev pub Rows : Type 0
Rows = List SubtaskContext

-- `id` is the primary key.
abbrev pub HasKeys : Rows → Type 0
HasKeys rows = (x y : SubtaskContext) → In x rows → In y rows → x.id ≡ y.id → x ≡ y

abbrev pub is_bound : SubtaskContext → Bool
is_bound c = not (nat_beq c.subtask_id 0)

-- The bound rows of a table are rows of a later one.
abbrev pub KeepsBound : Rows → Rows → Type 0
KeepsBound rows after = (x : SubtaskContext) → In x rows → is_bound x ≡ true → In x after

-- Both promises of a write.
pub record Safe (rows after : Rows) : Type 0 where
  pub keeps : KeepsBound rows after
  pub keys : HasKeys after

pub Safe-refl : (rows : Rows) → HasKeys rows → Safe rows rows
Safe-refl rows keys = record { keeps = λ x member h. member; keys = keys }

-- An update of rows that are no bound ones, which leaves the ids.
pub update-Safe :
    (p : SubtaskContext → Bool) (f : SubtaskContext → SubtaskContext) (rows : Rows)
    → HasKeys rows
    → ((x : SubtaskContext) → (f x).id ≡ x.id)
    → ((x : SubtaskContext) → In x rows → p x ≡ true → is_bound x ≡ false)
    → Safe rows (update_rows p f rows)
update-Safe p f rows keys same_id only_drafts = record {
  keeps = λ x member h. elim (Bool-cases (p x)) [
    | inl picked ↦ cc (only_drafts x member picked)
    | inr left ↦
        let written = update-In p f x rows member in
        subst (λ z. In z (update_rows p f rows)) (ap (λ b. if b then f x else x) left) written
  ];
  keys = λ x y x_in y_in same.
      let (a, a_in, x_is) = In-update p f x rows x_in in
      let (b, b_in, y_is) = In-update p f y rows y_in in
      let x_id : x.id ≡ a.id = ground (arith, same_id a) in
      let y_id : y.id ≡ b.id = ground (arith, same_id b) in
      let one = keys a b a_in b_in (sym x_id ∙ (same ∙ y_id)) in
      x_is ∙ (ap (λ (s : SubtaskContext). if p s then f s else s) one ∙ sym y_is);
}

-- An update by the id of a row that is a draft.
update_draft-Safe :
    (c : SubtaskContext) (f : SubtaskContext → SubtaskContext) (rows : Rows)
    → HasKeys rows
    → In c rows
    → is_bound c ≡ false
    → ((x : SubtaskContext) → (f x).id ≡ x.id)
    → Safe rows (update_rows (λ x. nat_beq x.id c.id) f rows)
update_draft-Safe c f rows keys member draft same_id =
    update-Safe (λ x. nat_beq x.id c.id) f rows keys same_id
      (λ x x_in picked.
        subst (λ (y : SubtaskContext). is_bound y ≡ false)
          (sym (keys x c x_in member ((nat_beq_iff x.id c.id).0 picked))) draft)

delete-In :
    (p : SubtaskContext → Bool) (x : SubtaskContext) (rows : Rows)
    → In x rows
    → p x ≡ false
    → In x (delete_rows p rows)
delete-In p x [] h out = elim h [ ]
delete-In p x (y ∷ rows) (inl here) out =
    let kept : p y ≡ false = subst (λ z. p z ≡ false) here out in rw kept (inl here)
delete-In p x (y ∷ rows) (inr later) out = elim (Bool-cases (p y)) [
  | inl gone ↦ rw gone (delete-In p x rows later out)
  | inr kept ↦ rw kept (inr (delete-In p x rows later out))
]

In-delete :
    (p : SubtaskContext → Bool) (x : SubtaskContext) (rows : Rows)
    → In x (delete_rows p rows)
    → In x rows
In-delete p x [] h = h
In-delete p x (y ∷ rows) h = elim (Bool-cases (p y)) [
  | inl gone ↦ inr (In-delete p x rows (rw gone at h))
  | inr kept ↦
      let split : (x ≡ y) ⊎ In x (delete_rows p rows) = rw kept at h in
      elim split [ inl same ↦ inl same | inr later ↦ inr (In-delete p x rows later) ]
]

pub delete_draft-Safe :
    (user_id context_id : ℕ) (rows : Rows)
    → HasKeys rows
    → Safe rows (delete_draft user_id context_id rows).1
unfolding delete_draft delete_found get
delete_draft-Safe user_id context_id rows keys =
    elim (Option-cases (first_row (where_rows (is_context_of user_id context_id) rows))) [
      | inl missing ↦ rw missing (Safe-refl rows keys)
      | inr (c, found) ↦ elim (Bool-cases (nat_beq c.subtask_id 0)) [
        | inr other ↦ rw (found, other) (Safe-refl rows keys)
        | inl draft ↦
            let member =
              (In-where (is_context_of user_id context_id) c rows (In-first c _ found)).0 in
            rw (found, draft)
              (record {
                keeps = λ x x_in h. elim (Bool-cases (nat_beq x.id c.id)) [
                  | inl same ↦
                      let one = keys x c x_in member ((nat_beq_iff x.id c.id).0 same) in
                      cc (one, draft, h)
                  | inr apart ↦ delete-In (λ y. nat_beq y.id c.id) x rows x_in apart
                ];
                keys = λ x y x_in y_in same.
                    keys x y (In-delete _ x rows x_in) (In-delete _ y rows y_in) same;
              })
      ]
    ]

parsing_draft :
    (user_id context_id : ℕ) (rows : Rows) (c : SubtaskContext)
    → first_row (where_rows (is_parsing_draft user_id context_id) rows) ≡ some c
    → In c rows × (is_bound c ≡ false)
parsing_draft user_id context_id rows c found =
    let (member, holds) =
      In-where (is_parsing_draft user_id context_id) c rows (In-first c _ found) in
    (member, ground arith)

pub mark_parsed-Safe :
    (user_id context_id : ℕ) (text : Option Text) (status : ContextStatus) (rows : Rows)
    → HasKeys rows
    → Safe rows (mark_parsed user_id context_id text status rows).1
unfolding mark_parsed get_parsing_draft found_draft
mark_parsed-Safe user_id context_id text status rows keys =
    elim (Bool-cases (is_parsed_status status)) [
      | inr other ↦ rw other (Safe-refl rows keys)
      | inl known ↦
          elim (Option-cases (first_row (where_rows (is_parsing_draft user_id context_id) rows))) [
            | inl missing ↦ rw (known, missing) (Safe-refl rows keys)
            | inr (c, found) ↦
                let (member, draft) = parsing_draft user_id context_id rows c found in
                rw (known, found)
                  (update_draft-Safe c (parsed text status) rows keys member draft (λ x. refl))
          ]
    ]

pub mark_failed-Safe :
    (user_id context_id : ℕ) (code : Text) (rows : Rows)
    → HasKeys rows
    → Safe rows (mark_failed user_id context_id code rows).1
unfolding mark_failed get_parsing_draft found_draft
mark_failed-Safe user_id context_id code rows keys =
    elim (Option-cases (first_row (where_rows (is_parsing_draft user_id context_id) rows))) [
      | inl missing ↦ rw missing (Safe-refl rows keys)
      | inr (c, found) ↦
          let (member, draft) = parsing_draft user_id context_id rows c found in
          rw found (update_draft-Safe c (failed_with code) rows keys member draft (λ x. refl))
    ]
