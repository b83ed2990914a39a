-- ===== src/Tasks/Evolution.antt =====
-- How the row of a message may change in one write.
use auto_reign.Prelude.{
  ℕ, ◌≡◌, refl, sym, ◌∙◌, ap, subst, inl, inr, Bool, true, false, Option, List, [], ◌∷◌, ◌++◌, Text,
  nat_beq, nat_beq_iff, nat_key, if◌then◌else◌, arith, Bool-cases,
}
use auto_reign.Json.{Value}
use auto_reign.Tasks.Rows.{
  Status, Subtask, is_active_status, is_terminal_status, is_failed, is_pending, update_rows,
}
use auto_reign.Tasks.Writes.{started, ended, reset}
use auto_reign.Tasks.Edits.{broken_off}
use auto_reign.Tasks.Members.{In, In-update}

-- The states that may follow a state.
abbrev pub may_become : Status → Status → Bool
may_become Status.pending _ = true
may_become Status.running Status.pending = false
may_become Status.running _ = true
may_become Status.failed Status.failed = true
may_become Status.failed Status.pending = true
may_become Status.failed _ = false
may_become Status.completed Status.completed = true
may_become Status.completed _ = false
may_become Status.cancelled Status.cancelled = true
may_become Status.cancelled _ = false

abbrev pub is_settled : Status → Bool
is_settled Status.completed = true
is_settled Status.cancelled = true
is_settled _ = false

-- A row before and after a write.
pub record Evolved (old new : Subtask) : Type 0 where
  pub id : new.id ≡ old.id
  pub user_id : new.user_id ≡ old.user_id
  pub task_id : new.task_id ≡ old.task_id
  pub role : new.role ≡ old.role
  pub message_id : new.message_id ≡ old.message_id
  pub parent_id : new.parent_id ≡ old.parent_id
  pub prompt : new.prompt ≡ old.prompt
  pub moved : may_become old.status new.status ≡ true
  pub settled : is_settled old.status ≡ true → new ≡ old

-- The rows before a write, each at its place, and what is added behind them.
abbrev pub EvolvedRows : List Subtask → List Subtask → Type 0
EvolvedRows [] later = Unit
EvolvedRows (s ∷ rows) [] = ⊥
EvolvedRows (s ∷ rows) (t ∷ later) = Evolved s t × EvolvedRows rows later

-- `id` is the primary key, and a task's messages have numbers of their own.
pub record IsKeyed (rows : List Subtask) : Type 0 where
  pub primary : (x y : Subtask) → In x rows → In y rows → x.id ≡ y.id → x ≡ y
  pub messages :
      (x y : Subtask)
      → In x rows
      → In y rows
      → x.task_id ≡ y.task_id
      → x.message_id ≡ y.message_id
      → x ≡ y

-- What a write leaves of a row's keys.
abbrev pub KeepsKeys : (Subtask → Subtask) → Type 0
KeepsKeys f =
    (x : Subtask)
    → ((f x).id ≡ x.id) × ((f x).task_id ≡ x.task_id) × ((f x).message_id ≡ x.message_id)

stays : (status : Status) → may_become status status ≡ true
stays Status.pending = refl
stays Status.running = refl
stays Status.completed = refl
stays Status.failed = refl
stays Status.cancelled = refl

pub Evolved-refl : (s : Subtask) → Evolved s s
Evolved-refl s = record {
  id = refl;
  user_id = refl;
  task_id = refl;
  role = refl;
  message_id = refl;
  parent_id = refl;
  prompt = refl;
  moved = stays s.status;
  settled = λ h. refl;
}

pub EvolvedRows-append : (rows more : List Subtask) → EvolvedRows rows (rows ++ more)
EvolvedRows-append [] more = tt
EvolvedRows-append (s ∷ rows) more = (Evolved-refl s, EvolvedRows-append rows more)

pub EvolvedRows-refl : (rows : List Subtask) → EvolvedRows rows rows
EvolvedRows-refl [] = tt
EvolvedRows-refl (s ∷ rows) = (Evolved-refl s, EvolvedRows-refl rows)

pub EvolvedRows-update :
    (p : Subtask → Bool) (f : Subtask → Subtask) (rows : List Subtask)
    → ((x : Subtask) → In x rows → p x ≡ true → Evolved x (f x))
    → EvolvedRows rows (update_rows p f rows)
EvolvedRows-update p f [] h = tt
EvolvedRows-update p f (x ∷ rows) h = (
  elim (Bool-cases (p x)) [
    | inl picked ↦ rw picked (h x (inl refl) picked)
    | inr left ↦ rw left (Evolved-refl x)
  ],
  EvolvedRows-update p f rows (λ y member. h y (inr member)),
)

pub started-Evolved : (s : Subtask) → is_pending s.status ≡ true → Evolved s (started s)
started-Evolved s h = ground arith

pub ended-Evolved :
    (s : Subtask) (status : Status) (now : ℕ) (result : Option Value) (message : Option Text)
    → is_active_status s.status ≡ true
    → is_terminal_status status ≡ true
    → Evolved s (ended status now result message s)
ended-Evolved s status now result message h terminal = ground arith

pub reset-Evolved : (s : Subtask) → is_failed s.status ≡ true → Evolved s (reset s)
reset-Evolved s h = ground arith

pub broken_off-Evolved :
    (now : ℕ) (s : Subtask) → is_active_status s.status ≡ true → Evolved s (broken_off now s)
broken_off-Evolved now s h = ground arith

-- What one write does to the rows: nothing, a change of some of them, or rows behind them.
pub data Change (rows later : List Subtask) : Type 0 where
  same : later ≡ rows → Change rows later
  updated :
      (p : Subtask → Bool) (f : Subtask → Subtask)
      → KeepsKeys f
      → ((x : Subtask) → In x rows → p x ≡ true → Evolved x (f x))
      → later ≡ update_rows p f rows
      → Change rows later
  added : (more : List Subtask) → IsKeyed later → later ≡ rows ++ more → Change rows later

pub Change-EvolvedRows : (rows later : List Subtask) → Change rows later → EvolvedRows rows later
Change-EvolvedRows rows later (same e) = rw e (EvolvedRows-refl rows)
Change-EvolvedRows rows later (updated p f keeps h e) = rw e (EvolvedRows-update p f rows h)
Change-EvolvedRows rows later (added more keyed e) = rw e (EvolvedRows-append rows more)

kept_keys :
    (p : Subtask → Bool) (f : Subtask → Subtask) (x y : Subtask)
    → KeepsKeys f
    → y ≡ (if p x then f x else x)
    → (y.id ≡ x.id) × (y.task_id ≡ x.task_id) × (y.message_id ≡ x.message_id)
kept_keys p f x y keeps e = ground (arith, keeps x)

update-IsKeyed :
    (p : Subtask → Bool) (f : Subtask → Subtask) (rows : List Subtask)
    → KeepsKeys f
    → IsKeyed rows
    → IsKeyed (update_rows p f rows)
update-IsKeyed p f rows keeps keyed = record {
  primary = λ x y x_in y_in same_id.
      let (a, a_in, x_is) = In-update p f x rows x_in in
      let (b, b_in, y_is) = In-update p f y rows y_in in
      let x_keys = kept_keys p f a x keeps x_is in
      let y_keys = kept_keys p f b y keeps y_is in
      let one = keyed.primary a b a_in b_in (sym x_keys.0 ∙ (same_id ∙ y_keys.0)) in
      x_is ∙ (ap (λ (s : Subtask). if p s then f s else s) one ∙ sym y_is);
  messages = λ x y x_in y_in same_task same_message.
      let (a, a_in, x_is) = In-update p f x rows x_in in
      let (b, b_in, y_is) = In-update p f y rows y_in in
      let x_keys = kept_keys p f a x keeps x_is in
      let y_keys = kept_keys p f b y keeps y_is in
      let one =
        keyed.messages a b a_in b_in (sym x_keys.1 ∙ (same_task ∙ y_keys.1))
          (sym x_keys.2 ∙ (same_message ∙ y_keys.2)) in
      x_is ∙ (ap (λ (s : Subtask). if p s then f s else s) one ∙ sym y_is);
}

pub Change-IsKeyed : (rows later : List Subtask) → IsKeyed rows → Change rows later → IsKeyed later
Change-IsKeyed rows later keyed (same e) = subst IsKeyed (sym e) keyed
Change-IsKeyed rows later keyed (updated p f keeps h e) =
    subst IsKeyed (sym e) (update-IsKeyed p f rows keeps keyed)
Change-IsKeyed rows later keyed (added more after e) = after

-- A write by the id of a row.
pub write-Change :
    (s : Subtask) (f : Subtask → Subtask) (rows : List Subtask)
    → IsKeyed rows
    → In s rows
    → KeepsKeys f
    → Evolved s (f s)
    → Change rows (update_rows (λ x. nat_beq x.id s.id) f rows)
write-Change s f rows keyed member keeps h =
    updated (λ x. nat_beq x.id s.id) f keeps
      (λ x found same_id.
        subst (λ y. Evolved y (f y))
          (sym (keyed.primary x s found member ((nat_beq_iff x.id s.id).0 same_id))) h)
      refl
