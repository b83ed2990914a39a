-- ===== src/Contexts/Examples.antt =====
-- A text that a user attaches to a message.
use auto_reign.Prelude.{map, ◌≡◌, ◌⊎◌, none, some, [], ◌∷◌, codes, ok, err}
use auto_reign.Json.{object, end}
use auto_reign.Contexts.Rows.{ContextStatus, context_not_ready}
use auto_reign.Contexts.Operations.{bound, Draft, create_draft, bind_drafts, delete_draft}
use auto_reign.Contexts.Bindings.{Rows, HasKeys, Safe}
use auto_reign.Contexts.Requests.{Bound, bind_drafts-Bound}
use auto_reign.Contexts.Runs.{Step, created, was_bound, deleted, rest, go_on, Run-Safe}

abbrev draft : Draft
draft = record {
  context_type = codes "attachment";
  name = codes "notes.txt";
  status = ContextStatus.ready;
  binary_data = none;
  image_base64 = none;
  extracted_text = some (codes "text");
  mime_type = none;
  file_extension = some (codes "txt");
  file_size = some 4;
  type_data = object end;
}

abbrev no_rows : Rows
no_rows = []

no_rows-HasKeys : HasKeys no_rows
no_rows-HasKeys x y x_in y_in same = absurd x_in

abbrev with_draft : Rows
with_draft = (create_draft 5 100 3 draft no_rows).1

abbrev with_bound : Rows
with_bound = (bind_drafts 3 (5 ∷ []) 1 with_draft).1

first_step : Step no_rows with_draft
first_step = created 5 100 3 draft no_rows (λ x member same. member)

with_draft-HasKeys : HasKeys with_draft
with_draft-HasKeys =
    (Run-Safe no_rows with_draft no_rows-HasKeys
      (go_on no_rows with_draft with_draft first_step (rest with_draft))).keys

bind_drafts-Bound_example :
    ((ordered : Rows) × (after : Rows) × (bind_drafts 3 (5 ∷ []) 1 with_draft
        ≡ (ok (map (bound 1) ordered), after))
      × Bound 3 (5 ∷ []) 1 with_draft after ordered)
    ⊎ (bind_drafts 3 (5 ∷ []) 1 with_draft ≡ (err context_not_ready, with_draft))
bind_drafts-Bound_example = bind_drafts-Bound 3 (5 ∷ []) 1 with_draft with_draft-HasKeys

Run-Safe_example : Safe with_draft (delete_draft 3 5 with_bound).1
Run-Safe_example = Run-Safe with_draft (delete_draft 3 5 with_bound).1 with_draft-HasKeys (
    go_on with_draft with_bound (delete_draft 3 5 with_bound).1 (was_bound 3 (5 ∷ []) 1 with_draft)
      (go_on with_bound (delete_draft 3 5 with_bound).1 (delete_draft 3 5 with_bound).1
        (deleted 3 5 with_bound) (rest (delete_draft 3 5 with_bound).1)))
