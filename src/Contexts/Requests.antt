-- ===== src/Contexts/Requests.antt =====
-- What `bind_drafts` binds (subtask_context_repository.py).
use auto_reign.Prelude.{
  suc, ◌≤◌, ℕ, ◌≡◌, refl, sym, ◌∙◌, ap, subst, ◌⊎◌, inl, inr, Bool, true, false, not, ◌||◌, List,
  [], ◌∷◌, map, ok, err, nat_beq, nat_beq_iff, nat_key, if◌then◌else◌, arith, Bool-cases, contains,
  length, any, In,
}
use auto_reign.Prelude.Options.{Option-cases}
use auto_reign.Tasks.{where_rows, first_row, update_rows}
use auto_reign.Tasks.Members.{In-where, In-first, update-In}
use auto_reign.Contexts.Rows.{context_not_ready, SubtaskContext, is_ready}
use auto_reign.Contexts.Operations.{
  has_repeats, requested_rows, is_requested, is_unbindable, bound, ids_of, bind_drafts,
}
use auto_reign.Contexts.Bindings.{Rows, HasKeys, is_bound, Safe, Safe-refl, update-Safe}

found_id :
    (rows : Rows) (id : ℕ)
    → contains (ids_of rows) id ≡ true
    → (c : SubtaskContext) × In c rows × (c.id ≡ id)
found_id [] id h = cc
found_id (c ∷ rows) id h = elim (Bool-cases (nat_beq id c.id)) [
  | inl here ↦ (c, inl refl, sym ((nat_beq_iff id c.id).0 here))
  | inr other ↦ let (d, member, same) = found_id rows id (ground arith) in (d, inr member, same)
]

In-requested :
    (ids : List ℕ) (rows : Rows) (c : SubtaskContext) → In c (requested_rows ids rows) → In c rows
In-requested [] rows c h = elim h [ ]
In-requested (id ∷ ids) rows c h =
    elim (Option-cases (first_row (where_rows (λ (c : SubtaskContext). nat_beq c.id id) rows))) [
      | inl missing ↦ In-requested ids rows c (rw missing at h)
      | inr (d, found) ↦
          let split : (c ≡ d) ⊎ In c (requested_rows ids rows) = rw found at h in
          elim split [
            | inl same ↦
                subst (λ x. In x rows) (sym same)
                  (In-where (λ (c : SubtaskContext). nat_beq c.id id) d rows (In-first d _ found)).0
            | inr later ↦ In-requested ids rows c later
          ]
    ]

any-In :
    (p : SubtaskContext → Bool) (rows : Rows) (c : SubtaskContext)
    → any p rows ≡ false
    → In c rows
    → p c ≡ false
any-In p [] c h member = elim member [ ]
any-In p (d ∷ rows) c h (inl here) = let first : p d ≡ false = ground arith in ap p here ∙ first
any-In p (d ∷ rows) c h (inr later) = any-In p rows c (ground arith) later

abbrev pub id_of : SubtaskContext → ℕ
id_of c = c.id

-- No id stands twice in the list.
abbrev pub AreDistinct : List ℕ → Type 0
AreDistinct [] = Unit
AreDistinct (id ∷ ids) = ¬ (In id ids) × AreDistinct ids

In-contains : (id : ℕ) (ids : List ℕ) → In id ids → contains ids id ≡ true
In-contains id [] h = elim h [ ]
In-contains id (j ∷ ids) (inl here) = ground (arith, here, nat_beq_iff id j)
In-contains id (j ∷ ids) (inr later) = ground (arith, In-contains id ids later)

has_repeats-AreDistinct : (ids : List ℕ) → has_repeats ids ≡ false → AreDistinct ids
has_repeats-AreDistinct [] h = tt
has_repeats-AreDistinct (id ∷ ids) h = (
  λ member. let there = In-contains id ids member in ground arith,
  has_repeats-AreDistinct ids (ground arith),
)

length-requested : (ids : List ℕ) (rows : Rows) → length (requested_rows ids rows) ≤ length ids
length-requested [] rows = omega arith
length-requested (id ∷ ids) rows =
    let rest = length-requested ids rows in
    elim (Option-cases (first_row (where_rows (λ (c : SubtaskContext). nat_beq c.id id) rows))) [
      | inl missing ↦ rw missing (omega arith)
      | inr (d, found) ↦ rw found (omega arith)
    ]

-- Where no id is missing, the rows have the ids that were asked for, in their order.
requested-ids :
    (ids : List ℕ) (rows : Rows)
    → length (requested_rows ids rows) ≡ length ids
    → map id_of (requested_rows ids rows) ≡ ids
requested-ids [] rows h = refl
requested-ids (id ∷ ids) rows h =
    elim (Option-cases (first_row (where_rows (λ (c : SubtaskContext). nat_beq c.id id) rows))) [
      | inl missing ↦
          let short : length (requested_rows ids rows) ≡ length (id ∷ ids) = rw missing at h in
          absurd (omega (arith, length-requested ids rows))
      | inr (d, found) ↦
          let counted : suc (length (requested_rows ids rows)) ≡ suc (length ids) = rw found at h in
          let (member, same) =
            In-where (λ (c : SubtaskContext). nat_beq c.id id) d rows (In-first d _ found) in
          let here : d.id ≡ id = (nat_beq_iff d.id id).0 same in
          rw found (
            ap (λ j. j ∷ map id_of (requested_rows ids rows)) here
            ∙ ap (λ js. id ∷ js) (requested-ids ids rows (omega arith)))
    ]

-- What a call that binds has found: a row for each id that was asked for, in their order, no id
-- twice, all of them the user's, drafts and ready.
pub record Bound (user_id : ℕ) (ids : List ℕ) (subtask_id : ℕ) (rows after ordered : Rows)
    : Type 0 where
  pub all_found : map id_of ordered ≡ ids
  pub distinct : AreDistinct ids
  pub owned : (c : SubtaskContext) → In c ordered → In c rows × (c.user_id ≡ user_id)
  pub were_drafts :
      (c : SubtaskContext) → In c ordered → (is_bound c ≡ false) × (is_ready c.status ≡ true)
  pub written : (c : SubtaskContext) → In c ordered → In (bound subtask_id c) after
  pub safe : Safe rows after

In-ids_of : (rows : Rows) (c : SubtaskContext) → In c rows → contains (ids_of rows) c.id ≡ true
In-ids_of [] c h = elim h [ ]
In-ids_of (d ∷ rows) c (inl here) =
    ground (arith, ap (λ (x : SubtaskContext). x.id) here, nat_beq_iff c.id d.id)
In-ids_of (d ∷ rows) c (inr later) = ground (arith, In-ids_of rows c later)

bound_rows-Bound :
    (user_id : ℕ) (ids : List ℕ) (subtask_id : ℕ) (rows ordered : Rows)
    → HasKeys rows
    → ordered ≡ requested_rows ids (where_rows (is_requested user_id ids) rows)
    → length ordered ≡ length ids
    → has_repeats ids ≡ false
    → any is_unbindable ordered ≡ false
    → Bound user_id ids subtask_id rows
        (update_rows (λ c. contains (ids_of ordered) c.id) (bound subtask_id) rows)
        ordered
bound_rows-Bound user_id ids subtask_id rows ordered keys is_ordered counted no_repeats bindable =
    let owned : (c : SubtaskContext) → In c ordered → In c rows × (c.user_id ≡ user_id) =
      λ c member.
        let asked =
          In-requested ids (where_rows (is_requested user_id ids) rows) c
            (subst (In c) is_ordered member) in
        let (row, holds) = In-where (is_requested user_id ids) c rows asked in
        (row, ground (arith, nat_beq_iff c.user_id user_id)) in
    record {
      all_found =
          ap (map id_of) is_ordered
          ∙ requested-ids ids (where_rows (is_requested user_id ids) rows)
              (sym (ap length is_ordered) ∙ counted);
      distinct = has_repeats-AreDistinct ids no_repeats;
      owned = owned;
      were_drafts = λ c member.
          let free = any-In is_unbindable ordered c bindable member in (ground arith, ground arith);
      written = λ c member.
          subst
            (λ z. In z (update_rows (λ c. contains (ids_of ordered) c.id) (bound subtask_id) rows))
            (ap (λ b. if b then bound subtask_id c else c) (In-ids_of ordered c member))
            (update-In (λ c. contains (ids_of ordered) c.id) (bound subtask_id) c rows
              (owned c member).0);
      safe =
          update-Safe (λ c. contains (ids_of ordered) c.id) (bound subtask_id) rows keys (λ x. refl)
            (λ x x_in picked.
              let (c, member, same) = found_id ordered x.id picked in
              let free = any-In is_unbindable ordered c bindable member in
              let draft : is_bound c ≡ false = ground arith in
              subst (λ (y : SubtaskContext). is_bound y ≡ false)
                (keys c x (owned c member).0 x_in same) draft);
    }

-- The drafts that a message asks for are bound all together: a call that returns was asked for ids of
-- which none stands twice, has found a context for each of them, in their order, each of them the
-- user's, not bound and ready, and binds each of them; a call that raises writes nothing. Contexts
-- that were bound before are not changed.
pub bind_drafts-Bound :
    (user_id : ℕ) (ids : List ℕ) (subtask_id : ℕ) (rows : Rows)
    → HasKeys rows
    → ((ordered : Rows) × (after : Rows) × (bind_drafts user_id ids subtask_id rows
          ≡ (ok (map (bound subtask_id) ordered), after))
        × Bound user_id ids subtask_id rows after ordered)
      ⊎ (bind_drafts user_id ids subtask_id rows ≡ (err context_not_ready, rows))
unfolding bind_drafts
bind_drafts-Bound user_id [] subtask_id rows keys = inl (
  [],
  rows,
  refl,
  record {
    all_found = refl;
    distinct = tt;
    owned = λ c member. absurd member;
    were_drafts = λ c member. absurd member;
    written = λ c member. absurd member;
    safe = Safe-refl rows keys;
  },
)
bind_drafts-Bound user_id (id ∷ ids) subtask_id rows keys =
    let ordered = requested_rows (id ∷ ids) (where_rows (is_requested user_id (id ∷ ids)) rows) in
    elim (Bool-cases (not (nat_beq subtask_id 0 || has_repeats (id ∷ ids)))) [
      | inr unusable ↦ inr (rw unusable refl)
      | inl usable ↦
          elim (Bool-cases (
            not
              (not (nat_beq (length ordered) (length (id ∷ ids))) || any is_unbindable ordered))) [
                | inr unready ↦ inr (rw (usable, unready) refl)
                | inl ready ↦ inl (
                  ordered,
                  update_rows (λ c. contains (ids_of ordered) c.id) (bound subtask_id) rows,
                  rw (usable, ready) refl,
                  bound_rows-Bound user_id (id ∷ ids) subtask_id rows ordered keys refl
                      (ground (arith, nat_beq_iff (length ordered) (length (id ∷ ids))))
                      (ground arith) (ground arith),
                )
              ]
    ]
