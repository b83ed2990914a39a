-- ===== src/Reducer/Runs.antt =====
-- What a browser has after a whole run of events.
use auto_reign.Prelude.{
  ◌≡◌, refl, ◌∙◌, ap, Bool, true, false, ◌||◌, Option, some, List, [], ◌∷◌, ◌++◌, Text, arith, ok,
  ◌==◌, text_key, text_beq_iff,
}
use auto_reign.Prelude.Exec.{>>=-Returned, returned}
use auto_reign.Prelude.Options.{◌>>=◌}
use auto_reign.TextOffsets.Laws.{js_length}
use auto_reign.RuntimeTypes.{RuntimeEvent}
use auto_reign.ChatBlocks.{Block, Fresh}
use auto_reign.Reducer.State.{Emission, Reducer, Python, new}
use auto_reign.Reducer.Content.{join}
use auto_reign.Reducer.Accept.{accept, accept_all}
use auto_reign.Reducer.Browser.{apply_emissions, apply_emissions-append, Follows, uses_id}
use auto_reign.Reducer.View.{IsSynced, Shows}
use auto_reign.Reducer.Shows.{accept-Shows}
use auto_reign.Reducer.ViewLaws.{Follows-append}

-- The ids that a run may give to blocks: each is new to the blocks and to the later events.
abbrev draws_id : Text → List (Fresh × RuntimeEvent) → Bool
draws_id id [] = false
draws_id id ((fresh, event) ∷ events) = id == fresh.uuid || draws_id id events

abbrev pub DistinctIds : List (Fresh × RuntimeEvent) → Type 0
DistinctIds [] = Unit
DistinctIds ((fresh, event) ∷ events) = (draws_id fresh.uuid events ≡ false) × DistinctIds events

abbrev Unused : List (Fresh × RuntimeEvent) → List Block → Type 0
Unused events blocks = (id : Text) → draws_id id events ≡ true → uses_id id blocks ≡ false

-- What a run does to what the browser has.
pub record RunShows (s : Reducer) (es : List Emission) (t : Reducer) : Type 0 where
  pub synced : IsSynced t
  pub blocks : apply_emissions s.blocks es ≡ some t.blocks
  pub value : Follows (join s.value_parts) es (join t.value_parts)

run-step :
    (fresh : Fresh) (s m t : Reducer) (es fs : List Emission)
    → Shows fresh s es m
    → RunShows m fs t
    → RunShows s (es ++ fs) t
run-step fresh s m t es fs h k = record {
  synced = k.synced;
  blocks =
      apply_emissions-append s.blocks es fs
      ∙ (ap (λ (o : Option (List Block)). o >>= λ bs. apply_emissions bs fs) h.blocks ∙ k.blocks);
  value =
      Follows-append (join s.value_parts) (join m.value_parts) (join t.value_parts) es fs h.value
        k.value;
}

-- An id that the event did not draw is as unused as before.
Unused-step :
    (fresh : Fresh) (event : RuntimeEvent) (events : List (Fresh × RuntimeEvent)) (s t : Reducer)
    (es : List Emission)
    → draws_id fresh.uuid events ≡ false
    → Unused ((fresh, event) ∷ events) s.blocks
    → Shows fresh s es t
    → Unused events t.blocks
Unused-step fresh event events s t es distinct unused h id drawn =
    ground (arith, unused id, h.ids id, text_beq_iff id fresh.uuid)

pub accept_all-RunShows :
    (python : Python) (events : List (Fresh × RuntimeEvent)) (s t : Reducer) (es : List Emission)
    → IsSynced s
    → DistinctIds events
    → Unused events s.blocks
    → accept_all python events s ≡ (ok es, t)
    → RunShows s es t
unfolding accept_all apply_emissions
accept_all-RunShows python [] s t es synced distinct unused h =
    let same : t ≡ s = ground arith in
    let none_emitted : es ≡ [] = ground arith in
    rw (same, none_emitted) (record { synced = synced; blocks = refl; value = refl })
accept_all-RunShows python ((fresh, event) ∷ events) s t es synced distinct unused h =
    elim (>>=-Returned (accept python fresh event s) _ h) [
      | returned emitted m accepts h ↦ elim (>>=-Returned (accept_all python events m) _ h) [
        | returned later after runs h ↦
            let first =
              accept-Shows python fresh event s m emitted synced
                (unused fresh.uuid (rw ((text_beq_iff fresh.uuid fresh.uuid).1 refl))) accepts in
            let rest =
              accept_all-RunShows python events m after later first.synced distinct.1
                (Unused-step fresh event events s m emitted distinct.0 unused first) runs in
            let ends : t ≡ after = ground arith in
            let sent : es ≡ emitted ++ later = ground arith in
            rw (ends, sent) (run-step fresh s m after emitted later first rest)
      ]
    ]

-- A run from a new reducer whose events draw distinct ids: a browser that starts with nothing and
-- applies all the emissions has the reducer's blocks at the end; every chunk stands at the length
-- in UTF-16 code units of the block and of the answer that it extends; and the answer that it has
-- put together is the joined text that the reducer keeps.
pub new-RunShows :
    (python : Python) (provider model : Text) (events : List (Fresh × RuntimeEvent)) (t : Reducer)
    (es : List Emission)
    → DistinctIds events
    → accept_all python events (new provider model) ≡ (ok es, t)
    → RunShows (new provider model) es t
unfolding js_length
new-RunShows python provider model events t es distinct h =
    accept_all-RunShows python events (new provider model) t es
      (record { value = refl; open_text = (refl, refl); unique = tt }) distinct (λ id drawn. refl) h
