-- ===== src/Reducer/ViewLaws.antt =====
-- How the views of a browser compose, and how one new or changed block is seen (runtime_event_reducer.py).
use auto_reign.Prelude.{
  ℕ, ◌≡◌, sym, ◌∙◌, ap, true, false, ◌||◌, Option, none, some, List, [], ◌∷◌, ◌++◌, Text, arith,
  get_elem?, set, ◌==◌, text_key,
}
use auto_reign.Prelude.Options.{◌>>=◌}
use auto_reign.ChatBlocks.{TextBlock, Block, text, Fresh, block_id}
use auto_reign.Reducer.State.{Emission, chunk, block_created, block_updated, Reducer}
use auto_reign.Reducer.Content.{join}
use auto_reign.Reducer.Browser.{
  alter_id, apply_emission, apply_emissions, apply_emissions-append, Follows, uses_id, UniqueIds,
  alter_id-set, uses_id-set, uses_id-append, UniqueIds-append,
}
use auto_reign.Reducer.View.{TextOpen, IsSynced, Shows}

pub Follows-append :
    (a b c : Text) (es fs : List Emission)
    → Follows a es b
    → Follows b fs c
    → Follows a (es ++ fs) c
Follows-append a b c [] fs h k = rw h k
Follows-append a b c (chunk id bo o content ∷ es) fs h k =
    (h.0, Follows-append (a ++ content) b c es fs h.1 k)
Follows-append a b c (block_created x ∷ es) fs h k = Follows-append a b c es fs h k
Follows-append a b c (block_updated x ∷ es) fs h k = Follows-append a b c es fs h k

-- Two steps of one event.
pub Shows-trans :
    (fresh : Fresh) (s m t : Reducer) (es fs : List Emission)
    → Shows fresh s es m
    → Shows fresh m fs t
    → Shows fresh s (es ++ fs) t
Shows-trans fresh s m t es fs h k = record {
  synced = k.synced;
  blocks =
      apply_emissions-append s.blocks es fs
      ∙ (ap (λ (o : Option (List Block)). o >>= λ bs. apply_emissions bs fs) h.blocks ∙ k.blocks);
  value =
      Follows-append (join s.value_parts) (join m.value_parts) (join t.value_parts) es fs h.value
        k.value;
  ids = λ id used. ground (arith, h.ids id, k.ids id);
}

-- A block that is added at the end of the list.
module _ (fresh : Fresh) (s : Reducer) (b : Block) (synced : IsSynced s)
    (own : block_id b ≡ fresh.uuid) (unused : uses_id fresh.uuid s.blocks ≡ false) where
  pub added-UniqueIds : UniqueIds (s.blocks ++ b ∷ [])
  added-UniqueIds =
      UniqueIds-append s.blocks b synced.unique (ap (λ id. uses_id id s.blocks) own ∙ unused)

  pub added-ids :
      (id : Text)
      → uses_id id (s.blocks ++ b ∷ []) ≡ true
      → (uses_id id s.blocks || id == fresh.uuid) ≡ true
  added-ids id used =
      ap (λ u. uses_id id s.blocks || id == u) (sym own)
      ∙ (sym (uses_id-append id s.blocks b) ∙ used)

-- A block that takes the place of one with its id.
module _ (fresh : Fresh) (blocks : List Block) (index : ℕ) (old new : Block)
    (found : get_elem? blocks index ≡ some old) (own : block_id new ≡ block_id old) where
  pub replaced-ids :
      (id : Text)
      → uses_id id (set blocks index new) ≡ true
      → (uses_id id blocks || id == fresh.uuid) ≡ true
  replaced-ids id used = ground (arith, uses_id-set id blocks index old new found own)

  pub replaced-blocks :
      UniqueIds blocks
      → apply_emissions blocks (block_updated new ∷ []) ≡ some (set blocks index new)
  unfolding apply_emissions apply_emission
  replaced-blocks unique =
      ap (λ (o : Option (List Block)). o >>= λ bs. some bs)
        (ap (λ id. alter_id id (λ _. some new) blocks) own
          ∙ alter_id-set blocks index old (λ _. some new) unique found)

pub TextOpen-blocks :
    (s : Reducer) (blocks : List Block) (at : Option ℕ)
    → ((i : ℕ) (b : TextBlock)
        → get_elem? s.blocks i ≡ some (text b)
        → get_elem? blocks i ≡ some (text b))
    → TextOpen s at
    → TextOpen (record s { blocks = blocks }) at
TextOpen-blocks s blocks none keep h = h
TextOpen-blocks s blocks (some i) keep (b, found, streaming, text_is, offset_is) =
    (b, keep i b found, streaming, text_is, offset_is)
