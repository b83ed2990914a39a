-- ===== src/Reducer/View.antt =====
-- The emissions of an event, applied by a browser (runtime_event_reducer.py).
use auto_reign.Prelude.{
  ℕ, ◌+◌, ◌≡◌, subst, subst⁻¹, sym, ◌∙◌, ap, true, ◌||◌, Option, none, some, List, [], ◌∷◌, ◌++◌,
  append-nil, append_assoc, get_elem?-set_self, get_elem?-lt_length, Text, arith, get_elem?, set,
  nat_beq_iff, ◌==◌, text_key,
}
use auto_reign.Prelude.Options.{◌>>=◌}
use auto_reign.TextOffsets.Laws.{js_length, js_length-append, advance-ok}
use auto_reign.ChatBlocks.{TextBlock, TextBlockStatus, Block, text, Fresh, block_id}
use auto_reign.ChatBlocks.Lifecycle.{append_text_block-Appended, Appended}
use auto_reign.Reducer.State.{Emission, chunk, Reducer}
use auto_reign.Reducer.Content.{join}
use auto_reign.Reducer.DeltaSteps.{Extended}
use auto_reign.Reducer.Browser.{
  alter_id, extend_block, apply_emission, apply_emissions, Follows, uses_id, UniqueIds,
  alter_id-set, uses_id-set, UniqueIds-set,
}

-- The offsets that the reducer keeps, against the texts that they measure.
abbrev pub TextOpen : Reducer → Option ℕ → Type 0
TextOpen s none = (s.pending_deltas ≡ []) × (s.text_block_offset ≡ 0)
TextOpen s (some index) =
    (block : TextBlock) × (get_elem? s.blocks index ≡ some (text block))
    × (block.status ≡ TextBlockStatus.streaming)
    × (block.content ≡ join s.pending_deltas)
    × (s.text_block_offset ≡ js_length block.content)

pub record IsSynced (s : Reducer) : Type 0 where
  pub value : s.value_offset ≡ js_length (join s.value_parts)
  pub open_text : TextOpen s s.text_block_index
  pub unique : UniqueIds s.blocks

-- What an event does to what the browser has.
pub record Shows (fresh : Fresh) (s : Reducer) (es : List Emission) (t : Reducer) : Type 0 where
  pub synced : IsSynced t
  pub blocks : apply_emissions s.blocks es ≡ some t.blocks
  pub value : Follows (join s.value_parts) es (join t.value_parts)
  pub ids :
      (id : Text) → uses_id id t.blocks ≡ true → (uses_id id s.blocks || id == fresh.uuid) ≡ true

join-snoc : (ts : List Text) (t : Text) → join (ts ++ t ∷ []) ≡ join ts ++ t
join-snoc [] t = append-nil t
join-snoc (u ∷ ts) t = rw (join-snoc ts t, append_assoc)

-- The block that takes a piece of text, and the offsets behind it.
pub record Facts (s : Reducer) (content : Text) (t : Reducer) (es : List Emission)
    (h : Extended s content t es) : Type 0 where
  appended : Appended h.block content none h.updated
  text_is : h.block.content ≡ join s.pending_deltas
  offset : s.text_block_offset ≡ js_length h.block.content
  next_block_offset : h.next_block_offset ≡ s.text_block_offset + js_length content
  next_value_offset : h.next_value_offset ≡ s.value_offset + js_length content

pub Extended-Facts :
    (s t : Reducer) (content : Text) (es : List Emission) (synced : IsSynced s)
    (h : Extended s content t es)
    → Facts s content t es h
Extended-Facts s t content es synced h =
    let (b, found, streaming, text_is, offset_is) = subst (TextOpen s) h.is_open synced.open_text in
    let same : text b ≡ text h.block = ground (arith, found, h.found) in
    record {
      appended = append_text_block-Appended h.block h.updated content none h.appended;
      text_is = ground arith;
      offset = ground arith;
      next_block_offset =
          ((advance-ok s.text_block_offset h.next_block_offset content).0 h.block_advanced).1;
      next_value_offset =
          ((advance-ok s.value_offset h.next_value_offset content).0 h.value_advanced).1;
    }

abbrev extended_state : Reducer → Text → ℕ → TextBlock → ℕ → ℕ → Reducer
extended_state s content index updated block_offset value_offset = record s {
  blocks = set s.blocks index (text updated);
  pending_deltas = s.pending_deltas ++ content ∷ [];
  value_parts = s.value_parts ++ content ∷ [];
  text_block_offset = block_offset;
  value_offset = value_offset;
}

module _ (fresh : Fresh) (s : Reducer) (content : Text) (t : Reducer) (es : List Emission)
    (synced : IsSynced s) (h : Extended s content t es) (facts : Facts s content t es h) where
  extended-value : h.next_value_offset ≡ js_length (join (s.value_parts ++ content ∷ []))
  extended-value =
      rw (join-snoc s.value_parts content, js_length-append)
        (omega (arith, facts.next_value_offset, synced.value))

  extended-updated : text h.updated ≡ text (record h.block { content = h.block.content ++ content })
  extended-updated = ground (arith, facts.appended)

  extended-open :
      TextOpen
        (extended_state s content h.index h.updated h.next_block_offset h.next_value_offset)
        (some h.index)
  extended-open = (
    h.updated,
    get_elem?-set_self s.blocks h.index (text h.updated)
        (get_elem?-lt_length s.blocks h.index h.found),
    ground (arith, facts.appended),
    facts.appended.content
        ∙ (ap (λ t. t ++ content) facts.text_is ∙ sym (join-snoc s.pending_deltas content)),
    rw (facts.appended.content, js_length-append)
        (omega (arith, facts.next_block_offset, facts.offset)),
  )

  extended-blocks :
      apply_emissions s.blocks (chunk h.updated.id s.text_block_offset s.value_offset content ∷ [])
      ≡ some (set s.blocks h.index (text h.updated))
  unfolding apply_emissions apply_emission
  extended-blocks =
      let taken : extend_block s.text_block_offset content (text h.block) ≡ some (text h.updated) =
        rw ((nat_beq_iff s.text_block_offset (js_length h.block.content)).1 facts.offset)
          (ap some (sym extended-updated)) in
      let altered : alter_id h.updated.id (extend_block s.text_block_offset content) s.blocks
          ≡ some (set s.blocks h.index (text h.updated)) =
        ap (λ id. alter_id id (extend_block s.text_block_offset content) s.blocks) facts.appended.id
        ∙ (alter_id-set s.blocks h.index (text h.block) (extend_block s.text_block_offset content)
              synced.unique h.found
            ∙ ap (λ (o : Option Block). o >>= λ c. some (set s.blocks h.index c)) taken) in
      ap (λ (o : Option (List Block)). o >>= λ bs. some bs) altered

  extended-id : block_id (text h.updated) ≡ block_id (text h.block)
  extended-id = facts.appended.id

  pub Extended-Shows : Shows fresh s es t
  Extended-Shows =
      rw (h.after, h.emitted)
        (record {
          synced = record {
            value = extended-value;
            open_text =
                subst⁻¹
                  (TextOpen (
                    extended_state s content h.index h.updated h.next_block_offset
                      h.next_value_offset))
                  h.is_open extended-open;
            unique =
                UniqueIds-set s.blocks h.index (text h.block) (text h.updated) h.found extended-id
                  synced.unique;
          };
          blocks = extended-blocks;
          value = (synced.value, sym (join-snoc s.value_parts content));
          ids = λ id used. ground (
            arith,
            uses_id-set id s.blocks h.index (text h.block) (text h.updated) h.found extended-id,
          );
        })
