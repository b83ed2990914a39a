-- ===== src/Reducer/Shows.antt =====
-- One accepted event, and the browser's view beside the reducer (runtime_event_reducer.py).
use auto_reign.Prelude.{
  ℕ, ◌≡◌, refl, subst, subst⁻¹, sym, ◌∙◌, ap, false, Option, none, some, List, [], ◌∷◌, ◌++◌, arith,
  ok, get_elem?, set, get_elem?-append_last, get_elem?-append_left, get_elem?-lt_length,
  get_elem?-set_ne, text_key,
}
use auto_reign.TextOffsets.Laws.{js_length}
use auto_reign.RuntimeTypes.{
  ToolCall, ToolResult, RuntimeEvent, text_delta, assistant_message, tool_start, tool_result,
}
use auto_reign.ChatBlocks.{
  TextBlock, ToolBlock, TextBlockStatus, ToolBlockStatus, text, tool, Fresh, block_id,
}
use auto_reign.ChatBlocks.Lifecycle.{
  append_text_block-Appended, create_text_block-ok, create_tool_block-ok,
  apply_tool_result-Resolved,
}
use auto_reign.Reducer.State.{Emission, Reducer, Python}
use auto_reign.Reducer.Content.{join}
use auto_reign.Reducer.Accept.{accept}
use auto_reign.Reducer.Deltas.{accept_delta}
use auto_reign.Reducer.DeltaSteps.{Opened, kept, made, accept_delta-Delta}
use auto_reign.Reducer.MessageSteps.{
  Completed, nothing, closed, SameText, forget_text, accept_assistant-Spoken,
}
use auto_reign.Reducer.ToolSteps.{
  Started, accept_tool_start-Started, Answered, accept_tool_result-Answered,
}
use auto_reign.Reducer.Browser.{
  apply_emission, apply_emissions, Follows, uses_id, UniqueIds, UniqueIds-set,
}
use auto_reign.Reducer.View.{TextOpen, IsSynced, Shows, Extended-Facts, Extended-Shows}
use auto_reign.Reducer.ViewLaws.{
  Shows-trans, added-UniqueIds, added-ids, replaced-ids, replaced-blocks, TextOpen-blocks,
}

Opened-Shows :
    (fresh : Fresh) (s t : Reducer) (es : List Emission)
    → IsSynced s
    → uses_id fresh.uuid s.blocks ≡ false
    → Opened fresh s t es
    → Shows fresh s es t
unfolding apply_emissions apply_emission js_length
Opened-Shows fresh s t es synced unused (kept index is_open same none_emitted) =
    rw (same, none_emitted)
      (record { synced = synced; blocks = refl; value = refl; ids = λ id used. rw used })
Opened-Shows fresh s t es synced unused (made b nothing_open created after emitted) =
    let block = (create_text_block-ok fresh [] TextBlockStatus.streaming b created).0 in
    let empty : (s.pending_deltas ≡ []) × (s.text_block_offset ≡ 0) =
      subst (TextOpen s) nothing_open synced.open_text in
    rw (after, emitted)
      (record {
        synced = record {
          value = synced.value;
          open_text = (
            b,
            get_elem?-append_last s.blocks (text b),
            ap (λ (x : TextBlock). x.status) block,
            ap (λ (x : TextBlock). x.content) block ∙ sym (ap join empty.0),
            ap (λ (x : TextBlock). js_length x.content) (sym block),
          );
          unique =
              added-UniqueIds fresh s (text b) synced (ap (λ (x : TextBlock). x.id) block) unused;
        };
        blocks = refl;
        value = refl;
        ids = added-ids fresh s (text b) synced (ap (λ (x : TextBlock). x.id) block) unused;
      })

Started-Shows :
    (fresh : Fresh) (s t : Reducer) (call : ToolCall) (es : List Emission)
    → IsSynced s
    → uses_id fresh.uuid s.blocks ≡ false
    → Started fresh s call t es
    → Shows fresh s es t
unfolding apply_emissions apply_emission
Started-Shows fresh s t call es synced unused started =
    let b = started.block in
    let block = (create_tool_block-ok fresh call ToolBlockStatus.pending b started.created).0 in
    let own : block_id (tool b) ≡ fresh.uuid = ap (λ (x : ToolBlock). x.id) block in
    rw (started.after, started.emitted)
      (record {
        synced = record {
          value = synced.value;
          open_text =
              TextOpen-blocks s (s.blocks ++ tool b ∷ []) s.text_block_index
                (λ i x found.
                  get_elem?-append_left s.blocks (tool b ∷ []) i
                    (get_elem?-lt_length s.blocks i found)
                  ∙ found)
                synced.open_text;
          unique = added-UniqueIds fresh s (tool b) synced own unused;
        };
        blocks = refl;
        value = refl;
        ids = added-ids fresh s (tool b) synced own unused;
      })

Answered-Shows :
    (fresh : Fresh) (s t : Reducer) (call : ToolCall) (result : ToolResult) (es : List Emission)
    → IsSynced s
    → Answered s call result t es
    → Shows fresh s es t
Answered-Shows fresh s t call result es synced answered =
    let r = answered.resolution in
    let own : block_id (tool r.completed) ≡ block_id (tool answered.block) =
      (apply_tool_result-Resolved answered.block r.completed result r.applied).updated.id in
    rw (r.after, r.emitted)
      (record {
        synced = record {
          value = synced.value;
          open_text =
              TextOpen-blocks s (set s.blocks answered.index (tool r.completed)) s.text_block_index
                (λ i x found.
                  get_elem?-set_ne s.blocks answered.index i (tool r.completed)
                    (λ same. ground (arith, answered.found))
                  ∙ found)
                synced.open_text;
          unique =
              UniqueIds-set s.blocks answered.index (tool answered.block) (tool r.completed)
                answered.found own synced.unique;
        };
        blocks =
            replaced-blocks fresh s.blocks answered.index (tool answered.block) (tool r.completed)
              answered.found own synced.unique;
        value = refl;
        ids =
            replaced-ids fresh s.blocks answered.index (tool answered.block) (tool r.completed)
              answered.found own;
      })

TextOpen-same : (t u : Reducer) (at : Option ℕ) → SameText t u → TextOpen t at → TextOpen u at
TextOpen-same t u none same h = (same.pending_deltas ∙ h.0, same.text_block_offset ∙ h.1)
TextOpen-same t u (some i) same (b, found, streaming, text_is, offset_is) = (
  b,
  ap (λ bs. get_elem? bs i) same.blocks ∙ found,
  streaming,
  text_is ∙ ap join (sym same.pending_deltas),
  same.text_block_offset ∙ offset_is,
)

SameText-Shows :
    (fresh : Fresh) (s t u : Reducer) (es : List Emission)
    → Shows fresh s es t
    → SameText t u
    → Shows fresh s es u
SameText-Shows fresh s t u es h same = record {
  synced = record {
    value =
        same.value_offset
        ∙ (h.synced.value ∙ ap (λ ts. js_length (join ts)) (sym same.value_parts));
    open_text =
        subst⁻¹ (TextOpen u) same.text_block_index
          (TextOpen-same t u t.text_block_index same h.synced.open_text);
    unique = subst⁻¹ UniqueIds same.blocks h.synced.unique;
  };
  blocks = h.blocks ∙ ap some (sym same.blocks);
  value = subst⁻¹ (λ ts. Follows (join s.value_parts) es (join ts)) same.value_parts h.value;
  ids = λ id used. h.ids id (ap (uses_id id) (sym same.blocks) ∙ used);
}

Completed-Shows :
    (fresh : Fresh) (s t : Reducer) (es : List Emission)
    → IsSynced s
    → Completed s t es
    → Shows fresh s es (forget_text t)
unfolding apply_emissions
Completed-Shows fresh s t es synced (nothing none_open same none_emitted) =
    rw (same, none_emitted)
      (record {
        synced = record { value = synced.value; open_text = (refl, refl); unique = synced.unique };
        blocks = refl;
        value = refl;
        ids = λ id used. rw used;
      })
Completed-Shows fresh s t es synced (closed index b c is_open found completes after emitted) =
    let own : block_id (text c) ≡ block_id (text b) =
      (append_text_block-Appended b c [] (some TextBlockStatus.done) completes).id in
    rw (after, emitted)
      (record {
        synced = record {
          value = synced.value;
          open_text = (refl, refl);
          unique = UniqueIds-set s.blocks index (text b) (text c) found own synced.unique;
        };
        blocks = replaced-blocks fresh s.blocks index (text b) (text c) found own synced.unique;
        value = refl;
        ids = replaced-ids fresh s.blocks index (text b) (text c) found own;
      })

nothing-Shows :
    (fresh : Fresh) (s t : Reducer) (es : List Emission)
    → IsSynced s
    → accept_delta fresh [] s ≡ (ok es, t)
    → Shows fresh s es t
unfolding accept_delta apply_emissions
nothing-Shows fresh s t es synced h =
    let same : t ≡ s = ground arith in
    let none_emitted : es ≡ [] = ground arith in
    rw (same, none_emitted)
      (record { synced = synced; blocks = refl; value = refl; ids = λ id used. rw used })

-- An accepted event, whose block if it makes one has an id that no block has yet, keeps the offsets
-- of the reducer in step with its texts; a browser that applies the emissions to the blocks from
-- before finds every chunk's offset equal to the length in UTF-16 code units of the text that it
-- extends and ends with the reducer's blocks; and the answer's text grows by the chunks, each at
-- its offset.
pub accept-Shows :
    (python : Python) (fresh : Fresh) (event : RuntimeEvent) (s t : Reducer) (es : List Emission)
    → IsSynced s
    → uses_id fresh.uuid s.blocks ≡ false
    → accept python fresh event s ≡ (ok es, t)
    → Shows fresh s es t
unfolding accept
accept-Shows python fresh (text_delta []) s t es synced unused h =
    nothing-Shows fresh s t es synced h
accept-Shows python fresh (text_delta (c ∷ content)) s t es synced unused h =
    let d = accept_delta-Delta fresh s t c content es h in
    let first = Opened-Shows fresh s d.middle d.opening synced unused d.opened in
    subst⁻¹ (λ es. Shows fresh s es t) d.emitted
      (Shows-trans fresh s d.middle t d.opening d.extending first (
        Extended-Shows fresh d.middle (c ∷ content) t d.extending first.synced d.extended
          (Extended-Facts d.middle t (c ∷ content) d.extending first.synced d.extended)))
accept-Shows python fresh (assistant_message event) s t es synced unused h =
    let spoken = accept_assistant-Spoken python event s t es h in
    SameText-Shows fresh s (forget_text spoken.middle) t es
      (Completed-Shows fresh s spoken.middle es synced spoken.completed) spoken.after
accept-Shows python fresh (tool_start call) s t es synced unused h =
    Started-Shows fresh s t call es synced unused
      (accept_tool_start-Started python fresh s t call es h)
accept-Shows python fresh (tool_result call result) s t es synced unused h =
    Answered-Shows fresh s t call result es synced
      (accept_tool_result-Answered python s t call result es h)
