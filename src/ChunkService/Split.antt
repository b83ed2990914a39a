-- ===== src/ChunkService/Split.antt =====
-- What `split` returns or raises (knowledge_chunk_service.py).
use auto_reign.Prelude.{
  ℕ, suc, ◌≡◌, refl, sym, ◌∙◌, ap, ◌⊎◌, true, false, ◌==◌, if◌then◌else◌, Option, none, some, List,
  [], ◌∷◌, Text, arith, codes, Result, ok, err, is_blank, pos, text_key, Bool-cases, Result-cases,
  inl, inr,
}
use auto_reign.Prelude.Dict
use auto_reign.Prelude.Dict.{Dict, get-put, get-pop}
use auto_reign.Json.{Value, int, str}
use auto_reign.ChunkService.{
  ChunkService, ChunkError, generation_is_ambiguous, text_must_be_a_string, KnowledgeChunk,
  chunk_metadata, collect, rename_generation, split_text, split_popped, split, slice,
}
use auto_reign.ChunkService.Tiling.{IsValid}
use auto_reign.ChunkService.Stitching.{stitch-source_ranges}

-- A chunk says where its content stands in the text, and which one it is.
pub record IsSlice (text : Text) (index : ℕ) (chunk : KnowledgeChunk) : Type 0 where
  pub start : ℕ
  pub end : ℕ
  pub source_start : Dict.get (codes "source_start") chunk.metadata ≡ some (int (pos start))
  pub source_end : Dict.get (codes "source_end") chunk.metadata ≡ some (int (pos end))
  pub chunk_index : Dict.get (codes "chunk_index") chunk.metadata ≡ some (int (pos index))
  pub content : chunk.content ≡ slice text start end
  pub not_blank : is_blank chunk.content ≡ false

abbrev pub AreSlices : Text → ℕ → List KnowledgeChunk → Type 0
AreSlices text index [] = Unit
AreSlices text index (chunk ∷ chunks) = IsSlice text index chunk × AreSlices text (suc index) chunks

chunk_metadata-source_start :
    (source : Dict Text Value) (index start end : ℕ)
    → Dict.get (codes "source_start") (chunk_metadata source index start end)
      ≡ some (int (pos start))
unfolding chunk_metadata
chunk_metadata-source_start source index start end = simp get-put

chunk_metadata-source_end :
    (source : Dict Text Value) (index start end : ℕ)
    → Dict.get (codes "source_end") (chunk_metadata source index start end) ≡ some (int (pos end))
unfolding chunk_metadata
chunk_metadata-source_end source index start end = simp get-put

chunk_metadata-chunk_index :
    (source : Dict Text Value) (index start end : ℕ)
    → Dict.get (codes "chunk_index") (chunk_metadata source index start end)
      ≡ some (int (pos index))
unfolding chunk_metadata
chunk_metadata-chunk_index source index start end = simp get-put

collect-AreSlices :
    (text : Text) (source : Dict Text Value) (index : ℕ) (ranges : List (ℕ × ℕ))
    → AreSlices text index (collect text source index ranges)
unfolding collect
collect-AreSlices text source index [] = tt
collect-AreSlices text source index ((start, end) ∷ ranges) =
    elim (Bool-cases (is_blank (slice text start end))) [
      | inl blank ↦ rw blank (collect-AreSlices text source index ranges)
      | inr content ↦ rw content (
        record {
          start = start;
          end = end;
          source_start = chunk_metadata-source_start source index start end;
          source_end = chunk_metadata-source_end source index start end;
          chunk_index = chunk_metadata-chunk_index source index start end;
          content = refl;
          not_blank = content;
        },
        collect-AreSlices text source (suc index) ranges,
      )
    ]

-- The source names its generation under both keys.
abbrev pub NamesTwice : Dict Text Value → Type 0
NamesTwice source =
    (Dict.has (codes "generation") source ≡ true)
    × (Dict.has (codes "index_generation") source ≡ true)

-- What a call of `split` returned of a source with a text: the error exactly where the text is not
-- blank and the generation is named twice, no chunks of a blank text, and else slices of the text.
abbrev pub Splits :
    Dict Text Value → Text → Result ChunkError (Option (List KnowledgeChunk)) → Type 0
Splits source text (err e) =
    (e ≡ generation_is_ambiguous) × ((is_blank text ≡ false) × NamesTwice source)
Splits source text (ok none) = ⊥
Splits source text (ok (some chunks)) =
    ((is_blank text ≡ true) × (chunks ≡ []))
    ⊎ ((is_blank text ≡ false) × ((¬ NamesTwice source) × AreSlices text 0 chunks))

rename_generation-error :
    (source : Dict Text Value) (e : ChunkError)
    → rename_generation source ≡ err e
    → (e ≡ generation_is_ambiguous) × NamesTwice source
unfolding rename_generation Dict.has
rename_generation-error source e h = (ground arith, (ground arith, ground arith))

rename_generation-ok :
    (source renamed : Dict Text Value) → rename_generation source ≡ ok renamed → ¬ NamesTwice source
unfolding rename_generation Dict.has
rename_generation-ok source renamed h (named, again) = ground arith

split_text-Splits :
    (service : ChunkService) (source : Dict Text Value) (text : Text)
    → IsValid service
    → Splits source text (split_text service source text)
unfolding split_text
split_text-Splits service source text valid =
    let (ranges, returned, _) = stitch-source_ranges service text valid in
    elim (Bool-cases (is_blank text)) [
      | inl blank ↦ rw blank (inl (blank, refl))
      | inr content ↦ elim (Result-cases (rename_generation source)) [
        | inl (renamed, e) ↦
            rw (content, e, returned)
              (inr (
                content,
                (rename_generation-ok source renamed e, collect-AreSlices text renamed 0 ranges),
              ))
        | inr (e, raised) ↦
            let (ambiguous, twice) = rename_generation-error source e raised in
            rw (content, raised) (ambiguous, (content, twice))
      ]
    ]

-- What `split` promises, by the value that stands under "text".
abbrev pub SplitsValue :
    Dict Text Value → Option Value → Result ChunkError (Option (List KnowledgeChunk)) → Type 0
SplitsValue source (some (str text)) r = Splits source text r
SplitsValue source _ r = r ≡ err text_must_be_a_string

split_popped-SplitsValue :
    (service : ChunkService) (source : Dict Text Value) (value : Option Value)
    → IsValid service
    → SplitsValue source value (split_popped service source value)
unfolding split_popped
split_popped-SplitsValue service source (some (str text)) valid =
    split_text-Splits service source text valid
split_popped-SplitsValue service source _ valid = refl

-- The other keys are there as before.
has-pop_text :
    (key : Text) (source : Dict Text Value)
    → key == codes "text" ≡ false
    → Dict.has key (Dict.pop (codes "text") source) ≡ Dict.has key source
unfolding Dict.has
has-pop_text key source other =
    let same : Dict.get key (Dict.pop (codes "text") source) ≡ Dict.get key source =
      get-pop (codes "text") key source ∙ ap (λ b. if b then none else Dict.get key source) other in
    ap (λ (found : Option Value). elim found [ none ↦ false | some v ↦ true ]) same

named_alike :
    (a b : Dict Text Value)
    → Dict.has (codes "generation") a ≡ Dict.has (codes "generation") b
    → Dict.has (codes "index_generation") a ≡ Dict.has (codes "index_generation") b
    → (value : Option Value) (r : Result ChunkError (Option (List KnowledgeChunk)))
    → SplitsValue a value r
    → SplitsValue b value r
named_alike a b first second (some (str text)) (err e) h =
    (h.0, (h.1.0, (sym first ∙ h.1.1.0, sym second ∙ h.1.1.1)))
named_alike a b first second (some (str text)) (ok none) h = h
named_alike a b first second (some (str text)) (ok (some chunks)) (inl h) = inl h
named_alike a b first second (some (str text)) (ok (some chunks)) (inr h) =
    inr (h.0, ((λ twice. h.1.0 (first ∙ twice.0, second ∙ twice.1)), h.1.1))
named_alike a b first second _ r h = h

SplitsValue-popped :
    (source : Dict Text Value) (value : Option Value)
    (r : Result ChunkError (Option (List KnowledgeChunk)))
    → SplitsValue (Dict.pop (codes "text") source) value r
    → SplitsValue source value r
SplitsValue-popped source value r h =
    let first = has-pop_text (codes "generation") source refl in
    let second = has-pop_text (codes "index_generation") source refl in
    named_alike (Dict.pop (codes "text") source) source first second value r h

-- Of a service with valid sizes, `split` raises exactly where the source's "text" is no string, or is
-- not blank and the source names its generation under both keys. Of a blank text it returns no
-- chunks. Otherwise its loop ends, and what it returns are slices of the text, each with the offsets
-- where it stands, numbered from 0 without a gap, and none of them blank.
pub split-AreSlices :
    (service : ChunkService) (source : Dict Text Value)
    → IsValid service
    → SplitsValue source (Dict.get (codes "text") source) (split service source)
unfolding split
split-AreSlices service source valid =
    SplitsValue-popped source (Dict.get (codes "text") source) _ (
      split_popped-SplitsValue service (Dict.pop (codes "text") source)
        (Dict.get (codes "text") source) valid)
