-- ===== src/ChunkService.antt =====
-- backend/app/services/knowledge_chunk_service.py: a document's text cut into overlapping chunks.
pub mod Tiling
pub mod Stitching
pub mod Split
mod Examples
use auto_reign.Prelude.{
  ℕ, zero, suc, ◌+◌, ◌-◌, ◌*◌, ◌/◌, ◌≡◌, max, min, Bool, true, false, ◌&&◌, ◌||◌, Option, none,
  some, List, [], ◌∷◌, ◌++◌, Text, codes, text_key, text_beq, nat_beq, Result, ok, err, ◌>>=◌,
  length, take, drop, leb, ltb, ℤ, pos, negsuc, if◌then◌else◌, is_blank, ◌==◌,
}
use auto_reign.Prelude.Dict
use auto_reign.Prelude.Dict.{Dict}
use auto_reign.Json.{Value, int, str}

pub data ChunkError : Type 0 where
  chunk_size_must_be_positive chunk_overlap_must_not_exceed_half : ChunkError
  text_must_be_a_string generation_is_ambiguous : ChunkError

pub record ChunkService : Type 0 where
  pub chunk_size : ℕ
  pub chunk_overlap : ℕ

-- `__init__`
unfoldable pub init : ℤ → ℤ → Result ChunkError ChunkService
init (negsuc _) _ = err chunk_size_must_be_positive
init (pos zero) _ = err chunk_size_must_be_positive
init (pos (suc n)) (negsuc _) = err chunk_overlap_must_not_exceed_half
init (pos (suc n)) (pos overlap) =
    if ltb (suc n) (overlap * 2)
    then err chunk_overlap_must_not_exceed_half
    else ok (record { chunk_size = suc n; chunk_overlap = overlap })

abbrev separators : List Text
separators = codes "\n\n" ∷ codes "\n" ∷ codes "。" ∷ codes "." ∷ codes " " ∷ []

-- text[start:end]
abbrev pub slice : Text → ℕ → ℕ → Text
slice text start end = take (end - start) (drop start text)

-- The last of `count` places from `start` on where `separator` stands.
rfind_below : Text → Text → ℕ → ℕ → Option ℕ
rfind_below text separator start zero = none
rfind_below text separator start (suc count) =
    let earlier = rfind_below text separator start count in
    if slice text (start + count) (start + count + length separator) == separator
    then some (start + count)
    else earlier

-- text.rfind(separator, start, end): the match lies whole between `start` and `end`.
rfind : Text → Text → ℕ → ℕ → Option ℕ
unfolding rfind_below
rfind text separator start end =
    rfind_below text separator start (end + 1 - (start + length separator))

module _ (service : ChunkService) (text : Text) where
  open service use {chunk_size, chunk_overlap}

  pub minimum_boundary : ℕ
  minimum_boundary = max (chunk_overlap + 1) (chunk_size / 2)

  -- The loop over `_SEPARATORS`: the end behind the first separator that leaves a chunk long enough.
  boundary : List Text → ℕ → ℕ → ℕ
  boundary [] start maximum_end = maximum_end
  boundary (separator ∷ rest) start maximum_end =
      let next = boundary rest start maximum_end in
      elim (rfind text separator start maximum_end) [
        | none ↦ next
        | some position ↦
            let candidate_end = position + length separator in
            if leb minimum_boundary (candidate_end - start) then candidate_end else next
      ]

  range_end : ℕ → ℕ
  range_end start =
      let maximum_end = min (start + chunk_size) (length text) in
      if ltb maximum_end (length text) then boundary separators start maximum_end else maximum_end

  -- The `while` loop on fuel; `none` means that the fuel ran out.
  ranges_from : ℕ → ℕ → Option (List (ℕ × ℕ))
  ranges_from zero start = none
  ranges_from (suc fuel) start =
      let end = range_end start in
      let rest = ranges_from fuel (end - chunk_overlap) in
      if ltb start (length text)
      then (if nat_beq end (length text)
          then some ((start, end) ∷ [])
          else elim rest [ none ↦ none | some ranges ↦ some ((start, end) ∷ ranges) ])
      else some []

  -- A round moves `start` on, so one round for each character and one more are enough.
  pub source_ranges : Option (List (ℕ × ℕ))
  source_ranges = ranges_from (suc (length text)) 0

pub record KnowledgeChunk : Type 0 where
  pub content : Text
  pub metadata : Dict Text Value

-- `{**source, "chunk_index": …, "source_start": …, "source_end": …}`
chunk_metadata : Dict Text Value → ℕ → ℕ → ℕ → Dict Text Value
chunk_metadata source index start end = Dict.put (codes "source_end") (int (pos end)) (
    Dict.put (codes "source_start") (int (pos start))
      (Dict.put (codes "chunk_index") (int (pos index)) source))

-- The loop over the ranges, with `len(chunks)` counted: a blank chunk is skipped.
collect : Text → Dict Text Value → ℕ → List (ℕ × ℕ) → List KnowledgeChunk
unfolding chunk_metadata
collect text source index [] = []
collect text source index ((start, end) ∷ ranges) =
    let content = slice text start end in
    let metadata = chunk_metadata source index start end in
    let skipped = collect text source index ranges in
    let kept = collect text source (suc index) ranges in
    if is_blank content then skipped else record { content = content; metadata = metadata } ∷ kept

-- `source["index_generation"] = source.pop("generation")`
rename_generation : Dict Text Value → Result ChunkError (Dict Text Value)
rename_generation source = elim (Dict.get (codes "generation") source) [
  | none ↦ ok source
  | some generation ↦
      if Dict.has (codes "index_generation") source
      then err generation_is_ambiguous
      else ok
          (Dict.put (codes "index_generation") generation (Dict.pop (codes "generation") source))
]

split_text :
    ChunkService → Dict Text Value → Text → Result ChunkError (Option (List KnowledgeChunk))
split_text service source text = if is_blank text then ok (some []) else do
  source ← rename_generation source
  ok (elim (source_ranges service text) [
    | none ↦ none
    | some ranges ↦ some (collect text source 0 ranges)
  ])

-- The test on what `source.pop("text", None)` returned; `source` is the dict after the pop.
split_popped :
    ChunkService → Dict Text Value → Option Value → Result ChunkError (Option (List KnowledgeChunk))
split_popped service source (some (str text)) = split_text service source text
split_popped service source _ = err text_must_be_a_string

-- `none` inside the result means that the fuel of the loop ran out.
pub split : ChunkService → Dict Text Value → Result ChunkError (Option (List KnowledgeChunk))
split service source =
    split_popped service (Dict.pop (codes "text") source) (Dict.get (codes "text") source)
