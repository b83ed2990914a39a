-- ===== src/ChunkService/Tiling.antt =====
-- The ranges of `_source_ranges` and the fuel of their loop (knowledge_chunk_service.py).
use auto_reign.Prelude.{
  ℕ, zero, suc, ◌+◌, ◌-◌, ◌*◌, ◌/◌, ◌≤◌, ◌<◌, ◌≡◌, refl, min, Option, none, some, List, [], ◌∷◌,
  Text, arith, length, nat_beq, inl, inr, Bool-cases, ok, ℤ, pos,
}
use auto_reign.ChunkService.{
  ChunkService, init, rfind_below, rfind, minimum_boundary, boundary, range_end, ranges_from,
  source_ranges, separators,
}

-- What the constructor lets through.
pub record IsValid (service : ChunkService) : Type 0 where
  pub size_positive : 0 < service.chunk_size
  pub overlap_half : service.chunk_overlap * 2 ≤ service.chunk_size

-- Whatever sizes the constructor accepts make a service whose chunks are not empty and whose overlap
-- is at most half of a chunk.
pub init-IsValid :
    (size overlap : ℤ) (service : ChunkService) → init size overlap ≡ ok service → IsValid service
unfolding init
init-IsValid (pos zero) _ service h = cc
init-IsValid (pos (suc n)) (pos overlap) service h = ground arith
init-IsValid _ _ service h = ground arith

-- A match of `size` characters, if there is one, lies whole in the window.
abbrev Within : ℕ → ℕ → ℕ → Option ℕ → Type 0
Within start end size none = Unit
Within start end size (some position) = (start ≤ position) × (position + size ≤ end)

rfind_below-Within :
    (text separator : Text) (start count : ℕ)
    → Within start (start + count) 1 (rfind_below text separator start count)
unfolding rfind_below
rfind_below-Within text separator start zero = tt
rfind_below-Within text separator start (suc count) =
    ground (arith, rfind_below-Within text separator start count)

rfind-Within :
    (text separator : Text) (start end : ℕ)
    → Within start end (length separator) (rfind text separator start end)
unfolding rfind
rfind-Within text separator start end =
    ground (arith, rfind_below-Within text separator start (end + 1 - (start + length separator)))

module _ (service : ChunkService) (text : Text) where
  boundary_range :
      (seps : List Text) (start maximum_end : ℕ)
      → start + minimum_boundary service text ≤ maximum_end
      → (start + minimum_boundary service text ≤ boundary service text seps start maximum_end)
        × (boundary service text seps start maximum_end ≤ maximum_end)
  unfolding boundary
  boundary_range [] start maximum_end h = omega arith
  boundary_range (separator ∷ seps) start maximum_end h =
      ground (
        arith,
        boundary_range seps start maximum_end,
        rfind-Within text separator start maximum_end,
      )

  -- One round, from a start inside the text.
  range_end_range :
      (start : ℕ)
      → IsValid service
      → start < length text
      → let end = range_end service text start in
        (end ≤ length text)
        × (end ≤ start + service.chunk_size)
        × (start < end)
        × (end < length text → start + minimum_boundary service text ≤ end)
  unfolding range_end minimum_boundary
  range_end_range start valid inside =
      ground
        (arith, boundary_range separators start (min (start + service.chunk_size) (length text)))

-- `ranges` tile the text from `start` on: each ends within a chunk's size, the last at the end of
-- the text and no other there, and each next one starts the overlap before the end of the last,
-- behind the start of it.
abbrev pub Tiles : ChunkService → ℕ → ℕ → List (ℕ × ℕ) → Type 0
Tiles service size start [] = ⊥
Tiles service size start ((a, b) ∷ []) =
    (a ≡ start) × (b ≡ size) × (start < size) × (size ≤ start + service.chunk_size)
Tiles service size start ((a, b) ∷ r ∷ rest) =
    (a ≡ start)
    × (start + service.chunk_overlap < b)
    × (start + service.chunk_size / 2 ≤ b)
    × (b ≤ start + service.chunk_size)
    × (b < size)
    × Tiles service size (b - service.chunk_overlap) (r ∷ rest)

Tiles-cons :
    (service : ChunkService) (size start end : ℕ) (ranges : List (ℕ × ℕ))
    → start + service.chunk_overlap < end
    → start + service.chunk_size / 2 ≤ end
    → end ≤ start + service.chunk_size
    → end < size
    → Tiles service size (end - service.chunk_overlap) ranges
    → Tiles service size start ((start, end) ∷ ranges)
Tiles-cons service size start end [] _ _ _ _ tiles = absurd tiles
Tiles-cons service size start end (r ∷ ranges) past half fits inside tiles =
    (refl, past, half, fits, inside, tiles)

module _ (service : ChunkService) (text : Text) (valid : IsValid service) where
  ranges_from-Tiles :
      (fuel start : ℕ)
      → length text < fuel + start
      → start < length text
      → (ranges : List (ℕ × ℕ)) × (ranges_from service text fuel start ≡ some ranges)
        × Tiles service (length text) start ranges
  unfolding ranges_from
  ranges_from-Tiles zero start enough inside = absurd (omega arith)
  ranges_from-Tiles (suc fuel) start enough inside =
      let end = range_end service text start in
      let range = range_end_range service text start valid inside in
      elim (Bool-cases (nat_beq end (length text))) [
        | inl last ↦ ((start, end) ∷ [], ground arith, (refl, ground arith, inside, ground arith))
        | inr more ↦
            let past : start + minimum_boundary service text ≤ end = ground arith in
            let (ranges, returned, tiles) =
              ranges_from-Tiles fuel (end - service.chunk_overlap)
                (unfold minimum_boundary in ground arith)
                (unfold minimum_boundary in ground arith) in
            (
              (start, end) ∷ ranges,
              ground arith,
              Tiles-cons service (length text) start end ranges
                  (unfold minimum_boundary in ground arith)
                  (unfold minimum_boundary in ground arith) (ground arith) (ground arith) tiles,
            )
      ]

  -- Where the service has valid sizes and the text is not empty, the loop ends, and its ranges tile the whole text: they start at
  -- 0 and end at its length, each next range starts exactly the overlap before the end of the last
  -- and behind its start, and none is longer than the configured size nor, but for the last,
  -- shorter than half of it.
  pub source_ranges-Tiles :
      0 < length text
      → (ranges : List (ℕ × ℕ)) × (source_ranges service text ≡ some ranges)
        × Tiles service (length text) 0 ranges
  unfolding source_ranges
  source_ranges-Tiles nonempty = ranges_from-Tiles (suc (length text)) 0 (omega arith) nonempty
