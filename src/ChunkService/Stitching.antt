-- ===== src/ChunkService/Stitching.antt =====
-- The pieces of `_source_ranges`, put together again (knowledge_chunk_service.py).
use auto_reign.Prelude.{
  ℕ, zero, suc, ◌+◌, ◌-◌, ◌≤◌, ◌≡◌, refl, ap, ◌∙◌, some, List, [], ◌∷◌, ◌++◌, Text, arith, length,
  take, drop, take-append-drop,
}
use auto_reign.ChunkService.{ChunkService, slice, source_ranges, ranges_from}
use auto_reign.ChunkService.Tiling.{IsValid, Tiles, source_ranges-Tiles}

take-length {ℓ} : {A : Type ℓ} (n : ℕ) (xs : List A) → length xs ≤ n → take n xs ≡ xs
take-length zero [] h = refl
take-length zero (x ∷ xs) h = elim h [ ]
take-length (suc n) [] h = refl
take-length (suc n) (x ∷ xs) h = ap (λ t. x ∷ t) (take-length n xs (omega arith))

drop-length {ℓ} : {A : Type ℓ} (n : ℕ) (xs : List A) → length xs ≤ n → drop n xs ≡ []
drop-length zero [] h = refl
drop-length zero (x ∷ xs) h = elim h [ ]
drop-length (suc n) [] h = refl
drop-length (suc n) (x ∷ xs) h = drop-length n xs (omega arith)

-- The rest of a piece and what follows it are the rest of the whole.
drop-take {ℓ} :
    {A : Type ℓ} (skip size : ℕ) (xs : List A)
    → skip ≤ size
    → drop skip (take size xs) ++ drop size xs ≡ drop skip xs
drop-take zero size xs h = take-append-drop size xs
drop-take (suc skip) zero xs h = elim h [ ]
drop-take (suc skip) (suc size) [] h = refl
drop-take (suc skip) (suc size) (x ∷ xs) h = drop-take skip size xs (omega arith)

drop-drop {ℓ} : {A : Type ℓ} (n m k : ℕ) (xs : List A) → k ≡ n + m → drop m (drop n xs) ≡ drop k xs
drop-drop zero m k xs e = let e' : m ≡ k = omega arith in rw e'
drop-drop (suc n) m zero xs e = absurd (omega arith)
drop-drop (suc n) zero (suc k) [] e = refl
drop-drop (suc n) (suc m) (suc k) [] e = refl
drop-drop (suc n) m (suc k) (x ∷ xs) e = drop-drop n m k xs (omega arith)

drop-slice :
    (skip start end : ℕ) (text : Text)
    → start + skip ≤ end
    → drop skip (slice text start end) ++ drop end text ≡ drop (start + skip) text
drop-slice skip start end text h = rw (← drop-drop start (end - start) end text (omega arith)) (
    rw (← drop-drop start skip (start + skip) text refl)
      (drop-take skip (end - start) (drop start text) (omega arith)))

-- The text of the first range without its first `skip` characters, then each next range without
-- the overlap.
pub stitch : ℕ → ℕ → Text → List (ℕ × ℕ) → Text
stitch overlap skip text [] = []
stitch overlap skip text ((start, end) ∷ ranges) =
    drop skip (slice text start end) ++ stitch overlap overlap text ranges

module _ (service : ChunkService) (text : Text) where
  stitch-Tiles :
      (skip start : ℕ) (ranges : List (ℕ × ℕ))
      → Tiles service (length text) start ranges
      → skip ≤ service.chunk_overlap
      → start + skip ≤ length text
      → stitch service.chunk_overlap skip text ranges ≡ drop (start + skip) text
  unfolding stitch
  stitch-Tiles skip start [] tiles h k = absurd tiles
  stitch-Tiles skip start ((a, b) ∷ []) tiles h k =
      let nothing_left : drop b text ≡ [] = drop-length b text (omega arith) in
      rw tiles.0 (rw (← nothing_left) (drop-slice skip start b text (omega arith)))
  stitch-Tiles skip start ((a, b) ∷ r ∷ ranges) tiles h k =
      let back : b - service.chunk_overlap + service.chunk_overlap ≡ b = omega arith in
      let ih =
        stitch-Tiles service.chunk_overlap (b - service.chunk_overlap) (r ∷ ranges) tiles.5
          (omega arith) (omega arith) in
      rw tiles.0 (
        ap (λ t. drop skip (slice text start b) ++ t) (ih ∙ ap (λ n. drop n text) back)
        ∙ drop-slice skip start b text (omega arith))

-- Where the service has valid sizes, the loop ends on every text, and the first range's text and, of each next one, what lies behind
-- the overlap, are the document's text again.
pub stitch-source_ranges :
    (service : ChunkService) (text : Text)
    → IsValid service
    → (ranges : List (ℕ × ℕ)) × (source_ranges service text ≡ some ranges)
      × (stitch service.chunk_overlap 0 text ranges ≡ text)
unfolding source_ranges ranges_from stitch
stitch-source_ranges service [] valid = ([], refl, refl)
stitch-source_ranges service (c ∷ text) valid =
    let (ranges, returned, tiles) = source_ranges-Tiles service (c ∷ text) valid (omega arith) in
    (ranges, returned, stitch-Tiles service (c ∷ text) 0 0 ranges tiles (omega arith) (omega arith))
