-- ===== src/ChunkService/Examples.antt =====
-- A text in chunks of six characters that share two.
use auto_reign.Prelude.{
  ℕ, ◌≡◌, refl, arith, Text, codes, text_key, length, some, List, [], ◌∷◌, ok, pos,
}
use auto_reign.Prelude.Dict
use auto_reign.Prelude.Dict.{Dict}
use auto_reign.Json.{Value, str}
use auto_reign.ChunkService.{
  ChunkService, init, rfind, minimum_boundary, boundary, range_end, ranges_from, source_ranges,
  split,
}
use auto_reign.ChunkService.Tiling.{IsValid, init-IsValid, Tiles, source_ranges-Tiles}
use auto_reign.ChunkService.Stitching.{stitch, stitch-source_ranges}
use auto_reign.ChunkService.Split.{SplitsValue, split-AreSlices}

abbrev service : ChunkService
service = record { chunk_size = 6; chunk_overlap = 2 }

service-made : init (pos 6) (pos 2) ≡ ok service
unfolding init
service-made = refl

service-IsValid : IsValid service
service-IsValid = init-IsValid (pos 6) (pos 2) service service-made

abbrev document : Text
document = codes "One. two three four"

abbrev source : Dict Text Value
source = (codes "text", str document) ∷ []

ranges_of_document :
    source_ranges service document
    ≡ some ((0, 4) ∷ (2, 5) ∷ (3, 9) ∷ (7, 13) ∷ (11, 15) ∷ (13, 19) ∷ [])
unfolding source_ranges ranges_from range_end boundary minimum_boundary rfind
ranges_of_document = refl

source_ranges-Tiles_example :
    (ranges : List (ℕ × ℕ)) × (source_ranges service document ≡ some ranges)
    × Tiles service (length document) 0 ranges
source_ranges-Tiles_example = source_ranges-Tiles service document service-IsValid (omega arith)

stitch-source_ranges_example :
    (ranges : List (ℕ × ℕ)) × (source_ranges service document ≡ some ranges)
    × (stitch service.chunk_overlap 0 document ranges ≡ document)
stitch-source_ranges_example = stitch-source_ranges service document service-IsValid

split-AreSlices_example : SplitsValue source (Dict.get (codes "text") source) (split service source)
split-AreSlices_example = split-AreSlices service source service-IsValid
