-- ===== src/TextOffsets.antt =====
-- backend/app/services/text_offsets.py: offsets in UTF-16 code units, as a browser counts them.
pub mod Laws
mod Examples
use auto_reign.Prelude.{
  ℕ, ◌+◌, ◌-◌, ◌/◌, ◌%◌, List, [], ◌∷◌, ◌++◌, Text, Result, ok, err, ◌>>=◌, length, leb, ℤ, pos,
  negsuc, if◌then◌else◌, is_surrogate,
}

pub data TextOffsetError : Type 0 where
  text_offset_invalid_text text_offset_invalid_offset : TextOffsetError

-- One 16-bit unit in little-endian order.
abbrev unit_bytes : ℕ → List ℕ
unit_bytes u = (u % 256) ∷ (u / 256) ∷ []

-- The units of one code point: a pair of surrogates above the basic plane.
abbrev encode_char : ℕ → List ℕ
encode_char c =
    if leb 0x10000 c
    then unit_bytes (0xd800 + (c - 0x10000) / 1024) ++ unit_bytes (0xdc00 + (c - 0x10000) % 1024)
    else unit_bytes c

-- text.encode("utf-16-le", errors="strict")
unfoldable pub encode_utf16_le : Text → Result TextOffsetError (List ℕ)
unfolding is_surrogate
encode_utf16_le [] = ok []
encode_utf16_le (c ∷ s) =
    let rest = encode_utf16_le s in
    if is_surrogate c
    then err text_offset_invalid_text
    else rest >>= λ bytes. ok (encode_char c ++ bytes)

unfoldable pub utf16_code_units : Text → Result TextOffsetError ℕ
unfolding encode_utf16_le
utf16_code_units text = do encoded ← encode_utf16_le text; ok (length encoded / 2)

unfoldable pub advance_utf16_offset : ℤ → Text → Result TextOffsetError ℕ
advance_utf16_offset (pos offset) content = do units ← utf16_code_units content; ok (offset + units)
advance_utf16_offset (negsuc _) content = err text_offset_invalid_offset
