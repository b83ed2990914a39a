-- ===== src/TextOffsets/Examples.antt =====
-- Offsets behind a text with an emoji.
use auto_reign.Prelude.{◌≡◌, refl, Text, codes, ok, ◌>>=◌, pos, ◌++◌, ◌+◌, ◌↔◌}
use auto_reign.TextOffsets.{utf16_code_units, advance_utf16_offset, encode_utf16_le}
use auto_reign.TextOffsets.Laws.{
  IsStrict, strict_or, js_length, advance-append, advance-ok, utf16_code_units-js_length,
}

abbrev emoji : Text
emoji = codes "a😀"

units_of_emoji : utf16_code_units emoji ≡ ok 3
unfolding utf16_code_units encode_utf16_le
units_of_emoji = refl

utf16_code_units-js_length_example : utf16_code_units emoji ≡ strict_or emoji (js_length emoji)
utf16_code_units-js_length_example = utf16_code_units-js_length emoji

advance-append_example :
    (advance_utf16_offset (pos 4) emoji >>= λ middle. advance_utf16_offset (pos middle) (codes "b"))
    ≡ advance_utf16_offset (pos 4) (emoji ++ codes "b")
advance-append_example = advance-append (pos 4) emoji (codes "b")

advance-ok_example :
    (advance_utf16_offset (pos 4) emoji ≡ ok 7) ↔ (IsStrict emoji × (7 ≡ 4 + js_length emoji))
advance-ok_example = advance-ok 4 7 emoji
