-- ===== src/TextOffsets/Laws.antt =====
-- Lengths in UTF-16 code units, and the chunks of a text (text_offsets.py).
use auto_reign.Prelude.{
  ℕ, ◌+◌, ◌*◌, ◌≡◌, refl, Bool, true, not, List, [], ◌∷◌, ◌++◌, arith, Text, Result, ok, err, ◌>>=◌,
  length, leb, all, pos, negsuc, ℤ, if◌then◌else◌, is_surrogate, ◌&&◌, ◌↔◌,
}
use auto_reign.TextOffsets.{
  TextOffsetError, text_offset_invalid_text, encode_utf16_le, utf16_code_units,
  advance_utf16_offset,
}

-- No strict encoding accepts a text with a surrogate in it.
abbrev pub IsStrict : Text → Type 0
IsStrict text = all (λ c. not (is_surrogate c)) text ≡ true

-- JavaScript's `String.length`: two units above the basic plane, one below.
unfoldable pub js_length : Text → ℕ
js_length [] = 0
js_length (c ∷ s) = (if leb 0x10000 c then 2 else 1) + js_length s

pub js_length-append : (s t : Text) → js_length (s ++ t) ≡ js_length s + js_length t
unfolding js_length
js_length-append [] t = omega arith
js_length-append (c ∷ s) t = omega (arith, js_length-append s t)

-- What the encoder returns, in one equation.
abbrev encoded_size : Result TextOffsetError (List ℕ) → Result TextOffsetError ℕ
encoded_size r = r >>= λ bytes. ok (length bytes)

abbrev pub strict_or {ℓ} : {A : Type ℓ} → Text → A → Result TextOffsetError A
strict_or text a =
    if all (λ c. not (is_surrogate c)) text then ok a else err text_offset_invalid_text

length-encode : (s : Text) → encoded_size (encode_utf16_le s) ≡ strict_or s (js_length s * 2)
unfolding encode_utf16_le js_length
length-encode [] = refl
length-encode (c ∷ s) = ground (arith, length-encode s)

-- The length in UTF-16 code units is the browser's length, and a text with a surrogate is refused.
pub utf16_code_units-js_length : (s : Text) → utf16_code_units s ≡ strict_or s (js_length s)
unfolding utf16_code_units
utf16_code_units-js_length s = ground (arith, length-encode s)

all-append {ℓ} :
    {A : Type ℓ} (p : A → Bool) (xs ys : List A) → all p (xs ++ ys) ≡ (all p xs && all p ys)
all-append p [] ys = refl
all-append p (x ∷ xs) ys = ground (arith, all-append p xs ys)

-- Advancing an offset chunk by chunk is advancing it by the whole text: the same offset, or the
-- same error.
pub advance-append :
    (offset : ℤ) (s t : Text)
    → (advance_utf16_offset offset s >>= λ middle. advance_utf16_offset (pos middle) t)
      ≡ advance_utf16_offset offset (s ++ t)
unfolding advance_utf16_offset
advance-append (negsuc n) s t = refl
advance-append (pos n) s t =
    rw (utf16_code_units-js_length (s ++ t), utf16_code_units-js_length s)
      (ground (
        arith,
        utf16_code_units-js_length t,
        js_length-append s t,
        all-append (λ c. not (is_surrogate c)) s t,
      ))

-- Advancing an offset succeeds exactly for a text without surrogates, and then moves it by the
-- browser's length.
pub advance-ok :
    (offset units : ℕ) (s : Text)
    → (advance_utf16_offset (pos offset) s ≡ ok units)
      ↔ (IsStrict s × (units ≡ offset + js_length s))
unfolding advance_utf16_offset
advance-ok offset units s = (
  λ h. ground (arith, utf16_code_units-js_length s),
  λ h. ground (arith, utf16_code_units-js_length s),
)
