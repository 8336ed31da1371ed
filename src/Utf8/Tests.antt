-- ===== src/Utf8/Tests.antt =====
-- A code point of each length, and the theorems at one.
use cool_frost.Prelude.{ℕ, ◌<◌, ◌≡◌, refl, [], ◌∷◌, ◌++◌, arith, length}
use cool_frost.Utf8.{
  rune_error, utf8_is_cont, utf8_encode, utf8_decode, decode_sequence, decode_rest, accept,
}
use cool_frost.Utf8.Decode.{utf8_decode-lt}
use cool_frost.Utf8.RoundTrip.{IsScalar, utf8_decode-encode}

euro : utf8_encode 0x20ac ≡ 0xe2 ∷ 0x82 ∷ 0xac ∷ []
unfolding utf8_encode
euro = refl

-- two bytes for a code point of one
overlong : utf8_decode (0xc1 ∷ 0x81 ∷ []) ≡ (rune_error, [])
unfolding utf8_decode decode_sequence decode_rest accept utf8_is_cont
overlong = refl

euro-IsScalar : IsScalar 0x20ac
euro-IsScalar = record { positive = omega arith; in_unicode = omega arith; no_surrogate = refl }

utf8_decode-encode_example : utf8_decode (utf8_encode 0x20ac ++ (65 ∷ [])) ≡ (0x20ac, 65 ∷ [])
utf8_decode-encode_example = utf8_decode-encode 0x20ac (65 ∷ []) euro-IsScalar

utf8_decode-lt_example : length (utf8_decode (0xe2 ∷ 65 ∷ [])).1 < length {A = ℕ} (0xe2 ∷ 65 ∷ [])
utf8_decode-lt_example = utf8_decode-lt 0xe2 (65 ∷ []) (λ e. omega arith)
