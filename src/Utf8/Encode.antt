-- ===== src/Utf8/Encode.antt =====
-- The bytes that utf8_encode of libc/utf8.h writes, in each of the four lengths.
use cool_frost.Prelude.{
  ℕ, ◌+◌, ◌/◌, ◌%◌, ◌^◌, ◌≤◌, ◌<◌, bit_or, ◌≡◌, refl, ap, ◌∙◌, true, false, [], ◌∷◌, arith, ltb,
  leb, wrap8, bit_and-mask,
}
use cool_frost.Utf8.{rune_max, is_surrogate, cont, utf8_encode}
use cool_frost.Utf8.Bits.{or_80, or_c0, or_e0, or_f0}

cont_lem : (x : ℕ) → cont x ≡ 0x80 + x % 64
cont_lem x = ap (bit_or 0x80) (bit_and-mask x 6) ∙ or_80 (x % 64) (omega arith)

-- the bytes of a code point in each of the four lengths
pub encode_two :
    (cp : ℕ) → 0x80 ≤ cp → cp < 0x800 → utf8_encode cp ≡ (0xc0 + cp / 64) ∷ (0x80 + cp % 64) ∷ []
unfolding utf8_encode
encode_two cp ge lt =
    let t0 : ltb cp 0x80 ≡ false = ground arith in
    let t1 : ltb cp 0x800 ≡ true = ground arith in
    let lead : wrap8 (bit_or 0xc0 (cp / 2 ^ 6)) ≡ 0xc0 + cp / 64 =
      ap wrap8 (or_c0 (cp / 2 ^ 6) (omega arith)) ∙ omega arith in
    rw (t0, t1, lead, cont_lem cp) refl

pub encode_three :
    (cp : ℕ)
    → 0x800 ≤ cp
    → cp < 0x10000
    → is_surrogate cp ≡ false
    → utf8_encode cp ≡ (0xe0 + cp / 64 / 64) ∷ (0x80 + cp / 64 % 64) ∷ (0x80 + cp % 64) ∷ []
unfolding utf8_encode
encode_three cp ge lt plain =
    let t0 : ltb cp 0x80 ≡ false = ground arith in
    let t1 : ltb cp 0x800 ≡ false = ground arith in
    let t2 : ltb cp 0x10000 ≡ true = ground arith in
    let lead : wrap8 (bit_or 0xe0 (cp / 2 ^ 12)) ≡ 0xe0 + cp / 64 / 64 =
      ap wrap8 (or_e0 (cp / 2 ^ 12) (omega arith)) ∙ omega arith in
    rw (t0, t1, t2, plain, lead, cont_lem (cp / 2 ^ 6), cont_lem cp) refl

pub encode_four :
    (cp : ℕ)
    → 0x10000 ≤ cp
    → cp ≤ rune_max
    → utf8_encode cp
      ≡ (0xf0 + cp / 64 / 64 / 64)
        ∷ (0x80 + cp / 64 / 64 % 64)
        ∷ (0x80 + cp / 64 % 64)
        ∷ (0x80 + cp % 64)
        ∷ []
unfolding utf8_encode
encode_four cp ge le =
    let t0 : ltb cp 0x80 ≡ false = ground arith in
    let t1 : ltb cp 0x800 ≡ false = ground arith in
    let t2 : ltb cp 0x10000 ≡ false = ground arith in
    let t3 : leb cp rune_max ≡ true = ground arith in
    let lead : wrap8 (bit_or 0xf0 (cp / 2 ^ 18)) ≡ 0xf0 + cp / 64 / 64 / 64 =
      ap wrap8 (or_f0 (cp / 2 ^ 18) (omega arith)) ∙ omega arith in
    let high : cp / 2 ^ 12 ≡ cp / 64 / 64 = omega arith in
    rw (t0, t1, t2, t3, lead, cont_lem (cp / 2 ^ 12), cont_lem (cp / 2 ^ 6), cont_lem cp, high) refl

pub encode_one : (cp : ℕ) → cp < 0x80 → utf8_encode cp ≡ cp ∷ []
unfolding utf8_encode
encode_one cp lt = ground arith
