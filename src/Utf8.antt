-- ===== src/Utf8.antt =====
-- libc/utf8.h and libc/utf8.c: one code point written as bytes, and read back.
pub mod Bits
pub mod Decode
pub mod Encode
pub mod RoundTrip
mod Tests
use cool_frost.Prelude.{
  ℕ, zero, suc, ◌+◌, ◌-◌, ◌*◌, ◌/◌, ◌%◌, ◌^◌, ◌≤◌, ◌<◌, min, bit_and, bit_or, bit_xor, ◌≡◌, refl,
  sym, ap, ◌∙◌, ◌≢◌, ◌↔◌, ◌⊎◌, inl, inr, Bool, true, false, not, ◌&&◌, ◌||◌, Option, none, some,
  List, [], ◌∷◌, ◌++◌, map, arith, ltb, leb, ◌==◌, if◌then◌else◌, Bool-cases, Option-cases, length,
  get_elem?, get_or, set, take, drop, replicate, wrap8, wrap32, wrap64, sub32, sub64,
}

abbrev pub rune_error : ℕ
rune_error = 0xfffd

-- `(rune_t)(-1)`
abbrev pub rune_eof : ℕ
rune_eof = 2 ^ 32 - 1

abbrev pub rune_max : ℕ
rune_max = 0x10ffff

abbrev pub is_surrogate : ℕ → Bool
is_surrogate cp = leb 0xd800 cp && leb cp 0xdfff

pub utf8_byte_len : ℕ → ℕ
utf8_byte_len cp =
    if ltb cp 0x80
    then 1
    else if ltb cp 0x800
    then 2
    else if ltb cp 0x10000
    then if is_surrogate cp then 0 else 3
    else if leb cp rune_max
    then 4
    else 0

pub utf8_is_cont : ℕ → Bool
utf8_is_cont b = bit_and b 0xc0 == 0x80

-- `0x80u | ((cp >> shift) & 0x3Fu)`, for `cp >> shift`
abbrev pub cont : ℕ → ℕ
cont x = bit_or 0x80 (bit_and x 0x3f)

-- The bytes written to `dst`; their number is the value returned.
pub utf8_encode : ℕ → List ℕ
utf8_encode cp =
    if ltb cp 0x80
    then cp ∷ []
    else if ltb cp 0x800
    then wrap8 (bit_or 0xc0 (cp / 2 ^ 6)) ∷ cont cp ∷ []
    else if ltb cp 0x10000
    then if is_surrogate cp
      then 0xef ∷ 0xbf ∷ 0xbd ∷ []
      else wrap8 (bit_or 0xe0 (cp / 2 ^ 12)) ∷ cont (cp / 2 ^ 6) ∷ cont cp ∷ []
    else if leb cp rune_max
    then wrap8 (bit_or 0xf0 (cp / 2 ^ 18)) ∷ cont (cp / 2 ^ 12) ∷ cont (cp / 2 ^ 6) ∷ cont cp ∷ []
    else 0xef ∷ 0xbf ∷ 0xbd ∷ []

-- `*s`, where a string is its bytes up to the terminator
abbrev pub peek : List ℕ → ℕ
peek [] = 0
peek (b ∷ s) = b

-- The loop over the continuation bytes, `extra` of them to read; `none` where it returns
-- RUNE_ERROR.
pub decode_rest : ℕ → ℕ → List ℕ → Option ℕ × List ℕ
decode_rest zero cp s = (some cp, s)
decode_rest (suc extra) cp s =
    let rest =
      decode_rest extra (bit_or (wrap32 (cp * 2 ^ 6)) (bit_and (peek s) 0x3f)) (drop 1 s) in
    if utf8_is_cont (peek s) then rest else (none, s)

-- "Reject overlong encodings", "Reject surrogates and values > RUNE_MAX"
pub accept : (extra cp : ℕ) → ℕ
accept extra cp =
    if extra == 1 && ltb cp 0x80
    then rune_error
    else if extra == 2 && ltb cp 0x800
    then rune_error
    else if extra == 3 && ltb cp 0x10000
    then rune_error
    else if is_surrogate cp
    then rune_error
    else if ltb rune_max cp
    then rune_error
    else cp

-- A sequence of a lead byte and `extra` continuation bytes.
pub decode_sequence : (extra cp : ℕ) → List ℕ → ℕ × List ℕ
decode_sequence extra cp s =
    let (got, s') = decode_rest extra cp s in
    elim got [ none ↦ (rune_error, s') | some cp' ↦ (accept extra cp', s') ]

-- `utf8_decode`, with the advanced pointer beside the result
pub utf8_decode : List ℕ → ℕ × List ℕ
utf8_decode s =
    let lead = peek s in
    let after = drop 1 s in
    if lead == 0
    then (rune_eof, s)
    else if ltb lead 0x80
    then (lead, after)
    else if bit_and lead 0xe0 == 0xc0
    then decode_sequence 1 (bit_and lead 0x1f) after
    else if bit_and lead 0xf0 == 0xe0
    then decode_sequence 2 (bit_and lead 0x0f) after
    else if bit_and lead 0xf8 == 0xf0
    then decode_sequence 3 (bit_and lead 0x07) after
    else (rune_error, after)

pub utf8_strlen : List ℕ → ℕ
utf8_strlen [] = 0
utf8_strlen (b ∷ s) =
    let rest = utf8_strlen s in if b == 0 then 0 else if utf8_is_cont b then rest else suc rest

pub utf8_advance : List ℕ → ℕ → List ℕ
utf8_advance s zero = s
utf8_advance s (suc n) =
    let rest = utf8_advance (utf8_decode s).1 n in if peek s == 0 then s else rest
