-- ===== src/Utf8/Decode.antt =====
-- What utf8_decode of libc/utf8.c makes of a lead byte and its continuation bytes.
use cool_frost.Prelude.{
  ℕ, zero, suc, ◌+◌, ◌*◌, ◌^◌, ◌≤◌, ◌<◌, bit_and, bit_or, ◌≡◌, refl, ap, ◌∙◌, ◌≢◌, true, false,
  some, List, ◌∷◌, arith, ltb, ◌==◌, length, drop, wrap32, bit_and-mask, ==_iff, length-drop,
}
use cool_frost.Utf8.{utf8_is_cont, peek, decode_rest, accept, decode_sequence, utf8_decode}
use cool_frost.Utf8.Bits.{lead_two, lead_three, lead_four, top_two, bit_or-shifted}

pub low_bits : (y : ℕ) → y < 64 → bit_and (0x80 + y) 0x3f ≡ y
low_bits y lt = bit_and-mask (0x80 + y) 6 ∙ omega arith

pub cont-is_cont : (y : ℕ) → y < 64 → utf8_is_cont (0x80 + y) ≡ true
unfolding utf8_is_cont
cont-is_cont y lt = (==_iff _ _).1 (top_two (0x80 + y) (omega arith) ∙ omega arith)

decode_rest_step :
    (extra cp y : ℕ) (s : List ℕ)
    → y < 64
    → cp < 2 ^ 26
    → decode_rest (suc extra) cp ((0x80 + y) ∷ s) ≡ decode_rest extra (cp * 64 + y) s
unfolding decode_rest
decode_rest_step extra cp y s lt small =
    let shifted : wrap32 (cp * 2 ^ 6) ≡ cp * 2 ^ 6 = omega arith in
    rw (cont-is_cont y lt, low_bits y lt, shifted)
      (ap (λ k. decode_rest extra k s) (bit_or-shifted cp 6 y lt))

decode_rest_zero : (cp : ℕ) (s : List ℕ) → decode_rest 0 cp s ≡ (some cp, s)
unfolding decode_rest
decode_rest_zero cp s = refl

decode_sequence_lem :
    (extra cp c : ℕ) (s s' : List ℕ)
    → decode_rest extra cp s ≡ (some c, s')
    → decode_sequence extra cp s ≡ (accept extra c, s')
unfolding decode_sequence
decode_sequence_lem extra cp c s s' e = rw (decode_sequence, e) (ap (λ r. (accept extra c, r.1)) e)

pub decode_two :
    (x y : ℕ) (s : List ℕ)
    → x < 32
    → y < 64
    → utf8_decode ((0xc0 + x) ∷ (0x80 + y) ∷ s) ≡ (accept 1 (x * 64 + y), s)
unfolding utf8_decode
decode_two x y s hx hy =
    let t0 : ((0xc0 + x) == 0) ≡ false = ground arith in
    let t1 : ltb (0xc0 + x) 0x80 ≡ false = ground arith in
    let t2 : (bit_and (0xc0 + x) 0xe0 == 0xc0) ≡ true =
      (==_iff _ _).1 (lead_two (0xc0 + x) (omega arith) ∙ omega arith) in
    let low : bit_and (0xc0 + x) 0x1f ≡ x = bit_and-mask (0xc0 + x) 5 ∙ omega arith in
    rw (t0, t1, t2, low)
      (decode_sequence_lem 1 x _ _ _
        (decode_rest_step 0 x y s hy (omega arith) ∙ decode_rest_zero _ s))

differs : {m n k : ℕ} → m ≡ n → n ≢ k → (m == k) ≡ false
differs e ne = ground arith

pub decode_three :
    (x y z : ℕ) (s : List ℕ)
    → x < 16
    → y < 64
    → z < 64
    → utf8_decode ((0xe0 + x) ∷ (0x80 + y) ∷ (0x80 + z) ∷ s) ≡ (accept 2 ((x * 64 + y) * 64 + z), s)
unfolding utf8_decode
decode_three x y z s hx hy hz =
    let t0 : ((0xe0 + x) == 0) ≡ false = ground arith in
    let t1 : ltb (0xe0 + x) 0x80 ≡ false = ground arith in
    let t2 : (bit_and (0xe0 + x) 0xe0 == 0xc0) ≡ false =
      differs (lead_two (0xe0 + x) (omega arith)) (omega arith) in
    let t3 : (bit_and (0xe0 + x) 0xf0 == 0xe0) ≡ true =
      (==_iff _ _).1 (lead_three (0xe0 + x) (omega arith) ∙ omega arith) in
    let low : bit_and (0xe0 + x) 0x0f ≡ x = bit_and-mask (0xe0 + x) 4 ∙ omega arith in
    rw (t0, t1, t2, t3, low)
      (decode_sequence_lem 2 x _ _ _ (
        decode_rest_step 1 x y ((0x80 + z) ∷ s) hy (omega arith)
        ∙ decode_rest_step 0 (x * 64 + y) z s hz (omega arith)
        ∙ decode_rest_zero _ s))

pub decode_four :
    (x y z w : ℕ) (s : List ℕ)
    → x < 8
    → y < 64
    → z < 64
    → w < 64
    → utf8_decode ((0xf0 + x) ∷ (0x80 + y) ∷ (0x80 + z) ∷ (0x80 + w) ∷ s)
      ≡ (accept 3 (((x * 64 + y) * 64 + z) * 64 + w), s)
unfolding utf8_decode
decode_four x y z w s hx hy hz hw =
    let t0 : ((0xf0 + x) == 0) ≡ false = ground arith in
    let t1 : ltb (0xf0 + x) 0x80 ≡ false = ground arith in
    let t2 : (bit_and (0xf0 + x) 0xe0 == 0xc0) ≡ false =
      differs (lead_two (0xf0 + x) (omega arith)) (omega arith) in
    let t3 : (bit_and (0xf0 + x) 0xf0 == 0xe0) ≡ false =
      differs (lead_three (0xf0 + x) (omega arith)) (omega arith) in
    let t4 : (bit_and (0xf0 + x) 0xf8 == 0xf0) ≡ true =
      (==_iff _ _).1 (lead_four (0xf0 + x) (omega arith) ∙ omega arith) in
    let low : bit_and (0xf0 + x) 0x07 ≡ x = bit_and-mask (0xf0 + x) 3 ∙ omega arith in
    rw (t0, t1, t2, t3, t4, low)
      (decode_sequence_lem 3 x _ _ _ (
        decode_rest_step 2 x y ((0x80 + z) ∷ (0x80 + w) ∷ s) hy (omega arith)
        ∙ decode_rest_step 1 (x * 64 + y) z ((0x80 + w) ∷ s) hz (omega arith)
        ∙ decode_rest_step 0 ((x * 64 + y) * 64 + z) w s hw (omega arith)
        ∙ decode_rest_zero _ s))

pub decode_one : (b : ℕ) (s : List ℕ) → 0 < b → b < 0x80 → utf8_decode (b ∷ s) ≡ (b, s)
unfolding utf8_decode
decode_one b s pos lt = ground arith

drop_le : (n : ℕ) (s : List ℕ) → length (drop n s) ≤ length s
drop_le n s = omega (arith, length-drop n s)

decode_rest_le : (extra cp : ℕ) (s : List ℕ) → length (decode_rest extra cp s).1 ≤ length s
unfolding decode_rest
decode_rest_le zero cp s = omega arith
decode_rest_le (suc extra) cp s = ground (
  arith,
  decode_rest_le extra (bit_or (wrap32 (cp * 2 ^ 6)) (bit_and (peek s) 0x3f)) (drop 1 s),
  drop_le 1 s,
)

decode_sequence_le : (extra cp : ℕ) (s : List ℕ) → length (decode_sequence extra cp s).1 ≤ length s
unfolding decode_sequence
decode_sequence_le extra cp s = ground (arith, decode_rest_le extra cp s)

-- Where the next byte is not the terminator, utf8_decode moves on by at least one byte, so each
-- loop over it ends.
pub utf8_decode-lt : (b : ℕ) (s : List ℕ) → b ≢ 0 → length (utf8_decode (b ∷ s)).1 < length (b ∷ s)
unfolding utf8_decode
utf8_decode-lt b s ne = ground (
  arith,
  decode_sequence_le 1 (bit_and b 0x1f) s,
  decode_sequence_le 2 (bit_and b 0x0f) s,
  decode_sequence_le 3 (bit_and b 0x07) s,
)
