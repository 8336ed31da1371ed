-- ===== src/Utf8/RoundTrip.antt =====
-- What libc/utf8.h encodes, libc/utf8.c decodes and counts.
use cool_frost.Prelude.{
  ℕ, suc, ◌+◌, ◌/◌, ◌%◌, ◌≤◌, ◌<◌, ◌≡◌, refl, ap, ◌∙◌, inl, inr, false, List, ◌∷◌, ◌++◌, arith, ltb,
  ◌==◌, Bool-cases,
}
use cool_frost.Utf8.{
  rune_max, is_surrogate, utf8_is_cont, utf8_encode, accept, utf8_decode, utf8_strlen,
}
use cool_frost.Utf8.Bits.{top_two}
use cool_frost.Utf8.Decode.{decode_one, decode_two, decode_three, decode_four, cont-is_cont}
use cool_frost.Utf8.Encode.{encode_one, encode_two, encode_three, encode_four}

-- A code point that is no surrogate, in range, and not the terminator.
pub record IsScalar (cp : ℕ) : Type 0 where
  pub positive : 0 < cp
  pub in_unicode : cp ≤ rune_max
  pub no_surrogate : is_surrogate cp ≡ false

accept_lem :
    (extra cp : ℕ)
    → IsScalar cp
    → (extra ≡ 1 → 0x80 ≤ cp)
    → (extra ≡ 2 → 0x800 ≤ cp)
    → (extra ≡ 3 → 0x10000 ≤ cp)
    → accept extra cp ≡ cp
unfolding accept
accept_lem extra cp v one two three = ground (arith, v.in_unicode, v.no_surrogate, one, two, three)

-- For a code point that is in range, no surrogate and not the terminator, utf8_decode reads the
-- bytes of utf8_encode back to the code point and stops right behind them.
pub utf8_decode-encode :
    (cp : ℕ) (s : List ℕ) → IsScalar cp → utf8_decode (utf8_encode cp ++ s) ≡ (cp, s)
utf8_decode-encode cp s v = elim (Bool-cases (ltb cp 0x80)) [
  | inl t ↦
      ap (λ bs. utf8_decode (bs ++ s)) (encode_one cp (ground arith))
      ∙ decode_one cp s v.positive (ground arith)
  | inr t ↦ elim (Bool-cases (ltb cp 0x800)) [
    | inl u ↦
        ap (λ bs. utf8_decode (bs ++ s)) (encode_two cp (ground arith) (ground arith))
        ∙ decode_two (cp / 64) (cp % 64) s (ground arith) (omega arith)
        ∙ ap (λ k. (k, s))
            (ap (accept 1) {y = cp} (omega arith)
              ∙ accept_lem 1 cp v (λ _. ground arith) (λ e. absurd (omega arith))
                  (λ e. absurd (omega arith)))
    | inr u ↦ elim (Bool-cases (ltb cp 0x10000)) [
      | inl w ↦
          ap (λ bs. utf8_decode (bs ++ s))
            (encode_three cp (ground arith) (ground arith) v.no_surrogate)
          ∙ decode_three (cp / 64 / 64) (cp / 64 % 64) (cp % 64) s (ground arith) (omega arith)
              (omega arith)
          ∙ ap (λ k. (k, s))
              (ap (accept 2) {y = cp} (omega arith)
                ∙ accept_lem 2 cp v (λ e. absurd (omega arith)) (λ _. ground arith)
                    (λ e. absurd (omega arith)))
      | inr w ↦
          ap (λ bs. utf8_decode (bs ++ s)) (encode_four cp (ground arith) v.in_unicode)
          ∙ decode_four (cp / 64 / 64 / 64) (cp / 64 / 64 % 64) (cp / 64 % 64) (cp % 64) s
              (omega (arith, v.in_unicode)) (omega arith) (omega arith) (omega arith)
          ∙ ap (λ k. (k, s))
              (ap (accept 3) {y = cp} (omega arith)
                ∙ accept_lem 3 cp v (λ e. absurd (omega arith)) (λ e. absurd (omega arith))
                    (λ _. ground arith))
    ]
  ]
]

strlen_cont : (y : ℕ) (s : List ℕ) → y < 64 → utf8_strlen ((0x80 + y) ∷ s) ≡ utf8_strlen s
unfolding utf8_strlen
strlen_cont y s lt =
    let more : ((0x80 + y) == 0) ≡ false = ground arith in
    let c = cont-is_cont y lt in rw (more, c) refl

strlen_lead :
    (b : ℕ) (s : List ℕ)
    → 0 < b
    → b < 256
    → (b / 64 ≡ 2 → ⊥)
    → utf8_strlen (b ∷ s) ≡ suc (utf8_strlen s)
unfolding utf8_strlen utf8_is_cont
strlen_lead b s pos lt ne = ground (arith, top_two b lt)

-- For a code point that is in range, no surrogate and not the terminator, utf8_strlen counts the
-- bytes of utf8_encode, before any string, as one.
pub utf8_strlen-encode :
    (cp : ℕ) (s : List ℕ) → IsScalar cp → utf8_strlen (utf8_encode cp ++ s) ≡ suc (utf8_strlen s)
utf8_strlen-encode cp s v = elim (Bool-cases (ltb cp 0x80)) [
  | inl t ↦
      ap (λ bs. utf8_strlen (bs ++ s)) (encode_one cp (ground arith))
      ∙ strlen_lead cp s v.positive (ground arith) (λ e. ground (arith, e))
  | inr t ↦ elim (Bool-cases (ltb cp 0x800)) [
    | inl u ↦
        ap (λ bs. utf8_strlen (bs ++ s)) (encode_two cp (ground arith) (ground arith))
        ∙ strlen_lead (0xc0 + cp / 64) _ (omega arith) (ground arith) (λ e. omega arith)
        ∙ ap suc (strlen_cont (cp % 64) s (omega arith))
    | inr u ↦ elim (Bool-cases (ltb cp 0x10000)) [
      | inl w ↦
          ap (λ bs. utf8_strlen (bs ++ s))
            (encode_three cp (ground arith) (ground arith) v.no_surrogate)
          ∙ strlen_lead (0xe0 + cp / 64 / 64) _ (omega arith) (ground arith) (λ e. omega arith)
          ∙ ap suc
              (strlen_cont (cp / 64 % 64) _ (omega arith) ∙ strlen_cont (cp % 64) s (omega arith))
      | inr w ↦
          ap (λ bs. utf8_strlen (bs ++ s)) (encode_four cp (ground arith) v.in_unicode)
          ∙ strlen_lead (0xf0 + cp / 64 / 64 / 64) _ (omega arith) (omega (arith, v.in_unicode))
              (λ e. omega arith)
          ∙ ap suc (
              strlen_cont (cp / 64 / 64 % 64) _ (omega arith)
              ∙ strlen_cont (cp / 64 % 64) _ (omega arith)
              ∙ strlen_cont (cp % 64) s (omega arith))
    ]
  ]
]
