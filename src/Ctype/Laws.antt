-- ===== src/Ctype/Laws.antt =====
-- The classes of libc/ctype.c divide the ASCII characters, and the two cases mirror each other.
use cool_frost.Prelude.{
  ℕ, ◌+◌, ◌-◌, ◌<◌, bit_xor, ◌≡◌, refl, sym, ap, ◌∙◌, Bool, true, false, ◌&&◌, arith, leb, ◌==◌,
  by_table, ltb→lt,
}
use cool_frost.Ctype.{
  islower, isupper, isalpha, isdigit, isascii, iscntrl, ispunct, toupper, tolower,
}

abbrev pub one_if : Bool → ℕ
one_if true = 1
one_if false = 0

-- Each ASCII character is of exactly one of the classes control, space, digit, upper case, lower
-- case and punctuation.
pub classes_lem :
    (c : ℕ)
    → isascii c ≡ true
    → one_if (iscntrl c)
        + one_if (c == 32)
        + one_if (isdigit c)
        + one_if (isupper c)
        + one_if (islower c)
        + one_if (ispunct c)
      ≡ 1
unfolding isascii iscntrl isdigit isupper islower ispunct
classes_lem c ascii =
    by_table
      (λ c.
        one_if (iscntrl c)
        + one_if (c == 32)
        + one_if (isdigit c)
        + one_if (isupper c)
        + one_if (islower c)
        + one_if (ispunct c))
      (λ _. 1) 128 refl c (ltb→lt c 128 ascii)

toupper_lem : (i : ℕ) → i < 26 → toupper (97 + i) ≡ 65 + i
unfolding toupper islower
toupper_lem i lt =
    let lower : (leb 97 (97 + i) && leb (97 + i) 122) ≡ true = ground arith in
    rw lower (by_table (λ i. bit_xor (97 + i) 0x20) (λ i. 65 + i) 26 refl i lt)

tolower_lem : (i : ℕ) → i < 26 → tolower (65 + i) ≡ 97 + i
unfolding tolower isupper
tolower_lem i lt =
    let upper : (leb 65 (65 + i) && leb (65 + i) 90) ≡ true = ground arith in
    rw upper (by_table (λ i. bit_xor (65 + i) 0x20) (λ i. 97 + i) 26 refl i lt)

isupper_at : (i : ℕ) → i < 26 → isupper (65 + i) ≡ true
unfolding isupper
isupper_at i lt = ground arith

islower_at : (i : ℕ) → i < 26 → islower (97 + i) ≡ true
unfolding islower
islower_at i lt = ground arith

islower_from : (c : ℕ) → islower c ≡ true → (i : ℕ) × (i < 26) × (c ≡ 97 + i)
unfolding islower
islower_from c e = (c - 97, ground arith, ground arith)

isupper_from : (c : ℕ) → isupper c ≡ true → (i : ℕ) × (i < 26) × (c ≡ 65 + i)
unfolding isupper
isupper_from c e = (c - 65, ground arith, ground arith)

-- toupper takes a lower-case letter to an upper-case one and tolower takes it back, the other way
-- round too, and neither changes a character that is no letter.
pub toupper-tolower :
    (c : ℕ)
    → (islower c ≡ true → (isupper (toupper c) ≡ true) × (tolower (toupper c) ≡ c))
      × (isupper c ≡ true → (islower (tolower c) ≡ true) × (toupper (tolower c) ≡ c))
      × (isalpha c ≡ false → (toupper c ≡ c) × (tolower c ≡ c))
unfolding isalpha toupper tolower
toupper-tolower c = (
  λ e.
      let (i, lt, at) = islower_from c e in
      let up : toupper c ≡ 65 + i = ap toupper at ∙ toupper_lem i lt in
      (ap isupper up ∙ isupper_at i lt, ap tolower up ∙ tolower_lem i lt ∙ sym at),
  λ e.
      let (i, lt, at) = isupper_from c e in
      let down : tolower c ≡ 97 + i = ap tolower at ∙ tolower_lem i lt in
      (ap islower down ∙ islower_at i lt, ap toupper down ∙ toupper_lem i lt ∙ sym at),
  λ e. (ground arith, ground arith),
)
