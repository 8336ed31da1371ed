-- ===== src/Str/Numbers/Numerals/Whole.antt =====
-- libc/string.c: the part that str_to_uint64 and str_to_int64 share reads the numerals within its
-- limit, and nothing else.
use mathlib.Core.Path.{subst}
use cool_frost.Prelude.{
  ℕ, ◌^◌, ◌≤◌, ◌<◌, ◌≡◌, refl, sym, ap, ◌∙◌, ◌≢◌, inl, inr, true, false, none, some, List, [], ◌∷◌,
  ◌++◌, arith, ◌==◌, if◌then◌else◌, Bool-cases, Option-cases, and_true, some-injective, none-some,
  if_true, if_false,
}
use cool_frost.Ctype.{isdigit, isspace}
use cool_frost.Str.{first}
use cool_frost.Str.Numbers.{skip_spaces, read_digits, read_number}
use cool_frost.Str.Numbers.Numerals.{
  all, value_from, IsDigits, skip_spaces_over, skip_spaces_split, read_digits_over,
  read_digits_split,
}

first-isdigit :
    (w t : List ℕ) → all isspace w ≡ true → first t ≡ 0 → isdigit (first (w ++ t)) ≡ false
unfolding all isdigit isspace
first-isdigit [] t e h = ap isdigit h
first-isdigit (c ∷ w) t e h = let space = (and_true (isspace c) (all isspace w) e).0 in ground arith

first-isspace : (t : List ℕ) → first t ≡ 0 → isspace (first t) ≡ false
unfolding isspace
first-isspace t h = ap isspace h

-- A numeral within the limit is read to its value.
pub read_number_accepts :
    (limit : ℕ) (s : List ℕ) (n : ℕ)
    → limit < 2 ^ 64
    → 9 ≤ limit
    → IsDigits s n
    → n ≤ limit
    → read_number limit s ≡ some n
unfolding read_number all
read_number_accepts limit s n lt ge i le =
    let digit : isdigit (first s) ≡ true =
      ap (λ q. isdigit (first q)) i.text
      ∙ (and_true (isdigit i.lead) (all isdigit i.digits) i.digits_only).0 in
    let reads : read_digits limit 0 s ≡ some (n, i.spaces ++ i.after) =
      ap (read_digits limit 0) i.text
      ∙ read_digits_over limit 0 (i.lead ∷ i.digits) (i.spaces ++ i.after) lt ge i.digits_only
          (first-isdigit i.spaces i.after i.spaces_only i.ends) (subst (λ m. m ≤ limit) i.value le)
      ∙ ap (λ m. some (m, i.spaces ++ i.after)) (sym i.value) in
    let over : skip_spaces (i.spaces ++ i.after) ≡ i.after =
      skip_spaces_over i.spaces i.after i.spaces_only (first-isspace i.after i.ends) in
    let done : (first (skip_spaces (i.spaces ++ i.after)) == 0) ≡ true =
      ap (λ q. first q == 0) over ∙ ap (λ c. c == 0) i.ends in
    rw (read_number, digit, reads, done) refl

read_number-none : (limit : ℕ) (s : List ℕ) → isdigit (first s) ≡ false → read_number limit s ≡ none
unfolding read_number
read_number-none limit s e = rw (read_number, e) refl

read_number_stuck :
    (limit : ℕ) (s : List ℕ)
    → isdigit (first s) ≡ true
    → read_digits limit 0 s ≡ none
    → read_number limit s ≡ none
unfolding read_number
read_number_stuck limit s e g = rw (read_number, e, g) refl

read_number_done :
    (limit : ℕ) (s : List ℕ) (r : ℕ) (t : List ℕ)
    → isdigit (first s) ≡ true
    → read_digits limit 0 s ≡ some (r, t)
    → read_number limit s ≡ (if first (skip_spaces t) == 0 then some r else none)
unfolding read_number
read_number_done limit s r t e g = rw (read_number, e, g) refl

numeral :
    (limit : ℕ) (s : List ℕ) (n r : ℕ) (t : List ℕ)
    → limit < 2 ^ 64
    → 9 ≤ limit
    → isdigit (first s) ≡ true
    → read_digits limit 0 s ≡ some (r, t)
    → (first (skip_spaces t) == 0) ≡ true
    → r ≡ n
    → IsDigits s n × n ≤ limit
numeral limit s n r t lt ge d g h e =
    let (ds, digits, eq, val, le, stop) = read_digits_split limit 0 s lt ge (omega arith) r t g in
    found ds digits eq val stop le
  where
    found :
        (ds : List ℕ)
        → all isdigit ds ≡ true
        → s ≡ ds ++ t
        → r ≡ value_from 0 ds
        → isdigit (first t) ≡ false
        → r ≤ limit
        → IsDigits s n × n ≤ limit
    found [] digits eq val stop le =
        let no_digit : false ≢ true = λ q. ground arith in
        absurd (no_digit (sym (ap (λ q. isdigit (first q)) eq ∙ stop) ∙ d))
    found (c ∷ ds) digits eq val stop le =
        let (w, spaces, over, other) = skip_spaces_split t in
        (
          record {
            lead = c;
            digits = ds;
            spaces = w;
            after = skip_spaces t;
            text = eq ∙ ap (λ q. (c ∷ ds) ++ q) over;
            digits_only = digits;
            spaces_only = spaces;
            ends = ground arith;
            value = sym e ∙ val;
          },
          subst (λ m. m ≤ limit) e le,
        )

-- What is read is a numeral within the limit.
pub read_number_only :
    (limit : ℕ) (s : List ℕ) (n : ℕ)
    → limit < 2 ^ 64
    → 9 ≤ limit
    → read_number limit s ≡ some n
    → IsDigits s n × n ≤ limit
read_number_only limit s n lt ge e = elim (Bool-cases (isdigit (first s))) [
  | inr d ↦ absurd (none-some (sym (read_number-none limit s d) ∙ e))
  | inl d ↦ elim (Option-cases (read_digits limit 0 s)) [
    | inl g ↦ absurd (none-some (sym (read_number_stuck limit s d g) ∙ e))
    | inr ((r, t), g) ↦ elim (Bool-cases (first (skip_spaces t) == 0)) [
      | inr h ↦
          absurd (none-some (sym (read_number_done limit s r t d g ∙ if_false (some r) none h) ∙ e))
      | inl h ↦
          numeral limit s n r t lt ge d g h
            (some-injective (sym (read_number_done limit s r t d g ∙ if_true (some r) none h) ∙ e))
    ]
  ]
]

pub IsDigits-isdigit : (s : List ℕ) (n : ℕ) → IsDigits s n → isdigit (first s) ≡ true
unfolding all
IsDigits-isdigit s n i =
    ap (λ q. isdigit (first q)) i.text
    ∙ (and_true (isdigit i.lead) (all isdigit i.digits) i.digits_only).0
