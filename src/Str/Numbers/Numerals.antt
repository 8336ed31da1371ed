-- ===== src/Str/Numbers/Numerals.antt =====
-- libc/string.c: the decimal numerals, and what the loops that read one pass over.
pub mod Whole
use mathlib.Core.Path.{subst}
use cool_frost.Prelude.{
  ℕ, ◌+◌, ◌-◌, ◌*◌, ◌/◌, ◌^◌, ◌≤◌, ◌<◌, ◌≡◌, refl, sym, ap, ◌∙◌, ◌≢◌, inl, inr, Bool, true, false,
  ◌&&◌, Option, none, some, List, [], ◌∷◌, ◌++◌, arith, ltb, ◌==◌, if◌then◌else◌, Bool-cases,
  Option-cases, wrap8, wrap64, and_true, true_and, some-injective, none-some, if_true, if_false,
}
use cool_frost.Ctype.{isdigit, isspace}
use cool_frost.Str.{first}
use cool_frost.Str.Numbers.{skip_spaces, read_digits, read_number}

pub all : (ℕ → Bool) → List ℕ → Bool
all p [] = true
all p (c ∷ s) = p c && all p s

-- The value of digits that follow others of value `n`.
pub value_from : ℕ → List ℕ → ℕ
value_from n [] = n
value_from n (c ∷ ds) = value_from (n * 10 + (c - 48)) ds

-- The text is digits of value `n` with spaces behind.
pub record IsDigits (s : List ℕ) (n : ℕ) : Type 0 where
  lead : ℕ
  digits : List ℕ
  spaces : List ℕ
  after : List ℕ
  text : s ≡ (lead ∷ digits) ++ (spaces ++ after)
  digits_only : all isdigit (lead ∷ digits) ≡ true
  spaces_only : all isspace spaces ≡ true
  ends : first after ≡ 0
  value : n ≡ value_from 0 (lead ∷ digits)

value_from_ge : (n : ℕ) (ds : List ℕ) → n ≤ value_from n ds
unfolding value_from
value_from_ge n [] = omega arith
value_from_ge n (c ∷ ds) = omega (arith, value_from_ge (n * 10 + (c - 48)) ds)

isdigit_bounds : (c : ℕ) → isdigit c ≡ true → (48 ≤ c) × (c ≤ 57)
unfolding isdigit
isdigit_bounds c e = ground arith

pub skip_spaces_over :
    (w t : List ℕ) → all isspace w ≡ true → isspace (first t) ≡ false → skip_spaces (w ++ t) ≡ t
unfolding all skip_spaces
skip_spaces_over [] [] e h = refl
skip_spaces_over [] (c ∷ t) e h = rw h
skip_spaces_over (c ∷ w) t e h =
    let (space, spaces) = and_true (isspace c) (all isspace w) e in
    rw space (skip_spaces_over w t spaces h)

-- What skip_spaces passes over.
pub skip_spaces_split :
    (s : List ℕ)
    → (w : List ℕ) × (all isspace w ≡ true)
      × (s ≡ w ++ skip_spaces s)
      × (isspace (first (skip_spaces s)) ≡ false)
unfolding all skip_spaces isspace
skip_spaces_split [] = ([], refl, refl, refl)
skip_spaces_split (c ∷ s) = elim (Bool-cases (isspace c)) [
  | inl e ↦
      let (w, spaces, eq, h) = skip_spaces_split s in
      (c ∷ w, true_and e spaces, rw e (ap (λ t. c ∷ t) eq), rw e h)
  | inr e ↦ ([], refl, rw e refl, rw e e)
]

module _ (limit n c : ℕ) (s : List ℕ) where
  read_digits_over_limit :
      isdigit c ≡ true
      → ltb ((limit - wrap8 (c - 48)) / 10) n ≡ true
      → read_digits limit n (c ∷ s) ≡ none
  unfolding read_digits
  read_digits_over_limit d over = rw (d, over) refl

  read_digits_next :
      isdigit c ≡ true
      → ltb ((limit - wrap8 (c - 48)) / 10) n ≡ false
      → wrap64 (n * 10 + wrap8 (c - 48)) ≡ n * 10 + (c - 48)
      → read_digits limit n (c ∷ s) ≡ read_digits limit (n * 10 + (c - 48)) s
  unfolding read_digits
  read_digits_next d fits next = rw (d, fits, next) refl

  read_digits_stop : isdigit c ≡ false → read_digits limit n (c ∷ s) ≡ some (n, c ∷ s)
  unfolding read_digits
  read_digits_stop d = rw d refl

pub read_digits_over :
    (limit n : ℕ) (ds t : List ℕ)
    → limit < 2 ^ 64
    → 9 ≤ limit
    → all isdigit ds ≡ true
    → isdigit (first t) ≡ false
    → value_from n ds ≤ limit
    → read_digits limit n (ds ++ t) ≡ some (value_from n ds, t)
unfolding all value_from read_digits
read_digits_over limit n [] [] lt ge e h le = refl
read_digits_over limit n [] (c ∷ t) lt ge e h le = rw h
read_digits_over limit n (c ∷ ds) t lt ge e h le =
    let (digit, digits) = and_true (isdigit c) (all isdigit ds) e in
    let (low, high) = isdigit_bounds c digit in
    let small : n * 10 + (c - 48) ≤ limit = omega (arith, value_from_ge (n * 10 + (c - 48)) ds) in
    let passes : ltb ((limit - wrap8 (c - 48)) / 10) n ≡ false = ground arith in
    let next : wrap64 (n * 10 + wrap8 (c - 48)) ≡ n * 10 + (c - 48) = omega arith in
    read_digits_next limit n c (ds ++ t) digit passes next
    ∙ (read_digits_over limit (n * 10 + (c - 48)) ds t lt ge digits h le)

stopped :
    (limit n : ℕ) (s : List ℕ)
    → n ≤ limit
    → (r : ℕ) → (t : List ℕ) → isdigit (first s) ≡ false
    → ◌≡◌ {A = Option (ℕ × List ℕ)} (some (n, s)) (some (r, t))
    → (ds : List ℕ) × (all isdigit ds ≡ true)
      × (s ≡ ds ++ t)
      × (r ≡ value_from n ds)
      × (r ≤ limit)
      × (isdigit (first t) ≡ false)
unfolding all value_from
stopped limit n s le r t d e =
    let at = some-injective e in
    (
      [],
      refl,
      ap (λ q. q.1) at,
      sym (ap (λ q. q.0) at),
      subst (λ m. m ≤ limit) (ap (λ q. q.0) at) le,
      ap (λ q. isdigit (first q.1)) (sym at) ∙ d,
    )

-- What read_digits passes over.
pub read_digits_split :
    (limit n : ℕ) (s : List ℕ)
    → limit < 2 ^ 64
    → 9 ≤ limit
    → n ≤ limit
    → (r : ℕ) → (t : List ℕ) → read_digits limit n s ≡ some (r, t)
    → (ds : List ℕ) × (all isdigit ds ≡ true)
      × (s ≡ ds ++ t)
      × (r ≡ value_from n ds)
      × (r ≤ limit)
      × (isdigit (first t) ≡ false)
unfolding all value_from read_digits isdigit
read_digits_split limit n [] lt ge le r t e = stopped limit n [] le r t refl e
read_digits_split limit n (c ∷ s) lt ge le r t e = elim (Bool-cases (isdigit c)) [
  | inl d ↦ elim (Bool-cases (ltb ((limit - wrap8 (c - 48)) / 10) n)) [
    | inl over ↦ absurd (none-some (sym (read_digits_over_limit limit n c s d over) ∙ e))
    | inr fits ↦
        let (low, high) = isdigit_bounds c d in
        let next : wrap64 (n * 10 + wrap8 (c - 48)) ≡ n * 10 + (c - 48) = ground arith in
        let small : n * 10 + (c - 48) ≤ limit = ground arith in
        let (ds, digits, eq, val, rle, h) =
          read_digits_split limit (n * 10 + (c - 48)) s lt ge small r t
            (sym (read_digits_next limit n c s d fits next) ∙ e) in
        (
          c ∷ ds,
          true_and {q = all isdigit ds} d digits,
          ap (λ q. c ∷ q) {y = ds ++ t} eq,
          val,
          rle,
          h,
        )
  ]
  | inr d ↦ stopped limit n (c ∷ s) le r t d (sym (read_digits_stop limit n c s d) ∙ e)
]
