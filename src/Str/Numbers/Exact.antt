-- ===== src/Str/Numbers/Exact.antt =====
-- libc/string.c: str_to_uint64 and str_to_int64 accept the decimal numerals whose value fits, and
-- no other text.
use mathlib.Core.Path.{subst}
use cool_frost.Prelude.{
  ℕ, ◌-◌, ◌^◌, ◌≤◌, ◌<◌, ◌≡◌, refl, sym, ap, ◌∙◌, ◌⊎◌, inl, inr, Bool, true, false, none, some,
  List, [], ◌∷◌, ◌++◌, arith, ltb, ◌==◌, ==_iff, ◌↔◌, if◌then◌else◌, Bool-cases, Option-cases, ℤ,
  pos, minus, lt→ltb,
}
use cool_frost.Ctype.{isdigit, isspace}
use cool_frost.Str.{first}
use cool_frost.Str.Numbers.{
  skip_spaces, read_number, str_to_uint64, str_to_int64, signed64, neg64, read_sign, limit_of,
}
use cool_frost.Str.Numbers.Numerals.{all, IsDigits, skip_spaces_over, skip_spaces_split}
use cool_frost.Str.Numbers.Numerals.Whole.{read_number_accepts, read_number_only, IsDigits-isdigit}

-- The text is spaces and a numeral of value `n`.
pub record IsNumeral (s : List ℕ) (n : ℕ) : Type 0 where
  margin : List ℕ
  body : List ℕ
  text : s ≡ margin ++ body
  margin_only : all isspace margin ≡ true
  numeral : IsDigits body n

isspace_digit : (c : ℕ) → isdigit c ≡ true → isspace c ≡ false
unfolding isspace isdigit
isspace_digit c e = ground arith

-- the text skip_spaces leaves
IsNumeral-of : (s : List ℕ) (n : ℕ) → IsDigits (skip_spaces s) n → IsNumeral s n
IsNumeral-of s n i =
    let (w, spaces, eq, other) = skip_spaces_split s in
    record { margin = w; body = skip_spaces s; text = eq; margin_only = spaces; numeral = i }

skip_spaces-IsNumeral : (s : List ℕ) (n : ℕ) (i : IsNumeral s n) → skip_spaces s ≡ i.body
skip_spaces-IsNumeral s n i =
    ap skip_spaces i.text
    ∙ skip_spaces_over i.margin i.body i.margin_only
        (isspace_digit (first i.body) (IsDigits-isdigit i.body n i.numeral))

module _ (s : List ℕ) where
  str_to_uint64_fails :
      read_number (2 ^ 64 - 1) (skip_spaces s) ≡ none
      → str_to_uint64 (some s) ≡ record { value = 0; error = 1 }
  unfolding str_to_uint64
  str_to_uint64_fails e = rw (str_to_uint64, e) refl

  str_to_uint64_reads :
      (n : ℕ)
      → read_number (2 ^ 64 - 1) (skip_spaces s) ≡ some n
      → str_to_uint64 (some s) ≡ record { value = n; error = 0 }
  unfolding str_to_uint64
  str_to_uint64_reads n e = rw (str_to_uint64, e) refl

-- A string that is spaces, decimal digits and spaces up to its end, of a value below 2^64, is read
-- by str_to_uint64 as that value without an error; a call with a string either stores the error
-- and returns 0, or reads such a numeral; and a call with a null pointer stores the error and
-- returns 0.
pub str_to_uint64_lem :
    (s : List ℕ)
    → (str_to_uint64 none ≡ record { value = 0; error = 1 })
      × ((n : ℕ)
          → IsNumeral s n
          → n < 2 ^ 64
          → str_to_uint64 (some s) ≡ record { value = n; error = 0 })
      × ((str_to_uint64 (some s) ≡ record { value = 0; error = 1 })
          ⊎ ((n : ℕ) × (str_to_uint64 (some s) ≡ record { value = n; error = 0 })
              × IsNumeral s n
              × (n < 2 ^ 64)))
unfolding str_to_uint64
str_to_uint64_lem s = (
  refl,
  λ n i lt. str_to_uint64_reads s n (
      ap (read_number (2 ^ 64 - 1)) (skip_spaces-IsNumeral s n i)
      ∙ read_number_accepts (2 ^ 64 - 1) i.body n (omega arith) (omega arith) i.numeral
          (omega arith)),
  elim (Option-cases (read_number (2 ^ 64 - 1) (skip_spaces s))) [
    | inl e ↦ inl (str_to_uint64_fails s e)
    | inr (n, e) ↦
        let (i, le) =
          read_number_only (2 ^ 64 - 1) (skip_spaces s) n (omega arith) (omega arith) e in
        inr (n, str_to_uint64_reads s n e, IsNumeral-of s n i, omega arith)
  ],
)

-- A sign in front of a numeral: `-`, `+`, or none. The flag is true for a minus sign.
pub data Sign : List ℕ → Bool → List ℕ → Type 0 where
  minus_sign : {t : List ℕ} → Sign (b'-' ∷ t) true t
  plus_sign : {t : List ℕ} → Sign (b'+' ∷ t) false t
  no_sign : {t : List ℕ} → Sign t false t

-- The text is spaces, an optional sign and a numeral of magnitude `n`.
pub record IsSigned (s : List ℕ) (negative : Bool) (n : ℕ) : Type 0 where
  margin : List ℕ
  body : List ℕ
  digits : List ℕ
  text : s ≡ margin ++ body
  margin_only : all isspace margin ≡ true
  sign : Sign body negative digits
  numeral : IsDigits digits n

-- the value of a magnitude with its sign
abbrev pub signed : Bool → ℕ → ℤ
signed true n = minus n
signed false n = pos n

-- the magnitudes that an int64_t has with a sign
abbrev pub Fits : Bool → ℕ → Type 0
Fits true n = n ≤ 2 ^ 63
Fits false n = n < 2 ^ 63

Fits-limit_of : (b : Bool) (n : ℕ) → Fits b n ↔ (n ≤ limit_of b)
unfolding limit_of
Fits-limit_of true n = (λ h. h, λ h. h)
Fits-limit_of false n = (λ h. omega arith, λ h. omega arith)

-- A digit is neither a sign nor a space.
read_sign-digit : (c : ℕ) (t : List ℕ) → isdigit c ≡ true → read_sign (c ∷ t) ≡ (false, c ∷ t)
unfolding read_sign isdigit
read_sign-digit c t e =
    let m : (c == 45) ≡ false = ground arith in
    let p : (c == 43) ≡ false = ground arith in rw (m, p) refl

read_sign-Sign :
    {s : List ℕ} {b : Bool} {t : List ℕ} (n : ℕ)
    → Sign s b t
    → IsDigits t n
    → (read_sign s ≡ (b, t)) × (isspace (first s) ≡ false)
unfolding read_sign isspace isdigit
read_sign-Sign n minus_sign i = (refl, refl)
read_sign-Sign n plus_sign i = (refl, refl)
read_sign-Sign {t = []} n no_sign i = (refl, refl)
read_sign-Sign {t = c ∷ t} n no_sign i =
    let digit = IsDigits-isdigit (c ∷ t) n i in (read_sign-digit c t digit, isspace_digit c digit)

Sign-read_sign : (s : List ℕ) → Sign s (read_sign s).0 (read_sign s).1
unfolding read_sign
Sign-read_sign [] = no_sign
Sign-read_sign (c ∷ t) = elim (Bool-cases (c == 45)) [
  | inl m ↦ rw m (subst (λ c. Sign (c ∷ t) true t) (sym ((==_iff c 45).0 m)) minus_sign)
  | inr other ↦ elim (Bool-cases (c == 43)) [
    | inl p ↦ rw (other, p) (subst (λ c. Sign (c ∷ t) false t) (sym ((==_iff c 43).0 p)) plus_sign)
    | inr q ↦ rw (other, q) no_sign
  ]
]

module _ (s : List ℕ) where
  str_to_int64_fails :
      read_number (limit_of (read_sign (skip_spaces s)).0) (read_sign (skip_spaces s)).1 ≡ none
      → str_to_int64 (some s) ≡ record { value = pos 0; error = 1 }
  unfolding str_to_int64
  str_to_int64_fails e = rw (str_to_int64, e) refl

  str_to_int64_reads :
      (n : ℕ)
      → read_number (limit_of (read_sign (skip_spaces s)).0) (read_sign (skip_spaces s)).1 ≡ some n
      → str_to_int64 (some s) ≡ record {
        value = if (read_sign (skip_spaces s)).0 then neg64 (signed64 n) else signed64 n;
        error = 0;
      }
  unfolding str_to_int64
  str_to_int64_reads n e = rw (str_to_int64, e) refl

limit_of_bounds : (b : Bool) → (limit_of b < 2 ^ 64) × (9 ≤ limit_of b)
unfolding limit_of
limit_of_bounds true = (omega arith, omega arith)
limit_of_bounds false = (omega arith, omega arith)

value_signed :
    (b : Bool) (n : ℕ) → Fits b n → (if b then neg64 (signed64 n) else signed64 n) ≡ signed b n
value_signed false n lt = rw (lt→ltb n (2 ^ 63) lt) refl
value_signed true n le = elim (Bool-cases (ltb n (2 ^ 63))) [
  | inl e ↦ rw e refl
  | inr e ↦
      let at : n ≡ 2 ^ 63 = ground arith in subst (λ m. neg64 (signed64 m) ≡ minus m) (sym at) refl
]

-- what `read_sign` makes of the text after the spaces
skip_spaces-IsSigned :
    (s : List ℕ) (b : Bool) (n : ℕ) (i : IsSigned s b n) → read_sign (skip_spaces s) ≡ (b, i.digits)
skip_spaces-IsSigned s b n i =
    let (sign, space) = read_sign-Sign n i.sign i.numeral in
    ap (λ q. read_sign (skip_spaces q)) i.text
    ∙ ap read_sign (skip_spaces_over i.margin i.body i.margin_only space)
    ∙ sign

IsSigned-of :
    (s : List ℕ) (n : ℕ)
    → IsDigits (read_sign (skip_spaces s)).1 n
    → IsSigned s (read_sign (skip_spaces s)).0 n
IsSigned-of s n i =
    let (w, spaces, eq, other) = skip_spaces_split s in
    record {
      margin = w;
      body = skip_spaces s;
      digits = (read_sign (skip_spaces s)).1;
      text = eq;
      margin_only = spaces;
      sign = Sign-read_sign (skip_spaces s);
      numeral = i;
    }

-- A string that is spaces, an optional sign + or -, decimal digits and spaces up to its end is
-- read by str_to_int64 as its value without an error, where the magnitude is 2^63 at most with a
-- minus sign and below 2^63 without; a call with a string either stores the error and returns 0,
-- or reads such a numeral; and a call with a null pointer stores the error and returns 0.
pub str_to_int64_lem :
    (s : List ℕ)
    → (str_to_int64 none ≡ record { value = pos 0; error = 1 })
      × ((b : Bool) (n : ℕ)
          → IsSigned s b n
          → Fits b n
          → str_to_int64 (some s) ≡ record { value = signed b n; error = 0 })
      × ((str_to_int64 (some s) ≡ record { value = pos 0; error = 1 })
          ⊎ ((b : Bool) × (n : ℕ) × (str_to_int64 (some s)
                ≡ record { value = signed b n; error = 0 })
              × IsSigned s b n
              × Fits b n))
unfolding str_to_int64
str_to_int64_lem s = (
  refl,
  λ b n i fits.
      let sign = skip_spaces-IsSigned s b n i in
      let (lt, ge) = limit_of_bounds b in
      let reads =
        ap (λ (q : Bool × List ℕ). read_number (limit_of q.0) q.1) sign
        ∙ read_number_accepts (limit_of b) i.digits n lt ge i.numeral
            ((Fits-limit_of b n).0 fits) in
      str_to_int64_reads s n reads
      ∙ ap
          (λ (q : Bool × List ℕ). record {
            value = if q.0 then neg64 (signed64 n) else signed64 n;
            error = 0;
          })
          sign
      ∙ ap (λ v. record { value = v; error = 0 }) (value_signed b n fits),
  let (b, t) = read_sign (skip_spaces s) in
      elim (Option-cases (read_number (limit_of b) t)) [
        | inl e ↦ inl (str_to_int64_fails s e)
        | inr (n, e) ↦
            let (lt, ge) = limit_of_bounds b in
            let (i, le) = read_number_only (limit_of b) t n lt ge e in
            let fits = (Fits-limit_of b n).1 le in
            inr (
              b,
              n,
              str_to_int64_reads s n e
                  ∙ ap (λ v. record { value = v; error = 0 }) (value_signed b n fits),
              IsSigned-of s n i,
              fits,
            )
      ],
)
