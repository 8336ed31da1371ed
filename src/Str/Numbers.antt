-- ===== src/Str/Numbers.antt =====
-- libc/string.c: numbers as text, str_to_uint64 and str_to_int64.
mod Numerals
mod Exact
mod Tests
use cool_frost.Prelude.{
  ℕ, zero, suc, ◌+◌, ◌-◌, ◌*◌, ◌/◌, ◌%◌, ◌^◌, ◌≤◌, ◌<◌, min, bit_and, bit_or, bit_xor, ◌≡◌, refl,
  sym, ap, ◌∙◌, ◌≢◌, ◌↔◌, ◌⊎◌, inl, inr, Bool, true, false, not, ◌&&◌, ◌||◌, Option, none, some,
  List, [], ◌∷◌, ◌++◌, map, arith, ltb, leb, ◌==◌, if◌then◌else◌, Bool-cases, Option-cases, length,
  get_elem?, get_or, set, take, drop, replicate, wrap8, wrap32, wrap64, sub32, sub64, ℤ, pos,
  negsuc, minus, difference, and_true, true_and,
}
use cool_frost.Ctype.{isdigit, isspace}
use cool_frost.Str.{first, rest}

-- What a call returns, and what it stores through its `error` pointer.
pub record Reading {ℓ} (A : Type ℓ) : Type ℓ where
  value : A
  error : ℕ

-- `while (isspace(*s)) s++;`
pub skip_spaces : List ℕ → List ℕ
skip_spaces [] = []
skip_spaces (c ∷ s) = if isspace c then skip_spaces s else c ∷ s

-- the loop over the digits, `none` where the next one would pass the limit
pub read_digits : ℕ → ℕ → List ℕ → Option (ℕ × List ℕ)
read_digits limit result [] = some (result, [])
read_digits limit result (c ∷ s) =
    if isdigit c
    then (let digit = wrap8 (c - 48) in
        if ltb ((limit - digit) / 10) result
        then none
        else read_digits limit (wrap64 (result * 10 + digit)) s)
    else some (result, c ∷ s)

-- The part that both functions have: digits up to the limit, spaces, and the string's end.
pub read_number : ℕ → List ℕ → Option ℕ
read_number limit s =
    if isdigit (first s)
    then elim (read_digits limit 0 s) [
      | none ↦ none
      | some (result, after) ↦ if first (skip_spaces after) == 0 then some result else none
    ]
    else none

pub str_to_uint64 : Option (List ℕ) → Reading ℕ
str_to_uint64 none = record { value = 0; error = 1 }
str_to_uint64 (some s) = elim (read_number (2 ^ 64 - 1) (skip_spaces s)) [
  | none ↦ record { value = 0; error = 1 }
  | some result ↦ record { value = result; error = 0 }
]

-- `(int64_t)n`
abbrev pub signed64 : ℕ → ℤ
signed64 n = if ltb n (2 ^ 63) then pos n else negsuc (2 ^ 64 - 1 - n)

-- `-z` on int64_t, where the least value stays as it is
abbrev pub neg64 : ℤ → ℤ
neg64 (pos n) = minus n
neg64 (negsuc n) = if n == 2 ^ 63 - 1 then negsuc n else pos (suc n)

-- the optional sign: whether it is negative, and what follows it
pub read_sign : List ℕ → Bool × List ℕ
read_sign s =
    if first s == 45
    then (true, rest s)
    else (if first s == 43 then (false, rest s) else (false, s))

-- the greatest magnitude a number of this sign has
pub limit_of : Bool → ℕ
limit_of negative = if negative then 2 ^ 63 else 2 ^ 63 - 1

pub str_to_int64 : Option (List ℕ) → Reading ℤ
str_to_int64 none = record { value = pos 0; error = 1 }
str_to_int64 (some s) =
    let (negative, t) = read_sign (skip_spaces s) in
    elim (read_number (limit_of negative) t) [
      | none ↦ record { value = pos 0; error = 1 }
      | some result ↦ record {
        value = if negative then neg64 (signed64 result) else signed64 result;
        error = 0;
      }
    ]
