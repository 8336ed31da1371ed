-- ===== src/Str/Numbers/Tests.antt =====
-- Numerals that str_to_uint64 and str_to_int64 of libc/string.c read.
use cool_frost.Prelude.{ℕ, ◌^◌, ◌<◌, ◌≡◌, refl, ◌⊎◌, Bool, none, some, List, [], ◌∷◌, pos, negsuc}
use cool_frost.Ctype.{isdigit, isspace}
use cool_frost.Str.Numbers.{
  str_to_uint64, str_to_int64, read_number, read_digits, skip_spaces, read_sign, limit_of,
}
use cool_frost.Str.Numbers.Exact.{
  IsNumeral, IsSigned, Fits, signed, str_to_uint64_lem, str_to_int64_lem,
}

-- ` 42 `
abbrev forty_two : List ℕ
forty_two = 32 ∷ b'4' ∷ b'2' ∷ 32 ∷ 0 ∷ []

reads_42 : str_to_uint64 (some forty_two) ≡ record { value = 42; error = 0 }
unfolding str_to_uint64 read_number read_digits skip_spaces isdigit isspace
reads_42 = refl

-- `-42`
reads_minus_42 :
    str_to_int64 (some (b'-' ∷ b'4' ∷ b'2' ∷ [])) ≡ record { value = negsuc 41; error = 0 }
unfolding str_to_int64 read_number read_digits skip_spaces read_sign limit_of isdigit isspace
reads_minus_42 = refl

str_to_uint64_lem_example :
    (str_to_uint64 none ≡ record { value = 0; error = 1 })
    × ((n : ℕ)
        → IsNumeral forty_two n
        → n < 2 ^ 64
        → str_to_uint64 (some forty_two) ≡ record { value = n; error = 0 })
    × ((str_to_uint64 (some forty_two) ≡ record { value = 0; error = 1 })
        ⊎ ((n : ℕ) × (str_to_uint64 (some forty_two) ≡ record { value = n; error = 0 })
            × IsNumeral forty_two n
            × (n < 2 ^ 64)))
str_to_uint64_lem_example = str_to_uint64_lem forty_two

str_to_int64_lem_example :
    (str_to_int64 none ≡ record { value = pos 0; error = 1 })
    × ((b : Bool) (n : ℕ)
        → IsSigned forty_two b n
        → Fits b n
        → str_to_int64 (some forty_two) ≡ record { value = signed b n; error = 0 })
    × ((str_to_int64 (some forty_two) ≡ record { value = pos 0; error = 1 })
        ⊎ ((b : Bool) × (n : ℕ) × (str_to_int64 (some forty_two)
              ≡ record { value = signed b n; error = 0 })
            × IsSigned forty_two b n
            × Fits b n))
str_to_int64_lem_example = str_to_int64_lem forty_two
