-- ===== src/Str/Tests.antt =====
-- Strings of libc/string.c.
use cool_frost.Prelude.{ℕ, ◌≡◌, refl, ◌↔◌, true, some, List, [], ◌∷◌, pos}
use cool_frost.Str.{
  strcmp, strncmp, strstr, search_from, strtok_r, strspn, strcspn, strchr, strlen, reverse,
  swap_ends, text,
}
use cool_frost.Str.Compare.{bytes, strcmp_lem}

-- `abc`, in an array with a byte more behind the zero byte
abbrev abc : List ℕ
abc = b'a' ∷ b'b' ∷ b'c' ∷ 0 ∷ 1 ∷ []

reversed : reverse abc ≡ b'c' ∷ b'b' ∷ b'a' ∷ 0 ∷ 1 ∷ []
unfolding reverse strlen swap_ends
reversed = refl

finds_bc : strstr abc (b'b' ∷ b'c' ∷ []) ≡ some 1
unfolding strstr search_from strncmp strlen
finds_bc = refl

-- The token of `/ab/c` is `ab`, and the next call begins at `c`.
cuts_ab :
    strtok_r (b'/' ∷ b'a' ∷ b'b' ∷ b'/' ∷ b'c' ∷ []) 0 (b'/' ∷ [])
    ≡ record { string = b'/' ∷ b'a' ∷ b'b' ∷ 0 ∷ b'c' ∷ []; token = some 1; saveptr = 4 }
unfolding strtok_r strspn strcspn strchr
cuts_ab = refl

abc_bytes : bytes abc ≡ true
unfolding bytes
abc_bytes = refl

other_bytes : bytes (b'a' ∷ b'b' ∷ b'c' ∷ []) ≡ true
unfolding bytes
other_bytes = refl

strcmp_lem_example :
    (strcmp abc (b'a' ∷ b'b' ∷ b'c' ∷ []) ≡ pos 0) ↔ (text abc ≡ text (b'a' ∷ b'b' ∷ b'c' ∷ []))
strcmp_lem_example = strcmp_lem abc (b'a' ∷ b'b' ∷ b'c' ∷ []) abc_bytes other_bytes
