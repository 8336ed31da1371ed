-- ===== src/Ctype.antt =====
-- libc/ctype.c: the classes of characters, for a character that is not negative.
mod Tests
pub mod Laws
use cool_frost.Prelude.{
  ℕ, zero, suc, ◌+◌, ◌-◌, ◌*◌, ◌/◌, ◌%◌, ◌^◌, ◌≤◌, ◌<◌, min, bit_and, bit_or, bit_xor, ◌≡◌, refl,
  sym, ap, ◌∙◌, ◌≢◌, ◌↔◌, ◌⊎◌, inl, inr, Bool, true, false, not, ◌&&◌, ◌||◌, Option, none, some,
  List, [], ◌∷◌, ◌++◌, map, arith, ltb, leb, ◌==◌, if◌then◌else◌, Bool-cases, Option-cases, length,
  get_elem?, get_or, set, take, drop, replicate, wrap8, wrap32, wrap64, sub32, sub64,
}

pub islower : ℕ → Bool
islower c = leb 97 c && leb c 122

pub isupper : ℕ → Bool
isupper c = leb 65 c && leb c 90

pub isalpha : ℕ → Bool
isalpha c = islower c || isupper c

unfoldable pub isdigit : ℕ → Bool
isdigit c = leb 48 c && leb c 57

pub isalnum : ℕ → Bool
isalnum c = isalpha c || isdigit c

pub isascii : ℕ → Bool
isascii c = ltb c 128

pub iscntrl : ℕ → Bool
iscntrl c = ltb c 32 || c == 127

pub ispunct : ℕ → Bool
ispunct c =
    (ltb 32 c && ltb c 48)
    || (ltb 57 c && ltb c 65)
    || (ltb 90 c && ltb c 97)
    || (ltb 122 c && ltb c 127)

pub isgraph : ℕ → Bool
isgraph c = isalnum c || ispunct c

pub isprint : ℕ → Bool
unfolding isgraph
isprint c = isgraph c

pub isxdigit : ℕ → Bool
isxdigit c = isdigit c || (leb 65 c && leb c 70) || (leb 97 c && leb c 102)

unfoldable pub isspace : ℕ → Bool
isspace c = c == 9 || c == 11 || c == 10 || c == 0x0c || c == 0x0d || c == 32

pub toupper : ℕ → ℕ
toupper c = if islower c then bit_xor c 0x20 else c

pub tolower : ℕ → ℕ
tolower c = if isupper c then bit_xor c 0x20 else c

pub toascii : ℕ → ℕ
toascii c = bit_and c 0x7f
