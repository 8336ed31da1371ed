-- ===== src/Str.antt =====
-- libc/string.c: the strings. A string is the char array from its pointer on, a list of bytes; its
-- text ends before the first zero byte, and a read past the list finds the zero byte. A pointer
-- into a string is its distance from the string's start.
mod Numbers
mod Compare
mod Tests
use cool_frost.Prelude.{
  ℕ, zero, suc, ◌+◌, ◌-◌, ◌*◌, ◌/◌, ◌%◌, ◌^◌, ◌≤◌, ◌<◌, min, bit_and, bit_or, bit_xor, ◌≡◌, refl,
  sym, ap, ◌∙◌, ◌≢◌, ◌↔◌, ◌⊎◌, inl, inr, Bool, true, false, not, ◌&&◌, ◌||◌, Option, none, some,
  List, [], ◌∷◌, ◌++◌, map, arith, ltb, leb, ◌==◌, if◌then◌else◌, Bool-cases, Option-cases, length,
  get_elem?, get_or, set, take, drop, replicate, wrap8, wrap32, wrap64, sub32, sub64, ℤ, pos,
  negsuc, difference, minus, and_true, true_and, is_zero,
}
use cool_frost.Ctype.{tolower}

-- `*s`
abbrev pub first : List ℕ → ℕ
first s = get_or s 0 0

-- `s + 1`
abbrev pub rest : List ℕ → List ℕ
rest s = drop 1 s

-- the text of a string, which ends before the first zero byte
unfoldable pub text : List ℕ → List ℕ
text [] = []
text (c ∷ s) = if c == 0 then [] else c ∷ text s

pub strlen : List ℕ → ℕ
strlen [] = 0
strlen (c ∷ s) = if c == 0 then 0 else suc (strlen s)

pub strnlen : List ℕ → ℕ → ℕ
strnlen s zero = 0
strnlen [] (suc n) = 0
strnlen (c ∷ s) (suc n) = if c == 0 then 0 else suc (strnlen s n)

pub append : List ℕ → ℕ → List ℕ
append s n = let len = strlen s in set (set s len n) (len + 1) 0

pub backspace : List ℕ → List ℕ
backspace s = let len = strlen s in if ltb 0 len then set s (len - 1) 0 else s

-- the loop of reverse, `n` times at most
swap_ends : List ℕ → ℕ → ℕ → ℕ → List ℕ
swap_ends s i j zero = s
swap_ends s i j (suc n) =
    if ltb i j
    then swap_ends (set (set s i (get_or s j 0)) j (get_or s i 0)) (i + 1) (j - 1) n
    else s

pub reverse : List ℕ → List ℕ
unfolding swap_ends
reverse s = let n = strlen s in if n == 0 then s else swap_ends s 0 (n - 1) n

-- the difference of two characters that char makes signed
abbrev schar_diff : ℕ → ℕ → ℤ
schar_diff a b = difference ((a + 128) % 256) ((b + 128) % 256)

pub strcmp : List ℕ → List ℕ → ℤ
strcmp [] s2 = if 0 == first s2 then pos 0 else schar_diff 0 (first s2)
strcmp (c ∷ s1) s2 =
    if c == first s2
    then (if c == 0 then pos 0 else strcmp s1 (rest s2))
    else schar_diff c (first s2)

pub strncmp : List ℕ → List ℕ → ℕ → ℤ
strncmp s1 s2 zero = pos 0
strncmp s1 s2 (suc n) =
    if first s1 == first s2
    then (if first s1 == 0 then pos 0 else strncmp (rest s1) (rest s2) n)
    else difference (first s1) (first s2)

pub strcasecmp : List ℕ → List ℕ → ℤ
strcasecmp [] s2 = difference 0 (first s2)
strcasecmp (c ∷ s1) s2 =
    if c == 0 || first s2 == 0
    then difference c (first s2)
    else (if tolower c == tolower (first s2)
        then strcasecmp s1 (rest s2)
        else difference (tolower c) (tolower (first s2)))

-- `while ((*d++ = *src++));` with `d` the place in `dst`
copy_all : List ℕ → ℕ → List ℕ → List ℕ
copy_all dst d [] = set dst d 0
copy_all dst d (c ∷ src) = if c == 0 then set dst d 0 else copy_all (set dst d c) (suc d) src

pub strcpy : List ℕ → List ℕ → List ℕ
unfolding copy_all
strcpy dst src = copy_all dst 0 src

pub strcat : List ℕ → List ℕ → List ℕ
unfolding copy_all
strcat dst src = copy_all dst (strlen dst) src

-- at most `n` characters, with the place behind the last
copy_some : List ℕ → ℕ → List ℕ → ℕ → List ℕ × ℕ
copy_some dst d src zero = (dst, d)
copy_some dst d [] (suc n) = (dst, d)
copy_some dst d (c ∷ src) (suc n) =
    if c == 0 then (dst, d) else copy_some (set dst d c) (suc d) src n

zero_fill : List ℕ → ℕ → ℕ → List ℕ
zero_fill dst i zero = dst
zero_fill dst i (suc n) = zero_fill (set dst i 0) (suc i) n

pub strncpy : List ℕ → List ℕ → ℕ → List ℕ
unfolding copy_some zero_fill
strncpy dst src n = let (copied, i) = copy_some dst 0 src n in zero_fill copied i (n - i)

pub strncat : List ℕ → List ℕ → ℕ → List ℕ
unfolding copy_some
strncat dst src n = let (copied, i) = copy_some dst (strlen dst) src n in set copied i 0

-- where a search that starts one character further finds it
abbrev pub further : Option ℕ → Option ℕ
further none = none
further (some i) = some (suc i)

pub strchr : List ℕ → ℕ → Option ℕ
strchr [] c = if c % 256 == 0 then some 0 else none
strchr (x ∷ s) c =
    if x == 0
    then (if c % 256 == 0 then some 0 else none)
    else (if x == c % 256 then some 0 else further (strchr s c))

-- `last` is what was found before, and `i` the place of the string's head.
last_of : List ℕ → ℕ → ℕ → Option ℕ → Option ℕ
last_of [] c i last = if c % 256 == 0 then some i else last
last_of (x ∷ s) c i last =
    if x == 0
    then (if c % 256 == 0 then some i else last)
    else last_of s c (suc i) (if x == c % 256 then some i else last)

pub strrchr : List ℕ → ℕ → Option ℕ
unfolding last_of
strrchr s c = last_of s c 0 none

search_from : List ℕ → List ℕ → Option ℕ
search_from [] needle = none
search_from (x ∷ s) needle =
    if x == 0
    then none
    else (if x == first needle && is_zero (strncmp (x ∷ s) needle (strlen needle))
        then some 0
        else further (search_from s needle))

pub strstr : List ℕ → List ℕ → Option ℕ
unfolding search_from
strstr haystack needle = if first needle == 0 then some 0 else search_from haystack needle

abbrev pub found : Option ℕ → Bool
found none = false
found (some i) = true

pub strspn : List ℕ → List ℕ → ℕ
strspn [] accept = 0
strspn (c ∷ s) accept = if c == 0 || not (found (strchr accept c)) then 0 else suc (strspn s accept)

pub strcspn : List ℕ → List ℕ → ℕ
strcspn [] reject = 0
strcspn (c ∷ s) reject = if c == 0 || found (strchr reject c) then 0 else suc (strcspn s reject)

-- What a call of strtok_r leaves: the string that the tokens are cut in, the token's place in it,
-- and where the next call goes on.
pub record Tokens : Type 0 where
  string : List ℕ
  token : Option ℕ
  saveptr : ℕ

-- `start` is where the call begins, which is 0 for a new string and the saveptr for an old one.
pub strtok_r : List ℕ → ℕ → List ℕ → Tokens
strtok_r str start delim =
    let tok = start + strspn (drop start str) delim in
    if get_or str tok 0 == 0
    then record { string = str; token = none; saveptr = tok }
    else (let stop = tok + strcspn (drop tok str) delim in
        if get_or str stop 0 == 0
        then record { string = str; token = some tok; saveptr = stop }
        else record { string = set str stop 0; token = some tok; saveptr = stop + 1 })
