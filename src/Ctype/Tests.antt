-- ===== src/Ctype/Tests.antt =====
-- The classes of libc/ctype.c at some characters.
use cool_frost.Prelude.{◌≡◌, refl, false}
use cool_frost.Ctype.{islower, isupper, isalpha, isdigit, ispunct, isgraph, isprint, isalnum}

no_print_of_space : isprint 32 ≡ false
unfolding isprint isgraph isalnum isalpha islower isupper isdigit ispunct
no_print_of_space = refl
