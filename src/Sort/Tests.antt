-- ===== src/Sort/Tests.antt =====
-- Numbers sorted and searched by libc/sort.c.
use cool_frost.Sort.Insertion.{IsOrder, Sorted}
use cool_frost.Sort.Quicksort.{ksort-Sorted}
use cool_frost.Prelude.{
  ℕ, ◌+◌, ◌-◌, ◌≡◌, refl, Option, none, some, List, [], ◌∷◌, arith, ltb, if◌then◌else◌, ℤ, pos,
  negsuc,
}
use cool_frost.Sort.{
  med3, sift, isort_from, isort, partition, qsort_impl, ksort, search_from, kbsearch,
}
use cool_frost.Sort.Search.{IsOrdered, Found, kbsearch-Found}
use cool_frost.Sort.Permuted.{Swapped}

-- the usual order of numbers
abbrev order : ℕ → ℕ → ℤ
order a b = if ltb a b then negsuc 0 else if ltb b a then pos 1 else pos 0

-- the numbers in falling order
abbrev falling : ℕ → ℕ
falling i = 20 - i

-- 10, 11, 12, ...
abbrev rising : ℕ → ℕ
rising i = 10 + i

some_of : Option (ℕ → ℕ) → List ℕ
some_of none = []
some_of (some a) = a 0 ∷ a 1 ∷ a 2 ∷ a 8 ∷ a 9 ∷ []

-- ten numbers, which the quicksort and then the insertion sort put in order
sorts_ten : some_of (ksort order falling 10) ≡ 11 ∷ 12 ∷ 13 ∷ 19 ∷ 20 ∷ []
unfolding some_of ksort qsort_impl med3 partition isort isort_from sift
sorts_ten = refl

finds_13 : kbsearch order 13 rising 8 ≡ some (some 3)
unfolding kbsearch search_from
finds_13 = refl

rising-IsOrdered : IsOrdered order 13 rising 8
rising-IsOrdered = record {
  below = λ i j le lt e. ground arith;
  above = λ i j le lt e. ground arith;
}

kbsearch-Found_example :
    (r : Option ℕ) × (kbsearch order 13 rising 8 ≡ some r) × Found order 13 rising 0 8 r
kbsearch-Found_example = kbsearch-Found order 13 rising 8 rising-IsOrdered

order-IsOrder : IsOrder order
order-IsOrder = record { trans = λ x y z e g. ground arith; total = λ x y e. ground arith }

ksort-Sorted_example :
    (b : ℕ → ℕ) × (ksort order falling 10 ≡ some b) × Swapped 0 10 falling b × Sorted order 0 10 b
ksort-Sorted_example = ksort-Sorted order order-IsOrder falling 10
