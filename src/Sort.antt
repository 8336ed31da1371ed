-- ===== src/Sort.antt =====
-- libc/sort.c: sorting and binary search. An array is a function from indices to elements, and a
-- pointer to an element is its index; the comparison is an argument, as in the code.
pub mod Search
pub mod Partition
pub mod Quicksort
pub mod Insertion
mod Tests
pub mod Permuted
use cool_frost.Prelude.{
  ℕ, zero, suc, ◌+◌, ◌-◌, ◌*◌, ◌/◌, ◌%◌, ◌^◌, ◌≤◌, ◌<◌, min, bit_and, bit_or, bit_xor, ◌≡◌, refl,
  sym, ap, ◌∙◌, ◌≢◌, ◌↔◌, ◌⊎◌, inl, inr, Bool, true, false, not, ◌&&◌, ◌||◌, Option, none, some,
  List, [], ◌∷◌, ◌++◌, map, arith, ltb, leb, ◌==◌, if◌then◌else◌, Bool-cases, Option-cases, length,
  get_elem?, get_or, set, take, drop, replicate, wrap8, wrap32, wrap64, sub32, sub64, ℤ, pos,
  negsuc, is_positive, is_negative, is_zero,
}

-- the elements at two indices exchanged, which is what bswap does to their bytes
abbrev pub bswap {ℓ} : {A : Type ℓ} → (ℕ → A) → (i j : ℕ) → ℕ → A
bswap a i j k = if k == i then a j else if k == j then a i else a k

abbrev pub isort_max : ℕ
isort_max = 8

module _ {ℓ} {A : Type ℓ} (cmp : A → A → ℤ) where
  pub med3 : (ℕ → A) → (i j k : ℕ) → ℕ
  med3 a i j k =
      if is_negative (cmp (a i) (a j))
      then if is_negative (cmp (a j) (a k))
        then j
        else if is_negative (cmp (a i) (a k))
        then k
        else i
      else if is_positive (cmp (a j) (a k))
      then j
      else if is_positive (cmp (a i) (a k))
      then k
      else i

  -- the inner loop of isort, for the array that begins at `base`
  pub sift : (ℕ → A) → (base j : ℕ) → ℕ → A
  sift a base zero = a
  sift a base (suc j) =
      if is_positive (cmp (a (base + j)) (a (base + suc j)))
      then sift (bswap a (base + j) (base + suc j)) base j
      else a

  -- its outer loop, in `n` rounds from `i` on
  pub isort_from : (ℕ → A) → (base n i : ℕ) → ℕ → A
  isort_from a base zero i = a
  isort_from a base (suc n) i = isort_from (sift a base i) base n (i + 1)

  pub isort : (ℕ → A) → (base n : ℕ) → ℕ → A
  unfolding isort_from
  isort a base n = isort_from a base (n - 1) 1

  -- the loop of the partition, in `rounds` rounds from `j` on, with `i` the elements kept
  pub partition : (ℕ → A) → (base piv rounds j i : ℕ) → (ℕ → A) × ℕ
  partition a base piv zero j i = (a, i)
  partition a base piv (suc rounds) j i =
      if is_positive (cmp (a (base + j)) (a piv))
      then partition a base piv rounds (j + 1) i
      else partition (bswap a (base + i) (base + j)) base piv rounds (j + 1) (i + 1)

  -- `none` where the depth of the recursion passes the fuel
  pub qsort_impl : (fuel : ℕ) → (ℕ → A) → (base n : ℕ) → Option (ℕ → A)
  qsort_impl zero a base n = none
  qsort_impl (suc fuel) a base n =
      let last = base + (n - 1) in
      let a1 = bswap a (med3 a base (base + n / 2) last) last in
      let (a2, i) = partition a1 base last (n - 1) 0 0 in
      let a3 = bswap a2 (base + i) last in
      let left = if ltb 0 i then qsort_impl fuel a3 base i else some a3 in
      if ltb n 2 then some a else if leb n isort_max then some (isort a base n) else elim left [
        | none ↦ none
        | some a4 ↦ if ltb 2 (n - i) then qsort_impl fuel a4 (base + i + 1) (n - i - 1) else some a4
      ]

  pub ksort : (ℕ → A) → (n : ℕ) → Option (ℕ → A)
  unfolding qsort_impl
  ksort a n = qsort_impl (suc n) a 0 n

  -- the loop of kbsearch, with `lo` the index of its first element
  pub search_from : (fuel : ℕ) → (key : A) → (ℕ → A) → (lo hi : ℕ) → Option (Option ℕ)
  search_from zero key a lo hi = none
  search_from (suc fuel) key a lo hi =
      let mid = hi / 2 in
      let r = cmp key (a (lo + mid)) in
      let above = search_from fuel key a (lo + (mid + 1)) (hi - (mid + 1)) in
      let below = search_from fuel key a lo mid in
      if hi == 0
      then some none
      else if is_zero r
      then some (some (lo + mid))
      else if is_positive r
      then above
      else below

  pub kbsearch : (key : A) → (ℕ → A) → (n : ℕ) → Option (Option ℕ)
  unfolding search_from
  kbsearch key a n = search_from (suc n) key a 0 n
