-- ===== src/Sort/Permuted.antt =====
-- ksort of libc/sort.c moves the elements about, and nothing else.
use mathlib.Core.Path.{subst}
use cool_frost.Prelude.{
  ℕ, zero, suc, ◌+◌, ◌-◌, ◌/◌, ◌≤◌, ◌<◌, ◌≡◌, refl, inl, inr, Option, some, arith, ltb, leb,
  Bool-cases, ℤ, is_positive, if_both,
}
use cool_frost.Sort.{bswap, isort_max, med3, sift, isort_from, isort, partition, qsort_impl, ksort}

-- `b` comes from `a` by swaps of elements with indices from `lo` up to `hi`.
pub data Swapped {ℓ} {A : Type ℓ} (lo hi : ℕ) (a : ℕ → A) : (ℕ → A) → Type ℓ where
  same : Swapped lo hi a a
  swapped :
      {b : ℕ → A}
      → Swapped lo hi a b
      → (i j : ℕ) → (lo ≤ i) × (i < hi)
      → (lo ≤ j) × (j < hi)
      → Swapped lo hi a (bswap b i j)

module _ {ℓ} {A : Type ℓ} where
  pub Swapped-trans :
      (lo hi : ℕ) (a b c : ℕ → A) → Swapped lo hi a b → Swapped lo hi b c → Swapped lo hi a c
  Swapped-trans lo hi a b _ p same = p
  Swapped-trans lo hi a b _ p (swapped q i j r t) = swapped (Swapped-trans lo hi a b _ p q) i j r t

  pub Swapped-widen :
      (lo hi lo' hi' : ℕ) (a b : ℕ → A)
      → lo ≤ lo'
      → hi' ≤ hi
      → Swapped lo' hi' a b
      → Swapped lo hi a b
  Swapped-widen lo hi lo' hi' a _ le ge same = same
  Swapped-widen lo hi lo' hi' a _ le ge (swapped q i j (r0, r1) (t0, t1)) =
      swapped (Swapped-widen lo hi lo' hi' a _ le ge q) i j (omega arith, omega arith)
        (omega arith, omega arith)

module _ {ℓ} {A : Type ℓ} (cmp : A → A → ℤ) where
  med3_cases : (a : ℕ → A) (i j k : ℕ) → (P : ℕ → Type 0) → P i → P j → P k → P (med3 cmp a i j k)
  unfolding med3
  med3_cases a i j k P x y z =
      if_both P _ (if_both P _ y (if_both P _ z x)) (if_both P _ y (if_both P _ z x))

  sift-Swapped : (a : ℕ → A) (base n j : ℕ) → j < n → Swapped base (base + n) a (sift cmp a base j)
  unfolding sift
  sift-Swapped a base n zero lt = same
  sift-Swapped a base n (suc j) lt =
      if_both (Swapped base (base + n) a) (is_positive (cmp (a (base + j)) (a (base + suc j))))
        (Swapped-trans base (base + n) a (bswap a (base + j) (base + suc j)) _
          (swapped same (base + j) (base + suc j) (omega arith, omega arith)
            (omega arith, omega arith))
          (sift-Swapped (bswap a (base + j) (base + suc j)) base n j (omega arith)))
        same

  isort_from-Swapped :
      (a : ℕ → A) (base n rounds i : ℕ)
      → i + rounds ≤ n
      → Swapped base (base + n) a (isort_from cmp a base rounds i)
  unfolding isort_from
  isort_from-Swapped a base n zero i le = same
  isort_from-Swapped a base n (suc rounds) i le =
      Swapped-trans base (base + n) a (sift cmp a base i) _ (sift-Swapped a base n i (omega arith))
        (isort_from-Swapped (sift cmp a base i) base n rounds (i + 1) (omega arith))

  -- What the partition has done after its rounds.
  pub record Parted (base n i rounds : ℕ) (a : ℕ → A) (r : (ℕ → A) × ℕ) : Type ℓ where
    pub swaps : Swapped base (base + n) a r.0
    pub kept : r.1 ≤ i + rounds

  pub partition-Parted :
      (a : ℕ → A) (base piv n rounds j i : ℕ)
      → i ≤ j
      → j + rounds ≤ n
      → Parted base n i rounds a (partition cmp a base piv rounds j i)
  unfolding partition
  partition-Parted a base piv n zero j i le fit = record { swaps = same; kept = omega arith }
  partition-Parted a base piv n (suc rounds) j i le fit =
      let b = bswap a (base + i) (base + j) in
      let p = partition-Parted a base piv n rounds (j + 1) i (omega arith) (omega arith) in
      let q = partition-Parted b base piv n rounds (j + 1) (i + 1) (omega arith) (omega arith) in
      if_both (Parted base n i (suc rounds) a) (is_positive (cmp (a (base + j)) (a piv)))
        (record { swaps = p.swaps; kept = omega (arith, p.kept) })
        (record {
          swaps =
              Swapped-trans base (base + n) a b _
                (swapped same (base + i) (base + j) (omega arith, omega arith)
                  (omega arith, omega arith))
                q.swaps;
          kept = omega (arith, q.kept);
        })

  -- The call ends with an array that swaps lead to.
  abbrev Ends : (base n : ℕ) → (ℕ → A) → Option (ℕ → A) → Type ℓ
  Ends base n a r = (b : ℕ → A) × (r ≡ some b) × Swapped base (base + n) a b

  Ends-widen :
      (base n base' n' : ℕ) (a : ℕ → A) (r : Option (ℕ → A))
      → base ≤ base'
      → base' + n' ≤ base + n
      → Ends base' n' a r
      → Ends base n a r
  Ends-widen base n base' n' a r le ge (b, e, q) =
      (b, e, Swapped-widen base (base + n) base' (base' + n') a b le ge q)

  pub isort-Swapped :
      (a : ℕ → A) (base n : ℕ) → 0 < n → Swapped base (base + n) a (isort cmp a base n)
  unfolding isort
  isort-Swapped a base n lt = isort_from-Swapped a base n (n - 1) 1 (omega arith)

  -- the pivot moved to the end
  pub pivot-Swapped :
      (a : ℕ → A) (base n : ℕ)
      → 2 ≤ n
      → Swapped base
          (base + n)
          a
          (bswap a (med3 cmp a base (base + n / 2) (base + (n - 1))) (base + (n - 1)))
  pivot-Swapped a base n le =
      swapped same (med3 cmp a base (base + n / 2) (base + (n - 1))) (base + (n - 1))
        (med3_cases a base (base + n / 2) (base + (n - 1)) (λ m. (base ≤ m) × (m < base + n))
          (omega arith, omega arith) (omega arith, omega arith) (omega arith, omega arith))
        (omega arith, omega arith)

  qsort_impl-Ends :
      (fuel : ℕ) (a : ℕ → A) (base n : ℕ) → n < fuel → Ends base n a (qsort_impl cmp fuel a base n)
  unfolding qsort_impl
  qsort_impl-Ends (suc fuel) a base n lt = elim (Bool-cases (ltb n 2)) [
    | inl e ↦ (a, rw (qsort_impl, e) refl, same)
    | inr e ↦ elim (Bool-cases (leb n isort_max)) [
      | inl g ↦
          (isort cmp a base n, rw (qsort_impl, e, g) refl, isort-Swapped a base n (ground arith))
      | inr g ↦
          let le : 2 ≤ n = ground arith in
          let last = base + (n - 1) in
          let a1 = bswap a (med3 cmp a base (base + n / 2) last) last in
          let (a2, i) = partition cmp a1 base last (n - 1) 0 0 in
          let a3 = bswap a2 (base + i) last in
          let p = partition-Parted a1 base last n (n - 1) 0 0 (omega arith) (omega arith) in
          let kept : i ≤ 0 + (n - 1) = p.kept in
          let pivot = pivot-Swapped a base n le in
          let placed : Swapped base (base + n) a a3 =
            swapped (Swapped-trans base (base + n) a a1 a2 pivot p.swaps) (base + i) last
              (omega arith, omega arith) (omega arith, omega arith) in
          let (a4, left, q) =
            if_both (Ends base n a3) (ltb 0 i)
              (Ends-widen base n base i a3 (qsort_impl cmp fuel a3 base i) (omega arith)
                (omega arith) (qsort_impl-Ends fuel a3 base i (omega arith)))
              (a3, refl, same) in
          let (a5, right, t) =
            if_both (Ends base n a4) (ltb 2 (n - i))
              (Ends-widen base n (base + i + 1) (n - i - 1) a4
                (qsort_impl cmp fuel a4 (base + i + 1) (n - i - 1)) (omega arith) (omega arith)
                (qsort_impl-Ends fuel a4 (base + i + 1) (n - i - 1) (omega arith)))
              (a4, refl, same) in
          (
            a5,
            rw (qsort_impl, e, g, left) right,
            Swapped-trans base (base + n) a a4 a5 (Swapped-trans base (base + n) a a3 a4 placed q)
                t,
          )
    ]
  ]
  qsort_impl-Ends zero a base n lt = absurd (omega arith)

  -- For any comparison function, ksort ends, with a recursion no deeper than the number of
  -- elements and one, and the array it leaves comes from the one it was given by swaps of elements
  -- within its bounds.
  pub ksort-Swapped : (a : ℕ → A) (n : ℕ) → (b : ℕ → A) × (ksort cmp a n ≡ some b) × Swapped 0 n a b
  unfolding ksort
  ksort-Swapped a n =
      let (b, e, q) = qsort_impl-Ends (suc n) a 0 n (omega arith) in
      (b, e, subst (λ m. Swapped 0 m a b) {x = 0 + n} {y = n} (omega arith) q)
