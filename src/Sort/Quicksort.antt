-- ===== src/Sort/Quicksort.antt =====
-- ksort of libc/sort.c sorts.
use mathlib.Core.Path.{subst}
use cool_frost.Prelude.{
  ℕ, zero, suc, ◌+◌, ◌-◌, ◌/◌, ◌≤◌, ◌<◌, ◌≡◌, refl, sym, ap, ◌∙◌, inl, inr, Option, some, arith,
  ltb, leb, if◌then◌else◌, Bool-cases, ℤ, ltb→lt,
}
use cool_frost.Sort.{bswap, isort_max, med3, isort, partition, qsort_impl, ksort}
use cool_frost.Sort.Permuted.{
  Swapped, same, swapped, Swapped-trans, Swapped-widen, partition-Parted, isort-Swapped,
  pivot-Swapped,
}
use cool_frost.Sort.Insertion.{
  bswap-left, bswap-right, bswap-other, eq_or, Le, IsOrder, Sorted, isort-Sorted,
}
use cool_frost.Sort.Partition.{Swapped-outside, Swapped-all, Split, partition-Split}

module _ {ℓ} {A : Type ℓ} (cmp : A → A → ℤ) (v : IsOrder cmp) where
  -- The recursion's result: an array that swaps lead to, and sorted.
  abbrev Ends : (base n : ℕ) → (ℕ → A) → Option (ℕ → A) → Type ℓ
  Ends base n a r =
      (b : ℕ → A) × (r ≡ some b) × Swapped base (base + n) a b × Sorted cmp base (base + n) b

  -- The element at `m` is not below those before it, nor above those behind it.
  record Parts (lo m hi : ℕ) (a : ℕ → A) : Type ℓ where
    before : (k : ℕ) → lo ≤ k → k < m → Le cmp (a k) (a m)
    behind : (k : ℕ) → m < k → k < hi → Le cmp (a m) (a k)

  Split-Parts :
      (base i n : ℕ) (x : A) (a : ℕ → A)
      → i < n
      → Split cmp v base i (n - 1) (base + (n - 1)) x a
      → Parts base (base + i) (base + n) (bswap a (base + i) (base + (n - 1)))
  Split-Parts base i n x a lt s =
      let last = base + (n - 1) in
      let b = bswap a (base + i) last in
      let mid : b (base + i) ≡ x = bswap-left a (base + i) last (base + i) refl ∙ s.pivot in
      record {
        before = λ k lk hk. subst (Le cmp (b k)) (sym mid) (
            subst (λ y. Le cmp y x)
              (sym (
                bswap-other a (base + i) last k (λ z. absurd (omega arith))
                  (λ z. absurd (omega arith))))
              (s.low k lk hk));
        behind = λ k lk hk.
            subst (λ y. Le cmp y (b k)) (sym mid)
              (elim (eq_or k last) [
                | inl at ↦
                    subst (Le cmp x) (sym (bswap-right a (base + i) last k at))
                      (s.high (base + i) (omega arith) (omega arith))
                | inr ne ↦
                    subst (Le cmp x)
                      (sym (bswap-other a (base + i) last k (λ z. absurd (omega arith)) ne))
                      (s.high k (omega arith) (omega arith))
              ]);
      }

  -- The two parts sorted, one after the other, make the whole sorted.
  Parts-Sorted :
      (lo m hi : ℕ) (a b c : ℕ → A)
      → lo ≤ m
      → m < hi
      → Parts lo m hi a
      → Swapped lo m a b
      → Sorted cmp lo m b
      → Swapped (m + 1) hi b c
      → Sorted cmp (m + 1) hi c
      → Sorted cmp lo hi c
  unfolding Sorted
  Parts-Sorted lo m hi a b c le lt parts s1 sorted1 s2 sorted2 =
      let mid : c m ≡ a m =
        Swapped-outside (m + 1) hi b c s2 m (inl (omega arith))
        ∙ Swapped-outside lo m a b s1 m (inr (omega arith)) in
      let before : (k : ℕ) → lo ≤ k → k < m → Le cmp (c k) (c m) = λ k lk hk.
        subst (Le cmp (c k)) (sym mid) (
          subst (λ y. Le cmp y (a m))
            (sym (Swapped-outside (m + 1) hi b c s2 k (inl (omega arith))))
            (Swapped-all lo m a b (λ y. Le cmp y (a m)) s1 parts.before k lk hk)) in
      let behind : (k : ℕ) → m < k → k < hi → Le cmp (c m) (c k) = λ k lk hk.
        subst (λ y. Le cmp y (c k)) (sym mid)
          (Swapped-all (m + 1) hi b c (Le cmp (a m)) s2
            (λ j lj hj.
              subst (Le cmp (a m)) (sym (Swapped-outside lo m a b s1 j (inr (omega arith))))
                (parts.behind j (omega arith) hj))
            k (omega arith) hk) in
      λ p q lp lq hq. elim (Bool-cases (ltb q m)) [
        | inl h ↦
            subst (λ y. Le cmp y (c q))
              (sym (Swapped-outside (m + 1) hi b c s2 p (inl (ground arith))))
              (subst (Le cmp (b p)) (sym (Swapped-outside (m + 1) hi b c s2 q (inl (ground arith))))
                (sorted1 p q lp lq (ltb→lt q m h)))
        | inr h ↦ elim (Bool-cases (ltb m p)) [
          | inl g ↦ sorted2 p q (ground arith) lq hq
          | inr g ↦ elim (eq_or p m) [
            | inl e ↦ subst (λ r. Le cmp (c r) (c q)) (sym e) (behind q (omega arith) hq)
            | inr ne ↦ elim (eq_or q m) [
              | inl e ↦ subst (λ r. Le cmp (c p) (c r)) (sym e) (before p lp (ground arith))
              | inr nf ↦
                  v.trans (c p) (c m) (c q) (before p lp (ground arith))
                    (behind q (ground arith) hq)
            ]
          ]
        ]
      ]

  qsort_impl-Ends :
      (fuel : ℕ) (a : ℕ → A) (base n : ℕ) → n < fuel → Ends base n a (qsort_impl cmp fuel a base n)
  unfolding qsort_impl Sorted
  qsort_impl-Ends (suc fuel) a base n lt = elim (Bool-cases (ltb n 2)) [
    | inl e ↦ (a, rw (qsort_impl, e) refl, same, λ p q lp lq hq. absurd (ground arith))
    | inr e ↦ elim (Bool-cases (leb n isort_max)) [
      | inl g ↦ (
        isort cmp a base n,
        rw (qsort_impl, e, g) refl,
        isort-Swapped cmp a base n (ground arith),
        isort-Sorted cmp v a base n (ground arith),
      )
      | inr g ↦
          let le : 2 ≤ n = ground arith in
          let last = base + (n - 1) in
          let a1 = bswap a (med3 cmp a base (base + n / 2) last) last in
          let (a2, i) = partition cmp a1 base last (n - 1) 0 0 in
          let a3 = bswap a2 (base + i) last in
          let p = partition-Parted cmp a1 base last n (n - 1) 0 0 (omega arith) (omega arith) in
          let kept : i ≤ 0 + (n - 1) = p.kept in
          let pivot = pivot-Swapped cmp a base n le in
          let start : Split cmp v base 0 0 last (a1 last) a1 = record {
            low = λ k lk hk. absurd (omega arith);
            high = λ k lk hk. absurd (omega arith);
            pivot = refl;
          } in
          let split : Split cmp v base i (n - 1) last (a1 last) a2 =
            subst (λ m. Split cmp v base i m last (a1 last) a2) {x = 0 + (n - 1)} {y = n - 1}
              (omega arith)
              (partition-Split cmp v a1 base last (n - 1) 0 0 (a1 last) (omega arith)
                (ap (λ m. base + m) {x = 0 + (n - 1)} {y = n - 1} (omega arith)) start) in
          let ends : base + i + 1 + (n - i - 1) ≡ base + n = omega arith in
          let parts = Split-Parts base i n (a1 last) a2 (omega arith) split in
          let placed : Swapped base (base + n) a a3 =
            swapped (Swapped-trans base (base + n) a a1 a2 pivot p.swaps) (base + i) last
              (omega arith, omega arith) (omega arith, omega arith) in
          let (a4, left, q, sorted1) =
            elim (Bool-cases (ltb 0 i))
              as (λ _.
                Ends base i a3 (if ltb 0 i then qsort_impl cmp fuel a3 base i else some a3)) [
                  | inl h ↦ rw h (qsort_impl-Ends fuel a3 base i (omega arith))
                  | inr h ↦ rw h (a3, refl, same, λ p q lp lq hq. absurd (ground arith))
                ] in
          let (a5, right, t, sorted2) =
            elim (Bool-cases (ltb 2 (n - i)))
              as (λ _. Ends (base + i + 1) (n - i - 1) a4 (
                if ltb 2 (n - i)
                then qsort_impl cmp fuel a4 (base + i + 1) (n - i - 1)
                else some a4)) [
                  | inl h ↦ rw h (qsort_impl-Ends fuel a4 (base + i + 1) (n - i - 1) (omega arith))
                  | inr h ↦ rw h (a4, refl, same, λ p q lp lq hq. absurd (ground arith))
                ] in
          (
            a5,
            rw (qsort_impl, e, g, left) right,
            Swapped-trans base (base + n) a a4 a5
                (Swapped-trans base (base + n) a a3 a4 placed (
                  Swapped-widen base (base + n) base (base + i) a3 a4 (omega arith) (omega arith)
                    q))
                (Swapped-widen base (base + n) (base + i + 1) (base + i + 1 + (n - i - 1)) a4 a5
                  (omega arith) (omega arith) t),
            Parts-Sorted base (base + i) (base + n) a3 a4 a5 (omega arith) (omega arith) parts q
                sorted1 (subst (λ m. Swapped (base + i + 1) m a4 a5) ends t)
                (subst (λ m. Sorted cmp (base + i + 1) m a5) ends sorted2),
          )
    ]
  ]
  qsort_impl-Ends zero a base n lt = absurd (omega arith)

  -- Where the comparison is the one of a total preorder, ksort ends, with a recursion no deeper
  -- than the number of elements and one, and the array it leaves is sorted, and comes from the one
  -- it was given by swaps of elements within its bounds.
  pub ksort-Sorted :
      (a : ℕ → A) (n : ℕ)
      → (b : ℕ → A) × (ksort cmp a n ≡ some b) × Swapped 0 n a b × Sorted cmp 0 n b
  unfolding ksort
  ksort-Sorted a n =
      let (b, e, q, s) = qsort_impl-Ends (suc n) a 0 n (omega arith) in
      let ends : 0 + n ≡ n = omega arith in
      (b, e, subst (λ m. Swapped 0 m a b) ends q, subst (λ m. Sorted cmp 0 m b) ends s)
