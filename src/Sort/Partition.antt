-- ===== src/Sort/Partition.antt =====
-- The partition of libc/sort.c: what it leaves on either side of the pivot.
use mathlib.Core.Path.{subst}
use cool_frost.Prelude.{
  ℕ, zero, suc, ◌+◌, ◌≤◌, ◌<◌, ◌≡◌, refl, sym, ◌∙◌, ◌≢◌, ◌⊎◌, inl, inr, true, false, arith,
  Bool-cases, ℤ, is_positive,
}
use cool_frost.Sort.{bswap, partition}
use cool_frost.Sort.Permuted.{Swapped, same, swapped}
use cool_frost.Sort.Insertion.{bswap-left, bswap-right, bswap-other, eq_or, Le, IsOrder}

module _ {ℓ} {A : Type ℓ} where
  -- Outside the bounds the array is as before.
  pub Swapped-outside :
      (lo hi : ℕ) (a b : ℕ → A) → Swapped lo hi a b → (k : ℕ) → (k < lo) ⊎ (hi ≤ k) → b k ≡ a k
  Swapped-outside lo hi a _ same k out = refl
  Swapped-outside lo hi a _ (swapped {b} s i j (r0, r1) (t0, t1)) k out =
      bswap-other b i j k (apart i r0 r1 out) (apart j t0 t1 out)
      ∙ Swapped-outside lo hi a b s k out
    where
      apart : (i : ℕ) → lo ≤ i → i < hi → (k < lo) ⊎ (hi ≤ k) → k ≢ i
      apart i r0 r1 (inl h) e = absurd (omega arith)
      apart i r0 r1 (inr h) e = absurd (omega arith)

  -- What holds of each element within the bounds still does.
  pub Swapped-all :
      (lo hi : ℕ) (a b : ℕ → A) (P : A → Type 0)
      → Swapped lo hi a b
      → ((k : ℕ) → lo ≤ k → k < hi → P (a k))
      → (k : ℕ) → lo ≤ k
      → k < hi
      → P (b k)
  Swapped-all lo hi a _ P same h k lk hk = h k lk hk
  Swapped-all lo hi a _ P (swapped {b} s i j (r0, r1) (t0, t1)) h k lk hk = elim (eq_or k i) [
    | inl e ↦ subst P (sym (bswap-left b i j k e)) (Swapped-all lo hi a b P s h j t0 t1)
    | inr ne ↦ elim (eq_or k j) [
      | inl e ↦ subst P (sym (bswap-right b i j k e)) (Swapped-all lo hi a b P s h i r0 r1)
      | inr nf ↦ subst P (sym (bswap-other b i j k ne nf)) (Swapped-all lo hi a b P s h k lk hk)
    ]
  ]

module _ {ℓ} {A : Type ℓ} (cmp : A → A → ℤ) (v : IsOrder cmp) where
  -- The first `i` elements are not above `x`, and those behind them up to `j` not below it.
  pub record Split (base i j last : ℕ) (x : A) (a : ℕ → A) : Type ℓ where
    pub low : (k : ℕ) → base ≤ k → k < base + i → Le cmp (a k) x
    pub high : (k : ℕ) → base + i ≤ k → k < base + j → Le cmp x (a k)
    pub pivot : a last ≡ x

  Split-keep :
      (base i j last : ℕ) (x : A) (a : ℕ → A)
      → is_positive (cmp (a (base + j)) (a last)) ≡ true
      → Split base i j last x a
      → Split base i (j + 1) last x a
  Split-keep base i j last x a e s = record {
    low = s.low;
    high = λ k lk hk. elim (eq_or k (base + j)) [
      | inl at ↦
          subst (λ m. Le cmp x (a m)) (sym at)
            (v.total (a (base + j)) x
              (subst (λ y. is_positive (cmp (a (base + j)) y) ≡ true) s.pivot e))
      | inr ne ↦ s.high k lk (omega arith)
    ];
    pivot = s.pivot;
  }

  Split-swap :
      (base i j last : ℕ) (x : A) (a : ℕ → A)
      → i ≤ j
      → base + j < last
      → is_positive (cmp (a (base + j)) (a last)) ≡ false
      → Split base i j last x a
      → Split base (i + 1) (j + 1) last x (bswap a (base + i) (base + j))
  Split-swap base i j last x a le lt e s = record {
    low = λ k lk hk. elim (eq_or k (base + i)) [
      | inl at ↦
          subst (λ y. Le cmp y x) (sym (bswap-left a (base + i) (base + j) k at))
            (subst (λ y. Le cmp (a (base + j)) y) s.pivot e)
      | inr ne ↦
          subst (λ y. Le cmp y x)
            (sym (bswap-other a (base + i) (base + j) k ne (λ z. absurd (omega arith))))
            (s.low k lk (omega arith))
    ];
    high = λ k lk hk. elim (eq_or k (base + j)) [
      | inl at ↦
          subst (Le cmp x) (sym (bswap-right a (base + i) (base + j) k at))
            (s.high (base + i) (omega arith) (omega arith))
      | inr ne ↦
          subst (Le cmp x)
            (sym (bswap-other a (base + i) (base + j) k (λ z. absurd (omega arith)) ne))
            (s.high k (omega arith) (omega arith))
    ];
    pivot =
        bswap-other a (base + i) (base + j) last (λ z. absurd (omega arith))
          (λ z. absurd (omega arith))
        ∙ s.pivot;
  }

  pub partition-Split :
      (a : ℕ → A) (base last rounds j i : ℕ) (x : A)
      → i ≤ j
      → base + (j + rounds) ≡ last
      → Split base i j last x a
      → Split base
          (partition cmp a base last rounds j i).1
          (j + rounds)
          last
          x
          (partition cmp a base last rounds j i).0
  unfolding partition
  partition-Split a base last zero j i x le fit s =
      subst (λ m. Split base i m last x a) {x = j} {y = j + 0} (omega arith) s
  partition-Split a base last (suc rounds) j i x le fit s =
      let b = bswap a (base + i) (base + j) in
      let more : j + 1 + rounds ≡ j + suc rounds = omega arith in
      let P : (ℕ → A) × ℕ → Type ℓ = λ r. Split base r.1 (j + suc rounds) last x r.0 in
      elim (Bool-cases (is_positive (cmp (a (base + j)) (a last)))) [
        | inl e ↦
            rw (partition, e)
              (subst
                (λ m.
                  Split base (partition cmp a base last rounds (j + 1) i).1 m last x
                    (partition cmp a base last rounds (j + 1) i).0)
                more
                (partition-Split a base last rounds (j + 1) i x (omega arith) (omega arith)
                  (Split-keep base i j last x a e s)))
        | inr e ↦
            rw (partition, e)
              (subst
                (λ m.
                  Split base (partition cmp b base last rounds (j + 1) (i + 1)).1 m last x
                    (partition cmp b base last rounds (j + 1) (i + 1)).0)
                more
                (partition-Split b base last rounds (j + 1) (i + 1) x (omega arith) (omega arith)
                  (Split-swap base i j last x a le (omega arith) e s)))
      ]
