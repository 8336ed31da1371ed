-- ===== src/Sort/Insertion.antt =====
-- isort of libc/sort.c sorts.
use mathlib.Core.Path.{subst}
use cool_frost.Prelude.{
  ℕ, zero, suc, ◌+◌, ◌-◌, ◌≤◌, ◌<◌, ◌≡◌, refl, sym, ap, ◌∙◌, ◌≢◌, ◌⊎◌, inl, inr, true, false, arith,
  ◌==◌, Bool-cases, ℤ, is_positive, ==_iff,
}
use cool_frost.Sort.{bswap, sift, isort_from, isort}

module _ {ℓ} {A : Type ℓ} (a : ℕ → A) (i j : ℕ) where
  pub bswap-left : (k : ℕ) → k ≡ i → bswap a i j k ≡ a j
  bswap-left k e = let h : (k == i) ≡ true = ground arith in rw h refl

  pub bswap-right : (k : ℕ) → k ≡ j → bswap a i j k ≡ a i
  bswap-right k e = elim (Bool-cases (k == i)) [
    | inl h ↦ bswap-left k ((==_iff k i).0 h) ∙ ap a (sym e ∙ (==_iff k i).0 h)
    | inr h ↦ let g : (k == j) ≡ true = ground arith in rw (h, g) refl
  ]

  pub bswap-other : (k : ℕ) → k ≢ i → k ≢ j → bswap a i j k ≡ a k
  bswap-other k ne nf =
      let h : (k == i) ≡ false = ground arith in
      let g : (k == j) ≡ false = ground arith in rw (h, g) refl

-- to split on whether two indices are the same
pub eq_or : (i j : ℕ) → (i ≡ j) ⊎ (i ≢ j)
eq_or i j = elim (Bool-cases (i == j)) [
  | inl h ↦ inl ((==_iff i j).0 h)
  | inr h ↦ inr (λ e. absurd (ground arith))
]

module _ {ℓ} {A : Type ℓ} (cmp : A → A → ℤ) where
  abbrev pub Le : A → A → Type 0
  Le x y = is_positive (cmp x y) ≡ false

  -- The comparison is the one of a total preorder.
  pub record IsOrder : Type ℓ where
    pub trans : (x y z : A) → Le x y → Le y z → Le x z
    pub total : (x y : A) → is_positive (cmp x y) ≡ true → Le y x

  unfoldable pub Sorted : (lo hi : ℕ) → (ℕ → A) → Type 0
  Sorted lo hi a = (p q : ℕ) → lo ≤ p → p < q → q < hi → Le (a p) (a q)

  -- Sorted but for the element at `i`, which may belong further to the left.
  Almost : (lo hi i : ℕ) → (ℕ → A) → Type 0
  Almost lo hi i a = (p q : ℕ) → lo ≤ p → p < q → q < hi → q ≢ i → Le (a p) (a q)

  module _ (v : IsOrder) where
    Almost-step :
        (a : ℕ → A) (lo hi i k : ℕ)
        → k ≡ i + 1
        → lo ≤ i
        → k < hi
        → is_positive (cmp (a i) (a k)) ≡ true
        → Almost lo hi k a
        → Almost lo hi i (bswap a i k)
    unfolding Almost
    Almost-step a lo hi i k nk le lt e s p q lp lq hq ne = elim (eq_or q k) [
      | inl at ↦ elim (eq_or p i) [
        | inl here ↦
            subst (λ x. Le x (bswap a i k q)) (sym (bswap-left a i k p here))
              (subst (Le (a k)) (sym (bswap-right a i k q at)) (v.total (a i) (a k) e))
        | inr other ↦
            subst (λ x. Le x (bswap a i k q)) (sym (bswap-other a i k p other (omega arith)))
              (subst (Le (a p)) (sym (bswap-right a i k q at))
                (s p i lp (omega arith) (omega arith) (omega arith)))
      ]
      | inr past ↦
          subst (Le (bswap a i k p)) (sym (bswap-other a i k q ne past)) (elim (eq_or p i) [
            | inl here ↦
                subst (λ x. Le x (a q)) (sym (bswap-left a i k p here))
                  (s k q (omega arith) (omega arith) hq past)
            | inr other ↦ elim (eq_or p k) [
              | inl after ↦
                  subst (λ x. Le x (a q)) (sym (bswap-right a i k p after))
                    (s i q (omega arith) (omega arith) hq past)
              | inr also ↦
                  subst (λ x. Le x (a q)) (sym (bswap-other a i k p other also))
                    (s p q lp lq hq past)
            ]
          ])
    ]

    Almost-stop :
        (a : ℕ → A) (lo hi i k : ℕ)
        → k ≡ i + 1
        → lo ≤ i
        → k < hi
        → Le (a i) (a k)
        → Almost lo hi k a
        → Sorted lo hi a
    unfolding Almost Sorted
    Almost-stop a lo hi i k nk le lt e s p q lp lq hq = elim (eq_or q k) [
      | inr ne ↦ s p q lp lq hq ne
      | inl at ↦
          subst (λ m. Le (a p) (a m)) (sym at)
            (elim (eq_or p i) [
              | inl here ↦ subst (λ m. Le (a m) (a k)) (sym here) e
              | inr other ↦
                  v.trans (a p) (a i) (a k) (s p i lp (omega arith) (omega arith) (omega arith)) e
            ])
    ]

    sift-Sorted :
        (a : ℕ → A) (base hi j : ℕ)
        → base + j < hi
        → Almost base hi (base + j) a
        → Sorted base hi (sift cmp a base j)
    unfolding sift Almost Sorted
    sift-Sorted a base hi zero lt s = λ p q lp lq hq. s p q lp lq hq (λ e. absurd (omega arith))
    sift-Sorted a base hi (suc j) lt s =
        elim (Bool-cases (is_positive (cmp (a (base + j)) (a (base + suc j))))) [
          | inl e ↦
              rw (sift, e)
                (sift-Sorted (bswap a (base + j) (base + suc j)) base hi j (omega arith) (
                  Almost-step a base hi (base + j) (base + suc j) (omega arith) (omega arith) lt e
                    s))
          | inr e ↦
              rw (sift, e)
                (Almost-stop a base hi (base + j) (base + suc j) (omega arith) (omega arith) lt e s)
        ]

    isort_from-Sorted :
        (a : ℕ → A) (base rounds i : ℕ)
        → Sorted base (base + i) a
        → Sorted base (base + (i + rounds)) (isort_from cmp a base rounds i)
    unfolding isort_from Almost Sorted
    isort_from-Sorted a base zero i s p q lp lq hq = s p q lp lq (omega arith)
    isort_from-Sorted a base (suc rounds) i s p q lp lq hq =
        isort_from-Sorted (sift cmp a base i) base rounds (i + 1)
          (sift-Sorted a base (base + (i + 1)) i (omega arith)
            (λ p q lp lq hq ne. s p q lp lq (omega arith)))
          p q lp lq (omega arith)

    pub isort-Sorted :
        (a : ℕ → A) (base n : ℕ) → 0 < n → Sorted base (base + n) (isort cmp a base n)
    unfolding isort Sorted
    isort-Sorted a base n pos p q lp lq hq =
        isort_from-Sorted a base (n - 1) 1 (λ p q lp lq hq. absurd (omega arith)) p q lp lq
          (omega arith)
