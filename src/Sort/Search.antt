-- ===== src/Sort/Search.antt =====
-- kbsearch of libc/sort.c finds what is there.
use mathlib.Core.Path.{subst}
use cool_frost.Prelude.{
  ℕ, zero, suc, ◌+◌, ◌-◌, ◌/◌, ◌≤◌, ◌<◌, ◌≡◌, refl, sym, ◌⊎◌, inl, inr, true, false, Option, none,
  some, arith, ltb, ◌==◌, Bool-cases, ℤ, pos, negsuc, is_positive, ltb→lt, is_negative, is_zero,
}
use cool_frost.Sort.{search_from, kbsearch}

positive-zero : (z : ℤ) → is_positive z ≡ true → is_zero z ≡ false
positive-zero (pos zero) e = sym e
positive-zero (pos (suc n)) e = refl
positive-zero (negsuc n) e = refl

negative-zero : (z : ℤ) → is_negative z ≡ true → is_zero z ≡ false
negative-zero (pos zero) e = sym e
negative-zero (pos (suc n)) e = refl
negative-zero (negsuc n) e = refl

negative-other : (z : ℤ) → is_zero z ≡ false → is_positive z ≡ false → is_negative z ≡ true
negative-other (pos zero) e g = sym e
negative-other (pos (suc n)) e g = sym g
negative-other (negsuc n) e g = refl

module _ {ℓ} {A : Type ℓ} (cmp : A → A → ℤ) (key : A) (a : ℕ → A) where
  -- The elements below the key come first, then those equal to it, then those above it.
  pub record IsOrdered (n : ℕ) : Type 0 where
    pub below :
        (i j : ℕ)
        → i ≤ j
        → j < n
        → is_positive (cmp key (a j)) ≡ true
        → is_positive (cmp key (a i)) ≡ true
    pub above :
        (i j : ℕ)
        → i ≤ j
        → j < n
        → is_negative (cmp key (a i)) ≡ true
        → is_negative (cmp key (a j)) ≡ true

  -- The index of an element equal to the key, or `none` where there is none.
  pub data Found (lo hi : ℕ) : Option ℕ → Type 0 where
    at : (i : ℕ) → lo ≤ i → i < hi → is_zero (cmp key (a i)) ≡ true → Found lo hi (some i)
    absent : ((i : ℕ) → lo ≤ i → i < hi → is_zero (cmp key (a i)) ≡ false) → Found lo hi none

  -- A range with more elements, none of them equal to the key.
  Found-widen :
      (lo hi lo' hi' : ℕ) (r : Option ℕ)
      → lo ≤ lo'
      → hi' ≤ hi
      → ((i : ℕ) → lo ≤ i → i < hi → (i < lo') ⊎ (hi' ≤ i) → is_zero (cmp key (a i)) ≡ false)
      → Found lo' hi' r
      → Found lo hi r
  Found-widen lo hi lo' hi' _ le ge others (at i low high e) = at i (omega arith) (omega arith) e
  Found-widen lo hi lo' hi' _ le ge others (absent none_there) = absent (λ i low high.
      elim (Bool-cases (ltb i lo')) [
        | inl h ↦ others i low high (inl (ltb→lt i lo' h))
        | inr h ↦ elim (Bool-cases (ltb i hi')) [
          | inl g ↦ none_there i (ground arith) (ltb→lt i hi' g)
          | inr g ↦ others i low high (inr (ground arith))
        ]
      ])

  search_from-Found :
      (n fuel lo hi : ℕ)
      → IsOrdered n
      → hi < fuel
      → lo + hi ≤ n
      → (r : Option ℕ) × (search_from cmp fuel key a lo hi ≡ some r) × Found lo (lo + hi) r
  unfolding search_from
  search_from-Found n (suc fuel) lo hi v lt le = elim (Bool-cases (hi == 0)) [
    | inl z ↦ (none, rw (search_from, z) refl, absent (λ i low high. absurd (ground arith)))
    | inr nz ↦ elim (Bool-cases (is_zero (cmp key (a (lo + hi / 2))))) [
      | inl e ↦ (
        some (lo + hi / 2),
        rw (search_from, nz, e) refl,
        at (lo + hi / 2) (omega arith) (ground arith) e,
      )
      | inr ne ↦ elim (Bool-cases (is_positive (cmp key (a (lo + hi / 2))))) [
        | inl p ↦
            let (r, e, f) =
              search_from-Found n fuel (lo + (hi / 2 + 1)) (hi - (hi / 2 + 1)) v (ground arith)
                (ground arith) in
            (
              r,
              rw (search_from, nz, ne, p) e,
              Found-widen lo (lo + hi) (lo + (hi / 2 + 1)) (lo + (hi / 2 + 1) + (hi - (hi / 2 + 1)))
                  r (omega arith) (ground arith)
                  (λ i low high out.
                    positive-zero (cmp key (a i))
                      (v.below i (lo + hi / 2) (ground arith) (ground arith) p))
                  f,
            )
        | inr p ↦
            let (r, e, f) = search_from-Found n fuel lo (hi / 2) v (ground arith) (ground arith) in
            (
              r,
              rw (search_from, nz, ne, p) e,
              Found-widen lo (lo + hi) lo (lo + hi / 2) r (omega arith) (omega arith)
                  (λ i low high out. negative-zero (cmp key (a i)) (
                    v.above (lo + hi / 2) i (ground arith) (omega arith)
                      (negative-other (cmp key (a (lo + hi / 2))) ne p)))
                  f,
            )
      ]
    ]
  ]
  search_from-Found n zero lo hi v lt le = absurd (omega arith)

  -- In an array whose elements below the key come first, then those equal to it and then those
  -- above it, kbsearch ends and returns the index of an element equal to the key, or null where
  -- there is none.
  pub kbsearch-Found :
      (n : ℕ) → IsOrdered n → (r : Option ℕ) × (kbsearch cmp key a n ≡ some r) × Found 0 n r
  unfolding kbsearch
  kbsearch-Found n v =
      let (r, e, f) = search_from-Found n (suc n) 0 n v (omega arith) (omega arith) in
      (r, e, subst (λ m. Found 0 m r) {x = 0 + n} {y = n} (omega arith) f)
