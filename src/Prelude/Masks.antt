-- ===== src/Prelude/Masks.antt =====
-- A mask of ones as a remainder, remainders by a power of two, and the elements that a ring lists.
use Prim.Native.Nat.{
  ℕ, zero, suc, ◌+◌, ◌-◌, ◌*◌, ◌/◌, ◌%◌, ◌^◌, ◌≤◌, ◌<◌, ◌∣◌, min, bit_and, digits, bit_and-bitwise,
}
use mathlib.Core.Path.{◌≡◌, subst, refl, sym, ap, ap₂, ◌∙◌}
use mathlib.Core.Logic.{◌≢◌, inl, inr}
use mathlib.Core.Option.{none, some}
use mathlib.Core.List.{List, [], ◌∷◌, ◌++◌}
use native.Mathlib.Omega.{arith}
use mathlib.Core.Bool.{false}
use cool_frost.Prelude.Tests.{ltb, ltb→lt, Bool-cases}
use native.Mathlib.Nat.{
  pow-suc, mod-add-div', add-mul-mod_self_right, mod-eq_of_lt, mod-lt, add-mul, zero-mod, mul_assoc,
  mod-mod_of_dvd, mul-le-mul_right, dvd-mul_right_of_dvd, dvd_refl,
}
use cool_frost.Prelude.Lists.{length, drop, get_elem?}

pub pow-pos : (k : ℕ) → 0 < 2 ^ k
pow-pos zero = omega arith
pow-pos (suc k) = omega (arith, pow-pos k, pow-suc 2 k)

-- A remainder by twice `p`, from the lowest digit and the others.
mod-double : (x p : ℕ) → 0 < p → x % (p * 2) ≡ x / 2 % p * 2 + x % 2
mod-double x p pos =
    let r = x / 2 % p in
    let q = x / 2 / p in
    let whole : x ≡ r * 2 + x % 2 + q * (p * 2) =
      omega (arith, mod-add-div' (x / 2) p, mul_assoc q p 2) in
    ap (λ y. y % (p * 2)) whole
    ∙ add-mul-mod_self_right (r * 2 + x % 2) q (p * 2)
    ∙ mod-eq_of_lt (omega (arith, mod-lt (x / 2) pos))

mask_digits : (n a k : ℕ) → a ≤ n → digits (λ b. zero) min n a (2 ^ k - 1) ≡ a % 2 ^ k
mask_digits zero zero k le = sym (zero-mod (2 ^ k))
mask_digits zero (suc a) k le = absurd (omega arith)
mask_digits (suc n) zero k le = sym (zero-mod (2 ^ k))
mask_digits (suc n) (suc a) zero le = omega (arith, mask_digits n (suc a / 2) 0 (omega arith))
mask_digits (suc n) (suc a) (suc k) le =
    let pos = pow-pos k in
    let half : (2 ^ suc k - 1) / 2 ≡ 2 ^ k - 1 = omega (arith, pow-suc 2 k, pos) in
    let low : (2 ^ suc k - 1) % 2 ≡ 1 = omega (arith, pow-suc 2 k, pos) in
    let ih = mask_digits n (suc a / 2) k (omega arith) in
    let high : digits (λ b. 0) min n (suc a / 2) ((2 ^ suc k - 1) / 2) ≡ suc a / 2 % 2 ^ k =
      ap (digits (λ b. 0) min n (suc a / 2)) half ∙ ih in
    let split : suc a % 2 ^ suc k ≡ suc a / 2 % 2 ^ k * 2 + suc a % 2 =
      ap (λ m. suc a % m) (pow-suc 2 k) ∙ mod-double (suc a) (2 ^ k) pos in
    omega (arith, high, low, split)

-- `a & (2^k - 1)`
pub bit_and-mask : (a k : ℕ) → bit_and a (2 ^ k - 1) ≡ a % 2 ^ k
bit_and-mask a k = (λ i. bit_and-bitwise a (2 ^ k - 1) i) ∙ mask_digits a a k (omega arith)

pow-dvd-pow : (k d : ℕ) → 2 ^ k ∣ 2 ^ (k + d)
pow-dvd-pow k zero = subst (λ m. 2 ^ k ∣ 2 ^ m) (omega arith) (dvd_refl (2 ^ k))
pow-dvd-pow k (suc d) =
    subst (λ m. 2 ^ k ∣ m) (sym (pow-suc 2 (k + d)) ∙ ap (λ m. 2 ^ m) (omega arith))
      (dvd-mul_right_of_dvd (2 ^ k) (pow-dvd-pow k d) 2)

-- The wrap-around of a word leaves a remainder by a smaller power of two.
pub mod-wrap : (w a k : ℕ) → k ≤ w → a % 2 ^ w % 2 ^ k ≡ a % 2 ^ k
mod-wrap w a k le =
    mod-mod_of_dvd (2 ^ k) a (subst (λ m. 2 ^ k ∣ 2 ^ m) (omega arith) (pow-dvd-pow k (w - k)))

not_ltb : (a b : ℕ) → ltb a b ≡ false → b ≤ a
not_ltb a b h = ground arith

-- Less than `c` apart, two numbers differ modulo `c`.
pub mod_apart : (c a b : ℕ) → a < b → b < a + c → a % c ≢ b % c
mod_apart c a b lt near same = elim (Bool-cases (ltb (a / c) (b / c))) [
  | inl up ↦
      let least = mul-le-mul_right c (ltb→lt (a / c) (b / c) up) in
      omega (arith, mod-add-div' a c, mod-add-div' b c, same, least, add-mul 1 (a / c) c)
  | inr down ↦
      let least = mul-le-mul_right c (not_ltb (a / c) (b / c) down) in
      omega (arith, mod-add-div' a c, mod-add-div' b c, same, least)
]

-- the `n` elements from index `h` on
abbrev pub window {ℓ} : {A : Type ℓ} → (ℕ → A) → ℕ → ℕ → List A
window at h zero = []
window at h (suc n) = at h ∷ window at (h + 1) n

module _ {ℓ} {A : Type ℓ} where
  pub window-ext :
      (at to : ℕ → A) (h g n : ℕ)
      → ((i : ℕ) → i < n → at (h + i) ≡ to (g + i))
      → window at h n ≡ window to g n
  window-ext at to h g zero same = refl
  window-ext at to h g (suc n) same =
      ap₂ ◌∷◌
        (subst (λ i. at i ≡ to (g + 0)) (omega arith) (same 0 (omega arith)) ∙ ap to (omega arith))
        (window-ext at to (h + 1) (g + 1) n (λ i lt.
          subst (λ j. at j ≡ to (g + 1 + i)) (omega arith)
            (same (suc i) (omega arith) ∙ ap to (omega arith))))

  pub window-snoc :
      (at : ℕ → A) (h n : ℕ) → window at h (suc n) ≡ window at h n ++ (at (h + n) ∷ [])
  window-snoc at h zero = ap (λ j. at j ∷ []) (omega arith)
  window-snoc at h (suc n) =
      ap (λ xs. at h ∷ xs)
        (window-snoc at (h + 1) n ∙ ap (λ j. window at (h + 1) n ++ (at j ∷ [])) (omega arith))

  pub length-window : (at : ℕ → A) (h n : ℕ) → length (window at h n) ≡ n
  length-window at h zero = refl
  length-window at h (suc n) = ap suc (length-window at (h + 1) n)

  pub drop-window :
      (at : ℕ → A) (h n k : ℕ) → k ≤ n → drop k (window at h n) ≡ window at (h + k) (n - k)
  drop-window at h n zero le = ap₂ (window at) (omega arith) (omega arith)
  drop-window at h zero (suc k) le = absurd (omega arith)
  drop-window at h (suc n) (suc k) le =
      drop-window at (h + 1) n k (omega arith) ∙ ap₂ (window at) (omega arith) (omega arith)

  pub get_elem?-window :
      (at : ℕ → A) (h n k : ℕ) → k < n → get_elem? (window at h n) k ≡ some (at (h + k))
  get_elem?-window at h zero k lt = absurd (omega arith)
  get_elem?-window at h (suc n) zero lt = ap (λ j. some (at j)) (omega arith)
  get_elem?-window at h (suc n) (suc k) lt =
      get_elem?-window at (h + 1) n k (omega arith) ∙ ap (λ j. some (at j)) (omega arith)

  pub window_of_pos : (at : ℕ → A) (h n : ℕ) → 0 < n → window at h n ≡ at h ∷ drop 1 (window at h n)
  window_of_pos at h zero pos = absurd (omega arith)
  window_of_pos at h (suc n) pos = refl

  pub get_elem?-window_past : (at : ℕ → A) (h n k : ℕ) → n ≤ k → get_elem? (window at h n) k ≡ none
  get_elem?-window_past at h zero k le = refl
  get_elem?-window_past at h (suc n) zero le = absurd (omega arith)
  get_elem?-window_past at h (suc n) (suc k) le = get_elem?-window_past at (h + 1) n k (omega arith)
