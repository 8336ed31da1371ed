-- ===== src/Utf8/Bits.antt =====
-- The masks and the disjunctions of libc/utf8.c as arithmetic.
use cool_frost.Prelude.{
  ℕ, zero, suc, ◌+◌, ◌*◌, ◌/◌, ◌^◌, ◌≤◌, ◌<◌, bit_and, bit_or, ◌≡◌, refl, ap, ◌∙◌, arith, by_table,
}
use Prim.Native.Nat.{max, digits, bit_or-bitwise}
use native.Mathlib.Nat.{pow-suc, mul_assoc}

pub lead_two : (b : ℕ) → b < 256 → bit_and b 0xe0 ≡ b / 32 * 32
lead_two b lt = by_table (λ b. bit_and b 0xe0) (λ b. b / 32 * 32) 256 refl b lt

pub lead_three : (b : ℕ) → b < 256 → bit_and b 0xf0 ≡ b / 16 * 16
lead_three b lt = by_table (λ b. bit_and b 0xf0) (λ b. b / 16 * 16) 256 refl b lt

pub lead_four : (b : ℕ) → b < 256 → bit_and b 0xf8 ≡ b / 8 * 8
lead_four b lt = by_table (λ b. bit_and b 0xf8) (λ b. b / 8 * 8) 256 refl b lt

pub top_two : (b : ℕ) → b < 256 → bit_and b 0xc0 ≡ b / 64 * 64
top_two b lt = by_table (λ b. bit_and b 0xc0) (λ b. b / 64 * 64) 256 refl b lt

pub or_80 : (x : ℕ) → x < 64 → bit_or 0x80 x ≡ 0x80 + x
or_80 x lt = by_table (λ b. bit_or 0x80 b) (λ b. 0x80 + b) 64 refl x lt

pub or_c0 : (x : ℕ) → x < 32 → bit_or 0xc0 x ≡ 0xc0 + x
or_c0 x lt = by_table (λ b. bit_or 0xc0 b) (λ b. 0xc0 + b) 32 refl x lt

pub or_e0 : (x : ℕ) → x < 16 → bit_or 0xe0 x ≡ 0xe0 + x
or_e0 x lt = by_table (λ b. bit_or 0xe0 b) (λ b. 0xe0 + b) 16 refl x lt

pub or_f0 : (x : ℕ) → x < 8 → bit_or 0xf0 x ≡ 0xf0 + x
or_f0 x lt = by_table (λ b. bit_or 0xf0 b) (λ b. 0xf0 + b) 8 refl x lt

or_zero : (n a : ℕ) → a ≤ n → digits (λ b. b) max n a 0 ≡ a
or_zero zero zero le = refl
or_zero zero (suc a) le = absurd (omega arith)
or_zero (suc n) zero le = refl
or_zero (suc n) (suc a) le = omega (arith, or_zero n (suc a / 2) (omega arith))

or_digits : (n a x k y : ℕ) → a ≡ x * 2 ^ k → a ≤ n → y < 2 ^ k → digits (λ b. b) max n a y ≡ a + y
or_digits n a x zero y e le lt =
    ap (digits (λ b. b) max n a) {y = 0} (omega arith) ∙ or_zero n a le ∙ omega arith
or_digits zero a x (suc k) y e le lt = omega arith
or_digits (suc n) zero x (suc k) y e le lt = omega arith
or_digits (suc n) (suc a) x (suc k) y e le lt =
    let twice : suc a ≡ x * 2 ^ k * 2 =
      omega (arith, e, pow-suc 2 k, mul_assoc x (2 ^ k) 2, ap (λ m. x * m) (pow-suc 2 k)) in
    let ih =
      or_digits n (suc a / 2) x k (y / 2) (omega arith) (omega arith)
        (omega (arith, pow-suc 2 k)) in
    omega (arith, ih, twice)

-- `(x << k) | y` for `y` below `2^k`
pub bit_or-shifted : (x k y : ℕ) → y < 2 ^ k → bit_or (x * 2 ^ k) y ≡ x * 2 ^ k + y
bit_or-shifted x k y lt =
    (λ i. bit_or-bitwise (x * 2 ^ k) y i)
    ∙ or_digits (x * 2 ^ k) (x * 2 ^ k) x k y refl (omega arith) lt
