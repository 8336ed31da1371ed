-- ===== src/Prelude/Tables.antt =====
-- Two functions compared at every number below a bound.
use Prim.Native.Nat.{ℕ, zero, suc, ◌<◌}
use mathlib.Core.Path.{◌≡◌, subst, sym}
use mathlib.Core.Logic.{inl, inr}
use mathlib.Core.Bool.{Bool, true, ◌&&◌}
use native.Mathlib.Omega.{arith}
use cool_frost.Prelude.Tests.{◌==◌, ==_iff, Bool-cases, and_true}

-- Two functions agree at each number below a bound.
abbrev pub agree : (ℕ → ℕ) → (ℕ → ℕ) → ℕ → Bool
agree f g zero = true
agree f g (suc n) = agree f g n && (f n == g n)

pub by_table : (f g : ℕ → ℕ) (n : ℕ) → agree f g n ≡ true → (x : ℕ) → x < n → f x ≡ g x
by_table f g zero table x lt = absurd (omega arith)
by_table f g (suc n) table x lt =
    let (earlier, at_n) = and_true (agree f g n) (f n == g n) table in
    elim (Bool-cases (x == n)) [
      | inl same ↦ subst (λ k. f k ≡ g k) (sym ((==_iff x n).0 same)) ((==_iff _ _).0 at_n)
      | inr other ↦ by_table f g n earlier x (ground arith)
    ]
