-- ===== src/Heap/Scan.antt =====
-- The search of `k_heapBMAlloc` in one block against first fit.
use mathlib.Core.Path.{subst}
use cool_frost.Prelude.{
  ℕ, zero, suc, ◌+◌, ◌≤◌, ◌<◌, ◌≡◌, ◌≢◌, ap, ◌∙◌, inl, inr, Option, none, some, List, arith, ◌==◌,
  get_or, Bool-cases, leb→le, leb, false, true, sym, refl,
}
use native.Mathlib.Decide.{dec_lt}
use native.Mathlib.Nat.{le_refl}
use cool_frost.Heap.{free_run, scan}
use cool_frost.Heap.Bitmap.{AllAre}

-- The first place at or after `start` where `n` free slots stand below `bcnt`, or no such place.
abbrev pub FirstFit : List ℕ → ℕ → ℕ → ℕ → Option ℕ → Type 0
FirstFit bm bcnt n start none = (z : ℕ) → start ≤ z → z + n ≤ bcnt → ¬ AllAre 0 bm z n
FirstFit bm bcnt n start (some x) =
    (start ≤ x)
    × (x + n ≤ bcnt)
    × AllAre 0 bm x n
    × ((z : ℕ) → start ≤ z → z < x → ¬ AllAre 0 bm z n)

free_run-le : (bm : List ℕ) (x n : ℕ) → free_run bm x n ≤ n
unfolding free_run
free_run-le bm x zero = omega arith
free_run-le bm x (suc n) = ground (arith, free_run-le bm (x + 1) n)

free_run-free : (bm : List ℕ) (x n j : ℕ) → x ≤ j → j < x + free_run bm x n → get_or bm j 1 ≡ 0
unfolding free_run
free_run-free bm x zero j lo hi = absurd (omega arith)
free_run-free bm x (suc n) j lo hi = elim (Bool-cases (x == j)) [
  | inl e ↦ ground arith
  | inr e ↦ ground (arith, free_run-free bm (x + 1) n j)
]

free_run_stops :
    (bm : List ℕ) (x n : ℕ) → free_run bm x n < n → get_or bm (x + free_run bm x n) 1 ≢ 0
unfolding free_run
free_run_stops bm x zero h = absurd (omega arith)
free_run_stops bm x (suc n) h = elim (Bool-cases (get_or bm x 1 == 0)) [
  | inl e ↦
      rw e (λ w.
        free_run_stops bm (x + 1) n (ground arith) (ap (λ k. get_or bm k 1) (omega arith) ∙ w))
  | inr e ↦ ground arith
]

-- A search that starts later finds the same, if nothing fits in between.
FirstFit-extend :
    (bm : List ℕ) (bcnt n x x' : ℕ) (r : Option ℕ)
    → x ≤ x'
    → ((z : ℕ) → x ≤ z → z < x' → ¬ AllAre 0 bm z n)
    → FirstFit bm bcnt n x' r
    → FirstFit bm bcnt n x r
FirstFit-extend bm bcnt n x x' none le skip h = λ z lo fit all. elim (dec_lt z x') [
  | yes p ↦ skip z lo p all
  | no p ↦ h z (omega arith) fit all
]
FirstFit-extend bm bcnt n x x' (some y) le skip h = (
  omega arith,
  h.1,
  h.2,
  λ z lo hi all. elim (dec_lt z x') [ yes p ↦ skip z lo p all | no p ↦ h.3 z (omega arith) hi all ],
)

scan_spent : (bm : List ℕ) (bcnt n x : ℕ) → scan zero bm bcnt n x ≡ none
unfolding scan
scan_spent bm bcnt n x = refl

-- One round of the loop, in each of its four cases.
module _ (f : ℕ) (bm : List ℕ) (bcnt n x : ℕ) where
  scan_out : leb (x + n) bcnt ≡ false → scan (suc f) bm bcnt n x ≡ none
  unfolding scan
  scan_out h = ground arith

  scan_held :
      leb (x + n) bcnt ≡ true
      → (get_or bm x 1 == 0) ≡ false
      → scan (suc f) bm bcnt n x ≡ scan f bm bcnt n (x + 1)
  unfolding scan
  scan_held h e = ground arith

  scan_found :
      leb (x + n) bcnt ≡ true
      → (get_or bm x 1 == 0) ≡ true
      → (free_run bm x n == n) ≡ true
      → scan (suc f) bm bcnt n x ≡ some x
  unfolding scan
  scan_found h e w = ground arith

  scan_short :
      leb (x + n) bcnt ≡ true
      → (get_or bm x 1 == 0) ≡ true
      → (free_run bm x n == n) ≡ false
      → scan (suc f) bm bcnt n x ≡ scan f bm bcnt n (x + free_run bm x n + 1)
  unfolding scan
  scan_short h e w = ground arith

-- For a positive number of slots, the search that skips runs which are too short finds the first
-- place at or after its start where that many free slots stand below the bound, or there is none;
-- one round more than slots left is enough fuel.
pub scan-FirstFit :
    (f : ℕ) (bm : List ℕ) (bcnt n x : ℕ)
    → 0 < n
    → bcnt < f + x
    → FirstFit bm bcnt n x (scan f bm bcnt n x)
scan-FirstFit zero bm bcnt n x pos fuel =
    subst (FirstFit bm bcnt n x) (sym (scan_spent bm bcnt n x)) λ z lo fit all. absurd (omega arith)
scan-FirstFit (suc f) bm bcnt n x pos fuel = elim (Bool-cases (leb (x + n) bcnt)) [
  | inr big ↦
      subst (FirstFit bm bcnt n x) (sym (scan_out f bm bcnt n x big))
        λ z lo fit all. absurd (ground arith)
  | inl fits ↦ elim (Bool-cases (get_or bm x 1 == 0)) [
    | inr held ↦ subst (FirstFit bm bcnt n x) (sym (scan_held f bm bcnt n x fits held)) (
        FirstFit-extend bm bcnt n x (x + 1) (scan f bm bcnt n (x + 1)) (omega arith)
          (λ z lo hi all. ground (arith, all x (omega arith) (omega arith)))
          (scan-FirstFit f bm bcnt n (x + 1) pos (omega arith)))
    | inl open_slot ↦ elim (Bool-cases (free_run bm x n == n)) [
      | inl whole ↦
          subst (FirstFit bm bcnt n x) (sym (scan_found f bm bcnt n x fits open_slot whole)) (
            le_refl x,
            leb→le _ _ fits,
            (λ j lo hi. free_run-free bm x n j lo (ground arith)),
            λ z lo hi all. absurd (omega arith),
          )
      | inr short ↦
          subst (FirstFit bm bcnt n x) (sym (scan_short f bm bcnt n x fits open_slot short)) (
            FirstFit-extend bm bcnt n x (x + free_run bm x n + 1)
              (scan f bm bcnt n (x + free_run bm x n + 1)) (omega arith)
              (λ z lo hi all. skipped z lo hi short all)
              (scan-FirstFit f bm bcnt n (x + free_run bm x n + 1) pos (omega arith)))
    ]
  ]
]
  where
    skipped :
        (z : ℕ)
        → x ≤ z
        → z < x + free_run bm x n + 1
        → (free_run bm x n == n) ≡ false
        → ¬ AllAre 0 bm z n
    skipped z lo hi short all =
        let lt : free_run bm x n < n = ground (arith, free_run-le bm x n) in
        free_run_stops bm x n lt (all (x + free_run bm x n) (omega arith) (omega arith))
