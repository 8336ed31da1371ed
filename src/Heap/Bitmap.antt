-- ===== src/Heap/Bitmap.antt =====
-- The bitmap of libc/heap.c as a list: ranges of equal bytes, and how many slots are taken.
use cool_frost.Prelude.{
  ℕ, zero, suc, ◌+◌, ◌≤◌, ◌<◌, ◌≡◌, ◌≢◌, refl, sym, ap, ◌∙◌, ◌⊎◌, inl, inr, List, [], ◌∷◌, arith,
  ◌==◌, length, get_or, set, Bool-cases, get_or-set_self, get_or-set_ne, get_or_default, set_same,
  set-set_self, set-set_ne, length-set,
}
use cool_frost.Heap.{fill, clear_run}

-- how many slots are not free
abbrev pub taken : List ℕ → ℕ
taken [] = 0
taken (zero ∷ bm) = taken bm
taken (suc v ∷ bm) = suc (taken bm)

-- the `n` slots from `x` on hold `v`
abbrev pub AllAre : ℕ → List ℕ → ℕ → ℕ → Type 0
AllAre v bm x n = (j : ℕ) → x ≤ j → j < x + n → get_or bm j 1 ≡ v

pub length-fill : (bm : List ℕ) (x n v : ℕ) → length (fill bm x n v) ≡ length bm
unfolding fill
length-fill bm x zero v = refl
length-fill bm x (suc n) v = length-fill (set bm x v) (x + 1) n v ∙ length-set bm x v

pub get_or-fill_outside :
    (bm : List ℕ) (x n v i d : ℕ)
    → (i < x) ⊎ (x + n ≤ i)
    → get_or (fill bm x n v) i d ≡ get_or bm i d
unfolding fill
get_or-fill_outside bm x zero v i d h = refl
get_or-fill_outside bm x (suc n) v i d h =
    get_or-fill_outside (set bm x v) (x + 1) n v i d (omega arith)
    ∙ get_or-set_ne bm x i v d (omega arith)

pub get_or-fill_inside :
    (bm : List ℕ) (x n v i d : ℕ)
    → x ≤ i
    → i < x + n
    → i < length bm
    → get_or (fill bm x n v) i d ≡ v
unfolding fill
get_or-fill_inside bm x zero v i d lo hi len = absurd (omega arith)
get_or-fill_inside bm x (suc n) v i d lo hi len = elim (Bool-cases (x == i)) [
  | inl e ↦
      get_or-fill_outside (set bm x v) (x + 1) n v i d (ground arith)
      ∙ ap (λ k. get_or (set bm k v) i d) (ground arith)
      ∙ get_or-set_self bm i v d len
  | inr e ↦
      get_or-fill_inside (set bm x v) (x + 1) n v i d (ground arith) (omega arith)
        (omega (arith, length-set bm x v))
]

pub set-fill :
    (bm : List ℕ) (i w x n v : ℕ) → i < x → set (fill bm x n v) i w ≡ fill (set bm i w) x n v
unfolding fill
set-fill bm i w x zero v h = refl
set-fill bm i w x (suc n) v h =
    set-fill (set bm x v) i w (x + 1) n v (omega arith)
    ∙ ap (λ m. fill m (x + 1) n v) (set-set_ne bm x i v w (omega arith))

taken-set :
    (bm : List ℕ) (x v : ℕ)
    → x < length bm
    → get_or bm x 1 ≡ 0
    → taken (set bm x (suc v)) ≡ taken bm + 1
taken-set [] x v h e = elim h [ ]
taken-set (zero ∷ bm) zero v h e = omega arith
taken-set (suc w ∷ bm) zero v h e = absurd (omega arith)
taken-set (zero ∷ bm) (suc x) v h e = taken-set bm x v (omega arith) e
taken-set (suc w ∷ bm) (suc x) v h e = omega (arith, taken-set bm x v (omega arith) e)

-- Free slots that are filled with an id are taken.
pub taken-fill :
    (bm : List ℕ) (x n v : ℕ)
    → AllAre 0 bm x n
    → x + n ≤ length bm
    → v ≢ 0
    → taken (fill bm x n v) ≡ taken bm + n
unfolding fill
taken-fill bm x zero v free len ne = omega arith
taken-fill bm x n zero free len ne = absurd (ne refl)
taken-fill bm x (suc n) (suc v) free len ne = omega (
  arith,
  taken-fill (set bm x (suc v)) (x + 1) n (suc v)
      (λ j lo hi. get_or-set_ne bm x j (suc v) 1 (omega arith) ∙ free j (omega arith) (omega arith))
      (omega (arith, length-set bm x (suc v))) ne,
  taken-set bm x v (omega arith) (free x (omega arith) (omega arith)),
)

-- Filling free slots and freeing them gives the bitmap back.
pub fill-fill :
    (bm : List ℕ) (x n v : ℕ)
    → AllAre 0 bm x n
    → x + n ≤ length bm
    → fill (fill bm x n v) x n 0 ≡ bm
unfolding fill
fill-fill bm x zero v free len = refl
fill-fill bm x (suc n) v free len =
    ap (λ m. fill m (x + 1) n 0) (set-fill (set bm x v) x 0 (x + 1) n v (omega arith))
    ∙ ap (λ m. fill (fill m (x + 1) n v) (x + 1) n 0)
        (set-set_self bm x v 0
          ∙ set_same bm x 0 1 (omega arith) (free x (omega arith) (omega arith)))
    ∙ fill-fill bm (x + 1) n v (λ j lo hi. free j (omega arith) (omega arith)) (omega arith)

-- The loop that frees stops exactly at the end of the run of `v`.
pub clear_run-fill :
    (v left n : ℕ) (bm : List ℕ) (x : ℕ)
    → AllAre v bm x n
    → x + left ≤ length bm
    → n ≤ left
    → (n < left → get_or bm (x + n) 0 ≢ v)
    → clear_run v left bm x ≡ (fill bm x n 0, x + n)
unfolding clear_run fill
clear_run-fill v zero zero bm x run len le stop = ground arith
clear_run-fill v zero (suc n) bm x run len le stop = absurd (omega arith)
clear_run-fill v (suc left) zero bm x run len le stop = ground (arith, stop (omega arith))
clear_run-fill v (suc left) (suc n) bm x run len le stop = ground (
  arith,
  run x (omega arith) (omega arith),
  get_or_default bm x 0 1 (omega arith),
  clear_run-fill v left n (set bm x 0) (x + 1)
      (λ j lo hi. get_or-set_ne bm x j 0 1 (omega arith) ∙ run j (omega arith) (omega arith))
      (omega (arith, length-set bm x 0)) (omega arith)
      (λ lt e. stop (omega arith) (
        ap (λ k. get_or bm k 0) (omega arith)
        ∙ sym (get_or-set_ne bm x (x + 1 + n) 0 0 (omega arith))
        ∙ e)),
)

taken-clear :
    (bm : List ℕ) (x v d : ℕ)
    → x < length bm
    → get_or bm x d ≡ v
    → v ≢ 0
    → taken (set bm x 0) + 1 ≡ taken bm
taken-clear [] x v d h e ne = elim h [ ]
taken-clear (zero ∷ bm) zero v d h e ne = absurd (ne (sym e))
taken-clear (suc w ∷ bm) zero v d h e ne = omega arith
taken-clear (zero ∷ bm) (suc x) v d h e ne = taken-clear bm x v d (omega arith) e ne
taken-clear (suc w ∷ bm) (suc x) v d h e ne = omega (arith, taken-clear bm x v d (omega arith) e ne)

-- Slots of an allocation that are filled with zero are free.
pub taken-fill_zero :
    (bm : List ℕ) (x n v : ℕ)
    → AllAre v bm x n
    → x + n ≤ length bm
    → v ≢ 0
    → taken (fill bm x n 0) + n ≡ taken bm
unfolding fill
taken-fill_zero bm x zero v run len ne = omega arith
taken-fill_zero bm x (suc n) v run len ne = omega (
  arith,
  taken-fill_zero (set bm x 0) (x + 1) n v
      (λ j lo hi. get_or-set_ne bm x j 0 1 (omega arith) ∙ run j (omega arith) (omega arith))
      (omega (arith, length-set bm x 0)) ne,
  taken-clear bm x v 1 (omega arith) (run x (omega arith) (omega arith)) ne,
)

pub taken-le-length : (bm : List ℕ) → taken bm ≤ length bm
taken-le-length [] = omega arith
taken-le-length (zero ∷ bm) = omega (arith, taken-le-length bm)
taken-le-length (suc v ∷ bm) = omega (arith, taken-le-length bm)
