-- ===== src/Sched/Rings.antt =====
-- The circular run queues of cpu/sched.c as lists, oldest first.
use mathlib.Core.Path.{ap₂}
use cool_frost.Prelude.{
  ℕ, zero, suc, ◌+◌, ◌-◌, ◌%◌, ◌≤◌, ◌<◌, ◌≡◌, refl, sym, ap, ◌∙◌, inl, inr, false, some, List, [],
  ◌∷◌, ◌++◌, arith, ltb, leb, ◌==◌, if◌then◌else◌, Bool-cases, length,
}
use cool_frost.Sched.{push, pop}
use cool_frost.Sched.Types.{Queue, max_tasks, update}

-- the `n` tasks from index `h` on, going round at the end of the array
abbrev pub window : (ℕ → ℕ) → ℕ → ℕ → List ℕ
window buf h zero = []
window buf h (suc n) = buf h ∷ window buf ((h + 1) % max_tasks) n

abbrev pub contents : Queue → List ℕ
contents q = window q.buf q.head q.size

pub record IsRing (q : Queue) : Type 0 where
  pub head_in : q.head < max_tasks
  pub size_in : q.size ≤ max_tasks
  pub tail_at : q.tail ≡ (q.head + q.size) % max_tasks

pub length-window : (buf : ℕ → ℕ) (h n : ℕ) → length (window buf h n) ≡ n
length-window buf h zero = refl
length-window buf h (suc n) = ap suc (length-window buf ((h + 1) % max_tasks) n)

window-update :
    (buf : ℕ → ℕ) (x n h i : ℕ)
    → h < max_tasks
    → n < max_tasks
    → i ≡ (h + n) % max_tasks
    → window (update buf i x) h (suc n) ≡ window buf h n ++ (x ∷ [])
window-update buf x zero h i hh hn e = ground arith
window-update buf x (suc n) h i hh hn e =
    ap₂ ◌∷◌ (ground arith)
      (window-update buf x n ((h + 1) % max_tasks) i (omega arith) (omega arith) (omega arith))

-- `rq_push` appends, in a ring with room.
pub contents-push :
    (q : Queue) (t : ℕ)
    → IsRing q
    → q.size < max_tasks
    → (contents (push q t) ≡ contents q ++ (t ∷ [])) × IsRing (push q t)
unfolding push
contents-push q t v room =
    let lt : leb max_tasks q.size ≡ false = ground arith in
    rw lt (
      window-more q t v room,
      record { head_in = v.head_in; size_in = omega arith; tail_at = omega (arith, v.tail_at) },
    )
  where
    window-more :
        (q : Queue) (t : ℕ)
        → IsRing q
        → q.size < max_tasks
        → window (update q.buf q.tail t) q.head (q.size + 1) ≡ contents q ++ (t ∷ [])
    window-more q t v room =
        let e : q.size + 1 ≡ suc q.size = omega arith in
        ap (window (update q.buf q.tail t) q.head) e
        ∙ window-update q.buf t q.size q.head q.tail v.head_in room v.tail_at

window_of_pos :
    (buf : ℕ → ℕ) (h n : ℕ)
    → 0 < n
    → window buf h n ≡ buf h ∷ window buf ((h + 1) % max_tasks) (n - 1)
window_of_pos buf h zero pos = elim pos [ ]
window_of_pos buf h (suc n) pos = ap (λ k. window buf h (suc k)) (omega arith)

-- `rq_pop` takes the oldest task, in a ring that is not empty.
pub contents-pop :
    (q : Queue)
    → IsRing q
    → 0 < q.size
    → (contents q ≡ q.buf q.head ∷ contents (pop q).1)
      × ((pop q).0 ≡ some (q.buf q.head))
      × IsRing (pop q).1
unfolding pop
contents-pop q v pos =
    let ne : (q.size == 0) ≡ false = ground arith in
    rw ne (
      window_of_pos q.buf q.head q.size pos,
      refl,
      record {
        head_in = omega arith;
        size_in = omega (arith, v.size_in);
        tail_at = omega (arith, v.tail_at, v.head_in);
      },
    )

-- how often a task stands in a queue
abbrev pub count : ℕ → List ℕ → ℕ
count t [] = 0
count t (x ∷ xs) = if t == x then suc (count t xs) else count t xs

pub count-snoc :
    (t x : ℕ) (xs : List ℕ) → count t (xs ++ (x ∷ [])) ≡ count t xs + (if t == x then 1 else 0)
count-snoc t x [] = ground arith
count-snoc t x (y ∷ xs) = ground (arith, count-snoc t x xs)

-- the occurrences of the tasks below `n`
abbrev total : ℕ → List ℕ → ℕ
total zero xs = 0
total (suc n) xs = total n xs + count n xs

total-cons : (n x : ℕ) (xs : List ℕ) → total n (x ∷ xs) ≡ total n xs + (if ltb x n then 1 else 0)
total-cons zero x xs = ground arith
total-cons (suc n) x xs = ground (arith, total-cons n x xs)

total-nil : (n : ℕ) → total n [] ≡ 0
total-nil zero = refl
total-nil (suc n) = omega (arith, total-nil n)

length-total : (n : ℕ) (xs : List ℕ) → ((t : ℕ) → n ≤ t → count t xs ≡ 0) → length xs ≡ total n xs
length-total n [] h = sym (total-nil n)
length-total n (x ∷ xs) h =
    let rest = length-total n xs (λ t le. ground (arith, h t le)) in
    ground (arith, total-cons n x xs, rest, h x)

total-le : (n : ℕ) (xs : List ℕ) → ((t : ℕ) → count t xs ≤ 1) → total n xs ≤ n
total-le zero xs h = omega arith
total-le (suc n) xs h = omega (arith, total-le n xs h, h n)

total-lt :
    (n : ℕ) (xs : List ℕ) (i : ℕ)
    → ((t : ℕ) → count t xs ≤ 1)
    → i < n
    → count i xs ≡ 0
    → total n xs < n
total-lt zero xs i h lt e = absurd (omega arith)
total-lt (suc n) xs i h lt e = elim (Bool-cases (i == n)) [
  | inl same ↦
      let e' : count n xs ≡ 0 = ap (λ k. count k xs) (ground arith) ∙ e in
      omega (arith, total-le n xs h, e')
  | inr other ↦ omega (arith, total-lt n xs i h (ground arith) e, h n)
]

-- A queue without repetition that lacks a task of the pool has room for it.
pub room_of_absent :
    (xs : List ℕ) (i : ℕ)
    → ((t : ℕ) → count t xs ≤ 1)
    → ((t : ℕ) → max_tasks ≤ t → count t xs ≡ 0)
    → i < max_tasks
    → count i xs ≡ 0
    → length xs < max_tasks
room_of_absent xs i once inside lt absent =
    omega (arith, length-total max_tasks xs inside, total-lt max_tasks xs i once lt absent)
