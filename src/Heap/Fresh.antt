-- ===== src/Heap/Fresh.antt =====
-- `k_heapBMAddBlock`: a new block is valid, and its bitmap is reserved for good.
use native.Mathlib.Decide.{dec_lt}
use cool_frost.Prelude.{
  ℕ, zero, suc, ◌+◌, ◌-◌, ◌*◌, ◌/◌, ◌^◌, ◌≤◌, ◌<◌, ◌≡◌, refl, sym, ◌∙◌, inr, List, arith, length,
  get_or, replicate, sub64, get_or-replicate, length-replicate,
}
use native.Mathlib.Nat.{le-div_iff_mul-le, div-le_self, mul-le-mul_right, mul-le-mul_left}
use cool_frost.Heap.{Block, slots, base, round_up, new_block, fill, add_block, init}
use cool_frost.Heap.Bitmap.{
  AllAre, taken, taken-fill, length-fill, get_or-fill_inside, get_or-fill_outside,
}
use cool_frost.Heap.Alloc.{Placed, round_up_pos, round_up_bounds}
use cool_frost.Heap.Runs.{IsValid, Run}
use cool_frost.Heap.Blocks.{place_free, IsHeap}

taken-replicate : (n : ℕ) → taken (replicate n 0) ≡ 0
taken-replicate zero = refl
taken-replicate (suc n) = taken-replicate n

get_or-replicate_default : (n i a : ℕ) → get_or (replicate n a) i a ≡ a
get_or-replicate_default zero i a = refl
get_or-replicate_default (suc n) zero a = refl
get_or-replicate_default (suc n) (suc i) a = get_or-replicate_default n i a

-- No more slots are reserved than there are.
reserved-le : (n bsize : ℕ) → 0 < bsize → n < 2 ^ 64 → round_up n bsize ≤ n
reserved-le n bsize pos small =
    let (_, below) = round_up_bounds n bsize pos small in
    elim (dec_lt n (round_up n bsize)) [
      | no le ↦ omega arith
      | yes lt ↦
          let more : (n + 1) * bsize ≤ round_up n bsize * bsize =
            mul-le-mul_right bsize (omega arith) in
          let grows : n * 1 ≤ n * bsize = mul-le-mul_left n pos in
          absurd (omega (arith, below, more, grows))
    ]

module _ (n r : ℕ) (le : r ≤ n) where
  abbrev marked : List ℕ
  marked = fill (replicate n 0) 0 r 5

  clear : AllAre 0 (replicate n 0) 0 r
  clear j lo hi = get_or-replicate n j 0 1 (omega arith)

  length-marked : length marked ≡ n
  length-marked = length-fill (replicate n 0) 0 r 5 ∙ length-replicate n 0

  taken-marked : taken marked ≡ r
  taken-marked =
      taken-fill (replicate n 0) 0 r 5 clear (omega (arith, length-replicate {A = ℕ} n 0))
        (omega arith)
      ∙ omega (arith, taken-replicate n)

  marked-below : (j d : ℕ) → j < r → get_or marked j d ≡ 5
  marked-below j d h =
      get_or-fill_inside (replicate n 0) 0 r 5 j d (omega arith) (omega arith)
        (omega (arith, length-replicate {A = ℕ} n 0))

  marked-above : (j : ℕ) → r ≤ j → get_or marked j 0 ≡ 0
  marked-above j h =
      get_or-fill_outside (replicate n 0) 0 r 5 j 0 (inr (omega arith))
      ∙ get_or-replicate_default n j 0

  marked-bytes : (j : ℕ) → get_or marked j 0 < 256
  marked-bytes j = elim (dec_lt j r) [
    | yes below ↦ omega (arith, marked-below j 0 below)
    | no above ↦ omega (arith, marked-above j (omega arith))
  ]

module _ (addr size bsize : ℕ) (pos : 0 < bsize) (big : 40 + bsize ≤ size)
    (fits : addr + size < 2 ^ 64) where
  usable : sub64 size 40 ≡ size - 40
  usable = omega arith

  some_slots : 0 < (size - 40) / bsize
  some_slots = (le-div_iff_mul-le pos).1 (omega arith)

  few : (size - 40) / bsize < 2 ^ 64
  few = omega (arith, div-le_self (size - 40) bsize)

  -- For a positive slot size, room for a header and a slot, and an end below 2^64,
  -- k_heapBMAddBlock makes a valid block whose first slots are one allocation that covers the
  -- bitmap.
  pub new_block-IsValid :
      let b = new_block addr size bsize in
      let reserved = round_up (slots b) bsize in
      IsValid b × Run b 0 reserved 5 × (slots b ≤ reserved * bsize)
  unfolding new_block
  new_block-IsValid =
      let n = (size - 40) / bsize in
      let le = reserved-le n bsize pos few in
      rw usable (
        record {
          positive = pos;
          bounded = omega arith;
          covers = length-marked n (round_up n bsize) le;
          counted = sym (taken-marked n (round_up n bsize) le);
          bytes = marked-bytes n (round_up n bsize) le;
        },
        record {
          nonempty = round_up_pos n bsize pos some_slots few;
          within = omega (arith, le);
          held = omega arith;
          same = λ j lo hi. marked-below n (round_up n bsize) le j 1 (omega arith);
          left_edge = λ h. absurd (omega arith);
          right_edge = λ h.
              omega
                (arith, marked-above n (round_up n bsize) le (0 + round_up n bsize) (omega arith));
        },
        (round_up_bounds n bsize pos few).0,
      )

-- In a valid block whose first allocation covers the bitmap, an allocation of a size that is
-- positive and below 2^64 starts past the bitmap.
pub pointer-above_bitmap :
    {b b' : Block} {size p r w : ℕ}
    → IsValid b
    → 0 < size
    → size < 2 ^ 64
    → Run b 0 r w
    → slots b ≤ r * b.bsize
    → Placed b size p b'
    → base b + length b.bm ≤ p
pointer-above_bitmap {b} {size} {r} v pos small run covers placed = omega (
  arith,
  placed.pointer,
  mul-le-mul_right b.bsize (above (dec_lt placed.place r)),
  covers,
  v.covers,
)
  where
    above : Dec (placed.place < r) → r ≤ placed.place
    above (yes into) = absurd (
        run.held (
          sym (run.same placed.place (omega arith) (omega arith))
          ∙ place_free v placed placed.place (omega arith)
              (omega (arith, round_up_pos size b.bsize v.positive pos small))))
    above (no beyond) = omega arith

-- A heap of one new block is valid.
pub add_block-IsHeap :
    (addr size bsize : ℕ)
    → 0 < bsize
    → 40 + bsize ≤ size
    → addr + size < 2 ^ 64
    → IsHeap (add_block init addr size bsize)
unfolding add_block init
add_block-IsHeap addr size bsize pos big fits =
    ((new_block-IsValid addr size bsize pos big fits).0, tt, tt)
