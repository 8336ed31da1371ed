-- ===== src/Heap/Alloc.antt =====
-- `k_heapBMAlloc` in one block: where it allocates and what it writes.
use cool_frost.Prelude.{
  ℕ, ◌+◌, ◌*◌, ◌/◌, ◌%◌, ◌^◌, ◌≤◌, ◌<◌, ◌≡◌, inl, inr, Option, none, some, arith, ltb, leb,
  Bool-cases, wrap64, sub64,
}
use mathlib.Core.Option
use native.Mathlib.Nat.{div-add-mod', mod-lt}
use cool_frost.Heap.{Block, slots, base, round_up, scan, take_slots, alloc_block}
use cool_frost.Heap.Scan.{FirstFit, scan-FirstFit}
use cool_frost.Heap.Runs.{IsValid}

-- `bneed` slots are the least that hold `size` bytes.
pub round_up_bounds :
    (size bsize : ℕ)
    → 0 < bsize
    → size < 2 ^ 64
    → (size ≤ round_up size bsize * bsize) × (round_up size bsize * bsize < size + bsize)
unfolding round_up
round_up_bounds size bsize pos small =
    let split : size / bsize * bsize + size % bsize ≡ size = div-add-mod' size bsize in
    let part : size % bsize < bsize = mod-lt size pos in
    elim (Bool-cases (ltb (wrap64 (size / bsize * bsize)) size)) [
      | inl more ↦ rw more (grind arith, grind arith)
      | inr exact ↦ rw exact (ground arith, omega arith)
    ]

pub round_up_pos : (size bsize : ℕ) → 0 < bsize → 0 < size → size < 2 ^ 64 → 0 < round_up size bsize
round_up_pos size bsize pos h small =
    let (lo, hi) = round_up_bounds size bsize pos small in grind arith

-- What a successful call did: the place is the first fit.
pub record Placed (b : Block) (size p : ℕ) (b' : Block) : Type 0 where
  pub place : ℕ
  pub fits : FirstFit b.bm (slots b) (round_up size b.bsize) 0 (some place)
  pub pointer : p ≡ place * b.bsize + base b
  pub written : b' ≡ take_slots b place (round_up size b.bsize)

module _ {b : Block} (size : ℕ) (v : IsValid b) (pos : 0 < size) (small : size < 2 ^ 64) where
  placed_of_scan :
      {b' : Block} {p : ℕ} (found : Option ℕ)
      → FirstFit b.bm (slots b) (round_up size b.bsize) 0 found
      → Option.map {B = ℕ × Block}
          (λ x. (x * b.bsize + base b, take_slots b x (round_up size b.bsize)))
          found
        ≡ some (p, b')
      → Placed b size p b'
  placed_of_scan none fit e = cc
  placed_of_scan (some x) fit e = record {
    place = x;
    fits = fit;
    pointer = ground arith;
    written = ground arith;
  }

  -- Where `k_heapBMAlloc` succeeds in a block, it takes the first fit and writes only there.
  pub alloc_block-Placed :
      {b' : Block} {p : ℕ} → alloc_block b size ≡ some (p, b') → Placed b size p b'
  unfolding alloc_block
  alloc_block-Placed e = elim (Bool-cases (leb size (sub64 b.size (wrap64 (b.used * b.bsize))))) [
    | inl room ↦
        placed_of_scan (scan (slots b + 1) b.bm (slots b) (round_up size b.bsize) 0)
          (scan-FirstFit (slots b + 1) b.bm (slots b) (round_up size b.bsize) 0
            (round_up_pos size b.bsize v.positive pos small) (omega arith))
          (rw room at e)
    | inr full ↦ absurd (ground arith)
  ]
