-- ===== src/Heap/Contract.antt =====
-- What the users of libc/heap.c may rely on.
use mathlib.Core.Path.{subst}
use cool_frost.Prelude.{
  ℕ, ◌+◌, ◌*◌, ◌^◌, ◌≤◌, ◌<◌, ◌≡◌, sym, ap, ◌∙◌, inl, inr, true, none, some, [], ◌∷◌, map, arith,
  leb, Option-cases, wrap64, sub64, le→leb,
}
use mathlib.Core.Option
use native.Mathlib.Nat.{div-mul-le_self, mul-le-mul_right}
use cool_frost.Heap.{Block, Heap, slots, round_up, scan, alloc_block, alloc, free, header_size}
use cool_frost.Heap.Bitmap.{AllAre}
use cool_frost.Heap.Scan.{FirstFit, scan-FirstFit}
use cool_frost.Heap.Alloc.{round_up_pos, round_up_bounds, Placed}
use cool_frost.Heap.Runs.{IsValid}
use cool_frost.Heap.Take.{taken-add-le}
use cool_frost.Heap.Blocks.{
  IsHeap, forget, alloc-Allocated, Allocated-IsHeap, free-Allocated, alloc_here, alloc_later,
  place_in, Allocated, here, later,
}

module _ (heap : Heap) (size : ℕ) (pos : 0 < size) (small : size < 2 ^ 64) (v : IsHeap heap) where
  -- A successful k_heapBMAlloc of a size that is positive and below 2^64 keeps a valid heap valid:
  -- headers agree with bitmaps, counts are exact, and no two blocks share a byte.
  pub alloc-IsHeap : {heap' : Heap} {p : ℕ} → alloc heap size ≡ some (p, heap') → IsHeap heap'
  alloc-IsHeap e = Allocated-IsHeap size pos small (alloc-Allocated size pos small heap v e) v

  -- In a valid heap, freeing the pointer that k_heapBMAlloc just returned for a size that is
  -- positive and below 2^64 restores every block, bitmap and count (all but the hint lfb).
  pub free-alloc :
      {heap' : Heap} {p : ℕ}
      → alloc heap size ≡ some (p, heap')
      → map forget (free heap' p) ≡ map forget heap
  free-alloc e = free-Allocated size pos small (alloc-Allocated size pos small heap v e) v

-- No block has `size` bytes of free slots in a row.
abbrev pub NoRoom : ℕ → Heap → Type 0
NoRoom size [] = Unit {0}
NoRoom size (b ∷ heap) =
    ((z : ℕ) → z + round_up size b.bsize ≤ slots b → ¬ AllAre 0 b.bm z (round_up size b.bsize))
    × NoRoom size heap

-- The bytes that are counted as free cover every run of free slots.
room_enough :
    {b : Block} (size z : ℕ)
    → IsValid b
    → size < 2 ^ 64
    → z + round_up size b.bsize ≤ slots b
    → AllAre 0 b.bm z (round_up size b.bsize)
    → leb size (sub64 b.size (wrap64 (b.used * b.bsize))) ≡ true
room_enough {b} size z v small fits open_run =
    let whole : (b.used + round_up size b.bsize) * b.bsize ≤ slots b * b.bsize =
      mul-le-mul_right b.bsize
        (omega (arith, v.counted, taken-add-le z (round_up size b.bsize) v open_run fits)) in
    let total : slots b * b.bsize ≤ b.size = div-mul-le_self b.size b.bsize in
    let (need, _) = round_up_bounds size b.bsize v.positive small in
    le→leb _ _ (omega (arith, whole, total, need, v.bounded))

module _ (size : ℕ) (pos : 0 < size) (small : size < 2 ^ 64) where
  alloc_block-none :
      {b : Block}
      → IsValid b
      → alloc_block b size ≡ none
      → (z : ℕ) → z + round_up size b.bsize ≤ slots b
      → ¬ AllAre 0 b.bm z (round_up size b.bsize)
  unfolding alloc_block
  alloc_block-none {b} v e z fits open_run =
      elim (Option-cases (scan (slots b + 1) b.bm (slots b) (round_up size b.bsize) 0)) [
        | inl spent ↦
            subst (FirstFit b.bm (slots b) (round_up size b.bsize) 0) spent
              (scan-FirstFit (slots b + 1) b.bm (slots b) (round_up size b.bsize) 0
                (round_up_pos size b.bsize v.positive pos small) (omega arith))
              z (omega arith) fits open_run
        | inr (x, found) ↦
            absurd (cc (sym (rw (room_enough size z v small fits open_run, found) at e)))
      ]

  -- In a valid heap, for a size that is positive and below 2^64, k_heapBMAlloc returns null only
  -- if no block has a run of free slots that holds the size.
  pub alloc-none : (heap : Heap) → IsHeap heap → alloc heap size ≡ none → NoRoom size heap
  alloc-none [] v e = tt
  alloc-none (b ∷ heap) (v, apart, rest) e = elim (Option-cases (alloc_block b size)) [
    | inr ((q, b'), found) ↦ absurd (cc (sym e ∙ alloc_here b heap size q b' found))
    | inl full ↦ elim (Option-cases (alloc heap size)) [
      | inr ((q, k), found) ↦
          absurd (cc (sym e ∙ alloc_later b heap size full ∙ ap (Option.map _) found))
      | inl spent ↦ (alloc_block-none v full, alloc-none heap rest spent)
    ]
  ]

module _ (size : ℕ) (pos : 0 < size) (small : size < 2 ^ 64) where
  placed_span :
      {b b' : Block} {p : ℕ}
      → IsValid b
      → Placed b size p b'
      → (header_size ≤ p) × (p + size < 2 ^ 64)
  placed_span {b} v placed = omega (
    arith,
    placed.pointer,
    mul-le-mul_right b.bsize (place_in v placed),
    div-mul-le_self b.size b.bsize,
    (round_up_bounds size b.bsize v.positive small).0,
    v.bounded,
  )

  Allocated-span :
      {heap heap' : Heap} {p : ℕ}
      → Allocated size pos small heap p heap'
      → IsHeap heap
      → (header_size ≤ p) × (p + size < 2 ^ 64)
  Allocated-span (here v placed) h = placed_span v placed
  Allocated-span (later a) (v, apart, rest) = Allocated-span a rest

  -- What is allocated lies in memory, past the header of its block.
  pub alloc_span :
      (heap : Heap) {heap' : Heap} {p : ℕ}
      → IsHeap heap
      → alloc heap size ≡ some (p, heap')
      → (header_size ≤ p) × (p + size < 2 ^ 64)
  alloc_span heap v e = Allocated-span (alloc-Allocated size pos small heap v e) v
