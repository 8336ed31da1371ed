-- ===== src/Heap/Blocks.antt =====
-- `k_heapBMAlloc` and `k_heapBMFree` over the list of blocks.
use mathlib.Core.Path.{ap₂, subst₂}
use cool_frost.Prelude.{
  ℕ, ◌+◌, ◌^◌, ◌≤◌, ◌<◌, ◌≡◌, sym, ap, ◌∙◌, ◌⊎◌, inl, inr, true, false, Option, none, some, [], ◌∷◌,
  map, arith, Option-cases,
}
use mathlib.Core.Option
use cool_frost.Heap.{
  Block, Heap, slots, base, round_up, take_slots, alloc_block, alloc, free_block, holds, free,
}
use cool_frost.Heap.Bitmap.{AllAre, fill-fill}
use cool_frost.Heap.Alloc.{Placed, alloc_block-Placed, round_up_pos}
use cool_frost.Heap.Runs.{IsValid}
use cool_frost.Heap.Take.{take_slots-IsValid, take_slots-Run, new_id, slots-le-size, taken-add-le}
use cool_frost.Heap.Free.{slot_addr, free_block-released, slot_offset}

-- Two blocks share no byte.
abbrev pub Apart : Block → Block → Type 0
Apart b c = (base b + b.size ≤ c.addr) ⊎ (base c + c.size ≤ b.addr)

abbrev pub AllApart : Block → Heap → Type 0
AllApart b [] = Unit {0}
AllApart b (c ∷ heap) = Apart b c × AllApart b heap

-- Every block is valid, and no two share a byte.
abbrev pub IsHeap : Heap → Type 0
IsHeap [] = Unit {0}
IsHeap (b ∷ heap) = IsValid b × AllApart b heap × IsHeap heap

-- A block without `lfb`, the hint that no function reads.
abbrev pub forget : Block → Block
forget b = record b { lfb = 0 }

free-take_slots :
    {b : Block} (x n : ℕ)
    → IsValid b
    → AllAre 0 b.bm x n
    → x + n ≤ slots b
    → 0 < n
    → forget (free_block (take_slots b x n) (slot_addr b x)) ≡ forget b
unfolding take_slots
free-take_slots {b} x n v open_run fits pos =
    ap forget (
      free_block-released (take_slots-IsValid x n v open_run fits)
        (take_slots-Run x n v open_run fits pos))
    ∙ ap₂ (λ m u. record b { bm = m; used = u; lfb = 0 })
        (fill-fill b.bm x n (new_id b x n) open_run (omega (arith, v.covers)))
        (omega (
          arith,
          v.counted,
          v.covers,
          v.bounded,
          slots-le-size b,
          taken-add-le x n v open_run fits,
          fits,
        ))

module _ {b b' : Block} {size p : ℕ} (v : IsValid b) (placed : Placed b size p b') where
  pub place_in : placed.place + round_up size b.bsize ≤ slots b
  place_in = placed.fits.1

  pub place_free : AllAre 0 b.bm placed.place (round_up size b.bsize)
  place_free = placed.fits.2

  pub placed-IsValid : IsValid b'
  placed-IsValid =
      rw (placed.written)
        (take_slots-IsValid placed.place (round_up size b.bsize) v place_free place_in)

  module _ (pos : 0 < size) (small : size < 2 ^ 64) where
    slots_pos : 0 < round_up size b.bsize
    slots_pos = round_up_pos size b.bsize v.positive pos small

    pub pointer_in : (base b ≤ p) × (p < base b + b.size)
    pointer_in = omega (
      arith,
      placed.pointer,
      slot_offset b placed.place v (omega (arith, place_in, slots_pos)),
      v.positive,
    )

    -- Freeing what was just allocated restores the bitmap and the count.
    pub free_block-alloc_block : forget (free_block b' p) ≡ forget b
    free_block-alloc_block =
        rw (placed.written, placed.pointer)
          (free-take_slots placed.place (round_up size b.bsize) v place_free place_in slots_pos)

-- One round of the loop over the blocks, at a block with room and at one without.
pub alloc_here :
    (b : Block) (heap : Heap) (size p : ℕ) (b' : Block)
    → alloc_block b size ≡ some (p, b')
    → alloc (b ∷ heap) size ≡ some (p, b' ∷ heap)
unfolding alloc
alloc_here b heap size p b' e = ground arith

pub alloc_later :
    (b : Block) (heap : Heap) (size : ℕ)
    → alloc_block b size ≡ none
    → alloc (b ∷ heap) size
      ≡ Option.map (λ ((p, heap') : ℕ × Heap). (p, b ∷ heap')) (alloc heap size)
unfolding alloc
alloc_later b heap size e = ground arith

module _ (size : ℕ) (pos : 0 < size) (small : size < 2 ^ 64) where
  -- What holds of `alloc heap size ≡ some (p, heap')`, by the block that gives the memory.
  pub data Allocated : Heap → ℕ → Heap → Type 0 where
    here :
        {b b' : Block} {p : ℕ} {heap : Heap}
        → IsValid b
        → Placed b size p b'
        → Allocated (b ∷ heap) p (b' ∷ heap)
    later :
        {b : Block} {p : ℕ} {heap heap' : Heap}
        → Allocated heap p heap'
        → Allocated (b ∷ heap) p (b ∷ heap')

  Allocated-eq :
      {heap h k : Heap} {p q : ℕ}
      → Allocated heap q k
      → ◌≡◌ {A = Option (ℕ × Heap)} (some (q, k)) (some (p, h))
      → Allocated heap p h
  Allocated-eq {heap} a e = subst₂ (λ q k. Allocated heap q k) (cc) (cc) a

  pub alloc-Allocated :
      (heap : Heap) {heap' : Heap} {p : ℕ}
      → IsHeap heap
      → alloc heap size ≡ some (p, heap')
      → Allocated heap p heap'
  unfolding alloc
  alloc-Allocated [] v e = cc
  alloc-Allocated (b ∷ heap) v e = elim (Option-cases (alloc_block b size)) [
    | inr ((q, b'), found) ↦
        Allocated-eq (here (v.0) (alloc_block-Placed size (v.0) pos small found))
          (sym (alloc_here b heap size q b' found) ∙ e)
    | inl full ↦ elim (Option-cases (alloc heap size)) [
      | inr ((q, k), found) ↦
          Allocated-eq (later (alloc-Allocated heap (v.2) found))
            (sym (alloc_later b heap size full ∙ ap (Option.map _) found) ∙ e)
      | inl spent ↦ absurd (cc (sym e ∙ alloc_later b heap size full ∙ ap (Option.map _) spent))
    ]
  ]

  AllApart-Allocated :
      (c : Block) {heap heap' : Heap} {p : ℕ}
      → Allocated heap p heap'
      → AllApart c heap
      → AllApart c heap'
  unfolding take_slots
  AllApart-Allocated c (here v placed) (ap_b, rest) = rw (placed.written) (ap_b, rest)
  AllApart-Allocated c (later a) (ap_b, rest) = (ap_b, AllApart-Allocated c a rest)

  not-holds :
      (c : Block) {heap heap' : Heap} {p : ℕ}
      → Allocated heap p heap'
      → AllApart c heap
      → holds c p ≡ false
  unfolding holds
  not-holds c (here v placed) (ap_b, rest) = ground (arith, pointer_in v placed pos small)
  not-holds c (later a) (ap_b, rest) = not-holds c a rest

  pub Allocated-IsHeap :
      {heap heap' : Heap} {p : ℕ} → Allocated heap p heap' → IsHeap heap → IsHeap heap'
  unfolding take_slots
  Allocated-IsHeap (here {b} v placed) (_, apart, rest) =
      (placed-IsValid v placed, rw (placed.written) apart, rest)
  Allocated-IsHeap (later {b} a) (v, apart, rest) =
      (v, AllApart-Allocated b a apart, Allocated-IsHeap a rest)

  holds-here : {b b' : Block} {p : ℕ} → IsValid b → Placed b size p b' → holds b' p ≡ true
  unfolding holds take_slots
  holds-here v placed = rw (placed.written) (ground (arith, pointer_in v placed pos small))

  pub free-Allocated :
      {heap heap' : Heap} {p : ℕ}
      → Allocated heap p heap'
      → IsHeap heap
      → map forget (free heap' p) ≡ map forget heap
  unfolding free
  free-Allocated (here {b} {b'} {p} {heap} v placed) h =
      rw (holds-here v placed)
        (ap (λ k. k ∷ map forget heap) (free_block-alloc_block v placed pos small))
  free-Allocated (later {b} a) (v, apart, rest) =
      rw (not-holds b a apart) (ap (λ k. forget b ∷ k) (free-Allocated a rest))
