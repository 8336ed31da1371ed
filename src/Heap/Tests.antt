-- ===== src/Heap/Tests.antt =====
-- Tests of the heap on a block of eight slots, and its theorems at that block.
use cool_frost.Prelude.{◌*◌, ◌≤◌, ◌<◌, ◌≡◌, refl, ◌≢◌, none, some, [], ◌∷◌, map, arith}
use cool_frost.Heap.{
  Block, Heap, slots, round_up, fill, new_block, scan, free_run, get_nid, nid_from, left_id,
  right_id, take_slots, alloc_block, alloc, free,
}
use cool_frost.Heap.Bitmap.{AllAre}
use cool_frost.Heap.Scan.{FirstFit, scan-FirstFit}
use cool_frost.Heap.Runs.{IsValid, Run, get_nid_distinct}
use cool_frost.Heap.Alloc.{Placed, alloc_block-Placed}
use cool_frost.Heap.Fresh.{new_block-IsValid}
use cool_frost.Heap.Blocks.{IsHeap, forget}
use cool_frost.Heap.Contract.{alloc-IsHeap, free-alloc, NoRoom, alloc-none}

abbrev block : Block
unfolding new_block
block = new_block 4096 552 64

abbrev heap : Heap
heap = block ∷ []

-- the block after an allocation of 100 bytes
abbrev block_used : Block
block_used = take_slots block 1 2

layout : (slots block ≡ 8) × (block.bm ≡ 5 ∷ 0 ∷ 0 ∷ 0 ∷ 0 ∷ 0 ∷ 0 ∷ 0 ∷ []) × (block.used ≡ 1)
unfolding new_block fill round_up
layout = (refl, refl, refl)

alloc_100 : alloc heap 100 ≡ some (4200, block_used ∷ [])
unfolding alloc alloc_block scan free_run round_up new_block fill take_slots
alloc_100 = refl

alloc_too_much : alloc heap 500 ≡ none
unfolding alloc alloc_block scan free_run round_up new_block fill take_slots
alloc_too_much = refl

bitmap_after : block_used.bm ≡ 5 ∷ 6 ∷ 6 ∷ 0 ∷ 0 ∷ 0 ∷ 0 ∷ 0 ∷ []
unfolding take_slots get_nid nid_from left_id right_id new_block fill round_up
bitmap_after = refl

-- The id of the reserved slots is avoided next to them, and so is zero after 255.
ids : (get_nid 5 0 ≡ 6) × (get_nid 255 1 ≡ 2) × (get_nid 4 5 ≡ 6)
unfolding get_nid nid_from
ids = (refl, refl, refl)

valid : IsValid block × Run block 0 1 5 × (8 ≤ 1 * 64)
unfolding new_block round_up
valid = new_block-IsValid 4096 552 64 (omega arith) (omega arith) (omega arith)

heap-IsHeap : IsHeap heap
unfolding new_block
heap-IsHeap = (valid.0, tt, tt)

new_block-IsValid_example :
    let b = new_block 4096 552 64 in
    IsValid b × Run b 0 (round_up (slots b) 64) 5 × (slots b ≤ round_up (slots b) 64 * 64)
new_block-IsValid_example = new_block-IsValid 4096 552 64 (omega arith) (omega arith) (omega arith)

scan-FirstFit_example :
    FirstFit (5 ∷ 0 ∷ 7 ∷ 0 ∷ 0 ∷ []) 5 2 0 (scan 6 (5 ∷ 0 ∷ 7 ∷ 0 ∷ 0 ∷ []) 5 2 0)
scan-FirstFit_example = scan-FirstFit 6 (5 ∷ 0 ∷ 7 ∷ 0 ∷ 0 ∷ []) 5 2 0 (omega arith) (omega arith)

get_nid_distinct_example :
    (get_nid 255 1 ≢ 0) × (get_nid 255 1 ≢ 255) × (get_nid 255 1 ≢ 1) × (get_nid 255 1 < 256)
get_nid_distinct_example = get_nid_distinct 255 1 (omega arith) (omega arith)

alloc-IsHeap_example : IsHeap (block_used ∷ [])
alloc-IsHeap_example = alloc-IsHeap heap 100 (omega arith) (omega arith) heap-IsHeap alloc_100

free-alloc_example : map forget (free (block_used ∷ []) 4200) ≡ map forget heap
free-alloc_example = free-alloc heap 100 (omega arith) (omega arith) heap-IsHeap alloc_100

alloc-none_example : NoRoom 500 heap
alloc-none_example = alloc-none 500 (omega arith) (omega arith) heap heap-IsHeap alloc_too_much

room : AllAre 0 block.bm 1 2
unfolding new_block fill round_up
room j lo hi = ground arith

placed : Placed block 100 4200 block_used
unfolding alloc_block scan free_run round_up new_block fill take_slots
placed = alloc_block-Placed 100 (valid.0) (omega arith) (omega arith) refl

-- two allocations next to each other
abbrev shared : Block
shared = record {
  addr = 4096;
  size = 512;
  used = 6;
  bsize = 64;
  lfb = 5;
  bm = 5 ∷ 6 ∷ 6 ∷ 7 ∷ 7 ∷ 7 ∷ 0 ∷ 0 ∷ [];
}

shared-IsValid : IsValid shared
shared-IsValid = record {
  positive = omega arith;
  bounded = omega arith;
  covers = refl;
  counted = refl;
  bytes = λ i. ground arith;
}

left-Run : Run shared 1 2 6
left-Run = record {
  nonempty = omega arith;
  within = omega arith;
  held = omega arith;
  same = λ j lo hi. ground arith;
  left_edge = λ h. omega arith;
  right_edge = λ h. omega arith;
}

right-Run : Run shared 3 3 7
right-Run = record {
  nonempty = omega arith;
  within = omega arith;
  held = omega arith;
  same = λ j lo hi. ground arith;
  left_edge = λ h. omega arith;
  right_edge = λ h. omega arith;
}
