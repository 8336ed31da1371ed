-- ===== src/Kmem.antt =====
-- kmalloc and kfree of libc/mem.c, over the allocator of libc/heap.c.
pub mod Laws
mod Tests
use cool_frost.Prelude.{
  ℕ, ◌+◌, ◌*◌, ◌/◌, Bool, true, not, ◌&&◌, Option, none, some, ◌==◌, if◌then◌else◌, wrap64, sub64,
}
use cool_frost.Heap.{Heap, init, add_block, alloc, free}

-- `kheap_ready`, `kheap` and the address of `kheap_area`, with the words in memory that kmalloc
-- writes: the raw pointer in front of each allocation.
pub record Kheap : Type 0 where
  pub ready : Bool
  pub blocks : Heap
  pub area : ℕ
  pub words : ℕ → ℕ

abbrev pub kheap_size : ℕ
kheap_size = 16 * 1024 * 1024

abbrev pub kheap_bsize : ℕ
kheap_bsize = 64

pub ensure_init : Kheap → Kheap
ensure_init k =
    if k.ready
    then k
    else record k { ready = true; blocks = add_block init k.area kheap_size kheap_bsize }

-- `(p + 0xFFF) & ~0xFFF`
abbrev pub page_up : ℕ → ℕ
page_up p = wrap64 (p + 0xfff) / 4096 * 4096

-- `sizeof(uintptr_t) + (align ? 0x1000 : 0)`
abbrev pub extra : Bool → ℕ
extra align = if align then 8 + 4096 else 8

abbrev pub place : Bool → ℕ → ℕ
place align raw = if align then page_up (wrap64 (raw + 8)) else wrap64 (raw + 8)

pub write_word : (ℕ → ℕ) → ℕ → ℕ → ℕ → ℕ
write_word words a w k = if k == a then w else words k

-- The result is `none` for the null pointer. `phys_addr` gets the same value.
pub kmalloc : Kheap → ℕ → Bool → Option ℕ × Kheap
kmalloc k size align =
    let k' = ensure_init k in
    elim (alloc k'.blocks (wrap64 (size + extra align))) [
      | none ↦ (none, k')
      | some (raw, blocks) ↦
          let p = place align raw in
          (some p, record k' { blocks = blocks; words = write_word k'.words (sub64 p 8) raw })
    ]

-- `ptr` is not null.
pub kfree : Kheap → ℕ → Kheap
kfree k ptr =
    if k.ready && not (ptr == 0)
    then record k { blocks = free k.blocks (k.words (sub64 ptr 8)) }
    else k
