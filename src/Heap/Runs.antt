-- ===== src/Heap/Runs.antt =====
-- An allocation in the bitmap of libc/heap.c: a run of slots with one id, told apart from both
-- neighbours by that id.
use cool_frost.Prelude.{ℕ, ◌+◌, ◌-◌, ◌≤◌, ◌<◌, ◌≡◌, ◌≢◌, arith, get_or, length, ◌^◌}
use cool_frost.Heap.{Block, slots, get_nid, nid_from, header_size}
use cool_frost.Heap.Bitmap.{AllAre, taken}

-- `b` is a block whose header agrees with its bitmap.
pub record IsValid (b : Block) : Type 0 where
  pub positive : 0 < b.bsize
  pub bounded : b.addr + header_size + b.size < 2 ^ 64
  pub covers : length b.bm ≡ slots b
  pub counted : b.used ≡ taken b.bm
  pub bytes : (i : ℕ) → get_or b.bm i 0 < 256

-- The slots from `x` on that are one allocation, of id `v`.
pub record Run (b : Block) (x n v : ℕ) : Type 0 where
  pub nonempty : 0 < n
  pub within : x + n ≤ slots b
  pub held : v ≢ 0
  pub same : AllAre v b.bm x n
  pub left_edge : 0 < x → get_or b.bm (x - 1) 0 ≢ v
  pub right_edge : x + n < slots b → get_or b.bm (x + n) 0 ≢ v

-- For any two bytes k_heapBMGetNID ends within three rounds of its loop with a byte that is not
-- zero and differs from both.
pub get_nid_distinct :
    (a b : ℕ)
    → a < 256
    → b < 256
    → (get_nid a b ≢ 0) × (get_nid a b ≢ a) × (get_nid a b ≢ b) × (get_nid a b < 256)
unfolding get_nid nid_from
get_nid_distinct a b ha hb = ground arith
