-- ===== src/Heap.antt =====
-- libc/heap.c, the bitmap allocator of the kernel: one byte of the bitmap for each slot of
-- `bsize` bytes, zero for a free slot and else the id of the allocation that holds it.
pub mod Bitmap
pub mod Scan
pub mod Alloc
pub mod Take
pub mod Free
pub mod Blocks
pub mod Fresh
pub mod Contract
mod Tests
pub mod Runs
use cool_frost.Prelude.{
  ℕ, zero, suc, ◌+◌, ◌-◌, ◌*◌, ◌/◌, Bool, true, false, ◌&&◌, ◌||◌, Option, none, some, List, [],
  ◌∷◌, ltb, leb, ◌==◌, if◌then◌else◌, get_or, set, replicate, wrap8, wrap64, sub64,
}
use mathlib.Core.Option

-- `KHEAPBLOCKBM` at address `addr`, with the bitmap that follows the header
pub record Block : Type 0 where
  pub addr : ℕ
  pub size : ℕ
  pub used : ℕ
  pub bsize : ℕ
  pub lfb : ℕ
  pub bm : List ℕ

-- `sizeof(KHEAPBLOCKBM)`: four words and a pointer
abbrev pub header_size : ℕ
header_size = 40

-- `&b[1]`, where the bitmap and the slots begin
abbrev pub base : Block → ℕ
base b = b.addr + header_size

-- `b->size / b->bsize`
abbrev pub slots : Block → ℕ
slots b = b.size / b.bsize

-- `(size / bsize) * bsize < size ? size / bsize + 1 : size / bsize`, in AddBlock and in Alloc
pub round_up : ℕ → ℕ → ℕ
round_up size bsize =
    if ltb (wrap64 (size / bsize * bsize)) size then size / bsize + 1 else size / bsize

-- `for (z = 0; z < n; ++z) bm[x + z] = v;`
pub fill : List ℕ → ℕ → ℕ → ℕ → List ℕ
fill bm x zero v = bm
fill bm x (suc n) v = fill (set bm x v) (x + 1) n v

-- The blocks of `heap->fblock`, in the order of their `next` links.
abbrev pub Heap : Type 0
Heap = List Block

pub init : Heap
init = []

pub new_block : ℕ → ℕ → ℕ → Block
new_block addr size bsize =
    let usable = sub64 size header_size in
    let bcnt = usable / bsize in
    let reserved = round_up bcnt bsize in
    record {
      addr = addr;
      size = usable;
      used = reserved;
      bsize = bsize;
      lfb = sub64 reserved 1;
      bm = fill (replicate bcnt 0) 0 reserved 5;
    }

pub add_block : Heap → ℕ → ℕ → ℕ → Heap
add_block heap addr size bsize = new_block addr size bsize ∷ heap

-- The loop of `k_heapBMGetNID`, which ends within three rounds.
pub nid_from : ℕ → ℕ → ℕ → ℕ
nid_from zero c b = c
nid_from (suc f) c b =
    let rest = nid_from f (wrap8 (c + 1)) b in if c == b || c == 0 then rest else c

pub get_nid : ℕ → ℕ → ℕ
get_nid a b = nid_from 3 (wrap8 (a + 1)) b

-- `for (y = 0; y < n && bm[x + y] == 0; ++y);`, the length of a free run, `n` at most.
-- A slot out of range counts as taken; the bound of the outer loop rules it out.
pub free_run : List ℕ → ℕ → ℕ → ℕ
free_run bm x zero = 0
free_run bm x (suc n) = if get_or bm x 1 == 0 then suc (free_run bm (x + 1) n) else 0

-- The loop over `x` of `k_heapBMAlloc`, that skips a free run which is too short.
pub scan : ℕ → List ℕ → ℕ → ℕ → ℕ → Option ℕ
scan zero bm bcnt bneed x = none
scan (suc f) bm bcnt bneed x = elim (leb (x + bneed) bcnt) [
  | false ↦ none
  | true ↦ elim (get_or bm x 1 == 0) [
    | false ↦ scan f bm bcnt bneed (x + 1)
    | true ↦ elim (free_run bm x bneed == bneed) [
      | true ↦ some x
      | false ↦ scan f bm bcnt bneed (x + free_run bm x bneed + 1)
    ]
  ]
]

-- `prev` and `next`: the ids on both sides of the slots `x` up to `x + n`
pub left_id : Block → ℕ → ℕ
left_id b x = if ltb 0 x then get_or b.bm (x - 1) 0 else 0

pub right_id : Block → ℕ → ℕ
right_id b x = if ltb x (slots b) then get_or b.bm x 0 else 0

-- The writes that take the `n` slots from `x` on.
pub take_slots : Block → ℕ → ℕ → Block
take_slots b x n = record b {
  bm = fill b.bm x n (get_nid (left_id b x) (right_id b (x + n)));
  lfb = sub64 (x + n) 1;
  used = wrap64 (b.used + n);
}

-- One round of the loop over the blocks in `k_heapBMAlloc`.
pub alloc_block : Block → ℕ → Option (ℕ × Block)
alloc_block b size =
    let bneed = round_up size b.bsize in
    let found = scan (slots b + 1) b.bm (slots b) bneed 0 in
    if leb size (sub64 b.size (wrap64 (b.used * b.bsize)))
    then Option.map (λ x. (x * b.bsize + base b, take_slots b x bneed)) found
    else none

-- `k_heapBMAlloc`; the result is a null pointer where it is `none`.
unfoldable pub alloc : Heap → ℕ → Option (ℕ × Heap)
unfolding alloc_block scan free_run round_up take_slots fill get_nid nid_from left_id right_id
alloc [] size = none
alloc (b ∷ heap) size =
    let later = Option.map (λ ((p, heap') : ℕ × Heap). (p, b ∷ heap')) (alloc heap size) in
    elim (alloc_block b size) [ some (p, b') ↦ some (p, b' ∷ heap) | none ↦ later ]

-- `for (x = bi; x < max && bm[x] == id; ++x) bm[x] = 0;` with `max - x` rounds left.
-- It returns the last `x` beside the bitmap.
pub clear_run : ℕ → ℕ → List ℕ → ℕ → List ℕ × ℕ
clear_run id zero bm x = (bm, x)
clear_run id (suc left) bm x =
    if get_or bm x 0 == id then clear_run id left (set bm x 0) (x + 1) else (bm, x)

pub free_block : Block → ℕ → Block
free_block b ptr =
    let bi = sub64 ptr (base b) / b.bsize in
    let (bm', x) = clear_run (get_or b.bm bi 0) (slots b - bi) b.bm bi in
    record b { bm = bm'; used = sub64 b.used (x - bi) }

-- `b < ptr && ptr < b + sizeof(KHEAPBLOCKBM) + b->size`
pub holds : Block → ℕ → Bool
holds b ptr = ltb b.addr ptr && ltb ptr (base b + b.size)

-- `k_heapBMFree`
pub free : Heap → ℕ → Heap
free [] ptr = []
free (b ∷ heap) ptr = if holds b ptr then free_block b ptr ∷ heap else b ∷ free heap ptr
