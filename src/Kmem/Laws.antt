-- ===== src/Kmem/Laws.antt =====
-- What the users of kmalloc and kfree may rely on.
use cool_frost.Heap.Contract.{alloc-IsHeap, free-alloc, alloc_span}
use mathlib.Core.Path.{subst}
use cool_frost.Heap.Fresh.{add_block-IsHeap}
use cool_frost.Prelude.{
  ℕ, ◌+◌, ◌%◌, ◌^◌, ◌≤◌, ◌<◌, ◌≡◌, refl, sym, ap, ◌∙◌, ◌≢◌, inl, inr, Bool, true, false, none, some,
  map, arith, Bool-cases, Option-cases, wrap64, sub64,
}
use cool_frost.Heap.{Heap, init, add_block, alloc, free}
use cool_frost.Heap.Blocks.{IsHeap, forget}
use cool_frost.Kmem.{
  Kheap, ensure_init, kmalloc, extra, place, write_word, kheap_size, kheap_bsize, kfree,
}

-- The heap in use is valid, or the area it is going to use lies in memory.
pub record IsKheap (k : Kheap) : Type 0 where
  pub blocks : k.ready ≡ true → IsHeap k.blocks
  pub area : k.area + kheap_size < 2 ^ 64

ensure_init_up : (k : Kheap) → k.ready ≡ true → ensure_init k ≡ k
unfolding ensure_init
ensure_init_up k e = ground arith

ensure_init_down :
    (k : Kheap)
    → k.ready ≡ false
    → ensure_init k
      ≡ record k { ready = true; blocks = add_block init k.area kheap_size kheap_bsize }
unfolding ensure_init
ensure_init_down k e = ground arith

ensure_init-IsKheap :
    {k : Kheap} → IsKheap k → IsKheap (ensure_init k) × ((ensure_init k).ready ≡ true)
ensure_init-IsKheap {k} v = elim (Bool-cases k.ready) [
  | inl up ↦ subst Ready (sym (ensure_init_up k up)) (v, up)
  | inr down ↦ subst Ready (sym (ensure_init_down k down)) (
    record {
      blocks =
          λ e. add_block-IsHeap k.area kheap_size kheap_bsize (omega arith) (omega arith) v.area;
      area = v.area;
    },
    refl,
  )
]
  where
    Ready : Kheap → Type 0
    Ready j = IsKheap j × (j.ready ≡ true)

-- The pointer for the caller: the back pointer and the `size` bytes lie in what was allocated,
-- and an aligned pointer is the start of a page.
place_fits :
    (align : Bool) (raw size : ℕ)
    → 40 ≤ raw
    → raw + (size + extra align) < 2 ^ 64
    → let p = place align raw in
      (raw + 8 ≤ p) × (p + size ≤ raw + (size + extra align)) × (align ≡ true → p % 4096 ≡ 0)
place_fits true raw size lo hi = (omega arith, omega arith, λ e. omega arith)
place_fits false raw size lo hi = (omega arith, omega arith, λ e. cc)

-- A successful kmalloc, by the call of the allocator in it.
record Got (k : Kheap) (size : ℕ) (align : Bool) (p : ℕ) (k' : Kheap) : Type 0 where
  raw : ℕ
  left : Heap
  got : alloc (ensure_init k).blocks (size + extra align) ≡ some (raw, left)
  pointer : p ≡ place align raw
  state : k' ≡ record (ensure_init k) {
    blocks = left;
    words = write_word (ensure_init k).words (sub64 p 8) raw;
  }

module _ (k : Kheap) (size : ℕ) (align : Bool) where
  kmalloc-none :
      alloc (ensure_init k).blocks (wrap64 (size + extra align)) ≡ none
      → kmalloc k size align ≡ (none, ensure_init k)
  unfolding kmalloc
  kmalloc-none e = ground arith

  kmalloc-some :
      (raw : ℕ) (left : Heap)
      → alloc (ensure_init k).blocks (wrap64 (size + extra align)) ≡ some (raw, left)
      → kmalloc k size align ≡ (
        some (place align raw),
        record (ensure_init k) {
          blocks = left;
          words = write_word (ensure_init k).words (sub64 (place align raw) 8) raw;
        },
      )
  unfolding kmalloc
  kmalloc-some raw left e = ground arith

kfree_lem :
    (k : Kheap) (p : ℕ)
    → k.ready ≡ true
    → p ≢ 0
    → (kfree k p).blocks ≡ free k.blocks (k.words (sub64 p 8))
unfolding kfree
kfree_lem k p up ne = ground arith

write_word_self : (words : ℕ → ℕ) (a w : ℕ) → write_word words a w a ≡ w
unfolding write_word
write_word_self words a w = ground arith

module _ {k k' : Kheap} (size : ℕ) (align : Bool) {p : ℕ} (v : IsKheap k)
    (small : size + extra align < 2 ^ 64) (e : kmalloc k size align ≡ (some p, k')) where
  kmalloc-Got : Got k size align p k'
  kmalloc-Got = elim (Option-cases (alloc (ensure_init k).blocks (wrap64 (size + extra align)))) [
    | inl spent ↦ absurd (cc (kmalloc-none k size align spent))
    | inr ((raw, left), found) ↦ record {
      raw = raw;
      left = left;
      got = ap (alloc (ensure_init k).blocks) (omega arith) ∙ found;
      pointer = cc (kmalloc-some k size align raw left found);
      state = ground (arith, kmalloc-some k size align raw left found);
    }
  ]

  extra_pos : 0 < size + extra align
  extra_pos = ground arith

  -- In a valid kernel heap, a successful kmalloc whose size and overhead stay below 2^64 returns a
  -- pointer that is not null, whose bytes lie below 2^64 and which starts a page if alignment was
  -- asked for, and the heap stays valid.
  pub kmalloc_lem : (0 < p) × (p + size < 2 ^ 64) × (align ≡ true → p % 4096 ≡ 0) × IsKheap k'
  kmalloc_lem =
      let (ready, up) = ensure_init-IsKheap v in
      let heap = ready.blocks up in
      let g = kmalloc-Got in
      let (lo, hi) = alloc_span (size + extra align) extra_pos small _ heap g.got in
      let (front, back, page) = place_fits align g.raw size lo hi in
      (
        omega (arith, g.pointer),
        omega (arith, g.pointer),
        λ a. omega (arith, page a, g.pointer),
        subst IsKheap (sym g.state) (record {
          blocks = λ _. alloc-IsHeap _ (size + extra align) extra_pos small heap g.got;
          area = ready.area;
        }),
      )

  -- In a valid kernel heap, kfree of the pointer that a kmalloc whose size and overhead stay below
  -- 2^64 just returned, aligned or not, gives back every block of the initialised heap (all but
  -- the hint lfb).
  pub kfree-kmalloc : map forget (kfree k' p).blocks ≡ map forget (ensure_init k).blocks
  kfree-kmalloc =
      let (ready, up) = ensure_init-IsKheap v in
      let heap = ready.blocks up in
      let g = kmalloc-Got in
      let (pos, _, _, _) = kmalloc_lem in
      ap (λ j. map forget (kfree j p).blocks) g.state
      ∙ ap (map forget) (
          kfree_lem _ p up (omega arith)
          ∙ ap (free g.left) (write_word_self (ensure_init k).words (sub64 p 8) g.raw))
      ∙ free-alloc _ (size + extra align) extra_pos small heap g.got
