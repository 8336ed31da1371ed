-- ===== src/Kmem/Tests.antt =====
-- Tests of kmalloc and kfree on a small heap, and the theorems at it.
use cool_frost.Prelude.{
  ℕ, zero, suc, ◌+◌, ◌%◌, ◌^◌, ◌<◌, ◌≡◌, refl, true, some, [], ◌∷◌, map, arith, get_or, replicate,
}
use cool_frost.Heap.{alloc}
use cool_frost.Heap.Blocks.{forget}
use cool_frost.Kmem.{Kheap, kmalloc, kfree, ensure_init}
use cool_frost.Kmem.Laws.{IsKheap, kmalloc_lem, kfree-kmalloc}

-- 128 slots of 64 bytes, of which the first two hold the bitmap
abbrev kheap : Kheap
kheap = record {
  ready = true;
  blocks =
      record {
        addr = 8192;
        size = 8192;
        used = 2;
        bsize = 64;
        lfb = 1;
        bm = 5 ∷ 5 ∷ replicate 126 0;
      }
      ∷ [];
  area = 8192;
  words = λ a. 0;
}

bytes_small : (n i : ℕ) → get_or (replicate n 0) i 0 < 256
bytes_small zero i = omega arith
bytes_small (suc n) zero = omega arith
bytes_small (suc n) (suc i) = bytes_small n i

bm_small : (i : ℕ) → get_or (5 ∷ 5 ∷ replicate 126 0) i 0 < 256
bm_small zero = omega arith
bm_small (suc zero) = omega arith
bm_small (suc (suc i)) = bytes_small 126 i

kheap-IsKheap : IsKheap kheap
kheap-IsKheap = record {
  blocks = λ e. (
    record {
      positive = omega arith;
      bounded = omega arith;
      covers = refl;
      counted = refl;
      bytes = bm_small;
    },
    tt,
    tt,
  );
  area = omega arith;
}

-- `kmalloc(100, 1, 0)` gives the start of the next page.
page : (kmalloc kheap 100 true).0 ≡ some 12288
unfolding kmalloc ensure_init alloc
page = refl

kmalloc_lem_example :
    (0 < 12288)
    × (12288 + 100 < 2 ^ 64)
    × (true ≡ true → 12288 % 4096 ≡ 0)
    × IsKheap (kmalloc kheap 100 true).1
unfolding kmalloc ensure_init alloc
kmalloc_lem_example = kmalloc_lem 100 true kheap-IsKheap (omega arith) refl

kfree-kmalloc_example :
    map forget (kfree (kmalloc kheap 100 true).1 12288).blocks
    ≡ map forget (ensure_init kheap).blocks
unfolding kmalloc ensure_init alloc
kfree-kmalloc_example = kfree-kmalloc 100 true kheap-IsKheap (omega arith) refl
