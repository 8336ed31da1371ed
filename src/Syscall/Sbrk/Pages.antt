-- ===== src/Syscall/Sbrk/Pages.antt =====
-- SYS_SBRK of cpu/syscall.c: the pages that the loop maps.
use cool_frost.Prelude.{
  ℕ, zero, suc, ◌+◌, ◌-◌, ◌*◌, ◌/◌, ◌^◌, ◌≤◌, ◌<◌, ◌≡◌, ◌≢◌, inl, inr, Bool, true, arith, ◌==◌,
  Bool-cases, false, ==_iff,
}
use cool_frost.Vmm.{Space, vmm_alloc_page, vmm_map_page, vmm_page_rw_u}
use cool_frost.Syscall.Sbrk.{map_pages, mapped_to}

-- The mapping of a page for `va` that was allocated for it.
abbrev pub with_page : Space → (va : ℕ) → Bool × Space
with_page s va = vmm_map_page (vmm_alloc_page s).1 va (vmm_alloc_page s).0 vmm_page_rw_u

-- From `s` to `s'`, each page that starts below `stop`, from the one at `va` on, was allocated and
-- mapped for the user to write, and no other.
pub data Mapped : Space → (va stop : ℕ) → Space → Type 0 where
  done : {s : Space} {va stop : ℕ} → stop ≤ va → Mapped s va stop s
  page :
      {s s' : Space} {va stop : ℕ}
      → va < stop
      → (vmm_alloc_page s).0 ≢ 0
      → (with_page s va).0 ≡ true
      → Mapped (with_page s va).1 (va + 4096) stop s'
      → Mapped s va stop s'

-- At one of these pages, after those before it, the allocation or the mapping fails.
pub data Stuck : Space → (va stop : ℕ) → Type 0 where
  no_page : {s : Space} {va stop : ℕ} → va < stop → (vmm_alloc_page s).0 ≡ 0 → Stuck s va stop
  no_mapping :
      {s : Space} {va stop : ℕ}
      → va < stop
      → (vmm_alloc_page s).0 ≢ 0
      → (with_page s va).0 ≡ false
      → Stuck s va stop
  later :
      {s : Space} {va stop : ℕ}
      → (vmm_alloc_page s).0 ≢ 0
      → (with_page s va).0 ≡ true
      → Stuck (with_page s va).1 (va + 4096) stop
      → Stuck s va stop

-- What the loop makes of the pages.
abbrev pub Outcome : Space → (va stop : ℕ) → Bool × Space → Type 0
Outcome s va stop (true, s') = Mapped s va stop s'
Outcome s va stop (false, s') = Stuck s va stop

-- The rounds that reach `stop`, and no further than its page.
pub map_pages-Outcome :
    (rounds : ℕ) (s : Space) (va stop : ℕ)
    → stop ≤ va + rounds * 4096
    → (0 < rounds → va + rounds * 4096 < stop + 4096)
    → Outcome s va stop (map_pages rounds s va)
unfolding map_pages
map_pages-Outcome zero s va stop reach near = done (omega arith)
map_pages-Outcome (suc rounds) s va stop reach near =
    let lt = near (omega arith) in
    elim (Bool-cases ((vmm_alloc_page s).0 == 0)) [
      | inl z ↦ rw (map_pages, z) (no_page (omega arith) ((==_iff _ 0).0 z))
      | inr nz ↦ elim (Bool-cases (with_page s va).0) [
        | inl on ↦
            rw (map_pages, nz, on)
              (further s va stop (map_pages rounds (with_page s va).1 (va + 4096)) (omega arith)
                (λ z. ground (arith, nz, z)) on
                (map_pages-Outcome rounds (with_page s va).1 (va + 4096) stop (omega arith)
                  (λ _. omega arith)))
        | inr off ↦
            rw (map_pages, nz, off) (no_mapping (omega arith) (λ z. ground (arith, nz, z)) off)
      ]
    ]
  where
    further :
        (s : Space) (va stop : ℕ) (r : Bool × Space)
        → va < stop
        → (vmm_alloc_page s).0 ≢ 0
        → (with_page s va).0 ≡ true
        → Outcome (with_page s va).1 (va + 4096) stop r
        → Outcome s va stop r
    further s va stop (true, s') lt nz on o = page lt nz on o
    further s va stop (false, s') lt nz on o = later nz on o

-- The end of the last page that the heap up to `brk` has.
pub record IsPageEnd (start brk stop : ℕ) : Type 0 where
  pages : ℕ
  at : stop ≡ start + pages * 4096
  reaches : brk ≤ stop
  least : stop < brk + 4096

pub mapped_to-IsPageEnd :
    (start brk : ℕ) → start ≤ brk → brk + 4096 ≤ 2 ^ 64 → IsPageEnd start brk (mapped_to start brk)
mapped_to-IsPageEnd start brk le small =
    let n = brk - start in
    let e : mapped_to start brk ≡ start + (n + 4095) / 4096 * 4096 = omega arith in
    record { pages = (n + 4095) / 4096; at = e; reaches = omega arith; least = omega arith }

pub grown-Outcome :
    (s : Space) (start old new : ℕ) {first stop : ℕ}
    → old ≤ new
    → IsPageEnd start old first
    → IsPageEnd start new stop
    → Outcome s first new (map_pages ((stop - first) / 4096) s first)
grown-Outcome s start old new {first} {stop} le f t =
    let whole : first + (stop - first) / 4096 * 4096 ≡ stop =
      omega (arith, f.at, f.reaches, f.least, t.at, t.reaches, t.least) in
    map_pages-Outcome ((stop - first) / 4096) s first new (omega (arith, whole, t.reaches))
      (λ _. omega (arith, whole, t.least))
