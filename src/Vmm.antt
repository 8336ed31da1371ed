-- ===== src/Vmm.antt =====
-- cpu/vmm.c: the address spaces of processes, over kmalloc and kfree. vmm_range_mapped stands in
-- Paging.
pub mod Owned
mod Tests
use cool_frost.Prelude.{
  ℕ, ◌+◌, ◌*◌, ◌/◌, ◌^◌, bit_and, bit_or, Bool, true, false, not, ◌&&◌, ◌||◌, Option, none, some,
  List, [], ◌∷◌, ◌++◌, ltb, leb, ◌==◌, if◌then◌else◌, length,
}
use cool_frost.Kmem.{Kheap, kmalloc, kfree, write_word}
use cool_frost.Paging.{vmm_user_base, vmm_user_size, page_of, entry, is_present}

abbrev pub vmm_max_pages : ℕ
vmm_max_pages = 512

abbrev pub vmm_page_rw_u : ℕ
vmm_page_rw_u = 7

-- `vmm_as_t`, with `owned_pages` up to `owned_count`
pub record AddressSpace : Type 0 where
  pub pml4_phys : ℕ
  pub owned_pages : List ℕ

-- `memset((void *)p, 0, 4096)`
abbrev pub clear_page : (ℕ → ℕ) → ℕ → ℕ → ℕ
clear_page words p a = if leb p a && ltb a (p + 4096) then 0 else words a

abbrev pub put_entry : Kheap → (tbl idx w : ℕ) → Kheap
put_entry k tbl idx w = record k { words = write_word k.words (tbl + idx * 8) w }

-- An address space and the heap that its pages come from.
pub record Space : Type 0 where
  pub space : AddressSpace
  pub kheap : Kheap

-- The result is 0 for failure.
pub vmm_alloc_page : Space → ℕ × Space
vmm_alloc_page s =
    if leb vmm_max_pages (length s.space.owned_pages)
    then (0, s)
    else let (m, k) = kmalloc s.kheap 4096 true in
      elim m [
        | none ↦ (0, record s { kheap = k })
        | some p ↦ (
          p,
          record {
            space = record (s.space) { owned_pages = s.space.owned_pages ++ (p ∷ []) };
            kheap = record k { words = clear_page k.words p };
          },
        )
      ]

-- A table's entry made present, by a new page for the level below: false if there is none.
pub ensure_entry : Space → (tbl idx : ℕ) → Bool × Space
ensure_entry s tbl idx =
    if is_present (entry s.kheap.words tbl idx)
    then (true, s)
    else let (p, s') = vmm_alloc_page s in
      if p == 0
      then (false, s')
      else (true, record s' { kheap = put_entry s'.kheap tbl idx (bit_or p vmm_page_rw_u) })

-- Whether the result is 0, and not -1.
pub vmm_map_page : Space → (va pa flags : ℕ) → Bool × Space
vmm_map_page s va pa flags =
    if ltb va vmm_user_base || leb (vmm_user_base + vmm_user_size) va
    then (false, s)
    else if not (bit_and va 0xfff == 0)
    then (false, s)
    else let pdpt_idx = bit_and (va / 2 ^ 30) 0x1ff in
      let pd_idx = bit_and (va / 2 ^ 21) 0x1ff in
      let pt_idx = bit_and (va / 2 ^ 12) 0x1ff in
      let pdpt_tbl = page_of (entry s.kheap.words s.space.pml4_phys 0) in
      let (pd_ok, s1) = ensure_entry s pdpt_tbl pdpt_idx in
      let pd_tbl = page_of (entry s1.kheap.words pdpt_tbl pdpt_idx) in
      let (pt_ok, s2) = ensure_entry s1 pd_tbl pd_idx in
      let pt_tbl = page_of (entry s2.kheap.words pd_tbl pd_idx) in
      let leaf = bit_or (bit_or (page_of pa) (bit_and flags 0xfff)) 1 in
      if not pd_ok
      then (false, s1)
      else if not pt_ok
      then (false, s2)
      else (true, record s2 { kheap = put_entry s2.kheap pt_tbl pt_idx leaf })

-- `kfree` of each page, in order
pub free_pages : Kheap → List ℕ → Kheap
free_pages k [] = k
free_pages k (p ∷ ps) = free_pages (kfree k p) ps

-- `as` is at the address `as_ptr`, which is not null.
pub vmm_destroy_address_space : Space → (as_ptr : ℕ) → Kheap
vmm_destroy_address_space s as_ptr = kfree (free_pages s.kheap s.space.owned_pages) as_ptr

abbrev pub master_pdpt : ℕ
master_pdpt = 0x2000

-- The address of the new `vmm_as_t` with what stands there, or `none` for null.
pub vmm_create_address_space : Kheap → Option (ℕ × AddressSpace) × Kheap
vmm_create_address_space k =
    let (m, k') = kmalloc k 4112 false in
    elim m [
      | none ↦ (none, k')
      | some as_ptr ↦
          let s : Space = record {
            space = record { pml4_phys = 0; owned_pages = [] };
            kheap = k';
          } in
          let (pml4, s1) = vmm_alloc_page s in
          let (pdpt, s2) = vmm_alloc_page s1 in
          let k1 = put_entry s2.kheap pml4 0 (bit_or pdpt vmm_page_rw_u) in
          let k2 = put_entry k1 pdpt 0 (entry k1.words master_pdpt 0) in
          let k3 = put_entry k2 pdpt 3 (entry k2.words master_pdpt 3) in
          if pml4 == 0 || pdpt == 0
          then (none, vmm_destroy_address_space s2 as_ptr)
          else (some (as_ptr, record (s2.space) { pml4_phys = pml4 }), k3)
    ]
