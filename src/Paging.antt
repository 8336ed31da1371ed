-- ===== src/Paging.antt =====
-- cpu/paging.c and the read-only walk of cpu/vmm.c: is a pointer that a system call gets from ring
-- 3 one that the kernel may follow?
pub mod Walk
pub mod Ranges
pub mod Tests
use cool_frost.Prelude.{
  ℕ, zero, suc, ◌+◌, ◌-◌, ◌*◌, ◌/◌, ◌%◌, ◌^◌, ◌≤◌, ◌<◌, min, bit_and, bit_or, bit_xor, ◌≡◌, refl,
  sym, ap, ◌∙◌, ◌≢◌, ◌↔◌, ◌⊎◌, inl, inr, Bool, true, false, not, ◌&&◌, ◌||◌, Option, none, some,
  List, [], ◌∷◌, ◌++◌, map, arith, ltb, leb, ◌==◌, if◌then◌else◌, Bool-cases, Option-cases, length,
  get_elem?, get_or, set, take, drop, replicate, wrap8, wrap32, wrap64, sub32, sub64,
}

-- VMM_USER_BASE and VMM_USER_SIZE
abbrev pub vmm_user_base : ℕ
vmm_user_base = 0x40000000

abbrev pub vmm_user_size : ℕ
vmm_user_size = 0x40000000

-- VMM_PAGE_P, and VMM_PAGE_P | VMM_PAGE_U
abbrev pub vmm_page_p : ℕ
vmm_page_p = 1

abbrev pub vmm_page_pu : ℕ
vmm_page_pu = 5

-- `e & PTE_ADDR_MASK`, and `va & ~0xFFF`
abbrev pub page_of : ℕ → ℕ
page_of e = e / 4096 * 4096

-- `tbl[idx]` for a table of 64-bit entries at `tbl`
abbrev pub entry : (ℕ → ℕ) → (tbl idx : ℕ) → ℕ
entry words tbl idx = words (tbl + idx * 8)

abbrev pub is_present : ℕ → Bool
is_present e = not (bit_and e vmm_page_p == 0)

-- The body of the loop of `vmm_range_mapped`: false where it returns 0.
pub page_mapped : (ℕ → ℕ) → (pdpt_tbl page : ℕ) → Bool
page_mapped words pdpt_tbl page =
    let pdpt_idx = bit_and (page / 2 ^ 30) 0x1ff in
    let pd_idx = bit_and (page / 2 ^ 21) 0x1ff in
    let pt_idx = bit_and (page / 2 ^ 12) 0x1ff in
    let pdpte = entry words pdpt_tbl pdpt_idx in
    let pde = entry words (page_of pdpte) pd_idx in
    let pte = entry words (page_of pde) pt_idx in
    is_present pdpte && is_present pde && (bit_and pte vmm_page_pu == vmm_page_pu)

-- The loop, for at most as many rounds as there is fuel; `none` if that runs out.
pub pages_mapped : ℕ → (ℕ → ℕ) → (pdpt_tbl page last_page : ℕ) → Option Bool
pages_mapped zero words pdpt_tbl page last_page = none
pages_mapped (suc f) words pdpt_tbl page last_page = elim (page_mapped words pdpt_tbl page) [
  | false ↦ some false
  | true ↦ elim (page == last_page) [
    | true ↦ some true
    | false ↦ pages_mapped f words pdpt_tbl (wrap64 (page + 0x1000)) last_page
  ]
]

-- The pages of the window.
abbrev pub window_pages : ℕ
window_pages = vmm_user_size / 4096

pub vmm_range_mapped : (ℕ → ℕ) → (pml4_phys va len : ℕ) → Option Bool
vmm_range_mapped words pml4_phys va len =
    if len == 0
    then some true
    else if ltb va vmm_user_base || ltb (vmm_user_base + vmm_user_size) (wrap64 (va + len))
    then some false
    else let pml4e = entry words pml4_phys 0 in
      if is_present pml4e
      then pages_mapped window_pages words (page_of pml4e) (page_of va)
          (page_of (sub64 (wrap64 (va + len)) 1))
      else some false

unfoldable pub in_range : (p len start end : ℕ) → Bool
in_range p len start end =
    if len == 0
    then leb start p && ltb p end
    else if ltb p start || leb end p
    then false
    else if ltb (sub64 end p) len
    then false
    else true

-- `__user_start` and `__user_end`
pub record Arena : Type 0 where
  pub user_start : ℕ
  pub user_end : ℕ

unfoldable pub is_user_range : Arena → (ℕ → ℕ) → (cr3 p len : ℕ) → Option Bool
is_user_range arena words cr3 p len =
    if in_range p len arena.user_start arena.user_end
    then some true
    else if in_range p len vmm_user_base (vmm_user_base + vmm_user_size)
    then vmm_range_mapped words cr3 p len
    else some false
