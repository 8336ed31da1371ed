-- ===== src/Paging/Tests.antt =====
-- A process with one page mapped, and the checks of pointers into it.
use cool_frost.Prelude.{
  ℕ, ◌+◌, ◌≡◌, refl, ◌↔◌, ◌⊎◌, Bool, true, false, some, arith, ◌==◌, if◌then◌else◌,
}
use cool_frost.Paging.{
  vmm_user_base, vmm_user_size, page_mapped, pages_mapped, vmm_range_mapped, in_range, Arena,
  is_user_range,
}
use cool_frost.Paging.Ranges.{Within, AllAccessible, vmm_range_mapped_lem, is_user_range_lem}

-- The tables stand at 0x1000 (PML4), 0x2000, 0x3000 and 0x4000; the first page of the window is
-- mapped.
abbrev pub tables : ℕ → ℕ
tables k =
    if k == 0x1000
    then 0x2007
    else if k == 0x2008
    then 0x3007
    else if k == 0x3000
    then 0x4007
    else if k == 0x4000
    then 0x5007
    else 0

abbrev pub arena : Arena
arena = record { user_start = 0x200000; user_end = 0x400000 }

end_of_page : is_user_range arena tables 0x1000 0x40000ff0 16 ≡ some true
unfolding is_user_range vmm_range_mapped in_range pages_mapped page_mapped
end_of_page = refl

across_pages : is_user_range arena tables 0x1000 0x40000ff0 17 ≡ some false
unfolding is_user_range vmm_range_mapped in_range pages_mapped page_mapped
across_pages = refl

kernel_pointer : is_user_range arena tables 0x1000 0x100000 8 ≡ some false
unfolding is_user_range vmm_range_mapped in_range
kernel_pointer = refl

is_user_range_lem_example :
    (b : Bool) × (is_user_range arena tables 0x1000 0x40000ff0 16 ≡ some b)
    × ((b ≡ true) ↔ (
        Within 0x40000ff0 16 0x200000 0x400000
        ⊎ (Within 0x40000ff0 16 vmm_user_base (vmm_user_base + vmm_user_size)
            × AllAccessible tables 0x1000 0x40000ff0 16)))
is_user_range_lem_example = is_user_range_lem arena tables 0x1000 0x40000ff0 16 (omega arith)

page-Within : Within 0x40000ff0 16 vmm_user_base (vmm_user_base + vmm_user_size)
page-Within = record { above = omega arith; below = omega arith; fits = omega arith }

vmm_range_mapped_lem_example :
    (b : Bool) × (vmm_range_mapped tables 0x1000 0x40000ff0 16 ≡ some b)
    × ((b ≡ true) ↔ AllAccessible tables 0x1000 0x40000ff0 16)
vmm_range_mapped_lem_example = vmm_range_mapped_lem tables 0x1000 0x40000ff0 16 page-Within
