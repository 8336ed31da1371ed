-- ===== src/Vmm/Tests.antt =====
-- A page mapped by cpu/vmm.c.
use cool_frost.Prelude.{false, [], ◌∷◌, arith}
use cool_frost.Vmm.{Space, vmm_map_page}
use cool_frost.Vmm.Owned.{Grown, vmm_map_page-Grown}

abbrev space : Space
space = record {
  space = record { pml4_phys = 0x1000; owned_pages = 0x1000 ∷ 0x2000 ∷ [] };
  kheap = record { ready = false; blocks = []; area = 0x100000; words = λ _. 0 };
}

vmm_map_page-Grown_example : Grown 2 space (vmm_map_page space 0x40000000 0x5000 7).1
vmm_map_page-Grown_example = vmm_map_page-Grown space 0x40000000 0x5000 7 (omega arith)
