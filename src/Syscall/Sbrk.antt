-- ===== src/Syscall/Sbrk.antt =====
-- cpu/syscall.c: SYS_SBRK, which moves the end of a process's heap.
mod Pages
pub mod Break
use cool_frost.Prelude.{
  ℕ, zero, suc, ◌+◌, ◌-◌, ◌*◌, ◌/◌, ◌^◌, Bool, true, false, ◌||◌, ltb, leb, ◌==◌, if◌then◌else◌,
  wrap64, sub64,
}
use cool_frost.Sched.Types.{Task, set_task, update}
use cool_frost.Vmm.{Space, vmm_alloc_page, vmm_map_page, vmm_page_rw_u}
use cool_frost.Syscall.{Registers, Kernel, failed}

-- The loop over the pages from `va` on: whether it maps them all. One round is for a page, and
-- `rounds` is their number.
pub map_pages : (rounds : ℕ) → Space → (va : ℕ) → Bool × Space
map_pages zero s va = (true, s)
map_pages (suc rounds) s va =
    let (pa, s1) = vmm_alloc_page s in
    let (mapped, s2) = vmm_map_page s1 va pa vmm_page_rw_u in
    let rest = map_pages rounds s2 (va + 0x1000) in
    if pa == 0 then (false, s1) else if mapped then rest else (false, s2)

-- `start + ((brk - start + 0xFFF) & ~0xFFF)`
abbrev pub mapped_to : (start brk : ℕ) → ℕ
mapped_to start brk = wrap64 (start + wrap64 (sub64 brk start + 0xfff) / 4096 * 4096)

module _ {W G : Type 0} where
  abbrev pub current : Kernel W G → Task
  current k = k.vfs.sched.tasks k.vfs.sched.cur

  -- the state with the current task's space and the heap as they are in `s`
  abbrev pub with_space : Kernel W G → Space → Kernel W G
  with_space k s = record k {
    spaces = update k.spaces (current k).as_ptr s.space;
    vfs = record (k.vfs) { sched = record (k.vfs.sched) { kheap = s.kheap } };
  }

  abbrev pub set_brk : Kernel W G → ℕ → Kernel W G
  set_brk k brk = record k {
    vfs = record (k.vfs) {
      sched = set_task k.vfs.sched k.vfs.sched.cur (record (current k) { heap_brk = brk });
    };
  }

  -- the part behind the tests, with the new break
  pub grow : Kernel W G → (new_brk : ℕ) → ℕ × Kernel W G
  grow k new_brk =
      let t = current k in
      let mapped_end = mapped_to t.heap_start t.heap_brk in
      let needed_end = mapped_to t.heap_start new_brk in
      let s : Space = record { space = k.spaces t.as_ptr; kheap = k.vfs.sched.kheap } in
      let (ok, s') = map_pages ((needed_end - mapped_end) / 4096) s mapped_end in
      if ok then (t.heap_brk, set_brk (with_space k s') new_brk) else (failed, with_space k s')

  pub sys_sbrk : Kernel W G → Registers → ℕ × Kernel W G
  unfolding grow
  sys_sbrk k r =
      let t = current k in
      let new_brk = wrap64 (t.heap_brk + r.rdi) in
      if t.as_ptr == 0 || t.heap_end == 0
      then (failed, k)
      else if r.rdi == 0
      then (t.heap_brk, k)
      else if leb (2 ^ 63) r.rdi
      then (failed, k)
      else if ltb new_brk t.heap_brk || ltb t.heap_end new_brk
      then (failed, k)
      else grow k new_brk
