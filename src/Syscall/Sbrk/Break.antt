-- ===== src/Syscall/Sbrk/Break.antt =====
-- SYS_SBRK of cpu/syscall.c: what becomes of the break.
use cool_frost.Prelude.{
  ℕ, ◌+◌, ◌-◌, ◌/◌, ◌^◌, ◌≤◌, ◌<◌, ◌≡◌, ◌≢◌, refl, ◌⊎◌, inl, inr, true, ◌||◌, arith, ltb, leb, ◌==◌,
  Bool-cases, wrap64, ==_iff, if_both, Bool, false,
}
use cool_frost.Sched.Types.{update}
use cool_frost.Vmm.{Space}
use cool_frost.Syscall.{Registers, Kernel, failed}
use cool_frost.Syscall.Sbrk.Pages.{
  Mapped, Stuck, Outcome, IsPageEnd, mapped_to-IsPageEnd, grown-Outcome,
}
use cool_frost.Syscall.Sbrk.{map_pages, mapped_to, current, with_space, set_brk, grow, sys_sbrk}

update_self {ℓ} : {A : Type ℓ} (f : ℕ → A) (i : ℕ) (a : A) → update f i a i ≡ a
update_self f i a = let same : (i == i) ≡ true = ground arith in rw same refl

module _ {W G : Type 0} (k : Kernel W G) where
  -- the space and the kernel heap that the call works on
  abbrev here : Space
  here = record { space = k.spaces (current k).as_ptr; kheap = k.vfs.sched.kheap }

  -- The pages behind the call are these, and the rest of the spaces and the scheduler's other tasks
  -- are as before.
  pub record Holds (s : Space) (k' : Kernel W G) : Type 0 where
    space : k'.spaces (current k).as_ptr ≡ s.space
    heap : k'.vfs.sched.kheap ≡ s.kheap
    other_spaces : (a : ℕ) → a ≢ (current k).as_ptr → k'.spaces a ≡ k.spaces a
    other_tasks : (t : ℕ) → t ≢ k.vfs.sched.cur → k'.vfs.sched.tasks t ≡ k.vfs.sched.tasks t

  -- Why the call may fail.
  pub data Refused (r : Registers) : Type 0 where
    no_heap : ((current k).as_ptr ≡ 0) ⊎ ((current k).heap_end ≡ 0) → Refused r
    negative : 2 ^ 63 ≤ r.rdi → Refused r
    too_far : (current k).heap_end < (current k).heap_brk + r.rdi → Refused r
    no_pages :
        {from : ℕ}
        → IsPageEnd (current k).heap_start (current k).heap_brk from
        → Stuck here from ((current k).heap_brk + r.rdi)
        → Refused r

  -- A result of the call and the state behind it. Either the call failed for one of these reasons
  -- and the current task is as before, or a call for no bytes returned the break, or the call
  -- returned the old break and the new one is further by the increment, with each page mapped that
  -- starts below the new break, from the end of the last page of the old heap on.
  pub data Moved (r : Registers) : ℕ × Kernel W G → Type 0 where
    refused : {k' : Kernel W G} → Refused r → current k' ≡ current k → Moved r (failed, k')
    asked : r.rdi ≡ 0 → Moved r ((current k).heap_brk, k)
    moved :
        {k' : Kernel W G} {from : ℕ} {s' : Space}
        → current k' ≡ record (current k) { heap_brk = (current k).heap_brk + r.rdi }
        → (current k).heap_brk + r.rdi ≤ (current k).heap_end
        → IsPageEnd (current k).heap_start (current k).heap_brk from
        → Mapped here from ((current k).heap_brk + r.rdi) s'
        → Holds s' k'
        → Moved r ((current k).heap_brk, k')

  set_brk-Holds : (s : Space) (brk : ℕ) → Holds s (set_brk (with_space k s) brk)
  set_brk-Holds s brk = record {
    space = update_self k.spaces (current k).as_ptr s.space;
    heap = refl;
    other_spaces = λ a ne. ground arith;
    other_tasks = λ t ne. ground arith;
  }

  grow-Moved :
      (r : Registers)
      → (current k).heap_start ≤ (current k).heap_brk
      → (current k).heap_end + 4096 ≤ 2 ^ 64
      → (current k).heap_brk + r.rdi ≤ (current k).heap_end
      → Moved r (grow k ((current k).heap_brk + r.rdi))
  unfolding grow
  grow-Moved r started small le =
      let t = current k in
      let brk = t.heap_brk + r.rdi in
      let first = mapped_to-IsPageEnd t.heap_start t.heap_brk started (omega arith) in
      let last = mapped_to-IsPageEnd t.heap_start brk (omega arith) (omega arith) in
      let from = mapped_to t.heap_start t.heap_brk in
      let rounds = (mapped_to t.heap_start brk - from) / 4096 in
      let o = grown-Outcome here t.heap_start t.heap_brk brk (omega arith) first last in
      elim (Bool-cases (map_pages rounds here from).0) [
        | inl e ↦
            let s' = (map_pages rounds here from).1 in
            rw (grow, e)
              (moved (update_self k.vfs.sched.tasks k.vfs.sched.cur _) le first
                (reached here from brk _ e o) (set_brk-Holds s' brk))
        | inr e ↦ rw (grow, e) (refused (no_pages first (stuck here from brk _ e o)) refl)
      ]
    where
      reached :
          (s : Space) (va stop : ℕ) (q : Bool × Space)
          → q.0 ≡ true
          → Outcome s va stop q
          → Mapped s va stop q.1
      reached s va stop (true, s') e o = o
      reached s va stop (false, s') e o = absurd (cc)

      stuck :
          (s : Space) (va stop : ℕ) (q : Bool × Space)
          → q.0 ≡ false
          → Outcome s va stop q
          → Stuck s va stop
      stuck s va stop (true, s') e o = absurd (cc)
      stuck s va stop (false, s') e o = o

  -- Where the start of the heap is not past the break, the break is below 2^64 and heap_end is at
  -- most 2^64 - 4096, SYS_SBRK either returns (uint64_t)-1 with the task as it was, because it has
  -- no space or heap, the increment is negative or leads past heap_end, or a page cannot be
  -- allocated or mapped; or is called for 0 bytes and returns the break with nothing changed; or
  -- returns the old break, and then the break has moved by the increment, not past heap_end,
  -- nothing else of the task has changed, a page was allocated and mapped by vmm_map_page at every
  -- page address from the end of the old heap that is below the new break, and no other space or
  -- task has changed.
  pub sys_sbrk-Moved :
      (r : Registers)
      → (current k).heap_start ≤ (current k).heap_brk
      → (current k).heap_brk < 2 ^ 64
      → (current k).heap_end + 4096 ≤ 2 ^ 64
      → Moved r (sys_sbrk k r)
  unfolding sys_sbrk
  sys_sbrk-Moved r started lt small =
      let t = current k in
      elim (Bool-cases (t.as_ptr == 0 || t.heap_end == 0)) [
        | inl e ↦ rw (sys_sbrk, e) (refused (no_heap (either _ _ e)) refl)
        | inr e ↦ elim (Bool-cases (r.rdi == 0)) [
          | inl z ↦ rw (sys_sbrk, e, z) (asked ((==_iff r.rdi 0).0 z))
          | inr z ↦ elim (Bool-cases (leb (2 ^ 63) r.rdi)) [
            | inl n ↦ rw (sys_sbrk, e, z, n) (refused (negative (ground arith)) refl)
            | inr n ↦
                elim (Bool-cases (
                  ltb (wrap64 (t.heap_brk + r.rdi)) t.heap_brk
                  || ltb t.heap_end (wrap64 (t.heap_brk + r.rdi)))) [
                    | inl o ↦ rw (sys_sbrk, e, z, n, o) (refused (too_far (ground arith)) refl)
                    | inr o ↦
                        let exact : wrap64 (t.heap_brk + r.rdi) ≡ t.heap_brk + r.rdi =
                          ground arith in
                        rw (sys_sbrk, e, z, n, o, exact) (grow-Moved r started small (ground arith))
                  ]
          ]
        ]
      ]
    where
      either : (a b : ℕ) → (a == 0 || b == 0) ≡ true → (a ≡ 0) ⊎ (b ≡ 0)
      either a b e = elim (Bool-cases (a == 0)) [
        | inl z ↦ inl ((==_iff a 0).0 z)
        | inr nz ↦ inr (ground (arith, nz, e))
      ]

  grow-memory : (new_brk a : ℕ) → (grow k new_brk).1.memory a ≡ k.memory a
  unfolding grow
  grow-memory new_brk a =
      let t = current k in
      let from = mapped_to t.heap_start t.heap_brk in
      let rounds = (mapped_to t.heap_start new_brk - from) / 4096 in
      let s : Space = record { space = k.spaces t.as_ptr; kheap = k.vfs.sched.kheap } in
      if_both (λ (q : ℕ × Kernel W G). q.1.memory a ≡ k.memory a) (map_pages rounds s from).0 refl
        refl

  -- No byte of the user's memory changes.
  pub sys_sbrk-memory : (r : Registers) (a : ℕ) → (sys_sbrk k r).1.memory a ≡ k.memory a
  unfolding sys_sbrk
  sys_sbrk-memory r a =
      let t = current k in
      let brk = wrap64 (t.heap_brk + r.rdi) in
      let P : ℕ × Kernel W G → Type 0 = λ q. q.1.memory a ≡ k.memory a in
      if_both P (t.as_ptr == 0 || t.heap_end == 0) refl (
        if_both P (r.rdi == 0) refl (
          if_both P (leb (2 ^ 63) r.rdi) refl
            (if_both P (ltb brk t.heap_brk || ltb t.heap_end brk) refl (grow-memory brk a))))
