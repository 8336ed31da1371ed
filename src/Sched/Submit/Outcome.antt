-- ===== src/Sched/Submit/Outcome.antt =====
-- `sched_submit_prio`, `sched_submit_user` and `sched_submit_user_as` on every path.
use native.Mathlib.Nat.{le_refl}
use cool_frost.Prelude.{
  ℕ, ◌+◌, ◌≤◌, ◌<◌, ◌≡◌, refl, inl, inr, true, false, ◌||◌, Option, none, some, List, arith, leb,
  ◌==◌, Bool-cases, Option-cases,
}
use cool_frost.Kmem.{Kheap, kmalloc}
use cool_frost.Sched.{rq_push}
use cool_frost.Sched.Submit.{
  find_free_slot, with_frame, task_init_stack, sched_submit_prio, sched_submit_user,
  sched_submit_user_as, task_init_stack_user, task_init_stack_user_as,
}
use cool_frost.Sched.Types.{
  ready, is_reusable, Task, Sched, max_tasks, prio_levels, update, task_stack_sz, max_user_tasks,
  prio_normal, running,
}
use cool_frost.Sched.Inv.{IsValid}
use cool_frost.Sched.Submit.Slots.{
  FreeSlot, full, slot, find_free_slot-FreeSlot, Admitted, Admitted-IsValid,
}

-- A call is refused, and changes at most the heap and the number of slots counted, or it admits a
-- task at level `p`.
pub data Submitted (s : Sched) (p : ℕ) : Option ℕ × Sched → Type 0 where
  refused :
      (n : ℕ) (k : Kheap)
      → s.count ≤ n
      → n ≤ max_tasks
      → Submitted s p (none, record s { count = n; kheap = k })
  accepted : (i : ℕ) (s' : Sched) → Admitted s p i s' → Submitted s p (some i, s')

module _ (s : Sched) (n i p rip cs ss rsp rdi rsi next : ℕ) (k : Kheap) (t : Task)
    (level : p < prio_levels) (more : s.count ≤ n) (few : n ≤ max_tasks) (counted : i < n)
    (ok : is_reusable (s.tasks i).state ≡ true) (st : t.state ≡ ready) (pr : t.priority ≡ p) where
  -- The task is written to its slot, gets its first frame, and is pushed.
  frame_Admitted : Admitted s p i (
      rq_push
        (with_frame
          (record s { count = n; kheap = k; user_stack_next = next; tasks = update s.tasks i t })
          i
          rip
          cs
          ss
          rsp
          rdi
          rsi)
        p
        i)
  unfolding rq_push with_frame
  frame_Admitted = record {
    level = level;
    more = more;
    few = few;
    counted = counted;
    reusable = ok;
    others = λ j ne. ground arith;
    state = ground arith;
    priority = ground arith;
    queues = refl;
    cur = refl;
    loaded = refl;
  }

module _ (s : Sched) (name : List ℕ) (func arg : ℕ) (v : IsValid s) where
  pub sched_submit_prio-Submitted :
      (priority : ℕ) → Submitted s priority (sched_submit_prio s name func arg priority)
  unfolding sched_submit_prio task_init_stack
  sched_submit_prio-Submitted priority = elim (Bool-cases (func == 0 || leb prio_levels priority)) [
    | inl bad ↦ rw bad (refused s.count s.kheap (le_refl _) v.count_in)
    | inr fine ↦ go (find_free_slot s) refl (find_free_slot-FreeSlot s v) fine
  ]
    where
      go :
          (r : Option ℕ × Sched)
          → find_free_slot s ≡ r
          → FreeSlot s r
          → (func == 0 || leb prio_levels priority) ≡ false
          → Submitted s priority (sched_submit_prio s name func arg priority)
      go r e full fine = rw (fine, e, e) (refused s.count s.kheap (le_refl _) v.count_in)
      go r e (slot i n more few counted ok) fine =
          elim (Option-cases (kmalloc s.kheap task_stack_sz true).0) [
            | inl dry ↦ rw (fine, e, e, dry, e) (refused n _ more few)
            | inr (stack, got) ↦
                rw (fine, e, e, got, e)
                  (accepted i _ (
                    frame_Admitted s n i priority _ _ _ _ _ _ s.user_stack_next _ _ (ground arith)
                      more few counted ok refl refl))
          ]

  pub sched_submit_user-Submitted : Submitted s prio_normal (sched_submit_user s name func arg)
  unfolding sched_submit_user task_init_stack_user task_init_stack_user_as
  sched_submit_user-Submitted =
      elim (Bool-cases (func == 0 || leb max_user_tasks s.user_stack_next)) [
        | inl bad ↦ rw bad (refused s.count s.kheap (le_refl _) v.count_in)
        | inr fine ↦ go (find_free_slot s) refl (find_free_slot-FreeSlot s v) fine
      ]
    where
      go :
          (r : Option ℕ × Sched)
          → find_free_slot s ≡ r
          → FreeSlot s r
          → (func == 0 || leb max_user_tasks s.user_stack_next) ≡ false
          → Submitted s prio_normal (sched_submit_user s name func arg)
      go r e full fine = rw (fine, e, e) (refused s.count s.kheap (le_refl _) v.count_in)
      go r e (slot i n more few counted ok) fine =
          elim (Option-cases (kmalloc s.kheap task_stack_sz true).0) [
            | inl dry ↦ rw (fine, e, e, dry, e) (refused n _ more few)
            | inr (stack, got) ↦
                rw (fine, e, e, got, e)
                  (accepted i _ (
                    frame_Admitted s n i prio_normal _ _ _ _ _ _ (s.user_stack_next + 1) _ _
                      (omega arith) more few counted ok refl refl))
          ]

  pub sched_submit_user_as-Submitted :
      (cr3 top : ℕ) → Submitted s prio_normal (sched_submit_user_as s name func arg cr3 top)
  unfolding sched_submit_user_as task_init_stack_user_as
  sched_submit_user_as-Submitted cr3 top = elim (Bool-cases (func == 0 || cr3 == 0)) [
    | inl bad ↦ rw bad (refused s.count s.kheap (le_refl _) v.count_in)
    | inr fine ↦ go (find_free_slot s) refl (find_free_slot-FreeSlot s v) fine
  ]
    where
      go :
          (r : Option ℕ × Sched)
          → find_free_slot s ≡ r
          → FreeSlot s r
          → (func == 0 || cr3 == 0) ≡ false
          → Submitted s prio_normal (sched_submit_user_as s name func arg cr3 top)
      go r e full fine = rw (fine, e, e) (refused s.count s.kheap (le_refl _) v.count_in)
      go r e (slot i n more few counted ok) fine =
          elim (Option-cases (kmalloc s.kheap task_stack_sz true).0) [
            | inl dry ↦ rw (fine, e, e, dry, e) (refused n _ more few)
            | inr (stack, got) ↦
                rw (fine, e, e, got, e)
                  (accepted i _ (
                    frame_Admitted s n i prio_normal _ _ _ _ _ _ (s.user_stack_next) _ _
                      (omega arith) more few counted ok refl refl))
          ]

Submitted-IsValid :
    {s : Sched} {p : ℕ} (r : Option ℕ × Sched)
    → IsValid s
    → (s.cur < max_tasks → (s.tasks s.cur).state ≡ running)
    → Submitted s p r
    → IsValid (r.1)
Submitted-IsValid r v live (refused n k more few) = record {
  listed = v.listed;
  count_in = few;
  unused = λ i lo hi. v.unused i (omega arith) hi;
  levels = v.levels;
  cur_in = v.cur_in;
  cur_state = v.cur_state;
  alone = v.alone;
  loaded = v.loaded;
}
Submitted-IsValid r v live (accepted i s' a) = Admitted-IsValid v live a

module _ (s : Sched) (name : List ℕ) (func arg : ℕ) (v : IsValid s)
    (live : s.cur < max_tasks → (s.tasks s.cur).state ≡ running) where
  -- Submitting a task in any of the three ways, from a current task that is idle or running, keeps
  -- the invariant of the scheduler, on the paths that refuse the task too.
  pub submit-IsValid :
      (priority cr3 top : ℕ)
      → IsValid (sched_submit_prio s name func arg priority).1
        × IsValid (sched_submit_user s name func arg).1
        × IsValid (sched_submit_user_as s name func arg cr3 top).1
  submit-IsValid priority cr3 top = (
    Submitted-IsValid _ v live (sched_submit_prio-Submitted s name func arg v priority),
    Submitted-IsValid _ v live (sched_submit_user-Submitted s name func arg v),
    Submitted-IsValid _ v live (sched_submit_user_as-Submitted s name func arg v cr3 top),
  )
