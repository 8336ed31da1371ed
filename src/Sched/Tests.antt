-- ===== src/Sched/Tests.antt =====
-- Tests of the scheduler, and its theorems at two tasks.
use cool_frost.Prelude.{
  ℕ, ◌≡◌, refl, ◌≢◌, inl, inr, true, false, none, [], ◌∷◌, arith, ◌==◌, if◌then◌else◌, Bool-cases,
}
use cool_frost.Sched.{
  push, pop, rq_push, requeue, pick, resume, dispatch, sched_init, sched_run, sched_tick,
  sched_irq_end,
}
use cool_frost.Sched.Submit.{sched_submit_prio, sched_submit_user, sched_submit_user_as}
use cool_frost.Sched.Types.{free, ready, running, Task, Queue, Sched, closed_fd}
use cool_frost.Sched.Listed.{Listed}
use cool_frost.Sched.Inv.{IsValid}
use cool_frost.Sched.Choice.{IsHighest, sched_irq_end-IsHighest, sched_irq_end_contexts}
use cool_frost.Sched.Submit.Outcome.{submit-IsValid}
use cool_frost.Sched.Ops.{AtBoot, boot-IsValid, here, next, start, tick, irq_end, submit}

abbrev blank : Task
blank = record {
  rsp = 0;
  id = none;
  name = [];
  state = free;
  priority = 0;
  cpu_id = none;
  stack = 0;
  timeslice = 0;
  quantum = 0;
  func = 0;
  arg = 0;
  is_user = false;
  user_stack = 0;
  cr3 = 0;
  fd_table = λ _. closed_fd;
  as_ptr = 0;
  heap_start = 0;
  heap_brk = 0;
  heap_end = 0;
}

abbrev no_queue : Queue
no_queue = record { buf = λ _. 0; head = 0; tail = 0; size = 0 }

abbrev bss : Sched
bss = record {
  tasks = λ _. blank;
  count = 0;
  queues = λ _. no_queue;
  cur = 0;
  want_schedule = false;
  active = false;
  loaded_cr3 = 0x1000;
  user_stack_next = 0;
  rsp0 = 0;
  kheap = record { ready = false; blocks = []; area = 0x100000; words = λ _. 0 };
  layout = record {
    task_trampoline = 0x200000;
    user_task_trampoline = 0x400000;
    user_stack_pool = 0x500000;
  };
}

bss-AtBoot : AtBoot bss
bss-AtBoot = record {
  empty = λ p h. (refl, refl, refl);
  no_tasks = refl;
  shared = refl;
  master = refl;
}

-- Task 0, of the normal level, runs in its own address space and is at its last tick; task 1, of
-- the high level, is ready.
abbrev busy : Sched
busy = record bss {
  tasks = λ i.
      if i == 0
      then record blank { state = running; priority = 2; timeslice = 1; quantum = 20; cr3 = 0x9000 }
      else if i == 1
      then record blank { state = ready; priority = 1; timeslice = 10; quantum = 10; rsp = 0x7700 }
      else blank;
  count = 2;
  queues = λ p.
      if p == 1
      then record { buf = λ i. if i == 0 then 1 else 0; head = 0; tail = 1; size = 1 }
      else no_queue;
  loaded_cr3 = 0x9000;
  want_schedule = true;
  active = true;
}

busy-Listed : Listed busy.tasks busy.queues
busy-Listed = record {
  rings = λ p h. elim (Bool-cases (p == 1)) [
    | inl e ↦ rw e (record { head_in = omega arith; size_in = omega arith; tail_at = refl })
    | inr e ↦ rw e (record { head_in = omega arith; size_in = omega arith; tail_at = refl })
  ];
  counts = λ p i h. elim (Bool-cases (p == 1)) [
    | inl e ↦ rw e (ground arith)
    | inr e ↦ rw e (ground arith)
  ];
}

busy-IsValid : IsValid busy
busy-IsValid = record {
  listed = busy-Listed;
  count_in = omega arith;
  unused = λ i lo hi. ground arith;
  levels = λ i hi ne. ground arith;
  cur_in = omega arith;
  cur_state = λ h. inl refl;
  alone = λ i hi e. ground arith;
  loaded = refl;
}

-- The high task runs, in the shared address space.
busy_switches :
    ((sched_irq_end busy 0x5500).0 ≡ 0x7700)
    × ((sched_irq_end busy 0x5500).1.cur ≡ 1)
    × ((sched_irq_end busy 0x5500).1.loaded_cr3 ≡ 0x1000)
unfolding sched_irq_end requeue rq_push push pop pick dispatch resume
busy_switches = (refl, refl, refl)

boot-IsValid_example :
    IsValid
      (sched_irq_end
        (sched_tick (sched_submit_prio (sched_run (sched_init bss)) (b'a' ∷ []) 0x8000 0 1).1)
        0x5500).1
unfolding sched_run sched_init
boot-IsValid_example = boot-IsValid bss-AtBoot (
    next (next (next (next here (start _)) (submit _ (b'a' ∷ []) 0x8000 0 1 refl)) (tick _))
      (irq_end _ 0x5500))

sched_irq_end-IsHighest_example : IsHighest (sched_irq_end busy 0x5500).1
unfolding requeue
sched_irq_end-IsHighest_example = sched_irq_end-IsHighest 0x5500 busy-IsValid refl refl

sched_irq_end_contexts_example :
    let (rsp, s') = sched_irq_end busy 0x5500 in
    (rsp ≡ (s'.tasks s'.cur).rsp)
    × ((s'.tasks 0).rsp ≡ 0x5500)
    × ((i : ℕ) → i ≢ 0 → (s'.tasks i).rsp ≡ (busy.tasks i).rsp)
sched_irq_end_contexts_example = sched_irq_end_contexts 0x5500 busy-IsValid refl

submit-IsValid_example :
    IsValid (sched_submit_prio busy (b'a' ∷ []) 0x8000 0 1).1
    × IsValid (sched_submit_user busy (b'a' ∷ []) 0x8000 0).1
    × IsValid (sched_submit_user_as busy (b'a' ∷ []) 0x8000 0 0xa000 0x7000).1
submit-IsValid_example =
    submit-IsValid busy (b'a' ∷ []) 0x8000 0 busy-IsValid (λ _. refl) 1 0xa000 0x7000
