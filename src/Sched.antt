-- ===== src/Sched.antt =====
-- cpu/sched.c: the task pool, the run queues and the switch at the end of an interrupt.
-- Interrupts are masked in each operation, so each is one step.
pub mod Types
pub mod Rings
pub mod Listed
pub mod Pick
pub mod Inv
pub mod Irq
pub mod Choice
pub mod Submit
pub mod Ops
mod Tests
use cool_frost.Prelude.{
  ℕ, zero, suc, ◌+◌, ◌-◌, ◌*◌, ◌/◌, ◌%◌, ◌^◌, ◌≤◌, ◌<◌, min, bit_and, bit_or, bit_xor, ◌≡◌, refl,
  sym, ap, ◌∙◌, ◌≢◌, ◌↔◌, ◌⊎◌, inl, inr, Bool, true, false, not, ◌&&◌, ◌||◌, Option, none, some,
  List, [], ◌∷◌, ◌++◌, map, arith, ltb, leb, ◌==◌, if◌then◌else◌, Bool-cases, Option-cases, length,
  get_elem?, get_or, set, take, drop, replicate, wrap8, wrap32, wrap64, sub32, sub64,
}
use cool_frost.Kmem.{Kheap, kmalloc, write_word}
use cool_frost.Sched.Types.{
  TaskState, free, ready, running, blocked, done, is_ready, is_running, is_reusable, max_tasks,
  task_stack_sz, max_user_tasks, user_stack_sz, prio_normal, prio_idle_lvl, prio_levels,
  prio_quantum, master_cr3_phys, Task, Queue, Layout, Sched, idle, update, set_task, closed_fd,
}

-- `rq_push` in one level
pub push : Queue → ℕ → Queue
push q t = if leb max_tasks q.size then q else record q {
  buf = update q.buf q.tail t;
  tail = (q.tail + 1) % max_tasks;
  size = q.size + 1;
}

-- `rq_pop` in one level; `none` is the null pointer
pub pop : Queue → Option ℕ × Queue
pop q =
    if q.size == 0
    then (none, q)
    else (some (q.buf q.head), record q { head = (q.head + 1) % max_tasks; size = q.size - 1 })

pub rq_push : Sched → ℕ → ℕ → Sched
rq_push s p t = record s { queues = update s.queues p (push (s.queues p) t) }

-- The loop of `sched_init` over the first `n` slots.
pub free_slots : ℕ → (ℕ → Task) → ℕ → Task
free_slots zero tasks = tasks
free_slots (suc n) tasks =
    let earlier = free_slots n tasks in
    update earlier n (record (earlier n) { state = free; id = none })

pub sched_init : Sched → Sched
sched_init s =
    let tasks = free_slots max_tasks s.tasks in
    record s {
      tasks = update tasks idle (record (tasks idle) {
        id = none;
        state = running;
        priority = prio_idle_lvl;
        stack = 0;
        timeslice = 0;
        quantum = 0;
        func = 0;
        arg = 0;
        cpu_id = some 0;
        name = b'i' ∷ b'd' ∷ b'l' ∷ b'e' ∷ [];
      });
      cur = idle;
    }

pub sched_run : Sched → Sched
sched_run s = record s { active = true }

pub sched_tick : Sched → Sched
sched_tick s = if s.active then record s { want_schedule = true } else s

-- "Re-queue the current task unless it's idle, done, or blocked". The first component says that
-- its quantum is not used up.
pub requeue : Sched → Bool × Sched
requeue s =
    let t = s.tasks s.cur in
    let timeslice = sub32 t.timeslice 1 in
    if not (s.cur == idle) && is_running t.state
    then if ltb 0 timeslice
      then (true, set_task s s.cur (record t { timeslice = timeslice }))
      else (
        false,
        rq_push (set_task s s.cur (record t { timeslice = t.quantum; state = ready })) t.priority
            s.cur,
      )
    else (false, s)

-- The loop that picks the highest level with a ready task, with `left` levels to look at.
pub pick : Sched → ℕ → ℕ → Option ℕ × Sched
pick s zero p = (none, s)
pick s (suc left) p =
    let (next, q) = pop (s.queues p) in
    let lower = pick s left (p + 1) in
    if ltb 0 (s.queues p).size then (next, record s { queues = update s.queues p q }) else lower

abbrev pub want_cr3 : Task → ℕ
want_cr3 t = if t.cr3 == 0 then master_cr3_phys else t.cr3

-- The switch to `next`, from another task.
pub switch_to : Sched → ℕ → ℕ × Sched
switch_to s next =
    let t = s.tasks next in
    (
      t.rsp,
      record s {
        rsp0 = if t.is_user then wrap64 (t.stack + task_stack_sz) else s.rsp0;
        loaded_cr3 = if want_cr3 t == s.loaded_cr3 then s.loaded_cr3 else want_cr3 t;
        cur = next;
        tasks = update s.tasks next (record t { state = running });
      },
    )

-- "fall back to idle if queues empty"
abbrev pub next_of : Option ℕ → ℕ
next_of none = idle
next_of (some t) = t

-- What `sched_irq_end` does once `next` is chosen.
pub resume : Sched → ℕ → ℕ → ℕ × Sched
unfolding switch_to
resume s next cur_rsp =
    if next == s.cur
    then (cur_rsp, set_task s s.cur (record (s.tasks s.cur) { state = running }))
    else switch_to s next

pub dispatch : Sched → ℕ → ℕ × Sched
dispatch s cur_rsp = let (picked, s') = pick s prio_levels 0 in resume s' (next_of picked) cur_rsp

-- the state in which the current task's stack pointer is saved
abbrev pub saved : Sched → ℕ → Sched
saved s cur_rsp = record s {
  want_schedule = false;
  tasks = update s.tasks s.cur (record (s.tasks s.cur) { rsp = cur_rsp });
}

pub sched_irq_end : Sched → ℕ → ℕ × Sched
sched_irq_end s cur_rsp =
    if not s.active || not s.want_schedule
    then (cur_rsp, s)
    else let (keep, s') = requeue (saved s cur_rsp) in
      if keep then (cur_rsp, s') else dispatch s' cur_rsp

pub sched_kill_current : Sched → Sched
sched_kill_current s =
    if s.cur == idle
    then s
    else record (set_task s s.cur (record (s.tasks s.cur) { state = done })) {
      want_schedule = true;
    }

pub sched_want_reschedule : Sched → Sched
sched_want_reschedule s =
    let t = s.tasks s.cur in
    record s {
      want_schedule = true;
      tasks =
          if not (s.cur == idle) && is_running t.state
          then update s.tasks s.cur (record t { timeslice = 1 })
          else s.tasks;
    }

-- `sched_yield`: the interrupt that follows ends in `sched_irq_end`.
pub sched_yield : Sched → ℕ → ℕ × Sched
sched_yield s cur_rsp = sched_irq_end (sched_want_reschedule s) cur_rsp

pub sched_exit : Sched → ℕ → ℕ × Sched
sched_exit s cur_rsp =
    sched_irq_end
      (record (set_task s s.cur (record (s.tasks s.cur) { state = done })) { want_schedule = true })
      cur_rsp

-- `sched_get_task`, for an index that is not negative
pub sched_get_task : Sched → ℕ → Option ℕ
sched_get_task s idx = if leb s.count idx then none else some idx
