-- ===== src/Sched/Submit.antt =====
-- Submission in cpu/sched.c: the slot, the kernel stack and its first frame, in each of the three
-- ways to submit a task.
pub mod Slots
pub mod Outcome
use cool_frost.Prelude.{
  ℕ, zero, suc, ◌+◌, ◌-◌, ◌*◌, ◌/◌, ◌%◌, ◌^◌, ◌≤◌, ◌<◌, min, bit_and, bit_or, bit_xor, ◌≡◌, refl,
  sym, ap, ◌∙◌, ◌≢◌, ◌↔◌, ◌⊎◌, inl, inr, Bool, true, false, not, ◌&&◌, ◌||◌, Option, none, some,
  List, [], ◌∷◌, ◌++◌, map, arith, ltb, leb, ◌==◌, if◌then◌else◌, Bool-cases, Option-cases, length,
  get_elem?, get_or, set, take, drop, replicate, wrap8, wrap32, wrap64, sub32, sub64,
}
use cool_frost.Kmem.{Kheap, kmalloc, write_word}
use cool_frost.Sched.{rq_push}
use cool_frost.Sched.Types.{
  TaskState, free, ready, running, blocked, done, is_ready, is_running, is_reusable, max_tasks,
  task_stack_sz, max_user_tasks, user_stack_sz, prio_normal, prio_idle_lvl, prio_levels,
  prio_quantum, master_cr3_phys, Task, Queue, Layout, Sched, idle, update, set_task, closed_fd,
}

-- `*--sp = v;` for each of the values
pub push_words : (ℕ → ℕ) → ℕ → List ℕ → (ℕ → ℕ) × ℕ
push_words words sp [] = (words, sp)
push_words words sp (v ∷ vs) = push_words (write_word words (sub64 sp 8) v) (sub64 sp 8) vs

-- The values that `frame_build` pushes: the iretq frame, the error code and interrupt number, and
-- the registers from rax to r15.
abbrev pub frame : (rip cs ss target_rsp rdi_val rsi_val : ℕ) → List ℕ
frame rip cs ss target_rsp rdi_val rsi_val =
    ss ∷ target_rsp ∷ 0x202 ∷ cs ∷ rip ∷ 0 ∷ 0 ∷ 0 ∷ 0 ∷ 0 ∷ 0 ∷ rsi_val ∷ rdi_val ∷ 0 ∷ 0 ∷ 0 ∷ 0
    ∷ 0 ∷ 0 ∷ 0 ∷ 0 ∷ 0 ∷ []

pub frame_build : (ℕ → ℕ) → (kstack_top rip cs ss target_rsp rdi_val rsi_val : ℕ) → (ℕ → ℕ) × ℕ
frame_build words kstack_top rip cs ss target_rsp rdi_val rsi_val =
    push_words words kstack_top (frame rip cs ss target_rsp rdi_val rsi_val)

-- GDT_KERNEL_CS, GDT_KERNEL_DS, GDT_USER_CS | 3 and GDT_USER_DS | 3
abbrev pub kernel_cs : ℕ
kernel_cs = 0x08

abbrev pub kernel_ds : ℕ
kernel_ds = 0x10

abbrev pub user_cs : ℕ
user_cs = 0x23

abbrev pub user_ds : ℕ
user_ds = 0x2b

-- The frame is written to memory, and its address goes into the task.
pub with_frame : Sched → ℕ → (rip cs ss target_rsp rdi_val rsi_val : ℕ) → Sched
with_frame s i rip cs ss target_rsp rdi_val rsi_val =
    let t = s.tasks i in
    let (words, sp) =
      frame_build s.kheap.words (wrap64 (t.stack + task_stack_sz)) rip cs ss target_rsp rdi_val
        rsi_val in
    record s {
      tasks = update s.tasks i (record t { rsp = sp });
      kheap = record (s.kheap) { words = words };
    }

pub task_init_stack : Sched → ℕ → Sched
task_init_stack s i =
    with_frame s i s.layout.task_trampoline kernel_cs kernel_ds
      (wrap64 ((s.tasks i).stack + task_stack_sz)) 0 0

pub task_init_stack_user_as : Sched → ℕ → ℕ → Sched
task_init_stack_user_as s i ustack_top =
    with_frame s i s.layout.user_task_trampoline user_cs user_ds ustack_top (s.tasks i).func
      (s.tasks i).arg

pub task_init_stack_user : Sched → ℕ → Sched
task_init_stack_user s i =
    task_init_stack_user_as s i (wrap64 ((s.tasks i).user_stack + user_stack_sz))

-- The loop of `find_free_slot`, with `left` slots to look at from `i` on.
pub find_from : (ℕ → Task) → ℕ → ℕ → Option ℕ
find_from tasks zero i = none
find_from tasks (suc left) i =
    let later = find_from tasks left (i + 1) in
    if is_reusable (tasks i).state then some i else later

pub find_free_slot : Sched → Option ℕ × Sched
find_free_slot s = elim (find_from s.tasks s.count 0) [
  | some i ↦ (some i, s)
  | none ↦
      if leb max_tasks s.count then (none, s) else (some s.count, record s { count = s.count + 1 })
]

-- `task_set_name` copies at most 23 characters, up to the terminator. A name is its characters
-- before the terminator.
pub copy_name : ℕ → List ℕ → List ℕ
copy_name zero name = []
copy_name (suc n) [] = []
copy_name (suc n) (c ∷ name) = if c == 0 then [] else c ∷ copy_name n name

-- What differs between the three ways to submit a task.
pub record Spec : Type 0 where
  pub name : List ℕ
  pub func : ℕ
  pub arg : ℕ
  pub priority : ℕ
  pub is_user : Bool
  pub user_stack : ℕ
  pub cr3 : ℕ

-- The assignments to `*t` of the three `sched_submit_...` functions. `rsp` is set below.
abbrev pub fresh_task : Task → ℕ → ℕ → Spec → Task
fresh_task old slot stack spec = record {
  rsp = old.rsp;
  id = some slot;
  name = copy_name 23 spec.name;
  state = ready;
  priority = spec.priority;
  cpu_id = none;
  stack = stack;
  timeslice = prio_quantum spec.priority;
  quantum = prio_quantum spec.priority;
  func = spec.func;
  arg = spec.arg;
  is_user = spec.is_user;
  user_stack = spec.user_stack;
  cr3 = spec.cr3;
  fd_table = λ _. closed_fd;
  as_ptr = 0;
  heap_start = 0;
  heap_brk = 0;
  heap_end = 0;
}

-- `kmalloc(TASK_STACK_SZ, 16, 0)`
abbrev pub alloc_stack : Sched → Option ℕ × Sched
alloc_stack s =
    let (got, kheap) = kmalloc s.kheap task_stack_sz true in (got, record s { kheap = kheap })

pub sched_submit_prio : Sched → List ℕ → ℕ → ℕ → ℕ → Option ℕ × Sched
sched_submit_prio s name func arg priority =
    if func == 0 || leb prio_levels priority
    then (none, s)
    else let (found, s') = find_free_slot s in
      elim found [
        | none ↦ (none, s')
        | some slot ↦
            let (got, s'') = alloc_stack s' in
            elim got [
              | none ↦ (none, s'')
              | some stack ↦
                  let spec : Spec = record {
                    name = name;
                    func = func;
                    arg = arg;
                    priority = priority;
                    is_user = false;
                    user_stack = 0;
                    cr3 = 0;
                  } in
                  let made = set_task s'' slot (fresh_task (s''.tasks slot) slot stack spec) in
                  (some slot, rq_push (task_init_stack made slot) priority slot)
            ]
      ]

pub sched_submit : Sched → List ℕ → ℕ → ℕ → Option ℕ × Sched
unfolding sched_submit_prio
sched_submit s name func arg = sched_submit_prio s name func arg prio_normal

pub sched_submit_user : Sched → List ℕ → ℕ → ℕ → Option ℕ × Sched
sched_submit_user s name entry arg =
    if entry == 0 || leb max_user_tasks s.user_stack_next
    then (none, s)
    else let (found, s') = find_free_slot s in
      elim found [
        | none ↦ (none, s')
        | some slot ↦
            let (got, s'') = alloc_stack s' in
            elim got [
              | none ↦ (none, s'')
              | some stack ↦
                  let spec : Spec = record {
                    name = name;
                    func = entry;
                    arg = arg;
                    priority = prio_normal;
                    is_user = true;
                    user_stack = s.layout.user_stack_pool + s.user_stack_next * user_stack_sz;
                    cr3 = 0;
                  } in
                  let made =
                    record (set_task s'' slot (fresh_task (s''.tasks slot) slot stack spec)) {
                      user_stack_next = s''.user_stack_next + 1;
                    } in
                  (some slot, rq_push (task_init_stack_user made slot) prio_normal slot)
            ]
      ]

pub sched_submit_user_as : Sched → List ℕ → ℕ → ℕ → ℕ → ℕ → Option ℕ × Sched
sched_submit_user_as s name entry arg cr3 user_stack_top =
    if entry == 0 || cr3 == 0
    then (none, s)
    else let (found, s') = find_free_slot s in
      elim found [
        | none ↦ (none, s')
        | some slot ↦
            let (got, s'') = alloc_stack s' in
            elim got [
              | none ↦ (none, s'')
              | some stack ↦
                  let spec : Spec = record {
                    name = name;
                    func = entry;
                    arg = arg;
                    priority = prio_normal;
                    is_user = true;
                    user_stack = 0;
                    cr3 = cr3;
                  } in
                  let made = set_task s'' slot (fresh_task (s''.tasks slot) slot stack spec) in
                  (
                    some slot,
                    rq_push (task_init_stack_user_as made slot user_stack_top) prio_normal slot,
                  )
            ]
      ]
