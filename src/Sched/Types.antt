-- ===== src/Sched/Types.antt =====
-- The data of cpu/sched.h and the tables of cpu/sched.c.
use cool_frost.Prelude.{ℕ, Bool, true, false, Option, List, ◌==◌, if◌then◌else◌}
use cool_frost.Kmem.{Kheap}

-- `task_state_t`
pub data TaskState : Type 0 where
  free ready running blocked done : TaskState

abbrev pub is_ready : TaskState → Bool
is_ready ready = true
is_ready _ = false

abbrev pub is_running : TaskState → Bool
is_running running = true
is_running _ = false

-- a slot that `find_free_slot` may reuse
abbrev pub is_reusable : TaskState → Bool
is_reusable free = true
is_reusable done = true
is_reusable _ = false

abbrev pub max_tasks : ℕ
max_tasks = 32

abbrev pub task_stack_sz : ℕ
task_stack_sz = 8192

abbrev pub max_user_tasks : ℕ
max_user_tasks = 8

abbrev pub user_stack_sz : ℕ
user_stack_sz = 65536

abbrev pub prio_normal : ℕ
prio_normal = 2

abbrev pub prio_idle_lvl : ℕ
prio_idle_lvl = 3

abbrev pub prio_levels : ℕ
prio_levels = 4

-- `prio_quantum`
abbrev pub prio_quantum : ℕ → ℕ
prio_quantum p = if p == 0 then 5 else if p == 1 then 10 else if p == 2 then 20 else 50

abbrev pub master_cr3_phys : ℕ
master_cr3_phys = 0x1000

-- `file_descriptor_t` of fs/vfs.h; `node` is the address of the `vfs_node_t`
pub record FileDescriptor : Type 0 where
  pub node : ℕ
  pub offset : ℕ
  pub flags : ℕ
  pub active : Bool

-- an entry of a table that `memset` cleared
abbrev pub closed_fd : FileDescriptor
closed_fd = record { node = 0; offset = 0; flags = 0; active = false }

-- `task_t`. An `int` that is -1 or an index is an option; a pointer is its address, 0 for null.
pub record Task : Type 0 where
  pub rsp : ℕ
  pub id : Option ℕ
  pub name : List ℕ
  pub state : TaskState
  pub priority : ℕ
  pub cpu_id : Option ℕ
  pub stack : ℕ
  pub timeslice : ℕ
  pub quantum : ℕ
  pub func : ℕ
  pub arg : ℕ
  pub is_user : Bool
  pub user_stack : ℕ
  pub cr3 : ℕ
  pub fd_table : ℕ → FileDescriptor
  pub as_ptr : ℕ
  pub heap_start : ℕ
  pub heap_brk : ℕ
  pub heap_end : ℕ

-- `rq_buf[p]`, `rq_head[p]`, `rq_tail[p]` and `rq_size[p]`
pub record Queue : Type 0 where
  pub buf : ℕ → ℕ
  pub head : ℕ
  pub tail : ℕ
  pub size : ℕ

-- Addresses that the linker fixes.
pub record Layout : Type 0 where
  pub task_trampoline : ℕ
  pub user_task_trampoline : ℕ
  pub user_stack_pool : ℕ

-- The static variables of cpu/sched.c, TSS.RSP0, and the kernel heap with the words in memory.
-- A `task_t *` is the task's index in `task_pool`, and `max_tasks`, one past it, for `&idle_task`:
-- `tasks` holds the pool and, there, the idle task.
pub record Sched : Type 0 where
  pub tasks : ℕ → Task
  pub count : ℕ
  pub queues : ℕ → Queue
  pub cur : ℕ
  pub want_schedule : Bool
  pub active : Bool
  pub loaded_cr3 : ℕ
  pub user_stack_next : ℕ
  pub rsp0 : ℕ
  pub kheap : Kheap
  pub layout : Layout

abbrev pub idle : ℕ
idle = max_tasks

-- an array with the entry at `i` replaced
abbrev pub update {ℓ} : {A : Type ℓ} → (ℕ → A) → ℕ → A → ℕ → A
update f i a j = if j == i then a else f j

abbrev pub set_task : Sched → ℕ → Task → Sched
set_task s i t = record s { tasks = update s.tasks i t }
