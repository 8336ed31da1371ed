-- ===== src/Vfs/Tests.antt =====
-- A directory `d` with a file `f` on a mount at `/m`, and the theorems at it.
use cool_frost.Prelude.{
  ℕ, ◌≤◌, ◌<◌, ◌≡◌, refl, ap, ◌≢◌, ◌⊎◌, inl, inr, Bool, true, false, ◌&&◌, ◌||◌, none, some, List,
  [], ◌∷◌, arith, ◌==◌, if◌then◌else◌, Bool-cases, length, drop, pos, minus,
}
use cool_frost.Sched.Types.{FileDescriptor, Task, idle, closed_fd, running}
use cool_frost.Vfs.Types.{VfsNode, MountPoint, Drivers, Vfs, ata, max_fd, max_mounts}
use cool_frost.Vfs.{
  prefix_match, is_better, best_mount, skip_slash, find_mount, locate, skip_slashes, take_component,
  walk, walk_path, split_last, split_parent,
}
use cool_frost.Vfs.Longest.{Covers, find_mount_lem}
use cool_frost.Vfs.Walk.{IsName, Spells, finish, name, find_all, walk-total, walk_path-find_all}
use cool_frost.Vfs.Parent.{split_parent-walk_path}
use cool_frost.Vfs.Files.{fdt, free_from, open_node, vfs_open, vfs_close, vfs_seek}
use cool_frost.Vfs.Files.Table.{
  Opened, vfs_open-Opened, do_seek, Touches, FdOp-Touches, vfs_close-vfs_open,
}
use cool_frost.Vfs.Mounts.{no_mount, mount_gpt, vfs_umount, mounted_from, same_path}
use cool_frost.Vfs.Mounts.Slots.{OneSlot, gpt, MountCall-OneSlot}
use cool_frost.Vfs.Mounts.Unmount.{Under, Ends, null, parent, IsTask, vfs_umount_lem}

-- The root is node 1, `d` node 2 and `f` node 3.
abbrev tree : ℕ → VfsNode
tree n = record {
  kind = 1;
  size = 10;
  inode = n;
  has_read = n == 3;
  has_write = false;
  has_readdir = false;
  has_finddir = n == 1 || n == 2;
  has_create = false;
  has_unlink = false;
  has_rename = false;
  parent = if n == 3 then 2 else if n == 2 then 1 else 0;
}

abbrev child : ℕ → List ℕ → ℕ
child n [] = 0
child n (c ∷ rest) = if n == 1 && c == b'd' then 2 else if n == 2 && c == b'f' then 3 else 0

abbrev pub drivers : Drivers ℕ
drivers = record {
  node = λ w n. tree n;
  finddir = λ w n path. (child n path, w);
  create = λ w n path. (0, w);
  read = λ w n offset size. (pos size, [], w);
  write = λ w n offset size buffer. (minus 1, w);
  readdir = λ w n index. none;
  unlink = λ w n path. (minus 1, w);
  rename = λ w n path m new. (minus 1, w);
  read_partitions = λ w drive. none;
  blk_read = λ w type drive lba. none;
  fat32_mount = λ w type drive lba m. (pos 0, m, w);
  ext2_mount = λ w type drive lba m. (pos 0, m, w);
  ntfs_mount = λ w type drive lba m. (pos 0, m, w);
  xfs_mount = λ w type drive lba m. (pos 0, m, w);
  fat32_defrag = λ w n. (pos 0, w);
  ext2_defrag = λ w n. (pos 0, w);
}

abbrev mount_m : MountPoint
mount_m = record no_mount { path = b'/' ∷ b'm' ∷ []; root = 1; active = true }

abbrev mounts : ℕ → MountPoint
mounts i = if i == 0 then mount_m else no_mount

abbrev a_task : Task
a_task = record {
  rsp = 0;
  id = none;
  name = [];
  state = running;
  priority = 3;
  cpu_id = none;
  stack = 0;
  timeslice = 0;
  quantum = 0;
  func = 0;
  arg = 0;
  is_user = false;
  user_stack = 0;
  cr3 = 0;
  fd_table = λ _. closed_fd;
  as_ptr = 0;
  heap_start = 0;
  heap_brk = 0;
  heap_end = 0;
}

abbrev one_mount : Vfs ℕ
one_mount = record {
  mounts = mounts;
  sched = record {
    tasks = λ _. a_task;
    count = 0;
    queues = λ _. record { buf = λ _. 0; head = 0; tail = 0; size = 0 };
    cur = idle;
    want_schedule = false;
    active = false;
    loaded_cr3 = 0x1000;
    user_stack_next = 0;
    rsp0 = 0;
    kheap = record { ready = false; blocks = []; area = 0x100000; words = λ _. 0 };
    layout = record { task_trampoline = 1; user_task_trampoline = 2; user_stack_pool = 3 };
  };
  world = 0;
}

abbrev file_path : List ℕ
file_path = b'/' ∷ b'm' ∷ b'/' ∷ b'd' ∷ b'/' ∷ b'f' ∷ []

file_is_3 : walk_path drivers 0 1 (b'd' ∷ b'/' ∷ b'f' ∷ []) ≡ (3, 0)
unfolding walk_path walk skip_slashes take_component
file_is_3 = refl

opens_at_0 : (vfs_open drivers one_mount file_path 1).0 ≡ pos 0
unfolding vfs_open open_node walk_path walk skip_slashes take_component locate find_mount best_mount
    is_better prefix_match free_from split_parent split_last
opens_at_0 = refl

no_such_mount : (vfs_open drivers one_mount (b'/' ∷ b'x' ∷ []) 1).0 ≡ minus 1
unfolding vfs_open locate find_mount best_mount is_better prefix_match
no_such_mount = refl

find_mount_lem_example :
    ((find_mount mounts file_path ≡ none)
      × ((j : ℕ) → j < max_mounts → ¬ Covers (mounts j) file_path))
    ⊎ ((i : ℕ) × (find_mount mounts file_path
          ≡ some (i, skip_slash (drop (length (mounts i).path) file_path)))
        × (i < max_mounts)
        × Covers (mounts i) file_path
        × ((j : ℕ)
            → j < max_mounts
            → Covers (mounts j) file_path
            → length (mounts j).path ≤ length (mounts i).path))
find_mount_lem_example = find_mount_lem mounts file_path

d-IsName : IsName (b'd' ∷ [])
d-IsName = record { nonempty = omega arith; fits = omega arith; no_slash = (λ e. omega arith, _) }

f-IsName : IsName (b'f' ∷ [])
f-IsName = record { nonempty = omega arith; fits = omega arith; no_slash = (λ e. omega arith, _) }

d-Spells : Spells (b'd' ∷ []) ((b'd' ∷ []) ∷ [])
d-Spells = name d-IsName refl finish

walk_path-find_all_example :
    walk_path drivers 0 1 (b'd' ∷ []) ≡ find_all drivers 0 1 ((b'd' ∷ []) ∷ [])
walk_path-find_all_example = walk_path-find_all drivers 0 1 d-Spells

walk-total_example : (r : ℕ × ℕ) × (walk drivers 3 0 1 (b'd' ∷ b'/' ∷ []) ≡ some r)
walk-total_example = walk-total drivers 3 0 1 (b'd' ∷ b'/' ∷ []) (omega arith)

split_parent-walk_path_example :
    let ((up, w'), last) = split_parent drivers 0 1 (b'd' ∷ b'/' ∷ b'f' ∷ []) in
    (last ≡ b'f' ∷ [])
    × ((up, w') ≡ walk_path drivers 0 1 (b'd' ∷ []))
    × (up ≢ 0
        → walk_path drivers 0 1 (b'd' ∷ b'/' ∷ b'f' ∷ [])
          ≡ find_all drivers w' up ((b'f' ∷ []) ∷ []))
split_parent-walk_path_example =
    split_parent-walk_path drivers 0 1 (b'd' ∷ []) ((b'd' ∷ []) ∷ []) (b'f' ∷ []) d-Spells f-IsName
      (omega arith)

vfs_open-Opened_example :
    Opened one_mount 1
      (vfs_open drivers one_mount file_path 1).0
      (vfs_open drivers one_mount file_path 1).1
vfs_open-Opened_example = vfs_open-Opened drivers one_mount file_path 1

abbrev with_file : Vfs ℕ
with_file = (vfs_open drivers one_mount file_path 1).1

FdOp-Touches_example : Touches drivers with_file (pos 0) (vfs_seek drivers with_file (pos 0) 5).1
FdOp-Touches_example = FdOp-Touches drivers (do_seek 5)

vfs_close-vfs_open_example :
    let (r, s'') = vfs_close drivers with_file (pos 0) in
    (r ≡ pos 0) × ((fdt s'' 0).active ≡ false) × ((j : ℕ) → j ≢ 0 → fdt s'' j ≡ fdt one_mount j)
vfs_close-vfs_open_example = vfs_close-vfs_open drivers one_mount file_path 1 0 opened_with_file
  where
    opened_with_file : vfs_open drivers one_mount file_path 1 ≡ (pos 0, with_file)
    opened_with_file = ap (λ r. (r, with_file)) opens_at_0

MountCall-OneSlot_example :
    OneSlot one_mount
      (mount_gpt drivers ata one_mount 0 2048 100 (b'/' ∷ b'n' ∷ [])).0
      (mount_gpt drivers ata one_mount 0 2048 100 (b'/' ∷ b'n' ∷ [])).1
MountCall-OneSlot_example = MountCall-OneSlot drivers (gpt ata 0 2048 100 (b'/' ∷ b'n' ∷ []))

abbrev file_fd : FileDescriptor
file_fd = record { node = 3; offset = 0; flags = 1; active = true }

-- every task has the file open as its descriptor 0
abbrev pub all_open : Vfs ℕ
all_open = record one_mount {
  sched = record (one_mount.sched) {
    tasks = λ _. record a_task { fd_table = λ f. if f == 0 then file_fd else closed_fd };
  };
}

unmounted : Vfs ℕ
unmounted = (vfs_umount drivers 3 all_open (b'/' ∷ b'm' ∷ [])).1

umount_works : vfs_umount drivers 3 all_open (b'/' ∷ b'm' ∷ []) ≡ (pos 0, unmounted)
unfolding vfs_umount mounted_from same_path unmounted
umount_works = refl

vfs_umount_lem_example :
    (i : ℕ) × ((all_open.mounts i).active ≡ true)
    × (b'/' ∷ b'm' ∷ [] ≡ (all_open.mounts i).path)
    × ((unmounted.mounts i).active ≡ false)
    × ((t f : ℕ)
        → IsTask all_open.sched t
        → f < max_fd
        → ((unmounted.sched.tasks t).fd_table f).active ≡ true
        → ¬ Under drivers 0 ((all_open.mounts i).root) ((unmounted.sched.tasks t).fd_table f).node)
    × ((t f : ℕ)
        → ¬ Under drivers 0 ((all_open.mounts i).root) ((all_open.sched.tasks t).fd_table f).node
        → (unmounted.sched.tasks t).fd_table f ≡ (all_open.sched.tasks t).fd_table f)
vfs_umount_lem_example =
    vfs_umount_lem drivers 3 all_open (b'/' ∷ b'm' ∷ []) (λ t f _ _ _. ends (f == 0)) roots
      umount_works
  where
    ends : (b : Bool) → Ends drivers 0 3 (if b then file_fd else closed_fd).node
    ends true = parent (parent (parent null))
    ends false = null

    roots : (i : ℕ) → i < max_mounts → (mounts i).active ≡ true → (mounts i).root ≢ 0
    roots i lt on = elim (Bool-cases (i == 0)) [
      | inl e ↦ rw e (λ z. omega arith)
      | inr e ↦ absurd (ground (arith, e, on))
    ]
