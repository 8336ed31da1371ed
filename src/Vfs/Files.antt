-- ===== src/Vfs/Files.antt =====
-- The operations of fs/vfs.c on open files and on names. The descriptors are those of the current
-- task; `none` of a test is an `int` error code.
pub mod Buffers
pub mod Table
use cool_frost.Prelude.{
  ℕ, zero, suc, ◌+◌, ◌-◌, ◌*◌, ◌/◌, ◌%◌, ◌^◌, ◌≤◌, ◌<◌, min, bit_and, bit_or, bit_xor, ◌≡◌, refl,
  sym, ap, ◌∙◌, ◌≢◌, ◌↔◌, ◌⊎◌, inl, inr, Bool, true, false, not, ◌&&◌, ◌||◌, Option, none, some,
  List, [], ◌∷◌, ◌++◌, map, arith, ltb, leb, ◌==◌, if◌then◌else◌, Bool-cases, Option-cases, length,
  get_elem?, get_or, set, take, drop, replicate, wrap8, wrap32, wrap64, sub32, sub64, ℤ, minus,
  is_positive, pos, magnitude, negsuc,
}
use cool_frost.Sched.Types.{FileDescriptor, Task, Sched, update, set_task}
use cool_frost.Vfs.Types.{
  max_fd, max_filename, o_create, o_append, Dirent, VfsStat, VfsNode, MountPoint, Drivers, Vfs,
}
use cool_frost.Vfs.{locate, walk_path, split_parent, resolve_path}

module _ {W : Type 0} where
  -- `fdt()`, the table of the current task
  abbrev pub fdt : Vfs W → ℕ → FileDescriptor
  fdt s = (s.sched.tasks s.sched.cur).fd_table

  -- a write to an entry of it
  abbrev pub set_fd : Vfs W → ℕ → FileDescriptor → Vfs W
  set_fd s i f =
      let t = s.sched.tasks s.sched.cur in
      record s {
        sched = set_task s.sched s.sched.cur (record t { fd_table = update t.fd_table i f });
      }

  -- `fd < 0 || fd >= MAX_FD || !fd_table[fd].active` is false: the index of an open descriptor
  pub open_fd : Vfs W → ℤ → Option ℕ
  open_fd s (negsuc n) = none
  open_fd s (pos i) = if ltb i max_fd && (fdt s i).active then some i else none

-- The loop over the descriptors of `vfs_open`, with `left` to look at.
unfoldable pub free_from : (ℕ → FileDescriptor) → (left i : ℕ) → Option ℕ
free_from table zero i = none
free_from table (suc left) i =
    let later = free_from table left (i + 1) in if (table i).active then later else some i

module _ {W : Type 0} (d : Drivers W) where
  -- the node that is opened, or the error code: `walk_path`, then O_CREATE
  unfoldable pub open_node : W → (root : ℕ) → (relpath : List ℕ) → (flags : ℕ) → ℕ × W
  unfolding walk_path split_parent
  open_node w root relpath flags =
      let (node, w') = walk_path d w root relpath in
      let ((parent, w''), name) = split_parent d w' root relpath in
      if not (node == 0)
      then (node, w')
      else if bit_and flags o_create == 0
      then (0, w')
      else if parent == 0 || not ((d.node w'' parent).has_create) || length name == 0
      then (0, w'')
      else d.create w'' parent name

  abbrev pub opened : W → (node flags : ℕ) → FileDescriptor
  opened w node flags = record {
    node = node;
    offset = if bit_and flags o_append == 0 then 0 else (d.node w node).size;
    flags = flags;
    active = true;
  }

  unfoldable pub vfs_open : Vfs W → List ℕ → (flags : ℕ) → ℤ × Vfs W
  unfolding open_node
  vfs_open s path flags = elim (locate s.mounts path) [
    | none ↦ (minus 1, s)
    | some (i, relpath) ↦
        let (node, w') = open_node s.world (s.mounts i).root relpath flags in
        let s' = record s { world = w' } in
        if node == 0 then (minus 2, s') else elim (free_from (fdt s') max_fd 0) [
          | none ↦ (minus 3, s')
          | some fd ↦ (pos fd, set_fd s' fd (opened w' node flags))
        ]
  ]

  pub vfs_close : Vfs W → ℤ → ℤ × Vfs W
  vfs_close s fd = elim (open_fd s fd) [
    | none ↦ (minus 1, s)
    | some i ↦ (pos 0, set_fd s i (record (fdt s i) { active = false; node = 0 }))
  ]

  -- `if (n > 0) fd_table[fd].offset += (uint64_t)n;`
  abbrev pub advance : FileDescriptor → ℤ → FileDescriptor
  advance f n = if is_positive n then record f { offset = wrap64 (f.offset + magnitude n) } else f

  -- the result, what is stored in the buffer, and the state
  pub vfs_read : Vfs W → ℤ → (size : ℕ) → ℤ × List ℕ × Vfs W
  vfs_read s fd size = elim (open_fd s fd) [
    | none ↦ (minus 1, [], s)
    | some i ↦
        let f = fdt s i in
        if f.node == 0 || not ((d.node s.world f.node).has_read)
        then (minus 1, [], s)
        else let (n, bytes, w') = d.read s.world f.node f.offset (wrap32 size) in
          (n, bytes, set_fd (record s { world = w' }) i (advance f n))
  ]

  pub vfs_seek : Vfs W → ℤ → (offset : ℕ) → ℤ × Vfs W
  vfs_seek s fd offset = elim (open_fd s fd) [
    | none ↦ (minus 1, s)
    | some i ↦ (pos 0, set_fd s i (record (fdt s i) { offset = offset }))
  ]

  pub vfs_write : Vfs W → ℤ → (buffer : List ℕ) → (size : ℕ) → ℤ × Vfs W
  vfs_write s fd buffer size = elim (open_fd s fd) [
    | none ↦ (minus 1, s)
    | some i ↦
        let f = fdt s i in
        if f.node == 0 || not ((d.node s.world f.node).has_write)
        then (minus 1, s)
        else let (n, w') = d.write s.world f.node f.offset (wrap32 size) buffer in
          (n, set_fd (record s { world = w' }) i (advance f n))
  ]

  pub vfs_readdir : Vfs W → ℤ → (index : ℕ) → Option Dirent
  vfs_readdir s fd index = elim (open_fd s fd) [
    | none ↦ none
    | some i ↦
        let node = (fdt s i).node in
        if node == 0 || not ((d.node s.world node).has_readdir)
        then none
        else d.readdir s.world node index
  ]

  abbrev pub stat_of : VfsNode → VfsStat
  stat_of n = record { size = n.size; inode = n.inode; kind = n.kind }

  pub vfs_stat : Vfs W → List ℕ → Option VfsStat × Vfs W
  vfs_stat s path =
      let (node, w') = resolve_path d s.mounts s.world path in
      (if node == 0 then none else some (stat_of (d.node w' node)), record s { world = w' })

  pub vfs_fstat : Vfs W → ℤ → Option VfsStat
  vfs_fstat s fd = elim (open_fd s fd) [
    | none ↦ none
    | some i ↦
        let node = (fdt s i).node in
        if node == 0 then none else some (stat_of (d.node s.world node))
  ]

  pub vfs_unlink : Vfs W → List ℕ → ℤ × Vfs W
  vfs_unlink s path = elim (locate s.mounts path) [
    | none ↦ (minus 1, s)
    | some (i, relpath) ↦
        let ((parent, w'), name) = split_parent d s.world (s.mounts i).root relpath in
        if parent == 0 || not ((d.node w' parent).has_unlink) || length name == 0
        then (minus 2, record s { world = w' })
        else let (n, w'') = d.unlink w' parent name in (n, record s { world = w'' })
  ]

  -- what `vfs_rename` does on one mount
  pub rename_on : W → (root : ℕ) → (old_rel new_rel : List ℕ) → ℤ × W
  rename_on w root old_rel new_rel =
      let ((old_dir, w'), old_name) = split_parent d w root old_rel in
      let ((new_dir, w''), new_name) = split_parent d w' root new_rel in
      if old_dir == 0
        || new_dir == 0
        || not ((d.node w'' old_dir).has_rename)
        || length old_name == 0
        || length new_name == 0
      then (minus 2, w'')
      else d.rename w'' old_dir old_name new_dir new_name

  pub vfs_rename : Vfs W → (old_path new_path : List ℕ) → ℤ × Vfs W
  unfolding rename_on
  vfs_rename s old_path new_path = elim (locate s.mounts old_path) [
    | none ↦ (minus 1, s)
    | some (old_mp, old_rel) ↦ elim (locate s.mounts new_path) [
      | none ↦ (minus 1, s)
      | some (new_mp, new_rel) ↦
          if old_mp == new_mp
          then (let (n, w') = rename_on s.world (s.mounts old_mp).root old_rel new_rel in
              (n, record s { world = w' }))
          else (minus 1, s)
    ]
  ]
