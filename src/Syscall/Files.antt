-- ===== src/Syscall/Files.antt =====
-- cpu/syscall.c: the system calls on files.
pub mod Confined
pub mod Refusal
use cool_frost.Prelude.{
  ℕ, zero, suc, ◌-◌, not, ◌||◌, none, some, ltb, if◌then◌else◌, wrap8, wrap32, ℤ, pos, negsuc,
}
use cool_frost.Paging.{Arena}
use cool_frost.Vfs.Types.{Drivers, max_path}
use cool_frost.Vfs.Files.{
  vfs_open, vfs_close, vfs_read, vfs_seek, vfs_write, vfs_readdir, vfs_stat, vfs_fstat, vfs_unlink,
  vfs_rename,
}
use cool_frost.Syscall.{
  Registers, Kernel, accepts, local_path, failed, sign_extend, to_int, load, copy_to, stat_bytes,
  dirent_bytes,
}

-- `if (len > MAX_PATH - 1) len = MAX_PATH - 1;`
abbrev pub path_len : ℕ → ℕ
path_len len = if ltb (max_path - 1) len then max_path - 1 else len

-- 0, or (uint64_t)-1 for any other result
abbrev pub zero_or_failed : ℤ → ℕ
zero_or_failed (pos zero) = 0
zero_or_failed (pos (suc n)) = failed
zero_or_failed (negsuc n) = failed

module _ {W G : Type 0} (arena : Arena) (d : Drivers W) (pad : ℕ → ℕ) where
  pub sys_open : Kernel W G → Registers → ℕ × Kernel W G
  sys_open k r =
      let len = path_len r.rsi in
      if accepts arena k r.rdi len
      then (let (n, vfs) = vfs_open d k.vfs (local_path arena k r.rdi len) (wrap8 r.rdx) in
          (sign_extend n, record k { vfs = vfs }))
      else (failed, k)

  pub sys_close : Kernel W G → Registers → ℕ × Kernel W G
  sys_close k r =
      let (n, vfs) = vfs_close d k.vfs (to_int r.rdi) in (sign_extend n, record k { vfs = vfs })

  pub sys_read : Kernel W G → Registers → ℕ × Kernel W G
  sys_read k r =
      if accepts arena k r.rsi r.rdx
      then (let (n, bytes, vfs) = vfs_read d k.vfs (to_int r.rdi) r.rdx in
          (sign_extend n, record k { vfs = vfs; memory = copy_to k.memory r.rsi bytes }))
      else (failed, k)

  pub sys_seek : Kernel W G → Registers → ℕ × Kernel W G
  sys_seek k r =
      let (n, vfs) = vfs_seek d k.vfs (to_int r.rdi) r.rsi in
      (sign_extend n, record k { vfs = vfs })

  pub sys_fwrite : Kernel W G → Registers → ℕ × Kernel W G
  sys_fwrite k r =
      if accepts arena k r.rsi r.rdx
      then (let (n, vfs) = vfs_write d k.vfs (to_int r.rdi) (load k.memory r.rsi r.rdx) r.rdx in
          (sign_extend n, record k { vfs = vfs }))
      else (failed, k)

  pub sys_stat : Kernel W G → Registers → ℕ × Kernel W G
  sys_stat k r =
      let len = path_len r.rsi in
      if not (accepts arena k r.rdi len) || not (accepts arena k r.rdx 16)
      then (failed, k)
      else let (st, vfs) = vfs_stat d k.vfs (local_path arena k r.rdi len) in
        elim st [
          | none ↦ (failed, record k { vfs = vfs })
          | some st ↦
              (0, record k { vfs = vfs; memory = copy_to k.memory r.rdx (stat_bytes pad st) })
        ]

  pub sys_fstat : Kernel W G → Registers → ℕ × Kernel W G
  sys_fstat k r =
      if accepts arena k r.rsi 16
      then elim (vfs_fstat d k.vfs (to_int r.rdi)) [
        | none ↦ (failed, k)
        | some st ↦ (0, record k { memory = copy_to k.memory r.rsi (stat_bytes pad st) })
      ]
      else (failed, k)

  pub sys_readdir : Kernel W G → Registers → ℕ × Kernel W G
  sys_readdir k r =
      if accepts arena k r.rdx 144
      then elim (vfs_readdir d k.vfs (to_int r.rdi) (wrap32 r.rsi)) [
        | none ↦ (failed, k)
        | some de ↦ (0, record k { memory = copy_to k.memory r.rdx (dirent_bytes pad de) })
      ]
      else (failed, k)

  pub sys_unlink : Kernel W G → Registers → ℕ × Kernel W G
  sys_unlink k r =
      let len = path_len r.rsi in
      if accepts arena k r.rdi len
      then (let (n, vfs) = vfs_unlink d k.vfs (local_path arena k r.rdi len) in
          (zero_or_failed n, record k { vfs = vfs }))
      else (failed, k)

  pub sys_rename : Kernel W G → Registers → ℕ × Kernel W G
  sys_rename k r =
      let old_len = path_len r.rsi in
      let new_len = path_len r.r10 in
      if not (accepts arena k r.rdi old_len) || not (accepts arena k r.rdx new_len)
      then (failed, k)
      else let (n, vfs) =
          vfs_rename d k.vfs (local_path arena k r.rdi old_len)
            (local_path arena k r.rdx new_len) in
        (zero_or_failed n, record k { vfs = vfs })
