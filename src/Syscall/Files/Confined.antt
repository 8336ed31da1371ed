-- ===== src/Syscall/Files/Confined.antt =====
-- The system calls of cpu/syscall.c on files write the user's memory alone.
use cool_frost.Prelude.{
  ℕ, ◌≡◌, refl, inl, inr, true, not, ◌||◌, arith, Bool-cases, Option-cases, wrap32, if_both,
}
use cool_frost.Paging.{Arena}
use cool_frost.Vfs.Types.{Drivers}
use cool_frost.Vfs.Files.{vfs_read, vfs_readdir, vfs_stat, vfs_fstat}
use cool_frost.Vfs.Files.Buffers.{IsBounded, length-vfs_read}
use cool_frost.Syscall.{
  Registers, Kernel, accepts, to_int, local_path, stat_bytes, dirent_bytes, length-stat_bytes,
  length-dirent_bytes,
}
use cool_frost.Syscall.Confined.{Confined, copy_to-Confined}
use cool_frost.Syscall.Files.{
  path_len, sys_open, sys_close, sys_read, sys_seek, sys_fwrite, sys_stat, sys_fstat, sys_readdir,
  sys_unlink, sys_rename,
}

module _ {W G : Type 0} (arena : Arena) (d : Drivers W) (pad : ℕ → ℕ) (k : Kernel W G) where
  abbrev Safe : ℕ × Kernel W G → Type 0
  Safe r = Confined arena k r.1.memory

  same : Confined arena k k.memory
  same a = inl refl

  pub sys_open-Confined : (r : Registers) → Safe (sys_open arena d pad k r)
  unfolding sys_open
  sys_open-Confined r = if_both Safe (accepts arena k r.rdi (path_len r.rsi)) same same

  pub sys_close-Confined : (r : Registers) → Safe (sys_close arena d pad k r)
  unfolding sys_close
  sys_close-Confined r = same

  pub sys_seek-Confined : (r : Registers) → Safe (sys_seek arena d pad k r)
  unfolding sys_seek
  sys_seek-Confined r = same

  pub sys_fwrite-Confined : (r : Registers) → Safe (sys_fwrite arena d pad k r)
  unfolding sys_fwrite
  sys_fwrite-Confined r = if_both Safe (accepts arena k r.rsi r.rdx) same same

  pub sys_unlink-Confined : (r : Registers) → Safe (sys_unlink arena d pad k r)
  unfolding sys_unlink
  sys_unlink-Confined r = if_both Safe (accepts arena k r.rdi (path_len r.rsi)) same same

  pub sys_rename-Confined : (r : Registers) → Safe (sys_rename arena d pad k r)
  unfolding sys_rename
  sys_rename-Confined r =
      if_both Safe
        (not (accepts arena k r.rdi (path_len r.rsi))
          || not (accepts arena k r.rdx (path_len r.r10)))
        same same

  pub sys_read-Confined : IsBounded d → (r : Registers) → Safe (sys_read arena d pad k r)
  unfolding sys_read
  sys_read-Confined v r = elim (Bool-cases (accepts arena k r.rsi r.rdx)) [
    | inr e ↦ rw (sys_read, e) same
    | inl e ↦
        rw (sys_read, e)
          (copy_to-Confined arena k r.rsi r.rdx (vfs_read d k.vfs (to_int r.rdi) r.rdx).1 k.memory e
            (length-vfs_read d v k.vfs (to_int r.rdi) r.rdx) same)
  ]

  pub sys_stat-Confined : (r : Registers) → Safe (sys_stat arena d pad k r)
  unfolding sys_stat
  sys_stat-Confined r =
      elim (Bool-cases
        (not (accepts arena k r.rdi (path_len r.rsi)) || not (accepts arena k r.rdx 16))) [
          | inl e ↦ rw (sys_stat, e) same
          | inr e ↦
              elim (Option-cases (vfs_stat d k.vfs (local_path arena k r.rdi (path_len r.rsi))).0) [
                | inl g ↦ rw (sys_stat, e, g) same
                | inr (st, g) ↦
                    let ok : accepts arena k r.rdx 16 ≡ true = ground arith in
                    rw (sys_stat, e, g)
                      (copy_to-Confined arena k r.rdx 16 (stat_bytes pad st) k.memory ok
                        (length-stat_bytes pad st) same)
              ]
        ]

  pub sys_fstat-Confined : (r : Registers) → Safe (sys_fstat arena d pad k r)
  unfolding sys_fstat
  sys_fstat-Confined r = elim (Bool-cases (accepts arena k r.rsi 16)) [
    | inr e ↦ rw (sys_fstat, e) same
    | inl e ↦ elim (Option-cases (vfs_fstat d k.vfs (to_int r.rdi))) [
      | inl g ↦ rw (sys_fstat, e, g) same
      | inr (st, g) ↦
          rw (sys_fstat, e, g)
            (copy_to-Confined arena k r.rsi 16 (stat_bytes pad st) k.memory e
              (length-stat_bytes pad st) same)
    ]
  ]

  pub sys_readdir-Confined : (r : Registers) → Safe (sys_readdir arena d pad k r)
  unfolding sys_readdir
  sys_readdir-Confined r = elim (Bool-cases (accepts arena k r.rdx 144)) [
    | inr e ↦ rw (sys_readdir, e) same
    | inl e ↦ elim (Option-cases (vfs_readdir d k.vfs (to_int r.rdi) (wrap32 r.rsi))) [
      | inl g ↦ rw (sys_readdir, e, g) same
      | inr (de, g) ↦
          rw (sys_readdir, e, g)
            (copy_to-Confined arena k r.rdx 144 (dirent_bytes pad de) k.memory e
              (length-dirent_bytes pad de) same)
    ]
  ]
