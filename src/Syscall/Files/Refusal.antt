-- ===== src/Syscall/Files/Refusal.antt =====
-- The system calls of cpu/syscall.c on files with a pointer that the check refuses.
use cool_frost.Prelude.{ℕ, ◌≡◌, refl, true, false, not, ◌&&◌, ◌||◌, arith}
use cool_frost.Paging.{Arena}
use cool_frost.Vfs.Types.{Drivers}
use cool_frost.Syscall.{Registers, Kernel, accepts, failed}
use cool_frost.Syscall.Files.{
  path_len, sys_open, sys_read, sys_fwrite, sys_fstat, sys_readdir, sys_unlink, sys_stat,
  sys_rename,
}

module _ {W G : Type 0} (arena : Arena) (d : Drivers W) (pad : ℕ → ℕ) (k : Kernel W G)
    (r : Registers) where
  pub sys_open-failed :
      accepts arena k r.rdi (path_len r.rsi) ≡ false → sys_open arena d pad k r ≡ (failed, k)
  unfolding sys_open
  sys_open-failed e = rw (sys_open, e) refl

  pub sys_read-failed : accepts arena k r.rsi r.rdx ≡ false → sys_read arena d pad k r ≡ (failed, k)
  unfolding sys_read
  sys_read-failed e = rw (sys_read, e) refl

  pub sys_fwrite-failed :
      accepts arena k r.rsi r.rdx ≡ false → sys_fwrite arena d pad k r ≡ (failed, k)
  unfolding sys_fwrite
  sys_fwrite-failed e = rw (sys_fwrite, e) refl

  pub sys_fstat-failed : accepts arena k r.rsi 16 ≡ false → sys_fstat arena d pad k r ≡ (failed, k)
  unfolding sys_fstat
  sys_fstat-failed e = rw (sys_fstat, e) refl

  pub sys_readdir-failed :
      accepts arena k r.rdx 144 ≡ false → sys_readdir arena d pad k r ≡ (failed, k)
  unfolding sys_readdir
  sys_readdir-failed e = rw (sys_readdir, e) refl

  pub sys_unlink-failed :
      accepts arena k r.rdi (path_len r.rsi) ≡ false → sys_unlink arena d pad k r ≡ (failed, k)
  unfolding sys_unlink
  sys_unlink-failed e = rw (sys_unlink, e) refl

  pub sys_stat-failed :
      (accepts arena k r.rdi (path_len r.rsi) && accepts arena k r.rdx 16) ≡ false
      → sys_stat arena d pad k r ≡ (failed, k)
  unfolding sys_stat
  sys_stat-failed e =
      let h : (not (accepts arena k r.rdi (path_len r.rsi)) || not (accepts arena k r.rdx 16))
          ≡ true =
        ground arith in
      rw (sys_stat, h) refl

  pub sys_rename-failed :
      (accepts arena k r.rdi (path_len r.rsi) && accepts arena k r.rdx (path_len r.r10)) ≡ false
      → sys_rename arena d pad k r ≡ (failed, k)
  unfolding sys_rename
  sys_rename-failed e =
      let h : (not (accepts arena k r.rdi (path_len r.rsi))
            || not (accepts arena k r.rdx (path_len r.r10)))
          ≡ true =
        ground arith in
      rw (sys_rename, h) refl
