-- ===== src/Syscall/Dispatch/Safety.antt =====
-- syscall_dispatch of cpu/syscall.c writes the user's memory alone.
use cool_frost.Prelude.{ℕ, ◌≡◌, refl, ◌⊎◌, inl, inr, Option-cases}
use cool_frost.Paging.{Arena}
use cool_frost.Vfs.Types.{Drivers}
use cool_frost.Vfs.Files.Buffers.{IsBounded}
use cool_frost.Syscall.{Registers, Display, Kernel}
use cool_frost.Syscall.Confined.{
  Confined, Covered, sys_exit-Confined, sys_yield-Confined, sys_get_ticks-Confined,
  sys_event_poll-Confined,
}
use cool_frost.Syscall.Files.Confined.{
  sys_open-Confined, sys_close-Confined, sys_read-Confined, sys_seek-Confined, sys_fwrite-Confined,
  sys_stat-Confined, sys_fstat-Confined, sys_readdir-Confined, sys_unlink-Confined,
  sys_rename-Confined,
}
use cool_frost.Syscall.Screen.Confined.{
  sys_gfx_present-Confined, sys_gfx_present_rect-Confined, sys_fb_info-Confined,
  sys_get_font-Confined, sys_gfx_fill_rect-Confined, sys_gfx_draw_text-Confined,
  sys_gfx_flush_rect-Confined, sys_write-Confined,
}
use cool_frost.Syscall.Sbrk.Break.{sys_sbrk-memory}
use cool_frost.Syscall.Dispatch.{
  Number, exit, yield, get_ticks, event_poll, gfx_present, fb_info, get_font, write,
  gfx_present_rect, open_file, close, read, seek, fwrite, stat, fstat, readdir, unlink, sbrk,
  rename, gfx_fill_rect, gfx_draw_text, gfx_flush_rect, number_of, call, syscall_dispatch,
}

module _ {W G : Type 0} (arena : Arena) (d : Drivers W) (v : Display G) (pad : ℕ → ℕ) where
  call-Confined :
      IsBounded d
      → (n : Number) (k : Kernel W G) (r : Registers)
      → Confined arena k (call arena d v pad n k r).1.memory
  unfolding call
  call-Confined b exit k r = sys_exit-Confined arena k
  call-Confined b yield k r = sys_yield-Confined arena k
  call-Confined b get_ticks k r = sys_get_ticks-Confined arena k
  call-Confined b event_poll k r = sys_event_poll-Confined arena k r
  call-Confined b gfx_present k r = sys_gfx_present-Confined arena v k r
  call-Confined b fb_info k r = sys_fb_info-Confined arena v k
  call-Confined b get_font k r = sys_get_font-Confined arena v k r
  call-Confined b write k r = sys_write-Confined arena v k r
  call-Confined b gfx_present_rect k r = sys_gfx_present_rect-Confined arena v k r
  call-Confined b open_file k r = sys_open-Confined arena d pad k r
  call-Confined b close k r = sys_close-Confined arena d pad k r
  call-Confined b read k r = sys_read-Confined arena d pad k b r
  call-Confined b seek k r = sys_seek-Confined arena d pad k r
  call-Confined b fwrite k r = sys_fwrite-Confined arena d pad k r
  call-Confined b stat k r = sys_stat-Confined arena d pad k r
  call-Confined b fstat k r = sys_fstat-Confined arena d pad k r
  call-Confined b readdir k r = sys_readdir-Confined arena d pad k r
  call-Confined b unlink k r = sys_unlink-Confined arena d pad k r
  call-Confined b sbrk k r = λ a. inl (sys_sbrk-memory k r a)
  call-Confined b rename k r = sys_rename-Confined arena d pad k r
  call-Confined b gfx_fill_rect k r = sys_gfx_fill_rect-Confined arena v k r
  call-Confined b gfx_draw_text k r = sys_gfx_draw_text-Confined arena v k r
  call-Confined b gfx_flush_rect k r = sys_gfx_flush_rect-Confined arena v k r

  -- Where no file system driver reads more bytes than it is asked for, a system call, whichever
  -- its number and arguments, leaves each byte of user memory as it was unless the byte lies in a
  -- range that is_user_range accepts in the state at entry.
  pub syscall_dispatch-Covered :
      IsBounded d
      → (k : Kernel W G) (r : Registers) (a : ℕ)
      → ((syscall_dispatch arena d v pad k r).1.memory a ≡ k.memory a) ⊎ Covered arena k a
  unfolding syscall_dispatch
  syscall_dispatch-Covered b k r a = elim (Option-cases (number_of r.rax)) [
    | inl e ↦ rw (syscall_dispatch, e) (inl refl)
    | inr (n, e) ↦ rw (syscall_dispatch, e) (call-Confined b n k r a)
  ]
