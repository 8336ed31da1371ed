-- ===== src/Syscall/Dispatch.antt =====
-- cpu/syscall.c: syscall_dispatch.
pub mod Safety
pub mod Refusal
use cool_frost.Prelude.{ℕ, Option, none, some, List, [], ◌∷◌, get_or}
use cool_frost.Paging.{Arena}
use cool_frost.Vfs.Types.{Drivers}
use cool_frost.Syscall.{
  Registers, Display, Kernel, failed, sys_exit, sys_yield, sys_get_ticks, sys_event_poll,
}
use cool_frost.Syscall.Files.{
  sys_open, sys_close, sys_read, sys_seek, sys_fwrite, sys_stat, sys_fstat, sys_readdir, sys_unlink,
  sys_rename,
}
use cool_frost.Syscall.Sbrk.{sys_sbrk}
use cool_frost.Syscall.Screen.{
  sys_gfx_present, sys_gfx_present_rect, sys_fb_info, sys_get_font, sys_gfx_fill_rect,
  sys_gfx_draw_text, sys_gfx_flush_rect, sys_write,
}

-- the numbers that have a case
pub data Number : Type 0 where
  exit yield get_ticks event_poll gfx_present fb_info get_font write gfx_present_rect : Number
  open_file close read seek fwrite stat fstat readdir unlink sbrk rename : Number
  gfx_fill_rect gfx_draw_text gfx_flush_rect : Number

-- the SYS_ constants in their order, with the reserved ones
abbrev pub numbers : List (Option Number)
numbers =
    some exit
    ∷ some yield
    ∷ some get_ticks
    ∷ some event_poll
    ∷ some gfx_present
    ∷ some fb_info
    ∷ some get_font
    ∷ some write
    ∷ some gfx_present_rect
    ∷ some open_file
    ∷ some close
    ∷ some read
    ∷ some seek
    ∷ some fwrite
    ∷ some stat
    ∷ some fstat
    ∷ some readdir
    ∷ some unlink
    ∷ some sbrk
    ∷ some rename
    ∷ some gfx_fill_rect
    ∷ some gfx_draw_text
    ∷ none
    ∷ none
    ∷ none
    ∷ none
    ∷ some gfx_flush_rect
    ∷ []

unfoldable pub number_of : ℕ → Option Number
number_of rax = get_or numbers rax none

module _ {W G : Type 0} (arena : Arena) (d : Drivers W) (v : Display G) (pad : ℕ → ℕ) where
  pub call : Number → Kernel W G → Registers → ℕ × Kernel W G
  call exit k r = sys_exit arena k
  call yield k r = sys_yield arena k
  call get_ticks k r = sys_get_ticks arena k
  call event_poll k r = sys_event_poll arena k r
  call gfx_present k r = sys_gfx_present arena v k r
  call fb_info k r = sys_fb_info arena v k
  call get_font k r = sys_get_font arena v k r
  call write k r = sys_write arena v k r
  call gfx_present_rect k r = sys_gfx_present_rect arena v k r
  call open_file k r = sys_open arena d pad k r
  call close k r = sys_close arena d pad k r
  call read k r = sys_read arena d pad k r
  call seek k r = sys_seek arena d pad k r
  call fwrite k r = sys_fwrite arena d pad k r
  call stat k r = sys_stat arena d pad k r
  call fstat k r = sys_fstat arena d pad k r
  call readdir k r = sys_readdir arena d pad k r
  call unlink k r = sys_unlink arena d pad k r
  call sbrk k r = sys_sbrk k r
  call rename k r = sys_rename arena d pad k r
  call gfx_fill_rect k r = sys_gfx_fill_rect arena v k r
  call gfx_draw_text k r = sys_gfx_draw_text arena v k r
  call gfx_flush_rect k r = sys_gfx_flush_rect arena v k r

  pub syscall_dispatch : Kernel W G → Registers → Registers × Kernel W G
  unfolding call
  syscall_dispatch k r = elim (number_of r.rax) [
    | none ↦ (record r { rax = failed }, k)
    | some n ↦ let (rax, k') = call n k r in (record r { rax = rax }, k')
  ]
