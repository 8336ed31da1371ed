-- ===== src/Syscall/Screen/Refusal.antt =====
-- The system calls of cpu/syscall.c on the screen with a pointer that the check refuses.
use cool_frost.Prelude.{◌≡◌, refl, inl, inr, false, Option-cases}
use cool_frost.Paging.{Arena}
use cool_frost.Syscall.{Registers, Display, Kernel, accepts, failed}
use cool_frost.Syscall.Screen.{text_len, sys_get_font, sys_gfx_draw_text, sys_write}

module _ {W G : Type 0} (arena : Arena) (v : Display G) (k : Kernel W G) (r : Registers) where
  pub sys_get_font-failed :
      accepts arena k r.rdi 4096 ≡ false → sys_get_font arena v k r ≡ (failed, k)
  unfolding sys_get_font
  sys_get_font-failed e = rw (sys_get_font, e) refl

  pub sys_write-failed :
      accepts arena k r.rdi (text_len r.rsi) ≡ false → sys_write arena v k r ≡ (failed, k)
  unfolding sys_write
  sys_write-failed e = rw (sys_write, e) refl

  pub sys_gfx_draw_text-failed :
      accepts arena k r.rsi (text_len r.rdx) ≡ false → sys_gfx_draw_text arena v k r ≡ (failed, k)
  unfolding sys_gfx_draw_text
  sys_gfx_draw_text-failed e = elim (Option-cases (v.gfx_screen k.screen)) [
    | inl g ↦ rw (sys_gfx_draw_text, g) refl
    | inr (size, g) ↦ rw (sys_gfx_draw_text, g, e) refl
  ]
