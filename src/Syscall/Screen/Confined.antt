-- ===== src/Syscall/Screen/Confined.antt =====
-- The system calls of cpu/syscall.c on the screen write the user's memory alone.
use cool_frost.Prelude.{
  ℕ, zero, suc, ◌+◌, ◌*◌, ◌≤◌, ◌≡◌, refl, inl, inr, true, ◌&&◌, ◌||◌, arith, ltb, leb, ◌==◌,
  Bool-cases, Option-cases, length, take, wrap64, length-take, and_true, leb→le, ltb→lt, if_both,
}
use cool_frost.Paging.{Arena}
use cool_frost.Syscall.{Registers, Display, Kernel, accepts, copy_to}
use cool_frost.Syscall.Confined.{Confined}
use cool_frost.Syscall.Screen.{
  text_len, field, copy_glyphs, sys_gfx_present, sys_gfx_present_rect, sys_fb_info, sys_get_font,
  sys_gfx_fill_rect, sys_gfx_draw_text, sys_gfx_flush_rect, sys_write,
}

module _ {W G : Type 0} (arena : Arena) (v : Display G) (k : Kernel W G) where
  abbrev Safe : ℕ × Kernel W G → Type 0
  Safe r = Confined arena k r.1.memory

  same : Confined arena k k.memory
  same a = inl refl

  -- Every glyph goes inside the font's 4096 bytes.
  copy_glyphs-Confined :
      (dst : ℕ)
      → accepts arena k dst 4096 ≡ true
      → (n ch : ℕ) (memory : ℕ → ℕ) → n + ch ≤ 256
      → Confined arena k memory
      → Confined arena k (copy_glyphs v n ch dst memory)
  unfolding copy_glyphs
  copy_glyphs-Confined dst e zero ch memory le c = c
  copy_glyphs-Confined dst e (suc n) ch memory le c =
      copy_glyphs-Confined dst e n (ch + 1)
        (copy_to memory (dst + ch * 16) (take 16 (v.screen_glyph ch))) (omega arith)
        (λ a.
          elim (Bool-cases (
            leb (dst + ch * 16) a
            && ltb a (dst + ch * 16 + length (take 16 (v.screen_glyph ch))))) [
              | inr h ↦ rw h (c a)
              | inl h ↦
                  let short = length-take 16 (v.screen_glyph ch) in
                  let (low, high) =
                    and_true (leb (dst + ch * 16) a)
                      (ltb a (dst + ch * 16 + length (take 16 (v.screen_glyph ch)))) h in
                  let above = leb→le (dst + ch * 16) a low in
                  let below =
                    ltb→lt a (dst + ch * 16 + length (take 16 (v.screen_glyph ch))) high in
                  inr (record {
                    pointer = dst;
                    len = 4096;
                    accepted = e;
                    above = omega arith;
                    below = omega (arith, short);
                  })
            ])

  pub sys_get_font-Confined : (r : Registers) → Safe (sys_get_font arena v k r)
  unfolding sys_get_font
  sys_get_font-Confined r = elim (Bool-cases (accepts arena k r.rdi (256 * 16))) [
    | inr e ↦ rw (sys_get_font, e) same
    | inl e ↦ rw (sys_get_font, e) (copy_glyphs-Confined r.rdi e 256 0 k.memory (omega arith) same)
  ]

  pub sys_gfx_present-Confined : (r : Registers) → Safe (sys_gfx_present arena v k r)
  unfolding sys_gfx_present
  sys_gfx_present-Confined r = elim (Option-cases (v.gfx_screen k.screen)) [
    | inl e ↦ rw (sys_gfx_present, e) same
    | inr ((w, h), e) ↦
        rw (sys_gfx_present, e)
          (if_both Safe (accepts arena k r.rdi (wrap64 (w * h * 4))) same same)
  ]

  pub sys_gfx_present_rect-Confined : (r : Registers) → Safe (sys_gfx_present_rect arena v k r)
  unfolding sys_gfx_present_rect
  sys_gfx_present_rect-Confined r = elim (Option-cases (v.gfx_screen k.screen)) [
    | inl e ↦ rw (sys_gfx_present_rect, e) same
    | inr ((w, h), e) ↦
        rw (sys_gfx_present_rect, e)
          (if_both Safe
            (leb w (field r.rsi 48)
              || leb h (field r.rsi 32)
              || field r.rsi 16 == 0
              || field r.rsi 0 == 0)
            same (if_both Safe (accepts arena k r.rdi (wrap64 (w * h * 4))) same same))
  ]

  pub sys_fb_info-Confined : Safe (sys_fb_info arena v k)
  unfolding sys_fb_info
  sys_fb_info-Confined = elim (Option-cases (v.gfx_screen k.screen)) [
    | inl e ↦ rw (sys_fb_info, e) same
    | inr (size, e) ↦ rw (sys_fb_info, e) same
  ]

  pub sys_gfx_fill_rect-Confined : (r : Registers) → Safe (sys_gfx_fill_rect arena v k r)
  unfolding sys_gfx_fill_rect
  sys_gfx_fill_rect-Confined r = elim (Option-cases (v.gfx_screen k.screen)) [
    | inl e ↦ rw (sys_gfx_fill_rect, e) same
    | inr (size, e) ↦ rw (sys_gfx_fill_rect, e) same
  ]

  pub sys_gfx_draw_text-Confined : (r : Registers) → Safe (sys_gfx_draw_text arena v k r)
  unfolding sys_gfx_draw_text
  sys_gfx_draw_text-Confined r = elim (Option-cases (v.gfx_screen k.screen)) [
    | inl e ↦ rw (sys_gfx_draw_text, e) same
    | inr (size, e) ↦
        rw (sys_gfx_draw_text, e) (if_both Safe (accepts arena k r.rsi (text_len r.rdx)) same same)
  ]

  pub sys_gfx_flush_rect-Confined : (r : Registers) → Safe (sys_gfx_flush_rect arena v k r)
  unfolding sys_gfx_flush_rect
  sys_gfx_flush_rect-Confined r = elim (Option-cases (v.gfx_screen k.screen)) [
    | inl e ↦ rw (sys_gfx_flush_rect, e) same
    | inr (size, e) ↦ rw (sys_gfx_flush_rect, e) same
  ]

  pub sys_write-Confined : (r : Registers) → Safe (sys_write arena v k r)
  unfolding sys_write
  sys_write-Confined r = if_both Safe (accepts arena k r.rdi (text_len r.rsi)) same same
