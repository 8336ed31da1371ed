-- ===== src/Syscall/Screen.antt =====
-- cpu/syscall.c: the system calls on the screen.
pub mod Confined
pub mod Refusal
use cool_frost.Prelude.{
  ℕ, zero, suc, ◌+◌, ◌-◌, ◌*◌, ◌/◌, ◌%◌, ◌^◌, bit_or, ◌||◌, none, some, ltb, leb, ◌==◌,
  if◌then◌else◌, take, wrap32, wrap64,
}
use cool_frost.Paging.{Arena}
use cool_frost.Syscall.{Registers, Display, Kernel, accepts, local_path, failed, load, copy_to}

-- a 16-bit field of a packed register
abbrev pub field : (r shift : ℕ) → ℕ
field r shift = r / 2 ^ shift % 2 ^ 16

-- the part of a length that is on the screen
abbrev pub clip : (start len bound : ℕ) → ℕ
clip start len bound = if ltb bound (start + len) then bound - start else len

-- `if (len > 256) len = 256;`
abbrev pub text_len : ℕ → ℕ
text_len len = if ltb 256 len then 256 else len

module _ {G : Type 0} (v : Display G) where
  -- the loop over the rows of a rectangle, with `n` rows from `y` on
  pub copy_rows : (ℕ → ℕ) → (src width x w : ℕ) → (n y : ℕ) → G → G
  copy_rows memory src width x w zero y g = g
  copy_rows memory src width x w (suc n) y g =
      let off = (y * width + x) * 4 in
      copy_rows memory src width x w n (y + 1) (v.copy_px g off (load memory (src + off) (w * 4)))

  -- the loop that copies the glyphs, with `n` characters from `ch` on
  pub copy_glyphs : (n ch dst : ℕ) → (ℕ → ℕ) → ℕ → ℕ
  copy_glyphs zero ch dst memory = memory
  copy_glyphs (suc n) ch dst memory =
      copy_glyphs n (ch + 1) dst (copy_to memory (dst + ch * 16) (take 16 (v.screen_glyph ch)))

module _ {W G : Type 0} (arena : Arena) (v : Display G) where
  pub sys_gfx_present : Kernel W G → Registers → ℕ × Kernel W G
  sys_gfx_present k r = elim (v.gfx_screen k.screen) [
    | none ↦ (failed, k)
    | some (w, h) ↦
        let bytes = wrap64 (w * h * 4) in
        if accepts arena k r.rdi bytes
        then (
          0,
          record k { screen = v.gfx_present (v.copy_px k.screen 0 (load k.memory r.rdi bytes)) },
        )
        else (failed, k)
  ]

  pub sys_gfx_present_rect : Kernel W G → Registers → ℕ × Kernel W G
  unfolding copy_rows
  sys_gfx_present_rect k r = elim (v.gfx_screen k.screen) [
    | none ↦ (failed, k)
    | some (width, height) ↦
        let x = field r.rsi 48 in
        let y = field r.rsi 32 in
        let w = field r.rsi 16 in
        let h = field r.rsi 0 in
        let w' = clip x w width in
        let h' = clip y h height in
        if leb width x || leb height y || w == 0 || h == 0
        then (0, k)
        else if accepts arena k r.rdi (wrap64 (width * height * 4))
        then (
          0,
          record k {
            screen =
                v.gfx_present_rect (copy_rows v k.memory r.rdi width x w' h' y k.screen) x y w' h';
          },
        )
        else (failed, k)
  ]

  pub sys_fb_info : Kernel W G → ℕ × Kernel W G
  sys_fb_info k = elim (v.gfx_screen k.screen) [
    | none ↦ (0, k)
    | some (w, h) ↦ (bit_or (w * 2 ^ 32) h, k)
  ]

  pub sys_get_font : Kernel W G → Registers → ℕ × Kernel W G
  unfolding copy_glyphs
  sys_get_font k r =
      if accepts arena k r.rdi (256 * 16)
      then (0, record k { memory = copy_glyphs v 256 0 r.rdi k.memory })
      else (failed, k)

  pub sys_gfx_fill_rect : Kernel W G → Registers → ℕ × Kernel W G
  sys_gfx_fill_rect k r = elim (v.gfx_screen k.screen) [
    | none ↦ (failed, k)
    | some _ ↦ (
      0,
      record k {
        screen =
            v.gfx_fill_rect k.screen (field r.rdi 48) (field r.rdi 32) (field r.rdi 16)
              (field r.rdi 0) (wrap32 r.rsi);
      },
    )
  ]

  pub sys_gfx_draw_text : Kernel W G → Registers → ℕ × Kernel W G
  sys_gfx_draw_text k r = elim (v.gfx_screen k.screen) [
    | none ↦ (failed, k)
    | some _ ↦
        let len = text_len r.rdx in
        if accepts arena k r.rsi len
        then (
          0,
          record k {
            screen =
                v.gfx_draw_text k.screen (field r.rdi 16) (field r.rdi 0)
                  (local_path arena k r.rsi len) (wrap32 (r.r10 / 2 ^ 32)) (wrap32 r.r10);
          },
        )
        else (failed, k)
  ]

  pub sys_gfx_flush_rect : Kernel W G → Registers → ℕ × Kernel W G
  sys_gfx_flush_rect k r = elim (v.gfx_screen k.screen) [
    | none ↦ (failed, k)
    | some _ ↦ (
      0,
      record k {
        screen =
            v.gfx_present_rect k.screen (field r.rdi 48) (field r.rdi 32) (field r.rdi 16)
              (field r.rdi 0);
      },
    )
  ]

  pub sys_write : Kernel W G → Registers → ℕ × Kernel W G
  sys_write k r =
      let len = text_len r.rsi in
      if accepts arena k r.rdi len
      then (len, record k { screen = v.kprint k.screen (local_path arena k r.rdi len) })
      else (failed, k)
