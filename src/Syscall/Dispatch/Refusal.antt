-- ===== src/Syscall/Dispatch/Refusal.antt =====
-- syscall_dispatch of cpu/syscall.c on pointers that the check refuses, and on unknown numbers.
use cool_frost.Syscall.Confined.{sys_event_poll-failed}
use cool_frost.Syscall.Screen.Refusal.{
  sys_get_font-failed, sys_write-failed, sys_gfx_draw_text-failed,
}
use cool_frost.Syscall.Files.Refusal.{
  sys_open-failed, sys_read-failed, sys_fwrite-failed, sys_fstat-failed, sys_readdir-failed,
  sys_unlink-failed, sys_stat-failed, sys_rename-failed,
}
use cool_frost.Prelude.{
  ℕ, min, ◌≡◌, refl, ap, ◌∙◌, ◌≢◌, ◌⊎◌, inl, inr, Bool, true, false, ◌&&◌, none, some, List, [],
  ◌∷◌, arith,
}
use cool_frost.Paging.{Arena}
use cool_frost.Syscall.{Registers, Kernel, accepts, Drivers, Display, failed}
use cool_frost.Syscall.Files.{path_len}
use cool_frost.Syscall.Screen.{text_len}
use cool_frost.Syscall.Dispatch.{
  Number, exit, yield, get_ticks, event_poll, gfx_present, fb_info, get_font, write,
  gfx_present_rect, open_file, close, read, seek, fwrite, stat, fstat, readdir, unlink, sbrk,
  rename, gfx_fill_rect, gfx_draw_text, gfx_flush_rect, call, syscall_dispatch, number_of,
}

-- The ranges of user memory that a call is given, by its documentation in cpu/syscall.h. The two
-- calls that copy pixels are left out, since their range is of the screen's size.
unfoldable pub ranges : Number → Registers → List (ℕ × ℕ)
ranges exit r = []
ranges yield r = []
ranges get_ticks r = []
ranges event_poll r = (r.rdi, 12) ∷ []
ranges gfx_present r = []
ranges fb_info r = []
ranges get_font r = (r.rdi, 4096) ∷ []
ranges write r = (r.rdi, min r.rsi 256) ∷ []
ranges gfx_present_rect r = []
ranges open_file r = (r.rdi, min r.rsi 255) ∷ []
ranges close r = []
ranges read r = (r.rsi, r.rdx) ∷ []
ranges seek r = []
ranges fwrite r = (r.rsi, r.rdx) ∷ []
ranges stat r = (r.rdi, min r.rsi 255) ∷ (r.rdx, 16) ∷ []
ranges fstat r = (r.rsi, 16) ∷ []
ranges readdir r = (r.rdx, 144) ∷ []
ranges unlink r = (r.rdi, min r.rsi 255) ∷ []
ranges sbrk r = []
ranges rename r = (r.rdi, min r.rsi 255) ∷ (r.rdx, min r.r10 255) ∷ []
ranges gfx_fill_rect r = []
ranges gfx_draw_text r = (r.rsi, min r.rdx 256) ∷ []
ranges gfx_flush_rect r = []

path_len-min : (n : ℕ) → path_len n ≡ min n 255
path_len-min n = ground arith

text_len-min : (n : ℕ) → text_len n ≡ min n 256
text_len-min n = ground arith

module _ {W G : Type 0} (arena : Arena) (k : Kernel W G) where
  unfoldable pub all_accepted : List (ℕ × ℕ) → Bool
  all_accepted [] = true
  all_accepted ((p, len) ∷ ps) = accepts arena k p len && all_accepted ps

true-false : true ≢ false
true-false e = ground arith

one_accepted : {a : Bool} → (a && true) ≡ false → a ≡ false
one_accepted {a = true} e = e
one_accepted {a = false} e = refl

two_accepted : (a b : Bool) → (a && (b && true)) ≡ false → (a && b) ≡ false
two_accepted true b e = one_accepted e
two_accepted false b e = refl

module _ {W G : Type 0} (arena : Arena) (d : Drivers W) (v : Display G) (pad : ℕ → ℕ) where
  call-failed :
      (n : Number) (k : Kernel W G) (r : Registers)
      → all_accepted arena k (ranges n r) ≡ false
      → call arena d v pad n k r ≡ (failed, k)
  unfolding call all_accepted ranges
  call-failed exit k r e = absurd (true-false e)
  call-failed yield k r e = absurd (true-false e)
  call-failed get_ticks k r e = absurd (true-false e)
  call-failed event_poll k r e = sys_event_poll-failed arena k r (one_accepted e)
  call-failed gfx_present k r e = absurd (true-false e)
  call-failed fb_info k r e = absurd (true-false e)
  call-failed get_font k r e = sys_get_font-failed arena v k r (one_accepted e)
  call-failed write k r e =
      sys_write-failed arena v k r
        (ap (accepts arena k r.rdi) (text_len-min r.rsi) ∙ one_accepted e)
  call-failed gfx_present_rect k r e = absurd (true-false e)
  call-failed open_file k r e =
      sys_open-failed arena d pad k r
        (ap (accepts arena k r.rdi) (path_len-min r.rsi) ∙ one_accepted e)
  call-failed close k r e = absurd (true-false e)
  call-failed read k r e = sys_read-failed arena d pad k r (one_accepted e)
  call-failed seek k r e = absurd (true-false e)
  call-failed fwrite k r e = sys_fwrite-failed arena d pad k r (one_accepted e)
  call-failed stat k r e = sys_stat-failed arena d pad k r (
      ap (λ m. accepts arena k r.rdi m && accepts arena k r.rdx 16) (path_len-min r.rsi)
      ∙ two_accepted _ _ e)
  call-failed fstat k r e = sys_fstat-failed arena d pad k r (one_accepted e)
  call-failed readdir k r e = sys_readdir-failed arena d pad k r (one_accepted e)
  call-failed unlink k r e =
      sys_unlink-failed arena d pad k r
        (ap (accepts arena k r.rdi) (path_len-min r.rsi) ∙ one_accepted e)
  call-failed sbrk k r e = absurd (true-false e)
  call-failed rename k r e = sys_rename-failed arena d pad k r (
      ap (λ m. accepts arena k r.rdi m && accepts arena k r.rdx (path_len r.r10))
        (path_len-min r.rsi)
      ∙ ap (λ m. accepts arena k r.rdi (min r.rsi 255) && accepts arena k r.rdx m)
          (path_len-min r.r10)
      ∙ two_accepted _ _ e)
  call-failed gfx_fill_rect k r e = absurd (true-false e)
  call-failed gfx_draw_text k r e =
      sys_gfx_draw_text-failed arena v k r
        (ap (accepts arena k r.rsi) (text_len-min r.rdx) ∙ one_accepted e)
  call-failed gfx_flush_rect k r e = absurd (true-false e)

  -- A system call with a number that has no case, or with a range among those that its number
  -- takes (other than the two that upload pixels) that is_user_range refuses, returns (uint64_t)-1
  -- in rax and changes no other register and nothing else in the state.
  pub syscall_dispatch-failed :
      (k : Kernel W G) (r : Registers)
      → (number_of r.rax ≡ none)
        ⊎ ((n : Number) × (number_of r.rax ≡ some n) × (all_accepted arena k (ranges n r) ≡ false))
      → syscall_dispatch arena d v pad k r ≡ (record r { rax = failed }, k)
  unfolding syscall_dispatch
  syscall_dispatch-failed k r (inl e) = rw (syscall_dispatch, e) refl
  syscall_dispatch-failed k r (inr (n, e, bad)) =
      rw (syscall_dispatch, e) (ap (λ q. (record r { rax = q.0 }, q.1)) (call-failed n k r bad))
