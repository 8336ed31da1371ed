-- ===== src/Syscall/Tests.antt =====
-- System calls of cpu/syscall.c on one state.
use cool_frost.Prelude.{
  ℕ, true, min, ◌≡◌, refl, ◌⊎◌, inr, false, none, some, List, [], ◌∷◌, arith, take, replicate, pos,
  length-take,
}
use cool_frost.Paging.{is_user_range, in_range}
use cool_frost.Paging.Tests.{arena, tables}
use cool_frost.Event.{key_up}
use cool_frost.Vfs.Types.{Drivers}
use cool_frost.Vfs.Tests.{drivers, all_open}
use cool_frost.Vfs.Files.Buffers.{IsBounded}
use cool_frost.Syscall.{Registers, Display, Kernel, accepts, failed}
use cool_frost.Syscall.Sbrk.{sys_sbrk}
use cool_frost.Syscall.Sbrk.Break.{Moved, sys_sbrk-Moved}
use cool_frost.Syscall.Confined.{Covered}
use cool_frost.Syscall.Dispatch.{read, number_of, syscall_dispatch}
use cool_frost.Syscall.Dispatch.Refusal.{ranges, all_accepted, syscall_dispatch-failed}
use cool_frost.Syscall.Dispatch.Safety.{syscall_dispatch-Covered}

-- a screen that keeps what was printed
abbrev display : Display (List (List ℕ))
display = record {
  gfx_screen = λ g. none;
  copy_px = λ g off bytes. g;
  gfx_present = λ g. g;
  gfx_present_rect = λ g x y w h. g;
  gfx_fill_rect = λ g x y w h color. g;
  gfx_draw_text = λ g x y text fg bg. g;
  screen_glyph = λ ch. replicate 16 ch;
  kprint = λ g text. text ∷ g;
}

-- files that hold `hi`
abbrev hi_drivers : Drivers ℕ
hi_drivers = record drivers {
  read = λ w node offset size. (pos (min size 2), take size (b'h' ∷ b'i' ∷ []), w);
}

abbrev kernel : Kernel ℕ (List (List ℕ))
kernel = record {
  vfs = record all_open {
    sched = record (all_open.sched) {
      tasks = λ t. record (all_open.sched.tasks t) {
        as_ptr = 0x9000;
        heap_start = 0x40000000;
        heap_brk = 0x40000000;
        heap_end = 0x40100000;
      };
      loaded_cr3 = 0x1000;
      kheap = record (all_open.sched.kheap) { words = tables };
    };
  };
  events = record {
    evq = λ _. record { kind = key_up; code = 0; ch = 0; buttons = 0; x = 0; y = 0 };
    head = 0;
    tail = 0;
    last_mx = 0;
    last_my = 0;
    last_buttons = 0;
  };
  spaces = λ _. record { pml4_phys = 0x1000; owned_pages = [] };
  memory = λ _. 0;
  screen = [];
  ticks = 7;
}

-- read(0, buf, 2)
abbrev read_to : ℕ → Registers
read_to buf = record { rax = 11; rdi = 0; rsi = buf; rdx = 2; r10 = 0 }

hi_drivers-IsBounded : IsBounded hi_drivers
hi_drivers-IsBounded = record {
  within = λ w node offset size. omega (arith, length-take {A = ℕ} size (b'h' ∷ b'i' ∷ []));
}

syscall_dispatch-Covered_example :
    ((syscall_dispatch arena hi_drivers display (λ _. 0) kernel (read_to 0x200010)).1.memory
        0x200011
      ≡ 0)
    ⊎ Covered arena kernel 0x200011
syscall_dispatch-Covered_example =
    syscall_dispatch-Covered arena hi_drivers display (λ _. 0) hi_drivers-IsBounded kernel
      (read_to 0x200010) 0x200011

not_accepted : all_accepted arena kernel (ranges read (read_to 0x100000)) ≡ false
unfolding all_accepted ranges accepts is_user_range in_range
not_accepted = refl

number_is_read : number_of 11 ≡ some read
unfolding number_of
number_is_read = refl

syscall_dispatch-failed_example :
    syscall_dispatch arena hi_drivers display (λ _. 0) kernel (read_to 0x100000)
    ≡ (record (read_to 0x100000) { rax = failed }, kernel)
syscall_dispatch-failed_example =
    syscall_dispatch-failed arena hi_drivers display (λ _. 0) kernel (read_to 0x100000)
      (inr (read, number_is_read, not_accepted))

-- sbrk(16)
abbrev more : Registers
more = record { rax = 18; rdi = 16; rsi = 0; rdx = 0; r10 = 0 }

-- the same with free pages
abbrev roomy : Kernel ℕ (List (List ℕ))
roomy = record kernel {
  vfs = record (kernel.vfs) {
    sched = record (kernel.vfs.sched) {
      kheap = record {
        ready = true;
        blocks =
            record {
              addr = 0x100000;
              size = 0x20000;
              used = 1;
              bsize = 4096;
              lfb = 0;
              bm = 1 ∷ replicate 31 0;
            }
            ∷ [];
        area = 0x100000;
        words = tables;
      };
    };
  };
}

sys_sbrk-Moved_example : Moved roomy more (sys_sbrk roomy more)
sys_sbrk-Moved_example = sys_sbrk-Moved roomy more (omega arith) (omega arith) (omega arith)
