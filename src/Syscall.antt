-- ===== src/Syscall.antt =====
-- cpu/syscall.c: the system calls, one function for each case of syscall_dispatch, over the
-- scheduler, the event queue, the file system and the address spaces.
pub mod Files
pub mod Dispatch
pub mod Confined
pub mod Sbrk
pub mod Screen
mod Tests
use cool_frost.Prelude.{
  ℕ, zero, suc, ◌+◌, ◌-◌, ◌*◌, ◌/◌, ◌%◌, ◌^◌, ◌≤◌, ◌<◌, min, bit_and, bit_or, bit_xor, ◌≡◌, refl,
  sym, ap, ◌∙◌, ◌≢◌, ◌↔◌, ◌⊎◌, inl, inr, Bool, true, false, not, ◌&&◌, ◌||◌, Option, none, some,
  List, [], ◌∷◌, ◌++◌, map, arith, ltb, leb, ◌==◌, if◌then◌else◌, Bool-cases, Option-cases, length,
  get_elem?, get_or, set, take, drop, replicate, wrap8, wrap32, wrap64, sub32, sub64, ℤ, pos,
  negsuc, minus, length-append, length-take,
}
use cool_frost.Paging.{Arena, is_user_range}
use cool_frost.Event.{
  Events, Event, EventType, event_poll, key_down, key_up, mouse_move, mouse_down, mouse_up,
}
use cool_frost.Sched.Types.{Sched, Task, set_task, update}
use cool_frost.Sched.{sched_kill_current, sched_want_reschedule}
use cool_frost.Str.{text}
use cool_frost.Vfs.Types.{Drivers, Vfs, VfsStat, Dirent, max_path}
use cool_frost.Vfs.Files.{
  vfs_open, vfs_close, vfs_read, vfs_seek, vfs_write, vfs_readdir, vfs_stat, vfs_fstat, vfs_unlink,
  vfs_rename,
}
use cool_frost.Vmm.{AddressSpace, Space, vmm_alloc_page, vmm_map_page, vmm_page_rw_u}

-- the registers of `registers_t` that carry a call's number and arguments
pub record Registers : Type 0 where
  pub rax : ℕ
  pub rdi : ℕ
  pub rsi : ℕ
  pub rdx : ℕ
  pub r10 : ℕ

-- What gfx/gfx.c and drivers/screen.c offer, over their state `G`.
pub record Display (G : Type 0) : Type 0 where
  -- the width and height of gfx_screen(), unless that is null
  pub gfx_screen : G → Option (ℕ × ℕ)
  -- bytes copied to `px` at an offset
  pub copy_px : G → (off : ℕ) → List ℕ → G
  pub gfx_present : G → G
  pub gfx_present_rect : G → (x y w h : ℕ) → G
  pub gfx_fill_rect : G → (x y w h color : ℕ) → G
  pub gfx_draw_text : G → (x y : ℕ) → List ℕ → (fg bg : ℕ) → G
  -- the 16 bytes of a character's glyph
  pub screen_glyph : ℕ → List ℕ
  pub kprint : G → List ℕ → G

-- The state that system calls change. The scheduler is the one of the file system's state, whose
-- descriptors are the current task's; `spaces` are the `vmm_as_t` by their address, and `memory`
-- the bytes of the memory that belongs to user programs.
pub record Kernel (W G : Type 0) : Type 0 where
  pub vfs : Vfs W
  pub events : Events
  pub spaces : ℕ → AddressSpace
  pub memory : ℕ → ℕ
  pub screen : G
  pub ticks : ℕ

-- `(uint64_t)-1`
abbrev pub failed : ℕ
failed = 2 ^ 64 - 1

-- `(uint64_t)(int64_t)n`
abbrev pub sign_extend : ℤ → ℕ
sign_extend (pos n) = wrap64 n
sign_extend (negsuc n) = 2 ^ 64 - 1 - n

-- `(int)r`
abbrev pub to_int : ℕ → ℤ
to_int r = if ltb (wrap32 r) (2 ^ 31) then pos (wrap32 r) else negsuc (2 ^ 32 - 1 - wrap32 r)

-- `n` bytes of memory from `p` on
pub load : (ℕ → ℕ) → (p n : ℕ) → List ℕ
load memory p zero = []
load memory p (suc n) = memory p ∷ load memory (p + 1) n

-- memcpy to `p`
abbrev pub copy_to : (ℕ → ℕ) → (p : ℕ) → List ℕ → ℕ → ℕ
copy_to memory p bytes a =
    if leb p a && ltb a (p + length bytes) then get_or bytes (a - p) 0 else memory a

-- a number's `n` bytes, the least first
pub le_bytes : (n v : ℕ) → List ℕ
le_bytes zero v = []
le_bytes (suc n) v = v % 256 ∷ le_bytes n (v / 256)

abbrev pub event_number : EventType → ℕ
event_number key_down = 1
event_number key_up = 2
event_number mouse_move = 3
event_number mouse_down = 4
event_number mouse_up = 5

-- the four bytes, and the two coordinates
pub event_bytes : Event → List ℕ
event_bytes ev =
    event_number ev.kind
    ∷ ev.code % 256
    ∷ ev.ch % 256
    ∷ ev.buttons % 256
    ∷ (le_bytes 4 ev.x ++ le_bytes 4 ev.y)

module _ (pad : ℕ → ℕ) where
  -- `vfs_stat_t`, with the bytes of padding that the stack holds
  pub stat_bytes : VfsStat → List ℕ
  stat_bytes st = le_bytes 8 st.size ++ le_bytes 4 st.inode ++ (st.kind % 256 ∷ load pad 0 3)

  -- `dirent_t`
  pub dirent_bytes : Dirent → List ℕ
  dirent_bytes de =
      take 128 (de.name ++ replicate 128 0) ++ le_bytes 8 de.size ++ (de.kind % 256 ∷ load pad 0 7)

-- The structs have the sizes that the code's sizeof gives.
length-le_bytes : (n v : ℕ) → length (le_bytes n v) ≡ n
unfolding le_bytes
length-le_bytes zero v = refl
length-le_bytes (suc n) v = ap suc (length-le_bytes n (v / 256))

length-load : (memory : ℕ → ℕ) (p n : ℕ) → length (load memory p n) ≡ n
unfolding load
length-load memory p zero = refl
length-load memory p (suc n) = ap suc (length-load memory (p + 1) n)

pub length-event_bytes : (ev : Event) → length (event_bytes ev) ≤ 12
unfolding event_bytes
length-event_bytes ev = omega (
  arith,
  length-append (le_bytes 4 ev.x) (le_bytes 4 ev.y),
  length-le_bytes 4 ev.x,
  length-le_bytes 4 ev.y,
)

pub length-stat_bytes : (pad : ℕ → ℕ) (st : VfsStat) → length (stat_bytes pad st) ≤ 16
unfolding stat_bytes
length-stat_bytes pad st = omega (
  arith,
  length-append (le_bytes 8 st.size ++ le_bytes 4 st.inode) (st.kind % 256 ∷ load pad 0 3),
  length-append (le_bytes 8 st.size) (le_bytes 4 st.inode),
  length-le_bytes 8 st.size,
  length-le_bytes 4 st.inode,
  length-load pad 0 3,
)

pub length-dirent_bytes : (pad : ℕ → ℕ) (de : Dirent) → length (dirent_bytes pad de) ≤ 144
unfolding dirent_bytes
length-dirent_bytes pad de =
    let front = take 128 (de.name ++ replicate 128 0) in
    omega (
      arith,
      length-append (front ++ le_bytes 8 de.size) (de.kind % 256 ∷ load pad 0 7),
      length-append front (le_bytes 8 de.size),
      length-take 128 (de.name ++ replicate 128 0),
      length-le_bytes 8 de.size,
      length-load pad 0 7,
    )

module _ {W G : Type 0} (arena : Arena) where
  -- `is_user_range(p, len)`, for the tables that CR3 selects
  pub accepts : Kernel W G → (p len : ℕ) → Bool
  accepts k p len =
      elim (is_user_range arena k.vfs.sched.kheap.words k.vfs.sched.loaded_cr3 p len) [
        | none ↦ false
        | some b ↦ b
      ]

  -- a path's bytes as the string that the kernel's copy of them is
  abbrev pub local_path : Kernel W G → (p len : ℕ) → List ℕ
  local_path k p len = text (load k.memory p len)

  pub sys_exit : Kernel W G → ℕ × Kernel W G
  sys_exit k = (0, record k { vfs = record (k.vfs) { sched = sched_kill_current k.vfs.sched } })

  pub sys_yield : Kernel W G → ℕ × Kernel W G
  sys_yield k = (0, record k { vfs = record (k.vfs) { sched = sched_want_reschedule k.vfs.sched } })

  pub sys_get_ticks : Kernel W G → ℕ × Kernel W G
  sys_get_ticks k = (k.ticks, k)

  pub sys_event_poll : Kernel W G → Registers → ℕ × Kernel W G
  sys_event_poll k r =
      if accepts k r.rdi 12
      then (let (polled, events) = event_poll k.events in
          elim polled [
            | none ↦ (0, record k { events = events })
            | some ev ↦
                (1, record k { events = events; memory = copy_to k.memory r.rdi (event_bytes ev) })
          ])
      else (failed, k)
