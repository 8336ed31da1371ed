-- ===== src/Syscall/Confined.antt =====
-- The memory that the system calls of cpu/syscall.c write.
use cool_frost.Event.{event_poll}
use cool_frost.Prelude.{
  ℕ, ◌+◌, ◌≤◌, ◌<◌, ◌≡◌, ◌⊎◌, inl, inr, true, false, ◌&&◌, List, arith, ltb, leb, Bool-cases,
  length, refl, Option-cases,
}
use cool_frost.Paging.{Arena}
use cool_frost.Syscall.{
  Kernel, accepts, copy_to, sys_event_poll, event_bytes, length-event_bytes, sys_exit, sys_yield,
  sys_get_ticks, Registers, failed,
}

module _ {W G : Type 0} (arena : Arena) (k : Kernel W G) where
  -- the byte at `a` lies in a range that the check of user pointers accepts
  pub record Covered (a : ℕ) : Type 0 where
    pub pointer : ℕ
    pub len : ℕ
    pub accepted : accepts arena k pointer len ≡ true
    pub above : pointer ≤ a
    pub below : a < pointer + len

  -- Every byte is as before, or covered.
  abbrev pub Confined : (ℕ → ℕ) → Type 0
  Confined memory = (a : ℕ) → (memory a ≡ k.memory a) ⊎ Covered a

  -- A copy of no more bytes than the check was told.
  pub copy_to-Confined :
      (p len : ℕ) (bytes : List ℕ) (memory : ℕ → ℕ)
      → accepts arena k p len ≡ true
      → length bytes ≤ len
      → Confined memory
      → Confined (copy_to memory p bytes)
  copy_to-Confined p len bytes memory e le c a =
      elim (Bool-cases (leb p a && ltb a (p + length bytes))) [
        | inl h ↦ inr (record {
          pointer = p;
          len = len;
          accepted = e;
          above = ground arith;
          below = ground arith;
        })
        | inr h ↦ rw h (c a)
      ]

module _ {W G : Type 0} (arena : Arena) (k : Kernel W G) where
  pub sys_event_poll-Confined :
      (r : Registers) → Confined arena k (sys_event_poll arena k r).1.memory
  unfolding sys_event_poll
  sys_event_poll-Confined r = elim (Bool-cases (accepts arena k r.rdi 12)) [
    | inr e ↦ rw (sys_event_poll, e) (λ a. inl refl)
    | inl e ↦ elim (Option-cases (event_poll k.events).0) [
      | inl g ↦ rw (sys_event_poll, e, g) (λ a. inl refl)
      | inr (ev, g) ↦
          rw (sys_event_poll, e, g)
            (copy_to-Confined arena k r.rdi 12 (event_bytes ev) k.memory e (length-event_bytes ev)
              (λ a. inl refl))
    ]
  ]

  pub sys_exit-Confined : Confined arena k (sys_exit arena k).1.memory
  unfolding sys_exit
  sys_exit-Confined a = inl refl

  pub sys_yield-Confined : Confined arena k (sys_yield arena k).1.memory
  unfolding sys_yield
  sys_yield-Confined a = inl refl

  pub sys_get_ticks-Confined : Confined arena k (sys_get_ticks arena k).1.memory
  unfolding sys_get_ticks
  sys_get_ticks-Confined a = inl refl

  pub sys_event_poll-failed :
      (r : Registers) → accepts arena k r.rdi 12 ≡ false → sys_event_poll arena k r ≡ (failed, k)
  unfolding sys_event_poll
  sys_event_poll-failed r e = rw (sys_event_poll, e) refl
