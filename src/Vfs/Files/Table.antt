-- ===== src/Vfs/Files/Table.antt =====
-- The tables of descriptors under the operations of fs/vfs.c.
use cool_frost.Prelude.{
  ℕ, zero, suc, ◌+◌, ◌≤◌, ◌<◌, ◌≡◌, refl, sym, ap, ◌∙◌, ◌≢◌, inl, inr, true, false, not, ◌&&◌, ◌||◌,
  none, some, List, arith, ltb, ◌==◌, Bool-cases, Option-cases, ==_iff, ℤ, negsuc, minus, pos,
  and_true, true_and, ltb→lt, lt→ltb,
}
use mathlib.Core.Path.{subst}
use cool_frost.Sched.Types.{FileDescriptor, update}
use cool_frost.Vfs.Types.{max_fd, Drivers, Vfs}
use cool_frost.Vfs.{locate}
use cool_frost.Vfs.Files.{
  fdt, set_fd, open_fd, free_from, open_node, opened, vfs_open, vfs_close, vfs_read, vfs_write,
  vfs_seek, vfs_close,
}

free_from-none :
    (table : ℕ → FileDescriptor) (left i : ℕ)
    → free_from table left i ≡ none
    → (j : ℕ) → i ≤ j
    → j < i + left
    → (table j).active ≡ true
unfolding free_from
free_from-none table zero i e j ge lt = absurd (omega arith)
free_from-none table (suc left) i e j ge lt = elim (Bool-cases ((table i).active)) [
  | inl on ↦ elim (Bool-cases (j == i)) [
    | inl same ↦ ap (λ k. (table k).active) ((==_iff j i).0 same) ∙ on
    | inr other ↦ free_from-none table left (i + 1) (rw on at e) j (ground arith) (omega arith)
  ]
  | inr off ↦ absurd (cc (rw off at e))
]

free_from-some :
    (table : ℕ → FileDescriptor) (left i : ℕ) {k : ℕ}
    → free_from table left i ≡ some k
    → (i ≤ k)
      × (k < i + left)
      × ((table k).active ≡ false)
      × ((j : ℕ) → i ≤ j → j < k → (table j).active ≡ true)
unfolding free_from
free_from-some table zero i e = absurd (cc)
free_from-some table (suc left) i {k} e = elim (Bool-cases ((table i).active)) [
  | inl on ↦
      let (lo, hi, off, before) = free_from-some table left (i + 1) (rw on at e) in
      (
        omega arith,
        omega arith,
        off,
        λ j ge lt. elim (Bool-cases (j == i)) [
          | inl same ↦ ap (λ k. (table k).active) ((==_iff j i).0 same) ∙ on
          | inr other ↦ before j (ground arith) lt
        ],
      )
  | inr off ↦
      let same : i ≡ k = cc (rw off at e) in
      (
        omega arith,
        omega arith,
        ap (λ k. (table k).active) (sym same) ∙ off,
        λ j ge lt. absurd (omega arith),
      )
]

module _ {W : Type 0} where
  pub fdt-set_fd :
      (s : Vfs W) (i j : ℕ) (f : FileDescriptor) → fdt (set_fd s i f) j ≡ update (fdt s) i f j
  fdt-set_fd s i j f = ground arith

  -- All tasks but the current one are as they were, in every field.
  abbrev pub OthersSame : Vfs W → Vfs W → Type 0
  OthersSame s s' = (k : ℕ) → k ≢ s.sched.cur → s'.sched.tasks k ≡ s.sched.tasks k

  others_set_fd : (s : Vfs W) (i : ℕ) (f : FileDescriptor) → OthersSame s (set_fd s i f)
  others_set_fd s i f k ne = ground arith

  task_set_fd :
      (s : Vfs W) (i : ℕ) (f : FileDescriptor)
      → record ((set_fd s i f).sched.tasks s.sched.cur) { fd_table = fdt s }
        ≡ s.sched.tasks s.sched.cur
  task_set_fd s i f = let same : (s.sched.cur == s.sched.cur) ≡ true = ground arith in rw same refl

  -- What `vfs_open` may return: an error, with no table changed, or the lowest closed descriptor,
  -- which is now open, with no other changed.
  pub data Opened (s : Vfs W) (flags : ℕ) : ℤ → Vfs W → Type 0 where
    failed : {n : ℕ} {s' : Vfs W} → s'.sched ≡ s.sched → Opened s flags (negsuc n) s'
    open_at :
        {fd : ℕ} {s' : Vfs W}
        → fd < max_fd
        → (fdt s fd).active ≡ false
        → ((j : ℕ) → j < fd → (fdt s j).active ≡ true)
        → (fdt s' fd).active ≡ true
        → (fdt s' fd).node ≢ 0
        → (fdt s' fd).flags ≡ flags
        → ((j : ℕ) → j ≢ fd → fdt s' j ≡ fdt s j)
        → OthersSame s s'
        → Opened s flags (pos fd) s'

module _ {W : Type 0} (d : Drivers W) where
  -- The end of `vfs_open`, once there is a node.
  allocated :
      (s : Vfs W) (w : W) (flags node : ℕ)
      → node ≢ 0
      → let s' = record s { world = w } in
        let r : ℤ × Vfs W = elim (free_from (fdt s') max_fd 0) [
          | none ↦ (minus 3, s')
          | some fd ↦ (pos fd, set_fd s' fd (opened d w node flags))
        ] in
        Opened s flags r.0 r.1
  allocated s w flags node found =
      let s' = record s { world = w } in
      elim (Option-cases (free_from (fdt s) max_fd 0)) [
        | inl e ↦ rw e (failed refl)
        | inr (fd, e) ↦
            let (lo, hi, off, before) = free_from-some (fdt s) max_fd 0 e in
            let f = opened d w node flags in
            let new : fdt (set_fd s' fd f) fd ≡ f = fdt-set_fd s' fd fd f ∙ ground arith in
            rw e (
              open_at hi off (λ j lt. before j (omega arith) lt) (ap (λ g. g.active) new)
                (λ z. found (sym (ap (λ g. g.node) new) ∙ z)) (ap (λ g. g.flags) new)
                (λ j ne. fdt-set_fd s' fd j f ∙ ground (arith, ne)) (others_set_fd s' fd f))
      ]

  -- vfs_open returns an error and changes no task, or returns the lowest closed descriptor of the
  -- current task, which is now open on a node with the given flags, while all other descriptors
  -- and all other tasks keep theirs.
  pub vfs_open-Opened :
      (s : Vfs W) (path : List ℕ) (flags : ℕ)
      → Opened s flags (vfs_open d s path flags).0 (vfs_open d s path flags).1
  unfolding vfs_open
  vfs_open-Opened s path flags = elim (Option-cases (locate s.mounts path)) [
    | inl e ↦ rw (vfs_open, e) (failed refl)
    | inr ((i, relpath), e) ↦
        let r = open_node d s.world (s.mounts i).root relpath flags in
        elim (Bool-cases (r.0 == 0)) [
          | inl z ↦ rw (vfs_open, e, z) (failed refl)
          | inr nz ↦ rw (vfs_open, e, nz) (allocated s r.1 flags r.0 (λ z. ground (arith, nz, z)))
        ]
  ]

  -- The operations of fs/vfs.c on one open descriptor.
  pub data FdOp (s : Vfs W) (fd : ℤ) : Vfs W → Type 0 where
    do_close : FdOp s fd (vfs_close d s fd).1
    do_read : (size : ℕ) → FdOp s fd (vfs_read d s fd size).2
    do_write : (buffer : List ℕ) (size : ℕ) → FdOp s fd (vfs_write d s fd buffer size).1
    do_seek : (offset : ℕ) → FdOp s fd (vfs_seek d s fd offset).1

  -- Only the descriptor named changes, in the current task's table. The rest of that task, all other
  -- tasks, the scheduler's other variables and the mounts are as they were.
  pub record Touches (s : Vfs W) (fd : ℤ) (s' : Vfs W) : Type 0 where
    pub others : OthersSame s s'
    pub task_same :
        record (s'.sched.tasks s.sched.cur) { fd_table = fdt s } ≡ s.sched.tasks s.sched.cur
    pub sched_same : record (s'.sched) { tasks = s.sched.tasks } ≡ s.sched
    pub rest : (j : ℕ) → fd ≢ pos j → fdt s' j ≡ fdt s j
    pub mounts_same : s'.mounts ≡ s.mounts

  open_fd-some :
      (s : Vfs W) (fd : ℤ) {i : ℕ}
      → open_fd s fd ≡ some i
      → (fd ≡ pos i) × (i < max_fd) × ((fdt s i).active ≡ true)
  unfolding open_fd
  open_fd-some s (negsuc n) e = absurd (cc)
  open_fd-some s (pos k) {i} e = elim (Bool-cases (ltb k max_fd && (fdt s k).active)) [
    | inl t ↦
        let (lt, on) = and_true (ltb k max_fd) ((fdt s k).active) t in
        let same : k ≡ i = cc (rw t at e) in
        (
          ap pos same,
          omega (arith, ltb→lt k max_fd lt, same),
          ap (λ k. (fdt s k).active) (sym same) ∙ on,
        )
    | inr t ↦ absurd (cc (rw t at e))
  ]

  untouched : (s : Vfs W) (fd : ℤ) → Touches s fd s
  untouched s fd = record {
    others = λ k ne. refl;
    task_same = refl;
    sched_same = refl;
    rest = λ j ne. refl;
    mounts_same = refl;
  }

  touched :
      (s : Vfs W) (w : W) (fd : ℤ) {i : ℕ} (f : FileDescriptor)
      → open_fd s fd ≡ some i
      → Touches s fd (set_fd (record s { world = w }) i f)
  touched s w fd {i} f e =
      let (at, lt, on) = open_fd-some s fd e in
      record {
        others = others_set_fd (record s { world = w }) i f;
        task_same = task_set_fd s i f;
        sched_same = refl;
        rest = λ j ne.
            let apart : j ≢ i = λ same. ne (at ∙ ap pos (sym same)) in
            fdt-set_fd (record s { world = w }) i j f ∙ ground (arith, apart);
        mounts_same = refl;
      }

  -- Closing, reading, writing and seeking on a descriptor, with any outcome, change no other
  -- descriptor, nothing else of the current task, no other task, no other variable of the
  -- scheduler and no mount.
  pub FdOp-Touches : {s : Vfs W} {fd : ℤ} {s' : Vfs W} → FdOp s fd s' → Touches s fd s'
  unfolding vfs_close vfs_read vfs_write vfs_seek
  FdOp-Touches {s} {fd} do_close = elim (Option-cases (open_fd s fd)) [
    | inl e ↦ rw (vfs_close, e) (untouched s fd)
    | inr (i, e) ↦ rw (vfs_close, e) (touched s s.world fd _ e)
  ]
  FdOp-Touches {s} {fd} (do_seek offset) = elim (Option-cases (open_fd s fd)) [
    | inl e ↦ rw (vfs_seek, e) (untouched s fd)
    | inr (i, e) ↦ rw (vfs_seek, e) (touched s s.world fd _ e)
  ]
  FdOp-Touches {s} {fd} (do_read size) = elim (Option-cases (open_fd s fd)) [
    | inl e ↦ rw (vfs_read, e) (untouched s fd)
    | inr (i, e) ↦
        elim (Bool-cases ((fdt s i).node == 0 || not ((d.node s.world (fdt s i).node).has_read))) [
          | inl bad ↦ rw (vfs_read, e, bad) (untouched s fd)
          | inr ok ↦ rw (vfs_read, e, ok) (touched s _ fd _ e)
        ]
  ]
  FdOp-Touches {s} {fd} (do_write buffer size) = elim (Option-cases (open_fd s fd)) [
    | inl e ↦ rw (vfs_write, e) (untouched s fd)
    | inr (i, e) ↦
        elim (Bool-cases ((fdt s i).node == 0 || not ((d.node s.world (fdt s i).node).has_write))) [
          | inl bad ↦ rw (vfs_write, e, bad) (untouched s fd)
          | inr ok ↦ rw (vfs_write, e, ok) (touched s _ fd _ e)
        ]
  ]

  -- vfs_close of the descriptor that vfs_open just returned succeeds, and leaves it closed and
  -- every other descriptor of the task as it was before the open.
  pub vfs_close-vfs_open :
      (s : Vfs W) (path : List ℕ) (flags fd : ℕ) {s' : Vfs W}
      → vfs_open d s path flags ≡ (pos fd, s')
      → let (r, s'') = vfs_close d s' (pos fd) in
        (r ≡ pos 0) × ((fdt s'' fd).active ≡ false) × ((j : ℕ) → j ≢ fd → fdt s'' j ≡ fdt s j)
  unfolding vfs_close open_fd
  vfs_close-vfs_open s path flags fd {s'} e =
      go (subst (λ (r : ℤ × Vfs W). Opened s flags r.0 r.1) e (vfs_open-Opened s path flags))
    where
      go :
          {s' : Vfs W}
          → Opened s flags (pos fd) s'
          → let (r, s'') = vfs_close d s' (pos fd) in
            (r ≡ pos 0) × ((fdt s'' fd).active ≡ false) × ((j : ℕ) → j ≢ fd → fdt s'' j ≡ fdt s j)
      go {s'} (open_at lt off lower on node flags_at same others) =
          let usable : (ltb fd max_fd && (fdt s' fd).active) ≡ true =
            true_and (lt→ltb fd max_fd lt) on in
          let f = record (fdt s' fd) { active = false; node = 0 } in
          rw (vfs_close, open_fd, usable)
            (
              refl,
              ap (λ g. g.active) (fdt-set_fd s' fd fd f) ∙ ground arith,
              λ j ne. fdt-set_fd s' fd j f ∙ ground (arith, ne) ∙ same j ne,
            )
