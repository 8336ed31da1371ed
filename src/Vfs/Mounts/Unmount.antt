-- ===== src/Vfs/Mounts/Unmount.antt =====
-- `vfs_umount` of fs/vfs.c closes the descriptors of the mount in every task.
use cool_frost.Prelude.{
  ℕ, zero, suc, ◌+◌, ◌<◌, ◌≡◌, refl, sym, ap, ◌∙◌, ◌≢◌, ◌⊎◌, inl, inr, Bool, true, false, ◌&&◌,
  ◌||◌, some, List, [], ◌∷◌, arith, ltb, ltb→lt, ◌==◌, if◌then◌else◌, Bool-cases, Option-cases,
  and_true, ==_iff, pos, negsuc,
}
use mathlib.Core.Path.{subst, ap₂}
use cool_frost.Sched.Types.{FileDescriptor, Task, Sched, idle, update}
use cool_frost.Vfs.Types.{max_fd, max_mounts, MountPoint, Drivers, Vfs}
use cool_frost.Vfs.Mounts.{
  climb, close_under, close_fds_under, close_in_tasks, same_path, mounted_from, vfs_umount,
}

same_path_lem : (p q : List ℕ) → same_path p q ≡ true → p ≡ q
unfolding same_path
same_path_lem [] [] e = refl
same_path_lem [] (c ∷ q) e = absurd (ground arith)
same_path_lem (c ∷ p) [] e = absurd (ground arith)
same_path_lem (c ∷ p) (k ∷ q) e =
    let (h, t) = and_true (c == k) (same_path p q) e in
    ap₂ ◌∷◌ ((==_iff c k).0 h) (same_path_lem p q t)

mounted_from-some :
    (mounts : ℕ → MountPoint) (path : List ℕ) (left i : ℕ) {k : ℕ}
    → mounted_from mounts path left i ≡ some k
    → (k < i + left) × ((mounts k).active ≡ true) × (path ≡ (mounts k).path)
unfolding mounted_from
mounted_from-some mounts path zero i e = absurd (cc)
mounted_from-some mounts path (suc left) i {k} e =
    elim (Bool-cases ((mounts i).active && same_path path (mounts i).path)) [
      | inl t ↦
          let (on, same) = and_true ((mounts i).active) (same_path path (mounts i).path) t in
          let here : i ≡ k = cc (rw t at e) in
          subst (λ k. (k < i + suc left) × ((mounts k).active ≡ true) × (path ≡ (mounts k).path))
            here (omega arith, on, same_path_lem path (mounts i).path same)
      | inr t ↦
          let (lt, on, same) = mounted_from-some mounts path left (i + 1) (rw t at e) in
          (omega arith, on, same)
    ]

module _ {W : Type 0} (d : Drivers W) (w : W) where
  -- A node stands at or below the root.
  pub data Under (root : ℕ) : ℕ → Type 0 where
    at_root : Under root root
    below : {n : ℕ} → n ≢ 0 → Under root ((d.node w n).parent) → Under root n

  -- The chain of parents reaches null in so many steps.
  pub data Ends : ℕ → ℕ → Type 0 where
    null : {k : ℕ} → Ends k 0
    parent : {k n : ℕ} → Ends k ((d.node w n).parent) → Ends (suc k) n

  climb-Under : (fuel n root : ℕ) → climb d fuel w n root ≡ root → Under root n
  unfolding climb
  climb-Under zero n root e = subst (λ k. Under root k) (sym e) at_root
  climb-Under (suc fuel) n root e = elim (Bool-cases (n == 0 || n == root)) [
    | inl t ↦ subst (λ k. Under root k) (sym (rw (climb, t) at e)) at_root
    | inr f ↦ below (λ z. ground (arith, f, z)) (climb-Under fuel _ root (rw (climb, f) at e))
  ]

  null_root : {n root : ℕ} → n ≡ 0 → Under root n → root ≡ 0
  null_root e at_root = e
  null_root e (below ne u) = absurd (ne e)

  Under-parent : {n root : ℕ} → n ≢ root → Under root n → Under root ((d.node w n).parent)
  Under-parent ne at_root = absurd (ne refl)
  Under-parent ne (below real u) = u

  Ends-parent : {fuel n : ℕ} → n ≢ 0 → Ends (suc fuel) n → Ends fuel ((d.node w n).parent)
  Ends-parent ne null = absurd (ne refl)
  Ends-parent ne (parent e) = e

  Ends-zero : {fuel n : ℕ} → fuel ≡ 0 → Ends fuel n → n ≡ 0
  Ends-zero e null = refl
  Ends-zero e (parent _) = absurd (omega arith)

  Under-climb :
      (fuel n root : ℕ) → root ≢ 0 → Ends fuel n → Under root n → climb d fuel w n root ≡ root
  unfolding climb
  Under-climb zero n root real ends u = absurd (real (null_root (Ends-zero refl ends) u))
  Under-climb (suc fuel) n root real ends u = elim (Bool-cases (n == 0 || n == root)) [
    | inl t ↦ elim (Bool-cases (n == root)) [
      | inl same ↦ rw (climb, t) ((==_iff n root).0 same)
      | inr other ↦ absurd (real (null_root (ground (arith, t, other)) u))
    ]
    | inr f ↦
        let far : n ≢ root = λ z. ground (arith, f, z) in
        let some_node : n ≢ 0 = λ z. ground (arith, f, z) in
        rw (climb, f)
          (Under-climb fuel _ root real (Ends-parent some_node ends) (Under-parent far u))
  ]

  -- The descriptor keeps all but its flag, which is off where its node stands under the root.
  pub close_under_lem :
      (fuel root : ℕ) (f : FileDescriptor)
      → root ≢ 0
      → (f.active ≡ true → Ends fuel f.node)
      → let f' = close_under d fuel w root f in
        (f'.node ≡ f.node)
        × (Under root f.node → f'.active ≡ false)
        × (¬ Under root f.node → f' ≡ f)
  close_under_lem fuel root f real ends =
      elim (Bool-cases (f.active && climb d fuel w f.node root == root)) [
        | inl t ↦
            let (on, at) = and_true f.active (climb d fuel w f.node root == root) t in
            rw t (
              refl,
              λ _. refl,
              λ out. absurd (out (climb-Under fuel f.node root ((==_iff _ _).0 at))),
            )
        | inr t ↦ rw t (
          refl,
          λ u. elim (Bool-cases f.active) [
            | inl on ↦ ground (arith, t, on, Under-climb fuel f.node root real (ends on) u)
            | inr off ↦ off
          ],
          λ _. refl,
        )
      ]

-- the idle task and those that `sched_task_count` counts
abbrev pub IsTask : Sched → ℕ → Type 0
IsTask s t = (t ≡ idle) ⊎ (t < s.count)

-- The chain of parents of every open descriptor of these tasks ends within the fuel.
abbrev pub OpenEnds : {W : Type 0} → Drivers W → (fuel : ℕ) → W → Sched → Type 0
OpenEnds d fuel w sched =
    (t f : ℕ)
    → IsTask sched t
    → f < max_fd
    → ((sched.tasks t).fd_table f).active ≡ true
    → Ends d w fuel ((sched.tasks t).fd_table f).node

module _ {W : Type 0} (d : Drivers W) (fuel : ℕ) (w : W) (sched : Sched) (root : ℕ) where
  abbrev after : ℕ → ℕ → FileDescriptor
  after t f = ((close_in_tasks d fuel w sched root).tasks t).fd_table f

  abbrev before : ℕ → ℕ → FileDescriptor
  before t f = (sched.tasks t).fd_table f

  -- what becomes of a descriptor
  abbrev outcome : ℕ → ℕ → FileDescriptor
  outcome t f =
      if t == idle || ltb t sched.count
      then if ltb f max_fd then close_under d fuel w root (before t f) else before t f
      else before t f

  after-outcome : (t f : ℕ) → after t f ≡ outcome t f
  after-outcome t f =
      table_of (t == idle || ltb t sched.count) (sched.tasks t)
        (close_fds_under d fuel w (before t) root) f
    where
      table_of :
          (b : Bool) (task : Task) (table : ℕ → FileDescriptor) (f : ℕ)
          → (if b then record task { fd_table = table } else task).fd_table f
            ≡ (if b then table f else task.fd_table f)
      table_of true task table f = refl
      table_of false task table f = refl

  is_task : (t : ℕ) → (t == idle || ltb t sched.count) ≡ true → IsTask sched t
  is_task t e = elim (Bool-cases (t == idle)) [
    | inl same ↦ inl ((==_iff t idle).0 same)
    | inr other ↦ inr (ground (arith, e, other))
  ]

  closed_cases :
      (t f : ℕ)
      → (IsTask sched t × (f < max_fd) × (after t f ≡ close_under d fuel w root (before t f)))
        ⊎ ((after t f ≡ before t f) × ¬ (IsTask sched t × (f < max_fd)))
  closed_cases t f = elim (Bool-cases (t == idle || ltb t sched.count)) [
    | inl u ↦ elim (Bool-cases (ltb f max_fd)) [
      | inl v ↦ inl (is_task t u, ltb→lt f max_fd v, after-outcome t f ∙ rw (outcome, u, v) refl)
      | inr v ↦ inr (after-outcome t f ∙ rw (outcome, u, v) refl, λ (_, lt). ground (arith, v, lt))
    ]
    | inr u ↦ inr (
      after-outcome t f ∙ rw (outcome, u) refl,
      λ (k, _). elim k [ inl k ↦ ground (arith, u, k) | inr k ↦ ground (arith, u, k) ],
    )
  ]

  module _ (real : root ≢ 0) (chains : OpenEnds d fuel w sched) where
    all_closed :
        (t f : ℕ)
        → IsTask sched t
        → f < max_fd
        → (after t f).active ≡ true
        → ¬ Under d w root (after t f).node
    all_closed t f task lt on u = elim (closed_cases t f) [
      | inl (k, hi, e) ↦
          let (same, off, _) = close_under_lem d w fuel root (before t f) real (chains t f k hi) in
          let was : Under d w root (before t f).node =
            subst (λ n. Under d w root n) (ap (λ g. g.node) e ∙ same) u in
          absurd (cc (sym on ∙ ap (λ g. g.active) e ∙ off was))
      | inr (_, out) ↦ absurd (out (task, lt))
    ]

    others_kept : (t f : ℕ) → ¬ Under d w root (before t f).node → after t f ≡ before t f
    others_kept t f out = elim (closed_cases t f) [
      | inl (k, hi, e) ↦
          let (_, _, same) = close_under_lem d w fuel root (before t f) real (chains t f k hi) in
          e ∙ same out
      | inr (e, _) ↦ e
    ]

module _ {W : Type 0} (d : Drivers W) where
  -- Where active mounts have a root, and the parent chain of the node of each open descriptor of
  -- the idle task and of every counted task ends within the fuel, a vfs_umount that returns 0
  -- deactivates an active mount at that path; afterwards no open descriptor of the idle task or of
  -- any counted task refers to a node under its root, and a descriptor whose node is not under it
  -- is as it was.
  pub vfs_umount_lem :
      (fuel : ℕ) (s : Vfs W) (path : List ℕ) {s' : Vfs W}
      → OpenEnds d fuel s.world s.sched
      → ((i : ℕ) → i < max_mounts → (s.mounts i).active ≡ true → (s.mounts i).root ≢ 0)
      → vfs_umount d fuel s path ≡ (pos 0, s')
      → (i : ℕ) × ((s.mounts i).active ≡ true)
        × (path ≡ (s.mounts i).path)
        × ((s'.mounts i).active ≡ false)
        × ((t f : ℕ)
            → IsTask s.sched t
            → f < max_fd
            → ((s'.sched.tasks t).fd_table f).active ≡ true
            → ¬ Under d s.world ((s.mounts i).root) ((s'.sched.tasks t).fd_table f).node)
        × ((t f : ℕ)
            → ¬ Under d s.world ((s.mounts i).root) ((s.sched.tasks t).fd_table f).node
            → (s'.sched.tasks t).fd_table f ≡ (s.sched.tasks t).fd_table f)
  unfolding vfs_umount
  vfs_umount_lem fuel s path {s'} chains roots e =
      elim (Option-cases (mounted_from s.mounts path max_mounts 0)) [
        | inl gone ↦ absurd (code_apart (ap (λ r. r.0) (rw (vfs_umount, gone) at e)))
        | inr (i, found) ↦
            let (lt, on, same) = mounted_from-some s.mounts path max_mounts 0 found in
            let root = (s.mounts i).root in
            let real = roots i lt on in
            let m = record (s.mounts i) { active = false; root = 0 } in
            let to : record s {
              mounts = update s.mounts i m;
              sched = close_in_tasks d fuel s.world s.sched root;
            }
                ≡ s' =
              ap (λ r. r.1) (rw (vfs_umount, found) at e) in
            (
              i,
              on,
              same,
              ap (λ r. (r.mounts i).active) (sym to) ∙ ground arith,
              subst
                  (λ r.
                    (t f : ℕ)
                    → IsTask s.sched t
                    → f < max_fd
                    → ((r.sched.tasks t).fd_table f).active ≡ true
                    → ¬ Under d s.world root ((r.sched.tasks t).fd_table f).node)
                  to (all_closed d fuel s.world s.sched root real chains),
              subst
                  (λ r.
                    (t f : ℕ)
                    → ¬ Under d s.world root ((s.sched.tasks t).fd_table f).node
                    → (r.sched.tasks t).fd_table f ≡ (s.sched.tasks t).fd_table f)
                  to (others_kept d fuel s.world s.sched root real chains),
            )
      ]
    where
      code_apart : negsuc 0 ≢ pos 0
      code_apart e = cc
