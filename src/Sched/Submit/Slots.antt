-- ===== src/Sched/Submit/Slots.antt =====
-- The slot that a submitted task gets, and the invariant once the task is in it.
use mathlib.Core.Path.{subst}
use native.Mathlib.Nat.{le_refl}
use cool_frost.Prelude.{
  ℕ, zero, suc, ◌+◌, ◌≤◌, ◌<◌, ◌≡◌, refl, sym, ap, ◌∙◌, ◌≢◌, inl, inr, true, false, Option, none,
  some, arith, leb, ◌==◌, Bool-cases, ==_iff,
}
use cool_frost.Sched.{push, want_cr3}
use cool_frost.Sched.Submit.{find_from, find_free_slot}
use cool_frost.Sched.Types.{
  TaskState, free, ready, running, blocked, done, is_ready, is_reusable, Task, Sched, max_tasks,
  prio_levels, update,
}
use cool_frost.Sched.Listed.{Listed, Listed-same, Listed-push}
use cool_frost.Sched.Inv.{IsValid}

find_from-some :
    (tasks : ℕ → Task) (left i : ℕ) {j : ℕ}
    → find_from tasks left i ≡ some j
    → (i ≤ j) × (j < i + left) × (is_reusable (tasks j).state ≡ true)
unfolding find_from
find_from-some tasks zero i e = cc
find_from-some tasks (suc left) i {j} e = elim (Bool-cases (is_reusable (tasks i).state)) [
  | inl yes_here ↦
      let same : i ≡ j = cc (rw yes_here at e) in
      (omega arith, omega arith, ap (λ k. is_reusable (tasks k).state) (sym same) ∙ yes_here)
  | inr no_here ↦
      let (lo, hi, ok) = find_from-some tasks left (i + 1) (rw no_here at e) in
      (omega arith, omega arith, ok)
]

-- What `find_free_slot` finds: nothing, or a slot of the pool that is counted and not in use.
pub data FreeSlot (s : Sched) : Option ℕ × Sched → Type 0 where
  full : FreeSlot s (none, s)
  slot :
      (i n : ℕ)
      → s.count ≤ n
      → n ≤ max_tasks
      → i < n
      → is_reusable (s.tasks i).state ≡ true
      → FreeSlot s (some i, record s { count = n })

pub find_free_slot-FreeSlot : (s : Sched) → IsValid s → FreeSlot s (find_free_slot s)
unfolding find_free_slot
find_free_slot-FreeSlot s v = go (find_from s.tasks s.count 0) refl
  where
    go : (o : Option ℕ) → find_from s.tasks s.count 0 ≡ o → FreeSlot s (find_free_slot s)
    go (some j) e =
        let (lo, hi, ok) = find_from-some s.tasks s.count 0 e in
        rw (e, find_free_slot) (slot j s.count (le_refl _) v.count_in (omega arith) ok)
    go none e = elim (Bool-cases (leb max_tasks s.count)) [
      | inl no_more ↦ rw (e, find_free_slot, no_more) full
      | inr grows ↦
          let lt : s.count < max_tasks = ground arith in
          rw (e, find_free_slot, grows)
            (slot s.count (s.count + 1) (omega arith) (omega arith) (omega arith)
              (ap is_reusable (v.unused s.count (le_refl _) lt)))
    ]

-- The state after a task was put into slot `i` and pushed at level `p`.
pub record Admitted (s : Sched) (p i : ℕ) (s' : Sched) : Type 0 where
  pub level : p < prio_levels
  pub more : s.count ≤ s'.count
  pub few : s'.count ≤ max_tasks
  pub counted : i < s'.count
  pub reusable : is_reusable (s.tasks i).state ≡ true
  pub others : (j : ℕ) → j ≢ i → s'.tasks j ≡ s.tasks j
  pub state : (s'.tasks i).state ≡ ready
  pub priority : (s'.tasks i).priority ≡ p
  pub queues : s'.queues ≡ update s.queues p (push (s.queues p) i)
  pub cur : s'.cur ≡ s.cur
  pub loaded : s'.loaded_cr3 ≡ s.loaded_cr3

reusable_unready : (t : TaskState) → is_reusable t ≡ true → (is_ready t ≡ false) × (t ≢ running)
reusable_unready free e = (refl, cc)
reusable_unready ready e = absurd (cc)
reusable_unready running e = absurd (cc)
reusable_unready blocked e = absurd (cc)
reusable_unready done e = (refl, cc)

module _ {s s' : Sched} {p i : ℕ} (v : IsValid s)
    (live : s.cur < max_tasks → (s.tasks s.cur).state ≡ running) (a : Admitted s p i s') where
  in_pool : i < max_tasks
  in_pool = omega (arith, a.counted, a.few)

  off : (is_ready (s.tasks i).state ≡ false) × ((s.tasks i).state ≢ running)
  off = reusable_unready _ (a.reusable)

  not_cur : i ≢ s.cur
  not_cur e = off.1 (ap (λ k. (s.tasks k).state) e ∙ live (omega (arith, in_pool)))

  -- The running task may admit another: it takes no slot that is in use.
  pub Admitted-IsValid : IsValid s'
  Admitted-IsValid = record {
    listed = subst (Listed s'.tasks) (sym (a.queues)) (
        Listed-same
          (Listed-push v.listed p i (s'.tasks i) a.level in_pool (off.0) a.state a.priority)
          (λ j q. elim (Bool-cases (j == i)) [
            | inl e ↦ rw (e, (==_iff _ _).0 e)
            | inr e ↦ rw (e, a.others j (ground arith))
          ]));
    count_in = a.few;
    unused = λ j lo hi.
        ap (λ t. t.state) (a.others j (omega (arith, a.counted)))
        ∙ v.unused j (omega (arith, a.more)) hi;
    levels = λ j hi ne. elim (Bool-cases (j == i)) [
      | inl e ↦ rw ((==_iff _ _).0 e, a.priority) (a.level)
      | inr e ↦
          rw (a.others j (ground arith)) (v.levels j hi (rw (a.others j (ground arith)) at ne))
    ];
    cur_in = omega (arith, a.cur, v.cur_in);
    cur_state = λ h. inl (
        ap (λ k. (s'.tasks k).state) (a.cur)
        ∙ ap (λ t. t.state) (a.others s.cur (λ e. not_cur (sym e)))
        ∙ live (omega (arith, a.cur)));
    alone = λ j hi e. elim (Bool-cases (j == i)) [
      | inl same ↦
          absurd (cc (sym e ∙ ap (λ k. (s'.tasks k).state) ((==_iff _ _).0 same) ∙ a.state))
      | inr other ↦
          v.alone j hi (sym (ap (λ t. t.state) (a.others j (ground arith))) ∙ e) ∙ sym (a.cur)
    ];
    loaded =
        a.loaded
        ∙ v.loaded
        ∙ ap want_cr3 (sym (a.others s.cur (λ e. not_cur (sym e))))
        ∙ ap (λ k. want_cr3 (s'.tasks k)) (sym (a.cur));
  }
