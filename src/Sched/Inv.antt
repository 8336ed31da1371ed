-- ===== src/Sched/Inv.antt =====
-- The invariant of cpu/sched.c, and how it carries over the ways in which the state changes.
use mathlib.Core.Path.{subst}
use cool_frost.Prelude.{
  ℕ, ◌≤◌, ◌<◌, ◌≡◌, refl, sym, ap, ◌∙◌, ◌≢◌, ◌⊎◌, inl, inr, arith, ◌==◌, if◌then◌else◌, Bool-cases,
  ==_iff,
}
use cool_frost.Sched.{push, want_cr3}
use cool_frost.Sched.Types.{
  free, ready, running, done, Task, Queue, Sched, max_tasks, prio_levels, master_cr3_phys, update,
}
use cool_frost.Sched.Listed.{Listed, Listed-same, Listed-push}

-- Tasks of the pool beyond `task_count` are free; a slot in use has a level; only the current task
-- is running, and it is running or done; the address space loaded is the current task's.
pub record IsValid (s : Sched) : Type 0 where
  pub listed : Listed s.tasks s.queues
  pub count_in : s.count ≤ max_tasks
  pub unused : (i : ℕ) → s.count ≤ i → i < max_tasks → (s.tasks i).state ≡ free
  pub levels :
      (i : ℕ) → i < max_tasks → (s.tasks i).state ≢ free → (s.tasks i).priority < prio_levels
  pub cur_in : s.cur ≤ max_tasks
  pub cur_state :
      s.cur < max_tasks → ((s.tasks s.cur).state ≡ running) ⊎ ((s.tasks s.cur).state ≡ done)
  pub alone : (i : ℕ) → i < max_tasks → (s.tasks i).state ≡ running → i ≡ s.cur
  pub loaded : s.loaded_cr3 ≡ want_cr3 (s.tasks s.cur)

-- Two tasks that the invariant does not tell apart.
pub record Alike (t u : Task) : Type 0 where
  pub state : t.state ≡ u.state
  pub priority : t.priority ≡ u.priority
  pub cr3 : t.cr3 ≡ u.cr3

-- Changes of other fields of the tasks, and of other variables, keep the invariant.
pub Alike-IsValid :
    {s s' : Sched}
    → IsValid s
    → ((i : ℕ) → Alike (s.tasks i) (s'.tasks i))
    → s'.queues ≡ s.queues
    → s'.count ≡ s.count
    → s'.cur ≡ s.cur
    → s'.loaded_cr3 ≡ s.loaded_cr3
    → IsValid s'
Alike-IsValid {s} {s'} v same qs n c l = record {
  listed =
      subst (Listed s'.tasks) (sym qs)
        (Listed-same v.listed λ i p. ground (arith, (same i).state, (same i).priority));
  count_in = omega (arith, v.count_in);
  unused = λ i lo hi. sym ((same i).state) ∙ v.unused i (omega arith) hi;
  levels = λ i hi ne.
      omega (arith, (same i).priority, v.levels i hi (λ e. ne (sym ((same i).state) ∙ e)));
  cur_in = omega (arith, v.cur_in);
  cur_state = λ h.
      let stays = ap (λ k. (s'.tasks k).state) c ∙ sym ((same s.cur).state) in
      elim (v.cur_state (omega arith)) [ inl e ↦ inl (stays ∙ e) | inr e ↦ inr (stays ∙ e) ];
  alone = λ i hi e. v.alone i hi ((same i).state ∙ e) ∙ sym c;
  loaded =
      l
      ∙ v.loaded
      ∙ ap (λ k. if k == 0 then master_cr3_phys else k) ((same s.cur).cr3)
      ∙ ap (λ k. want_cr3 (s'.tasks k)) (sym c);
}

-- What holds when the next task is chosen: no task of the pool is running.
pub record IsPending (s : Sched) : Type 0 where
  pub listed : Listed s.tasks s.queues
  pub count_in : s.count ≤ max_tasks
  pub unused : (i : ℕ) → s.count ≤ i → i < max_tasks → (s.tasks i).state ≡ free
  pub levels :
      (i : ℕ) → i < max_tasks → (s.tasks i).state ≢ free → (s.tasks i).priority < prio_levels
  pub cur_in : s.cur ≤ max_tasks
  pub none_running : (i : ℕ) → i < max_tasks → (s.tasks i).state ≢ running
  pub loaded : s.loaded_cr3 ≡ want_cr3 (s.tasks s.cur)

-- A current task that does not run leaves nobody running.
pub IsValid-IsPending :
    {s : Sched} → IsValid s → (s.cur < max_tasks → (s.tasks s.cur).state ≢ running) → IsPending s
IsValid-IsPending {s} v off = record {
  listed = v.listed;
  count_in = v.count_in;
  unused = v.unused;
  levels = v.levels;
  cur_in = v.cur_in;
  none_running = λ i hi e.
      let same = v.alone i hi e in off (omega arith) (ap (λ k. (s.tasks k).state) (sym same) ∙ e);
  loaded = v.loaded;
}

-- The current task of the pool, running till now, is pushed at its level.
pub Expired-IsPending :
    {s s' : Sched} (t : Task)
    → IsValid s
    → s.cur < max_tasks
    → (s.tasks s.cur).state ≡ running
    → t.state ≡ ready
    → t.priority ≡ (s.tasks s.cur).priority
    → t.cr3 ≡ (s.tasks s.cur).cr3
    → s' ≡ record s {
      tasks = update s.tasks s.cur t;
      queues = update s.queues t.priority (push (s.queues t.priority) s.cur);
    }
    → IsPending s'
Expired-IsPending {s} t v hi run st pr cr e = subst IsPending (sym e) (record {
  listed = Listed-push v.listed t.priority s.cur t level hi (ground (arith, run)) st refl;
  count_in = v.count_in;
  unused = λ i lo lt. elim (Bool-cases (i == s.cur)) [
    | inl same ↦
        absurd (
          cc (sym run ∙ ap (λ k. (s.tasks k).state) (sym ((==_iff _ _).0 same)) ∙ v.unused i lo lt))
    | inr other ↦ rw other (v.unused i lo lt)
  ];
  levels = λ i lt ne. elim (Bool-cases (i == s.cur)) [
    | inl same ↦ rw same level
    | inr other ↦ rw other (v.levels i lt (rw other at ne))
  ];
  cur_in = v.cur_in;
  none_running = λ i lt now. elim (Bool-cases (i == s.cur)) [
    | inl same ↦ ground (arith, st)
    | inr other ↦ ground (arith, v.alone i lt (rw other at now))
  ];
  loaded = v.loaded ∙ ground (arith, cr);
})
  where
    level : t.priority < prio_levels
    level = omega (arith, pr, v.levels s.cur hi (λ f. ground (arith, run)))

-- The task that is chosen runs.
pub Chosen-IsValid :
    {s s' : Sched} (next : ℕ) (queues : ℕ → Queue) (cr3 rsp0 : ℕ)
    → IsPending s
    → next ≤ max_tasks
    → (next < max_tasks → (s.tasks next).state ≡ ready)
    → Listed (update s.tasks next (record (s.tasks next) { state = running })) queues
    → cr3 ≡ want_cr3 (s.tasks next)
    → s' ≡ record s {
      tasks = update s.tasks next (record (s.tasks next) { state = running });
      queues = queues;
      cur = next;
      loaded_cr3 = cr3;
      rsp0 = rsp0;
    }
    → IsValid s'
Chosen-IsValid {s} next queues cr3 rsp0 v le was l want e = subst IsValid (sym e) (record {
  listed = l;
  count_in = v.count_in;
  unused = λ i lo lt. elim (Bool-cases (i == next)) [
    | inl same ↦ absurd (
        cc (
          sym (was (ground arith))
          ∙ ap (λ k. (s.tasks k).state) (sym ((==_iff _ _).0 same))
          ∙ v.unused i lo lt))
    | inr other ↦ rw other (v.unused i lo lt)
  ];
  levels = λ i lt ne. elim (Bool-cases (i == next)) [
    | inl same ↦ rw same (v.levels next (ground arith) (λ f. cc (was (ground arith))))
    | inr other ↦ rw other (v.levels i lt (rw other at ne))
  ];
  cur_in = le;
  cur_state = λ h. inl (ground arith);
  alone = λ i lt now. elim (Bool-cases (i == next)) [
    | inl same ↦ (==_iff _ _).0 same
    | inr other ↦ absurd (v.none_running i lt (rw other at now))
  ];
  loaded = want ∙ ground arith;
})
