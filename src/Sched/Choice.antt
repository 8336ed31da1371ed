-- ===== src/Sched/Choice.antt =====
-- What `sched_irq_end` chooses, and the contexts that it saves and restores.
use cool_frost.Prelude.{
  ℕ, ◌<◌, ◌≡◌, refl, sym, ap, ◌∙◌, ◌≢◌, inl, inr, false, not, ◌||◌, Option, arith, ◌==◌, Bool-cases,
}
use cool_frost.Sched.{pop, rq_push, requeue, pick, next_of, resume, dispatch, saved, sched_irq_end}
use cool_frost.Sched.Types.{Sched, max_tasks, prio_levels, idle, update}
use cool_frost.Sched.Pick.{Picked, nothing, found, pick-Picked}
use cool_frost.Sched.Inv.{IsValid, IsPending}
use cool_frost.Sched.Irq.{
  requeue-Requeued, requeue-IsValid, saved-IsValid, irq_keeps, irq_switches, head_ready,
}

-- No queue above the current task's level holds a task; none at all if the idle task is current.
abbrev pub IsHighest : Sched → Type 0
IsHighest s =
    (q : ℕ)
    → q < prio_levels
    → (s.cur < max_tasks → q < (s.tasks s.cur).priority)
    → (s.queues q).size ≡ 0

-- The fields of the state that `resume` sets.
resume_fields :
    (s : Sched) (next r : ℕ)
    → let s' = (resume s next r).1 in
      (s'.cur ≡ next)
      × (s'.queues ≡ s.queues)
      × ((s'.tasks next).priority ≡ (s.tasks next).priority)
      × ((s.tasks s.cur).rsp ≡ r → (resume s next r).0 ≡ (s.tasks next).rsp)
unfolding resume
resume_fields s next r = elim (Bool-cases (next == s.cur)) [
  | inl same ↦ rw same (ground arith, refl, ground arith, λ e. ground arith)
  | inr other ↦ rw other (refl, refl, ground arith, λ e. refl)
]

resume_rsp : (s : Sched) (next r i : ℕ) → ((resume s next r).1.tasks i).rsp ≡ (s.tasks i).rsp
unfolding resume
resume_rsp s next r i = elim (Bool-cases (next == s.cur)) [
  | inl same ↦ rw same (ground arith)
  | inr other ↦ rw other (ground arith)
]

-- A stack pointer of every task is kept, and the one returned is the chosen task's.
abbrev Restores : Sched → ℕ → ℕ × Sched → Type 0
Restores s r (rsp, s') =
    ((s.tasks s.cur).rsp ≡ r → rsp ≡ (s'.tasks s'.cur).rsp)
    × ((i : ℕ) → (s'.tasks i).rsp ≡ (s.tasks i).rsp)

resume-Restores : (s : Sched) (next r : ℕ) → Restores s r (resume s next r)
resume-Restores s next r =
    let (c, _, _, back) = resume_fields s next r in
    (
      λ e.
          back e
          ∙ sym (resume_rsp s next r next)
          ∙ ap (λ k. ((resume s next r).1.tasks k).rsp) (sym c),
      resume_rsp s next r,
    )

dispatch_choice :
    (s : Sched) (r : ℕ) → IsPending s → IsHighest (dispatch s r).1 × Restores s r (dispatch s r)
unfolding dispatch
dispatch_choice s r v = go (pick s prio_levels 0) (pick-Picked s prio_levels 0)
  where
    go :
        (got : Option ℕ × Sched)
        → Picked s 0 prio_levels got
        → IsHighest (resume (got.1) (next_of (got.0)) r).1
          × Restores s r (resume (got.1) (next_of (got.0)) r)
    go got (nothing h) =
        let (c, qs, _, _) = resume_fields s idle r in
        (λ q hq above. ap (λ k. (k q).size) qs ∙ h q (omega arith) hq, resume-Restores s idle r)
    go got (found l lo hi pos h) =
        let (lt, was, level) = head_ready {s = s} l v (omega arith) pos in
        let t : ℕ = (s.queues l).buf (s.queues l).head in
        let s1 : Sched = record s { queues = update s.queues l (pop (s.queues l)).1 } in
        let (c, qs, pr, _) = resume_fields s1 t r in
        (
          λ q hq above.
              let lower : q < l = omega (
                arith,
                above (omega arith),
                pr,
                level,
                ap (λ k. ((resume s1 t r).1.tasks k).priority) c,
              ) in
              ap (λ k. (k q).size) qs ∙ ground (arith, h q (omega arith) lower),
          resume-Restores s1 t r,
        )

requeue_kept :
    (s : Sched)
    → ((requeue s).1.cur ≡ s.cur) × ((i : ℕ) → ((requeue s).1.tasks i).rsp ≡ (s.tasks i).rsp)
unfolding requeue rq_push
requeue_kept s = (ground arith, λ i. ground arith)

module _ {s : Sched} (r : ℕ) (v : IsValid s)
    (on : (not s.active || not s.want_schedule) ≡ false) where
  pending : (requeue (saved s r)).0 ≡ false → IsPending (requeue (saved s r)).1
  pending spent =
      let u = saved-IsValid s r v in
      elim (requeue-IsValid (requeue (saved s r)) u (requeue-Requeued (saved s r) (u.cur_in))) [
        | inl (k, _) ↦ absurd (cc)
        | inr (_, p) ↦ p
      ]

  -- With the scheduler active and a reschedule wanted, in a valid state where the current task
  -- does not keep the CPU, sched_irq_end leaves as current a task such that no queue above its
  -- level holds a task, and the idle task only if all queues are empty.
  pub sched_irq_end-IsHighest : (requeue (saved s r)).0 ≡ false → IsHighest (sched_irq_end s r).1
  sched_irq_end-IsHighest spent =
      rw (irq_switches s r on spent) ((dispatch_choice _ r (pending spent)).0)

  -- With the scheduler active and a reschedule wanted, in a valid state, sched_irq_end returns the
  -- stack pointer saved in the task that is current afterwards, saves the interrupted stack
  -- pointer in the task that was current, and changes the saved stack pointer of no other task.
  pub sched_irq_end_contexts :
      let (rsp, s') = sched_irq_end s r in
      (rsp ≡ (s'.tasks s'.cur).rsp)
      × ((s'.tasks s.cur).rsp ≡ r)
      × ((i : ℕ) → i ≢ s.cur → (s'.tasks i).rsp ≡ (s.tasks i).rsp)
  sched_irq_end_contexts =
      let s1 = (requeue (saved s r)).1 in
      let (c, kept) = requeue_kept (saved s r) in
      let mine : (s1.tasks s.cur).rsp ≡ r = kept s.cur ∙ ground arith in
      let others : (i : ℕ) → i ≢ s.cur → (s1.tasks i).rsp ≡ (s.tasks i).rsp =
        λ i ne. kept i ∙ ground arith in
      elim (Bool-cases (requeue (saved s r)).0) [
        | inl k ↦
            rw (irq_keeps s r on k) (sym mine ∙ ap (λ k. (s1.tasks k).rsp) (sym c), mine, others)
        | inr k ↦
            let restored : Restores s1 r (dispatch s1 r) = (dispatch_choice s1 r (pending k)).1 in
            let (back, same) = restored in
            rw (irq_switches s r on k) (
              back (ap (λ k. (s1.tasks k).rsp) c ∙ mine),
              same s.cur ∙ mine,
              λ i ne. same i ∙ others i ne,
            )
      ]
