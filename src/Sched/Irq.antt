-- ===== src/Sched/Irq.antt =====
-- `sched_irq_end` keeps the invariant, runs a task of the highest level, and saves and restores
-- the stack pointers.
use cool_frost.Prelude.{
  ℕ, ◌≤◌, ◌<◌, ◌≡◌, refl, sym, ap, ◌∙◌, ◌≢◌, ◌⊎◌, inl, inr, Bool, true, false, not, ◌&&◌, ◌||◌,
  Option, arith, ltb, ◌==◌, Bool-cases, sub32, ==_iff,
}
use cool_frost.Sched.{
  pop, pick, next_of, resume, dispatch, want_cr3, saved, sched_irq_end, requeue, rq_push, TaskState,
}
use cool_frost.Sched.Types.{
  ready, running, Queue, Sched, max_tasks, prio_levels, idle, update, blocked, done, free,
  is_running, set_task,
}
use cool_frost.Sched.Listed.{Listed, Listed-same, Listed-pop, head-queued}
use cool_frost.Sched.Pick.{Picked, nothing, found, pick-Picked}
use cool_frost.Sched.Inv.{
  IsValid, IsPending, Chosen-IsValid, Alike-IsValid, IsValid-IsPending, Expired-IsPending,
}

-- Whichever way it goes on, the chosen task is current and runs, in its own address space.
resume-IsValid :
    (s0 : Sched) (queues : ℕ → Queue) (next r : ℕ)
    → IsPending s0
    → next ≤ max_tasks
    → (next < max_tasks → (s0.tasks next).state ≡ ready)
    → Listed (update s0.tasks next (record (s0.tasks next) { state = running })) queues
    → IsValid (resume (record s0 { queues = queues }) next r).1
unfolding resume
resume-IsValid s0 queues next r v le was l = elim (Bool-cases (next == s0.cur)) [
  | inl same ↦ rw same (
      Chosen-IsValid {s = s0} next queues s0.loaded_cr3 s0.rsp0 v le was l
        (v.loaded ∙ ap (λ k. want_cr3 (s0.tasks k)) (sym ((==_iff _ _).0 same)))
        (ap
          (λ k. record s0 {
            queues = queues;
            cur = k;
            tasks = update s0.tasks k (record (s0.tasks k) { state = running });
          })
          {x = s0.cur} {y = next} (sym ((==_iff _ _).0 same))))
  | inr other ↦ rw other (Chosen-IsValid {s = s0} next queues _ _ v le was l (ground arith) refl)
]

-- The task at the head of a queue is in the pool and ready.
pub head_ready :
    {s : Sched} (p : ℕ)
    → IsPending s
    → p < prio_levels
    → 0 < (s.queues p).size
    → let t = (s.queues p).buf (s.queues p).head in
      (t < max_tasks) × ((s.tasks t).state ≡ ready) × ((s.tasks t).priority ≡ p)
head_ready {s} p v hp pos = ground (arith, head-queued v.listed p hp pos)

pub dispatch-IsValid : (s : Sched) (r : ℕ) → IsPending s → IsValid (dispatch s r).1
unfolding dispatch
dispatch-IsValid s r v = go (pick s prio_levels 0) (pick-Picked s prio_levels 0)
  where
    go :
        (got : Option ℕ × Sched)
        → Picked s 0 prio_levels got
        → IsValid (resume (got.1) (next_of (got.0)) r).1
    go got (nothing h) =
        resume-IsValid s s.queues idle r v (omega arith) (λ lt. absurd (omega arith))
          (Listed-same v.listed (λ i p. ground arith))
    go got (found l lo hi pos h) =
        let (lt, was, _) = head_ready l v (omega arith) pos in
        resume-IsValid s (update s.queues l (pop (s.queues l)).1)
          ((s.queues l).buf (s.queues l).head) r v (omega arith) (λ _. was)
          (Listed-pop v.listed l _ (omega arith) pos refl)

-- The three ways in which `requeue` goes: the task keeps the CPU, its quantum is used up, or it
-- is not to run on.
pub data Requeued (s : Sched) : Bool × Sched → Type 0 where
  keeps :
      (ts : ℕ)
      → s.cur < max_tasks
      → (s.tasks s.cur).state ≡ running
      → Requeued s (true, set_task s s.cur (record (s.tasks s.cur) { timeslice = ts }))
  expires :
      (ts : ℕ)
      → s.cur < max_tasks
      → (s.tasks s.cur).state ≡ running
      → Requeued s (
        false,
        rq_push
            (set_task s s.cur (record (s.tasks s.cur) { timeslice = ts; state = ready }))
            (s.tasks s.cur).priority
            s.cur,
      )
  stays : (s.cur < max_tasks → (s.tasks s.cur).state ≢ running) → Requeued s (false, s)

is_running_iff : (t : TaskState) → is_running t ≡ true → t ≡ running
is_running_iff free e = cc
is_running_iff ready e = cc
is_running_iff running e = refl
is_running_iff blocked e = cc
is_running_iff done e = cc

pub requeue-Requeued : (s : Sched) → s.cur ≤ max_tasks → Requeued s (requeue s)
unfolding requeue
requeue-Requeued s le =
    elim (Bool-cases (not (s.cur == idle) && is_running (s.tasks s.cur).state)) [
      | inr off ↦ rw off (stays (λ lt now. ground arith))
      | inl on ↦
          let run : (s.tasks s.cur).state ≡ running = is_running_iff _ (ground arith) in
          let lt : s.cur < max_tasks = ground arith in
          elim (Bool-cases (ltb 0 (sub32 (s.tasks s.cur).timeslice 1))) [
            | inl more ↦ rw (on, more) (keeps _ lt run)
            | inr spent ↦ rw (on, spent) (expires _ lt run)
          ]
    ]

pub saved-IsValid : (s : Sched) (r : ℕ) → IsValid s → IsValid (saved s r)
saved-IsValid s r v = Alike-IsValid v (λ i. ground arith) refl refl refl refl

-- After `requeue` the state is valid, or ready for the choice of the next task.
pub requeue-IsValid :
    {s : Sched} (r : Bool × Sched)
    → IsValid s
    → Requeued s r
    → ((r.0 ≡ true) × IsValid (r.1)) ⊎ ((r.0 ≡ false) × IsPending (r.1))
unfolding rq_push
requeue-IsValid r v (keeps ts lt run) =
    inl (refl, Alike-IsValid v (λ i. ground arith) refl refl refl refl)
requeue-IsValid {s} r v (expires ts lt run) = inr (
  refl,
  Expired-IsPending (record (s.tasks s.cur) { timeslice = ts; state = ready }) v lt run refl refl
      refl refl,
)
requeue-IsValid r v (stays off) = inr (refl, IsValid-IsPending v off)

irq_idle :
    (s : Sched) (r : ℕ) → (not s.active || not s.want_schedule) ≡ true → sched_irq_end s r ≡ (r, s)
unfolding sched_irq_end
irq_idle s r e = rw e

pub irq_keeps :
    (s : Sched) (r : ℕ)
    → (not s.active || not s.want_schedule) ≡ false
    → (requeue (saved s r)).0 ≡ true
    → sched_irq_end s r ≡ (r, (requeue (saved s r)).1)
unfolding sched_irq_end
irq_keeps s r e k = rw (e, k)

pub irq_switches :
    (s : Sched) (r : ℕ)
    → (not s.active || not s.want_schedule) ≡ false
    → (requeue (saved s r)).0 ≡ false
    → sched_irq_end s r ≡ dispatch (requeue (saved s r)).1 r
unfolding sched_irq_end
irq_switches s r e k = rw (e, k)

-- `sched_irq_end` keeps the invariant of the scheduler on every path.
pub sched_irq_end-IsValid : {s : Sched} (r : ℕ) → IsValid s → IsValid (sched_irq_end s r).1
sched_irq_end-IsValid {s} r v = elim (Bool-cases (not s.active || not s.want_schedule)) [
  | inl off ↦ rw (irq_idle s r off) v
  | inr on ↦
      let u = saved-IsValid s r v in
      elim (requeue-IsValid (requeue (saved s r)) u (requeue-Requeued (saved s r) (u.cur_in))) [
        | inl (k, valid) ↦ rw (irq_keeps s r on k) valid
        | inr (k, pending) ↦ rw (irq_switches s r on k) (dispatch-IsValid _ r pending)
      ]
]
