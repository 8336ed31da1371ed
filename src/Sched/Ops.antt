-- ===== src/Sched/Ops.antt =====
-- The other operations of cpu/sched.c keep the invariant, and so does every run of the scheduler.
use native.Mathlib.Nat.{le_refl}
use mathlib.Core.Path.{subst}
use native.Mathlib.Decide.{dec_lt}
use cool_frost.Prelude.{
  ℕ, zero, suc, ◌≤◌, ◌<◌, ◌≡◌, refl, sym, ap, ◌∙◌, inl, inr, true, false, List, arith, ◌==◌,
  if◌then◌else◌, Bool-cases, ==_iff,
}
use cool_frost.Sched.{
  free_slots, sched_init, sched_run, sched_tick, sched_kill_current, sched_want_reschedule,
  sched_yield, sched_exit, sched_irq_end, want_cr3,
}
use cool_frost.Sched.Submit.{sched_submit_prio, sched_submit_user, sched_submit_user_as}
use cool_frost.Sched.Types.{
  free, running, done, Task, Sched, max_tasks, prio_levels, idle, update, set_task, master_cr3_phys,
}
use cool_frost.Sched.Rings.{count, window}
use cool_frost.Sched.Listed.{Listed, Listed-same, queued, one_if}
use cool_frost.Sched.Inv.{IsValid, Alike-IsValid}
use cool_frost.Sched.Irq.{sched_irq_end-IsValid}
use cool_frost.Sched.Submit.Outcome.{submit-IsValid}

pub sched_run-IsValid : {s : Sched} → IsValid s → IsValid (sched_run s)
unfolding sched_run
sched_run-IsValid v =
    Alike-IsValid v (λ i. record { state = refl; priority = refl; cr3 = refl }) refl refl refl refl

tick_off : (s : Sched) → s.active ≡ false → sched_tick s ≡ s
unfolding sched_tick
tick_off s e = ground arith

pub sched_tick-IsValid : {s : Sched} → IsValid s → IsValid (sched_tick s)
unfolding sched_tick
sched_tick-IsValid {s} v = elim (Bool-cases s.active) [
  | inl on ↦ rw on (
      Alike-IsValid v (λ i. record { state = refl; priority = refl; cr3 = refl }) refl refl refl
        (refl))
  | inr off ↦ subst IsValid (sym (tick_off s off)) v
]

pub sched_want_reschedule-IsValid : {s : Sched} → IsValid s → IsValid (sched_want_reschedule s)
unfolding sched_want_reschedule
sched_want_reschedule-IsValid {s} v = Alike-IsValid v (λ i. ground arith) refl refl refl refl

-- The current task, done from now on.
done-IsValid :
    (s : Sched)
    → IsValid s
    → IsValid (record (set_task s s.cur (record (s.tasks s.cur) { state = done })) {
      want_schedule = true;
    })
done-IsValid s v = record {
  listed = Listed-same v.listed same;
  count_in = v.count_in;
  unused = λ i lo hi. elim (Bool-cases (i == s.cur)) [
    | inl e ↦ absurd (elim (v.cur_state (ground arith)) [
      | inl run ↦
          cc (sym run ∙ ap (λ k. (s.tasks k).state) (sym ((==_iff _ _).0 e)) ∙ v.unused i lo hi)
      | inr over ↦
          cc (sym over ∙ ap (λ k. (s.tasks k).state) (sym ((==_iff _ _).0 e)) ∙ v.unused i lo hi)
    ])
    | inr ne ↦ rw ne (v.unused i lo hi)
  ];
  levels = λ i hi ne. elim (Bool-cases (i == s.cur)) [
    | inl e ↦ rw e (
        v.levels s.cur (ground arith) (λ f. elim (v.cur_state (ground arith)) [
          | inl run ↦ cc (sym run ∙ f)
          | inr over ↦ cc (sym over ∙ f)
        ]))
    | inr other ↦ rw other (v.levels i hi (rw other at ne))
  ];
  cur_in = v.cur_in;
  cur_state = λ h. inr (ground arith);
  alone = λ i hi e. elim (Bool-cases (i == s.cur)) [
    | inl same_task ↦ (==_iff _ _).0 same_task
    | inr other ↦ v.alone i hi (rw other at e)
  ];
  loaded = v.loaded ∙ ground arith;
}
  where
    same :
        (i p : ℕ)
        → queued s.tasks i p
          ≡ queued (update s.tasks s.cur (record (s.tasks s.cur) { state = done })) i p
    same i p = elim (Bool-cases (i == s.cur)) [
      | inr other ↦ rw other
      | inl e ↦ elim (dec_lt s.cur max_tasks) [
        | no out ↦ ground arith
        | yes hi ↦ elim (v.cur_state hi) [
          | inl run ↦ ground (arith, run)
          | inr over ↦ ground (arith, over)
        ]
      ]
    ]

pub sched_kill_current-IsValid : {s : Sched} → IsValid s → IsValid (sched_kill_current s)
unfolding sched_kill_current
sched_kill_current-IsValid {s} v = elim (Bool-cases (s.cur == idle)) [
  | inl e ↦ rw e v
  | inr e ↦ rw e (done-IsValid s v)
]

-- The state at boot: BSS is zero, no task was submitted, and `boot` set up the page tables.
pub record AtBoot (s : Sched) : Type 0 where
  pub empty :
      (p : ℕ)
      → p < prio_levels
      → ((s.queues p).head ≡ 0) × ((s.queues p).tail ≡ 0) × ((s.queues p).size ≡ 0)
  pub no_tasks : s.count ≡ 0
  pub shared : (s.tasks idle).cr3 ≡ 0
  pub master : s.loaded_cr3 ≡ master_cr3_phys

free_slots_state : (n : ℕ) (tasks : ℕ → Task) (i : ℕ) → i < n → (free_slots n tasks i).state ≡ free
unfolding free_slots
free_slots_state zero tasks i h = absurd (omega arith)
free_slots_state (suc n) tasks i h = elim (Bool-cases (i == n)) [
  | inl e ↦ rw e
  | inr e ↦ rw e (free_slots_state n tasks i (ground arith))
]

free_slots_above : (n : ℕ) (tasks : ℕ → Task) (i : ℕ) → n ≤ i → free_slots n tasks i ≡ tasks i
unfolding free_slots
free_slots_above zero tasks i h = refl
free_slots_above (suc n) tasks i h =
    let ne : (i == n) ≡ false = ground arith in rw ne (free_slots_above n tasks i (omega arith))

init_free : (s : Sched) (i : ℕ) → i < max_tasks → ((sched_init s).tasks i).state ≡ free
unfolding sched_init
init_free s i h =
    let ne : (i == idle) ≡ false = ground arith in rw ne (free_slots_state max_tasks s.tasks i h)

init_idle_cr3 : (s : Sched) → ((sched_init s).tasks idle).cr3 ≡ (s.tasks idle).cr3
unfolding sched_init
init_idle_cr3 s = ap (λ t. t.cr3) (free_slots_above max_tasks s.tasks idle (le_refl _))

init_kept :
    (s : Sched)
    → let s' = sched_init s in
      (s'.queues ≡ s.queues)
      × (s'.count ≡ s.count)
      × (s'.cur ≡ idle)
      × (s'.loaded_cr3 ≡ s.loaded_cr3)
unfolding sched_init
init_kept s = (refl, refl, refl, refl)

free_unqueued :
    (tasks : ℕ → Task) (i p : ℕ)
    → (i < max_tasks → (tasks i).state ≡ free)
    → queued tasks i p ≡ false
free_unqueued tasks i p h = elim (dec_lt i max_tasks) [
  | yes lt ↦ ground (arith, h lt)
  | no out ↦ ground arith
]

boot-Listed : {s : Sched} → AtBoot s → Listed (sched_init s).tasks s.queues
boot-Listed {s} boot = record {
  rings = λ p hp.
      let (h, t, n) = boot.empty p hp in
      record { head_in = omega arith; size_in = omega arith; tail_at = omega arith };
  counts = λ p i hp.
      let (h, t, n) = boot.empty p hp in
      ap (λ k. count i (window (s.queues p).buf (s.queues p).head k)) n
      ∙ ap one_if (sym (free_unqueued (sched_init s).tasks i p (init_free s i)));
}

-- `sched_init` establishes the invariant.
pub sched_init-IsValid : {s : Sched} → AtBoot s → IsValid (sched_init s)
sched_init-IsValid {s} boot =
    let (qs, n, c, l) = init_kept s in
    record {
      listed = subst (Listed (sched_init s).tasks) (sym qs) (boot-Listed boot);
      count_in = omega (arith, n, boot.no_tasks);
      unused = λ i lo hi. init_free s i hi;
      levels = λ i hi ne. absurd (ne (init_free s i hi));
      cur_in = omega (arith, c);
      cur_state = λ h. absurd (omega (arith, c));
      alone = λ i hi e. absurd (cc (sym e ∙ init_free s i hi));
      loaded =
          l
          ∙ boot.master
          ∙ ap (λ k. if k == 0 then master_cr3_phys else k) (sym (init_idle_cr3 s ∙ boot.shared))
          ∙ ap (λ k. want_cr3 ((sched_init s).tasks k)) (sym c);
    }

-- A step of the kernel as the scheduler sees it. The calls come from the task that runs; the timer
-- and the other interrupts come whenever the scheduler is entered.
pub data Step : Sched → Sched → Type 0 where
  start : (s : Sched) → Step s (sched_run s)
  tick : (s : Sched) → Step s (sched_tick s)
  irq_end : (s : Sched) (rsp : ℕ) → Step s (sched_irq_end s rsp).1
  kill : (s : Sched) → Step s (sched_kill_current s)
  want : (s : Sched) → Step s (sched_want_reschedule s)
  submit :
      (s : Sched) (name : List ℕ) (func arg priority : ℕ)
      → (s.tasks s.cur).state ≡ running
      → Step s (sched_submit_prio s name func arg priority).1
  submit_user :
      (s : Sched) (name : List ℕ) (entry arg : ℕ)
      → (s.tasks s.cur).state ≡ running
      → Step s (sched_submit_user s name entry arg).1
  submit_user_as :
      (s : Sched) (name : List ℕ) (entry arg cr3 top : ℕ)
      → (s.tasks s.cur).state ≡ running
      → Step s (sched_submit_user_as s name entry arg cr3 top).1
  yield_cpu : (s : Sched) (rsp : ℕ) → Step s (sched_yield s rsp).1
  exit : (s : Sched) (rsp : ℕ) → Step s (sched_exit s rsp).1

pub data Reach (s : Sched) : Sched → Type 0 where
  here : Reach s s
  next : {t u : Sched} → Reach s t → Step t u → Reach s u

Step-IsValid : {s t : Sched} → Step s t → IsValid s → IsValid t
unfolding sched_yield sched_exit
Step-IsValid (start s) v = sched_run-IsValid v
Step-IsValid (tick s) v = sched_tick-IsValid v
Step-IsValid (irq_end s rsp) v = sched_irq_end-IsValid rsp v
Step-IsValid (kill s) v = sched_kill_current-IsValid v
Step-IsValid (want s) v = sched_want_reschedule-IsValid v
Step-IsValid (submit s name func arg priority live) v =
    (submit-IsValid s name func arg v (λ _. live) priority 0 0).0
Step-IsValid (submit_user s name entry arg live) v =
    (submit-IsValid s name entry arg v (λ _. live) 0 0 0).1
Step-IsValid (submit_user_as s name entry arg cr3 top live) v =
    (submit-IsValid s name entry arg v (λ _. live) 0 cr3 top).2
Step-IsValid (yield_cpu s rsp) v = sched_irq_end-IsValid rsp (sched_want_reschedule-IsValid v)
Step-IsValid (exit s rsp) v = sched_irq_end-IsValid rsp (done-IsValid s v)

Reach-IsValid : {s t : Sched} → Reach s t → IsValid s → IsValid t
Reach-IsValid here v = v
Reach-IsValid (next r st) v = Step-IsValid st (Reach-IsValid r v)

-- From boot on, every state that any sequence of scheduler calls, ticks and interrupts reaches
-- keeps the invariant: only the current task of the pool runs, each ready task stands exactly once
-- in the run queue of its level and in no other, the queues are rings in bounds, slots beyond the
-- count are free, and the address space loaded is the one of the current task. Submissions come
-- from a current task that is running.
pub boot-IsValid : {s t : Sched} → AtBoot s → Reach (sched_init s) t → IsValid t
boot-IsValid boot r = Reach-IsValid r (sched_init-IsValid boot)
