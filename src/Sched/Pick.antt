-- ===== src/Sched/Pick.antt =====
-- The choice of the next task in `sched_irq_end`: the oldest task of the highest level that has one.
use mathlib.Core.Path.{subst}
use native.Mathlib.Decide.{dec_lt}
use cool_frost.Prelude.{
  ℕ, zero, suc, ◌+◌, ◌≤◌, ◌<◌, ◌≡◌, sym, ap, ◌∙◌, inl, inr, true, false, Option, none, some, arith,
  ltb, Bool-cases, ltb→lt,
}
use cool_frost.Sched.{pop, pick}
use cool_frost.Sched.Types.{Queue, Sched, update}

-- What `pick` did, with `left` levels to look at from `p` on.
pub data Picked (s : Sched) (p left : ℕ) : Option ℕ × Sched → Type 0 where
  nothing : ((q : ℕ) → p ≤ q → q < p + left → (s.queues q).size ≡ 0) → Picked s p left (none, s)
  found :
      (l : ℕ)
      → p ≤ l
      → l < p + left
      → 0 < (s.queues l).size
      → ((q : ℕ) → p ≤ q → q < l → (s.queues q).size ≡ 0)
      → Picked s p left (
        some ((s.queues l).buf (s.queues l).head),
        record s { queues = update s.queues l (pop (s.queues l)).1 },
      )

pop_pos : (q : Queue) → 0 < q.size → (pop q).0 ≡ some (q.buf q.head)
unfolding pop
pop_pos q h = ground arith

pick_here :
    (s : Sched) (left p : ℕ)
    → ltb 0 (s.queues p).size ≡ true
    → pick s (suc left) p
      ≡ ((pop (s.queues p)).0, record s { queues = update s.queues p (pop (s.queues p)).1 })
unfolding pick
pick_here s left p h = rw h

pick_lower :
    (s : Sched) (left p : ℕ)
    → ltb 0 (s.queues p).size ≡ false
    → pick s (suc left) p ≡ pick s left (p + 1)
unfolding pick
pick_lower s left p h = rw h

Picked-lower :
    (s : Sched) (p left : ℕ) (r : Option ℕ × Sched)
    → (s.queues p).size ≡ 0
    → Picked s (p + 1) left r
    → Picked s p (suc left) r
Picked-lower s p left r e (nothing h) = nothing (λ q lo hi. elim (dec_lt p q) [
  | yes lt ↦ h q (omega arith) (omega arith)
  | no le ↦ ap (λ k. (s.queues k).size) (omega arith) ∙ e
])
Picked-lower s p left r e (found l lo hi pos h) =
    found l (omega arith) (omega arith) pos (λ q lo' hi'. elim (dec_lt p q) [
      | yes lt ↦ h q (omega arith) hi'
      | no le ↦ ap (λ k. (s.queues k).size) (omega arith) ∙ e
    ])

pub pick-Picked : (s : Sched) (left p : ℕ) → Picked s p left (pick s left p)
unfolding pick
pick-Picked s zero p = nothing (λ q lo hi. absurd (omega arith))
pick-Picked s (suc left) p = elim (Bool-cases (ltb 0 (s.queues p).size)) [
  | inl some_task ↦
      subst (Picked s p (suc left))
        (ap (λ n. (n, record s { queues = update s.queues p (pop (s.queues p)).1 }))
            (sym (pop_pos (s.queues p) (ltb→lt _ _ some_task)))
          ∙ sym (pick_here s left p some_task))
        (found p (omega arith) (omega arith) (ltb→lt _ _ some_task)
          (λ q lo hi. absurd (omega arith)))
  | inr no_task ↦
      subst (Picked s p (suc left)) (sym (pick_lower s left p no_task))
        (Picked-lower s p left (pick s left (p + 1)) (ground arith) (pick-Picked s left (p + 1)))
]
