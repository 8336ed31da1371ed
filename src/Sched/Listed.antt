-- ===== src/Sched/Listed.antt =====
-- The run queues of cpu/sched.c against the task states: a task of the pool stands in the queue of
-- its level exactly once while it is ready, and in no other.
use cool_frost.Prelude.{
  ℕ, suc, ◌≤◌, ◌<◌, ◌≡◌, sym, ap, ◌∙◌, inl, inr, Bool, true, false, ◌&&◌, some, List, [], ◌∷◌, ◌++◌,
  arith, ltb, ◌==◌, if◌then◌else◌, Bool-cases,
}
use cool_frost.Sched.{push, pop}
use cool_frost.Sched.Types.{ready, is_ready, Task, Queue, max_tasks, prio_levels, update}
use cool_frost.Sched.Rings.{
  contents, IsRing, contents-push, contents-pop, count, count-snoc, room_of_absent, length-window,
}

-- task `i` of the pool is ready at level `p`
abbrev pub queued : (ℕ → Task) → ℕ → ℕ → Bool
queued tasks i p = ltb i max_tasks && is_ready (tasks i).state && (tasks i).priority == p

abbrev pub one_if : Bool → ℕ
one_if b = if b then 1 else 0

pub record Listed (tasks : ℕ → Task) (queues : ℕ → Queue) : Type 0 where
  pub rings : (p : ℕ) → p < prio_levels → IsRing (queues p)
  pub counts :
      (p i : ℕ) → p < prio_levels → count i (contents (queues p)) ≡ one_if (queued tasks i p)

-- Only who is queued where matters.
pub Listed-same :
    {tasks tasks' : ℕ → Task} {queues : ℕ → Queue}
    → Listed tasks queues
    → ((i p : ℕ) → queued tasks i p ≡ queued tasks' i p)
    → Listed tasks' queues
Listed-same l same = record {
  rings = l.rings;
  counts = λ p i h. l.counts p i h ∙ ap one_if (same i p);
}

one_if-le : (b : Bool) → one_if b ≤ 1
one_if-le b = ground arith

one_if-pos : (b : Bool) → 0 < one_if b → b ≡ true
one_if-pos b h = ground arith

count_head : (h : ℕ) (xs : List ℕ) → count h (h ∷ xs) ≡ suc (count h xs)
count_head h xs = ground arith

module _ {tasks : ℕ → Task} {queues : ℕ → Queue} (l : Listed tasks queues) where
  -- A ring never overflows: `rq_push` drops no task.
  pub room :
      (p i : ℕ)
      → p < prio_levels
      → i < max_tasks
      → queued tasks i p ≡ false
      → (queues p).size < max_tasks
  room p i hp hi out = omega (
    arith,
    length-window (queues p).buf (queues p).head (queues p).size,
    room_of_absent (contents (queues p)) i
        (λ t. omega (arith, l.counts p t hp, one_if-le (queued tasks t p)))
        (λ t le. l.counts p t hp ∙ ground arith) hi (l.counts p i hp ∙ ap one_if out),
  )

  -- A task that becomes ready and is pushed at its level.
  pub Listed-push :
      (p i : ℕ) (t : Task)
      → p < prio_levels
      → i < max_tasks
      → is_ready (tasks i).state ≡ false
      → t.state ≡ ready
      → t.priority ≡ p
      → Listed (update tasks i t) (update queues p (push (queues p) i))
  Listed-push p i t hp hi out st pr = record { rings = rings'; counts = counts' }
    where
      gone : (q : ℕ) → queued tasks i q ≡ false
      gone q = ground arith

      pushed :
          (contents (push (queues p) i) ≡ contents (queues p) ++ (i ∷ []))
          × IsRing (push (queues p) i)
      pushed = contents-push (queues p) i (l.rings p hp) (room p i hp hi (gone p))

      rings' : (q : ℕ) → q < prio_levels → IsRing (update queues p (push (queues p) i) q)
      rings' q hq = elim (Bool-cases (q == p)) [
        | inl e ↦ rw e (pushed.1)
        | inr e ↦ rw e (l.rings q hq)
      ]

      counts' :
          (q j : ℕ)
          → q < prio_levels
          → count j (contents (update queues p (push (queues p) i) q))
            ≡ one_if (queued (update tasks i t) j q)
      counts' q j hq = elim (Bool-cases (q == p)) [
        | inl e ↦ rw (e, pushed.0, count-snoc, l.counts p j hp) (ground (arith, st, pr, out))
        | inr e ↦ rw (e, l.counts q j hq) (ground (arith, st, pr, out))
      ]

  -- The head of a queue is ready at its level, and running it takes it off the queue.
  pub head-queued :
      (p : ℕ)
      → p < prio_levels
      → 0 < (queues p).size
      → queued tasks ((queues p).buf (queues p).head) p ≡ true
  head-queued p hp pos =
      let (e, _, _) = contents-pop (queues p) (l.rings p hp) pos in
      let h = (queues p).buf (queues p).head in
      let c : count h (contents (queues p)) ≡ suc (count h (contents (pop (queues p)).1)) =
        ap (count h) e ∙ count_head h _ in
      one_if-pos _ (omega (arith, c, l.counts p h hp))

  pub Listed-pop :
      (p : ℕ) (t : Task)
      → p < prio_levels
      → 0 < (queues p).size
      → is_ready t.state ≡ false
      → Listed
          (update tasks ((queues p).buf (queues p).head) t)
          (update queues p (pop (queues p)).1)
  Listed-pop p t hp pos off = record { rings = rings'; counts = counts' }
    where
      h : ℕ
      h = (queues p).buf (queues p).head

      popped :
          (contents (queues p) ≡ h ∷ contents (pop (queues p)).1)
          × ((pop (queues p)).0 ≡ some h)
          × IsRing (pop (queues p)).1
      popped = contents-pop (queues p) (l.rings p hp) pos

      rings' : (q : ℕ) → q < prio_levels → IsRing (update queues p (pop (queues p)).1 q)
      rings' q hq = elim (Bool-cases (q == p)) [
        | inl e ↦ rw e (popped.2)
        | inr e ↦ rw e (l.rings q hq)
      ]

      here :
          (j : ℕ)
          → (if j == h
              then suc (count j (contents (pop (queues p)).1))
              else count j (contents (pop (queues p)).1))
            ≡ one_if (queued tasks j p)
      here j = sym (ap (count j) (popped.0)) ∙ l.counts p j hp

      counts' :
          (q j : ℕ)
          → q < prio_levels
          → count j (contents (update queues p (pop (queues p)).1 q))
            ≡ one_if (queued (update tasks h t) j q)
      counts' q j hq = elim (Bool-cases (q == p)) [
        | inl e ↦
            rw e (ground (arith, here j, off, head-queued p hp pos, one_if-le (queued tasks j p)))
        | inr e ↦ rw (e, l.counts q j hq) (ground (arith, off, head-queued p hp pos))
      ]
