-- ===== src/Event/Pushes.antt =====
-- The queue of ui/event.c as a bounded list, oldest event first.
use cool_frost.Prelude.{
  ℕ, suc, ◌+◌, ◌-◌, ◌%◌, ◌^◌, ◌≤◌, ◌<◌, ◌≡◌, refl, sym, ap, ◌∙◌, ◌≢◌, ◌⊎◌, inl, inr, true, false,
  none, some, List, [], ◌∷◌, ◌++◌, arith, ltb, leb, ◌==◌, if◌then◌else◌, Bool-cases, length, drop,
  wrap32, sub32, window, bit_and-mask, length-window, mod_apart, leb→le, window-snoc, lt→ltb,
  window-ext, drop-window, window_of_pos,
}
use mathlib.Core.Path.{ap₂}
use cool_frost.Event.{Event, Events, evq_cap, slot, store, evq_push, event_poll}

abbrev pub held : Events → ℕ
held s = sub32 s.tail s.head

pub record IsQueue (s : Events) : Type 0 where
  pub head_lt : s.head < 2 ^ 32
  pub tail_lt : s.tail < 2 ^ 32
  pub held_le : held s ≤ evq_cap

abbrev pub event_at : Events → ℕ → Event
event_at s i = s.evq (i % evq_cap)

abbrev pub contents : Events → List Event
contents s = window (event_at s) s.head (held s)

-- An event that finds the queue full is dropped.
abbrev pub enqueue : List Event → Event → List Event
enqueue q ev = if ltb (length q) evq_cap then q ++ (ev ∷ []) else q

slot_lem : (i : ℕ) → slot i ≡ i % evq_cap
unfolding slot
slot_lem i = bit_and-mask i 7

module _ {s : Events} (v : IsQueue s) where
  pub length-contents : length (contents s) ≡ held s
  length-contents = length-window (event_at s) s.head (held s)

  with_event : Event → Events
  with_event ev = record s { evq = store s.evq (slot s.tail) ev; tail = wrap32 (s.tail + 1) }

  with_event-IsQueue : (ev : Event) → held s < evq_cap → IsQueue (with_event ev)
  unfolding with_event
  with_event-IsQueue ev room = record {
    head_lt = v.head_lt;
    tail_lt = omega arith;
    held_le = omega (arith, v.head_lt, v.tail_lt);
  }

  tail_at : s.tail % evq_cap ≡ (s.head + held s) % evq_cap
  tail_at = omega (arith, v.head_lt, v.tail_lt)

  event_at-older :
      (ev : Event) (i : ℕ)
      → held s < evq_cap
      → i < held s
      → event_at (with_event ev) (s.head + i) ≡ event_at s (s.head + i)
  unfolding with_event store
  event_at-older ev i room lt =
      let apart : (s.head + i) % evq_cap ≢ slot s.tail = λ same.
        mod_apart evq_cap (s.head + i) (s.head + held s) (omega arith) (omega arith)
          (same ∙ slot_lem s.tail ∙ tail_at) in
      ground (arith, apart)

  event_at-newest : (ev : Event) → event_at (with_event ev) (s.head + held s) ≡ ev
  unfolding with_event store
  event_at-newest ev = ground (arith, slot_lem s.tail ∙ tail_at)

  contents-with_event :
      (ev : Event) → held s < evq_cap → contents (with_event ev) ≡ contents s ++ (ev ∷ [])
  unfolding with_event
  contents-with_event ev room =
      let e : held (with_event ev) ≡ suc (held s) = omega (arith, v.head_lt, v.tail_lt) in
      ap (window (event_at (with_event ev)) s.head) e
      ∙ window-snoc (event_at (with_event ev)) s.head (held s)
      ∙ ap₂ (λ xs y. xs ++ (y ∷ []))
          (window-ext _ _ s.head s.head (held s) (λ i lt. event_at-older ev i room lt))
          (event_at-newest ev)

  -- In a queue within its bounds, evq_push appends the event, or drops it if 128 are held.
  pub evq_push-enqueue :
      (ev : Event) → (contents (evq_push s ev) ≡ enqueue (contents s) ev) × IsQueue (evq_push s ev)
  unfolding evq_push with_event
  evq_push-enqueue ev = elim (Bool-cases (leb evq_cap (held s))) [
    | inl e ↦
        let full : ltb (length (contents s)) evq_cap ≡ false =
          ground (arith, length-contents, leb→le _ _ e) in
        rw (e, full) (refl, v)
    | inr e ↦
        let room : held s < evq_cap = ground arith in
        let free : ltb (length (contents s)) evq_cap ≡ true =
          lt→ltb _ _ (omega (arith, length-contents)) in
        rw (e, free) (contents-with_event ev room, with_event-IsQueue ev room)
  ]

  -- In a queue within its bounds, event_poll returns the oldest event and takes it off; it returns
  -- none, and changes nothing, only if the queue is empty.
  pub event_poll_lem :
      let (got, s') = event_poll s in
      ((got ≡ none) × (contents s ≡ []) × (s' ≡ s))
      ⊎ ((ev : Event) × (got ≡ some ev) × (contents s ≡ ev ∷ contents s') × IsQueue s')
  unfolding event_poll
  event_poll_lem = elim (Bool-cases (s.head == s.tail)) [
    | inl e ↦
        let none_held : held s ≡ 0 = ground (arith, v.head_lt, v.tail_lt) in
        rw e (inl (refl, ap (window (event_at s) s.head) none_held, refl))
    | inr e ↦
        let pos : 0 < held s = ground (arith, v.head_lt, v.tail_lt) in
        let less : sub32 s.tail (wrap32 (s.head + 1)) ≡ held s - 1 =
          omega (arith, v.head_lt, v.tail_lt) in
        let others : window (event_at s) (wrap32 (s.head + 1)) (sub32 s.tail (wrap32 (s.head + 1)))
            ≡ drop 1 (contents s) =
          ap (window (event_at s) (wrap32 (s.head + 1))) less
          ∙ window-ext (event_at s) (event_at s) _ (s.head + 1) (held s - 1)
              (λ i lt. ap s.evq (omega arith))
          ∙ sym (drop-window (event_at s) s.head (held s) 1 pos) in
        let oldest : contents s ≡ s.evq (slot s.head) ∷ drop 1 (contents s) =
          window_of_pos (event_at s) s.head (held s) pos
          ∙ ap (λ j. s.evq j ∷ drop 1 (contents s)) (sym (slot_lem s.head)) in
        rw e (
          inr (
            s.evq (slot s.head),
            refl,
            oldest ∙ ap (λ xs. s.evq (slot s.head) ∷ xs) (sym others),
            record {
              head_lt = omega arith;
              tail_lt = v.tail_lt;
              held_le = omega (arith, v.held_le);
            },
          ))
  ]
