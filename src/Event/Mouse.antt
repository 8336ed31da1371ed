-- ===== src/Event/Mouse.antt =====
-- The events that one report of the mouse adds to the queue of ui/event.c.
use cool_frost.Prelude.{
  ℕ, bit_and, bit_xor, ◌≡◌, refl, sym, ap, ◌∙◌, Bool, true, false, inl, inr, Bool-cases, ◌&&◌, List,
  [], ◌∷◌, ◌++◌, arith, ◌==◌, if◌then◌else◌,
}
use cool_frost.Event.{
  Event, mouse_move, mouse_down, mouse_up, Events, evq_push, button_event, push_edges, move_event,
  event_push_mouse,
}
use cool_frost.Event.Pushes.{IsQueue, contents, enqueue, evq_push-enqueue}

-- a list of events put in the queue in order
abbrev pub enqueue_all : List Event → List Event → List Event
enqueue_all q [] = q
enqueue_all q (ev ∷ evs) = enqueue_all (enqueue q ev) evs

-- What a report says of the button of a bit: nothing where the bit is as in the last report, a press
-- where it is set now, a release where it is clear now.
abbrev pub edge : (x y new old bit : ℕ) → List Event
edge x y new old bit =
    let pressed : Event = record {
      kind = mouse_down;
      code = bit;
      ch = 0;
      buttons = new;
      x = x;
      y = y;
    } in
    let released : Event = record {
      kind = mouse_up;
      code = bit;
      ch = 0;
      buttons = new;
      x = x;
      y = y;
    } in
    if bit_and (bit_xor new old) bit == 0
    then []
    else if bit_and new bit == 0
    then released ∷ []
    else pressed ∷ []

-- the event for the move, where the position differs from the last
abbrev pub movement : (x y new : ℕ) → Events → List Event
movement x y new s =
    let moved : Event = record {
      kind = mouse_move;
      code = 0;
      ch = 0;
      buttons = new;
      x = x;
      y = y;
    } in
    if x == s.last_mx && y == s.last_my then [] else moved ∷ []

edge-button_event :
    (x y new old bit : ℕ)
    → edge x y new old bit
      ≡ (if bit_and (bit_xor new old) bit == 0 then [] else button_event x y new bit ∷ [])
edge-button_event x y new old bit = elim (Bool-cases (bit_and new bit == 0)) [
  | inl up ↦ rw up refl
  | inr down ↦ rw down refl
]

-- What a report tells: the left, right and middle button where they changed, then the move.
abbrev pub report : (x y new : ℕ) → Events → List Event
report x y new s =
    let old = s.last_buttons in
    (edge x y new old 1 ++ (edge x y new old 2 ++ edge x y new old 4)) ++ movement x y new s

enqueue_all-append :
    (q xs ys : List Event) → enqueue_all q (xs ++ ys) ≡ enqueue_all (enqueue_all q xs) ys
enqueue_all-append q [] ys = refl
enqueue_all-append q (x ∷ xs) ys = enqueue_all-append (enqueue q x) xs ys

-- The queue gets a list of events, and the variables for the last report stay.
record Adds (s : Events) (evs : List Event) (s' : Events) : Type 0 where
  queue : IsQueue s'
  adds : contents s' ≡ enqueue_all (contents s) evs
  mx : s'.last_mx ≡ s.last_mx
  my : s'.last_my ≡ s.last_my

Adds-trans :
    {s s' s'' : Events} (xs ys : List Event) → Adds s xs s' → Adds s' ys s'' → Adds s (xs ++ ys) s''
Adds-trans xs ys a b = record {
  queue = b.queue;
  adds = b.adds ∙ ap (λ q. enqueue_all q ys) (a.adds) ∙ sym (enqueue_all-append _ xs ys);
  mx = b.mx ∙ a.mx;
  my = b.my ∙ a.my;
}

evq_push-Adds : {s : Events} (ev : Event) → IsQueue s → Adds s (ev ∷ []) (evq_push s ev)
unfolding evq_push
evq_push-Adds {s} ev v =
    let (e, u) = evq_push-enqueue v ev in
    record { queue = u; adds = e; mx = ground arith; my = ground arith }

when-Adds :
    {s : Events} (quiet : Bool) (ev : Event)
    → IsQueue s
    → Adds s (if quiet then [] else ev ∷ []) (if quiet then s else evq_push s ev)
when-Adds true ev v = record { queue = v; adds = refl; mx = refl; my = refl }
when-Adds false ev v = evq_push-Adds ev v

edge-Adds :
    {s : Events} (x y new old bit : ℕ)
    → IsQueue s
    → Adds s
        (edge x y new old bit)
        (if bit_and (bit_xor new old) bit == 0 then s else evq_push s (button_event x y new bit))
edge-Adds {s} x y new old bit v =
    rw (edge-button_event x y new old bit)
      (when-Adds (bit_and (bit_xor new old) bit == 0) (button_event x y new bit) v)

push_edges-Adds :
    {s : Events} (x y new old : ℕ)
    → IsQueue s
    → Adds s
        (edge x y new old 1 ++ (edge x y new old 2 ++ edge x y new old 4))
        (push_edges 3 s x y new (bit_xor new old) 1)
unfolding push_edges
push_edges-Adds x y new old v =
    let first = edge-Adds x y new old 1 v in
    let second = edge-Adds x y new old 2 (first.queue) in
    let third = edge-Adds x y new old 4 (second.queue) in
    Adds-trans _ _ first (Adds-trans _ _ second third)

-- In a queue within its bounds, event_push_mouse puts in an event for each of the three buttons
-- that changed, mouse_down where its bit is now set and mouse_up where it is clear, with the bit
-- as its code, and then one mouse_move if the position changed; it drops those that find the queue
-- full, and keeps the report.
pub event_push_mouse_lem :
    {s : Events} (x y new : ℕ)
    → IsQueue s
    → let s' = event_push_mouse s x y new in
      (contents s' ≡ enqueue_all (contents s) (report x y new s))
      × (s'.last_mx ≡ x)
      × (s'.last_my ≡ y)
      × (s'.last_buttons ≡ new)
      × IsQueue s'
unfolding event_push_mouse
event_push_mouse_lem {s} x y new v =
    let edges = push_edges-Adds x y new s.last_buttons v in
    let moved = when-Adds (x == s.last_mx && y == s.last_my) (move_event x y new) (edges.queue) in
    let both = Adds-trans _ _ edges moved in
    let u = both.queue in
    (
      both.adds,
      refl,
      refl,
      refl,
      record { head_lt = u.head_lt; tail_lt = u.tail_lt; held_le = u.held_le },
    )
