-- ===== src/Event/Tests.antt =====
-- A full queue, a queue with room, and the theorems at them.
use cool_frost.Prelude.{◌-◌, ◌^◌, ◌≡◌, refl, arith, length}
use cool_frost.Event.{key_down, Event, Events, evq_push, push_edges, event_push_mouse}
use cool_frost.Event.Pushes.{IsQueue, contents}
use cool_frost.Event.Mouse.{enqueue_all, report, event_push_mouse_lem}

abbrev a_key : Event
a_key = record { kind = key_down; code = 30; ch = 97; buttons = 0; x = 5; y = 6 }

-- Two events, on both sides of the wrap of the indices.
abbrev two_keys : Events
two_keys = record {
  evq = λ _. a_key;
  head = 2 ^ 32 - 1;
  tail = 1;
  last_mx = 5;
  last_my = 6;
  last_buttons = 1;
}

two_keys-IsQueue : IsQueue two_keys
two_keys-IsQueue = record { head_lt = omega arith; tail_lt = omega arith; held_le = omega arith }

-- The left button goes up, the right one down, and the mouse moves.
three_more : length (contents (event_push_mouse two_keys 7 6 2)) ≡ 5
unfolding event_push_mouse push_edges evq_push
three_more = refl

event_push_mouse_lem_example :
    let s' = event_push_mouse two_keys 7 6 2 in
    (contents s' ≡ enqueue_all (contents two_keys) (report 7 6 2 two_keys))
    × (s'.last_mx ≡ 7)
    × (s'.last_my ≡ 6)
    × (s'.last_buttons ≡ 2)
    × IsQueue s'
event_push_mouse_lem_example = event_push_mouse_lem 7 6 2 two_keys-IsQueue
