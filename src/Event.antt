-- ===== src/Event.antt =====
-- ui/event.c: the queue of input events, from interrupt handlers to the window manager. The
-- consumer masks interrupts, so each operation is one step.
pub mod Pushes
pub mod Mouse
mod Tests
use cool_frost.Prelude.{
  ℕ, zero, suc, ◌+◌, ◌-◌, ◌*◌, ◌/◌, ◌%◌, ◌^◌, ◌≤◌, ◌<◌, min, bit_and, bit_or, bit_xor, ◌≡◌, refl,
  sym, ap, ◌∙◌, ◌≢◌, ◌↔◌, ◌⊎◌, inl, inr, Bool, true, false, not, ◌&&◌, ◌||◌, Option, none, some,
  List, [], ◌∷◌, ◌++◌, map, arith, ltb, leb, ◌==◌, if◌then◌else◌, Bool-cases, Option-cases, length,
  get_elem?, get_or, set, take, drop, replicate, wrap8, wrap32, wrap64, sub32, sub64,
}

-- `event_type_t`, without EV_NONE, which no event in the queue has
pub data EventType : Type 0 where
  key_down key_up mouse_move mouse_down mouse_up : EventType

-- `event_t`. A coordinate is the 32 bits of its int32_t.
pub record Event : Type 0 where
  pub kind : EventType
  pub code : ℕ
  pub ch : ℕ
  pub buttons : ℕ
  pub x : ℕ
  pub y : ℕ

abbrev pub evq_cap : ℕ
evq_cap = 128

-- the int32_t -1
abbrev pub unseen : ℕ
unseen = 2 ^ 32 - 1

-- the static variables of ui/event.c
pub record Events : Type 0 where
  pub evq : ℕ → Event
  pub head : ℕ
  pub tail : ℕ
  pub last_mx : ℕ
  pub last_my : ℕ
  pub last_buttons : ℕ

pub event_init : Events → Events
event_init s = record s { head = 0; tail = 0; last_mx = unseen; last_my = unseen; last_buttons = 0 }

-- `evq_tail & (EVQ_CAP - 1)` and its like
pub slot : ℕ → ℕ
slot i = bit_and i (evq_cap - 1)

pub store : (ℕ → Event) → ℕ → Event → ℕ → Event
store evq i ev j = if j == i then ev else evq j

pub evq_push : Events → Event → Events
evq_push s ev =
    if leb evq_cap (sub32 s.tail s.head)
    then s
    else record s { evq = store s.evq (slot s.tail) ev; tail = wrap32 (s.tail + 1) }

pub event_poll : Events → Option Event × Events
event_poll s =
    if s.head == s.tail
    then (none, s)
    else (some (s.evq (slot s.head)), record s { head = wrap32 (s.head + 1) })

pub event_push_key : Events → (scancode : ℕ) (down : Bool) (ch : ℕ) → Events
event_push_key s scancode down ch = evq_push s (record {
  kind = if down then key_down else key_up;
  code = scancode;
  ch = if down then ch else 0;
  buttons = s.last_buttons;
  x = s.last_mx;
  y = s.last_my;
})

abbrev pub button_event : (x y buttons bit : ℕ) → Event
button_event x y buttons bit = record {
  kind = if bit_and buttons bit == 0 then mouse_up else mouse_down;
  code = bit;
  ch = 0;
  buttons = buttons;
  x = x;
  y = y;
}

-- The loop over the bits, with `left` of them to look at.
pub push_edges : ℕ → Events → (x y buttons changed bit : ℕ) → Events
push_edges zero s x y buttons changed bit = s
push_edges (suc left) s x y buttons changed bit =
    let s' = if bit_and changed bit == 0 then s else evq_push s (button_event x y buttons bit) in
    push_edges left s' x y buttons changed (wrap8 (bit * 2))

abbrev pub move_event : (x y buttons : ℕ) → Event
move_event x y buttons = record {
  kind = mouse_move;
  code = 0;
  ch = 0;
  buttons = buttons;
  x = x;
  y = y;
}

-- The bits are 1, 2 and 4.
pub event_push_mouse : Events → (x y buttons : ℕ) → Events
event_push_mouse s x y buttons =
    let s' = push_edges 3 s x y buttons (bit_xor buttons s.last_buttons) 1 in
    let s'' =
      if x == s.last_mx && y == s.last_my then s' else evq_push s' (move_event x y buttons) in
    record s'' { last_mx = x; last_my = y; last_buttons = buttons }
