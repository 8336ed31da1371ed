-- ===== src/Ringbuf.antt =====
-- libc/ringbuf.h: a ring of bytes whose read and write indices run freely and wrap with the word.
pub mod Contents
pub mod Pop
pub mod Bulk
mod Tests
use cool_frost.Prelude.{
  ℕ, zero, suc, ◌+◌, ◌-◌, ◌*◌, ◌/◌, ◌%◌, ◌^◌, ◌≤◌, ◌<◌, min, bit_and, bit_or, bit_xor, ◌≡◌, refl,
  sym, ap, ◌∙◌, ◌≢◌, ◌↔◌, ◌⊎◌, inl, inr, Bool, true, false, not, ◌&&◌, ◌||◌, Option, none, some,
  List, [], ◌∷◌, ◌++◌, map, arith, ltb, leb, ◌==◌, if◌then◌else◌, Bool-cases, Option-cases, length,
  get_elem?, get_or, set, take, drop, replicate, wrap8, wrap32, wrap64, sub32, sub64,
}

-- `ringbuf_t`, with the `cap` bytes at `buf`
pub record RingBuf : Type 0 where
  pub buf : List ℕ
  pub cap : ℕ
  pub head : ℕ
  pub tail : ℕ

pub init : List ℕ → ℕ → RingBuf
init buf cap = record { buf = buf; cap = cap; head = 0; tail = 0 }

pub empty : RingBuf → Bool
empty rb = rb.head == rb.tail

pub full : RingBuf → Bool
full rb = sub64 rb.tail rb.head == rb.cap

pub len : RingBuf → ℕ
len rb = sub64 rb.tail rb.head

pub space : RingBuf → ℕ
space rb = sub64 rb.cap (sub64 rb.tail rb.head)

-- `rb->buf[i & (rb->cap - 1)]`
pub slot : RingBuf → ℕ → ℕ
slot rb i = bit_and i (sub64 rb.cap 1)

-- `none` where the code returns -1
pub push : RingBuf → ℕ → Option RingBuf
push rb byte =
    if full rb
    then none
    else some (record rb { buf = set rb.buf (slot rb rb.tail) byte; tail = wrap64 (rb.tail + 1) })

pub pop : RingBuf → Option (ℕ × RingBuf)
pop rb =
    if empty rb
    then none
    else some (get_or rb.buf (slot rb rb.head) 0, record rb { head = wrap64 (rb.head + 1) })

pub peek : RingBuf → Option ℕ
peek rb = if empty rb then none else some (get_or rb.buf (slot rb rb.head) 0)

pub peek_at : RingBuf → ℕ → Option ℕ
peek_at rb k =
    if leb (len rb) k then none else some (get_or rb.buf (slot rb (wrap64 (rb.head + k))) 0)

-- The loop of `ringbuf_write` over the bytes of `src`, with the number of bytes written.
pub write : RingBuf → List ℕ → ℕ × RingBuf
write rb [] = (0, rb)
write rb (byte ∷ src) = elim (push rb byte) [
  | none ↦ (0, rb)
  | some rb' ↦ let (i, rb'') = write rb' src in (suc i, rb'')
]

-- The loop of `ringbuf_read`: the bytes stored at `dst`, at most `n`.
pub read : RingBuf → ℕ → List ℕ × RingBuf
read rb zero = ([], rb)
read rb (suc n) = elim (pop rb) [
  | none ↦ ([], rb)
  | some (byte, rb') ↦ let (dst, rb'') = read rb' n in (byte ∷ dst, rb'')
]

pub discard : RingBuf → ℕ → ℕ × RingBuf
discard rb n =
    let n' = if ltb (len rb) n then len rb else n in
    (n', record rb { head = wrap64 (rb.head + n') })

pub clear : RingBuf → RingBuf
clear rb = record rb { head = 0; tail = 0 }
