-- ===== src/Ringbuf/Contents.antt =====
-- What the ring of libc/ringbuf.h holds, oldest byte first, and what one push or pop does to it.
use cool_frost.Prelude.{
  ℕ, suc, ◌+◌, ◌%◌, ◌^◌, ◌≤◌, ◌<◌, bit_and, ◌≡◌, refl, sym, ap, ◌∙◌, inl, inr, Option, none, some,
  List, [], ◌∷◌, ◌++◌, arith, ◌==◌, Bool-cases, length, get_or, set, wrap64, sub64, window,
  window-ext, window-snoc, length-window, get_or-set_self, get_or-set_ne, length-set, bit_and-mask,
  mod-wrap, mod_apart, pow-pos, ==_iff,
}
use mathlib.Core.Path.{ap₂}
use native.Mathlib.Nat.{mod-lt, pow-le-pow_right}
use cool_frost.Ringbuf.{RingBuf, full, len, slot, push}

-- The capacity is a power of two, the buffer has that many bytes, and no more are held.
pub record IsRing (rb : RingBuf) : Type 0 where
  pub log : ℕ
  pub log_lt : log < 64
  pub cap_pow : rb.cap ≡ 2 ^ log
  pub buf_len : length rb.buf ≡ rb.cap
  pub head_lt : rb.head < 2 ^ 64
  pub tail_lt : rb.tail < 2 ^ 64
  pub len_le : len rb ≤ rb.cap

-- the byte that the free-running index `i` stands for
abbrev pub byte_at : RingBuf → ℕ → ℕ
byte_at rb i = get_or rb.buf (i % rb.cap) 0

abbrev pub contents : RingBuf → List ℕ
contents rb = window (byte_at rb) rb.head (len rb)

pow-lt : (k : ℕ) → k < 64 → 2 ^ k < 2 ^ 64
pow-lt k lt =
    let le : 2 ^ k ≤ 2 ^ 63 = pow-le-pow_right (omega arith) {j = 63} (omega arith) in omega arith

module _ {rb : RingBuf} (v : IsRing rb) where
  pub cap-pos : 0 < rb.cap
  cap-pos = omega (arith, pow-pos v.log, v.cap_pow)

  pub cap-lt : rb.cap < 2 ^ 64
  cap-lt = omega (arith, pow-lt v.log v.log_lt, v.cap_pow)

  pub slot_lem : (i : ℕ) → slot rb i ≡ i % rb.cap
  unfolding slot
  slot_lem i =
      ap (bit_and i) (omega (arith, cap-pos, cap-lt, v.cap_pow))
      ∙ bit_and-mask i v.log
      ∙ ap (λ c. i % c) (sym v.cap_pow)

  pub slot-lt : (i : ℕ) → slot rb i < length rb.buf
  slot-lt i = omega (arith, slot_lem i, v.buf_len, mod-lt i cap-pos)

  pub byte_at-wrap : (i : ℕ) → byte_at rb (wrap64 i) ≡ byte_at rb i
  byte_at-wrap i =
      ap (λ j. get_or rb.buf j 0) (rw v.cap_pow (mod-wrap 64 i v.log (omega (arith, v.log_lt))))

  pub length-contents : length (contents rb) ≡ len rb
  length-contents = length-window (byte_at rb) rb.head (len rb)

  -- the write index, and the one read after `k` reads
  tail_at : rb.tail % rb.cap ≡ (rb.head + len rb) % rb.cap
  unfolding len
  tail_at =
      let e : rb.tail ≡ wrap64 (rb.head + len rb) = omega (arith, v.head_lt, v.tail_lt) in
      ap (λ i. i % rb.cap) e ∙ rw v.cap_pow (mod-wrap 64 _ v.log (omega (arith, v.log_lt)))

-- what `push` returns: no room, or the byte is the last of the contents
pub data Pushed (rb : RingBuf) (byte : ℕ) : Option RingBuf → Type 0 where
  refused : length (contents rb) ≡ rb.cap → Pushed rb byte none
  appended :
      {rb' : RingBuf}
      → length (contents rb) < rb.cap
      → contents rb' ≡ contents rb ++ (byte ∷ [])
      → rb'.cap ≡ rb.cap
      → IsRing rb'
      → Pushed rb byte (some rb')

module _ {rb : RingBuf} (v : IsRing rb) where
  pushed : ℕ → RingBuf
  pushed byte = record rb { buf = set rb.buf (slot rb rb.tail) byte; tail = wrap64 (rb.tail + 1) }

  len-pushed : (byte : ℕ) → len rb < rb.cap → len (pushed byte) ≡ len rb + 1
  unfolding len pushed
  len-pushed byte room = omega (arith, v.head_lt, v.tail_lt, cap-lt v)

  pushed-IsRing : (byte : ℕ) → len rb < rb.cap → IsRing (pushed byte)
  unfolding pushed
  pushed-IsRing byte room = record {
    log = v.log;
    log_lt = v.log_lt;
    cap_pow = v.cap_pow;
    buf_len = length-set rb.buf (slot rb rb.tail) byte ∙ v.buf_len;
    head_lt = v.head_lt;
    tail_lt = omega arith;
    len_le = omega (arith, len-pushed byte room);
  }

  older :
      (byte i : ℕ)
      → len rb < rb.cap
      → i < len rb
      → byte_at (pushed byte) (rb.head + i) ≡ byte_at rb (rb.head + i)
  unfolding pushed
  older byte i room lt =
      get_or-set_ne rb.buf (slot rb rb.tail) ((rb.head + i) % rb.cap) byte 0 (λ same.
        mod_apart rb.cap (rb.head + i) (rb.head + len rb) (omega arith) (omega arith)
          (sym same ∙ slot_lem v rb.tail ∙ tail_at v))

  newest : (byte : ℕ) → byte_at (pushed byte) (rb.head + len rb) ≡ byte
  unfolding pushed
  newest byte =
      ap (λ j. get_or (set rb.buf (slot rb rb.tail) byte) j 0)
        (sym (slot_lem v rb.tail ∙ tail_at v))
      ∙ get_or-set_self rb.buf (slot rb rb.tail) byte 0 (slot-lt v rb.tail)

  contents-pushed :
      (byte : ℕ) → len rb < rb.cap → contents (pushed byte) ≡ contents rb ++ (byte ∷ [])
  unfolding pushed
  contents-pushed byte room =
      let e : len (pushed byte) ≡ suc (len rb) = omega (arith, len-pushed byte room) in
      ap (window (byte_at (pushed byte)) rb.head) e
      ∙ window-snoc (byte_at (pushed byte)) rb.head (len rb)
      ∙ ap₂ (λ xs y. xs ++ (y ∷ []))
          (window-ext _ _ rb.head rb.head (len rb) (λ i lt. older byte i room lt)) (newest byte)

  -- In a ring within its bounds, ringbuf_push refuses the byte only if the ring holds as many as
  -- its capacity; else it appends the byte to the contents.
  pub push-Pushed : (byte : ℕ) → Pushed rb byte (push rb byte)
  unfolding push full len pushed
  push-Pushed byte = elim (Bool-cases (sub64 rb.tail rb.head == rb.cap)) [
    | inl e ↦ rw e (refused (length-contents v ∙ (==_iff _ _).0 e))
    | inr e ↦
        let room : len rb < rb.cap = ground (arith, v.len_le) in
        rw e (
          appended (omega (arith, length-contents v)) (contents-pushed byte room) refl
            (pushed-IsRing byte room))
  ]
