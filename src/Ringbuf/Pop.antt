-- ===== src/Ringbuf/Pop.antt =====
-- Reading a byte from the ring of libc/ringbuf.h, and looking at one.
use cool_frost.Prelude.{
  ℕ, ◌+◌, ◌-◌, ◌^◌, ◌≤◌, ◌<◌, ◌≡◌, refl, sym, ap, ◌∙◌, ◌↔◌, inl, inr, true, Option, none, some,
  List, [], ◌∷◌, arith, leb, ◌==◌, Bool-cases, length, get_elem?, get_or, drop, wrap64, sub64,
  window, window-ext, drop-window, window_of_pos, get_elem?-window_past, leb→le, get_elem?-window,
}
use cool_frost.Ringbuf.{init, full, space, RingBuf, empty, len, slot, pop, peek_at}
use cool_frost.Ringbuf.Contents.{
  IsRing, byte_at, contents, cap-lt, slot_lem, byte_at-wrap, length-contents,
}

-- what `pop` returns: nothing is left, or the first byte of the contents and the others
pub data Popped (rb : RingBuf) : Option (ℕ × RingBuf) → Type 0 where
  emptied : contents rb ≡ [] → Popped rb none
  first :
      {byte : ℕ} {rb' : RingBuf}
      → contents rb ≡ byte ∷ contents rb'
      → rb'.cap ≡ rb.cap
      → IsRing rb'
      → Popped rb (some (byte, rb'))

module _ {rb : RingBuf} (v : IsRing rb) where
  -- the ring whose read index is `n` further on
  abbrev pub skipped : ℕ → RingBuf
  skipped n = record rb { head = wrap64 (rb.head + n) }

  pub len-skipped : (n : ℕ) → n ≤ len rb → len (skipped n) ≡ len rb - n
  unfolding len
  len-skipped n le = omega (arith, v.head_lt, v.tail_lt, v.len_le, cap-lt v)

  pub skipped-IsRing : (n : ℕ) → n ≤ len rb → IsRing (skipped n)
  skipped-IsRing n le = record {
    log = v.log;
    log_lt = v.log_lt;
    cap_pow = v.cap_pow;
    buf_len = v.buf_len;
    head_lt = omega arith;
    tail_lt = v.tail_lt;
    len_le = omega (arith, len-skipped n le, v.len_le);
  }

  byte_at-from : (h i : ℕ) → byte_at rb (wrap64 h + i) ≡ byte_at rb (h + i)
  byte_at-from h i =
      sym (byte_at-wrap v (wrap64 h + i)) ∙ ap (byte_at rb) (omega arith) ∙ byte_at-wrap v (h + i)

  pub contents-skipped : (n : ℕ) → n ≤ len rb → contents (skipped n) ≡ drop n (contents rb)
  contents-skipped n le =
      ap (window (byte_at rb) (wrap64 (rb.head + n))) (len-skipped n le)
      ∙ window-ext (byte_at rb) (byte_at rb) _ _ (len rb - n) (λ i lt. byte_at-from (rb.head + n) i)
      ∙ sym (drop-window (byte_at rb) rb.head (len rb) n le)

  empty_lem : empty rb ≡ (len rb == 0)
  unfolding empty len
  empty_lem = ground (arith, v.head_lt, v.tail_lt)

  head_of : 0 < len rb → contents rb ≡ get_or rb.buf (slot rb rb.head) 0 ∷ drop 1 (contents rb)
  head_of pos =
      window_of_pos (byte_at rb) rb.head (len rb) pos
      ∙ ap (λ j. get_or rb.buf j 0 ∷ drop 1 (contents rb)) (sym (slot_lem v rb.head))

  -- In a ring within its bounds, ringbuf_pop fails only if the ring is empty; else it returns the
  -- first byte and leaves the others.
  pub pop-Popped : Popped rb (pop rb)
  unfolding pop
  pop-Popped = elim (Bool-cases (empty rb)) [
    | inl e ↦
        let none_held : len rb ≡ 0 = ground (arith, empty_lem) in
        rw e (emptied (ap (window (byte_at rb) rb.head) none_held))
    | inr e ↦
        let pos : 0 < len rb = ground (arith, empty_lem) in
        rw e (
          first
            (head_of pos
              ∙ ap (λ xs. get_or rb.buf (slot rb rb.head) 0 ∷ xs) (sym (contents-skipped 1 pos)))
            refl (skipped-IsRing 1 pos))
  ]

  -- In a ring within its bounds, ringbuf_peek_at returns the byte at that place of the contents,
  -- and fails past their end.
  pub peek_at-contents : (k : ℕ) → peek_at rb k ≡ get_elem? (contents rb) k
  unfolding peek_at
  peek_at-contents k = elim (Bool-cases (leb (len rb) k)) [
    | inl past ↦
        rw past
          (sym (get_elem?-window_past (byte_at rb) rb.head (len rb) k (leb→le (len rb) k past)))
    | inr held ↦
        let lt : k < len rb = ground arith in
        let same : get_or rb.buf (slot rb (wrap64 (rb.head + k))) 0 ≡ byte_at rb (rb.head + k) =
          ap (λ j. get_or rb.buf j 0) (slot_lem v (wrap64 (rb.head + k)))
          ∙ byte_at-wrap v (rb.head + k) in
        rw held (ap some same ∙ sym (get_elem?-window (byte_at rb) rb.head (len rb) k lt))
  ]

  len_def : len rb ≡ sub64 rb.tail rb.head
  unfolding len
  len_def = refl

  -- In a ring within its bounds the queries tell the number of bytes held, the room left, and
  -- whether either is 0.
  pub queries_lem :
      (len rb ≡ length (contents rb))
      × (space rb ≡ rb.cap - length (contents rb))
      × ((empty rb ≡ true) ↔ (contents rb ≡ []))
      × ((full rb ≡ true) ↔ (length (contents rb) ≡ rb.cap))
  unfolding space full
  queries_lem =
      let held = length-contents v in
      (
        sym held,
        omega (arith, held, len_def, v.len_le, cap-lt v),
        (
          λ e.
              let none_held : len rb ≡ 0 = ground (arith, empty_lem) in
              ap (window (byte_at rb) rb.head) none_held,
          λ e. let none_held : len rb ≡ 0 = sym held ∙ ap length e in ground (arith, empty_lem),
        ),
        (λ e. ground (arith, held, len_def), λ e. ground (arith, held, len_def)),
      )

-- With a buffer of a power of two bytes, `ringbuf_init` gives an empty ring
-- within its bounds.
pub init-IsRing :
    (k : ℕ) (buf : List ℕ)
    → k < 64
    → length buf ≡ 2 ^ k
    → IsRing (init buf (2 ^ k)) × (contents (init buf (2 ^ k)) ≡ [])
unfolding init len
init-IsRing k buf lt e = (
  record {
    log = k;
    log_lt = lt;
    cap_pow = refl;
    buf_len = e;
    head_lt = omega arith;
    tail_lt = omega arith;
    len_le = omega arith;
  },
  refl,
)
