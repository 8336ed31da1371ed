-- ===== src/Ringbuf/Tests.antt =====
-- A ring of four bytes whose indices wrap, and the theorems at it.
use cool_frost.Prelude.{◌-◌, ◌^◌, ◌≡◌, refl, [], ◌∷◌, arith}
use cool_frost.Ringbuf.{RingBuf, full, len, slot, push, write, read}
use cool_frost.Ringbuf.Contents.{IsRing, contents}
use cool_frost.Ringbuf.Bulk.{Written, write-Written, read-write}

abbrev four : RingBuf
four = record { buf = 1 ∷ 2 ∷ 3 ∷ 4 ∷ []; cap = 4; head = 2 ^ 64 - 2; tail = 1 }

abbrev hollow : RingBuf
hollow = record { buf = 1 ∷ 2 ∷ 3 ∷ 4 ∷ []; cap = 4; head = 2 ^ 64 - 2; tail = 2 ^ 64 - 2 }

four-IsRing : IsRing four
unfolding len
four-IsRing = record {
  log = 2;
  log_lt = omega arith;
  cap_pow = refl;
  buf_len = refl;
  head_lt = omega arith;
  tail_lt = omega arith;
  len_le = omega arith;
}

hollow-IsRing : IsRing hollow
unfolding len
hollow-IsRing = record {
  log = 2;
  log_lt = omega arith;
  cap_pow = refl;
  buf_len = refl;
  head_lt = omega arith;
  tail_lt = omega arith;
  len_le = omega arith;
}

four_holds : contents four ≡ 3 ∷ 4 ∷ 1 ∷ []
unfolding len
four_holds = refl

write_short : (write four (7 ∷ 8 ∷ [])).0 ≡ 1
unfolding write push full slot
write_short = refl

write-Written_example :
    Written four (7 ∷ 8 ∷ []) (write four (7 ∷ 8 ∷ [])).0 (write four (7 ∷ 8 ∷ [])).1
write-Written_example = write-Written (7 ∷ 8 ∷ []) four-IsRing

read-write_example : (read (write hollow (7 ∷ 8 ∷ [])).1 2).0 ≡ 7 ∷ 8 ∷ []
unfolding len
read-write_example = read-write (7 ∷ 8 ∷ []) hollow-IsRing refl (omega arith)
