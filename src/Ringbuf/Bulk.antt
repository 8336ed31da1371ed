-- ===== src/Ringbuf/Bulk.antt =====
-- The bulk operations of libc/ringbuf.h: write, read and discard.
use cool_frost.Prelude.{
  ℕ, zero, suc, ◌+◌, ◌-◌, ◌≤◌, min, ◌≡◌, refl, sym, ap, ◌∙◌, Option, none, some, List, [], ◌∷◌,
  ◌++◌, arith, ltb, if◌then◌else◌, length, take, drop, length-append,
}
use mathlib.Core.Path.{ap₂}
use cool_frost.Ringbuf.{RingBuf, len, push, pop, write, read, discard}
use cool_frost.Ringbuf.Contents.{
  IsRing, contents, length-contents, Pushed, refused, appended, push-Pushed,
}
use cool_frost.Ringbuf.Pop.{Popped, emptied, first, pop-Popped, skipped-IsRing, contents-skipped}

-- The state after a write: a prefix of the bytes is appended, all that fit.
pub record Written (rb : RingBuf) (src : List ℕ) (i : ℕ) (rb' : RingBuf) : Type 0 where
  pub ring : IsRing rb'
  pub cap_same : rb'.cap ≡ rb.cap
  pub number : i ≡ min (length src) (rb.cap - length (contents rb))
  pub appends : contents rb' ≡ contents rb ++ take i src

-- The state after a read: the bytes read come off the front, as many as asked for and held.
pub record IsRead (rb : RingBuf) (n : ℕ) (dst : List ℕ) (rb' : RingBuf) : Type 0 where
  pub ring : IsRing rb'
  pub cap_same : rb'.cap ≡ rb.cap
  pub number : length dst ≡ min n (length (contents rb))
  pub front : contents rb ≡ dst ++ contents rb'

append_nil : (xs : List ℕ) → xs ++ [] ≡ xs
append_nil [] = refl
append_nil (x ∷ xs) = ap (λ ys. x ∷ ys) (append_nil xs)

append_assoc : (xs ys zs : List ℕ) → (xs ++ ys) ++ zs ≡ xs ++ (ys ++ zs)
append_assoc [] ys zs = refl
append_assoc (x ∷ xs) ys zs = ap (λ us. x ∷ us) (append_assoc xs ys zs)

-- In a ring within its bounds, ringbuf_write appends as many of the bytes as there is room for and
-- returns their number.
pub write-Written :
    {rb : RingBuf} (src : List ℕ) → IsRing rb → Written rb src (write rb src).0 (write rb src).1
unfolding write
write-Written {rb} [] v = record {
  ring = v;
  cap_same = refl;
  number = omega arith;
  appends = sym (append_nil _);
}
write-Written {rb} (byte ∷ src) v =
    step (push rb byte) (push-Pushed v byte) (λ rb' ring. write-Written src ring)
  where
    step :
        (o : Option RingBuf)
        → Pushed rb byte o
        → ((rb' : RingBuf) → IsRing rb' → Written rb' src (write rb' src).0 (write rb' src).1)
        → let r : ℕ × RingBuf = elim o [
          | none ↦ (0, rb)
          | some rb' ↦ let (i, rb'') = write rb' src in (suc i, rb'')
        ] in
          Written rb (byte ∷ src) r.0 r.1
    step none (refused full) again = record {
      ring = v;
      cap_same = refl;
      number = omega arith;
      appends = sym (append_nil _);
    }
    step (some rb') (appended room more cap_same ring) again =
        let w = again rb' ring in
        let longer : length (contents rb') ≡ length (contents rb) + 1 =
          ap length more ∙ length-append (contents rb) (byte ∷ []) in
        record {
          ring = w.ring;
          cap_same = w.cap_same ∙ cap_same;
          number = omega (arith, w.number, longer, cap_same, room);
          appends =
              w.appends
              ∙ ap (λ xs. xs ++ take (write rb' src).0 src) more
              ∙ append_assoc (contents rb) (byte ∷ []) (take (write rb' src).0 src);
        }

-- In a ring within its bounds, ringbuf_read takes the first bytes off, as many as asked for and
-- held.
pub read-IsRead : {rb : RingBuf} (n : ℕ) → IsRing rb → IsRead rb n (read rb n).0 (read rb n).1
unfolding read
read-IsRead {rb} zero v = record { ring = v; cap_same = refl; number = omega arith; front = refl }
read-IsRead {rb} (suc n) v = step (pop rb) (pop-Popped v) (λ rb' ring. read-IsRead n ring)
  where
    step :
        (o : Option (ℕ × RingBuf))
        → Popped rb o
        → ((rb' : RingBuf) → IsRing rb' → IsRead rb' n (read rb' n).0 (read rb' n).1)
        → let r : List ℕ × RingBuf = elim o [
          | none ↦ ([], rb)
          | some (byte, rb') ↦ let (dst, rb'') = read rb' n in (byte ∷ dst, rb'')
        ] in
          IsRead rb (suc n) r.0 r.1
    step none (emptied nothing) again = record {
      ring = v;
      cap_same = refl;
      number = omega (arith, ap length nothing);
      front = refl;
    }
    step (some (byte, rb')) (first rest cap_same ring) again =
        let r = again rb' ring in
        record {
          ring = r.ring;
          cap_same = r.cap_same ∙ cap_same;
          number = omega (arith, r.number, ap length rest);
          front = rest ∙ ap (λ xs. byte ∷ xs) r.front;
        }

take_front : (xs ys zs : List ℕ) → xs ≡ ys ++ zs → take (length ys) xs ≡ ys
take_front xs ys zs e = rw e (front ys)
  where
    front : (ys : List ℕ) → take (length ys) (ys ++ zs) ≡ ys
    front [] = refl
    front (y ∷ ys) = ap (λ us. y ∷ us) (front ys)

take_all : (xs : List ℕ) (n : ℕ) → length xs ≤ n → take n xs ≡ xs
take_all [] zero le = refl
take_all [] (suc n) le = refl
take_all (x ∷ xs) zero le = absurd (omega arith)
take_all (x ∷ xs) (suc n) le = ap (λ us. x ∷ us) (take_all xs n (omega arith))

-- What is written to an empty ring within its bounds, and fits, is read back in order, whole.
pub read-write :
    {rb : RingBuf} (src : List ℕ)
    → IsRing rb
    → contents rb ≡ []
    → length src ≤ rb.cap
    → (read (write rb src).1 (length src)).0 ≡ src
read-write {rb} src v nothing fits =
    let w = write-Written src v in
    let r = read-IsRead (length src) (w.ring) in
    let all : (write rb src).0 ≡ length src = omega (arith, w.number, ap length nothing) in
    let held : contents (write rb src).1 ≡ src =
      w.appends
      ∙ ap₂ (λ xs n. xs ++ take n src) nothing all
      ∙ take_all src (length src) (omega arith) in
    let whole : length (read (write rb src).1 (length src)).0 ≡ length src =
      omega (arith, r.number, ap length held) in
    sym (take_front _ _ _ r.front) ∙ ap₂ take whole held ∙ take_all src (length src) (omega arith)

-- In a ring within its bounds, ringbuf_discard drops the first bytes, as many as asked for and
-- held, and returns their number.
pub discard_lem :
    {rb : RingBuf} (n : ℕ)
    → IsRing rb
    → let (i, rb') = discard rb n in
      (i ≡ min n (length (contents rb))) × (contents rb' ≡ drop i (contents rb)) × IsRing rb'
unfolding discard
discard_lem {rb} n v =
    let k = if ltb (len rb) n then len rb else n in
    let le : k ≤ len rb = ground arith in
    (ground (arith, length-contents v), contents-skipped v k le, skipped-IsRing v k le)
