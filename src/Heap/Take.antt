-- ===== src/Heap/Take.antt =====
-- What taking slots does to a block of libc/heap.c: validity, the new run, and the other runs.
use native.Mathlib.Decide.{dec_lt}
use cool_frost.Prelude.{
  ℕ, ◌+◌, ◌-◌, ◌≤◌, ◌<◌, ◌≡◌, sym, ap, ◌∙◌, ◌≢◌, ◌⊎◌, inl, inr, arith, get_or, wrap64,
  get_or_default,
}
use native.Mathlib.Nat.{div-le_self}
use cool_frost.Heap.{Block, slots, take_slots, fill, get_nid, left_id, right_id}
use cool_frost.Heap.Bitmap.{
  AllAre, taken, length-fill, taken-fill, taken-le-length, get_or-fill_inside, get_or-fill_outside,
}
use cool_frost.Heap.Runs.{IsValid, Run, get_nid_distinct}

pub slots-le-size : (b : Block) → slots b ≤ b.size
slots-le-size b = div-le_self b.size b.bsize

left_id-lt : {b : Block} (x : ℕ) → IsValid b → left_id b x < 256
unfolding left_id
left_id-lt {b} x v = ground (arith, v.bytes (x - 1))

right_id-lt : {b : Block} (x : ℕ) → IsValid b → right_id b x < 256
unfolding right_id
right_id-lt {b} x v = ground (arith, v.bytes x)

left_id_lem : (b : Block) (x : ℕ) → 0 < x → left_id b x ≡ get_or b.bm (x - 1) 0
unfolding left_id
left_id_lem b x h = ground arith

right_id_lem : (b : Block) (x : ℕ) → x < slots b → right_id b x ≡ get_or b.bm x 0
unfolding right_id
right_id_lem b x h = ground arith

-- the id that the allocation of the slots `x` up to `x + n` gets
abbrev pub new_id : Block → ℕ → ℕ → ℕ
new_id b x n = get_nid (left_id b x) (right_id b (x + n))

module _ {b : Block} (x n : ℕ) (v : IsValid b) (free : AllAre 0 b.bm x n)
    (fits : x + n ≤ slots b) where
  abbrev distinct :
      (new_id b x n ≢ 0)
      × (new_id b x n ≢ left_id b x)
      × (new_id b x n ≢ right_id b (x + n))
      × (new_id b x n < 256)
  distinct =
      get_nid_distinct (left_id b x) (right_id b (x + n)) (left_id-lt x v) (right_id-lt (x + n) v)

  -- The free slots are counted, so the count cannot pass the number of slots.
  pub taken-add-le : taken b.bm + n ≤ slots b
  taken-add-le = omega (
    arith,
    taken-fill b.bm x n (new_id b x n) free (omega (arith, v.covers)) (distinct.0),
    v.covers,
    taken-le-length (fill b.bm x n (new_id b x n)),
    length-fill b.bm x n (new_id b x n),
  )

  used-take_slots : wrap64 (b.used + n) ≡ taken (take_slots b x n).bm
  unfolding take_slots
  used-take_slots =
      let grown = taken-fill b.bm x n (new_id b x n) free (omega (arith, v.covers)) (distinct.0) in
      omega (
        arith,
        grown,
        v.counted,
        v.bounded,
        v.covers,
        slots-le-size b,
        taken-le-length (fill b.bm x n (new_id b x n)),
        length-fill b.bm x n (new_id b x n),
      )

  bytes-take_slots : (i : ℕ) → get_or (take_slots b x n).bm i 0 < 256
  unfolding take_slots
  bytes-take_slots i = elim (dec_lt i x) [
    | yes before ↦ rw (get_or-fill_outside b.bm x n (new_id b x n) i 0 (inl before)) (v.bytes i)
    | no after ↦ elim (dec_lt i (x + n)) [
      | yes inside ↦
          rw
            (get_or-fill_inside b.bm x n (new_id b x n) i 0 (omega arith) inside
              (omega (arith, v.covers)))
            (distinct.3)
      | no beyond ↦
          rw (get_or-fill_outside b.bm x n (new_id b x n) i 0 (inr (omega arith))) (v.bytes i)
    ]
  ]

  pub take_slots-IsValid : IsValid (take_slots b x n)
  unfolding take_slots
  take_slots-IsValid = record {
    positive = v.positive;
    bounded = v.bounded;
    covers = length-fill b.bm x n (new_id b x n) ∙ v.covers;
    counted = used-take_slots;
    bytes = bytes-take_slots;
  }

  -- The slots taken are one run: no neighbour has their id.
  pub take_slots-Run : 0 < n → Run (take_slots b x n) x n (new_id b x n)
  unfolding take_slots
  take_slots-Run pos = record {
    nonempty = pos;
    within = fits;
    held = distinct.0;
    same =
        λ j lo hi. get_or-fill_inside b.bm x n (new_id b x n) j 1 lo hi (omega (arith, v.covers));
    left_edge = λ h e. distinct.1 (left_edge_id h e);
    right_edge = λ h e. distinct.2 (right_edge_id h e);
  }
    where
      left_edge_id :
          0 < x
          → get_or (fill b.bm x n (new_id b x n)) (x - 1) 0 ≡ new_id b x n
          → new_id b x n ≡ left_id b x
      left_edge_id h e = ground (
        arith,
        get_or-fill_outside b.bm x n (new_id b x n) (x - 1) 0 (inl (omega arith)),
        left_id_lem b x h,
      )

      right_edge_id :
          x + n < slots b
          → get_or (fill b.bm x n (new_id b x n)) (x + n) 0 ≡ new_id b x n
          → new_id b x n ≡ right_id b (x + n)
      right_edge_id h e = ground (
        arith,
        get_or-fill_outside b.bm x n (new_id b x n) (x + n) 0 (inr (omega arith)),
        right_id_lem b (x + n) h,
      )

  module _ {y m w : ℕ} (run : Run b y m w) where
    -- A run holds no free slot, so it lies outside the slots that are taken.
    apart : (j : ℕ) → y ≤ j → j < y + m → (j < x) ⊎ (x + n ≤ j)
    apart j lo hi = elim (dec_lt j x) [
      | yes before ↦ inl before
      | no after ↦ elim (dec_lt j (x + n)) [
        | yes inside ↦ absurd (run.held (sym (run.same j lo hi) ∙ free j (omega arith) inside))
        | no beyond ↦ inr (omega arith)
      ]
    ]

    kept : (j d : ℕ) → (j < x) ⊎ (x + n ≤ j) → get_or (take_slots b x n).bm j d ≡ get_or b.bm j d
    unfolding take_slots
    kept j d h = get_or-fill_outside b.bm x n (new_id b x n) j d h

    -- A run that starts or ends where the slots taken do had its id avoided.
    new_id-ne : ((y ≡ x + n) ⊎ (y + m ≡ x)) → new_id b x n ≢ w
    new_id-ne (inl e) same = distinct.2 (
        same
        ∙ sym (run.same y (omega arith) (omega (arith, run.nonempty)))
        ∙ get_or_default b.bm y 1 0 (omega (arith, v.covers, run.within, run.nonempty))
        ∙ ap (λ k. get_or b.bm k 0) e
        ∙ sym (right_id_lem b (x + n) (omega (arith, run.within, run.nonempty))))
    new_id-ne (inr e) same = distinct.1 (
        same
        ∙ sym (run.same (x - 1) (omega (arith, run.nonempty)) (omega (arith, run.nonempty)))
        ∙ get_or_default b.bm (x - 1) 1 0 (omega (arith, v.covers, run.within, run.nonempty))
        ∙ sym (left_id_lem b x (omega (arith, run.nonempty))))

    written : (j : ℕ) → x ≤ j → j < x + n → get_or (take_slots b x n).bm j 0 ≡ new_id b x n
    unfolding take_slots
    written j lo hi = get_or-fill_inside b.bm x n (new_id b x n) j 0 lo hi (omega (arith, v.covers))

    touches : x ≤ y - 1 → y - 1 < x + n → y ≡ x + n
    touches lo hi = omega (arith, apart y (omega arith) (omega (arith, run.nonempty)))

    ends : x ≤ y + m → y + m < x + n → y + m ≡ x
    ends lo hi =
        omega (arith, apart (y + m - 1) (omega (arith, run.nonempty)) (omega (arith, run.nonempty)))

    -- In a valid block, taking free slots within the block leaves every other allocation a run of
    -- its own id that differs from both neighbours.
    pub take_slots-Run_other : Run (take_slots b x n) y m w
    unfolding take_slots
    take_slots-Run_other = record {
      nonempty = run.nonempty;
      within = run.within;
      held = run.held;
      same = λ j lo hi. kept j 1 (apart j lo hi) ∙ run.same j lo hi;
      left_edge = left;
      right_edge = right;
    }
      where
        left : 0 < y → get_or (take_slots b x n).bm (y - 1) 0 ≢ w
        left h e = elim (dec_lt (y - 1) x) [
          | yes before ↦ run.left_edge h (sym (kept (y - 1) 0 (inl before)) ∙ e)
          | no after ↦ elim (dec_lt (y - 1) (x + n)) [
            | yes inside ↦
                new_id-ne (inl (touches (omega arith) inside))
                  (sym (written (y - 1) (omega arith) inside) ∙ e)
            | no beyond ↦ run.left_edge h (sym (kept (y - 1) 0 (inr (omega arith))) ∙ e)
          ]
        ]

        right : y + m < slots b → get_or (take_slots b x n).bm (y + m) 0 ≢ w
        right h e = elim (dec_lt (y + m) x) [
          | yes before ↦ run.right_edge h (sym (kept (y + m) 0 (inl before)) ∙ e)
          | no after ↦ elim (dec_lt (y + m) (x + n)) [
            | yes inside ↦
                new_id-ne (inr (ends (omega arith) inside))
                  (sym (written (y + m) (omega arith) inside) ∙ e)
            | no beyond ↦ run.right_edge h (sym (kept (y + m) 0 (inr (omega arith))) ∙ e)
          ]
        ]
