-- ===== src/Heap/Free.antt =====
-- `k_heapBMFree` in one block: it frees exactly the run that starts at the pointer.
use native.Mathlib.Decide.{dec_lt}
use cool_frost.Prelude.{
  ℕ, ◌+◌, ◌-◌, ◌*◌, ◌/◌, ◌≤◌, ◌<◌, ◌≡◌, sym, ap, ◌∙◌, ◌≢◌, ◌⊎◌, inl, inr, arith, get_or, sub64,
  get_or_default,
}
use native.Mathlib.Nat.{le-div_iff_mul-le, mul-div_cancel}
use cool_frost.Heap.{Block, slots, base, free_block, fill}
use cool_frost.Heap.Bitmap.{
  length-fill, taken-fill_zero, get_or-fill_inside, get_or-fill_outside, clear_run-fill,
  taken-le-length,
}
use cool_frost.Heap.Runs.{IsValid, Run}
use cool_frost.Heap.Take.{slots-le-size}

-- `&b[1] + x * b->bsize`, the address of slot `x`
abbrev pub slot_addr : Block → ℕ → ℕ
slot_addr b x = x * b.bsize + base b

-- the block with the `n` slots from `x` on free again
abbrev pub released : Block → ℕ → ℕ → Block
released b x n = record b { bm = fill b.bm x n 0; used = b.used - n }

-- A slot lies inside the block.
pub slot_offset : (b : Block) (x : ℕ) → IsValid b → x < slots b → x * b.bsize + b.bsize ≤ b.size
slot_offset b x v h = omega (arith, (le-div_iff_mul-le v.positive).0 h)

slot_index :
    (b : Block) (x : ℕ) → IsValid b → x < slots b → sub64 (slot_addr b x) (base b) / b.bsize ≡ x
slot_index b x v h =
    ap (λ k. k / b.bsize) (omega (arith, slot_offset b x v h)) ∙ mul-div_cancel x v.positive

module _ {b : Block} {x n v : ℕ} (valid : IsValid b) (run : Run b x n v) where
  slot_taken : get_or b.bm x 0 ≡ v
  slot_taken =
      get_or_default b.bm x 0 1 (omega (arith, valid.covers, run.within, run.nonempty))
      ∙ run.same x (omega arith) (omega (arith, run.nonempty))

  n-le-used : n ≤ b.used
  n-le-used = omega (
    arith,
    taken-fill_zero b.bm x n v run.same (omega (arith, valid.covers, run.within)) run.held,
    valid.counted,
  )

  -- In a valid block, k_heapBMFree of the address of an allocation frees exactly its slots,
  -- subtracts their number from the count and changes nothing else.
  pub free_block-released : free_block b (slot_addr b x) ≡ released b x n
  unfolding free_block
  free_block-released =
      rw
        (
          slot_index b x valid (omega (arith, run.within, run.nonempty)),
          slot_taken,
          clear_run-fill v (slots b - x) n b.bm x run.same (omega (arith, valid.covers, run.within))
              (omega (arith, run.within)) (λ h. run.right_edge (omega arith)),
        )
        (ap (λ u. record b { bm = fill b.bm x n 0; used = u }) count)
    where
      count : sub64 b.used (x + n - x) ≡ b.used - n
      count = omega (
        arith,
        n-le-used,
        valid.counted,
        valid.covers,
        valid.bounded,
        slots-le-size b,
        taken-le-length b.bm,
      )

  released-bytes : (i : ℕ) → get_or (fill b.bm x n 0) i 0 < 256
  released-bytes i = elim (dec_lt i x) [
    | yes before ↦ rw (get_or-fill_outside b.bm x n 0 i 0 (inl before)) (valid.bytes i)
    | no after ↦ elim (dec_lt i (x + n)) [
      | yes inside ↦
          rw
            (get_or-fill_inside b.bm x n 0 i 0 (omega arith) inside
              (omega (arith, valid.covers, run.within)))
            (omega arith)
      | no beyond ↦ rw (get_or-fill_outside b.bm x n 0 i 0 (inr (omega arith))) (valid.bytes i)
    ]
  ]

  pub released-IsValid : IsValid (released b x n)
  released-IsValid = record {
    positive = valid.positive;
    bounded = valid.bounded;
    covers = length-fill b.bm x n 0 ∙ valid.covers;
    counted = omega (
      arith,
      taken-fill_zero b.bm x n v run.same (omega (arith, valid.covers, run.within)) run.held,
      valid.counted,
    );
    bytes = released-bytes;
  }

  module _ {y m w : ℕ} (other : Run b y m w) (ne : y ≢ x) where
    -- Runs that start apart have no slot in common: each is cut off by its edges.
    pub disjoint : (y + m ≤ x) ⊎ (x + n ≤ y)
    disjoint = elim (dec_lt x (y + m)) [
      | no before ↦ inl (omega arith)
      | yes into ↦ elim (dec_lt y (x + n)) [
        | no after ↦ inr (omega arith)
        | yes overlap ↦ absurd (clash (omega arith) into overlap)
      ]
    ]
      where
        in_range : (k : ℕ) → k < x + n → get_or b.bm k 0 ≡ get_or b.bm k 1
        in_range k h = get_or_default b.bm k 0 1 (omega (arith, valid.covers, run.within))

        in_other : (k : ℕ) → k < y + m → get_or b.bm k 0 ≡ get_or b.bm k 1
        in_other k h = get_or_default b.bm k 0 1 (omega (arith, valid.covers, other.within))

        clash : (y < x) ⊎ (x < y) → x < y + m → y < x + n → ⊥
        clash (inl lt) into overlap = run.left_edge (omega arith) (
            in_other (x - 1) (omega arith)
            ∙ other.same (x - 1) (omega arith) (omega arith)
            ∙ sym (other.same x (omega arith) into)
            ∙ run.same x (omega arith) (omega (arith, run.nonempty)))
        clash (inr lt) into overlap = other.left_edge (omega arith) (
            in_range (y - 1) (omega arith)
            ∙ run.same (y - 1) (omega arith) (omega arith)
            ∙ sym (run.same y (omega arith) overlap)
            ∙ other.same y (omega arith) (omega (arith, other.nonempty)))

    edge : (k : ℕ) → get_or b.bm k 0 ≢ w → get_or (fill b.bm x n 0) k 0 ≢ w
    edge k h e = elim (dec_lt k x) [
      | yes before ↦ h (sym (get_or-fill_outside b.bm x n 0 k 0 (inl before)) ∙ e)
      | no after ↦ elim (dec_lt k (x + n)) [
        | yes inside ↦ other.held (
            sym e
            ∙ get_or-fill_inside b.bm x n 0 k 0 (omega arith) inside
                (omega (arith, valid.covers, run.within)))
        | no beyond ↦ h (sym (get_or-fill_outside b.bm x n 0 k 0 (inr (omega arith))) ∙ e)
      ]
    ]

    -- In a valid block, after an allocation is freed every allocation that starts elsewhere is
    -- still a run of its own id that differs from both neighbours.
    pub released-Run : Run (released b x n) y m w
    released-Run = record {
      nonempty = other.nonempty;
      within = other.within;
      held = other.held;
      same = λ j lo hi.
          get_or-fill_outside b.bm x n 0 j 1 (omega (arith, disjoint)) ∙ other.same j lo hi;
      left_edge = λ h. edge (y - 1) (other.left_edge h);
      right_edge = λ h. edge (y + m) (other.right_edge h);
    }
