-- ===== src/Paging/Ranges.antt =====
-- The checks of cpu/paging.c on a pointer and a length, and the walk of cpu/vmm.c over the range.
use mathlib.Core.Path.{subst}
use cool_frost.Prelude.{
  ℕ, zero, suc, ◌+◌, ◌-◌, ◌*◌, ◌/◌, ◌%◌, ◌^◌, ◌≤◌, ◌<◌, ◌≡◌, refl, sym, ap, ◌∙◌, ◌≢◌, ◌↔◌, ◌⊎◌, inl,
  inr, Bool, true, false, ◌||◌, some, arith, ltb, ◌==◌, Bool-cases, wrap64, sub64,
}
use cool_frost.Paging.{
  vmm_user_base, vmm_user_size, page_of, entry, is_present, page_mapped, pages_mapped, window_pages,
  vmm_range_mapped, in_range, Arena, is_user_range,
}
use cool_frost.Paging.Walk.{Accessible, Accessible-page_mapped, pages_mapped_lem}

-- the bytes from `p` on lie between `start` and `end`, and `p` itself does
pub record Within (p len start end : ℕ) : Type 0 where
  pub above : start ≤ p
  pub below : p < end
  pub fits : p + len ≤ end

-- For an end below 2^64, in_range says whether the range, also one without a byte, lies within the
-- bounds.
pub in_range-Within :
    (p len start end : ℕ)
    → end < 2 ^ 64
    → (in_range p len start end ≡ true) ↔ Within p len start end
unfolding in_range
in_range-Within p len start end lt = (
  λ e. record { above = ground arith; below = ground arith; fits = ground arith },
  λ w. ground (arith, w.above, w.below, w.fits),
)

-- each byte of a range is on a page that is present and the user's
abbrev pub AllAccessible : (ℕ → ℕ) → (cr3 p len : ℕ) → Type 0
AllAccessible words cr3 p len = (a : ℕ) → p ≤ a → a < p + len → Accessible words cr3 a

module _ {p len : ℕ} (w : Within p len vmm_user_base (vmm_user_base + vmm_user_size))
    (pos : 0 < len) where
  first : ℕ
  first = page_of p

  last : ℕ
  last = page_of (p + len - 1)

  passes : (ltb p vmm_user_base || ltb (vmm_user_base + vmm_user_size) (wrap64 (p + len))) ≡ false
  passes = ground (arith, w.above, w.fits)

  walks :
      (words : ℕ → ℕ) (cr3 : ℕ)
      → is_present (entry words cr3 0) ≡ true
      → vmm_range_mapped words cr3 p len
        ≡ pages_mapped window_pages words (page_of (entry words cr3 0)) first last
  unfolding vmm_range_mapped first last
  walks words cr3 on =
      let some_byte : (len == 0) ≡ false = ground arith in
      let end : sub64 (wrap64 (p + len)) 1 ≡ p + len - 1 = omega (arith, w.fits) in
      rw (some_byte, passes, on)
        (ap
          (λ k.
            pages_mapped window_pages words (page_of (entry words cr3 0)) (page_of p) (page_of k))
          end)

  absent :
      (words : ℕ → ℕ) (cr3 : ℕ)
      → is_present (entry words cr3 0) ≡ false
      → vmm_range_mapped words cr3 p len ≡ some false
  unfolding vmm_range_mapped
  absent words cr3 off =
      let some_byte : (len == 0) ≡ false = ground arith in rw (some_byte, passes, off) refl

  -- Every page of the range is the page of one of its bytes.
  byte_of :
      (i : ℕ)
      → i ≤ (last - first) / 4096
      → (a : ℕ) × (p ≤ a) × (a < p + len) × (page_of a ≡ first + i * 4096)
  unfolding first last
  byte_of zero le = (p, omega arith, omega arith, omega arith)
  byte_of (suc i) le = (page_of p + suc i * 4096, omega arith, omega arith, omega arith)

  mapped_iff :
      (words : ℕ → ℕ) (cr3 : ℕ)
      → is_present (entry words cr3 0) ≡ true
      → ((i : ℕ)
          → i ≤ (last - first) / 4096
          → page_mapped words (page_of (entry words cr3 0)) (first + i * 4096) ≡ true)
        ↔ AllAccessible words cr3 p len
  unfolding first last
  mapped_iff words cr3 on = (
    λ pages a ge lt.
        let there : page_of p + (page_of a - page_of p) / 4096 * 4096 ≡ page_of a = omega arith in
        (Accessible-page_mapped words cr3 a (omega (arith, w.fits)) on).0 (
          subst (λ k. page_mapped words (page_of (entry words cr3 0)) k ≡ true) there
            (pages ((page_of a - page_of p) / 4096) (omega arith))),
    λ all i le.
        let (a, ge, lt, e) = byte_of i le in
        subst (λ k. page_mapped words (page_of (entry words cr3 0)) k ≡ true) e
          ((Accessible-page_mapped words cr3 a (omega (arith, w.fits)) on).1 (all a ge lt)),
  )

  span :
      (first + (last - first) / 4096 * 4096 ≡ last)
      × ((last - first) / 4096 < window_pages)
      × (last < 2 ^ 63)
  unfolding first last
  span = (omega (arith, w.fits), omega (arith, w.above, w.fits), omega (arith, w.fits))

  range_lem :
      (words : ℕ → ℕ) (cr3 : ℕ)
      → (b : Bool) × (vmm_range_mapped words cr3 p len ≡ some b)
        × ((b ≡ true) ↔ AllAccessible words cr3 p len)
  range_lem words cr3 = elim (Bool-cases (is_present (entry words cr3 0))) [
    | inl on ↦
        let (exact, rounds, small) = span in
        let (b, r, iff) =
          pages_mapped_lem words window_pages (page_of (entry words cr3 0)) first last
            ((last - first) / 4096) exact rounds small in
        let (to, from) = mapped_iff words cr3 on in
        (b, walks words cr3 on ∙ r, (λ t. to (iff.0 t), λ all. iff.1 (from all)))
    | inr off ↦
        let first_entry : entry words cr3 0 ≡ entry words cr3 (p / 2 ^ 39 % 512) =
          ap (entry words cr3) {x = 0} (omega (arith, w.fits)) in
        (
          false,
          absent words cr3 off,
          (
            λ e. ground arith,
            λ all.
                sym off
                ∙ ap is_present first_entry
                ∙ (all p (omega arith) (omega arith)).pml4_present,
          ),
        )
  ]

-- For a range of the window, the walk of vmm_range_mapped ends, and it says whether each byte is
-- on a page that is present and the user's.
pub vmm_range_mapped_lem :
    (words : ℕ → ℕ) (cr3 p len : ℕ)
    → Within p len vmm_user_base (vmm_user_base + vmm_user_size)
    → (b : Bool) × (vmm_range_mapped words cr3 p len ≡ some b)
      × ((b ≡ true) ↔ AllAccessible words cr3 p len)
unfolding vmm_range_mapped
vmm_range_mapped_lem words cr3 p zero w =
    (true, refl, (λ _ a ge lt. absurd (omega arith), λ _. refl))
vmm_range_mapped_lem words cr3 p (suc k) w = range_lem w (omega arith) words cr3

-- For an arena that ends below 2^64, is_user_range ends, and it says whether the range lies in the
-- arena, or lies in the window with each byte on a page that is present and the user's.
pub is_user_range_lem :
    (arena : Arena) (words : ℕ → ℕ) (cr3 p len : ℕ)
    → arena.user_end < 2 ^ 64
    → (b : Bool) × (is_user_range arena words cr3 p len ≡ some b)
      × ((b ≡ true) ↔ (
          Within p len arena.user_start arena.user_end
          ⊎ (Within p len vmm_user_base (vmm_user_base + vmm_user_size)
              × AllAccessible words cr3 p len)))
unfolding is_user_range
is_user_range_lem arena words cr3 p len lt =
    let shared = in_range-Within p len arena.user_start arena.user_end lt in
    let private =
      in_range-Within p len vmm_user_base (vmm_user_base + vmm_user_size) (omega arith) in
    elim (Bool-cases (in_range p len arena.user_start arena.user_end)) [
      | inl e ↦ (true, rw e refl, (λ _. inl (shared.0 e), λ _. refl))
      | inr e ↦ elim (Bool-cases (in_range p len vmm_user_base (vmm_user_base + vmm_user_size))) [
        | inl g ↦
            let (b, r, iff) = vmm_range_mapped_lem words cr3 p len (private.0 g) in
            (
              b,
              rw (e, g) r,
              (
                λ t. inr (private.0 g, iff.0 t),
                λ o. elim o [
                  | inl w ↦ absurd (false_not_true (sym e ∙ shared.1 w))
                  | inr (_, all) ↦ iff.1 all
                ],
              ),
            )
        | inr g ↦ (
          false,
          rw (e, g) refl,
          (
            λ t. absurd (false_not_true t),
            λ o. elim o [ inl w ↦ sym e ∙ shared.1 w | inr (w, _) ↦ sym g ∙ private.1 w ],
          ),
        )
      ]
    ]
  where
    false_not_true : false ≢ true
    false_not_true e = ground arith
