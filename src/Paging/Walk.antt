-- ===== src/Paging/Walk.antt =====
-- The processor's walk from a virtual address, and the loop of cpu/vmm.c over the pages of a range.
use mathlib.Core.Path.{subst}
use cool_frost.Prelude.{
  ℕ, zero, suc, ◌+◌, ◌*◌, ◌/◌, ◌%◌, ◌^◌, ◌≤◌, ◌<◌, bit_and, ◌≡◌, refl, sym, ap, ◌∙◌, ◌↔◌, inl, inr,
  Bool, true, false, ◌&&◌, some, arith, ◌==◌, Bool-cases, wrap64, bit_and-mask, ==_iff,
}
use cool_frost.Paging.{vmm_page_pu, page_of, entry, is_present, page_mapped, pages_mapped}

module _ (words : ℕ → ℕ) (cr3 a : ℕ) where
  -- The entries that the walk from `a` meets.
  abbrev pub pml4e : ℕ
  pml4e = entry words cr3 (a / 2 ^ 39 % 512)

  abbrev pub pdpte : ℕ
  pdpte = entry words (page_of pml4e) (a / 2 ^ 30 % 512)

  abbrev pub pde : ℕ
  pde = entry words (page_of pdpte) (a / 2 ^ 21 % 512)

  abbrev pub pte : ℕ
  pte = entry words (page_of pde) (a / 2 ^ 12 % 512)

  -- The walk finds the address present, and its page marked as the user's.
  pub record Accessible : Type 0 where
    pub pml4_present : is_present pml4e ≡ true
    pub pdpt_present : is_present pdpte ≡ true
    pub pd_present : is_present pde ≡ true
    pub page_user : bit_and pte vmm_page_pu ≡ vmm_page_pu

-- the three lower levels, for an address of the page
page_mapped_lem :
    (words : ℕ → ℕ) (cr3 a : ℕ)
    → page_mapped words (page_of (pml4e words cr3 a)) (page_of a) ≡ (
        is_present (pdpte words cr3 a)
        && is_present (pde words cr3 a)
        && (bit_and (pte words cr3 a) vmm_page_pu == vmm_page_pu))
unfolding page_mapped
page_mapped_lem words cr3 a =
    let i1 : bit_and (page_of a / 2 ^ 30) 0x1ff ≡ a / 2 ^ 30 % 512 =
      bit_and-mask (page_of a / 2 ^ 30) 9 ∙ omega arith in
    let i2 : bit_and (page_of a / 2 ^ 21) 0x1ff ≡ a / 2 ^ 21 % 512 =
      bit_and-mask (page_of a / 2 ^ 21) 9 ∙ omega arith in
    let i3 : bit_and (page_of a / 2 ^ 12) 0x1ff ≡ a / 2 ^ 12 % 512 =
      bit_and-mask (page_of a / 2 ^ 12) 9 ∙ omega arith in
    rw (i1, i2, i3)

and_cases : (p q r : Bool) → (p && q && r ≡ true) ↔ ((p ≡ true) × (q ≡ true) × (r ≡ true))
and_cases true true r = (λ e. (refl, refl, e), λ (_, _, r). r)
and_cases true false r = (λ e. ground arith, λ (_, q, _). q)
and_cases false q r = (λ e. ground arith, λ (p, _, _). p)

-- Below 2^39 the first table's entry is its first.
pub Accessible-page_mapped :
    (words : ℕ → ℕ) (cr3 a : ℕ)
    → a < 2 ^ 39
    → is_present (entry words cr3 0) ≡ true
    → (page_mapped words (page_of (entry words cr3 0)) (page_of a) ≡ true) ↔ Accessible words cr3 a
Accessible-page_mapped words cr3 a lt on =
    let first : entry words cr3 0 ≡ pml4e words cr3 a =
      ap (entry words cr3) {x = 0} (omega arith) in
    let e : page_mapped words (page_of (entry words cr3 0)) (page_of a) ≡ (
        is_present (pdpte words cr3 a)
        && is_present (pde words cr3 a)
        && (bit_and (pte words cr3 a) vmm_page_pu == vmm_page_pu)) =
      ap (λ t. page_mapped words (page_of t) (page_of a)) first ∙ page_mapped_lem words cr3 a in
    let (apart, together) =
      and_cases (is_present (pdpte words cr3 a)) (is_present (pde words cr3 a))
        (bit_and (pte words cr3 a) vmm_page_pu == vmm_page_pu) in
    (
      λ mapped.
          let (p, q, r) = apart (sym e ∙ mapped) in
          record {
            pml4_present = ap is_present (sym first) ∙ on;
            pdpt_present = p;
            pd_present = q;
            page_user = (==_iff _ _).0 r;
          },
      λ acc. e ∙ together (acc.pdpt_present, acc.pd_present, (==_iff _ _).1 acc.page_user),
    )

unmapped :
    (words : ℕ → ℕ) (pdpt page n : ℕ)
    → page_mapped words pdpt page ≡ false
    → (false ≡ true) ↔ ((i : ℕ) → i ≤ n → page_mapped words pdpt (page + i * 4096) ≡ true)
unmapped words pdpt page n gone = (
  λ e. ground arith,
  λ all. sym gone ∙ ap (page_mapped words pdpt) (omega arith) ∙ all 0 (omega arith),
)

module _ (words : ℕ → ℕ) (f pdpt page last : ℕ) where
  stops :
      page_mapped words pdpt page ≡ false → pages_mapped (suc f) words pdpt page last ≡ some false
  unfolding pages_mapped
  stops e = rw (pages_mapped, e)

  ends :
      page_mapped words pdpt page ≡ true
      → (page == last) ≡ true
      → pages_mapped (suc f) words pdpt page last ≡ some true
  unfolding pages_mapped
  ends e at_end = rw (pages_mapped, e, at_end)

  goes :
      page_mapped words pdpt page ≡ true
      → (page == last) ≡ false
      → pages_mapped (suc f) words pdpt page last
        ≡ pages_mapped f words pdpt (wrap64 (page + 0x1000)) last
  unfolding pages_mapped
  goes e more = rw (pages_mapped, e, more)

-- With a round for each page the loop ends; it says whether each page is mapped.
pub pages_mapped_lem :
    (words : ℕ → ℕ) (f pdpt page last n : ℕ)
    → page + n * 4096 ≡ last
    → n < f
    → last < 2 ^ 63
    → (b : Bool) × (pages_mapped f words pdpt page last ≡ some b)
      × ((b ≡ true) ↔ ((i : ℕ) → i ≤ n → page_mapped words pdpt (page + i * 4096) ≡ true))
unfolding pages_mapped
pages_mapped_lem words zero pdpt page last n e lt small = absurd (omega arith)
pages_mapped_lem words (suc f) pdpt page last zero e lt small =
    elim (Bool-cases (page_mapped words pdpt page)) [
      | inl here ↦
          let end : (page == last) ≡ true = ground arith in
          (
            true,
            ends words f pdpt page last here end,
            (λ _ i le. ap (page_mapped words pdpt) (omega arith) ∙ here, λ _. refl),
          )
      | inr gone ↦ (false, stops words f pdpt page last gone, unmapped words pdpt page _ gone)
    ]
pages_mapped_lem words (suc f) pdpt page last (suc n) e lt small =
    elim (Bool-cases (page_mapped words pdpt page)) [
      | inl here ↦
          let more : (page == last) ≡ false = ground arith in
          let step : wrap64 (page + 0x1000) ≡ page + 4096 = omega arith in
          let (b, r, iff) =
            pages_mapped_lem words f pdpt (page + 4096) last n (omega arith) (omega arith) small in
          (
            b,
            goes words f pdpt page last here more
                ∙ ap (λ k. pages_mapped f words pdpt k last) step
                ∙ r,
            (
              λ t i le. all_of (λ k. page_mapped words pdpt k ≡ true) page n here (iff.0 t) i le,
              λ all.
                  iff.1
                    (λ i le. ap (page_mapped words pdpt) (omega arith) ∙ all (suc i) (omega arith)),
            ),
          )
      | inr gone ↦ (false, stops words f pdpt page last gone, unmapped words pdpt page _ gone)
    ]
  where
    all_of :
        (P : ℕ → Type 0) (page n : ℕ)
        → P page
        → ((i : ℕ) → i ≤ n → P (page + 4096 + i * 4096))
        → (i : ℕ) → i ≤ suc n
        → P (page + i * 4096)
    all_of P page n one rest zero le = subst P (omega arith) one
    all_of P page n one rest (suc i) le = subst P (omega arith) (rest i (omega arith))
