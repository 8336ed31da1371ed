-- ===== src/Vmm/Owned.antt =====
-- cpu/vmm.c: the pages that an address space owns, which its teardown frees.
use cool_frost.Paging.{is_present, page_of, entry, vmm_user_base, vmm_user_size}
use mathlib.Core.Path.{subst}
use cool_frost.Prelude.{
  ℕ, ◌+◌, ◌/◌, ◌^◌, ◌≤◌, ◌<◌, bit_and, ◌≡◌, refl, sym, ap, ◌∙◌, inl, inr, Bool, true, not, ◌||◌,
  List, [], ◌∷◌, ◌++◌, arith, ltb, leb, ◌==◌, Bool-cases, Option-cases, length, length-append,
  if_both,
}
use cool_frost.Kmem.{Kheap, kmalloc}
use cool_frost.Vmm.{Space, vmm_max_pages, vmm_alloc_page, ensure_entry, vmm_map_page}

-- The space has `n` pages more at most, behind the old ones, and no more than the table holds.
pub record Grown (n : ℕ) (s s' : Space) : Type 0 where
  pub pages : List ℕ
  pub owned : s'.space.owned_pages ≡ s.space.owned_pages ++ pages
  pub few : length pages ≤ n
  pub root : s'.space.pml4_phys ≡ s.space.pml4_phys
  pub bounded : length s'.space.owned_pages ≤ vmm_max_pages

append_nil {ℓ} : {A : Type ℓ} (xs : List A) → xs ++ [] ≡ xs
append_nil [] = refl
append_nil (x ∷ xs) = ap (λ ys. x ∷ ys) (append_nil xs)

append_assoc {ℓ} : {A : Type ℓ} (xs ys zs : List A) → (xs ++ ys) ++ zs ≡ xs ++ (ys ++ zs)
append_assoc [] ys zs = refl
append_assoc (x ∷ xs) ys zs = ap (λ r. x ∷ r) (append_assoc xs ys zs)

IsBounded : Space → Type 0
IsBounded s = length s.space.owned_pages ≤ vmm_max_pages

Grown-same : (n : ℕ) (s s' : Space) → s'.space ≡ s.space → IsBounded s → Grown n s s'
unfolding IsBounded
Grown-same n s s' e b = record {
  pages = [];
  owned = ap (λ a. a.owned_pages) e ∙ sym (append_nil s.space.owned_pages);
  few = omega arith;
  root = ap (λ a. a.pml4_phys) e;
  bounded = subst (λ a. length a.owned_pages ≤ vmm_max_pages) (sym e) b;
}

Grown-trans : (m n : ℕ) (s s' s'' : Space) → Grown m s s' → Grown n s' s'' → Grown (m + n) s s''
Grown-trans m n s s' s'' g h = record {
  pages = g.pages ++ h.pages;
  owned =
      h.owned ∙ ap (λ q. q ++ h.pages) g.owned ∙ append_assoc s.space.owned_pages g.pages h.pages;
  few = omega (arith, length-append g.pages h.pages, g.few, h.few);
  root = h.root ∙ g.root;
  bounded = h.bounded;
}

Grown-heap : (n : ℕ) (s s' : Space) (k : Kheap) → Grown n s s' → Grown n s (record s' { kheap = k })
Grown-heap n s s' k g = record {
  pages = g.pages;
  owned = g.owned;
  few = g.few;
  root = g.root;
  bounded = g.bounded;
}

Grown-more : (m n : ℕ) (s s' : Space) → m ≤ n → Grown m s s' → Grown n s s'
Grown-more m n s s' le g = record {
  pages = g.pages;
  owned = g.owned;
  few = omega (arith, g.few);
  root = g.root;
  bounded = g.bounded;
}

vmm_alloc_page-Grown : (s : Space) → IsBounded s → Grown 1 s (vmm_alloc_page s).1
unfolding vmm_alloc_page IsBounded
vmm_alloc_page-Grown s b = elim (Bool-cases (leb vmm_max_pages (length s.space.owned_pages))) [
  | inl e ↦ rw (vmm_alloc_page, e) (Grown-same 1 s s refl b)
  | inr e ↦ elim (Option-cases (kmalloc s.kheap 4096 true).0) [
    | inl g ↦
        rw (vmm_alloc_page, e, g)
          (Grown-same 1 s (record s { kheap = (kmalloc s.kheap 4096 true).1 }) refl b)
    | inr (p, g) ↦
        let small : length s.space.owned_pages < vmm_max_pages = ground arith in
        rw (vmm_alloc_page, e, g)
          (record {
            pages = p ∷ [];
            owned = refl;
            few = omega arith;
            root = refl;
            bounded = omega (arith, length-append s.space.owned_pages (p ∷ []), small);
          })
  ]
]

ensure_entry-Grown : (s : Space) (tbl idx : ℕ) → IsBounded s → Grown 1 s (ensure_entry s tbl idx).1
unfolding ensure_entry
ensure_entry-Grown s tbl idx b =
    let g = vmm_alloc_page-Grown s b in
    let P : Bool × Space → Type 0 = λ r. Grown 1 s r.1 in
    if_both P (is_present (entry s.kheap.words tbl idx)) (Grown-same 1 s s refl b)
      (if_both P ((vmm_alloc_page s).0 == 0) g (Grown-heap 1 s (vmm_alloc_page s).1 _ g))

-- In an address space that owns 512 pages at most, vmm_map_page, whether it succeeds or fails,
-- leaves the pages owned before in their place, adds two at most behind them, keeps the total at
-- 512 at most and does not move the top table.
pub vmm_map_page-Grown :
    (s : Space) (va pa flags : ℕ)
    → length s.space.owned_pages ≤ vmm_max_pages
    → Grown 2 s (vmm_map_page s va pa flags).1
unfolding vmm_map_page IsBounded
vmm_map_page-Grown s va pa flags b =
    let P : Bool × Space → Type 0 = λ r. Grown 2 s r.1 in
    let pdpt_idx = bit_and (va / 2 ^ 30) 0x1ff in
    let pd_idx = bit_and (va / 2 ^ 21) 0x1ff in
    let pdpt_tbl = page_of (entry s.kheap.words s.space.pml4_phys 0) in
    let (pd_ok, s1) = ensure_entry s pdpt_tbl pdpt_idx in
    let pd_tbl = page_of (entry s1.kheap.words pdpt_tbl pdpt_idx) in
    let (pt_ok, s2) = ensure_entry s1 pd_tbl pd_idx in
    let g1 = ensure_entry-Grown s pdpt_tbl pdpt_idx b in
    let g2 = ensure_entry-Grown s1 pd_tbl pd_idx g1.bounded in
    let both = Grown-trans 1 1 s s1 s2 g1 g2 in
    if_both P (ltb va vmm_user_base || leb (vmm_user_base + vmm_user_size) va)
      (Grown-same 2 s s refl b)
      (if_both P (not (bit_and va 0xfff == 0)) (Grown-same 2 s s refl b) (
        if_both P (not pd_ok) (Grown-more 1 2 s s1 (omega arith) g1)
          (if_both P (not pt_ok) both (Grown-heap 2 s s2 _ both))))
