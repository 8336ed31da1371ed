-- ===== src/Links/Ring.antt =====
-- What a list of libc/list.h holds: its nodes form a ring through the head, in both directions.
pub mod Unlink
pub mod Order
use mathlib.Core.Path.{subst}
use cool_frost.Prelude.{
  ℕ, zero, suc, ◌+◌, ◌-◌, ◌*◌, ◌/◌, ◌%◌, ◌^◌, ◌≤◌, ◌<◌, min, bit_and, bit_or, bit_xor, ◌≡◌, refl,
  sym, ap, ◌∙◌, ◌≢◌, ◌↔◌, ◌⊎◌, inl, inr, Bool, true, false, not, ◌&&◌, ◌||◌, Option, none, some,
  List, [], ◌∷◌, ◌++◌, map, arith, ltb, leb, ◌==◌, if◌then◌else◌, Bool-cases, Option-cases, length,
  get_elem?, get_or, set, take, drop, replicate, wrap8, wrap32, wrap64, sub32, sub64,
}
use cool_frost.Links.{
  Nodes, write_field, set_next, set_prev, list_init, list_empty, add_between, list_add,
  list_add_tail, list_del, count_from, list_count,
}

-- From `p` the nodes of the list lead to `q`: each points to the one behind it and back.
pub Chain : Nodes → (p : ℕ) → List ℕ → (q : ℕ) → Type 0
Chain s p [] q = (s.next p ≡ q) × (s.prev q ≡ p)
Chain s p (n ∷ ns) q = (s.next p ≡ n) × (s.prev n ≡ p) × Chain s n ns q

-- `a` is none of the nodes.
unfoldable pub Fresh : (a : ℕ) → List ℕ → Type 0
Fresh a [] = Unit
Fresh a (n ∷ ns) = (a ≢ n) × Fresh a ns

pub Distinct : List ℕ → Type 0
Distinct [] = Unit
Distinct (n ∷ ns) = Fresh n ns × Distinct ns

-- The ring of the head holds the nodes in their order, each once.
pub record Holds (s : Nodes) (head : ℕ) (nodes : List ℕ) : Type 0 where
  pub chain : Chain s head nodes head
  pub distinct : Distinct nodes
  pub apart : Fresh head nodes

-- The first node of a chain, or its end.
pub first_of : List ℕ → ℕ → ℕ
first_of [] q = q
first_of (n ∷ ns) q = n

Chain-first :
    (s : Nodes) (p q : ℕ) (ns : List ℕ)
    → Chain s p ns q
    → (s.next p ≡ first_of ns q) × (s.prev (first_of ns q) ≡ p)
unfolding Chain first_of
Chain-first s p q [] (a, b) = (a, b)
Chain-first s p q (n ∷ ns) (a, b, c) = (a, b)

pub write_other : (f : ℕ → ℕ) (a v p : ℕ) → a ≢ p → write_field f a v p ≡ f p
write_other f a v p ne = let h : (p == a) ≡ false = ground arith in rw h refl

pub write_same : (f : ℕ → ℕ) (a v p : ℕ) → a ≡ p → write_field f a v p ≡ v
write_same f a v p e = let h : (p == a) ≡ true = ground arith in rw h refl

-- A write to the next field of a node that is neither the start nor in the chain.
pub Chain-set_next :
    (s : Nodes) (a v p q : ℕ) (ns : List ℕ)
    → a ≢ p
    → Fresh a ns
    → Chain s p ns q
    → Chain (set_next s a v) p ns q
unfolding Chain Fresh
Chain-set_next s a v p q [] ne f (h, b) = (write_other s.next a v p ne ∙ h, b)
Chain-set_next s a v p q (n ∷ ns) ne (nn, f) (h, b, c) =
    (write_other s.next a v p ne ∙ h, b, Chain-set_next s a v n q ns nn f c)

pub Chain-set_prev :
    (s : Nodes) (a v p q : ℕ) (ns : List ℕ)
    → a ≢ q
    → Fresh a ns
    → Chain s p ns q
    → Chain (set_prev s a v) p ns q
unfolding Chain Fresh
Chain-set_prev s a v p q [] ne f (h, b) = (h, write_other s.prev a v q ne ∙ b)
Chain-set_prev s a v p q (n ∷ ns) ne (nn, f) (h, b, c) =
    (h, write_other s.prev a v n nn ∙ b, Chain-set_prev s a v n q ns ne f c)

-- The nodes of one ring are no others.
pub flip : {a b : ℕ} → a ≢ b → b ≢ a
flip ne e = ne (sym e)

list_add-Chain :
    (s : Nodes) (n head : ℕ) (ns : List ℕ)
    → n ≢ head
    → Fresh n ns
    → Distinct ns
    → Fresh head ns
    → Chain s head ns head
    → Chain (list_add s n head) head (n ∷ ns) head
unfolding list_add add_between Chain Fresh Distinct
list_add-Chain s n head [] ne f d a (h, b) =
    let s1 = set_prev s (s.next head) n in
    let s2 = set_next s1 n (s.next head) in
    let s3 = set_prev s2 n head in
    (
      write_same s3.next head n head refl,
      write_same s2.prev n head n refl,
      (
        write_other s3.next head n n (flip ne) ∙ write_same s1.next n (s.next head) n refl ∙ h,
        write_other s2.prev n head head ne ∙ write_same s.prev (s.next head) n head h,
      ),
    )
list_add-Chain s n head (m ∷ ms) ne (nm, f) (fm, d) (hm, a) (h, b, c) =
    let s1 = set_prev s (s.next head) n in
    let s2 = set_next s1 n (s.next head) in
    let s3 = set_prev s2 n head in
    (
      write_same s3.next head n head refl,
      write_same s2.prev n head n refl,
      (
        write_other s3.next head n n (flip ne) ∙ write_same s1.next n (s.next head) n refl ∙ h,
        write_other s2.prev n head m nm ∙ write_same s.prev (s.next head) n m h,
        Chain-set_next s3 head n m head ms hm a (
            Chain-set_prev s2 n head m head ms ne f (
              Chain-set_next s1 n (s.next head) m head ms nm f (
                Chain-set_prev s (s.next head) n m head ms (λ e. hm (sym e ∙ h))
                  (subst (λ x. Fresh x ms) (sym h) fm) c))),
      ),
    )

-- The new node comes first.
pub list_add-Holds :
    (s : Nodes) (n head : ℕ) (ns : List ℕ)
    → Holds s head ns
    → n ≢ head
    → Fresh n ns
    → Holds (list_add s n head) head (n ∷ ns)
unfolding Distinct Fresh
list_add-Holds s n head ns v ne f = record {
  chain = list_add-Chain s n head ns ne f v.distinct v.apart v.chain;
  distinct = (f, v.distinct);
  apart = (flip ne, v.apart);
}
