-- ===== src/Links.antt =====
-- libc/list.h: the doubly linked lists of which the nodes are parts of other structs. A pointer is a
-- number, 0 the null pointer; the fields `next` and `prev` of all nodes are two functions.
pub mod Ring
mod Tests
use cool_frost.Prelude.{
  ℕ, zero, suc, ◌+◌, ◌-◌, ◌*◌, ◌/◌, ◌%◌, ◌^◌, ◌≤◌, ◌<◌, min, bit_and, bit_or, bit_xor, ◌≡◌, refl,
  sym, ap, ◌∙◌, ◌≢◌, ◌↔◌, ◌⊎◌, inl, inr, Bool, true, false, not, ◌&&◌, ◌||◌, Option, none, some,
  List, [], ◌∷◌, ◌++◌, map, arith, ltb, leb, ◌==◌, if◌then◌else◌, Bool-cases, Option-cases, length,
  get_elem?, get_or, set, take, drop, replicate, wrap8, wrap32, wrap64, sub32, sub64,
}

pub record Nodes : Type 0 where
  pub next : ℕ → ℕ
  pub prev : ℕ → ℕ

abbrev pub write_field : (ℕ → ℕ) → (node value : ℕ) → ℕ → ℕ
write_field f node value p = if p == node then value else f p

-- `p->next = value;`
abbrev pub set_next : Nodes → (p value : ℕ) → Nodes
set_next s p value = record s { next = write_field s.next p value }

-- `p->prev = value;`
abbrev pub set_prev : Nodes → (p value : ℕ) → Nodes
set_prev s p value = record s { prev = write_field s.prev p value }

pub list_init : Nodes → (h : ℕ) → Nodes
list_init s h = set_prev (set_next s h h) h h

pub list_empty : Nodes → (h : ℕ) → Bool
list_empty s h = s.next h == h

-- `__list_add`
pub add_between : Nodes → (n prev next : ℕ) → Nodes
add_between s n prev next =
    let s1 = set_prev s next n in
    let s2 = set_next s1 n next in let s3 = set_prev s2 n prev in set_next s3 prev n

pub list_add : Nodes → (n head : ℕ) → Nodes
unfolding add_between
list_add s n head = add_between s n head (s.next head)

pub list_add_tail : Nodes → (n head : ℕ) → Nodes
unfolding add_between
list_add_tail s n head = add_between s n (s.prev head) head

pub list_del : Nodes → (n : ℕ) → Nodes
list_del s n =
    let s1 = set_next s (s.prev n) (s.next n) in
    let s2 = set_prev s1 (s1.next n) (s1.prev n) in let s3 = set_next s2 n 0 in set_prev s3 n 0

pub list_del_init : Nodes → (n : ℕ) → Nodes
unfolding list_del
list_del_init s n = list_init (list_del s n) n

pub list_move : Nodes → (n head : ℕ) → Nodes
unfolding list_del list_add
list_move s n head = list_add (list_del s n) n head

-- The loop of list_count from `p` on, in `fuel` rounds at most; `none` where they do not suffice.
pub count_from : (fuel : ℕ) → Nodes → (head p : ℕ) → Option ℕ
count_from zero s head p = none
count_from (suc fuel) s head p = elim (p == head) [
  | true ↦ some 0
  | false ↦ elim (count_from fuel s head (s.next p)) [ none ↦ none | some c ↦ some (c + 1) ]
]

pub list_count : (fuel : ℕ) → Nodes → (head : ℕ) → Option ℕ
unfolding count_from
list_count fuel s head = count_from fuel s head (s.next head)
