-- ===== src/Links/Ring/Order.antt =====
-- The lists of libc/list.h as sequences of nodes, under any operations in any order.
use cool_frost.Prelude.{
  ℕ, zero, suc, ◌+◌, ◌<◌, ◌≡◌, refl, sym, ap, ◌∙◌, ◌≢◌, true, false, some, List, [], ◌∷◌, ◌++◌,
  arith, ◌==◌, length,
}
use cool_frost.Links.{
  Nodes, set_next, set_prev, list_init, add_between, list_add, list_add_tail, list_del, count_from,
  list_count,
}
use cool_frost.Links.{list_del_init, list_move}
use cool_frost.Links.Ring.{
  Chain, Fresh, Distinct, Holds, flip, write_other, write_same, Chain-set_next, Chain-set_prev,
  list_add-Holds,
}
use cool_frost.Links.Ring.Unlink.{Fresh-member, before-Fresh, list_del-Holds, Distinct-append}

Fresh-snoc : (a n : ℕ) (ns : List ℕ) → Fresh a ns → a ≢ n → Fresh a (ns ++ (n ∷ []))
unfolding Fresh
Fresh-snoc a n [] f ne = (ne, _)
Fresh-snoc a n (x ∷ xs) (ax, f) ne = (ax, Fresh-snoc a n xs f ne)

Distinct-snoc : (n : ℕ) (ns : List ℕ) → Distinct ns → Fresh n ns → Distinct (ns ++ (n ∷ []))
unfolding Distinct Fresh
Distinct-snoc n [] d f = (_, _)
Distinct-snoc n (x ∷ xs) (fx, d) (nx, f) = (Fresh-snoc x n xs fx (flip nx), Distinct-snoc n xs d f)

-- `__list_add` behind the last node of the ring from `p` on
add_between-Chain :
    (s : Nodes) (n p q : ℕ) (xs : List ℕ)
    → n ≢ p
    → n ≢ q
    → Fresh n xs
    → Fresh p xs
    → Fresh q xs
    → Distinct xs
    → Chain s p xs q
    → Chain (add_between s n (s.prev q) q) p (xs ++ (n ∷ [])) q
unfolding add_between Chain Fresh Distinct
add_between-Chain s n p q [] np nq f fp fq d (h, b) =
    let s1 = set_prev s q n in
    let s2 = set_next s1 n q in
    let s3 = set_prev s2 n (s.prev q) in
    (
      write_same s3.next (s.prev q) n p b,
      write_same s2.prev n (s.prev q) n refl ∙ b,
      (
        write_other s3.next (s.prev q) n n (λ z. np (sym z ∙ b)) ∙ write_same s1.next n q n refl,
        write_other s2.prev n (s.prev q) q nq ∙ write_same s.prev q n q refl,
      ),
    )
add_between-Chain s n p q (x ∷ xs) np nq (nx, f) (px, fp) (qx, fq) (fx, d) (h, b, c) =
    let s1 = set_prev s q n in
    let s2 = set_next s1 n q in
    let s3 = set_prev s2 n (s.prev q) in
    (
      write_other s3.next (s.prev q) n p (before-Fresh s x q p xs c px fp)
          ∙ write_other s1.next n q p np
          ∙ h,
      write_other s2.prev n (s.prev q) x nx ∙ write_other s.prev q n x qx ∙ b,
      add_between-Chain s n x q xs nx nq f fx fq d c,
    )

-- The new node comes last.
list_add_tail-Holds :
    (s : Nodes) (n head : ℕ) (ns : List ℕ)
    → Holds s head ns
    → n ≢ head
    → Fresh n ns
    → Holds (list_add_tail s n head) head (ns ++ (n ∷ []))
unfolding list_add_tail
list_add_tail-Holds s n head ns v ne f = record {
  chain = add_between-Chain s n head head ns ne ne f v.apart v.apart v.distinct v.chain;
  distinct = Distinct-snoc n ns v.distinct f;
  apart = Fresh-snoc head n ns v.apart (flip ne);
}

list_init-Holds : (s : Nodes) (head : ℕ) → Holds (list_init s head) head []
unfolding list_init Chain Fresh Distinct
list_init-Holds s head = record {
  chain = (write_same s.next head head head refl, write_same s.prev head head head refl);
  distinct = _;
  apart = _;
}

Fresh-join : (a : ℕ) (xs ys : List ℕ) → Fresh a xs → Fresh a ys → Fresh a (xs ++ ys)
unfolding Fresh
Fresh-join a [] ys f g = g
Fresh-join a (x ∷ xs) ys (ne, f) g = (ne, Fresh-join a xs ys f g)

-- An operation on the ring of `head`, with the nodes that it holds before and after.
pub data ListOp (head : ℕ) : Nodes → List ℕ → Nodes → List ℕ → Type 0 where
  do_init : (s : Nodes) (ns : List ℕ) → ListOp head s ns (list_init s head) []
  do_add :
      (s : Nodes) (ns : List ℕ) (n : ℕ)
      → n ≢ head
      → Fresh n ns
      → ListOp head s ns (list_add s n head) (n ∷ ns)
  do_add_tail :
      (s : Nodes) (ns : List ℕ) (n : ℕ)
      → n ≢ head
      → Fresh n ns
      → ListOp head s ns (list_add_tail s n head) (ns ++ (n ∷ []))
  do_del :
      (s : Nodes) (n : ℕ) (xs ys : List ℕ)
      → ListOp head s (xs ++ (n ∷ ys)) (list_del s n) (xs ++ ys)
  do_del_init :
      (s : Nodes) (n : ℕ) (xs ys : List ℕ)
      → ListOp head s (xs ++ (n ∷ ys)) (list_del_init s n) (xs ++ ys)
  do_move :
      (s : Nodes) (n : ℕ) (xs ys : List ℕ)
      → ListOp head s (xs ++ (n ∷ ys)) (list_move s n head) (n ∷ (xs ++ ys))

-- What a list is after it was made and any operations.
pub data Reached (head : ℕ) : Nodes → List ℕ → Type 0 where
  made : (s : Nodes) → Reached head (list_init s head) []
  after :
      (s : Nodes) (ns : List ℕ) (s' : Nodes) (ns' : List ℕ)
      → Reached head s ns
      → ListOp head s ns s' ns'
      → Reached head s' ns'

module _ (s : Nodes) (n head : ℕ) (xs ys : List ℕ) (v : Holds s head (xs ++ (n ∷ ys))) where
  -- the node that list_del took out stands apart
  node_apart : (n ≢ head) × Fresh n (xs ++ ys)
  node_apart =
      let (l, r, _) = Distinct-append xs n ys v.distinct in
      (flip (Fresh-member head xs n ys v.apart), Fresh-join n xs ys l r)

  list_move-Holds : Holds (list_move s n head) head (n ∷ (xs ++ ys))
  unfolding list_move
  list_move-Holds =
      list_add-Holds (list_del s n) n head (xs ++ ys) (list_del-Holds s n head xs ys v) node_apart.0
        node_apart.1

  list_del_init-Holds : Holds (list_del_init s n) head (xs ++ ys)
  unfolding list_del_init list_init
  list_del_init-Holds =
      let w = list_del-Holds s n head xs ys v in
      let s1 = list_del s n in
      record {
        chain =
            Chain-set_prev (set_next s1 n n) n n head head (xs ++ ys) node_apart.0 node_apart.1
              (Chain-set_next s1 n n head head (xs ++ ys) node_apart.0 node_apart.1 w.chain);
        distinct = w.distinct;
        apart = w.apart;
      }

ListOp-Holds :
    (head : ℕ) (s : Nodes) (ns : List ℕ) (s' : Nodes) (ns' : List ℕ)
    → ListOp head s ns s' ns'
    → Holds s head ns
    → Holds s' head ns'
ListOp-Holds head _ _ _ _ (do_init s ns) v = list_init-Holds s head
ListOp-Holds head _ _ _ _ (do_add s ns n ne f) v = list_add-Holds s n head ns v ne f
ListOp-Holds head _ _ _ _ (do_add_tail s ns n ne f) v = list_add_tail-Holds s n head ns v ne f
ListOp-Holds head _ _ _ _ (do_del s n xs ys) v = list_del-Holds s n head xs ys v
ListOp-Holds head _ _ _ _ (do_del_init s n xs ys) v = list_del_init-Holds s n head xs ys v
ListOp-Holds head _ _ _ _ (do_move s n xs ys) v = list_move-Holds s n head xs ys v

-- A list that list_init made and list_add, list_add_tail, list_del, list_del_init, list_move and
-- list_init then changed, in any order, where a node that is added is not the head and not in the
-- list and a node that is taken out is in it, is a ring of next and prev pointers through the head
-- that holds, each once, the nodes of the sequence that the operations describe: added first or
-- last, taken out, or moved to the front.
pub Reached-Holds : (head : ℕ) (s : Nodes) (ns : List ℕ) → Reached head s ns → Holds s head ns
Reached-Holds head _ _ (made s) = list_init-Holds s head
Reached-Holds head _ _ (after s ns s' ns' r op) =
    ListOp-Holds head s ns s' ns' op (Reached-Holds head s ns r)

-- The nodes from `p` on, in the order that a walk along the next fields meets them.
count_from-Chain :
    (s : Nodes) (p q : ℕ) (ns : List ℕ) (fuel : ℕ)
    → Chain s p ns q
    → Fresh q ns
    → length ns < fuel
    → count_from fuel s q (s.next p) ≡ some (length ns)
unfolding Chain Fresh count_from
count_from-Chain s p q [] (suc fuel) (h, b) f lt =
    let ends : (s.next p == q) ≡ true = ground arith in rw (count_from, ends) refl
count_from-Chain s p q (n ∷ ns) (suc fuel) (h, b, c) (qn, f) lt =
    let more : (s.next p == q) ≡ false = ground arith in
    let later : count_from fuel s q (s.next (s.next p)) ≡ some (length ns) =
      ap (λ x. count_from fuel s q (s.next x)) h
      ∙ count_from-Chain s n q ns fuel c f (omega arith) in
    rw (count_from, more, later) (ap some {x = length ns + 1} {y = suc (length ns)} (omega arith))
count_from-Chain s p q ns zero c f lt = absurd (omega arith)

-- For a list that holds n nodes, more than n rounds of the loop of list_count are enough, and it
-- returns n.
pub list_count-length :
    (s : Nodes) (head : ℕ) (ns : List ℕ) (fuel : ℕ)
    → Holds s head ns
    → length ns < fuel
    → list_count fuel s head ≡ some (length ns)
unfolding list_count
list_count-length s head ns fuel v lt = count_from-Chain s head head ns fuel v.chain v.apart lt
