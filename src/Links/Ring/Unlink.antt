-- ===== src/Links/Ring/Unlink.antt =====
-- list_del of libc/list.h.
use mathlib.Core.Path.{subst}
use cool_frost.Prelude.{ℕ, ◌≡◌, sym, ◌∙◌, ◌≢◌, List, [], ◌∷◌, ◌++◌}
use cool_frost.Links.{Nodes, set_next, set_prev, list_del}
use cool_frost.Links.Ring.{
  Chain, Fresh, Distinct, Holds, flip, write_other, write_same, Chain-set_next, Chain-set_prev,
}

pub Fresh-append :
    (a : ℕ) (xs : List ℕ) (n : ℕ) (ys : List ℕ)
    → Fresh a (xs ++ (n ∷ ys))
    → Fresh a xs × (a ≢ n) × Fresh a ys
unfolding Fresh
Fresh-append a [] n ys (ne, f) = (_, ne, f)
Fresh-append a (x ∷ xs) n ys (ne, f) = let (l, m, r) = Fresh-append a xs n ys f in ((ne, l), m, r)

Fresh-drop :
    (a : ℕ) (xs : List ℕ) (n : ℕ) (ys : List ℕ) → Fresh a (xs ++ (n ∷ ys)) → Fresh a (xs ++ ys)
unfolding Fresh
Fresh-drop a [] n ys (ne, f) = f
Fresh-drop a (x ∷ xs) n ys (ne, f) = (ne, Fresh-drop a xs n ys f)

Distinct-drop :
    (xs : List ℕ) (n : ℕ) (ys : List ℕ) → Distinct (xs ++ (n ∷ ys)) → Distinct (xs ++ ys)
unfolding Distinct
Distinct-drop [] n ys (f, d) = d
Distinct-drop (x ∷ xs) n ys (f, d) = (Fresh-drop x xs n ys f, Distinct-drop xs n ys d)

-- A chain falls in two at a node.
Chain-append :
    (s : Nodes) (p q n : ℕ) (xs ys : List ℕ)
    → Chain s p (xs ++ (n ∷ ys)) q
    → Chain s p xs n × Chain s n ys q
unfolding Chain
Chain-append s p q n [] ys (h, b, c) = ((h, b), c)
Chain-append s p q n (x ∷ xs) ys (h, b, c) =
    let (l, r) = Chain-append s x q n xs ys c in ((h, b, l), r)

-- The node before the end of a chain is no node that stands apart from it.
pub before-Fresh :
    (s : Nodes) (p q a : ℕ) (xs : List ℕ) → Chain s p xs q → a ≢ p → Fresh a xs → s.prev q ≢ a
unfolding Chain Fresh
before-Fresh s p q a [] (h, b) ne f e = ne (sym e ∙ b)
before-Fresh s p q a (x ∷ xs) (h, b, c) ne (nx, f) e = before-Fresh s x q a xs c nx f e

behind-Fresh :
    (s : Nodes) (p q a : ℕ) (xs : List ℕ) → Chain s p xs q → a ≢ q → Fresh a xs → s.next p ≢ a
unfolding Chain Fresh
behind-Fresh s p q a [] (h, b) ne f e = ne (sym e ∙ h)
behind-Fresh s p q a (x ∷ xs) (h, b, c) ne (nx, f) e = nx (sym e ∙ h)

pub Fresh-member : (a : ℕ) (xs : List ℕ) (n : ℕ) (ys : List ℕ) → Fresh a (xs ++ (n ∷ ys)) → a ≢ n
Fresh-member a xs n ys f = (Fresh-append a xs n ys f).1

-- No node of the front is in the back.
pub Distinct-append :
    (xs : List ℕ) (n : ℕ) (ys : List ℕ)
    → Distinct (xs ++ (n ∷ ys))
    → Fresh n xs × Fresh n ys × Distinct ys
unfolding Distinct Fresh
Distinct-append [] n ys (f, d) = (_, f, d)
Distinct-append (x ∷ xs) n ys (f, d) =
    let (l, r, e) = Distinct-append xs n ys d in ((flip (Fresh-member x xs n ys f), l), r, e)

module _ (s : Nodes) (n : ℕ) where
  -- the pointer that the first write leaves alone
  own_next : s.prev n ≢ n → (set_next s (s.prev n) (s.next n)).next n ≡ s.next n
  own_next ne = write_other s.next (s.prev n) (s.next n) n ne

  -- list_del where `n` comes right behind `p`
  list_del-Chain_first :
      (p q : ℕ) (ys : List ℕ)
      → n ≢ p
      → n ≢ q
      → s.next p ≡ n
      → s.prev n ≡ p
      → Chain s n ys q
      → Fresh n ys
      → Distinct ys
      → Fresh p ys
      → Fresh q ys
      → Chain (list_del s n) p ys q
  unfolding list_del Chain Fresh Distinct
  list_del-Chain_first p q [] np nq h b (c, e) f d fp fq =
      let s1 = set_next s (s.prev n) (s.next n) in
      let s2 = set_prev s1 (s1.next n) (s1.prev n) in
      let s3 = set_next s2 n 0 in
      let own = own_next (λ z. np (sym z ∙ b)) in
      (
        write_other s2.next n 0 p np ∙ write_same s.next (s.prev n) (s.next n) p b ∙ c,
        write_other s3.prev n 0 q nq ∙ write_same s.prev (s1.next n) (s.prev n) q (own ∙ c) ∙ b,
      )
  list_del-Chain_first p q (m ∷ ms) np nq h b (c, e, r) (nm, f) (fm, d) (pm, fp) (qm, fq) =
      let s1 = set_next s (s.prev n) (s.next n) in
      let s2 = set_prev s1 (s1.next n) (s1.prev n) in
      let s3 = set_next s2 n 0 in
      let own = own_next (λ z. np (sym z ∙ b)) in
      let at : (set_next s (s.prev n) (s.next n)).next n ≡ m = own ∙ c in
      (
        write_other s2.next n 0 p np ∙ write_same s.next (s.prev n) (s.next n) p b ∙ c,
        write_other s3.prev n 0 m nm ∙ write_same s.prev (s1.next n) (s.prev n) m at ∙ b,
        Chain-set_prev s3 n 0 m q ms nq f (
            Chain-set_next s2 n 0 m q ms nm f (
              Chain-set_prev s1 (s1.next n) (s.prev n) m q ms (λ z. qm (sym z ∙ at))
                (subst (λ x. Fresh x ms) (sym at) fm)
                (Chain-set_next s (s.prev n) (s.next n) m q ms (λ z. pm (sym b ∙ z))
                  (subst (λ x. Fresh x ms) (sym b) fp) r))),
      )

  -- list_del on the part of the ring from `p` on, where `n` stands behind `xs`
  list_del-Chain :
      (p q : ℕ) (xs ys : List ℕ)
      → n ≢ p
      → n ≢ q
      → Chain s p xs n
      → Chain s n ys q
      → Distinct (xs ++ (n ∷ ys))
      → Fresh p (xs ++ (n ∷ ys))
      → Fresh q (xs ++ (n ∷ ys))
      → Chain (list_del s n) p (xs ++ ys) q
  unfolding list_del Chain Fresh Distinct
  list_del-Chain p q [] ys np nq (h, b) c (f, d) (pn, fp) (qn, fq) =
      list_del-Chain_first p q ys np nq h b c f d fp fq
  list_del-Chain p q (x ∷ xs) ys np nq (h, b, c) c' (f, d) (px, fp) (qx, fq) =
      let xn : x ≢ n = Fresh-member x xs n ys f in
      let (nxs, nys, dys) = Distinct-append xs n ys d in
      let s1 = set_next s (s.prev n) (s.next n) in
      let s2 = set_prev s1 (s1.next n) (s1.prev n) in
      let s3 = set_next s2 n 0 in
      let own = own_next (before-Fresh s x n n xs c (flip xn) nxs) in
      (
        write_other s2.next n 0 p np
            ∙ write_other s.next (s.prev n) (s.next n) p
                (before-Fresh s x n p xs c px (Fresh-append p xs n ys fp).0)
            ∙ h,
        write_other s3.prev n 0 x (flip xn)
            ∙ write_other s.prev (s1.next n) (s.prev n) x (λ z.
              behind-Fresh s n q x ys c' (flip qx) (Fresh-append x xs n ys f).2 (sym own ∙ z))
            ∙ b,
        list_del-Chain x q xs ys (flip xn) nq c c' d f fq,
      )

-- The node is taken out, wherever it stands.
pub list_del-Holds :
    (s : Nodes) (n head : ℕ) (xs ys : List ℕ)
    → Holds s head (xs ++ (n ∷ ys))
    → Holds (list_del s n) head (xs ++ ys)
list_del-Holds s n head xs ys v =
    let hn : head ≢ n = Fresh-member head xs n ys v.apart in
    let (l, r) = Chain-append s head head n xs ys v.chain in
    record {
      chain = list_del-Chain s n head head xs ys (flip hn) (flip hn) l r v.distinct v.apart v.apart;
      distinct = Distinct-drop xs n ys v.distinct;
      apart = Fresh-drop head xs n ys v.apart;
    }
