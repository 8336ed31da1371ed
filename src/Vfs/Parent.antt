-- ===== src/Vfs/Parent.antt =====
-- `split_parent` of fs/vfs.c: the directory that holds the last name of a path, and that name.
use cool_frost.Prelude.{
  ℕ, zero, suc, ◌≤◌, ◌<◌, ◌≡◌, refl, sym, ap, ◌∙◌, ◌≢◌, ◌⊎◌, inl, inr, true, false, none, some,
  List, [], ◌∷◌, ◌++◌, arith, leb, ◌==◌, Bool-cases, length, take,
}
use mathlib.Core.Path.{subst}
use cool_frost.Vfs.{at_boundary, walk_path, split_last, split_parent}
use cool_frost.Vfs.Types.{max_path, Drivers}
use cool_frost.Vfs.Walk.{NoSlash, IsName, Spells, finish, slash, name, find_all, walk_path-find_all}

split_last-none : (n : List ℕ) → NoSlash n → split_last n ≡ none
unfolding split_last
split_last-none [] plain = refl
split_last-none (c ∷ n) (ne, plain) = rw (split_last-none n plain) (ground (arith, ne))

split_last-some : (dir n : List ℕ) → NoSlash n → split_last (dir ++ (b'/' ∷ n)) ≡ some (dir, n)
unfolding split_last
split_last-some [] n plain = rw (split_last-none n plain) refl
split_last-some (c ∷ dir) n plain = rw (split_last-some dir n plain) refl

at_boundary_append : (p q : List ℕ) → at_boundary p ≡ true → at_boundary (p ++ (b'/' ∷ q)) ≡ true
at_boundary_append [] q ends = refl
at_boundary_append (c ∷ p) q ends = ends

append_nil : (p : List ℕ) → p ++ [] ≡ p
append_nil [] = refl
append_nil (c ∷ p) = ap (λ q. c ∷ q) (append_nil p)

append_assoc : (p q r : List ℕ) → (p ++ q) ++ r ≡ p ++ (q ++ r)
append_assoc [] q r = refl
append_assoc (c ∷ p) q r = ap (λ s. c ∷ s) (append_assoc p q r)

Spells-append :
    {dir : List ℕ} {ds : List (List ℕ)} (n : List ℕ)
    → Spells dir ds
    → IsName n
    → Spells (dir ++ (b'/' ∷ n)) (ds ++ (n ∷ []))
Spells-append n finish v =
    slash (subst (λ p. Spells p (n ∷ [])) (append_nil n) (name v refl finish))
Spells-append n (slash s) v = slash (Spells-append n s v)
Spells-append n (name {n = m} {p} {ns} u ends s) v =
    subst (λ q. Spells q (m ∷ (ns ++ (n ∷ [])))) (sym (append_assoc m p (b'/' ∷ n)))
      (name u (at_boundary_append p n ends) (Spells-append n s v))

take_short : (k : ℕ) (n : List ℕ) → length n ≤ k → take k n ≡ n
take_short zero [] le = refl
take_short zero (c ∷ n) le = absurd (omega arith)
take_short (suc k) [] le = refl
take_short (suc k) (c ∷ n) le = ap (λ q. c ∷ q) (take_short k n (omega arith))

module _ {W : Type 0} (d : Drivers W) where
  find_all_step :
      (w : W) (node : ℕ) (m : List ℕ) (ds : List (List ℕ))
      → (d.node w node).has_finddir ≡ true
      → ((d.finddir w node m).0 == 0) ≡ false
      → find_all d w node (m ∷ ds) ≡ find_all d (d.finddir w node m).1 (d.finddir w node m).0 ds
  unfolding find_all
  find_all_step w node m ds e nz = rw (find_all, e, nz) refl

  find_all_stop :
      (w : W) (node : ℕ) (m : List ℕ) (ds : List (List ℕ))
      → ((d.node w node).has_finddir ≡ false) ⊎ (((d.finddir w node m).0 == 0) ≡ true)
      → (find_all d w node (m ∷ ds)).0 ≡ 0
  unfolding find_all
  find_all_stop w node m ds (inl e) = rw (find_all, e) refl
  find_all_stop w node m ds (inr z) = elim (Bool-cases ((d.node w node).has_finddir)) [
    | inl e ↦ rw (find_all, e, z) refl
    | inr e ↦ rw (find_all, e) refl
  ]

  -- The last name is looked up in the node that the others lead to.
  find_all_append :
      (w : W) (root : ℕ) (ds : List (List ℕ)) (n : List ℕ)
      → (find_all d w root ds).0 ≢ 0
      → find_all d w root (ds ++ (n ∷ []))
        ≡ find_all d (find_all d w root ds).1 (find_all d w root ds).0 (n ∷ [])
  unfolding find_all
  find_all_append w root [] n found = ap (λ r. find_all d r.1 r.0 (n ∷ [])) (sym start)
    where
      start : find_all d w root [] ≡ (root, w)
      start = refl
  find_all_append w root (m ∷ ds) n found = elim (Bool-cases ((d.node w root).has_finddir)) [
    | inl e ↦ elim (Bool-cases ((d.finddir w root m).0 == 0)) [
      | inl z ↦ absurd (found (find_all_stop w root m ds (inr z)))
      | inr nz ↦
          let (f, w') = d.finddir w root m in
          let here = find_all_step w root m ds e nz in
          find_all_step w root m (ds ++ (n ∷ [])) e nz
          ∙ find_all_append w' f ds n (λ zero_there. found (ap (λ r. r.0) here ∙ zero_there))
          ∙ ap (λ r. find_all d r.1 r.0 (n ∷ [])) (sym here)
    ]
    | inr e ↦ absurd (found (find_all_stop w root m ds (inl e)))
  ]

  split_parent_eq :
      (w : W) (root : ℕ) (dir n : List ℕ)
      → IsName n
      → length dir < max_path
      → split_parent d w root (dir ++ (b'/' ∷ n)) ≡ (walk_path d w root dir, n)
  unfolding split_parent
  split_parent_eq w root dir n v short =
      let fits : leb max_path (length dir) ≡ false = ground arith in
      rw (split_parent, split_last-some dir n v.no_slash, fits)
        (ap (λ k. (walk_path d w root dir, k)) (take_short 127 n (omega (arith, v.fits))))

  -- For a directory path that spells names and is shorter than MAX_PATH, and a last name that
  -- fits, split_parent returns that name and what walk_path finds for the directory; if that is
  -- not null, walk_path of the whole path is the lookup of the name there.
  pub split_parent-walk_path :
      (w : W) (root : ℕ) (dir : List ℕ) (ds : List (List ℕ)) (n : List ℕ)
      → Spells dir ds
      → IsName n
      → length dir < max_path
      → let ((parent, w'), last) = split_parent d w root (dir ++ (b'/' ∷ n)) in
        (last ≡ n)
        × ((parent, w') ≡ walk_path d w root dir)
        × (parent ≢ 0 → walk_path d w root (dir ++ (b'/' ∷ n)) ≡ find_all d w' parent (n ∷ []))
  split_parent-walk_path w root dir ds n s v short =
      let e = split_parent_eq w root dir n v short in
      let to = walk_path-find_all d w root s in
      (
        ap (λ r. r.1) e,
        ap (λ r. r.0) e,
        λ found.
            walk_path-find_all d w root (Spells-append n s v)
            ∙ find_all_append w root ds n (λ z. found (ap (λ r. r.0.0) e ∙ ap (λ r. r.0) to ∙ z))
            ∙ ap (λ r. find_all d r.1 r.0 (n ∷ [])) (sym (ap (λ r. r.0) e ∙ to)),
      )
