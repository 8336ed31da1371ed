-- ===== src/Vfs/Walk.antt =====
-- `walk_path` of fs/vfs.c looks up the names that a path spells, one directory after the other.
use cool_frost.Prelude.{
  ℕ, zero, suc, ◌+◌, ◌-◌, ◌≤◌, ◌<◌, ◌≡◌, refl, ap, ◌∙◌, ◌≢◌, inl, inr, true, false, Option, none,
  some, List, [], ◌∷◌, ◌++◌, arith, ◌==◌, Bool-cases, length, get_or, length-append,
}
use cool_frost.Vfs.{at_boundary, skip_slashes, take_component, walk, walk_path}
use cool_frost.Vfs.Types.{max_filename, Drivers}

abbrev pub NoSlash : List ℕ → Type 0
NoSlash [] = Unit
NoSlash (c ∷ n) = (c ≢ b'/') × NoSlash n

-- a file name that a component buffer holds
pub record IsName (n : List ℕ) : Type 0 where
  pub nonempty : 0 < length n
  pub fits : length n < max_filename
  pub no_slash : NoSlash n

-- The names that a path is made of, with any number of slashes between them.
pub data Spells : List ℕ → List (List ℕ) → Type 0 where
  finish : Spells [] []
  slash : {p : List ℕ} {ns : List (List ℕ)} → Spells p ns → Spells (b'/' ∷ p) ns
  name :
      {n p : List ℕ} {ns : List (List ℕ)}
      → IsName n
      → at_boundary p ≡ true
      → Spells p ns
      → Spells (n ++ p) (n ∷ ns)

skip_slashes-le : (p : List ℕ) → length (skip_slashes p) ≤ length p
unfolding skip_slashes
skip_slashes-le [] = omega arith
skip_slashes-le (c ∷ p) = ground (arith, skip_slashes-le p)

skip_slashes_head : (p : List ℕ) {c : ℕ} {r : List ℕ} → skip_slashes p ≡ c ∷ r → c ≢ b'/'
unfolding skip_slashes
skip_slashes_head [] e same = absurd (cc)
skip_slashes_head (c ∷ p) {c = k} e same = elim (Bool-cases (c == b'/')) [
  | inl t ↦ skip_slashes_head p (rw t at e) same
  | inr t ↦
      let e' : c ∷ p ≡ k ∷ _ = rw t at e in
      let head : c ≡ k = ap (λ xs. get_or xs 0 0) e' in ground (arith, head, same)
]

nothing : skip_slashes [] ≡ []
unfolding skip_slashes
nothing = refl

skip_slashes_name : (c : ℕ) (p : List ℕ) → c ≢ b'/' → skip_slashes (c ∷ p) ≡ c ∷ p
unfolding skip_slashes
skip_slashes_name c p ne = ground (arith, ne)

take_component-le : (room : ℕ) (p : List ℕ) → length (take_component room p).1 ≤ length p
unfolding take_component
take_component-le zero p = omega arith
take_component-le (suc room) [] = omega arith
take_component-le (suc room) (c ∷ p) = ground (arith, take_component-le room p)

take_component-lt :
    (room c : ℕ) (p : List ℕ)
    → c ≢ b'/'
    → length (take_component (suc room) (c ∷ p)).1 < length (c ∷ p)
unfolding take_component
take_component-lt room c p ne = ground (arith, take_component-le room p, ne)

take_component_name :
    (n p : List ℕ) (room : ℕ)
    → NoSlash n
    → length n ≤ room
    → at_boundary p ≡ true
    → take_component room (n ++ p) ≡ (n, p)
unfolding take_component
take_component_name [] [] zero plain le ends = refl
take_component_name [] [] (suc room) plain le ends = refl
take_component_name [] (c ∷ p) zero plain le ends = refl
take_component_name [] (c ∷ p) (suc room) plain le ends = rw ends refl
take_component_name (c ∷ n) p zero plain le ends = absurd (omega arith)
take_component_name (c ∷ n) p (suc room) plain le ends =
    let ih = take_component_name n p room (plain.1) (omega arith) ends in
    let other : (c == b'/') ≡ false = ground (arith, plain.0) in rw (other, ih) refl

module _ {W : Type 0} (d : Drivers W) where
  -- Each name is looked up in the node found before it; 0 where one is not found.
  unfoldable pub find_all : W → (node : ℕ) → List (List ℕ) → ℕ × W
  find_all w node [] = (node, w)
  find_all w node (n ∷ ns) = elim ((d.node w node).has_finddir) [
    | false ↦ (0, w)
    | true ↦
        let (found, w') = d.finddir w node n in
        elim (found == 0) [ true ↦ (0, w') | false ↦ find_all w' found ns ]
  ]

  -- a round of the walk, once its component is extracted
  abbrev enter : ℕ → W → (node : ℕ) → (component rest : List ℕ) → Option (ℕ × W)
  enter f w node component rest = elim ((d.node w node).has_finddir) [
    | false ↦ some (0, w)
    | true ↦
        let (found, w') = d.finddir w node component in
        elim (found == 0) [ true ↦ some (0, w') | false ↦ walk d f w' found rest ]
  ]

  walk_end :
      (f : ℕ) (w : W) (node : ℕ) (path : List ℕ)
      → skip_slashes path ≡ []
      → walk d (suc f) w node path ≡ some (node, w)
  unfolding walk
  walk_end f w node path e = rw (walk, e) refl

  walk-enter :
      (f : ℕ) (w : W) (node : ℕ) (path : List ℕ) {c : ℕ} {p : List ℕ}
      → skip_slashes path ≡ c ∷ p
      → walk d (suc f) w node path ≡ (
          let (component, rest) = take_component (max_filename - 1) (c ∷ p) in
          enter f w node component rest)
  unfolding walk
  walk-enter f w node path e = rw (walk, e) refl

  enter-total :
      (f : ℕ) (w : W) (node : ℕ) (component rest : List ℕ)
      → ((w : W) (node : ℕ) → (r : ℕ × W) × (walk d f w node rest ≡ some r))
      → (r : ℕ × W) × (enter f w node component rest ≡ some r)
  enter-total f w node component rest again = elim (Bool-cases ((d.node w node).has_finddir)) [
    | inl e ↦ elim (Bool-cases ((d.finddir w node component).0 == 0)) [
      | inl z ↦ ((0, (d.finddir w node component).1), rw (enter, e, z) refl)
      | inr nz ↦
          let (r, got) = again (d.finddir w node component).1 (d.finddir w node component).0 in
          (r, rw (enter, e, nz) got)
    ]
    | inr e ↦ ((0, w), rw (enter, e) refl)
  ]

  -- With one round more than the path has characters the loop of walk_path ends, for any path and
  -- any driver.
  pub walk-total :
      (f : ℕ) (w : W) (node : ℕ) (path : List ℕ)
      → length path < f
      → (r : ℕ × W) × (walk d f w node path ≡ some r)
  walk-total zero w node path lt = absurd (omega arith)
  walk-total (suc f) w node path lt =
      go (skip_slashes path) refl (λ rest less w' node'. walk-total f w' node' rest less)
    where
      go :
          (q : List ℕ)
          → skip_slashes path ≡ q
          → ((rest : List ℕ)
              → length rest < f
              → (w : W) (node : ℕ) → (r : ℕ × W) × (walk d f w node rest ≡ some r))
          → (r : ℕ × W) × (walk d (suc f) w node path ≡ some r)
      go [] e again = ((node, w), walk_end f w node path e)
      go (c ∷ p) e again =
          let (component, rest) = take_component (max_filename - 1) (c ∷ p) in
          let shorter : length (take_component (max_filename - 1) (c ∷ p)).1 < f = omega (
            arith,
            take_component-lt 126 c p (skip_slashes_head path e),
            skip_slashes-le path,
            ap length e,
          ) in
          let (r, got) = enter-total f w node component rest (again rest shorter) in
          (r, walk-enter f w node path e ∙ got)

  same_enter :
      (f : ℕ) (w : W) (node : ℕ) (n p : List ℕ) (ns : List (List ℕ))
      → ((w : W) (node : ℕ) → walk d f w node p ≡ some (find_all w node ns))
      → enter f w node n p ≡ some (find_all w node (n ∷ ns))
  unfolding find_all
  same_enter f w node n p ns again = elim (Bool-cases ((d.node w node).has_finddir)) [
    | inl e ↦ elim (Bool-cases ((d.finddir w node n).0 == 0)) [
      | inl z ↦ rw (enter, find_all, e, z) refl
      | inr nz ↦ rw (enter, find_all, e, nz) (again (d.finddir w node n).1 (d.finddir w node n).0)
    ]
    | inr e ↦ rw (enter, find_all, e) refl
  ]

  walk_slash :
      (f : ℕ) (w : W) (node : ℕ) (p : List ℕ)
      → walk d (suc f) w node (b'/' ∷ p) ≡ walk d (suc f) w node p
  unfolding walk skip_slashes
  walk_slash f w node p = refl

  walk-find_all :
      (f : ℕ) (w : W) (node : ℕ) {path : List ℕ} {ns : List (List ℕ)}
      → Spells path ns
      → length path < f
      → walk d f w node path ≡ some (find_all w node ns)
  unfolding find_all
  walk-find_all zero w node s lt = absurd (omega arith)
  walk-find_all (suc f) w node finish lt = walk_end f w node [] nothing
  walk-find_all (suc f) w node (slash {p} {ns} s) lt =
      walk_slash f w node p ∙ walk-find_all (suc f) w node s (omega arith)
  walk-find_all (suc f) w node (name {n = []} v ends s) lt = absurd (omega (arith, v.nonempty))
  walk-find_all (suc f) w node (name {n = c ∷ n} {p} {ns} v ends s) lt =
      walk-enter f w node _ (skip_slashes_name c (n ++ p) v.no_slash.0)
      ∙ ap (λ r. enter f w node r.0 r.1)
          (take_component_name (c ∷ n) p 127 v.no_slash (omega (arith, v.fits)) ends)
      ∙ same_enter f w node (c ∷ n) p ns
          (λ w' node'. walk-find_all f w' node' s (omega (arith, length-append n p)))

  -- For a path that spells names which are not empty, hold no slash and fit a component buffer,
  -- with any number of slashes around them, walk_path looks the names up one after the other, each
  -- in the node found before.
  pub walk_path-find_all :
      (w : W) (root : ℕ) {path : List ℕ} {ns : List (List ℕ)}
      → Spells path ns
      → walk_path d w root path ≡ find_all w root ns
  unfolding walk_path
  walk_path-find_all w root {path} s =
      ap (λ o. elim o [ none ↦ (0, w) | some r ↦ r ])
        (walk-find_all (length path + 1) w root s (omega arith))
