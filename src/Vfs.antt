-- ===== src/Vfs.antt =====
-- fs/vfs.c: from a path to a mount, a node, or a name in a directory. A string is its characters
-- before the terminator.
pub mod Types
pub mod Longest
pub mod Walk
pub mod Parent
pub mod Files
pub mod Mounts
pub mod Tests
use cool_frost.Prelude.{
  ℕ, zero, suc, ◌+◌, ◌-◌, ◌*◌, ◌/◌, ◌%◌, ◌^◌, ◌≤◌, ◌<◌, min, bit_and, bit_or, bit_xor, ◌≡◌, refl,
  sym, ap, ◌∙◌, ◌≢◌, ◌↔◌, ◌⊎◌, inl, inr, Bool, true, false, not, ◌&&◌, ◌||◌, Option, none, some,
  List, [], ◌∷◌, ◌++◌, map, arith, ltb, leb, ◌==◌, if◌then◌else◌, Bool-cases, Option-cases, length,
  get_elem?, get_or, set, take, drop, replicate, wrap8, wrap32, wrap64, sub32, sub64,
}
use mathlib.Core.Option
use cool_frost.Vfs.Types.{max_mounts, max_path, max_filename, VfsNode, MountPoint, Drivers, Vfs}

pub prefix_match : List ℕ → List ℕ → Bool
prefix_match str [] = true
prefix_match [] (c ∷ prefix) = false
prefix_match (d ∷ str) (c ∷ prefix) = let rest = prefix_match str prefix in d == c && rest

-- `vfs_strcpy` into a buffer of `max` bytes
abbrev pub vfs_strcpy : List ℕ → ℕ → List ℕ
vfs_strcpy src max = take (max - 1) src

-- the match ends at a '/' or at the end
abbrev pub at_boundary : List ℕ → Bool
at_boundary [] = true
at_boundary (c ∷ after) = c == b'/'

-- the test of one round of `find_mount`
pub is_better : List ℕ → MountPoint → (best_len : ℕ) → Bool
is_better path m best_len =
    m.active
    && prefix_match path m.path
    && ltb best_len (length m.path)
    && at_boundary (drop (length m.path) path)

-- The loop of `find_mount`, with `left` mounts to look at from `i` on: the best one and its length.
pub best_mount : (ℕ → MountPoint) → List ℕ → (left i : ℕ) → Option ℕ → (best_len : ℕ) → Option ℕ × ℕ
best_mount mounts path zero i best best_len = (best, best_len)
best_mount mounts path (suc left) i best best_len =
    let taken = best_mount mounts path left (i + 1) (some i) (length (mounts i).path) in
    let passed = best_mount mounts path left (i + 1) best best_len in
    if is_better path (mounts i) best_len then taken else passed

abbrev pub skip_slash : List ℕ → List ℕ
skip_slash [] = []
skip_slash (c ∷ r) = if c == b'/' then r else c ∷ r

-- `find_mount`: the index of the mount, and the remainder of the path
pub find_mount : (ℕ → MountPoint) → List ℕ → Option (ℕ × List ℕ)
find_mount mounts path =
    let (best, best_len) = best_mount mounts path max_mounts 0 none 0 in
    Option.map (λ i. (i, skip_slash (drop best_len path))) best

-- The loop of `first_mount`.
pub first_from : (ℕ → MountPoint) → (left i : ℕ) → Option ℕ
first_from mounts zero i = none
first_from mounts (suc left) i =
    let later = first_from mounts left (i + 1) in if (mounts i).active then some i else later

pub first_mount : (ℕ → MountPoint) → Option ℕ
first_mount mounts = first_from mounts max_mounts 0

-- "if (path[0] == '/')": the mount of a path, and the rest of the path
pub locate : (ℕ → MountPoint) → List ℕ → Option (ℕ × List ℕ)
locate mounts [] = Option.map (λ i. (i, [])) (first_mount mounts)
locate mounts (c ∷ path) =
    if c == b'/'
    then find_mount mounts (c ∷ path)
    else Option.map (λ i. (i, c ∷ path)) (first_mount mounts)

pub skip_slashes : List ℕ → List ℕ
skip_slashes [] = []
skip_slashes (c ∷ p) = let rest = skip_slashes p in if c == b'/' then rest else c ∷ p

-- The loop that extracts a component of at most `room` characters; the rest of the path.
pub take_component : (room : ℕ) → List ℕ → List ℕ × List ℕ
take_component zero p = ([], p)
take_component (suc room) [] = ([], [])
take_component (suc room) (c ∷ p) =
    let (name, rest) = take_component room p in if c == b'/' then ([], c ∷ p) else (c ∷ name, rest)

module _ {W : Type 0} (d : Drivers W) where
  -- The loop of `walk_path`; `none` if the fuel runs out.
  pub walk : ℕ → W → (node : ℕ) → List ℕ → Option (ℕ × W)
  walk zero w node path = none
  walk (suc f) w node path = elim (skip_slashes path) [
    | [] ↦ some (node, w)
    | c ∷ p ↦
        let (component, rest) = take_component (max_filename - 1) (c ∷ p) in
        elim ((d.node w node).has_finddir) [
          | false ↦ some (0, w)
          | true ↦
              let (found, w') = d.finddir w node component in
              elim (found == 0) [ true ↦ some (0, w') | false ↦ walk f w' found rest ]
        ]
  ]

  -- `walk_path`, with a round for each character and one more
  pub walk_path : W → (root : ℕ) → List ℕ → ℕ × W
  walk_path w root relpath = elim (walk (length relpath + 1) w root relpath) [
    | none ↦ (0, w)
    | some r ↦ r
  ]

  -- `resolve_path`
  pub resolve_path : (ℕ → MountPoint) → W → List ℕ → ℕ × W
  resolve_path mounts w path = elim (locate mounts path) [
    | none ↦ (0, w)
    | some (i, relpath) ↦ walk_path w (mounts i).root relpath
  ]

-- What stands before and after the last '/'; `none` if there is no '/'.
pub split_last : List ℕ → Option (List ℕ × List ℕ)
split_last [] = none
split_last (c ∷ p) = elim (split_last p) [
  | some (dir, name) ↦ some (c ∷ dir, name)
  | none ↦ if c == b'/' then some ([], p) else none
]

module _ {W : Type 0} (d : Drivers W) where
  -- `split_parent`: the parent's node and the name
  pub split_parent : W → (root : ℕ) → List ℕ → (ℕ × W) × List ℕ
  unfolding walk_path
  split_parent w root relpath = elim (split_last relpath) [
    | none ↦ ((root, w), vfs_strcpy relpath max_filename)
    | some (dirpath, name) ↦
        if leb max_path (length dirpath)
        then ((0, w), [])
        else (walk_path d w root dirpath, vfs_strcpy name max_filename)
  ]
