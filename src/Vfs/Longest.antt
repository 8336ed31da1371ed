-- ===== src/Vfs/Longest.antt =====
-- `find_mount` of fs/vfs.c finds the longest mount path that the path starts with.
use cool_frost.Prelude.{
  ℕ, zero, suc, ◌+◌, ◌≤◌, ◌<◌, ◌≡◌, refl, sym, ap, ◌↔◌, ◌⊎◌, inl, inr, true, Option, none, some,
  List, [], ◌∷◌, ◌++◌, arith, ◌==◌, Bool-cases, length, get_or, drop, and_true, ==_iff, true_and,
}
use mathlib.Core.Path.{ap₂, subst}
use cool_frost.Vfs.{prefix_match, at_boundary, is_better, best_mount, skip_slash, find_mount}
use mathlib.Core.Option
use cool_frost.Vfs.Types.{max_mounts, MountPoint}

-- An active mount with a non-empty path, which the path given is or stands below.
pub record Covers (m : MountPoint) (path : List ℕ) : Type 0 where
  pub is_active : m.active ≡ true
  pub starts : path ≡ m.path ++ drop (length m.path) path
  pub boundary : at_boundary (drop (length m.path) path) ≡ true
  pub no_root : 0 < length m.path

prefix_match_lem :
    (path p : List ℕ) → (prefix_match path p ≡ true) ↔ (path ≡ p ++ drop (length p) path)
unfolding prefix_match
prefix_match_lem path [] = (λ _. refl, λ _. refl)
prefix_match_lem [] (c ∷ p) = (λ e. ground arith, λ e. cc)
prefix_match_lem (d ∷ path) (c ∷ p) =
    let ih = prefix_match_lem path p in
    (
      λ e.
          let (h, t) = and_true (d == c) (prefix_match path p) e in
          ap₂ ◌∷◌ ((==_iff d c).0 h) (ih.0 t),
      λ e.
          true_and {p = d == c} ((==_iff d c).1 (ap (λ xs. get_or xs 0 0) e))
            (ih.1 (ap (drop 1) e)),
    )

pub is_better-Covers :
    (path : List ℕ) (m : MountPoint) (n : ℕ)
    → (is_better path m n ≡ true) ↔ (Covers m path × (n < length m.path))
unfolding is_better
is_better-Covers path m n =
    let pm = prefix_match_lem path m.path in
    (
      λ e. (
        record {
          is_active = ground arith;
          starts = pm.0 (ground arith);
          boundary = ground arith;
          no_root = ground arith;
        },
        ground arith,
      ),
      λ (v, lt). ground (arith, v.is_active, pm.1 v.starts, v.boundary, lt),
    )

-- What the loop returns, from a best mount so far.
record Best (mounts : ℕ → MountPoint) (path : List ℕ) (left i : ℕ) (best : Option ℕ) (best_len : ℕ)
    (r : Option ℕ × ℕ) : Type 0 where
  grows : best_len ≤ r.1
  longest : (j : ℕ) → i ≤ j → j < i + left → Covers (mounts j) path → length (mounts j).path ≤ r.1
  source :
      ((r.0 ≡ best) × (r.1 ≡ best_len))
      ⊎ ((k : ℕ) × (r.0 ≡ some k)
          × (k < i + left)
          × (r.1 ≡ length (mounts k).path)
          × Covers (mounts k) path)

best_mount-Best :
    (mounts : ℕ → MountPoint) (path : List ℕ) (left i : ℕ) (best : Option ℕ) (best_len : ℕ)
    → Best mounts path left i best best_len (best_mount mounts path left i best best_len)
unfolding best_mount
best_mount-Best mounts path zero i best best_len = record {
  grows = omega arith;
  longest = λ j ge lt v. absurd (omega arith);
  source = inl (refl, refl);
}
best_mount-Best mounts path (suc left) i best best_len =
    let better = is_better-Covers path (mounts i) best_len in
    elim (Bool-cases (is_better path (mounts i) best_len)) [
      | inl e ↦
          let (v, lt) = better.0 e in
          let ih = best_mount-Best mounts path left (i + 1) (some i) (length (mounts i).path) in
          rw e (record {
            grows = omega (arith, ih.grows, lt);
            longest = λ j ge hi w. elim (Bool-cases (j == i)) [
              | inl same ↦
                  subst
                    (λ k.
                      length (mounts k).path
                      ≤ (best_mount mounts path left (i + 1) (some i) (length (mounts i).path)).1)
                    (sym ((==_iff j i).0 same)) ih.grows
              | inr other ↦ ih.longest j (ground arith) (omega arith) w
            ];
            source = inr (elim ih.source [
              | inl (b, l) ↦ (i, b, omega arith, l, v)
              | inr (k, b, hi, l, w) ↦ (k, b, omega arith, l, w)
            ]);
          })
      | inr e ↦
          let ih = best_mount-Best mounts path left (i + 1) best best_len in
          rw e (record {
            grows = ih.grows;
            longest = λ j ge hi w. elim (Bool-cases (j == i)) [
              | inl same ↦
                  let w' = subst (λ k. Covers (mounts k) path) ((==_iff j i).0 same) w in
                  let short : ¬ (best_len < length (mounts i).path) =
                    λ lt. ground (arith, e, better.1 (w', lt)) in
                  subst
                    (λ k.
                      length (mounts k).path
                      ≤ (best_mount mounts path left (i + 1) best best_len).1)
                    (sym ((==_iff j i).0 same)) (omega (arith, ih.grows, short))
              | inr other ↦ ih.longest j (ground arith) (omega arith) w
            ];
            source = elim ih.source [
              | inl both ↦ inl both
              | inr (k, b, hi, l, w) ↦ inr (k, b, omega arith, l, w)
            ];
          })
    ]

-- find_mount returns an active mount with a non-empty path that the path given starts with, up to
-- a slash or the end, with the rest of the path, and no mount of this kind is longer; or it
-- returns null, and there is no mount of this kind.
pub find_mount_lem :
    (mounts : ℕ → MountPoint) (path : List ℕ)
    → ((find_mount mounts path ≡ none) × ((j : ℕ) → j < max_mounts → ¬ Covers (mounts j) path))
      ⊎ ((i : ℕ) × (find_mount mounts path
            ≡ some (i, skip_slash (drop (length (mounts i).path) path)))
          × (i < max_mounts)
          × Covers (mounts i) path
          × ((j : ℕ)
              → j < max_mounts
              → Covers (mounts j) path
              → length (mounts j).path ≤ length (mounts i).path))
unfolding find_mount
find_mount_lem mounts path =
    let b = best_mount-Best mounts path max_mounts 0 none 0 in
    elim b.source [
      | inl (e, l) ↦ inl (
        ap (Option.map _) e,
        λ j lt v. omega (arith, b.longest j (omega arith) (omega arith) v, l, v.no_root),
      )
      | inr (i, e, lt, l, v) ↦ inr (
        i,
        ap₂ (λ o n. Option.map (λ i. (i, skip_slash (drop n path))) o) e l,
        lt,
        v,
        λ j lt w. omega (arith, b.longest j (omega arith) (omega arith) w, l),
      )
    ]
