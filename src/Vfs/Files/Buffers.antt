-- ===== src/Vfs/Files/Buffers.antt =====
-- vfs_read of fs/vfs.c: how much of the caller's buffer it fills.
use cool_frost.Prelude.{
  ℕ, ◌≤◌, inl, inr, not, ◌||◌, arith, ◌==◌, Bool-cases, Option-cases, length, wrap32, ℤ,
}
use cool_frost.Vfs.Types.{Drivers, Vfs}
use cool_frost.Vfs.Files.{fdt, open_fd, vfs_read}

-- No driver's read stores more bytes than it is asked for.
pub record IsBounded {W : Type 0} (d : Drivers W) : Type 0 where
  pub within : (w : W) (node offset size : ℕ) → length (d.read w node offset size).1 ≤ size

module _ {W : Type 0} (d : Drivers W) (v : IsBounded d) where
  pub length-vfs_read : (s : Vfs W) (fd : ℤ) (size : ℕ) → length (vfs_read d s fd size).1 ≤ size
  unfolding vfs_read
  length-vfs_read s fd size = elim (Option-cases (open_fd s fd)) [
    | inl e ↦ rw (vfs_read, e) (omega arith)
    | inr (i, e) ↦
        elim (Bool-cases ((fdt s i).node == 0 || not ((d.node s.world (fdt s i).node).has_read))) [
          | inl h ↦ rw (vfs_read, e, h) (omega arith)
          | inr h ↦
              let le = v.within s.world (fdt s i).node (fdt s i).offset (wrap32 size) in
              rw (vfs_read, e, h) (omega (arith, le))
        ]
  ]
