-- ===== src/Vfs/Mounts.antt =====
-- Mounting and unmounting in fs/vfs.c.
pub mod Slots
pub mod Unmount
use cool_frost.Prelude.{
  ℕ, zero, suc, ◌+◌, ◌-◌, ◌*◌, ◌/◌, ◌%◌, ◌^◌, ◌≤◌, ◌<◌, min, bit_and, bit_or, bit_xor, ◌≡◌, refl,
  sym, ap, ◌∙◌, ◌≢◌, ◌↔◌, ◌⊎◌, inl, inr, Bool, true, false, not, ◌&&◌, ◌||◌, Option, none, some,
  List, [], ◌∷◌, ◌++◌, map, arith, ltb, leb, ◌==◌, if◌then◌else◌, Bool-cases, Option-cases, length,
  get_elem?, get_or, set, take, drop, replicate, wrap8, wrap32, wrap64, sub32, sub64, ℤ, minus, pos,
  negsuc,
}
use cool_frost.Sched.Types.{FileDescriptor, Task, Sched, idle, update}
use cool_frost.Vfs.Types.{
  max_fd, max_mounts, fs_fat32, fs_ext2, VfsNode, MountPoint, DriveType, ata, ahci, nvme, vblk,
  MbrPartition, Drivers, Vfs,
}
use cool_frost.Vfs.{vfs_strcpy}

-- `memset(mount_table, 0, sizeof(mount_table))`
abbrev pub no_mount : MountPoint
no_mount = record {
  path = [];
  root = 0;
  active = false;
  drive = 0;
  partition = 0;
  fs_type = 0;
  part_lba = 0;
  part_sectors = 0;
}

pub vfs_init : {W : Type 0} → Vfs W → Vfs W
vfs_init s = record s { mounts = λ i. if ltb i max_mounts then no_mount else s.mounts i }

-- The loop that finds a free slot, with `left` to look at.
pub slot_from : (ℕ → MountPoint) → (left i : ℕ) → Option ℕ
slot_from mounts zero i = none
slot_from mounts (suc left) i =
    let later = slot_from mounts left (i + 1) in if (mounts i).active then later else some i

-- What the slot holds before a driver fills it.
abbrev pub prepared : MountPoint → List ℕ → (partition sectors : ℕ) → MountPoint
prepared m path partition sectors = record m {
  path = vfs_strcpy path 64;
  partition = partition;
  part_sectors = sectors;
}

-- `*(uint16_t *)&buf[at]`
abbrev pub half_at : (ℕ → ℕ) → ℕ → ℕ
half_at buf at = buf at + buf (at + 1) * 256

module _ {W : Type 0} (d : Drivers W) where
  abbrev pub set_mount : Vfs W → ℕ → MountPoint → Vfs W
  set_mount s i m = record s { mounts = update s.mounts i m }

  -- `return fat32_mount(..., &mount_table[slot]);` and its like
  pub filled : Vfs W → (slot : ℕ) → ℤ × MountPoint × W → ℤ × Vfs W
  filled s slot (rc, m, w) = (rc, set_mount (record s { world = w }) slot m)

  -- `mount_table[slot].active = 0; return -4;`
  pub unsupported : Vfs W → (slot : ℕ) → MountPoint → ℤ × Vfs W
  unsupported s slot m = (minus 4, set_mount s slot (record m { active = false }))

  -- the choice by the type byte of the partition
  pub mount_type : Vfs W → (slot drive : ℕ) → MountPoint → MbrPartition → ℤ × Vfs W
  unfolding filled unsupported
  mount_type s slot drive m part =
      let lba = part.lba_start in
      if part.kind == 0x0b || part.kind == 0x0c
      then filled s slot (d.fat32_mount s.world ata drive lba m)
      else if part.kind == 0x83
      then (let (rc, m', w') = d.ext2_mount s.world ata drive lba m in
          elim rc [
            | negsuc (suc zero) ↦ filled s slot (d.xfs_mount w' ata drive lba m')
            | other ↦ filled s slot (other, m', w')
          ])
      else if part.kind == 0x07
      then filled s slot (d.ntfs_mount s.world ata drive lba m)
      else unsupported s slot m

  pub vfs_mount : Vfs W → (drive partition : ℕ) → List ℕ → ℤ × Vfs W
  unfolding mount_type
  vfs_mount s drive partition mount_path = elim (slot_from s.mounts max_mounts 0) [
    | none ↦ (minus 1, s)
    | some slot ↦ elim (d.read_partitions s.world drive) [
      | none ↦ (minus 2, s)
      | some parts ↦
          let part = parts partition in
          let m = prepared (s.mounts slot) mount_path partition part.sector_count in
          if part.kind == 0 then (minus 3, s) else mount_type (set_mount s slot m) slot drive m part
    ]
  ]

  -- The probes of a partition whose first sector is `boot`.
  pub mount_probed :
      Vfs W → (slot : ℕ) → DriveType → (drive lba : ℕ) → MountPoint → (ℕ → ℕ) → ℤ × Vfs W
  unfolding filled unsupported
  mount_probed s slot type drive lba m boot =
      if half_at boot 11 == 512 && half_at boot 17 == 0 && half_at boot 22 == 0
      then filled s slot (d.fat32_mount s.world type drive lba m)
      else if boot 3 == b'N' && boot 4 == b'T' && boot 5 == b'F' && boot 6 == b'S'
      then filled s slot (d.ntfs_mount s.world type drive lba m)
      else elim (d.blk_read s.world type drive (wrap64 (lba + 2))) [
        | none ↦ unsupported s slot m
        | some sb_check ↦
            if half_at sb_check 56 == 0xef53
            then filled s slot (d.ext2_mount s.world type drive lba m)
            else unsupported s slot m
      ]

  -- what the four functions for GPT partitions do, each for its type of drive
  pub mount_gpt : DriveType → Vfs W → (drive lba_start sector_count : ℕ) → List ℕ → ℤ × Vfs W
  unfolding mount_probed
  mount_gpt type s drive lba_start sector_count mount_path =
      elim (slot_from s.mounts max_mounts 0) [
        | none ↦ (minus 1, s)
        | some slot ↦
            let m = prepared (s.mounts slot) mount_path 0 sector_count in
            let s' = set_mount s slot m in
            elim (d.blk_read s.world type drive lba_start) [
              | none ↦ (minus 2, s')
              | some boot ↦ mount_probed s' slot type drive lba_start m boot
            ]
      ]

  abbrev pub vfs_mount_gpt : Vfs W → (drive lba_start sector_count : ℕ) → List ℕ → ℤ × Vfs W
  vfs_mount_gpt s drive lba count path = mount_gpt ata s drive lba count path

  abbrev pub vfs_mount_nvme_gpt : Vfs W → (drive lba_start sector_count : ℕ) → List ℕ → ℤ × Vfs W
  vfs_mount_nvme_gpt s drive lba count path = mount_gpt nvme s drive lba count path

  abbrev pub vfs_mount_ahci_gpt : Vfs W → (drive lba_start sector_count : ℕ) → List ℕ → ℤ × Vfs W
  vfs_mount_ahci_gpt s drive lba count path = mount_gpt ahci s drive lba count path

  abbrev pub vfs_mount_vblk_gpt : Vfs W → (drive lba_start sector_count : ℕ) → List ℕ → ℤ × Vfs W
  vfs_mount_vblk_gpt s drive lba count path = mount_gpt vblk s drive lba count path

  -- `while (n && n != root) n = n->parent;`, for a chain of at most `fuel` parents
  pub climb : (fuel : ℕ) → W → (n root : ℕ) → ℕ
  climb zero w n root = n
  climb (suc fuel) w n root = elim (n == 0 || n == root) [
    | true ↦ n
    | false ↦ climb fuel w ((d.node w n).parent) root
  ]

  -- `close_fds_under` on one descriptor
  abbrev pub close_under : (fuel : ℕ) → W → (root : ℕ) → FileDescriptor → FileDescriptor
  close_under fuel w root f =
      if f.active && climb fuel w f.node root == root then record f { active = false } else f

  abbrev pub close_fds_under :
      (fuel : ℕ) → W → (ℕ → FileDescriptor) → (root : ℕ) → ℕ → FileDescriptor
  close_fds_under fuel w table root f =
      if ltb f max_fd then close_under fuel w root (table f) else table f

  -- The tables of the idle task and of the first `count` tasks.
  abbrev pub close_in_tasks : (fuel : ℕ) → W → Sched → (root : ℕ) → Sched
  close_in_tasks fuel w sched root = record sched {
    tasks = λ t.
        let task = sched.tasks t in
        if t == idle || ltb t sched.count
        then record task { fd_table = close_fds_under fuel w task.fd_table root }
        else task;
  }

-- the loop that compares a path with a mount's
unfoldable pub same_path : List ℕ → List ℕ → Bool
same_path [] [] = true
same_path [] (c ∷ q) = false
same_path (c ∷ p) [] = false
same_path (c ∷ p) (e ∷ q) = let rest = same_path p q in c == e && rest

-- The loop over the mounts that looks for an active one at the path.
unfoldable pub mounted_from : (ℕ → MountPoint) → List ℕ → (left i : ℕ) → Option ℕ
mounted_from mounts path zero i = none
mounted_from mounts path (suc left) i =
    let later = mounted_from mounts path left (i + 1) in
    if (mounts i).active && same_path path (mounts i).path then some i else later

module _ {W : Type 0} (d : Drivers W) where
  unfoldable pub vfs_umount : (fuel : ℕ) → Vfs W → List ℕ → ℤ × Vfs W
  vfs_umount fuel s mount_path = elim (mounted_from s.mounts mount_path max_mounts 0) [
    | none ↦ (minus 1, s)
    | some i ↦ (
      pos 0,
      record s {
        mounts = update s.mounts i (record (s.mounts i) { active = false; root = 0 });
        sched = close_in_tasks d fuel s.world s.sched ((s.mounts i).root);
      },
    )
  ]

  pub vfs_defrag : Vfs W → List ℕ → ℤ × Vfs W
  vfs_defrag s mount_path = elim (mounted_from s.mounts mount_path max_mounts 0) [
    | none ↦ (minus 1, s)
    | some i ↦
        if (s.mounts i).fs_type == fs_fat32
        then (let (rc, w') = d.fat32_defrag s.world ((s.mounts i).root) in
            (rc, record s { world = w' }))
        else if (s.mounts i).fs_type == fs_ext2
        then (let (rc, w') = d.ext2_defrag s.world ((s.mounts i).root) in
            (rc, record s { world = w' }))
        else (minus 2, s)
  ]
