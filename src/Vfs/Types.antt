-- ===== src/Vfs/Types.antt =====
-- The data of fs/vfs.h, and what a file system driver offers to it.
use cool_frost.Prelude.{ℕ, Bool, Option, List, ℤ}
use cool_frost.Sched.Types.{Sched}

abbrev pub max_fd : ℕ
max_fd = 64

abbrev pub max_mounts : ℕ
max_mounts = 8

abbrev pub max_path : ℕ
max_path = 256

abbrev pub max_filename : ℕ
max_filename = 128

-- O_CREATE and O_APPEND
abbrev pub o_create : ℕ
o_create = 0x04

abbrev pub o_append : ℕ
o_append = 0x08

-- FS_FAT32 and FS_EXT2, the types that `vfs_defrag` knows, and the others
abbrev pub fs_fat32 : ℕ
fs_fat32 = 2

abbrev pub fs_ext2 : ℕ
fs_ext2 = 3

-- `dirent_t`
pub record Dirent : Type 0 where
  pub name : List ℕ
  pub size : ℕ
  pub kind : ℕ

-- `vfs_stat_t`
pub record VfsStat : Type 0 where
  pub size : ℕ
  pub inode : ℕ
  pub kind : ℕ

-- `vfs_node_t`, with the operations that are set. `parent` is an address, 0 for the root.
pub record VfsNode : Type 0 where
  pub kind : ℕ
  pub size : ℕ
  pub inode : ℕ
  pub has_read : Bool
  pub has_write : Bool
  pub has_readdir : Bool
  pub has_finddir : Bool
  pub has_create : Bool
  pub has_unlink : Bool
  pub has_rename : Bool
  pub parent : ℕ

-- `mount_point_t`
pub record MountPoint : Type 0 where
  pub path : List ℕ
  pub root : ℕ
  pub active : Bool
  pub drive : ℕ
  pub partition : ℕ
  pub fs_type : ℕ
  pub part_lba : ℕ
  pub part_sectors : ℕ

-- DRIVE_TYPE_ATA, DRIVE_TYPE_AHCI, DRIVE_TYPE_NVME and DRIVE_TYPE_VBLK
pub data DriveType : Type 0 where
  ata ahci nvme vblk : DriveType

-- `type`, `lba_start` and `sector_count` of an `mbr_partition_t`
pub record MbrPartition : Type 0 where
  pub kind : ℕ
  pub lba_start : ℕ
  pub sector_count : ℕ

-- What a driver does: the functions that a node points to, and those that vfs.c calls by name, on
-- the drivers' own state `W`, which the nodes are part of. A node is its address, 0 for null.
pub record Drivers (W : Type 0) : Type 0 where
  pub node : W → ℕ → VfsNode
  pub finddir : W → ℕ → List ℕ → ℕ × W
  pub create : W → ℕ → List ℕ → ℕ × W
  pub read : W → (node offset size : ℕ) → ℤ × List ℕ × W
  pub write : W → (node offset size : ℕ) → List ℕ → ℤ × W
  pub readdir : W → (node index : ℕ) → Option Dirent
  pub unlink : W → ℕ → List ℕ → ℤ × W
  pub rename : W → ℕ → List ℕ → ℕ → List ℕ → ℤ × W
  pub read_partitions : W → (drive : ℕ) → Option (ℕ → MbrPartition)
  pub blk_read : W → DriveType → (drive lba : ℕ) → Option (ℕ → ℕ)
  pub fat32_mount : W → DriveType → (drive lba : ℕ) → MountPoint → ℤ × MountPoint × W
  pub ext2_mount : W → DriveType → (drive lba : ℕ) → MountPoint → ℤ × MountPoint × W
  pub ntfs_mount : W → DriveType → (drive lba : ℕ) → MountPoint → ℤ × MountPoint × W
  pub xfs_mount : W → DriveType → (drive lba : ℕ) → MountPoint → ℤ × MountPoint × W
  pub fat32_defrag : W → ℕ → ℤ × W
  pub ext2_defrag : W → ℕ → ℤ × W

-- `mount_table`, the tasks with their tables of descriptors, and the drivers' state
pub record Vfs (W : Type 0) : Type 0 where
  pub mounts : ℕ → MountPoint
  pub sched : Sched
  pub world : W
