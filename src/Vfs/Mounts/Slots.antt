-- ===== src/Vfs/Mounts/Slots.antt =====
-- A mount of fs/vfs.c uses one free slot of the table and leaves the others alone.
use cool_frost.Prelude.{
  ℕ, zero, suc, ◌+◌, ◌≤◌, ◌<◌, ◌≡◌, refl, sym, ap, ◌∙◌, ◌≢◌, inl, inr, Bool, true, false, ◌&&◌,
  ◌||◌, Option, none, some, List, arith, ◌==◌, if◌then◌else◌, Bool-cases, Option-cases, wrap64,
  ==_iff, ℤ, minus, negsuc, pos,
}
use cool_frost.Vfs.Types.{max_mounts, MountPoint, DriveType, ata, MbrPartition, Drivers, Vfs}
use cool_frost.Vfs.Mounts.{
  slot_from, half_at, set_mount, filled, unsupported, mount_type, vfs_mount, mount_probed,
  mount_gpt,
}

slot_from-some :
    (mounts : ℕ → MountPoint) (left i : ℕ) {k : ℕ}
    → slot_from mounts left i ≡ some k
    → (k < i + left) × ((mounts k).active ≡ false)
unfolding slot_from
slot_from-some mounts zero i e = absurd (cc)
slot_from-some mounts (suc left) i {k} e = elim (Bool-cases ((mounts i).active)) [
  | inl on ↦ let (lt, off) = slot_from-some mounts left (i + 1) (rw on at e) in (omega arith, off)
  | inr off ↦
      let same : i ≡ k = cc (rw off at e) in
      (omega arith, ap (λ k. (mounts k).active) (sym same) ∙ off)
]

slot_from-none :
    (mounts : ℕ → MountPoint) (left i : ℕ)
    → slot_from mounts left i ≡ none
    → (j : ℕ) → i ≤ j
    → j < i + left
    → (mounts j).active ≡ true
unfolding slot_from
slot_from-none mounts zero i e j ge lt = absurd (omega arith)
slot_from-none mounts (suc left) i e j ge lt = elim (Bool-cases ((mounts i).active)) [
  | inl on ↦ elim (Bool-cases (j == i)) [
    | inl same ↦ ap (λ k. (mounts k).active) ((==_iff j i).0 same) ∙ on
    | inr other ↦ slot_from-none mounts left (i + 1) (rw on at e) j (ground arith) (omega arith)
  ]
  | inr off ↦ absurd (cc (rw off at e))
]

module _ {W : Type 0} where
  -- At most the slot differs, and the tasks are as they were.
  record OnlySlot (s : Vfs W) (slot : ℕ) (s' : Vfs W) : Type 0 where
    others : (j : ℕ) → j ≢ slot → s'.mounts j ≡ s.mounts j
    tasks : s'.sched ≡ s.sched

  OnlySlot-refl : (s : Vfs W) (slot : ℕ) → OnlySlot s slot s
  OnlySlot-refl s slot = record { others = λ j ne. refl; tasks = refl }

  set_mount-OnlySlot :
      {s s' : Vfs W} {slot : ℕ} (d : Drivers W) (w : W) (m : MountPoint)
      → OnlySlot s slot s'
      → OnlySlot s slot (set_mount d (record s' { world = w }) slot m)
  set_mount-OnlySlot d w m v = record {
    others = λ j ne. ground arith ∙ v.others j ne;
    tasks = v.tasks;
  }

  record Uses (s : Vfs W) (slot : ℕ) (r : ℤ × Vfs W) : Type 0 where
    only : OnlySlot s slot r.1

  -- What a call of a mount function does: nothing, where all slots are taken, or it changes a slot
  -- that was free.
  pub data OneSlot (s : Vfs W) : ℤ → Vfs W → Type 0 where
    no_slot : ((j : ℕ) → j < max_mounts → (s.mounts j).active ≡ true) → OneSlot s (minus 1) s
    one_slot :
        {rc : ℤ} {s' : Vfs W} {slot : ℕ}
        → slot < max_mounts
        → (s.mounts slot).active ≡ false
        → ((j : ℕ) → j ≢ slot → s'.mounts j ≡ s.mounts j)
        → s'.sched ≡ s.sched
        → OneSlot s rc s'

module _ {W : Type 0} (d : Drivers W) where
  filled-Uses :
      {s s' : Vfs W} {slot : ℕ} (r : ℤ × MountPoint × W)
      → OnlySlot s slot s'
      → Uses s slot (filled d s' slot r)
  unfolding filled
  filled-Uses (rc, m, w) v = record { only = set_mount-OnlySlot d w m v }

  unsupported-Uses :
      {s s' : Vfs W} {slot : ℕ} (m : MountPoint)
      → OnlySlot s slot s'
      → Uses s slot (unsupported d s' slot m)
  unfolding unsupported
  unsupported-Uses {s} {s'} m v = record { only = set_mount-OnlySlot d s'.world _ v }

  if-Uses :
      {s : Vfs W} {slot : ℕ} (b : Bool) {r r' : ℤ × Vfs W}
      → Uses s slot r
      → Uses s slot r'
      → Uses s slot (if b then r else r')
  if-Uses true v v' = v
  if-Uses false v v' = v'

  -- The driver for xfs is tried where that for ext2 returns -2.
  ext-Uses :
      {s s' : Vfs W} {slot : ℕ} (drive lba : ℕ) (rc : ℤ) (m : MountPoint) (w : W)
      → OnlySlot s slot s'
      → Uses s slot (elim rc [
        | negsuc (suc zero) ↦ filled d s' slot (d.xfs_mount w ata drive lba m)
        | other ↦ filled d s' slot (other, m, w)
      ])
  ext-Uses drive lba (pos n) m w v = filled-Uses _ v
  ext-Uses drive lba (negsuc zero) m w v = filled-Uses _ v
  ext-Uses drive lba (negsuc (suc zero)) m w v = filled-Uses _ v
  ext-Uses drive lba (negsuc (suc (suc n))) m w v = filled-Uses _ v

  mount_type-Uses :
      {s s' : Vfs W} {slot : ℕ} (drive : ℕ) (m : MountPoint) (part : MbrPartition)
      → OnlySlot s slot s'
      → Uses s slot (mount_type d s' slot drive m part)
  unfolding mount_type
  mount_type-Uses drive m part v =
      if-Uses (part.kind == 0x0b || part.kind == 0x0c) (filled-Uses _ v) (
        if-Uses (part.kind == 0x83) (ext-Uses drive part.lba_start _ _ _ v)
          (if-Uses (part.kind == 0x07) (filled-Uses _ v) (unsupported-Uses m v)))

  probe-Uses :
      {s s' : Vfs W} {slot : ℕ} (type : DriveType) (drive lba : ℕ) (m : MountPoint)
      (o : Option (ℕ → ℕ))
      → OnlySlot s slot s'
      → Uses s slot (elim o [
        | none ↦ unsupported d s' slot m
        | some sb_check ↦
            if half_at sb_check 56 == 0xef53
            then filled d s' slot (d.ext2_mount s'.world type drive lba m)
            else unsupported d s' slot m
      ])
  probe-Uses type drive lba m none v = unsupported-Uses m v
  probe-Uses type drive lba m (some sb_check) v =
      if-Uses (half_at sb_check 56 == 0xef53) (filled-Uses _ v) (unsupported-Uses m v)

  mount_probed-Uses :
      {s s' : Vfs W} {slot : ℕ} (type : DriveType) (drive lba : ℕ) (m : MountPoint) (boot : ℕ → ℕ)
      → OnlySlot s slot s'
      → Uses s slot (mount_probed d s' slot type drive lba m boot)
  unfolding mount_probed
  mount_probed-Uses {s' = s'} type drive lba m boot v =
      if-Uses (half_at boot 11 == 512 && half_at boot 17 == 0 && half_at boot 22 == 0)
        (filled-Uses _ v)
        (if-Uses (boot 3 == b'N' && boot 4 == b'T' && boot 5 == b'F' && boot 6 == b'S')
          (filled-Uses _ v)
          (probe-Uses type drive lba m (d.blk_read s'.world type drive (wrap64 (lba + 2))) v))

  -- The five functions that mount a partition.
  pub data MountCall (s : Vfs W) : ℤ × Vfs W → Type 0 where
    mbr : (drive partition : ℕ) (path : List ℕ) → MountCall s (vfs_mount d s drive partition path)
    gpt :
        (type : DriveType) (drive lba count : ℕ) (path : List ℕ)
        → MountCall s (mount_gpt d type s drive lba count path)

  by_slot :
      (s : Vfs W) (go : ℕ → ℤ × Vfs W)
      → ((slot : ℕ) → Uses s slot (go slot))
      → let r : ℤ × Vfs W = elim (slot_from s.mounts max_mounts 0) [
        | none ↦ (minus 1, s)
        | some slot ↦ go slot
      ] in
        OneSlot s r.0 r.1
  by_slot s go each = elim (Option-cases (slot_from s.mounts max_mounts 0)) [
    | inl e ↦
        rw e
          (no_slot (λ j lt. slot_from-none s.mounts max_mounts 0 e j (omega arith) (omega arith)))
    | inr (slot, e) ↦
        let (lt, off) = slot_from-some s.mounts max_mounts 0 e in
        let v = (each slot).only in rw e (one_slot lt off v.others v.tasks)
  ]

  start-OnlySlot : (s : Vfs W) (slot : ℕ) (m : MountPoint) → OnlySlot s slot (set_mount d s slot m)
  start-OnlySlot s slot m = set_mount-OnlySlot d s.world m (OnlySlot-refl s slot)

  -- Each of the five functions that mount a partition returns -1 and changes nothing if all slots
  -- are taken; else it changes at most one slot, one that was free, whatever the driver returns.
  pub MountCall-OneSlot : {s : Vfs W} {r : ℤ × Vfs W} → MountCall s r → OneSlot s r.0 r.1
  unfolding vfs_mount mount_gpt
  MountCall-OneSlot {s} (mbr drive partition path) = by_slot s _ (λ slot.
      elim (Option-cases (d.read_partitions s.world drive)) [
        | inl e ↦ rw e (record { only = OnlySlot-refl s slot })
        | inr (parts, e) ↦ rw e (
            if-Uses ((parts partition).kind == 0) (record { only = OnlySlot-refl s slot })
              (mount_type-Uses drive _ (parts partition) (start-OnlySlot s slot _)))
      ])
  MountCall-OneSlot {s} (gpt type drive lba count path) = by_slot s _ (λ slot.
      elim (Option-cases (d.blk_read s.world type drive lba)) [
        | inl e ↦ rw e (record { only = start-OnlySlot s slot _ })
        | inr (boot, e) ↦ rw e (mount_probed-Uses type drive lba _ boot (start-OnlySlot s slot _))
      ])
