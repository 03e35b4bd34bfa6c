-- ===== src/Inode/Bitmaps.antt =====
-- The bitmaps of a volume on the disk and in memory, and what `blk_acquire` and `blk_release` do.
use a_os.Base.{
  ℕ, ◌+◌, ◌-◌, ◌*◌, ◌/◌, ◌^◌, ◌≤◌, ◌<◌, ◌≡◌, ◌≢◌, ◌⊎◌, refl, sym, ◌∙◌, Bool, true, false, none,
  some, ◌==◌, arith, Bool-cases, inl, inr, get_or-set_ne,
}
use a_os.Bitmap
use a_os.Bitmap.{Bitmap, byte, check, assign, acquire, release, acquire_from, byte_scan, bit_scan}
use a_os.Bitmap.Inv.{check-assign, len-assign, assign-IsValid}
use a_os.CString.Copy.{inside}
use a_os.Disk.{Bytes, blit}
use a_os.Disk.Rounds.{ide_write-blit}
use a_os.Inode.{Volume, btmp_sync}

-- The bytes of a bitmap on the disk are those in memory.
unfoldable pub Synced : Bytes → ℕ → Bitmap → Type 0
Synced disk lba btmp = (i : ℕ) → i < btmp.len → disk (lba * 512 + i) ≡ byte btmp i

-- Sectors that `n` bytes take.
abbrev pub sectors : ℕ → ℕ
sectors n = (n + 511) / 512

-- A mounted volume: the inode bitmap, the inode table, the block bitmap and the blocks lie one
-- behind the other, LBAs and block offsets fit in 32 bits, both bitmaps are valid, and the disk
-- holds what memory holds.
pub record IsValid (v : Volume) : Type 0 where
  pub inode_btmp_valid : a_os.Bitmap.Inv.IsValid v.inode_btmp
  pub blk_btmp_valid : a_os.Bitmap.Inv.IsValid v.blk_btmp
  pub table_behind : v.inode_btmp_lba + sectors v.inode_btmp.len ≤ v.inode_table_lba
  pub blk_btmp_behind : v.inode_table_lba + v.inode_btmp.len ≤ v.blk_btmp_lba
  pub blk_behind : v.blk_btmp_lba + sectors v.blk_btmp.len ≤ v.blk_lba
  pub blk_small : v.blk_btmp.len * 8 ≤ 2 ^ 20
  pub lba_small : v.blk_lba + v.blk_btmp.len * 64 < 2 ^ 32
  pub inode_synced : Synced v.disk v.inode_btmp_lba v.inode_btmp
  pub blk_synced : Synced v.disk v.blk_btmp_lba v.blk_btmp

-- The first byte of block `idx`.
abbrev pub block_at : Volume → ℕ → ℕ
block_at v idx = (v.blk_lba + idx * 8) * 512

-- The sector of bit `idx` is written, and no other byte.
pub btmp_sync-blit :
    (disk : Bytes) (lba : ℕ) (btmp : Bitmap) (idx : ℕ)
    → btmp_sync disk lba btmp idx
      ≡ blit disk ((lba + idx / 4096) * 512) (λ i. byte btmp (idx / 4096 * 512 + i)) 0 512
unfolding btmp_sync
btmp_sync-blit disk lba btmp idx =
    ide_write-blit disk (lba + idx / 4096) (λ i. byte btmp (idx / 4096 * 512 + i)) 1 (omega arith)
      (omega arith)

module _ (disk : Bytes) (lba : ℕ) (b : Bitmap) (idx : ℕ) (value : Bool) where
  byte-assign_ne : (i : ℕ) → idx / 8 ≢ i → byte (assign b idx value) i ≡ byte b i
  unfolding assign
  byte-assign_ne i ne = get_or-set_ne b.bits (idx / 8) i _ 0 ne

  -- After a bit is set in memory and its sector written, the disk holds the new bitmap.
  pub btmp_sync-Synced :
      Synced disk lba b
      → Synced (btmp_sync disk lba (assign b idx value) idx) lba (assign b idx value)
  unfolding Synced
  btmp_sync-Synced s i lt =
      rw (btmp_sync-blit disk lba (assign b idx value) idx)
        (elim (Bool-cases (inside ((lba + idx / 4096) * 512) 512 (lba * 512 + i))) [
          | inl here ↦
              let at : idx / 4096 * 512 + (0 + (lba * 512 + i - (lba + idx / 4096) * 512)) ≡ i =
                ground arith in
              rw (here, at) refl
          | inr away ↦
              let ne : idx / 8 ≢ i = ground arith in
              let lt' : i < b.len = omega (arith, len-assign b idx value) in
              rw away (s i lt' ∙ sym (byte-assign_ne i ne))
        ])

  -- No other byte of the disk changes.
  pub btmp_sync-outside :
      (btmp : Bitmap) (a : ℕ)
      → inside ((lba + idx / 4096) * 512) 512 a ≡ false
      → btmp_sync disk lba btmp idx a ≡ disk a
  btmp_sync-outside btmp a out = rw (btmp_sync-blit disk lba btmp idx, out) refl

-- `bitmap_acquire` of one bit.
pub acquire_one :
    (b : Bitmap) → (acquire b 1 ≡ (none, b)) ⊎ ((s : ℕ) × (acquire b 1 ≡ (some s, assign b s true)))
unfolding acquire acquire_from
acquire_one b = elim (Bool-cases (byte_scan b.len b 0 == b.len)) [
  | inl full ↦ inl (rw full refl)
  | inr room ↦
      inr (byte_scan b.len b 0 * 8 + bit_scan 9 (byte b (byte_scan b.len b 0)) 0, rw room refl)
]
