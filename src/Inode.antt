-- ===== src/Inode.antt =====
-- kernel/src/inode.c: the inodes of a mounted partition and the blocks that hold their data. A
-- `Volume` is a `struct ide_ptn` with its hard disk. A function of the source that starts with
-- `inode_get_ptn(inode->i_no)` takes the volume that this call answers, since a mounted inode has
-- one; the mutex `mlock` around each function makes it one step. `kmalloc` is taken to succeed.
pub mod Bitmaps
pub mod Blocks
pub mod Freed
pub mod Table
pub mod TableLaws
pub mod Cache
pub mod Acquire
pub mod Data
pub mod Transfer
pub mod Content
pub mod Reading
pub mod Owned
pub mod Taking
pub mod Storing
pub mod Looping
pub mod WriteSteps
pub mod WriteLaws
pub mod Writing
pub mod RoundTrip
pub mod Release
mod Tests
use a_os.Base.{
  ℕ, zero, suc, ◌+◌, ◌-◌, ◌*◌, ◌/◌, ◌%◌, ◌^◌, Bool, true, false, ◌&&◌, Option, none, some, List, [],
  ◌∷◌, leb, ltb, ◌==◌, if◌then◌else◌, get_or, set, replicate,
}
use a_os.Base.Words.{add32, sub32, mul32}
use a_os.Bitmap.{Bitmap, byte, acquire, release}
use a_os.Disk.{Bytes, blank, ide_write}

-- `struct inode_sys`. The array `i_block` has 13 elements.
pub record Inode : Type 0 where
  pub i_no : ℕ
  pub i_size : ℕ
  pub i_block : List ℕ
  pub open_cnt : ℕ

-- `struct ide_ptn` as mounted; `disk` is the hard disk `hd`.
pub record Volume : Type 0 where
  pub disk : Bytes
  pub inode_base : ℕ
  pub inode_cnt : ℕ
  pub inode_btmp_lba : ℕ
  pub inode_btmp : Bitmap
  pub inode_table_lba : ℕ
  pub blk_btmp_lba : ℕ
  pub blk_btmp : Bitmap
  pub blk_lba : ℕ
  pub open_inodes : List Inode

abbrev pub minus_one : ℕ
minus_one = 2 ^ 32 - 1

abbrev pub covers : Volume → ℕ → Bool
covers v inode_no =
    leb v.inode_base inode_no && leb inode_no (sub32 (add32 v.inode_base v.inode_cnt) 1)

unfoldable pub inode_get_ptn : List Volume → ℕ → Option Volume
inode_get_ptn [] inode_no = none
inode_get_ptn (ptn ∷ rest) inode_no =
    let later = inode_get_ptn rest inode_no in if covers ptn inode_no then some ptn else later

-- The sector of a bitmap that holds bit `idx`, written to the disk from the bitmap in memory.
unfoldable pub btmp_sync : (disk : Bytes) (btmp_lba : ℕ) → Bitmap → ℕ → Bytes
btmp_sync disk btmp_lba btmp idx =
    let sec = idx / (512 * 8) in ide_write disk (btmp_lba + sec) (λ i. byte btmp (sec * 512 + i)) 1

-- What `blk_acquire` does with the answer of `bitmap_acquire`: it returns an LBA, or -1 in 32 bits.
unfoldable pub blk_acquired : Volume → Option ℕ × Bitmap → ℕ × Volume
blk_acquired v (none, btmp) = (minus_one, record v { blk_btmp = btmp })
blk_acquired v (some idx, btmp) =
    let synced = btmp_sync v.disk v.blk_btmp_lba btmp idx in
    let lba = add32 v.blk_lba (mul32 idx 4096 / 512) in
    (lba, record v { blk_btmp = btmp; disk = ide_write synced lba blank 8 })

unfoldable pub blk_acquire : Volume → ℕ × Volume
blk_acquire v = blk_acquired v (acquire v.blk_btmp 1)

-- `none` is a failed `assert` of `bitmap_release`, which stops the kernel.
unfoldable pub blk_released : Volume → ℕ → Option Bitmap → Option Volume
blk_released v idx none = none
blk_released v idx (some btmp) =
    some (record v { blk_btmp = btmp; disk = btmp_sync v.disk v.blk_btmp_lba btmp idx })

unfoldable pub blk_release : Volume → ℕ → Option Volume
blk_release v lba =
    let idx = mul32 (sub32 lba v.blk_lba) 512 / 4096 in
    blk_released v idx (release v.blk_btmp idx 1)
