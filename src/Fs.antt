-- ===== src/Fs.antt =====
-- kernel/src/fs.c: the layout that `fs_format` gives a partition, and the volume that `fs_mount` makes
-- of it. Buffers are bytes by offset. What the format's buffer holds behind its end is not modelled.
pub mod Layout
pub mod Mounting
pub mod Formatting
pub mod Bits
pub mod Root
pub mod Numbers
mod Tests
use a_os.Base.{
  ℕ, zero, suc, ◌+◌, ◌-◌, ◌*◌, ◌/◌, ◌%◌, ◌^◌, Bool, true, false, Option, none, some, List, [], ◌∷◌,
  ltb, leb, ◌==◌, if◌then◌else◌, get_or,
}
use a_os.Base.Words.{add32, sub32, mul32}
use a_os.Bitmap.{Bitmap, clear}
use a_os.Disk.{Bytes, blank, blit, ide_read, ide_write}
use a_os.Disk.Word.{word_at, bytes_of}
use a_os.Inode.{Volume}

-- `struct super_block`
pub record SuperBlock : Type 0 where
  pub magic : ℕ
  pub inode_cnt : ℕ
  pub inode_btmp_lba : ℕ
  pub inode_btmp_sec : ℕ
  pub inode_table_lba : ℕ
  pub inode_table_sec : ℕ
  pub blk_cnt : ℕ
  pub blk_btmp_lba : ℕ
  pub blk_btmp_sec : ℕ
  pub blk_lba : ℕ

abbrev pub fs_magic : ℕ
fs_magic = 0x19890604

-- `DIV_ROUND_UP` by 4096, the bits of a sector
abbrev pub btmp_sectors : ℕ → ℕ
btmp_sectors bits = add32 bits 4095 / 4096

-- The sectors behind the inode table: two, the inode bitmap and 512 of the table come before.
abbrev pub free_sec : ℕ → ℕ
free_sec sec_cnt = sub32 sec_cnt 515

abbrev pub blocks_in : ℕ → ℕ
blocks_in sec = mul32 sec 512 / 4096

unfoldable pub layout : (start_lba sec_cnt : ℕ) → SuperBlock
layout start_lba sec_cnt =
    let inode_btmp_lba = add32 start_lba 2 in
    let inode_table_lba = add32 inode_btmp_lba 1 in
    let blk_btmp_lba = add32 inode_table_lba 512 in
    let blk_btmp_sec = btmp_sectors (blocks_in (free_sec sec_cnt)) in
    record {
      magic = fs_magic;
      inode_cnt = 4096;
      inode_btmp_lba = inode_btmp_lba;
      inode_btmp_sec = 1;
      inode_table_lba = inode_table_lba;
      inode_table_sec = 512;
      blk_cnt = blocks_in (sub32 (free_sec sec_cnt) blk_btmp_sec);
      blk_btmp_lba = blk_btmp_lba;
      blk_btmp_sec = blk_btmp_sec;
      blk_lba = add32 blk_btmp_lba blk_btmp_sec;
    }

abbrev pub super_words : SuperBlock → List ℕ
super_words sb =
    sb.magic ∷ sb.inode_cnt ∷ sb.inode_btmp_lba ∷ sb.inode_btmp_sec ∷ sb.inode_table_lba
    ∷ sb.inode_table_sec ∷ sb.blk_cnt ∷ sb.blk_btmp_lba ∷ sb.blk_btmp_sec ∷ sb.blk_lba ∷ []

-- `memset(buf, 0, buf_size); buf[0] = 0x01`
abbrev pub first_bit : Bytes
first_bit i = if i == 0 then 1 else 0

-- `while (idx <= last_bit) { buf[last_byte] &= ~(1 << idx); idx++; }`
unfoldable pub clear_bits : (n idx x : ℕ) → ℕ
clear_bits zero idx x = x
clear_bits (suc n) idx x = clear_bits n (idx + 1) (clear x idx)

-- The block bitmap: block 0 is used, and so are the bits behind the last block.
unfoldable pub block_bits : (blk_cnt : ℕ) → Bytes
block_bits blk_cnt =
    let last_byte = blk_cnt / 8 in
    let filled = blit first_bit last_byte (λ i. 0xFF) 0 (512 - last_byte % 512) in
    λ i. if i == last_byte then clear_bits (blk_cnt % 8 + 1) 0 (filled i) else filled i

-- The two entries of the root directory: `.` and `..`, of type FT_DIR.
abbrev pub root_entries : Bytes
root_entries i =
    if (i == 4)
    then 46
    else if (i == 20)
    then 2
    else if (i == 28)
    then 46
    else if (i == 29)
    then 46
    else if (i == 44)
    then 2
    else 0

unfoldable pub fs_format : (disk : Bytes) (start_lba sec_cnt : ℕ) → Bytes
fs_format disk start_lba sec_cnt =
    let sb = layout start_lba sec_cnt in
    let d1 = ide_write disk (add32 start_lba 1) (bytes_of (super_words sb)) 1 in
    let d2 = ide_write d1 sb.inode_btmp_lba first_bit sb.inode_btmp_sec in
    let d3 = ide_write d2 sb.inode_table_lba (bytes_of (0 ∷ 48 ∷ sb.blk_lba ∷ [])) 1 in
    let d4 = ide_write d3 sb.blk_btmp_lba (block_bits sb.blk_cnt) sb.blk_btmp_sec in
    ide_write d4 sb.blk_lba root_entries 1

-- The super block as it is read.
unfoldable pub read_super : (disk : Bytes) (start_lba : ℕ) → SuperBlock
read_super disk start_lba =
    let b = ide_read disk (add32 start_lba 1) blank 1 in
    record {
      magic = word_at b 0;
      inode_cnt = word_at b 4;
      inode_btmp_lba = word_at b 8;
      inode_btmp_sec = word_at b 12;
      inode_table_lba = word_at b 16;
      inode_table_sec = word_at b 20;
      blk_cnt = word_at b 24;
      blk_btmp_lba = word_at b 28;
      blk_btmp_sec = word_at b 32;
      blk_lba = word_at b 36;
    }

-- `n` bytes of a buffer from `i` on
unfoldable pub listed : (n : ℕ) → Bytes → (i : ℕ) → List ℕ
listed zero b i = []
listed (suc n) b i = b i ∷ listed n b (i + 1)

abbrev pub load_btmp : (disk : Bytes) (lba sec : ℕ) → Bitmap
load_btmp disk lba sec = record {
  bits = listed (sec * 512) (ide_read disk lba blank sec) 0;
  len = sec * 512;
}

-- `fs_mount` up to the entry in the root directory: the volume, and `inode_max` afterwards. The
-- partition's `inode_base` is 0 when it was not mounted before.
unfoldable pub fs_mount : (disk : Bytes) (start_lba inode_base inode_max : ℕ) → Volume × ℕ
fs_mount disk start_lba inode_base inode_max =
    let sb = read_super disk start_lba in
    let first = inode_base == 0 in
    (
      record {
        disk = disk;
        inode_base = if first then add32 inode_max 1 else inode_base;
        inode_cnt = sb.inode_cnt;
        inode_btmp_lba = sb.inode_btmp_lba;
        inode_btmp = load_btmp disk sb.inode_btmp_lba sb.inode_btmp_sec;
        inode_table_lba = sb.inode_table_lba;
        blk_btmp_lba = sb.blk_btmp_lba;
        blk_btmp = load_btmp disk sb.blk_btmp_lba sb.blk_btmp_sec;
        blk_lba = sb.blk_lba;
        open_inodes = [];
      },
      if first then add32 inode_max sb.inode_cnt else inode_max,
    )
