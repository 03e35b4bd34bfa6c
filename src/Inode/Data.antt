-- ===== src/Inode/Data.antt =====
-- The data of an inode: `blk_read`, `blk_write`, `inode_read` and `inode_write`. A result of `none`
-- is an access that C leaves undefined: a read through a null pointer or past the array `i_block`.
-- Buffers are bytes by offset; the addresses `dst` and `src` move forward as offsets.
use a_os.Base.{
  ℕ, zero, suc, ◌+◌, ◌-◌, ◌*◌, ◌/◌, Bool, not, ◌&&◌, ◌||◌, Option, none, some, leb, ltb, ◌==◌,
  if◌then◌else◌, get_or, set,
}
use a_os.Base.Words.{add32, sub32}
use a_os.Disk.{Bytes, blank, blit, ide_read, ide_write}
use a_os.Disk.Word.{word_at, byte_of}
use a_os.Inode.{Inode, Volume, blk_acquire}

-- The return value, -1 as `none`, and the buffer.
abbrev pub Read : Type 0
Read = Option ℕ × Bytes

-- Block `lba` is read to the offset `at` of a buffer.
abbrev pub read_to : (disk : Bytes) (lba : ℕ) (dst : Bytes) (at : ℕ) → Bytes
read_to disk lba dst at = blit dst at (ide_read disk lba blank 8) 0 4096

-- The loop of `blk_read`. The LBA of an indirect block would be read through the outer `buf`, which
-- stays `NULL`, since the buffer that is filled is another variable of that name.
unfoldable pub blk_read_loop :
    ℕ → (disk : Bytes) → Inode → (idx : ℕ) (dst : Bytes) (ret : ℕ) → Option Read
blk_read_loop zero disk inode idx dst ret = some (some ret, dst)
blk_read_loop (suc fuel) disk inode idx dst ret =
    let lba = get_or inode.i_block idx 0 in
    let rest = blk_read_loop fuel disk inode (idx + 1) (read_to disk lba dst ret) (ret + 4096) in
    if ltb idx 12
    then (if lba == 0 then some (none, dst) else rest)
    else (if ltb idx 1036 then none else some (none, dst))

-- The two checks of the range of blocks.
abbrev pub blk_in_range : (idx_max idx : ℕ) → Bool
blk_in_range idx_max idx = leb idx idx_max && ltb idx 1036

unfoldable pub blk_read :
    (disk : Bytes) → Inode → (blk_idx : ℕ) (dst : Bytes) (cnt : ℕ) → Option Read
blk_read disk inode blk_idx dst cnt =
    let idx_max = inode.i_size / 4096 in
    let last = sub32 (add32 blk_idx cnt) 1 in
    if not (cnt == 0) && blk_in_range idx_max blk_idx && blk_in_range idx_max last
    then blk_read_loop (add32 blk_idx cnt - blk_idx) disk inode blk_idx dst 0
    else some (none, dst)

-- What `blk_write` works on: the inode, the table of indirect blocks in `buf`, and the volume.
pub record Writing : Type 0 where
  pub inode : Inode
  pub buf : Bytes
  pub volume : Volume

-- `buf[k] = w`
abbrev pub set_word : Bytes → (k w : ℕ) → Bytes
set_word buf k w = blit buf (4 * k) (λ i. byte_of w i) 0 4

-- A new block becomes block `idx`.
unfoldable pub take_block : Writing → ℕ → ℕ × Writing
take_block w idx =
    let (lba, v) = blk_acquire w.volume in
    (
      lba,
      if ltb idx 12
          then record w {
            inode = record w.inode { i_block = set w.inode.i_block idx lba };
            volume = v;
          }
          else record w { buf = set_word w.buf (idx - 12) lba; volume = v },
    )

-- The LBA of block `idx`, which is acquired when there is none.
unfoldable pub blk_lba_of : Writing → ℕ → ℕ × Writing
blk_lba_of w idx =
    let lba = if ltb idx 12 then get_or w.inode.i_block idx 0 else word_at w.buf (4 * (idx - 12)) in
    if lba == 0 then take_block w idx else (lba, w)

abbrev pub put_block : (disk : Bytes) (lba : ℕ) (src : Bytes) (at : ℕ) → Bytes
put_block disk lba src at = ide_write disk lba (λ i. src (at + i)) 8

unfoldable pub blk_write_loop : ℕ → Writing → (idx : ℕ) (src : Bytes) (at : ℕ) → Writing
blk_write_loop zero w idx src at = w
blk_write_loop (suc fuel) w idx src at =
    let (lba, w') = blk_lba_of w idx in
    let v = w'.volume in
    let rest =
      blk_write_loop fuel (record w' { volume = record v { disk = put_block v.disk lba src at } })
        (idx + 1) src (at + 4096) in
    if ltb idx 1036 then rest else w

-- The table of indirect blocks, read from the disk, or acquired.
unfoldable pub indirect_table : Inode → Volume → Writing
indirect_table inode v =
    let lba = get_or inode.i_block 12 0 in
    let (new, v') = blk_acquire v in
    if lba == 0
    then record {
      inode = record inode { i_block = set inode.i_block 12 new };
      buf = blank;
      volume = v';
    }
    else record { inode = inode; buf = ide_read v.disk lba blank 8; volume = v }

-- The first sector of the table is written back.
unfoldable pub indirect_update : Writing → Writing
indirect_update w =
    let v = w.volume in
    record w { volume = record v { disk = ide_write v.disk (get_or w.inode.i_block 12 0) w.buf 1 } }

-- `none` is -1. A call that fails changes nothing.
unfoldable pub blk_write :
    Volume → Inode → (blk_idx : ℕ) (src : Bytes) (cnt : ℕ) → Option (Inode × Volume)
blk_write v inode blk_idx src cnt =
    let idx_max = add32 blk_idx cnt in
    let n = idx_max - blk_idx in
    let direct =
      blk_write_loop n (record { inode = inode; buf = blank; volume = v }) blk_idx src 0 in
    let table = indirect_update (blk_write_loop n (indirect_table inode v) blk_idx src 0) in
    let done = if ltb idx_max 12 then direct else table in
    if cnt == 0 || leb 1036 idx_max then none else some (done.inode, done.volume)
