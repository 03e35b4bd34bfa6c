-- ===== src/Disk.antt =====
-- kernel/src/ide.c: `ide_read` and `ide_write`, between a hard disk and a buffer in memory. A disk
-- is its bytes by address: sector `lba` starts at `lba * 512`. A buffer is its bytes by offset. A
-- command moves `cnt_each` sectors from the one that the LBA registers name, which hold 28 bits: an
-- `lba` stands for a sector below 2 ^ 28. The registers themselves, the interrupt and the channel's
-- mutex are not part of the state.
pub mod Rounds
pub mod Word
pub mod Partition
pub mod Scan
mod Tests
use a_os.Base.{ℕ, zero, suc, ◌+◌, ◌-◌, ◌*◌, Bool, ltb, leb, if◌then◌else◌}
use a_os.CString.Copy.{inside}

abbrev pub Bytes : Type 0
Bytes = ℕ → ℕ

-- `n` bytes from the offset `s` of `src` on overwrite those from the offset `t` of `dst` on.
abbrev pub blit : (dst : Bytes) (t : ℕ) (src : Bytes) (s n : ℕ) → Bytes
blit dst t src s n a = if inside t n a then src (s + (a - t)) else dst a

abbrev pub blank : Bytes
blank a = 0

-- `cnt_each`
abbrev pub round_size : (cnt cnt_done : ℕ) → ℕ
round_size cnt cnt_done = if leb 256 (cnt - cnt_done) then 256 else cnt - cnt_done

-- Each round moves at least one sector, so `cnt` rounds are enough (`Disk.Rounds`).
unfoldable pub read_rounds : ℕ → (disk : Bytes) (lba : ℕ) (dst : Bytes) (cnt cnt_done : ℕ) → Bytes
read_rounds zero disk lba dst cnt cnt_done = dst
read_rounds (suc fuel) disk lba dst cnt cnt_done =
    let n = round_size cnt cnt_done in
    let rest =
      read_rounds fuel disk lba (blit dst (cnt_done * 512) disk (lba * 512) (n * 512)) cnt
        (cnt_done + n) in
    if ltb cnt_done cnt then rest else dst

unfoldable pub ide_read : (disk : Bytes) (lba : ℕ) (dst : Bytes) (cnt : ℕ) → Bytes
ide_read disk lba dst cnt = read_rounds cnt disk lba dst cnt 0

unfoldable pub write_rounds : ℕ → (disk : Bytes) (lba : ℕ) (src : Bytes) (cnt cnt_done : ℕ) → Bytes
write_rounds zero disk lba src cnt cnt_done = disk
write_rounds (suc fuel) disk lba src cnt cnt_done =
    let n = round_size cnt cnt_done in
    let rest =
      write_rounds fuel (blit disk (lba * 512) src (cnt_done * 512) (n * 512)) lba src cnt
        (cnt_done + n) in
    if ltb cnt_done cnt then rest else disk

unfoldable pub ide_write : (disk : Bytes) (lba : ℕ) (src : Bytes) (cnt : ℕ) → Bytes
ide_write disk lba src cnt = write_rounds cnt disk lba src cnt 0
