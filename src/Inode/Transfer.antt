-- ===== src/Inode/Transfer.antt =====
-- `inode_read` and `inode_write`: a stretch of a file as a part of a first block, whole blocks, and a
-- part of a last block. The root directory, inode number 0, is in the memory `root_blk`.
use a_os.Base.{
  ℕ, ◌+◌, ◌-◌, ◌*◌, ◌/◌, ◌%◌, Bool, true, false, Option, none, some, leb, ltb, ◌==◌, if◌then◌else◌,
  get_or,
}
use a_os.Base.Words.{add32, sub32}
use a_os.Disk.{Bytes, blank, blit}
use a_os.Inode.{Inode, Volume}
use a_os.Inode.Table.{inode_table_update}
use a_os.Inode.Data.{Read, blk_read, blk_write}

-- `blk_head_idx`, `blk_head_offset`, `blk_tail_idx`, `blk_tail_offset` and `blk_cnt`
pub record Span : Type 0 where
  pub head_idx : ℕ
  pub head_offset : ℕ
  pub tail_idx : ℕ
  pub tail_offset : ℕ
  pub blk_cnt : ℕ

unfoldable pub span : (pos cnt : ℕ) → Span
span pos cnt =
    let last = sub32 (add32 pos cnt) 1 in
    record {
      head_idx = pos / 4096;
      head_offset = pos % 4096;
      tail_idx = last / 4096;
      tail_offset = last % 4096;
      blk_cnt = add32 (sub32 (last / 4096) (pos / 4096)) 1;
    }

-- `true` is the return value 0, `false` is -1.
abbrev pub Done : Type 0
Done = Option (Bool × Bytes)

-- A call of `blk_read`: `failed` is what `dst` holds when it returns -1.
unfoldable pub on_read : Option Read → (failed : Bytes → Bytes) → (next : Bytes → Done) → Done
on_read none failed next = none
on_read (some (none, buf)) failed next = some (false, failed buf)
on_read (some (some n, buf)) failed next = next buf

-- The last block goes to the offset `at`.
unfoldable pub read_last : (disk : Bytes) → Inode → Span → (buf dst : Bytes) (at : ℕ) → Done
read_last disk inode s buf dst at =
    if ltb 1 s.blk_cnt
    then on_read (blk_read disk inode s.tail_idx buf 1) (λ b. dst)
        (λ b. some (true, blit dst at b 0 (s.tail_offset + 1)))
    else some (true, dst)

-- The middle blocks are read straight into `dst`.
unfoldable pub read_middle : (disk : Bytes) → Inode → Span → (buf dst : Bytes) (at : ℕ) → Done
read_middle disk inode s buf dst at =
    let n = s.blk_cnt - 2 in
    let paste : Bytes → Bytes = λ b. blit dst at b 0 (n * 4096) in
    if ltb 2 s.blk_cnt
    then on_read (blk_read disk inode (s.head_idx + 1) (λ i. dst (at + i)) n) paste
        (λ b. read_last disk inode s buf (paste b) (at + n * 4096))
    else read_last disk inode s buf dst at

unfoldable pub read_first : (disk : Bytes) → Inode → Span → (dst : Bytes) (cnt : ℕ) → Done
read_first disk inode s dst cnt =
    on_read (blk_read disk inode s.head_idx blank 1) (λ b. dst)
      (λ b.
        read_middle disk inode s b
          (blit dst 0 b s.head_offset (if s.blk_cnt == 1 then cnt else 4096 - s.head_offset))
          (4096 - s.head_offset))

unfoldable pub inode_read :
    (root_blk disk : Bytes) → Inode → (pos : ℕ) (dst : Bytes) (cnt : ℕ) → Done
inode_read root_blk disk inode pos dst cnt =
    if inode.i_no == 0
    then some (true, blit dst 0 root_blk pos cnt)
    else (if ltb inode.i_size (add32 pos cnt)
        then some (false, dst)
        else read_first disk inode (span pos cnt) dst cnt)

-- The return value, -1 as `none`, and what the call leaves.
pub record Written : Type 0 where
  pub ret : Option ℕ
  pub inode : Inode
  pub volume : Volume

-- `inode->i_block[idx]` and, when it is not 0, the block read to `buf`.
unfoldable pub fill : (disk : Bytes) → Inode → (idx : ℕ) (buf : Bytes) → Option Read
fill disk inode idx buf =
    let old = blk_read disk inode idx buf 1 in
    if leb 13 idx
    then none
    else (if get_or inode.i_block idx 0 == 0 then some (some 0, buf) else old)

unfoldable pub on_fill : Option Read → Written → (next : Bytes → Option Written) → Option Written
on_fill none failed next = none
on_fill (some (none, buf)) failed next = some failed
on_fill (some (some n, buf)) failed next = next buf

unfoldable pub on_write :
    Option (Inode × Volume) → Written → (next : Inode → Volume → Option Written) → Option Written
on_write none failed next = some failed
on_write (some (inode, v)) failed next = next inode v

-- The size is brought up to date, on the disk too.
unfoldable pub write_size : (ends : ℕ) → Inode → Volume → Option Written
write_size ends inode v =
    let grown = record inode { i_size = ends } in
    if ltb inode.i_size ends
    then some (record { ret = some 0; inode = grown; volume = inode_table_update v grown })
    else some (record { ret = some 0; inode = inode; volume = v })

-- The value of `ret` when the last block cannot be written: that of the call before.
abbrev pub stale_ret : Inode → ℕ → Option ℕ
stale_ret inode idx = if get_or inode.i_block idx 0 == 0 then some 0 else some 4096

unfoldable pub write_last : Inode → Volume → Span → (buf src : Bytes) (at ends : ℕ) → Option Written
write_last inode v s buf src at ends =
    if ltb 1 s.blk_cnt
    then on_fill (fill v.disk inode s.tail_idx buf)
        (record { ret = none; inode = inode; volume = v })
        (λ b.
          on_write (blk_write v inode s.tail_idx (blit b 0 src at (s.tail_offset + 1)) 1)
            (record { ret = stale_ret inode s.tail_idx; inode = inode; volume = v })
            (write_size ends))
    else write_size ends inode v

unfoldable pub write_middle :
    Inode → Volume → Span → (buf src : Bytes) (at ends : ℕ) → Option Written
write_middle inode v s buf src at ends =
    let n = s.blk_cnt - 2 in
    if ltb 2 s.blk_cnt
    then on_write (blk_write v inode (s.head_idx + 1) (λ i. src (at + i)) n)
        (record { ret = none; inode = inode; volume = v })
        (λ i w. write_last i w s buf src (at + n * 4096) ends)
    else write_last inode v s buf src at ends

unfoldable pub write_first : Inode → Volume → Span → (src : Bytes) (cnt ends : ℕ) → Option Written
write_first inode v s src cnt ends =
    let failed : Written = record { ret = none; inode = inode; volume = v } in
    on_fill (fill v.disk inode s.head_idx blank) failed (λ b.
      let buf = blit b s.head_offset src 0 (if s.blk_cnt == 1 then cnt else 4096 - s.head_offset) in
      on_write (blk_write v inode s.head_idx buf 1) failed
        (λ i w. write_middle i w s buf src (4096 - s.head_offset) ends))

-- On an inode that is not the root directory's.
unfoldable pub inode_write : Volume → Inode → (pos : ℕ) (src : Bytes) (cnt : ℕ) → Option Written
inode_write v inode pos src cnt = write_first inode v (span pos cnt) src cnt (add32 pos cnt)

-- On the root directory: `root_blk` after the call.
unfoldable pub root_write : (root_blk : Bytes) (pos : ℕ) (src : Bytes) (cnt : ℕ) → Bytes
root_write root_blk pos src cnt = blit root_blk pos src 0 cnt
