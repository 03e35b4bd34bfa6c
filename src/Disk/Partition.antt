-- ===== src/Disk/Partition.antt =====
-- kernel/src/ide.c, `ide_get_partition`: the partitions that the boot sectors of a disk name. A
-- partition has, in place of its name, the number behind the drive's name in it. `none` means that the
-- fuel ran out, which bounds the depth of the recursion.
use a_os.Base.{
  ℕ, zero, suc, ◌+◌, ◌*◌, Option, none, some, List, [], ◌∷◌, ◌++◌, ◌==◌, if◌then◌else◌, ◌>>=◌,
}
use a_os.Base.Words.{add32}
use a_os.Disk.{Bytes, blank, ide_read}
use a_os.Disk.Word.{word_at}

-- `struct ptn_table`, as far as it is read.
pub record PtnTable : Type 0 where
  pub type : ℕ
  pub start_lba : ℕ
  pub sec_cnt : ℕ

-- `ptable[idx]` of a boot sector.
abbrev pub ptable : Bytes → (idx : ℕ) → PtnTable
ptable bs idx = record {
  type = bs (446 + 16 * idx + 4);
  start_lba = word_at bs (446 + 16 * idx + 8);
  sec_cnt = word_at bs (446 + 16 * idx + 12);
}

-- `struct ide_ptn`, before a file system is mounted on it.
pub record IdePtn : Type 0 where
  pub nr : ℕ
  pub start_lba : ℕ
  pub sec_cnt : ℕ

-- `ptn_nr` and `ptn_list`.
pub record Found : Type 0 where
  pub ptn_nr : ℕ
  pub ptn_list : List IdePtn

-- A partition is added to the list.
abbrev pub add_ptn : (base offset idx : ℕ) → PtnTable → Found → Found
add_ptn base offset idx p s =
    let start = add32 (add32 base offset) p.start_lba in
    if base == 0
    then record s {
      ptn_list = s.ptn_list ++ record { nr = idx + 1; start_lba = start; sec_cnt = p.sec_cnt } ∷ [];
    }
    else record {
      ptn_nr = add32 s.ptn_nr 1;
      ptn_list =
          s.ptn_list ++ record { nr = s.ptn_nr; start_lba = start; sec_cnt = p.sec_cnt } ∷ [];
    }

-- One round of the loop, with the recursive call as `get`.
unfoldable pub entry :
    (get : (base offset : ℕ) → Found → Option Found)
    → PtnTable
    → (base offset idx : ℕ) → Found
    → Option Found
entry get p base offset idx s =
    let first = get p.start_lba 0 (record s { ptn_nr = 5 }) in
    let next = get base p.start_lba s in
    if p.type == 0
    then some s
    else if p.type == 5
    then if base == 0 then first else next
    else some (add_ptn base offset idx p s)

unfoldable pub entries :
    (get : (base offset : ℕ) → Found → Option Found)
    → (n : ℕ) → Bytes
    → (base offset idx : ℕ) → Found
    → Option Found
entries get zero bs base offset idx s = some s
entries get (suc n) bs base offset idx s = do
  s' ← entry get (ptable bs idx) base offset idx s
  entries get n bs base offset (idx + 1) s'

unfoldable pub ide_get_partition : (fuel : ℕ) → Bytes → (base offset : ℕ) → Found → Option Found
ide_get_partition zero disk base offset s = none
ide_get_partition (suc fuel) disk base offset s =
    entries (ide_get_partition fuel disk) 4 (ide_read disk (add32 base offset) blank 1) base offset
      0 s
