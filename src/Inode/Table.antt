-- ===== src/Inode/Table.antt =====
-- The inode table on the disk, and the inodes that are open: `inode_table_update`, `inode_open`,
-- `inode_close` and `inode_acquire`. A pointer to an open inode is its number, which no two entries
-- of `open_inodes` share (`Inode.Cache`). The inode number 0 is the root directory, whose inode is
-- a parameter, since it is on no disk.
use a_os.Base.{
  ℕ, zero, suc, ◌+◌, ◌*◌, ◌/◌, ◌%◌, Option, none, some, List, [], ◌∷◌, ◌==◌, if◌then◌else◌,
  replicate,
}
use a_os.Base.Words.{add32, sub32}
use a_os.Bitmap.{Bitmap, acquire, check}
use a_os.Disk.{Bytes, blank, blit, ide_read, ide_write}
use a_os.Disk.Word.{word_at, bytes_of}
use a_os.Inode.{Inode, Volume, btmp_sync}

-- The words of `struct inode_hd`, which a `struct inode_sys` starts with.
abbrev pub inode_words : Inode → List ℕ
inode_words i = i.i_no ∷ i.i_size ∷ i.i_block

abbrev pub table_offset : ℕ → ℕ
table_offset no_hd = no_hd % 8 * 60

-- The sector of an entry is read, the entry replaced, and the sector written.
unfoldable pub store_inode : (disk : Bytes) (table_lba no_hd : ℕ) → Inode → Bytes
store_inode disk table_lba no_hd inode =
    let lba = table_lba + no_hd / 8 in
    let buf = ide_read disk lba blank 1 in
    ide_write disk lba (blit buf (table_offset no_hd) (bytes_of (inode_words inode)) 0 60) 1

unfoldable pub words_from : (n : ℕ) → Bytes → ℕ → List ℕ
words_from zero buf i = []
words_from (suc n) buf i = word_at buf i ∷ words_from n buf (i + 4)

unfoldable pub load_inode : (disk : Bytes) (table_lba no_hd i_no : ℕ) → Inode
load_inode disk table_lba no_hd i_no =
    let buf = ide_read disk (table_lba + no_hd / 8) blank 1 in
    let at = table_offset no_hd in
    record {
      i_no = i_no;
      i_size = word_at buf (at + 4);
      i_block = words_from 13 buf (at + 8);
      open_cnt = 1;
    }

unfoldable pub inode_table_update : Volume → Inode → Volume
inode_table_update v inode = record v {
  disk = store_inode v.disk v.inode_table_lba (sub32 inode.i_no v.inode_base) inode;
}

-- The search through `open_inodes`.
unfoldable pub cached : ℕ → List Inode → Option Inode
cached inode_no [] = none
cached inode_no (i ∷ rest) =
    let later = cached inode_no rest in if i.i_no == inode_no then some i else later

-- `inode->open_cnt++`
unfoldable pub counted : ℕ → List Inode → List Inode
counted inode_no [] = []
counted inode_no (i ∷ rest) =
    let later = counted inode_no rest in
    if i.i_no == inode_no then record i { open_cnt = add32 i.open_cnt 1 } ∷ rest else i ∷ later

-- An inode that is not open: it is read from the disk when its bit is set.
unfoldable pub open_from_disk : Volume → ℕ → Option Inode × Volume
open_from_disk v inode_no =
    let no_hd = sub32 inode_no v.inode_base in
    let inode = load_inode v.disk v.inode_table_lba no_hd (add32 v.inode_base no_hd) in
    if check v.inode_btmp no_hd
    then (some inode, record v { open_inodes = inode ∷ v.open_inodes })
    else (none, v)

unfoldable pub open_on : Volume → ℕ → Option Inode → Option Inode × Volume
open_on v inode_no (some i) = (
  some (record i { open_cnt = add32 i.open_cnt 1 }),
  record v { open_inodes = counted inode_no v.open_inodes },
)
open_on v inode_no none = open_from_disk v inode_no

unfoldable pub inode_open : (root : Inode) → Volume → ℕ → Option Inode × Volume
inode_open root v inode_no =
    if inode_no == 0 then (some root, v) else open_on v inode_no (cached inode_no v.open_inodes)

-- `inode->open_cnt--`, and the removal of an entry that nobody has open.
unfoldable pub uncounted : ℕ → List Inode → List Inode
uncounted inode_no [] = []
uncounted inode_no (i ∷ rest) =
    let later = uncounted inode_no rest in
    let n = sub32 i.open_cnt 1 in
    if i.i_no == inode_no
    then (if n == 0 then rest else record i { open_cnt = n } ∷ rest)
    else i ∷ later

unfoldable pub inode_close : Volume → ℕ → Volume
inode_close v inode_no =
    if inode_no == 0 then v else record v { open_inodes = uncounted inode_no v.open_inodes }

abbrev pub new_inode : ℕ → Inode
new_inode i_no = record { i_no = i_no; i_size = 0; i_block = replicate 13 0; open_cnt = 0 }

-- What `inode_acquire` does with the answer of `bitmap_acquire`.
unfoldable pub inode_acquired : Volume → Option ℕ × Bitmap → Option Inode × Volume
inode_acquired v (none, btmp) = (none, record v { inode_btmp = btmp })
inode_acquired v (some idx, btmp) =
    let synced = btmp_sync v.disk v.inode_btmp_lba btmp idx in
    let stored = store_inode synced v.inode_table_lba idx (new_inode idx) in
    let inode = record (new_inode idx) { i_no = add32 idx v.inode_base; open_cnt = 1 } in
    (some inode, record v { inode_btmp = btmp; disk = stored; open_inodes = inode ∷ v.open_inodes })

unfoldable pub inode_acquire : Volume → Option Inode × Volume
inode_acquire v = inode_acquired v (acquire v.inode_btmp 1)
