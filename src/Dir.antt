-- ===== src/Dir.antt =====
-- kernel/src/dir.c: directories, paths and the current directory, over the mounted partitions. Each
-- partition has its own view of its hard disk, since no two overlap. A path or a name is its bytes
-- before the terminating one. `none` is an access that C leaves undefined, such as one through a NULL
-- pointer or past an array, or a failed `assert`. `kmalloc` is taken to succeed; it answers zeroed
-- memory, and what is never freed is not counted.
pub mod Path
pub mod Search
pub mod Install
pub mod Stream
pub mod Cwd
pub mod Joined
pub mod Climbing
mod Tests
use a_os.Base.{
  ℕ, zero, suc, ◌+◌, ◌-◌, ◌*◌, Bool, ◌&&◌, Option, none, some, List, [], ◌∷◌, ltb, ◌==◌,
  if◌then◌else◌, ◌>>=◌, get_or,
}
use a_os.Disk.{Bytes, blank}
use a_os.Disk.Word.{word_at, byte_of}
use a_os.Inode.{Inode, Volume, covers, inode_get_ptn}
use a_os.Inode.Table.{inode_open, inode_close}
use a_os.Inode.Transfer.{Written, inode_read, inode_write, root_write}
use a_os.Inode.Release.{inode_release, inode_erase}

-- `ptn_list`, `root_dir.inode` and `root_blk`.
pub record FileSystem : Type 0 where
  pub ptns : List Volume
  pub root : Inode
  pub root_blk : Bytes

-- The partition that `inode_get_ptn` answers, changed in place.
unfoldable pub put_ptn : List Volume → (inode_no : ℕ) → Volume → List Volume
put_ptn [] inode_no v = []
put_ptn (ptn ∷ rest) inode_no v =
    let later = put_ptn rest inode_no v in if covers ptn inode_no then v ∷ rest else ptn ∷ later

abbrev pub with_ptn : FileSystem → (inode_no : ℕ) → Volume → FileSystem
with_ptn fs inode_no v = record fs { ptns = put_ptn fs.ptns inode_no v }

-- An open inode is an entry of `open_inodes`; a call that changes it changes the entry.
unfoldable pub put_inode : List Inode → Inode → List Inode
put_inode [] inode = []
put_inode (i ∷ rest) inode =
    let later = put_inode rest inode in if i.i_no == inode.i_no then inode ∷ rest else i ∷ later

abbrev pub with_inode : Volume → Inode → Volume
with_inode v inode = record v { open_inodes = put_inode v.open_inodes inode }

-- `inode_open`: the inner `none` is NULL.
unfoldable pub open_at : FileSystem → (inode_no : ℕ) → Option (Option Inode × FileSystem)
open_at fs inode_no =
    let opened : Option (Option Inode × FileSystem) = (do
      v ← inode_get_ptn fs.ptns inode_no
      let (inode, v') = inode_open fs.root v inode_no in some (inode, with_ptn fs inode_no v')) in
    if inode_no == 0 then some (some fs.root, fs) else opened

-- `inode_open` by a caller that does not test for NULL before it uses the inode.
unfoldable pub open_used : FileSystem → (inode_no : ℕ) → Option (Inode × FileSystem)
open_used fs inode_no = do (r, fs') ← open_at fs inode_no; inode ← r; some (inode, fs')

-- `inode_close`
unfoldable pub close_at : FileSystem → (inode_no : ℕ) → Option FileSystem
close_at fs inode_no =
    let closed : Option FileSystem = (do
      v ← inode_get_ptn fs.ptns inode_no
      some (with_ptn fs inode_no (inode_close v inode_no))) in
    if inode_no == 0 then some fs else closed

-- `inode_read` of an open inode: whether it succeeds, and the buffer.
unfoldable pub read_at :
    FileSystem → Inode → (pos : ℕ) (dst : Bytes) (cnt : ℕ) → Option (Bool × Bytes)
read_at fs inode pos dst cnt =
    let root = inode_read fs.root_blk blank inode pos dst cnt in
    let other : Option (Bool × Bytes) = (do
      v ← inode_get_ptn fs.ptns inode.i_no
      inode_read fs.root_blk v.disk inode pos dst cnt) in
    if inode.i_no == 0 then root else other

-- `inode_write` of an open inode. No caller reads its return value.
unfoldable pub write_at :
    FileSystem → Inode → (pos : ℕ) (src : Bytes) (cnt : ℕ) → Option (Inode × FileSystem)
write_at fs inode pos src cnt =
    let root = record fs { root_blk = root_write fs.root_blk pos src cnt } in
    let other : Option (Inode × FileSystem) = (do
      v ← inode_get_ptn fs.ptns inode.i_no
      w ← inode_write v inode pos src cnt
      some (w.inode, with_ptn fs inode.i_no (with_inode w.volume w.inode))) in
    if inode.i_no == 0 then some (inode, root) else other

-- `inode_erase` of an open inode. No caller reads its return value.
unfoldable pub erase_at : FileSystem → Inode → (cnt : ℕ) → Option (Inode × FileSystem)
erase_at fs inode cnt = do
  v ← inode_get_ptn fs.ptns inode.i_no
  (done, inode', v') ← inode_erase v inode cnt
  some (inode', with_ptn fs inode.i_no (with_inode v' inode'))

-- `inode_release`
unfoldable pub release_at : FileSystem → Inode → Option FileSystem
release_at fs inode = do
  v ← inode_get_ptn fs.ptns inode.i_no
  v' ← inode_release v inode
  some (with_ptn fs inode.i_no v')

abbrev pub ft_unknown : ℕ
ft_unknown = 0

abbrev pub ft_file : ℕ
ft_file = 1

abbrev pub ft_dir : ℕ
ft_dir = 2

-- The fields of the `struct dirent` number `k` in a buffer, of 24 bytes each.
abbrev pub entry_no : Bytes → (k : ℕ) → ℕ
entry_no b k = word_at b (24 * k)

abbrev pub entry_type : Bytes → (k : ℕ) → ℕ
entry_type b k = word_at b (24 * k + 20)

-- `!strcmp(b + at, name)`
unfoldable pub text_is : Bytes → (at : ℕ) (name : List ℕ) → Bool
text_is b at [] = b at == 0
text_is b at (c ∷ name) = (b at == c) && text_is b (at + 1) name

-- `strcpy` of the text at `at` to an array of `room` bytes.
unfoldable pub text_at : (room : ℕ) → Bytes → (at : ℕ) → Option (List ℕ)
text_at zero b at = none
text_at (suc room) b at =
    let rest : Option (List ℕ) = (do t ← text_at room b (at + 1); some (b at ∷ t)) in
    if b at == 0 then some [] else rest

-- A `struct dirent`
unfoldable pub make_entry : (i_no : ℕ) (name : List ℕ) (f_type : ℕ) → Bytes
make_entry i_no name f_type i =
    if ltb i 4
    then byte_of i_no i
    else if ltb i 20
    then get_or name (i - 4) 0
    else if ltb i 24
    then byte_of f_type (i - 20)
    else 0
