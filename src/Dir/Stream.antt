-- ===== src/Dir/Stream.antt =====
-- Directory streams: `sys_opendir`, `sys_readdir`, `sys_rewinddir` and `sys_closedir`.
use a_os.Base.{
  ℕ, ◌*◌, ◌/◌, Bool, true, false, Option, none, some, List, leb, ltb, ◌==◌, if◌then◌else◌, ◌>>=◌,
}
use a_os.Base.Words.{add32}
use a_os.Disk.{Bytes, blank, blit}
use a_os.Disk.Word.{byte_of, word_at}
use a_os.Inode.{Inode, minus_one, inode_get_ptn}
use a_os.Inode.Table.{cached}
use a_os.Dir.{FileSystem, open_at, close_at, read_at, entry_type, ft_unknown}
use a_os.Dir.Search.{Searched, dir_search_path, path_end}

-- `struct dirstream` without the path: the inode by its number, `none` for NULL.
pub record DirStream : Type 0 where
  pub inode : Option ℕ
  pub dir_entry : Bytes
  pub pos : ℕ

unfoldable pub opened_dir : Searched → Option (Option DirStream × FileSystem)
opened_dir (cnt, path, fs) =
    let opened : Option (Option DirStream × FileSystem) = (do
      i_no ← path_end fs.root.i_no cnt path
      (r, fs') ← open_at fs i_no
      let inode : Option ℕ = elim r [ none ↦ none | some i ↦ some i_no ]
      some (some (record { inode = inode; dir_entry = blank; pos = 0 }), fs')) in
    if cnt == minus_one then some (none, fs) else opened

-- `sys_opendir`: NULL is the inner `none`.
unfoldable pub sys_opendir : FileSystem → (path : List ℕ) → Option (Option DirStream × FileSystem)
sys_opendir fs path = dir_search_path fs path >>= opened_dir

-- `sys_closedir`
unfoldable pub sys_closedir : FileSystem → DirStream → Option FileSystem
sys_closedir fs dir = dir.inode >>= close_at fs

-- `sys_rewinddir`
unfoldable pub sys_rewinddir : DirStream → DirStream
sys_rewinddir dir = record dir { pos = 0 }

-- The inode that an open number stands for.
unfoldable pub inode_of : FileSystem → (i_no : ℕ) → Option Inode
inode_of fs i_no =
    let other : Option Inode = (do v ← inode_get_ptn fs.ptns i_no; cached i_no v.open_inodes) in
    if i_no == 0 then some fs.root else other

-- An entry of a partition with its number counted from the partition's base.
abbrev pub based_entry : Bytes → (base : ℕ) → Bytes
based_entry b base i = if ltb i 4 then byte_of (add32 (word_at b 0) base) i else b i

-- The bytes of the next entry; `none` is NULL.
unfoldable pub next_entry : FileSystem → Inode → DirStream → Option (Option Bytes)
next_entry fs inode dir =
    let idx = dir.pos / 24 in
    let on_root =
      if leb 10 idx then none else some (blit dir.dir_entry 0 fs.root_blk (24 * idx) 24) in
    let on_disk : Option (Option Bytes) = (do
      (ok, b) ← read_at fs inode dir.pos dir.dir_entry 24
      v ← inode_get_ptn fs.ptns inode.i_no
      some (if ok then some (based_entry b v.inode_base) else none)) in
    if inode.i_no == 0 then some on_root else on_disk

-- An entry of an unknown type is not handed out, and the position stays before it.
unfoldable pub hand_out : DirStream → Option Bytes → Bool × DirStream
hand_out dir none = (false, dir)
hand_out dir (some b) =
    let dir' = record dir { dir_entry = b } in
    if entry_type b 0 == ft_unknown
    then (false, dir')
    else (true, record dir' { pos = add32 dir.pos 24 })

-- `sys_readdir`: `false` is NULL, else the entry is in `dir_entry`.
unfoldable pub sys_readdir : FileSystem → DirStream → Option (Bool × DirStream)
sys_readdir fs dir = do
  i_no ← dir.inode
  inode ← inode_of fs i_no
  let next : Option (Bool × DirStream) = (do r ← next_entry fs inode dir; some (hand_out dir r))
  if leb inode.i_size dir.pos then some (false, dir) else next
