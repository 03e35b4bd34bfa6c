-- ===== src/Dir/Install.antt =====
-- Changes of directories: `dir_install`, `dir_uninstall`, `sys_mkdir` and `sys_rmdir`.
use a_os.Base.{
  ℕ, zero, suc, ◌+◌, ◌-◌, ◌*◌, ◌/◌, Bool, true, false, Option, none, some, List, [], ◌∷◌, ltb, ◌==◌,
  if◌then◌else◌, ◌>>=◌, get_elem?,
}
use a_os.Base.Words.{sub32}
use a_os.Disk.{Bytes, blank, blit}
use a_os.Inode.{Inode, Volume, minus_one, inode_get_ptn}
use a_os.Inode.Table.{inode_acquire}
use a_os.Dir.{
  FileSystem, with_ptn, open_used, close_at, read_at, write_at, erase_at, release_at, entry_no,
  make_entry, ft_dir,
}
use a_os.Dir.Search.{Searched, dir_search_path, dir_parse_path}

-- `dir_install`: the entry is appended to the directory.
unfoldable pub dir_install : FileSystem → (i_parent : ℕ) → (new_dir : Bytes) → Option FileSystem
dir_install fs i_parent new_dir = do
  (inode, fs1) ← open_used fs i_parent
  (inode', fs2) ← write_at fs1 inode inode.i_size new_dir 24
  close_at fs2 i_parent

-- The first of `n` entries from `idx` on with this inode.
unfoldable pub child_index : (n : ℕ) → Bytes → (i_child_hd idx : ℕ) → Option ℕ
child_index zero b i_child_hd idx = none
child_index (suc n) b i_child_hd idx =
    let later = child_index n b i_child_hd (idx + 1) in
    if entry_no b idx == i_child_hd then some idx else later

-- The buffer with the last of `n` entries in the place of entry `idx`.
abbrev pub replaced : Bytes → (n idx : ℕ) → Bytes
replaced buf n idx = blit buf (24 * idx) buf (24 * (n - 1)) 24

-- What `dir_uninstall` does with the entry that it finds.
unfoldable pub remove_entry : FileSystem → Inode → Bytes → Option ℕ → Option FileSystem
remove_entry fs inode buf none = some fs
remove_entry fs inode buf (some idx) = do
  (shorter, fs1) ← erase_at fs inode 24
  (written, fs2) ← write_at fs1 shorter 0 (replaced buf (inode.i_size / 24) idx) shorter.i_size
  some fs2

-- `dir_uninstall`
unfoldable pub dir_uninstall : FileSystem → (i_parent i_child : ℕ) → Option FileSystem
dir_uninstall fs i_parent i_child = do
  (inode, fs1) ← open_used fs i_parent
  v ← inode_get_ptn fs1.ptns i_parent
  (ok, buf) ← read_at fs1 inode 0 blank inode.i_size
  fs2 ←
      remove_entry fs1 inode buf
        (child_index (inode.i_size / 24) buf (sub32 i_child v.inode_base) 0)
  close_at fs2 i_parent

-- The entries `.` and `..` of a new directory.
abbrev pub dot_entries : (i_no i_parent : ℕ) → Bytes
dot_entries i_no i_parent =
    blit (make_entry i_no (46 ∷ []) ft_dir) 24 (make_entry i_parent (46 ∷ 46 ∷ []) ft_dir) 0 24

-- A new directory in the partition `v`, and its entry in the parent.
unfoldable pub make_dir : FileSystem → (i_parent : ℕ) → (name : List ℕ) → Volume → Option FileSystem
make_dir fs i_parent name v = do
  let (r, v') = inode_acquire v
  inode ← r
  let i_no_hd = sub32 inode.i_no v.inode_base
  (inode', fs1) ←
      write_at (with_ptn fs i_parent v') inode 0 (dot_entries i_no_hd (sub32 i_parent v.inode_base))
        48
  fs2 ← close_at fs1 inode.i_no
  dir_install fs2 i_parent (make_entry i_no_hd name ft_dir)

-- `sys_mkdir` from the answer of `dir_parse_path` on: `false` is -1.
unfoldable pub mkdir_in : ℕ × List ℕ × FileSystem → Option (Bool × FileSystem)
mkdir_in (i_parent, name, fs) =
    let made : Option (Bool × FileSystem) = elim (inode_get_ptn fs.ptns i_parent) [
      | none ↦ some (false, fs)
      | some v ↦ (do fs' ← make_dir fs i_parent name v; some (true, fs'))
    ] in
    if i_parent == minus_one
    then some (false, fs)
    else if i_parent == 0
    then some (false, fs)
    else made

unfoldable pub sys_mkdir : FileSystem → (path : List ℕ) → Option (Bool × FileSystem)
sys_mkdir fs path = dir_parse_path fs path >>= mkdir_in

-- A directory that holds more than its two own entries stays.
unfoldable pub remove_dir : FileSystem → (i_child i_parent : ℕ) → Option (Bool × FileSystem)
remove_dir fs i_child i_parent = do
  (inode, fs1) ← open_used fs i_child
  let kept : Option (Bool × FileSystem) = (do fs2 ← close_at fs1 i_child; some (false, fs2))
  let removed : Option (Bool × FileSystem) = (do
    fs2 ← release_at fs1 inode
    fs3 ← dir_uninstall fs2 i_parent i_child
    some (true, fs3))
  if ltb 48 inode.i_size then kept else removed

-- `sys_rmdir` from the answer of `dir_search_path` on
unfoldable pub rmdir_found : Searched → Option (Bool × FileSystem)
rmdir_found (cnt, path, fs) =
    let found : Option (Bool × FileSystem) = (do
      i_child ← get_elem? path (cnt - 1)
      i_parent ← get_elem? path (cnt - 2)
      remove_dir fs i_child i_parent) in
    if cnt == minus_one then some (false, fs) else if ltb cnt 2 then some (false, fs) else found

unfoldable pub sys_rmdir : FileSystem → (path : List ℕ) → Option (Bool × FileSystem)
sys_rmdir fs path = dir_search_path fs path >>= rmdir_found
