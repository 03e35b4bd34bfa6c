-- ===== src/Dir/Cwd.antt =====
-- The current directory of a task: `sys_getcwd`, which climbs to the root directory, and `sys_chdir`.
use a_os.Base.{
  ℕ, zero, suc, ◌+◌, ◌-◌, ◌*◌, ◌/◌, Bool, false, Option, none, some, List, [], ◌∷◌, ◌==◌,
  if◌then◌else◌, ◌>>=◌, get_elem?,
}
use a_os.Base.Words.{add32, sub32}
use a_os.Disk.{Bytes, blank}
use a_os.Inode.{minus_one, inode_get_ptn}
use a_os.Dir.{FileSystem, open_used, close_at, read_at, entry_no, text_at}
use a_os.Dir.Path.{slash, build_path}
use a_os.Dir.Search.{Searched, dir_search_path}

-- `dir_get_parent`: the entry `..`; above a partition's first inode is the root directory.
unfoldable pub dir_get_parent : FileSystem → (i_no : ℕ) → Option (ℕ × FileSystem)
dir_get_parent fs i_no =
    let parent : Option (ℕ × FileSystem) = (do
      (inode, fs1) ← open_used fs i_no
      (ok, buf) ← read_at fs1 inode 0 blank 48
      fs2 ← close_at fs1 i_no
      v ← inode_get_ptn fs2.ptns i_no
      some (if i_no == v.inode_base then 0 else add32 (entry_no buf 1) v.inode_base, fs2)) in
    if i_no == 0 then some (0, fs) else parent

-- The name in the first of `n` entries from `idx` on with this inode; the outer `none` is a name that
-- does not fit the array it is copied to, the inner one is -1.
unfoldable pub child_name : (n : ℕ) → Bytes → (i_child idx : ℕ) → Option (Option (List ℕ))
child_name zero b i_child idx = some none
child_name (suc n) b i_child idx =
    let later = child_name n b i_child (idx + 1) in
    let here : Option (Option (List ℕ)) = (do t ← text_at 16 b (24 * idx + 4); some (some t)) in
    if entry_no b idx == i_child then here else later

-- The number by which the directory `i_parent` names an inode.
unfoldable pub number_in : FileSystem → (i_parent i_child : ℕ) → Option ℕ
number_in fs i_parent i_child =
    let counted : Option ℕ = (do
      v ← inode_get_ptn fs.ptns i_parent
      some (sub32 i_child v.inode_base)) in
    if i_parent == 0 then some i_child else counted

-- `dir_get_name`
unfoldable pub dir_get_name :
    FileSystem → (i_parent i_child : ℕ) → Option (Option (List ℕ) × FileSystem)
dir_get_name fs i_parent i_child =
    let named : Option (Option (List ℕ) × FileSystem) = (do
      (inode, fs1) ← open_used fs i_parent
      (ok, buf) ← read_at fs1 inode 0 blank inode.i_size
      fs2 ← close_at fs1 i_parent
      number ← number_in fs2 i_parent i_child
      name ← child_name (inode.i_size / 24) buf number 0
      some (name, fs2)) in
    if i_child == 0 then some (some (slash ∷ []), fs) else named

-- The climb of `sys_getcwd`, with the rows left in its table of names: the names from the root
-- directory down, or -1. The code does not look how many rows are left: a row too many is a write
-- past the table, and `none`.
unfoldable pub climb :
    (rows : ℕ)
    → FileSystem
    → (i_child : ℕ) → (names : List (List ℕ)) → Option (Option (List (List ℕ)) × FileSystem)
climb zero fs i_child names = if i_child == 0 then some (some names, fs) else none
climb (suc rows) fs i_child names =
    let up : Option (Option (List (List ℕ)) × FileSystem) = (do
      (i_parent, fs1) ← dir_get_parent fs i_child
      (r, fs2) ← dir_get_name fs1 i_parent i_child
      elim r [ none ↦ some (none, fs2) | some name ↦ climb rows fs2 i_parent (name ∷ names) ]) in
    if i_child == 0 then some (some names, fs) else up

-- The path that is written into `buf`, or -1 before anything is written.
unfoldable pub cwd_text : (size : ℕ) → Option (List (List ℕ)) → Bool × List ℕ
cwd_text size none = (false, [])
cwd_text size (some names) = build_path (slash ∷ []) names size

-- `sys_getcwd` of a task whose `cwd_inode` is `cwd`: whether it succeeds, and the text in `buf`.
unfoldable pub sys_getcwd : FileSystem → (cwd size : ℕ) → Option ((Bool × List ℕ) × FileSystem)
sys_getcwd fs cwd size = do (r, fs') ← climb 16 fs cwd []; some (cwd_text size r, fs')

-- `sys_chdir`: the new `cwd_inode`, or -1 as the inner `none`. For a root path the code reads the word
-- before `dir->path`, the field `inode`, which is 0 in a new block.
unfoldable pub chdir_to : Searched → Option (Option ℕ × FileSystem)
chdir_to (cnt, path, fs) =
    let found : Option (Option ℕ × FileSystem) = (do
      i_no ← get_elem? path (cnt - 1)
      some (some i_no, fs)) in
    if cnt == minus_one then some (none, fs) else if cnt == 0 then some (some 0, fs) else found

unfoldable pub sys_chdir : FileSystem → (path : List ℕ) → Option (Option ℕ × FileSystem)
sys_chdir fs path = dir_search_path fs path >>= chdir_to
