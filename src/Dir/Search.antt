-- ===== src/Dir/Search.antt =====
-- The search of directories for names, and of a path for the inodes on it.
use a_os.Base.{
  ℕ, zero, suc, ◌+◌, ◌-◌, ◌*◌, ◌/◌, Bool, not, ◌&&◌, ◌||◌, Option, none, some, List, [], ◌∷◌, ◌++◌,
  ◌==◌, if◌then◌else◌, ◌>>=◌, length, get_elem?,
}
use a_os.Base.Words.{add32}
use a_os.Disk.{Bytes, blank}
use a_os.Inode.{Inode, Volume, minus_one, inode_get_ptn}
use a_os.Dir.{
  FileSystem, open_at, close_at, read_at, ft_unknown, ft_dir, entry_no, entry_type, text_is,
}
use a_os.Dir.Path.{slash, dir_split_path, parent_and_child}

-- The number in the first of `n` entries from `idx` on that passes a test.
unfoldable pub first_entry : (n : ℕ) → (test : ℕ → Bool) → Bytes → (idx : ℕ) → Option ℕ
first_entry zero test b idx = none
first_entry (suc n) test b idx =
    let later = first_entry n test b (idx + 1) in if test idx then some (entry_no b idx) else later

-- The entry has this name and this type.
abbrev pub is_named : Bytes → (name : List ℕ) (f_type : ℕ) → ℕ → Bool
is_named b name f_type idx = text_is b (24 * idx + 4) name && (entry_type b idx == f_type)

-- `dir_search_name`, with -1 in 32 bits: the numbers in a partition's directory count from its base.
unfoldable pub on_partition : FileSystem → (inode_no : ℕ) → Option ℕ → Option ℕ
on_partition fs inode_no none = some minus_one
on_partition fs inode_no (some i_no) =
    let based : Option ℕ = (do
      v ← inode_get_ptn fs.ptns inode_no
      some (add32 i_no v.inode_base)) in
    if inode_no == 0 then some i_no else based

unfoldable pub search_open :
    FileSystem
    → (inode_no : ℕ) → (name : List ℕ) → (f_type : ℕ) → Option Inode
    → Option (ℕ × FileSystem)
search_open fs inode_no name f_type none = some (minus_one, fs)
search_open fs inode_no name f_type (some inode) = do
  (ok, buf) ← read_at fs inode 0 blank inode.i_size
  found ←
      on_partition fs inode_no (first_entry (inode.i_size / 24) (is_named buf name f_type) buf 0)
  fs' ← close_at fs inode_no
  some (found, fs')

unfoldable pub dir_search_name :
    FileSystem → (inode_no : ℕ) → (name : List ℕ) → (f_type : ℕ) → Option (ℕ × FileSystem)
dir_search_name fs inode_no name f_type = do
  (r, fs') ← open_at fs inode_no
  search_open fs' inode_no name f_type r

-- `dir_get_ptn`: ROOT_DIR_MAX is 10.
unfoldable pub dir_get_ptn : FileSystem → (name : List ℕ) → Option Volume
dir_get_ptn fs name =
    let b = fs.root_blk in
    first_entry 10 (λ k. not (entry_type b k == ft_unknown) && text_is b (24 * k + 4) name) b 0
    >>= inode_get_ptn fs.ptns

-- What `dir_search_path` answers, -1 in 32 bits, and the part of `dir->path` that it has written.
abbrev pub Searched : Type 0
Searched = ℕ × List ℕ × FileSystem

-- The loop over the names behind that of the partition, from the directory `parent`.
unfoldable pub search_names :
    FileSystem → (path : List ℕ) (parent : ℕ) → (names : List (List ℕ)) → Option Searched
search_names fs path parent [] = some (length path, path, fs)
search_names fs path parent (name ∷ names) = do
  (i_no, fs') ← dir_search_name fs parent name ft_dir
  let rest = search_names fs' (path ++ i_no ∷ []) i_no names in
      if i_no == minus_one then some (minus_one, path, fs') else rest

-- The test of the root directory's paths: "/", "/." and "/..".
abbrev same_text : List ℕ → List ℕ → Bool
same_text [] [] = Bool.true
same_text [] (d ∷ ds) = Bool.false
same_text (c ∷ cs) [] = Bool.false
same_text (c ∷ cs) (d ∷ ds) = (c == d) && same_text cs ds

unfoldable pub is_root_path : (path : List ℕ) → Bool
is_root_path path =
    same_text path (slash ∷ [])
    || same_text path (slash ∷ 46 ∷ [])
    || same_text path (slash ∷ 46 ∷ 46 ∷ [])

unfoldable pub search_split : FileSystem → Option (List (List ℕ)) → Option Searched
search_split fs none = some (minus_one, [], fs)
search_split fs (some []) = none
search_split fs (some (name ∷ names)) = elim (dir_get_ptn fs name) [
  | none ↦ some (minus_one, [], fs)
  | some v ↦ search_names fs (v.inode_base ∷ []) v.inode_base names
]

unfoldable pub dir_search_path : FileSystem → (path : List ℕ) → Option Searched
dir_search_path fs path =
    let rest = dir_split_path path >>= search_split fs in
    if is_root_path path then some (0, [], fs) else rest

-- The inode at the end of a path that was found: the root directory's for a count of 0.
unfoldable pub path_end : (root_no cnt : ℕ) (path : List ℕ) → Option ℕ
path_end root_no cnt path =
    if cnt == minus_one
    then some minus_one
    else if cnt == 0
    then some root_no
    else get_elem? path (cnt - 1)

-- `dir_parse_path`: the inode of the parent, -1 in 32 bits, and `child_name`.
unfoldable pub parse_split :
    FileSystem → Option (List ℕ × List ℕ) → Option (ℕ × List ℕ × FileSystem)
parse_split fs none = some (minus_one, [], fs)
parse_split fs (some (parent, child)) = do
  (cnt, path, fs') ← dir_search_path fs parent
  i_parent ← path_end fs'.root.i_no cnt path
  some (i_parent, child, fs')

unfoldable pub dir_parse_path : FileSystem → (path : List ℕ) → Option (ℕ × List ℕ × FileSystem)
dir_parse_path fs path = parent_and_child path >>= parse_split fs
