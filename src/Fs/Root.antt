-- ===== src/Fs/Root.antt =====
-- The root directory, whose entries are the mounted partitions: `root_dir_init`, the entry that
-- `fs_mount` makes, `fs_unmount`, and `fs_init`. `none` is a failed `assert`.
use a_os.Base.{
  ℕ, zero, suc, ◌+◌, ◌*◌, Bool, Option, none, some, List, [], ◌∷◌, ◌++◌, ◌==◌, if◌then◌else◌, ◌>>=◌,
  length, get_or, replicate,
}
use a_os.Base.Words.{add32, sub32}
use a_os.Disk.{Bytes, blit}
use a_os.Disk.Word.{byte_of}
use a_os.Dir.{FileSystem, entry_type, text_is, make_entry, ft_unknown, ft_dir}
use a_os.Fs.{fs_magic, fs_format, read_super, fs_mount}

-- `root_dir_init`: the entries `.` and `..`, and the inode of the root directory.
unfoldable pub root_dir_init : (root_blk_addr : ℕ) → FileSystem
root_dir_init root_blk_addr = record {
  ptns = [];
  root = record { i_no = 0; i_size = 48; i_block = root_blk_addr ∷ replicate 12 0; open_cnt = 0 };
  root_blk = blit (make_entry 0 (46 ∷ []) ft_dir) 24 (make_entry 0 (46 ∷ 46 ∷ []) ft_dir) 0 24;
}

-- The first of `n` entries from `k` on that passes a test.
unfoldable pub entry_index : (n : ℕ) → (test : ℕ → Bool) → (k : ℕ) → Option ℕ
entry_index zero test k = none
entry_index (suc n) test k =
    let later = entry_index n test (k + 1) in if test k then some k else later

abbrev pub put_type : Bytes → (k f_type : ℕ) → Bytes
put_type b k f_type = blit b (24 * k + 20) (byte_of f_type) 0 4

-- The name and its terminating byte, the number, and the type.
abbrev pub put_entry : Bytes → (k i_no : ℕ) → (name : List ℕ) → Bytes
put_entry b k i_no name =
    let named = blit b (24 * k + 4) (λ i. get_or name i 0) 0 (length name + 1) in
    put_type (blit named (24 * k) (byte_of i_no) 0 4) k ft_dir

-- The end of `fs_mount`: the first unused entry of ROOT_DIR_MAX.
unfoldable pub root_install : FileSystem → (name : List ℕ) → (inode_base : ℕ) → Option FileSystem
root_install fs name inode_base = do
  k ← entry_index 10 (λ k. entry_type fs.root_blk k == ft_unknown) 0
  some (record fs {
    root_blk = put_entry fs.root_blk k inode_base name;
    root = record fs.root { i_size = add32 fs.root.i_size 24 };
  })

-- `fs_unmount`: the first entry of this name, whatever its type.
unfoldable pub fs_unmount : FileSystem → (name : List ℕ) → FileSystem
fs_unmount fs name = elim (entry_index 10 (λ k. text_is fs.root_blk (24 * k + 4) name) 0) [
  | none ↦ fs
  | some k ↦ record fs {
    root_blk = put_type fs.root_blk k ft_unknown;
    root = record fs.root { i_size = sub32 fs.root.i_size 24 };
  }
]

-- A partition that the driver has found, with its name.
pub record Partition : Type 0 where
  pub disk : Bytes
  pub start_lba : ℕ
  pub sec_cnt : ℕ
  pub name : List ℕ

-- A partition without a file system is formatted.
abbrev pub prepared : Partition → Bytes
prepared p =
    if (read_super p.disk p.start_lba).magic == fs_magic
    then p.disk
    else fs_format p.disk p.start_lba p.sec_cnt

-- The loop of `fs_init`, with the `inode_max` of `fs_mount`.
unfoldable pub mount_all : List Partition → FileSystem → (inode_max : ℕ) → Option FileSystem
mount_all [] fs inode_max = some fs
mount_all (p ∷ rest) fs inode_max = do
  let (v, inode_max') = fs_mount (prepared p) p.start_lba 0 inode_max
  fs' ← root_install (record fs { ptns = fs.ptns ++ v ∷ [] }) p.name v.inode_base
  mount_all rest fs' inode_max'

-- `fs_init`
unfoldable pub fs_init : (root_blk_addr : ℕ) → List Partition → Option FileSystem
fs_init root_blk_addr ptns = mount_all ptns (root_dir_init root_blk_addr) 0
