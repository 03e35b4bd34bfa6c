-- ===== src/Dir/Tests.antt =====
-- Paths and directories at concrete inputs, for the theorems on kernel/src/dir.c.
use a_os.Base.{
  ℕ, ◌≡◌, ◌<◌, ltb, refl, true, false, none, some, List, [], ◌∷◌, replicate, length, arith,
}
use a_os.Bitmap.{Bitmap}
use a_os.Disk.{Bytes, blank}
use a_os.Inode.{Inode, Volume}
use a_os.Dir.{FileSystem, make_entry, ft_dir}
use a_os.Dir.Path.{slash, dir_split_path, parent_and_child}
use a_os.Dir.Cwd.{cwd_text, dir_get_parent, dir_get_name, sys_getcwd}
use a_os.Dir.Joined.{joined, split-build}
use a_os.Dir.Climbing.{Up, at_root, above, sys_getcwd-Up}

-- "hd1" and "a"
abbrev two_names : List (List ℕ)
two_names = (104 ∷ 100 ∷ 49 ∷ []) ∷ (97 ∷ []) ∷ []

-- "/hd1/a/"
abbrev two_path : List ℕ
two_path = 47 ∷ 104 ∷ 100 ∷ 49 ∷ 47 ∷ 97 ∷ 47 ∷ []

two_built : cwd_text 32 (some two_names) ≡ (true, two_path)
unfolding cwd_text a_os.Dir.Path.build_path
two_built = refl

two_whole : a_os.Dir.Path.fills_block (length two_path) ≡ false
unfolding a_os.Dir.Path.fills_block
two_whole = refl

split-build_example : dir_split_path two_path ≡ some (some two_names)
split-build_example =
    split-build two_names 32 two_path (omega arith) (omega arith) two_built two_whole

-- The path "/hd1/a/" names "a" in "/hd1".
parent_of_two : parent_and_child two_path ≡ some (some (47 ∷ 104 ∷ 100 ∷ 49 ∷ [], 97 ∷ []))
unfolding parent_and_child a_os.Dir.Path.rcut a_os.Dir.Path.trim a_os.Dir.Path.fills_block
    a_os.Dir.Path.in_row
parent_of_two = refl

-- A volume of 8 inodes, the first one in use, named "hd1" in the root directory.
abbrev one_used : Bitmap
one_used = record { bits = 1 ∷ []; len = 1 }

abbrev one_volume : Volume
one_volume = record {
  disk = blank;
  inode_base = 1;
  inode_cnt = 8;
  inode_btmp_lba = 2;
  inode_btmp = one_used;
  inode_table_lba = 3;
  blk_btmp_lba = 4;
  blk_btmp = one_used;
  blk_lba = 5;
  open_inodes = [];
}

abbrev one_dir : FileSystem
one_dir = record {
  ptns = one_volume ∷ [];
  root = record { i_no = 0; i_size = 24; i_block = replicate 13 0; open_cnt = 0 };
  root_blk = make_entry 1 (104 ∷ 100 ∷ 49 ∷ []) ft_dir;
}

-- The volumes behind the two steps of the climb from inode 1.
abbrev after_parent : FileSystem
after_parent = elim (dir_get_parent one_dir 1) [ none ↦ one_dir | some r ↦ r.1 ]

abbrev after_name : FileSystem
after_name = elim (dir_get_name after_parent 0 1) [ none ↦ one_dir | some r ↦ r.1 ]

hd1_parent : dir_get_parent one_dir 1 ≡ some (0, after_parent)
unfolding dir_get_parent a_os.Dir.open_used a_os.Dir.open_at a_os.Inode.inode_get_ptn
    a_os.Inode.Table.inode_open a_os.Inode.Table.open_on a_os.Inode.Table.cached
    a_os.Inode.Table.open_from_disk a_os.Bitmap.check a_os.Bitmap.test a_os.Dir.read_at
    a_os.Inode.Table.load_inode a_os.Dir.put_ptn a_os.Inode.Transfer.inode_read a_os.Disk.ide_read
    a_os.Disk.read_rounds a_os.Dir.close_at a_os.Dir.Cwd.child_name dir_get_name
    a_os.Dir.Cwd.number_in a_os.Dir.text_at a_os.Inode.Data.blk_read a_os.Inode.Data.blk_read_loop
    a_os.Inode.Table.counted a_os.Inode.Table.inode_close a_os.Inode.Table.uncounted
    a_os.Inode.Table.words_from a_os.Inode.Transfer.on_read a_os.Inode.Transfer.read_first
    a_os.Inode.Transfer.read_last a_os.Inode.Transfer.read_middle a_os.Inode.Transfer.span
    make_entry
hd1_parent = refl

hd1_named : dir_get_name after_parent 0 1 ≡ some (some (104 ∷ 100 ∷ 49 ∷ []), after_name)
unfolding dir_get_parent a_os.Dir.open_used a_os.Dir.open_at a_os.Inode.inode_get_ptn
    a_os.Inode.Table.inode_open a_os.Inode.Table.open_on a_os.Inode.Table.cached
    a_os.Inode.Table.open_from_disk a_os.Bitmap.check a_os.Bitmap.test a_os.Dir.read_at
    a_os.Inode.Table.load_inode a_os.Dir.put_ptn a_os.Inode.Transfer.inode_read a_os.Disk.ide_read
    a_os.Disk.read_rounds a_os.Dir.close_at a_os.Dir.Cwd.child_name dir_get_name
    a_os.Dir.Cwd.number_in a_os.Dir.text_at a_os.Inode.Data.blk_read a_os.Inode.Data.blk_read_loop
    a_os.Inode.Table.counted a_os.Inode.Table.inode_close a_os.Inode.Table.uncounted
    a_os.Inode.Table.words_from a_os.Inode.Transfer.on_read a_os.Inode.Transfer.read_first
    a_os.Inode.Transfer.read_last a_os.Inode.Transfer.read_middle a_os.Inode.Transfer.span
    make_entry
hd1_named = refl

hd1-Up : Up one_dir 1 ((104 ∷ 100 ∷ 49 ∷ []) ∷ []) after_name
hd1-Up =
    above one_dir after_parent after_name after_name 1 0 (104 ∷ 100 ∷ 49 ∷ []) [] (omega arith)
      hd1_parent hd1_named (at_root after_name)

sys_getcwd-Up_example :
    (p : List ℕ) × (sys_getcwd one_dir 1 32
      ≡ some ((ltb (length (slash ∷ joined ((104 ∷ 100 ∷ 49 ∷ []) ∷ []))) 32, p), after_name))
    × (length p < 32)
    × (length (slash ∷ joined ((104 ∷ 100 ∷ 49 ∷ []) ∷ [])) < 32
        → p ≡ slash ∷ joined ((104 ∷ 100 ∷ 49 ∷ []) ∷ []))
sys_getcwd-Up_example =
    sys_getcwd-Up one_dir after_name 1 32 ((104 ∷ 100 ∷ 49 ∷ []) ∷ []) (omega arith) hd1-Up
      (omega arith)
