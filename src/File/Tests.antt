-- ===== src/File/Tests.antt =====
-- A table of eight entries, and a task that has only its standard descriptors.
use a_os.Base.{
  ℕ, ◌-◌, ◌≡◌, refl, false, none, some, List, [], ◌∷◌, ◌++◌, leb, if◌then◌else◌, replicate, arith,
}
use a_os.Disk.{Bytes}
use a_os.Disk.Word.{bytes_of}
use a_os.Bitmap.{Bitmap}
use a_os.Inode.{Inode, Volume}
use a_os.Dir.{FileSystem, make_entry, ft_file, ft_dir}
use a_os.File.Calls.{sys_unlink}
use a_os.File.Unlinking.{InUse, sys_unlink-InUse}
use a_os.File.{
  Handle, Files, empty_file, file_at, put_file, no_fd, o_pipe, open_inode, Closing, sys_close,
  sys_pipe,
}
use a_os.File.Table.{IsValid}
use a_os.File.Laws.{close-open_inode}
use a_os.File.PipeEnds.{pipe_closed}

abbrev fresh_files : Files
fresh_files = record { fd_table = replicate 8 empty_file; open_fd = 0 ∷ 1 ∷ 2 ∷ replicate 29 no_fd }

fresh_files-IsValid : IsValid 8 fresh_files
fresh_files-IsValid = record { table = refl; task = refl; least = omega arith; small = omega arith }

opened_file :
    open_inode 8 fresh_files (Handle.inode 4) 8
    ≡ (some 3, (open_inode 8 fresh_files (Handle.inode 4) 8).1)
unfolding open_inode a_os.File.fd_acquire a_os.File.install_on a_os.File.task_install a_os.File.scan
opened_file = refl

close-open_inode_example :
    (s'' : Files) × (sys_close 8 (open_inode 8 fresh_files (Handle.inode 4) 8).1 3
      ≡ some (Closing.inode_close (Handle.inode 4), s''))
    × (s''.open_fd ≡ fresh_files.open_fd)
    × ((j : ℕ) → (file_at s'' j).inode ≡ (file_at fresh_files j).inode)
close-open_inode_example =
    close-open_inode 8 fresh_files (open_inode 8 fresh_files (Handle.inode 4) 8).1 (Handle.inode 4)
      8 3 fresh_files-IsValid refl opened_file

new_pipe : sys_pipe 8 fresh_files 7 ≡ (some (some 3, some 4), (sys_pipe 8 fresh_files 7).1)
unfolding sys_pipe a_os.File.fd_acquire a_os.File.pipe_on a_os.File.install_pair
    a_os.File.task_install a_os.File.scan
new_pipe = refl

pipe_closed_example :
    (s1 : Files) × (s2 : Files) × (sys_close 8 (sys_pipe 8 fresh_files 7).1 3
      ≡ some (Closing.nothing, s1))
    × (sys_close 8 s1 4 ≡ some (Closing.ioq_deinit (Handle.ioq 7), s2))
    × (s2.open_fd ≡ fresh_files.open_fd)
    × ((j : ℕ) → (file_at s2 j).inode ≡ (file_at fresh_files j).inode)
pipe_closed_example =
    pipe_closed 8 fresh_files (sys_pipe 8 fresh_files 7).1 7 3 4 fresh_files-IsValid new_pipe

-- A volume whose first inode is a directory with the file "a" in it, and is named "hd1".
abbrev file_disk : Bytes
file_disk a =
    if leb 2560 a
    then make_entry 2 (97 ∷ []) ft_file (a - 2560)
    else if leb 1536 a
    then bytes_of (1 ∷ 24 ∷ 5 ∷ []) (a - 1536)
    else 0

abbrev file_volume : Volume
file_volume = record {
  disk = file_disk;
  inode_base = 1;
  inode_cnt = 8;
  inode_btmp_lba = 2;
  inode_btmp = record { bits = 7 ∷ []; len = 1 };
  inode_table_lba = 3;
  blk_btmp_lba = 4;
  blk_btmp = record { bits = 1 ∷ []; len = 1 };
  blk_lba = 5;
  open_inodes = [];
}

abbrev one_file : FileSystem
one_file = record {
  ptns = file_volume ∷ [];
  root = record { i_no = 0; i_size = 24; i_block = replicate 13 0; open_cnt = 0 };
  root_blk = make_entry 1 (104 ∷ 100 ∷ 49 ∷ []) ft_dir;
}

-- Entry 4 of the table has the inode 3 open.
abbrev busy_files : Files
busy_files = record {
  fd_table =
      replicate 4 empty_file
      ++ record { inode = Handle.inode 3; pos = 0; flag = 0 } ∷ replicate 3 empty_file;
  open_fd = replicate 32 no_fd;
}

-- "/hd1/a"
abbrev file_path : List ℕ
file_path = 47 ∷ 104 ∷ 100 ∷ 49 ∷ 47 ∷ 97 ∷ []

abbrev after_unlink : FileSystem
after_unlink = elim (sys_unlink 8 one_file busy_files file_path) [
  | none ↦ one_file
  | some (r, fs) ↦ fs
]

refused : sys_unlink 8 one_file busy_files file_path ≡ some (false, after_unlink)
unfolding sys_unlink a_os.Dir.Search.dir_parse_path a_os.Dir.Path.parent_and_child
    a_os.Dir.Path.fills_block a_os.Dir.Path.rcut a_os.Dir.Path.trim a_os.Dir.Path.in_row
    a_os.Dir.Search.parse_split a_os.Dir.Search.dir_search_path a_os.Dir.Search.is_root_path
    a_os.Dir.Path.dir_split_path a_os.Dir.Path.split_loop a_os.Dir.Path.cut
    a_os.Dir.Search.search_split a_os.Dir.Search.dir_get_ptn a_os.Dir.Search.first_entry make_entry
    a_os.Dir.text_is a_os.Dir.Search.search_names a_os.Dir.Search.dir_search_name
    a_os.Dir.Search.search_open a_os.Dir.Search.on_partition a_os.Dir.Search.path_end
    a_os.Inode.inode_get_ptn a_os.Dir.open_at a_os.Dir.put_ptn a_os.Dir.read_at a_os.Dir.close_at
    a_os.Inode.Table.inode_open a_os.Inode.Table.open_on a_os.Inode.Table.cached
    a_os.Inode.Table.open_from_disk a_os.Bitmap.check a_os.Bitmap.test a_os.Inode.Table.load_inode
    a_os.Inode.Transfer.inode_read a_os.Disk.ide_read a_os.Disk.read_rounds a_os.Inode.Data.blk_read
    a_os.Inode.Data.blk_read_loop a_os.Inode.Table.counted a_os.Inode.Table.inode_close
    a_os.Inode.Table.uncounted a_os.Inode.Table.words_from a_os.Inode.Transfer.on_read
    a_os.Inode.Transfer.read_first a_os.Inode.Transfer.read_last a_os.Inode.Transfer.read_middle
    a_os.Inode.Transfer.span a_os.File.Calls.unlink_parsed a_os.File.Calls.unlink_child
    a_os.File.Calls.unlink_scan a_os.File.Calls.unlink_step
refused = refl

busy_entry : InUse busy_files 4
busy_entry = (3, refl, omega arith)

sys_unlink-InUse_example : false ≡ false
sys_unlink-InUse_example =
    sys_unlink-InUse 8 one_file busy_files file_path 4 false after_unlink (omega arith)
      (omega arith) busy_entry refused
