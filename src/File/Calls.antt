-- ===== src/File/Calls.antt =====
-- The system calls of kernel/src/file.c on paths, inodes and queues: `sys_open`, `sys_unlink`,
-- `sys_stat`, `sys_read` and `sys_write`. `none` is a fault, or a call on a queue that blocks.
use a_os.Base.{
  ℕ, zero, suc, ◌+◌, ◌-◌, ◌%◌, Bool, true, false, not, ◌&&◌, Option, none, some, List, ◌==◌,
  if◌then◌else◌, ◌>>=◌, get_or,
}
use a_os.Base.Words.{add32, sub32}
use a_os.Disk.{Bytes, blit}
use a_os.Inode.{Inode, Volume, minus_one, inode_get_ptn}
use a_os.Inode.Table.{inode_acquire}
use a_os.IoQueue.{IoQueue, pipe_read, pipe_write, read_bytes}
use a_os.Fs.{listed}
use a_os.Dir.{
  FileSystem, with_ptn, open_at, open_used, close_at, read_at, write_at, release_at, make_entry,
  ft_file, ft_dir,
}
use a_os.Dir.Search.{dir_search_name, dir_parse_path, is_root_path}
use a_os.Dir.Install.{dir_install, dir_uninstall}
use a_os.Dir.Stream.{inode_of}
use a_os.File.{
  Handle, Files, File, file_at, put_file, fd_of, has_flag, open_inode, o_pipe, o_trunc, o_append,
}

abbrev pub o_create : ℕ
o_create = 4

-- A new file in the partition `v`.
unfoldable pub create_in :
    FileSystem → (i_parent : ℕ) → (name : List ℕ) → Volume → Option (ℕ × FileSystem)
create_in fs i_parent name v = do
  let (r, v') = inode_acquire v
  inode ← r
  fs1 ← close_at (with_ptn fs i_parent v') inode.i_no
  fs2 ← dir_install fs1 i_parent (make_entry (sub32 inode.i_no v.inode_base) name ft_file)
  some (inode.i_no, fs2)

-- `file_create`, with -1 in 32 bits
unfoldable pub file_create : FileSystem → (i_parent : ℕ) → (name : List ℕ) → Option (ℕ × FileSystem)
file_create fs i_parent name = elim (inode_get_ptn fs.ptns i_parent) [
  | none ↦ some (minus_one, fs)
  | some v ↦ create_in fs i_parent name v
]

-- What `sys_open` answers, -1 as `none`, and what it leaves.
abbrev pub Opened : Type 0
Opened = Option ℕ × FileSystem × Files

-- `sys_open` from the number of the inode on
unfoldable pub open_number : (table_size : ℕ) → Files → (flag : ℕ) → ℕ × FileSystem → Option Opened
open_number table_size files flag (i_no, fs) =
    let opened : Option Opened = (do
      (r, fs') ← open_at fs i_no
      elim r [
        | none ↦ some (none, fs', files)
        | some inode ↦ (do
          let (ret, files') = open_inode table_size files (Handle.inode i_no) flag
          some (ret, fs', files'))
      ]) in
    if i_no == minus_one then some (none, fs, files) else opened

-- `sys_open` from the answer of `dir_search_name` on: a file that is there is not created again, and
-- one that is not is created only with O_CREATE.
unfoldable pub open_found :
    (table_size : ℕ)
    → Files
    → (flag i_parent : ℕ) → (name : List ℕ) → ℕ × FileSystem
    → Option Opened
open_found table_size files flag i_parent name (i_no, fs) =
    let missing = i_no == minus_one in
    let creates = has_flag flag o_create in
    let created = file_create fs i_parent name >>= open_number table_size files flag in
    if missing && not creates
    then some (none, fs, files)
    else if not missing && creates
    then some (none, fs, files)
    else if missing
    then created
    else open_number table_size files flag (i_no, fs)

unfoldable pub open_parsed :
    (table_size : ℕ) → Files → (flag : ℕ) → ℕ × List ℕ × FileSystem → Option Opened
open_parsed table_size files flag (i_parent, name, fs) =
    let searched : Option Opened =
      dir_search_name fs i_parent name ft_file >>= open_found table_size files flag i_parent name in
    if i_parent == minus_one then some (none, fs, files) else searched

-- `sys_open`, where `table_size` is MAX_FILE_OPEN.
unfoldable pub sys_open :
    (table_size : ℕ) → FileSystem → Files → (path : List ℕ) (flag : ℕ) → Option Opened
sys_open table_size fs files path flag =
    dir_parse_path fs path >>= open_parsed table_size files (flag % 256)

-- The loop of `sys_unlink` over the open files. Its test assigns the entry's number to `i_child`, so
-- `none`, a file in use, is any entry whose number is not 0; the first word of a pipe's queue is the
-- address of its buffer.
unfoldable pub unlink_step : Handle → (rest : Option ℕ) → Option ℕ
unlink_step Handle.null rest = rest
unlink_step (Handle.inode i_no) rest = if i_no == 0 then rest else none
unlink_step (Handle.ioq q) rest = none

-- The number that `i_child` has behind the test.
abbrev assigned : Handle → (i_child : ℕ) → ℕ
assigned Handle.null i_child = i_child
assigned (Handle.inode i_no) i_child = i_no
assigned (Handle.ioq q) i_child = i_child

unfoldable pub unlink_scan : ℕ → Files → (fd_idx i_child : ℕ) → Option ℕ
unlink_scan zero files fd_idx i_child = some i_child
unlink_scan (suc n) files fd_idx i_child =
    let h = (file_at files fd_idx).inode in
    let rest = unlink_scan n files (fd_idx + 1) (assigned h i_child) in unlink_step h rest

unfoldable pub unlink_child : FileSystem → (i_parent : ℕ) → Option ℕ → Option (Bool × FileSystem)
unlink_child fs i_parent none = some (false, fs)
unlink_child fs i_parent (some i_child) = do
  (inode, fs1) ← open_used fs i_child
  fs2 ← release_at fs1 inode
  fs3 ← dir_uninstall fs2 i_parent i_child
  some (true, fs3)

unfoldable pub unlink_parsed :
    (table_size : ℕ) → Files → ℕ × List ℕ × FileSystem → Option (Bool × FileSystem)
unlink_parsed table_size files (i_parent, name, fs) =
    let searched : Option (Bool × FileSystem) = (do
      (i_child, fs') ← dir_search_name fs i_parent name ft_file
      let found = unlink_child fs' i_parent (unlink_scan (table_size - 3) files 3 i_child)
      if i_child == minus_one then some (false, fs') else found) in
    if i_parent == minus_one then some (false, fs) else searched

-- `sys_unlink`: `false` is -1.
unfoldable pub sys_unlink :
    (table_size : ℕ) → FileSystem → Files → (path : List ℕ) → Option (Bool × FileSystem)
sys_unlink table_size fs files path = dir_parse_path fs path >>= unlink_parsed table_size files

-- `struct fstat`
pub record FStat : Type 0 where
  pub size : ℕ
  pub ftype : ℕ

-- A directory of this name, or else a file: the inode, -1 in 32 bits, and the type.
unfoldable pub stat_search :
    FileSystem → (i_parent : ℕ) → (name : List ℕ) → Option (ℕ × ℕ × FileSystem)
stat_search fs i_parent name = do
  (i_dir, fs1) ← dir_search_name fs i_parent name ft_dir
  let as_file : Option (ℕ × ℕ × FileSystem) = (do
    (i_file, fs2) ← dir_search_name fs1 i_parent name ft_file
    some (i_file, ft_file, fs2))
  if i_dir == minus_one then as_file else some (i_dir, ft_dir, fs1)

unfoldable pub stat_parsed : ℕ × List ℕ × FileSystem → Option (Option FStat × FileSystem)
stat_parsed (i_parent, name, fs) =
    let searched : Option (Option FStat × FileSystem) = (do
      (i_no, ftype, fs1) ← stat_search fs i_parent name
      let found : Option (Option FStat × FileSystem) = (do
        (inode, fs2) ← open_used fs1 i_no
        fs3 ← close_at fs2 i_no
        some (some (record { size = inode.i_size; ftype = ftype }), fs3))
      if i_no == minus_one then some (none, fs1) else found) in
    if i_parent == minus_one then some (none, fs) else searched

-- `sys_stat`: -1 is the inner `none`.
unfoldable pub sys_stat : FileSystem → (path : List ℕ) → Option (Option FStat × FileSystem)
sys_stat fs path =
    let rest = dir_parse_path fs path >>= stat_parsed in
    let root : FStat = record { size = fs.root.i_size; ftype = ft_dir } in
    if is_root_path path then some (some root, fs) else rest

-- The file system, the tables of open files, the queues of the pipes and `kb_buf`.
pub record System : Type 0 where
  pub fs : FileSystem
  pub files : Files
  pub queues : ℕ → IoQueue
  pub kb_buf : IoQueue

abbrev pub put_queue : System → (q : ℕ) → IoQueue → System
put_queue s q x = record s { queues = λ p. if q == p then x else s.queues p }

-- `(struct ioqueue*)fd_table[fd].inode`
abbrev pub queue_of : Handle → Option ℕ
queue_of Handle.null = none
queue_of (Handle.inode i_no) = none
queue_of (Handle.ioq q) = some q

-- `fd_table[fd_idx].inode` as an inode
abbrev pub opened_inode : FileSystem → Handle → Option Inode
opened_inode fs Handle.null = none
opened_inode fs (Handle.inode i_no) = inode_of fs i_no
opened_inode fs (Handle.ioq q) = none

-- Bytes that were read, at the start of the buffer.
abbrev pub delivered : Bytes → (n : ℕ) → List ℕ → Bytes
delivered dst n xs = blit dst 0 (λ i. get_or xs i 0) 0 n

-- The three branches of `sys_read`.
unfoldable pub read_pipe : System → Handle → (dst : Bytes) (cnt : ℕ) → Option (ℕ × Bytes × System)
read_pipe s h dst cnt = do
  q ← queue_of h
  (n, xs, q') ← pipe_read (s.queues q) cnt
  some (n, delivered dst n xs, put_queue s q q')

unfoldable pub read_keyboard : System → (dst : Bytes) (cnt : ℕ) → Option (ℕ × Bytes × System)
read_keyboard s dst cnt = do
  (xs, q) ← read_bytes cnt s.kb_buf
  some (cnt, delivered dst cnt xs, record s { kb_buf = q })

unfoldable pub read_file :
    System → (fd_idx : ℕ) → (dst : Bytes) (cnt : ℕ) → Option (ℕ × Bytes × System)
read_file s fd_idx dst cnt = do
  let f = file_at s.files fd_idx
  inode ← opened_inode s.fs f.inode
  (ok, dst') ← read_at s.fs inode f.pos dst cnt
  some
      (cnt, dst', record s { files = put_file s.files fd_idx (record f { pos = add32 f.pos cnt }) })

-- `sys_read`: what it returns, and the buffer.
unfoldable pub sys_read :
    (table_size : ℕ)
    → System
    → (task_fd_idx : ℕ) → (dst : Bytes) (cnt : ℕ) → Option (ℕ × Bytes × System)
sys_read table_size s task_fd_idx dst cnt = do
  fd_idx ← fd_of table_size s.files task_fd_idx
  let f = file_at s.files fd_idx
  if has_flag f.flag o_pipe
      then read_pipe s f.inode dst cnt
      else if task_fd_idx == 0
      then read_keyboard s dst cnt
      else read_file s fd_idx dst cnt

unfoldable pub write_pipe : System → Handle → (src : Bytes) (cnt : ℕ) → Option (ℕ × System)
write_pipe s h src cnt = do
  q ← queue_of h
  (n, q') ← pipe_write (s.queues q) (listed cnt src 0) cnt
  some (n, put_queue s q q')

-- A write of `cnt` bytes at the position that the flag chooses from the size.
unfoldable pub write_file :
    System → File → (at : ℕ → ℕ) → (src : Bytes) (cnt : ℕ) → Option (ℕ × System)
write_file s f at src cnt = do
  inode ← opened_inode s.fs f.inode
  (inode', fs') ← write_at s.fs inode (at inode.i_size) src cnt
  some (cnt, record s { fs = fs' })

-- `sys_write`: what it returns, -1 in 32 bits. A write to descriptor 1 is printed.
unfoldable pub sys_write :
    (table_size : ℕ) → System → (task_fd_idx : ℕ) → (src : Bytes) (cnt : ℕ) → Option (ℕ × System)
sys_write table_size s task_fd_idx src cnt = do
  fd_idx ← fd_of table_size s.files task_fd_idx
  let f = file_at s.files fd_idx
  if has_flag f.flag o_pipe
      then write_pipe s f.inode src cnt
      else if task_fd_idx == 1
      then some (cnt, s)
      else if has_flag f.flag o_trunc
      then write_file s f (λ size. 0) src cnt
      else if has_flag f.flag o_append
      then write_file s f (λ size. size) src cnt
      else some (minus_one, s)
