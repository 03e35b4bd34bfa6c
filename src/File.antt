-- ===== src/File.antt =====
-- kernel/src/file.c: the system's table of open files, the table of each task, and the calls that
-- work on them. The three standard descriptors are entries 0 to 2, which no call hands out. A
-- `struct inode_sys*` of an entry that a pipe uses is a `struct ioqueue*`, so the two are
-- constructors here. The mutex of the table makes each call one step.
pub mod Table
pub mod Laws
pub mod PipeEnds
pub mod Calls
pub mod Unlinking
mod Tests
use a_os.Base.{
  ℕ, zero, suc, ◌+◌, ◌-◌, ◌*◌, ◌/◌, ◌%◌, ◌^◌, bit_and, Bool, true, false, not, ◌&&◌, Option, none,
  some, List, [], ◌∷◌, ltb, leb, ◌==◌, if◌then◌else◌, ◌>>=◌, get_or, set, replicate, length,
}
use a_os.Base.Words.{add32, sub32}

-- What the `inode` of an entry points to: nothing, an inode by its number, or the queue of a pipe.
pub data Handle : Type 0 where
  null : Handle
  inode : ℕ → Handle
  ioq : ℕ → Handle

-- `struct file`
pub record File : Type 0 where
  pub inode : Handle
  pub pos : ℕ
  pub flag : ℕ

-- `fd_table` and the `open_fd` of a task.
pub record Files : Type 0 where
  pub fd_table : List File
  pub open_fd : List ℕ

abbrev pub max_file_open : ℕ
max_file_open = 8192

abbrev pub max_fd_per_task : ℕ
max_fd_per_task = 32

-- -1 in an `int32_t`
abbrev pub no_fd : ℕ
no_fd = 2 ^ 32 - 1

abbrev pub o_trunc : ℕ
o_trunc = 8

abbrev pub o_append : ℕ
o_append = 16

abbrev pub o_pipe : ℕ
o_pipe = 128

abbrev pub is_null : Handle → Bool
is_null Handle.null = true
is_null (Handle.inode n) = false
is_null (Handle.ioq q) = false

abbrev pub empty_file : File
empty_file = record { inode = Handle.null; pos = 0; flag = 0 }

abbrev pub file_at : Files → ℕ → File
file_at s fd = get_or s.fd_table fd empty_file

abbrev pub put_file : Files → ℕ → File → Files
put_file s fd f = record s { fd_table = set s.fd_table fd f }

-- `while (i < end) { if (found(i)) break; i++; }`, with `fuel` indices left.
unfoldable pub scan : (found : ℕ → Bool) (fuel i : ℕ) → ℕ
scan found zero i = i
scan found (suc fuel) i = let rest = scan found fuel (i + 1) in if found i then i else rest

-- An entry without an inode.
abbrev pub free_entry : Files → ℕ → Bool
free_entry s i = is_null (file_at s i).inode

-- `fd_acquire`, where `table_size` is MAX_FILE_OPEN.
unfoldable pub fd_acquire : (table_size : ℕ) → Files → Handle → (flag : ℕ) → Option ℕ × Files
fd_acquire table_size s handle flag =
    let fd_idx = scan (free_entry s) (table_size - 3) 3 in
    if table_size == fd_idx
    then (none, s)
    else (some fd_idx, put_file s fd_idx (record { inode = handle; pos = 0; flag = flag % 256 }))

unfoldable pub fd_release : Files → ℕ → Files
fd_release s fd_idx = put_file s fd_idx (record (file_at s fd_idx) { inode = Handle.null })

-- A descriptor of the task that is not in use.
abbrev pub free_task_fd : Files → ℕ → Bool
free_task_fd s i = get_or s.open_fd i 0 == no_fd

unfoldable pub task_install : Files → (fd_idx : ℕ) → Option ℕ × Files
task_install s fd_idx =
    let i = scan (free_task_fd s) (max_fd_per_task - 3) 3 in
    if max_fd_per_task == i
    then (none, s)
    else (some i, record s { open_fd = set s.open_fd i fd_idx })

unfoldable pub task_uninstall : Files → ℕ → Files
task_uninstall s task_fd_idx = record s { open_fd = set s.open_fd task_fd_idx no_fd }

-- `sys_open` once the inode is open: an entry, then a descriptor of the task; -1 is `none`.
unfoldable pub install_on : Option ℕ → Files → Option ℕ × Files
install_on none s = (none, s)
install_on (some fd_idx) s = task_install s fd_idx

unfoldable pub open_inode : (table_size : ℕ) → Files → Handle → (flag : ℕ) → Option ℕ × Files
open_inode table_size s handle flag =
    let (r, s') = fd_acquire table_size s handle flag in install_on r s'

abbrev pub has_flag : (flag bit : ℕ) → Bool
has_flag flag bit = not (bit_and flag bit == 0)

-- The calls on inodes and queues that a close makes.
pub data Closing : Type 0 where
  nothing : Closing
  inode_close : Handle → Closing
  ioq_deinit : Handle → Closing

-- The entry that a descriptor of the task stands for; an index past the table is `none`.
unfoldable pub fd_of : (table_size : ℕ) → Files → (task_fd_idx : ℕ) → Option ℕ
fd_of table_size s task_fd_idx =
    let fd_idx = get_or s.open_fd task_fd_idx no_fd in
    if ltb fd_idx table_size then some fd_idx else none

-- The pipe's end: `pos` counts the descriptors that are open on it.
unfoldable pub close_pipe : Files → (fd_idx : ℕ) → Closing × Files
close_pipe s fd_idx =
    let f = file_at s fd_idx in
    let s' = put_file s fd_idx (record f { pos = sub32 f.pos 1 }) in
    if sub32 f.pos 1 == 0
    then (Closing.ioq_deinit f.inode, fd_release s' fd_idx)
    else (Closing.nothing, s')

unfoldable pub close_file : Files → (fd_idx : ℕ) → Closing × Files
close_file s fd_idx =
    let f = file_at s fd_idx in
    if has_flag f.flag o_pipe
    then close_pipe s fd_idx
    else (Closing.inode_close f.inode, fd_release s fd_idx)

unfoldable pub sys_close : (table_size : ℕ) → Files → (task_fd_idx : ℕ) → Option (Closing × Files)
sys_close table_size s task_fd_idx = do
  fd_idx ← fd_of table_size s task_fd_idx
  let (c, s') = close_file s fd_idx in some (c, task_uninstall s' task_fd_idx)

-- `enum whence`; any other value is `invalid`.
pub data Whence : Type 0 where
  seek_set : Whence
  seek_cur : Whence
  seek_end : Whence
  invalid : Whence

-- The new position, from the old one and the size of the inode.
abbrev pub seek : (wh : Whence) (pos size offset : ℕ) → Option ℕ
seek Whence.seek_set pos size offset = some offset
seek Whence.seek_cur pos size offset = some (add32 pos offset)
seek Whence.seek_end pos size offset = some (add32 size offset)
seek Whence.invalid pos size offset = none

-- `sys_lseek` with the size of the entry's inode: the position, or -1 as `none`. The outer `none` is an
-- index past the table.
unfoldable pub sys_lseek :
    (table_size : ℕ)
    → Files
    → (task_fd_idx offset : ℕ) → Whence
    → (size : ℕ) → Option (Option ℕ × Files)
sys_lseek table_size s task_fd_idx offset wh size = do
  fd_idx ← fd_of table_size s task_fd_idx
  let f = file_at s fd_idx in
      elim (seek wh f.pos size offset) [
        | none ↦ some (none, s)
        | some p ↦ some (some p, put_file s fd_idx (record f { pos = p }))
      ]

-- What `sys_pipe` stores to `fd[0]` and `fd[1]`; -1 is `none`.
unfoldable pub install_pair : Files → (fd_idx : ℕ) → (Option ℕ × Option ℕ) × Files
install_pair s fd_idx =
    let (a, s1) = task_install s fd_idx in let (b, s2) = task_install s1 fd_idx in ((a, b), s2)

-- `sys_pipe` with the answer of `fd_acquire`.
unfoldable pub pipe_on : Option ℕ → Files → Option (Option ℕ × Option ℕ) × Files
pipe_on none s = (none, s)
pipe_on (some fd_idx) s =
    let (pair, s') =
      install_pair (put_file s fd_idx (record (file_at s fd_idx) { pos = 2 })) fd_idx in
    (some pair, s')

-- `sys_pipe` once its queue `q` is there. `none` is the return value -1.
unfoldable pub sys_pipe : (table_size : ℕ) → Files → (q : ℕ) → Option (Option ℕ × Option ℕ) × Files
sys_pipe table_size s q =
    let (r, s') = fd_acquire table_size s (Handle.ioq q) o_pipe in pipe_on r s'

unfoldable pub sys_dup2 : Files → (oldfd newfd : ℕ) → Files
sys_dup2 s oldfd newfd =
    let fd = if ltb newfd 3 then newfd else get_or s.open_fd newfd no_fd in
    record s { open_fd = set s.open_fd oldfd fd }

-- `file_init`
unfoldable pub file_init : ℕ → List File → List File
file_init zero table = table
file_init (suc n) [] = []
file_init (suc n) (f ∷ table) = record f { inode = Handle.null } ∷ file_init n table
