-- ===== src/Process/Images.antt =====
-- The resources of a process in kernel/src/process.c: `page_delete`, which gives the pages of its user
-- space back, the descriptors that `sys_exit` closes and `process_copy` shares, and `vaddr_create`.
use a_os.Base.{
  ℕ, zero, suc, ◌+◌, ◌-◌, ◌*◌, ◌/◌, bit_and, Option, none, some, List, [], ◌∷◌, ◌==◌, if◌then◌else◌,
  ◌>>=◌, get_or, set,
}
use a_os.Base.Words.{add32, mul32}
use a_os.Bitmap
use a_os.Bitmap.{Bitmap, byte, check}
use a_os.Memory.{VPool, Mem, PoolFlags, pg_size, store, pfree, page_release}
use a_os.Inode.{inode_get_ptn}
use a_os.Inode.Table.{counted}
use a_os.Dir.{FileSystem, with_ptn}
use a_os.File.{
  Handle, Files, Closing, file_at, put_file, no_fd, has_flag, o_pipe, sys_close, max_fd_per_task,
}

-- The eight bits of one byte of the bitmap of virtual pages: each page in use is freed.
unfoldable pub delete_bits : (n : ℕ) → Mem → (idx_byte idx_bit : ℕ) → Option Mem
delete_bits zero m idx_byte idx_bit = some m
delete_bits (suc n) m idx_byte idx_bit =
    let idx = idx_byte * 8 + idx_bit in
    let vaddr = add32 m.u_v_pool.vaddr_start (mul32 idx pg_size) in
    let next = delete_bits n m idx_byte (idx_bit + 1) in
    let freed : Option Mem = (do
      m' ← page_release PoolFlags.user m vaddr 1
      delete_bits n m' idx_byte (idx_bit + 1)) in
    if check m.u_v_pool.vaddr_bitmap idx then freed else next

unfoldable pub delete_bytes : (n : ℕ) → Mem → (idx_byte : ℕ) → Option Mem
delete_bytes zero m idx_byte = some m
delete_bytes (suc n) m idx_byte =
    let next = delete_bytes n m (idx_byte + 1) in
    let deleted : Option Mem = (do
      m' ← delete_bits 8 m idx_byte 0
      delete_bytes n m' (idx_byte + 1)) in
    if 0 == byte m.u_v_pool.vaddr_bitmap idx_byte then next else deleted

-- `pgdir_delete` of kernel/src/memory.c, from entry `idx` of the page directory on.
unfoldable pub pgdir_delete : (n : ℕ) → Mem → (idx : ℕ) → Option Mem
pgdir_delete zero m idx = some m
pgdir_delete (suc n) m idx =
    let addr = m.table (add32 0xFFFFF000 (4 * idx)) in
    let next = pgdir_delete n m (idx + 1) in
    let freed : Option Mem = (do
      pp ← pfree m.k_p_pool addr
      pgdir_delete n
          (record m { k_p_pool = pp; table = store m.table (add32 0xFFFFF000 (4 * idx)) 0 })
          (idx + 1)) in
    if bit_and addr 1 == 0 then next else freed

-- `page_delete`, on the page table and the virtual pool of the task.
unfoldable pub page_delete : Mem → Option Mem
page_delete m = do m' ← delete_bytes m.u_v_pool.vaddr_bitmap.len m 0; pgdir_delete 768 m' 0

-- The loop of `sys_exit` that closes what is open, with the calls on inodes and queues that it makes.
unfoldable pub close_all : (table_size n : ℕ) → Files → (fd : ℕ) → Option (List Closing × Files)
close_all table_size zero s fd = some ([], s)
close_all table_size (suc n) s fd =
    let next = close_all table_size n s (fd + 1) in
    let closed : Option (List Closing × Files) = (do
      (c, s') ← sys_close table_size s fd
      (cs, s'') ← close_all table_size n s' (fd + 1)
      some (c ∷ cs, s'')) in
    if get_or s.open_fd fd no_fd == no_fd then next else closed

unfoldable pub close_fds : (table_size : ℕ) → Files → Option (List Closing × Files)
close_fds table_size s = close_all table_size (max_fd_per_task - 3) s 3

-- One more reference to the inode or the queue of an entry.
unfoldable pub share_inode : FileSystem → Handle → Option FileSystem
share_inode fs Handle.null = none
share_inode fs (Handle.inode i_no) =
    let shared : Option FileSystem = (do
      v ← inode_get_ptn fs.ptns i_no
      some (with_ptn fs i_no (record v { open_inodes = counted i_no v.open_inodes }))) in
    if i_no == 0
    then some (record fs { root = record fs.root { open_cnt = add32 fs.root.open_cnt 1 } })
    else shared
share_inode fs (Handle.ioq q) = none

unfoldable pub share_entry : FileSystem → Files → (fd_idx : ℕ) → Option (FileSystem × Files)
share_entry fs s fd_idx =
    let f = file_at s fd_idx in
    let inode : Option (FileSystem × Files) = (do fs' ← share_inode fs f.inode; some (fs', s)) in
    if has_flag f.flag o_pipe
    then some (fs, put_file s fd_idx (record f { pos = add32 f.pos 1 }))
    else inode

-- The loop of `process_copy` over the descriptors of the parent, `s.open_fd`: those of the child.
unfoldable pub copy_fds :
    (n : ℕ)
    → FileSystem
    → Files
    → (child_fd : List ℕ) → (fd : ℕ) → Option (List ℕ × FileSystem × Files)
copy_fds zero fs s child_fd fd = some (child_fd, fs, s)
copy_fds (suc n) fs s child_fd fd =
    let fd_idx = get_or s.open_fd fd no_fd in
    let next = copy_fds n fs s child_fd (fd + 1) in
    let shared : Option (List ℕ × FileSystem × Files) = (do
      (fs', s') ← share_entry fs s fd_idx
      copy_fds n fs' s' (set child_fd fd fd_idx) (fd + 1)) in
    if fd_idx == no_fd then next else shared

abbrev pub u_vaddr_start : ℕ
u_vaddr_start = 0x00010000

-- The virtual pool that `vaddr_create` makes over the memory of its bitmap.
unfoldable pub vaddr_create : (bits : List ℕ) → VPool
vaddr_create bits = record {
  vaddr_start = u_vaddr_start;
  vaddr_bitmap = Bitmap.reset (Bitmap.init bits ((0xC0000000 - u_vaddr_start) / pg_size / 8));
}
