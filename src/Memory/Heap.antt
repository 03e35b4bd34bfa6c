-- ===== src/Memory/Heap.antt =====
-- The blocks of kernel/src/memory.c: `mem_alloc` and `mem_free` with the arenas and the free lists,
-- and the calls `sys_malloc`, `sys_free`, `kmalloc` and `kfree` on them. A free list is the list of
-- its blocks' addresses. The mutex of a class makes each call one step. `none` is a fault or a failed
-- `assert`.
use a_os.Base.{
  ℕ, zero, suc, ◌+◌, Bool, true, false, Option, none, some, List, [], ◌∷◌, ◌++◌, ◌==◌,
  if◌then◌else◌, ◌>>=◌,
}
use a_os.Base.Words.{add32, sub32}
use a_os.Thread.{erase}
use a_os.Memory.Setup.{pool_init}
use a_os.Memory.{PoolFlags, kernel, user, Words, Mem, page_acquire, page_release}
use a_os.Memory.Blocks.{
  Request, pages, block, mem_request, class, arena2block, block2arena, arena_size,
}

-- `struct arena`, with the class that `p_mem_block` points at.
pub record Arena : Type 0 where
  pub p_mem_block : Option ℕ
  pub cnt : ℕ
  pub is_page_cnt : Bool

-- The pools and page tables, the header of each arena, and the free list of each class.
pub record Heap : Type 0 where
  pub mem : Mem
  pub arena : ℕ → Arena
  pub free_list : ℕ → List ℕ

abbrev pub put_arena : Heap → (a : ℕ) → Arena → Heap
put_arena h a x = record h { arena = λ b. if b == a then x else h.arena b }

abbrev pub put_free : Heap → (c : ℕ) → List ℕ → Heap
put_free h c bs = record h { free_list = λ d. if d == c then bs else h.free_list d }

-- The loop of `mem_acquire` that appends the blocks of a new arena.
unfoldable pub fill : (n : ℕ) → (a block_size idx : ℕ) → List ℕ → List ℕ
fill zero a block_size idx bs = bs
fill (suc n) a block_size idx bs =
    fill n a block_size (idx + 1) (bs ++ arena2block a block_size idx ∷ [])

-- The loop of `mem_release` that takes the blocks of an arena out of the list.
unfoldable pub drain : (n : ℕ) → (a block_size idx : ℕ) → List ℕ → List ℕ
drain zero a block_size idx bs = bs
drain (suc n) a block_size idx bs =
    drain n a block_size (idx + 1) (erase (arena2block a block_size idx) bs)

-- The new arena of `mem_acquire`; `false` is its return of NULL.
unfoldable pub new_arena : PoolFlags → Heap → (c : ℕ) → Option (Bool × Heap)
new_arena pf h c = do
  (page, m) ← page_acquire pf h.mem none 1
  let h' = record h { mem = m }
  some (elim page [
    | none ↦ (false, h')
    | some a ↦ (
      true,
      put_free
          (put_arena h' a (record {
            p_mem_block = some c;
            cnt = (class c).blocks_per_arena;
            is_page_cnt = false;
          }))
          c (fill (class c).blocks_per_arena a (class c).block_size 0 (h.free_list c)),
    )
  ])

-- The first block of a list leaves it; `memset` of the NULL of an empty one is a fault.
unfoldable pub take_block : Heap → (c : ℕ) → List ℕ → Option (Option ℕ × Heap)
take_block h c [] = none
take_block h c (b ∷ bs) =
    let a = block2arena b in
    let x = h.arena a in
    some (some b, put_arena (put_free h c bs) a (record x { cnt = sub32 x.cnt 1 }))

-- `mem_acquire`, with the free list of the class.
unfoldable pub acquire_from : PoolFlags → Heap → (c : ℕ) → List ℕ → Option (Option ℕ × Heap)
acquire_from pf h c (b ∷ bs) = take_block h c (b ∷ bs)
acquire_from pf h c [] = do
  (made, h') ← new_arena pf h c
  let taken = take_block h' c (h'.free_list c)
  if made then taken else some (none, h')

unfoldable pub mem_acquire : PoolFlags → Heap → (c : ℕ) → Option (Option ℕ × Heap)
mem_acquire pf h c = acquire_from pf h c (h.free_list c)

-- `mem_release` for a block of a class; a NULL `p_mem_block` is a fault.
unfoldable pub release_block : PoolFlags → Heap → (vaddr : ℕ) → Option ℕ → Option Heap
release_block pf h vaddr none = none
release_block pf h vaddr (some c) =
    let a = block2arena vaddr in
    let x = h.arena a in
    let n = (class c).blocks_per_arena in
    let bs = h.free_list c ++ vaddr ∷ [] in
    let h' = put_arena (put_free h c bs) a (record x { cnt = add32 x.cnt 1 }) in
    let released : Option Heap = (do
      m ← page_release pf h.mem a 1
      some (record (put_free h' c (drain n a (class c).block_size 0 bs)) { mem = m })) in
    if add32 x.cnt 1 == n then released else some h'

unfoldable pub mem_release : PoolFlags → Heap → (vaddr : ℕ) → Option Heap
mem_release pf h vaddr = release_block pf h vaddr (h.arena (block2arena vaddr)).p_mem_block

-- `mem_alloc`, by what it asks for.
unfoldable pub alloc_request : PoolFlags → Heap → Request → Option (Option ℕ × Heap)
alloc_request pf h (block c) = mem_acquire pf h c
alloc_request pf h (pages n) = do
  (page, m) ← page_acquire pf h.mem none n
  let h' = record h { mem = m }
  some (elim page [
    | none ↦ (none, h')
    | some a ↦ (
      some (add32 a arena_size),
      put_arena h' a (record { p_mem_block = none; cnt = n; is_page_cnt = true }),
    )
  ])

unfoldable pub mem_alloc : PoolFlags → Heap → (size : ℕ) → Option (Option ℕ × Heap)
mem_alloc pf h size = alloc_request pf h (mem_request size)

-- `mem_free`
unfoldable pub mem_free : PoolFlags → Heap → (vaddr : ℕ) → Option Heap
mem_free pf h vaddr =
    let a = block2arena vaddr in
    let x = h.arena a in
    let released : Option Heap = (do
      m ← page_release pf h.mem a x.cnt
      some (record h { mem = m })) in
    if x.is_page_cnt then released else mem_release pf h vaddr

-- The pools of a task, by its page directory.
abbrev pools_of : (pgdir_paddr : ℕ) → PoolFlags
pools_of pgdir_paddr = if 0x00100000 == pgdir_paddr then kernel else user

-- `sys_malloc` and `sys_free`, on the free lists of the calling task.
unfoldable pub sys_malloc : (pgdir_paddr : ℕ) → Heap → (size : ℕ) → Option (Option ℕ × Heap)
sys_malloc pgdir_paddr h size = mem_alloc (pools_of pgdir_paddr) h size

unfoldable pub sys_free : (pgdir_paddr : ℕ) → Heap → (vaddr : ℕ) → Option Heap
sys_free pgdir_paddr h vaddr = mem_free (pools_of pgdir_paddr) h vaddr

-- `kmalloc` and `kfree`, on the kernel's free lists.
unfoldable pub kmalloc : Heap → (size : ℕ) → Option (Option ℕ × Heap)
kmalloc h size = mem_alloc kernel h size

unfoldable pub kfree : Heap → (vaddr : ℕ) → Option Heap
kfree h vaddr = mem_free kernel h vaddr

-- `mem_init`: the pools and the kernel's empty free lists. The storage of the bitmaps, the page tables
-- and the contents of memory are arguments.
unfoldable pub mem_init :
    (mem_total_size : ℕ) → (kp up kv uv : List ℕ) → Words → (arena : ℕ → Arena) → Heap
mem_init mem_total_size kp up kv uv table arena = record {
  mem = pool_init mem_total_size kp up kv uv table;
  arena = arena;
  free_list = λ _. [];
}
