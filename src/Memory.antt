-- ===== src/Memory.antt =====
-- kernel/src/memory.c: physical frames, virtual pages, page tables, and the classes of small
-- blocks. A NULL address is `none`, and `none` of a whole computation is a failed `assert`. The
-- mutexes make each pool operation one step, so they are not part of the state.
pub mod Pool
pub mod Virtual
pub mod Translation
pub mod Paging
pub mod Pages
pub mod Setup
pub mod Blocks
pub mod Heap
pub mod Rows
pub mod Malloc
mod Tests
use a_os.Base.{
  ℕ, zero, suc, ◌+◌, ◌-◌, ◌*◌, ◌/◌, ◌%◌, ◌^◌, bit_and, bit_or, Bool, true, false, ◌&&◌, Option,
  none, some, ltb, leb, ◌==◌, if◌then◌else◌,
}
use a_os.Base.Words.{add32, sub32, mul32}
use a_os.Bitmap
use a_os.Bitmap.{Bitmap}

abbrev pub pg_size : ℕ
pg_size = 4096

-- PG_US_U | PG_RW_W | PG_P_1
abbrev pub pg_flags : ℕ
pg_flags = 7

-- `struct p_pool` and `struct v_pool`.
pub record PPool : Type 0 where
  pub paddr_start : ℕ
  pub size : ℕ
  pub paddr_bitmap : Bitmap

pub record VPool : Type 0 where
  pub vaddr_start : ℕ
  pub vaddr_bitmap : Bitmap

-- `palloc`
pub palloc : PPool → Option ℕ × PPool
palloc pp =
    let (idx, b) = Bitmap.acquire pp.paddr_bitmap 1 in
    let pp' = record pp { paddr_bitmap = b } in
    elim idx [ none ↦ (none, pp') | some i ↦ (some (add32 pp.paddr_start (mul32 i pg_size)), pp') ]

-- `pfree`
pub pfree : PPool → ℕ → Option PPool
pfree pp paddr = elim (Bitmap.release pp.paddr_bitmap (sub32 paddr pp.paddr_start / pg_size) 1) [
  | none ↦ none
  | some b ↦ some (record pp { paddr_bitmap = b })
]

-- The loop of `vaddr_acquire` at a fixed address: it marks page after page, and stops at the
-- first page in use, with the marks that it has made.
pub claim : ℕ → Bitmap → ℕ → Bool × Bitmap
claim zero b idx = (true, b)
claim (suc n) b idx =
    let rest = claim n (Bitmap.assign b idx true) (idx + 1) in
    if Bitmap.check b idx then (false, b) else rest

-- `vaddr_acquire` with `vaddr` NULL.
pub vaddr_acquire_any : VPool → ℕ → Option ℕ × VPool
vaddr_acquire_any vp pg_cnt =
    let (idx, b) = Bitmap.acquire vp.vaddr_bitmap pg_cnt in
    let vp' = record vp { vaddr_bitmap = b } in
    elim idx [ none ↦ (none, vp') | some i ↦ (some (add32 vp.vaddr_start (mul32 i pg_size)), vp') ]

-- `vaddr_acquire` at a given address.
pub vaddr_acquire_at : VPool → (vaddr pg_cnt : ℕ) → Option (Option ℕ × VPool)
vaddr_acquire_at vp vaddr pg_cnt =
    let idx = sub32 vaddr vp.vaddr_start / pg_size in
    let (done, b) = claim pg_cnt vp.vaddr_bitmap idx in
    if leb vp.vaddr_start vaddr
    then (if leb vp.vaddr_bitmap.len ((idx + pg_cnt - 1) / 8)
        then some (none, vp)
        else some (if done then some vaddr else none, record vp { vaddr_bitmap = b }))
    else none

pub vaddr_acquire : VPool → Option ℕ → ℕ → Option (Option ℕ × VPool)
vaddr_acquire vp none pg_cnt = some (vaddr_acquire_any vp pg_cnt)
vaddr_acquire vp (some vaddr) pg_cnt = vaddr_acquire_at vp vaddr pg_cnt

-- `vaddr_release`
pub vaddr_release : VPool → (vaddr pg_cnt : ℕ) → Option VPool
vaddr_release vp vaddr pg_cnt =
    elim (Bitmap.release vp.vaddr_bitmap (sub32 vaddr vp.vaddr_start / pg_size) pg_cnt) [
      | none ↦ none
      | some b ↦ some (record vp { vaddr_bitmap = b })
    ]

-- The macros PDE_IDX and PTE_IDX.
pub pde_idx : ℕ → ℕ
pde_idx addr = bit_and addr 0xFFC00000 / 2 ^ 22

pub pte_idx : ℕ → ℕ
pte_idx addr = bit_and addr 0x003FF000 / 2 ^ 12

-- `pde_ptr` and `pte_ptr`: where the page tables map themselves.
pub pde_ptr : ℕ → ℕ
pde_ptr vaddr = add32 0xfffff000 (pde_idx vaddr * 4)

pub pte_ptr : ℕ → ℕ
pte_ptr vaddr = add32 (add32 0xffc00000 (bit_and vaddr 0xffc00000 / 2 ^ 10)) (pte_idx vaddr * 4)

-- The words of the page tables, by the addresses that `pde_ptr` and `pte_ptr` give.
abbrev pub Words : Type 0
Words = ℕ → ℕ

abbrev pub store : Words → ℕ → ℕ → Words
store w a v b = if a == b then v else w b

-- `memset(page, 0, PG_SIZE)` on the words of one page.
abbrev clear_page : Words → ℕ → Words
clear_page w page a = if leb page a && ltb a (page + pg_size) then 0 else w a

-- `addr_v2p`
pub addr_v2p : Words → ℕ → ℕ
addr_v2p w vaddr = add32 (bit_and (w (pte_ptr vaddr)) 0xfffff000) (bit_and vaddr 0x00000fff)

-- The two physical pools, the kernel's virtual pool, that of the current task, and the tables.
pub record Mem : Type 0 where
  pub k_p_pool : PPool
  pub u_p_pool : PPool
  pub k_v_pool : VPool
  pub u_v_pool : VPool
  pub table : Words

pub data PoolFlags : Type 0 where
  kernel user : PoolFlags

pub p_pool : PoolFlags → Mem → PPool
p_pool kernel m = m.k_p_pool
p_pool user m = m.u_p_pool

pub set_p_pool : PoolFlags → Mem → PPool → Mem
set_p_pool kernel m pp = record m { k_p_pool = pp }
set_p_pool user m pp = record m { u_p_pool = pp }

pub v_pool : PoolFlags → Mem → VPool
v_pool kernel m = m.k_v_pool
v_pool user m = m.u_v_pool

pub set_v_pool : PoolFlags → Mem → VPool → Mem
set_v_pool kernel m vp = record m { k_v_pool = vp }
set_v_pool user m vp = record m { u_v_pool = vp }

-- The frame of a new page table, with NULL as the address 0.
abbrev pub table_frame : Option ℕ → ℕ
table_frame none = 0
table_frame (some paddr) = paddr

-- The branch of `page_table_add` for a directory entry that is not present. The C code does not
-- look at a NULL frame, which it reads as the address 0.
pub pde_create : Mem → ℕ → Mem
pde_create m vaddr =
    let (frame, kp) = palloc m.k_p_pool in
    let pt_paddr = table_frame frame in
    record m {
      k_p_pool = kp;
      table =
          clear_page (store m.table (pde_ptr vaddr) (bit_or pt_paddr pg_flags))
            (bit_and (pte_ptr vaddr) 0xfffff000);
    }

-- `page_table_add`
pub page_table_add : Mem → (vaddr paddr : ℕ) → Mem
page_table_add m vaddr paddr =
    let m' = if bit_and (m.table (pde_ptr vaddr)) 1 == 0 then pde_create m vaddr else m in
    record m' { table = store m'.table (pte_ptr vaddr) (bit_or paddr pg_flags) }

-- `page_table_remove`
pub page_table_remove : Mem → ℕ → Mem
page_table_remove m vaddr = record m {
  table = store m.table (pte_ptr vaddr) (bit_and (m.table (pte_ptr vaddr)) (2 ^ 32 - 1 - 1));
}

-- The loop of `page_acquire`; `false` is its return of NULL in the middle.
pub map_pages : ℕ → PoolFlags → Mem → ℕ → Bool × Mem
map_pages zero pf m vaddr = (true, m)
map_pages (suc n) pf m vaddr =
    let (frame, pp) = palloc (p_pool pf m) in
    let m' = set_p_pool pf m pp in
    elim frame [
      | none ↦ (false, m')
      | some paddr ↦ map_pages n pf (page_table_add m' vaddr paddr) (add32 vaddr pg_size)
    ]

-- `page_acquire`
pub page_acquire : PoolFlags → Mem → Option ℕ → ℕ → Option (Option ℕ × Mem)
page_acquire pf m vaddr pg_cnt = elim (vaddr_acquire (v_pool pf m) vaddr pg_cnt) [
  | none ↦ none
  | some (none, vp) ↦ some (none, set_v_pool pf m vp)
  | some (some start, vp) ↦
      let (done, m') = map_pages pg_cnt pf (set_v_pool pf m vp) start in
      some (if done then some start else none, m')
]

-- The loop of `page_release`.
unmap_pages : ℕ → PoolFlags → Mem → ℕ → Option Mem
unmap_pages zero pf m vaddr = some m
unmap_pages (suc n) pf m vaddr = elim (pfree (p_pool pf m) (addr_v2p m.table vaddr)) [
  | none ↦ none
  | some pp ↦ unmap_pages n pf (page_table_remove (set_p_pool pf m pp) vaddr) (add32 vaddr pg_size)
]

-- `page_release`
pub page_release : PoolFlags → Mem → (vaddr pg_cnt : ℕ) → Option Mem
page_release pf m vaddr pg_cnt = elim (unmap_pages pg_cnt pf m vaddr) [
  | none ↦ none
  | some m' ↦ elim (vaddr_release (v_pool pf m') vaddr pg_cnt) [
    | none ↦ none
    | some vp ↦ some (set_v_pool pf m' vp)
  ]
]

-- `page_malloc` and `page_free`, for the current task.
pub page_malloc : PoolFlags → Mem → Option ℕ → (pg_cnt : ℕ) → Option (Option ℕ × Mem)
page_malloc pf m vaddr pg_cnt = page_acquire pf m vaddr pg_cnt

pub page_free : PoolFlags → Mem → (vaddr pg_cnt : ℕ) → Option Mem
page_free pf m vaddr pg_cnt = page_release pf m vaddr pg_cnt
