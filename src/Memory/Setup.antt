-- ===== src/Memory/Setup.antt =====
-- kernel/src/memory.c, `pool_init`: how the physical memory, the two heaps and the memory of their
-- bitmaps are divided. The storage of each bitmap is an argument, from its base address on.
use a_os.Base.{
  ℕ, ◌+◌, ◌-◌, ◌*◌, ◌/◌, ◌^◌, ◌<◌, ◌≤◌, ◌≡◌, refl, List, arith, ltb, if◌then◌else◌, length, get_or,
}
use a_os.Base.Words.{add32, sub32, mul32}
use a_os.Bitmap
use a_os.Bitmap.{Bitmap}
use a_os.Bitmap.Fresh.{reset-fresh}
use a_os.Memory.{Mem, Words, pg_size}
use a_os.Memory.Pool.{IsPool}
use a_os.Memory.Virtual.{IsVPool}

abbrev paddr_bitmap_base : ℕ
paddr_bitmap_base = 0xC005E000

abbrev vaddr_bitmap_base : ℕ
vaddr_bitmap_base = 0xC007E000

abbrev k_heap_start : ℕ
k_heap_start = 0xC0100000

abbrev u_heap_start : ℕ
u_heap_start = 0x00400000

-- The page tables of the kernel and the first megabyte.
abbrev used_mem : ℕ
used_mem = pg_size * 256 + 0x100000

pub kernel_free_pages : ℕ → ℕ
kernel_free_pages mem_total_size =
    let half = sub32 mem_total_size used_mem / pg_size / 2 in
    if ltb 0x40000 half then 0x40000 else half

pub user_free_pages : ℕ → ℕ
user_free_pages mem_total_size =
    sub32 (sub32 mem_total_size used_mem / pg_size) (kernel_free_pages mem_total_size)

abbrev k_heap_pages : ℕ
k_heap_pages = (0xFFFFFFFF - k_heap_start + 1) / pg_size

abbrev u_heap_pages : ℕ
u_heap_pages = (0xC0000000 - u_heap_start) / pg_size

-- A bitmap over its storage, with every bit clear.
fresh : List ℕ → ℕ → Bitmap
fresh storage len = Bitmap.reset (Bitmap.init storage len)

-- The four pools of `pool_init`, and the page tables as they were.
pub pool_init : (mem_total_size : ℕ) → (kp up kv uv : List ℕ) → Words → Mem
pool_init mem_total_size kp up kv uv table =
    let k = kernel_free_pages mem_total_size in
    let u = user_free_pages mem_total_size in
    record {
      k_p_pool = record {
        paddr_start = used_mem;
        size = mul32 k pg_size;
        paddr_bitmap = fresh kp (k / 8);
      };
      u_p_pool = record {
        paddr_start = add32 used_mem (mul32 k pg_size);
        size = mul32 u pg_size;
        paddr_bitmap = fresh up (u / 8);
      };
      k_v_pool = record { vaddr_start = k_heap_start; vaddr_bitmap = fresh kv (k_heap_pages / 8) };
      u_v_pool = record { vaddr_start = u_heap_start; vaddr_bitmap = fresh uv (u_heap_pages / 8) };
      table = table;
    }

-- The storage of the four bitmaps holds them.
pub record Storage (mem_total_size : ℕ) (kp up kv uv : List ℕ) : Type 0 where
  pub kp_room : kernel_free_pages mem_total_size / 8 ≤ length kp
  pub up_room : user_free_pages mem_total_size / 8 ≤ length up
  pub kv_room : k_heap_pages / 8 ≤ length kv
  pub uv_room : u_heap_pages / 8 ≤ length uv
  pub kp_bytes : (i : ℕ) → get_or kp i 0 < 256
  pub up_bytes : (i : ℕ) → get_or up i 0 < 256
  pub kv_bytes : (i : ℕ) → get_or kv i 0 < 256
  pub uv_bytes : (i : ℕ) → get_or uv i 0 < 256

module _ (mem_total_size : ℕ) (enough : used_mem ≤ mem_total_size)
    (word : mem_total_size < 2 ^ 32) where
  -- The frames divide what lies behind the memory in use.
  pub free_pages :
      (used_mem + (kernel_free_pages mem_total_size + user_free_pages mem_total_size) * pg_size
        ≤ mem_total_size)
      × (kernel_free_pages mem_total_size ≤ 0x40000)
      × (kernel_free_pages mem_total_size ≤ user_free_pages mem_total_size)
  unfolding kernel_free_pages user_free_pages
  free_pages = ground arith

  -- On a memory of at least the size in use and below 4 GB, the bitmaps of the frames end below
  -- those of the heaps, and these below 0xC00A0000.
  bitmaps_fit :
      (paddr_bitmap_base + kernel_free_pages mem_total_size / 8 + user_free_pages mem_total_size / 8
        ≤ vaddr_bitmap_base)
      × (vaddr_bitmap_base + k_heap_pages / 8 + u_heap_pages / 8 ≤ 0xC00A0000)
  bitmaps_fit = let f = free_pages in (omega (arith, f), omega arith)

  -- On a memory of at least the size in use and below 4 GB, with storage for its bitmaps,
  -- `pool_init` leaves four well-formed pools; the kernel's frames lie below the user's, and the
  -- user's inside the memory.
  pub pool_init_lem :
      (kp up kv uv : List ℕ) (table : Words)
      → Storage mem_total_size kp up kv uv
      → let m = pool_init mem_total_size kp up kv uv table in
        IsPool m.k_p_pool
        × IsPool m.u_p_pool
        × IsVPool m.k_v_pool
        × IsVPool m.u_v_pool
        × (m.k_p_pool.paddr_start + m.k_p_pool.paddr_bitmap.len * 8 * pg_size
            ≤ m.u_p_pool.paddr_start)
        × (m.u_p_pool.paddr_start + m.u_p_pool.paddr_bitmap.len * 8 * pg_size ≤ mem_total_size)
  unfolding pool_init fresh
  pool_init_lem kp up kv uv table s =
      let f = free_pages in
      let k = kernel_free_pages mem_total_size in
      let u = user_free_pages mem_total_size in
      let a = reset-fresh kp (k / 8) s.kp_bytes s.kp_room (omega (arith, f)) in
      let b = reset-fresh up (u / 8) s.up_bytes s.up_room (omega (arith, f)) in
      let c = reset-fresh kv (k_heap_pages / 8) s.kv_bytes s.kv_room (omega arith) in
      let d = reset-fresh uv (u_heap_pages / 8) s.uv_bytes s.uv_room (omega arith) in
      (
        record { valid = a.0; aligned = omega arith; below = omega (arith, f, a.1) },
        record { valid = b.0; aligned = omega (arith, f); below = omega (arith, f, b.1) },
        record { valid = c.0; aligned = omega arith; below = omega (arith, c.1) },
        record { valid = d.0; aligned = omega arith; below = omega (arith, d.1) },
        omega (arith, f, a.1),
        omega (arith, f, b.1),
      )

-- The last page of the kernel heap is the one on which the page directory maps itself.
heap_end_is_directory : k_heap_start + (k_heap_pages - 1) * pg_size ≡ 0xfffff000
heap_end_is_directory = refl
