-- ===== src/Memory/Malloc/Tests.antt =====
-- Tests of `mem_alloc` and `mem_free` in kernel/src/memory.c.
use a_os.Base.{ℕ, ◌+◌, ◌≡◌, refl, false, Option, none, some, [], ◌∷◌, arith}
use a_os.Bitmap
use a_os.Memory.{PoolFlags, kernel, PPool, VPool, Mem, page_acquire, page_release}
use a_os.Memory.Blocks.{class, mem_request, block, arena_size, mem_block_init, block_descs}
use a_os.Memory.Rows.{row}
use a_os.Memory.Heap.{Heap, mem_alloc, mem_free}
use a_os.Memory.Malloc.{mem_free-alloc}

-- Sixteen free frames and eight free pages.
abbrev machine : Mem
machine = record {
  k_p_pool = record {
    paddr_start = 0x200000;
    size = 0x10000;
    paddr_bitmap = record { bits = 0 ∷ 0 ∷ []; len = 2 };
  };
  u_p_pool = record {
    paddr_start = 0x300000;
    size = 0x8000;
    paddr_bitmap = record { bits = 0 ∷ []; len = 1 };
  };
  k_v_pool = record { vaddr_start = 0xC0100000; vaddr_bitmap = record { bits = 0 ∷ []; len = 1 } };
  u_v_pool = record { vaddr_start = 0x400000; vaddr_bitmap = record { bits = 0 ∷ []; len = 1 } };
  table = λ _. 0;
}

abbrev bare : Heap
bare = record {
  mem = machine;
  arena = λ _. record { p_mem_block = none; cnt = 0; is_page_cnt = false };
  free_list = λ _. [];
}

-- The memory of a result.
abbrev or_machine : Option (Option ℕ × Mem) → Mem
or_machine none = machine
or_machine (some r) = r.1

abbrev or_bare : Option Mem → Mem
or_bare none = machine
or_bare (some m) = m

abbrev mapped : Mem
mapped = or_machine (page_acquire kernel machine none 1)

abbrev unmapped : Mem
unmapped = or_bare (page_release kernel mapped 0xC0100000 1)

one_mapped : page_acquire kernel machine none 1 ≡ some (some 0xC0100000, mapped)
unfolding page_acquire a_os.Memory.vaddr_acquire a_os.Memory.vaddr_acquire_any a_os.Memory.v_pool
    a_os.Memory.set_v_pool a_os.Memory.map_pages a_os.Memory.palloc a_os.Memory.p_pool
    Bitmap.acquire Bitmap.byte_scan Bitmap.acquire_from Bitmap.bit_scan
one_mapped = refl

one_unmapped : page_release kernel mapped 0xC0100000 1 ≡ some unmapped
unfolding page_acquire a_os.Memory.vaddr_acquire a_os.Memory.vaddr_acquire_any a_os.Memory.v_pool
    a_os.Memory.set_v_pool a_os.Memory.map_pages a_os.Memory.palloc a_os.Memory.p_pool
    Bitmap.acquire Bitmap.byte_scan Bitmap.acquire_from Bitmap.bit_scan page_release
    a_os.Memory.unmap_pages a_os.Memory.pfree a_os.Memory.vaddr_release a_os.Memory.addr_v2p
    a_os.Memory.page_table_add a_os.Memory.page_table_remove a_os.Memory.pde_create
    a_os.Memory.pde_idx a_os.Memory.pde_ptr a_os.Memory.pte_idx a_os.Memory.pte_ptr
    a_os.Memory.set_p_pool Bitmap.release Bitmap.check Bitmap.test Bitmap.assign Bitmap.clear
    Bitmap.mark Bitmap.raise
one_unmapped = refl

hundred : mem_request 100 ≡ block 3
unfolding mem_request a_os.Memory.Blocks.class_scan mem_block_init block_descs
hundred = refl

mem_free-alloc_example :
    (h1 : Heap) × (h2 : Heap) × (mem_alloc kernel bare 100
      ≡ some (some (0xC0100000 + arena_size), h1))
    × (h1.mem ≡ mapped)
    × ((0xC0100000 + arena_size) ∷ h1.free_list 3
        ≡ row (class 3).blocks_per_arena 0xC0100000 (class 3).block_size 0)
    × (mem_free kernel h1 (0xC0100000 + arena_size) ≡ some h2)
    × (h2.mem ≡ unmapped)
    × ((d : ℕ) → h2.free_list d ≡ bare.free_list d)
mem_free-alloc_example =
    mem_free-alloc kernel bare 100 3 0xC0100000 mapped unmapped (omega arith) (omega arith) hundred
      (omega arith) refl one_mapped one_unmapped
