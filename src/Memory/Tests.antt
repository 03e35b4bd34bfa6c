-- ===== src/Memory/Tests.antt =====
-- Small pools for the theorems on kernel/src/memory.c.
use a_os.Base.{
  ℕ, zero, suc, ◌+◌, ◌*◌, ◌<◌, ◌≤◌, ◌≡◌, refl, true, false, if◌then◌else◌, Option, none, some, List,
  [], ◌∷◌, arith, get_or, length, replicate, length-replicate, get_or-replicate,
}
use a_os.Bitmap
use a_os.Bitmap.{Bitmap}
use a_os.Bitmap.Inv.{IsValid}
use a_os.Bitmap.Scan.{Free}
use a_os.Bitmap.Marked.{within}
use a_os.Memory.{
  PPool, VPool, Mem, PoolFlags, kernel, Words, palloc, pfree, vaddr_acquire, vaddr_acquire_at,
  pg_size, page_acquire, v_pool, page_table_remove, addr_v2p, pte_ptr,
}
use a_os.Memory.Pool.{IsPool, Palloc, palloc-Palloc}
use a_os.Memory.Virtual.{IsVPool, Vacquired, vaddr_acquire-Vacquired}
use a_os.Memory.Pages.{Full, page_acquire-Full}
use a_os.Memory.Setup.{Storage, pool_init, pool_init_lem, free_pages}

-- A bitmap of one byte.
abbrev one_byte : ℕ → Bitmap
one_byte x = record { bits = x ∷ []; len = 1 }

one_byte-IsValid : (x : ℕ) → x < 256 → IsValid (one_byte x)
one_byte-IsValid x lt = record { holds = omega arith; small = omega arith; bytes = inside }
  where
    inside : (i : ℕ) → get_or (x ∷ []) i 0 < 256
    inside zero = lt
    inside (suc i) = omega arith

-- Eight frames, of which the third is in use.
abbrev frames : PPool
frames = record { paddr_start = 0x200000; size = 0x8000; paddr_bitmap = one_byte 4 }

frames-IsPool : IsPool frames
frames-IsPool = record {
  valid = one_byte-IsValid 4 (omega arith);
  aligned = omega arith;
  below = omega arith;
}

palloc-Palloc_example : Palloc frames (palloc frames)
palloc-Palloc_example = palloc-Palloc frames frames-IsPool

abbrev frames_after : PPool
frames_after = record frames { paddr_bitmap = one_byte 5 }

first_frame : palloc frames ≡ (some 0x200000, frames_after)
unfolding palloc Bitmap.acquire Bitmap.byte_scan Bitmap.acquire_from Bitmap.bit_scan Bitmap.assign
    Bitmap.raise
first_frame = refl

-- Eight pages, of which the third is in use.
abbrev heap : VPool
heap = record { vaddr_start = 0x400000; vaddr_bitmap = one_byte 4 }

heap-IsVPool : IsVPool heap
heap-IsVPool = record {
  valid = one_byte-IsValid 4 (omega arith);
  aligned = omega arith;
  below = omega arith;
}

vaddr_acquire-Vacquired_example :
    (r : Option ℕ × VPool) × (vaddr_acquire heap none 3 ≡ some r) × Vacquired heap 3 r
vaddr_acquire-Vacquired_example = vaddr_acquire-Vacquired heap 3 heap-IsVPool (omega arith)

first_free : Bitmap.check (one_byte 4) 0 ≡ false
unfolding Bitmap.check Bitmap.test
first_free = refl

second_free : Bitmap.check (one_byte 4) 1 ≡ false
unfolding Bitmap.check Bitmap.test
second_free = refl

third_used : Bitmap.check (one_byte 4) 2 ≡ true
unfolding Bitmap.check Bitmap.test
third_used = refl

two-Free : Free (one_byte 4) 0 2
two-Free zero le lt = first_free
two-Free (suc zero) le lt = second_free
two-Free (suc (suc i)) le lt = absurd (omega arith)

-- A machine whose frames are all in use.
abbrev empty_frames : PPool
empty_frames = record frames { paddr_bitmap = one_byte 0xFF }

abbrev starved : Mem
starved = record {
  k_p_pool = empty_frames;
  u_p_pool = empty_frames;
  k_v_pool = heap;
  u_v_pool = heap;
  table = λ _. 0;
}

empty_frames-IsPool : IsPool empty_frames
empty_frames-IsPool = record {
  valid = one_byte-IsValid 0xFF (omega arith);
  aligned = omega arith;
  below = omega arith;
}

all_used : Full empty_frames
unfolding Bitmap.check Bitmap.test
all_used zero lt = refl
all_used (suc zero) lt = refl
all_used (suc (suc zero)) lt = refl
all_used (suc (suc (suc zero))) lt = refl
all_used (suc (suc (suc (suc zero)))) lt = refl
all_used (suc (suc (suc (suc (suc zero))))) lt = refl
all_used (suc (suc (suc (suc (suc (suc zero)))))) lt = refl
all_used (suc (suc (suc (suc (suc (suc (suc zero))))))) lt = refl
all_used (suc (suc (suc (suc (suc (suc (suc (suc i)))))))) lt = absurd (omega arith)

abbrev heap_after : VPool
heap_after = record heap { vaddr_bitmap = one_byte 5 }

one_page : vaddr_acquire heap none 1 ≡ some (some 0x400000, heap_after)
unfolding vaddr_acquire a_os.Memory.vaddr_acquire_any Bitmap.acquire Bitmap.byte_scan
    Bitmap.acquire_from Bitmap.bit_scan Bitmap.assign Bitmap.raise
one_page = refl

page_acquire-Full_example :
    (m' : Mem) × (page_acquire kernel starved none 1 ≡ some (none, m'))
    × (v_pool kernel m' ≡ heap_after)
    × ((s : ℕ) × ((i : ℕ)
          → Bitmap.check (one_byte 5) i
            ≡ (if within s 1 i then true else Bitmap.check (one_byte 4) i)))
unfolding v_pool a_os.Memory.p_pool
page_acquire-Full_example =
    page_acquire-Full kernel starved 1 heap-IsVPool empty_frames-IsPool (omega arith) all_used
      one_page

abbrev supplied : Mem
supplied = record starved { k_p_pool = frames }

zeros :
    (n : ℕ)
    → 100000 ≤ n
    → Storage 0x2000000 (replicate n 0) (replicate n 0) (replicate n 0) (replicate n 0)
zeros n le =
    let l : length (replicate {A = ℕ} n 0) ≡ n = length-replicate n 0 in
    let f = free_pages 0x2000000 (omega arith) (omega arith) in
    let bytes : (i : ℕ) → get_or (replicate n 0) i 0 < 256 =
      λ i. omega (arith, get_or-replicate {A = ℕ} n i 0) in
    record {
      kp_room = omega (arith, l, f);
      up_room = omega (arith, l, f);
      kv_room = omega (arith, l);
      uv_room = omega (arith, l);
      kp_bytes = bytes;
      up_bytes = bytes;
      kv_bytes = bytes;
      uv_bytes = bytes;
    }

abbrev byte_map : List ℕ
byte_map = replicate 100000 0

-- 32 MB of memory.
pool_init_lem_example :
    let m = pool_init 0x2000000 byte_map byte_map byte_map byte_map (λ _. 0) in
    IsPool m.k_p_pool
    × IsPool m.u_p_pool
    × IsVPool m.k_v_pool
    × IsVPool m.u_v_pool
    × (m.k_p_pool.paddr_start + m.k_p_pool.paddr_bitmap.len * 8 * pg_size ≤ m.u_p_pool.paddr_start)
    × (m.u_p_pool.paddr_start + m.u_p_pool.paddr_bitmap.len * 8 * pg_size ≤ 0x2000000)
pool_init_lem_example =
    pool_init_lem 0x2000000 (omega arith) (omega arith) byte_map byte_map byte_map byte_map (λ _. 0)
      (zeros 100000 (omega arith))
