-- ===== src/Memory/Malloc.antt =====
-- `mem_alloc` and `mem_free` of small blocks in kernel/src/memory.c.
mod Tests
use a_os.Base.{
  ℕ, zero, suc, ◌+◌, ◌*◌, ◌/◌, ◌%◌, ◌^◌, ◌<◌, ◌≤◌, ◌≡◌, ◌≢◌, refl, sym, ap, ◌∙◌, Bool, true, false,
  Option, none, some, List, [], ◌∷◌, ◌++◌, ◌==◌, if◌then◌else◌, length, arith, Bool-cases, inl, inr,
}
use a_os.Base.Words.{add32, sub32}
use a_os.Thread.{erase}
use a_os.Memory.{PoolFlags, Mem, pg_size, page_acquire, page_release}
use a_os.Memory.Blocks.{
  block, mem_request, class, arena2block, block2arena, arena_size, mem_block_cnt, mem_block_init,
  block_descs, block_fits, arena_layout,
}
use a_os.Memory.Rows.{row, fill-row, drain-row, erase-last, some_blocks, first_apart, length-row}
use a_os.Memory.Heap.{
  Arena, Heap, put_arena, put_free, fill, drain, new_arena, take_block, acquire_from, mem_acquire,
  release_block, mem_release, alloc_request, mem_alloc, mem_free,
}

abbrev arena_of : (c n : ℕ) → Arena
arena_of c n = record { p_mem_block = some c; cnt = n; is_page_cnt = false }

-- The states behind the new arena and behind the block taken from it.
abbrev stocked : Heap → (c a : ℕ) → Mem → (n : ℕ) → Heap
stocked h c a m n =
    put_free (put_arena (record h { mem = m }) a (arena_of c (suc n))) c
      (row (suc n) a (class c).block_size 0)

abbrev left : Heap → (c a n : ℕ) → List ℕ → Heap
left h c a n bs = put_arena (put_free h c bs) a (arena_of c n)

new_arena-stocked :
    (pf : PoolFlags) (h : Heap) (c a n : ℕ) (m : Mem)
    → h.free_list c ≡ []
    → (class c).blocks_per_arena ≡ suc n
    → page_acquire pf h.mem none 1 ≡ some (some a, m)
    → new_arena pf h c ≡ some (true, stocked h c a m n)
unfolding new_arena
new_arena-stocked pf h c a n m is_empty is got =
    rw (got, is_empty, is, fill-row (suc n) a (class c).block_size 0 []) refl

take_first :
    (h : Heap) (c a b n : ℕ) (bs : List ℕ)
    → block2arena b ≡ a
    → h.arena a ≡ arena_of c (suc n)
    → suc n < 2 ^ 32
    → take_block h c (b ∷ bs) ≡ some (some b, left h c a n bs)
unfolding take_block
take_first h c a b n bs home is small =
    let less : sub32 (suc n) 1 ≡ n = omega arith in rw (home, is, less) refl

-- The state behind the last block of an arena coming back.
abbrev emptied : Heap → (c a b n : ℕ) → Mem → Heap
emptied h c a b n m' =
    let bs = h.free_list c ++ b ∷ [] in
    record (put_free (left h c a (suc n) bs) c (drain (suc n) a (class c).block_size 0 bs)) {
      mem = m';
    }

free_small :
    (pf : PoolFlags) (h : Heap) (c a b n : ℕ)
    → block2arena b ≡ a
    → h.arena a ≡ arena_of c n
    → mem_free pf h b ≡ release_block pf h b (some c)
unfolding mem_free mem_release
free_small pf h c a b n home is = rw (home, is) refl

release_last :
    (pf : PoolFlags) (h : Heap) (c a b n : ℕ) (m' : Mem)
    → block2arena b ≡ a
    → h.arena a ≡ arena_of c n
    → (class c).blocks_per_arena ≡ suc n
    → n < 255
    → page_release pf h.mem a 1 ≡ some m'
    → release_block pf h b (some c) ≡ some (emptied h c a b n m')
unfolding release_block
release_last pf h c a b n m' home is all small gone =
    let more : add32 n 1 ≡ suc n = omega arith in
    let last : (suc n == suc n) ≡ true = ground arith in
    rw (home, is, all) (rw more (rw (last, gone) refl))

free_last :
    (pf : PoolFlags) (h : Heap) (c a b n : ℕ) (m' : Mem)
    → block2arena b ≡ a
    → h.arena a ≡ arena_of c n
    → (class c).blocks_per_arena ≡ suc n
    → n < 255
    → page_release pf h.mem a 1 ≡ some m'
    → mem_free pf h b ≡ some (emptied h c a b n m')
free_last pf h c a b n m' home is all small gone =
    free_small pf h c a b n home is ∙ release_last pf h c a b n m' home is all small gone

alloc_first :
    (pf : PoolFlags) (h : Heap) (size c a n : ℕ) (m : Mem)
    → mem_request size ≡ block c
    → h.free_list c ≡ []
    → (class c).blocks_per_arena ≡ suc n
    → n < 255
    → block2arena (arena2block a (class c).block_size 0) ≡ a
    → page_acquire pf h.mem none 1 ≡ some (some a, m)
    → mem_alloc pf h size
      ≡ some (
        some (arena2block a (class c).block_size 0),
        left (stocked h c a m n) c a n (row n a (class c).block_size 1),
      )
unfolding mem_alloc alloc_request mem_acquire acquire_from
alloc_first pf h size c a n m request is_empty is small home got =
    let here : (a == a) ≡ true = ground arith in
    let same : (c == c) ≡ true = ground arith in
    let taken =
      take_first (stocked h c a m n) c a (arena2block a (class c).block_size 0) n
        (row n a (class c).block_size 1) home (rw here refl) (omega (arith, small)) in
    rw request (rw is_empty (rw (new_arena-stocked pf h c a n m is_empty is got) (rw same taken)))

-- The free list behind the last block is empty again.
emptied-free :
    (h : Heap) (c a n : ℕ)
    → a % pg_size ≡ 0
    → a + pg_size ≤ 2 ^ 32
    → c < mem_block_cnt
    → (class c).blocks_per_arena ≡ suc n
    → h.free_list c ≡ row n a (class c).block_size 1
    → drain
        (suc n)
        a
        (class c).block_size
        0
        (h.free_list c ++ arena2block a (class c).block_size 0 ∷ [])
      ≡ []
unfolding drain
emptied-free h c a n aligned below lt is left =
    let s = (class c).block_size in
    let last =
      erase-last n a s 1 (arena2block a s 0)
        (λ j lo hi. first_apart a c n j aligned below lt is lo hi) in
    rw (left, last) (drain-row n a s 1)

-- When a class has no free block, a size is one of the class, `page_acquire` of one page answers an
-- aligned page below 4 GB and `page_release` of it succeeds, `mem_alloc` of the size answers the
-- first block of the arena at that page, and this block and the free list of the class are together
-- the blocks of the arena in order; `mem_free` of that block then gives the page back, and every
-- free list is what it was.
pub mem_free-alloc :
    (pf : PoolFlags) (h : Heap) (size c a : ℕ) (m m' : Mem)
    → a % pg_size ≡ 0
    → a + pg_size ≤ 2 ^ 32
    → mem_request size ≡ block c
    → c < mem_block_cnt
    → h.free_list c ≡ []
    → page_acquire pf h.mem none 1 ≡ some (some a, m)
    → page_release pf m a 1 ≡ some m'
    → (h1 : Heap) × (h2 : Heap) × (mem_alloc pf h size ≡ some (some (a + arena_size), h1))
      × (h1.mem ≡ m)
      × ((a + arena_size) ∷ h1.free_list c
          ≡ row (class c).blocks_per_arena a (class c).block_size 0)
      × (mem_free pf h1 (a + arena_size) ≡ some h2)
      × (h2.mem ≡ m')
      × ((d : ℕ) → h2.free_list d ≡ h.free_list d)
mem_free-alloc pf h size c a m m' aligned below request lt is_empty got gone =
    let (n, is, small) = some_blocks c lt in
    let s = (class c).block_size in
    let b = arena2block a s 0 in
    let (at_first, _, home) = arena_layout a c 0 aligned below lt (omega (arith, is)) in
    let first : b ≡ a + arena_size = omega (arith, at_first) in
    let h1 = left (stocked h c a m n) c a n (row n a s 1) in
    let same : (c == c) ≡ true = ground arith in
    let here : (a == a) ≡ true = ground arith in
    let listed : h1.free_list c ≡ row n a s 1 = rw same refl in
    let headed : h1.arena a ≡ arena_of c n = rw here refl in
    let unlisted = emptied-free h1 c a n aligned below lt is listed in
    let alone : (d : ℕ) → (emptied h1 c a b n m').free_list d ≡ h.free_list d = λ d.
      elim (Bool-cases (d == c)) [
        | inl mine ↦
            let e : d ≡ c = ground arith in rw mine (unlisted ∙ sym (ap h.free_list e ∙ is_empty))
        | inr other ↦ rw other refl
      ] in
    (
      h1,
      emptied h1 c a b n m',
      alloc_first pf h size c a n m request is_empty is small home got
          ∙ ap (λ (p : ℕ). some (some p, h1)) first,
      refl,
      ap (λ (p : ℕ). p ∷ h1.free_list c) (sym first)
          ∙ ap (λ (l : List ℕ). b ∷ l) listed
          ∙ ap (λ (k : ℕ). row k a s 0) (sym is),
      ap (mem_free pf h1) (sym first) ∙ free_last pf h1 c a b n m' home headed is small gone,
      refl,
      alone,
    )
