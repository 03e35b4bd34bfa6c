-- ===== src/Memory/Blocks.antt =====
-- kernel/src/memory.c: the size classes of small blocks, and where blocks lie in their arena.
use a_os.Base.{
  ℕ, zero, suc, ◌+◌, ◌-◌, ◌*◌, ◌/◌, ◌%◌, ◌^◌, ◌<◌, ◌≤◌, ◌≡◌, refl, true, false, List, [], ◌∷◌,
  arith, ltb, leb, if◌then◌else◌, length, get_or, ◌∙◌, ap, bit_and, Bool-cases, inl, inr,
}
use a_os.Base.Bits.{bit_and-mask}
use a_os.Base.Words.{add32, mul32}
use a_os.Memory.{pg_size}

-- `struct mem_block_desc` without its list and its lock.
pub record MemBlockDesc : Type 0 where
  pub block_size : ℕ
  pub blocks_per_arena : ℕ

-- sizeof(struct arena): a pointer, a count and a padded flag.
abbrev pub arena_size : ℕ
arena_size = 12

abbrev pub mem_block_cnt : ℕ
mem_block_cnt = 7

-- The loop of `mem_block_init`.
unfoldable pub block_descs : ℕ → ℕ → List MemBlockDesc
block_descs zero block_size = []
block_descs (suc n) block_size =
    record { block_size = block_size; blocks_per_arena = (pg_size - arena_size) / block_size }
    ∷ block_descs n (mul32 block_size 2)

unfoldable pub mem_block_init : List MemBlockDesc
mem_block_init = block_descs mem_block_cnt 16

-- The loop of `mem_alloc` for the smallest class that holds `size` bytes.
unfoldable pub class_scan : List MemBlockDesc → (size idx : ℕ) → ℕ
class_scan [] size idx = idx
class_scan (d ∷ ds) size idx =
    let rest = class_scan ds size (idx + 1) in if leb size d.block_size then idx else rest

-- What `mem_alloc` asks for: whole pages with one arena header, or a block of a class.
pub data Request : Type 0 where
  pages : ℕ → Request
  block : ℕ → Request

unfoldable pub mem_request : ℕ → Request
mem_request size =
    if ltb 1024 size
    then pages (add32 (add32 size arena_size) (pg_size - 1) / pg_size)
    else block (class_scan mem_block_init size 0)

-- `arena2block` and `block2arena`
pub arena2block : (a block_size idx : ℕ) → ℕ
arena2block a block_size idx = add32 (add32 a arena_size) (mul32 idx block_size)

pub block2arena : ℕ → ℕ
block2arena b = bit_and b 0xfffff000

abbrev no_class : MemBlockDesc
no_class = record { block_size = 0; blocks_per_arena = 0 }

abbrev pub class : ℕ → MemBlockDesc
class idx = get_or mem_block_init idx no_class

class_scan_lem :
    (ds : List MemBlockDesc) (size idx : ℕ)
    → (k : ℕ) × (class_scan ds size idx ≡ idx + k)
      × (k ≤ length ds)
      × (k < length ds → size ≤ (get_or ds k no_class).block_size)
      × ((j : ℕ) → j < k → (get_or ds j no_class).block_size < size)
unfolding class_scan
class_scan_lem [] size idx =
    (0, omega arith, omega arith, λ lt. absurd (omega arith), λ j lt. absurd (omega arith))
class_scan_lem (d ∷ ds) size idx = elim (Bool-cases (leb size d.block_size)) [
  | inl fits ↦
      (0, rw fits (omega arith), omega arith, λ lt. ground arith, λ j lt. absurd (omega arith))
  | inr small ↦
      let (k, e, le, hit, before) = class_scan_lem ds size (idx + 1) in
      (
        suc k,
        rw small (omega (arith, e)),
        omega (arith, le),
        λ lt. hit (omega arith),
        λ j. less j k small before,
      )
]
  where
    less :
        (j k : ℕ)
        → leb size d.block_size ≡ false
        → ((i : ℕ) → i < k → (get_or ds i no_class).block_size < size)
        → j < suc k
        → (get_or (d ∷ ds) j no_class).block_size < size
    less zero k small before lt = ground arith
    less (suc j) k small before lt = before j (omega arith)

-- `mem_alloc` of more than 1024 bytes, up to a page and a header below 2 ^ 32, asks for the least
-- number of pages that holds the bytes behind an arena header.
pub mem_request-pages :
    (size : ℕ)
    → size + arena_size + pg_size ≤ 2 ^ 32
    → 1024 < size
    → (n : ℕ) × (mem_request size ≡ pages n)
      × (size + arena_size ≤ n * pg_size)
      × (n * pg_size < size + arena_size + pg_size)
unfolding mem_request
mem_request-pages size fits large =
    let e : ltb 1024 size ≡ true = ground arith in
    (add32 (add32 size arena_size) (pg_size - 1) / pg_size, rw e refl, omega arith, omega arith)

last_class :
    (k size : ℕ) → k ≤ 7 → ((j : ℕ) → j < k → (class j).block_size < size) → size ≤ 1024 → k < 7
unfolding mem_block_init block_descs
last_class k size le before small = elim (Bool-cases (ltb k 7)) [
  | inl lt ↦ ground arith
  | inr ge ↦ let top : 1024 < size = before 6 (ground arith) in absurd (omega arith)
]

-- `mem_alloc` of at most 1024 bytes asks for a block of the first of the seven classes whose blocks
-- hold the bytes.
pub mem_request-block :
    (size : ℕ)
    → size ≤ 1024
    → (idx : ℕ) × (mem_request size ≡ block idx)
      × (idx < mem_block_cnt)
      × (size ≤ (class idx).block_size)
      × ((j : ℕ) → j < idx → (class j).block_size < size)
unfolding mem_request mem_block_init block_descs
mem_request-block size small =
    let e : ltb 1024 size ≡ false = ground arith in
    let (k, found, le, hit, before) = class_scan_lem mem_block_init size 0 in
    let lt : k < mem_block_cnt = last_class k size le before small in
    (k, rw e (ap block (found ∙ omega arith)), lt, hit lt, before)

-- The last block of an arena ends inside the page.
pub block_fits :
    (c idx : ℕ)
    → c < mem_block_cnt
    → idx < (class c).blocks_per_arena
    → (arena_size + idx * (class c).block_size + (class c).block_size ≤ pg_size)
      × (0 < (class c).block_size)
unfolding mem_block_init block_descs
block_fits zero idx lt inside = omega arith
block_fits (suc zero) idx lt inside = omega arith
block_fits (suc (suc zero)) idx lt inside = omega arith
block_fits (suc (suc (suc zero))) idx lt inside = omega arith
block_fits (suc (suc (suc (suc zero)))) idx lt inside = omega arith
block_fits (suc (suc (suc (suc (suc zero))))) idx lt inside = omega arith
block_fits (suc (suc (suc (suc (suc (suc zero)))))) idx lt inside = omega arith
block_fits (suc (suc (suc (suc (suc (suc (suc c))))))) idx lt inside = absurd (omega arith)

-- The blocks of a class in an arena at an aligned page below 4 GB lie behind its header, one behind
-- the other, inside the page, and `block2arena` finds the arena of each of them.
pub arena_layout :
    (a c idx : ℕ)
    → a % pg_size ≡ 0
    → a + pg_size ≤ 2 ^ 32
    → c < mem_block_cnt
    → idx < (class c).blocks_per_arena
    → (arena2block a (class c).block_size idx ≡ a + arena_size + idx * (class c).block_size)
      × (arena2block a (class c).block_size idx + (class c).block_size ≤ a + pg_size)
      × (block2arena (arena2block a (class c).block_size idx) ≡ a)
unfolding arena2block block2arena
arena_layout a c idx aligned below lt inside =
    let f = block_fits c idx lt inside in
    let e : arena2block a (class c).block_size idx ≡ a + arena_size + idx * (class c).block_size =
      omega (arith, f) in
    (
      e,
      omega (arith, e, f),
      omega (arith, e, f, aligned, bit_and-mask 20 12 (arena2block a (class c).block_size idx)),
    )
