-- ===== src/Memory/Rows.antt =====
-- The blocks of an arena of kernel/src/memory.c as a list, for `mem_acquire` and `mem_release`.
use a_os.Base.{
  ℕ, zero, suc, ◌+◌, ◌*◌, ◌%◌, ◌^◌, ◌<◌, ◌≤◌, ◌≡◌, ◌≢◌, refl, sym, ap, ◌∙◌, true, false, List, [],
  ◌∷◌, ◌++◌, ◌==◌, length, arith,
}
use a_os.Thread.{erase}
use a_os.Memory.{pg_size}
use a_os.Memory.Blocks.{
  class, arena2block, mem_block_cnt, mem_block_init, block_descs, block_fits, arena_layout,
}
use a_os.Memory.Heap.{fill, drain}

-- The blocks of an arena from number `idx` on.
abbrev pub row : (n : ℕ) → (a block_size idx : ℕ) → List ℕ
row zero a block_size idx = []
row (suc n) a block_size idx = arena2block a block_size idx ∷ row n a block_size (idx + 1)

append_assoc : (xs : List ℕ) (y : ℕ) (ys : List ℕ) → (xs ++ y ∷ []) ++ ys ≡ xs ++ y ∷ ys
append_assoc [] y ys = refl
append_assoc (x ∷ xs) y ys = rw (append_assoc xs y ys) refl

append_nil : (xs : List ℕ) → xs ++ [] ≡ xs
append_nil [] = refl
append_nil (x ∷ xs) = rw (append_nil xs) refl

pub fill-row : (n a s idx : ℕ) (bs : List ℕ) → fill n a s idx bs ≡ bs ++ row n a s idx
unfolding fill
fill-row zero a s idx bs = sym (append_nil bs)
fill-row (suc n) a s idx bs =
    fill-row n a s (idx + 1) (bs ++ arena2block a s idx ∷ [])
    ∙ append_assoc bs (arena2block a s idx) (row n a s (idx + 1))

pub drain-row : (n a s idx : ℕ) → drain n a s idx (row n a s idx) ≡ []
unfolding drain
drain-row zero a s idx = refl
drain-row (suc n) a s idx =
    let same : (arena2block a s idx == arena2block a s idx) ≡ true = ground arith in
    rw same (drain-row n a s (idx + 1))

pub erase-last :
    (n a s idx b : ℕ)
    → ((j : ℕ) → idx ≤ j → j < idx + n → arena2block a s j ≢ b)
    → erase b (row n a s idx ++ b ∷ []) ≡ row n a s idx
erase-last zero a s idx b apart = let same : (b == b) ≡ true = ground arith in rw same refl
erase-last (suc n) a s idx b apart =
    let ne = apart idx (omega arith) (omega arith) in
    let differs : (arena2block a s idx == b) ≡ false = ground arith in
    rw (differs, erase-last n a s (idx + 1) b (λ j lo hi. apart j (omega arith) (omega arith))) refl

-- An arena has one block at least, and few.
pub some_blocks :
    (c : ℕ) → c < mem_block_cnt → (n : ℕ) × ((class c).blocks_per_arena ≡ suc n) × (n < 255)
unfolding mem_block_init block_descs
some_blocks zero lt = (254, refl, omega arith)
some_blocks (suc zero) lt = (126, refl, omega arith)
some_blocks (suc (suc zero)) lt = (62, refl, omega arith)
some_blocks (suc (suc (suc zero))) lt = (30, refl, omega arith)
some_blocks (suc (suc (suc (suc zero)))) lt = (14, refl, omega arith)
some_blocks (suc (suc (suc (suc (suc zero))))) lt = (6, refl, omega arith)
some_blocks (suc (suc (suc (suc (suc (suc zero)))))) lt = (2, refl, omega arith)
some_blocks (suc (suc (suc (suc (suc (suc (suc c))))))) lt = absurd (omega arith)

-- The first block of an arena is none of the others.
pub first_apart :
    (a c n j : ℕ)
    → a % pg_size ≡ 0
    → a + pg_size ≤ 2 ^ 32
    → c < mem_block_cnt
    → (class c).blocks_per_arena ≡ suc n
    → 1 ≤ j
    → j < 1 + n
    → arena2block a (class c).block_size j ≢ arena2block a (class c).block_size 0
first_apart a c n zero aligned below lt is lo hi e = omega arith
first_apart a c n (suc k) aligned below lt is lo hi e =
    let (_, size) = block_fits c 0 lt (omega (arith, is)) in
    let (p, _, _) = arena_layout a c (suc k) aligned below lt (omega (arith, is, hi)) in
    let (q, _, _) = arena_layout a c 0 aligned below lt (omega (arith, is)) in
    let nonneg : 0 ≤ k * (class c).block_size = omega arith in omega (arith, e, p, q, size, nonneg)

pub length-row : (n a s idx : ℕ) → length (row n a s idx) ≡ n
length-row zero a s idx = refl
length-row (suc n) a s idx = ap (λ k. suc k) (length-row n a s (idx + 1))
