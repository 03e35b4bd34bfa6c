-- ===== src/Memory/Translation.antt =====
-- The recursive mapping of the page tables of kernel/src/memory.c, and the translation of addresses
-- through it.
use a_os.Base.{
  ℕ, ◌+◌, ◌*◌, ◌/◌, ◌%◌, ◌^◌, ◌<◌, ◌≡◌, Bool, true, false, ◌&&◌, Option, none, some, Bool-cases,
  inl, inr, refl, arith, ◌==◌, if◌then◌else◌, ap, bit_and, bit_or,
}
use a_os.Base.Bits.{bit_and-mask, bit_and-ones, bit_or_flags}
use a_os.Memory.Pool.{Palloc}
use a_os.Memory.{
  PPool, table_frame, Words, pg_size, pg_flags, pde_idx, pte_idx, pde_ptr, pte_ptr, addr_v2p,
}

-- Below this address lie the pages that are not page tables themselves.
abbrev pub tables_start : ℕ
tables_start = 0xffc00000

-- PDE_IDX and PTE_IDX are the two halves of the page number.
pub idx_lem :
    (addr : ℕ)
    → addr < 2 ^ 32
    → (pde_idx addr ≡ addr / 2 ^ 22) × (pte_idx addr ≡ addr / 2 ^ 12 % 2 ^ 10)
unfolding pde_idx pte_idx
idx_lem addr lt = omega (arith, bit_and-mask 10 22 addr, bit_and-mask 10 12 addr)

-- The entry of the `n`-th page is the `n`-th word of the tables, and the directory entry of the
-- page is a word of the last table.
pub ptr_lem :
    (vaddr : ℕ)
    → vaddr < 2 ^ 32
    → (pte_ptr vaddr ≡ tables_start + vaddr / pg_size * 4)
      × (pde_ptr vaddr ≡ 0xfffff000 + vaddr / 2 ^ 22 * 4)
unfolding pte_ptr pde_ptr
ptr_lem vaddr lt = let x = idx_lem vaddr lt in omega (arith, x, bit_and-mask 10 22 vaddr)

-- Two addresses with the same page table entry lie on the same page.
pte_ptr-injective :
    (v w : ℕ) → v < 2 ^ 32 → w < 2 ^ 32 → pte_ptr v ≡ pte_ptr w → v / pg_size ≡ w / pg_size
pte_ptr-injective v w lv lw e =
    let x = ptr_lem v lv in let y = ptr_lem w lw in omega (arith, x, y, e)

pub entry_flags : (paddr : ℕ) → paddr % pg_size ≡ 0 → bit_or paddr pg_flags ≡ paddr + 7
entry_flags paddr aligned = bit_or_flags paddr (omega arith)

-- Whether a table word marks its page as present.
abbrev pub present : ℕ → Bool
present entry = if bit_and entry 1 == 0 then false else true

pub translate :
    (w : Words) (vaddr paddr : ℕ)
    → w (pte_ptr vaddr) ≡ paddr + 7
    → paddr % pg_size ≡ 0
    → paddr < 2 ^ 32
    → addr_v2p w vaddr ≡ paddr + vaddr % pg_size
unfolding addr_v2p
translate w vaddr paddr e aligned lt =
    omega (
      arith,
      ap (λ t. bit_and t 0xfffff000) e,
      bit_and-mask 20 12 (paddr + 7),
      bit_and-ones 12 vaddr,
    )

pub present_flags : (paddr : ℕ) → paddr % pg_size ≡ 0 → present (paddr + 7) ≡ true
present_flags paddr aligned = ground (arith, bit_and-ones 1 (paddr + 7))

-- What the processor makes of an address: the address in memory, when the directory has a table for it
-- and the table a page.
abbrev pub translation : Words → ℕ → Option ℕ
translation w vaddr =
    if present (w (pde_ptr vaddr)) && present (w (pte_ptr vaddr))
    then some (addr_v2p w vaddr)
    else none

pub present-frame :
    (pp : PPool) (r : Option ℕ × PPool)
    → Palloc pp r
    → present (bit_or (table_frame r.0) pg_flags) ≡ true
present-frame pp (none, pp') a = refl
present-frame pp (some p, pp') a =
    let aligned : p % pg_size ≡ 0 = omega (arith, a.0) in
    rw (entry_flags p aligned) (present_flags p aligned)

pub translation-same :
    (w w' : Words) (q : ℕ)
    → w (pde_ptr q) ≡ w' (pde_ptr q)
    → w (pte_ptr q) ≡ w' (pte_ptr q)
    → translation w q ≡ translation w' q
unfolding addr_v2p
translation-same w w' q directory table = rw (directory, table) refl

pub translation-absent :
    (w : Words) (q : ℕ) → present (w (pde_ptr q)) ≡ false → translation w q ≡ none
translation-absent w q absent = rw absent refl

pub translation-clear : (w : Words) (q : ℕ) → w (pte_ptr q) ≡ 0 → translation w q ≡ none
translation-clear w q clear = elim (Bool-cases (present (w (pde_ptr q)))) [
  | inl there ↦ rw (there, clear) refl
  | inr absent ↦ rw absent refl
]
