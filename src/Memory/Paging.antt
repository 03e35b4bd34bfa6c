-- ===== src/Memory/Paging.antt =====
-- What `page_table_add` and `page_table_remove` of kernel/src/memory.c do to the translation of
-- addresses.
use a_os.Base.{ℕ, ◌+◌, ◌-◌, ◌*◌, ◌/◌, ◌%◌, ◌^◌, ◌<◌, ◌≡◌, ◌≢◌, true, false, arith, ◌⊎◌, bit_and}
use a_os.Base.Bits.{bit_and-mask, bit_and-ones}
use a_os.Memory.{Mem, pg_size, pde_ptr, pte_ptr, pde_create, page_table_add, page_table_remove}
use a_os.Memory.Translation.{tables_start, ptr_lem, present}

module _ (m : Mem) (vaddr paddr : ℕ) (lt : vaddr < tables_start) (aligned : paddr % pg_size ≡ 0)
    (small : paddr < 2 ^ 32) where
  -- `page_table_add` of a page below the tables leaves the entry of another page below the tables
  -- as it was, when the page directory had a table for the page added or the other page belongs to
  -- another table.
  pub table-add_other :
      (w : ℕ)
      → w < tables_start
      → w / pg_size ≢ vaddr / pg_size
      → (present (m.table (pde_ptr vaddr)) ≡ true) ⊎ (w / 2 ^ 22 ≢ vaddr / 2 ^ 22)
      → (page_table_add m vaddr paddr).table (pte_ptr w) ≡ m.table (pte_ptr w)
  unfolding page_table_add pde_create
  table-add_other w lw ne c =
      let x = ptr_lem vaddr (omega arith) in
      let y = ptr_lem w (omega arith) in
      let page : bit_and (pte_ptr vaddr) 0xfffff000 ≡ tables_start + vaddr / 2 ^ 22 * pg_size =
        omega (arith, bit_and-mask 20 12 (pte_ptr vaddr), x) in
      ground (arith, x, y, page, ne, c)

  -- `page_table_remove` of a page below the tables clears the present bit of the page, and leaves
  -- the entry of any other page below the tables as it was.
  pub table-remove :
      (w : ℕ)
      → w < tables_start
      → w / pg_size ≢ vaddr / pg_size
      → (present ((page_table_remove m vaddr).table (pte_ptr vaddr)) ≡ false)
        × ((page_table_remove m vaddr).table (pte_ptr w) ≡ m.table (pte_ptr w))
  unfolding page_table_remove
  table-remove w lw ne =
      let x = ptr_lem vaddr (omega arith) in
      let y = ptr_lem w (omega arith) in
      let word = m.table (pte_ptr vaddr) in
      (
        ground (arith, bit_and-mask 31 1 word, bit_and-ones 1 (bit_and word (2 ^ 32 - 1 - 1))),
        ground (arith, x, y, ne),
      )
