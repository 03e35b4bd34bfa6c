-- ===== src/Inode/Writing.antt =====
-- `inode_write` as a whole, and `inode_read` after it.
use a_os.Base.{
  ℕ, ◌+◌, ◌-◌, ◌*◌, ◌/◌, ◌%◌, ◌^◌, ◌≤◌, ◌<◌, ◌≡◌, ◌≢◌, ◌⊎◌, refl, true, false, some, ltb, ◌==◌,
  if◌then◌else◌, arith, Bool-cases, inl, inr,
}
use a_os.Base.Words.{add32, sub32}
use a_os.Disk.{Bytes}
use a_os.Inode.{Inode, Volume}
use a_os.Inode.Bitmaps.{IsValid, block_at}
use a_os.Inode.Table.{inode_table_update}
use a_os.Inode.Acquire.{with_entry, with_entry-outside}
use a_os.Inode.Transfer.{Written, write_size, write_first, inode_write}
use a_os.Inode.Content.{lba_of, content, Present}
use a_os.Inode.Owned.{Owned, Foreign}
use a_os.Inode.Reading.{touched, figures, span_figures}
use a_os.Inode.WriteLaws.{spread}

-- The entry of the inode in its volume's table.
abbrev pub entry_of : Volume → Inode → ℕ
entry_of v i = sub32 i.i_no v.inode_base

-- A byte of the file that `inode_write` settles: not behind the stretch in a last block that was not
-- there before.
abbrev pub SettledAt : Inode → (pos cnt p : ℕ) → Type 0
SettledAt i pos cnt p =
    (p < pos + cnt)
    ⊎ (((pos + cnt - 1) / 4096 * 4096 + 4096 ≤ p) ⊎ (lba_of i ((pos + cnt - 1) / 4096) ≢ 0))

-- What `inode_write` promises.
pub record Wrote (v : Volume) (i : Inode) (pos : ℕ) (src : Bytes) (cnt : ℕ) (r : Written)
    : Type 0 where
  pub ret : r.ret ≡ some 0
  pub number : r.inode.i_no ≡ i.i_no
  pub size : r.inode.i_size ≡ (if ltb i.i_size (pos + cnt) then pos + cnt else i.i_size)
  pub valid : IsValid r.volume
  pub owned : Owned r.volume r.inode
  pub there : Present r.inode (pos / 4096) (touched pos cnt)
  pub bytes :
      (p : ℕ)
      → p < 49152
      → SettledAt i pos cnt p
      → content r.volume.disk r.inode p ≡ spread (content v.disk i) pos src cnt p
  pub kept :
      (b k : ℕ)
      → Foreign v i b
      → k < 4096
      → r.volume.disk (block_at v b + k) ≡ v.disk (block_at v b + k)

-- The inode with its new size, and the volume after it is stored in the inode table.
abbrev pub grown : Inode → ℕ → Inode
grown i ends = record i { i_size = ends }

abbrev pub saved : Volume → Inode → ℕ → Volume
saved v i ends = with_entry v (entry_of v i) (grown i ends)

module _ (v : Volume) (i : Inode) (ok : IsValid v) (own : Owned v i)
    (entry : entry_of v i < v.inode_btmp.len * 8) (ends : ℕ) where
  pub saved-outside : (a : ℕ) → v.blk_btmp_lba * 512 ≤ a → (saved v i ends).disk a ≡ v.disk a
  saved-outside a le = with_entry-outside v ok (entry_of v i) entry (grown i ends) a (inr le)

  pub saved-Owned : Owned (saved v i ends) (grown i ends)
  saved-Owned = record {
    base = own.base;
    array = own.array;
    holder = λ k lt ne.
        let h = own.holder k lt ne in
        record { block = h.block; inside = h.inside; used = h.used; lba_is = h.lba_is };
    distinct = own.distinct;
  }

  pub saved-bytes :
      (p : ℕ) → p < 49152 → content (saved v i ends).disk (grown i ends) p ≡ content v.disk i p
  saved-bytes p lt = elim (Bool-cases (lba_of i (p / 4096) == 0)) [
    | inl hole ↦ rw hole refl
    | inr there ↦
        let h = own.holder (p / 4096) (omega arith) (ground arith) in
        rw there (
          saved-outside (lba_of i (p / 4096) * 512 + p % 4096)
            (omega (arith, h.lba_is, ok.blk_behind)))
  ]

  pub write_size-grows :
      i.i_size < ends
      → write_size ends i v
        ≡ some (record { ret = some 0; inode = grown i ends; volume = saved v i ends })
  unfolding write_size inode_table_update
  write_size-grows lt = let go : ltb i.i_size ends ≡ true = ground arith in rw go refl

pub write_size-stays :
    (ends : ℕ) (i : Inode) (v : Volume)
    → ltb i.i_size ends ≡ false
    → write_size ends i v ≡ some (record { ret = some 0; inode = i; volume = v })
unfolding write_size
write_size-stays ends i v stop = rw stop refl

pub write_step :
    (v : Volume) (i : Inode) (pos : ℕ) (src : Bytes) (cnt : ℕ)
    → 0 < cnt
    → pos + cnt < 2 ^ 32
    → inode_write v i pos src cnt ≡ write_first i v (figures pos cnt) src cnt (pos + cnt)
unfolding inode_write
write_step v i pos src cnt some_bytes small =
    let sum : add32 pos cnt ≡ pos + cnt = omega arith in
    rw (span_figures pos cnt some_bytes small, sum) refl
