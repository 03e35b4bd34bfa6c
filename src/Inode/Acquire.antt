-- ===== src/Inode/Acquire.antt =====
-- `inode_acquire`: which number it hands out, and what the disk holds afterwards.
use a_os.Base.{
  ℕ, zero, suc, ◌+◌, ◌*◌, ◌^◌, ◌≤◌, ◌<◌, ◌≡◌, ◌≢◌, ◌⊎◌, refl, sym, ◌∙◌, true, false, none, some,
  List, ◌∷◌, ◌==◌, if◌then◌else◌, arith, inl, inr, get_or, get_or-replicate,
}
use mathlib.Core.Path.{subst}
use a_os.Base.Words.{add32}
use a_os.Bitmap.{check, assign}
use a_os.Bitmap.Inv.{check-assign, len-assign, assign-IsValid}
use a_os.Bitmap.Scan.{FirstFit, NoRun}
use a_os.Bitmap.Acquire.{Acquired, acquire-Acquired}
use a_os.CString.Copy.{inside}
use a_os.Inode.{Inode, Volume, btmp_sync}
use a_os.Inode.Bitmaps.{IsValid, Synced, btmp_sync-Synced, btmp_sync-outside, acquire_one}
use a_os.Inode.Table.{
  inode_words, store_inode, load_inode, inode_acquired, inode_acquire, new_inode,
}
use a_os.Inode.TableLaws.{
  Storable, entry_at, store_inode-bytes, load-store_same, load-store_other, load_inode-entry,
  entry-same,
}

-- The volume after an entry of its inode table is stored.
abbrev pub with_entry : Volume → ℕ → Inode → Volume
with_entry v no_hd inode = record v { disk = store_inode v.disk v.inode_table_lba no_hd inode }

-- The volume after bit `no_hd` of its inode bitmap is set in memory and on the disk.
abbrev pub with_number : Volume → ℕ → Volume
with_number v no_hd = record v {
  inode_btmp = assign v.inode_btmp no_hd true;
  disk = btmp_sync v.disk v.inode_btmp_lba (assign v.inode_btmp no_hd true) no_hd;
}

module _ (v : Volume) (ok : IsValid v) (no_hd : ℕ) (lt : no_hd < v.inode_btmp.len * 8) where
  -- A byte outside the inode table.
  pub with_entry-outside :
      (inode : Inode) (a : ℕ)
      → (a < v.inode_table_lba * 512) ⊎ (v.blk_btmp_lba * 512 ≤ a)
      → (with_entry v no_hd inode).disk a ≡ v.disk a
  with_entry-outside inode a out =
      let away : inside (entry_at v.inode_table_lba no_hd) 60 a ≡ false =
        ground (arith, ok.blk_btmp_behind) in
      store_inode-bytes v.disk v.inode_table_lba no_hd inode a ∙ rw away refl

  pub with_entry-IsValid : (inode : Inode) → IsValid (with_entry v no_hd inode)
  unfolding Synced
  with_entry-IsValid inode = record {
    inode_btmp_valid = ok.inode_btmp_valid;
    blk_btmp_valid = ok.blk_btmp_valid;
    table_behind = ok.table_behind;
    blk_btmp_behind = ok.blk_btmp_behind;
    blk_behind = ok.blk_behind;
    blk_small = ok.blk_small;
    lba_small = ok.lba_small;
    inode_synced = λ i li.
        with_entry-outside inode (v.inode_btmp_lba * 512 + i) (inl (omega (arith, ok.table_behind)))
        ∙ ok.inode_synced i li;
    blk_synced = λ i li.
        with_entry-outside inode (v.blk_btmp_lba * 512 + i) (inr (omega arith))
        ∙ ok.blk_synced i li;
  }

  -- A byte outside the inode bitmap.
  with_number-outside :
      (a : ℕ) → v.inode_table_lba * 512 ≤ a → (with_number v no_hd).disk a ≡ v.disk a
  with_number-outside a out =
      btmp_sync-outside v.disk v.inode_btmp_lba v.inode_btmp no_hd true
        (assign v.inode_btmp no_hd true) a (ground (arith, ok.table_behind))

  with_number-IsValid : IsValid (with_number v no_hd)
  unfolding Synced
  with_number-IsValid =
      let l = len-assign v.inode_btmp no_hd true in
      record {
        inode_btmp_valid = assign-IsValid v.inode_btmp ok.inode_btmp_valid no_hd true lt;
        blk_btmp_valid = ok.blk_btmp_valid;
        table_behind = rw l ok.table_behind;
        blk_btmp_behind = rw l ok.blk_btmp_behind;
        blk_behind = ok.blk_behind;
        blk_small = ok.blk_small;
        lba_small = ok.lba_small;
        inode_synced =
            btmp_sync-Synced v.disk v.inode_btmp_lba v.inode_btmp no_hd true ok.inode_synced;
        blk_synced = λ i li.
            with_number-outside (v.blk_btmp_lba * 512 + i) (omega (arith, ok.blk_btmp_behind))
            ∙ ok.blk_synced i li;
      }

new_inode-small : (n : ℕ) → n < 2 ^ 32 → (k : ℕ) → get_or (inode_words (new_inode n)) k 0 < 2 ^ 32
new_inode-small n small zero = small
new_inode-small n small (suc zero) = omega arith
new_inode-small n small (suc (suc j)) = rw (get_or-replicate {A = ℕ} 13 j 0) (omega arith)

new_inode-Storable : (n : ℕ) → n < 2 ^ 32 → Storable (new_inode n)
new_inode-Storable n small = record { words = new_inode-small n small; blocks = refl }

-- What `inode_acquire` leaves when it hands out the inode `i` with entry `idx`.
pub record InodeAcquired (v : Volume) (idx : ℕ) (i : Inode) (v' : Volume) : Type 0 where
  pub fit : FirstFit v.inode_btmp 1 idx
  pub number : i ≡ record (new_inode (add32 idx v.inode_base)) { open_cnt = 1 }
  pub valid : IsValid v'
  pub bits : (j : ℕ) → check v'.inode_btmp j ≡ (if idx == j then true else check v.inode_btmp j)
  pub stored :
      (n : ℕ) → load_inode v'.disk v.inode_table_lba idx n ≡ record (new_inode n) { open_cnt = 1 }
  pub kept :
      (other n : ℕ)
      → idx ≢ other
      → load_inode v'.disk v.inode_table_lba other n ≡ load_inode v.disk v.inode_table_lba other n
  pub back : (a : ℕ) → v.blk_btmp_lba * 512 ≤ a → v'.disk a ≡ v.disk a
  pub opened : v'.open_inodes ≡ i ∷ v.open_inodes

pub data AcquireOutcome (v : Volume) : Type 0 where
  full : NoRun v.inode_btmp 1 → inode_acquire v ≡ (none, v) → AcquireOutcome v
  made :
      (idx : ℕ) (i : Inode) (v' : Volume)
      → inode_acquire v ≡ (some i, v')
      → InodeAcquired v idx i v'
      → AcquireOutcome v

abbrev acquired_inode : Volume → ℕ → Inode
acquired_inode v idx = record (new_inode (add32 idx v.inode_base)) { open_cnt = 1 }

acquired_volume : Volume → ℕ → Volume
acquired_volume v idx = record (with_entry (with_number v idx) idx (new_inode idx)) {
  open_inodes = acquired_inode v idx ∷ v.open_inodes;
}

-- The list of open inodes is no part of validity.
opened-IsValid :
    (v : Volume) (xs : List Inode) → IsValid v → IsValid (record v { open_inodes = xs })
opened-IsValid v xs ok = record {
  inode_btmp_valid = ok.inode_btmp_valid;
  blk_btmp_valid = ok.blk_btmp_valid;
  table_behind = ok.table_behind;
  blk_btmp_behind = ok.blk_btmp_behind;
  blk_behind = ok.blk_behind;
  blk_small = ok.blk_small;
  lba_small = ok.lba_small;
  inode_synced = ok.inode_synced;
  blk_synced = ok.blk_synced;
}

module _ (v : Volume) (ok : IsValid v) (idx : ℕ) (fit : FirstFit v.inode_btmp 1 idx) where
  idx_inside : idx < v.inode_btmp.len * 8
  idx_inside = omega (arith, fit.inside)

  idx_small : idx < 2 ^ 32
  idx_small = omega (arith, idx_inside, ok.inode_btmp_valid.small)

  number-IsValid : IsValid (with_number v idx)
  number-IsValid = with_number-IsValid v ok idx idx_inside

  acquired-InodeAcquired : InodeAcquired v idx (acquired_inode v idx) (acquired_volume v idx)
  unfolding acquired_volume
  acquired-InodeAcquired = record {
    fit = fit;
    number = refl;
    valid =
        opened-IsValid (with_entry (with_number v idx) idx (new_inode idx))
          (acquired_inode v idx ∷ v.open_inodes)
          (with_entry-IsValid (with_number v idx) number-IsValid idx
            (rw (len-assign v.inode_btmp idx true) idx_inside) (new_inode idx));
    bits = check-assign v.inode_btmp ok.inode_btmp_valid idx true idx_inside;
    stored = λ n.
        load-store_same (with_number v idx).disk v.inode_table_lba idx (new_inode idx) n
          (new_inode-Storable idx idx_small);
    kept = λ other n ne.
        load-store_other (with_number v idx).disk v.inode_table_lba idx (new_inode idx) other n ne
        ∙ load_inode-entry (with_number v idx).disk v.inode_table_lba other n
        ∙ entry-same (with_number v idx).disk v.disk (entry_at v.inode_table_lba other)
            (entry_at v.inode_table_lba other) n
            (λ k lt.
              with_number-outside v ok idx idx_inside (entry_at v.inode_table_lba other + k)
                (omega arith))
        ∙ sym (load_inode-entry v.disk v.inode_table_lba other n);
    back = λ a le.
        with_entry-outside (with_number v idx) number-IsValid idx
          (rw (len-assign v.inode_btmp idx true) idx_inside) (new_inode idx) a (inr le)
        ∙ with_number-outside v ok idx idx_inside a (omega (arith, ok.blk_btmp_behind));
    opened = refl;
  }

-- On a valid volume `inode_acquire` answers NULL and changes nothing when no inode is free;
-- otherwise it answers an empty inode with the first free number, marks the number, stores the
-- entry, leaves every other entry and all from the block bitmap on as they are, puts the inode at
-- the head of the open inodes, and the volume is valid.
pub inode_acquire-AcquireOutcome : (v : Volume) → IsValid v → AcquireOutcome v
unfolding inode_acquire inode_acquired acquired_volume
inode_acquire-AcquireOutcome v ok =
    let a = acquire-Acquired v.inode_btmp ok.inode_btmp_valid 1 (omega arith) in
    elim (acquire_one v.inode_btmp) [
      | inl e ↦ AcquireOutcome.full ((subst (Acquired v.inode_btmp 1) e a).0) (rw e refl)
      | inr (s, e) ↦
          let fit = (subst (Acquired v.inode_btmp 1) e a).fit in
          AcquireOutcome.made s (acquired_inode v s) (acquired_volume v s) (rw e refl)
            (acquired-InodeAcquired v ok s fit)
    ]
