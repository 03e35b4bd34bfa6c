-- ===== src/Inode/Blocks.antt =====
-- `blk_acquire` and `blk_release`: which block they hand out or take back, and what they leave alone.
use a_os.Base.{
  ℕ, ◌+◌, ◌-◌, ◌*◌, ◌/◌, ◌≤◌, ◌<◌, ◌≡◌, ◌≢◌, ◌⊎◌, refl, ◌∙◌, Bool, true, false, some, ◌==◌,
  if◌then◌else◌, arith, inl, inr,
}
use mathlib.Core.Path.{subst}
use a_os.Base.Words.{add32, mul32}
use a_os.Bitmap.{check, assign}
use a_os.Bitmap.Inv.{check-assign, len-assign, assign-IsValid}
use a_os.Bitmap.Scan.{FirstFit, NoRun}
use a_os.Bitmap.Acquire.{Acquired, acquire-Acquired}
use a_os.CString.Copy.{inside}
use a_os.Disk.{Bytes, blank, ide_write}
use a_os.Disk.Rounds.{ide_write-blit}
use a_os.Inode.{Volume, minus_one, btmp_sync, blk_acquired, blk_acquire}
use a_os.Inode.Bitmaps.{IsValid, Synced, block_at, btmp_sync-Synced, btmp_sync-outside, acquire_one}

-- The volume after bit `idx` of its block bitmap is set to `value` in memory and on the disk.
abbrev pub with_bit : Volume → ℕ → Bool → Volume
with_bit v idx value = record v {
  blk_btmp = assign v.blk_btmp idx value;
  disk = btmp_sync v.disk v.blk_btmp_lba (assign v.blk_btmp idx value) idx;
}

module _ (v : Volume) (ok : IsValid v) (idx : ℕ) (lt : idx < v.blk_btmp.len * 8) where
  -- A byte outside the block bitmap's sectors.
  pub with_bit-outside :
      (value : Bool) (a : ℕ)
      → (a < v.blk_btmp_lba * 512) ⊎ (v.blk_lba * 512 ≤ a)
      → (with_bit v idx value).disk a ≡ v.disk a
  with_bit-outside value a out =
      btmp_sync-outside v.disk v.blk_btmp_lba v.blk_btmp idx value (assign v.blk_btmp idx value) a
        (ground (arith, ok.blk_behind))

  pub with_bit-IsValid : (value : Bool) → IsValid (with_bit v idx value)
  unfolding Synced
  with_bit-IsValid value =
      let l = len-assign v.blk_btmp idx value in
      record {
        inode_btmp_valid = ok.inode_btmp_valid;
        blk_btmp_valid = assign-IsValid v.blk_btmp ok.blk_btmp_valid idx value lt;
        table_behind = ok.table_behind;
        blk_btmp_behind = ok.blk_btmp_behind;
        blk_behind = rw l ok.blk_behind;
        blk_small = rw l ok.blk_small;
        lba_small = rw l ok.lba_small;
        inode_synced = λ i li.
            with_bit-outside value (v.inode_btmp_lba * 512 + i)
              (inl (omega (arith, ok.table_behind, ok.blk_btmp_behind)))
            ∙ ok.inode_synced i li;
        blk_synced = btmp_sync-Synced v.disk v.blk_btmp_lba v.blk_btmp idx value ok.blk_synced;
      }

-- The volume after block `idx` is overwritten with `src`.
abbrev pub with_block : Volume → ℕ → Bytes → Volume
with_block v lba src = record v { disk = ide_write v.disk lba src 8 }

pub with_block-outside :
    (v : Volume) (lba : ℕ) (src : Bytes) (a : ℕ)
    → inside (lba * 512) 4096 a ≡ false
    → (with_block v lba src).disk a ≡ v.disk a
with_block-outside v lba src a out =
    rw (ide_write-blit v.disk lba src 8 (omega arith) (omega arith), out) refl

pub with_block-inside :
    (v : Volume) (lba : ℕ) (src : Bytes) (k : ℕ)
    → k < 4096
    → (with_block v lba src).disk (lba * 512 + k) ≡ src k
with_block-inside v lba src k lt =
    let here : inside (lba * 512) 4096 (lba * 512 + k) ≡ true = ground arith in
    let at : 0 + (lba * 512 + k - lba * 512) ≡ k = omega arith in
    rw (ide_write-blit v.disk lba src 8 (omega arith) (omega arith), here, at) refl

-- Writing a block of the src area keeps the volume valid.
pub with_block-IsValid :
    (v : Volume) (lba : ℕ) (src : Bytes)
    → v.blk_lba ≤ lba
    → IsValid v
    → IsValid (with_block v lba src)
unfolding Synced
with_block-IsValid v lba src behind ok = record {
  inode_btmp_valid = ok.inode_btmp_valid;
  blk_btmp_valid = ok.blk_btmp_valid;
  table_behind = ok.table_behind;
  blk_btmp_behind = ok.blk_btmp_behind;
  blk_behind = ok.blk_behind;
  blk_small = ok.blk_small;
  lba_small = ok.lba_small;
  inode_synced = λ i li.
      with_block-outside v lba src (v.inode_btmp_lba * 512 + i)
        (ground (arith, ok.table_behind, ok.blk_btmp_behind, ok.blk_behind))
      ∙ ok.inode_synced i li;
  blk_synced = λ i li.
      with_block-outside v lba src (v.blk_btmp_lba * 512 + i) (ground (arith, ok.blk_behind))
      ∙ ok.blk_synced i li;
}

-- What `blk_acquire` leaves when it hands out block `idx`.
pub record BlkAcquired (v : Volume) (idx : ℕ) (v' : Volume) : Type 0 where
  pub fit : FirstFit v.blk_btmp 1 idx
  pub valid : IsValid v'
  pub same_len : v'.blk_btmp.len ≡ v.blk_btmp.len
  pub bits : (j : ℕ) → check v'.blk_btmp j ≡ (if idx == j then true else check v.blk_btmp j)
  pub zeroed : (k : ℕ) → k < 4096 → v'.disk (block_at v idx + k) ≡ 0
  pub others :
      (j k : ℕ) → j ≢ idx → k < 4096 → v'.disk (block_at v j + k) ≡ v.disk (block_at v j + k)
  pub front : (a : ℕ) → a < v.blk_btmp_lba * 512 → v'.disk a ≡ v.disk a
  pub rest : v' ≡ record v { blk_btmp = v'.blk_btmp; disk = v'.disk }

pub data BlockOutcome (v : Volume) : Type 0 where
  full : NoRun v.blk_btmp 1 → blk_acquire v ≡ (minus_one, v) → BlockOutcome v
  block :
      (idx : ℕ) (v' : Volume)
      → blk_acquire v ≡ (v.blk_lba + idx * 8, v')
      → BlkAcquired v idx v'
      → BlockOutcome v

blk_acquired-fresh : (v : Volume) (idx : ℕ) → Volume
blk_acquired-fresh v idx = with_block (with_bit v idx true) (v.blk_lba + idx * 8) blank

module _ (v : Volume) (ok : IsValid v) (idx : ℕ) (fit : FirstFit v.blk_btmp 1 idx) where
  inside_btmp : idx < v.blk_btmp.len * 8
  inside_btmp = omega (arith, fit.inside)

  fresh-BlkAcquired : BlkAcquired v idx (blk_acquired-fresh v idx)
  unfolding blk_acquired-fresh
  fresh-BlkAcquired = record {
    fit = fit;
    valid =
        with_block-IsValid (with_bit v idx true) (v.blk_lba + idx * 8) blank (omega arith)
          (with_bit-IsValid v ok idx inside_btmp true);
    same_len = len-assign v.blk_btmp idx true;
    bits = check-assign v.blk_btmp ok.blk_btmp_valid idx true inside_btmp;
    zeroed = with_block-inside (with_bit v idx true) (v.blk_lba + idx * 8) blank;
    others = λ j k ne lt.
        with_block-outside (with_bit v idx true) (v.blk_lba + idx * 8) blank (block_at v j + k)
          (ground arith)
        ∙ with_bit-outside v ok idx inside_btmp true (block_at v j + k) (inr (omega arith));
    front = λ a lt.
        with_block-outside (with_bit v idx true) (v.blk_lba + idx * 8) blank a
          (ground (arith, ok.blk_behind))
        ∙ with_bit-outside v ok idx inside_btmp true a (inl lt);
    rest = refl;
  }

  blk_acquired-lba :
      blk_acquired v (some idx, assign v.blk_btmp idx true)
      ≡ (v.blk_lba + idx * 8, blk_acquired-fresh v idx)
  unfolding blk_acquired blk_acquired-fresh
  blk_acquired-lba =
      let e : add32 v.blk_lba (mul32 idx 4096 / 512) ≡ v.blk_lba + idx * 8 =
        omega (arith, inside_btmp, ok.blk_small, ok.lba_small) in
      rw e refl

-- On a valid volume `blk_acquire` answers -1 and changes nothing when no block is free; otherwise
-- it answers the LBA of the first free block, marks it in memory and on the disk, clears the block,
-- leaves every other block and all that lies before the block bitmap as they are, and the volume is
-- valid.
pub blk_acquire-BlockOutcome : (v : Volume) → IsValid v → BlockOutcome v
unfolding blk_acquire blk_acquired
blk_acquire-BlockOutcome v ok =
    let a = acquire-Acquired v.blk_btmp ok.blk_btmp_valid 1 (omega arith) in
    elim (acquire_one v.blk_btmp) [
      | inl e ↦ BlockOutcome.full ((subst (Acquired v.blk_btmp 1) e a).0) (rw e refl)
      | inr (s, e) ↦
          let fit = (subst (Acquired v.blk_btmp 1) e a).fit in
          BlockOutcome.block s (blk_acquired-fresh v s) (rw e (blk_acquired-lba v ok s fit))
            (fresh-BlkAcquired v ok s fit)
    ]
