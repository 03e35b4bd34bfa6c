-- ===== src/Inode/Freed.antt =====
-- `blk_release`: a block in use becomes free, in memory and on the disk; a free one stops the kernel.
use a_os.Base.{
  ℕ, ◌+◌, ◌-◌, ◌*◌, ◌/◌, ◌^◌, ◌≤◌, ◌<◌, ◌≡◌, ◌≢◌, refl, sym, ap, ◌∙◌, true, false, none, some, ◌==◌,
  if◌then◌else◌, arith, Bool-cases, inl, inr,
}
use a_os.Base.Words.{sub32, mul32}
use a_os.Bitmap.{check, release}
use a_os.Bitmap.Inv.{check-assign}
use a_os.Bitmap.Marked.{release_one}
use a_os.Inode.{Volume, blk_acquire, blk_release, blk_released}
use a_os.Inode.Bitmaps.{IsValid}
use a_os.Inode.Blocks.{
  with_bit, with_bit-IsValid, with_bit-outside, BlkAcquired, BlockOutcome, blk_acquire-BlockOutcome,
}

-- What `blk_release` of block `idx` leaves: its bit is clear, and no data block changes.
pub record BlkReleased (v : Volume) (idx : ℕ) (v' : Volume) : Type 0 where
  pub valid : IsValid v'
  pub bits : (j : ℕ) → check v'.blk_btmp j ≡ (if idx == j then false else check v.blk_btmp j)
  pub blocks : (a : ℕ) → v.blk_lba * 512 ≤ a → v'.disk a ≡ v.disk a
  pub front : (a : ℕ) → a < v.blk_btmp_lba * 512 → v'.disk a ≡ v.disk a
  pub rest : v' ≡ record v { blk_btmp = v'.blk_btmp; disk = v'.disk }

pub data ReleaseOutcome (v : Volume) (idx : ℕ) : Type 0 where
  released :
      (v' : Volume)
      → check v.blk_btmp idx ≡ true
      → blk_release v (v.blk_lba + idx * 8) ≡ some v'
      → BlkReleased v idx v'
      → ReleaseOutcome v idx
  stopped :
      check v.blk_btmp idx ≡ false
      → blk_release v (v.blk_lba + idx * 8) ≡ none
      → ReleaseOutcome v idx

module _ (v : Volume) (ok : IsValid v) (idx : ℕ) (lt : idx < v.blk_btmp.len * 8) where
  -- The block that an LBA of `blk_acquire` names.
  block_of_lba : mul32 (sub32 (v.blk_lba + idx * 8) v.blk_lba) 512 / 4096 ≡ idx
  block_of_lba = omega (arith, ok.blk_small, ok.lba_small)

  release_step : blk_release v (v.blk_lba + idx * 8) ≡ blk_released v idx (release v.blk_btmp idx 1)
  unfolding blk_release
  release_step = ap (λ t. blk_released v t (release v.blk_btmp t 1)) block_of_lba

  cleared-BlkReleased : BlkReleased v idx (with_bit v idx false)
  cleared-BlkReleased = record {
    valid = with_bit-IsValid v ok idx lt false;
    bits = check-assign v.blk_btmp ok.blk_btmp_valid idx false lt;
    blocks = λ a le. with_bit-outside v ok idx lt false a (inr le);
    front = λ a la. with_bit-outside v ok idx lt false a (inl la);
    rest = refl;
  }

  -- On a valid volume `blk_release` of the LBA of one of its blocks clears the block's bit in
  -- memory and on the disk and changes no block and nothing before the block bitmap, and keeps the
  -- volume valid, when the block is in use; when it is free the assertion fails.
  pub blk_release-ReleaseOutcome : ReleaseOutcome v idx
  unfolding blk_released
  blk_release-ReleaseOutcome = elim (Bool-cases (check v.blk_btmp idx)) [
    | inl used ↦
        ReleaseOutcome.released (with_bit v idx false) used
          (release_step ∙ rw (release_one v.blk_btmp idx, used, blk_released) refl)
          cleared-BlkReleased
    | inr free ↦
        ReleaseOutcome.stopped free
          (release_step ∙ rw (release_one v.blk_btmp idx, free, blk_released) refl)
  ]

-- The bit is what it was before both calls.
back :
    (v w v'' : Volume) (idx : ℕ)
    → BlkAcquired v idx w
    → BlkReleased w idx v''
    → (j : ℕ) → check v''.blk_btmp j ≡ check v.blk_btmp j
back v w v'' idx a b j = elim (Bool-cases (idx == j)) [
  | inl hit ↦
      let free : check v.blk_btmp j ≡ false = a.fit.free j (ground arith) (ground arith) in
      ground (arith, b.bits j, free)
  | inr miss ↦ ground (arith, b.bits j, a.bits j)
]

-- After `blk_acquire` on a valid volume has answered an LBA and not -1, `blk_release` of it
-- succeeds, the volume is valid, and every bit of the block bitmap is what it was.
pub release-acquire_block :
    (v v' : Volume) (lba : ℕ)
    → IsValid v
    → blk_acquire v ≡ (lba, v')
    → lba ≢ 2 ^ 32 - 1
    → (v'' : Volume) × (blk_release v' lba ≡ some v'')
      × IsValid v''
      × ((j : ℕ) → check v''.blk_btmp j ≡ check v.blk_btmp j)
release-acquire_block v v' lba ok e ne = elim (blk_acquire-BlockOutcome v ok) [
  | BlockOutcome.full h e' ↦ absurd (ne (ap (λ p. p.0) (sym e ∙ e')))
  | BlockOutcome.block idx w e' a ↦
      let same : v' ≡ w = ap (λ p. p.1) (sym e ∙ e') in
      let base : w.blk_lba ≡ v.blk_lba = ap (λ t. t.blk_lba) a.rest in
      let lba_is : lba ≡ w.blk_lba + idx * 8 =
        ap (λ p. p.0) (sym e ∙ e') ∙ ap (λ t. t + idx * 8) (sym base) in
      let lt : idx < w.blk_btmp.len * 8 = omega (arith, a.fit.inside, a.same_len) in
      elim (blk_release-ReleaseOutcome w a.valid idx lt) [
        | ReleaseOutcome.released v'' used r b ↦
            (v'', rw (same, lba_is) r, b.valid, λ j. back v w v'' idx a b j)
        | ReleaseOutcome.stopped free r ↦ absurd (ground (arith, a.bits idx, free))
      ]
]
