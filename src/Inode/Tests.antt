-- ===== src/Inode/Tests.antt =====
-- A small volume for the theorems on kernel/src/inode.c: eight inodes and eight blocks, of which
-- inode 0 and block 0 are in use.
use a_os.Base.{
  ℕ, zero, suc, ◌+◌, ◌*◌, ◌^◌, ◌<◌, ◌≡◌, ◌≢◌, refl, true, none, some, [], ◌∷◌, arith, ltb, ◌==◌,
  if◌then◌else◌, replicate, get_or, get_or-replicate,
}
use a_os.Base.Words.{sub32}
use a_os.Bitmap.{Bitmap, check}
use a_os.Disk.{Bytes, blank}
use a_os.Inode.{Inode, Volume, blk_acquire, blk_release}
use a_os.Inode.Bitmaps.{IsValid, Synced}
use a_os.Inode.Blocks.{BlockOutcome, blk_acquire-BlockOutcome}
use a_os.Inode.Freed.{ReleaseOutcome, blk_release-ReleaseOutcome, release-acquire_block}
use a_os.Inode.Table.{cached, inode_open, inode_close, inode_table_update}
use a_os.Inode.Cache.{Counted, open-update}
use a_os.Inode.Acquire.{AcquireOutcome, inode_acquire-AcquireOutcome}
use a_os.Inode.Transfer.{Written, inode_read, inode_write}
use a_os.Inode.Content.{lba_of, Present}
use a_os.Inode.Owned.{Holder, Owned, free_blocks}
use a_os.Inode.Reading.{Delivers, inode_read-Delivers}
use a_os.Inode.WriteSteps.{Sized}
use a_os.Inode.Writing.{Wrote}
use a_os.Inode.RoundTrip.{inode_write-Wrote, read-write}

abbrev one_used : Bitmap
one_used = record { bits = 1 ∷ []; len = 1 }

one_used-IsValid : a_os.Bitmap.Inv.IsValid one_used
one_used-IsValid = record { holds = omega arith; small = omega arith; bytes = small_bytes }
  where
    small_bytes : (i : ℕ) → get_or {A = ℕ} (1 ∷ []) i 0 < 256
    small_bytes zero = omega arith
    small_bytes (suc i) = omega arith

abbrev small_disk : Bytes
small_disk a = if a == 1024 then 1 else (if a == 2048 then 1 else 0)

-- A file of 100 bytes in block 0.
abbrev small_file : Inode
small_file = record { i_no = 3; i_size = 100; i_block = 5 ∷ replicate 12 0; open_cnt = 1 }

abbrev root_inode : Inode
root_inode = record { i_no = 0; i_size = 48; i_block = replicate 13 0; open_cnt = 0 }

abbrev small_volume : Volume
small_volume = record {
  disk = small_disk;
  inode_base = 3;
  inode_cnt = 8;
  inode_btmp_lba = 2;
  inode_btmp = one_used;
  inode_table_lba = 3;
  blk_btmp_lba = 4;
  blk_btmp = one_used;
  blk_lba = 5;
  open_inodes = [];
}

only_byte : (lba : ℕ) → small_disk (lba * 512 + 0) ≡ 1 → Synced small_disk lba one_used
unfolding Synced
only_byte lba e zero lt = e
only_byte lba e (suc i) lt = absurd (omega arith)

small_volume-IsValid : IsValid small_volume
small_volume-IsValid = record {
  inode_btmp_valid = one_used-IsValid;
  blk_btmp_valid = one_used-IsValid;
  table_behind = omega arith;
  blk_btmp_behind = omega arith;
  blk_behind = omega arith;
  blk_small = omega arith;
  lba_small = omega arith;
  inode_synced = only_byte 2 refl;
  blk_synced = only_byte 4 refl;
}

no_more : (k : ℕ) → lba_of small_file (suc k) ≡ 0
no_more k = get_or-replicate {A = ℕ} 12 k 0

first_used : check one_used 0 ≡ true
unfolding check a_os.Bitmap.test
first_used = refl

only-Holder : (k : ℕ) → k < 12 → lba_of small_file k ≢ 0 → Holder small_volume (lba_of small_file k)
only-Holder zero lt ne = record {
  block = 0;
  inside = omega arith;
  used = first_used;
  lba_is = refl;
}
only-Holder (suc k) lt ne = absurd (ne (no_more k))

only_one :
    (j k : ℕ)
    → j < 12
    → k < 12
    → j ≢ k
    → lba_of small_file j ≢ 0
    → lba_of small_file j ≢ lba_of small_file k
only_one zero zero lj lk ne nz same = ne refl
only_one zero (suc k) lj lk ne nz same = omega (arith, no_more k, same)
only_one (suc j) k lj lk ne nz same = nz (no_more j)

small_file-Owned : Owned small_volume small_file
small_file-Owned = record {
  base = omega arith;
  array = refl;
  holder = only-Holder;
  distinct = only_one;
}

small_file-Sized : Sized small_file
small_file-Sized zero lt ne = omega arith
small_file-Sized (suc k) lt ne = absurd (ne (no_more k))

seven_free : free_blocks small_volume ≡ 7
unfolding a_os.Inode.Owned.free_below check a_os.Bitmap.test
seven_free = refl

blk_acquire-BlockOutcome_example : BlockOutcome small_volume
blk_acquire-BlockOutcome_example = blk_acquire-BlockOutcome small_volume small_volume-IsValid

blk_release-ReleaseOutcome_example : ReleaseOutcome small_volume 0
blk_release-ReleaseOutcome_example =
    blk_release-ReleaseOutcome small_volume small_volume-IsValid 0 (omega arith)

inode_acquire-AcquireOutcome_example : AcquireOutcome small_volume
inode_acquire-AcquireOutcome_example =
    inode_acquire-AcquireOutcome small_volume small_volume-IsValid

-- A write of 5000 bytes, for which a block is taken.
abbrev sevens : Bytes
sevens i = 7

inode_write-Wrote_example :
    (r : Written) × (inode_write small_volume small_file 10 sevens 5000 ≡ some r)
    × Wrote small_volume small_file 10 sevens 5000 r
inode_write-Wrote_example =
    inode_write-Wrote small_volume small_file 10 sevens 5000 small_volume-IsValid small_file-Owned
      small_file-Sized (omega arith) (omega arith) (omega arith) (omega (arith, seven_free))

read-write_example :
    (r : Written) × (f : Bytes) × (inode_write small_volume small_file 10 sevens 5000 ≡ some r)
    × (inode_read blank r.volume.disk r.inode 10 blank 5000 ≡ some (true, f))
    × ((j : ℕ) → f j ≡ (if ltb j 5000 then sevens j else blank j))
read-write_example =
    read-write small_volume small_file 10 sevens 5000 blank blank (omega arith) (omega arith)
      (omega arith) small_volume-IsValid small_file-Owned small_file-Sized (omega arith)
      (omega (arith, seven_free))

first_block-Present : Present small_file 0 1
first_block-Present = record {
  direct = omega arith;
  present = λ k le lt. let e : k ≡ 0 = omega arith in rw e (omega arith);
}

inode_read-Delivers_example :
    Delivers
      (inode_read blank small_disk small_file 10 blank 90)
      small_disk
      small_file
      blank
      0
      10
      90
inode_read-Delivers_example =
    inode_read-Delivers blank small_disk small_file 10 blank 90 (omega arith) (omega arith)
      (omega arith) first_block-Present

next_block : blk_acquire small_volume ≡ (13, (blk_acquire small_volume).1)
unfolding blk_acquire a_os.Inode.blk_acquired a_os.Bitmap.acquire a_os.Bitmap.byte_scan
    a_os.Bitmap.acquire_from a_os.Bitmap.bit_scan
next_block = refl

release-acquire_block_example :
    (v'' : Volume) × (blk_release (blk_acquire small_volume).1 13 ≡ some v'')
    × IsValid v''
    × ((j : ℕ) → check v''.blk_btmp j ≡ check one_used j)
release-acquire_block_example =
    release-acquire_block small_volume (blk_acquire small_volume).1 13 small_volume-IsValid
      next_block (omega arith)

-- The file is open.
abbrev with_open : Volume
with_open = record small_volume { open_inodes = small_file ∷ [] }

opened_counts : Counted with_open 3
unfolding Counted cached
opened_counts i e = ground (arith, e)

opened_again : (inode_open root_inode with_open 3).0 ≡ some (record small_file { open_cnt = 2 })
unfolding inode_open a_os.Inode.Table.open_on cached
opened_again = refl

small_words : (k : ℕ) → get_or {A = ℕ} (3 ∷ 100 ∷ 5 ∷ replicate 12 0) k 0 < 2 ^ 32
small_words zero = omega arith
small_words (suc zero) = omega arith
small_words (suc (suc zero)) = omega arith
small_words (suc (suc (suc k))) = rw (get_or-replicate {A = ℕ} 12 k 0) (omega arith)

first_inode : check one_used (sub32 3 3) ≡ true
first_inode = first_used

not_open : cached 3 small_volume.open_inodes ≡ none
unfolding cached
not_open = refl

open-update_example :
    (inode_open root_inode (inode_table_update small_volume small_file) 3).0
    ≡ some (record small_file { open_cnt = 1 })
open-update_example =
    open-update root_inode small_file small_volume (record { words = small_words; blocks = refl })
      (omega arith) (omega arith) not_open first_inode
