-- ===== src/Inode/Storing.antt =====
-- One block of a file: taking a free block for it, and writing it.
use a_os.Base.{
  ℕ, ◌+◌, ◌-◌, ◌*◌, ◌/◌, ◌%◌, ◌<◌, ◌≡◌, ◌≢◌, refl, sym, ap, ◌∙◌, true, false, ◌==◌, if◌then◌else◌,
  arith, Bool-cases, inl, inr,
}
use a_os.CString.Copy.{inside}
use a_os.Disk.{Bytes}
use a_os.Inode.{Inode, Volume}
use a_os.Inode.Bitmaps.{IsValid, block_at}
use a_os.Inode.Blocks.{with_block, with_block-inside, with_block-outside, with_block-IsValid}
use a_os.Inode.Content.{lba_of, content, content-block}
use a_os.Inode.Owned.{Owned, Stores}

-- The file's bytes with block `idx` replaced by those of `src` from the offset `at` on.
abbrev pub replaced : (c : Bytes) (idx : ℕ) (src : Bytes) (at n : ℕ) → Bytes
replaced c idx src at n p = if inside (idx * 4096) n p then src (at + (p - idx * 4096)) else c p

-- Bytes of two different blocks.
apart :
    (base b c k : ℕ)
    → b ≢ c
    → k < 4096
    → inside ((base + b * 8) * 512) 4096 ((base + c * 8) * 512 + k) ≡ false
apart base b c k ne lt = ground arith

module _ (v : Volume) (ok : IsValid v) (i : Inode) (own : Owned v i) (idx : ℕ) (lt : idx < 12) where
  module _ (src : Bytes) (at : ℕ) (there : lba_of i idx ≢ 0) where
    abbrev put : Volume
    put = with_block v (lba_of i idx) (λ j. src (at + j))

    put-kept :
        (c k : ℕ)
        → lba_of i idx ≢ v.blk_lba + c * 8
        → k < 4096
        → put.disk (block_at v c + k) ≡ v.disk (block_at v c + k)
    put-kept c k ne small =
        let h = own.holder idx lt there in
        let away : inside (lba_of i idx * 512) 4096 (block_at v c + k) ≡ false = rw h.lba_is (
          apart v.blk_lba h.block c k (λ e. ne (h.lba_is ∙ ap (λ t. v.blk_lba + t * 8) e)) small) in
        with_block-outside v (lba_of i idx) (λ j. src (at + j)) (block_at v c + k) away

    put-bytes :
        (p : ℕ) → p < 49152 → content put.disk i p ≡ replaced (content v.disk i) idx src at 4096 p
    put-bytes p small = elim (Bool-cases (p / 4096 == idx)) [
      | inl here ↦
          let block : p / 4096 ≡ idx = ground arith in
          let in_block : inside (idx * 4096) 4096 p ≡ true = ground arith in
          content-block put.disk i idx p there (omega arith) (omega arith)
          ∙ with_block-inside v (lba_of i idx) (λ j. src (at + j)) (p - idx * 4096) (omega arith)
          ∙ rw in_block refl
      | inr away ↦
          let out : inside (idx * 4096) 4096 p ≡ false = ground arith in
          rw out (elim (Bool-cases (lba_of i (p / 4096) == 0)) [
            | inl hole ↦ rw hole refl
            | inr full ↦
                let held = own.holder (p / 4096) (omega arith) (ground arith) in
                let other : lba_of i idx ≢ v.blk_lba + held.block * 8 = λ e.
                  own.distinct idx (p / 4096) lt (omega arith) (ground arith) there
                    (e ∙ sym held.lba_is) in
                let same = put-kept held.block (p % 4096) other (omega arith) in
                rw (full, held.lba_is) same
          ])
    ]

    pub put-Stores : Stores v i put i (replaced (content v.disk i) idx src at 4096) 0
    put-Stores =
        let h = own.holder idx lt there in
        record {
          valid =
              with_block-IsValid v (lba_of i idx) (λ j. src (at + j)) (omega (arith, h.lba_is)) ok;
          owned = record {
            base = own.base;
            array = own.array;
            holder = λ k lk ne.
                let g = own.holder k lk ne in
                record { block = g.block; inside = g.inside; used = g.used; lba_is = g.lba_is };
            distinct = own.distinct;
          };
          bytes = put-bytes;
          foreign = λ b f. record { inside = f.inside; used = f.used; other = f.other };
          kept = λ b k f lk. put-kept b k (f.other idx lt) lk;
          grows = λ k ne. ne;
          rest = refl;
          volume_rest = refl;
          front = λ a la.
              with_block-outside v (lba_of i idx) (λ j. src (at + j)) a
                (ground (arith, h.lba_is, ok.blk_behind));
          free = omega arith;
        }
