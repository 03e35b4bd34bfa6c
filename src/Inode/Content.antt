-- ===== src/Inode/Content.antt =====
-- What a file contains, and what `blk_read` delivers of it.
use a_os.Base.{
  ℕ, zero, suc, ◌+◌, ◌-◌, ◌*◌, ◌/◌, ◌%◌, ◌≤◌, ◌<◌, ◌≡◌, ◌≢◌, refl, sym, ap, ◌∙◌, true, false, some,
  ltb, ◌==◌, if◌then◌else◌, get_or, arith, Bool-cases, inl, inr,
}
use a_os.Base.Words.{add32, sub32}
use a_os.CString.Copy.{inside}
use a_os.Disk.{Bytes, blank}
use a_os.Disk.Rounds.{ide_read-blit}
use a_os.Inode.{Inode}
use a_os.Inode.Data.{read_to, blk_read_loop, blk_in_range, blk_read}

-- The LBA of block `k`.
abbrev pub lba_of : Inode → ℕ → ℕ
lba_of inode k = get_or inode.i_block k 0

-- The byte at the position `p` of a file whose blocks are direct; a block that is not there is zero.
abbrev pub content : (disk : Bytes) → Inode → Bytes
content disk inode p =
    if lba_of inode (p / 4096) == 0 then 0 else disk (lba_of inode (p / 4096) * 512 + p % 4096)

-- The `n` blocks from `idx` on are direct blocks that are there.
pub record Present (inode : Inode) (idx n : ℕ) : Type 0 where
  pub direct : idx + n ≤ 12
  pub present : (k : ℕ) → idx ≤ k → k < idx + n → lba_of inode k ≢ 0

pub read_to-bytes :
    (disk : Bytes) (lba : ℕ) (dst : Bytes) (at i : ℕ)
    → read_to disk lba dst at i ≡ (if inside at 4096 i then disk (lba * 512 + (i - at)) else dst i)
read_to-bytes disk lba dst at i = elim (Bool-cases (inside at 4096 i)) [
  | inr away ↦ rw away refl
  | inl here ↦
      let whole : inside 0 4096 (0 + (i - at)) ≡ true = ground arith in
      let from : lba * 512 + (0 + (i - at) - 0) ≡ lba * 512 + (i - at) = omega arith in
      rw (here, ide_read-blit disk lba blank 8 (omega arith) (omega arith), whole, from) refl
]

-- The position `j` of block `k`.
pub content-block :
    (disk : Bytes) (inode : Inode) (k p : ℕ)
    → lba_of inode k ≢ 0
    → k * 4096 ≤ p
    → p < k * 4096 + 4096
    → content disk inode p ≡ disk (lba_of inode k * 512 + (p - k * 4096))
content-block disk inode k p there le lt =
    let block : p / 4096 ≡ k = omega arith in
    let at : p % 4096 ≡ p - k * 4096 = omega arith in
    let used : (lba_of inode k == 0) ≡ false = ground arith in rw (block, used, at) refl

-- A buffer that holds `n` bytes of a file, from the position `p` on, at the offset `at`.
abbrev pub Holds : (disk : Bytes) → Inode → (f dst : Bytes) (at p n : ℕ) → Type 0
Holds disk inode f dst at p n =
    (i : ℕ) → f i ≡ (if inside at n i then content disk inode (p + (i - at)) else dst i)

loop_join :
    (disk : Bytes) (inode : Inode) (n idx : ℕ) (dst : Bytes) (ret i : ℕ)
    → lba_of inode idx ≢ 0
    → (if inside (ret + 4096) (n * 4096) i
        then content disk inode ((idx + 1) * 4096 + (i - (ret + 4096)))
        else read_to disk (lba_of inode idx) dst ret i)
      ≡ (if inside ret (suc n * 4096) i then content disk inode (idx * 4096 + (i - ret)) else dst i)
loop_join disk inode n idx dst ret i there = elim (Bool-cases (inside (ret + 4096) (n * 4096) i)) [
  | inl later ↦
      let all : inside ret (suc n * 4096) i ≡ true = ground arith in
      let at : (idx + 1) * 4096 + (i - (ret + 4096)) ≡ idx * 4096 + (i - ret) = ground arith in
      rw (later, all, at) refl
  | inr not_later ↦
      rw (not_later, read_to-bytes)
        (elim (Bool-cases (inside ret 4096 i)) [
          | inl here ↦
              let all : inside ret (suc n * 4096) i ≡ true = ground arith in
              let at : idx * 4096 + (i - ret) - idx * 4096 ≡ i - ret = omega arith in
              let lo : idx * 4096 ≤ idx * 4096 + (i - ret) = omega arith in
              let hi : idx * 4096 + (i - ret) < idx * 4096 + 4096 = ground arith in
              rw (here, all)
                (sym (
                  content-block disk inode idx (idx * 4096 + (i - ret)) there lo hi
                  ∙ ap (λ t. disk (lba_of inode idx * 512 + t)) at))
          | inr away ↦
              let out : inside ret (suc n * 4096) i ≡ false = ground arith in rw (away, out) refl
        ])
]

pub loop-Holds :
    (n : ℕ) (disk : Bytes) (inode : Inode) (idx : ℕ) (dst : Bytes) (ret : ℕ)
    → Present inode idx n
    → (f : Bytes) × (blk_read_loop n disk inode idx dst ret ≡ some (some (ret + n * 4096), f))
      × Holds disk inode f dst ret (idx * 4096) (n * 4096)
unfolding blk_read_loop
loop-Holds zero disk inode idx dst ret p =
    let e : ret + 0 ≡ ret = omega arith in
    (dst, rw e refl, λ i. let out : inside ret 0 i ≡ false = ground arith in rw out refl)
loop-Holds (suc n) disk inode idx dst ret p =
    let direct : ltb idx 12 ≡ true = let d = p.direct in ground arith in
    let there : lba_of inode idx ≢ 0 = p.present idx (omega arith) (omega arith) in
    let used : (lba_of inode idx == 0) ≡ false = ground arith in
    let (f, e, h) =
      loop-Holds n disk inode (idx + 1) (read_to disk (lba_of inode idx) dst ret) (ret + 4096)
        (record {
          direct = omega (arith, p.direct);
          present = λ k le lt. p.present k (omega arith) (omega arith);
        }) in
    let sum : ret + 4096 + n * 4096 ≡ ret + suc n * 4096 = omega arith in
    (
      f,
      rw (direct, used) (e ∙ ap (λ t. some (some t, f)) sum),
      λ i. h i ∙ loop_join disk inode n idx dst ret i there,
    )

-- `blk_read` of blocks that are there, not past the one that the file ends in.
pub blk_read-Holds :
    (disk : Bytes) (inode : Inode) (idx : ℕ) (dst : Bytes) (n : ℕ)
    → Present inode idx n
    → 0 < n
    → (idx + n - 1) * 4096 ≤ inode.i_size
    → (f : Bytes) × (blk_read disk inode idx dst n ≡ some (some (n * 4096), f))
      × Holds disk inode f dst 0 (idx * 4096) (n * 4096)
unfolding blk_read
blk_read-Holds disk inode idx dst n p pos inside_file =
    let (f, e, h) = loop-Holds n disk inode idx dst 0 p in
    let d = p.direct in
    let some_blocks : (n == 0) ≡ false = ground arith in
    let last : sub32 (add32 idx n) 1 ≡ idx + n - 1 = omega (arith, d) in
    let count : add32 idx n - idx ≡ n = omega (arith, d) in
    let head_ok : blk_in_range (inode.i_size / 4096) idx ≡ true = ground (arith, d) in
    let last_ok : blk_in_range (inode.i_size / 4096) (idx + n - 1) ≡ true = ground (arith, d) in
    let sum : 0 + n * 4096 ≡ n * 4096 = omega arith in
    (f, rw (last, some_blocks, head_ok, last_ok, count) (e ∙ ap (λ t. some (some t, f)) sum), h)
