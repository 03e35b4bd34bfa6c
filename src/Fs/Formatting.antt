-- ===== src/Fs/Formatting.antt =====
-- What `fs_format` leaves on the disk: bytes, and a super block that reads back.
use a_os.Base.{
  ℕ, zero, suc, ◌+◌, ◌-◌, ◌*◌, ◌/◌, ◌%◌, ◌^◌, ◌≤◌, ◌<◌, ◌≡◌, refl, ap, ◌∙◌, List, [], ◌∷◌, true,
  ◌==◌, get_or, arith, Bool-cases, inl, inr,
}
use a_os.Base.Words.{add32}
use a_os.CString.Copy.{inside}
use a_os.Bitmap.{clear}
use a_os.Bitmap.Byte.{clear-lt}
use a_os.Disk.{Bytes, blank, blit, ide_read, ide_write}
use a_os.Disk.Word.{byte_of, word_at, bytes_of, word_at-bytes_of, word_at-same_at}
use a_os.Disk.Rounds.{ide_read-blit, ide_write-blit, ide_write-outside}
use a_os.Inode.Bitmaps.{IsValid}
use a_os.Fs.{
  SuperBlock, layout, super_words, first_bit, clear_bits, block_bits, root_entries, fs_format,
  read_super, fs_mount,
}
use a_os.Fs.Layout.{btmp_sec-small, layout_figures, layout_words}
use a_os.Fs.Mounting.{mount-IsValid}

-- Every value is a byte.
abbrev IsBytes : Bytes → Type 0
IsBytes b = (a : ℕ) → b a < 256

write-IsBytes :
    (disk : Bytes) (lba : ℕ) (src : Bytes) (cnt : ℕ)
    → 0 < cnt
    → cnt ≤ 256
    → IsBytes disk
    → IsBytes src
    → IsBytes (ide_write disk lba src cnt)
write-IsBytes disk lba src cnt pos few hd hs a =
    rw (ide_write-blit disk lba src cnt pos few)
      (elim (Bool-cases (inside (lba * 512) (cnt * 512) a)) [
        | inl here ↦ rw here (hs (0 + (a - lba * 512)))
        | inr away ↦ rw away (hd a)
      ])

byte_of-lt : (k w : ℕ) → byte_of w k < 256
byte_of-lt zero w = omega arith
byte_of-lt (suc k) w = byte_of-lt k (w / 256)

bytes_of-IsBytes : (ws : List ℕ) → IsBytes (bytes_of ws)
bytes_of-IsBytes ws a = byte_of-lt (a % 4) (get_or ws (a / 4) 0)

first_bit-IsBytes : IsBytes first_bit
first_bit-IsBytes a = ground arith

root_entries-IsBytes : IsBytes root_entries
root_entries-IsBytes a = ground arith

clear_bits-lt : (n idx x : ℕ) → idx + n ≤ 8 → x < 256 → clear_bits n idx x < 256
unfolding clear_bits
clear_bits-lt zero idx x fit lt = lt
clear_bits-lt (suc n) idx x fit lt =
    clear_bits-lt n (idx + 1) (clear x idx) (omega arith) (clear-lt x idx lt (omega arith))

filled-IsBytes : (t n : ℕ) → IsBytes (blit first_bit t (λ i. 0xFF) 0 n)
filled-IsBytes t n a = ground (arith, first_bit-IsBytes a)

block_bits-IsBytes : (blk_cnt : ℕ) → IsBytes (block_bits blk_cnt)
unfolding block_bits
block_bits-IsBytes blk_cnt a =
    let b = filled-IsBytes (blk_cnt / 8) (512 - blk_cnt / 8 % 512) a in
    let c =
      clear_bits-lt (blk_cnt % 8 + 1) 0
        (blit first_bit (blk_cnt / 8) (λ i. 0xFF) 0 (512 - blk_cnt / 8 % 512) a) (omega arith) b in
    elim (Bool-cases (a == blk_cnt / 8)) [ inl last ↦ rw last c | inr other ↦ rw other b ]

module _ (disk : Bytes) (start_lba sec_cnt : ℕ) (enough : 522 < sec_cnt) (small : sec_cnt < 2 ^ 23)
    (low : start_lba < 2 ^ 31) where
  abbrev sb : SuperBlock
  sb = layout start_lba sec_cnt

  btmp_sec-range : (0 < sb.blk_btmp_sec) × (sb.blk_btmp_sec ≤ 256)
  btmp_sec-range =
      let f = layout_figures start_lba sec_cnt (omega arith) small low in
      let s = btmp_sec-small start_lba sec_cnt (omega arith) small low in
      (omega (arith, f.3), omega (arith, f.3, s))

  format-IsBytes : IsBytes disk → IsBytes (fs_format disk start_lba sec_cnt)
  unfolding fs_format layout
  format-IsBytes h =
      let (pos, few) = btmp_sec-range in
      write-IsBytes _ sb.blk_lba root_entries 1 (omega arith) (omega arith)
        (write-IsBytes _ sb.blk_btmp_lba (block_bits sb.blk_cnt) sb.blk_btmp_sec pos few
          (write-IsBytes _ sb.inode_table_lba (bytes_of (0 ∷ 48 ∷ sb.blk_lba ∷ [])) 1 (omega arith)
            (omega arith)
            (write-IsBytes _ sb.inode_btmp_lba first_bit 1 (omega arith) (omega arith)
              (write-IsBytes disk (add32 start_lba 1) (bytes_of (super_words sb)) 1 (omega arith)
                (omega arith) h (bytes_of-IsBytes (super_words sb)))
              first_bit-IsBytes)
            (bytes_of-IsBytes (0 ∷ 48 ∷ sb.blk_lba ∷ [])))
          (block_bits-IsBytes sb.blk_cnt))
        root_entries-IsBytes

  -- A write behind the super block.
  later :
      (d : Bytes) (lba : ℕ) (src : Bytes) (cnt k : ℕ)
      → start_lba + 2 ≤ lba
      → k < 512
      → ide_write d lba src cnt ((start_lba + 1) * 512 + k) ≡ d ((start_lba + 1) * 512 + k)
  later d lba src cnt k behind lt =
      ide_write-outside d lba src cnt ((start_lba + 1) * 512 + k) (ground arith)

  -- The sector of the super block is written once.
  super_sector :
      (k : ℕ)
      → k < 512
      → fs_format disk start_lba sec_cnt ((start_lba + 1) * 512 + k) ≡ bytes_of (super_words sb) k
  unfolding fs_format
  super_sector k lt =
      let f = layout_figures start_lba sec_cnt (omega arith) small low in
      let lba : add32 start_lba 1 ≡ start_lba + 1 = omega arith in
      let here : inside ((start_lba + 1) * 512) 512 ((start_lba + 1) * 512 + k) ≡ true =
        ground arith in
      let at : 0 + ((start_lba + 1) * 512 + k - (start_lba + 1) * 512) ≡ k = omega arith in
      later _ sb.blk_lba root_entries 1 k (omega (arith, f.4)) lt
      ∙ later _ sb.blk_btmp_lba (block_bits sb.blk_cnt) sb.blk_btmp_sec k (omega (arith, f.2)) lt
      ∙ later _ sb.inode_table_lba (bytes_of (0 ∷ 48 ∷ sb.blk_lba ∷ [])) 1 k (omega (arith, f.1)) lt
      ∙ later _ sb.inode_btmp_lba first_bit sb.inode_btmp_sec k (omega (arith, f.0)) lt
      ∙ ap (λ t. ide_write disk t (bytes_of (super_words sb)) 1 ((start_lba + 1) * 512 + k)) lba
      ∙ rw
          (
            ide_write-blit disk (start_lba + 1) (bytes_of (super_words sb)) 1 (omega arith)
                (omega arith),
            here,
            at,
          )
          refl

  -- The super block as `fs_mount` reads it, byte by byte and word by word.
  read_byte :
      (k : ℕ)
      → k < 512
      → ide_read (fs_format disk start_lba sec_cnt) (add32 start_lba 1) blank 1 k
        ≡ bytes_of (super_words sb) k
  read_byte k lt =
      let lba : add32 start_lba 1 ≡ start_lba + 1 = omega arith in
      let here : inside 0 512 k ≡ true = ground arith in
      let at : (start_lba + 1) * 512 + (k - 0) ≡ (start_lba + 1) * 512 + k = omega arith in
      ap (λ t. ide_read (fs_format disk start_lba sec_cnt) t blank 1 k) lba
      ∙ rw
          (
            ide_read-blit (fs_format disk start_lba sec_cnt) (start_lba + 1) blank 1 (omega arith)
                (omega arith),
            here,
            at,
          )
          (super_sector k lt)

  read_word :
      (k : ℕ)
      → k < 10
      → word_at (ide_read (fs_format disk start_lba sec_cnt) (add32 start_lba 1) blank 1) (4 * k)
        ≡ get_or (super_words sb) k 0
  read_word k lt =
      word_at-same_at (ide_read (fs_format disk start_lba sec_cnt) (add32 start_lba 1) blank 1)
        (bytes_of (super_words sb)) (4 * k) (4 * k) (read_byte (4 * k) (omega arith))
        (read_byte (4 * k + 1) (omega arith)) (read_byte (4 * k + 2) (omega arith))
        (read_byte (4 * k + 3) (omega arith))
      ∙ word_at-bytes_of (super_words sb) k
          (layout_words start_lba sec_cnt (omega arith) small low k)

  -- After `fs_format` of a partition of more than 522 and fewer than 2 ^ 23 sectors that starts
  -- below sector 2 ^ 31, the super block that `fs_mount` reads is the layout that was computed.
  pub read_super-format :
      read_super (fs_format disk start_lba sec_cnt) start_lba ≡ layout start_lba sec_cnt
  unfolding read_super
  read_super-format =
      rw
        (
          read_word 0 (omega arith),
          read_word 1 (omega arith),
          read_word 2 (omega arith),
          read_word 3 (omega arith),
          read_word 4 (omega arith),
          read_word 5 (omega arith),
          read_word 6 (omega arith),
          read_word 7 (omega arith),
          read_word 8 (omega arith),
          read_word 9 (omega arith),
        )
        refl

  -- On a disk of bytes, `fs_mount` of a partition of more than 522 and fewer than 2 ^ 23 sectors
  -- that starts below sector 2 ^ 31 and that `fs_format` has just formatted gives a valid volume:
  -- the bitmaps, the inode table and the blocks lie one behind the other, and the bitmaps in memory
  -- are those on the disk.
  pub mount-format :
      (base inode_max : ℕ)
      → ((a : ℕ) → disk a < 256)
      → IsValid (fs_mount (fs_format disk start_lba sec_cnt) start_lba base inode_max).0
  mount-format base inode_max h =
      mount-IsValid start_lba sec_cnt enough small low base inode_max
        (fs_format disk start_lba sec_cnt) (format-IsBytes h) read_super-format
