-- ===== src/Fs/Layout.antt =====
-- The figures of the layout on a partition below 2 ^ 23 sectors.
use a_os.Base.{ℕ, zero, suc, ◌+◌, ◌-◌, ◌/◌, ◌^◌, ◌≤◌, ◌<◌, ◌≡◌, get_or, arith}
use a_os.Fs.{layout, blocks_in, free_sec, btmp_sectors, super_words}

-- The number of sectors of the block bitmap.
abbrev pub btmp_sec : ℕ → ℕ
btmp_sec sec_cnt = ((sec_cnt - 515) / 8 + 4095) / 4096

module _ (start_lba sec_cnt : ℕ) (enough : 515 < sec_cnt) (small : sec_cnt < 2 ^ 23)
    (low : start_lba < 2 ^ 31) where
  pub btmp_sec-small : btmp_sec sec_cnt ≤ 256
  btmp_sec-small = omega arith

  sectors_are : btmp_sectors (blocks_in (free_sec sec_cnt)) ≡ btmp_sec sec_cnt
  sectors_are =
      let e : blocks_in (free_sec sec_cnt) ≡ (sec_cnt - 515) / 8 = omega arith in rw e (omega arith)

  pub layout_figures :
      ((layout start_lba sec_cnt).inode_btmp_lba ≡ start_lba + 2)
      × ((layout start_lba sec_cnt).inode_table_lba ≡ start_lba + 3)
      × ((layout start_lba sec_cnt).blk_btmp_lba ≡ start_lba + 515)
      × ((layout start_lba sec_cnt).blk_btmp_sec ≡ btmp_sec sec_cnt)
      × ((layout start_lba sec_cnt).blk_lba ≡ start_lba + 515 + btmp_sec sec_cnt)
  unfolding layout
  layout_figures =
      let s = btmp_sec-small in
      (omega arith, omega arith, omega arith, sectors_are, rw sectors_are (omega arith))

  pub layout_words : (k : ℕ) → get_or (super_words (layout start_lba sec_cnt)) k 0 < 2 ^ 32
  unfolding layout
  layout_words zero = omega arith
  layout_words (suc zero) = omega arith
  layout_words (suc (suc zero)) = omega arith
  layout_words (suc (suc (suc zero))) = omega arith
  layout_words (suc (suc (suc (suc zero)))) = omega arith
  layout_words (suc (suc (suc (suc (suc zero))))) = omega arith
  layout_words (suc (suc (suc (suc (suc (suc zero)))))) = omega arith
  layout_words (suc (suc (suc (suc (suc (suc (suc zero))))))) = omega arith
  layout_words (suc (suc (suc (suc (suc (suc (suc (suc zero)))))))) = omega arith
  layout_words (suc (suc (suc (suc (suc (suc (suc (suc (suc zero))))))))) = omega arith
  layout_words (suc (suc (suc (suc (suc (suc (suc (suc (suc (suc k)))))))))) = omega arith
