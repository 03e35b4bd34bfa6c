-- ===== src/Fs/Mounting.antt =====
-- `fs_mount` of a formatted partition makes a valid volume.
use a_os.Base.{
  ℕ, zero, suc, ◌+◌, ◌*◌, ◌%◌, ◌^◌, ◌≤◌, ◌<◌, ◌≡◌, refl, sym, ap, ◌∙◌, true, if◌then◌else◌, ltb,
  get_or, length, arith, Bool-cases, inl, inr,
}
use a_os.Bitmap.{Bitmap, byte}
use a_os.Disk.{Bytes, blank, ide_read}
use a_os.Disk.Rounds.{ide_read-bytes}
use a_os.Inode.Bitmaps.{IsValid, Synced}
use a_os.Fs.{SuperBlock, layout, read_super, listed, load_btmp, fs_mount}
use a_os.Fs.Layout.{btmp_sec-small, layout_figures}

length-listed : (n : ℕ) (b : Bytes) (i : ℕ) → length (listed n b i) ≡ n
unfolding listed
length-listed zero b i = refl
length-listed (suc n) b i = ap suc (length-listed n b (i + 1))

get_or-listed :
    (n : ℕ) (b : Bytes) (i k : ℕ) → get_or (listed n b i) k 0 ≡ (if ltb k n then b (i + k) else 0)
unfolding listed
get_or-listed zero b i k = ground arith
get_or-listed (suc n) b i zero = let e : i + 0 ≡ i = omega arith in ground (arith, ap b e)
get_or-listed (suc n) b i (suc k) =
    let e : i + 1 + k ≡ i + suc k = omega arith in
    ground (arith, get_or-listed n b (i + 1) k, ap b e)

-- A bitmap that is read from the disk.
module _ (disk : Bytes) (bytes : (a : ℕ) → disk a < 256) (lba sec : ℕ) (few : sec ≤ 256) where
  load_btmp-byte :
      (i : ℕ)
      → byte (load_btmp disk lba sec) i ≡ (if ltb i (sec * 512) then disk (lba * 512 + i) else 0)
  load_btmp-byte i =
      get_or-listed (sec * 512) (ide_read disk lba blank sec) 0 i
      ∙ elim (Bool-cases (ltb i (sec * 512))) [
        | inr out ↦ rw out refl
        | inl within ↦
            let z : 0 + i ≡ i = omega arith in
            let m : i % 131072 ≡ i = ground arith in
            rw (within, z) (ide_read-bytes disk lba blank sec i ∙ rw (within, m) refl)
      ]

  load_btmp-IsValid : a_os.Bitmap.Inv.IsValid (load_btmp disk lba sec)
  load_btmp-IsValid = record {
    holds = omega (arith, length-listed (sec * 512) (ide_read disk lba blank sec) 0);
    small = omega arith;
    bytes = λ i. rw (load_btmp-byte i) (ground (arith, bytes (lba * 512 + i)));
  }

  load_btmp-Synced : Synced disk lba (load_btmp disk lba sec)
  unfolding Synced
  load_btmp-Synced i lt =
      let within : ltb i (sec * 512) ≡ true = ground arith in
      sym (load_btmp-byte i ∙ rw within refl)

module _ (start_lba sec_cnt : ℕ) (enough : 522 < sec_cnt) (small : sec_cnt < 2 ^ 23)
    (low : start_lba < 2 ^ 31) (base inode_max : ℕ) where
  -- A partition whose super block is that of the layout.
  pub mount-IsValid :
      (disk : Bytes)
      → ((a : ℕ) → disk a < 256)
      → read_super disk start_lba ≡ layout start_lba sec_cnt
      → IsValid (fs_mount disk start_lba base inode_max).0
  unfolding fs_mount layout
  mount-IsValid disk bytes e =
      let (e1, e2, e3, e4, e5) = layout_figures start_lba sec_cnt (omega arith) small low in
      let s = btmp_sec-small start_lba sec_cnt (omega arith) small low in
      let f1 = ap (λ (x : SuperBlock). x.inode_btmp_lba) e ∙ e1 in
      let f2 = ap (λ (x : SuperBlock). x.inode_table_lba) e ∙ e2 in
      let f3 = ap (λ (x : SuperBlock). x.blk_btmp_lba) e ∙ e3 in
      let f4 = ap (λ (x : SuperBlock). x.blk_btmp_sec) e ∙ e4 in
      let f5 = ap (λ (x : SuperBlock). x.blk_lba) e ∙ e5 in
      let f6 : (read_super disk start_lba).inode_btmp_sec ≡ 1 =
        ap (λ (x : SuperBlock). x.inode_btmp_sec) e in
      let sb = read_super disk start_lba in
      record {
        inode_btmp_valid =
            load_btmp-IsValid disk bytes sb.inode_btmp_lba sb.inode_btmp_sec (omega (arith, f6));
        blk_btmp_valid =
            load_btmp-IsValid disk bytes sb.blk_btmp_lba sb.blk_btmp_sec (omega (arith, f4, s));
        table_behind = omega (arith, f1, f2, f6);
        blk_btmp_behind = omega (arith, f2, f3, f6);
        blk_behind = omega (arith, f3, f4, f5);
        blk_small = omega (arith, f4, s);
        lba_small = omega (arith, f4, f5, s);
        inode_synced =
            load_btmp-Synced disk bytes sb.inode_btmp_lba sb.inode_btmp_sec (omega (arith, f6));
        blk_synced =
            load_btmp-Synced disk bytes sb.blk_btmp_lba sb.blk_btmp_sec (omega (arith, f4, s));
      }
