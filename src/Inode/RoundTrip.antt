-- ===== src/Inode/RoundTrip.antt =====
-- What `inode_write` leaves, and `inode_read` after it.
use a_os.Base.{
  ℕ, ◌+◌, ◌-◌, ◌*◌, ◌/◌, ◌≤◌, ◌<◌, ◌≡◌, ◌≢◌, refl, sym, ap, ◌∙◌, true, false, some, ltb, ◌==◌,
  if◌then◌else◌, arith, Bool-cases, inl, inr,
}
use a_os.CString.Copy.{inside}
use a_os.Disk.{Bytes}
use a_os.Inode.{Inode, Volume}
use a_os.Inode.Bitmaps.{IsValid, block_at}
use a_os.Inode.Acquire.{with_entry-IsValid}
use a_os.Inode.Transfer.{Written, inode_write, inode_read}
use a_os.Inode.Content.{Present}
use a_os.Inode.Owned.{Owned, free_blocks}
use a_os.Inode.Reading.{touched, figures, inode_read-Delivers}
use a_os.Inode.WriteSteps.{Sized, Settled}
use a_os.Inode.WriteLaws.{Runs, one_block, more_blocks}
use a_os.Inode.Writing.{
  entry_of, SettledAt, Wrote, grown, saved, saved-Owned, saved-bytes, saved-outside,
  write_size-grows, write_size-stays, write_step,
}

module _ (v : Volume) (i : Inode) (pos : ℕ) (src : Bytes) (cnt : ℕ) (ok : IsValid v)
    (own : Owned v i) (sized : Sized i) (entry : entry_of v i < v.inode_btmp.len * 8)
    (some_bytes : 0 < cnt) (fit : pos + cnt ≤ 45056) (room : touched pos cnt ≤ free_blocks v) where
  runs : Runs v i (figures pos cnt) src (pos + cnt) ok own pos cnt
  runs = elim (Bool-cases (touched pos cnt == 1)) [
    | inl one ↦
        let one' : touched pos cnt ≡ 1 = ground arith in
        one_block v i (figures pos cnt) src (pos + cnt) ok own pos cnt one' (omega arith)
          (omega (arith, one')) (omega arith) sized (omega arith)
    | inr more ↦
        let many : 1 < touched pos cnt = ground arith in
        more_blocks v i (figures pos cnt) src (pos + cnt) ok own pos cnt many (omega arith)
          (omega arith) (omega arith) (omega arith) (omega arith) (omega arith) sized room
  ]

  settled : (p : ℕ) → SettledAt i pos cnt p → Settled v i (figures pos cnt) src (pos + cnt) ok own p
  settled p (inl early) = inl (omega arith)
  settled p (inr late) = inr late

  done :
      Runs v i (figures pos cnt) src (pos + cnt) ok own pos cnt
      → (r : Written) × (inode_write v i pos src cnt ≡ some r) × Wrote v i pos src cnt r
  done (v', i', c, e, th, s, b) =
      let step = write_step v i pos src cnt some_bytes (omega arith) in
      let same_size : i'.i_size ≡ i.i_size = ap (λ (x : Inode). x.i_size) s.rest in
      let same_number : i'.i_no ≡ i.i_no = ap (λ (x : Inode). x.i_no) s.rest in
      let base : v'.inode_base ≡ v.inode_base = ap (λ (x : Volume). x.inode_base) s.volume_rest in
      let len : v'.inode_btmp.len ≡ v.inode_btmp.len =
        ap (λ (x : Volume). x.inode_btmp.len) s.volume_rest in
      let here : Present i' (pos / 4096) (touched pos cnt) = record {
        direct = omega arith;
        present = th;
      } in
      elim (Bool-cases (ltb i'.i_size (pos + cnt))) [
        | inr stays ↦ (
          record { ret = some 0; inode = i'; volume = v' },
          step ∙ e ∙ write_size-stays (pos + cnt) i' v' stays,
          record {
            ret = refl;
            number = same_number;
            size = ground (arith, same_size);
            valid = s.valid;
            owned = s.owned;
            there = here;
            bytes = λ p lt st. s.bytes p lt ∙ b p lt (settled p st);
            kept = s.kept;
          },
        )
        | inl grows ↦
            let ends = pos + cnt in
            let entry' : entry_of v' i' < v'.inode_btmp.len * 8 =
              rw (same_number, base, len) entry in
            let lba : v'.blk_lba ≡ v.blk_lba = ap (λ (x : Volume). x.blk_lba) s.volume_rest in
            (
              record { ret = some 0; inode = grown i' ends; volume = saved v' i' ends },
              step ∙ e ∙ write_size-grows v' i' s.valid s.owned entry' ends (ground arith),
              record {
                ret = refl;
                number = same_number;
                size = ground (arith, same_size);
                valid = with_entry-IsValid v' s.valid (entry_of v' i') entry' (grown i' ends);
                owned = saved-Owned v' i' s.valid s.owned entry' ends;
                there = record { direct = here.direct; present = here.present };
                bytes = λ p lt st.
                    saved-bytes v' i' s.valid s.owned entry' ends p lt
                    ∙ s.bytes p lt
                    ∙ b p lt (settled p st);
                kept = λ c k f lt.
                    saved-outside v' i' s.valid s.owned entry' ends (block_at v c + k)
                      (omega (arith, lba, s.valid.blk_behind))
                    ∙ s.kept c k f lt;
              },
            )
      ]

  -- Under the conditions of a write within the first eleven blocks `inode_write` returns 0; the
  -- size is the larger of the old one and the end of the stretch; the file's bytes are the new ones
  -- in the stretch and the old ones elsewhere, but for those behind its end in a last block that
  -- was not there before; the blocks of the stretch are there; the volume is valid, the file owns
  -- its blocks, and no other block in use changes.
  pub inode_write-Wrote :
      (r : Written) × (inode_write v i pos src cnt ≡ some r) × Wrote v i pos src cnt r
  inode_write-Wrote = done runs

-- `inode_read` of the stretch that was written.
module _ (v : Volume) (i : Inode) (pos : ℕ) (src : Bytes) (cnt : ℕ) (root_blk dst : Bytes)
    (file : i.i_no ≢ 0) (some_bytes : 0 < cnt) (fit : pos + cnt ≤ 45056) where
  reads_back :
      (r : Written)
      → Wrote v i pos src cnt r
      → (f : Bytes) × (inode_read root_blk r.volume.disk r.inode pos dst cnt ≡ some (true, f))
        × ((j : ℕ) → f j ≡ (if ltb j cnt then src j else dst j))
  reads_back r w =
      let number = w.number in
      let size : pos + cnt ≤ r.inode.i_size = ground (arith, w.size) in
      let (f, e, h) =
        inode_read-Delivers root_blk r.volume.disk r.inode pos dst cnt (λ z. file (sym number ∙ z))
          some_bytes size w.there in
      (
        f,
        e,
        λ j. h j ∙ elim (Bool-cases (ltb j cnt)) [
          | inl within ↦
              let here : inside 0 cnt j ≡ true = ground arith in
              let there : inside pos cnt (pos + (j - 0)) ≡ true = ground arith in
              let at : 0 + (pos + (j - 0) - pos) ≡ j = omega arith in
              let early : pos + (j - 0) < pos + cnt = ground arith in
              rw (here, within)
                (w.bytes (pos + (j - 0)) (omega arith) (inl early) ∙ rw (there, at) refl)
          | inr beyond ↦ let out : inside 0 cnt j ≡ false = ground arith in rw (out, beyond) refl
        ],
      )

  -- On a valid volume, for a file that is not the root directory, owns its direct blocks and has
  -- none behind its end, and a positive number of bytes that ends within the first eleven blocks
  -- and for which there are enough free blocks, `inode_write` succeeds, and `inode_read` of the
  -- same stretch then succeeds and delivers the bytes that were written, and nothing else.
  pub read-write :
      IsValid v
      → Owned v i
      → Sized i
      → entry_of v i < v.inode_btmp.len * 8
      → touched pos cnt ≤ free_blocks v
      → (r : Written) × (f : Bytes) × (inode_write v i pos src cnt ≡ some r)
        × (inode_read root_blk r.volume.disk r.inode pos dst cnt ≡ some (true, f))
        × ((j : ℕ) → f j ≡ (if ltb j cnt then src j else dst j))
  read-write ok own sized entry room =
      let (r, e, w) = inode_write-Wrote v i pos src cnt ok own sized entry some_bytes fit room in
      let (f, e', h) = reads_back r w in (r, f, e, e', h)
