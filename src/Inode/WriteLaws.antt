-- ===== src/Inode/WriteLaws.antt =====
-- `inode_write`: the bytes, the size and the blocks of a file after a stretch of it is written.
use a_os.Base.{
  ℕ, ◌+◌, ◌-◌, ◌*◌, ◌≤◌, ◌<◌, ◌≡◌, ◌≢◌, refl, ap, ◌∙◌, true, false, ◌==◌, if◌then◌else◌, arith,
  Bool-cases, inl, inr,
}
use a_os.CString.Copy.{inside}
use a_os.Disk.{Bytes}
use a_os.Inode.{Inode, Volume}
use a_os.Inode.Bitmaps.{IsValid}
use a_os.Inode.Transfer.{Span, write_size, write_last, write_middle, write_first}
use a_os.Inode.Content.{lba_of, content}
use a_os.Inode.Owned.{Owned, Stores, Stores-as, Stores-trans, free_blocks}
use a_os.Inode.Storing.{replaced}
use a_os.Inode.WriteSteps.{
  Sized, FirstDone, first-FirstDone, MiddleDone, any-MiddleDone, no_more, Settled, LastDone,
  last-LastDone,
}

-- The file's bytes with `cnt` of them from `pos` on replaced by those of `src`.
abbrev pub spread : (c : Bytes) (pos : ℕ) (src : Bytes) (cnt : ℕ) → Bytes
spread c pos src cnt p = if inside pos cnt p then src (0 + (p - pos)) else c p

-- Three stretches, one behind the other.
join_three :
    (src : Bytes) (pos m h k t toff cnt p x0 x1 x2 x3 : ℕ)
    → pos + m ≡ (h + 1) * 4096
    → t ≡ h + 1 + k
    → cnt ≡ m + k * 4096 + (toff + 1)
    → x1 ≡ (if inside pos m p then src (0 + (p - pos)) else x0)
    → x2
      ≡ (if inside ((h + 1) * 4096) (k * 4096) p then src (m + (0 + (p - (h + 1) * 4096))) else x1)
    → x3 ≡ (
        if inside (t * 4096 + 0) (toff + 1) p
        then src (m + k * 4096 + (p - (t * 4096 + 0)))
        else x2)
    → x3 ≡ (if inside pos cnt p then src (0 + (p - pos)) else x0)
join_three src pos m h k t toff cnt p x0 x1 x2 x3 em et ec e1 e2 e3 =
    elim (Bool-cases (inside (t * 4096 + 0) (toff + 1) p)) [
      | inl last ↦
          let all : inside pos cnt p ≡ true = ground arith in
          let at : m + k * 4096 + (p - (t * 4096 + 0)) ≡ 0 + (p - pos) = ground arith in
          e3 ∙ rw (last, all, at) refl
      | inr not_last ↦ elim (Bool-cases (inside ((h + 1) * 4096) (k * 4096) p)) [
        | inl middle ↦
            let all : inside pos cnt p ≡ true = ground arith in
            let at : m + (0 + (p - (h + 1) * 4096)) ≡ 0 + (p - pos) = ground arith in
            e3 ∙ rw not_last (e2 ∙ rw (middle, all, at) refl)
        | inr not_middle ↦
            let same : inside pos m p ≡ inside pos cnt p = ground arith in
            e3 ∙ rw not_last (e2 ∙ rw not_middle (e1 ∙ rw same refl))
      ]
    ]

module _ (v : Volume) (i : Inode) (s : Span) (src : Bytes) (ends : ℕ) (ok : IsValid v)
    (own : Owned v i) where
  -- What `write_first` comes to.
  abbrev pub Runs : (pos cnt : ℕ) → Type 0
  Runs pos cnt =
      (v' : Volume) × (i' : Inode) × (c : Bytes) × (write_first i v s src cnt ends
        ≡ write_size ends i' v')
      × ((k : ℕ) → s.head_idx ≤ k → k < s.head_idx + s.blk_cnt → lba_of i' k ≢ 0)
      × Stores v i v' i' c s.blk_cnt
      × ((p : ℕ)
          → p < 49152
          → Settled v i s src ends ok own p
          → c p ≡ spread (content v.disk i) pos src cnt p)

  one-FirstDone :
      (pos cnt : ℕ)
      → s.blk_cnt ≡ 1
      → pos ≡ s.head_idx * 4096 + s.head_offset
      → FirstDone v i s src ends ok own cnt cnt
      → Runs pos cnt
  one-FirstDone pos cnt one start (v1, i1, buf, e, o, th, st) = (
    v1,
    i1,
    spread (content v.disk i) pos src cnt,
    e ∙ no_more v1 i1 s src ends st.valid st.owned buf (4096 - s.head_offset) one,
    λ k le lk. let at : k ≡ s.head_idx = omega (arith, one) in rw at th,
    Stores-as (λ p lp. rw start refl) (omega (arith, one)) st,
    λ p lp settled. refl,
  )

  pub one_block :
      (pos cnt : ℕ)
      → s.blk_cnt ≡ 1
      → pos ≡ s.head_idx * 4096 + s.head_offset
      → s.head_offset + cnt ≤ 4096
      → s.head_idx < 11
      → Sized i
      → 0 < free_blocks v
      → Runs pos cnt
  one_block pos cnt one start fit lt sized room =
      let single : (s.blk_cnt == 1) ≡ true = ground arith in
      one-FirstDone pos cnt one start
        (first-FirstDone v i s src ends ok own cnt cnt (rw single refl) fit lt sized room)

  module _ (pos cnt : ℕ) (many : 1 < s.blk_cnt) (start : pos ≡ s.head_idx * 4096 + s.head_offset)
      (total : s.head_idx * 4096 + s.head_offset + cnt ≡ s.tail_idx * 4096 + s.tail_offset + 1)
      (count : s.head_idx + s.blk_cnt ≡ s.tail_idx + 1) (head : s.head_offset < 4096)
      (tail : s.tail_offset < 4096) (lt : s.tail_idx < 11) (sized : Sized i)
      (room : s.blk_cnt ≤ free_blocks v) where
    -- The length of the part in the first block.
    abbrev m : ℕ
    m = 4096 - s.head_offset

    after_middle :
        (v1 v2 : Volume) (i1 i2 : Inode) (buf : Bytes) (t1 : IsValid v1) (w1 : Owned v1 i1)
        → Stores v i v1 i1
            (λ p.
              if inside (s.head_idx * 4096 + s.head_offset) m p
              then src (0 + (p - (s.head_idx * 4096 + s.head_offset)))
              else content v.disk i p)
            1
        → Stores v1 i1 v2 i2
            (replaced
              (content v1.disk i1)
              (s.head_idx + 1)
              (λ j. src (m + j))
              0
              ((s.blk_cnt - 2) * 4096))
            (s.blk_cnt - 2)
        → (t2 : IsValid v2) (w2 : Owned v2 i2) → lba_of i2 s.tail_idx ≡ lba_of i s.tail_idx
        → write_first i v s src cnt ends
          ≡ write_last i2 v2 s buf src (m + (s.blk_cnt - 2) * 4096) ends
        → ((k : ℕ) → s.head_idx ≤ k → k < s.head_idx + 1 + (s.blk_cnt - 2) → lba_of i2 k ≢ 0)
        → LastDone v2 i2 s src ends t2 w2 buf (m + (s.blk_cnt - 2) * 4096)
        → Runs pos cnt
    after_middle v1 v2 i1 i2 buf t1 w1 s1 s2 t2 w2 o e th (v3, i3, c, e3, tt, s3, b3) = (
      v3,
      i3,
      c,
      e ∙ e3,
      λ k le lk. elim (Bool-cases (k == s.tail_idx)) [
        | inl hit ↦ let at : k ≡ s.tail_idx = ground arith in rw at tt
        | inr miss ↦ s3.grows k (th k le (ground (arith, count)))
      ],
      Stores-as (λ p lp. refl) (omega (arith, many)) (Stores-trans (Stores-trans s1 s2) s3),
      λ p lp settled.
          join_three src pos m s.head_idx (s.blk_cnt - 2) s.tail_idx s.tail_offset cnt p
            (content v.disk i p) (content v1.disk i1 p) (content v2.disk i2 p) (c p)
            (omega (arith, start, head)) (omega (arith, count, many))
            (omega (arith, total, head, count, many)) (s1.bytes p lp ∙ rw start refl)
            (s2.bytes p lp) (b3 p (rw o settled)),
    )

    after_first :
        (v1 : Volume) (i1 : Inode) (buf : Bytes) (t1 : IsValid v1) (w1 : Owned v1 i1)
        → write_first i v s src cnt ends ≡ write_middle i1 v1 s buf src m ends
        → ((k : ℕ) → s.head_idx + 1 ≤ k → lba_of i1 k ≡ lba_of i k)
        → Stores v i v1 i1
            (λ p.
              if inside (s.head_idx * 4096 + s.head_offset) m p
              then src (0 + (p - (s.head_idx * 4096 + s.head_offset)))
              else content v.disk i p)
            1
        → (lba_of i1 s.head_idx ≢ 0)
        → MiddleDone v1 i1 s src ends t1 w1 buf m
        → Runs pos cnt
    after_first v1 i1 buf t1 w1 e1 o1 s1 h1 (v2, i2, e2, o2, th, s2) =
        let at = m + (s.blk_cnt - 2) * 4096 in
        let tail_lba : lba_of i2 s.tail_idx ≡ lba_of i s.tail_idx =
          o2 s.tail_idx (omega (arith, count)) ∙ o1 s.tail_idx (omega (arith, count)) in
        let same_size : i2.i_size ≡ i.i_size =
          ap (λ (x : Inode). x.i_size) s2.rest ∙ ap (λ (x : Inode). x.i_size) s1.rest in
        after_middle v1 v2 i1 i2 buf t1 w1 s1 s2 s2.valid s2.owned tail_lba (e1 ∙ e2)
          (λ k le lk. elim (Bool-cases (k == s.head_idx)) [
            | inl hit ↦ let at' : k ≡ s.head_idx = ground arith in rw at' (s2.grows s.head_idx h1)
            | inr miss ↦ th k (ground arith) lk
          ])
          (last-LastDone v2 i2 s src ends s2.valid s2.owned buf at many lt tail
            (λ ne.
              let le = sized s.tail_idx (omega arith) (λ z. ne (tail_lba ∙ z)) in
              omega (arith, le, same_size))
            (omega (arith, s1.free, s2.free, many, room)))

    from-FirstDone : FirstDone v i s src ends ok own cnt m → Runs pos cnt
    from-FirstDone (v1, i1, buf, e1, o1, h1, s1) =
        after_first v1 i1 buf s1.valid s1.owned e1 o1 s1 h1 (
          any-MiddleDone v1 i1 s src ends s1.valid s1.owned buf m many (omega (arith, count, lt))
            (omega (arith, s1.free, room, many)))

    pub more_blocks : Runs pos cnt
    more_blocks =
        let several : (s.blk_cnt == 1) ≡ false = ground arith in
        from-FirstDone (
          first-FirstDone v i s src ends ok own cnt m (rw several refl) (omega (arith, head))
            (omega (arith, count, lt, many)) sized (omega (arith, room, many)))
