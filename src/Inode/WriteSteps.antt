-- ===== src/Inode/WriteSteps.antt =====
-- The three parts of `inode_write`: the first block, the middle blocks and the last block.
use a_os.Base.{
  ℕ, ◌+◌, ◌-◌, ◌*◌, ◌/◌, ◌≤◌, ◌<◌, ◌≡◌, ◌≢◌, ◌⊎◌, refl, ◌∙◌, true, false, some, leb, ltb, ◌==◌,
  if◌then◌else◌, arith, Bool-cases, inl, inr,
}
use a_os.CString.Copy.{inside}
use a_os.Disk.{Bytes, blank, blit}
use a_os.Inode.{Inode, Volume}
use a_os.Inode.Bitmaps.{IsValid}
use a_os.Inode.Transfer.{
  Span, fill, on_fill, on_write, write_size, write_last, write_middle, write_first,
}
use a_os.Inode.Content.{lba_of, content, blk_read-Holds}
use a_os.Inode.Owned.{Owned, Stores, Stores-as, Stores-refl, free_blocks}
use a_os.Inode.Storing.{replaced}
use a_os.Inode.Looping.{blk_write-BlkWrites}

-- A block that is there does not lie behind the end of the file.
abbrev pub Sized : Inode → Type 0
Sized i = (k : ℕ) → k < 12 → lba_of i k ≢ 0 → k * 4096 ≤ i.i_size

-- What `fill` puts into the buffer.
abbrev Filled : Volume → Inode → (idx : ℕ) (buf : Bytes) → Type 0
Filled v i idx buf =
    (r : ℕ) × (f : Bytes) × (fill v.disk i idx buf ≡ some (some r, f))
    × ((k : ℕ)
        → k < 4096
        → f k ≡ (if lba_of i idx == 0 then buf k else content v.disk i (idx * 4096 + k)))

fill-Filled :
    (v : Volume) (i : Inode) (idx : ℕ) (buf : Bytes)
    → idx < 12
    → (lba_of i idx ≢ 0 → idx * 4096 ≤ i.i_size)
    → Filled v i idx buf
unfolding fill
fill-Filled v i idx buf lt size =
    let direct : leb 13 idx ≡ false = ground arith in
    elim (Bool-cases (lba_of i idx == 0)) [
      | inl hole ↦ (0, buf, rw (direct, hole) refl, λ k lk. rw hole refl)
      | inr there ↦
          let (f, e, h) =
            blk_read-Holds v.disk i idx buf 1
              (record {
                direct = omega arith;
                present = λ k le lk. let same : k ≡ idx = omega arith in rw same (ground arith);
              })
              (omega arith) (let at = size (ground arith) in omega (arith, at)) in
          (
            1 * 4096,
            f,
            rw (direct, there, e) refl,
            λ k lk.
                let here : inside 0 (1 * 4096) k ≡ true = ground arith in
                let pos : k - 0 ≡ k = omega arith in h k ∙ rw (here, pos, there) refl,
          )
    ]

-- The bytes of a block whose part from `off` on is replaced.
pub part-bytes :
    (c f src : Bytes) (idx off from m p : ℕ)
    → off + m ≤ 4096
    → (idx * 4096 ≤ p
        → p < idx * 4096 + 4096
        → inside (idx * 4096 + off) m p ≡ false
        → f (p - idx * 4096) ≡ c p)
    → replaced c idx (blit f off src from m) 0 4096 p
      ≡ (if inside (idx * 4096 + off) m p then src (from + (p - (idx * 4096 + off))) else c p)
part-bytes c f src idx off from m p fit same = elim (Bool-cases (inside (idx * 4096) 4096 p)) [
  | inr away ↦ let out : inside (idx * 4096 + off) m p ≡ false = ground arith in rw (away, out) refl
  | inl here ↦ elim (Bool-cases (inside (idx * 4096 + off) m p)) [
    | inl part ↦
        let within : inside off m (0 + (p - idx * 4096)) ≡ true = ground arith in
        let pos : from + (0 + (p - idx * 4096) - off) ≡ from + (p - (idx * 4096 + off)) =
          omega arith in
        rw (here, part, within, pos) refl
    | inr rest ↦
        let beyond : inside off m (0 + (p - idx * 4096)) ≡ false = ground arith in
        let pos : 0 + (p - idx * 4096) ≡ p - idx * 4096 = omega arith in
        rw (here, rest, beyond, pos) (same (ground arith) (ground arith) rest)
  ]
]

-- A block that is not there counts as zeros.
block-blank :
    (v : Volume) (i : Inode) (idx : ℕ) (f : Bytes)
    → ((k : ℕ)
        → k < 4096
        → f k ≡ (if lba_of i idx == 0 then blank k else content v.disk i (idx * 4096 + k)))
    → (p : ℕ) → idx * 4096 ≤ p
    → p < idx * 4096 + 4096
    → f (p - idx * 4096) ≡ content v.disk i p
block-blank v i idx f h p lo hi =
    let block : p / 4096 ≡ idx = omega arith in
    let at : idx * 4096 + (p - idx * 4096) ≡ p = omega arith in
    h (p - idx * 4096) (omega arith) ∙ elim (Bool-cases (lba_of i idx == 0)) [
      | inl hole ↦ rw (hole, block, hole) refl
      | inr there ↦ rw (there, at) refl
    ]

module _ (v : Volume) (i : Inode) (s : Span) (src : Bytes) (ends : ℕ) (ok : IsValid v)
    (own : Owned v i) where
  -- The first block, `m` bytes of it.
  abbrev pub FirstDone : (cnt m : ℕ) → Type 0
  FirstDone cnt m =
      (v' : Volume) × (i' : Inode) × (buf : Bytes) × (write_first i v s src cnt ends
        ≡ write_middle i' v' s buf src (4096 - s.head_offset) ends)
      × ((k : ℕ) → s.head_idx + 1 ≤ k → lba_of i' k ≡ lba_of i k)
      × (lba_of i' s.head_idx ≢ 0)
      × Stores v i v' i'
          (λ p.
            if inside (s.head_idx * 4096 + s.head_offset) m p
            then src (0 + (p - (s.head_idx * 4096 + s.head_offset)))
            else content v.disk i p)
          1

  pub first-FirstDone :
      (cnt m : ℕ)
      → (if s.blk_cnt == 1 then cnt else 4096 - s.head_offset) ≡ m
      → s.head_offset + m ≤ 4096
      → s.head_idx < 11
      → Sized i
      → 0 < free_blocks v
      → FirstDone cnt m
  unfolding write_first on_fill on_write
  first-FirstDone cnt m em fit lt sized room =
      let (r, f, e, h) =
        fill-Filled v i s.head_idx blank (omega arith) (sized s.head_idx (omega arith)) in
      let buf = blit f s.head_offset src 0 m in
      let (v', i', e', o, th, st) =
        blk_write-BlkWrites v i s.head_idx buf 1 ok own (omega arith) (omega arith) room in
      (
        v',
        i',
        buf,
        rw (e, em, e') refl,
        o,
        th s.head_idx (omega arith) (omega arith),
        Stores-as
            (λ p lp.
              part-bytes (content v.disk i) f src s.head_idx s.head_offset 0 m p fit
                (λ lo hi out. block-blank v i s.head_idx f h p lo hi))
            (omega arith) st,
      )

  -- The middle blocks.
  abbrev pub MiddleDone : (buf : Bytes) (at : ℕ) → Type 0
  MiddleDone buf at =
      (v' : Volume) × (i' : Inode) × (write_middle i v s buf src at ends
        ≡ write_last i' v' s buf src (at + (s.blk_cnt - 2) * 4096) ends)
      × ((k : ℕ) → s.head_idx + 1 + (s.blk_cnt - 2) ≤ k → lba_of i' k ≡ lba_of i k)
      × ((k : ℕ) → s.head_idx + 1 ≤ k → k < s.head_idx + 1 + (s.blk_cnt - 2) → lba_of i' k ≢ 0)
      × Stores v i v' i'
          (replaced (content v.disk i) (s.head_idx + 1) (λ j. src (at + j)) 0
            ((s.blk_cnt - 2) * 4096))
          (s.blk_cnt - 2)

  pub middle-MiddleDone :
      (buf : Bytes) (at : ℕ)
      → 2 < s.blk_cnt
      → s.head_idx + s.blk_cnt < 13
      → s.blk_cnt - 2 ≤ free_blocks v
      → MiddleDone buf at
  unfolding write_middle on_write
  middle-MiddleDone buf at many fit room =
      let go : ltb 2 s.blk_cnt ≡ true = ground arith in
      let (v', i', e, o, th, st) =
        blk_write-BlkWrites v i (s.head_idx + 1) (λ j. src (at + j)) (s.blk_cnt - 2) ok own
          (omega arith) (omega arith) room in
      (v', i', rw (go, e) refl, o, th, st)

  pub no_middle :
      (buf : Bytes) (at : ℕ)
      → (ltb 2 s.blk_cnt ≡ false)
      → write_middle i v s buf src at ends ≡ write_last i v s buf src at ends
  unfolding write_middle
  no_middle buf at few = rw few refl

  none_written :
      (at p : ℕ)
      → content v.disk i p ≡ replaced (content v.disk i) (s.head_idx + 1) (λ j. src (at + j)) 0 0 p
  none_written at p =
      let out : inside ((s.head_idx + 1) * 4096) 0 p ≡ false = ground arith in rw out refl

  pub any-MiddleDone :
      (buf : Bytes) (at : ℕ)
      → 1 < s.blk_cnt
      → s.head_idx + s.blk_cnt < 13
      → s.blk_cnt - 2 ≤ free_blocks v
      → MiddleDone buf at
  any-MiddleDone buf at many fit room = elim (Bool-cases (ltb 2 s.blk_cnt)) [
    | inl more ↦ middle-MiddleDone buf at (ground arith) fit room
    | inr few ↦
        let none : s.blk_cnt - 2 ≡ 0 = ground arith in
        let same : at + 0 ≡ at = omega arith in
        rw none (
          v,
          i,
          no_middle buf at few ∙ rw same refl,
          λ k le. refl,
          λ k le lk. absurd (omega arith),
          Stores-as (λ p lp. none_written at p) (omega arith) (Stores-refl v i ok own),
        )
  ]

  pub no_more :
      (buf : Bytes) (at : ℕ)
      → s.blk_cnt ≡ 1
      → write_middle i v s buf src at ends ≡ write_size ends i v
  unfolding write_middle write_last
  no_more buf at one = rw one refl

  -- The last block. A byte behind the end of the stretch is settled when the block was there.
  abbrev pub Settled : ℕ → Type 0
  Settled p =
      (p ≤ s.tail_idx * 4096 + s.tail_offset)
      ⊎ ((s.tail_idx * 4096 + 4096 ≤ p) ⊎ (lba_of i s.tail_idx ≢ 0))

  abbrev pub LastDone : (buf : Bytes) (at : ℕ) → Type 0
  LastDone buf at =
      (v' : Volume) × (i' : Inode) × (c : Bytes) × (write_last i v s buf src at ends
        ≡ write_size ends i' v')
      × (lba_of i' s.tail_idx ≢ 0)
      × Stores v i v' i' c 1
      × ((p : ℕ)
          → Settled p
          → c p ≡ (
              if inside (s.tail_idx * 4096 + 0) (s.tail_offset + 1) p
              then src (at + (p - (s.tail_idx * 4096 + 0)))
              else content v.disk i p))

  pub last-LastDone :
      (buf : Bytes) (at : ℕ)
      → 1 < s.blk_cnt
      → s.tail_idx < 11
      → s.tail_offset < 4096
      → (lba_of i s.tail_idx ≢ 0 → s.tail_idx * 4096 ≤ i.i_size)
      → 0 < free_blocks v
      → LastDone buf at
  unfolding write_last on_fill on_write
  last-LastDone buf at many lt off size room =
      let go : ltb 1 s.blk_cnt ≡ true = ground arith in
      let (r, f, e, h) = fill-Filled v i s.tail_idx buf (omega arith) size in
      let (v', i', e', o, th, st) =
        blk_write-BlkWrites v i s.tail_idx (blit f 0 src at (s.tail_offset + 1)) 1 ok own
          (omega arith) (omega arith) room in
      (
        v',
        i',
        replaced (content v.disk i) s.tail_idx (blit f 0 src at (s.tail_offset + 1)) 0 4096,
        rw (go, e, e') refl,
        th s.tail_idx (omega arith) (omega arith),
        st,
        λ p settled.
            part-bytes (content v.disk i) f src s.tail_idx 0 at (s.tail_offset + 1) p (omega arith)
              (λ lo hi out. elim settled [
                | inl early ↦ absurd (ground arith)
                | inr late ↦ elim late [
                  | inl after ↦ absurd (omega arith)
                  | inr there ↦
                      let full : (lba_of i s.tail_idx == 0) ≡ false = ground arith in
                      let pos : s.tail_idx * 4096 + (p - s.tail_idx * 4096) ≡ p = omega arith in
                      h (p - s.tail_idx * 4096) (omega arith) ∙ rw (full, pos) refl
                ]
              ]),
      )
