-- ===== src/Inode/Looping.antt =====
-- `blk_write` of direct blocks: the file's bytes afterwards.
use a_os.Base.{
  ℕ, zero, suc, ◌+◌, ◌-◌, ◌*◌, ◌≤◌, ◌<◌, ◌≡◌, ◌≢◌, refl, sym, ap, ◌∙◌, true, false, some, ltb, leb,
  ◌==◌, ◌||◌, set, if◌then◌else◌, arith, Bool-cases, inl, inr,
}
use a_os.Base.Words.{add32}
use a_os.CString.Copy.{inside}
use a_os.Disk.{Bytes, blank}
use a_os.Inode.{Inode, Volume, blk_acquire}
use a_os.Inode.Bitmaps.{IsValid}
use a_os.Inode.Blocks.{BlockOutcome, blk_acquire-BlockOutcome, with_block}
use a_os.Inode.Data.{Writing, take_block, blk_lba_of, blk_write_loop, blk_write}
use a_os.Inode.Content.{lba_of, content}
use a_os.Inode.Owned.{
  Owned, Stores, Stores-trans, Stores-as, Stores-refl, free_blocks, free_blocks-full,
}
use a_os.Inode.Taking.{with_lba, lba_same, lba_other, taken-Stores}
use a_os.Inode.Storing.{replaced, put-Stores}

-- Block `idx` is there after `blk_lba_of`, and the file's bytes are the same.
abbrev Got : Writing → ℕ → Type 0
Got w idx =
    (v' : Volume) × (i' : Inode) × (blk_lba_of w idx
      ≡ (lba_of i' idx, record w { inode = i'; volume = v' }))
    × (lba_of i' idx ≢ 0)
    × ((k : ℕ) → idx ≢ k → lba_of i' k ≡ lba_of w.inode k)
    × Stores w.volume w.inode v' i' (content w.volume.disk w.inode) 1

module _ (w : Writing) (ok : IsValid w.volume) (own : Owned w.volume w.inode) (idx : ℕ)
    (lt : idx < 12) where
  direct : ltb idx 12 ≡ true
  direct = ground arith

  take_step :
      (lba : ℕ) (v' : Volume)
      → blk_acquire w.volume ≡ (lba, v')
      → lba_of w.inode idx ≡ 0
      → blk_lba_of w idx ≡ (
        lba,
        record w { inode = record w.inode { i_block = set w.inode.i_block idx lba }; volume = v' },
      )
  unfolding blk_lba_of take_block
  take_step lba v' e hole =
      let nothing : (lba_of w.inode idx == 0) ≡ true = ground arith in rw (direct, nothing, e) refl

  have_step : (lba_of w.inode idx == 0) ≡ false → blk_lba_of w idx ≡ (lba_of w.inode idx, w)
  unfolding blk_lba_of
  have_step there = rw (direct, there) refl

  blk_lba_of-Got : 0 < free_blocks w.volume → Got w idx
  blk_lba_of-Got room = elim (Bool-cases (lba_of w.inode idx == 0)) [
    | inr there ↦ (
      w.volume,
      w.inode,
      have_step there,
      ground arith,
      λ k ne. refl,
      Stores-as (λ p l. refl) (omega arith) (Stores-refl w.volume w.inode ok own),
    )
    | inl hole ↦ elim (blk_acquire-BlockOutcome w.volume ok) [
      | BlockOutcome.full no_run e ↦ absurd (omega (arith, free_blocks-full w.volume no_run))
      | BlockOutcome.block b v' e a ↦
          let z : lba_of w.inode idx ≡ 0 = ground arith in
          let s = taken-Stores w.volume v' w.inode own idx b lt a z in
          let i' = with_lba w.volume v' w.inode own idx b lt a z in
          let at = lba_same w.volume v' w.inode own idx b lt a z in
          (
            v',
            i',
            take_step (w.volume.blk_lba + b * 8) v' e z
                ∙ ap (λ t. (t, record w { inode = i'; volume = v' })) (sym at),
            omega (arith, at, own.base),
            lba_other w.volume v' w.inode own idx b lt a z,
            s,
          )
    ]
  ]

replaced-same :
    (c c' : Bytes) (idx : ℕ) (src : Bytes) (at n p : ℕ)
    → c p ≡ c' p
    → replaced c idx src at n p ≡ replaced c' idx src at n p
replaced-same c c' idx src at n p e =
    ap (λ t. if inside (idx * 4096) n p then src (at + (p - idx * 4096)) else t) e

-- The bytes after one block, and after the others.
replaced-next :
    (c c' : Bytes) (idx : ℕ) (src : Bytes) (at n p : ℕ)
    → c' p ≡ replaced c idx src at 4096 p
    → replaced c' (idx + 1) src (at + 4096) (n * 4096) p ≡ replaced c idx src at (suc n * 4096) p
replaced-next c c' idx src at n p e = elim (Bool-cases (inside ((idx + 1) * 4096) (n * 4096) p)) [
  | inl late ↦
      let all : inside (idx * 4096) (suc n * 4096) p ≡ true = ground arith in
      let pos : at + 4096 + (p - (idx + 1) * 4096) ≡ at + (p - idx * 4096) = ground arith in
      rw (late, all, pos) refl
  | inr not_late ↦
      rw (not_late, e)
        (elim (Bool-cases (inside (idx * 4096) 4096 p)) [
          | inl here ↦
              let all : inside (idx * 4096) (suc n * 4096) p ≡ true = ground arith in
              rw (here, all) refl
          | inr away ↦
              let all : inside (idx * 4096) (suc n * 4096) p ≡ false = ground arith in
              rw (away, all) refl
        ])
]

loop_step :
    (fuel : ℕ) (w w' : Writing) (lba idx : ℕ) (src : Bytes) (at : ℕ)
    → blk_lba_of w idx ≡ (lba, w')
    → idx < 12
    → blk_write_loop (suc fuel) w idx src at
      ≡ blk_write_loop fuel
          (record w' { volume = with_block w'.volume lba (λ j. src (at + j)) })
          (idx + 1)
          src
          (at + 4096)
unfolding blk_write_loop
loop_step fuel w w' lba idx src at e lt =
    let go : ltb idx 1036 ≡ true = ground arith in rw (e, go) refl

-- The loop of `blk_write` over `n` direct blocks, with enough free blocks.
abbrev pub LoopStores : ℕ → Writing → (idx : ℕ) (src : Bytes) (at : ℕ) → Type 0
LoopStores n w idx src at =
    (v' : Volume) × (i' : Inode) × (blk_write_loop n w idx src at
      ≡ record w { inode = i'; volume = v' })
    × ((k : ℕ) → idx + n ≤ k → lba_of i' k ≡ lba_of w.inode k)
    × ((k : ℕ) → idx ≤ k → k < idx + n → lba_of i' k ≢ 0)
    × Stores w.volume w.inode v' i' (replaced (content w.volume.disk w.inode) idx src at (n * 4096))
        n

pub loop-LoopStores :
    (n : ℕ) (w : Writing) (idx : ℕ) (src : Bytes) (at : ℕ)
    → IsValid w.volume
    → Owned w.volume w.inode
    → idx + n ≤ 12
    → n ≤ free_blocks w.volume
    → LoopStores n w idx src at
unfolding blk_write_loop
loop-LoopStores zero w idx src at ok own fit room = (
  w.volume,
  w.inode,
  refl,
  λ k le. refl,
  λ k le lk. absurd (omega arith),
  Stores-as (λ p l. let out : inside (idx * 4096) 0 p ≡ false = ground arith in rw out refl)
      (omega arith) (Stores-refl w.volume w.inode ok own),
)
loop-LoopStores (suc n) w idx src at ok own fit room =
    let (v1, i1, e, there, o1, s1) = blk_lba_of-Got w ok own idx (omega arith) (omega arith) in
    let s2 = put-Stores v1 s1.valid i1 s1.owned idx (omega arith) src at there in
    let w2 : Writing = record w {
      inode = i1;
      volume = with_block v1 (lba_of i1 idx) (λ j. src (at + j));
    } in
    let s12 = Stores-trans s1 s2 in
    let (v', i', e', o, th, s3) =
      loop-LoopStores n w2 (idx + 1) src (at + 4096) s2.valid s2.owned (omega arith)
        (omega (arith, s1.free, s2.free)) in
    (
      v',
      i',
      loop_step n w (record w { inode = i1; volume = v1 }) (lba_of i1 idx) idx src at e
            (omega arith)
          ∙ e',
      λ k le. o k (omega arith) ∙ o1 k (omega arith),
      λ k le lk. elim (Bool-cases (idx == k)) [
        | inl hit ↦ let at : idx ≡ k = ground arith in rw (← at) (s3.grows idx there)
        | inr miss ↦ th k (ground arith) (omega arith)
      ],
      Stores-as
          (λ p l.
            replaced-next (content w.volume.disk w.inode) (content w2.volume.disk i1) idx src at n p
              (s2.bytes p l
                ∙ replaced-same (content v1.disk i1) (content w.volume.disk w.inode) idx src at 4096
                    p (s1.bytes p l)))
          (omega arith) (Stores-trans s12 s3),
    )

-- What `blk_write` promises of blocks below the twelfth: it succeeds, and the file's bytes are
-- those of `src` in the blocks written.
abbrev pub BlkWrites : Volume → Inode → (idx : ℕ) (src : Bytes) (n : ℕ) → Type 0
BlkWrites v i idx src n =
    (v' : Volume) × (i' : Inode) × (blk_write v i idx src n ≡ some (i', v'))
    × ((k : ℕ) → idx + n ≤ k → lba_of i' k ≡ lba_of i k)
    × ((k : ℕ) → idx ≤ k → k < idx + n → lba_of i' k ≢ 0)
    × Stores v i v' i' (replaced (content v.disk i) idx src 0 (n * 4096)) n

pub blk_write-BlkWrites :
    (v : Volume) (i : Inode) (idx : ℕ) (src : Bytes) (n : ℕ)
    → IsValid v
    → Owned v i
    → 0 < n
    → idx + n < 12
    → n ≤ free_blocks v
    → BlkWrites v i idx src n
unfolding blk_write
blk_write-BlkWrites v i idx src n ok own pos fit room =
    let (v', i', e, o, th, s) =
      loop-LoopStores n (record { inode = i; buf = blank; volume = v }) idx src 0 ok own
        (omega arith) room in
    let max : add32 idx n ≡ idx + n = omega arith in
    let count : idx + n - idx ≡ n = omega arith in
    let direct_only : ltb (idx + n) 12 ≡ true = ground arith in
    let allowed : ((n == 0) || leb 1036 (idx + n)) ≡ false = ground arith in
    (v', i', rw (max, count, direct_only, allowed, e) refl, o, th, s)
