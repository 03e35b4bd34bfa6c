-- ===== src/Inode/Reading.antt =====
-- `inode_read` of a stretch of a file: the bytes that it delivers.
use a_os.Base.{
  ℕ, ◌+◌, ◌-◌, ◌*◌, ◌/◌, ◌%◌, ◌^◌, ◌≤◌, ◌<◌, ◌≡◌, ◌≢◌, refl, ◌∙◌, true, false, some, ltb, ◌==◌,
  if◌then◌else◌, arith, Bool-cases, inl, inr,
}
use a_os.Base.Words.{add32, sub32}
use a_os.CString.Copy.{inside}
use a_os.Disk.{Bytes, blank, blit}
use a_os.Inode.{Inode}
use a_os.Inode.Data.{blk_read}
use a_os.Inode.Transfer.{Span, span, Done, on_read, read_last, read_middle, read_first, inode_read}
use a_os.Inode.Content.{Present, Holds, blk_read-Holds}

-- A read that succeeds and puts `n` bytes of the file at the offset `at` of `dst`.
abbrev pub Delivers : Done → (disk : Bytes) → Inode → (dst : Bytes) (at p n : ℕ) → Type 0
Delivers o disk inode dst at p n =
    (f : Bytes) × (o ≡ some (true, f)) × Holds disk inode f dst at p n

-- The figures of a stretch.
pub record Fits (inode : Inode) (s : Span) : Type 0 where
  pub count : s.head_idx + s.blk_cnt ≡ s.tail_idx + 1
  pub head : s.head_offset < 4096
  pub tail : s.tail_offset < 4096
  pub there : Present inode s.head_idx s.blk_cnt
  pub size : s.tail_idx * 4096 + s.tail_offset < inode.i_size

-- The first `n` bytes of a buffer that holds a file's bytes.
blit-Holds :
    (disk : Bytes) (inode : Inode) (b c dst : Bytes) (at p n m from p' : ℕ)
    → p' ≡ p + from
    → Holds disk inode b c 0 p m
    → from + n ≤ m
    → Holds disk inode (blit dst at b from n) dst at p' n
blit-Holds disk inode b c dst at p n m from p' ep h le i = elim (Bool-cases (inside at n i)) [
  | inr away ↦ rw away refl
  | inl here ↦
      let within : inside 0 m (from + (i - at)) ≡ true = ground arith in
      let pos : p + (from + (i - at) - 0) ≡ p' + (i - at) = omega (arith, ep) in
      rw here (h (from + (i - at)) ∙ rw (within, pos) refl)
]

-- Two stretches, one behind the other.
Holds-join :
    (disk : Bytes) (inode : Inode) (f g dst : Bytes) (at p n m at' p' t : ℕ)
    → at' ≡ at + n
    → p' ≡ p + n
    → t ≡ n + m
    → Holds disk inode g dst at p n
    → Holds disk inode f g at' p' m
    → Holds disk inode f dst at p t
Holds-join disk inode f g dst at p n m at' p' t ea ep et hg hf i =
    elim (Bool-cases (inside at' m i)) [
      | inl late ↦
          let all : inside at t i ≡ true = ground arith in
          let pos : p' + (i - at') ≡ p + (i - at) = ground arith in hf i ∙ rw (late, all, pos) refl
      | inr not_late ↦ elim (Bool-cases (inside at n i)) [
        | inl early ↦
            let all : inside at t i ≡ true = ground arith in
            hf i ∙ rw (not_late, all) (hg i ∙ rw early refl)
        | inr away ↦
            let all : inside at t i ≡ false = ground arith in
            hf i ∙ rw (not_late, all) (hg i ∙ rw away refl)
      ]
    ]

module _ (disk : Bytes) (inode : Inode) (s : Span) (ok : Fits inode s) where
  last-Delivers :
      (buf dst : Bytes) (at : ℕ)
      → 1 < s.blk_cnt
      → Delivers
          (read_last disk inode s buf dst at)
          disk
          inode
          dst
          at
          (s.tail_idx * 4096)
          (s.tail_offset + 1)
  unfolding read_last on_read
  last-Delivers buf dst at many =
      let d = ok.there.direct in
      let (b, e, h) =
        blk_read-Holds disk inode s.tail_idx buf 1
          (record {
            direct = omega (arith, d, ok.count);
            present =
                λ k le lt. ok.there.present k (omega (arith, ok.count)) (omega (arith, ok.count));
          })
          (omega arith) (omega (arith, ok.size)) in
      let go : ltb 1 s.blk_cnt ≡ true = ground arith in
      (
        blit dst at b 0 (s.tail_offset + 1),
        rw (go, e, on_read) refl,
        blit-Holds disk inode b buf dst at (s.tail_idx * 4096) (s.tail_offset + 1) 4096 0
            (s.tail_idx * 4096) (omega arith) h (omega (arith, ok.tail)),
      )

  -- What follows the first block, of `rest` bytes.
  abbrev rest : ℕ
  rest = (s.blk_cnt - 2) * 4096 + (s.tail_offset + 1)

  two_blocks :
      (buf dst : Bytes) (at : ℕ)
      → s.blk_cnt ≡ 2
      → Delivers
          (read_middle disk inode s buf dst at)
          disk
          inode
          dst
          at
          ((s.head_idx + 1) * 4096)
          rest
  unfolding read_middle
  two_blocks buf dst at two =
      let stop : ltb 2 s.blk_cnt ≡ false = ground arith in
      let (f, e, h) = last-Delivers buf dst at (omega (arith, two)) in
      let pos : s.tail_idx * 4096 ≡ (s.head_idx + 1) * 4096 = omega (arith, ok.count, two) in
      let size : s.tail_offset + 1 ≡ rest = omega (arith, two) in
      (f, rw stop e, rw (← pos, ← size) h)

  more_blocks :
      (buf dst : Bytes) (at : ℕ)
      → 2 < s.blk_cnt
      → Delivers
          (read_middle disk inode s buf dst at)
          disk
          inode
          dst
          at
          ((s.head_idx + 1) * 4096)
          rest
  unfolding read_middle on_read
  more_blocks buf dst at many =
      let n = s.blk_cnt - 2 in
      let go : ltb 2 s.blk_cnt ≡ true = ground arith in
      let d = ok.there.direct in
      let (b, e, h) =
        blk_read-Holds disk inode (s.head_idx + 1) (λ i. dst (at + i)) n
          (record {
            direct = omega (arith, d);
            present = λ k le lt. ok.there.present k (omega arith) (omega arith);
          })
          (omega arith) (omega (arith, ok.size, ok.count)) in
      let (f, e', h') =
        last-Delivers buf (blit dst at b 0 (n * 4096)) (at + n * 4096) (omega arith) in
      let pos : s.tail_idx * 4096 ≡ (s.head_idx + 1) * 4096 + n * 4096 = omega (arith, ok.count) in
      let middle =
        blit-Holds disk inode b (λ i. dst (at + i)) dst at ((s.head_idx + 1) * 4096) (n * 4096)
          (n * 4096) 0 ((s.head_idx + 1) * 4096) (omega arith) h (omega arith) in
      (
        f,
        rw (go, e, on_read) e',
        Holds-join disk inode f (blit dst at b 0 (n * 4096)) dst at ((s.head_idx + 1) * 4096)
            (n * 4096) (s.tail_offset + 1) (at + n * 4096) (s.tail_idx * 4096) rest refl pos refl
            middle h',
      )

  middle_blocks :
      (buf dst : Bytes) (at : ℕ)
      → 1 < s.blk_cnt
      → Delivers
          (read_middle disk inode s buf dst at)
          disk
          inode
          dst
          at
          ((s.head_idx + 1) * 4096)
          rest
  middle_blocks buf dst at many = elim (Bool-cases (s.blk_cnt == 2)) [
    | inl two ↦ two_blocks buf dst at (ground arith)
    | inr more ↦ more_blocks buf dst at (ground arith)
  ]

  read_first_step :
      (dst b : Bytes) (cnt n : ℕ)
      → blk_read disk inode s.head_idx blank 1 ≡ some (some n, b)
      → read_first disk inode s dst cnt
        ≡ read_middle disk inode s b
            (blit dst 0 b s.head_offset (if s.blk_cnt == 1 then cnt else 4096 - s.head_offset))
            (4096 - s.head_offset)
  unfolding read_first on_read
  read_first_step dst b cnt n e = rw (e, on_read) refl

  read_middle_none :
      (buf dst : Bytes) (at : ℕ)
      → s.blk_cnt ≡ 1
      → read_middle disk inode s buf dst at ≡ some (true, dst)
  unfolding read_middle read_last
  read_middle_none buf dst at one = rw one refl

  -- The whole stretch.
  pub first-Delivers :
      (dst : Bytes) (cnt p : ℕ)
      → 0 < s.blk_cnt
      → p ≡ s.head_idx * 4096 + s.head_offset
      → s.head_idx * 4096 + s.head_offset + cnt ≡ s.tail_idx * 4096 + s.tail_offset + 1
      → Delivers (read_first disk inode s dst cnt) disk inode dst 0 p cnt
  first-Delivers dst cnt p pos start total =
      let (b, e, h) =
        blk_read-Holds disk inode s.head_idx blank 1
          (record {
            direct = omega (arith, ok.there.direct);
            present = λ k le lt. ok.there.present k le (omega arith);
          })
          (omega arith) (omega (arith, ok.size, ok.count)) in
      let step = read_first_step dst b cnt (1 * 4096) e in
      elim (Bool-cases (s.blk_cnt == 1)) [
        | inl one ↦
            let one' : s.blk_cnt ≡ 1 = ground arith in
            (
              blit dst 0 b s.head_offset cnt,
              step ∙ rw one (read_middle_none b _ (4096 - s.head_offset) one'),
              blit-Holds disk inode b blank dst 0 (s.head_idx * 4096) cnt 4096 s.head_offset p start
                  h (omega (arith, ok.count, ok.tail, one')),
            )
        | inr more ↦
            let n = 4096 - s.head_offset in
            let g = blit dst 0 b s.head_offset n in
            let front =
              blit-Holds disk inode b blank dst 0 (s.head_idx * 4096) n 4096 s.head_offset p start h
                (omega (arith, ok.head)) in
            let (f, e', h') = middle_blocks b g n (ground arith) in
            (
              f,
              step ∙ rw more e',
              Holds-join disk inode f g dst 0 p n rest n ((s.head_idx + 1) * 4096) cnt (omega arith)
                  (omega (arith, ok.head, start)) (ground (arith, ok.count, ok.head)) front h',
            )
      ]

-- `span` of a stretch that does not wrap around.
pub span_figures :
    (pos cnt : ℕ)
    → 0 < cnt
    → pos + cnt < 2 ^ 32
    → span pos cnt ≡ record {
      head_idx = pos / 4096;
      head_offset = pos % 4096;
      tail_idx = (pos + cnt - 1) / 4096;
      tail_offset = (pos + cnt - 1) % 4096;
      blk_cnt = (pos + cnt - 1) / 4096 - pos / 4096 + 1;
    }
unfolding span
span_figures pos cnt some_bytes small =
    let last : sub32 (add32 pos cnt) 1 ≡ pos + cnt - 1 = omega arith in
    let count : add32 (sub32 ((pos + cnt - 1) / 4096) (pos / 4096)) 1
        ≡ (pos + cnt - 1) / 4096 - pos / 4096 + 1 =
      omega arith in
    rw (last, count) refl

-- The number of blocks that a stretch touches.
abbrev pub touched : (pos cnt : ℕ) → ℕ
touched pos cnt = (pos + cnt - 1) / 4096 - pos / 4096 + 1

abbrev pub figures : (pos cnt : ℕ) → Span
figures pos cnt = record {
  head_idx = pos / 4096;
  head_offset = pos % 4096;
  tail_idx = (pos + cnt - 1) / 4096;
  tail_offset = (pos + cnt - 1) % 4096;
  blk_cnt = touched pos cnt;
}

pub figures-Fits :
    (inode : Inode) (pos cnt : ℕ)
    → 0 < cnt
    → pos + cnt ≤ inode.i_size
    → Present inode (pos / 4096) (touched pos cnt)
    → Fits inode (figures pos cnt)
figures-Fits inode pos cnt some_bytes inside_file p = record {
  count = omega arith;
  head = omega arith;
  tail = omega arith;
  there = p;
  size = omega arith;
}

read_step :
    (root_blk disk : Bytes) (inode : Inode) (pos : ℕ) (dst : Bytes) (cnt : ℕ)
    → inode.i_no ≢ 0
    → 0 < cnt
    → pos + cnt ≤ inode.i_size
    → pos + cnt < 2 ^ 32
    → inode_read root_blk disk inode pos dst cnt ≡ read_first disk inode (figures pos cnt) dst cnt
unfolding inode_read
read_step root_blk disk inode pos dst cnt file some_bytes inside_file small =
    let not_root : (inode.i_no == 0) ≡ false = ground arith in
    let sum : add32 pos cnt ≡ pos + cnt = omega arith in
    let in_file : ltb inode.i_size (add32 pos cnt) ≡ false = ground arith in
    rw (not_root, in_file, span_figures pos cnt some_bytes small) refl

-- `inode_read` of a positive number of bytes inside a file that is not the root directory, over
-- direct blocks that are there, succeeds and puts exactly those bytes of the file at the start of
-- `dst`.
pub inode_read-Delivers :
    (root_blk disk : Bytes) (inode : Inode) (pos : ℕ) (dst : Bytes) (cnt : ℕ)
    → inode.i_no ≢ 0
    → 0 < cnt
    → pos + cnt ≤ inode.i_size
    → Present inode (pos / 4096) (touched pos cnt)
    → Delivers (inode_read root_blk disk inode pos dst cnt) disk inode dst 0 pos cnt
inode_read-Delivers root_blk disk inode pos dst cnt file some_bytes inside_file p =
    let d = p.direct in
    let (f, e, h) =
      first-Delivers disk inode (figures pos cnt)
        (figures-Fits inode pos cnt some_bytes inside_file p) dst cnt pos (omega arith)
        (omega arith) (omega arith) in
    (
      f,
      read_step root_blk disk inode pos dst cnt file some_bytes inside_file (omega (arith, d)) ∙ e,
      h,
    )
