-- ===== src/Inode/Owned.antt =====
-- The blocks of a file: whose they are, and what a change to one file leaves of the others.
use a_os.Base.{
  ℕ, zero, suc, ◌+◌, ◌*◌, ◌≤◌, ◌<◌, ◌≡◌, ◌≢◌, refl, sym, ap, ◌∙◌, true, ◌==◌, if◌then◌else◌, length,
  arith, Bool-cases, inl, inr,
}
use a_os.Bitmap.{Bitmap, check}
use a_os.Bitmap.Scan.{NoRun}
use a_os.Disk.{Bytes}
use a_os.Inode.{Inode, Volume}
use a_os.Inode.Bitmaps.{IsValid, block_at}
use a_os.Inode.Content.{lba_of, content}

-- The number of clear bits below `n`.
unfoldable pub free_below : (n : ℕ) → Bitmap → ℕ
free_below zero b = 0
free_below (suc n) b = free_below n b + (if check b n then 0 else 1)

abbrev pub free_blocks : Volume → ℕ
free_blocks v = free_below (v.blk_btmp.len * 8) v.blk_btmp

-- Bits that agree below `n` leave the same number clear.
free_below-same :
    (n : ℕ) (b b' : Bitmap)
    → ((j : ℕ) → j < n → check b' j ≡ check b j)
    → free_below n b ≡ free_below n b'
unfolding free_below
free_below-same zero b b' h = refl
free_below-same (suc n) b b' h =
    let below = free_below-same n b b' (λ j lt. h j (omega arith)) in
    ground (arith, h n (omega arith), below)

-- One more bit in use takes away at most one.
pub free_below-one :
    (n : ℕ) (b b' : Bitmap) (idx : ℕ)
    → ((j : ℕ) → check b' j ≡ (if idx == j then true else check b j))
    → free_below n b ≤ free_below n b' + 1
unfolding free_below
free_below-one zero b b' idx h = omega arith
free_below-one (suc n) b b' idx h = elim (Bool-cases (idx == n)) [
  | inl hit ↦
      let same = free_below-same n b b' (λ j lt. ground (arith, h j)) in ground (arith, h n, same)
  | inr miss ↦ let below = free_below-one n b b' idx h in ground (arith, h n, below)
]

-- No clear bit, no free block.
free_below-full : (n : ℕ) (b : Bitmap) → ((j : ℕ) → j < n → check b j ≡ true) → free_below n b ≡ 0
unfolding free_below
free_below-full zero b h = refl
free_below-full (suc n) b h =
    let below = free_below-full n b (λ j lt. h j (omega arith)) in
    ground (arith, h n (omega arith), below)

pub free_blocks-full : (v : Volume) → NoRun v.blk_btmp 1 → free_blocks v ≡ 0
free_blocks-full v full = free_below-full (v.blk_btmp.len * 8) v.blk_btmp (λ j lt.
    elim (Bool-cases (check v.blk_btmp j)) [
      | inl used ↦ used
      | inr free ↦
          absurd (full j (omega arith) (λ i le li. let e : i ≡ j = omega arith in rw e free))
    ])

-- Block `b` of the volume is in use.
pub record Holder (v : Volume) (lba : ℕ) : Type 0 where
  pub block : ℕ
  pub inside : block < v.blk_btmp.len * 8
  pub used : check v.blk_btmp block ≡ true
  pub lba_is : lba ≡ v.blk_lba + block * 8

-- The direct blocks of an inode are blocks in use, and no two are the same.
pub record Owned (v : Volume) (inode : Inode) : Type 0 where
  pub base : 0 < v.blk_lba
  pub array : length inode.i_block ≡ 13
  pub holder : (k : ℕ) → k < 12 → lba_of inode k ≢ 0 → Holder v (lba_of inode k)
  pub distinct :
      (j k : ℕ) → j < 12 → k < 12 → j ≢ k → lba_of inode j ≢ 0 → lba_of inode j ≢ lba_of inode k

-- Block `b` is in use, and not by this inode's direct blocks.
pub record Foreign (v : Volume) (inode : Inode) (b : ℕ) : Type 0 where
  pub inside : b < v.blk_btmp.len * 8
  pub used : check v.blk_btmp b ≡ true
  pub other : (k : ℕ) → k < 12 → lba_of inode k ≢ v.blk_lba + b * 8

-- From `v` and `i` to `v'` and `i'`, where at most `n` blocks are taken and the file then contains `c`
-- in its direct blocks: the volume stays valid, no other block in use changes, nor does what lies
-- before the block bitmap, and of the inode only the array changes.
pub record Stores (v : Volume) (i : Inode) (v' : Volume) (i' : Inode) (c : Bytes) (n : ℕ)
    : Type 0 where
  pub valid : IsValid v'
  pub owned : Owned v' i'
  pub bytes : (p : ℕ) → p < 49152 → content v'.disk i' p ≡ c p
  pub foreign : (b : ℕ) → Foreign v i b → Foreign v' i' b
  pub kept :
      (b k : ℕ) → Foreign v i b → k < 4096 → v'.disk (block_at v b + k) ≡ v.disk (block_at v b + k)
  pub grows : (k : ℕ) → lba_of i k ≢ 0 → lba_of i' k ≢ 0
  pub rest : i' ≡ record i { i_block = i'.i_block }
  pub volume_rest : v' ≡ record v { blk_btmp = v'.blk_btmp; disk = v'.disk }
  pub front : (a : ℕ) → a < v.blk_btmp_lba * 512 → v'.disk a ≡ v.disk a
  pub free : free_blocks v ≤ free_blocks v' + n

-- One change after another.
pub Stores-trans :
    {v v' v'' : Volume} {i i' i'' : Inode} {c c' : Bytes} {n m : ℕ}
    → Stores v i v' i' c n
    → Stores v' i' v'' i'' c' m
    → Stores v i v'' i'' c' (n + m)
Stores-trans {v} {v'} {v''} {i} {i'} {i''} s t =
    let base : v'.blk_lba ≡ v.blk_lba = ap (λ (w : Volume). w.blk_lba) s.volume_rest in
    let btmp : v'.blk_btmp_lba ≡ v.blk_btmp_lba =
      ap (λ (w : Volume). w.blk_btmp_lba) s.volume_rest in
    record {
      valid = t.valid;
      owned = t.owned;
      bytes = t.bytes;
      foreign = λ b f. t.foreign b (s.foreign b f);
      kept = λ b k f lt.
          ap (λ (x : ℕ). v''.disk ((x + b * 8) * 512 + k)) (sym base)
          ∙ t.kept b k (s.foreign b f) lt
          ∙ ap (λ (x : ℕ). v'.disk ((x + b * 8) * 512 + k)) base
          ∙ s.kept b k f lt;
      grows = λ k ne. t.grows k (s.grows k ne);
      rest = t.rest ∙ ap (λ (x : Inode). record x { i_block = i''.i_block }) s.rest;
      volume_rest =
          t.volume_rest
          ∙ ap (λ (x : Volume). record x { blk_btmp = v''.blk_btmp; disk = v''.disk })
              s.volume_rest;
      front = λ a lt. t.front a (omega (arith, btmp)) ∙ s.front a lt;
      free = omega (arith, s.free, t.free);
    }

-- The same change, with its bytes and its count said otherwise.
pub Stores-as :
    {v v' : Volume} {i i' : Inode} {c c' : Bytes} {n m : ℕ}
    → ((p : ℕ) → p < 49152 → c p ≡ c' p)
    → n ≤ m
    → Stores v i v' i' c n
    → Stores v i v' i' c' m
Stores-as same le s = record {
  valid = s.valid;
  owned = s.owned;
  bytes = λ p lt. s.bytes p lt ∙ same p lt;
  foreign = s.foreign;
  kept = s.kept;
  grows = s.grows;
  rest = s.rest;
  volume_rest = s.volume_rest;
  front = s.front;
  free = omega (arith, s.free, le);
}

-- No change.
pub Stores-refl :
    (v : Volume) (i : Inode) → IsValid v → Owned v i → Stores v i v i (content v.disk i) 0
Stores-refl v i ok own = record {
  valid = ok;
  owned = own;
  bytes = λ p lt. refl;
  foreign = λ b f. f;
  kept = λ b k f lt. refl;
  grows = λ k ne. ne;
  rest = refl;
  volume_rest = refl;
  front = λ a lt. refl;
  free = omega arith;
}
