-- ===== src/Disk/Rounds.antt =====
-- Which bytes `ide_read` and `ide_write` move, and which sectors they can reach.
use a_os.Base.{
  ℕ, zero, suc, ◌+◌, ◌-◌, ◌*◌, ◌%◌, ap, ◌≤◌, ◌<◌, min, ◌≡◌, refl, true, false, ◌∙◌, ltb, leb,
  if◌then◌else◌, arith, Bool-cases, inl, inr,
}
use a_os.CString.Copy.{inside}
use a_os.Disk.{Bytes, blit, round_size, read_rounds, ide_read, write_rounds, ide_write}

round_size-all : (cnt : ℕ) → cnt ≤ 256 → round_size cnt 0 ≡ cnt
round_size-all cnt small = ground arith

read_rounds-done :
    (fuel : ℕ) (disk : Bytes) (lba : ℕ) (dst : Bytes) (cnt done : ℕ)
    → cnt ≤ done
    → read_rounds fuel disk lba dst cnt done ≡ dst
unfolding read_rounds
read_rounds-done zero disk lba dst cnt done le = refl
read_rounds-done (suc fuel) disk lba dst cnt done le =
    let stop : ltb done cnt ≡ false = ground arith in rw stop refl

write_rounds-done :
    (fuel : ℕ) (disk : Bytes) (lba : ℕ) (src : Bytes) (cnt done : ℕ)
    → cnt ≤ done
    → write_rounds fuel disk lba src cnt done ≡ disk
unfolding write_rounds
write_rounds-done zero disk lba src cnt done le = refl
write_rounds-done (suc fuel) disk lba src cnt done le =
    let stop : ltb done cnt ≡ false = ground arith in rw stop refl

-- One round.
pub ide_read-blit :
    (disk : Bytes) (lba : ℕ) (dst : Bytes) (cnt : ℕ)
    → 0 < cnt
    → cnt ≤ 256
    → ide_read disk lba dst cnt ≡ blit dst 0 disk (lba * 512) (cnt * 512)
unfolding ide_read read_rounds
ide_read-blit disk lba dst zero pos small = absurd (omega arith)
ide_read-blit disk lba dst (suc n) pos small =
    let all = round_size-all (suc n) small in
    let go : ltb 0 (suc n) ≡ true = ground arith in
    let next : 0 + suc n ≡ suc n = omega arith in
    rw (all, go, next) (read_rounds-done n disk lba _ (suc n) (suc n) (omega arith))

pub ide_write-blit :
    (disk : Bytes) (lba : ℕ) (src : Bytes) (cnt : ℕ)
    → 0 < cnt
    → cnt ≤ 256
    → ide_write disk lba src cnt ≡ blit disk (lba * 512) src 0 (cnt * 512)
unfolding ide_write write_rounds
ide_write-blit disk lba src zero pos small = absurd (omega arith)
ide_write-blit disk lba src (suc n) pos small =
    let all = round_size-all (suc n) small in
    let go : ltb 0 (suc n) ≡ true = ground arith in
    let next : 0 + suc n ≡ suc n = omega arith in
    rw (all, go, next) (write_rounds-done n _ lba src (suc n) (suc n) (omega arith))

-- Rounds before the last whole one move 256 sectors, so no round moves more than that.
round_size-bound : (cnt done : ℕ) → (round_size cnt done ≤ 256) × (round_size cnt done ≤ cnt)
round_size-bound cnt done = ground arith

module _ (disk : Bytes) (lba : ℕ) (src : Bytes) (cnt a : ℕ) where
  write_rounds-outside :
      (fuel done : ℕ) (disk : Bytes)
      → inside (lba * 512) (min cnt 256 * 512) a ≡ false
      → write_rounds fuel disk lba src cnt done a ≡ disk a
  unfolding write_rounds
  write_rounds-outside zero done disk out = refl
  write_rounds-outside (suc fuel) done disk out = elim (Bool-cases (ltb done cnt)) [
    | inr stop ↦ rw stop refl
    | inl go ↦
        let b = round_size-bound cnt done in
        let miss : inside (lba * 512) (round_size cnt done * 512) a ≡ false = ground arith in
        rw go (
          write_rounds-outside fuel (done + round_size cnt done)
            (blit disk (lba * 512) src (done * 512) (round_size cnt done * 512)) out
          ∙ rw miss refl)
  ]

  -- `ide_write` of any number of sectors changes no byte of the disk outside the first 256 of them
  -- from `lba` on.
  pub ide_write-outside :
      inside (lba * 512) (min cnt 256 * 512) a ≡ false → ide_write disk lba src cnt a ≡ disk a
  unfolding ide_write
  ide_write-outside out = write_rounds-outside cnt 0 disk out

full_round :
    (disk : Bytes) (lba cnt i done : ℕ) (dst : Bytes)
    → done % 256 ≡ 0
    → done + 256 ≤ cnt
    → (if inside ((done + 256) * 512) ((cnt - (done + 256)) * 512) i
        then disk (lba * 512 + i % 131072)
        else blit dst (done * 512) disk (lba * 512) (256 * 512) i)
      ≡ (if inside (done * 512) ((cnt - done) * 512) i
          then disk (lba * 512 + i % 131072)
          else dst i)
full_round disk lba cnt i done dst whole more =
    elim (Bool-cases (inside (done * 512) (256 * 512) i)) [
      | inl here ↦
          let later : inside ((done + 256) * 512) ((cnt - (done + 256)) * 512) i ≡ false =
            ground arith in
          let all : inside (done * 512) ((cnt - done) * 512) i ≡ true = ground arith in
          let lo : done * 512 ≤ i = ground arith in
          let hi : i < done * 512 + 131072 = ground arith in
          let at : i - done * 512 ≡ i % 131072 = omega (arith, whole) in
          rw (later, here, all) (ap (λ t. disk (lba * 512 + t)) at)
      | inr away ↦ rw away (ground arith)
    ]

last_round :
    (disk : Bytes) (lba cnt i done : ℕ) (dst : Bytes)
    → done % 256 ≡ 0
    → cnt < done + 256
    → blit dst (done * 512) disk (lba * 512) ((cnt - done) * 512) i ≡ (
        if inside (done * 512) ((cnt - done) * 512) i then disk (lba * 512 + i % 131072) else dst i)
last_round disk lba cnt i done dst whole few =
    elim (Bool-cases (inside (done * 512) ((cnt - done) * 512) i)) [
      | inl here ↦
          let lo : done * 512 ≤ i = ground arith in
          let hi : i < done * 512 + (cnt - done) * 512 = ground arith in
          let at : i - done * 512 ≡ i % 131072 = omega (arith, whole) in
          rw here (ap (λ t. disk (lba * 512 + t)) at)
      | inr away ↦ rw away refl
    ]

-- The bytes that the rounds from `done` on deliver.
read_rounds-bytes :
    (disk : Bytes) (lba cnt i fuel done : ℕ) (dst : Bytes)
    → cnt ≤ done + fuel
    → done % 256 ≡ 0
    → read_rounds fuel disk lba dst cnt done i ≡ (
        if inside (done * 512) ((cnt - done) * 512) i then disk (lba * 512 + i % 131072) else dst i)
unfolding read_rounds
read_rounds-bytes disk lba cnt i zero done dst enough whole = ground arith
read_rounds-bytes disk lba cnt i (suc fuel) done dst enough whole =
    elim (Bool-cases (ltb done cnt)) [
      | inr stop ↦
          let none : inside (done * 512) ((cnt - done) * 512) i ≡ false = ground arith in
          rw (stop, none) refl
      | inl go ↦ elim (Bool-cases (leb 256 (cnt - done))) [
        | inl more ↦
            rw (go, more)
              (read_rounds-bytes disk lba cnt i fuel (done + 256) _ (omega arith) (omega arith)
                ∙ full_round disk lba cnt i done dst whole (ground arith))
        | inr last ↦
            rw (go, last)
              (ap (λ (f : Bytes). f i)
                  (read_rounds-done fuel disk lba _ cnt (done + (cnt - done)) (omega arith))
                ∙ last_round disk lba cnt i done dst whole (ground arith))
      ]
    ]

-- `ide_read` of any number of sectors fills that many sectors of the buffer and leaves the rest,
-- and byte `i` of them comes from byte `i` modulo 256 sectors of the disk, counted from `lba` on:
-- the rounds after the first read the same sectors again.
pub ide_read-bytes :
    (disk : Bytes) (lba : ℕ) (dst : Bytes) (cnt i : ℕ)
    → ide_read disk lba dst cnt i
      ≡ (if ltb i (cnt * 512) then disk (lba * 512 + i % (256 * 512)) else dst i)
unfolding ide_read
ide_read-bytes disk lba dst cnt i =
    read_rounds-bytes disk lba cnt i cnt 0 dst (omega arith) refl ∙ ground arith
