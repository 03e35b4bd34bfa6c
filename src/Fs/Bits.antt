-- ===== src/Fs/Bits.antt =====
-- Which blocks a new block bitmap leaves free.
use a_os.Base.{
  ℕ, ◌+◌, ◌-◌, ◌*◌, ◌/◌, ◌%◌, ◌≤◌, ◌<◌, ◌≡◌, refl, Bool, ap, ◌∙◌, true, false, ◌==◌, if◌then◌else◌,
  ltb, bool_eq, bool_eq-eq, all_below, all_below_sound, arith, Bool-cases, inl, inr,
}
use a_os.CString.Copy.{inside}
use a_os.Bitmap.{test}
use a_os.Bitmap.Byte.{test_full}
use a_os.Disk.{Bytes, blit}
use a_os.Fs.{first_bit, clear_bits, block_bits}

-- The last byte, at every bit of it and every number of bits cleared.
abbrev last_ok : ℕ → ℕ → Bool
last_ok r k = bool_eq (test (clear_bits (r + 1) 0 255) k) (ltb r k)

last_table : all_below 8 (λ r. all_below 8 (λ k. last_ok r k)) ≡ true
unfolding all_below test clear_bits a_os.Bitmap.clear
last_table = refl

last_byte : (r k : ℕ) → r < 8 → k < 8 → test (clear_bits (r + 1) 0 255) k ≡ ltb r k
last_byte r k hr hk = bool_eq-eq _ _ (
    all_below_sound 8 (λ k. last_ok r k) k
      (all_below_sound 8 (λ r. all_below 8 (λ k. last_ok r k)) r last_table hr) hk)

-- The first byte, and the others before the last.
abbrev first_ok : ℕ → Bool
first_ok k = bool_eq (test 1 k) (k == 0)

first_table :
    all_below 8 (λ k. if first_ok k then (if test 0 k then false else true) else false) ≡ true
unfolding all_below test
first_table = refl

first_byte : (k : ℕ) → k < 8 → (test 1 k ≡ (k == 0)) × (test 0 k ≡ false)
first_byte k hk =
    let h =
      all_below_sound 8 (λ k. if first_ok k then (if test 0 k then false else true) else false) k
        first_table hk in
    elim (Bool-cases (first_ok k)) [
      | inl good ↦ (bool_eq-eq _ _ good, ground (arith, h, good))
      | inr bad ↦ absurd (ground (arith, h, bad))
    ]

-- The byte of bit `j`.
module _ (n j : ℕ) (some_bytes : 8 ≤ n) (fit : j < (n / 8 / 512 + 1) * 4096) where
  abbrev filled : Bytes
  filled = blit first_bit (n / 8) (λ i. 0xFF) 0 (512 - n / 8 % 512)

  at_last : j / 8 ≡ n / 8 → block_bits n (j / 8) ≡ clear_bits (n % 8 + 1) 0 255
  unfolding block_bits
  at_last e =
      let hit : (j / 8 == n / 8) ≡ true = ground arith in
      let part : inside (n / 8) (512 - n / 8 % 512) (j / 8) ≡ true = ground arith in
      rw (hit, part) refl

  behind : n / 8 < j / 8 → block_bits n (j / 8) ≡ 255
  unfolding block_bits
  behind lt =
      let miss : (j / 8 == n / 8) ≡ false = ground arith in
      let part : inside (n / 8) (512 - n / 8 % 512) (j / 8) ≡ true = ground arith in
      rw (miss, part) refl

  before : j / 8 < n / 8 → block_bits n (j / 8) ≡ (if j / 8 == 0 then 1 else 0)
  unfolding block_bits
  before lt =
      let miss : (j / 8 == n / 8) ≡ false = ground arith in
      let part : inside (n / 8) (512 - n / 8 % 512) (j / 8) ≡ false = ground arith in
      rw (miss, part) refl

  -- In the block bitmap of a partition of at least 8 blocks that `fs_format` writes, up to the end
  -- of the sector that holds the last block's byte, block 0 is in use, the blocks from 1 to the
  -- number of blocks are free, which is one more than there are, and all behind them are in use.
  pub block_bits-used : test (block_bits n (j / 8)) (j % 8) ≡ (if j == 0 then true else ltb n j)
  block_bits-used = elim (Bool-cases (j / 8 == n / 8)) [
    | inl same ↦
        let e : j / 8 ≡ n / 8 = ground arith in
        let t = last_byte (n % 8) (j % 8) (omega arith) (omega arith) in
        let pos : (j == 0) ≡ false = ground arith in
        let order : ltb (n % 8) (j % 8) ≡ ltb n j = ground arith in
        ap (λ x. test x (j % 8)) (at_last e) ∙ t ∙ order ∙ rw pos refl
    | inr other ↦ elim (Bool-cases (ltb (n / 8) (j / 8))) [
      | inl late ↦
          let lt : n / 8 < j / 8 = ground arith in
          let pos : (j == 0) ≡ false = ground arith in
          let order : ltb n j ≡ true = ground arith in
          ap (λ x. test x (j % 8)) (behind lt)
          ∙ test_full (j % 8) (omega arith)
          ∙ rw (pos, order) refl
      | inr early ↦
          let lt : j / 8 < n / 8 = ground arith in
          let order : ltb n j ≡ false = ground arith in
          let f = first_byte (j % 8) (omega arith) in
          ap (λ x. test x (j % 8)) (before lt) ∙ elim (Bool-cases (j / 8 == 0)) [
            | inl low ↦
                let zeroth : (j % 8 == 0) ≡ (j == 0) = ground arith in
                rw (low, order) (f.0 ∙ zeroth ∙ ground arith)
            | inr high ↦ let pos : (j == 0) ≡ false = ground arith in rw (high, order, pos) f.1
          ]
    ]
  ]
