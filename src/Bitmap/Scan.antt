-- ===== src/Bitmap/Scan.antt =====
-- The three loops of `bitmap_acquire`: what they find is the first run of free bits.
use a_os.Base.{
  ℕ, zero, suc, ◌+◌, ◌-◌, ◌*◌, ◌/◌, ◌%◌, ◌<◌, ◌≤◌, ◌≡◌, ◌≢◌, true, false, Option, none, some, arith,
  ltb, ◌==◌, Bool-cases, inl, inr,
}
use a_os.Bitmap.{Bitmap, byte, test, check, byte_scan, bit_scan, run_scan}
use a_os.Bitmap.Byte.{test_full, bit_scan_lem}
use a_os.Bitmap.Inv.{IsValid}

-- The `n` bits from `s` on are clear.
abbrev pub Free : Bitmap → ℕ → ℕ → Type 0
Free b s n = (i : ℕ) → s ≤ i → i < s + n → check b i ≡ false

-- No run of `n` free bits starts below `s`.
abbrev pub NoneBelow : Bitmap → ℕ → ℕ → Type 0
NoneBelow b s n = (j : ℕ) → j < s → ¬ Free b j n

-- `s` is the first place inside the bitmap where `n` free bits lie.
pub record FirstFit (b : Bitmap) (n s : ℕ) : Type 0 where
  pub inside : s + n ≤ b.len * 8
  pub free : Free b s n
  pub first : NoneBelow b s n

-- No `n` free bits lie together inside the bitmap.
abbrev pub NoRun : Bitmap → ℕ → Type 0
NoRun b n = (j : ℕ) → j + n ≤ b.len * 8 → ¬ Free b j n

used_not-Free : (b : Bitmap) (j n i : ℕ) → check b i ≡ true → j ≤ i → i < j + n → ¬ Free b j n
used_not-Free b j n i used le lt f = ground (arith, f i le lt)

-- Where the byte loop stops: every byte before it is full, and it is not, or it is past the end.
byte_scan_lem :
    (fuel : ℕ) (b : Bitmap) (i : ℕ)
    → i + fuel ≡ b.len
    → ((k : ℕ) → k < i → byte b k ≡ 0xff)
    → ((k : ℕ) → k < byte_scan fuel b i → byte b k ≡ 0xff)
      × (byte_scan fuel b i ≤ b.len)
      × (byte_scan fuel b i ≢ b.len → (0xff == byte b (byte_scan fuel b i)) ≡ false)
unfolding byte_scan
byte_scan_lem zero b i e full = (full, omega arith, λ ne. absurd (ne (omega arith)))
byte_scan_lem (suc fuel) b i e full = elim (Bool-cases (0xff == byte b i)) [
  | inr stop ↦ rw stop (full, omega arith, λ ne. stop)
  | inl more ↦
      let here : byte b i ≡ 0xff = ground arith in
      let lt : ltb i b.len ≡ true = ground arith in
      let rest = byte_scan_lem fuel b (i + 1) (omega arith) (λ k lk. elim (Bool-cases (k == i)) [
        | inl same ↦ ground arith
        | inr other ↦ full k (ground arith)
      ]) in
      rw (more, lt) rest
]

full_byte_used : (b : Bitmap) (j : ℕ) → byte b (j / 8) ≡ 0xff → check b j ≡ true
unfolding check
full_byte_used b j e = rw e (test_full (j % 8) (omega arith))

-- The bit that the first two loops find: every bit before it is used, and it is free.
module _ (b : Bitmap) (v : IsValid b) where
  abbrev pub stop : ℕ
  stop = byte_scan b.len b 0

  stop_lem :
      ((k : ℕ) → k < stop → byte b k ≡ 0xff)
      × (stop ≤ b.len)
      × (stop ≢ b.len → (0xff == byte b stop) ≡ false)
  stop_lem = byte_scan_lem b.len b 0 (omega arith) (λ k lt. absurd (omega arith))

  pub full_all_used : stop ≡ b.len → (j : ℕ) → j < b.len * 8 → check b j ≡ true
  full_all_used e j lt = full_byte_used b j (stop_lem.0 (j / 8) (omega arith))

  abbrev pub first_free : ℕ
  first_free = stop * 8 + bit_scan 9 (byte b stop) 0

  module _ (ne : stop ≢ b.len) where
    bit_found :
        (k : ℕ)
        → k < 8
        → (bit_scan 9 (byte b stop) 0 < 8)
          × (test (byte b stop) (bit_scan 9 (byte b stop) 0) ≡ false)
          × (k < bit_scan 9 (byte b stop) 0 → test (byte b stop) k ≡ true)
    bit_found k lt = bit_scan_lem (byte b stop) k (v.bytes stop) (stop_lem.2 ne) lt

    first_free-parts :
        (first_free / 8 ≡ stop)
        × (first_free % 8 ≡ bit_scan 9 (byte b stop) 0)
        × (first_free < b.len * 8)
    first_free-parts = let f = bit_found 0 (omega arith) in omega (arith, f.0, stop_lem.1, ne)

    pub first_free-lt : first_free < b.len * 8
    first_free-lt = first_free-parts.2

    pub first_free-free : check b first_free ≡ false
    unfolding check
    first_free-free = rw (first_free-parts.0, first_free-parts.1) (bit_found 0 (omega arith)).1

    pub before_first_free : (j : ℕ) → j < first_free → check b j ≡ true
    unfolding check
    before_first_free j lt = elim (Bool-cases (j / 8 == stop)) [
      | inl same ↦
          let e : j / 8 ≡ stop = ground arith in
          rw e ((bit_found (j % 8) (omega arith)).2 (omega (arith, first_free-parts, e)))
      | inr other ↦
          let ne' : j / 8 ≢ stop = ground arith in
          rw (stop_lem.0 (j / 8) (omega (arith, first_free-parts, ne', lt)))
            (test_full (j % 8) (omega arith))
    ]

-- What a search for `cnt` bits promises of its answer.
abbrev pub Found : Bitmap → ℕ → Option ℕ → Type 0
Found b cnt none = NoRun b cnt
Found b cnt (some s) = FirstFit b cnt s

-- The run loop at `p + n`: the last `n` bits are free, and no run of `cnt` starts below `p`.
module _ (b : Bitmap) (cnt : ℕ) where
  ended : (p n : ℕ) → b.len * 8 ≤ p + n → n < cnt → NoneBelow b p cnt → NoRun b cnt
  ended p n done lt below j fit f = below j (omega arith) f

  used-NoneBelow :
      (p n : ℕ) → check b (p + n) ≡ true → n < cnt → NoneBelow b p cnt → NoneBelow b (p + n + 1) cnt
  used-NoneBelow p n used lt below j lj f = elim (Bool-cases (ltb j p)) [
    | inl old ↦ below j (ground arith) f
    | inr new ↦ used_not-Free b j cnt (p + n) used (ground arith) (ground arith) f
  ]

  Free-snoc : (p n : ℕ) → check b (p + n) ≡ false → Free b p n → Free b p (n + 1)
  Free-snoc p n free f i le lt = elim (Bool-cases (i == p + n)) [
    | inl e ↦ let e' : i ≡ p + n = ground arith in rw e' free
    | inr other ↦ f i le (ground arith)
  ]

  pub run_scan-Found :
      (fuel idx p n : ℕ)
      → b.len * 8 ≤ idx + fuel
      → p + n ≡ idx
      → n < cnt
      → Free b p n
      → NoneBelow b p cnt
      → Found b cnt (run_scan fuel b cnt (b.len * 8) idx n)
  unfolding run_scan
  run_scan-Found zero idx p n e pn lt free below = ended p n (omega arith) lt below
  run_scan-Found (suc fuel) idx p n e pn lt free below = elim (Bool-cases (ltb idx (b.len * 8))) [
    | inr done ↦ rw done (ended p n (ground arith) lt below)
    | inl more ↦ elim (Bool-cases (check b idx)) [
      | inl used ↦
          let ne : (0 == cnt) ≡ false = ground arith in
          rw (more, used, ne)
            (run_scan-Found fuel (idx + 1) (idx + 1) 0 (omega arith) (omega arith) (omega arith)
              (λ i le li. absurd (omega arith))
              (rw (← pn) (used-NoneBelow p n (rw pn used) lt below)))
      | inr free_bit ↦
          let free' : Free b p (n + 1) = Free-snoc p n (rw pn free_bit) free in
          rw (more, free_bit)
            (elim (Bool-cases (n + 1 == cnt)) [
              | inl hit ↦
                  let e1 : idx + 1 - (n + 1) ≡ p = omega arith in
                  let e2 : n + 1 ≡ cnt = ground arith in
                  rw (hit, e1)
                    (record { inside = ground arith; free = rw (← e2) free'; first = below })
              | inr miss ↦ rw miss (
                  run_scan-Found fuel (idx + 1) p (n + 1) (omega arith) (omega arith) (ground arith)
                    free' below)
            ])
    ]
  ]
