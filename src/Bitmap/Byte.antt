-- ===== src/Bitmap/Byte.antt =====
-- The bit operations on one byte, checked at every byte and every bit.
use a_os.Base.{
  ℕ, ◌<◌, ◌≡◌, refl, Bool, true, false, ◌&&◌, ◌||◌, not, arith, ltb, leb, ◌==◌, if◌then◌else◌,
  bool_eq, bool_eq-eq, all_below, all_below_sound,
}
use a_os.Bitmap.{raise, clear, test, bit_scan}

-- A test at every byte, bit and second bit.
abbrev table : (ℕ → ℕ → ℕ → Bool) → Bool
table p = all_below 256 (λ x. all_below 8 (λ k. all_below 8 (λ j. p x k j)))

table_sound :
    (p : ℕ → ℕ → ℕ → Bool) (x k j : ℕ) → table p ≡ true → x < 256 → k < 8 → j < 8 → p x k j ≡ true
table_sound p x k j h hx hk hj =
    all_below_sound 8 (λ j. p x k j) j
      (all_below_sound 8 (λ k. all_below 8 (λ j. p x k j)) k
        (all_below_sound 256 (λ x. all_below 8 (λ k. all_below 8 (λ j. p x k j))) x h hx) hk)
      hj

abbrev raise_ok : ℕ → ℕ → ℕ → Bool
raise_ok x k j = bool_eq (test (raise x k) j) (if k == j then true else test x j)

abbrev clear_ok : ℕ → ℕ → ℕ → Bool
clear_ok x k j = bool_eq (test (clear x k) j) (if k == j then false else test x j)

raise_table : table raise_ok ≡ true
unfolding all_below test raise
raise_table = refl

clear_table : table clear_ok ≡ true
unfolding all_below test clear
clear_table = refl

pub test-raise :
    (x k j : ℕ) → x < 256 → k < 8 → j < 8 → test (raise x k) j ≡ (if k == j then true else test x j)
test-raise x k j hx hk hj = bool_eq-eq _ _ (table_sound raise_ok x k j raise_table hx hk hj)

pub test-clear :
    (x k j : ℕ)
    → x < 256
    → k < 8
    → j < 8
    → test (clear x k) j ≡ (if k == j then false else test x j)
test-clear x k j hx hk hj = bool_eq-eq _ _ (table_sound clear_ok x k j clear_table hx hk hj)

range_table : table (λ x k j. ltb (raise x k) 256 && ltb (clear x k) 256) ≡ true
unfolding all_below raise clear
range_table = refl

pub raise-lt : (x k : ℕ) → x < 256 → k < 8 → raise x k < 256
raise-lt x k hx hk = ground (arith, table_sound _ x k 0 range_table hx hk (omega arith))

pub clear-lt : (x k : ℕ) → x < 256 → k < 8 → clear x k < 256
clear-lt x k hx hk = ground (arith, table_sound _ x k 0 range_table hx hk (omega arith))

full_table : table (λ x k j. test 0xff k) ≡ true
unfolding all_below test
full_table = refl

-- A byte 0xff has no free bit.
pub test_full : (k : ℕ) → k < 8 → test 0xff k ≡ true
test_full k hk = table_sound _ 0 k 0 full_table (omega arith) hk (omega arith)

abbrev scan_ok : ℕ → ℕ → ℕ → Bool
scan_ok x k j =
    (0xff == x)
    || (ltb (bit_scan 9 x 0) 8
        && not (test x (bit_scan 9 x 0))
        && (test x k || leb (bit_scan 9 x 0) k))

scan_table : table scan_ok ≡ true
unfolding all_below test bit_scan
scan_table = refl

-- In any other byte the scan stops at the first free bit.
pub bit_scan_lem :
    (x k : ℕ)
    → x < 256
    → (0xff == x) ≡ false
    → k < 8
    → (bit_scan 9 x 0 < 8)
      × (test x (bit_scan 9 x 0) ≡ false)
      × (k < bit_scan 9 x 0 → test x k ≡ true)
bit_scan_lem x k hx ne hk = ground (arith, table_sound scan_ok x k 0 scan_table hx hk (omega arith))
