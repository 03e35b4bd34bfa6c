-- ===== src/Bitmap/Fresh.antt =====
-- `bitmap_init` and `bitmap_reset`: a new bitmap is valid and every bit in it is clear.
use a_os.Base.{
  ℕ, zero, suc, ◌*◌, ◌/◌, ◌%◌, ◌^◌, ◌<◌, ◌≤◌, ◌≡◌, refl, true, false, List, [], ◌∷◌, arith, ltb,
  if◌then◌else◌, length, get_or, ap, all_below, all_below_sound,
}
use a_os.Bitmap.{init, reset, memset_zero, check, test, byte}
use a_os.Bitmap.Inv.{IsValid}

-- Every element is a byte.
abbrev pub Bytes : List ℕ → Type 0
Bytes xs = (i : ℕ) → get_or xs i 0 < 256

length-memset_zero : (xs : List ℕ) (n : ℕ) → length (memset_zero xs n) ≡ length xs
unfolding memset_zero
length-memset_zero [] n = refl
length-memset_zero (x ∷ xs) zero = refl
length-memset_zero (x ∷ xs) (suc n) = ap suc (length-memset_zero xs n)

get_or-memset_zero :
    (xs : List ℕ) (n i : ℕ) → get_or (memset_zero xs n) i 0 ≡ (if ltb i n then 0 else get_or xs i 0)
unfolding memset_zero
get_or-memset_zero [] n i = ground arith
get_or-memset_zero (x ∷ xs) zero zero = refl
get_or-memset_zero (x ∷ xs) zero (suc i) = ground arith
get_or-memset_zero (x ∷ xs) (suc n) zero = ground arith
get_or-memset_zero (x ∷ xs) (suc n) (suc i) = ground (arith, get_or-memset_zero xs n i)

zero_table : all_below 8 (λ k. if test 0 k then false else true) ≡ true
unfolding all_below test
zero_table = refl

test-zero : (k : ℕ) → k < 8 → test 0 k ≡ false
test-zero k lt =
    ground (arith, all_below_sound 8 (λ k. if test 0 k then false else true) k zero_table lt)

-- A bitmap over enough bytes of memory, of fewer than 2 ^ 31 bits, is valid after `bitmap_init` and
-- `bitmap_reset`, every index inside it is clear, and the memory behind it is untouched.
pub reset-fresh :
    (storage : List ℕ) (len : ℕ)
    → Bytes storage
    → len ≤ length storage
    → len * 8 < 2 ^ 31
    → IsValid (reset (init storage len))
      × ((reset (init storage len)).len ≡ len)
      × ((i : ℕ) → i < len * 8 → check (reset (init storage len)) i ≡ false)
      × ((i : ℕ) → len ≤ i → byte (reset (init storage len)) i ≡ get_or storage i 0)
unfolding reset init check
reset-fresh storage len bytes room small = (
  record {
    holds = omega (arith, length-memset_zero storage len);
    small = small;
    bytes = λ i. ground (arith, get_or-memset_zero storage len i, bytes i);
  },
  refl,
  λ i lt.
      let inside : ltb (i / 8) len ≡ true = ground arith in
      rw (get_or-memset_zero storage len (i / 8), inside) (test-zero (i % 8) (omega arith)),
  λ i ge. ground (arith, get_or-memset_zero storage len i),
)
