-- ===== src/Printf/Number.antt =====
-- The numbers that `itoa` of lib/src/stdio.c writes, read back.
use a_os.Base.{
  ℕ, zero, suc, ◌+◌, ◌-◌, ◌*◌, ◌/◌, ◌%◌, ◌^◌, ◌<◌, ◌≤◌, ◌≡◌, refl, ap, false, Option, length,
  length-append, none, some, leb, ◌&&◌, List, [], ◌∷◌, ◌++◌, ltb, Bool-cases, inl, inr,
  if◌then◌else◌, arith,
}
use mathlib.Core.List.{append_assoc}
use native.Mathlib.Nat.{mod-lt, div-add-mod', div-lt_iff_lt-mul, mul-le-mul_left}
use a_os.Printf.{digit, put_digit, itoa}

-- The value of a digit character of a base: '0' to '9', and from ten on the letters from 'A'.
digit_value : (base c : ℕ) → Option ℕ
digit_value base c =
    if leb b'0' c && leb c b'9' && ltb (c - b'0') base
    then some (c - b'0')
    else if leb b'A' c && leb c b'Z' && ltb (c - b'A' + 10) base
    then some (c - b'A' + 10)
    else none

abbrev next : (base : ℕ) → Option ℕ → Option ℕ → Option ℕ
next base none _ = none
next base (some n) none = none
next base (some n) (some d) = some (n * base + d)

-- A numeral read from the left, behind digits of value `n`; `none` at a character that is no digit.
pub read_number : (base : ℕ) → Option ℕ → List ℕ → Option ℕ
read_number base n [] = n
read_number base n (c ∷ cs) = read_number base (next base n (digit_value base c)) cs

digit_value-digit : (base m : ℕ) → m < base → base ≤ 36 → digit_value base (digit m) ≡ some m
unfolding digit_value digit
digit_value-digit base m lt high = ground arith

read_number-snoc :
    (base : ℕ) (n : Option ℕ) (cs : List ℕ) (c : ℕ)
    → read_number base n (cs ++ (c ∷ [])) ≡ next base (read_number base n cs) (digit_value base c)
unfolding read_number
read_number-snoc base n [] c = refl
read_number-snoc base n (d ∷ cs) c = read_number-snoc base (next base n (digit_value base d)) cs c

-- The text `out` and behind it digits, one at least, that make the number `value`.
pub data Numeral (base value : ℕ) (out : List ℕ) : Option (List ℕ) → Type 0 where
  numeral :
      (ds : List ℕ)
      → (0 < length ds)
      → (read_number base (some 0) ds ≡ some value)
      → Numeral base value out (some (out ++ ds))

last_digit :
    (value base : ℕ)
    → 2 ≤ base
    → base ≤ 36
    → digit_value base (digit (value % base)) ≡ some (value % base)
last_digit value base low high =
    digit_value-digit base (value % base) (mod-lt value {m = base} (omega arith)) high

put_digit-Numeral :
    (value : ℕ)
    → (out : List ℕ) → (base : ℕ) → (r : Option (List ℕ)) → 2 ≤ base
    → base ≤ 36
    → Numeral base (value / base) out r
    → Numeral base value out (put_digit (value % base) r)
unfolding put_digit
put_digit-Numeral value out base _ low high (numeral ds some_digit e) =
    let d : ℕ = digit (value % base) in
    let reads : read_number base (some 0) (ds ++ (d ∷ [])) ≡ some value =
      rw (read_number-snoc base (some 0) ds d, e, last_digit value base low high)
        (ap some (div-add-mod' value base)) in
    rw (append_assoc out ds (d ∷ []))
      (numeral (ds ++ (d ∷ [])) (omega (arith, length-append ds (d ∷ []))) reads)

-- The leading digit.
one_digit :
    (value : ℕ)
    → (out : List ℕ) → (base : ℕ) → 2 ≤ base
    → base ≤ 36
    → ltb 0 (value / base) ≡ false
    → Numeral base value out (put_digit (value % base) (some out))
unfolding put_digit read_number
one_digit value out base low high e =
    let none_left : value / base ≡ 0 = ground arith in
    let all : value % base ≡ value =
      omega (arith, ap (λ q. q * base + value % base) none_left, div-add-mod' value base) in
    let reads : read_number base (some 0) (digit (value % base) ∷ []) ≡ some value =
      rw (last_digit value base low high) (ap some (omega (arith, all))) in
    numeral (digit (value % base) ∷ []) (omega arith) reads

quotient_small : (fuel value base : ℕ) → 2 ≤ base → value < 2 ^ suc fuel → value / base < 2 ^ fuel
quotient_small fuel value base low small =
    (div-lt_iff_lt-mul {k = base} {x = value} {y = 2 ^ fuel} (omega arith)).1
      (omega (arith, mul-le-mul_left {m = 2} {n = base} (2 ^ fuel) low))

-- With a base from 2 to 36 and `suc fuel` steps for a number below 2 ^ suc fuel, `itoa` returns:
-- behind the text it writes one character at least, each is a digit of the base from '0' to '9' or
-- from 'A' on, and the numeral that they make, read from the left, is the number.
pub itoa-Numeral :
    (fuel value : ℕ)
    → (out : List ℕ) → (base : ℕ) → 2 ≤ base
    → base ≤ 36
    → value < 2 ^ suc fuel
    → Numeral base value out (itoa (suc fuel) value out base)
unfolding itoa
itoa-Numeral zero value out base low high small =
    let stops : ltb 0 (value / base) ≡ false =
      ground (arith, quotient_small zero value base low small) in
    rw stops (one_digit value out base low high stops)
itoa-Numeral (suc fuel) value out base low high small = elim (Bool-cases (ltb 0 (value / base))) [
  | inl more ↦ rw more (
      put_digit-Numeral value out base (itoa (suc fuel) (value / base) out base) low high (
        itoa-Numeral fuel (value / base) out base low high
          (quotient_small (suc fuel) value base low small)))
  | inr last ↦ rw last (one_digit value out base low high last)
]
