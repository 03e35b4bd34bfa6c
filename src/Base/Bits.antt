-- ===== src/Base/Bits.antt =====
-- Masks and flags: `bit_and` with a run of ones, and `bit_or` of a multiple with a small number.
use Prim.Native.Nat.{max, digits, bit_and-bitwise, bit_or-bitwise}
use native.Mathlib.Nat.{
  mod-lt, mod-eq_of_lt, div-add-mod', add-mul-mod_self_right, div-div-eq-div-mul,
}
use a_os.Base.{
  ℕ, zero, suc, ◌+◌, ◌*◌, ◌/◌, ◌%◌, ◌≤◌, ◌<◌, min, bit_and, bit_or, ◌≡◌, refl, ◌∙◌, ap, sym, arith,
}

-- Rounds beyond the first operand change nothing in the digits of a bitwise operation.
module _ (rest : ℕ → ℕ) (digit : ℕ → ℕ → ℕ) where
  digits_rounds : (x y s t : ℕ) → x ≤ s → x ≤ t → digits rest digit s x y ≡ digits rest digit t x y
  digits_rounds zero y zero zero xs xt = refl
  digits_rounds zero y zero (suc t) xs xt = refl
  digits_rounds zero y (suc s) zero xs xt = refl
  digits_rounds zero y (suc s) (suc t) xs xt = refl
  digits_rounds (suc x) y zero t xs xt = absurd (omega arith)
  digits_rounds (suc x) y (suc s) zero xs xt = absurd (omega arith)
  digits_rounds (suc x) y (suc s) (suc t) xs xt =
      ap (λ d. d * 2 + digit (suc x % 2) (y % 2))
        (digits_rounds (suc x / 2) (y / 2) s t (omega arith) (omega arith))

  -- The lowest digit, and the rest.
  lowest_digit :
      (x y : ℕ)
      → digits rest digit (suc x) (suc x) y
        ≡ digits rest digit (suc x / 2) (suc x / 2) (y / 2) * 2 + digit (suc x % 2) (y % 2)
  lowest_digit x y =
      ap (λ d. d * 2 + digit (suc x % 2) (y % 2))
        (digits_rounds (suc x / 2) (y / 2) x (suc x / 2) (omega arith) (omega arith))

bit_and_step : (x y : ℕ) → bit_and x y ≡ bit_and (x / 2) (y / 2) * 2 + min (x % 2) (y % 2)
bit_and_step zero y =
    let whole : bit_and 0 y ≡ 0 = bit_and-bitwise 0 y in
    let half : bit_and 0 (y / 2) ≡ 0 = bit_and-bitwise 0 (y / 2) in omega (arith, whole, half)
bit_and_step (suc x) y =
    bit_and-bitwise (suc x) y
    ∙ lowest_digit (λ _. zero) min x y
    ∙ ap (λ d. d * 2 + min (suc x % 2) (y % 2)) (sym (bit_and-bitwise (suc x / 2) (y / 2)))

bit_or_step : (x y : ℕ) → bit_or x y ≡ bit_or (x / 2) (y / 2) * 2 + max (x % 2) (y % 2)
bit_or_step zero y =
    let whole : bit_or 0 y ≡ y = bit_or-bitwise 0 y in
    let half : bit_or 0 (y / 2) ≡ y / 2 = bit_or-bitwise 0 (y / 2) in omega (arith, whole, half)
bit_or_step (suc x) y =
    bit_or-bitwise (suc x) y
    ∙ lowest_digit (λ z. z) max x y
    ∙ ap (λ d. d * 2 + max (suc x % 2) (y % 2)) (sym (bit_or-bitwise (suc x / 2) (y / 2)))

-- Both operations with 0 on the right, by halving.
zero_right : (bound x : ℕ) → x ≤ bound → (bit_and x 0 ≡ 0) × (bit_or x 0 ≡ x)
zero_right bound zero small = (refl, refl)
zero_right zero (suc x) small = absurd (omega arith)
zero_right (suc bound) (suc x) small =
    let halved = zero_right bound (suc x / 2) (omega arith) in
    omega (arith, halved, bit_and_step (suc x) 0, bit_or_step (suc x) 0)

bit_or-zero : (a : ℕ) → bit_or a 0 ≡ a
bit_or-zero a = (zero_right a a (omega arith)).1

-- Three flag bits on a multiple of 8.
pub bit_or_flags : (x : ℕ) → x % 8 ≡ 0 → bit_or x 7 ≡ x + 7
bit_or_flags x h = omega (
  arith,
  bit_or_step x 7,
  bit_or_step (x / 2) 3,
  bit_or_step (x / 2 / 2) 1,
  bit_or-zero (x / 2 / 2 / 2),
)

-- `n` ones.
abbrev pub ones : ℕ → ℕ
ones zero = 0
ones (suc n) = ones n * 2 + 1

abbrev pow2 : ℕ → ℕ
pow2 zero = 1
pow2 (suc n) = pow2 n * 2

bit_and-zero : (a : ℕ) → bit_and a 0 ≡ 0
bit_and-zero a = (zero_right a a (omega arith)).0

pow2-pos : (n : ℕ) → 0 < pow2 n
pow2-pos zero = omega arith
pow2-pos (suc n) = omega (arith, pow2-pos n)

-- The remainder by an even number, digit by digit.
mod_double : (a m : ℕ) → 0 < m → a % (m * 2) ≡ a / 2 % m * 2 + a % 2
mod_double a m pos =
    let split : a ≡ (a / 2 % m * 2 + a % 2) + a / 2 / m * (m * 2) =
      omega (arith, div-add-mod' (a / 2) m, ap (λ (t : ℕ). t * 2) (div-add-mod' (a / 2) m)) in
    let small : a / 2 % m * 2 + a % 2 < m * 2 = omega (arith, mod-lt (a / 2) pos) in
    ap (λ t. t % (m * 2)) split
    ∙ add-mul-mod_self_right (a / 2 % m * 2 + a % 2) (a / 2 / m) (m * 2)
    ∙ mod-eq_of_lt small

-- A mask of `n` ones keeps the remainder by 2 ^ n.
pub bit_and-ones : (n a : ℕ) → bit_and a (ones n) ≡ a % pow2 n
bit_and-ones zero a = bit_and-zero a ∙ omega arith
bit_and-ones (suc n) a =
    let half : (ones n * 2 + 1) / 2 ≡ ones n = omega arith in
    bit_and_step a (ones n * 2 + 1)
    ∙ omega (arith, ap (bit_and (a / 2)) half, bit_and-ones n (a / 2))
    ∙ sym (mod_double a (pow2 n) (pow2-pos n))

-- A mask that starts at digit `k`.
bit_and-shift : (k a m : ℕ) → bit_and a (m * pow2 k) ≡ bit_and (a / pow2 k) m * pow2 k
bit_and-shift zero a m =
    let e : m * 1 ≡ m = omega arith in
    let e' : a / 1 ≡ a = omega arith in ap (bit_and a) e ∙ omega (arith, ap (λ t. bit_and t m) e')
bit_and-shift (suc k) a m =
    let half : m * (pow2 k * 2) / 2 ≡ m * pow2 k = omega arith in
    let halves : a / 2 / pow2 k ≡ a / (pow2 k * 2) =
      div-div-eq-div-mul a 2 (pow2 k) ∙ ap (λ t. a / t) (omega arith) in
    bit_and_step a (m * (pow2 k * 2))
    ∙ omega (
      arith,
      ap (bit_and (a / 2)) half,
      bit_and-shift k (a / 2) m,
      ap (λ t. bit_and t m * pow2 k) halves,
    )

-- A mask of `n` ones from digit `k` on.
pub bit_and-mask : (n k a : ℕ) → bit_and a (ones n * pow2 k) ≡ a / pow2 k % pow2 n * pow2 k
bit_and-mask n k a = bit_and-shift k a (ones n) ∙ ap (λ t. t * pow2 k) (bit_and-ones n (a / pow2 k))
