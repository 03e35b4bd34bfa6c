-- ===== src/Bitmap.antt =====
-- kernel/src/bitmap.c: a bitmap over a byte array, with first-fit acquisition of runs of bits.
-- `bits` is the memory from the address `btmp->bits` on, so it may be longer than `len` bytes;
-- a read past that memory gives 0, and a write past it is lost. The signed indices of the C code
-- stay below 2 ^ 31 in a valid bitmap (`Bitmap.Inv`), and -1 is `none`.
pub mod Byte
pub mod Inv
pub mod Scan
pub mod Marked
pub mod Acquire
pub mod Fresh
mod Tests
use a_os.Base.{
  ℕ, zero, suc, ◌+◌, ◌-◌, ◌*◌, ◌/◌, ◌%◌, ◌^◌, bit_and, bit_or, Bool, true, false, not, ◌&&◌, Option,
  none, some, List, [], ◌∷◌, ltb, ◌==◌, if◌then◌else◌, get_or, set, replicate, all_below,
}
use a_os.Base.Words.{mul32}

pub record Bitmap : Type 0 where
  pub bits : List ℕ
  pub len : ℕ

-- `bitmap_init` points the bitmap at its memory.
unfoldable pub init : List ℕ → ℕ → Bitmap
init btmp_addr len = record { bits = btmp_addr; len = len }

-- `memset(bits, 0, len)`
pub memset_zero : List ℕ → ℕ → List ℕ
memset_zero [] n = []
memset_zero (x ∷ xs) zero = x ∷ xs
memset_zero (x ∷ xs) (suc n) = 0 ∷ memset_zero xs n

pub reset : Bitmap → Bitmap
unfolding memset_zero
reset b = record b { bits = memset_zero b.bits b.len }

abbrev pub byte : Bitmap → ℕ → ℕ
byte b i = get_or b.bits i 0

-- `x |= (1 << k)` and `x &= ~(1 << k)` on a byte
unfoldable pub raise : ℕ → ℕ → ℕ
raise x k = bit_or x (2 ^ k)

unfoldable pub clear : ℕ → ℕ → ℕ
clear x k = bit_and x (2 ^ 32 - 1 - 2 ^ k)

-- `x & (1 << k)` as a truth value
unfoldable pub test : ℕ → ℕ → Bool
test x k = not (bit_and x (2 ^ k) == 0)

-- `bitmap_set`
unfoldable pub assign : Bitmap → ℕ → Bool → Bitmap
assign b i value =
    let x = byte b (i / 8) in
    record b { bits = set b.bits (i / 8) (if value then raise x (i % 8) else clear x (i % 8)) }

-- `bitmap_check`
unfoldable pub check : Bitmap → ℕ → Bool
check b i = test (byte b (i / 8)) (i % 8)

-- `while (0xff == bits[i] && i < len) i++`: it ends within `len` rounds.
unfoldable pub byte_scan : ℕ → Bitmap → ℕ → ℕ
byte_scan zero b i = i
byte_scan (suc fuel) b i =
    let rest = byte_scan fuel b (i + 1) in if (0xff == byte b i) && ltb i b.len then rest else i

-- `while ((uint8_t)(1 << k) & x) k++`: it ends within 8 rounds, since `(uint8_t)(1 << 8)` is 0.
unfoldable pub bit_scan : ℕ → ℕ → ℕ → ℕ
bit_scan zero x k = k
bit_scan (suc fuel) x k =
    let rest = bit_scan fuel x (k + 1) in if bit_and (2 ^ k % 256) x == 0 then k else rest

-- The loop for a run of `cnt` bits, at `idx`, with the last `free_count` bits before it free.
pub run_scan : ℕ → Bitmap → (cnt total idx free_count : ℕ) → Option ℕ
run_scan zero b cnt total idx free_count = none
run_scan (suc fuel) b cnt total idx free_count =
    let n = if check b idx then 0 else free_count + 1 in
    let rest = run_scan fuel b cnt total (idx + 1) n in
    if ltb idx total then (if n == cnt then some (idx + 1 - n) else rest) else none

-- `for (i = 0; i < cnt; i++) bitmap_set(btmp, start + i, true)`
unfoldable pub mark : ℕ → Bitmap → ℕ → Bitmap
mark zero b start = b
mark (suc n) b start = mark n (assign b start true) (start + 1)

abbrev pub total_bits : Bitmap → ℕ
total_bits b = mul32 b.len 8

-- What `bitmap_acquire` does once `free_idx` is the first free bit.
unfoldable pub acquire_from : Bitmap → (cnt free_idx : ℕ) → Option ℕ × Bitmap
acquire_from b cnt free_idx =
    if cnt == 1
    then (some free_idx, assign b free_idx true)
    else elim (run_scan (total_bits b) b cnt (total_bits b) (free_idx + 1) 1) [
      | none ↦ (none, b)
      | some start ↦ (some start, mark cnt b start)
    ]

unfoldable pub acquire : Bitmap → ℕ → Option ℕ × Bitmap
acquire b cnt =
    let i = byte_scan b.len b 0 in
    if i == b.len then (none, b) else acquire_from b cnt (i * 8 + bit_scan 9 (byte b i) 0)

-- `bitmap_release`; `none` is a failed `assert`, which stops the kernel.
unfoldable pub release : Bitmap → (idx cnt : ℕ) → Option Bitmap
release b idx zero = some b
release b idx (suc n) =
    let rest = release (assign b idx false) (idx + 1) n in if check b idx then rest else none
