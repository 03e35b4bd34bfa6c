-- ===== src/Bitmap/Inv.antt =====
-- A valid bitmap, the law of `assign` and `check`, and what `init`, `reset`, `mark` leave behind.
use a_os.Base.{
  ℕ, ◌*◌, ◌/◌, ◌%◌, ◌^◌, ◌<◌, ◌≤◌, ◌≡◌, ◌≢◌, refl, Bool, true, false, arith, ◌==◌, if◌then◌else◌,
  length, length-set, get_or-set_self, get_or-set_ne, Bool-cases, inl, inr,
}
use a_os.Bitmap.{Bitmap, byte, raise, clear, test, assign, check, total_bits}
use a_os.Bitmap.Byte.{test-raise, test-clear, raise-lt, clear-lt}

-- The memory holds the `len` bytes, each a byte, and every index is a non-negative `int`.
pub record IsValid (b : Bitmap) : Type 0 where
  pub holds : b.len ≤ length b.bits
  pub small : b.len * 8 < 2 ^ 31
  pub bytes : (i : ℕ) → byte b i < 256

pub total-eq : (b : Bitmap) → IsValid b → total_bits b ≡ b.len * 8
total-eq b v = omega (arith, v.small)

-- The byte that `assign` writes.
write : Bool → ℕ → ℕ → ℕ
write value x k = if value then raise x k else clear x k

write-lt : (value : Bool) (x k : ℕ) → x < 256 → k < 8 → write value x k < 256
unfolding write
write-lt true x k hx hk = raise-lt x k hx hk
write-lt false x k hx hk = clear-lt x k hx hk

test-write :
    (value : Bool) (x k j : ℕ)
    → x < 256
    → k < 8
    → j < 8
    → test (write value x k) j ≡ (if k == j then value else test x j)
unfolding write
test-write true x k j hx hk hj = test-raise x k j hx hk hj
test-write false x k j hx hk hj = test-clear x k j hx hk hj

module _ (b : Bitmap) (v : IsValid b) (i : ℕ) (value : Bool) (lt : i < b.len * 8) where
  in_memory : i / 8 < length b.bits
  in_memory = omega (arith, v.holds)

  byte-assign_same : byte (assign b i value) (i / 8) ≡ write value (byte b (i / 8)) (i % 8)
  unfolding assign write
  byte-assign_same = get_or-set_self b.bits (i / 8) _ 0 in_memory

  byte-assign_other : (k : ℕ) → i / 8 ≢ k → byte (assign b i value) k ≡ byte b k
  unfolding assign
  byte-assign_other k ne = get_or-set_ne b.bits (i / 8) k _ 0 ne

  byte-assign-lt : (k : ℕ) → byte (assign b i value) k < 256
  byte-assign-lt k = elim (Bool-cases (i / 8 == k)) [
    | inl e ↦
        let e' : i / 8 ≡ k = ground arith in
        rw (← e') (
          rw byte-assign_same
            (write-lt value (byte b (i / 8)) (i % 8) (v.bytes (i / 8)) (omega arith)))
    | inr ne ↦ rw (byte-assign_other k (ground arith)) (v.bytes k)
  ]

  -- `bitmap_set` keeps a bitmap valid.
  pub assign-IsValid : IsValid (assign b i value)
  unfolding assign
  assign-IsValid = record {
    holds = omega (
      arith,
      v.holds,
      length-set b.bits (i / 8)
          (if value then raise (byte b (i / 8)) (i % 8) else clear (byte b (i / 8)) (i % 8)),
    );
    small = v.small;
    bytes = byte-assign-lt;
  }

  -- `bitmap_check` after `bitmap_set`: the bit written has the value, and no other bit changes.
  pub check-assign : (j : ℕ) → check (assign b i value) j ≡ (if i == j then value else check b j)
  unfolding check
  check-assign j = elim (Bool-cases (i / 8 == j / 8)) [
    | inl e ↦
        let e' : i / 8 ≡ j / 8 = ground arith in
        rw (← e') (
          rw byte-assign_same (
            ground (
              arith,
              test-write value (byte b (i / 8)) (i % 8) (j % 8) (v.bytes (i / 8)) (omega arith)
                  (omega arith),
            )))
    | inr ne ↦ rw (byte-assign_other (j / 8) (ground arith)) (ground arith)
  ]

pub len-assign : (b : Bitmap) (i : ℕ) (value : Bool) → (assign b i value).len ≡ b.len
unfolding assign
len-assign b i value = refl
