-- ===== src/Bitmap/Marked.antt =====
-- Runs of bits that are set one after the other, and cleared again.
use a_os.Base.{
  ℕ, zero, suc, ◌+◌, ◌*◌, ◌<◌, ◌≤◌, ◌≡◌, refl, Bool, true, false, ◌&&◌, ◌∙◌, none, some, arith, ltb,
  leb, if◌then◌else◌, Bool-cases, inl, inr,
}
use a_os.Bitmap.{Bitmap, assign, check, mark, release}
use a_os.Bitmap.Inv.{IsValid, assign-IsValid, check-assign, len-assign}

-- `i` is one of the `n` indices from `s` on.
abbrev pub within : ℕ → ℕ → ℕ → Bool
within s n i = leb s i && ltb i (s + n)

pub len-mark : (n : ℕ) (b : Bitmap) (s : ℕ) → (mark n b s).len ≡ b.len
unfolding mark
len-mark zero b s = refl
len-mark (suc n) b s = len-mark n (assign b s true) (s + 1) ∙ len-assign b s true

pub mark-IsValid :
    (n : ℕ) (b : Bitmap) (s : ℕ) → IsValid b → s + n ≤ b.len * 8 → IsValid (mark n b s)
unfolding mark
mark-IsValid zero b s v fit = v
mark-IsValid (suc n) b s v fit =
    mark-IsValid n (assign b s true) (s + 1) (assign-IsValid b v s true (omega arith))
      (rw len-assign (omega arith))

pub check-mark :
    (n : ℕ) (b : Bitmap) (s : ℕ)
    → IsValid b
    → s + n ≤ b.len * 8
    → (j : ℕ) → check (mark n b s) j ≡ (if within s n j then true else check b j)
unfolding mark
check-mark zero b s v fit j = ground arith
check-mark (suc n) b s v fit j = ground (
  arith,
  check-mark n (assign b s true) (s + 1) (assign-IsValid b v s true (omega arith))
      (rw len-assign (omega arith)) j,
  check-assign b v s true (omega arith) j,
)

-- What `bitmap_release` leaves of a bitmap.
pub record Released (b : Bitmap) (s n : ℕ) (b' : Bitmap) : Type 0 where
  pub valid : IsValid b'
  pub same_len : b'.len ≡ b.len
  pub bits : (j : ℕ) → check b' j ≡ (if within s n j then false else check b j)

-- Every bit of the run is set.
abbrev pub Used : Bitmap → ℕ → ℕ → Type 0
Used b s n = (i : ℕ) → s ≤ i → i < s + n → check b i ≡ true

pub release_one :
    (b : Bitmap) (idx : ℕ)
    → release b idx 1 ≡ (if check b idx then some (assign b idx false) else none)
unfolding release
release_one b idx = refl

-- On a valid bitmap `bitmap_release` of a run inside it whose bits are all set succeeds, clears
-- exactly those bits, and keeps the bitmap valid and its length.
pub release-Used :
    (n : ℕ) (b : Bitmap) (s : ℕ)
    → IsValid b
    → s + n ≤ b.len * 8
    → Used b s n
    → (b' : Bitmap) × (release b s n ≡ some b') × Released b s n b'
unfolding release
release-Used zero b s v fit used =
    (b, refl, record { valid = v; same_len = refl; bits = λ j. ground arith })
release-Used (suc n) b s v fit used =
    let lt : s < b.len * 8 = omega arith in
    let v' = assign-IsValid b v s false lt in
    let here : check b s ≡ true = used s (omega arith) (omega arith) in
    let (b', e, r) =
      release-Used n (assign b s false) (s + 1) v' (rw len-assign (omega arith))
        (λ i le li. ground (arith, check-assign b v s false lt i, used i)) in
    (
      b',
      rw here e,
      record {
        valid = r.valid;
        same_len = r.same_len ∙ len-assign b s false;
        bits = λ j. ground (arith, r.bits j, check-assign b v s false lt j);
      },
    )

-- On a valid bitmap `bitmap_release` of a run inside it that has a clear bit stops the kernel.
pub release-panic :
    (n : ℕ) (b : Bitmap) (s i : ℕ)
    → IsValid b
    → s + n ≤ b.len * 8
    → s ≤ i
    → i < s + n
    → check b i ≡ false
    → release b s n ≡ none
unfolding release
release-panic zero b s i v fit le lt clear_bit = absurd (omega arith)
release-panic (suc n) b s i v fit le lt clear_bit = elim (Bool-cases (check b s)) [
  | inr stop ↦ rw stop
  | inl go ↦
      let ls : s < b.len * 8 = omega arith in
      let ne : s + 1 ≤ i = ground arith in
      rw go (
        release-panic n (assign b s false) (s + 1) i (assign-IsValid b v s false ls)
          (rw len-assign (omega arith)) ne (omega arith)
          (ground (arith, check-assign b v s false ls i)))
]
