-- ===== src/Pid/Laws.antt =====
-- An identifier that is given out is in range, was free, and can be given back.
use mathlib.Core.Path.{subst}
use a_os.Base.{
  ℕ, ◌+◌, ◌-◌, ◌*◌, ◌^◌, ◌≤◌, ◌<◌, ◌≡◌, refl, ◌∙◌, true, false, Option, none, some, ltb, ◌==◌,
  if◌then◌else◌, arith, ap,
}
use a_os.Base.Words.{add32, sub32}
use a_os.Bitmap
use a_os.Bitmap.{Bitmap}
use a_os.Bitmap.Inv.{IsValid}
use a_os.Bitmap.Acquire.{Took, Acquired, acquire-Acquired, all_used, release-acquire}
use a_os.Pid.{PidPool, pid_t, pid_bitmap_len, pid_acquire, pid_release}

pub record IsPids (p : PidPool) : Type 0 where
  pub valid : IsValid p.pid_bitmap
  pub from_one : p.pid_start ≡ 1
  pub short : p.pid_bitmap.len ≤ pid_bitmap_len

-- An identifier of the pool has 16 bits.
pid_t-small : (x : ℕ) → x < 2 ^ 15 → pid_t x ≡ x
unfolding pid_t
pid_t-small x small = ground arith

-- What `pid_acquire` has answered: an identifier that nobody had, and a pool that differs in it only.
pub record GivenOut (p : PidPool) (pid : ℕ) (p1 : PidPool) : Type 0 where
  pub positive : 1 ≤ pid
  pub inside : pid ≤ p.pid_bitmap.len * 8
  pub was_free : Bitmap.check p.pid_bitmap (pid - 1) ≡ false
  pub others :
      (j : ℕ)
      → Bitmap.check p1.pid_bitmap j ≡ (if j == pid - 1 then true else Bitmap.check p.pid_bitmap j)
  pub freed : PidPool
  pub releases : pid_release p1 pid ≡ some freed
  pub valid : IsPids freed
  pub same : (j : ℕ) → Bitmap.check freed.pid_bitmap j ≡ Bitmap.check p.pid_bitmap j

abbrev pub PidOutcome : PidPool → Option ℕ × PidPool → Type 0
PidOutcome p (none, p1) =
    ((j : ℕ) → j < p.pid_bitmap.len * 8 → Bitmap.check p.pid_bitmap j ≡ true) × (p1 ≡ p)
PidOutcome p (some pid, p1) = GivenOut p pid p1

given_out :
    (p : PidPool) (i : ℕ) (b : Bitmap)
    → IsPids p
    → Bitmap.acquire p.pid_bitmap 1 ≡ (some i, b)
    → GivenOut p (i + 1) (record p { pid_bitmap = b })
unfolding pid_release
given_out p i b v e =
    let t : Took p.pid_bitmap 1 i b =
      subst (Acquired p.pid_bitmap 1) e (acquire-Acquired p.pid_bitmap v.valid 1 (omega arith)) in
    let (b', done, v', len, bits) = release-acquire p.pid_bitmap 1 i v.valid (omega arith) e in
    let back : i + 1 - 1 ≡ i = omega arith in
    let whole : pid_t (i + 1) ≡ i + 1 =
      pid_t-small (i + 1) (omega (arith, v.short, t.fit.inside)) in
    let idx : sub32 (i + 1) p.pid_start ≡ i = omega (arith, v.from_one, v.short, t.fit.inside) in
    let in_range : ltb i (2 ^ 31) ≡ true = ground (arith, v.short, t.fit.inside) in
    record {
      positive = omega arith;
      inside = omega (arith, t.fit.inside);
      was_free = rw back (t.fit.free i (omega arith) (omega arith));
      others = λ j. t.bits j ∙ ground arith;
      freed = record p { pid_bitmap = b' };
      releases = rw (whole, idx) (rw in_range (rw done refl));
      valid = record { valid = v'; from_one = v.from_one; short = omega (arith, len, v.short) };
      same = bits;
    }

-- In a valid pool of at most 1024 identifiers from 1 on, `pid_acquire` either answers -1, when
-- every identifier is in use, and changes nothing, or it answers an identifier from 1 to the size
-- of the pool that was free, and marks it and no other; `pid_release` of that identifier then
-- succeeds, and leaves a valid pool with the same identifiers in use as at first.
pub pid_acquire-PidOutcome : (p : PidPool) → IsPids p → PidOutcome p (pid_acquire p)
unfolding pid_acquire
pid_acquire-PidOutcome p v =
    step (Bitmap.acquire p.pid_bitmap 1) refl
      (acquire-Acquired p.pid_bitmap v.valid 1 (omega arith))
  where
    step :
        (r : Option ℕ × Bitmap)
        → Bitmap.acquire p.pid_bitmap 1 ≡ r
        → Acquired p.pid_bitmap 1 r
        → PidOutcome p (
          elim r.0 [ none ↦ none | some i ↦ some (pid_t (add32 p.pid_start i)) ],
          record p { pid_bitmap = r.1 },
        )
    step (none, b) e (no_run, same) =
        (all_used p.pid_bitmap no_run, ap (λ c. record p { pid_bitmap = c }) same)
    step (some i, b) e t =
        let sum : add32 p.pid_start i ≡ i + 1 = omega (arith, v.from_one, v.short, t.fit.inside) in
        let whole : pid_t (i + 1) ≡ i + 1 =
          pid_t-small (i + 1) (omega (arith, v.short, t.fit.inside)) in
        rw (sum, whole) (given_out p i b v e)
