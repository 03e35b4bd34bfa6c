-- ===== src/Memory/Virtual.antt =====
-- Runs of virtual pages: `vaddr_acquire` anywhere and at a given address, and `vaddr_release`.
use a_os.Base.{
  ℕ, zero, suc, ◌+◌, ◌-◌, ◌*◌, ◌/◌, ◌^◌, ◌<◌, ◌≤◌, ◌≡◌, refl, true, false, Option, none, some,
  arith, leb, ◌∙◌, ap,
}
use a_os.Base.Words.{add32, sub32, mul32}
use a_os.Bitmap
use a_os.Bitmap.{Bitmap}
use a_os.Bitmap.Inv.{IsValid, assign-IsValid, check-assign, len-assign}
use a_os.Bitmap.Scan.{Free, NoRun}
use a_os.Bitmap.Acquire.{Took, Acquired, acquire-Acquired}
use a_os.Memory.{VPool, pg_size, claim, vaddr_acquire_any, vaddr_acquire_at, vaddr_acquire}
use a_os.Memory.Pool.{Aligned, index-page}

abbrev pub IsVPool : VPool → Type 0
IsVPool vp = Aligned vp.vaddr_start vp.vaddr_bitmap

-- All pages free: the loop marks them all.
claim-Free :
    (n : ℕ) (b : Bitmap) (idx : ℕ)
    → IsValid b
    → idx + n ≤ b.len * 8
    → Free b idx n
    → claim n b idx ≡ (true, Bitmap.mark n b idx)
unfolding claim Bitmap.mark
claim-Free zero b idx v fit free = refl
claim-Free (suc n) b idx v fit free =
    let here : Bitmap.check b idx ≡ false = free idx (omega arith) (omega arith) in
    let lt : idx < b.len * 8 = omega arith in
    rw here (
      claim-Free n (Bitmap.assign b idx true) (idx + 1) (assign-IsValid b v idx true lt)
        (rw len-assign (omega arith))
        (λ i le li. ground (arith, check-assign b v idx true lt i, free i)))

-- The `k`-th page is the first in use: the loop has marked the `k` pages before it.
claim_blocked :
    (n k : ℕ) (b : Bitmap) (idx : ℕ)
    → IsValid b
    → idx + n ≤ b.len * 8
    → k < n
    → Free b idx k
    → Bitmap.check b (idx + k) ≡ true
    → claim n b idx ≡ (false, Bitmap.mark k b idx)
unfolding claim Bitmap.mark
claim_blocked zero k b idx v fit lt free used = absurd (omega arith)
claim_blocked (suc n) zero b idx v fit lt free used =
    let e : idx + 0 ≡ idx = omega arith in
    let here : Bitmap.check b idx ≡ true = rw e at used in rw here
claim_blocked (suc n) (suc k) b idx v fit lt free used =
    let here : Bitmap.check b idx ≡ false = free idx (omega arith) (omega arith) in
    let ls : idx < b.len * 8 = omega arith in
    let e : idx + 1 + k ≡ idx + suc k = omega arith in
    rw here (
      claim_blocked n k (Bitmap.assign b idx true) (idx + 1) (assign-IsValid b v idx true ls)
        (rw len-assign (omega arith)) (omega arith)
        (λ i le li. ground (arith, check-assign b v idx true ls i, free i))
        (rw e (check-assign b v idx true ls (idx + suc k) ∙ ground arith)))

module _ (vp : VPool) (vaddr n : ℕ) (a : IsVPool vp) (pos : 0 < n) (word : vaddr < 2 ^ 32) where
  abbrev idx : ℕ
  idx = (vaddr - vp.vaddr_start) / pg_size

  abbrev b : Bitmap
  b = vp.vaddr_bitmap

  idx_lem : vp.vaddr_start ≤ vaddr → sub32 vaddr vp.vaddr_start / pg_size ≡ idx
  idx_lem above = omega (arith, a.below)

  -- `vaddr_acquire` at an address below the pool fails its assertion.
  vaddr_acquire_at-below : vaddr < vp.vaddr_start → vaddr_acquire_at vp vaddr n ≡ none
  unfolding vaddr_acquire_at
  vaddr_acquire_at-below below = let e : leb vp.vaddr_start vaddr ≡ false = ground arith in rw e

  -- `vaddr_acquire` at an address of the pool, of a run that leaves the bitmap, changes nothing.
  vaddr_acquire_at-outside :
      vp.vaddr_start ≤ vaddr → b.len * 8 < idx + n → vaddr_acquire_at vp vaddr n ≡ some (none, vp)
  unfolding vaddr_acquire_at
  vaddr_acquire_at-outside above out =
      let e : leb vp.vaddr_start vaddr ≡ true = ground arith in
      let o : leb vp.vaddr_bitmap.len ((idx + n - 1) / 8) ≡ true = ground arith in
      rw (e, idx_lem above, o)

  -- `vaddr_acquire` at an address of the pool, of a run of free pages, answers that address and
  -- marks the run.
  vaddr_acquire_at-Free :
      vp.vaddr_start ≤ vaddr
      → idx + n ≤ b.len * 8
      → Free b idx n
      → vaddr_acquire_at vp vaddr n
        ≡ some (some vaddr, record vp { vaddr_bitmap = Bitmap.mark n b idx })
  unfolding vaddr_acquire_at
  vaddr_acquire_at-Free above fit free =
      let e : leb vp.vaddr_start vaddr ≡ true = ground arith in
      let o : leb vp.vaddr_bitmap.len ((idx + n - 1) / 8) ≡ false = ground arith in
      rw (e, idx_lem above, o, claim-Free n b idx a.valid fit free)

  -- `vaddr_acquire` at an address of a well-formed pool, of a run inside the bitmap whose first
  -- used page is the `k`-th, answers NULL and leaves the `k` pages before it marked.
  pub vaddr_acquire_at-blocked :
      (k : ℕ)
      → vp.vaddr_start ≤ vaddr
      → idx + n ≤ b.len * 8
      → k < n
      → Free b idx k
      → Bitmap.check b (idx + k) ≡ true
      → vaddr_acquire_at vp vaddr n ≡ some (none, record vp { vaddr_bitmap = Bitmap.mark k b idx })
  unfolding vaddr_acquire_at
  vaddr_acquire_at-blocked k above fit lt free used =
      let e : leb vp.vaddr_start vaddr ≡ true = ground arith in
      let o : leb vp.vaddr_bitmap.len ((idx + n - 1) / 8) ≡ false = ground arith in
      rw (e, idx_lem above, o, claim_blocked n k b idx a.valid fit lt free used)

-- What `vaddr_acquire` anywhere promises: the lowest run of free pages of the pool, marked, at its
-- address; or NULL, if there is no such run, with the pool unchanged.
abbrev pub Vacquired : VPool → ℕ → Option ℕ × VPool → Type 0
Vacquired vp n (none, vp') = (vp' ≡ vp) × NoRun vp.vaddr_bitmap n
Vacquired vp n (some addr, vp') =
    (i : ℕ) × (addr ≡ vp.vaddr_start + i * pg_size)
    × (addr + n * pg_size ≤ vp.vaddr_start + vp.vaddr_bitmap.len * 8 * pg_size)
    × (vp'.vaddr_start ≡ vp.vaddr_start)
    × Took vp.vaddr_bitmap n i vp'.vaddr_bitmap

-- `vaddr_acquire` of a positive number of pages anywhere returns on a well-formed pool: it answers
-- the lowest run of free pages and marks it and nothing else, or NULL when there is no such run and
-- then changes nothing.
pub vaddr_acquire-Vacquired :
    (vp : VPool) (n : ℕ)
    → IsVPool vp
    → 0 < n
    → (r : Option ℕ × VPool) × (vaddr_acquire vp none n ≡ some r) × Vacquired vp n r
unfolding vaddr_acquire vaddr_acquire_any
vaddr_acquire-Vacquired vp n a pos = (
  _,
  refl,
  step (Bitmap.acquire vp.vaddr_bitmap n) (acquire-Acquired vp.vaddr_bitmap a.valid n pos),
)
  where
    step :
        (r : Option ℕ × Bitmap)
        → Acquired vp.vaddr_bitmap n r
        → Vacquired vp n (elim r.0 [
          | none ↦ (none, record vp { vaddr_bitmap = r.1 })
          | some i ↦
              (some (add32 vp.vaddr_start (mul32 i pg_size)), record vp { vaddr_bitmap = r.1 })
        ])
    step (none, c) (no_run, same) = (ap (λ d. record vp { vaddr_bitmap = d }) same, no_run)
    step (some i, c) t =
        let lt : i < vp.vaddr_bitmap.len * 8 = omega (arith, t.fit.inside) in
        let x = index-page vp.vaddr_start vp.vaddr_bitmap i a lt in
        (i, x.0, omega (arith, x.0, t.fit.inside), refl, t)
