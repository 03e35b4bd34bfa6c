-- ===== src/File/Table.antt =====
-- The two tables: what `fd_acquire` and `task_install` answer.
use a_os.Base.{
  ℕ, zero, suc, ◌+◌, ◌-◌, ◌^◌, ◌%◌, ◌≤◌, ◌<◌, ◌≡◌, ◌≢◌, refl, Bool, true, false, none, some, ◌==◌,
  length, set, arith, Bool-cases, inl, inr,
}
use a_os.File.{Handle, Files, put_file, scan, free_entry, free_task_fd, fd_acquire, task_install}

-- The tables have their sizes.
pub record IsValid (size : ℕ) (s : Files) : Type 0 where
  pub table : length s.fd_table ≡ size
  pub task : length s.open_fd ≡ 32
  pub least : 3 < size
  pub small : size < 2 ^ 31

-- Where a search stops: at the first index found, or at the end.
scan_lem :
    (found : ℕ → Bool) (fuel i : ℕ)
    → (i ≤ scan found fuel i)
      × (scan found fuel i ≤ i + fuel)
      × ((j : ℕ) → i ≤ j → j < scan found fuel i → found j ≡ false)
      × (scan found fuel i ≢ i + fuel → found (scan found fuel i) ≡ true)
unfolding scan
scan_lem found zero i =
    (omega arith, omega arith, λ j le lt. absurd (omega arith), λ ne. absurd (ne (omega arith)))
scan_lem found (suc fuel) i = elim (Bool-cases (found i)) [
  | inl hit ↦ rw hit (omega arith, omega arith, λ j le lt. absurd (omega arith), λ ne. hit)
  | inr miss ↦
      let (lo, hi, before, there) = scan_lem found fuel (i + 1) in
      rw miss (
        omega (arith, lo),
        omega (arith, hi),
        λ j le lt. elim (Bool-cases (i == j)) [
          | inl same ↦ let e : i ≡ j = ground arith in rw (← e) miss
          | inr other ↦ before j (ground arith) lt
        ],
        λ ne. there (λ e. ne (omega (arith, e))),
      )
]

-- `r` is the first index from 3 on that is found.
pub record First (found : ℕ → Bool) (size r : ℕ) : Type 0 where
  pub least : 3 ≤ r
  pub inside : r < size
  pub found_it : found r ≡ true
  pub before : (j : ℕ) → 3 ≤ j → j < r → found j ≡ false

scan-First :
    (found : ℕ → Bool) (size : ℕ)
    → 3 < size
    → (size == scan found (size - 3) 3) ≡ false
    → First found size (scan found (size - 3) 3)
scan-First found size least more =
    let (lo, hi, before, there) = scan_lem found (size - 3) 3 in
    let ne : size ≢ scan found (size - 3) 3 = ground arith in
    record {
      least = lo;
      inside = omega (arith, hi, ne);
      found_it = there (λ e. ne (omega (arith, e)));
      before = before;
    }

scan-none :
    (found : ℕ → Bool) (size j : ℕ)
    → 3 < size
    → (size == scan found (size - 3) 3) ≡ true
    → 3 ≤ j
    → j < size
    → found j ≡ false
scan-none found size j least full le lt =
    let (lo, hi, before, there) = scan_lem found (size - 3) 3 in
    let e : size ≡ scan found (size - 3) 3 = ground arith in before j le (omega (arith, e))

-- What `fd_acquire` does.
pub data FdOutcome (size : ℕ) (s : Files) (h : Handle) (flag : ℕ) : Type 0 where
  full :
      ((j : ℕ) → 3 ≤ j → j < size → free_entry s j ≡ false)
      → fd_acquire size s h flag ≡ (none, s)
      → FdOutcome size s h flag
  taken :
      (fd : ℕ)
      → First (free_entry s) size fd
      → fd_acquire size s h flag
        ≡ (some fd, put_file s fd (record { inode = h; pos = 0; flag = flag % 256 }))
      → FdOutcome size s h flag

-- With tables of their sizes `fd_acquire` answers -1 and changes nothing when every entry from 3 on
-- has an inode; otherwise it answers the first that has none, and sets its inode and flag, with
-- position 0.
pub fd_acquire-FdOutcome :
    (size : ℕ) (s : Files) (h : Handle) (flag : ℕ) → IsValid size s → FdOutcome size s h flag
unfolding fd_acquire
fd_acquire-FdOutcome size s h flag v =
    elim (Bool-cases (size == scan (free_entry s) (size - 3) 3)) [
      | inl busy ↦
          FdOutcome.full (λ j le lt. scan-none (free_entry s) size j v.least busy le lt)
            (rw busy refl)
      | inr more ↦
          FdOutcome.taken (scan (free_entry s) (size - 3) 3)
            (scan-First (free_entry s) size v.least more) (rw more refl)
    ]

-- What `task_install` does.
pub data InstallOutcome (s : Files) (fd : ℕ) : Type 0 where
  full :
      ((j : ℕ) → 3 ≤ j → j < 32 → free_task_fd s j ≡ false)
      → task_install s fd ≡ (none, s)
      → InstallOutcome s fd
  installed :
      (i : ℕ)
      → First (free_task_fd s) 32 i
      → task_install s fd ≡ (some i, record s { open_fd = set s.open_fd i fd })
      → InstallOutcome s fd

pub task_install-InstallOutcome : (s : Files) (fd : ℕ) → InstallOutcome s fd
unfolding task_install
task_install-InstallOutcome s fd = elim (Bool-cases (32 == scan (free_task_fd s) (32 - 3) 3)) [
  | inl busy ↦
      InstallOutcome.full (λ j le lt. scan-none (free_task_fd s) 32 j (omega arith) busy le lt)
        (rw busy refl)
  | inr more ↦
      InstallOutcome.installed (scan (free_task_fd s) (32 - 3) 3)
        (scan-First (free_task_fd s) 32 (omega arith) more) (rw more refl)
]
