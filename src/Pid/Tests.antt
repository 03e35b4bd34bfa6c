-- ===== src/Pid/Tests.antt =====
-- A small pool of identifiers for the theorems on those of kernel/src/thread.c.
use a_os.Base.{ℕ, zero, suc, ◌<◌, ◌≡◌, refl, some, [], ◌∷◌, arith, get_or}
use a_os.Bitmap
use a_os.Bitmap.{Bitmap}
use a_os.Pid.{PidPool, pid_acquire, pid_t}
use a_os.Pid.Laws.{IsPids, PidOutcome, pid_acquire-PidOutcome}

-- The first of eight identifiers is given out.
abbrev one_used : Bitmap
one_used = record { bits = 1 ∷ []; len = 1 }

abbrev two_used : Bitmap
two_used = record { bits = 3 ∷ []; len = 1 }

one_used-bytes : (i : ℕ) → get_or (1 ∷ []) i 0 < 256
one_used-bytes zero = omega arith
one_used-bytes (suc i) = omega arith

abbrev pids : PidPool
pids = record { pid_start = 1; pid_bitmap = one_used }

pids-IsPids : IsPids pids
pids-IsPids = record {
  valid = record { holds = omega arith; small = omega arith; bytes = one_used-bytes };
  from_one = refl;
  short = omega arith;
}

second : pid_acquire pids ≡ (some 2, record pids { pid_bitmap = two_used })
unfolding pid_acquire pid_t Bitmap.acquire Bitmap.byte_scan Bitmap.acquire_from Bitmap.bit_scan
    Bitmap.assign Bitmap.raise
second = refl

pid_acquire-PidOutcome_example : PidOutcome pids (pid_acquire pids)
pid_acquire-PidOutcome_example = pid_acquire-PidOutcome pids pids-IsPids
