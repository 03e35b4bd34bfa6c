-- ===== src/Pid.antt =====
-- The process identifiers of kernel/src/thread.c: a bitmap of 128 bytes. A `pid_t` has 16
-- bits and a sign; it is given as the 32-bit word that it is extended to, and -1 as an answer is
-- `none`. The mutex makes each call one step.
pub mod Laws
mod Tests
use a_os.Base.{ℕ, zero, suc, ◌+◌, ◌-◌, ◌%◌, ◌^◌, Option, none, some, List, ltb, if◌then◌else◌}
use a_os.Base.Words.{add32, sub32}
use a_os.Bitmap
use a_os.Bitmap.{Bitmap}

-- `struct pid_pool` without its mutex.
pub record PidPool : Type 0 where
  pub pid_start : ℕ
  pub pid_bitmap : Bitmap

-- A word cut to a `pid_t`, and extended again.
unfoldable pub pid_t : ℕ → ℕ
pid_t x = let low = x % 2 ^ 16 in if ltb low (2 ^ 15) then low else low + (2 ^ 32 - 2 ^ 16)

abbrev pub pid_bitmap_len : ℕ
pid_bitmap_len = 128

-- `pid_init` over the memory of the bitmap.
pub pid_init : List ℕ → PidPool
pid_init bits = record {
  pid_start = 1;
  pid_bitmap = Bitmap.reset (Bitmap.init bits pid_bitmap_len);
}

pub pid_acquire : PidPool → Option ℕ × PidPool
pid_acquire p =
    let (idx, b) = Bitmap.acquire p.pid_bitmap 1 in
    (
      elim idx [ none ↦ none | some i ↦ some (pid_t (add32 p.pid_start i)) ],
      record p { pid_bitmap = b },
    )

-- An identifier below the first one is ignored; `none` is the failed assertion of the bitmap.
unfoldable pub pid_release : PidPool → ℕ → Option PidPool
pid_release p pid =
    let idx = sub32 (pid_t pid) p.pid_start in
    if ltb idx (2 ^ 31)
    then elim (Bitmap.release p.pid_bitmap idx 1) [
      | none ↦ none
      | some b ↦ some (record p { pid_bitmap = b })
    ]
    else some p
