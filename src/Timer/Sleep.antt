-- ===== src/Timer/Sleep.antt =====
-- Round trips of the units of time, and how long the sleeps last.
use a_os.Base.{
  ℕ, zero, suc, ◌+◌, ◌*◌, ◌/◌, ◌^◌, ◌<◌, ◌≤◌, ◌≡◌, true, false, some, List, [], ◌∷◌, ltb, arith,
}
use a_os.Base.Words.{add32, sub32, mul32}
use a_os.Timer.{
  sys_tick_us, msecs_to_jiffies, usecs_to_jiffies, jiffies_to_msecs, jiffies_to_usecs, sleep_loop,
  msleep, usleep,
}

-- For a time `t` with `t * 1000` below 2 ^ 32, milliseconds survive the way to ticks and back, and
-- microseconds are rounded down by less than a tick.
unit_round_trips :
    (t : ℕ)
    → t * 1000 < 2 ^ 32
    → (jiffies_to_msecs (msecs_to_jiffies t) ≡ t)
      × (jiffies_to_usecs (usecs_to_jiffies t) ≤ t)
      × (t < jiffies_to_usecs (usecs_to_jiffies t) + sys_tick_us)
unfolding jiffies_to_msecs msecs_to_jiffies jiffies_to_usecs usecs_to_jiffies
unit_round_trips t small = (omega arith, omega arith, omega arith)

-- `n` readings of a counter that goes up by one, from `now` on, with its wrap-around.
abbrev pub ticking : (now n : ℕ) → List ℕ
ticking now zero = []
ticking now (suc n) = now ∷ ticking (add32 now 1) n

sleep_loop-ticking :
    (start ticks done left : ℕ)
    → start < 2 ^ 32
    → ticks < 2 ^ 32
    → done + left ≡ ticks
    → sleep_loop start ticks (ticking (add32 start done) (suc left)) ≡ some left
unfolding sleep_loop
sleep_loop-ticking start ticks done zero s t e =
    let over : ltb (sub32 (add32 start done) start) ticks ≡ false = ground arith in rw over
sleep_loop-ticking start ticks done (suc left) s t e =
    let more : ltb (sub32 (add32 start done) start) ticks ≡ true = ground arith in
    let next : add32 (add32 start done) 1 ≡ add32 start (done + 1) = omega arith in
    rw (more, next, sleep_loop-ticking start ticks (done + 1) left s t (omega arith))

-- When each look finds `jiffies` one higher, `msleep` of a number of milliseconds that is below 2 ^
-- 32 in microseconds yields 100 times for each of them and returns, and `usleep` once for each 10
-- microseconds, from any start, also across the wrap of `jiffies`.
pub msleep-ticking :
    (ms us start : ℕ)
    → ms * 1000 < 2 ^ 32
    → us < 2 ^ 32
    → start < 2 ^ 32
    → (msleep ms start (ticking start (suc (ms * 100))) ≡ some (ms * 100))
      × (usleep us start (ticking start (suc (us / 10))) ≡ some (us / 10))
unfolding msleep usleep msecs_to_jiffies usecs_to_jiffies
msleep-ticking ms us start sm su ss =
    let e : mul32 ms 1000 / sys_tick_us ≡ ms * 100 = omega arith in
    let now : add32 start 0 ≡ start = omega arith in
    let a = sleep_loop-ticking start (ms * 100) 0 (ms * 100) ss (omega arith) (omega arith) in
    let b = sleep_loop-ticking start (us / 10) 0 (us / 10) ss (omega arith) (omega arith) in
    (rw e (rw now at a), rw now at b)
