-- ===== src/Timer/Tests.antt =====
-- Sleeps across the wrap of `jiffies`, for the theorems on kernel/src/timer.c.
use a_os.Base.{suc, ◌*◌, ◌/◌, ◌≡◌, refl, some, arith, [], ◌∷◌}
use a_os.Timer.{
  sys_tick_us, msecs_to_jiffies, usecs_to_jiffies, jiffies_to_msecs, jiffies_to_usecs, msleep,
  usleep, timer_set,
}
use a_os.Timer.Sleep.{ticking, msleep-ticking}

msleep-ticking_example :
    (msleep 1 0xFFFFFFFE (ticking 0xFFFFFFFE (suc (1 * 100))) ≡ some (1 * 100))
    × (usleep 35 0xFFFFFFFE (ticking 0xFFFFFFFE (suc (35 / 10))) ≡ some (35 / 10))
msleep-ticking_example = msleep-ticking 1 35 0xFFFFFFFE (omega arith) (omega arith) (omega arith)

-- The tick of 10 microseconds is 12 periods of the counter.
tick_set : timer_set 10 ≡ (0x43, 0x34) ∷ (0x40, 12) ∷ (0x40, 0) ∷ []
unfolding timer_set a_os.Timer.counter_data a_os.Timer.us_to_ticks
tick_set = refl
