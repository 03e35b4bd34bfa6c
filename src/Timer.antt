-- ===== src/Timer.antt =====
-- kernel/src/timer.c: the units of time, the set-up of the counter, and the two sleeps. `jiffies` is
-- a sequence of readings, one for each look that a sleep takes at it. The interrupt handler is
-- `tick` of Thread.
pub mod Sleep
mod Tests
use a_os.Base.{
  ℕ, zero, suc, ◌+◌, ◌-◌, ◌*◌, ◌/◌, ◌%◌, ◌^◌, Bool, Option, none, some, List, [], ◌∷◌, ltb,
  if◌then◌else◌,
}
use a_os.Base.Words.{add32, sub32, mul32}

abbrev pub sys_tick_us : ℕ
sys_tick_us = 10

pub msecs_to_jiffies : ℕ → ℕ
msecs_to_jiffies ms = mul32 ms 1000 / sys_tick_us

pub usecs_to_jiffies : ℕ → ℕ
usecs_to_jiffies us = us / sys_tick_us

pub jiffies_to_msecs : ℕ → ℕ
jiffies_to_msecs js = mul32 js sys_tick_us / 1000

pub jiffies_to_usecs : ℕ → ℕ
jiffies_to_usecs js = mul32 js sys_tick_us

-- `/` on a 32-bit `int`, which rounds towards 0, by a positive number.
abbrev signed_div : ℕ → ℕ → ℕ
signed_div x d = if ltb x (2 ^ 31) then x / d else sub32 0 ((2 ^ 32 - x) / d)

-- US_TO_TICKS, on `int` with wrap-around.
pub us_to_ticks : ℕ → ℕ
us_to_ticks us = signed_div (sub32 (add32 (mul32 us 1193180) 1000000) 1) 1000000

-- The `uint16_t` that `timer_set` computes for `us` of at least 0.
pub counter_data : ℕ → ℕ
counter_data us = if ltb us 54924 then us_to_ticks us % 2 ^ 16 else 0xFFFF

-- `timer_set`: the ports and the bytes written to them, in order.
pub timer_set : ℕ → List (ℕ × ℕ)
timer_set us = (0x43, 0x34) ∷ (0x40, counter_data us % 2 ^ 8) ∷ (0x40, counter_data us / 2 ^ 8) ∷ []

-- The loop of `msleep` and `usleep`: how often it yields. The readings are those of its test, and
-- `none` means that they ran out.
pub sleep_loop : (start_tick sleep_ticks : ℕ) → List ℕ → Option ℕ
sleep_loop start_tick sleep_ticks [] = none
sleep_loop start_tick sleep_ticks (jiffies ∷ readings) =
    let rest = sleep_loop start_tick sleep_ticks readings in
    if ltb (sub32 jiffies start_tick) sleep_ticks
    then elim rest [ none ↦ none | some n ↦ some (suc n) ]
    else some 0

-- `msleep` and `usleep`, from the reading that they start at.
pub msleep : (ms jiffies : ℕ) → List ℕ → Option ℕ
msleep ms jiffies readings = sleep_loop jiffies (msecs_to_jiffies ms) readings

pub usleep : (us jiffies : ℕ) → List ℕ → Option ℕ
usleep us jiffies readings = sleep_loop jiffies (usecs_to_jiffies us) readings
