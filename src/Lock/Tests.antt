-- ===== src/Lock/Tests.antt =====
-- A semaphore of one unit for the theorems on kernel/src/lock.c.
use a_os.Base.{◌≡◌, ◌≢◌, ◌+◌, refl, [], ◌∷◌, arith}
use a_os.Thread.{Kernel, new_task, init}
use a_os.Thread.Inv.{IsValid}
use a_os.Thread.RoundRobin.{init-IsValid}
use a_os.Lock.{Semaphore, sema_try}
use a_os.Lock.Laws.{Uses, sema-count, Lost, sema_up-Lost}

abbrev one_unit : Semaphore
one_unit = record { count = 1; wait_list = [] }

abbrev taken : Semaphore
taken = record { count = 0; wait_list = [] }

abbrev waited : Semaphore
waited = record { count = 0; wait_list = 6 ∷ [] }

one_take : Uses one_unit 1 0 taken
unfolding sema_try
one_take = Uses.takes 5 Uses.start refl

take_wait : Uses one_unit 1 0 waited
unfolding sema_try
take_wait = Uses.waits 6 one_take refl

sema-count_example : waited.count + 1 ≡ one_unit.count + 0
sema-count_example = sema-count one_unit take_wait (omega arith)

-- The main task on a machine that has just started.
abbrev booted : Kernel
booted = init (λ _. new_task) 1 2

booted-IsValid : IsValid booted
booted-IsValid = init-IsValid (λ _. new_task) 1 2 (λ e. absurd (omega arith))

main_not_idle : booted.current ≢ booted.idle
unfolding init a_os.Thread.main_thread_init a_os.Thread.run
main_not_idle e = omega (arith, e)

sema_up-Lost_example : Lost booted taken
sema_up-Lost_example = sema_up-Lost booted taken booted-IsValid main_not_idle refl refl
