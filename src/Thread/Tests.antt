-- ===== src/Thread/Tests.antt =====
-- A booted kernel with one more thread, for the theorems on kernel/src/thread.c and
-- kernel/src/sched.c.
use a_os.Base.{◌≡◌, ◌≢◌, refl, sym, ap, true, Option, none, some, [], ◌∷◌, ◌++◌, arith}
use mathlib.Core.Path.{subst}
use a_os.LinkedList.Shape.{◌∈◌, ◌∉◌}
use a_os.Thread.{
  Task, Kernel, blocked, is_parked, main_thread_init, new_task, init, run, block, tick, exit,
  unblock, yield, waiting,
}
use a_os.Thread.Inv.{IsValid}
use a_os.Thread.Steps.{run-IsValid, block-Succeeds}
use a_os.Thread.RoundRobin.{init-IsValid, Reach, Step, Reach-IsValid, turns, turns-reach}

-- The idle task is 1, the booting task 2, and the new thread 3.
abbrev booted : Kernel
booted = init (λ _. new_task) 1 2

abbrev three : Kernel
three = run booted 3

booted-IsValid : IsValid booted
booted-IsValid = init-IsValid (λ _. new_task) 1 2 (λ e. absurd (omega arith))

three-IsValid : IsValid three
unfolding init a_os.Thread.main_thread_init run
three-IsValid = run-IsValid booted 3 booted-IsValid refl

three_new : 3 ∉ booted.all_list
unfolding init main_thread_init run
three_new = refl

not_idle : three.current ≢ three.idle
unfolding init main_thread_init run
not_idle e = absurd (omega (arith, e))

three_reached : Reach booted three
three_reached = Reach.next Reach.here (Step.starts 3 three_new)

Reach-IsValid_example : IsValid three
Reach-IsValid_example = Reach-IsValid (λ _. new_task) 1 2 (λ e. absurd (omega arith)) three_reached

line_of_three : three.ready_list ≡ (1 ∷ []) ++ 3 ∷ []
unfolding run init a_os.Thread.main_thread_init
line_of_three = refl

turns-reach_example : (k' : Kernel) × (turns 2 three ≡ some k') × IsValid k' × (k'.current ≡ 3)
turns-reach_example = turns-reach (1 ∷ []) [] 3 three three-IsValid line_of_three

-- The booting task blocks, and the idle task runs.
abbrev parked : Kernel
parked = elim (block three blocked) [ none ↦ three | some k ↦ k ]

parked-IsValid : IsValid parked
parked-IsValid =
    let (k, e, v) = block-Succeeds three blocked three-IsValid in
    let same =
      ap (λ (o : Option Kernel). elim o as (λ _. Kernel) [ none ↦ three | some j ↦ j ]) e in
    subst IsValid (sym same) v

two_live : 2 ∈ parked.all_list
unfolding init main_thread_init run block a_os.Thread.schedule a_os.Thread.pick
    a_os.Thread.wake_idle a_os.Thread.requeue a_os.Thread.dispatch unblock
    a_os.Thread.process_switch
two_live = refl

two_parked : is_parked (parked.task 2).status ≡ true
unfolding block a_os.Thread.schedule a_os.Thread.pick a_os.Thread.wake_idle a_os.Thread.requeue run
    init main_thread_init a_os.Thread.dispatch
two_parked = refl
