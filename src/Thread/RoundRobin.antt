-- ===== src/Thread/RoundRobin.antt =====
-- Reachable scheduler states, and how soon a ready task runs.
use mathlib.Core.Path.{subst}
use mathlib.Core.List.{append_assoc}
use a_os.Base.{
  ℕ, zero, suc, ◌≡◌, ◌≢◌, refl, true, false, Option, none, some, List, [], ◌∷◌, ◌++◌, arith, ◌∙◌,
  ap, length,
}
use a_os.LinkedList.Shape.{◌∈◌, ◌∉◌}
use a_os.Thread.{
  TaskStatus, Task, Kernel, is_parked, unblock, requeue, dispatch, process_switch, pick, wake_idle,
  schedule, run, block, yield, tick, exit, init, main_thread_init, stack_magic_value, list_empty,
}
use a_os.Thread.Inv.{IsValid, status, requeue-Stopped, dispatch-IsValid, current_runs}
use a_os.Thread.Steps.{
  Succeeds, block-Succeeds, yield-Succeeds, unblock-IsValid, run-IsValid, tick-Succeeds,
  exit-Succeeds,
}

-- A call that the current task, the timer or another task's wake-up makes.
pub data Step : Kernel → Kernel → Type 0 where
  blocks : {k k' : Kernel} (st : TaskStatus) → block k st ≡ some k' → Step k k'
  yields : {k k' : Kernel} → yield k ≡ some k' → Step k k'
  wakes : {k : Kernel} (t : ℕ) → t ∈ k.all_list → Step k (unblock k t)
  starts : {k : Kernel} (t : ℕ) → t ∉ k.all_list → Step k (run k t)
  ticks :
      {k k' : Kernel}
      → (k.task k.current).stack_magic ≡ stack_magic_value
      → tick k ≡ some k'
      → Step k k'
  exits : {k k' : Kernel} → k.current ≢ k.idle → exit k ≡ some k' → Step k k'

pub data Reach (k : Kernel) : Kernel → Type 0 where
  here : Reach k k
  next : {j l : Kernel} → Reach k j → Step j l → Reach k l

answer-IsValid : {o : Option Kernel} {k' : Kernel} → Succeeds o → o ≡ some k' → IsValid k'
answer-IsValid (j, e, v) e' = let same : j ≡ _ = ground arith in subst IsValid same v

Step-IsValid : {k k' : Kernel} → Step k k' → IsValid k → IsValid k'
Step-IsValid (blocks {k} st e) v = answer-IsValid (block-Succeeds k st v) e
Step-IsValid (yields {k} e) v = answer-IsValid (yield-Succeeds k v) e
Step-IsValid (wakes {k} t i) v = unblock-IsValid k t v i
Step-IsValid (starts {k} t o) v = run-IsValid k t v o
Step-IsValid (ticks {k} m e) v = answer-IsValid (tick-Succeeds k v m) e
Step-IsValid (exits {k} ne e) v = answer-IsValid (exit-Succeeds k v ne) e

pub init-IsValid : (task : ℕ → Task) (idle main : ℕ) → idle ≢ main → IsValid (init task idle main)
unfolding init main_thread_init run
init-IsValid task idle main ne = record {
  queue = record {
    exact = λ t i. ground arith;
    live = λ t h. ground arith;
    distinct = ground arith;
    once = ground arith;
    idle_in = ground arith;
    idle_alive = ground arith;
  };
  current_in = ground arith;
  exact_current = λ t i. ground arith;
  own_page_table = ground arith;
}

-- In every state that the kernel reaches from `kthread_init` by blocking, yielding, waking a live
-- task, starting a new one, timer interrupts on an intact stack and exits of tasks other than the
-- idle one, the scheduler's state is well formed: of the live tasks exactly the current one runs,
-- on its own page table, and the ready list holds exactly the ready ones, once each.
pub Reach-IsValid :
    (task : ℕ → Task) (idle main : ℕ) {k : Kernel}
    → idle ≢ main
    → Reach (init task idle main) k
    → IsValid k
Reach-IsValid task idle main ne here = init-IsValid task idle main ne
Reach-IsValid task idle main ne (next r s) = Step-IsValid s (Reach-IsValid task idle main ne r)

-- The scheduler called at the end of `n` time slices.
pub turns : ℕ → Kernel → Option Kernel
turns zero k = some k
turns (suc n) k = elim (schedule k) [ none ↦ none | some k' ↦ turns n k' ]

module _ (k : Kernel) (t : ℕ) (rest : List ℕ) (v : IsValid k) (e : k.ready_list ≡ t ∷ rest) where
  requeue-list : (requeue k).ready_list ≡ t ∷ (rest ++ k.current ∷ [])
  unfolding requeue
  requeue-list = rw (current_runs k v) (ap (λ l. l ++ k.current ∷ []) e)

  wake_idle-requeue : wake_idle (requeue k) ≡ requeue k
  unfolding wake_idle
  wake_idle-requeue =
      let some_ready : list_empty (requeue k).ready_list ≡ false = ap list_empty requeue-list in
      rw some_ready

  -- The task at the head of the ready list is the next to run, and the current one queues up last.
  turn :
      (k' : Kernel) × (schedule k ≡ some k')
      × IsValid k'
      × (k'.current ≡ t)
      × (k'.ready_list ≡ rest ++ k.current ∷ [])
  unfolding schedule pick dispatch process_switch
  turn = (
    dispatch (requeue k) t (rest ++ k.current ∷ []),
    ap (λ j. pick j j.ready_list) wake_idle-requeue ∙ ap (pick (requeue k)) requeue-list,
    dispatch-IsValid (requeue k) t (rest ++ k.current ∷ []) (requeue-Stopped k v) requeue-list,
    ground arith,
    ground arith,
  )

-- In a well-formed state a ready task with `length xs` tasks before it in line runs after that many
-- turns of the scheduler and one, no turn before fails, and the state is well formed again.
pub turns-reach :
    (xs ys : List ℕ) (t : ℕ) (k : Kernel)
    → IsValid k
    → k.ready_list ≡ xs ++ t ∷ ys
    → (k' : Kernel) × (turns (suc (length xs)) k ≡ some k') × IsValid k' × (k'.current ≡ t)
unfolding turns
turns-reach [] ys t k v e =
    let (k', s, v', c, _) = turn k t ys v e in (k', rw (s, turns) refl, v', c)
turns-reach (x ∷ xs) ys t k v e =
    let (k', s, v', c, l) = turn k x (xs ++ t ∷ ys) v e in
    let (k'', s', v'', c') =
      turns-reach xs (ys ++ k.current ∷ []) t k' v'
        (l ∙ append_assoc xs (t ∷ ys) (k.current ∷ [])) in
    (k'', rw (s, turns) s', v'', c')

-- In a well-formed state a parked live task that `kthread_unblock` wakes runs at the very next turn
-- of the scheduler, in a well-formed state.
pub unblock_runs_next :
    (k : Kernel) (t : ℕ)
    → IsValid k
    → t ∈ k.all_list
    → is_parked (status k t) ≡ true
    → (k' : Kernel) × (turns 1 (unblock k t) ≡ some k') × IsValid k' × (k'.current ≡ t)
unfolding unblock
unblock_runs_next k t v i parked =
    turns-reach [] k.ready_list t (unblock k t) (unblock-IsValid k t v i) (rw parked refl)
