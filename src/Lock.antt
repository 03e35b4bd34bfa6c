-- ===== src/Lock.antt =====
-- kernel/src/lock.c: spin locks, semaphores and mutexes. The section of a call between `spin_lock`
-- and `spin_unlock` is one step, since the spin lock admits one task at a time; a task that has to
-- wait then calls `kthread_block`, and tries again when it runs. A wait list is the list of the
-- waiting tasks, in order.
pub mod Laws
mod Tests
use a_os.Base.{
  ℕ, zero, suc, ◌-◌, Bool, true, false, Option, none, some, List, [], ◌∷◌, ◌++◌, ltb, if◌then◌else◌,
}
use a_os.Base.Words.{add32}
use a_os.Thread.{Kernel, unblock, block, blocked}

-- `xchg(&lock->value, 1)`: the old value and the new one.
xchg_one : ℕ → ℕ × ℕ
xchg_one value = (value, 1)

-- One round of `spin_lock`: whether the lock is taken, and its value.
spin_try : ℕ → Bool × ℕ
spin_try value = let (old, new) = xchg_one value in (if ltb 0 old then false else true, new)

spin_unlock : ℕ → ℕ
spin_unlock value = 0

-- `struct semaphore` without its spin lock.
pub record Semaphore : Type 0 where
  pub count : ℕ
  pub wait_list : List ℕ

sema_init : ℕ → Semaphore
sema_init value = record { count = value; wait_list = [] }

-- The section of `sema_down` for `task`: whether it has taken the semaphore.
pub sema_try : ℕ → Semaphore → Bool × Semaphore
sema_try task s =
    if ltb 0 s.count
    then (true, record s { count = s.count - 1 })
    else (false, record s { wait_list = s.wait_list ++ task ∷ [] })

-- `kthread_block(TASK_BLOCKED)`, for a task that has to wait.
pub wait : Kernel → Option Kernel
wait k = block k blocked

-- Waking the first waiter.
pub wake_first : Kernel → List ℕ → Kernel × List ℕ
wake_first k [] = (k, [])
wake_first k (t ∷ ts) = (unblock k t, ts)

-- `sema_up`
pub sema_up : Kernel → Semaphore → Kernel × Semaphore
sema_up k s =
    let (k', ts) = wake_first k s.wait_list in
    (k', record { count = add32 s.count 1; wait_list = ts })

-- `struct mutex` without its spin lock; a NULL owner is `none`.
record Mutex : Type 0 where
  pub owner : Option ℕ
  pub wait_list : List ℕ

mutex_init : Mutex
mutex_init = record { owner = none; wait_list = [] }

-- The section of `mutex_lock` for `task`.
mutex_try : ℕ → Mutex → Bool × Mutex
mutex_try task m = elim m.owner [
  | none ↦ (true, record m { owner = some task })
  | some _ ↦ (false, record m { wait_list = m.wait_list ++ task ∷ [] })
]

-- `mutex_unlock`
mutex_unlock : Kernel → Mutex → Kernel × Mutex
mutex_unlock k m =
    let (k', ts) = wake_first k m.wait_list in (k', record { owner = none; wait_list = ts })
