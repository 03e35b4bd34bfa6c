-- ===== src/Lock/Laws.antt =====
-- How often a semaphore can be taken, and the wake-up that is lost.
use a_os.Base.{ℕ, suc, ◌+◌, ◌^◌, ◌<◌, ◌≡◌, ◌≢◌, refl, true, false, some, [], ◌∷◌, arith}
use a_os.Base.Words.{add32}
use a_os.Thread.{Kernel, blocked, is_parked}
use a_os.Thread.Inv.{status, IsValid, current_runs}
use a_os.Thread.Steps.{unblock_awake, block-Succeeds}
use a_os.Thread.Sleeping.{block_asleep}
use a_os.Lock.{Semaphore, sema_try, sema_up, wake_first, wait}

-- A sequence of sections on one semaphore, by any tasks, with the number of times that it was
-- taken and given back.
pub data Uses (s : Semaphore) : (downs ups : ℕ) → Semaphore → Type 0 where
  start : Uses s 0 0 s
  takes :
      {d u : ℕ} {s' s'' : Semaphore} (task : ℕ)
      → Uses s d u s'
      → sema_try task s' ≡ (true, s'')
      → Uses s (suc d) u s''
  waits :
      {d u : ℕ} {s' s'' : Semaphore} (task : ℕ)
      → Uses s d u s'
      → sema_try task s' ≡ (false, s'')
      → Uses s d u s''
  gives :
      {d u : ℕ} {s' : Semaphore} (k : Kernel) → Uses s d u s' → Uses s d (suc u) (sema_up k s').1

take_count : (task : ℕ) (s s' : Semaphore) → sema_try task s ≡ (true, s') → s'.count + 1 ≡ s.count
unfolding sema_try
take_count task s s' e = ground (arith, e)

wait_count : (task : ℕ) (s s' : Semaphore) → sema_try task s ≡ (false, s') → s'.count ≡ s.count
unfolding sema_try
wait_count task s s' e = ground (arith, e)

up_count : (k : Kernel) (s : Semaphore) → (sema_up k s).1.count ≡ add32 s.count 1
unfolding sema_up
up_count k s = refl

-- Whatever the order in which tasks take a semaphore, fail to and wait, and give it back, as long
-- as its count and the number of times it is given back stay below 2 ^ 32 together, its count and
-- the number of times it was taken are its first count and the number of times it was given back.
pub sema-count :
    (s : Semaphore) {d u : ℕ} {s' : Semaphore}
    → Uses s d u s'
    → s.count + u < 2 ^ 32
    → s'.count + d ≡ s.count + u
sema-count s Uses.start small = refl
sema-count s (Uses.takes {d} {u} {s'} {s''} task r e) small =
    omega (arith, sema-count s r small, take_count task s' s'' e)
sema-count s (Uses.waits {d} {u} {s'} {s''} task r e) small =
    omega (arith, sema-count s r small, wait_count task s' s'' e)
sema-count s (Uses.gives {d} {u} {s'} k r) small =
    omega (arith, sema-count s r (omega arith), up_count k s')

-- A task finds a semaphore taken and puts itself on the wait list; before it blocks, an interrupt
-- handler gives the semaphore back; then the task blocks.
pub record Lost (k : Kernel) (s : Semaphore) : Type 0 where
  pub k' : Kernel
  pub tries : sema_try k.current s ≡ (false, record { count = 0; wait_list = k.current ∷ [] })
  pub gives :
      sema_up k (record { count = 0; wait_list = k.current ∷ [] })
      ≡ (k, record { count = 1; wait_list = [] })
  pub blocks : wait k ≡ some k'
  pub valid : IsValid k'
  pub asleep : status k' k.current ≡ blocked
  pub forgotten :
      (n : ℕ)
      → sema_up k' (record { count = n; wait_list = [] })
        ≡ (k', record { count = add32 n 1; wait_list = [] })

gives_awake :
    (k : Kernel) (t : ℕ)
    → is_parked (status k t) ≡ false
    → sema_up k (record { count = 0; wait_list = t ∷ [] })
      ≡ (k, record { count = 1; wait_list = [] })
unfolding sema_up wake_first
gives_awake k t awake = rw (unblock_awake k t awake) refl

gives_nobody :
    (k : Kernel) (n : ℕ)
    → sema_up k (record { count = n; wait_list = [] })
      ≡ (k, record { count = add32 n 1; wait_list = [] })
unfolding sema_up wake_first
gives_nobody k n = refl

-- In a valid state of the scheduler whose current task is not the idle task, when that task finds a
-- semaphore taken with nobody waiting, and the semaphore is given back by an interrupt handler
-- before the task blocks, the task blocks all the same, and stays blocked while another task runs:
-- the semaphore has one unit and no waiter, and giving it back again, however large its count,
-- changes no task.
pub sema_up-Lost :
    (k : Kernel) (s : Semaphore)
    → IsValid k
    → k.current ≢ k.idle
    → s.count ≡ 0
    → s.wait_list ≡ []
    → Lost k s
unfolding sema_try wait
sema_up-Lost k s v other taken nobody =
    let awake : is_parked (status k k.current) ≡ false = ground (arith, current_runs k v) in
    let (k', blocks, valid) = block-Succeeds k blocked v in
    record {
      k' = k';
      tries = rw (taken, nobody) refl;
      gives = gives_awake k k.current awake;
      blocks = blocks;
      valid = valid;
      asleep = block_asleep k k' v other blocks;
      forgotten = gives_nobody k';
    }
