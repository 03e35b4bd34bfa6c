-- ===== src/Thread.antt =====
-- kernel/src/thread.c and kernel/src/sched.c: task states, the ready list and the round-robin
-- scheduler. A task is named by the address of its `task_struct`; the two global lists are the
-- lists of tasks whose elements they hold (`LinkedList.Ops` relates the pointer code to these).
-- Each function runs with interrupts disabled, so it is one step; `switch_to` makes the next task
-- the current one. `none` is a fault: `schedule` popping from an empty ready list, which makes
-- the C code follow NULL, or a failed `assert`.
pub mod Inv
pub mod Steps
pub mod RoundRobin
pub mod Handing
pub mod Sleeping
mod Tests
use a_os.Base.{
  ℕ, ◌+◌, ◌-◌, ◌*◌, ◌/◌, ◌%◌, ◌^◌, Bool, true, false, ◌||◌, Option, none, some, List, [], ◌∷◌, ◌++◌,
  ltb, ◌==◌, if◌then◌else◌,
}
use a_os.Base.Words.{add32}

pub data TaskStatus : Type 0 where
  running ready blocked waiting hanging died : TaskStatus

-- The fields of `struct task_struct` that the scheduler reads and writes.
pub record Task : Type 0 where
  pub status : TaskStatus
  pub time_slice : ℕ
  pub pgdir_paddr : ℕ
  pub stack_magic : ℕ

-- The global lists, the idle task, the running task (found by `kthread_current` from the stack
-- pointer), CR3, `usr_tss.esp0` and `jiffies`.
pub record Kernel : Type 0 where
  pub task : ℕ → Task
  pub ready_list : List ℕ
  pub all_list : List ℕ
  pub idle : ℕ
  pub current : ℕ
  pub cr3 : ℕ
  pub esp0 : ℕ
  pub jiffies : ℕ

-- SYS_TICK_US is 10, so SCHED_RR_TIME_SLICE is 100 * 1000 / 10.
abbrev rr_time_slice : ℕ
rr_time_slice = 100 * 1000 / 10

abbrev k_pgdir_paddr : ℕ
k_pgdir_paddr = 0x00100000

abbrev pub stack_magic_value : ℕ
stack_magic_value = 0x19880802

abbrev update_task : (ℕ → Task) → ℕ → Task → ℕ → Task
update_task f t v u = if t == u then v else f u

abbrev pub set_status : Kernel → ℕ → TaskStatus → Kernel
set_status k t st = record k { task = update_task k.task t (record (k.task t) { status = st }) }

abbrev pub set_slice : Kernel → ℕ → ℕ → Kernel
set_slice k t n = record k { task = update_task k.task t (record (k.task t) { time_slice = n }) }

abbrev pub is_running : TaskStatus → Bool
is_running running = true
is_running _ = false

-- TASK_BLOCKED, TASK_WAITING or TASK_HANGING.
abbrev pub is_parked : TaskStatus → Bool
is_parked blocked = true
is_parked waiting = true
is_parked hanging = true
is_parked _ = false

-- `kthread_unblock`
pub unblock : Kernel → ℕ → Kernel
unblock k t =
    if is_parked (k.task t).status
    then record (set_status k t ready) { ready_list = t ∷ k.ready_list }
    else k

-- The head of `schedule`: a task that is still running goes back in line.
pub requeue : Kernel → Kernel
requeue k =
    if is_running (k.task k.current).status
    then record (set_slice (set_status k k.current ready) k.current rr_time_slice) {
      ready_list = k.ready_list ++ k.current ∷ [];
    }
    else k

-- `process_switch` sets the kernel stack of a user process: the end of its page.
pub process_switch : Kernel → ℕ → Kernel
process_switch k t = record k { esp0 = add32 t 4096 }

-- The tail of `schedule`, for the popped task.
pub dispatch : Kernel → ℕ → List ℕ → Kernel
dispatch k next rest =
    let k1 = record (set_status k next running) { ready_list = rest } in
    let page_table = (k1.task next).pgdir_paddr in
    let k2 = record k1 { cr3 = page_table } in
    let k3 = if k_pgdir_paddr == page_table then k2 else process_switch k2 next in
    record k3 { current = next }

pub pick : Kernel → List ℕ → Option Kernel
pick k [] = none
pick k (next ∷ rest) = some (dispatch k next rest)

abbrev pub list_empty : List ℕ → Bool
list_empty [] = true
list_empty (_ ∷ _) = false

-- `if (list_empty(&task_ready_list)) kthread_unblock(g_idle_task);`
pub wake_idle : Kernel → Kernel
wake_idle k = if list_empty k.ready_list then unblock k k.idle else k

-- `schedule`
pub schedule : Kernel → Option Kernel
schedule k = let k' = wake_idle (requeue k) in pick k' k'.ready_list

-- `kthread_run`
unfoldable pub run : Kernel → ℕ → Kernel
run k t = record (set_slice (set_status k t ready) t rr_time_slice) {
  ready_list = k.ready_list ++ t ∷ [];
  all_list = k.all_list ++ t ∷ [];
}

-- `kthread_block`
pub block : Kernel → TaskStatus → Option Kernel
block k stat = if is_parked stat then schedule (set_status k k.current stat) else some k

-- `kthread_yield`
pub yield : Kernel → Option Kernel
yield k =
    schedule (record (set_status k k.current ready) { ready_list = k.ready_list ++ k.current ∷ [] })

-- `timer_handler` of kernel/src/timer.c
pub tick : Kernel → Option Kernel
tick k =
    let k1 = record k { jiffies = add32 k.jiffies 1 } in
    let cur = k1.task k1.current in
    if stack_magic_value == cur.stack_magic
    then (if 0 == cur.time_slice
        then schedule k1
        else some (set_slice k1 k1.current (cur.time_slice - 1)))
    else none

-- The scheduler's part of `kthread_exit` and of `process_exit`, which a task leaves for good.
abbrev pub erase : ℕ → List ℕ → List ℕ
erase t [] = []
erase t (x ∷ xs) = if x == t then xs else x ∷ erase t xs

pub retire : Kernel → ℕ → Kernel
retire k t = record (set_status k t died) {
  ready_list = erase t k.ready_list;
  all_list = erase t k.all_list;
}

-- The scheduling part of `kthread_exit`: both list removals, then `schedule`.
pub exit : Kernel → Option Kernel
exit k = schedule (retire k k.current)

-- `kthread_create` zeroes the structure (0 is TASK_RUNNING), and `kthread_run` makes it ready.
abbrev pub new_task : Task
new_task = record {
  status = running;
  time_slice = 0;
  pgdir_paddr = k_pgdir_paddr;
  stack_magic = stack_magic_value;
}

-- `main_thread_init`, for the task that boots the kernel.
unfoldable pub main_thread_init : Kernel → ℕ → Kernel
main_thread_init k main = record k {
  task = update_task k.task main (record new_task { time_slice = rr_time_slice });
  all_list = k.all_list ++ main ∷ [];
  current = main;
}

-- `kthread_init`, on the page table that the loader left in CR3.
unfoldable pub init : (ℕ → Task) → (idle main : ℕ) → Kernel
init task idle main =
    let k : Kernel = record {
      task = update_task task idle new_task;
      ready_list = [];
      all_list = [];
      idle = idle;
      current = main;
      cr3 = k_pgdir_paddr;
      esp0 = 0;
      jiffies = 0;
    } in
    main_thread_init (run k idle) main
