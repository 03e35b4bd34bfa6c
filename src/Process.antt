-- ===== src/Process.antt =====
-- kernel/src/process.c: parents and children. `Process.Images` has what a process gives back at its
-- exit and copies at a fork. A task is named by its address, as in `Thread`; its identifiers are kept
-- beside the scheduler's state. `none` is a fault: a NULL parent, or a failed `assert`.
pub mod Images
pub mod Reaping
mod Tests
use a_os.Base.{
  ℕ, Bool, true, false, not, Option, none, some, List, [], ◌∷◌, ◌==◌, if◌then◌else◌, ◌>>=◌,
}
use a_os.Pid.{PidPool, pid_release}
use a_os.Thread.{
  TaskStatus, running, ready, blocked, waiting, hanging, died, Kernel, set_status, unblock, block,
  retire,
}

-- `pid`, `ppid` and `exit_code` of a `struct task_struct`.
pub record Ids : Type 0 where
  pub pid : ℕ
  pub ppid : ℕ
  pub exit_code : ℕ

-- The scheduler, the identifiers of each task, the pool of identifiers, and `pid_init`.
pub record Processes : Type 0 where
  pub kernel : Kernel
  pub ids : ℕ → Ids
  pub pids : PidPool
  pub pid_init : ℕ

abbrev pub set_ids : (ℕ → Ids) → (t : ℕ) → Ids → ℕ → Ids
set_ids ids t x u = if t == u then x else ids u

abbrev pub is_hanging : TaskStatus → Bool
is_hanging hanging = true
is_hanging _ = false

abbrev pub is_waiting : TaskStatus → Bool
is_waiting waiting = true
is_waiting _ = false

-- What one walk of `sys_wait` over `task_all_list` finds: the first child that hangs, or else whether
-- there is a child.
pub data Look : Type 0 where
  hangs : ℕ → Look
  alive childless : Look

unfoldable pub look : Processes → (pid : ℕ) → (has_child : Bool) → List ℕ → Look
look p pid has_child [] = if has_child then alive else childless
look p pid has_child (t ∷ ts) =
    let next = look p pid has_child ts in
    let next_child = look p pid true ts in
    if not ((p.ids t).ppid == pid)
    then next
    else if is_hanging (p.kernel.task t).status
    then hangs t
    else next_child

-- `process_exit` without the pages that it frees.
unfoldable pub process_exit : Processes → (t : ℕ) → Option Processes
process_exit p t = do
  pids ← pid_release p.pids (p.ids t).pid
  some (record p { pids = pids; kernel = retire p.kernel t })

-- A round of `sys_wait`: it returns the identifier of a child and stores its exit code, returns -1, or
-- blocks, after which the task starts the next round.
pub data Waited : Type 0 where
  reaped : (pid exit_code : ℕ) → Waited
  no_child blocks : Waited

unfoldable pub on_look : Processes → Look → Option (Waited × Processes)
on_look p (hangs t) = do p' ← process_exit p t; some (reaped (p.ids t).pid (p.ids t).exit_code, p')
on_look p alive = do k ← block p.kernel waiting; some (blocks, record p { kernel = k })
on_look p childless = some (no_child, p)

-- `sys_wait`, called by the current task.
unfoldable pub sys_wait : Processes → Option (Waited × Processes)
sys_wait p = on_look p (look p (p.ids p.kernel.current).pid false p.kernel.all_list)

-- A step of the loop of `sys_exit`: a child of the task gets a new parent, and the parent of the task
-- is noted.
abbrev pub adopted : (pid_init child : ℕ) → (ℕ → Ids) → (t : ℕ) → ℕ → Ids
adopted pid_init child ids t =
    if (ids t).ppid == (ids child).pid
    then set_ids ids t (record (ids t) { ppid = pid_init })
    else ids

unfoldable pub exit_loop :
    (pid_init child : ℕ) → (ℕ → Ids) → (parent : Option ℕ) → List ℕ → (ℕ → Ids) × Option ℕ
exit_loop pid_init child ids parent [] = (ids, parent)
exit_loop pid_init child ids parent (t ∷ ts) =
    let ids' = adopted pid_init child ids t in
    exit_loop pid_init child ids' (if (ids' t).pid == (ids' child).ppid then some t else parent) ts

-- A waiting parent is woken.
unfoldable pub wake_parent : Kernel → (parent : ℕ) → Kernel
wake_parent k parent =
    if is_waiting (k.task parent).status then unblock (set_status k k.current hanging) parent else k

-- `sys_exit` of the current task without the resources that it gives back.
unfoldable pub sys_exit : Processes → (exit_code : ℕ) → Option Processes
sys_exit p exit_code = do
  let child = p.kernel.current
  let coded = set_ids p.ids child (record (p.ids child) { exit_code = exit_code })
  let (ids, parent) = exit_loop p.pid_init child coded none p.kernel.all_list
  t ← parent
  k ← block (wake_parent p.kernel t) hanging
  some (record p { kernel = k; ids = ids })
