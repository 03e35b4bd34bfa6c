-- ===== src/Process/Tests.antt =====
-- A child, task 8192 with the identifier 2, and its parent, task 4096 with the identifier 1, that waits.
use a_os.Base.{ℕ, ◌≡◌, refl, false, some, [], ◌∷◌, ◌==◌, if◌then◌else◌, arith}
use a_os.LinkedList.Shape.{◌∈◌}
use a_os.Pid.{PidPool, pid_release}
use a_os.Thread.{Task, running, ready, waiting, erase, stack_magic_value}
use a_os.Process.{Ids, Processes, is_hanging, reaped, sys_wait, sys_exit}
use a_os.Process.Reaping.{Exits, exit-wait}

abbrev states : ℕ → Task
states t = record {
  status = if t == 4096 then waiting else if t == 8192 then running else ready;
  time_slice = 5;
  pgdir_paddr = 0x00200000;
  stack_magic = stack_magic_value;
}

abbrev numbers : ℕ → Ids
numbers t =
    if t == 4096
    then record { pid = 1; ppid = 0; exit_code = 0 }
    else if t == 8192
    then record { pid = 2; ppid = 1; exit_code = 0 }
    else record { pid = 3; ppid = 0; exit_code = 0 }

abbrev family : Processes
family = record {
  kernel = record {
    task = states;
    ready_list = 12288 ∷ [];
    all_list = 12288 ∷ 4096 ∷ 8192 ∷ [];
    idle = 12288;
    current = 8192;
    cr3 = 0x00200000;
    esp0 = 0;
    jiffies = 0;
  };
  ids = numbers;
  pids = record { pid_start = 1; pid_bitmap = record { bits = 7 ∷ []; len = 1 } };
  pid_init = 1;
}

abbrev pids_left : PidPool
pids_left = record { pid_start = 1; pid_bitmap = record { bits = 5 ∷ []; len = 1 } }

only_parent : (u : ℕ) → u ∈ 12288 ∷ 4096 ∷ 8192 ∷ [] → (numbers u).pid ≡ 1 → u ≡ 4096
only_parent u i e = ground arith

no_hanging : (u : ℕ) → is_hanging (states u).status ≡ false
no_hanging u = ground arith

family-Exits : Exits family 4096
family-Exits = record {
  live = refl;
  parent_live = refl;
  other = omega arith;
  own = omega arith;
  is_parent = refl;
  only = only_parent;
  waits = refl;
  none_hangs = λ u i. no_hanging u;
}

given_back : pid_release family.pids 2 ≡ some pids_left
unfolding pid_release a_os.Pid.pid_t a_os.Bitmap.release a_os.Bitmap.check a_os.Bitmap.test
    a_os.Bitmap.assign a_os.Bitmap.clear
given_back = refl

exit-wait_example :
    (p' : Processes) × (p'' : Processes) × (sys_exit family 42 ≡ some p')
    × (p'.kernel.current ≡ 4096)
    × (sys_wait p' ≡ some (reaped 2 42, p''))
    × (p''.kernel.all_list ≡ erase 8192 (12288 ∷ 4096 ∷ 8192 ∷ []))
    × (p''.pids ≡ pids_left)
exit-wait_example = exit-wait family 4096 42 pids_left family-Exits given_back
