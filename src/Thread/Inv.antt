-- ===== src/Thread/Inv.antt =====
-- When the scheduler's state is well formed, while a task runs and while none does.
use a_os.Base.{
  ℕ, ◌≡◌, ◌≢◌, refl, Bool, true, false, some, List, [], ◌∷◌, ◌++◌, arith, ◌==◌, Bool-cases, inl,
  inr, ◌∙◌, sym,
}
use mathlib.Core.Path.{subst}
use a_os.LinkedList.Shape.{has, ◌∈◌, ◌∉◌, Distinct, has-append, Distinct-snoc}
use a_os.Thread.{
  TaskStatus, ready, died, Kernel, is_running, is_parked, unblock, requeue, dispatch, pick,
  wake_idle, schedule, process_switch, list_empty,
}

abbrev pub status : Kernel → ℕ → TaskStatus
status k t = (k.task t).status

abbrev is_ready : TaskStatus → Bool
is_ready ready = true
is_ready _ = false

-- Of the live tasks (`task_all_list`) the ready list holds exactly those that are ready, once each.
-- The idle task is live and not dead, so that it can be woken.
pub record Queued (k : Kernel) : Type 0 where
  pub exact : (t : ℕ) → t ∈ k.all_list → has t k.ready_list ≡ is_ready (status k t)
  pub live : (t : ℕ) → t ∈ k.ready_list → t ∈ k.all_list
  pub distinct : Distinct k.ready_list
  pub once : Distinct k.all_list
  pub idle_in : k.idle ∈ k.all_list
  pub idle_alive : status k k.idle ≢ died

-- Between the calls: of the live tasks the current one, and no other, is running, on its own page
-- table.
pub record IsValid (k : Kernel) : Type 0 where
  pub queue : Queued k
  pub current_in : k.current ∈ k.all_list
  pub exact_current : (t : ℕ) → t ∈ k.all_list → is_running (status k t) ≡ (k.current == t)
  pub own_page_table : k.cr3 ≡ (k.task k.current).pgdir_paddr

-- Inside `schedule`: no live task is running, and the current task neither.
pub record Stopped (k : Kernel) : Type 0 where
  pub queue : Queued k
  pub halted : is_running (status k k.current) ≡ false
  pub none_running : (t : ℕ) → t ∈ k.all_list → is_running (status k t) ≡ false

pub current_runs : (k : Kernel) → IsValid k → is_running (status k k.current) ≡ true
current_runs k v = v.exact_current k.current v.current_in ∙ ground arith

pub current_out : (k : Kernel) → IsValid k → k.current ∉ k.ready_list
current_out k v = v.queue.exact k.current v.current_in ∙ ground (arith, current_runs k v)

-- The current task goes to the end of the ready list.
pub snoc-live :
    (k : Kernel) (c t : ℕ) → Queued k → c ∈ k.all_list → t ∈ k.ready_list ++ c ∷ [] → t ∈ k.all_list
snoc-live k c t q i h = elim (Bool-cases (c == t)) [
  | inl e ↦ let e' : t ≡ c = ground arith in rw e' i
  | inr ne ↦ q.live t (ground (arith, has-append t k.ready_list (c ∷ [])))
]

-- A running task goes back in line, and then no task is running.
pub requeue-Stopped : (k : Kernel) → IsValid k → Stopped (requeue k)
unfolding requeue
requeue-Stopped k v = rw (current_runs k v) (record {
  queue = record {
    exact = λ t i. ground (arith, has-append t k.ready_list (k.current ∷ []), v.queue.exact t i);
    live = λ t. snoc-live k k.current t v.queue v.current_in;
    distinct = Distinct-snoc k.ready_list k.current v.queue.distinct (current_out k v);
    once = v.queue.once;
    idle_in = v.queue.idle_in;
    idle_alive = ground (arith, v.queue.idle_alive);
  };
  halted = ground arith;
  none_running = λ t i. ground (arith, v.exact_current t i);
})

pub requeue-Stopped' : (k : Kernel) → Stopped k → requeue k ≡ k
unfolding requeue
requeue-Stopped' k s = rw s.halted

-- `kthread_unblock` keeps the ready list exact.
pub unblock-Queued : (k : Kernel) (t : ℕ) → Queued k → t ∈ k.all_list → Queued (unblock k t)
unfolding unblock
unblock-Queued k t q i = elim (Bool-cases (is_parked (status k t))) [
  | inr no_change ↦ rw no_change q
  | inl parked ↦
      let out : has t k.ready_list ≡ false = ground (arith, q.exact t i) in
      rw parked (record {
        exact = λ u j. ground (arith, q.exact u j);
        live = λ u h. elim (Bool-cases (t == u)) [
          | inl e ↦ let e' : u ≡ t = ground arith in rw e' i
          | inr ne ↦ q.live u (ground arith)
        ];
        distinct = (out, q.distinct);
        once = q.once;
        idle_in = q.idle_in;
        idle_alive = ground (arith, q.idle_alive);
      })
]

pub is_running-unblock :
    (k : Kernel) (t u : ℕ) → is_running (status (unblock k t) u) ≡ is_running (status k u)
unfolding unblock
is_running-unblock k t u = ground arith

pub all_list-unblock : (k : Kernel) (t : ℕ) → (unblock k t).all_list ≡ k.all_list
unfolding unblock
all_list-unblock k t = ground arith

pub current-unblock : (k : Kernel) (t : ℕ) → (unblock k t).current ≡ k.current
unfolding unblock
current-unblock k t = ground arith

unblock-Stopped : (k : Kernel) (t : ℕ) → Stopped k → t ∈ k.all_list → Stopped (unblock k t)
unblock-Stopped k t s i = record {
  queue = unblock-Queued k t s.queue i;
  halted = rw current-unblock (is_running-unblock k t k.current ∙ s.halted);
  none_running = λ u j.
      is_running-unblock k t u ∙ s.none_running u (subst (λ l. u ∈ l) (all_list-unblock k t) j);
}

pub wake_idle-Stopped : (k : Kernel) → Stopped k → Stopped (wake_idle k)
unfolding wake_idle
wake_idle-Stopped k s = elim (Bool-cases (list_empty k.ready_list)) [
  | inr no_change ↦ rw no_change s
  | inl empty ↦ rw empty (unblock-Stopped k k.idle s s.queue.idle_in)
]

-- The idle task is woken if no other task is ready, so the ready list is not empty afterwards.
wake_idle-nonempty : (k : Kernel) → Stopped k → list_empty (wake_idle k).ready_list ≡ false
unfolding wake_idle unblock
wake_idle-nonempty k s = ground (
  arith,
  s.queue.exact k.idle s.queue.idle_in,
  s.none_running k.idle s.queue.idle_in,
  s.queue.idle_alive,
)

-- The popped task becomes the current one.
pub dispatch-IsValid :
    (k : Kernel) (next : ℕ) (rest : List ℕ)
    → Stopped k
    → k.ready_list ≡ next ∷ rest
    → IsValid (dispatch k next rest)
unfolding dispatch process_switch
dispatch-IsValid k next rest s e =
    let d : Distinct (next ∷ rest) = subst Distinct e s.queue.distinct in
    let x : (t : ℕ) → t ∈ k.all_list → has t (next ∷ rest) ≡ is_ready (status k t) =
      λ t i. subst (λ l. has t l ≡ is_ready (status k t)) e (s.queue.exact t i) in
    let known : (t : ℕ) → has t (next ∷ rest) ≡ true → t ∈ k.all_list =
      λ t h. s.queue.live t (subst (λ l. t ∈ l) (sym e) h) in
    record {
      queue = record {
        exact = λ t i. ground (arith, x t, d.0);
        live = λ t h. ground (arith, known t);
        distinct = ground (arith, d.1);
        once = ground (arith, s.queue.once);
        idle_in = ground (arith, s.queue.idle_in);
        idle_alive = ground (arith, s.queue.idle_alive);
      };
      current_in = ground (arith, known next);
      exact_current = λ t i. ground (arith, s.none_running t);
      own_page_table = ground arith;
    }

pick-IsValid :
    (k : Kernel) (l : List ℕ)
    → Stopped k
    → k.ready_list ≡ l
    → list_empty l ≡ false
    → (k' : Kernel) × (pick k l ≡ some k') × IsValid k'
unfolding pick
pick-IsValid k [] st e ne = cc
pick-IsValid k (next ∷ rest) st e ne =
    (dispatch k next rest, refl, dispatch-IsValid k next rest st e)

-- Once no task is running, `schedule` succeeds, and afterwards one live task is running.
pub schedule-IsValid :
    (k : Kernel) → Stopped (requeue k) → (k' : Kernel) × (schedule k ≡ some k') × IsValid k'
unfolding schedule
schedule-IsValid k s =
    let j = wake_idle (requeue k) in
    pick-IsValid j j.ready_list (wake_idle-Stopped (requeue k) s) refl
      (wake_idle-nonempty (requeue k) s)
