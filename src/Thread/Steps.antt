-- ===== src/Thread/Steps.antt =====
-- Every operation of the scheduler succeeds on a well-formed state and keeps it well formed.
use mathlib.Core.Path.{subst}
use a_os.Base.{
  ℕ, ◌≡◌, ◌≢◌, refl, true, false, Option, some, List, [], ◌∷◌, arith, ◌==◌, if◌then◌else◌,
  Bool-cases, inl, inr, ◌∙◌, sym, ap,
}
use a_os.Base.Words.{add32}
use a_os.LinkedList.Shape.{has, ◌∈◌, ◌∉◌, Distinct, has-append, Distinct-snoc}
use a_os.Thread.{
  TaskStatus, Kernel, set_status, set_slice, is_parked, unblock, schedule, run, block, yield, tick,
  retire, exit, erase, stack_magic_value,
}
use a_os.Thread.Inv.{
  status, IsValid, Stopped, current_out, snoc-live, requeue-Stopped, requeue-Stopped',
  unblock-Queued, is_running-unblock, all_list-unblock, current-unblock, schedule-IsValid,
}

-- The operation succeeds, and leaves a well-formed state.
abbrev pub Succeeds : Option Kernel → Type 0
Succeeds o = (k' : Kernel) × (o ≡ some k') × IsValid k'

schedule-Stopped : (k : Kernel) → Stopped k → Succeeds (schedule k)
schedule-Stopped k s = schedule-IsValid k (rw (requeue-Stopped' k s) s)

-- `kthread_block` with any of the three parking states.
pub parked-Stopped :
    (k : Kernel) (st : TaskStatus)
    → IsValid k
    → is_parked st ≡ true
    → Stopped (set_status k k.current st)
parked-Stopped k st v p = record {
  queue = record {
    exact = λ t i. ground (arith, v.queue.exact t i, current_out k v);
    live = v.queue.live;
    distinct = v.queue.distinct;
    once = v.queue.once;
    idle_in = v.queue.idle_in;
    idle_alive = ground (arith, v.queue.idle_alive);
  };
  halted = ground arith;
  none_running = λ t i. ground (arith, v.exact_current t i);
}

-- In a well-formed state `kthread_block` with any status finds a task to run, and leaves a well-
-- formed state.
pub block-Succeeds : (k : Kernel) (st : TaskStatus) → IsValid k → Succeeds (block k st)
unfolding block
block-Succeeds k st v = elim (Bool-cases (is_parked st)) [
  | inl p ↦ rw p (schedule-Stopped (set_status k k.current st) (parked-Stopped k st v p))
  | inr no_change ↦ rw no_change (k, refl, v)
]

pub yield-Succeeds : (k : Kernel) → IsValid k → Succeeds (yield k)
unfolding yield
yield-Succeeds k v = schedule-Stopped _ (record {
  queue = record {
    exact = λ t i. ground (arith, has-append t k.ready_list (k.current ∷ []), v.queue.exact t i);
    live = λ t. snoc-live k k.current t v.queue v.current_in;
    distinct = Distinct-snoc k.ready_list k.current v.queue.distinct (current_out k v);
    once = v.queue.once;
    idle_in = v.queue.idle_in;
    idle_alive = ground (arith, v.queue.idle_alive);
  };
  halted = ground arith;
  none_running = λ t i. ground (arith, v.exact_current t i);
})

pgdir-unblock : (k : Kernel) (t u : ℕ) → ((unblock k t).task u).pgdir_paddr ≡ (k.task u).pgdir_paddr
unfolding unblock
pgdir-unblock k t u = ground arith

cr3-unblock : (k : Kernel) (t : ℕ) → (unblock k t).cr3 ≡ k.cr3
unfolding unblock
cr3-unblock k t = ground arith

pub unblock-IsValid : (k : Kernel) (t : ℕ) → IsValid k → t ∈ k.all_list → IsValid (unblock k t)
unblock-IsValid k t v i = record {
  queue = unblock-Queued k t v.queue i;
  current_in = rw (all_list-unblock, current-unblock) v.current_in;
  exact_current = λ u j.
      is_running-unblock k t u
      ∙ v.exact_current u (subst (λ l. u ∈ l) (all_list-unblock k t) j)
      ∙ ap (λ c. c == u) (sym (current-unblock k t));
  own_page_table = rw (cr3-unblock, current-unblock, pgdir-unblock) v.own_page_table;
}

-- A task that is not yet live joins both lists.
pub run-IsValid : (k : Kernel) (t : ℕ) → IsValid k → t ∉ k.all_list → IsValid (run k t)
unfolding run
run-IsValid k t v new =
    let out : t ∉ k.ready_list = elim (Bool-cases (has t k.ready_list)) [
      | inr o ↦ o
      | inl i ↦ ground (arith, v.queue.live t i)
    ] in
    record {
      queue = record {
        exact = λ u i. ground (
          arith,
          has-append u k.ready_list (t ∷ []),
          has-append u k.all_list (t ∷ []),
          v.queue.exact u,
        );
        live = λ u h. ground (
          arith,
          has-append u k.ready_list (t ∷ []),
          has-append u k.all_list (t ∷ []),
          v.queue.live u,
        );
        distinct = Distinct-snoc k.ready_list t v.queue.distinct out;
        once = Distinct-snoc k.all_list t v.queue.once new;
        idle_in = ground (arith, has-append k.idle k.all_list (t ∷ []), v.queue.idle_in);
        idle_alive = ground (arith, v.queue.idle_alive);
      };
      current_in = ground (arith, has-append k.current k.all_list (t ∷ []), v.current_in);
      exact_current =
          λ u i. ground (arith, has-append u k.all_list (t ∷ []), v.exact_current u, v.current_in);
      own_page_table = ground (arith, v.own_page_table, v.current_in);
    }

jiffies-IsValid : (k : Kernel) (n : ℕ) → IsValid k → IsValid (record k { jiffies = n })
jiffies-IsValid k n v = record {
  queue = record {
    exact = v.queue.exact;
    live = v.queue.live;
    distinct = v.queue.distinct;
    once = v.queue.once;
    idle_in = v.queue.idle_in;
    idle_alive = v.queue.idle_alive;
  };
  current_in = v.current_in;
  exact_current = v.exact_current;
  own_page_table = v.own_page_table;
}

slice-IsValid : (k : Kernel) (t n : ℕ) → IsValid k → IsValid (set_slice k t n)
slice-IsValid k t n v = record {
  queue = record {
    exact = λ u i. ground (arith, v.queue.exact u i);
    live = v.queue.live;
    distinct = v.queue.distinct;
    once = v.queue.once;
    idle_in = v.queue.idle_in;
    idle_alive = ground (arith, v.queue.idle_alive);
  };
  current_in = v.current_in;
  exact_current = λ u i. ground (arith, v.exact_current u i);
  own_page_table = ground (arith, v.own_page_table);
}

-- In a well-formed state, and with the current task's stack intact, the timer interrupt neither
-- fails its assertion nor lacks a task to run, and leaves a well-formed state.
pub tick-Succeeds :
    (k : Kernel)
    → IsValid k
    → (k.task k.current).stack_magic ≡ stack_magic_value
    → Succeeds (tick k)
unfolding tick
tick-Succeeds k v magic =
    let k1 = record k { jiffies = add32 k.jiffies 1 } in
    let v1 : IsValid k1 = jiffies-IsValid k (add32 k.jiffies 1) v in
    let intact : (stack_magic_value == (k.task k.current).stack_magic) ≡ true = ground arith in
    rw intact (elim (Bool-cases (0 == (k.task k.current).time_slice)) [
      | inl over ↦ rw over (schedule-IsValid k1 (requeue-Stopped k1 v1))
      | inr left ↦ rw left (set_slice k1 k1.current _, refl, slice-IsValid k1 k1.current _ v1)
    ])

has-erase :
    (t u : ℕ) (xs : List ℕ)
    → Distinct xs
    → has u (erase t xs) ≡ (if t == u then false else has u xs)
has-erase t u [] d = ground arith
has-erase t u (x ∷ xs) d = ground (arith, has-erase t u xs d.1, d.0)

Distinct-erase : (t : ℕ) (xs : List ℕ) → Distinct xs → Distinct (erase t xs)
Distinct-erase t [] d = tt
Distinct-erase t (x ∷ xs) d = elim (Bool-cases (x == t)) [
  | inl hit ↦ rw hit d.1
  | inr miss ↦ rw miss (ground (arith, has-erase t x xs d.1, d.0), Distinct-erase t xs d.1)
]

-- The current task leaves both lists for good.
retire-Stopped : (k : Kernel) → IsValid k → k.current ≢ k.idle → Stopped (retire k k.current)
unfolding retire
retire-Stopped k v ne = record {
  queue = record {
    exact = λ u i. ground (
      arith,
      has-erase k.current u k.ready_list v.queue.distinct,
      has-erase k.current u k.all_list v.queue.once,
      v.queue.exact u,
    );
    live = λ u h. ground (
      arith,
      has-erase k.current u k.ready_list v.queue.distinct,
      has-erase k.current u k.all_list v.queue.once,
      v.queue.live u,
    );
    distinct = Distinct-erase k.current k.ready_list v.queue.distinct;
    once = Distinct-erase k.current k.all_list v.queue.once;
    idle_in = ground (arith, has-erase k.current k.idle k.all_list v.queue.once, v.queue.idle_in);
    idle_alive = ground (arith, v.queue.idle_alive);
  };
  halted = ground arith;
  none_running =
      λ u i. ground (arith, has-erase k.current u k.all_list v.queue.once, v.exact_current u);
}

-- In a well-formed state `kthread_exit` of a task other than the idle task finds a task to run, and
-- leaves a well-formed state.
pub exit-Succeeds : (k : Kernel) → IsValid k → k.current ≢ k.idle → Succeeds (exit k)
unfolding exit
exit-Succeeds k v ne = schedule-Stopped (retire k k.current) (retire-Stopped k v ne)

-- Waking a task that is not parked does nothing.
pub unblock_awake : (k : Kernel) (t : ℕ) → is_parked (status k t) ≡ false → unblock k t ≡ k
unfolding unblock
unblock_awake k t awake = rw awake
