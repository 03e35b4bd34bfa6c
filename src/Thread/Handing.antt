-- ===== src/Thread/Handing.antt =====
-- A task that parks right after it has woken another: the other one runs.
use a_os.Base.{
  ℕ, ◌≡◌, ◌≢◌, refl, ap, ◌∙◌, true, false, some, List, ◌∷◌, ◌==◌, if◌then◌else◌, arith, Bool-cases,
  inl, inr,
}
use a_os.Thread.{
  Task, k_pgdir_paddr, running, ready, waiting, hanging, Kernel, is_parked, is_running, list_empty,
  set_status, unblock, block, schedule, requeue, wake_idle, pick, dispatch, process_switch, retire,
  erase,
}

pub dispatch_fields :
    (k : Kernel) (t : ℕ) (rest : List ℕ)
    → ((dispatch k t rest).current ≡ t)
      × ((dispatch k t rest).all_list ≡ k.all_list)
      × ((dispatch k t rest).task ≡ (set_status k t running).task)
unfolding dispatch process_switch
dispatch_fields k t rest =
    elim (Bool-cases (k_pgdir_paddr == ((set_status k t running).task t).pgdir_paddr)) [
      | inl kernel_task ↦ rw kernel_task (refl, refl, refl)
      | inr user_task ↦ rw user_task (refl, refl, refl)
    ]

-- The scheduler after the current task has woken `t` and hangs: `t` runs.
pub record HandedOver (k k' : Kernel) (t : ℕ) : Type 0 where
  pub current : k'.current ≡ t
  pub all_list : k'.all_list ≡ k.all_list
  pub status :
      (u : ℕ)
      → (k'.task u).status
        ≡ (if t == u then running else if k.current == u then hanging else (k.task u).status)

unblock_parked :
    (k : Kernel) (t : ℕ)
    → is_parked (k.task t).status ≡ true
    → unblock k t ≡ record (set_status k t ready) { ready_list = t ∷ k.ready_list }
unfolding unblock
unblock_parked k t e = rw e refl

schedule_next :
    (k : Kernel) (t : ℕ) (rest : List ℕ)
    → is_running (k.task k.current).status ≡ false
    → k.ready_list ≡ t ∷ rest
    → schedule k ≡ some (dispatch k t rest)
unfolding schedule requeue wake_idle pick
schedule_next k t rest stopped next =
    let same : requeue k ≡ k = rw stopped refl in
    let busy : wake_idle k ≡ k = ap (λ r. if list_empty r then unblock k k.idle else k) next in
    ap (λ q. pick (wake_idle q) (wake_idle q).ready_list) same
    ∙ ap (λ q. pick q q.ready_list) busy
    ∙ ap (pick k) next

block_next :
    (k : Kernel) (t : ℕ) (rest : List ℕ)
    → k.ready_list ≡ t ∷ rest
    → block k hanging ≡ some (dispatch (set_status k k.current hanging) t rest)
unfolding block
block_next k t rest next =
    let self : (k.current == k.current) ≡ true = ground arith in
    schedule_next (set_status k k.current hanging) t rest (rw self refl) next

-- The kernel once the parent is in line.
abbrev lined_up : Kernel → ℕ → Kernel
lined_up k t = record (set_status (set_status k k.current hanging) t ready) {
  ready_list = t ∷ k.ready_list;
}

pub block-HandedOver :
    (k : Kernel) (t : ℕ)
    → t ≢ k.current
    → (k.task t).status ≡ waiting
    → (k' : Kernel) × (block (unblock (set_status k k.current hanging) t) hanging ≡ some k')
      × HandedOver k k' t
block-HandedOver k t ne waits =
    let other : (k.current == t) ≡ false = ground arith in
    let parked : is_parked ((set_status k k.current hanging).task t).status ≡ true =
      rw (other, waits) refl in
    let (current, all_list, task) =
      dispatch_fields (set_status (lined_up k t) k.current hanging) t k.ready_list in
    (
      dispatch (set_status (lined_up k t) k.current hanging) t k.ready_list,
      ap (λ q. block q hanging) (unblock_parked (set_status k k.current hanging) t parked)
          ∙ block_next (lined_up k t) t k.ready_list refl,
      record {
        current = current;
        all_list = all_list;
        status = λ u. ap (λ (f : ℕ → Task). (f u).status) task ∙ ground arith;
      },
    )

-- A task that leaves for good leaves the list of live tasks.
pub all_list-retire : (k : Kernel) (t : ℕ) → (retire k t).all_list ≡ erase t k.all_list
unfolding retire
all_list-retire k t = refl
