-- ===== src/Thread/Sleeping.antt =====
-- `schedule` of kernel/src/sched.c, seen by a task that sleeps: it does not wake one.
use a_os.Base.{ℕ, ◌≡◌, ◌≢◌, refl, sym, ap, ◌∙◌, true, false, some, List, [], ◌∷◌, ◌==◌, arith}
use mathlib.Core.Path.{subst}
use a_os.LinkedList.Shape.{has, ◌∈◌}
use a_os.Thread.{
  blocked, Kernel, is_parked, set_status, unblock, wake_idle, pick, dispatch, schedule, block,
}
use a_os.Thread.Inv.{status, IsValid, Stopped, requeue-Stopped', wake_idle-Stopped}
use a_os.Thread.Steps.{parked-Stopped}
use a_os.Thread.Handing.{dispatch_fields}

wake_idle_other : (k : Kernel) (u : ℕ) → u ≢ k.idle → status (wake_idle k) u ≡ status k u
unfolding wake_idle unblock
wake_idle_other k u ne = ground arith

wake_idle_live : (k : Kernel) → (wake_idle k).all_list ≡ k.all_list
unfolding wake_idle unblock
wake_idle_live k = ground arith

-- A task off the ready list is not picked.
pick_other :
    (k k' : Kernel) (u : ℕ) (ts : List ℕ)
    → has u ts ≡ false
    → pick k ts ≡ some k'
    → status k' u ≡ status k u
unfolding pick
pick_other k k' u [] out e = cc
pick_other k k' u (t ∷ ts) out e =
    let differ : (t == u) ≡ false = ground arith in
    let fields = dispatch_fields k t ts in
    let same : dispatch k t ts ≡ k' = cc (e) in
    rw (← same) (ap (λ task. (task u).status) fields.2 ∙ rw differ refl)

schedule_asleep :
    (k k' : Kernel) (u : ℕ)
    → Stopped k
    → u ∈ k.all_list
    → is_parked (status k u) ≡ true
    → u ≢ k.idle
    → schedule k ≡ some k'
    → status k' u ≡ status k u
unfolding schedule
schedule_asleep k k' u s live parked other e =
    let q = wake_idle k in
    let s' = wake_idle-Stopped k s in
    let kept : status q u ≡ status k u = wake_idle_other k u other in
    let live' : u ∈ q.all_list = subst (λ l. u ∈ l) (sym (wake_idle_live k)) live in
    let out : has u q.ready_list ≡ false = ground (arith, s'.queue.exact u live', kept, parked) in
    let picked : pick q q.ready_list ≡ some k' =
      sym (ap (λ r. pick (wake_idle r) (wake_idle r).ready_list) (requeue-Stopped' k s)) ∙ e in
    pick_other q k' u q.ready_list out picked ∙ kept

-- A task that blocks is blocked when another one runs.
pub block_asleep :
    (k k' : Kernel)
    → IsValid k
    → k.current ≢ k.idle
    → block k blocked ≡ some k'
    → status k' k.current ≡ blocked
unfolding block
block_asleep k k' v other e =
    let stopped = parked-Stopped k blocked v refl in
    let parked : status (set_status k k.current blocked) k.current ≡ blocked = ground arith in
    schedule_asleep (set_status k k.current blocked) k' k.current stopped v.current_in
      (ap is_parked parked) other e
    ∙ parked
