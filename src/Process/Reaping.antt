-- ===== src/Process/Reaping.antt =====
-- `sys_exit` of a process in kernel/src/process.c, and the `sys_wait` of its parent.
use a_os.Base.{
  ℕ, ◌≡◌, ◌≢◌, ◌⊎◌, refl, sym, ap, ◌∙◌, Bool, true, false, Option, none, some, List, [], ◌∷◌, ◌==◌,
  if◌then◌else◌, arith, Bool-cases, inl, inr,
}
use a_os.LinkedList.Shape.{◌∈◌}
use a_os.Pid.{PidPool, pid_release}
use a_os.Thread.{TaskStatus, running, waiting, hanging, Kernel, set_status, unblock, retire, erase}
use a_os.Thread.Handing.{HandedOver, block-HandedOver, all_list-retire}
use a_os.Process.{
  Ids, Processes, set_ids, is_hanging, look, hangs, on_look, process_exit, Waited, reaped, sys_wait,
  adopted, exit_loop, wake_parent, sys_exit,
}

-- What the loop of `sys_exit` leaves of the identifiers: all but the parents of other tasks.
record Kept (child : ℕ) (ids ids' : ℕ → Ids) : Type 0 where
  pid : (u : ℕ) → (ids' u).pid ≡ (ids u).pid
  exit_code : (u : ℕ) → (ids' u).exit_code ≡ (ids u).exit_code
  ppid : (ids' child).ppid ≡ (ids child).ppid

Kept-adopted :
    (pid_init child : ℕ) (ids ids' : ℕ → Ids) (t : ℕ)
    → (ids child).ppid ≢ (ids child).pid
    → Kept child ids ids'
    → Kept child ids (adopted pid_init child ids' t)
Kept-adopted pid_init child ids ids' t own k =
    elim (Bool-cases ((ids' t).ppid == (ids' child).pid)) [
      | inr other ↦ rw other k
      | inl adopts ↦ rw adopts (record {
        pid = λ u. ground (arith, k.pid u, k.pid t);
        exit_code = λ u. ground (arith, k.exit_code u, k.exit_code t);
        ppid = ground (arith, k.ppid, k.pid child);
      })
    ]

∈-here : (u : ℕ) (ts : List ℕ) → u ∈ u ∷ ts
∈-here u ts = ground arith

∈-later : (w u : ℕ) (ts : List ℕ) → w ∈ ts → w ∈ u ∷ ts
∈-later w u ts i = ground (arith, i)

still :
    (parent : Option ℕ) (t u : ℕ) (ts : List ℕ)
    → u ≢ t
    → (parent ≡ some t) ⊎ (t ∈ u ∷ ts)
    → (parent ≡ some t) ⊎ (t ∈ ts)
still parent t u ts ne (inl e) = inl e
still parent t u ts ne (inr i) = let other : (u == t) ≡ false = ground arith in inr (rw other at i)

-- The walk finds the parent when one live task, and no other, has its identifier.
exit_loop-parent :
    (pid_init child t : ℕ) (ids ids' : ℕ → Ids) (parent : Option ℕ) (ts : List ℕ)
    → (ids child).ppid ≢ (ids child).pid
    → (ids t).pid ≡ (ids child).ppid
    → ((u : ℕ) → u ∈ ts → (ids u).pid ≡ (ids child).ppid → u ≡ t)
    → (parent ≡ some t) ⊎ (t ∈ ts)
    → Kept child ids ids'
    → (ids'' : ℕ → Ids) × (exit_loop pid_init child ids' parent ts ≡ (ids'', some t))
      × Kept child ids ids''
unfolding exit_loop
exit_loop-parent pid_init child t ids ids' parent [] own is only (inl e) k =
    (ids', ap (λ (o : Option ℕ). (ids', o)) e, k)
exit_loop-parent pid_init child t ids ids' parent [] own is only (inr i) k = cc
exit_loop-parent pid_init child t ids ids' parent (u ∷ ts) own is only found k =
    let ids1 = adopted pid_init child ids' u in
    let k1 = Kept-adopted pid_init child ids ids' u own k in
    let only' : (w : ℕ) → w ∈ ts → (ids w).pid ≡ (ids child).ppid → w ≡ t =
      λ w i. only w (∈-later w u ts i) in
    elim (Bool-cases ((ids1 u).pid == (ids1 child).ppid)) [
      | inl hit ↦
          let is_parent : (ids u).pid ≡ (ids child).ppid = ground (arith, k1.pid u, k1.ppid) in
          rw hit (
            exit_loop-parent pid_init child t ids ids1 (some u) ts own is only'
              (inl (ap some (only u (∈-here u ts) is_parent))) k1)
      | inr miss ↦
          let other : (ids u).pid ≢ (ids child).ppid = ground (arith, k1.pid u, k1.ppid) in
          rw miss (
            exit_loop-parent pid_init child t ids ids1 parent ts own is only'
              (still parent t u ts (λ e. other (ap (λ w. (ids w).pid) e ∙ is)) found) k1)
    ]

-- The first child that hangs.
look-hangs :
    (p : Processes) (pid c : ℕ) (has_child : Bool) (ts : List ℕ)
    → c ∈ ts
    → ((u : ℕ) → u ∈ ts → u ≢ c → is_hanging (p.kernel.task u).status ≡ false)
    → (p.ids c).ppid ≡ pid
    → is_hanging (p.kernel.task c).status ≡ true
    → look p pid has_child ts ≡ hangs c
unfolding look
look-hangs p pid c has_child [] i others mine hung = cc
look-hangs p pid c has_child (u ∷ ts) i others mine hung =
    let others' : (w : ℕ) → w ∈ ts → w ≢ c → is_hanging (p.kernel.task w).status ≡ false =
      λ w j. others w (∈-later w u ts j) in
    elim (Bool-cases (u == c)) [
      | inl here ↦
          let same : u ≡ c = ground arith in
          let child : ((p.ids c).ppid == pid) ≡ true = ground arith in rw (same, child, hung) refl
      | inr before ↦
          let later : c ∈ ts = rw before at i in
          let asleep = others u (∈-here u ts) (ground arith) in
          let next = look-hangs p pid c has_child ts later others' mine hung in
          let next_child = look-hangs p pid c true ts later others' mine hung in
          rw (asleep, next, next_child) (ground arith)
    ]

-- The states of a child that exits while its parent `t` waits for it.
pub record Exits (p : Processes) (t : ℕ) : Type 0 where
  pub live : p.kernel.current ∈ p.kernel.all_list
  pub parent_live : t ∈ p.kernel.all_list
  pub other : t ≢ p.kernel.current
  pub own : (p.ids p.kernel.current).ppid ≢ (p.ids p.kernel.current).pid
  pub is_parent : (p.ids t).pid ≡ (p.ids p.kernel.current).ppid
  pub only : (u : ℕ) → u ∈ p.kernel.all_list → (p.ids u).pid ≡ (p.ids p.kernel.current).ppid → u ≡ t
  pub waits : (p.kernel.task t).status ≡ waiting
  pub none_hangs : (u : ℕ) → u ∈ p.kernel.all_list → is_hanging (p.kernel.task u).status ≡ false

-- The identifiers with the exit code of the current task.
abbrev coded : Processes → (exit_code : ℕ) → ℕ → Ids
coded p exit_code =
    let c = p.kernel.current in set_ids p.ids c (record (p.ids c) { exit_code = exit_code })

coded_pid : (p : Processes) (exit_code u : ℕ) → (coded p exit_code u).pid ≡ (p.ids u).pid
coded_pid p exit_code u = ground arith

coded_ppid : (p : Processes) (exit_code u : ℕ) → (coded p exit_code u).ppid ≡ (p.ids u).ppid
coded_ppid p exit_code u = ground arith

coded_code :
    (p : Processes) (exit_code : ℕ) → (coded p exit_code p.kernel.current).exit_code ≡ exit_code
coded_code p exit_code = ground arith

wake_waiting :
    (k : Kernel) (t : ℕ)
    → (k.task t).status ≡ waiting
    → wake_parent k t ≡ unblock (set_status k k.current hanging) t
unfolding wake_parent
wake_waiting k t e = rw e refl

record Exited (p p' : Processes) (t exit_code : ℕ) : Type 0 where
  handed : HandedOver p.kernel p'.kernel t
  pids : p'.pids ≡ p.pids
  kept : Kept p.kernel.current (coded p exit_code) p'.ids

sys_exit-Exited :
    (p : Processes) (t exit_code : ℕ)
    → Exits p t
    → (p' : Processes) × (sys_exit p exit_code ≡ some p') × Exited p p' t exit_code
unfolding sys_exit
sys_exit-Exited p t exit_code x =
    let c = p.kernel.current in
    let (ids', found, kept) =
      exit_loop-parent p.pid_init c t (coded p exit_code) (coded p exit_code) none p.kernel.all_list
        (λ e. x.own (sym (coded_ppid p exit_code c) ∙ e ∙ coded_pid p exit_code c))
        (coded_pid p exit_code t ∙ x.is_parent ∙ sym (coded_ppid p exit_code c))
        (λ u i e. x.only u i (sym (coded_pid p exit_code u) ∙ e ∙ coded_ppid p exit_code c))
        (inr x.parent_live) (record { pid = λ u. refl; exit_code = λ u. refl; ppid = refl }) in
    let (k', blocks, handed) = block-HandedOver p.kernel t x.other x.waits in
    (
      record p { kernel = k'; ids = ids' },
      rw (found, wake_waiting p.kernel t x.waits, blocks) refl,
      record { handed = handed; pids = refl; kept = kept },
    )

reap :
    (p : Processes) (c : ℕ) (pids : PidPool)
    → pid_release p.pids (p.ids c).pid ≡ some pids
    → on_look p (hangs c)
      ≡ some (
        reaped (p.ids c).pid (p.ids c).exit_code,
        record p { pids = pids; kernel = retire p.kernel c },
      )
unfolding on_look process_exit
reap p c pids e = rw e refl

-- The states after `sys_exit`: no task but the child hangs.
abbrev after_exit : Processes → (t u : ℕ) → TaskStatus
after_exit p t u =
    if t == u then running else if p.kernel.current == u then hanging else (p.kernel.task u).status

asleep :
    (p : Processes) (t u : ℕ)
    → Exits p t
    → u ∈ p.kernel.all_list
    → u ≢ p.kernel.current
    → is_hanging (after_exit p t u) ≡ false
asleep p t u x i ne = let calm = x.none_hangs u i in ground arith

hung : (p : Processes) (t : ℕ) → Exits p t → is_hanging (after_exit p t p.kernel.current) ≡ true
hung p t x = let other = x.other in ground arith

-- When the current task exits while its parent waits for it, both are live, the parent is the only
-- live task with its identifier, the task is not its own parent, and no live task hangs, `sys_exit`
-- succeeds and the parent runs; the round of `sys_wait` that it then starts returns the task's
-- identifier and its exit code, if the identifier can be given back, and takes the task off the
-- list of live tasks.
pub exit-wait :
    (p : Processes) (t exit_code : ℕ) (pids : PidPool)
    → Exits p t
    → pid_release p.pids (p.ids p.kernel.current).pid ≡ some pids
    → (p' : Processes) × (p'' : Processes) × (sys_exit p exit_code ≡ some p')
      × (p'.kernel.current ≡ t)
      × (sys_wait p' ≡ some (reaped (p.ids p.kernel.current).pid exit_code, p''))
      × (p''.kernel.all_list ≡ erase p.kernel.current p.kernel.all_list)
      × (p''.pids ≡ pids)
unfolding sys_wait
exit-wait p t exit_code pids x freed =
    let c = p.kernel.current in
    let (p', e, d) = sys_exit-Exited p t exit_code x in
    let found : look p' (p'.ids p'.kernel.current).pid false p'.kernel.all_list ≡ hangs c =
      look-hangs p' (p'.ids p'.kernel.current).pid c false p'.kernel.all_list
        (rw d.handed.all_list x.live)
        (λ u i ne.
          ap is_hanging (d.handed.status u) ∙ asleep p t u x (rw d.handed.all_list at i) ne)
        (d.kept.ppid
          ∙ coded_ppid p exit_code c
          ∙ sym x.is_parent
          ∙ sym (coded_pid p exit_code t)
          ∙ sym (d.kept.pid t)
          ∙ ap (λ u. (p'.ids u).pid) (sym d.handed.current))
        (ap is_hanging (d.handed.status c) ∙ hung p t x) in
    let number : (p'.ids c).pid ≡ (p.ids c).pid = d.kept.pid c ∙ coded_pid p exit_code c in
    let code : (p'.ids c).exit_code ≡ exit_code = d.kept.exit_code c ∙ coded_code p exit_code in
    let freed' : pid_release p'.pids (p'.ids c).pid ≡ some pids =
      ap (λ q. pid_release q (p'.ids c).pid) d.pids ∙ ap (pid_release p.pids) number ∙ freed in
    (
      p',
      record p' { pids = pids; kernel = retire p'.kernel c },
      e,
      d.handed.current,
      ap (on_look p') found
          ∙ reap p' c pids freed'
          ∙ ap (λ (r : Waited). some (r, record p' { pids = pids; kernel = retire p'.kernel c }))
              (ap (λ n. reaped n (p'.ids c).exit_code) number ∙ ap (reaped (p.ids c).pid) code),
      all_list-retire p'.kernel c ∙ ap (erase c) d.handed.all_list,
      refl,
    )
