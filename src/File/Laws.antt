-- ===== src/File/Laws.antt =====
-- `sys_open` and `sys_close`, and the life of a pipe's entry.
use a_os.Base.{
  ℕ, ◌%◌, ◌<◌, ◌≡◌, refl, sym, ap, ◌∙◌, true, false, none, some, List, ltb, ◌==◌, length, get_or,
  get_or-set_self, get_or-set_ne, set, set-set, set_same, arith, Bool-cases, inl, inr,
}
use a_os.Base.Words.{sub32}
use a_os.File.{
  Handle, File, Files, empty_file, file_at, put_file, no_fd, is_null, has_flag, o_pipe, free_entry,
  free_task_fd, fd_release, task_install, task_uninstall, install_on, open_inode, Closing, fd_of,
  close_pipe, close_file, sys_close,
}
use a_os.File.Table.{
  IsValid, FdOutcome, fd_acquire-FdOutcome, InstallOutcome, task_install-InstallOutcome,
}

pub null_handle : (h : Handle) → is_null h ≡ true → h ≡ Handle.null
null_handle Handle.null e = refl
null_handle (Handle.inode n) e = absurd (ground (arith, e))
null_handle (Handle.ioq q) e = absurd (ground (arith, e))

-- A close, once the descriptor's entry is known.
pub close_step :
    (size : ℕ) (s : Files) (t fd : ℕ)
    → get_or s.open_fd t no_fd ≡ fd
    → fd < size
    → sys_close size s t ≡ some ((close_file s fd).0, task_uninstall (close_file s fd).1 t)
unfolding sys_close fd_of
close_step size s t fd e lt = let inside : ltb fd size ≡ true = ground arith in rw (e, inside) refl

close_file-file :
    (s : Files) (fd : ℕ) (f : File)
    → file_at s fd ≡ f
    → has_flag f.flag o_pipe ≡ false
    → close_file s fd
      ≡ (Closing.inode_close f.inode, put_file s fd (record f { inode = Handle.null }))
unfolding close_file fd_release
close_file-file s fd f e plain = rw (e, plain) refl

pub close_file-more :
    (s : Files) (fd : ℕ) (f : File)
    → file_at s fd ≡ f
    → has_flag f.flag o_pipe ≡ true
    → (sub32 f.pos 1 == 0) ≡ false
    → close_file s fd ≡ (Closing.nothing, put_file s fd (record f { pos = sub32 f.pos 1 }))
unfolding close_file close_pipe
close_file-more s fd f e pipe more = rw (e, pipe, more) refl

-- A descriptor `t` of the task that stands for the entry `fd`, both free in `s`.
record Opened (size : ℕ) (s : Files) (t fd : ℕ) : Type 0 where
  fd_inside : fd < size
  fd_free : free_entry s fd ≡ true
  t_inside : t < 32
  t_free : free_task_fd s t ≡ true

open_inode-Opened :
    (size : ℕ) (s s' : Files) (h : Handle) (flag t : ℕ)
    → IsValid size s
    → open_inode size s h flag ≡ (some t, s')
    → (fd : ℕ) × Opened size s t fd
      × (s' ≡ record {
        fd_table = set s.fd_table fd (record { inode = h; pos = 0; flag = flag % 256 });
        open_fd = set s.open_fd t fd;
      })
unfolding open_inode install_on
open_inode-Opened size s s' h flag t v e = elim (fd_acquire-FdOutcome size s h flag v) [
  | FdOutcome.full busy a ↦ absurd (ground (arith, a, e))
  | FdOutcome.taken fd f a ↦
      let w = put_file s fd (record { inode = h; pos = 0; flag = flag % 256 }) in
      let step : open_inode size s h flag ≡ task_install w fd = rw a refl in
      elim (task_install-InstallOutcome w fd) [
        | InstallOutcome.full busy b ↦
            let answer : none ≡ some t = ap (λ p. p.0) (sym b ∙ sym step ∙ e) in
            absurd (ground (arith, answer))
        | InstallOutcome.installed i g b ↦
            let answer : some i ≡ some t = ap (λ p. p.0) (sym b ∙ sym step ∙ e) in
            let same : i ≡ t = ground (arith, answer) in
            (
              fd,
              record {
                fd_inside = f.inside;
                fd_free = f.found_it;
                t_inside = omega (arith, g.inside, same);
                t_free = rw (← same) g.found_it;
              },
              sym (ap (λ p. p.1) (sym b ∙ sym step ∙ e))
                  ∙ ap (λ (j : ℕ). record w { open_fd = set s.open_fd j fd }) same,
            )
      ]
]

-- The descriptor's slot is as it was once it is set back.
pub slot_back :
    (xs : List ℕ) (t fd : ℕ) → (get_or xs t 0 == no_fd) ≡ true → set (set xs t fd) t no_fd ≡ xs
slot_back xs t fd free =
    let e : get_or xs t 0 ≡ no_fd = ground arith in set-set xs t fd no_fd ∙ set_same xs t 0 no_fd e

-- An entry that was free has no inode again, and the others are as they were.
pub entry_back :
    (s : Files) (fd j : ℕ) (f g : File)
    → fd < length s.fd_table
    → free_entry s fd ≡ true
    → g.inode ≡ Handle.null
    → (get_or (set (set s.fd_table fd f) fd g) j empty_file).inode ≡ (file_at s j).inode
entry_back s fd j f g lt free gone = rw (set-set s.fd_table fd f g) (elim (Bool-cases (fd == j)) [
  | inl hit ↦
      let e : fd ≡ j = ground arith in
      rw (← e, get_or-set_self s.fd_table fd g empty_file lt)
        (gone ∙ sym (null_handle (file_at s fd).inode free))
  | inr miss ↦ rw (get_or-set_ne s.fd_table fd j g empty_file (ground arith)) refl
])

-- With tables of their sizes and flags without O_PIPE, `sys_close` of the descriptor that
-- `sys_open` has answered for an open inode closes that inode, and leaves the task's descriptors,
-- and the inode of every entry, as they were before the call.
pub close-open_inode :
    (size : ℕ) (s s' : Files) (h : Handle) (flag t : ℕ)
    → IsValid size s
    → has_flag (flag % 256) o_pipe ≡ false
    → open_inode size s h flag ≡ (some t, s')
    → (s'' : Files) × (sys_close size s' t ≡ some (Closing.inode_close h, s''))
      × (s''.open_fd ≡ s.open_fd)
      × ((j : ℕ) → (file_at s'' j).inode ≡ (file_at s j).inode)
unfolding task_uninstall
close-open_inode size s s' h flag t v plain e =
    let (fd, o, same) = open_inode-Opened size s s' h flag t v e in
    let f : File = record { inode = h; pos = 0; flag = flag % 256 } in
    let w : Files = record { fd_table = set s.fd_table fd f; open_fd = set s.open_fd t fd } in
    let in_table : fd < length s.fd_table = omega (arith, v.table, o.fd_inside) in
    let slot : get_or w.open_fd t no_fd ≡ fd =
      get_or-set_self s.open_fd t fd no_fd (omega (arith, v.task, o.t_inside)) in
    let here : file_at w fd ≡ f = get_or-set_self s.fd_table fd f empty_file in_table in
    let closed = close_file-file w fd f here plain in
    (
      task_uninstall (put_file w fd (record f { inode = Handle.null })) t,
      ap (λ x. sys_close size x t) same
          ∙ close_step size w t fd slot o.fd_inside
          ∙ ap (λ p. some (p.0, task_uninstall p.1 t)) closed,
      slot_back s.open_fd t fd o.t_free,
      λ j. entry_back s fd j f (record f { inode = Handle.null }) in_table o.fd_free refl,
    )
