-- ===== src/File/PipeEnds.antt =====
-- The life of a pipe's entry: `sys_pipe`, and `sys_close` of its two descriptors.
use a_os.Base.{
  ℕ, ◌^◌, ◌%◌, ◌<◌, ◌≡◌, ◌≢◌, refl, sym, ap, ◌∙◌, true, Option, none, some, List, ◌==◌, length,
  length-set, get_or, get_or-set_self, get_or-set_ne, set, set-set, set_comm, arith,
}
use a_os.File.{
  Handle, File, Files, empty_file, file_at, put_file, no_fd, o_pipe, free_entry, free_task_fd,
  fd_release, task_install, task_uninstall, Closing, close_pipe, close_file, sys_close,
  install_pair, pipe_on, sys_pipe,
}
use a_os.File.Table.{
  IsValid, FdOutcome, fd_acquire-FdOutcome, InstallOutcome, task_install-InstallOutcome,
}
use a_os.File.Laws.{close_step, close_file-more, slot_back, entry_back}

-- The entry of a pipe with `n` open descriptors.
abbrev pub pipe_file : (q n : ℕ) → File
pipe_file q n = record { inode = Handle.ioq q; pos = n; flag = 128 % 256 }

module _ (size : ℕ) (s : Files) (v : IsValid size s) (q fd : ℕ) (lt : fd < size) where
  -- The entry is `f`, and the task's table is `o`.
  abbrev at : File → List ℕ → Files
  at f o = record { fd_table = set s.fd_table fd f; open_fd = o }

  at-file : (f : File) (o : List ℕ) → file_at (at f o) fd ≡ f
  at-file f o = get_or-set_self s.fd_table fd f empty_file (omega (arith, v.table, lt))

  at-put : (f g : File) (o : List ℕ) → put_file (at f o) fd g ≡ at g o
  at-put f g o =
      ap (λ (x : List File). record { fd_table = x; open_fd = o }) (set-set s.fd_table fd f g)

  -- The first of two descriptors is closed: the pipe stays.
  close_one :
      (o : List ℕ) (t : ℕ)
      → get_or o t no_fd ≡ fd
      → sys_close size (at (pipe_file q 2) o) t
        ≡ some (Closing.nothing, at (pipe_file q 1) (set o t no_fd))
  unfolding task_uninstall
  close_one o t e =
      close_step size (at (pipe_file q 2) o) t fd e lt
      ∙ ap (λ p. some (p.0, task_uninstall p.1 t))
          (close_file-more (at (pipe_file q 2) o) fd (pipe_file q 2) (at-file (pipe_file q 2) o)
              refl refl
            ∙ ap (λ x. (Closing.nothing, x)) (at-put (pipe_file q 2) (pipe_file q 1) o))

  close_file-last :
      (o : List ℕ)
      → close_file (at (pipe_file q 1) o) fd
        ≡ (Closing.ioq_deinit (Handle.ioq q), at (record (pipe_file q 0) { inode = Handle.null }) o)
  unfolding close_file close_pipe fd_release
  close_file-last o =
      let step : close_file (at (pipe_file q 1) o) fd ≡ (
        Closing.ioq_deinit (Handle.ioq q),
        fd_release (put_file (at (pipe_file q 1) o) fd (pipe_file q 0)) fd,
      ) =
        rw (at-file (pipe_file q 1) o) refl in
      step
      ∙ ap (λ x. (Closing.ioq_deinit (Handle.ioq q), fd_release x fd))
          (at-put (pipe_file q 1) (pipe_file q 0) o)
      ∙ ap
          (λ f. (
            Closing.ioq_deinit (Handle.ioq q),
            put_file (at (pipe_file q 0) o) fd (record f { inode = Handle.null }),
          ))
          (at-file (pipe_file q 0) o)
      ∙ ap (λ x. (Closing.ioq_deinit (Handle.ioq q), x))
          (at-put (pipe_file q 0) (record (pipe_file q 0) { inode = Handle.null }) o)

  -- The second is closed: the queue is given back, and the entry.
  close_two :
      (o : List ℕ) (t : ℕ)
      → get_or o t no_fd ≡ fd
      → sys_close size (at (pipe_file q 1) o) t
        ≡ some (
          Closing.ioq_deinit (Handle.ioq q),
          at (record (pipe_file q 0) { inode = Handle.null }) (set o t no_fd),
        )
  unfolding task_uninstall
  close_two o t e =
      close_step size (at (pipe_file q 1) o) t fd e lt
      ∙ ap (λ p. some (p.0, task_uninstall p.1 t)) (close_file-last o)

-- Two descriptors of a new pipe.
record Paired (size : ℕ) (s : Files) (q a b : ℕ) (s' : Files) : Type 0 where
  fd : ℕ
  fd_inside : fd < size
  fd_free : free_entry s fd ≡ true
  a_inside : a < 32
  a_free : free_task_fd s a ≡ true
  b_inside : b < 32
  b_free : free_task_fd s b ≡ true
  apart : a ≢ b
  left : s' ≡ record {
    fd_table = set s.fd_table fd (pipe_file q 2);
    open_fd = set (set s.open_fd a fd) b fd;
  }

-- The second descriptor is another one, which was free too.
second_free :
    (xs : List ℕ) (a b fd : ℕ)
    → a < length xs
    → fd < 2 ^ 31
    → (get_or (set xs a fd) b 0 == no_fd) ≡ true
    → (a ≢ b) × ((get_or xs b 0 == no_fd) ≡ true)
second_free xs a b fd lt small free =
    let ne : a ≢ b = λ e.
      let got : get_or (set xs a fd) b 0 ≡ fd = rw (← e) (get_or-set_self xs a fd 0 lt) in
      ground (arith, got, free) in
    let same = get_or-set_ne xs a b fd 0 ne in (ne, ground (arith, same, free))

install_pair-Paired :
    (size : ℕ) (s s' : Files) (q fd a b : ℕ)
    → IsValid size s
    → fd < size
    → free_entry s fd ≡ true
    → install_pair (record s { fd_table = set s.fd_table fd (pipe_file q 2) }) fd
      ≡ ((some a, some b), s')
    → Paired size s q a b s'
unfolding install_pair
install_pair-Paired size s s' q fd a b v lt free e =
    let w = record s { fd_table = set s.fd_table fd (pipe_file q 2) } in
    elim (task_install-InstallOutcome w fd) [
      | InstallOutcome.full busy i1 ↦
          let answer : none ≡ some a = ap (λ p. p.0) (sym i1) ∙ ap (λ p. p.0.0) e in
          absurd (ground (arith, answer))
      | InstallOutcome.installed x f1 i1 ↦
          let w1 = record w { open_fd = set s.open_fd x fd } in
          let first : some x ≡ some a = ap (λ p. p.0) (sym i1) ∙ ap (λ p. p.0.0) e in
          let rest : task_install w1 fd ≡ (some b, s') =
            ap (λ p. task_install p.1 fd) (sym i1) ∙ ap (λ p. (p.0.1, p.1)) e in
          elim (task_install-InstallOutcome w1 fd) [
            | InstallOutcome.full busy i2 ↦
                let answer : none ≡ some b = ap (λ p. p.0) (sym i2 ∙ rest) in
                absurd (ground (arith, answer))
            | InstallOutcome.installed y f2 i2 ↦
                let second : some y ≡ some b = ap (λ p. p.0) (sym i2 ∙ rest) in
                let xa : x ≡ a = ground (arith, first) in
                let yb : y ≡ b = ground (arith, second) in
                let other =
                  second_free s.open_fd x y fd (omega (arith, v.task, f1.inside))
                    (omega (arith, v.small, lt)) f2.found_it in
                record {
                  fd = fd;
                  fd_inside = lt;
                  fd_free = free;
                  a_inside = omega (arith, f1.inside, xa);
                  a_free = rw (← xa) f1.found_it;
                  b_inside = omega (arith, f2.inside, yb);
                  b_free = rw (← yb) other.1;
                  apart = rw (← xa, ← yb) other.0;
                  left =
                      sym (ap (λ p. p.1) (sym i2 ∙ rest))
                      ∙ ap (λ (j : ℕ). record w1 { open_fd = set (set s.open_fd x fd) j fd }) yb
                      ∙ ap (λ (j : ℕ). record w1 { open_fd = set (set s.open_fd j fd) b fd }) xa;
                }
          ]
    ]

-- The pair of an answer.
abbrev pair_or : Option (Option ℕ × Option ℕ) → Option ℕ × Option ℕ
pair_or none = (none, none)
pair_or (some p) = p

sys_pipe-Paired :
    (size : ℕ) (s s' : Files) (q a b : ℕ)
    → IsValid size s
    → sys_pipe size s q ≡ (some (some a, some b), s')
    → Paired size s q a b s'
unfolding sys_pipe pipe_on
sys_pipe-Paired size s s' q a b v e = elim (fd_acquire-FdOutcome size s (Handle.ioq q) o_pipe v) [
  | FdOutcome.full busy f ↦
      let answer : none ≡ some (some a, some b) =
        ap (λ p. (pipe_on p.0 p.1).0) (sym f) ∙ ap (λ p. p.0) e in
      absurd (ground (arith, answer))
  | FdOutcome.taken fd f g ↦
      let w = put_file s fd (pipe_file q 0) in
      let lt : fd < length s.fd_table = omega (arith, v.table, f.inside) in
      let with_two : put_file w fd (record (file_at w fd) { pos = 2 })
          ≡ record s { fd_table = set s.fd_table fd (pipe_file q 2) } =
        ap (λ (x : File). put_file w fd (record x { pos = 2 }))
          (get_or-set_self s.fd_table fd (pipe_file q 0) empty_file lt)
        ∙ ap (λ (x : List File). record s { fd_table = x })
            (set-set s.fd_table fd (pipe_file q 0) (pipe_file q 2)) in
      let step : (
        some (install_pair (record s { fd_table = set s.fd_table fd (pipe_file q 2) }) fd).0,
        (install_pair (record s { fd_table = set s.fd_table fd (pipe_file q 2) }) fd).1,
      )
          ≡ (some (some a, some b), s') =
        ap (λ x. (some (install_pair x fd).0, (install_pair x fd).1)) (sym with_two)
        ∙ ap (λ p. pipe_on p.0 p.1) (sym g)
        ∙ e in
      install_pair-Paired size s s' q fd a b v f.inside f.found_it
        (ap (λ p. (pair_or p.0, p.1)) step)
]

-- Both slots are as they were.
slots_back :
    (xs : List ℕ) (a b fd : ℕ)
    → a ≢ b
    → (get_or xs a 0 == no_fd) ≡ true
    → (get_or xs b 0 == no_fd) ≡ true
    → set (set (set (set xs a fd) b fd) a no_fd) b no_fd ≡ xs
slots_back xs a b fd ne fa fb =
    ap (λ (x : List ℕ). set x b no_fd)
      (set_comm (set xs a fd) b a fd no_fd (λ z. ne (sym z))
        ∙ ap (λ (x : List ℕ). set x b fd) (slot_back xs a fd fa))
    ∙ slot_back xs b fd fb

-- With tables of their sizes, when `sys_pipe` answers two descriptors, `sys_close` of the first
-- closes nothing else, `sys_close` of the second then gives the queue back, and after both the
-- task's descriptors are as before the call, and so is the inode of every entry.
pub pipe_closed :
    (size : ℕ) (s s' : Files) (q a b : ℕ)
    → IsValid size s
    → sys_pipe size s q ≡ (some (some a, some b), s')
    → (s1 : Files) × (s2 : Files) × (sys_close size s' a ≡ some (Closing.nothing, s1))
      × (sys_close size s1 b ≡ some (Closing.ioq_deinit (Handle.ioq q), s2))
      × (s2.open_fd ≡ s.open_fd)
      × ((j : ℕ) → (file_at s2 j).inode ≡ (file_at s j).inode)
pipe_closed size s s' q a b v e =
    let p = sys_pipe-Paired size s s' q a b v e in
    let o1 = set s.open_fd a p.fd in
    let o2 = set o1 b p.fd in
    let o3 = set o2 a no_fd in
    let task = v.task in
    let slot_a : get_or o2 a no_fd ≡ p.fd =
      get_or-set_ne o1 b a p.fd no_fd (λ z. p.apart (sym z))
      ∙ get_or-set_self s.open_fd a p.fd no_fd (omega (arith, task, p.a_inside)) in
    let slot_b : get_or o3 b no_fd ≡ p.fd =
      get_or-set_ne o2 a b no_fd no_fd p.apart
      ∙ get_or-set_self o1 b p.fd no_fd
          (omega (arith, task, p.b_inside, length-set s.open_fd a p.fd)) in
    let gone = record (pipe_file q 0) { inode = Handle.null } in
    (
      at size s v q p.fd p.fd_inside (pipe_file q 1) o3,
      at size s v q p.fd p.fd_inside gone (set o3 b no_fd),
      ap (λ x. sys_close size x a) p.left ∙ close_one size s v q p.fd p.fd_inside o2 a slot_a,
      close_two size s v q p.fd p.fd_inside o3 b slot_b,
      slots_back s.open_fd a b p.fd p.apart p.a_free p.b_free,
      λ j.
          ap (λ (x : List File). (get_or x j empty_file).inode)
            (sym (set-set s.fd_table p.fd gone gone))
          ∙ entry_back s p.fd j gone gone (omega (arith, v.table, p.fd_inside)) p.fd_free refl,
    )
