-- ===== src/Dir/Climbing.antt =====
-- What `sys_getcwd` answers.
use mathlib.Core.List.{append_assoc, append-nil}
use a_os.Base.{
  ℕ, zero, suc, ◌+◌, ◌≤◌, ◌<◌, ◌≡◌, ◌≢◌, refl, sym, ap, ◌∙◌, true, false, some, List, [], ◌∷◌, ◌++◌,
  ◌==◌, leb, ltb, length, length-append, arith, Bool-cases, inl, inr,
}
use a_os.Dir.{FileSystem}
use a_os.Dir.Path.{slash, build_path}
use a_os.Dir.Cwd.{dir_get_name, dir_get_parent, climb, cwd_text, sys_getcwd}
use a_os.Dir.Joined.{joined}

-- The way from a directory up to the root directory, each name as its parent has it: the names from
-- the root directory down.
pub data Up : FileSystem → (i_no : ℕ) → List (List ℕ) → FileSystem → Type 0 where
  at_root : (fs : FileSystem) → Up fs 0 [] fs
  above :
      (fs fs1 fs2 fs' : FileSystem) (i_no i_parent : ℕ) (name : List ℕ) (names : List (List ℕ))
      → (i_no ≢ 0)
      → (dir_get_parent fs i_no ≡ some (i_parent, fs1))
      → (dir_get_name fs1 i_parent i_no ≡ some (some name, fs2))
      → Up fs2 i_parent names fs'
      → Up fs i_no (names ++ name ∷ []) fs'

climb-root :
    (rows : ℕ) (fs : FileSystem) (done : List (List ℕ))
    → climb rows fs 0 done ≡ some (some done, fs)
unfolding climb
climb-root zero fs done = refl
climb-root (suc rows) fs done = refl

climb-above :
    (rows : ℕ) (fs fs1 fs2 : FileSystem) (i_no i_parent : ℕ) (name : List ℕ) (done : List (List ℕ))
    → i_no ≢ 0
    → dir_get_parent fs i_no ≡ some (i_parent, fs1)
    → dir_get_name fs1 i_parent i_no ≡ some (some name, fs2)
    → climb (suc rows) fs i_no done ≡ climb rows fs2 i_parent (name ∷ done)
unfolding climb
climb-above rows fs fs1 fs2 i_no i_parent name done inner parent named =
    let other : (i_no == 0) ≡ false = ground arith in rw (other, parent, named) refl

climb-Up :
    (rows : ℕ) (fs : FileSystem) (i_no : ℕ) (names done : List (List ℕ)) (fs' : FileSystem)
    → Up fs i_no names fs'
    → length names ≤ rows
    → climb rows fs i_no done ≡ some (some (names ++ done), fs')
climb-Up rows _ _ _ done _ (at_root fs) room = climb-root rows fs done
climb-Up zero _ _ _ done _ (above fs fs1 fs2 fs' i_no i_parent name names inner parent named up)
      room =
    absurd (omega (arith, length-append names (name ∷ [])))
climb-Up (suc rows) _ _ _ done _
      (above fs fs1 fs2 fs' i_no i_parent name names inner parent named up) room =
    climb-above rows fs fs1 fs2 i_no i_parent name done inner parent named
    ∙ climb-Up rows fs2 i_parent names (name ∷ done) fs' up
        (omega (arith, length-append names (name ∷ [])))
    ∙ ap (λ l. some (some l, fs')) (sym (append_assoc names (name ∷ []) done))

-- The loop that writes the names: it succeeds when the whole path and its terminating byte fit.
build_path-fits :
    (names : List (List ℕ)) (text : List ℕ) (size : ℕ)
    → length text < size
    → (p : List ℕ) × (build_path text names size ≡ (ltb (length (text ++ joined names)) size, p))
      × (length p < size)
      × (length (text ++ joined names) < size → p ≡ text ++ joined names)
unfolding build_path
build_path-fits [] text size room =
    let whole : text ++ [] ≡ text = append-nil text in
    let fits : ltb (length text) size ≡ true = ground arith in
    (text, rw (whole, fits) refl, room, λ lt. sym whole)
build_path-fits (name ∷ names) text size room =
    let next = text ++ (name ++ slash ∷ []) in
    let whole : next ++ joined names ≡ text ++ joined (name ∷ names) =
      append_assoc text (name ++ slash ∷ []) (joined names)
      ∙ ap (λ t. text ++ t) (append_assoc name (slash ∷ []) (joined names)) in
    let long1 = length-append text (joined (name ∷ names)) in
    let long2 = length-append name (slash ∷ joined names) in
    elim (Bool-cases (leb size (length text + length name + 1))) [
      | inl over ↦
          let misfit : ltb (length (text ++ joined (name ∷ names))) size ≡ false =
            ground (arith, over, long1, long2) in
          (text, rw (over, misfit) refl, room, λ lt. absurd (ground (arith, lt, misfit)))
      | inr more ↦
          let shorter : length next < size = ground (
            arith,
            more,
            length-append text (name ++ slash ∷ []),
            length-append name (slash ∷ []),
          ) in
          let (p, built, inside, same) = build_path-fits names next size shorter in
          (
            p,
            rw more (built ∙ ap (λ (t : List ℕ). (ltb (length t) size, p)) whole),
            inside,
            λ lt. same (rw whole lt) ∙ whole,
          )
    ]

-- When the way from the current directory up to the root directory, by the parents and the names
-- that `dir_get_parent` and `dir_get_name` answer, has at most 16 names, the rows of the table that
-- the code does not check, `sys_getcwd` with a buffer of more than one byte answers; it succeeds
-- exactly when a slash and each name from the root directory down with a slash behind it, and a
-- terminating byte, fit the buffer, and then writes that path; what it writes always fits with its
-- terminating byte.
pub sys_getcwd-Up :
    (fs fs' : FileSystem) (cwd size : ℕ) (names : List (List ℕ))
    → 1 < size
    → Up fs cwd names fs'
    → length names ≤ 16
    → (p : List ℕ) × (sys_getcwd fs cwd size
        ≡ some ((ltb (length (slash ∷ joined names)) size, p), fs'))
      × (length p < size)
      × (length (slash ∷ joined names) < size → p ≡ slash ∷ joined names)
unfolding sys_getcwd cwd_text
sys_getcwd-Up fs fs' cwd size names room up few =
    let climbed : climb 16 fs cwd [] ≡ some (some names, fs') =
      climb-Up 16 fs cwd names [] fs' up few ∙ ap (λ l. some (some l, fs')) (append-nil names) in
    let (p, built, inside, same) = build_path-fits names (slash ∷ []) size room in
    (p, rw (climbed, built) refl, inside, same)
