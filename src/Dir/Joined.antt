-- ===== src/Dir/Joined.antt =====
-- Paths that are built from names, and taken apart again.
use mathlib.Core.List.{append_assoc, append-nil}
use a_os.Base.{
  ℕ, zero, suc, ◌+◌, ◌≤◌, ◌<◌, ◌≡◌, ◌≢◌, refl, sym, ap, ◌∙◌, true, false, some, List, [], ◌∷◌, ◌++◌,
  leb, ltb, ◌==◌, length, length-append, arith, Bool-cases, inl, inr,
}
use a_os.Dir.Path.{slash, fills_block, cut, in_row, split_loop, dir_split_path, build_path}
use a_os.Dir.Cwd.{cwd_text}

-- No byte of the name is a slash.
abbrev NoSlash : List ℕ → Type 0
NoSlash [] = Unit {0}
NoSlash (c ∷ cs) = (c ≢ slash) × NoSlash cs

-- Names without a slash that fit their rows.
abbrev pub Names : List (List ℕ) → Type 0
Names [] = Unit {0}
Names (name ∷ names) = NoSlash name × (length name < 16) × Names names

-- Each name with a slash behind it.
abbrev pub joined : List (List ℕ) → List ℕ
joined [] = []
joined (name ∷ names) = name ++ slash ∷ joined names

cut-name : (name rest : List ℕ) → NoSlash name → cut (name ++ slash ∷ rest) ≡ (name, some rest)
unfolding cut
cut-name [] rest _ = refl
cut-name (c ∷ name) rest (ne, h) =
    let other : (c == slash) ≡ false = ground arith in rw (cut-name name rest h, other) refl

no_slash_left : {before rest : List ℕ} → cut [] ≡ (before, some rest) → ⊥
unfolding cut
no_slash_left e = cc (ap (λ p. p.1) e)

fits_row : (name : List ℕ) → length name < 16 → in_row name ≡ some name
unfolding in_row
fits_row name fit = ground arith

-- A round of the loop that finds a slash.
split_round :
    (fuel : ℕ) (buf : List ℕ) (names : List (List ℕ)) (before rest : List ℕ)
    → cut buf ≡ (before, some rest)
    → length before < 16
    → length names < 16
    → split_loop (suc fuel) buf names ≡ split_loop fuel rest (names ++ before ∷ [])
unfolding split_loop
split_round fuel [] names before rest e fit room = absurd (no_slash_left e)
split_round fuel (c ∷ cs) names before rest e fit room =
    let deep : ltb 16 (length names) ≡ false = ground arith in
    let last : (length names == 16) ≡ false = ground arith in
    rw (deep, last, e, fits_row before fit) refl

split_loop-joined :
    (fuel : ℕ) (done names : List (List ℕ))
    → Names names
    → length done + length names ≤ 16
    → length (joined names) < fuel
    → split_loop fuel (joined names) done ≡ some (some (done ++ names))
split_loop-joined zero done names ok room enough = absurd (omega arith)
split_loop-joined (suc fuel) done [] ok room enough = unfold split_loop in rw (append-nil done) refl
split_loop-joined (suc fuel) done (name ∷ names) (plain, fit, ok) room enough =
    let shorter : length (joined names) < fuel =
      omega (arith, length-append name (slash ∷ joined names)) in
    let longer : length (done ++ name ∷ []) + length names ≤ 16 =
      omega (arith, length-append done (name ∷ [])) in
    split_round fuel (name ++ slash ∷ joined names) done name (joined names)
      (cut-name name (joined names) plain) fit (omega arith)
    ∙ split_loop-joined fuel (done ++ name ∷ []) names ok longer shorter
    ∙ ap (λ t. some (some t)) (append_assoc done (name ∷ []) names)

-- What `sys_getcwd` writes when everything fits.
pub build_path-joined :
    (names : List (List ℕ)) (text p : List ℕ) (size : ℕ)
    → build_path text names size ≡ (true, p)
    → p ≡ text ++ joined names
unfolding build_path
build_path-joined [] text p size e = sym (ap (λ r. r.1) e) ∙ sym (append-nil text)
build_path-joined (name ∷ names) text p size e =
    elim (Bool-cases (leb size (length text + length name + 1))) [
      | inl over ↦ cc (ap (λ r. r.0) (rw over at e))
      | inr fits ↦
          build_path-joined names (text ++ (name ++ slash ∷ [])) p size (rw fits at e)
          ∙ append_assoc text (name ++ slash ∷ []) (joined names)
          ∙ ap (λ t. text ++ t) (append_assoc name (slash ∷ []) (joined names))
    ]

-- When `sys_getcwd` completes the path of at most 16 names that have no slash and fewer than 16
-- bytes each, and the path does not fill a block of memory exactly, `dir_split_path` of the path
-- answers those names.
pub split-build :
    (names : List (List ℕ)) (size : ℕ) (path : List ℕ)
    → Names names
    → length names ≤ 16
    → cwd_text size (some names) ≡ (true, path)
    → fills_block (length path) ≡ false
    → dir_split_path path ≡ some (some names)
unfolding dir_split_path cwd_text
split-build names size path ok few e whole =
    let text : path ≡ slash ∷ joined names = build_path-joined names (slash ∷ []) path size e in
    let whole' : fills_block (suc (length (joined names))) ≡ false =
      sym (ap (λ p. fills_block (length p)) text) ∙ whole in
    rw (text, whole')
      (split_loop-joined (suc (length (joined names))) [] names ok (omega arith) (omega arith))
