-- ===== src/Dir/Path.antt =====
-- Paths as text: `dir_split_path`, the part of `dir_parse_path` before its search, and the text that
-- `sys_getcwd` builds.
use a_os.Base.{
  ℕ, zero, suc, ◌+◌, ◌%◌, Bool, true, false, ◌||◌, Option, none, some, List, [], ◌∷◌, ◌++◌, ltb,
  leb, ◌==◌, if◌then◌else◌, ◌>>=◌, length,
}

abbrev pub slash : ℕ
slash = 47

-- A buffer of `size` bytes that `kmalloc` answers ends where its block ends, so the byte behind it
-- belongs to another block.
unfoldable pub fills_block : (size : ℕ) → Bool
fills_block size =
    if leb size 1024
    then (size == 16)
      || (size == 32)
      || (size == 64)
      || (size == 128)
      || (size == 256)
      || (size == 512)
      || (size == 1024)
    else (size + 12) % 4096 == 0

-- `strchr(buf, '/')`: the text before the first slash, and that behind it.
unfoldable pub cut : List ℕ → List ℕ × Option (List ℕ)
cut [] = ([], none)
cut (c ∷ cs) =
    let (before, rest) = cut cs in if c == slash then ([], some cs) else (c ∷ before, rest)

-- A name and its terminating byte in an array of FILE_NAME_MAX bytes.
unfoldable pub in_row : List ℕ → Option (List ℕ)
in_row name = if ltb (length name) 16 then some name else none

-- The loop of `dir_split_path` over `buf`, with the names found so far. The outer `none` is a write
-- past the table of names, the inner one is -1.
unfoldable pub split_loop :
    ℕ → (buf : List ℕ) → (names : List (List ℕ)) → Option (Option (List (List ℕ)))
split_loop zero buf names = none
split_loop (suc fuel) [] names = some (some names)
split_loop (suc fuel) (c ∷ cs) names =
    let (before, rest) = cut (c ∷ cs) in
    let round : Option (Option (List (List ℕ))) = (do
      name ← in_row before
      elim rest [
        | none ↦ some (some (names ++ name ∷ []))
        | some buf ↦ split_loop fuel buf (names ++ name ∷ [])
      ]) in
    if ltb 16 (length names) then some none else if length names == 16 then none else round

-- `dir_split_path`: a round takes at least one byte, so the bytes of the path are fuel enough.
unfoldable pub dir_split_path : (path : List ℕ) → Option (Option (List (List ℕ)))
dir_split_path [] = some none
dir_split_path (c ∷ cs) =
    let names = split_loop (suc (length cs)) cs [] in
    let found = if fills_block (suc (length cs)) then none else names in
    if c == slash then found else some none

-- The text without a slash at its end.
unfoldable pub trim : List ℕ → List ℕ
trim [] = []
trim (c ∷ []) = if c == slash then [] else c ∷ []
trim (c ∷ d ∷ cs) = c ∷ trim (d ∷ cs)

-- `strrchr(buf, '/')`: the text before the last slash, and that behind it.
unfoldable pub rcut : List ℕ → Option (List ℕ × List ℕ)
rcut [] = none
rcut (c ∷ cs) = elim (rcut cs) [
  | some (before, rest) ↦ some (c ∷ before, rest)
  | none ↦ if c == slash then some ([], cs) else none
]

abbrev or_root : List ℕ → List ℕ
or_root [] = slash ∷ []
or_root (c ∷ cs) = c ∷ cs

-- `dir_parse_path` up to the search: the path of the parent, and `child_name`. The inner `none` is -1.
unfoldable pub parent_and_child : (path : List ℕ) → Option (Option (List ℕ × List ℕ))
parent_and_child path =
    let split : Option (Option (List ℕ × List ℕ)) = elim (rcut (trim path)) [
      | none ↦ some none
      | some (before, rest) ↦ (do child ← in_row rest; some (some (or_root before, child)))
    ] in
    if (length path == 0) || fills_block (length path) then none else split

-- The loop of `sys_getcwd` that writes the names into `buf`, and whether all fit.
unfoldable pub build_path : (text : List ℕ) → (names : List (List ℕ)) → (size : ℕ) → Bool × List ℕ
build_path text [] size = (true, text)
build_path text (name ∷ names) size =
    let rest = build_path (text ++ (name ++ slash ∷ [])) names size in
    if leb size (length text + length name + 1) then (false, text) else rest
