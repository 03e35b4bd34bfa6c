-- ===== src/CString/Text.antt =====
-- The string functions on terminated strings: length, copy, concatenation and search.
use mathlib.Core.Path.{subst}
use a_os.Base.{
  ℕ, zero, suc, ◌+◌, ◌^◌, ◌<◌, ◌≤◌, ◌≡◌, ◌≢◌, ◌⊎◌, refl, true, false, ◌==◌, if◌then◌else◌, arith,
  ◌∙◌, ap, List, [], ◌∷◌, ◌++◌, length, Option, none, some,
}
use a_os.Base.Words.{add32, sub32}
use a_os.CString.{Memory, store, end_loop, strlen, copy_loop, strcpy, strcat, char_is, strchr}
use a_os.CString.Copy.{inside}

-- From `p` on the memory holds the bytes `xs`, none of them 0, and then a 0.
abbrev pub IsString : Memory → ℕ → List ℕ → Type 0
IsString m p [] = m p ≡ 0
IsString m p (x ∷ xs) = (m p ≡ x) × (x ≢ 0) × IsString m (p + 1) xs

-- The string and its terminating byte lie below 2 ^ 32.
abbrev Fits : ℕ → List ℕ → Type 0
Fits p xs = p + length xs + 1 < 2 ^ 32

end_loop-IsString :
    (fuel : ℕ) (m : Memory) (p : ℕ) (xs : List ℕ)
    → IsString m p xs
    → length xs < fuel
    → Fits p xs
    → end_loop fuel m p ≡ some (p + length xs + 1)
unfolding end_loop
end_loop-IsString zero m p xs is lt fits = absurd (omega arith)
end_loop-IsString (suc fuel) m p [] is lt fits =
    let stop : (m p == 0) ≡ true = ground arith in rw stop (ap some (omega arith))
end_loop-IsString (suc fuel) m p (x ∷ xs) is lt fits =
    let go : (m p == 0) ≡ false = ground arith in
    let e : add32 p 1 ≡ p + 1 = omega arith in
    rw (go, e)
      (end_loop-IsString fuel m (p + 1) xs is.2 (omega arith) (omega arith) ∙ ap some (omega arith))

strlen-length :
    (fuel : ℕ) (m : Memory) (str : ℕ) (xs : List ℕ)
    → IsString m str xs
    → length xs < fuel
    → Fits str xs
    → strlen fuel m str ≡ some (length xs)
unfolding strlen
strlen-length fuel m str xs is lt fits =
    rw (end_loop-IsString fuel m str xs is lt fits, strlen) (ap some (omega arith))

-- A string stays where its bytes stay.
frame :
    (m m' : Memory) (p : ℕ) (xs : List ℕ)
    → IsString m p xs
    → ((a : ℕ) → p ≤ a → a ≤ p + length xs → m' a ≡ m a)
    → IsString m' p xs
frame m m' p [] is keep = keep p (omega arith) (omega arith) ∙ is
frame m m' p (x ∷ xs) is keep = (
  keep p (omega arith) (omega arith) ∙ is.0,
  is.1,
  frame m m' (p + 1) xs is.2 (λ a le lt. keep a (omega arith) (omega arith)),
)

-- Two stretches of memory share no byte.
abbrev Apart : (p n q k : ℕ) → Type 0
Apart p n q k = (p + n ≤ q) ⊎ (q + k ≤ p)

-- The copying loop leaves the string at its target, and every byte elsewhere as it was.
abbrev pub Copies : Memory → ℕ → List ℕ → Memory → Type 0
Copies m dst xs m' =
    IsString m' dst xs × ((a : ℕ) → inside dst (length xs + 1) a ≡ false → m' a ≡ m a)

copy_loop_step :
    (fuel : ℕ) (m : Memory) (dst src : ℕ)
    → (m src == 0) ≡ false
    → dst + 1 < 2 ^ 32
    → src + 1 < 2 ^ 32
    → copy_loop (suc fuel) m dst src ≡ copy_loop fuel (store m dst (m src)) (dst + 1) (src + 1)
unfolding copy_loop
copy_loop_step fuel m dst src go fd fs =
    let e : add32 dst 1 ≡ dst + 1 = omega arith in
    let f : add32 src 1 ≡ src + 1 = omega arith in rw (go, e, f) refl

copy_loop-Copies :
    (fuel : ℕ) (m : Memory) (dst src : ℕ) (xs : List ℕ)
    → IsString m src xs
    → length xs < fuel
    → Fits dst xs
    → Fits src xs
    → Apart dst (length xs + 1) src (length xs + 1)
    → (m' : Memory) × (copy_loop fuel m dst src ≡ some m') × Copies m dst xs m'
unfolding copy_loop
copy_loop-Copies zero m dst src xs is lt fd fs apart = absurd (omega arith)
copy_loop-Copies (suc fuel) m dst src [] is lt fd fs apart =
    let stop : (m src == 0) ≡ true = ground arith in
    (store m dst (m src), rw stop refl, (ground arith, λ a out. ground (arith, out)))
copy_loop-Copies (suc fuel) m dst src (x ∷ xs) is lt fd fs apart =
    let go : (m src == 0) ≡ false = ground arith in
    let m1 = store m dst (m src) in
    let is1 : IsString m1 (src + 1) xs = frame m m1 (src + 1) xs is.2 (λ a le lt. ground arith) in
    let (m', done, (is', keep)) =
      copy_loop-Copies fuel m1 (dst + 1) (src + 1) xs is1 (omega arith) (omega arith) (omega arith)
        (ground arith) in
    (
      m',
      copy_loop_step fuel m dst src go (omega arith) (omega arith) ∙ done,
      (
        (keep dst (ground arith) ∙ ground arith, is.1, is'),
        λ a out. keep a (ground arith) ∙ ground arith,
      ),
    )

-- With more fuel than the string has bytes, `strcpy` of a terminated string to a place apart from
-- it, both below 2 ^ 32, returns its target, leaves the string there, and changes no byte outside
-- it.
pub strcpy-Copies :
    (fuel : ℕ) (m : Memory) (dst src : ℕ) (xs : List ℕ)
    → IsString m src xs
    → length xs < fuel
    → Fits dst xs
    → Fits src xs
    → Apart dst (length xs + 1) src (length xs + 1)
    → (m' : Memory) × (strcpy fuel m dst src ≡ some (dst, m')) × Copies m dst xs m'
unfolding strcpy
strcpy-Copies fuel m dst src xs is lt fd fs apart =
    let (m', done, copies) = copy_loop-Copies fuel m dst src xs is lt fd fs apart in
    (m', rw (done, strcpy) refl, copies)

-- A string followed by another one where its terminating byte was.
joined :
    (m m' : Memory) (p : ℕ) (xs ys : List ℕ)
    → IsString m p xs
    → ((a : ℕ) → p ≤ a → a < p + length xs → m' a ≡ m a)
    → IsString m' (p + length xs) ys
    → IsString m' p (xs ++ ys)
joined m m' p [] ys is keep there =
    let e : p + 0 ≡ p = omega arith in subst (λ q. IsString m' q ys) e there
joined m m' p (x ∷ xs) ys is keep there =
    let e : p + suc (length xs) ≡ p + 1 + length xs = omega arith in
    (
      keep p (omega arith) (omega arith) ∙ is.0,
      is.1,
      joined m m' (p + 1) xs ys is.2 (λ a le lt. keep a (omega arith) (omega arith))
          (subst (λ q. IsString m' q ys) e there),
    )

strcat_steps :
    (fuel : ℕ) (m m' : Memory) (dst src p q : ℕ)
    → end_loop fuel m dst ≡ some p
    → sub32 p 1 ≡ q
    → copy_loop fuel m q src ≡ some m'
    → strcat fuel m dst src ≡ some (dst, m')
unfolding strcat
strcat_steps fuel m m' dst src p q stop back done = rw (stop, strcat) (rw back (rw done refl))

-- With more fuel than either string has bytes, `strcat` of a terminated string behind another, with
-- room for both apart from the source and below 2 ^ 32, returns its target, which then holds the
-- two strings one behind the other, and changes no byte but those from the first string's end on
-- that it writes.
pub strcat_appends :
    (fuel : ℕ) (m : Memory) (dst src : ℕ) (xs ys : List ℕ)
    → IsString m dst xs
    → IsString m src ys
    → length xs < fuel
    → length ys < fuel
    → dst + length xs + length ys + 1 < 2 ^ 32
    → Fits src ys
    → Apart dst (length xs + length ys + 1) src (length ys + 1)
    → (m' : Memory) × (strcat fuel m dst src ≡ some (dst, m'))
      × IsString m' dst (xs ++ ys)
      × ((a : ℕ) → inside (dst + length xs) (length ys + 1) a ≡ false → m' a ≡ m a)
strcat_appends fuel m dst src xs ys isx isy lx ly fd fs apart =
    let stop = end_loop-IsString fuel m dst xs isx lx (omega arith) in
    let back : sub32 (dst + length xs + 1) 1 ≡ dst + length xs = omega arith in
    let (m', done, (is', keep)) =
      copy_loop-Copies fuel m (dst + length xs) src ys isy ly (omega arith) fs (ground arith) in
    (
      m',
      strcat_steps fuel m m' dst src _ _ stop back done,
      joined m m' dst xs ys isx (λ a le lt. keep a (ground arith)) is',
      keep,
    )

-- The place of the first byte that a `char` comparison finds equal to `ch`.
pub find_char : ℕ → List ℕ → (ch : ℕ) → Option ℕ
find_char p [] ch = none
find_char p (x ∷ xs) ch =
    let rest = find_char (p + 1) xs ch in if char_is x ch then some p else rest

-- With more fuel than the string has bytes, `strchr` on a terminated string below 2 ^ 32 answers
-- the address of the first byte that equals the character as a `char`, or NULL when there is none.
pub strchr-find_char :
    (fuel : ℕ) (m : Memory) (str ch : ℕ) (xs : List ℕ)
    → IsString m str xs
    → length xs < fuel
    → Fits str xs
    → strchr fuel m str ch ≡ some (find_char str xs ch)
unfolding strchr find_char
strchr-find_char zero m str ch xs is lt fits = absurd (omega arith)
strchr-find_char (suc fuel) m str ch [] is lt fits = ground arith
strchr-find_char (suc fuel) m str ch (x ∷ xs) is lt fits =
    let go : (m str == 0) ≡ false = ground arith in
    let e : add32 str 1 ≡ str + 1 = omega arith in
    rw (go, e, is.0, strchr-find_char fuel m (str + 1) ch xs is.2 (omega arith) (omega arith))
      (ground arith)
