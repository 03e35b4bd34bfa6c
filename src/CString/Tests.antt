-- ===== src/CString/Tests.antt =====
-- A memory with two short strings for the theorems on lib/src/string.c.
use a_os.Base.{ℕ, ◌≡◌, refl, some, List, [], ◌∷◌, inr, arith}
use a_os.CString.{Memory, store, strcpy}
use a_os.CString.Text.{IsString, Copies, strcpy-Copies}

-- "hi" at 100 and "a" at 200.
abbrev words : Memory
words = store (store (store (λ _. 0) 100 104) 101 105) 200 97

abbrev hi : List ℕ
hi = 104 ∷ 105 ∷ []

abbrev letter : List ℕ
letter = 97 ∷ []

hi-IsString : IsString words 100 hi
hi-IsString = (refl, λ e. absurd (omega (arith, e)), (refl, λ e. absurd (omega (arith, e)), refl))

letter-IsString : IsString words 200 letter
letter-IsString = (refl, λ e. absurd (omega (arith, e)), refl)

strcpy-Copies_example :
    (m' : Memory) × (strcpy 3 words 300 100 ≡ some (300, m')) × Copies words 300 hi m'
strcpy-Copies_example =
    strcpy-Copies 3 words 300 100 hi hi-IsString (omega arith) (omega arith) (omega arith)
      (inr (omega arith))
