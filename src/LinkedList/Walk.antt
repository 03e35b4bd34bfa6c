-- ===== src/LinkedList/Walk.antt =====
-- The walks of list.c: `list_len`, `list_find` and `list_traversal` on a list of elements. One
-- round for each element and one for the tail is enough fuel.
use a_os.Base.{
  ℕ, zero, suc, ◌+◌, ◌^◌, ◌<◌, ◌≡◌, refl, Bool, true, false, List, [], ◌∷◌, ◌++◌, arith, ◌==◌,
  if◌then◌else◌, Bool-cases, inl, inr, ◌∙◌, ap, Option, none, some, length,
}
use a_os.Base.Words.{add32}
use a_os.LinkedList.{
  Ptr, Links, DList, list_len, len_loop, find, find_loop, traversal, traversal_loop,
}
use a_os.LinkedList.Shape.{has, Distinct, Chain, Holds}
use a_os.LinkedList.Update.{apart}

-- The first element that passes a test.
pub first : (Ptr → Bool) → List Ptr → Option Ptr
first func [] = none
first func (x ∷ xs) = if func x then some x else first func xs

module _ (h : Links) (q : Ptr) where
  not_end : (x : Ptr) (xs : List Ptr) → Distinct (x ∷ xs ++ q ∷ []) → (x == q) ≡ false
  not_end x xs d =
      let ne = apart (x ∷ xs) (q ∷ []) d x q (ground arith) (ground arith) in ground arith

  len_loop-length :
      (fuel : ℕ) (p : Ptr) (xs : List Ptr) (n : ℕ)
      → Chain h p xs q
      → Distinct (xs ++ q ∷ [])
      → length xs < fuel
      → n + length xs < 2 ^ 32
      → len_loop fuel h (h.next p) q n ≡ some (n + length xs)
  unfolding len_loop
  len_loop-length zero p xs n c d lt small = absurd (omega arith)
  len_loop-length (suc fuel) p [] n c d lt small = ground arith
  len_loop-length (suc fuel) p (x ∷ xs) n c d lt small =
      rw (c.0, not_end x xs d)
        (len_loop-length fuel x xs (add32 n 1) c.2 d.1 (omega arith) (omega arith)
          ∙ ap some (omega arith))

  find_loop-has :
      (fuel : ℕ) (p e : Ptr) (xs : List Ptr)
      → Chain h p xs q
      → Distinct (xs ++ q ∷ [])
      → length xs < fuel
      → find_loop fuel h (h.next p) q e ≡ some (has e xs)
  unfolding find_loop
  find_loop-has zero p e xs c d lt = absurd (omega arith)
  find_loop-has (suc fuel) p e [] c d lt = ground arith
  find_loop-has (suc fuel) p e (x ∷ xs) c d lt =
      rw (c.0, not_end x xs d) (ground (arith, find_loop-has fuel x e xs c.2 d.1 (omega arith)))

  traversal_loop-first :
      (fuel : ℕ) (p : Ptr) (func : Ptr → Bool) (xs : List Ptr)
      → Chain h p xs q
      → Distinct (xs ++ q ∷ [])
      → length xs < fuel
      → traversal_loop fuel h (h.next p) q func ≡ some (first func xs)
  unfolding traversal_loop first
  traversal_loop-first zero p func xs c d lt = absurd (omega arith)
  traversal_loop-first (suc fuel) p func [] c d lt = ground arith
  traversal_loop-first (suc fuel) p func (x ∷ xs) c d lt =
      rw (c.0, not_end x xs d)
        (ground (arith, traversal_loop-first fuel x func xs c.2 d.1 (omega arith)))

empty-nil :
    (h : Links) (p q : Ptr) (xs : List Ptr) (func : Ptr → Bool)
    → Chain h p xs q
    → (h.next p == q) ≡ true
    → Distinct (xs ++ q ∷ [])
    → first func xs ≡ none
unfolding first
empty-nil h p q [] func c e d = refl
empty-nil h p q (x ∷ xs) func c e d =
    let ne = apart (x ∷ xs) (q ∷ []) d x q (ground arith) (ground arith) in absurd (ground arith)

module _ (h : Links) (l : DList) (xs : List Ptr) (is : Holds h l xs) (fuel : ℕ) where
  -- On a list that holds `xs`, with more fuel than it has elements, `list_len` answers their
  -- number, `list_find` whether an element is among them, and `list_traversal` the first one that
  -- passes the test. The number of elements has to be below 2 ^ 32.
  pub walks :
      (e : Ptr) (func : Ptr → Bool)
      → length xs < fuel
      → length xs < 2 ^ 32
      → (list_len fuel h l ≡ some (length xs))
        × (find fuel h l e ≡ some (has e xs))
        × (traversal fuel h l func ≡ some (first func xs))
  unfolding list_len find traversal
  walks e func lt small =
      let d = is.distinct.1 in
      (
        len_loop-length h l.tail fuel l.head xs 0 is.chain d lt (omega arith)
            ∙ ap some (omega arith),
        find_loop-has h l.tail fuel l.head e xs is.chain d lt,
        elim (Bool-cases (h.next l.head == l.tail)) [
          | inl nil ↦ rw (nil, empty-nil h l.head l.tail xs func is.chain nil d)
          | inr cons ↦ rw cons (traversal_loop-first h l.tail fuel l.head func xs is.chain d lt)
        ],
      )
