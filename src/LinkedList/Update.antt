-- ===== src/LinkedList/Update.antt =====
-- `list_insert` and `list_remove` on a chain.
use a_os.Base.{
  ◌≡◌, ◌≢◌, List, [], ◌∷◌, ◌++◌, arith, ◌==◌, if◌then◌else◌, Bool-cases, inl, inr, ◌∙◌, sym,
}
use a_os.LinkedList.{Ptr, Links, insert, remove}
use a_os.LinkedList.Shape.{◌∈◌, ◌∉◌, Distinct, Chain, has-append, frame, prev-mem, next-mem}

pub ne_of_mem : (a b : Ptr) (xs : List Ptr) → a ∈ xs → b ∉ xs → a ≢ b
ne_of_mem a b xs i o e = let i' : b ∈ xs = rw (← e) i in ground arith

-- What the writes of `list_remove` leave in the memory.
next-remove :
    (h : Links) (x a : Ptr)
    → h.prev x ≢ x
    → (remove h x).next a ≡ (if h.prev x == a then h.next x else h.next a)
unfolding remove
next-remove h x a ne = ground arith

prev-remove :
    (h : Links) (x a : Ptr)
    → h.prev x ≢ x
    → (remove h x).prev a ≡ (if h.next x == a then h.prev x else h.prev a)
unfolding remove
prev-remove h x a ne = ground arith

-- Only the element before the removed one has a new `next`, only the one after it a new `prev`.
pub next-remove_other :
    (h : Links) (x a : Ptr) → h.prev x ≢ x → h.prev x ≢ a → (remove h x).next a ≡ h.next a
next-remove_other h x a ne o = ground (arith, next-remove h x a ne)

pub prev-remove_other :
    (h : Links) (x a : Ptr) → h.prev x ≢ x → h.next x ≢ a → (remove h x).prev a ≡ h.prev a
prev-remove_other h x a ne o = ground (arith, prev-remove h x a ne)

pub not-mem_left : (a : Ptr) (xs ys : List Ptr) → a ∉ xs ++ ys → a ∉ xs
not-mem_left a xs ys o = ground (arith, has-append a xs ys)

not-mem_right : (a : Ptr) (xs ys : List Ptr) → a ∉ xs ++ ys → a ∉ ys
not-mem_right a xs ys o = ground (arith, has-append a xs ys)

-- The two parts of a list of distinct elements share none.
pub apart : (xs ys : List Ptr) → Distinct (xs ++ ys) → (a b : Ptr) → a ∈ xs → b ∈ ys → a ≢ b
apart [] ys d a b i j = cc
apart (x ∷ xs) ys d a b i j = elim (Bool-cases (x == a)) [
  | inl e ↦
      let e' : a ≡ x = ground arith in
      let o : a ∉ ys = rw e' (not-mem_right x xs ys d.0) in λ same. ne_of_mem b a ys j o (sym same)
  | inr ne ↦ apart xs ys d.1 a b (ground arith) j
]

module _ (h : Links) (x q : Ptr) where
  -- The part behind the removed element, joined to `p`, the element before it.
  remove-suffix :
      (p : Ptr) (ys : List Ptr)
      → h.prev x ≡ p
      → Chain h x ys q
      → Distinct (p ∷ x ∷ (ys ++ q ∷ []))
      → Chain (remove h x) p ys q
  remove-suffix p [] e c d =
      let ne : h.prev x ≢ x = ground arith in
      (ground (arith, next-remove h x p ne), ground (arith, prev-remove h x q ne))
  remove-suffix p (y ∷ ys) e c d =
      let ne : h.prev x ≢ x = ground arith in
      (
        ground (arith, next-remove h x p ne),
        ground (arith, prev-remove h x y ne),
        frame h (remove h x) y q ys c.2
            (λ a i. next-remove_other h x a ne (
              rw e (λ same.
                ne_of_mem a p (y ∷ ys) i (not-mem_left p (y ∷ ys) (q ∷ []) (ground arith))
                  (sym same))))
            (λ a i.
              prev-remove_other h x a ne
                (rw c.0 (λ same. ne_of_mem a y (ys ++ q ∷ []) i d.1.1.0 (sym same)))),
      )

  -- `list_remove` of an element of a chain leaves the chain of the others.
  pub Chain-remove :
      (p : Ptr) (xs ys : List Ptr)
      → Chain h p xs x
      → Chain h x ys q
      → Distinct (p ∷ xs ++ x ∷ (ys ++ q ∷ []))
      → Chain (remove h x) p (xs ++ ys) q
  Chain-remove p [] ys c c' d = remove-suffix p ys c.1 c' d
  Chain-remove p (z ∷ xs) ys c c' d =
      let before = prev-mem h z x xs c.2 in
      let after = next-mem h x q ys c' in
      let ne = apart (z ∷ xs) (x ∷ (ys ++ q ∷ [])) d.1 (h.prev x) x before (ground arith) in
      let here =
        ne_of_mem (h.prev x) p (z ∷ xs) before (not-mem_left p (z ∷ xs) (x ∷ (ys ++ q ∷ [])) d.0) in
      let there =
        apart (z ∷ xs) (x ∷ (ys ++ q ∷ [])) d.1 z (h.next x) (ground arith) (ground arith) in
      (
        next-remove_other h x p ne here ∙ c.0,
        prev-remove_other h x z ne (λ same. there (sym same)) ∙ c.1,
        Chain-remove z xs ys c.2 c' d.1,
      )

-- What the writes of `list_insert` leave in the memory.
next-insert :
    (h : Links) (t e a : Ptr)
    → (insert h t e).next a ≡ (if e == a then t else if h.prev t == a then e else h.next a)
unfolding insert
next-insert h t e a = ground arith

prev-insert :
    (h : Links) (t e a : Ptr)
    → (insert h t e).prev a ≡ (if t == a then e else if e == a then h.prev t else h.prev a)
unfolding insert
prev-insert h t e a = ground arith

pub next-insert_other :
    (h : Links) (t e a : Ptr) → e ≢ a → h.prev t ≢ a → (insert h t e).next a ≡ h.next a
next-insert_other h t e a n o = ground (arith, next-insert h t e a)

pub prev-insert_other : (h : Links) (t e a : Ptr) → e ≢ a → t ≢ a → (insert h t e).prev a ≡ h.prev a
prev-insert_other h t e a n o = ground (arith, prev-insert h t e a)

module _ (h : Links) (t e : Ptr) where
  -- `list_insert` puts a new element at the end of the chain that leads to its first argument.
  pub Chain-insert :
      (p : Ptr) (xs : List Ptr)
      → Chain h p xs t
      → Distinct (p ∷ xs ++ t ∷ [])
      → e ∉ p ∷ xs ++ t ∷ []
      → Chain (insert h t e) p (xs ++ e ∷ []) t
  Chain-insert p [] c d o = (
    ground (arith, next-insert h t e p),
    ground (arith, prev-insert h t e e),
    (ground (arith, next-insert h t e e), ground (arith, prev-insert h t e t)),
  )
  Chain-insert p (z ∷ xs) c d o =
      let before = prev-mem h z t xs c.2 in
      let here = ne_of_mem (h.prev t) p (z ∷ xs) before (not-mem_left p (z ∷ xs) (t ∷ []) d.0) in
      let there = apart (z ∷ xs) (t ∷ []) d.1 z t (ground arith) (ground arith) in
      (
        next-insert_other h t e p (ground arith) here ∙ c.0,
        prev-insert_other h t e z (ground arith) (λ same. there (sym same)) ∙ c.1,
        Chain-insert z xs c.2 d.1 (ground arith),
      )

  -- The chain from that argument on is as before.
  pub Chain-insert_rest :
      (q : Ptr) (ys : List Ptr)
      → Chain h t ys q
      → t ∉ ys ++ q ∷ []
      → e ∉ t ∷ ys ++ q ∷ []
      → h.prev t ∉ t ∷ ys
      → Chain (insert h t e) t ys q
  Chain-insert_rest q ys c o o' o'' =
      frame h (insert h t e) t q ys c
        (λ a i.
          next-insert_other h t e a
            (λ same. ne_of_mem a e (t ∷ ys) i (not-mem_left e (t ∷ ys) (q ∷ []) o') (sym same))
            (λ same. ne_of_mem a (h.prev t) (t ∷ ys) i o'' (sym same)))
        (λ a i.
          prev-insert_other h t e a
            (λ same. ne_of_mem a e (ys ++ q ∷ []) i (ground arith) (sym same))
            (λ same. ne_of_mem a t (ys ++ q ∷ []) i o (sym same)))
