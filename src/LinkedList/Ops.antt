-- ===== src/LinkedList/Ops.antt =====
-- The operations of list.c against lists of elements: what `Holds` says before and after a call.
use mathlib.Core.List.{append_assoc}
use mathlib.Core.Path.{subst}
use a_os.Base.{
  ◌≡◌, ◌≢◌, refl, true, false, List, [], ◌∷◌, ◌++◌, arith, ◌==◌, sym, ap, Option, none, some,
}
use a_os.LinkedList.{Ptr, Links, DList, init, insert, remove, append, push, pop}
use a_os.LinkedList.Shape.{
  ◌∈◌, ◌∉◌, Distinct, Chain, Holds, has-append, Chain-append, Chain-split, frame, prev-mem,
  next-mem,
}
use a_os.LinkedList.Update.{
  ne_of_mem, not-mem_left, apart, Chain-remove, Chain-insert, Chain-insert_rest, next-remove_other,
  prev-remove_other, next-insert_other, prev-insert_other,
}

Distinct-insert :
    (xs ys : List Ptr) (e : Ptr) → Distinct (xs ++ ys) → e ∉ xs ++ ys → Distinct (xs ++ e ∷ ys)
Distinct-insert [] ys e d o = (o, d)
Distinct-insert (x ∷ xs) ys e d o = (
  ground (arith, has-append x xs ys, has-append x xs (e ∷ ys), d.0),
  Distinct-insert xs ys e d.1 (ground arith),
)

Distinct-delete : (xs ys : List Ptr) (x : Ptr) → Distinct (xs ++ x ∷ ys) → Distinct (xs ++ ys)
Distinct-delete [] ys x d = d.1
Distinct-delete (z ∷ xs) ys x d =
    (ground (arith, has-append z xs ys, has-append z xs (x ∷ ys), d.0), Distinct-delete xs ys x d.1)

-- The ends and elements of a list, in order.
abbrev nodes : DList → List Ptr → List Ptr
nodes l xs = l.head ∷ xs ++ l.tail ∷ []

pub init-Holds : (h : Links) (l : DList) → l.head ≢ l.tail → Holds (init h l) l []
unfolding init
init-Holds h l ne = record {
  chain = (ground arith, ground arith);
  distinct = (ground arith, (refl, tt));
}

module _ (h : Links) (l : DList) (xs : List Ptr) (is : Holds h l xs) (e : Ptr)
    (new : e ∉ nodes l xs) where
  -- `list_append` of an element that is neither in the list nor one of its ends leaves the list
  -- with that element behind the others.
  pub append-Holds : Holds (append h l e) l (xs ++ e ∷ [])
  unfolding append
  append-Holds = record {
    chain = Chain-insert h l.tail e l.head xs is.chain is.distinct new;
    distinct =
        subst Distinct (sym (append_assoc (l.head ∷ xs) (e ∷ []) (l.tail ∷ [])))
          (Distinct-insert (l.head ∷ xs) (l.tail ∷ []) e is.distinct new);
  }

push-Chain :
    (h : Links) (p q e : Ptr) (xs : List Ptr)
    → Chain h p xs q
    → Distinct (p ∷ xs ++ q ∷ [])
    → e ∉ p ∷ xs ++ q ∷ []
    → Chain (insert h (h.next p) e) p (e ∷ xs) q
push-Chain h p q e [] c d o = rw c.0 (Chain-insert h q e p [] c d o)
push-Chain h p q e (x ∷ xs) c d o =
    subst (λ m. Chain (insert h m e) p (e ∷ x ∷ xs) q) (sym c.0)
      (Chain-append (insert h x e) p q x (e ∷ []) xs
        (Chain-insert h x e p [] (c.0, c.1) (ground arith, (refl, tt)) (ground arith))
        (Chain-insert_rest h x e q xs c.2 d.1.0 (ground arith)
          (subst (λ a. a ∉ x ∷ xs) (sym c.1) (not-mem_left p (x ∷ xs) (q ∷ []) d.0))))

module _ (h : Links) (l : DList) (xs : List Ptr) (is : Holds h l xs) (e : Ptr)
    (new : e ∉ nodes l xs) where
  -- `list_push` of an element that is neither in the list nor one of its ends leaves the list with
  -- that element before the others.
  pub push-Holds : Holds (push h l e) l (e ∷ xs)
  unfolding push
  push-Holds = record {
    chain = push-Chain h l.head l.tail e xs is.chain is.distinct new;
    distinct = Distinct-insert (l.head ∷ []) (xs ++ l.tail ∷ []) e is.distinct new;
  }

-- `list_remove` of an element of a list leaves the list with the elements before it and the
-- elements after it, in order, linked both ways.
pub remove-Holds :
    (h : Links) (l : DList) (xs ys : List Ptr) (x : Ptr)
    → Holds h l (xs ++ x ∷ ys)
    → Holds (remove h x) l (xs ++ ys)
remove-Holds h l xs ys x is =
    let c = Chain-split h l.head l.tail x xs ys is.chain in
    let d : Distinct (l.head ∷ xs ++ x ∷ (ys ++ l.tail ∷ [])) =
      subst Distinct (append_assoc (l.head ∷ xs) (x ∷ ys) (l.tail ∷ [])) is.distinct in
    record {
      chain = Chain-remove h x l.tail l.head xs ys c.0 c.1 d;
      distinct =
          subst Distinct (sym (append_assoc (l.head ∷ xs) ys (l.tail ∷ [])))
            (Distinct-delete (l.head ∷ xs) (ys ++ l.tail ∷ []) x d);
    }

-- What `list_pop` answers for a list of elements, and what it leaves.
abbrev pub Popped : DList → List Ptr → Option Ptr × Links → Type 0
Popped l [] (o, g) = (o ≡ none) × Holds g l []
Popped l (x ∷ xs) (o, g) = (o ≡ some x) × Holds g l xs

-- `list_pop` answers NULL on an empty list, which stays empty, and otherwise the first element, and
-- leaves the list with the others.
pub pop-Popped : (h : Links) (l : DList) (xs : List Ptr) → Holds h l xs → Popped l xs (pop h l)
unfolding pop
pop-Popped h l [] is = let e : (h.next l.head == l.tail) ≡ true = ground arith in rw e (refl, is)
pop-Popped h l (x ∷ xs) is =
    let ne = apart (x ∷ xs) (l.tail ∷ []) is.distinct.1 x l.tail (ground arith) (ground arith) in
    let e : (h.next l.head == l.tail) ≡ false = ground arith in
    rw e (
      ap some is.chain.0,
      subst (λ m. Holds (remove h m) l xs) (sym is.chain.0) (remove-Holds h l [] xs x is),
    )

-- Two lists share no end and no element.
abbrev pub Separate : DList → List Ptr → DList → List Ptr → Type 0
Separate l xs m ys = (a : Ptr) → a ∈ nodes l xs → a ∉ nodes m ys

module _ (h : Links) (m : DList) (ys : List Ptr) (is : Holds h m ys) where
  elsewhere :
      (g : Links)
      → ((a : Ptr) → a ∈ nodes m ys → g.next a ≡ h.next a)
      → ((a : Ptr) → a ∈ nodes m ys → g.prev a ≡ h.prev a)
      → Holds g m ys
  elsewhere g n b = record {
    chain =
        frame h g m.head m.tail ys is.chain
          (λ a i. n a (ground (arith, has-append a (m.head ∷ ys) (m.tail ∷ []))))
          (λ a i. b a (ground arith));
    distinct = is.distinct;
  }

  away : (a b : Ptr) → a ∈ nodes m ys → b ∉ nodes m ys → b ≢ a
  away a b i o = λ same. ne_of_mem a b (nodes m ys) i o (sym same)

  -- An insertion or a removal in one list leaves every other list as it is.
  append-frame :
      (l : DList) (xs : List Ptr) (e : Ptr)
      → Holds h l xs
      → Separate l xs m ys
      → e ∉ nodes m ys
      → Holds (append h l e) m ys
  unfolding append
  append-frame l xs e isl sep o =
      let before = sep (h.prev l.tail) (
        ground (
          arith,
          prev-mem h l.head l.tail xs isl.chain,
          has-append (h.prev l.tail) (l.head ∷ xs) (l.tail ∷ []),
        )) in
      let last = sep l.tail (ground (arith, has-append l.tail (l.head ∷ xs) (l.tail ∷ []))) in
      elsewhere (insert h l.tail e)
        (λ a i. next-insert_other h l.tail e a (away a e i o) (away a (h.prev l.tail) i before))
        (λ a i. prev-insert_other h l.tail e a (away a e i o) (away a l.tail i last))

  -- `list_remove` of an element of one list leaves another list that shares no end and no element
  -- with it as it is.
  pub remove-frame :
      (l : DList) (xs zs : List Ptr) (x : Ptr)
      → Holds h l (xs ++ x ∷ zs)
      → Separate l (xs ++ x ∷ zs) m ys
      → Holds (remove h x) m ys
  remove-frame l xs zs x isl sep =
      let c = Chain-split h l.head l.tail x xs zs isl.chain in
      let d : Distinct (l.head ∷ xs ++ x ∷ (zs ++ l.tail ∷ [])) =
        subst Distinct (append_assoc (l.head ∷ xs) (x ∷ zs) (l.tail ∷ [])) isl.distinct in
      let before = prev-mem h l.head x xs c.0 in
      let after = next-mem h x l.tail zs c.1 in
      let ne = apart (l.head ∷ xs) (x ∷ (zs ++ l.tail ∷ [])) d (h.prev x) x before (ground arith) in
      let whole : nodes l (xs ++ x ∷ zs) ≡ l.head ∷ xs ++ x ∷ (zs ++ l.tail ∷ []) =
        append_assoc (l.head ∷ xs) (x ∷ zs) (l.tail ∷ []) in
      let far = sep (h.prev x) (
        subst (λ ns. h.prev x ∈ ns) (sym whole)
          (ground (arith, has-append (h.prev x) (l.head ∷ xs) (x ∷ (zs ++ l.tail ∷ []))))) in
      let far' = sep (h.next x) (
        subst (λ ns. h.next x ∈ ns) (sym whole)
          (ground (arith, has-append (h.next x) (l.head ∷ xs) (x ∷ (zs ++ l.tail ∷ []))))) in
      elsewhere (remove h x) (λ a i. next-remove_other h x a ne (away a (h.prev x) i far))
        (λ a i. prev-remove_other h x a ne (away a (h.next x) i far'))
