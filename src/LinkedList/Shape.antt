-- ===== src/LinkedList/Shape.antt =====
-- What a linked list stands for: the elements between its ends, linked both ways and distinct.
use a_os.Base.{◌≡◌, refl, Bool, true, false, ◌||◌, List, [], ◌∷◌, ◌++◌, arith, ◌==◌, ◌∙◌}
use a_os.LinkedList.{Ptr, Links, DList}

abbrev pub has : Ptr → List Ptr → Bool
has a [] = false
has a (x ∷ xs) = (x == a) || has a xs

infix 40 ◌∈◌ ◌∉◌
abbrev pub ◌∈◌ : Ptr → List Ptr → Type 0
a ∈ xs = has a xs ≡ true

abbrev pub ◌∉◌ : Ptr → List Ptr → Type 0
a ∉ xs = has a xs ≡ false

abbrev pub Distinct : List Ptr → Type 0
Distinct [] = Unit {0}
Distinct (x ∷ xs) = (x ∉ xs) × Distinct xs

-- From `p` the elements `xs` lead to `q`, by `next` forwards and by `prev` backwards.
abbrev pub Chain : Links → Ptr → List Ptr → Ptr → Type 0
Chain h p [] q = (h.next p ≡ q) × (h.prev q ≡ p)
Chain h p (x ∷ xs) q = (h.next p ≡ x) × (h.prev x ≡ p) × Chain h x xs q

-- `l` holds the elements `xs`, in order.
pub record Holds (h : Links) (l : DList) (xs : List Ptr) : Type 0 where
  pub chain : Chain h l.head xs l.tail
  pub distinct : Distinct (l.head ∷ xs ++ l.tail ∷ [])

pub has-append : (a : Ptr) (xs ys : List Ptr) → has a (xs ++ ys) ≡ (has a xs || has a ys)
has-append a [] ys = refl
has-append a (x ∷ xs) ys = ground (arith, has-append a xs ys)

pub Chain-append :
    (h : Links) (p q m : Ptr) (xs ys : List Ptr)
    → Chain h p xs m
    → Chain h m ys q
    → Chain h p (xs ++ m ∷ ys) q
Chain-append h p q m [] ys c d = (c.0, c.1, d)
Chain-append h p q m (x ∷ xs) ys c d = (c.0, c.1, Chain-append h x q m xs ys c.2 d)

pub Chain-split :
    (h : Links) (p q m : Ptr) (xs ys : List Ptr)
    → Chain h p (xs ++ m ∷ ys) q
    → Chain h p xs m × Chain h m ys q
Chain-split h p q m [] ys c = ((c.0, c.1), c.2)
Chain-split h p q m (x ∷ xs) ys c = let r = Chain-split h x q m xs ys c.2 in ((c.0, c.1, r.0), r.1)

-- A chain survives any change that spares the fields it rests on.
pub frame :
    (h g : Links) (p q : Ptr) (xs : List Ptr)
    → Chain h p xs q
    → ((a : Ptr) → a ∈ p ∷ xs → g.next a ≡ h.next a)
    → ((a : Ptr) → a ∈ xs ++ q ∷ [] → g.prev a ≡ h.prev a)
    → Chain g p xs q
frame h g p q [] c n b = (n p (ground arith) ∙ c.0, b q (ground arith) ∙ c.1)
frame h g p q (x ∷ xs) c n b = (
  n p (ground arith) ∙ c.0,
  b x (ground arith) ∙ c.1,
  frame h g x q xs c.2 (λ a i. n a (ground arith)) (λ a i. b a (ground arith)),
)

-- The element before the end, and the element after the start, are in the chain.
pub prev-mem : (h : Links) (p q : Ptr) (xs : List Ptr) → Chain h p xs q → h.prev q ∈ p ∷ xs
prev-mem h p q [] c = rw c.1 (ground arith)
prev-mem h p q (x ∷ xs) c = ground (arith, prev-mem h x q xs c.2)

pub next-mem : (h : Links) (p q : Ptr) (xs : List Ptr) → Chain h p xs q → h.next p ∈ xs ++ q ∷ []
next-mem h p q [] c = ground arith
next-mem h p q (x ∷ xs) c = ground arith

pub Distinct-snoc : (xs : List Ptr) (e : Ptr) → Distinct xs → e ∉ xs → Distinct (xs ++ e ∷ [])
Distinct-snoc [] e d o = (refl, tt)
Distinct-snoc (x ∷ xs) e d o =
    (ground (arith, has-append x xs (e ∷ []), d.0), Distinct-snoc xs e d.1 (ground arith))
