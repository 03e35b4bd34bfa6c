-- ===== src/LinkedList.antt =====
-- kernel/src/list.c: the doubly linked list with a head and a tail element, over an explicit
-- memory of `prev` and `next` fields. An address is a number and NULL is 0. The loops take fuel;
-- `none` means that it ran out.
pub mod Shape
pub mod Update
pub mod Ops
pub mod Walk
mod Tests
use a_os.Base.{ℕ, zero, suc, ◌+◌, Bool, true, false, Option, none, some, ◌==◌, if◌then◌else◌}
use a_os.Base.Words.{add32}

abbrev pub Ptr : Type 0
Ptr = ℕ

abbrev null : Ptr
null = 0

-- `elem->prev` and `elem->next` for every element.
pub record Links : Type 0 where
  pub prev : Ptr → Ptr
  pub next : Ptr → Ptr

-- `struct list`: the addresses of its two end elements.
pub record DList : Type 0 where
  pub head : Ptr
  pub tail : Ptr

abbrev update : (Ptr → Ptr) → Ptr → Ptr → Ptr → Ptr
update f p v q = if p == q then v else f q

abbrev set_prev : Links → Ptr → Ptr → Links
set_prev h p v = record h { prev = update h.prev p v }

abbrev set_next : Links → Ptr → Ptr → Links
set_next h p v = record h { next = update h.next p v }

-- `list_init`
pub init : Links → DList → Links
init h l =
    set_next (set_prev (set_next (set_prev h l.head null) l.head l.tail) l.tail l.head) l.tail null

-- `list_insert`: the four writes, each reading the memory that the one before it left.
pub insert : Links → Ptr → Ptr → Links
insert h prev_elem elem' =
    let h1 = set_next h (h.prev prev_elem) elem' in
    let h2 = set_prev h1 elem' (h1.prev prev_elem) in
    let h3 = set_next h2 elem' prev_elem in set_prev h3 prev_elem elem'

-- `list_remove`
pub remove : Links → Ptr → Links
remove h elem' =
    let h1 = set_next h (h.prev elem') (h.next elem') in set_prev h1 (h1.next elem') (h1.prev elem')

-- `list_append`
pub append : Links → DList → Ptr → Links
append h l elem' = insert h l.tail elem'

-- `list_push`
pub push : Links → DList → Ptr → Links
push h l elem' = insert h (h.next l.head) elem'

-- `list_empty`
pub empty : Links → DList → Bool
empty h l = h.next l.head == l.tail

-- `list_pop`; NULL is `none`.
pub pop : Links → DList → Option Ptr × Links
pop h l =
    if h.next l.head == l.tail then (none, h) else (some (h.next l.head), remove h (h.next l.head))

len_loop : ℕ → Links → (elem' tail : Ptr) → (length : ℕ) → Option ℕ
len_loop zero h elem' tail length = none
len_loop (suc fuel) h elem' tail length =
    let rest = len_loop fuel h (h.next elem') tail (add32 length 1) in
    if elem' == tail then some length else rest

-- `list_len`
pub list_len : ℕ → Links → DList → Option ℕ
unfolding len_loop
list_len fuel h l = len_loop fuel h (h.next l.head) l.tail 0

find_loop : ℕ → Links → (cur tail elem' : Ptr) → Option Bool
find_loop zero h cur tail elem' = none
find_loop (suc fuel) h cur tail elem' =
    let rest = find_loop fuel h (h.next cur) tail elem' in
    if cur == tail then some false else if cur == elem' then some true else rest

-- `list_find`
pub find : ℕ → Links → DList → Ptr → Option Bool
unfolding find_loop
find fuel h l elem' = find_loop fuel h (h.next l.head) l.tail elem'

traversal_loop : ℕ → Links → (elem' tail : Ptr) → (Ptr → Bool) → Option (Option Ptr)
traversal_loop zero h elem' tail func = none
traversal_loop (suc fuel) h elem' tail func =
    let rest = traversal_loop fuel h (h.next elem') tail func in
    if elem' == tail then some none else if func elem' then some (some elem') else rest

-- `list_traversal`, with `func` at its argument `arg`; the inner NULL is `none`.
pub traversal : ℕ → Links → DList → (Ptr → Bool) → Option (Option Ptr)
unfolding empty traversal_loop
traversal fuel h l func =
    let rest = traversal_loop fuel h (h.next l.head) l.tail func in
    if empty h l then some none else rest
