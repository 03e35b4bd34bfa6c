-- ===== src/IoQueue.antt =====
-- kernel/src/ioqueue.c, and the pipes of kernel/src/file.c over it: a ring of bytes guarded by two
-- counting semaphores. `none` is a call that blocks: the count it takes from is 0. The mutex makes
-- the rest of a call one step.
pub mod Inv
pub mod Queue
pub mod Pipe
mod Tests
use a_os.Base.{
  ℕ, zero, suc, ◌+◌, ◌-◌, ◌%◌, ◌^◌, Bool, true, false, Option, none, some, List, [], ◌∷◌, ltb, leb,
  ◌==◌, if◌then◌else◌, get_or, set, take,
}
use a_os.Base.Words.{add32, sub32}

-- `struct ioqueue`; `item` and `slot` are the counts of its semaphores.
pub record IoQueue : Type 0 where
  pub buf : List ℕ
  pub size : ℕ
  pub head : ℕ
  pub tail : ℕ
  pub item : ℕ
  pub slot : ℕ

-- `ioq_len`
pub ioq_len : IoQueue → ℕ
ioq_len q = if leb q.tail q.head then sub32 q.head q.tail else sub32 q.size (sub32 q.tail q.head)

-- `ioq_empty` and `ioq_full`
pub ioq_empty : IoQueue → Bool
ioq_empty q = q.head == q.tail

pub ioq_full : IoQueue → Bool
ioq_full q = add32 q.head 1 % q.size == q.tail

-- `sema_down` on a count, which blocks at 0.
abbrev pub down : ℕ → Option ℕ
down zero = none
down (suc n) = some n

-- `ioq_put`
pub ioq_put : IoQueue → ℕ → Option IoQueue
ioq_put q byte = elim (down q.slot) [
  | none ↦ none
  | some slot ↦ some (record q {
    buf = set q.buf q.head byte;
    head = add32 q.head 1 % q.size;
    item = add32 q.item 1;
    slot = slot;
  })
]

-- `ioq_get`
pub ioq_get : IoQueue → Option (ℕ × IoQueue)
ioq_get q = elim (down q.item) [
  | none ↦ none
  | some item ↦ some (
    get_or q.buf q.tail 0,
    record q { tail = add32 q.tail 1 % q.size; item = item; slot = add32 q.slot 1 },
  )
]

-- `ioq_init` over the memory of its buffer; NULL is `none`.
pub ioq_init : List ℕ → ℕ → Option IoQueue
ioq_init buf size =
    if 0 == size
    then none
    else some (record { buf = buf; size = size; head = 0; tail = 0; item = 0; slot = size - 1 })

-- The loop of `pipe_read`: `n` bytes, in order.
pub read_bytes : ℕ → IoQueue → Option (List ℕ × IoQueue)
read_bytes zero q = some ([], q)
read_bytes (suc n) q = elim (ioq_get q) [
  | none ↦ none
  | some (x, q') ↦ elim (read_bytes n q') [ none ↦ none | some (xs, q'') ↦ some (x ∷ xs, q'') ]
]

-- `pipe_read`: the count that it returns, and the bytes that it stores.
pub pipe_read : IoQueue → ℕ → Option (ℕ × List ℕ × IoQueue)
pipe_read q cnt =
    let len = ioq_len q in
    let size = if ltb len cnt then len else cnt in
    elim (read_bytes size q) [ none ↦ none | some (xs, q') ↦ some (size, xs, q') ]

-- The loop of `pipe_write` over the first bytes of its source.
pub write_bytes : IoQueue → List ℕ → Option IoQueue
write_bytes q [] = some q
write_bytes q (x ∷ xs) = elim (ioq_put q x) [ none ↦ none | some q' ↦ write_bytes q' xs ]

-- `pipe_write` of `cnt` bytes from `src`.
pub pipe_write : IoQueue → (src : List ℕ) → (cnt : ℕ) → Option (ℕ × IoQueue)
pipe_write q src cnt =
    let slot = sub32 q.size (ioq_len q) in
    let size = if ltb slot cnt then slot else cnt in
    elim (write_bytes q (take size src)) [ none ↦ none | some q' ↦ some (size, q') ]
