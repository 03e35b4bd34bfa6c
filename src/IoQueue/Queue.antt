-- ===== src/IoQueue/Queue.antt =====
-- The ring as a first-in-first-out queue: its bytes from the tail on are the queue's contents.
use mathlib.Core.Path.{subst}
use a_os.Base.{
  ℕ, zero, suc, ◌+◌, ◌-◌, ◌<◌, ◌≤◌, ◌≡◌, ◌≢◌, ◌⊎◌, refl, sym, none, some, List, [], ◌∷◌, ◌++◌, ◌==◌,
  if◌then◌else◌, get_or, set, length, get_or-set_self, get_or-set_ne, arith, Bool-cases, inl, inr,
  ap,
}
use a_os.Base.Words.{add32}
use a_os.IoQueue.{IoQueue, ioq_put, ioq_get}
use a_os.IoQueue.Inv.{
  IsValid, bump, after_put, after_get, ioq_put-pos, ioq_put-zero, ioq_get-pos, ioq_get-zero,
  put-IsValid, get-IsValid,
}

-- The index that follows `i` in a ring of `n` slots.
abbrev pub next : (n i : ℕ) → ℕ
next n i = if i + 1 == n then 0 else i + 1

-- The `k` bytes from index `i` on.
abbrev window : (buf : List ℕ) (n i k : ℕ) → List ℕ
window buf n i zero = []
window buf n i (suc k) = get_or buf i 0 ∷ window buf n (next n i) k

-- The bytes stored in a ring, oldest first.
pub contents : IoQueue → List ℕ
contents q = window q.buf q.size q.tail q.item

length-window : (buf : List ℕ) (n i k : ℕ) → length (window buf n i k) ≡ k
length-window buf n i zero = refl
length-window buf n i (suc k) = ap suc (length-window buf n (next n i) k)

pub length-contents : (q : IoQueue) → length (contents q) ≡ q.item
unfolding contents
length-contents q = length-window q.buf q.size q.tail q.item

-- The index `k` places after `i`, in a ring where `k` is at most the number of slots.
At : (n i k j : ℕ) → Type 0
At n i k j = (j ≡ i + k) ⊎ (j + n ≡ i + k)

-- A store at the index just past a window adds its byte at the window's end.
window-set :
    (buf : List ℕ) (n i k j x : ℕ)
    → n ≤ length buf
    → i < n
    → j < n
    → k < n
    → At n i k j
    → window (set buf j x) n i (suc k) ≡ window buf n i k ++ (x ∷ [])
unfolding At
window-set buf n i zero j x room i_in j_in small at =
    let e : j ≡ i = omega arith in rw e (ap (λ t. t ∷ []) (get_or-set_self buf i x 0 (omega arith)))
window-set buf n i (suc k) j x room i_in j_in small at =
    let ne : j ≢ i = λ e. absurd (omega arith) in
    let rest =
      window-set buf n (next n i) k j x room (ground arith) j_in (omega arith) (ground arith) in
    rw (get_or-set_ne buf j i x 0 ne) (ap (λ t. get_or buf i 0 ∷ t) rest)

contents-put :
    (q : IoQueue) (x : ℕ)
    → IsValid q
    → 0 < q.slot
    → contents (after_put q x) ≡ contents q ++ (x ∷ [])
unfolding contents At
contents-put q x v pos =
    let e : add32 q.item 1 ≡ suc q.item = ground (arith, v) in
    let w =
      window-set q.buf q.size q.tail q.item q.head x v.storage v.tail_in v.head_in (omega arith)
        v.distance in
    subst (λ k. window (set q.buf q.head x) q.size q.tail k ≡ contents q ++ (x ∷ [])) (sym e) w

contents-get :
    (q : IoQueue)
    → IsValid q
    → 0 < q.item
    → contents q ≡ get_or q.buf q.tail 0 ∷ contents (after_get q)
unfolding contents
contents-get q v pos =
    let e : q.item ≡ suc (q.item - 1) = omega arith in
    let b = bump q.tail q.size v.tail_in v.small in
    subst (λ k. window q.buf q.size q.tail k ≡ get_or q.buf q.tail 0 ∷ contents (after_get q))
      (sym e) (ap (λ j. get_or q.buf q.tail 0 ∷ window q.buf q.size j (q.item - 1)) (sym b))

-- What `ioq_put` does: it blocks when the ring holds one byte less than its size, and otherwise
-- adds its byte behind the others.
pub data PutResult (q : IoQueue) (x : ℕ) : Type 0 where
  blocks : length (contents q) + 1 ≡ q.size → ioq_put q x ≡ none → PutResult q x
  stores :
      (q' : IoQueue)
      → length (contents q) + 1 < q.size
      → ioq_put q x ≡ some q'
      → IsValid q'
      → q'.size ≡ q.size
      → contents q' ≡ contents q ++ (x ∷ [])
      → PutResult q x

-- What `ioq_get` does: it blocks on an empty ring, and otherwise takes the oldest byte.
pub data GetResult (q : IoQueue) : Type 0 where
  blocks : contents q ≡ [] → ioq_get q ≡ none → GetResult q
  takes :
      (x : ℕ) (q' : IoQueue)
      → ioq_get q ≡ some (x, q')
      → IsValid q'
      → q'.size ≡ q.size
      → contents q ≡ x ∷ contents q'
      → GetResult q

-- On a well-formed ring, `ioq_put` blocks exactly when the ring holds one byte less than its size;
-- otherwise the ring stays well formed and its contents gain the byte at the end.
pub put-PutResult : (q : IoQueue) (x : ℕ) → IsValid q → PutResult q x
put-PutResult q x v = elim (Bool-cases (q.slot == 0)) [
  | inl e ↦
      let z : q.slot ≡ 0 = ground arith in
      PutResult.blocks (omega (arith, length-contents q, v.counts)) (ioq_put-zero q x z)
  | inr e ↦
      let pos : 0 < q.slot = ground arith in
      PutResult.stores (after_put q x) (omega (arith, length-contents q, v.counts))
        (ioq_put-pos q x pos) (put-IsValid q x v pos) refl (contents-put q x v pos)
]

-- On a well-formed ring, `ioq_get` blocks exactly when the ring is empty; otherwise it returns the
-- oldest byte, and the ring stays well formed and holds the others in their order.
pub get-GetResult : (q : IoQueue) → IsValid q → GetResult q
unfolding contents
get-GetResult q v = elim (Bool-cases (q.item == 0)) [
  | inl e ↦
      let z : q.item ≡ 0 = ground arith in
      GetResult.blocks (ap (window q.buf q.size q.tail) z) (ioq_get-zero q z)
  | inr e ↦
      let pos : 0 < q.item = ground arith in
      GetResult.takes (get_or q.buf q.tail 0) (after_get q) (ioq_get-pos q pos)
        (get-IsValid q v pos) refl (contents-get q v pos)
]
