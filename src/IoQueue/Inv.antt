-- ===== src/IoQueue/Inv.antt =====
-- When a ring is well formed, and what its three counters say.
use native.Mathlib.Nat.{mod_self, mod-eq_of_lt}
use a_os.Base.{
  ℕ, zero, suc, ◌+◌, ◌-◌, ◌%◌, ◌^◌, ◌<◌, ◌≤◌, ◌≡◌, refl, false, none, some, List, ◌==◌,
  if◌then◌else◌, get_or, set, length, length-set, arith, Bool-cases, inl, inr, ◌⊎◌, ap, ◌∙◌,
}
use a_os.Base.Words.{add32}
use a_os.IoQueue.{IoQueue, ioq_len, ioq_empty, ioq_full, ioq_put, ioq_get, ioq_init, down}

-- The semaphores count the bytes stored and the free slots; one slot always stays free.
pub record IsValid (q : IoQueue) : Type 0 where
  pub storage : q.size ≤ length q.buf
  pub small : q.size < 2 ^ 31
  pub head_in : q.head < q.size
  pub tail_in : q.tail < q.size
  pub counts : q.item + q.slot + 1 ≡ q.size
  pub distance : (q.head ≡ q.tail + q.item) ⊎ (q.head + q.size ≡ q.tail + q.item)

-- The next index of the ring.
pub bump : (i n : ℕ) → i < n → n < 2 ^ 31 → add32 i 1 % n ≡ (if i + 1 == n then 0 else i + 1)
bump i n lt small = elim (Bool-cases (i + 1 == n)) [
  | inl end ↦ let e : add32 i 1 ≡ n = ground arith in rw end (ap (λ t. t % n) e ∙ mod_self n)
  | inr more ↦
      let e : add32 i 1 ≡ i + 1 = omega arith in
      let less : i + 1 < n = ground arith in rw more (ap (λ t. t % n) e ∙ mod-eq_of_lt less)
]

abbrev pub empty_ring : List ℕ → ℕ → IoQueue
empty_ring buf size = record {
  buf = buf;
  size = size;
  head = 0;
  tail = 0;
  item = 0;
  slot = size - 1;
}

-- `ioq_init` gives an empty well-formed ring, for any size but 0.
pub init-IsValid :
    (buf : List ℕ) (size : ℕ)
    → 0 < size
    → size ≤ length buf
    → size < 2 ^ 31
    → (ioq_init buf size ≡ some (empty_ring buf size)) × IsValid (empty_ring buf size)
unfolding ioq_init
init-IsValid buf size pos room small =
    let e : (0 == size) ≡ false = ground arith in (rw e refl, omega arith)

-- The length, the two tests and the semaphores of a well-formed ring agree: `ioq_len` is the count
-- of items, the ring is empty when no item is left, and full when no slot is left.
pub len-item :
    (q : IoQueue)
    → IsValid q
    → (ioq_len q ≡ q.item) × (ioq_empty q ≡ (q.item == 0)) × (ioq_full q ≡ (q.slot == 0))
unfolding ioq_len ioq_empty ioq_full
len-item q v = ground (arith, bump q.head q.size)

-- The ring after a byte is stored, and after one is taken.
abbrev pub after_put : IoQueue → ℕ → IoQueue
after_put q x = record q {
  buf = set q.buf q.head x;
  head = add32 q.head 1 % q.size;
  item = add32 q.item 1;
  slot = q.slot - 1;
}

abbrev pub after_get : IoQueue → IoQueue
after_get q = record q { tail = add32 q.tail 1 % q.size; item = q.item - 1; slot = add32 q.slot 1 }

down-pos : (n : ℕ) → 0 < n → down n ≡ some (n - 1)
down-pos zero pos = absurd (omega arith)
down-pos (suc n) pos = ap some (omega arith)

pub ioq_put-pos : (q : IoQueue) (x : ℕ) → 0 < q.slot → ioq_put q x ≡ some (after_put q x)
unfolding ioq_put
ioq_put-pos q x pos = rw (down-pos q.slot pos, ioq_put) refl

pub ioq_put-zero : (q : IoQueue) (x : ℕ) → q.slot ≡ 0 → ioq_put q x ≡ none
unfolding ioq_put
ioq_put-zero q x e = rw e refl

pub ioq_get-pos : (q : IoQueue) → 0 < q.item → ioq_get q ≡ some (get_or q.buf q.tail 0, after_get q)
unfolding ioq_get
ioq_get-pos q pos = rw (down-pos q.item pos, ioq_get) refl

pub ioq_get-zero : (q : IoQueue) → q.item ≡ 0 → ioq_get q ≡ none
unfolding ioq_get
ioq_get-zero q e = rw e refl

-- Storing a byte in a free slot keeps the ring well formed.
pub put-IsValid : (q : IoQueue) (x : ℕ) → IsValid q → 0 < q.slot → IsValid (after_put q x)
put-IsValid q x v pos =
    ground (arith, length-set q.buf q.head x, bump q.head q.size v.head_in v.small)

-- Taking a byte keeps the ring well formed.
pub get-IsValid : (q : IoQueue) → IsValid q → 0 < q.item → IsValid (after_get q)
get-IsValid q v pos = ground (arith, bump q.tail q.size v.tail_in v.small)
