-- ===== src/IoQueue/Pipe.antt =====
-- What a run of puts and gets moves through a ring, and what the two pipe calls transfer.
use a_os.Base.{
  ℕ, zero, suc, ◌+◌, ◌<◌, ◌≤◌, ◌≡◌, refl, sym, Option, none, some, List, [], ◌∷◌, ◌++◌, ltb,
  if◌then◌else◌, take, length, length-append, length-take, arith, Bool-cases, inl, inr, ap, ◌∙◌,
}
use a_os.Base.Words.{sub32}
use a_os.IoQueue.{
  IoQueue, ioq_put, ioq_get, ioq_len, read_bytes, write_bytes, pipe_read, pipe_write,
}
use a_os.IoQueue.Inv.{IsValid, len-item}
use a_os.IoQueue.Queue.{
  contents, length-contents, PutResult, GetResult, put-PutResult, get-GetResult,
}
use mathlib.Core.Path.{subst}
use mathlib.Core.List.{append_assoc, append-nil}

-- A run of calls that return, with the bytes they store and the bytes they take.
pub data Run (q : IoQueue) : (stored taken : List ℕ) → (q' : IoQueue) → Type 0 where
  start : Run q [] [] q
  put :
      {stored taken : List ℕ} {q' q'' : IoQueue} (x : ℕ)
      → Run q stored taken q'
      → ioq_put q' x ≡ some q''
      → Run q (stored ++ (x ∷ [])) taken q''
  get :
      {stored taken : List ℕ} {q' q'' : IoQueue} (x : ℕ)
      → Run q stored taken q'
      → ioq_get q' ≡ some (x, q'')
      → Run q stored (taken ++ (x ∷ [])) q''

put_step :
    (q : IoQueue) {q' q'' : IoQueue} (stored taken : List ℕ) (x : ℕ)
    → IsValid q'
    → contents q ++ stored ≡ taken ++ contents q'
    → ioq_put q' x ≡ some q''
    → IsValid q'' × (contents q ++ (stored ++ (x ∷ [])) ≡ taken ++ contents q'')
put_step q {q'} {q''} stored taken x v ih e = elim (put-PutResult q' x v) [
  | PutResult.blocks l b ↦ absurd (ground (arith, b, e))
  | PutResult.stores r lt b v' s c ↦
      let same : r ≡ q'' = ground (arith, b, e) in
      (
        subst IsValid same v',
        sym (append_assoc (contents q) stored (x ∷ []))
            ∙ ap (λ t. t ++ (x ∷ [])) ih
            ∙ append_assoc taken (contents q') (x ∷ [])
            ∙ ap (λ t. taken ++ t) (sym c ∙ ap contents same),
      )
]

get_step :
    (q : IoQueue) {q' q'' : IoQueue} (stored taken : List ℕ) (x : ℕ)
    → IsValid q'
    → contents q ++ stored ≡ taken ++ contents q'
    → ioq_get q' ≡ some (x, q'')
    → IsValid q'' × (contents q ++ stored ≡ (taken ++ (x ∷ [])) ++ contents q'')
get_step q {q'} {q''} stored taken x v ih e = elim (get-GetResult q' v) [
  | GetResult.blocks l b ↦ absurd (ground (arith, b, e))
  | GetResult.takes y r b v' s c ↦
      let first : y ≡ x = ground (arith, b, e) in
      let same : r ≡ q'' = ground (arith, b, e) in
      (
        subst IsValid same v',
        ih
            ∙ ap (λ t. taken ++ t)
                (c ∙ ap (λ t. t ∷ contents r) first ∙ ap (λ t. x ∷ contents t) same)
            ∙ sym (append_assoc taken (x ∷ []) (contents q'')),
      )
]

-- From a well-formed ring, whatever the order of the `ioq_put` and `ioq_get` calls that return, the
-- ring stays well formed, and the bytes taken followed by the bytes left are the bytes that were
-- there at first followed by the bytes stored.
pub run-fifo :
    {q q' : IoQueue} {stored taken : List ℕ}
    → IsValid q
    → Run q stored taken q'
    → IsValid q' × (contents q ++ stored ≡ taken ++ contents q')
run-fifo {q} v Run.start = (v, append-nil (contents q))
run-fifo {q} v (Run.put {stored} {taken} {q'} {q''} x r e) =
    let (v', ih) = run-fifo v r in put_step q stored taken x v' ih e
run-fifo {q} v (Run.get {stored} {taken} {q'} {q''} x r e) =
    let (v', ih) = run-fifo v r in get_step q stored taken x v' ih e

-- `read_bytes` takes the oldest bytes.
Reads : ℕ → IoQueue → Type 0
Reads n q =
    (xs : List ℕ) × (q' : IoQueue) × (read_bytes n q ≡ some (xs, q'))
    × IsValid q'
    × (length xs ≡ n)
    × (contents q ≡ xs ++ contents q')

read_bytes-Reads : (n : ℕ) (q : IoQueue) → IsValid q → n ≤ length (contents q) → Reads n q
unfolding Reads read_bytes
read_bytes-Reads zero q v le = ([], q, refl, v, refl, refl)
read_bytes-Reads (suc n) q v le = elim (get-GetResult q v) [
  | GetResult.blocks e b ↦ absurd (ground (arith, ap length e))
  | GetResult.takes x q' e v' s c ↦
      let (xs, q'', e', v'', l, c') = read_bytes-Reads n q' v' (omega (arith, ap length c)) in
      (x ∷ xs, q'', rw (e, read_bytes) (rw e' refl), v'', ap suc l, c ∙ ap (λ t. x ∷ t) c')
]

Writes : IoQueue → List ℕ → Type 0
Writes q xs =
    (q' : IoQueue) × (write_bytes q xs ≡ some q')
    × IsValid q'
    × (q'.size ≡ q.size)
    × (contents q' ≡ contents q ++ xs)

write_bytes-Writes :
    (q : IoQueue) (xs : List ℕ) → IsValid q → length (contents q) + length xs < q.size → Writes q xs
unfolding Writes write_bytes
write_bytes-Writes q [] v lt = (q, refl, v, refl, sym (append-nil (contents q)))
write_bytes-Writes q (x ∷ xs) v lt = elim (put-PutResult q x v) [
  | PutResult.blocks l b ↦ absurd (omega arith)
  | PutResult.stores q' lt' e v' s c ↦
      let (q'', e', v'', s', c') =
        write_bytes-Writes q' xs v'
          (omega (arith, ap length c, length-append (contents q) (x ∷ []), s)) in
      (
        q'',
        rw (e, write_bytes) e',
        v'',
        s' ∙ s,
        c' ∙ ap (λ t. t ++ xs) c ∙ append_assoc (contents q) (x ∷ []) xs,
      )
]

-- A write of more bytes than fit blocks.
write_bytes-blocks :
    (q : IoQueue) (xs : List ℕ)
    → IsValid q
    → q.size ≤ length (contents q) + length xs
    → write_bytes q xs ≡ none
unfolding write_bytes
write_bytes-blocks q [] v le = absurd (omega (arith, length-contents q, v.counts))
write_bytes-blocks q (x ∷ xs) v le = elim (put-PutResult q x v) [
  | PutResult.blocks l b ↦ rw (b, write_bytes) refl
  | PutResult.stores q' lt' e v' s c ↦
      rw (e, write_bytes)
        (write_bytes-blocks q' xs v'
          (omega (arith, ap length c, length-append (contents q) (x ∷ []), s)))
]

ioq_len-contents : (q : IoQueue) → IsValid q → ioq_len q ≡ length (contents q)
ioq_len-contents q v = (len-item q v).0 ∙ sym (length-contents q)

pipe_read_count :
    (q : IoQueue) (cnt : ℕ) {len : ℕ}
    → ioq_len q ≡ len
    → pipe_read q cnt ≡ elim (read_bytes (if ltb len cnt then len else cnt) q) [
      | none ↦ none
      | some (xs, q') ↦ some ((if ltb len cnt then len else cnt), xs, q')
    ]
unfolding pipe_read
pipe_read_count q cnt e =
    ap
      (λ (len : ℕ).
        elim (read_bytes (if ltb len cnt then len else cnt) q)
          as (λ _. Option (ℕ × List ℕ × IoQueue)) [
            | none ↦ none
            | some (xs, q') ↦ some ((if ltb len cnt then len else cnt), xs, q')
          ])
      e

pipe_write_count :
    (q : IoQueue) (src : List ℕ) (cnt : ℕ) {n : ℕ}
    → (if ltb (sub32 q.size (ioq_len q)) cnt then sub32 q.size (ioq_len q) else cnt) ≡ n
    → pipe_write q src cnt
      ≡ elim (write_bytes q (take n src)) [ none ↦ none | some q' ↦ some (n, q') ]
unfolding pipe_write
pipe_write_count q src cnt e =
    ap
      (λ (n : ℕ). elim (write_bytes q (take n src)) as (λ _. Option (ℕ × IoQueue)) [
        | none ↦ none
        | some q' ↦ some (n, q')
      ])
      e

room : (q : IoQueue) → IsValid q → sub32 q.size (ioq_len q) + length (contents q) ≡ q.size
unfolding sub32
room q v = ground (arith, ioq_len-contents q v, length-contents q)

-- What `pipe_read` returns: the smaller of the requested count and the number of bytes stored.
pub PipeReads : IoQueue → ℕ → Type 0
PipeReads q cnt =
    (n : ℕ) × (xs : List ℕ) × (q' : IoQueue) × (pipe_read q cnt ≡ some (n, xs, q'))
    × IsValid q'
    × (n ≡ (if ltb (length (contents q)) cnt then length (contents q) else cnt))
    × (length xs ≡ n)
    × (contents q ≡ xs ++ contents q')

-- On a well-formed ring `pipe_read` never blocks: it returns the smaller of the requested count and
-- the number of bytes stored, hands over that many bytes, the oldest first, leaves the others, and
-- keeps the ring well formed.
pub pipe_read-PipeReads : (q : IoQueue) (cnt : ℕ) → IsValid q → PipeReads q cnt
unfolding PipeReads Reads
pipe_read-PipeReads q cnt v =
    let n = if ltb (length (contents q)) cnt then length (contents q) else cnt in
    let le : n ≤ length (contents q) = ground arith in
    let (xs, q', e, v', l, c) = read_bytes-Reads n q v le in
    (n, xs, q', pipe_read_count q cnt (ioq_len-contents q v) ∙ rw e refl, v', refl, l, c)

-- What `pipe_write` of the first `cnt` bytes does.
pub data WriteResult (q : IoQueue) (src : List ℕ) (cnt : ℕ) : Type 0 where
  writes :
      (q' : IoQueue)
      → length (contents q) + cnt < q.size
      → pipe_write q src cnt ≡ some (cnt, q')
      → IsValid q'
      → contents q' ≡ contents q ++ take cnt src
      → WriteResult q src cnt
  blocks : q.size ≤ length (contents q) + cnt → pipe_write q src cnt ≡ none → WriteResult q src cnt

-- On a well-formed ring `pipe_write` of `cnt` bytes of a long enough source writes all of them
-- behind the bytes stored when they leave one slot free, and blocks otherwise.
pub pipe_write-WriteResult :
    (q : IoQueue) (src : List ℕ) (cnt : ℕ) → IsValid q → cnt ≤ length src → WriteResult q src cnt
unfolding Writes
pipe_write-WriteResult q src cnt v le = elim (Bool-cases (ltb (length (contents q) + cnt) q.size)) [
  | inl fits ↦
      let short : length (contents q) + cnt < q.size = ground arith in
      let free = room q v in
      let whole : (if ltb (sub32 q.size (ioq_len q)) cnt then sub32 q.size (ioq_len q) else cnt)
          ≡ cnt =
        ground arith in
      let (q', e, v', s, c) =
        write_bytes-Writes q (take cnt src) v (omega (arith, length-take cnt src le)) in
      WriteResult.writes q' short (pipe_write_count q src cnt whole ∙ rw e refl) v' c
  | inr more ↦
      let long : q.size ≤ length (contents q) + cnt = ground arith in
      let free = room q v in
      let n = if ltb (sub32 q.size (ioq_len q)) cnt then sub32 q.size (ioq_len q) else cnt in
      let cut : n ≤ cnt = ground arith in
      let full : q.size ≤ length (contents q) + n = ground arith in
      let e =
        write_bytes-blocks q (take n src) v
          (omega (arith, full, length-take n src (omega arith))) in
      WriteResult.blocks long (pipe_write_count q src cnt refl ∙ rw e refl)
]
