-- ===== src/Memory/Pool.antt =====
-- Frames and page runs: what `palloc`, `pfree`, `vaddr_acquire` and `vaddr_release` give and take.
use mathlib.Core.Path.{subst}
use a_os.Base.{
  ℕ, ◌+◌, ◌*◌, ◌/◌, ◌%◌, ◌^◌, ◌<◌, ◌≤◌, ◌≡◌, refl, Bool, true, false, Option, none, some, arith,
  ◌==◌, if◌then◌else◌, Bool-cases, inl, inr, ◌∙◌, ap,
}
use a_os.Base.Words.{add32, sub32, mul32}
use a_os.Bitmap
use a_os.Bitmap.{Bitmap}
use a_os.Bitmap.Inv.{IsValid}
use a_os.Bitmap.Marked.{Used, release-Used, release-panic}
use a_os.Bitmap.Acquire.{Acquired, acquire-Acquired, all_used}
use a_os.Memory.{PPool, pg_size, palloc, pfree}

-- The `i`-th page from `start` on.
abbrev pub page : ℕ → ℕ → ℕ
page start i = add32 start (mul32 i pg_size)

-- Page-aligned, and all its pages lie below 4 GB.
pub record Aligned (start : ℕ) (b : Bitmap) : Type 0 where
  pub valid : IsValid b
  pub aligned : start % pg_size ≡ 0
  pub below : start + b.len * 8 * pg_size ≤ 2 ^ 32

-- The index of a page that the pool hands out is the one it was made from, and distinct indices
-- are distinct pages inside the pool's range.
pub index-page :
    (start : ℕ) (b : Bitmap) (i : ℕ)
    → Aligned start b
    → i < b.len * 8
    → (page start i ≡ start + i * pg_size)
      × (sub32 (page start i) start / pg_size ≡ i)
      × (page start i % pg_size ≡ 0)
      × (page start i + pg_size ≤ start + b.len * 8 * pg_size)
index-page start b i a lt =
    let e : page start i ≡ start + i * pg_size = omega (arith, a.below, lt) in
    (e, omega (arith, a.below, lt), omega (arith, e, a.aligned), omega (arith, e, lt))

-- Whether the bitmap marks the page at an address as used.
abbrev pub in_use : ℕ → Bitmap → ℕ → Bool
in_use start b addr = Bitmap.check b (sub32 addr start / pg_size)

abbrev pub IsPool : PPool → Type 0
IsPool pp = Aligned pp.paddr_start pp.paddr_bitmap

-- A page of the pool.
abbrev pub Inside : ℕ → Bitmap → ℕ → Type 0
Inside start b addr =
    (start ≤ addr) × (addr + pg_size ≤ start + b.len * 8 * pg_size) × (addr % pg_size ≡ 0)

-- A page of the pool is the one at its index.
pub page-index :
    (start : ℕ) (b : Bitmap) (q : ℕ)
    → Aligned start b
    → Inside start b q
    → (start + sub32 q start / pg_size * pg_size ≡ q) × (sub32 q start / pg_size < b.len * 8)
page-index start b q a inside = omega (arith, a.below, a.aligned, inside)

-- What `palloc` promises: a free frame of the pool, marked, with every other frame as before; or
-- NULL, when every frame is in use.
abbrev pub Palloc : PPool → Option ℕ × PPool → Type 0
Palloc pp (none, pp') =
    (pp' ≡ pp) × ((i : ℕ) → i < pp.paddr_bitmap.len * 8 → Bitmap.check pp.paddr_bitmap i ≡ true)
Palloc pp (some p, pp') =
    Inside pp.paddr_start pp.paddr_bitmap p
    × (in_use pp.paddr_start pp.paddr_bitmap p ≡ false)
    × IsPool pp'
    × (pp'.paddr_start ≡ pp.paddr_start)
    × (pp'.paddr_bitmap.len ≡ pp.paddr_bitmap.len)
    × ((q : ℕ)
        → Inside pp.paddr_start pp.paddr_bitmap q
        → in_use pp.paddr_start pp'.paddr_bitmap q
          ≡ (if p == q then true else in_use pp.paddr_start pp.paddr_bitmap q))

-- `palloc` from a well-formed pool hands out a frame of the pool that was free, marks it and no
-- other frame, and keeps the pool well formed; or it answers NULL, changes nothing, and every frame
-- is in use.
pub palloc-Palloc : (pp : PPool) → IsPool pp → Palloc pp (palloc pp)
unfolding palloc
palloc-Palloc pp a =
    step (Bitmap.acquire pp.paddr_bitmap 1)
      (acquire-Acquired pp.paddr_bitmap a.valid 1 (omega arith))
  where
    step :
        (r : Option ℕ × Bitmap)
        → Acquired pp.paddr_bitmap 1 r
        → Palloc pp (elim r.0 [
          | none ↦ (none, record pp { paddr_bitmap = r.1 })
          | some i ↦
              (some (add32 pp.paddr_start (mul32 i pg_size)), record pp { paddr_bitmap = r.1 })
        ])
    step (none, b) (no_run, same) =
        (ap (λ c. record pp { paddr_bitmap = c }) same, all_used pp.paddr_bitmap no_run)
    step (some i, b) t =
        let lt : i < pp.paddr_bitmap.len * 8 = omega (arith, t.fit.inside) in
        let x = index-page pp.paddr_start pp.paddr_bitmap i a lt in
        (
          (omega (arith, x.0), x.3, x.2),
          rw x.1 (t.fit.free i (omega arith) (omega arith)),
          record {
            valid = t.valid;
            aligned = a.aligned;
            below = omega (arith, a.below, t.same_len);
          },
          refl,
          t.same_len,
          λ q inside. ground (
            arith,
            x.0,
            page-index pp.paddr_start pp.paddr_bitmap q a inside,
            t.bits (sub32 q pp.paddr_start / pg_size),
          ),
        )

-- `pfree` of a frame of the pool that is in use makes exactly that frame free.
pfree-used :
    (pp : PPool) (p : ℕ)
    → IsPool pp
    → Inside pp.paddr_start pp.paddr_bitmap p
    → in_use pp.paddr_start pp.paddr_bitmap p ≡ true
    → (pp' : PPool) × (pfree pp p ≡ some pp')
      × IsPool pp'
      × (pp'.paddr_start ≡ pp.paddr_start)
      × ((q : ℕ)
          → Inside pp.paddr_start pp.paddr_bitmap q
          → in_use pp.paddr_start pp'.paddr_bitmap q
            ≡ (if p == q then false else in_use pp.paddr_start pp.paddr_bitmap q))
unfolding pfree
pfree-used pp p a inside used =
    let i = sub32 p pp.paddr_start / pg_size in
    let x = page-index pp.paddr_start pp.paddr_bitmap p a inside in
    let one : Used pp.paddr_bitmap i 1 = λ j le lj. let e : j ≡ i = omega arith in rw e used in
    let (b', done, r) = release-Used 1 pp.paddr_bitmap i a.valid (omega (arith, x.1)) one in
    (
      record pp { paddr_bitmap = b' },
      rw (done, pfree) refl,
      record { valid = r.valid; aligned = a.aligned; below = omega (arith, a.below, r.same_len) },
      refl,
      λ q inside'. ground (
        arith,
        x.0,
        page-index pp.paddr_start pp.paddr_bitmap q a inside',
        r.bits (sub32 q pp.paddr_start / pg_size),
      ),
    )

-- `pfree` of a frame of the pool that is free stops the kernel.
pfree-free :
    (pp : PPool) (p : ℕ)
    → IsPool pp
    → Inside pp.paddr_start pp.paddr_bitmap p
    → in_use pp.paddr_start pp.paddr_bitmap p ≡ false
    → pfree pp p ≡ none
unfolding pfree
pfree-free pp p a inside free =
    let i = sub32 p pp.paddr_start / pg_size in
    let x = page-index pp.paddr_start pp.paddr_bitmap p a inside in
    rw
      (
        release-panic 1 pp.paddr_bitmap i i a.valid (omega (arith, x.1)) (omega arith) (omega arith)
            free,
        pfree,
      )
      refl

freed-same :
    (start : ℕ) (b b' b'' : Bitmap) (p q : ℕ)
    → in_use start b p ≡ false
    → in_use start b' q ≡ (if p == q then true else in_use start b q)
    → in_use start b'' q ≡ (if p == q then false else in_use start b' q)
    → in_use start b'' q ≡ in_use start b q
freed-same start b b' b'' p q free taken given = elim (Bool-cases (p == q)) [
  | inl same ↦
      let e : p ≡ q = ground arith in
      let free' : in_use start b q ≡ false = subst (λ r. in_use start b r ≡ false) e free in
      rw (given, same, free')
  | inr other ↦ rw (given, other, taken, other)
]

-- A frame that `palloc` hands out from a well-formed pool can be given back by `pfree`; then the
-- pool is well formed and every frame is in use or free as it was before.
pub pfree-palloc :
    (pp : PPool) (p : ℕ) {pp' : PPool}
    → IsPool pp
    → palloc pp ≡ (some p, pp')
    → (pp'' : PPool) × (pfree pp' p ≡ some pp'')
      × IsPool pp''
      × ((q : ℕ)
          → Inside pp.paddr_start pp.paddr_bitmap q
          → in_use pp.paddr_start pp''.paddr_bitmap q ≡ in_use pp.paddr_start pp.paddr_bitmap q)
pfree-palloc pp p {pp'} a e =
    let h : Palloc pp (some p, pp') = subst (Palloc pp) e (palloc-Palloc pp a) in
    let inside : Inside pp'.paddr_start pp'.paddr_bitmap p = omega (arith, h.0, h.3, h.4) in
    let used : in_use pp'.paddr_start pp'.paddr_bitmap p ≡ true =
      rw h.3 (h.5 p h.0 ∙ ground arith) in
    let (pp'', done, a'', s, bits) = pfree-used pp' p h.2 inside used in
    (
      pp'',
      done,
      a'',
      λ q inside'.
          let q_in : Inside pp'.paddr_start pp'.paddr_bitmap q = omega (arith, inside', h.3, h.4) in
          freed-same pp.paddr_start pp.paddr_bitmap pp'.paddr_bitmap pp''.paddr_bitmap p q h.1
            (h.5 q inside')
            (subst
              (λ start.
                in_use start pp''.paddr_bitmap q
                ≡ (if p == q then false else in_use start pp'.paddr_bitmap q))
              h.3 (bits q q_in)),
    )
