-- ===== src/Bitmap/Acquire.antt =====
-- `bitmap_acquire` and `bitmap_release` against the specification of a first-fit allocator.
use a_os.Base.{
  ℕ, ◌+◌, ◌*◌, ◌<◌, ◌≡◌, ◌≢◌, refl, true, false, ◌∙◌, sym, Option, none, some, arith, ◌==◌,
  if◌then◌else◌, Bool-cases, inl, inr,
}
use mathlib.Core.Path.{subst}
use a_os.Bitmap.{Bitmap, assign, check, mark, release, byte_scan, acquire, acquire_from}
use a_os.Bitmap.Inv.{IsValid, assign-IsValid, check-assign, len-assign, total-eq}
use a_os.Bitmap.Scan.{
  Free, NoneBelow, NoRun, FirstFit, Found, full_all_used, first_free, first_free-lt,
  first_free-free, before_first_free, run_scan-Found,
}
use a_os.Bitmap.Marked.{within, len-mark, mark-IsValid, check-mark, Used, release-Used}

-- What `bitmap_acquire` promises: `none` leaves the bitmap alone and no run is free; `some s` is
-- the first fit, the run is marked, and every other bit is as before.
pub record Took (b : Bitmap) (n s : ℕ) (b' : Bitmap) : Type 0 where
  pub fit : FirstFit b n s
  pub valid : IsValid b'
  pub same_len : b'.len ≡ b.len
  pub bits : (j : ℕ) → check b' j ≡ (if within s n j then true else check b j)

abbrev pub Acquired : Bitmap → ℕ → Option ℕ × Bitmap → Type 0
Acquired b n (none, b') = NoRun b n × (b' ≡ b)
Acquired b n (some s, b') = Took b n s b'

module _ (b : Bitmap) (v : IsValid b) (n : ℕ) (pos : 0 < n) where
  took : (s : ℕ) → FirstFit b n s → Took b n s (mark n b s)
  took s f = record {
    fit = f;
    valid = mark-IsValid n b s v f.inside;
    same_len = len-mark n b s;
    bits = check-mark n b s v f.inside;
  }

  single-Took : (f : ℕ) → n ≡ 1 → FirstFit b n f → Took b n f (assign b f true)
  single-Took f e fit = record {
    fit = fit;
    valid = assign-IsValid b v f true (omega (arith, fit.inside));
    same_len = len-assign b f true;
    bits = λ j. ground (arith, check-assign b v f true (omega (arith, fit.inside)) j);
  }

  search-Acquired :
      (o : Option ℕ)
      → Found b n o
      → Acquired b n (elim o [ none ↦ (none, b) | some s ↦ (some s, mark n b s) ])
  search-Acquired none h = (h, refl)
  search-Acquired (some s) h = took s h

  acquire_from-Acquired :
      (f : ℕ)
      → f < b.len * 8
      → check b f ≡ false
      → ((j : ℕ) → j < f → check b j ≡ true)
      → Acquired b n (acquire_from b n f)
  unfolding acquire_from
  acquire_from-Acquired f lt free used =
      let one : Free b f 1 = λ i le li. let e : i ≡ f = omega arith in rw e free in
      let below : NoneBelow b f n =
        λ j lj run. ground (arith, run j (omega arith) (omega arith), used j lj) in
      elim (Bool-cases (n == 1)) [
        | inl single ↦
            let e : n ≡ 1 = ground arith in
            rw single
              (single-Took f e (record { inside = omega arith; free = rw e one; first = below }))
        | inr many ↦
            rw (many, total-eq b v)
              (search-Acquired _ (
                run_scan-Found b n (b.len * 8) (f + 1) f 1 (omega arith) refl (ground arith) one
                  below))
      ]

  -- `bitmap_acquire` of a positive count on a valid bitmap is first fit: it answers the lowest
  -- place where that many free bits lie inside the bitmap, sets exactly those bits and keeps the
  -- bitmap valid; or no such run exists, and it answers -1 and changes nothing.
  pub acquire-Acquired : Acquired b n (acquire b n)
  unfolding acquire
  acquire-Acquired = elim (Bool-cases (byte_scan b.len b 0 == b.len)) [
    | inl full ↦
        let all : (j : ℕ) → j < b.len * 8 → check b j ≡ true = full_all_used b v (ground arith) in
        rw full (
          (λ j fit run. ground (arith, all j (omega arith), run j (omega arith) (omega arith))),
          refl,
        )
    | inr room ↦
        let ne : byte_scan b.len b 0 ≢ b.len = ground arith in
        rw room (
          acquire_from-Acquired (first_free b v) (first_free-lt b v ne) (first_free-free b v ne)
            (before_first_free b v ne))
  ]

-- On a valid bitmap `bitmap_release` of a run of a positive number of bits that `bitmap_acquire`
-- has just answered succeeds, the bitmap is valid with the same length, and every bit is what it
-- was before the acquisition.
pub release-acquire :
    (b : Bitmap) (n s : ℕ) {b' : Bitmap}
    → IsValid b
    → 0 < n
    → acquire b n ≡ (some s, b')
    → (b'' : Bitmap) × (release b' s n ≡ some b'')
      × IsValid b''
      × (b''.len ≡ b.len)
      × ((j : ℕ) → check b'' j ≡ check b j)
release-acquire b n s {b'} v pos e =
    let t : Took b n s b' = subst (Acquired b n) e (acquire-Acquired b v n pos) in
    let used : Used b' s n = λ i le li. ground (arith, t.bits i) in
    let (b'', done, r) =
      release-Used n b' s t.valid (omega (arith, t.fit.inside, t.same_len)) used in
    (
      b'',
      done,
      r.valid,
      r.same_len ∙ t.same_len,
      λ j. elim (Bool-cases (within s n j)) [
        | inl in_run ↦ rw (r.bits j, in_run) (sym (t.fit.free j (ground arith) (ground arith)))
        | inr out ↦ rw (r.bits j, out, t.bits j, out)
      ],
    )

-- Without a run of one, every bit is set.
pub all_used : (b : Bitmap) → NoRun b 1 → (i : ℕ) → i < b.len * 8 → check b i ≡ true
all_used b no_run i lt = elim (Bool-cases (check b i)) [
  | inl used ↦ used
  | inr free ↦ absurd (no_run i (omega arith) (λ j le lj. let e : j ≡ i = omega arith in rw e free))
]
