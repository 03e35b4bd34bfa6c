-- ===== src/CString/Copy.antt =====
-- `memset` and `memcpy`: which bytes they write.
use a_os.Base.{
  ℕ, zero, suc, ◌+◌, ◌-◌, ◌^◌, ◌<◌, ◌≤◌, ◌≡◌, ◌⊎◌, inl, inr, Bool, true, false, ◌&&◌, ltb, leb,
  ◌==◌, if◌then◌else◌, arith, ◌∙◌, ap, Bool-cases,
}
use a_os.Base.Words.{add32}
use a_os.CString.{Memory, store, memset, memcpy}

-- `a` is one of the `n` addresses from `p` on.
abbrev pub inside : (p n a : ℕ) → Bool
inside p n a = leb p a && ltb a (p + n)

memset_fills :
    (n : ℕ) (m : Memory) (str ch a : ℕ)
    → str + n < 2 ^ 32
    → memset n m str ch a ≡ (if inside str n a then ch else m a)
unfolding memset
memset_fills zero m str ch a fits = ground arith
memset_fills (suc n) m str ch a fits =
    let e : add32 str 1 ≡ str + 1 = omega arith in
    rw e (memset_fills n (store m str ch) (str + 1) ch a (omega arith) ∙ ground arith)

shifted : (src dst a : ℕ) → dst + 1 ≤ a → src + 1 + (a - (dst + 1)) ≡ src + (a - dst)
shifted src dst a le = omega arith

-- The first byte is copied, and the source read by the other rounds is not written.
first_byte :
    (n : ℕ) (m : Memory) (dst src a : ℕ)
    → (dst + suc n ≤ src) ⊎ (src + suc n ≤ dst)
    → (if inside (dst + 1) n a
        then store m dst (m src) (src + 1 + (a - (dst + 1)))
        else store m dst (m src) a)
      ≡ (if inside dst (suc n) a then m (src + (a - dst)) else m a)
first_byte n m dst src a apart = elim (Bool-cases (inside (dst + 1) n a)) [
  | inl later ↦
      let le : dst + 1 ≤ a = ground arith in
      let lt : a < dst + 1 + n = ground arith in
      let whole : inside dst (suc n) a ≡ true = ground arith in
      let other : (dst == src + (a - dst)) ≡ false = ground arith in
      rw (later, whole, shifted src dst a le, other)
  | inr not_later ↦ elim (Bool-cases (dst == a)) [
    | inl first ↦
        let same : dst ≡ a = ground arith in
        let whole : inside dst (suc n) a ≡ true = ground arith in
        let here : src ≡ src + (a - dst) = omega arith in rw (not_later, whole, first) (ap m here)
    | inr out ↦ let none : inside dst (suc n) a ≡ false = ground arith in rw (not_later, none, out)
  ]
]

-- After `memcpy` between two stretches of memory that share no byte, below 2 ^ 32, every byte of
-- the target is the source's at the same offset, and every other byte is as before.
pub memcpy_moves :
    (n : ℕ) (m : Memory) (dst src a : ℕ)
    → dst + n < 2 ^ 32
    → src + n < 2 ^ 32
    → (dst + n ≤ src) ⊎ (src + n ≤ dst)
    → memcpy n m dst src a ≡ (if inside dst n a then m (src + (a - dst)) else m a)
unfolding memcpy
memcpy_moves zero m dst src a fd fs apart = ground arith
memcpy_moves (suc n) m dst src a fd fs apart =
    let e : add32 dst 1 ≡ dst + 1 = omega arith in
    let f : add32 src 1 ≡ src + 1 = omega arith in
    let ih =
      memcpy_moves n (store m dst (m src)) (dst + 1) (src + 1) a (omega arith) (omega arith)
        (ground arith) in
    rw (e, f) (ih ∙ first_byte n m dst src a apart)
