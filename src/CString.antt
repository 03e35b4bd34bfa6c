-- ===== src/CString.antt =====
-- lib/src/string.c: the memory and string functions, over a memory of bytes by address. A loop
-- that stops at a terminating byte takes fuel, and `none` means that it ran out. A `char` is signed
-- on the target, so a byte above 127 compares as negative. NULL is the inner `none`.
pub mod Copy
pub mod Text
mod Tests
use a_os.Base.{
  ℕ, zero, suc, ◌+◌, ◌%◌, Bool, ◌&&◌, not, Option, none, some, ltb, ◌==◌, if◌then◌else◌,
}
use a_os.Base.Words.{add32, sub32}

abbrev pub Memory : Type 0
Memory = ℕ → ℕ

abbrev pub store : Memory → ℕ → ℕ → Memory
store m p v a = if p == a then v else m a

-- The results -1, 0 and 1 of a comparison.
data Order : Type 0 where
  less same greater : Order

-- `<` on two values of type `char`.
char_lt : ℕ → ℕ → Bool
char_lt a b = ltb ((a + 128) % 256) ((b + 128) % 256)

-- `==` of a `char` and a `uint8_t`: both are promoted to `int`.
pub char_is : ℕ → ℕ → Bool
char_is c ch = ltb c 128 && (c == ch)

-- `memset`
pub memset : ℕ → Memory → (str ch : ℕ) → Memory
memset zero m str ch = m
memset (suc n) m str ch = memset n (store m str ch) (add32 str 1) ch

-- `memcpy`
pub memcpy : ℕ → Memory → (dst src : ℕ) → Memory
memcpy zero m dst src = m
memcpy (suc n) m dst src = memcpy n (store m dst (m src)) (add32 dst 1) (add32 src 1)

-- `memcmp`
memcmp : ℕ → Memory → (s1 s2 : ℕ) → Order
memcmp zero m s1 s2 = Order.same
memcmp (suc n) m s1 s2 =
    let rest = memcmp n m (add32 s1 1) (add32 s2 1) in
    if m s1 == m s2 then rest else if char_lt (m s2) (m s1) then Order.greater else Order.less

-- `while ((*dst++ = *src++))`
pub copy_loop : ℕ → Memory → (dst src : ℕ) → Option Memory
copy_loop zero m dst src = none
copy_loop (suc fuel) m dst src =
    let c = m src in
    let rest = copy_loop fuel (store m dst c) (add32 dst 1) (add32 src 1) in
    if c == 0 then some (store m dst c) else rest

-- `strcpy`, which answers `dst`.
pub strcpy : ℕ → Memory → (dst src : ℕ) → Option (ℕ × Memory)
strcpy fuel m dst src = elim (copy_loop fuel m dst src) [ none ↦ none | some m' ↦ some (dst, m') ]

-- `while (*p++)`: the address behind the terminating byte.
pub end_loop : ℕ → Memory → ℕ → Option ℕ
end_loop zero m p = none
end_loop (suc fuel) m p =
    let rest = end_loop fuel m (add32 p 1) in if m p == 0 then some (add32 p 1) else rest

-- `strlen`
pub strlen : ℕ → Memory → ℕ → Option ℕ
strlen fuel m str = elim (end_loop fuel m str) [
  | none ↦ none
  | some p ↦ some (sub32 (sub32 p str) 1)
]

-- `strcmp`
strcmp : ℕ → Memory → (s1 s2 : ℕ) → Option Order
strcmp zero m s1 s2 = none
strcmp (suc fuel) m s1 s2 =
    let rest = strcmp fuel m (add32 s1 1) (add32 s2 1) in
    if not (m s1 == 0) && (m s1 == m s2)
    then rest
    else some (
        if char_lt (m s1) (m s2)
        then Order.less
        else if char_lt (m s2) (m s1)
        then Order.greater
        else Order.same)

-- `strchr`
pub strchr : ℕ → Memory → (str ch : ℕ) → Option (Option ℕ)
strchr zero m str ch = none
strchr (suc fuel) m str ch =
    let rest = strchr fuel m (add32 str 1) ch in
    if m str == 0 then some none else if char_is (m str) ch then some (some str) else rest

-- The loop of `strrchr`, with the last match before `str`.
last_loop : ℕ → Memory → (str ch : ℕ) → Option ℕ → Option (Option ℕ)
last_loop zero m str ch last = none
last_loop (suc fuel) m str ch last =
    let rest = last_loop fuel m (add32 str 1) ch (if char_is (m str) ch then some str else last) in
    if m str == 0 then some last else rest

-- `strrchr`
strrchr : ℕ → Memory → (str ch : ℕ) → Option (Option ℕ)
strrchr fuel m str ch = last_loop fuel m str ch none

-- `strcat`, which answers `dst`.
pub strcat : ℕ → Memory → (dst src : ℕ) → Option (ℕ × Memory)
strcat fuel m dst src = elim (end_loop fuel m dst) [
  | none ↦ none
  | some p ↦ elim (copy_loop fuel m (sub32 p 1) src) [ none ↦ none | some m' ↦ some (dst, m') ]
]

-- The loop of `strchrs`, which counts.
count_loop : ℕ → Memory → (p ch ch_cnt : ℕ) → Option ℕ
count_loop zero m p ch ch_cnt = none
count_loop (suc fuel) m p ch ch_cnt =
    let rest =
      count_loop fuel m (add32 p 1) ch (if char_is (m p) ch then add32 ch_cnt 1 else ch_cnt) in
    if m p == 0 then some ch_cnt else rest

-- `strchrs`
strchrs : ℕ → Memory → (str ch : ℕ) → Option ℕ
strchrs fuel m str ch = count_loop fuel m str ch 0
