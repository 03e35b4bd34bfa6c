-- ===== src/Disk/Word.antt =====
-- The words of an on-disk structure: `uint32_t` in four bytes, the lowest first.
use a_os.Base.{ℕ, zero, suc, ◌+◌, ◌*◌, ◌/◌, ◌%◌, ◌^◌, ◌<◌, ◌≡◌, refl, List, get_or, arith}
use a_os.Disk.{Bytes}

-- Byte `k` of a word.
abbrev pub byte_of : (w k : ℕ) → ℕ
byte_of w zero = w % 256
byte_of w (suc k) = byte_of (w / 256) k

abbrev pub word_at : Bytes → ℕ → ℕ
word_at b i = b i + 256 * b (i + 1) + 65536 * b (i + 2) + 16777216 * b (i + 3)

-- A structure of words as its bytes.
abbrev pub bytes_of : List ℕ → Bytes
bytes_of ws i = byte_of (get_or ws (i / 4) 0) (i % 4)

word_of_bytes :
    (w : ℕ)
    → w < 2 ^ 32
    → byte_of w 0 + 256 * byte_of w 1 + 65536 * byte_of w 2 + 16777216 * byte_of w 3 ≡ w
word_of_bytes w small = omega arith

-- The word at a word's offset is that word.
pub word_at-bytes_of :
    (ws : List ℕ) (k : ℕ) → get_or ws k 0 < 2 ^ 32 → word_at (bytes_of ws) (4 * k) ≡ get_or ws k 0
word_at-bytes_of ws k small =
    let q0 : 4 * k / 4 ≡ k = omega arith in
    let q1 : (4 * k + 1) / 4 ≡ k = omega arith in
    let q2 : (4 * k + 2) / 4 ≡ k = omega arith in
    let q3 : (4 * k + 3) / 4 ≡ k = omega arith in
    let r0 : 4 * k % 4 ≡ 0 = omega arith in
    let r1 : (4 * k + 1) % 4 ≡ 1 = omega arith in
    let r2 : (4 * k + 2) % 4 ≡ 2 = omega arith in
    let r3 : (4 * k + 3) % 4 ≡ 3 = omega arith in
    rw (q0, q1, q2, q3, r0, r1, r2, r3) (word_of_bytes (get_or ws k 0) small)

pub word_at-same_at :
    (f g : Bytes) (i j : ℕ)
    → f i ≡ g j
    → f (i + 1) ≡ g (j + 1)
    → f (i + 2) ≡ g (j + 2)
    → f (i + 3) ≡ g (j + 3)
    → word_at f i ≡ word_at g j
word_at-same_at f g i j e0 e1 e2 e3 = rw (e0, e1, e2, e3) refl
