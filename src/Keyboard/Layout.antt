-- ===== src/Keyboard/Layout.antt =====
-- The characters of the keys of a US keyboard, by rows, for kernel/src/keyboard.c: what its table and
-- its flags have to give.
use a_os.Base.{
  ℕ, ◌-◌, ◌≡◌, ◌<◌, refl, Bool, true, false, not, ◌&&◌, ltb, leb, ◌==◌, if◌then◌else◌, length,
  get_or, List, [], ◌∷◌, ◌∙◌, arith, all_below, all_below_sound, ==_iff,
}
use a_os.Keyboard.{Keyboard, key_at, key_char, hotkey}

-- A row of keys: its first scan code, its characters, and those with shift.
record Row : Type 0 where
  first : ℕ
  plain : List ℕ
  shifted : List ℕ

abbrev digits : Row
digits = record {
  first = 0x02;
  plain =
      b'1' ∷ b'2' ∷ b'3' ∷ b'4' ∷ b'5' ∷ b'6' ∷ b'7' ∷ b'8' ∷ b'9' ∷ b'0' ∷ b'-' ∷ b'=' ∷ 8 ∷ 9
      ∷ [];
  shifted =
      b'!' ∷ b'@' ∷ b'#' ∷ b'$' ∷ b'%' ∷ b'^' ∷ b'&' ∷ b'*' ∷ b'(' ∷ b')' ∷ b'_' ∷ b'+' ∷ 8 ∷ 9
      ∷ [];
}

abbrev top_row : Row
top_row = record {
  first = 0x10;
  plain =
      b'q' ∷ b'w' ∷ b'e' ∷ b'r' ∷ b't' ∷ b'y' ∷ b'u' ∷ b'i' ∷ b'o' ∷ b'p' ∷ 0x5B ∷ 0x5D ∷ 13 ∷ [];
  shifted =
      b'Q' ∷ b'W' ∷ b'E' ∷ b'R' ∷ b'T' ∷ b'Y' ∷ b'U' ∷ b'I' ∷ b'O' ∷ b'P' ∷ 0x7B ∷ 0x7D ∷ 13 ∷ [];
}

abbrev home_row : Row
home_row = record {
  first = 0x1E;
  plain = b'a' ∷ b's' ∷ b'd' ∷ b'f' ∷ b'g' ∷ b'h' ∷ b'j' ∷ b'k' ∷ b'l' ∷ b';' ∷ 0x27 ∷ b'`' ∷ [];
  shifted = b'A' ∷ b'S' ∷ b'D' ∷ b'F' ∷ b'G' ∷ b'H' ∷ b'J' ∷ b'K' ∷ b'L' ∷ b':' ∷ 0x22 ∷ b'~' ∷ [];
}

abbrev bottom_row : Row
bottom_row = record {
  first = 0x2B;
  plain = 0x5C ∷ b'z' ∷ b'x' ∷ b'c' ∷ b'v' ∷ b'b' ∷ b'n' ∷ b'm' ∷ b',' ∷ b'.' ∷ b'/' ∷ [];
  shifted = b'|' ∷ b'Z' ∷ b'X' ∷ b'C' ∷ b'V' ∷ b'B' ∷ b'N' ∷ b'M' ∷ b'<' ∷ b'>' ∷ b'?' ∷ [];
}

abbrev rows : List Row
rows =
    digits
    ∷ top_row
    ∷ home_row
    ∷ bottom_row
    ∷ record { first = 0x01; plain = 27 ∷ []; shifted = 27 ∷ [] }
    ∷ record { first = 0x37; plain = b'*' ∷ []; shifted = b'*' ∷ [] }
    ∷ record { first = 0x39; plain = b' ' ∷ []; shifted = b' ' ∷ [] }
    ∷ []

abbrev row_char : (shift : Bool) → Row → (x : ℕ) → ℕ
row_char shift r x = get_or (if shift then r.shifted else r.plain) (x - r.first) 0

-- The character on the key with scan code `x`, and 0 where there is no key.
abbrev find_char : (shift : Bool) → List Row → (x : ℕ) → ℕ
find_char shift [] x = 0
find_char shift (r ∷ rs) x =
    let later = find_char shift rs x in
    if leb r.first x && ltb (x - r.first) (length r.plain) then row_char shift r x else later

abbrev is_letter : ℕ → Bool
is_letter c = leb b'a' c && leb c b'z'

-- Exactly one of the two.
abbrev one_of : Bool → Bool → Bool
one_of true b = not b
one_of false b = b

-- The character that a key types under the flags: caps lock turns the shift of a letter round, and
-- control with l or u is the form feed or the line kill character.
unfoldable pub typed : (shift caps ctrl : Bool) → (x : ℕ) → ℕ
typed shift caps ctrl x =
    let letter = is_letter (find_char false rows x) in
    let c = find_char (if letter then one_of shift caps else shift) rows x in
    if ctrl && (c == b'l') then 0x0C else if ctrl && (c == b'u') then 0x15 else c

abbrev flags : (shift caps ctrl : Bool) → Keyboard
flags shift caps ctrl = record {
  ext_code = false;
  shift_btn = shift;
  ctrl_btn = ctrl;
  alt_btn = false;
  caps_btn = caps;
}

abbrev agrees : (shift caps ctrl : Bool) → (x : ℕ) → Bool
agrees shift caps ctrl x = key_char (flags shift caps ctrl) (key_at x) == typed shift caps ctrl x

typed_table :
    all_below 0x3A (λ x.
      (agrees true true true x
        && agrees true true false x
        && agrees true false true x
        && agrees true false false x)
      && (agrees false true true x
          && agrees false true false x
          && agrees false false true x
          && agrees false false false x))
    ≡ true
unfolding all_below key_char hotkey key_at typed
typed_table = refl

agree : (shift caps ctrl : Bool) (x : ℕ) → x < 0x3A → agrees shift caps ctrl x ≡ true
agree true true true x lt = ground (arith, all_below_sound 0x3A _ x typed_table lt)
agree true true false x lt = ground (arith, all_below_sound 0x3A _ x typed_table lt)
agree true false true x lt = ground (arith, all_below_sound 0x3A _ x typed_table lt)
agree true false false x lt = ground (arith, all_below_sound 0x3A _ x typed_table lt)
agree false true true x lt = ground (arith, all_below_sound 0x3A _ x typed_table lt)
agree false true false x lt = ground (arith, all_below_sound 0x3A _ x typed_table lt)
agree false false true x lt = ground (arith, all_below_sound 0x3A _ x typed_table lt)
agree false false false x lt = ground (arith, all_below_sound 0x3A _ x typed_table lt)

char_flags :
    (k : Keyboard) (x : ℕ)
    → key_char k (key_at x) ≡ key_char (flags k.shift_btn k.caps_btn k.ctrl_btn) (key_at x)
unfolding key_char
char_flags k x = refl

-- The table and the flags give the character of the layout.
pub key_char-typed :
    (k : Keyboard) (x : ℕ)
    → x < 0x3A
    → key_char k (key_at x) ≡ typed k.shift_btn k.caps_btn k.ctrl_btn x
key_char-typed k x lt =
    char_flags k x ∙ (==_iff _ _).0 (agree k.shift_btn k.caps_btn k.ctrl_btn x lt)
