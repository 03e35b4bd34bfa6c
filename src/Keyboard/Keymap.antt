-- ===== src/Keyboard/Keymap.antt =====
-- kernel/src/keyboard.c: the table `keymap`, by scan code.
use a_os.Base.{ℕ, Bool, true, false, List, [], ◌∷◌}

pub record KbKey : Type 0 where
  pub key : ℕ
  pub uppercase : ℕ
  pub isalpha : Bool

abbrev pub key_of : ℕ → ℕ → Bool → KbKey
key_of key uppercase isalpha = record { key = key; uppercase = uppercase; isalpha = isalpha }

abbrev pub keymap : List KbKey
keymap =
    key_of 0 0 false
    ∷ key_of 27 27 false
    ∷ key_of b'1' b'!' false
    ∷ key_of b'2' b'@' false
    ∷ key_of b'3' b'#' false
    ∷ key_of b'4' b'$' false
    ∷ key_of b'5' b'%' false
    ∷ key_of b'6' b'^' false
    ∷ key_of b'7' b'&' false
    ∷ key_of b'8' b'*' false
    ∷ key_of b'9' b'(' false
    ∷ key_of b'0' b')' false
    ∷ key_of b'-' b'_' false
    ∷ key_of b'=' b'+' false
    ∷ key_of 8 8 false
    ∷ key_of 9 9 false
    ∷ key_of b'q' b'Q' true
    ∷ key_of b'w' b'W' true
    ∷ key_of b'e' b'E' true
    ∷ key_of b'r' b'R' true
    ∷ key_of b't' b'T' true
    ∷ key_of b'y' b'Y' true
    ∷ key_of b'u' b'U' true
    ∷ key_of b'i' b'I' true
    ∷ key_of b'o' b'O' true
    ∷ key_of b'p' b'P' true
    ∷ key_of b'[' 123 false
    ∷ key_of b']' 125 false
    ∷ key_of 13 13 false
    ∷ key_of 0 0 false
    ∷ key_of b'a' b'A' true
    ∷ key_of b's' b'S' true
    ∷ key_of b'd' b'D' true
    ∷ key_of b'f' b'F' true
    ∷ key_of b'g' b'G' true
    ∷ key_of b'h' b'H' true
    ∷ key_of b'j' b'J' true
    ∷ key_of b'k' b'K' true
    ∷ key_of b'l' b'L' true
    ∷ key_of b';' b':' false
    ∷ key_of 39 34 false
    ∷ key_of b'`' b'~' false
    ∷ key_of 0 0 false
    ∷ key_of 92 b'|' false
    ∷ key_of b'z' b'Z' true
    ∷ key_of b'x' b'X' true
    ∷ key_of b'c' b'C' true
    ∷ key_of b'v' b'V' true
    ∷ key_of b'b' b'B' true
    ∷ key_of b'n' b'N' true
    ∷ key_of b'm' b'M' true
    ∷ key_of b',' b'<' false
    ∷ key_of b'.' b'>' false
    ∷ key_of b'/' b'?' false
    ∷ key_of 0 0 false
    ∷ key_of b'*' b'*' false
    ∷ key_of 0 0 false
    ∷ key_of b' ' b' ' false
    ∷ key_of 0 0 false
    ∷ []
