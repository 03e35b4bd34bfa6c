-- ===== src/Keyboard/Bounds.antt =====
-- What any byte can do to the flags of kernel/src/keyboard.c, and which characters come out.
use a_os.Base.{
  ℕ, ◌+◌, ◌≡◌, ◌<◌, ◌≤◌, ◌≢◌, refl, bit_and, true, false, not, ◌&&◌, none, some, ltb, leb, ◌==◌,
  if◌then◌else◌, arith, all_below, all_below_sound, ◌∙◌,
}
use a_os.Keyboard.{
  Keyboard, KbKey, key_at, scan_code, is_break, on_break, hotkey, key_char, on_key, on_make,
  handler, kb_ext_code,
}
use a_os.Keyboard.Laws.{scan_low, is_break-scan_code}

letter_table :
    all_below 0x3B (λ x.
      if (key_at x).isalpha
      then leb b'a' (key_at x).key
        && leb (key_at x).key b'z'
        && ((key_at x).uppercase + 32 == (key_at x).key)
      else ltb (key_at x).key 128 && ltb (key_at x).uppercase 128)
    ≡ true
unfolding all_below key_at
letter_table = refl

-- The entries of the table marked alphabetic hold a lower case letter and its upper case; on such a
-- key the shift and caps lock flags cancel, and control with a character l or u gives the two hot
-- keys.
letters :
    (k : Keyboard) (x : ℕ)
    → x < 0x3B
    → (key_at x).isalpha ≡ true
    → (b'a' ≤ (key_at x).key)
      × ((key_at x).key ≤ b'z')
      × ((key_at x).uppercase + 32 ≡ (key_at x).key)
      × (key_char k (key_at x) ≡ (
          let c =
            if k.shift_btn
            then (if k.caps_btn then (key_at x).key else (key_at x).uppercase)
            else (if k.caps_btn then (key_at x).uppercase else (key_at x).key) in
          if k.ctrl_btn && (c == b'l')
          then 0x0C
          else if k.ctrl_btn && (c == b'u')
          then 0x15
          else c))
unfolding key_char hotkey
letters k x lt al =
    let t = all_below_sound 0x3B _ x letter_table lt in
    (ground (arith, t), ground (arith, t), ground (arith, t), ground arith)

char_bound : (k : Keyboard) (x : ℕ) → x < 0x3B → key_char k (key_at x) < 128
unfolding key_char hotkey
char_bound k x lt = ground (arith, all_below_sound 0x3B _ x letter_table lt)

-- A byte that ends a break code answers no character, never touches caps lock or the pending
-- extension, and can only clear the other flags.
handler-break :
    (k : Keyboard) (x : ℕ)
    → x < 256
    → 0x80 ≤ x
    → x ≢ kb_ext_code
    → ((handler k x).1 ≡ none)
      × ((handler k x).0.ext_code ≡ false)
      × ((handler k x).0.caps_btn ≡ k.caps_btn)
      × ((handler k x).0.shift_btn && not k.shift_btn ≡ false)
      × ((handler k x).0.ctrl_btn && not k.ctrl_btn ≡ false)
      × ((handler k x).0.alt_btn && not k.alt_btn ≡ false)
unfolding handler on_break
handler-break k x lt ge ne =
    let first : (kb_ext_code == x) ≡ false = ground arith in
    let stop : is_break (scan_code k.ext_code x) ≡ true =
      is_break-scan_code k.ext_code x lt ∙ ground arith in
    ground (arith, first, stop)

char_same :
    (k : Keyboard) (key : KbKey) → key_char (record k { ext_code = false }) key ≡ key_char k key
unfolding key_char
char_same k key = refl

-- When the keyboard handler gives a character for a byte, the byte is a make code of the table, the
-- character is the ASCII character of its key under the flags held, and every modifier flag is as
-- before.
pub handler-some :
    (k : Keyboard) (x c : ℕ)
    → x < 256
    → (handler k x).1 ≡ some c
    → (x < 0x3B)
      × (c ≡ key_char k (key_at x))
      × (c < 128)
      × ((handler k x).0 ≡ record k { ext_code = false })
unfolding handler on_make on_key
handler-some k x c lt e =
    let low : bit_and (scan_code k.ext_code x) 0x00FF ≡ x = scan_low k.ext_code x lt in
    let k' = record k { ext_code = false } in
    ground (arith, low, e, char_bound k x, char_same k (key_at x))
