-- ===== src/Keyboard.antt =====
-- kernel/src/keyboard.c: the keyboard interrupt handler, from scan code bytes to characters. The
-- byte read from port 0x60 is an argument, and the character given to `ioq_put` is the answer.
mod Keymap
pub mod Layout
pub mod Laws
pub mod Bounds
mod Tests
use a_os.Base.{
  ℕ, ◌+◌, ◌*◌, ◌^◌, bit_and, bit_or, Bool, true, false, not, ◌||◌, Option, none, some, ltb, ◌==◌,
  if◌then◌else◌, length, get_or,
}
pub use Keymap.{KbKey, key_of, keymap}

-- The five static flags.
pub record Keyboard : Type 0 where
  pub ext_code : Bool
  pub shift_btn : Bool
  pub ctrl_btn : Bool
  pub alt_btn : Bool
  pub caps_btn : Bool

abbrev pub kb_ext_code : ℕ
kb_ext_code = 0xE0

-- The scan code of a byte: `(KB_EXT_CODE << 8) | kb_data` behind an extension byte.
pub scan_code : Bool → ℕ → ℕ
scan_code ext kb_data = if ext then bit_or (kb_ext_code * 2 ^ 8) kb_data else kb_data

-- `scancode & KB_BREAK_CODE`
pub is_break : ℕ → Bool
is_break scancode = not (bit_and scancode 0x80 == 0)

-- The switch on break codes.
pub on_break : Keyboard → ℕ → Keyboard
on_break k scancode =
    if scancode == 0xAA || scancode == 0xB6
    then record k { shift_btn = false }
    else if scancode == 0x9D || scancode == 0xE09D
    then record k { ctrl_btn = false }
    else if scancode == 0xB8 || scancode == 0xE0B8
    then record k { alt_btn = false }
    else k

-- The switch on the make codes of modifier keys; `none` is its default.
pub on_modifier : Keyboard → ℕ → Option Keyboard
on_modifier k scancode =
    if scancode == 0x2A || scancode == 0x36
    then some (record k { shift_btn = true })
    else if scancode == 0x1D || scancode == 0xE01D
    then some (record k { ctrl_btn = true })
    else if scancode == 0x38 || scancode == 0xE038
    then some (record k { alt_btn = true })
    else if scancode == 0x3A
    then some (record k { caps_btn = not k.caps_btn })
    else none

-- The switch on hot keys.
pub hotkey : Bool → ℕ → ℕ
hotkey ctrl buf =
    if ctrl then (if buf == b'l' then 0x0C else if buf == b'u' then 0x15 else buf) else buf

-- The character of a keymap entry.
pub key_char : Keyboard → KbKey → ℕ
unfolding hotkey
key_char k e =
    let flip = if e.isalpha then k.caps_btn else false in
    let uppercase = if flip then not k.shift_btn else k.shift_btn in
    hotkey k.ctrl_btn (if uppercase then e.uppercase else e.key)

-- `keymap[idx]`
pub key_at : ℕ → KbKey
key_at idx = get_or keymap idx (key_of 0 0 false)

-- What follows the two switches: the character put into the queue, if any.
pub on_key : Keyboard → ℕ → Option ℕ
on_key k scancode =
    let idx = bit_and scancode 0x00FF in
    if ltb idx (length keymap) then some (key_char k (key_at idx)) else none

pub on_make : Keyboard → ℕ → Keyboard × Option ℕ
on_make k scancode = elim (on_modifier k scancode) [
  | some k' ↦ (k', none)
  | none ↦ (k, on_key k scancode)
]

-- `keyboard_handler`
pub handler : Keyboard → ℕ → Keyboard × Option ℕ
handler k kb_data =
    if kb_ext_code == kb_data
    then (record k { ext_code = true }, none)
    else (let scancode = scan_code k.ext_code kb_data in
        let k' = record k { ext_code = false } in
        if is_break scancode then (on_break k' scancode, none) else on_make k' scancode)
