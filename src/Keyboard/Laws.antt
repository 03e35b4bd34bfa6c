-- ===== src/Keyboard/Laws.antt =====
-- What the keyboard handler does with every byte, in every state of its flags.
use a_os.Base.{
  ℕ, ◌+◌, ◌≡◌, ◌<◌, ◌≢◌, refl, bit_and, Bool, true, false, not, ◌&&◌, none, some, ltb, ◌==◌, length,
  arith, List, [], ◌∷◌, all_below, all_below_sound, ==_iff, ◌∙◌, ap,
}
use a_os.Keyboard.Layout.{typed, key_char-typed}
use a_os.Keyboard.{
  Keyboard, keymap, key_at, scan_code, is_break, on_break, on_modifier, key_char, on_key, on_make,
  handler, kb_ext_code,
}

scan_low_table : all_below 256 (λ x. bit_and (scan_code true x) 0x00FF == x) ≡ true
unfolding all_below scan_code
scan_low_table = refl

scan_plain_table : all_below 256 (λ x. bit_and (scan_code false x) 0x00FF == x) ≡ true
unfolding all_below scan_code
scan_plain_table = refl

-- The low byte of a scan code is the byte that was read.
pub scan_low : (ext : Bool) (x : ℕ) → x < 256 → bit_and (scan_code ext x) 0x00FF ≡ x
scan_low true x h = (==_iff _ x).0 (all_below_sound 256 _ x scan_low_table h)
scan_low false x h = (==_iff _ x).0 (all_below_sound 256 _ x scan_plain_table h)

bool_same : Bool → Bool → Bool
bool_same true b = b
bool_same false b = not b

break_table :
    all_below 256 (λ x.
      bool_same (is_break (scan_code true x)) (not (ltb x 0x80))
      && bool_same (is_break (scan_code false x)) (not (ltb x 0x80)))
    ≡ true
unfolding all_below scan_code is_break bool_same
break_table = refl

-- A byte is the end of a break code exactly when its top bit is set.
pub is_break-scan_code :
    (ext : Bool) (x : ℕ) → x < 256 → is_break (scan_code ext x) ≡ not (ltb x 0x80)
unfolding bool_same
is_break-scan_code true x h = ground (arith, all_below_sound 256 _ x break_table h)
is_break-scan_code false x h = ground (arith, all_below_sound 256 _ x break_table h)

-- The handler called for one byte after another: the last state, and the characters in order.
unfoldable pub run : Keyboard → List ℕ → Keyboard × List ℕ
run k [] = (k, [])
run k (x ∷ xs) =
    let (k', out) = handler k x in
    let (k'', rest) = run k' xs in (k'', elim out [ none ↦ rest | some c ↦ c ∷ rest ])

-- The keys of the table that are no modifiers.
abbrev pub IsPlain : ℕ → Type 0
IsPlain x = (x < 0x3A) × (x ≢ 0x2A) × (x ≢ 0x36) × (x ≢ 0x1D) × (x ≢ 0x38)

abbrev Ready : Keyboard → Type 0
Ready k = k.ext_code ≡ false

plain-on_modifier : (k : Keyboard) (x : ℕ) → IsPlain x → on_modifier k x ≡ none
unfolding on_modifier
plain-on_modifier k x p = ground arith

plain-on_key : (k : Keyboard) (x : ℕ) → IsPlain x → on_key k x ≡ some (key_char k (key_at x))
unfolding on_key scan_code
plain-on_key k x p =
    let low : bit_and x 0x00FF ≡ x = scan_low false x (omega arith) in
    let lt : ltb x (length keymap) ≡ true = ground arith in rw (low, lt)

plain-make :
    (k : Keyboard) (x : ℕ) → IsPlain x → Ready k → handler k x ≡ (k, some (key_char k (key_at x)))
unfolding handler on_make scan_code
plain-make k x p e =
    let ne : (kb_ext_code == x) ≡ false = ground arith in
    let make : is_break x ≡ false = is_break-scan_code false x (omega arith) ∙ ground arith in
    ground (
      arith,
      ne,
      make,
      plain-on_modifier (record k { ext_code = false }) x p,
      plain-on_key (record k { ext_code = false }) x p,
    )

plain-break : (k : Keyboard) (x : ℕ) → IsPlain x → Ready k → handler k (x + 0x80) ≡ (k, none)
unfolding handler on_break scan_code
plain-break k x p e =
    let ne : (kb_ext_code == x + 0x80) ≡ false = ground arith in
    let stop : is_break (x + 0x80) ≡ true =
      is_break-scan_code false (x + 0x80) (omega arith) ∙ ground arith in
    ground (arith, ne, stop)

-- Pressing and releasing any key of the table that is no modifier answers its one character under
-- the flags held, and leaves every flag as it was.
run-tap :
    (k : Keyboard) (x : ℕ)
    → IsPlain x
    → Ready k
    → run k (x ∷ (x + 0x80) ∷ []) ≡ (k, key_char k (key_at x) ∷ [])
unfolding run
run-tap k x p e = ground (arith, plain-make k x p e, plain-break k x p e)

shift-make : (k : Keyboard) → Ready k → handler k 0x2A ≡ (record k { shift_btn = true }, none)
unfolding handler on_make on_modifier scan_code is_break
shift-make k e = ground arith

shift-break : (k : Keyboard) → Ready k → handler k 0xAA ≡ (record k { shift_btn = false }, none)
unfolding handler on_break scan_code is_break
shift-break k e = ground arith

ctrl-make : (k : Keyboard) → Ready k → handler k 0x1D ≡ (record k { ctrl_btn = true }, none)
unfolding handler on_make on_modifier scan_code is_break
ctrl-make k e = ground arith

ctrl-break : (k : Keyboard) → Ready k → handler k 0x9D ≡ (record k { ctrl_btn = false }, none)
unfolding handler on_break scan_code is_break
ctrl-break k e = ground arith

-- The same while the left shift or the left control key is held.
run-held :
    (k : Keyboard) (x : ℕ)
    → IsPlain x
    → Ready k
    → (run k (0x2A ∷ x ∷ (x + 0x80) ∷ 0xAA ∷ []) ≡ (
      record k { shift_btn = false },
      key_char (record k { shift_btn = true }) (key_at x) ∷ [],
    ))
      × (run k (0x1D ∷ x ∷ (x + 0x80) ∷ 0x9D ∷ []) ≡ (
        record k { ctrl_btn = false },
        key_char (record k { ctrl_btn = true }) (key_at x) ∷ [],
      ))
unfolding run
run-held k x p e =
    let s = record k { shift_btn = true } in
    let c = record k { ctrl_btn = true } in
    (
      ground (arith, shift-make k e, plain-make s x p e, plain-break s x p e, shift-break s e),
      ground (arith, ctrl-make k e, plain-make c x p e, plain-break c x p e, ctrl-break c e),
    )

-- With no extension byte pending, a key of the table that is no modifier, pressed and released
-- alone, while the left shift key is held, or while the left control key is held, gives one
-- character, the one that a US keyboard layout, written down by rows, has for it under the flags;
-- caps lock turns the shift of letters round, and control with l or u gives form feed or 0x15.
-- Afterwards only the held modifier's flag may have changed: it is clear.
pub run-chord :
    (k : Keyboard) (x : ℕ)
    → IsPlain x
    → Ready k
    → (run k (x ∷ (x + 0x80) ∷ []) ≡ (k, typed k.shift_btn k.caps_btn k.ctrl_btn x ∷ []))
      × (run k (0x2A ∷ x ∷ (x + 0x80) ∷ 0xAA ∷ [])
          ≡ (record k { shift_btn = false }, typed true k.caps_btn k.ctrl_btn x ∷ []))
      × (run k (0x1D ∷ x ∷ (x + 0x80) ∷ 0x9D ∷ [])
          ≡ (record k { ctrl_btn = false }, typed k.shift_btn k.caps_btn true x ∷ []))
run-chord k x p e =
    let (shifted, controlled) = run-held k x p e in
    let answer : Keyboard → ℕ → Keyboard × List ℕ = λ k' c. (k', c ∷ []) in
    (
      run-tap k x p e ∙ ap (answer k) (key_char-typed k x p.0),
      shifted
          ∙ ap (answer (record k { shift_btn = false }))
              (key_char-typed (record k { shift_btn = true }) x p.0),
      controlled
          ∙ ap (answer (record k { ctrl_btn = false }))
              (key_char-typed (record k { ctrl_btn = true }) x p.0),
    )
