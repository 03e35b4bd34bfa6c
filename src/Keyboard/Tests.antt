-- ===== src/Keyboard/Tests.antt =====
-- Concrete keys for the theorems on kernel/src/keyboard.c.
use a_os.Base.{◌≡◌, refl, true, false, some, [], ◌∷◌, arith}
use a_os.Keyboard.{Keyboard, KbKey, key_at, key_char, handler}
use a_os.Keyboard.Layout.{typed}
use a_os.Keyboard.Laws.{run, IsPlain, run-chord}

abbrev idle : Keyboard
idle = record {
  ext_code = false;
  shift_btn = false;
  ctrl_btn = false;
  alt_btn = false;
  caps_btn = false;
}

a_key-IsPlain : IsPlain 0x1E
a_key-IsPlain = ground arith

run-chord_example :
    (run idle (0x1E ∷ 0x9E ∷ []) ≡ (idle, typed false false false 0x1E ∷ []))
    × (run idle (0x2A ∷ 0x1E ∷ 0x9E ∷ 0xAA ∷ []) ≡ (idle, typed true false false 0x1E ∷ []))
    × (run idle (0x1D ∷ 0x1E ∷ 0x9E ∷ 0x9D ∷ []) ≡ (idle, typed false false true 0x1E ∷ []))
run-chord_example = run-chord idle 0x1E a_key-IsPlain refl

capital_typed : typed true false false 0x1E ≡ b'A'
unfolding typed
capital_typed = refl

a_key_pressed : (handler idle 0x1E).1 ≡ some 97
unfolding handler a_os.Keyboard.is_break a_os.Keyboard.scan_code a_os.Keyboard.on_make
    a_os.Keyboard.on_modifier a_os.Keyboard.on_key key_char key_at
a_key_pressed = refl
