-- ===== src/Printf/Tests.antt =====
-- Formats with each conversion, for the theorems on lib/src/stdio.c.
use a_os.Base.{◌-◌, ◌^◌, ◌≡◌, refl, some, [], ◌∷◌, arith}
use a_os.Printf.{arg_int, arg_char, arg_str, itoa, vsprintf}
use a_os.Printf.Number.{Numeral, itoa-Numeral}

-- "a\t%d,%x%c%s" with -12, 255, '!' and "ok"
every_conversion :
    vsprintf
      (0x61 ∷ 9 ∷ 0x25 ∷ 0x64 ∷ 0x2C ∷ 0x25 ∷ 0x78 ∷ 0x25 ∷ 0x63 ∷ 0x25 ∷ 0x73 ∷ [])
      (arg_int (2 ^ 32 - 12) ∷ arg_int 255 ∷ arg_char 0x21 ∷ arg_str (0x6F ∷ 0x6B ∷ []) ∷ [])
    ≡ some (
        0x61 ∷ 0x20 ∷ 0x20 ∷ 0x20 ∷ 0x2D ∷ 0x31 ∷ 0x32 ∷ 0x2C ∷ 0x46 ∷ 0x46 ∷ 0x21 ∷ 0x6F ∷ 0x6B
        ∷ [])
unfolding vsprintf a_os.Printf.format_loop a_os.Printf.plain a_os.Printf.convert
    a_os.Printf.and_rest a_os.Printf.put_int itoa a_os.Printf.put_digit a_os.Printf.digit
    a_os.Printf.spaces
every_conversion = refl

-- 0xC0FFEE in hexadecimal
itoa-Numeral_example :
    Numeral 16 0xC0FFEE (0x30 ∷ 0x78 ∷ []) (itoa 32 0xC0FFEE (0x30 ∷ 0x78 ∷ []) 16)
itoa-Numeral_example =
    itoa-Numeral 31 0xC0FFEE (0x30 ∷ 0x78 ∷ []) 16 (omega arith) (omega arith) (omega arith)
