-- ===== src/Printf.antt =====
-- lib/src/stdio.c: `itoa` and `vsprintf`. The text written so far is a list of bytes, and `out` stands
-- behind it. The format is the bytes before its terminating one; the arguments are a list, `none` when
-- one is missing or has another type than its conversion. The result of `vsprintf`, which is read from
-- the bytes behind the text, is left out.
pub mod Number
mod Tests
use a_os.Base.{
  ℕ, zero, suc, ◌+◌, ◌-◌, ◌/◌, ◌%◌, ◌^◌, Bool, ◌||◌, true, false, Option, none, some, List, [], ◌∷◌,
  ◌++◌, length, ltb, leb, ◌==◌, if◌then◌else◌,
}
use a_os.Base.Words.{sub32}

-- What `va_arg` finds: an `int` as its 32 bits, a `char`, or the bytes of a string.
pub data Arg : Type 0 where
  arg_int : ℕ → Arg
  arg_char : ℕ → Arg
  arg_str : List ℕ → Arg

-- `m + '0'` or `m - 10 + 'A'`, as a `char`
digit : ℕ → ℕ
digit m = if ltb m 10 then (m + 0x30) % 256 else (m - 10 + 0x41) % 256

put_digit : ℕ → Option (List ℕ) → Option (List ℕ)
put_digit m none = none
put_digit m (some out) = some (out ++ (digit m ∷ []))

-- `itoa`; `none` when the fuel runs out.
pub itoa : ℕ → (value : ℕ) → List ℕ → (base : ℕ) → Option (List ℕ)
itoa zero value out base = none
itoa (suc fuel) value out base =
    let rest = itoa fuel (value / base) out base in
    put_digit (value % base) (if ltb 0 (value / base) then rest else some out)

spaces : ℕ → List ℕ
spaces zero = []
spaces (suc n) = 0x20 ∷ spaces n

and_rest : List Arg → Option (List ℕ) → Option (List Arg × List ℕ)
and_rest ap none = none
and_rest ap (some out) = some (ap, out)

-- The case 'd' of the switch: a 32-bit number has at most 32 digits.
put_int : List ℕ → ℕ → Option (List ℕ)
put_int out n =
    if leb (2 ^ 31) n then itoa 32 (sub32 0 n) (out ++ (0x2D ∷ [])) 10 else itoa 32 n out 10

-- The switch over the character behind a '%'
convert : ℕ → List Arg → List ℕ → Option (List Arg × List ℕ)
convert c [] out =
    if (c == 0x73) || (c == 0x63) || (c == 0x64) || (c == 0x78) then none else some ([], out)
convert c (arg_int n ∷ ap) out =
    if c == 0x64
    then and_rest ap (put_int out n)
    else if c == 0x78
    then and_rest ap (itoa 32 n out 16)
    else if (c == 0x73) || (c == 0x63)
    then none
    else some (arg_int n ∷ ap, out)
convert c (arg_char b ∷ ap) out =
    if c == 0x63
    then some (ap, out ++ (b ∷ []))
    else if (c == 0x73) || (c == 0x64) || (c == 0x78)
    then none
    else some (arg_char b ∷ ap, out)
convert c (arg_str s ∷ ap) out =
    if c == 0x73
    then some (ap, out ++ s)
    else if (c == 0x63) || (c == 0x64) || (c == 0x78)
    then none
    else some (arg_str s ∷ ap, out)

-- One character outside a conversion: whether it is a '%', and the text.
plain : ℕ → List ℕ → Bool × List ℕ
plain c out =
    if c == 0x09
    then (false, out ++ spaces (4 - length out % 4))
    else if c == 0x25
    then (true, out)
    else (false, out ++ (c ∷ []))

-- The loop of `vsprintf`, from behind a '%' or not. A '%' that ends the format makes the code read on
-- behind the format: `none`.
format_loop : Bool → List ℕ → List Arg → List ℕ → Option (List ℕ)
format_loop true [] ap out = none
format_loop false [] ap out = some out
format_loop false (c ∷ format) ap out =
    let (percent, out') = plain c out in format_loop percent format ap out'
format_loop true (c ∷ format) ap out = elim (convert c ap out) [
  | none ↦ none
  | some next ↦ let (ap', out') = next in format_loop false format ap' out'
]

-- `vsprintf`
pub vsprintf : (format : List ℕ) → List Arg → Option (List ℕ)
vsprintf format ap = format_loop false format ap []
