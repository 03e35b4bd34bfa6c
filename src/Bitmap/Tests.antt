-- ===== src/Bitmap/Tests.antt =====
-- Concrete bitmaps for the theorems on kernel/src/bitmap.c.
use a_os.Base.{ℕ, zero, suc, ◌≡◌, refl, some, List, [], ◌∷◌, arith}
use a_os.Bitmap.{Bitmap, init, reset, check, byte, acquire, release, assign}
use a_os.Bitmap.Inv.{IsValid}
use a_os.Bitmap.Acquire.{Acquired, acquire-Acquired, release-acquire}
use a_os.Bitmap.Fresh.{Bytes}

-- Nine bits in use, and a byte that lies behind the bitmap.
abbrev storage : List ℕ
storage = 0xFF ∷ 0x01 ∷ 0xAA ∷ []

abbrev nine_used : Bitmap
nine_used = record { bits = storage; len = 2 }

storage-Bytes : Bytes storage
storage-Bytes zero = omega arith
storage-Bytes (suc zero) = omega arith
storage-Bytes (suc (suc zero)) = omega arith
storage-Bytes (suc (suc (suc i))) = omega arith

nine_used-IsValid : IsValid nine_used
nine_used-IsValid = record { holds = omega arith; small = omega arith; bytes = storage-Bytes }

acquire_three : acquire nine_used 3 ≡ (some 9, record { bits = 0xFF ∷ 0x0F ∷ 0xAA ∷ []; len = 2 })
unfolding acquire a_os.Bitmap.byte_scan a_os.Bitmap.acquire_from a_os.Bitmap.run_scan
    a_os.Bitmap.bit_scan check a_os.Bitmap.test a_os.Bitmap.mark assign a_os.Bitmap.raise
acquire_three = refl

acquire-Acquired_example : Acquired nine_used 3 (acquire nine_used 3)
acquire-Acquired_example = acquire-Acquired nine_used nine_used-IsValid 3 (omega arith)

release-acquire_example :
    (b'' : Bitmap) × (release (record { bits = 0xFF ∷ 0x0F ∷ 0xAA ∷ []; len = 2 }) 9 3 ≡ some b'')
    × IsValid b''
    × (b''.len ≡ 2)
    × ((j : ℕ) → check b'' j ≡ check nine_used j)
release-acquire_example =
    release-acquire nine_used 3 9 nine_used-IsValid (omega arith) acquire_three
