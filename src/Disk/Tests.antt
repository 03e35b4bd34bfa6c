-- ===== src/Disk/Tests.antt =====
-- Transfers of a few sectors.
use a_os.Base.{ℕ, ◌+◌, ◌*◌, ◌%◌, ◌≡◌, refl, false, ltb, if◌then◌else◌, min}
use a_os.Disk.{Bytes, blank, ide_read}
use a_os.Disk.Rounds.{ide_read-bytes}

-- Every byte of sector `n` is `n`.
abbrev numbered : Bytes
numbered a = a_os.Base.◌/◌ a 512

ide_read-bytes_example :
    ide_read numbered 3 blank 300 140000
    ≡ (if ltb 140000 (300 * 512) then numbered (3 * 512 + 140000 % (256 * 512)) else 0)
ide_read-bytes_example = ide_read-bytes numbered 3 blank 300 140000
