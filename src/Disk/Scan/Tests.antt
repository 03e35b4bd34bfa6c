-- ===== src/Disk/Scan/Tests.antt =====
-- Tests of `ide_get_partition` in kernel/src/ide.c.
use a_os.Base.{ℕ, ◌≡◌, refl, some, [], ◌∷◌, ◌++◌, ◌==◌, if◌then◌else◌, arith}
use a_os.Disk.{Bytes, ide_read, read_rounds}
use a_os.Disk.Partition.{ptable, IdePtn, Found, ide_get_partition}
use a_os.Disk.Scan.{
  IsPlain, boot_sector, named, Chain, last, link, Stands, unused, primary, logical,
  ide_get_partition-Stands,
}

-- Writes a byte over a disk.
abbrev at_byte : (a b : ℕ) → Bytes → Bytes
at_byte a b disk x = if x == a then b else disk x

-- A primary partition, and an extended one at sector 1024 with two logical partitions, the second of
-- which has its boot sector 512 sectors behind the first.
abbrev drive : Bytes
drive = at_byte 450 0x83 (
    at_byte 454 63 (
      at_byte 466 5 (
        at_byte 471 4 (
          at_byte 524738 0x83 (
            at_byte 524742 63 (
              at_byte 524754 5
                (at_byte 524759 2 (at_byte 786882 0x83 (at_byte 786886 63 (λ _. 0))))))))))

abbrev none_found : Found
none_found = record { ptn_nr = 0; ptn_list = [] }

abbrev second_ptn : IdePtn
second_ptn = named drive 1024 512 0 6

abbrev first_ptn : IdePtn
first_ptn = named drive 1024 0 0 5

primary-IsPlain : IsPlain (ptable (boot_sector drive 0 0) 0)
unfolding ide_read read_rounds
primary-IsPlain = (omega arith, omega arith)

first-IsPlain : IsPlain (ptable (boot_sector drive 1024 0) 0)
unfolding ide_read read_rounds
first-IsPlain = (omega arith, omega arith)

second-IsPlain : IsPlain (ptable (boot_sector drive 1024 512) 0)
unfolding ide_read read_rounds
second-IsPlain = (omega arith, omega arith)

second-Chain : Chain drive 1024 512 6 (second_ptn ∷ [])
unfolding ide_read read_rounds
second-Chain = last 512 6 second-IsPlain refl refl refl

both-Chain : Chain drive 1024 0 5 (first_ptn ∷ second_ptn ∷ [])
unfolding ide_read read_rounds
both-Chain = link 0 5 (second_ptn ∷ []) first-IsPlain refl refl refl second-Chain

two_logical : Stands drive 2 1 (first_ptn ∷ second_ptn ∷ [])
unfolding ide_read read_rounds
two_logical = logical (first_ptn ∷ second_ptn ∷ []) refl (omega arith) both-Chain (omega arith)

third_unused : (ptable (boot_sector drive 0 0) 2).type ≡ 0
unfolding ide_read read_rounds
third_unused = refl

fourth_unused : (ptable (boot_sector drive 0 0) 3).type ≡ 0
unfolding ide_read read_rounds
fourth_unused = refl

second_starts : second_ptn ≡ record { nr = 6; start_lba = 1599; sec_cnt = 0 }
unfolding ide_read read_rounds
second_starts = refl

ide_get_partition-Stands_example :
    (s' : Found) × (ide_get_partition 3 drive 0 0 none_found ≡ some s')
    × (s'.ptn_list
        ≡ ((([] ++ named drive 0 0 0 1 ∷ []) ++ first_ptn ∷ second_ptn ∷ []) ++ []) ++ [])
ide_get_partition-Stands_example =
    ide_get_partition-Stands drive 2 (named drive 0 0 0 1 ∷ []) (first_ptn ∷ second_ptn ∷ []) [] []
      none_found (primary primary-IsPlain) two_logical (unused third_unused) (unused fourth_unused)
