-- ===== src/Disk/Scan.antt =====
-- `ide_get_partition` of kernel/src/ide.c on the boot sectors of a disk.
mod Tests
use a_os.Base.{
  ℕ, zero, suc, ◌+◌, ◌^◌, ◌<◌, ◌≤◌, ◌≡◌, ◌≢◌, refl, sym, ap, ◌∙◌, true, false, Option, none, some,
  List, [], ◌∷◌, ◌++◌, ◌==◌, if◌then◌else◌, ◌>>=◌, length, arith,
}
use a_os.Base.Words.{add32}
use a_os.Disk.{Bytes, blank, ide_read}
use a_os.Disk.Partition.{
  PtnTable, ptable, IdePtn, Found, add_ptn, entry, entries, ide_get_partition,
}

-- An entry that names a partition itself.
abbrev pub IsPlain : PtnTable → Type 0
IsPlain p = (p.type ≢ 0) × (p.type ≢ 5)

-- The boot sector at an offset from a base.
abbrev pub boot_sector : Bytes → (base offset : ℕ) → Bytes
boot_sector disk base offset = ide_read disk (add32 base offset) blank 1

-- The partition that entry `idx` of a boot sector names, with the number `nr`.
abbrev pub named : Bytes → (base offset idx nr : ℕ) → IdePtn
named disk base offset idx nr =
    let p = ptable (boot_sector disk base offset) idx in
    record { nr = nr; start_lba = add32 (add32 base offset) p.start_lba; sec_cnt = p.sec_cnt }

-- The extended boot sectors from an offset on: each names a partition in its first entry, and all but
-- the last one the offset of the next in the second. The partitions are numbered from `nr` on.
pub data Chain (disk : Bytes) (base : ℕ) : (offset nr : ℕ) → List IdePtn → Type 0 where
  last :
      (offset nr : ℕ)
      → IsPlain (ptable (boot_sector disk base offset) 0)
      → ((ptable (boot_sector disk base offset) 1).type ≡ 0)
      → ((ptable (boot_sector disk base offset) 2).type ≡ 0)
      → ((ptable (boot_sector disk base offset) 3).type ≡ 0)
      → Chain disk base offset nr (named disk base offset 0 nr ∷ [])
  link :
      (offset nr : ℕ) (ps : List IdePtn)
      → IsPlain (ptable (boot_sector disk base offset) 0)
      → ((ptable (boot_sector disk base offset) 1).type ≡ 5)
      → ((ptable (boot_sector disk base offset) 2).type ≡ 0)
      → ((ptable (boot_sector disk base offset) 3).type ≡ 0)
      → Chain disk base (ptable (boot_sector disk base offset) 1).start_lba (add32 nr 1) ps
      → Chain disk base offset nr (named disk base offset 0 nr ∷ ps)

entry-unused :
    (get : (base offset : ℕ) → Found → Option Found) (p : PtnTable) (base offset idx : ℕ)
    (s : Found)
    → p.type ≡ 0
    → entry get p base offset idx s ≡ some s
unfolding entry
entry-unused get p base offset idx s is = let e : (p.type == 0) ≡ true = ground arith in rw e refl

entry-plain :
    (get : (base offset : ℕ) → Found → Option Found) (p : PtnTable) (base offset idx : ℕ)
    (s : Found)
    → IsPlain p
    → entry get p base offset idx s ≡ some (add_ptn base offset idx p s)
unfolding entry
entry-plain get p base offset idx s (used, inner) =
    let e0 : (p.type == 0) ≡ false = ground arith in
    let e5 : (p.type == 5) ≡ false = ground arith in rw (e0, e5) refl

entry-next :
    (get : (base offset : ℕ) → Found → Option Found) (p : PtnTable) (base offset idx : ℕ)
    (s : Found)
    → p.type ≡ 5
    → base ≢ 0
    → entry get p base offset idx s ≡ get base p.start_lba s
unfolding entry
entry-next get p base offset idx s is inner =
    let e0 : (p.type == 0) ≡ false = ground arith in
    let e5 : (p.type == 5) ≡ true = ground arith in
    let eb : (base == 0) ≡ false = ground arith in rw (e0, e5, eb) refl

entry-first :
    (get : (base offset : ℕ) → Found → Option Found) (p : PtnTable) (offset idx : ℕ) (s : Found)
    → p.type ≡ 5
    → entry get p 0 offset idx s ≡ get p.start_lba 0 (record s { ptn_nr = 5 })
unfolding entry
entry-first get p offset idx s is =
    let e0 : (p.type == 0) ≡ false = ground arith in
    let e5 : (p.type == 5) ≡ true = ground arith in rw (e0, e5) refl

entries-four :
    (get : (base offset : ℕ) → Found → Option Found) (bs : Bytes) (base offset : ℕ)
    (s s1 s2 s3 s4 : Found)
    → entry get (ptable bs 0) base offset 0 s ≡ some s1
    → entry get (ptable bs 1) base offset 1 s1 ≡ some s2
    → entry get (ptable bs 2) base offset 2 s2 ≡ some s3
    → entry get (ptable bs 3) base offset 3 s3 ≡ some s4
    → entries get 4 bs base offset 0 s ≡ some s4
unfolding entries
entries-four get bs base offset s s1 s2 s3 s4 e0 e1 e2 e3 = rw (e0, e1, e2, e3) refl

append_snoc :
    (xs : List IdePtn) (y : IdePtn) (ys : List IdePtn) → (xs ++ y ∷ []) ++ ys ≡ xs ++ y ∷ ys
append_snoc [] y ys = refl
append_snoc (x ∷ xs) y ys = rw (append_snoc xs y ys) refl

-- What an inner boot sector's own partition adds.
add_ptn-inner :
    (disk : Bytes) (base offset nr : ℕ) (s : Found)
    → base ≢ 0
    → s.ptn_nr ≡ nr
    → add_ptn base offset 0 (ptable (boot_sector disk base offset) 0) s
      ≡ record { ptn_nr = add32 nr 1; ptn_list = s.ptn_list ++ named disk base offset 0 nr ∷ [] }
add_ptn-inner disk base offset nr s inner is =
    let eb : (base == 0) ≡ false = ground arith in rw (eb, is) refl

scan-Chain :
    (disk : Bytes) (base fuel offset nr : ℕ) (ps : List IdePtn) (s : Found)
    → base ≢ 0
    → Chain disk base offset nr ps
    → length ps ≤ fuel
    → s.ptn_nr ≡ nr
    → (s' : Found) × (ide_get_partition fuel disk base offset s ≡ some s')
      × (s'.ptn_list ≡ s.ptn_list ++ ps)
unfolding ide_get_partition
scan-Chain disk base zero offset nr _ s inner (last _ _ plain e1 e2 e3) le is = absurd (omega arith)
scan-Chain disk base zero offset nr _ s inner (link _ _ ps plain e1 e2 e3 rest) le is =
    absurd (omega arith)
scan-Chain disk base (suc fuel) offset nr _ s inner (last _ _ plain e1 e2 e3) le is =
    let bs = boot_sector disk base offset in
    let get = ide_get_partition fuel disk in
    let s1 = add_ptn base offset 0 (ptable bs 0) s in
    (
      s1,
      entries-four get bs base offset s s1 s1 s1 s1
          (entry-plain get (ptable bs 0) base offset 0 s plain)
          (entry-unused get (ptable bs 1) base offset 1 s1 e1)
          (entry-unused get (ptable bs 2) base offset 2 s1 e2)
          (entry-unused get (ptable bs 3) base offset 3 s1 e3),
      ap (λ (x : Found). x.ptn_list) (add_ptn-inner disk base offset nr s inner is),
    )
scan-Chain disk base (suc fuel) offset nr _ s inner (link _ _ ps plain e1 e2 e3 rest) le is =
    let bs = boot_sector disk base offset in
    let get = ide_get_partition fuel disk in
    let s1 = add_ptn base offset 0 (ptable bs 0) s in
    let made = add_ptn-inner disk base offset nr s inner is in
    let (s2, got, listed) =
      scan-Chain disk base fuel (ptable bs 1).start_lba (add32 nr 1) ps s1 inner rest (omega arith)
        (ap (λ (x : Found). x.ptn_nr) made) in
    (
      s2,
      entries-four get bs base offset s s1 s2 s2 s2
          (entry-plain get (ptable bs 0) base offset 0 s plain)
          (entry-next get (ptable bs 1) base offset 1 s1 e1 inner ∙ got)
          (entry-unused get (ptable bs 2) base offset 2 s2 e2)
          (entry-unused get (ptable bs 3) base offset 3 s2 e3),
      listed
          ∙ ap (λ (x : Found). x.ptn_list ++ ps) made
          ∙ append_snoc s.ptn_list (named disk base offset 0 nr) ps,
    )

-- What an entry of the master boot record stands for, when no chain is longer than `fuel`: nothing, a
-- primary partition with the entry's number, or the logical partitions from 5 on.
pub data Stands (disk : Bytes) (fuel idx : ℕ) : List IdePtn → Type 0 where
  unused : ((ptable (boot_sector disk 0 0) idx).type ≡ 0) → Stands disk fuel idx []
  primary :
      IsPlain (ptable (boot_sector disk 0 0) idx)
      → Stands disk fuel idx (named disk 0 0 idx (idx + 1) ∷ [])
  logical :
      (ps : List IdePtn)
      → ((ptable (boot_sector disk 0 0) idx).type ≡ 5)
      → ((ptable (boot_sector disk 0 0) idx).start_lba ≢ 0)
      → Chain disk (ptable (boot_sector disk 0 0) idx).start_lba 0 5 ps
      → (length ps ≤ fuel)
      → Stands disk fuel idx ps

-- The list behind a round is the one before it with the partitions of the entry.
abbrev Listed : Option Found → Found → List IdePtn → Type 0
Listed r s ps = (s' : Found) × (r ≡ some s') × (s'.ptn_list ≡ s.ptn_list ++ ps)

append_nil : (xs : List IdePtn) → xs ++ [] ≡ xs
append_nil [] = refl
append_nil (x ∷ xs) = rw (append_nil xs) refl

entry-Listed :
    (disk : Bytes) (fuel idx : ℕ) (ps : List IdePtn) (s : Found)
    → Stands disk fuel idx ps
    → Listed
        (entry (ide_get_partition fuel disk) (ptable (boot_sector disk 0 0) idx) 0 0 idx s)
        s
        ps
entry-Listed disk fuel idx _ s (unused e) =
    (s, entry-unused _ _ 0 0 idx s e, sym (append_nil s.ptn_list))
entry-Listed disk fuel idx _ s (primary plain) =
    (add_ptn 0 0 idx (ptable (boot_sector disk 0 0) idx) s, entry-plain _ _ 0 0 idx s plain, refl)
entry-Listed disk fuel idx _ s (logical ps is inner chain le) =
    let p = ptable (boot_sector disk 0 0) idx in
    let (s', got, listed) =
      scan-Chain disk p.start_lba fuel 0 5 ps (record s { ptn_nr = 5 }) inner chain le refl in
    (s', entry-first _ p 0 idx s is ∙ got, listed)

-- When each entry of a master boot record is unused, names a primary partition, or an extended one
-- whose boot sectors form a chain of at most `fuel` logical partitions, `ide_get_partition` with a
-- depth of `suc fuel` ends, and adds the partitions to the list in the entries' order: a primary
-- one under its entry's number, the logical ones under the numbers from 5 on.
pub ide_get_partition-Stands :
    (disk : Bytes) (fuel : ℕ) (ps0 ps1 ps2 ps3 : List IdePtn) (s : Found)
    → Stands disk fuel 0 ps0
    → Stands disk fuel 1 ps1
    → Stands disk fuel 2 ps2
    → Stands disk fuel 3 ps3
    → (s' : Found) × (ide_get_partition (suc fuel) disk 0 0 s ≡ some s')
      × (s'.ptn_list ≡ (((s.ptn_list ++ ps0) ++ ps1) ++ ps2) ++ ps3)
unfolding ide_get_partition
ide_get_partition-Stands disk fuel ps0 ps1 ps2 ps3 s e0 e1 e2 e3 =
    let (s1, r1, l1) = entry-Listed disk fuel 0 ps0 s e0 in
    let (s2, r2, l2) = entry-Listed disk fuel 1 ps1 s1 e1 in
    let (s3, r3, l3) = entry-Listed disk fuel 2 ps2 s2 e2 in
    let (s4, r4, l4) = entry-Listed disk fuel 3 ps3 s3 e3 in
    (
      s4,
      entries-four (ide_get_partition fuel disk) (boot_sector disk 0 0) 0 0 s s1 s2 s3 s4 r1 r2 r3
          r4,
      l4
          ∙ ap (λ (l : List IdePtn). l ++ ps3)
              (l3
                ∙ ap (λ (l : List IdePtn). l ++ ps2) (l2 ∙ ap (λ (l : List IdePtn). l ++ ps1) l1)),
    )
