-- ===== src/Fs/Numbers.antt =====
-- The inode numbers of the partitions that `fs_init` of kernel/src/fs.c mounts.
use a_os.Base.{
  ℕ, zero, suc, ◌+◌, ◌-◌, ◌^◌, ◌≤◌, ◌<◌, ◌≡◌, refl, sym, ap, ◌∙◌, true, false, some, List, [], ◌∷◌,
  ◌++◌, leb, >>=-some, eq_of_some, get_elem?, arith,
}
use a_os.Base.Words.{add32, sub32}
use a_os.Inode.{Volume, inode_get_ptn}
use a_os.Dir.{FileSystem}
use a_os.Fs.{fs_mount}
use a_os.Fs.Root.{Partition, prepared, root_install, root_dir_init, mount_all, fs_init, entry_index}

-- The number of inodes of all the partitions.
abbrev pub inode_count : List Volume → ℕ
inode_count [] = 0
inode_count (v ∷ ptns) = v.inode_cnt + inode_count ptns

-- The numbers of each partition start behind those of the one before.
abbrev Consecutive : (first : ℕ) → List Volume → Type 0
Consecutive first [] = Unit {0}
Consecutive first (v ∷ ptns) = (v.inode_base ≡ first) × Consecutive (first + v.inode_cnt) ptns

inode_count-append :
    (ptns : List Volume) (v : Volume)
    → inode_count (ptns ++ v ∷ []) ≡ inode_count ptns + v.inode_cnt
inode_count-append [] v = omega arith
inode_count-append (u ∷ ptns) v = omega (arith, inode_count-append ptns v)

Consecutive-append :
    (first : ℕ) (ptns : List Volume) (v : Volume)
    → Consecutive first ptns
    → v.inode_base ≡ first + inode_count ptns
    → Consecutive first (ptns ++ v ∷ [])
Consecutive-append first [] v c e = (omega arith, tt)
Consecutive-append first (u ∷ ptns) v (b, c) e =
    (b, Consecutive-append (first + u.inode_cnt) ptns v c (omega arith))

-- A number inside the range of a partition of the list leads to that partition.
lookup_number :
    (first : ℕ) (ptns : List Volume) (k : ℕ) (v : Volume) (n : ℕ)
    → 0 < first
    → first + inode_count ptns ≤ 2 ^ 32
    → Consecutive first ptns
    → get_elem? ptns k ≡ some v
    → v.inode_base ≤ n
    → n < v.inode_base + v.inode_cnt
    → (first ≤ n) × (inode_get_ptn ptns n ≡ some v)
unfolding inode_get_ptn
lookup_number first [] k v n pos small c e lo hi = cc
lookup_number first (u ∷ ptns) zero v n pos small (b, c) e lo hi =
    let same = eq_of_some u v e in
    let base : u.inode_base ≡ v.inode_base = ap (λ (x : Volume). x.inode_base) same in
    let cnt : u.inode_cnt ≡ v.inode_cnt = ap (λ (x : Volume). x.inode_cnt) same in
    let from : leb u.inode_base n ≡ true = ground (arith, base) in
    let to : leb n (sub32 (add32 u.inode_base u.inode_cnt) 1) ≡ true =
      ground (arith, base, cnt, b) in
    (omega (arith, base), rw (from, to) e)
lookup_number first (u ∷ ptns) (suc k) v n pos small (b, c) e lo hi =
    let (behind, found) =
      lookup_number (first + u.inode_cnt) ptns k v n (omega arith) (omega arith) c e lo hi in
    let past : leb n (sub32 (add32 u.inode_base u.inode_cnt) 1) ≡ false = ground (arith, b) in
    let from : leb u.inode_base n ≡ true = ground (arith, b) in (omega arith, rw (from, past) found)

root_install-ptns :
    (fs fs' : FileSystem) (name : List ℕ) (base : ℕ)
    → root_install fs name base ≡ some fs'
    → fs'.ptns ≡ fs.ptns
unfolding root_install
root_install-ptns fs fs' name base e =
    let (k, _, e1) = >>=-some (entry_index 10 _ 0) _ e in
    sym (ap (λ (x : FileSystem). x.ptns) (eq_of_some _ fs' e1))

mounted_base :
    (p : Partition) (max : ℕ)
    → ((fs_mount (prepared p) p.start_lba 0 max).0.inode_base ≡ add32 max 1)
      × ((fs_mount (prepared p) p.start_lba 0 max).1
          ≡ add32 max (fs_mount (prepared p) p.start_lba 0 max).0.inode_cnt)
unfolding fs_mount
mounted_base p max = (refl, refl)

-- Mounting more partitions takes no number away.
mount_all-le :
    (ps : List Partition) (fs fs' : FileSystem) (max : ℕ)
    → mount_all ps fs max ≡ some fs'
    → inode_count fs.ptns ≤ inode_count fs'.ptns
unfolding mount_all
mount_all-le [] fs fs' max e =
    let same = ap (λ (x : FileSystem). inode_count x.ptns) (eq_of_some fs fs' e) in
    omega (arith, same)
mount_all-le (p ∷ ps) fs fs' max e =
    let m = fs_mount (prepared p) p.start_lba 0 max in
    let (fs1, e1, e2) =
      >>=-some (root_install (record fs { ptns = fs.ptns ++ m.0 ∷ [] }) p.name m.0.inode_base) _
        e in
    let added =
      ap inode_count (
        root_install-ptns (record fs { ptns = fs.ptns ++ m.0 ∷ [] }) fs1 p.name m.0.inode_base
          e1) in
    omega (arith, mount_all-le ps fs1 fs' m.1 e2, added, inode_count-append fs.ptns m.0)

mount_all-Consecutive :
    (ps : List Partition) (fs fs' : FileSystem) (max : ℕ)
    → Consecutive 1 fs.ptns
    → inode_count fs.ptns ≡ max
    → mount_all ps fs max ≡ some fs'
    → inode_count fs'.ptns < 2 ^ 32 - 1
    → Consecutive 1 fs'.ptns
unfolding mount_all
mount_all-Consecutive [] fs fs' max c n e small = rw (← (eq_of_some fs fs' e)) c
mount_all-Consecutive (p ∷ ps) fs fs' max c n e small =
    let m = fs_mount (prepared p) p.start_lba 0 max in
    let (fs1, e1, e2) =
      >>=-some (root_install (record fs { ptns = fs.ptns ++ m.0 ∷ [] }) p.name m.0.inode_base) _
        e in
    let ptns1 =
      root_install-ptns (record fs { ptns = fs.ptns ++ m.0 ∷ [] }) fs1 p.name m.0.inode_base e1 in
    let more = mount_all-le ps fs1 fs' m.1 e2 in
    let count = ap inode_count ptns1 ∙ inode_count-append fs.ptns m.0 in
    let (base, next) = mounted_base p max in
    mount_all-Consecutive ps fs1 fs' m.1
      (rw ptns1 (Consecutive-append 1 fs.ptns m.0 c (omega (arith, base, more, count, n, small))))
      (omega (arith, next, count, more, n, small)) e2 small

-- After `fs_init`, with fewer than 2 ^ 32 - 1 inodes on all partitions together, `inode_get_ptn` of
-- a number from a partition's first to its last answers that partition, and the number is not 0,
-- that of the root directory.
pub fs_init-numbers :
    (addr : ℕ) (ps : List Partition) (fs : FileSystem) (k : ℕ) (v : Volume) (n : ℕ)
    → fs_init addr ps ≡ some fs
    → inode_count fs.ptns < 2 ^ 32 - 1
    → get_elem? fs.ptns k ≡ some v
    → v.inode_base ≤ n
    → n < v.inode_base + v.inode_cnt
    → (0 < n) × (inode_get_ptn fs.ptns n ≡ some v)
unfolding fs_init root_dir_init
fs_init-numbers addr ps fs k v n e small at lo hi =
    let numbered = mount_all-Consecutive ps (root_dir_init addr) fs 0 tt refl e small in
    let (from, found) =
      lookup_number 1 fs.ptns k v n (omega arith) (omega arith) numbered at lo hi in
    (from, found)
