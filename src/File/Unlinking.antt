-- ===== src/File/Unlinking.antt =====
-- `sys_unlink` of kernel/src/file.c while files are open.
use a_os.Base.{
  ℕ, zero, suc, ◌+◌, ◌-◌, ◌≤◌, ◌<◌, ◌≡◌, ◌≢◌, refl, sym, Bool, false, none, some, List, ◌==◌,
  >>=-some, fst_of_some, arith, Bool-cases, inl, inr,
}
use a_os.Inode.{minus_one}
use a_os.Dir.{FileSystem, ft_file}
use a_os.Dir.Search.{dir_search_name, dir_parse_path}
use a_os.File.{Handle, Files, file_at}
use a_os.File.Calls.{unlink_step, unlink_scan, unlink_child, unlink_parsed, sys_unlink}

unlink_step-none : (h : Handle) → unlink_step h none ≡ none
unfolding unlink_step
unlink_step-none Handle.null = refl
unlink_step-none (Handle.inode i_no) = ground arith
unlink_step-none (Handle.ioq q) = refl

-- An entry that some file has open.
abbrev pub InUse : Files → (fd : ℕ) → Type 0
InUse files fd = (i_no : ℕ) × ((file_at files fd).inode ≡ Handle.inode i_no) × (i_no ≢ 0)

unlink_scan-busy :
    (n : ℕ) (files : Files) (i i_child fd : ℕ)
    → i ≤ fd
    → fd < i + n
    → InUse files fd
    → unlink_scan n files i i_child ≡ none
unfolding unlink_scan
unlink_scan-busy zero files i i_child fd lo hi used = absurd (omega arith)
unlink_scan-busy (suc n) files i i_child fd lo hi (i_no, is, ne) = elim (Bool-cases (i == fd)) [
  | inl here ↦
      let same : i ≡ fd = ground arith in
      let live : (i_no == 0) ≡ false = ground arith in
      rw (same, is) (unfold unlink_step in rw live refl)
  | inr later ↦
      rw (unlink_scan-busy n files (i + 1) _ fd (ground arith) (omega arith) (i_no, is, ne))
        (unlink_step-none (file_at files i).inode)
]

-- While some entry of the table, the fourth or a later one, has an inode open whose number is not
-- 0, `sys_unlink` of any path returns -1 whenever it returns.
pub sys_unlink-InUse :
    (table_size : ℕ) (fs : FileSystem) (files : Files) (path : List ℕ) (fd : ℕ) (r : Bool)
    (fs' : FileSystem)
    → 3 ≤ fd
    → fd < table_size
    → InUse files fd
    → sys_unlink table_size fs files path ≡ some (r, fs')
    → r ≡ false
unfolding sys_unlink unlink_parsed unlink_child
sys_unlink-InUse table_size fs files path fd r fs' lo hi used e =
    let busy =
      λ (i_child : ℕ). unlink_scan-busy (table_size - 3) files 3 i_child fd lo (omega arith) used in
    let (p, _, e1) = >>=-some (dir_parse_path fs path) _ e in
    elim (Bool-cases (p.0 == minus_one)) [
      | inl invalid ↦ sym (fst_of_some false r p.2 fs' (rw invalid at e1))
      | inr parsed ↦
          let (c, _, e2) = >>=-some (dir_search_name p.2 p.0 p.1 ft_file) _ (rw parsed at e1) in
          elim (Bool-cases (c.0 == minus_one)) [
            | inl missing ↦ sym (fst_of_some false r c.1 fs' (rw missing at e2))
            | inr found ↦ sym (fst_of_some false r c.1 fs' (rw (busy c.0) at (rw found at e2)))
          ]
    ]
