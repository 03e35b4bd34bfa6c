-- ===== src/Inode/Cache.antt =====
-- `inode_open` and `inode_close`: the reference count of an inode, and the list of open inodes.
use a_os.Base.{
  ℕ, ◌^◌, ◌<◌, ◌≡◌, ◌≢◌, refl, sym, ap, ◌∙◌, true, false, Option, none, some, List, [], ◌∷◌, ◌==◌,
  arith, Bool-cases, inl, inr,
}
use a_os.Base.Words.{add32, sub32}
use a_os.Bitmap.{check}
use a_os.Inode.{Inode, Volume}
use a_os.Inode.Table.{
  cached, counted, uncounted, open_from_disk, open_on, load_inode, inode_open, inode_close,
  inode_table_update,
}
use a_os.Inode.TableLaws.{Storable, load-store_same}

uncounted-absent : (num : ℕ) (xs : List Inode) → cached num xs ≡ none → uncounted num xs ≡ xs
unfolding cached uncounted
uncounted-absent num [] e = refl
uncounted-absent num (i ∷ xs) e = elim (Bool-cases (i.i_no == num)) [
  | inl hit ↦ absurd (ground (arith, e))
  | inr miss ↦
      let absent : cached num xs ≡ none = ground (arith, e) in
      rw miss (ap (λ t. i ∷ t) (uncounted-absent num xs absent))
]

uncounted-counted :
    (num : ℕ) (xs : List Inode) (i : Inode)
    → cached num xs ≡ some i
    → 0 < i.open_cnt
    → i.open_cnt < 2 ^ 32
    → uncounted num (counted num xs) ≡ xs
unfolding cached counted uncounted
uncounted-counted num [] i e pos small = ground (arith, e)
uncounted-counted num (x ∷ xs) i e pos small = elim (Bool-cases (x.i_no == num)) [
  | inl hit ↦
      let same : x ≡ i = ground (arith, e, hit) in
      let lo : 0 < x.open_cnt = rw same pos in
      let hi : x.open_cnt < 2 ^ 32 = rw same small in
      let again : sub32 (add32 x.open_cnt 1) 1 ≡ x.open_cnt = omega arith in
      let kept : (x.open_cnt == 0) ≡ false = ground arith in rw (hit, hit, again, kept) refl
  | inr miss ↦
      let later : cached num xs ≡ some i = ground (arith, e, miss) in
      rw (miss, miss) (ap (λ t. x ∷ t) (uncounted-counted num xs i later pos small))
]

cached-counted :
    (num : ℕ) (xs : List Inode) (i : Inode)
    → cached num xs ≡ some i
    → cached num (counted num xs) ≡ some (record i { open_cnt = add32 i.open_cnt 1 })
unfolding cached counted
cached-counted num [] i e = ground (arith, e)
cached-counted num (x ∷ xs) i e = elim (Bool-cases (x.i_no == num)) [
  | inl hit ↦
      let same : x ≡ i = ground (arith, e, hit) in
      rw (hit, hit) (ap (λ (t : Inode). some (record t { open_cnt = add32 t.open_cnt 1 })) same)
  | inr miss ↦
      let later : cached num xs ≡ some i = ground (arith, e, miss) in
      rw (miss, miss) (cached-counted num xs i later)
]

-- Every open inode with the number `num` has a count that fits and is not 0.
unfoldable pub Counted : Volume → ℕ → Type 0
Counted v num =
    (i : Inode) → cached num v.open_inodes ≡ some i → (0 < i.open_cnt) × (i.open_cnt < 2 ^ 32)

open_step :
    (v : Volume) (num : ℕ) (root : Inode)
    → num ≢ 0
    → inode_open root v num ≡ open_on v num (cached num v.open_inodes)
unfolding inode_open
open_step v num root ne = let other : (num == 0) ≡ false = ground arith in rw other refl

open-cached :
    (root i : Inode) (v : Volume) (num : ℕ)
    → num ≢ 0
    → cached num v.open_inodes ≡ some i
    → (inode_open root v num).0 ≡ some (record i { open_cnt = add32 i.open_cnt 1 })
unfolding open_on
open-cached root i v num ne c = ap (λ p. p.0) (open_step v num root ne ∙ ap (open_on v num) c)

module _ (v : Volume) (num : ℕ) (small : num < 2 ^ 32) (base : v.inode_base < 2 ^ 32) where
  number_back : add32 v.inode_base (sub32 num v.inode_base) ≡ num
  number_back = omega arith

  number_hit : (add32 v.inode_base (sub32 num v.inode_base) == num) ≡ true
  number_hit = ground (arith, number_back)

  close_from_disk :
      cached num v.open_inodes ≡ none
      → uncounted num (open_from_disk v num).1.open_inodes ≡ v.open_inodes
  unfolding open_from_disk uncounted load_inode
  close_from_disk absent = elim (Bool-cases (check v.inode_btmp (sub32 num v.inode_base))) [
    | inl valid ↦ rw (valid, number_hit) refl
    | inr invalid ↦ rw invalid (uncounted-absent num v.open_inodes absent)
  ]

  close_on :
      (o : Option Inode)
      → cached num v.open_inodes ≡ o
      → Counted v num
      → uncounted num (open_on v num o).1.open_inodes ≡ v.open_inodes
  unfolding open_on Counted
  close_on none e counts = close_from_disk e
  close_on (some i) e counts = uncounted-counted num v.open_inodes i e (counts i e).0 (counts i e).1

  open_rest :
      (o : Option Inode)
      → (open_on v num o).1 ≡ record v { open_inodes = (open_on v num o).1.open_inodes }
  unfolding open_on open_from_disk
  open_rest none = elim (Bool-cases (check v.inode_btmp (sub32 num v.inode_base))) [
    | inl valid ↦ rw valid refl
    | inr invalid ↦ rw invalid refl
  ]
  open_rest (some i) = refl

  -- With numbers below 2 ^ 32, and a count of references that is positive and below 2 ^ 32 if the
  -- inode is open, `inode_close` after `inode_open` of the same number leaves the volume exactly as
  -- it was, whether the inode was open, is read from the disk, is not in use or is the root
  -- directory's.
  pub close-open : (root : Inode) → Counted v num → inode_close (inode_open root v num).1 num ≡ v
  unfolding inode_close inode_open
  close-open root counts = elim (Bool-cases (num == 0)) [
    | inl is_root ↦ rw is_root refl
    | inr other ↦ rw other (
        ap (λ (t : Volume). record t { open_inodes = uncounted num t.open_inodes })
          (open_rest (cached num v.open_inodes))
        ∙ ap (λ (t : List Inode). record v { open_inodes = t })
            (close_on (cached num v.open_inodes) refl counts))
  ]

  abbrev pub from_disk : Inode
  from_disk =
      load_inode v.disk v.inode_table_lba (sub32 num v.inode_base)
        (add32 v.inode_base (sub32 num v.inode_base))

  open_valid :
      check v.inode_btmp (sub32 num v.inode_base) ≡ true
      → open_from_disk v num
        ≡ (some from_disk, record v { open_inodes = from_disk ∷ v.open_inodes })
  unfolding open_from_disk
  open_valid valid = rw valid refl

  open_invalid :
      check v.inode_btmp (sub32 num v.inode_base) ≡ false → open_from_disk v num ≡ (none, v)
  unfolding open_from_disk
  open_invalid invalid = rw invalid refl

  cached_from_disk :
      (i : Inode)
      → (open_from_disk v num).0 ≡ some i
      → cached num (open_from_disk v num).1.open_inodes ≡ some i
  unfolding cached load_inode
  cached_from_disk i e = elim (Bool-cases (check v.inode_btmp (sub32 num v.inode_base))) [
    | inl valid ↦ rw (open_valid valid, number_hit) (sym (ap (λ p. p.0) (open_valid valid)) ∙ e)
    | inr invalid ↦
        let nothing : none ≡ some i = sym (ap (λ p. p.0) (open_invalid invalid)) ∙ e in
        absurd (ground (arith, nothing))
  ]

  cached_on :
      (o : Option Inode) (i : Inode)
      → cached num v.open_inodes ≡ o
      → (open_on v num o).0 ≡ some i
      → cached num (open_on v num o).1.open_inodes ≡ some i
  unfolding open_on
  cached_on none i c e = cached_from_disk i e
  cached_on (some j) i c e = cached-counted num v.open_inodes j c ∙ e

  -- An inode that `inode_open` answers is in the list of open inodes.
  pub cached-open :
      (root i : Inode)
      → num ≢ 0
      → (inode_open root v num).0 ≡ some i
      → cached num (inode_open root v num).1.open_inodes ≡ some i
  cached-open root i ne e =
      let step = open_step v num root ne in
      rw step (cached_on (cached num v.open_inodes) i refl (sym (ap (λ p. p.0) step) ∙ e))

-- With numbers below 2 ^ 32, when `inode_open` of a number that is not 0 answers an inode, a second
-- `inode_open` answers the same inode with one reference more.
pub open-open :
    (root i : Inode) (v : Volume) (num : ℕ)
    → num < 2 ^ 32
    → v.inode_base < 2 ^ 32
    → num ≢ 0
    → (inode_open root v num).0 ≡ some i
    → (inode_open root (inode_open root v num).1 num).0
      ≡ some (record i { open_cnt = add32 i.open_cnt 1 })
open-open root i v num small base ne e =
    open-cached root i (inode_open root v num).1 num ne (cached-open v num small base root i ne e)

-- After `inode_table_update` of an inode with 13 blocks whose fields are words, whose number is in
-- use and not 0, and which is not open, with the partition's first number below 2 ^ 32,
-- `inode_open` of its number reads the same inode from the disk, with one reference.
pub open-update :
    (root inode : Inode) (v : Volume)
    → Storable inode
    → v.inode_base < 2 ^ 32
    → inode.i_no ≢ 0
    → cached inode.i_no v.open_inodes ≡ none
    → check v.inode_btmp (sub32 inode.i_no v.inode_base) ≡ true
    → (inode_open root (inode_table_update v inode) inode.i_no).0
      ≡ some (record inode { open_cnt = 1 })
unfolding inode_table_update open_on
open-update root inode v s base ne absent valid =
    let w : Volume = inode_table_update v inode in
    let num : ℕ = inode.i_no in
    ap (λ p. p.0)
      (open_step w num root ne
        ∙ ap (open_on w num) absent
        ∙ open_valid w num (s.words 0) base valid)
    ∙ ap some (
        load-store_same v.disk v.inode_table_lba (sub32 num v.inode_base) inode
          (add32 v.inode_base (sub32 num v.inode_base)) s)
    ∙ ap (λ (t : ℕ). some (record inode { i_no = t; open_cnt = 1 }))
        (number_back v num (s.words 0) base)
