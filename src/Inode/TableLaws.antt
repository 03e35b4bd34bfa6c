-- ===== src/Inode/TableLaws.antt =====
-- Entries of the inode table: what is stored is what is loaded, and other entries stay.
use a_os.Base.{
  ℕ, zero, suc, ◌+◌, ◌-◌, ◌*◌, ◌/◌, ◌^◌, ◌<◌, ◌≡◌, ◌≢◌, refl, sym, ◌∙◌, true, false, List, [], ◌∷◌,
  if◌then◌else◌, length, get_or, arith, Bool-cases, inl, inr,
}
use mathlib.Core.Path.{subst}
use a_os.CString.Copy.{inside}
use a_os.Disk.{Bytes, blank, blit, ide_read}
use a_os.Disk.Rounds.{ide_read-blit, ide_write-blit}
use a_os.Disk.Word.{word_at, word_at-same_at, bytes_of, word_at-bytes_of}
use a_os.Inode.{Inode}
use a_os.Inode.Table.{inode_words, table_offset, store_inode, words_from, load_inode}

-- The first byte of an entry on the disk.
abbrev pub entry_at : (table_lba no_hd : ℕ) → ℕ
entry_at table_lba no_hd = (table_lba + no_hd / 8) * 512 + table_offset no_hd

-- Storing an entry writes its 60 bytes and no other.
pub store_inode-bytes :
    (disk : Bytes) (table_lba no_hd : ℕ) (inode : Inode) (a : ℕ)
    → store_inode disk table_lba no_hd inode a ≡ (
        if inside (entry_at table_lba no_hd) 60 a
        then bytes_of (inode_words inode) (a - entry_at table_lba no_hd)
        else disk a)
unfolding store_inode
store_inode-bytes disk table_lba no_hd inode a =
    let lba = table_lba + no_hd / 8 in
    rw
      (
        ide_read-blit disk lba blank 1 (omega arith) (omega arith),
        ide_write-blit disk lba
            (blit (blit blank 0 disk (lba * 512) 512) (table_offset no_hd)
              (bytes_of (inode_words inode)) 0 60)
            1 (omega arith) (omega arith),
      )
      (elim (Bool-cases (inside (entry_at table_lba no_hd) 60 a)) [
        | inl here ↦
            let sector : inside (lba * 512) 512 a ≡ true = ground arith in
            let entry : inside (table_offset no_hd) 60 (0 + (a - lba * 512)) ≡ true =
              ground arith in
            let at : 0 + (0 + (a - lba * 512) - table_offset no_hd) ≡ a - entry_at table_lba no_hd =
              omega arith in
            rw (here, sector, entry, at) refl
        | inr away ↦ rw away (elim (Bool-cases (inside (lba * 512) 512 a)) [
          | inr out ↦ rw out refl
          | inl sector ↦
              let entry : inside (table_offset no_hd) 60 (0 + (a - lba * 512)) ≡ false =
                ground arith in
              let whole : inside 0 512 (0 + (a - lba * 512)) ≡ true = ground arith in
              let at : lba * 512 + (0 + (a - lba * 512) - 0) ≡ a = ground arith in
              rw (sector, entry, whole, at) refl
        ])
      ])

words_from-same :
    (n : ℕ) (f g : Bytes) (i j : ℕ)
    → ((k : ℕ) → k < n * 4 → f (i + k) ≡ g (j + k))
    → words_from n f i ≡ words_from n g j
unfolding words_from
words_from-same zero f g i j h = refl
words_from-same (suc n) f g i j h =
    let z : f (i + 0) ≡ g (j + 0) = h 0 (omega arith) in
    let zi : i + 0 ≡ i = omega arith in
    let zj : j + 0 ≡ j = omega arith in
    let first : f i ≡ g j = rw (← zi, ← zj) z in
    let word : word_at f i ≡ word_at g j =
      rw (first, h 1 (omega arith), h 2 (omega arith), h 3 (omega arith)) refl in
    let rest = words_from-same n f g (i + 4) (j + 4) (λ k lt.
      let ei : i + 4 + k ≡ i + (4 + k) = omega arith in
      let ej : j + 4 + k ≡ j + (4 + k) = omega arith in rw (ei, ej) (h (4 + k) (omega arith))) in
    rw (word, rest) refl

-- The list of the words that `bytes_of` spreads.
words_from-bytes_of :
    (ws : List ℕ) (f : Bytes) (i : ℕ)
    → ((k : ℕ) → k < length ws → word_at f (i + 4 * k) ≡ get_or ws k 0)
    → words_from (length ws) f i ≡ ws
unfolding words_from
words_from-bytes_of [] f i h = refl
words_from-bytes_of (w ∷ ws) f i h =
    let zi : i + 4 * 0 ≡ i = omega arith in
    let first : word_at f i ≡ w = rw (← zi) (h 0 (omega arith)) in
    let rest = words_from-bytes_of ws f (i + 4) (λ k lt.
      let ei : i + 4 + 4 * k ≡ i + 4 * suc k = omega arith in rw ei (h (suc k) (omega arith))) in
    rw (first, rest) refl

-- What `inode_open` reads, in terms of the entry's bytes on the disk.
abbrev pub entry : Bytes → (at i_no : ℕ) → Inode
entry disk at i_no = record {
  i_no = i_no;
  i_size = word_at disk (at + 4);
  i_block = words_from 13 disk (at + 8);
  open_cnt = 1;
}

pub entry-same :
    (f g : Bytes) (i j i_no : ℕ)
    → ((k : ℕ) → k < 60 → f (i + k) ≡ g (j + k))
    → entry f i i_no ≡ entry g j i_no
entry-same f g i j i_no h =
    let at : (m k : ℕ) → m + k < 60 → f (i + m + k) ≡ g (j + m + k) = λ m k lt.
      let ei : i + m + k ≡ i + (m + k) = omega arith in
      let ej : j + m + k ≡ j + (m + k) = omega arith in rw (ei, ej) (h (m + k) lt) in
    let size : word_at f (i + 4) ≡ word_at g (j + 4) =
      word_at-same_at f g (i + 4) (j + 4) (h 4 (omega arith)) (at 4 1 (omega arith))
        (at 4 2 (omega arith)) (at 4 3 (omega arith)) in
    let blocks = words_from-same 13 f g (i + 8) (j + 8) (λ k lt. at 8 k (omega arith)) in
    rw (size, blocks) refl

pub load_inode-entry :
    (disk : Bytes) (table_lba no_hd i_no : ℕ)
    → load_inode disk table_lba no_hd i_no ≡ entry disk (entry_at table_lba no_hd) i_no
unfolding load_inode
load_inode-entry disk table_lba no_hd i_no =
    let lba = table_lba + no_hd / 8 in
    entry-same (ide_read disk lba blank 1) disk (table_offset no_hd) (entry_at table_lba no_hd) i_no
      (λ k lt.
        let here : inside 0 512 (table_offset no_hd + k) ≡ true = ground arith in
        let at : lba * 512 + (table_offset no_hd + k - 0) ≡ entry_at table_lba no_hd + k =
          omega arith in
        rw (ide_read-blit disk lba blank 1 (omega arith) (omega arith), here, at) refl)

-- An inode whose words are words, and whose array has 13 elements.
pub record Storable (inode : Inode) : Type 0 where
  pub words : (k : ℕ) → get_or (inode_words inode) k 0 < 2 ^ 32
  pub blocks : length inode.i_block ≡ 13

module _ (disk : Bytes) (table_lba no_hd : ℕ) (inode : Inode) where
  -- A byte of the entry that was stored.
  stored_byte :
      (k : ℕ)
      → k < 60
      → store_inode disk table_lba no_hd inode (entry_at table_lba no_hd + k)
        ≡ bytes_of (inode_words inode) k
  stored_byte k lt =
      let here : inside (entry_at table_lba no_hd) 60 (entry_at table_lba no_hd + k) ≡ true =
        ground arith in
      let at : entry_at table_lba no_hd + k - entry_at table_lba no_hd ≡ k = omega arith in
      store_inode-bytes disk table_lba no_hd inode (entry_at table_lba no_hd + k)
      ∙ rw (here, at) refl

  bytes-entry :
      Storable inode
      → (i_no : ℕ)
      → entry (bytes_of (inode_words inode)) 0 i_no ≡ record inode { i_no = i_no; open_cnt = 1 }
  bytes-entry s i_no =
      let size : word_at (bytes_of (inode_words inode)) (0 + 4) ≡ inode.i_size =
        word_at-bytes_of (inode_words inode) 1 (s.words 1) in
      let listed = words_from-bytes_of inode.i_block (bytes_of (inode_words inode)) 8 (λ k lt.
        let at : 8 + 4 * k ≡ 4 * suc (suc k) = omega arith in
        rw at (word_at-bytes_of (inode_words inode) (suc (suc k)) (s.words (suc (suc k))))) in
      let all : words_from 13 (bytes_of (inode_words inode)) (0 + 8) ≡ inode.i_block =
        subst (λ n. words_from n (bytes_of (inode_words inode)) 8 ≡ inode.i_block) s.blocks
          listed in
      rw (size, all) refl

  pub load-store_same :
      (i_no : ℕ)
      → Storable inode
      → load_inode (store_inode disk table_lba no_hd inode) table_lba no_hd i_no
        ≡ record inode { i_no = i_no; open_cnt = 1 }
  load-store_same i_no s =
      load_inode-entry (store_inode disk table_lba no_hd inode) table_lba no_hd i_no
      ∙ entry-same (store_inode disk table_lba no_hd inode) (bytes_of (inode_words inode))
          (entry_at table_lba no_hd) 0 i_no
          (λ k lt. stored_byte k lt ∙ (let z : 0 + k ≡ k = omega arith in rw z refl))
      ∙ bytes-entry s i_no

  pub load-store_other :
      (other i_no : ℕ)
      → no_hd ≢ other
      → load_inode (store_inode disk table_lba no_hd inode) table_lba other i_no
        ≡ load_inode disk table_lba other i_no
  load-store_other other i_no ne =
      load_inode-entry (store_inode disk table_lba no_hd inode) table_lba other i_no
      ∙ entry-same (store_inode disk table_lba no_hd inode) disk (entry_at table_lba other)
          (entry_at table_lba other) i_no
          (λ k lt.
            let out : inside (entry_at table_lba no_hd) 60 (entry_at table_lba other + k) ≡ false =
              ground arith in
            store_inode-bytes disk table_lba no_hd inode (entry_at table_lba other + k)
            ∙ rw out refl)
      ∙ sym (load_inode-entry disk table_lba other i_no)
