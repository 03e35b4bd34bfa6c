-- ===== src/Inode/Release.antt =====
-- `inode_release` and `inode_erase`: blocks given back. `none` is a failed `assert`, which stops the
-- kernel: `bitmap_release` of a bit that is clear.
use a_os.Base.{
  ℕ, zero, suc, ◌+◌, ◌-◌, ◌*◌, ◌/◌, Bool, true, false, Option, some, List, [], ◌∷◌, ltb, ◌==◌,
  if◌then◌else◌, ◌>>=◌, get_or, set,
}
use a_os.Base.Words.{sub32}
use a_os.Bitmap.{release}
use a_os.Disk.{Bytes, blank, ide_read, ide_write}
use a_os.Disk.Word.{word_at}
use a_os.Inode.{Inode, Volume, btmp_sync, blk_release}
use a_os.Inode.Table.{inode_table_update}
use a_os.Inode.Data.{set_word}

-- `if (0 != blk_lba) blk_release(ptn, blk_lba)`
unfoldable pub release_some : Volume → ℕ → Option Volume
release_some v lba = let freed = blk_release v lba in if lba == 0 then some v else freed

-- The direct blocks from `idx` on.
unfoldable pub release_direct : ℕ → Volume → Inode → (idx : ℕ) → Option (Inode × Volume)
release_direct zero v inode idx = some (inode, v)
release_direct (suc n) v inode idx = do
  v' ← release_some v (get_or inode.i_block idx 0)
  release_direct n v' (record inode { i_block = set inode.i_block idx 0 }) (idx + 1)

-- The blocks in the table of indirect blocks, from word `k` on.
unfoldable pub release_table : ℕ → Volume → Bytes → (k : ℕ) → Option Volume
release_table zero v buf k = some v
release_table (suc n) v buf k = do
  v' ← release_some v (word_at buf (4 * k))
  release_table n v' buf (k + 1)

unfoldable pub release_indirect : Volume → Inode → Option (Inode × Volume)
release_indirect v inode =
    let lba = get_or inode.i_block 12 0 in
    let freed : Option (Inode × Volume) = (do
      v' ← release_table 1024 v (ide_read v.disk lba blank 8) 0
      v'' ← blk_release v' lba
      some (record inode { i_block = set inode.i_block 12 0 }, v'')) in
    if lba == 0 then some (inode, v) else freed

-- `list_remove`
unfoldable pub uncached : ℕ → List Inode → List Inode
uncached inode_no [] = []
uncached inode_no (i ∷ rest) =
    let later = uncached inode_no rest in if i.i_no == inode_no then rest else i ∷ later

unfoldable pub release_number : Volume → ℕ → Option Volume
release_number v no_hd = do
  btmp ← release v.inode_btmp no_hd 1
  some (record v { inode_btmp = btmp; disk = btmp_sync v.disk v.inode_btmp_lba btmp no_hd })

unfoldable pub inode_release : Volume → Inode → Option Volume
inode_release v inode = do
  (i', v1) ← release_direct 12 v inode 0
  (i'', v2) ← release_indirect v1 i'
  v3 ← release_number v2 (sub32 inode.i_no v.inode_base)
  some (record v3 { open_inodes = uncached inode.i_no v3.open_inodes })

-- What the loop of `inode_erase` works on; `ended` is false once it meets an index out of bounds.
pub record Erasing : Type 0 where
  pub inode : Inode
  pub buf : Bytes
  pub volume : Volume
  pub ended : Bool

-- `for (idx = blk_idx_before; idx > blk_idx_after; idx--)`, `fuel` times.
unfoldable pub erase_loop : ℕ → Erasing → (idx : ℕ) → Option Erasing
erase_loop zero e idx = some e
erase_loop (suc fuel) e idx =
    let direct : Option Erasing = (do
      v ← blk_release e.volume (get_or e.inode.i_block idx 0)
      erase_loop fuel
          (record e { inode = record e.inode { i_block = set e.inode.i_block idx 0 }; volume = v })
          (idx - 1)) in
    let single : Option Erasing = (do
      v ← blk_release e.volume (word_at e.buf (4 * (idx - 12)))
      erase_loop fuel (record e { buf = set_word e.buf (idx - 12) 0; volume = v }) (idx - 1)) in
    if ltb idx 12
    then direct
    else (if ltb idx 1036 then single else some (record e { ended = false }))

-- The table of indirect blocks afterwards: released, or written back whole.
unfoldable pub erase_table : Erasing → (before after : ℕ) → Option Erasing
erase_table e before after =
    let lba = get_or e.inode.i_block 12 0 in
    let gone : Option Erasing = (do v ← blk_release e.volume lba; some (record e { volume = v })) in
    let v = e.volume in
    let kept = record e { volume = record v { disk = ide_write v.disk lba e.buf 8 } } in
    if ltb before 12 then some e else (if ltb after 12 then gone else some kept)

-- The blocks behind the new end are given back.
unfoldable pub erase_blocks : Volume → Inode → (before after : ℕ) → Option Erasing
erase_blocks v inode before after =
    let buf =
      if ltb before 12 then blank else ide_read v.disk (get_or inode.i_block 12 0) blank 8 in
    let start : Erasing = record { inode = inode; buf = buf; volume = v; ended = true } in
    let erased : Option Erasing = (do
      e ← erase_loop (before - after) start before
      if e.ended then erase_table e before after else some e) in
    if sub32 after before == 0 then some start else erased

-- The return value is 0 for `true` and -1 for `false`.
unfoldable pub inode_erase : Volume → Inode → (cnt : ℕ) → Option (Bool × Inode × Volume)
inode_erase v inode cnt = do
  e ← erase_blocks v inode (inode.i_size / 4096) (sub32 inode.i_size cnt / 4096)
  let shorter = record e.inode { i_size = sub32 e.inode.i_size cnt } in
      if e.ended
      then some (true, shorter, inode_table_update e.volume shorter)
      else some (false, e.inode, e.volume)
