-- ===== src/Fs/Tests.antt =====
-- A partition of 2000 sectors, formatted on an empty disk.
use a_os.Base.{
  ◌+◌, ◌*◌, ◌≡◌, ◌<◌, ◌≤◌, refl, none, some, List, [], ◌∷◌, get_elem?, ◌==◌, if◌then◌else◌, arith,
}
use a_os.Disk.{blank}
use a_os.Inode.Bitmaps.{IsValid}
use a_os.Fs.{layout, fs_format, read_super, block_bits, fs_mount}
use a_os.Fs.Formatting.{mount-format}
use a_os.Fs.Root.{Partition, fs_init, root_dir_init}
use a_os.Fs.Numbers.{inode_count, fs_init-numbers}
use a_os.Dir.{FileSystem}
use a_os.Inode.{Volume, inode_get_ptn}
use a_os.Disk.{Bytes}

mount-format_example : IsValid (fs_mount (fs_format blank 63 2000) 63 0 0).0
mount-format_example =
    mount-format blank 63 2000 (omega arith) (omega arith) (omega arith) 0 0 (λ a. omega arith)

-- A super block of 8 inodes and no blocks, in sector 64.
abbrev marked_disk : Bytes
marked_disk a =
    if a == 64 * 512
    then 4
    else if a == 64 * 512 + 1
    then 6
    else if a == 64 * 512 + 2
    then 0x89
    else if a == 64 * 512 + 3
    then 0x19
    else if a == 64 * 512 + 4
    then 8
    else 0

-- "hd1" and "hd2"
abbrev two_partitions : List Partition
two_partitions =
    record { disk = marked_disk; start_lba = 63; sec_cnt = 2000; name = 104 ∷ 100 ∷ 49 ∷ [] }
    ∷ record { disk = marked_disk; start_lba = 63; sec_cnt = 2000; name = 104 ∷ 100 ∷ 50 ∷ [] }
    ∷ []

abbrev both_mounted : FileSystem
both_mounted = elim (fs_init 0 two_partitions) [ none ↦ root_dir_init 0 | some fs ↦ fs ]

-- The second partition as it is mounted.
abbrev second : Volume
second = (fs_mount marked_disk 63 0 8).0

mounting_both : fs_init 0 two_partitions ≡ some both_mounted
unfolding fs_init a_os.Fs.Root.mount_all a_os.Fs.Root.root_install a_os.Fs.Root.entry_index
    root_dir_init a_os.Dir.make_entry
mounting_both = refl

few_inodes : inode_count both_mounted.ptns < 4294967295
unfolding fs_init a_os.Fs.Root.mount_all a_os.Fs.Root.root_install a_os.Fs.Root.entry_index
    root_dir_init a_os.Dir.make_entry fs_mount read_super a_os.Disk.ide_read a_os.Disk.read_rounds
few_inodes = omega arith

second_there : get_elem? both_mounted.ptns 1 ≡ some second
unfolding fs_init a_os.Fs.Root.mount_all a_os.Fs.Root.root_install a_os.Fs.Root.entry_index
    root_dir_init a_os.Dir.make_entry fs_mount read_super a_os.Disk.ide_read a_os.Disk.read_rounds
second_there = refl

second_range : (second.inode_base ≤ 12) × (12 < second.inode_base + second.inode_cnt)
unfolding fs_mount read_super a_os.Disk.ide_read a_os.Disk.read_rounds
second_range = omega arith

fs_init-numbers_example : (0 < 12) × (inode_get_ptn both_mounted.ptns 12 ≡ some second)
fs_init-numbers_example =
    fs_init-numbers 0 two_partitions both_mounted 1 second 12 mounting_both few_inodes second_there
      second_range.0 second_range.1
