-- ===== src/Ext2/Tests.antt =====
-- The lookup of a block at blocks of 1 KiB.
use own_os.File.Path.{part}
use own_os.Ext2.Directory.{find_entry, Entries, DirEntry, Answers, same_name, find_entry-Answers}
use own_os.Prelude.{ℕ, ◌+◌, ◌/◌, ◌≡◌, arith, [], ◌∷◌, ◌==◌, ◌||◌, if◌then◌else◌, refl, false}
use own_os.Ext2.{Inode, read_block_pos}
use own_os.Ext2.Tree.{file_block, read_block_pos-file_block}

-- A disk on which every word is its address divided by 1 KiB, and one more.
abbrev words : ℕ → ℕ
words a = a / 1024 + 1

abbrev large : Inode
large = record { i_size = 1000000; i_block = λ i. 100 + i }

-- A position behind the direct blocks and the first indirect block.
read_block_pos-file_block_example :
    read_block_pos 32256 1024 words 300000 large ≡ file_block 32256 1024 words (300000 / 1024) large
read_block_pos-file_block_example =
    read_block_pos-file_block 32256 1024 words 300000 large (omega arith) (omega arith)
      (omega arith)

-- The entries "." and "a".
abbrev dir_bytes : ℕ → ℕ
dir_bytes i =
    if i == 0
    then 2
    else (if i == 4
        then 12
        else (if i == 8
            then 46
            else (if i == 12
                then 11
                else (if i == 16
                    then 244
                    else (if i == 17
                        then 3
                        else (if i == 20 then 97 else (if i == 6 || i == 18 then 1 else 0)))))))

abbrev dot : DirEntry
dot = record { name = 46 ∷ []; number = 2; rec_len = 12 }

abbrev file_a : DirEntry
file_a = record { name = 97 ∷ []; number = 11; rec_len = 1012 }

dir-Entries : Entries 0 dir_bytes (dot ∷ file_a ∷ [])
unfolding Entries part
dir-Entries = (refl, refl, refl, omega arith, (refl, refl, refl, omega arith, omega arith))

find_entry-Answers_example :
    Answers (97 ∷ []) (dot ∷ file_a ∷ []) (find_entry 0x400 0 dir_bytes (97 ∷ []))
find_entry-Answers_example =
    find_entry-Answers 0x400 dir_bytes (97 ∷ []) dot (file_a ∷ []) (omega arith) dir-Entries

-- A name that begins like that of an entry is not taken for it.
a_longer : same_name (97 ∷ 98 ∷ []) (97 ∷ []) ≡ false
unfolding same_name
a_longer = refl
