-- ===== src/File/Tests.antt =====
-- The theorems on reads at blocks of 1 KiB.
use own_os.File.Path.{
  part, path_loop, fopen, joined, NoSlash, fopen-joined, opens, nr_names, opened, wild,
}
use own_os.Prelude.{
  ℕ, ◌+◌, ◌-◌, ◌%◌, ◌≡◌, refl, some, [], ◌∷◌, arith, List, All, Option, ◌==◌, if◌then◌else◌,
}
use own_os.File.{call, read, read_block}
use own_os.File.Span.{Copies, byte, read-Copies, read_block-inside, read_block-crosses}

-- A disk on which every byte tells its place.
abbrev disk : ℕ → ℕ → ℕ
disk p o = p + o

read-Copies_example : Copies 1024 (omega arith) 1000 0x8000 3000 (read 1024 1000 3000 0x8000)
read-Copies_example =
    read-Copies 1024 (omega arith) 1000 3000 0x8000 (omega arith) (omega arith) (omega arith)
      (omega arith)

read-runs :
    read 1024 1000 3000 0x8000
    ≡ call 1000 0x8000 24
      ∷ call 1024 0x8018 1024
      ∷ call 2048 0x8418 1024
      ∷ call 3072 0x8818 928
      ∷ []
unfolding read
read-runs = refl

-- Of a read of 3 GiB from the beginning, only the first block is copied.
huge_read : read 1024 0 0xc0000000 0x8000 ≡ call 0 0x8000 1024 ∷ []
unfolding read
huge_read = refl

read_block-inside_run :
    (f : ℕ → ℕ) × ((read_block 1024 disk 3000 52 ≡ some f)
      × (f 20 ≡ byte 1024 (omega arith) (omega arith) disk (3000 + 20)))
read_block-inside_run =
    read_block-inside 1024 (omega arith) (omega arith) disk 3000 52 20 (omega arith) (omega arith)
      (omega arith)

-- The byte at 3072 is read from 0.
read_block-crosses_example :
    (f : ℕ → ℕ) × ((read_block 1024 disk 3000 100 ≡ some f)
      × (f 72 ≡ disk 0 (3000 % 1024 + 72 - 1024)))
read_block-crosses_example =
    read_block-crosses 1024 (omega arith) (omega arith) disk 3000 100 72 (omega arith) (omega arith)
      (omega arith)

-- "/a/b".
abbrev path_name : ℕ → ℕ
path_name i = if i == 1 then 97 else (if i == 3 then 98 else 47)

abbrev first_inode : List (List ℕ) → Option ℕ
first_inode path = some 2

fopen-joined_example :
    (path : List (List ℕ)) × (fopen path_name 4 first_inode
      ≡ opens path_name 4 (nr_names path) path (first_inode path))
    × All NoSlash path
    × (joined path ≡ part 0 4 path_name)
fopen-joined_example = fopen-joined path_name 4 first_inode (omega arith) refl

opens_two : fopen path_name 4 first_inode ≡ opened ((97 ∷ []) ∷ (98 ∷ []) ∷ []) 2
unfolding fopen
opens_two = refl

-- A name of 21 separators has too many parts.
opens_wild : fopen (λ i. 47) 21 first_inode ≡ wild
unfolding fopen
opens_wild = refl

two_parts : path_loop path_name 4 4 1 0 ≡ (97 ∷ []) ∷ (98 ∷ []) ∷ []
unfolding path_loop part
two_parts = refl
