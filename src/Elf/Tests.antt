-- ===== src/Elf/Tests.antt =====
-- A file with one segment, and one that is refused.
use own_os.Prelude.{ℕ, ◌≡◌, refl, List, [], ◌∷◌, ◌++◌, get_or}
use own_os.File.{read, read_bytes}
use own_os.Fork.Tests.{world, frame_at}
use own_os.Elf.{header_of, table_of, Bytes, refused, load_elf_executable}
use own_os.Elf.Load.{reads, segments_of}

-- One program header at offset 52: 0x120 bytes from offset 0x54 for 0x8048000, and the entry there.
abbrev program : List ℕ
program =
    0x7f ∷ 0x45 ∷ 0x4c ∷ 0x46 ∷ 1 ∷ 1 ∷ 1 ∷ 0 ∷ 0 ∷ 0 ∷ 0 ∷ 0 ∷ 0 ∷ 0 ∷ 0 ∷ 0 ∷ 2 ∷ 0 ∷ 3 ∷ 0 ∷ 1
    ∷ 0 ∷ 0 ∷ 0 ∷ 0 ∷ 0x80 ∷ 4 ∷ 8 ∷ 52 ∷ 0 ∷ 0 ∷ 0 ∷ 0 ∷ 0 ∷ 0 ∷ 0 ∷ 0 ∷ 0 ∷ 0 ∷ 0 ∷ 52 ∷ 0 ∷ 32
    ∷ 0 ∷ 1 ∷ 0 ∷ 0 ∷ 0 ∷ 0 ∷ 0 ∷ 0 ∷ 0 ∷ 1 ∷ 0 ∷ 0 ∷ 0 ∷ 0x54 ∷ 0 ∷ 0 ∷ 0 ∷ 0 ∷ 0x80 ∷ 4 ∷ 8 ∷ 0
    ∷ 0x80 ∷ 4 ∷ 8 ∷ 0x20 ∷ 0 ∷ 0 ∷ 0 ∷ 0x20 ∷ 1 ∷ 0 ∷ 0 ∷ 7 ∷ 0 ∷ 0 ∷ 0 ∷ 0 ∷ 0x10 ∷ 0 ∷ 0 ∷ []

abbrev program_file : Bytes
program_file o = get_or program o 0

-- All 0x120 bytes are read, though 0x20 are the segment's in the file.
reads-runs :
    reads frame_at 1024 (segments_of 1024 program_file) ≡ read 1024 0x54 0x120 0x8048000 ++ []
unfolding reads segments_of header_of read_bytes table_of
reads-runs = refl

-- A file of zeros.
load_elf_executable-refuses : load_elf_executable frame_at 1024 (λ o. 0) world ≡ refused
unfolding load_elf_executable read_bytes
load_elf_executable-refuses = refl
