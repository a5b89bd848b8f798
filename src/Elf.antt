-- ===== src/Elf.antt =====
-- kernel/elf_loader.cpp and kernel/exec.cpp, with the headers of include/os/elf.h: how a program is loaded for
-- the running process. A file is the byte at each offset. The headers are what `File::read` leaves in
-- their buffers. The calls of `File::read_block` that the reads of segments make are listed; the bytes that they
-- bring are left out of the memory.
pub mod Ident
pub mod Load
mod Tests
use own_os.Prelude.{
  ℕ, zero, suc, ◌+◌, ◌*◌, Bool, true, false, ◌&&◌, Option, none, some, List, [], ◌∷◌, ◌++◌, ◌==◌,
  if◌then◌else◌, get_or,
}
use own_os.Prelude.Memory.{Mem}
use own_os.File.{Call, read, read_bytes}
use own_os.VarMem.{enable_space}
use own_os.Fork.{World, after_exec}

-- The bytes of a file.
abbrev pub Bytes : Type 0
Bytes = ℕ → ℕ

abbrev pub half : Bytes → ℕ → ℕ
half b o = b o + 0x100 * b (o + 1)

abbrev pub word : Bytes → ℕ → ℕ
word b o = half b o + 0x10000 * half b (o + 2)

-- The fields of the headers that the loader uses.
pub record Ehdr : Type 0 where
  pub e_type : ℕ
  pub e_machine : ℕ
  pub e_entry : ℕ
  pub e_phoff : ℕ
  pub e_phnum : ℕ

pub record Phdr : Type 0 where
  pub p_type : ℕ
  pub p_offset : ℕ
  pub p_vaddr : ℕ
  pub p_memsz : ℕ

abbrev pub ehdr : Bytes → Ehdr
ehdr b = record {
  e_type = half b 16;
  e_machine = half b 18;
  e_entry = word b 24;
  e_phoff = word b 28;
  e_phnum = half b 44;
}

abbrev pub sizeof_phdr : ℕ
sizeof_phdr = 32

abbrev pub phdr : Bytes → ℕ → Phdr
phdr b o = record {
  p_type = word b o;
  p_offset = word b (o + 4);
  p_vaddr = word b (o + 8);
  p_memsz = word b (o + 20);
}

abbrev pub sizeof_ehdr : ℕ
sizeof_ehdr = 52

-- The header of the file, and its program headers, as `File::read` brings them from the blocks of the file.
unfoldable pub header_of : (block_size : ℕ) → Bytes → Bytes
header_of block_size b = read_bytes block_size (λ p i. b (p + i)) 0 sizeof_ehdr

unfoldable pub table_of : (block_size : ℕ) → Bytes → Ehdr → Bytes
table_of block_size b h =
    read_bytes block_size (λ p i. b (p + i)) h.e_phoff (sizeof_phdr * h.e_phnum)

abbrev pub nr_ident : ℕ
nr_ident = 16

-- The identification of 32-bit little-endian files.
abbrev pub x86_32_ident : ℕ → ℕ
x86_32_ident i = get_or (0x7f ∷ 0x45 ∷ 0x4c ∷ 0x46 ∷ 1 ∷ 1 ∷ 1 ∷ []) i 0

-- The check of `n` bytes from byte `i` on.
pub ident_loop : (n i : ℕ) → Bytes → Bool
ident_loop zero i b = true
ident_loop (suc n) i b =
    let rest = ident_loop n (suc i) b in if x86_32_ident i == b i then rest else false

abbrev pub et_exec : ℕ
et_exec = 2

abbrev pub em_386 : ℕ
em_386 = 3

abbrev pub pt_load : ℕ
pt_load = 1

-- The checks before anything is loaded.
pub is_loadable : Bytes → Bool
unfolding ident_loop
is_loadable b =
    if ident_loop nr_ident 0 b
    then (if (ehdr b).e_type == et_exec then (ehdr b).e_machine == em_386 else false)
    else false

-- `refused` is the answer `false`, which changes nothing.
pub data Loading (F : Type 0) : Type 0 where
  refused panics : Loading F
  loaded : World F → List Call → Loading F

abbrev pub cr3_of : {F : Type 0} → World F → ℕ
cr3_of w = (w.kernel.manager.procs w.kernel.manager.current).cr3

-- The memory and the frames that `enableSpace` leaves.
pub put_space : {F : Type 0} → World F → Option (Mem × F) → Option (World F)
put_space w none = none
put_space w (some (m, f)) = some (record w { mem = m; frames = f })

-- `after_exec` at the end.
pub started : {F : Type 0} → (entry : ℕ) → Loading F → Loading F
started entry (loaded w calls) = loaded (after_exec entry w) calls
started entry refused = refused
started entry panics = panics

module _ {F : Type 0} (alloc_chunk : F → Option (ℕ × F)) (block_size : ℕ) where
  -- The space of a segment in the running process.
  pub enable_segment : Phdr → World F → Option (World F)
  unfolding put_space
  enable_segment p w =
      put_space w (enable_space alloc_chunk p.p_vaddr p.p_memsz (cr3_of w) 0x017 w.mem w.frames)

  -- The loop over `n` program headers from the one at offset `o` of the table on, with the calls so far.
  pub load_loop : (n o : ℕ) → Bytes → World F → List Call → Loading F
  unfolding enable_segment
  load_loop zero o b w calls = loaded w calls
  load_loop (suc n) o b w calls =
      let p = phdr b o in
      elim (p.p_type == pt_load) [
        | false ↦ load_loop n (o + sizeof_phdr) b w calls
        | true ↦ elim (enable_segment p w) [
          | none ↦ panics
          | some w ↦
              load_loop n (o + sizeof_phdr) b w
                (calls ++ read block_size p.p_offset p.p_memsz p.p_vaddr)
        ]
      ]

  pub load_elf_executable : Bytes → World F → Loading F
  unfolding header_of table_of is_loadable load_loop started
  load_elf_executable b w =
      let first = header_of block_size b in
      let h = ehdr first in
      if is_loadable first
      then started h.e_entry (load_loop h.e_phnum 0 (table_of block_size b h) w [])
      else refused

  -- The answer of the loader is dropped, and the function ends without a value: `left` is what stands in the
  -- register of the value.
  unfoldable pub exec : (left : ℕ) → Bytes → World F → Loading F × ℕ
  unfolding load_elf_executable
  exec left b w = (load_elf_executable b w, left)
