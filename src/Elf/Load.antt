-- ===== src/Elf/Load.antt =====
-- What loading does.
use own_os.Prelude.{
  ℕ, zero, suc, ◌+◌, ◌*◌, ◌<◌, ◌≤◌, ◌≡◌, ◌∙◌, refl, sym, ap, Bool, true, false, Option, none, some,
  List, [], ◌∷◌, ◌++◌, ◌==◌, if◌then◌else◌, Bool-cases, inl, inr, ==_iff,
}
use mathlib.Core.List.{append-nil, append_assoc}
use own_os.Prelude.Memory.{Mem}
use own_os.File.{Call, read}
use own_os.Fork.{World, after_exec, regs_of, pc_word}
use own_os.Elf.Ident.{
  IsX86, is_loadable-IsX86, IsX86-is_loadable, header_of-same, IsX86-same, entry_same,
}
use own_os.Elf.{
  sizeof_ehdr, header_of, table_of, Bytes, Phdr, ehdr, phdr, sizeof_phdr, pt_load, is_loadable,
  Loading, refused, panics, loaded, enable_segment, put_space, load_loop, started,
  load_elf_executable,
}

-- The program headers of a file, and those to load, in their order.
pub headers : (n o : ℕ) → Bytes → List Phdr
headers zero o b = []
headers (suc n) o b = phdr b o ∷ headers n (o + sizeof_phdr) b

pub segments : List Phdr → List Phdr
segments [] = []
segments (p ∷ ps) = if p.p_type == pt_load then p ∷ segments ps else segments ps

unfoldable pub segments_of : (block_size : ℕ) → Bytes → List Phdr
unfolding headers segments
segments_of block_size b =
    let h = ehdr (header_of block_size b) in
    segments (headers h.e_phnum 0 (table_of block_size b h))

module _ {F : Type 0} (alloc_chunk : F → Option (ℕ × F)) (block_size : ℕ) where
  -- The reads of whole segments, each in full at its address.
  unfoldable pub reads : List Phdr → List Call
  reads [] = []
  reads (p ∷ ps) = read block_size p.p_offset p.p_memsz p.p_vaddr ++ reads ps

  -- The spaces of segments, one after the other.
  pub spaces : List Phdr → World F → Option (World F)
  spaces [] w = some w
  spaces (p ∷ ps) w = elim (enable_segment alloc_chunk block_size p w) [
    | none ↦ none
    | some w ↦ spaces ps w
  ]

  -- What a loop comes to for the spaces and the calls.
  abbrev outcome : List Call → Option (World F) → Loading F
  outcome calls none = panics
  outcome calls (some w) = loaded w calls

  load_loop-skip :
      (n o : ℕ) (b : Bytes) (w : World F) (calls : List Call)
      → ((phdr b o).p_type == pt_load) ≡ false
      → load_loop alloc_chunk block_size (suc n) o b w calls
        ≡ load_loop alloc_chunk block_size n (o + sizeof_phdr) b w calls
  unfolding load_loop
  load_loop-skip n o b w calls e = rw (load_loop, e) refl

  load_loop-load :
      (n o : ℕ) (b : Bytes) (w : World F) (calls : List Call)
      → ((phdr b o).p_type == pt_load) ≡ true
      → load_loop alloc_chunk block_size (suc n) o b w calls
        ≡ elim (enable_segment alloc_chunk block_size (phdr b o) w) [
          | none ↦ panics
          | some w ↦
              load_loop alloc_chunk block_size n
                (o + sizeof_phdr)
                b
                w
                (calls ++ read block_size (phdr b o).p_offset (phdr b o).p_memsz (phdr b o).p_vaddr)
        ]
  unfolding load_loop
  load_loop-load n o b w calls e = rw (load_loop, e) refl

  segments-cons :
      (p : Phdr) (ps : List Phdr) (t : Bool)
      → (p.p_type == pt_load) ≡ t
      → segments (p ∷ ps) ≡ (if t then p ∷ segments ps else segments ps)
  unfolding segments
  segments-cons p ps t e = rw e refl

  load_loop-outcome :
      (n o : ℕ) (b : Bytes) (w : World F) (calls : List Call)
      → load_loop alloc_chunk block_size n o b w calls
        ≡ outcome (calls ++ reads (segments (headers n o b))) (spaces (segments (headers n o b)) w)
  unfolding load_loop headers segments reads spaces
  load_loop-outcome zero o b w calls = ap (loaded w) (sym (append-nil calls))
  load_loop-outcome (suc n) o b w calls =
      let p = phdr b o in
      let ps = headers n (o + sizeof_phdr) b in
      let r = read block_size p.p_offset p.p_memsz p.p_vaddr in
      elim (Bool-cases (p.p_type == pt_load)) [
        | inr e ↦
            load_loop-skip n o b w calls e
            ∙ load_loop-outcome n (o + sizeof_phdr) b w calls
            ∙ ap (λ ps. outcome (calls ++ reads ps) (spaces ps w))
                (sym (segments-cons p ps false e))
        | inl e ↦
            load_loop-load n o b w calls e
            ∙ next (segments ps) r (λ w. load_loop-outcome n (o + sizeof_phdr) b w (calls ++ r))
                (enable_segment alloc_chunk block_size p w)
            ∙ ap (λ ps. outcome (calls ++ reads ps) (spaces ps w)) (sym (segments-cons p ps true e))
      ]
    where
      next :
          (ps : List Phdr) (r : List Call)
          → ((w : World F)
              → load_loop alloc_chunk block_size n (o + sizeof_phdr) b w (calls ++ r)
                ≡ outcome ((calls ++ r) ++ reads ps) (spaces ps w))
          → (x : Option (World F))
          → (elim x [
            | none ↦ panics
            | some w ↦ load_loop alloc_chunk block_size n (o + sizeof_phdr) b w (calls ++ r)
          ])
            ≡ outcome (calls ++ (r ++ reads ps)) (elim x [ none ↦ none | some w ↦ spaces ps w ])
      next ps r h none = refl
      next ps r h (some w) =
          h w ∙ ap (λ l. outcome l (spaces ps w)) (append_assoc calls r (reads ps))

  -- Nothing but the memory and the frames of the allocator has changed.
  abbrev pub Same : World F → World F → Type 0
  Same w w' = (w'.kernel ≡ w.kernel) × (w'.regions ≡ w.regions) × (w'.info ≡ w.info)

  -- The same of a world that there may be.
  abbrev MaySame : World F → Option (World F) → Type 0
  MaySame w none = Unit
  MaySame w (some w') = Same w w'

  put_space-MaySame : (w : World F) (x : Option (Mem × F)) → MaySame w (put_space w x)
  unfolding put_space
  put_space-MaySame w none = tt
  put_space-MaySame w (some (m, f)) = (refl, refl, refl)

  spaces-MaySame : (ps : List Phdr) (w : World F) → MaySame w (spaces ps w)
  unfolding spaces enable_segment
  spaces-MaySame [] w = (refl, refl, refl)
  spaces-MaySame (p ∷ ps) w =
      next (λ w. spaces-MaySame ps w) (enable_segment alloc_chunk block_size p w)
        (put_space-MaySame w _)
    where
      next :
          ((w : World F) → MaySame w (spaces ps w))
          → (x : Option (World F)) → MaySame w x
          → MaySame w (elim x [ none ↦ none | some w ↦ spaces ps w ])
      next h none m = tt
      next h (some w') (a, b, c) = chained (spaces ps w') (h w')
        where
          chained : (y : Option (World F)) → MaySame w' y → MaySame w y
          chained none t = tt
          chained (some w'') (x, y, z) = (x ∙ a, y ∙ b, z ∙ c)

  after_exec-entry :
      (entry x : ℕ) (w : World F)
      → x ≡ regs_of w.kernel.manager.current w + 4 * pc_word
      → ((after_exec entry w).mem x ≡ entry) × Same w (after_exec entry w)
  unfolding after_exec
  after_exec-entry entry x w e =
      let t : (x == regs_of w.kernel.manager.current w + 4 * pc_word) ≡ true = (==_iff _ _).1 e in
      (rw t refl, (refl, refl, refl))

  -- A program of the file `b` is loaded in the world `w'`: the running process has its segments' spaces, the
  -- calls bring every segment of the program headers, as `File::read` brings these, to its address, in their order, as
  -- many bytes as it has in memory, and the process goes on at the entry. No list of regions has changed.
  abbrev pub IsLoaded : Bytes → World F → World F → List Call → Type 0
  IsLoaded b w w' calls =
      (calls ≡ reads (segments_of block_size b))
      × (w'.mem (regs_of w.kernel.manager.current w + 4 * pc_word) ≡ (ehdr b).e_entry)
      × Same w w'

  -- What `load_elf_executable` may come to.
  abbrev pub Comes : Bytes → World F → Loading F → Type 0
  Comes b w refused = ¬ IsX86 b
  Comes b w panics = IsX86 b × (spaces (segments_of block_size b) w ≡ none)
  Comes b w (loaded w' calls) = IsX86 b × IsLoaded b w w' calls

  loaded-Comes :
      (b : Bytes) (w : World F) (x : Option (World F)) (entry : ℕ)
      → entry ≡ (ehdr b).e_entry
      → IsX86 b
      → spaces (segments_of block_size b) w ≡ x
      → MaySame w x
      → Comes b w (started entry (outcome (reads (segments_of block_size b)) x))
  unfolding started
  loaded-Comes b w none entry q i e m = (i, e)
  loaded-Comes b w (some w') entry q i e (k, r, f) =
      let at_w = regs_of w.kernel.manager.current w + 4 * pc_word in
      let (p, (k', r', f')) = after_exec-entry entry at_w w' (rw (k, f) refl) in
      (i, (refl, p ∙ q, (k' ∙ k, r' ∙ r, f' ∙ f)))

  module _ (large : sizeof_ehdr ≤ block_size) where
    pub load_elf_executable-Comes :
        (b : Bytes) (w : World F) → Comes b w (load_elf_executable alloc_chunk block_size b w)
    unfolding load_elf_executable segments_of
    load_elf_executable-Comes b w =
        let first = header_of block_size b in
        let h = λ (i : ℕ) (l : i < sizeof_ehdr). header_of-same block_size b i large l in
        let back = λ (i : ℕ) (l : i < sizeof_ehdr). sym (header_of-same block_size b i large l) in
        elim (Bool-cases (is_loadable first)) [
          | inr e ↦
              rw e (λ i. let t = IsX86-is_loadable first (IsX86-same b first back i) in absurd cc)
          | inl e ↦
              rw
                (
                  e,
                  load_loop-outcome (ehdr first).e_phnum 0 (table_of block_size b (ehdr first)) w
                      [],
                )
                (loaded-Comes b w (spaces (segments_of block_size b) w) (ehdr first).e_entry
                  (entry_same first b h) (IsX86-same first b h (is_loadable-IsX86 first e)) refl
                  (spaces-MaySame (segments_of block_size b) w))
        ]

    only_refused : (b : Bytes) (w : World F) (r : Loading F) → ¬ IsX86 b → Comes b w r → r ≡ refused
    only_refused b w refused n c = refl
    only_refused b w panics n c = absurd (n c.0)
    only_refused b w (loaded w' calls) n c = absurd (n c.0)

    -- A file that is no executable is refused.
    pub load_elf_executable-refused :
        (b : Bytes) (w : World F)
        → ¬ IsX86 b
        → load_elf_executable alloc_chunk block_size b w ≡ refused
    load_elf_executable-refused b w n = only_refused b w _ n (load_elf_executable-Comes b w)
