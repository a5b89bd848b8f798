-- ===== src/VarMem/Kernel.antt =====
-- What the kernel maps into every directory.
use own_os.Prelude.{
  ℕ, zero, suc, ◌+◌, ◌*◌, ◌/◌, ◌%◌, ◌<◌, ◌≤◌, ◌≡◌, ◌≢◌, ◌⊎◌, ◌∙◌, refl, true, false, ◌&&◌, ◌||◌,
  Option, some, ◌==◌, ltb, leb, if◌then◌else◌, arith, Bool-cases, inl, inr,
}
use own_os.Prelude.Words.{u32_mod}
use own_os.Prelude.Memory.{Mem, write}
use own_os.VarMem.{
  edit_entry, is_entry_exist, caddr_entry, disable_loop, disable_all_entry, dir_slot, table_slot,
  vir2phy, find_table, map_frame, mapping_page, copy_loop, copy_kernel_dir, dir_entry_size,
}
use own_os.VarMem.Mapping.{entry_value, disable_loop-outside, Frames}

disable_loop-front :
    (n i table x : ℕ) (m : Mem) → x < table + 4 * i → disable_loop n i table m x ≡ m x
unfolding disable_loop
disable_loop-front zero i table x m h = refl
disable_loop-front (suc n) i table x m h =
    disable_loop-front n (suc i) table x (write (table + 4 * i) 0 m) (omega arith) ∙ ground arith

pub disable_loop-zero :
    (n i j table : ℕ) (m : Mem) → i ≤ j → j < i + n → disable_loop n i table m (table + 4 * j) ≡ 0
unfolding disable_loop
disable_loop-zero zero i j table m l h = absurd (omega arith)
disable_loop-zero (suc n) i j table m l h = elim (Bool-cases (i == j)) [
  | inl e ↦
      disable_loop-front n (suc i) table (table + 4 * j) (write (table + 4 * i) 0 m) (ground arith)
      ∙ ground arith
  | inr e ↦
      disable_loop-zero n (suc i) j table (write (table + 4 * i) 0 m) (ground arith) (omega arith)
]

-- The entries of two directories that have no word in common.
copy_loop-entry :
    (n i j kpdir pdir : ℕ) (m : Mem)
    → i + n ≤ 0x400
    → j < 0x400
    → (kpdir + 0x1000 ≤ pdir) ⊎ (pdir + 0x1000 ≤ kpdir)
    → copy_loop n i kpdir pdir m (pdir + 4 * j)
      ≡ (if leb i j && ltb j (i + n) then m (kpdir + 4 * j) else m (pdir + 4 * j))
unfolding copy_loop
copy_loop-entry zero i j kpdir pdir m b l o = ground arith
copy_loop-entry (suc n) i j kpdir pdir m b l o =
    copy_loop-entry n (suc i) j kpdir pdir (write (pdir + 4 * i) (m (kpdir + 4 * i)) m)
      (omega arith) l o
    ∙ ground arith

copy_loop-outside :
    (n i kpdir pdir x : ℕ) (m : Mem)
    → i + n ≤ 0x400
    → (x < pdir) ⊎ (pdir + 0x1000 ≤ x)
    → copy_loop n i kpdir pdir m x ≡ m x
unfolding copy_loop
copy_loop-outside zero i kpdir pdir x m b o = refl
copy_loop-outside (suc n) i kpdir pdir x m b o =
    copy_loop-outside n (suc i) kpdir pdir x (write (pdir + 4 * i) (m (kpdir + 4 * i)) m)
      (omega arith) o
    ∙ ground arith

-- A directory that `copyKernelDir` has filled has the kernel's entries for the straight mapping of the
-- memory and for 0xe0000000, and no other.
pub copy_kernel_dir-entry :
    (mem_size kpdir pdir j : ℕ) (m : Mem)
    → mem_size < u32_mod
    → j < 0x400
    → (kpdir + 0x1000 ≤ pdir) ⊎ (pdir + 0x1000 ≤ kpdir)
    → copy_kernel_dir mem_size kpdir pdir m (pdir + 4 * j)
      ≡ (if ltb j (mem_size / dir_entry_size) || j == 0x380 then m (kpdir + 4 * j) else 0)
unfolding copy_kernel_dir disable_all_entry
copy_kernel_dir-entry mem_size kpdir pdir j m b l o =
    let nr = mem_size / dir_entry_size in
    let m0 = disable_loop 0x400 0 pdir m in
    let m1 = copy_loop nr 0 kpdir pdir m0 in
    let z = disable_loop-zero 0x400 0 j pdir m (omega arith) (omega arith) in
    let k = disable_loop-outside 0x400 0 pdir (kpdir + 4 * j) m (omega arith) (ground arith) in
    let c = copy_loop-entry nr 0 j kpdir pdir m0 (omega arith) l o in
    let k' = copy_loop-outside nr 0 kpdir pdir (kpdir + 4 * j) m0 (omega arith) (ground arith) in
    let d = copy_loop-entry 1 0x380 j kpdir pdir m1 (omega arith) l o in
    d ∙ rw (k', c, k, z) (ground arith)

module _ {F : Type 0} (alloc_chunk : F → Option (ℕ × F)) (pdir type : ℕ)
    (frames : Frames alloc_chunk pdir type) (aligned : pdir % 0x1000 ≡ 0)
    (present : type % 2 ≡ 1) where
  new_table :
      (a table : ℕ) (m : Mem) (f f' : F)
      → a < u32_mod
      → is_entry_exist (m (dir_slot pdir a)) ≡ false
      → alloc_chunk f ≡ some (table, f')
      → table % 0x1000 ≡ 0
      → table ≢ pdir
      → (m' : Mem) × ((find_table alloc_chunk a pdir type m f ≡ some (table, m', f'))
          × (is_entry_exist (m' (dir_slot pdir a)) ≡ true)
          × (caddr_entry (m' (dir_slot pdir a)) ≡ table)
          × (m' (table_slot table a) ≡ 0))
  unfolding find_table edit_entry disable_all_entry
  new_table a table m f f' b e g al ne =
      let (x, c) = entry_value table type al present in
      let s : (dir_slot pdir a == dir_slot pdir a) ≡ true = ground arith in
      let w = edit_entry (dir_slot pdir a) table type m in
      let o =
        disable_loop-outside 0x400 0 table (dir_slot pdir a) w (omega arith) (omega arith)
        ∙ rw s refl in
      let z =
        disable_loop-zero 0x400 0 (a % 0x400000 / 0x1000) table w (omega arith) (omega arith) in
      (disable_loop 0x400 0 table w, (rw (e, g) refl, rw o x, rw o c, z))

  -- The page of an address has no entry: the directory has no table for it, or one that is a frame other than the
  -- directory, in which the entry does not exist.
  abbrev pub IsUnmapped : (a : ℕ) → Mem → Type 0
  IsUnmapped a m =
      (is_entry_exist (m (dir_slot pdir a)) ≡ false)
      ⊎ ((is_entry_exist (m (dir_slot pdir a)) ≡ true)
          × (caddr_entry (m (dir_slot pdir a)) ≢ pdir)
          × (is_entry_exist (m (table_slot (caddr_entry (m (dir_slot pdir a))) a)) ≡ false))

  -- The table for such a page, found or made, has no entry for it.
  find_table-Unmapped :
      (a : ℕ) (m : Mem) (f : F)
      → a < u32_mod
      → IsUnmapped a m
      → (table : ℕ) × (m' : Mem) × (f' : F) × ((find_table alloc_chunk a pdir type m f
            ≡ some (table, m', f'))
          × (table % 0x1000 ≡ 0)
          × (table ≢ pdir)
          × (is_entry_exist (m' (dir_slot pdir a)) ≡ true)
          × (caddr_entry (m' (dir_slot pdir a)) ≡ table)
          × (is_entry_exist (m' (table_slot table a)) ≡ false))
  unfolding find_table
  find_table-Unmapped a m f b (inl e) =
      let (table, f', (g, al, ne)) = frames f in
      let (m1, (r, x, c, z)) = new_table a table m f f' b e g al ne in
      (table, m1, f', (r, al, ne, x, c, rw z refl))
  find_table-Unmapped a m f b (inr (e, ne, z)) =
      (caddr_entry (m (dir_slot pdir a)), m, f, (rw e refl, omega arith, ne, e, refl, z))

  -- With page frames other than the directory, a round of `mapping_pmem` for a page that has no entry, with or without
  -- a table, maps the page to the physical one, as `vir2phy` reads it.
  pub mapping_page-maps :
      (physical page : ℕ) (m : Mem) (f : F)
      → page < 0x100000
      → physical % 0x1000 ≡ 0
      → IsUnmapped (page * 0x1000) m
      → (m' : Mem) × (f' : F) × ((mapping_page alloc_chunk physical (page * 0x1000) pdir type m f
            ≡ some (m', f'))
          × ((o : ℕ) → o < 0x1000 → vir2phy (page * 0x1000 + o) pdir m' ≡ some (physical + o)))
  unfolding vir2phy mapping_page map_frame edit_entry
  mapping_page-maps physical page m f b pl e =
      let a = page * 0x1000 in
      let (table, m1, f', (r, al, ne, x, c, i)) = find_table-Unmapped a m f (omega arith) e in
      let (y, k) = entry_value physical type pl present in
      let s : (table_slot table a == table_slot table a) ≡ true = ground arith in
      let t : (dir_slot pdir a == table_slot table a) ≡ false = ground arith in
      (
        edit_entry (table_slot table a) physical type m1,
        f',
        (
          rw (mapping_page, r, i) refl,
          λ o l.
              let u : (a + o) / 0x400000 ≡ a / 0x400000 = omega arith in
              let v : (a + o) % 0x400000 / 0x1000 ≡ a % 0x400000 / 0x1000 = omega arith in
              let w : (a + o) % 0x1000 ≡ o = omega arith in rw (u, t, x, c, v, s, y, k, w) refl,
        ),
      )
