-- ===== src/VarMem/Mapping.antt =====
-- A page that `enableSpace` has gone through is mapped.
use own_os.Prelude.{
  ℕ, zero, suc, ◌+◌, ◌*◌, ◌/◌, ◌%◌, ◌<◌, ◌≤◌, ◌≡◌, ◌≢◌, ◌⊎◌, ◌∙◌, refl, true, false, Option, some,
  ◌==◌, arith, Bool-cases, inl, inr,
}
use own_os.Prelude.Words.{u32_mod}
use own_os.Prelude.Memory.{Mem, write}
use own_os.VarMem.{
  edit_entry, is_entry_exist, caddr_entry, disable_loop, disable_all_entry, dir_slot, table_slot,
  vir2phy, find_table, find_frame, enable_page,
}

pub disable_loop-outside :
    (n i table x : ℕ) (m : Mem)
    → i + n ≤ 0x400
    → (x < table) ⊎ (table + 0x1000 ≤ x)
    → disable_loop n i table m x ≡ m x
unfolding disable_loop
disable_loop-outside zero i table x m b o = refl
disable_loop-outside (suc n) i table x m b o =
    let e : (x == table + 4 * i) ≡ false = ground arith in
    disable_loop-outside n (suc i) table x (write (table + 4 * i) 0 m) (omega arith) o ∙ rw e refl

-- What `editEntry` stores for a frame, with the bit that says that the entry exists.
pub entry_value :
    (frame type : ℕ)
    → frame % 0x1000 ≡ 0
    → type % 2 ≡ 1
    → let v = frame / 0x1000 * 0x1000 + type % 0x1000 in
      (is_entry_exist v ≡ true) × (caddr_entry v ≡ frame)
entry_value frame type a t = (ground arith, omega arith)

module _ {F : Type 0} (alloc_chunk : F → Option (ℕ × F)) (pdir type : ℕ) where
  -- The allocator gives page frames, other than the directory.
  abbrev pub Frames : Type 0
  Frames =
      (f : F)
      → (frame : ℕ) × (f' : F) × ((alloc_chunk f ≡ some (frame, f'))
          × (frame % 0x1000 ≡ 0)
          × (frame ≢ pdir))

  -- The table of an address is in the directory, and it is a frame other than the directory.
  abbrev pub HasTable : ℕ → ℕ → Mem → Type 0
  HasTable a table m =
      (is_entry_exist (m (dir_slot pdir a)) ≡ true)
      × (caddr_entry (m (dir_slot pdir a)) ≡ table)
      × (table % 0x1000 ≡ 0)
      × (table ≢ pdir)

  enable_page-found :
      (a table : ℕ) (m m' : Mem) (f f' : F)
      → find_table alloc_chunk a pdir type m f ≡ some (table, m', f')
      → enable_page alloc_chunk a pdir type m f ≡ find_frame alloc_chunk a table type m' f'
  unfolding enable_page
  enable_page-found a table m m' f f' r = rw (r, enable_page) refl

  module _ (frames : Frames) (aligned : pdir % 0x1000 ≡ 0) (present : type % 2 ≡ 1) where
    pub find_table-HasTable :
        (a : ℕ) (m : Mem) (f : F)
        → a < u32_mod
        → caddr_entry (m (dir_slot pdir a)) ≢ pdir
        → (table : ℕ) × (m' : Mem) × (f' : F) × ((find_table alloc_chunk a pdir type m f
              ≡ some (table, m', f'))
            × HasTable a table m')
    unfolding find_table edit_entry disable_all_entry
    find_table-HasTable a m f b d = elim (Bool-cases (is_entry_exist (m (dir_slot pdir a)))) [
      | inl e ↦ rw e (_, _, _, (refl, (e, refl, omega arith, d)))
      | inr e ↦
          let (table, f', (g, al, ne)) = frames f in
          let (x, c) = entry_value table type al present in
          let s : (dir_slot pdir a == dir_slot pdir a) ≡ true = ground arith in
          let o =
            disable_loop-outside 0x400 0 table (dir_slot pdir a)
              (edit_entry (dir_slot pdir a) table type m) (omega arith) (omega arith)
            ∙ rw s refl in
          rw e (rw g (_, _, _, (refl, (rw o x, rw o c, al, ne))))
    ]

    -- `find_frame` maps the page of the address, in a table that is not the directory.
    find_frame-maps :
        (a table : ℕ) (m : Mem) (f : F)
        → a < u32_mod
        → HasTable a table m
        → (m' : Mem) × (f' : F) × ((find_frame alloc_chunk a table type m f ≡ some (m', f'))
            × (m' (dir_slot pdir a) ≡ m (dir_slot pdir a))
            × (is_entry_exist (m' (table_slot table a)) ≡ true))
    unfolding find_frame edit_entry
    find_frame-maps a table m f b (x, c, al, ne) =
        elim (Bool-cases (is_entry_exist (m (table_slot table a)))) [
          | inl e ↦ rw e (_, _, (refl, refl, e))
          | inr e ↦
              let (frame, f', (g, fal, fne)) = frames f in
              let (y, z) = entry_value frame type fal present in
              let s : (table_slot table a == table_slot table a) ≡ true = ground arith in
              let t : (dir_slot pdir a == table_slot table a) ≡ false = ground arith in
              rw e (rw g (_, _, (refl, rw t refl, rw s y)))
        ]

    -- With page frames other than the directory, a round of `enableSpace` whose entry does not lead
    -- back to the directory does not fail, and maps the page of its address: there is one frame to
    -- which `vir2phy` takes every address of the page with its offset.
    pub enable_page-maps :
        (page : ℕ) (m : Mem) (f : F)
        → page < 0x100000
        → caddr_entry (m (dir_slot pdir (page * 0x1000))) ≢ pdir
        → (m' : Mem) × (f' : F) × (frame : ℕ) × ((enable_page alloc_chunk
                (page * 0x1000)
                pdir
                type
                m
                f
              ≡ some (m', f'))
            × (frame % 0x1000 ≡ 0)
            × ((o : ℕ) → o < 0x1000 → vir2phy (page * 0x1000 + o) pdir m' ≡ some (frame + o)))
    unfolding vir2phy
    enable_page-maps page m f b d =
        let (table, m1, f1, (r, t)) = find_table-HasTable (page * 0x1000) m f (omega arith) d in
        let (m2, f2, (r', k, e)) = find_frame-maps (page * 0x1000) table m1 f1 (omega arith) t in
        let (x, c, al, ne) = t in
        let frame = caddr_entry (m2 (table_slot table (page * 0x1000))) in
        (
          m2,
          f2,
          frame,
          (
            enable_page-found (page * 0x1000) table m m1 f f1 r ∙ r',
            omega arith,
            λ o l.
                let u : (page * 0x1000 + o) / 0x400000 ≡ page * 0x1000 / 0x400000 = omega arith in
                let v : (page * 0x1000 + o) % 0x400000 / 0x1000
                    ≡ page * 0x1000 % 0x400000 / 0x1000 =
                  omega arith in
                let w : (page * 0x1000 + o) % 0x1000 ≡ o = omega arith in
                rw (u, k, x, c, v, e, w) refl,
          ),
        )
