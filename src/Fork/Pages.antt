-- ===== src/Fork/Pages.antt =====
-- The copy of one page of a process, which the running process reads through its own directory.
use own_os.Prelude.{
  ℕ, zero, suc, ◌+◌, ◌*◌, ◌/◌, ◌%◌, ◌<◌, ◌≤◌, ◌≡◌, ◌⊎◌, ◌∙◌, refl, sym, subst, true, false, leb,
  Option, [], ◌∷◌, some, ◌==◌, arith, Bool-cases, inl, inr, ==_iff,
}
use own_os.Prelude.Words.{u32_mod, add32}
use own_os.Prelude.Memory.{Mem, write}
use own_os.Fork.Space.{last_page, clone_pages-next, clone_pages-past}
use own_os.VarMem.{
  enable_space, copy_kernel_dir, vir2phy, is_entry_exist, caddr_entry, dir_slot, table_slot,
}
use own_os.Fork.{
  copy_from, clone_page, clone_pages, clone_mm, clone_into, clone_regions, clone_region, copy_pages,
  and_then, copied, page_fuel, page_type, Region,
}

-- The page number `page` is mapped to the frame `from` by way of the table `table`.
abbrev pub Maps : (cur page table from : ℕ) → Mem → Type 0
Maps cur page table from m =
    (is_entry_exist (m (dir_slot cur (page * 0x1000))) ≡ true)
    × (caddr_entry (m (dir_slot cur (page * 0x1000))) ≡ table)
    × (is_entry_exist (m (table_slot table (page * 0x1000))) ≡ true)
    × (caddr_entry (m (table_slot table (page * 0x1000))) ≡ from)

-- The address is not in the frame.
abbrev pub Outside : (frame x : ℕ) → Type 0
Outside frame x = (x < frame) ⊎ (frame + 0x1000 ≤ x)

abbrev pub Apart : (frame other : ℕ) → Type 0
Apart frame other = (frame + 0x1000 ≤ other) ⊎ (other + 0x1000 ≤ frame)

vir2phy-Maps :
    (cur page table from o : ℕ) (m : Mem)
    → page < 0x100000
    → o < 0x1000
    → Maps cur page table from m
    → vir2phy (add32 (page * 0x1000) o) cur m ≡ some (from + o)
unfolding vir2phy
vir2phy-Maps cur page table from o m b l (x, c, e, z) =
    let t : (page * 0x1000 + o) % u32_mod ≡ page * 0x1000 + o = omega arith in
    let u : (page * 0x1000 + o) / 0x400000 ≡ page * 0x1000 / 0x400000 = omega arith in
    let v : (page * 0x1000 + o) % 0x400000 / 0x1000 ≡ page * 0x1000 % 0x400000 / 0x1000 =
      omega arith in
    let w : (page * 0x1000 + o) % 0x1000 ≡ o = omega arith in rw (t, u, x, c, v, e, z, w) refl

copy_from-next :
    (n i cur a to p q : ℕ) (m : Mem)
    → vir2phy (add32 a (4 * i)) cur m ≡ some p
    → vir2phy (add32 to (4 * i)) cur m ≡ some q
    → copy_from (suc n) i cur a to m ≡ copy_from n (suc i) cur a to (write q (m p) m)
unfolding copy_from
copy_from-next n i cur a to p q m v w = rw (copy_from, v, w) refl

-- Neither of the two entries that lead to the page is in the frame.
abbrev pub EntriesOutside : (frame cur page table : ℕ) → Type 0
EntriesOutside frame cur page table =
    Outside frame (dir_slot cur (page * 0x1000)) × Outside frame (table_slot table (page * 0x1000))

write-Maps :
    (to cur page table from i v : ℕ) (m : Mem)
    → i < 0x400
    → EntriesOutside to cur page table
    → Maps cur page table from m
    → Maps cur page table from (write (to + 4 * i) v m)
write-Maps to cur page table from i v m l (o, q) h =
    let d : (dir_slot cur (page * 0x1000) == to + 4 * i) ≡ false = ground arith in
    let t : (table_slot table (page * 0x1000) == to + 4 * i) ≡ false = ground arith in rw (d, t) h

module _ (cur page table from number other : ℕ) (b : page < 0x100000) (b' : number < 0x100000)
    (outside : EntriesOutside (number * 0x1000) cur page table)
    (outside' : EntriesOutside (number * 0x1000) cur number other)
    (apart : Apart from (number * 0x1000)) where
  abbrev to : ℕ
  to = number * 0x1000

  Copies : (n i : ℕ) → Mem → Mem → Type 0
  Copies n i m m' =
      ((j : ℕ) → i ≤ j → j < i + n → m' (to + 4 * j) ≡ m (from + 4 * j))
      × ((x : ℕ) → (x < to + 4 * i) ⊎ (to + 4 * (i + n) ≤ x) → m' x ≡ m x)

  copy_from-Copies :
      (n i : ℕ) (m : Mem)
      → i + n ≤ 0x400
      → Maps cur page table from m
      → Maps cur number other to m
      → (m' : Mem) × ((copy_from n i cur (page * 0x1000) to m ≡ some m') × Copies n i m m')
  unfolding copy_from Copies
  copy_from-Copies zero i m l h h' = (m, (refl, (λ j x y. absurd (omega arith), λ x o. refl)))
  copy_from-Copies (suc n) i m l h h' =
      let v = vir2phy-Maps cur page table from (4 * i) m b (omega arith) h in
      let w = vir2phy-Maps cur number other to (4 * i) m b' (omega arith) h' in
      let m1 = write (to + 4 * i) (m (from + 4 * i)) m in
      let (m', (e, (c, o))) =
        copy_from-Copies n (suc i) m1 (omega arith)
          (write-Maps to cur page table from i (m (from + 4 * i)) m (omega arith) outside h)
          (write-Maps to cur number other to i (m (from + 4 * i)) m (omega arith) outside' h') in
      (
        m',
        (
          copy_from-next n i cur (page * 0x1000) to (from + 4 * i) (to + 4 * i) m v w ∙ e,
          (
            λ j x y. elim (Bool-cases (j == i)) [
              | inl k ↦
                  subst (λ j. m' (to + 4 * j) ≡ m (from + 4 * j)) (sym ((==_iff j i).0 k))
                    (o (to + 4 * i) (inl (omega arith)) ∙ ground arith)
              | inr k ↦ c j (ground arith) (omega arith) ∙ ground arith
            ],
            λ x p. o x (ground arith) ∙ ground arith,
          ),
        ),
      )

  -- A page whose frame for the child is apart from that of the parent and from the entries of the running directory
  -- that lead to both, and where the running directory maps the frame for the child to itself, is copied:
  -- `clone_page` comes to a memory in which the words of the child's frame are those of the parent's, and in which
  -- nothing outside of the child's frame has changed.
  pub clone_page-Copies :
      (pdir : ℕ) (m : Mem)
      → Maps cur page table from m
      → Maps cur number other to m
      → vir2phy (page * 0x1000) pdir m ≡ some to
      → (m' : Mem) × ((clone_page cur pdir (page * 0x1000) m ≡ some m')
          × ((j : ℕ) → j < 0x400 → m' (to + 4 * j) ≡ m (from + 4 * j))
          × ((x : ℕ) → Outside to x → m' x ≡ m x))
  unfolding clone_page Copies
  clone_page-Copies pdir m h h' e =
      let (m', (r, (c, o))) = copy_from-Copies 0x400 0 m (omega arith) h h' in
      (
        m',
        (rw (clone_page, e) r, λ j l. c j (omega arith) (omega arith), λ x p. o x (ground arith)),
      )

-- The loop over a region of one page.
clone_pages-one :
    (cur pdir limit a : ℕ) (m m' : Mem)
    → leb a limit ≡ true
    → leb (add32 a 0x1000) limit ≡ false
    → clone_page cur pdir a m ≡ some m'
    → clone_pages page_fuel cur pdir limit a m ≡ copied m'
clone_pages-one cur pdir limit a m m' l g e =
    clone_pages-next 0x100000 cur pdir limit a m l
    ∙ rw e (clone_pages-past 0xfffff cur pdir limit (add32 a 0x1000) m' g)

-- The copy of a memory with one region, of one page.
pub clone_mm-one :
    {F : Type 0} (alloc_chunk : F → Option (ℕ × F)) (mem_size kpdir cur pdir : ℕ) (r : Region)
    (m m1 m2 : Mem) (f f0 f1 : F)
    → alloc_chunk f ≡ some (pdir, f0)
    → enable_space alloc_chunk r.begin r.size pdir
        (page_type r.flags)
        (copy_kernel_dir mem_size kpdir pdir m)
        f0
      ≡ some (m1, f1)
    → leb r.begin (last_page r) ≡ true
    → leb (add32 r.begin 0x1000) (last_page r) ≡ false
    → clone_page cur pdir r.begin m1 ≡ some m2
    → clone_mm alloc_chunk mem_size kpdir cur (r ∷ []) m f ≡ copied (pdir, r ∷ [], m2, f1)
unfolding clone_mm clone_into clone_regions clone_region copy_pages and_then
clone_mm-one alloc_chunk mem_size kpdir cur pdir r m m1 m2 f f0 f1 a e l g c =
    let p = clone_pages-one cur pdir (last_page r) r.begin m1 m2 l g c in rw (a, e, p) refl
