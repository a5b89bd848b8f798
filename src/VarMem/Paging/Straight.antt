-- ===== src/VarMem/Paging/Straight.antt =====
-- What the straight mapping of `initPaging` maps.
use own_os.Prelude.{
  ℕ, zero, suc, ◌+◌, ◌*◌, ◌/◌, ◌%◌, ◌<◌, ◌≤◌, ◌≡◌, ◌⊎◌, ◌∙◌, refl, true, false, some, ◌==◌, arith,
  Bool-cases, inl, inr, ==_iff, ap,
}
use own_os.Prelude.Words.{u32_mod, add32}
use own_os.Prelude.Memory.{Mem, write}
use own_os.VarMem.{edit_entry, disable_loop, disable_all_entry, vir2phy}
use own_os.VarMem.Mapping.{disable_loop-outside, entry_value}
use own_os.VarMem.Kernel.{disable_loop-zero}
use own_os.VarMem.Paging.{list_loop, fill_loop, fill_table, table_loop, map_straight}
use own_os.VarMem.Paging.Loops.{
  Apart, entry_of, list_loop-entry, fill_loop-outside, fill_loop-entry,
}

-- The list of the tables, the directory and the tables have no word in common, and the tables are frames
-- below 4 GiB.
abbrev pub IsLaid : (nr big kpdir kptables : ℕ) → Type 0
IsLaid nr big kpdir kptables =
    (nr ≤ 0x400)
    × (big % 0x1000 ≡ 0)
    × (big + 0x1000 * nr ≤ u32_mod)
    × Apart kpdir 0x1000 kptables 0x1000
    × Apart kpdir 0x1000 big (0x1000 * nr)
    × Apart kptables 0x1000 big (0x1000 * nr)

module _ (nr big kpdir kptables : ℕ) (laid : IsLaid nr big kpdir kptables) where
  -- The list has the tables from `i` on.
  abbrev Lists : (i : ℕ) → Mem → Type 0
  Lists i m = (q : ℕ) → i ≤ q → q < nr → m (kptables + 4 * q) ≡ big + 0x1000 * q

  -- The table `q` is filled, and is the one of its entry in the directory.
  abbrev pub Filled : (q : ℕ) → Mem → Type 0
  Filled q m =
      (m (kpdir + 4 * q) ≡ entry_of (big + 0x1000 * q))
      × ((k : ℕ) → k < 0x400 → m (big + 0x1000 * q + 4 * k) ≡ entry_of (k * 0x1000))

  -- Neither the entries of the directory from `i` to `e` nor their tables have the word `x`.
  abbrev Beyond : (i e x : ℕ) → Type 0
  Beyond i e x =
      ((x < kpdir + 4 * i) ⊎ (kpdir + 4 * e ≤ x))
      × ((x < big + 0x1000 * i) ⊎ (big + 0x1000 * e ≤ x))

  -- The memory in which the entries of the table are written.
  abbrev entered : (i : ℕ) → Mem → Mem
  entered i m =
      let t = big + 0x1000 * i in write (kpdir + 4 * i) (entry_of t) (disable_loop 0x400 0 t m)

  fill_table-entered :
      (i : ℕ) (m : Mem)
      → i < nr
      → m (kptables + 4 * i) ≡ big + 0x1000 * i
      → (fill_table i kpdir kptables m ≡ fill_loop 0x400 0 (kptables + 4 * i) (entered i m))
        × (entered i m (kptables + 4 * i) ≡ big + 0x1000 * i)
  unfolding fill_table disable_all_entry edit_entry
  fill_table-entered i m l h =
      let (b, _, _, o1, o2, o3) = laid in
      let t = big + 0x1000 * i in
      let s = kptables + 4 * i in
      let d : disable_loop 0x400 0 t m s ≡ t =
        disable_loop-outside 0x400 0 t s m (omega arith) (ground arith) ∙ h in
      let e : (s == kpdir + 4 * i) ≡ false = ground arith in (rw (h, d) refl, rw e d)

  fill_table-Beyond :
      (i x : ℕ) (m : Mem)
      → i < nr
      → m (kptables + 4 * i) ≡ big + 0x1000 * i
      → Beyond i (suc i) x
      → fill_table i kpdir kptables m x ≡ m x
  fill_table-Beyond i x m l h (p, q) =
      let (b, _, _, o1, o2, o3) = laid in
      let (r, s) = fill_table-entered i m l h in
      let t = big + 0x1000 * i in
      let e : (x == kpdir + 4 * i) ≡ false = ground arith in
      rw r (
        fill_loop-outside 0x400 0 (kptables + 4 * i) t x (entered i m) (omega arith) s
          (ground arith) (ground arith)
        ∙ rw e (disable_loop-outside 0x400 0 t x m (omega arith) (ground arith)))

  fill_table-Filled :
      (i : ℕ) (m : Mem)
      → i < nr
      → m (kptables + 4 * i) ≡ big + 0x1000 * i
      → Filled i (fill_table i kpdir kptables m)
  fill_table-Filled i m l h =
      let (b, _, _, o1, o2, o3) = laid in
      let (r, s) = fill_table-entered i m l h in
      let t = big + 0x1000 * i in
      let e : (kpdir + 4 * i == kpdir + 4 * i) ≡ true = ground arith in
      rw r (
        fill_loop-outside 0x400 0 (kptables + 4 * i) t (kpdir + 4 * i) (entered i m) (omega arith) s
              (ground arith) (ground arith)
            ∙ rw e refl,
        λ k u.
            fill_loop-entry 0x400 0 k (kptables + 4 * i) t (entered i m) (omega arith) s
              (ground arith) (omega arith) u,
      )

  Lists-fill_table :
      (i : ℕ) (m : Mem) → i < nr → Lists i m → Lists (suc i) (fill_table i kpdir kptables m)
  Lists-fill_table i m l h q a u =
      let (b, _, _, o1, o2, o3) = laid in
      fill_table-Beyond i (kptables + 4 * q) m l (h i (omega arith) l) (ground arith, ground arith)
      ∙ h q (omega arith) u

  table_loop-Beyond :
      (n i x : ℕ) (m : Mem)
      → i + n ≤ nr
      → Lists i m
      → Beyond i (i + n) x
      → table_loop n i kpdir kptables m x ≡ m x
  unfolding table_loop
  table_loop-Beyond zero i x m l h o = refl
  table_loop-Beyond (suc n) i x m l h (p, q) =
      table_loop-Beyond n (suc i) x (fill_table i kpdir kptables m) (omega arith)
        (Lists-fill_table i m (omega arith) h) (ground arith, ground arith)
      ∙ fill_table-Beyond i x m (omega arith) (h i (omega arith) (omega arith))
          (ground arith, ground arith)

  table_loop-Filled :
      (n i q : ℕ) (m : Mem)
      → i + n ≤ nr
      → Lists i m
      → i ≤ q
      → q < i + n
      → Filled q (table_loop n i kpdir kptables m)
  unfolding table_loop
  table_loop-Filled zero i q m l h a u = absurd (omega arith)
  table_loop-Filled (suc n) i q m l h a u =
      let (b, _, _, o1, o2, o3) = laid in
      let m1 = fill_table i kpdir kptables m in
      let h1 = Lists-fill_table i m (omega arith) h in
      elim (Bool-cases (i == q)) [
        | inr e ↦ table_loop-Filled n (suc i) q m1 (omega arith) h1 (ground arith) (omega arith)
        | inl e ↦
            let k : i ≡ q = (==_iff i q).0 e in
            let (d, w) = fill_table-Filled i m (omega arith) (h i (omega arith) (omega arith)) in
            rw (← k) (
              table_loop-Beyond n (suc i) (kpdir + 4 * i) m1 (omega arith) h1
                    (ground arith, ground arith)
                  ∙ d,
              λ j v.
                  table_loop-Beyond n (suc i) (big + 0x1000 * i + 4 * j) m1 (omega arith) h1
                    (ground arith, ground arith)
                  ∙ w j v,
            )
      ]

  straight_listed : (m : Mem) → Lists 0 (disable_all_entry kpdir (list_loop nr 0 big kptables m))
  unfolding disable_all_entry
  straight_listed m q a u =
      let (b, al, top, o1, o2, o3) = laid in
      let m1 = list_loop nr 0 big kptables m in
      let e : add32 big (0x1000 * q) ≡ big + 0x1000 * q = omega arith in
      disable_loop-outside 0x400 0 kpdir (kptables + 4 * q) m1 (omega arith) (ground arith)
      ∙ list_loop-entry nr 0 q big kptables m a (omega arith)
      ∙ e

  -- The straight mapping fills the tables, and leaves the entry of the screen without a table.
  pub map_straight-Filled :
      (q : ℕ) (m : Mem) → q < nr → Filled q (map_straight nr big kpdir kptables m)
  unfolding map_straight
  map_straight-Filled q m l =
      table_loop-Filled nr 0 q (disable_all_entry kpdir (list_loop nr 0 big kptables m))
        (omega arith) (straight_listed m) (omega arith) (omega arith)

  pub map_straight-screen :
      (m : Mem) → nr ≤ 0x380 → map_straight nr big kpdir kptables m (kpdir + 4 * 0x380) ≡ 0
  unfolding map_straight disable_all_entry
  map_straight-screen m l =
      let (_, _, _, _, o, _) = laid in
      let m1 = list_loop nr 0 big kptables m in
      table_loop-Beyond nr 0 (kpdir + 4 * 0x380) (disable_all_entry kpdir m1) (omega arith)
        (straight_listed m) (ground arith, ground arith)
      ∙ disable_loop-zero 0x400 0 0x380 kpdir m1 (omega arith) (omega arith)

  -- Filled tables take every address to its offset in the first 4 MiB.
  pub Filled-wraps :
      (a : ℕ) (m : Mem)
      → a < nr * 0x400000
      → ((q : ℕ) → q < nr → Filled q m)
      → vir2phy a kpdir m ≡ some (a % 0x400000)
  unfolding vir2phy
  Filled-wraps a m l filled =
      let (b, al, top, o1, o2, o3) = laid in
      let q = a / 0x400000 in
      let k = a % 0x400000 / 0x1000 in
      let (d, w) = filled q (omega arith) in
      let (x, y) = entry_value (big + 0x1000 * q) 0x13 (omega arith) refl in
      let (x', y') = entry_value (k * 0x1000) 0x13 (omega arith) refl in
      let v : k * 0x1000 + a % 0x1000 ≡ a % 0x400000 = omega arith in
      rw (d, x, y, w k (omega arith), x', y') (ap some v)
