-- ===== src/VarMem/Paging/Loops.antt =====
-- The loops of `initPaging` over the list of tables and over the entries of one table.
use own_os.Prelude.{
  ℕ, zero, suc, ◌+◌, ◌*◌, ◌/◌, ◌<◌, ◌≤◌, ◌≡◌, ◌⊎◌, ◌∙◌, refl, true, false, ◌==◌, arith, Bool-cases,
  inl, inr, ==_iff,
}
use own_os.Prelude.Words.{add32}
use own_os.Prelude.Memory.{Mem, write}
use own_os.VarMem.{edit_entry}
use own_os.VarMem.Paging.{list_loop, fill_loop}

-- Two spans of memory that have no word in common.
abbrev pub Apart : (a n b k : ℕ) → Type 0
Apart a n b k = (a + n ≤ b) ⊎ (b + k ≤ a)

pub list_loop-outside :
    (n i big kptables x : ℕ) (m : Mem)
    → (x < kptables + 4 * i) ⊎ (kptables + 4 * (i + n) ≤ x)
    → list_loop n i big kptables m x ≡ m x
unfolding list_loop
list_loop-outside zero i big kptables x m o = refl
list_loop-outside (suc n) i big kptables x m o =
    list_loop-outside n (suc i) big kptables x (write (kptables + 4 * i) (add32 big (0x1000 * i)) m)
      (ground arith)
    ∙ ground arith

pub list_loop-entry :
    (n i q big kptables : ℕ) (m : Mem)
    → i ≤ q
    → q < i + n
    → list_loop n i big kptables m (kptables + 4 * q) ≡ add32 big (0x1000 * q)
unfolding list_loop
list_loop-entry zero i q big kptables m l u = absurd (omega arith)
list_loop-entry (suc n) i q big kptables m l u =
    let m1 = write (kptables + 4 * i) (add32 big (0x1000 * i)) m in
    elim (Bool-cases (i == q)) [
      | inl e ↦
          let k : i ≡ q = (==_iff i q).0 e in
          let s : (kptables + 4 * q == kptables + 4 * i) ≡ true = ground arith in
          list_loop-outside n (suc i) big kptables (kptables + 4 * q) m1 (inl (omega arith))
          ∙ rw (s, k) refl
      | inr e ↦ list_loop-entry n (suc i) q big kptables m1 (ground arith) (omega arith)
    ]

-- The entry of a page of the system.
abbrev pub entry_of : ℕ → ℕ
entry_of pointer = pointer / 0x1000 * 0x1000 + 0x13

pub fill_loop-outside :
    (n j slot t x : ℕ) (m : Mem)
    → j + n ≤ 0x400
    → m slot ≡ t
    → (slot < t + 4 * j) ⊎ (t + 4 * (j + n) ≤ slot)
    → (x < t + 4 * j) ⊎ (t + 4 * (j + n) ≤ x)
    → fill_loop n j slot m x ≡ m x
unfolding fill_loop edit_entry
fill_loop-outside zero j slot t x m b h s o = refl
fill_loop-outside (suc n) j slot t x m b h s o =
    let v : (slot == m slot + 4 * j) ≡ false = rw h (ground arith) in
    let w : (x == m slot + 4 * j) ≡ false = rw h (ground arith) in
    let m1 = edit_entry (m slot + 4 * j) (j * 0x1000) 0x13 m in
    fill_loop-outside n (suc j) slot t x m1 (omega arith) (rw v h) (ground arith) (ground arith)
    ∙ rw w refl

pub fill_loop-entry :
    (n j k slot t : ℕ) (m : Mem)
    → j + n ≤ 0x400
    → m slot ≡ t
    → (slot < t + 4 * j) ⊎ (t + 4 * (j + n) ≤ slot)
    → j ≤ k
    → k < j + n
    → fill_loop n j slot m (t + 4 * k) ≡ entry_of (k * 0x1000)
unfolding fill_loop edit_entry
fill_loop-entry zero j k slot t m b h s l u = absurd (omega arith)
fill_loop-entry (suc n) j k slot t m b h s l u =
    let v : (slot == m slot + 4 * j) ≡ false = rw h (ground arith) in
    let m1 = edit_entry (m slot + 4 * j) (j * 0x1000) 0x13 m in
    elim (Bool-cases (j == k)) [
      | inl e ↦
          let i : j ≡ k = (==_iff j k).0 e in
          let w : (t + 4 * k == m slot + 4 * j) ≡ true = rw h (ground arith) in
          fill_loop-outside n (suc j) slot t (t + 4 * k) m1 (omega arith) (rw v h) (ground arith)
            (inl (omega arith))
          ∙ rw (w, i) refl
      | inr e ↦
          fill_loop-entry n (suc j) k slot t m1 (omega arith) (rw v h) (ground arith) (ground arith)
            (omega arith)
    ]
