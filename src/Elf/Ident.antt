-- ===== src/Elf/Ident.antt =====
-- Which files are loaded.
use own_os.Prelude.{
  ℕ, zero, suc, ◌+◌, ◌<◌, ◌≤◌, ◌≡◌, ◌∙◌, refl, sym, subst, true, ◌==◌, arith, Bool-cases, inl, inr,
  ==_iff,
}
use own_os.File.{read_bytes-first}
use own_os.Elf.{
  sizeof_ehdr, header_of, half, word, Bytes, ehdr, nr_ident, x86_32_ident, ident_loop, et_exec,
  em_386, is_loadable,
}

-- An executable for the 386: the sixteen bytes of the identification, the type and the machine.
abbrev pub IsX86 : Bytes → Type 0
IsX86 b =
    ((i : ℕ) → i < nr_ident → b i ≡ x86_32_ident i)
    × ((ehdr b).e_type ≡ et_exec)
    × ((ehdr b).e_machine ≡ em_386)

ident_loop-all :
    (n i : ℕ) (b : Bytes)
    → ((j : ℕ) → i ≤ j → j < i + n → b j ≡ x86_32_ident j)
    → ident_loop n i b ≡ true
unfolding ident_loop
ident_loop-all zero i b h = refl
ident_loop-all (suc n) i b h =
    let e : (x86_32_ident i == b i) ≡ true =
      (==_iff _ _).1 (sym (h i (omega arith) (omega arith))) in
    let r = ident_loop-all n (suc i) b (λ j x y. h j (omega arith) (omega arith)) in rw (e, r) refl

ident_loop-only :
    (n i j : ℕ) (b : Bytes) → ident_loop n i b ≡ true → i ≤ j → j < i + n → b j ≡ x86_32_ident j
unfolding ident_loop
ident_loop-only zero i j b e x y = absurd (omega arith)
ident_loop-only (suc n) i j b e x y = elim (Bool-cases (x86_32_ident i == b i)) [
  | inr d ↦ let z = rw d at e in absurd cc
  | inl d ↦ elim (Bool-cases (j == i)) [
    | inl k ↦ subst (λ j. b j ≡ x86_32_ident j) (sym ((==_iff j i).0 k)) (sym ((==_iff _ _).0 d))
    | inr k ↦ ident_loop-only n (suc i) j b (rw d at e) (ground arith) (omega arith)
  ]
]

pub is_loadable-IsX86 : (b : Bytes) → is_loadable b ≡ true → IsX86 b
unfolding is_loadable
is_loadable-IsX86 b e = elim (Bool-cases (ident_loop nr_ident 0 b)) [
  | inr d ↦ let z = rw d at e in absurd cc
  | inl d ↦ elim (Bool-cases ((ehdr b).e_type == et_exec)) [
    | inr t ↦ let z = rw (d, t) at e in absurd cc
    | inl t ↦
        let m : ((ehdr b).e_machine == em_386) ≡ true = rw (d, t) at e in
        (
          λ i l. ident_loop-only nr_ident 0 i b d (omega arith) (omega arith),
          (==_iff _ _).0 t,
          (==_iff _ _).0 m,
        )
  ]
]

pub IsX86-is_loadable : (b : Bytes) → IsX86 b → is_loadable b ≡ true
unfolding is_loadable
IsX86-is_loadable b (h, t, m) =
    let d = ident_loop-all nr_ident 0 b (λ j x y. h j (omega arith)) in
    let t' : ((ehdr b).e_type == et_exec) ≡ true = (==_iff _ _).1 t in
    let m' : ((ehdr b).e_machine == em_386) ≡ true = (==_iff _ _).1 m in rw (d, t', m') refl

-- A block that is large enough for the header brings it as it stands in the file.
pub header_of-same :
    (block_size : ℕ) (b : Bytes) (i : ℕ)
    → sizeof_ehdr ≤ block_size
    → i < sizeof_ehdr
    → header_of block_size b i ≡ b i
unfolding header_of
header_of-same block_size b i l h =
    let e : 0 + i ≡ i = omega arith in
    let r = read_bytes-first block_size (λ p i. b (p + i)) sizeof_ehdr i l h in rw e at r

word_at :
    (x y : Bytes) (o : ℕ)
    → ((i : ℕ) → i < sizeof_ehdr → x i ≡ y i)
    → o < 48
    → (half x o ≡ half y o) × (word x o ≡ word y o)
word_at x y o h l =
    let a = h o (omega arith) in
    let b = h (o + 1) (omega arith) in
    let c = h (o + 2) (omega arith) in
    let d = h (o + 2 + 1) (omega arith) in (rw (a, b) refl, rw (a, b, c, d) refl)

-- Two buffers with the same header.
pub IsX86-same : (x y : Bytes) → ((i : ℕ) → i < sizeof_ehdr → x i ≡ y i) → IsX86 x → IsX86 y
IsX86-same x y h (i, t, m) = (
  λ j l. sym (h j (omega arith)) ∙ i j l,
  sym ((word_at x y 16 h (omega arith)).0) ∙ t,
  sym ((word_at x y 18 h (omega arith)).0) ∙ m,
)

pub entry_same :
    (x y : Bytes) → ((i : ℕ) → i < sizeof_ehdr → x i ≡ y i) → (ehdr x).e_entry ≡ (ehdr y).e_entry
entry_same x y h = (word_at x y 24 h (omega arith)).1
