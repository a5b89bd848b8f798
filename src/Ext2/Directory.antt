-- ===== src/Ext2/Directory.antt =====
-- The search of kernel/Ext2.cpp for the inode of a path, from directory to directory. The driver's `read` is
-- the parameter `byte`, the byte at an address of the disk. A directory is the first 0x400 bytes of its first
-- block.
use own_os.Prelude.{
  ℕ, zero, suc, ◌+◌, ◌-◌, ◌*◌, ◌/◌, ◌%◌, ◌<◌, ◌≤◌, ◌≡◌, refl, Bool, true, false, ◌&&◌, List, [],
  ◌∷◌, ◌==◌, ltb, if◌then◌else◌, arith, length, ◌≢◌, ◌++◌, All, sym, ap, Bool-cases, inl, inr,
  ==_iff,
}
use own_os.Prelude.Words.{add32, mul32}
use own_os.File.Path.{part}
use own_os.Ext2.{Inode, block_index2addr}

-- `kstring::operator==`; a name has no zero byte.
unfoldable pub same_name : List ℕ → List ℕ → Bool
same_name [] [] = true
same_name [] (y ∷ ys) = false
same_name (x ∷ xs) [] = false
same_name (x ∷ xs) (y ∷ ys) = x == y && same_name xs ys

-- The words of two and four bytes.
abbrev pub word16 : (ℕ → ℕ) → ℕ → ℕ
word16 byte a = byte a + 0x100 * byte (a + 1)

abbrev pub word32 : (ℕ → ℕ) → ℕ → ℕ
word32 byte a = word16 byte a + 0x10000 * word16 byte (a + 2)

-- `endless` where the fuel is not enough.
pub data Search : Type 0 where
  found : ℕ → Search
  missing : Search
  endless : Search

-- The loop of `find_inode_from_direntries` at the entry at an offset of the buffer.
pub find_entry : (k offset : ℕ) → (buffer : ℕ → ℕ) → List ℕ → Search
unfolding same_name
find_entry zero offset buffer search_for = endless
find_entry (suc k) offset buffer search_for =
    let behind = offset + word16 buffer (offset + 4) in
    let rest = find_entry k behind buffer search_for in
    if same_name search_for (part (offset + 8) (buffer (offset + 6)) buffer)
    then found (word32 buffer offset)
    else (if ltb behind 0x400 then rest else missing)

-- An inode with its mode.
pub record Node : Type 0 where
  pub mode : ℕ
  pub inode : Inode

abbrev pub is_directory : Node → Bool
is_directory node = node.mode / 0x1000 / 4 % 2 == 1

abbrev pub is_valid : Node → Bool
is_valid node = ltb 0 (node.mode / 0x1000) && ltb (node.mode / 0x1000) 13

-- The words of the super block that the search uses, and the constants of the class.
pub record Layout : Type 0 where
  pub first_blockaddr : ℕ
  pub block_size : ℕ
  pub inodes_per_group : ℕ
  pub blocks_per_group : ℕ
  pub group_desc_offset : ℕ

pub data Lookup : Type 0 where
  node : Node → Lookup
  invalid : Lookup
  unending : Lookup

module _ (l : Layout) (byte : ℕ → ℕ) where
  abbrev pub block_addr : ℕ → ℕ
  block_addr index = block_index2addr l.first_blockaddr l.block_size (word32 byte) index

  pub get_inode : ℕ → Node
  get_inode index =
      let group = (index - 1) / l.inodes_per_group in
      let in_group = (index - 1) % l.inodes_per_group in
      let desc =
        add32 (add32 l.first_blockaddr (mul32 (mul32 group l.blocks_per_group) l.block_size))
          l.group_desc_offset in
      let a = add32 (block_addr (word32 byte (desc + 8))) (mul32 in_group 128) in
      record {
        mode = word16 byte a;
        inode = record {
          i_size = word32 byte (a + 4);
          i_block = λ k. word32 byte (a + 40 + 4 * k);
        };
      }

  -- The loop of `get_inode_path` at the inode `cnode`.
  pub walk_path : List (List ℕ) → Node → Lookup
  unfolding find_entry get_inode
  walk_path [] cnode = node cnode
  walk_path (x ∷ xs) cnode =
      let a = block_addr (cnode.inode.i_block 0) in
      elim (is_directory cnode) [
        | false ↦ invalid
        | true ↦ elim (find_entry 0x400 0 (λ i. byte (a + i)) x) [
          | endless ↦ unending
          | missing ↦ invalid
          | found i ↦ if is_valid (get_inode i) then walk_path xs (get_inode i) else invalid
        ]
      ]

-- A directory entry, and the entries from an offset on, up to the end of the buffer.
pub record DirEntry : Type 0 where
  pub name : List ℕ
  pub number : ℕ
  pub rec_len : ℕ

unfoldable pub Entries : (offset : ℕ) → (ℕ → ℕ) → List DirEntry → Type 0
Entries offset buffer [] = 0x400 ≤ offset
Entries offset buffer (e ∷ es) =
    (word32 buffer offset ≡ e.number)
    × (word16 buffer (offset + 4) ≡ e.rec_len)
    × (part (offset + 8) (buffer (offset + 6)) buffer ≡ e.name)
    × (offset < 0x400)
    × Entries (offset + e.rec_len) buffer es

-- The comparison of names is their equality.
same_name_iff :
    (xs ys : List ℕ) → (same_name xs ys ≡ true → xs ≡ ys) × (same_name xs ys ≡ false → xs ≢ ys)
unfolding same_name
same_name_iff [] [] = (λ e. refl, λ e. absurd cc)
same_name_iff [] (y ∷ ys) = (λ e. absurd cc, λ e k. absurd cc)
same_name_iff (x ∷ xs) [] = (λ e. absurd cc, λ e k. absurd cc)
same_name_iff (x ∷ xs) (y ∷ ys) =
    let (f, g) = same_name_iff xs ys in
    elim (Bool-cases (x == y)) [
      | inl t ↦
          let k : x ≡ y = (==_iff x y).0 t in
          (λ e. let h = f (rw t at e) in cc, λ e h. g (rw t at e) cc)
      | inr t ↦ (
        λ e. let z = rw t at e in absurd cc,
        λ e h. let k : x ≡ y = cc in let z : (x == y) ≡ true = (==_iff x y).1 k in absurd cc,
      )
    ]

-- The answer of a search among entries: the number of the first entry with the name, or that no entry has it.
pub Answers : List ℕ → List DirEntry → Search → Type 0
Answers name es (found n) =
    (front back : List DirEntry) × (e : DirEntry) × (es ≡ front ++ (e ∷ back))
    × All (λ d. d.name ≢ name) front
    × (e.name ≡ name)
    × (e.number ≡ n)
Answers name es missing = All (λ d. d.name ≢ name) es
Answers name es endless = ⊥

Answers-cons :
    (name : List ℕ) (e : DirEntry) (es : List DirEntry) (r : Search)
    → e.name ≢ name
    → Answers name es r
    → Answers name (e ∷ es) r
unfolding Answers
Answers-cons name e es (found n) h (front, back, d, k, a, x, y) =
    (e ∷ front, back, d, ap (λ l. e ∷ l) k, (h, a), x, y)
Answers-cons name e es missing h a = (h, a)
Answers-cons name e es endless h a = a

find_entry-here :
    (k offset : ℕ) (buffer : ℕ → ℕ) (name : List ℕ) (e : DirEntry) (es : List DirEntry)
    → Entries offset buffer (e ∷ es)
    → same_name name e.name ≡ true
    → Answers name (e ∷ es) (find_entry (suc k) offset buffer name)
unfolding find_entry Entries Answers
find_entry-here k offset buffer name e es (n, r, p, o, t) s =
    rw (p, n, s) ([], es, e, refl, tt, sym ((same_name_iff name e.name).0 s), refl)

find_entry-step :
    (k offset : ℕ) (buffer : ℕ → ℕ) (name : List ℕ) (e : DirEntry) (es : List DirEntry)
    → length es ≤ k
    → Entries offset buffer (e ∷ es)
    → Answers name (e ∷ es) (find_entry (suc k) offset buffer name)
unfolding find_entry Entries Answers
find_entry-step k offset buffer name e [] l (n, r, p, o, t) =
    elim (Bool-cases (same_name name e.name)) [
      | inl s ↦ find_entry-here k offset buffer name e [] (n, r, p, o, t) s
      | inr s ↦
          let h : e.name ≢ name = λ q. (same_name_iff name e.name).1 s (sym q) in
          let z : ltb (offset + e.rec_len) 0x400 ≡ false = ground arith in
          rw (p, r, n, s, z) (h, tt)
    ]
find_entry-step zero offset buffer name e (d ∷ ds) l h = absurd (omega arith)
find_entry-step (suc k) offset buffer name e (d ∷ ds) l (n, r, p, o, t) =
    elim (Bool-cases (same_name name e.name)) [
      | inl s ↦ find_entry-here (suc k) offset buffer name e (d ∷ ds) (n, r, p, o, t) s
      | inr s ↦
          let h : e.name ≢ name = λ q. (same_name_iff name e.name).1 s (sym q) in
          let (n', r', p', o', t') = t in
          let z : ltb (offset + e.rec_len) 0x400 ≡ true = ground arith in
          rw (p, r, n, s, z)
            (Answers-cons name e (d ∷ ds) _ h
              (find_entry-step k (offset + e.rec_len) buffer name d ds (omega arith) t))
    ]

-- In a buffer that is filled by entries one behind the other, the search gives the inode number of the first entry
-- whose name is equal to the one that is searched for, or nothing where no entry has it; as many rounds as there are
-- entries are enough.
pub find_entry-Answers :
    (k : ℕ) (buffer : ℕ → ℕ) (name : List ℕ) (e : DirEntry) (es : List DirEntry)
    → length es < k
    → Entries 0 buffer (e ∷ es)
    → Answers name (e ∷ es) (find_entry k 0 buffer name)
find_entry-Answers zero buffer name e es l h = absurd (omega arith)
find_entry-Answers (suc k) buffer name e es l h =
    find_entry-step k 0 buffer name e es (omega arith) h

-- An entry without a length, which is not the one that is searched for, is met again and again.
pub find_entry-endless :
    (k offset : ℕ) (buffer : ℕ → ℕ) (name : List ℕ)
    → word16 buffer (offset + 4) ≡ 0
    → offset < 0x400
    → same_name name (part (offset + 8) (buffer (offset + 6)) buffer) ≡ false
    → find_entry k offset buffer name ≡ endless
unfolding find_entry
find_entry-endless zero offset buffer name z l s = refl
find_entry-endless (suc k) offset buffer name z l s =
    let e : offset + 0 ≡ offset = omega arith in
    let t : ltb offset 0x400 ≡ true = ground arith in
    rw (s, z, e, t) (find_entry-endless k offset buffer name z l s)
