-- ===== src/File/Path.antt =====
-- `FileSystem::fopen` of kernel/FileSystem.cpp: a path as the names of its parts. A path is the bytes at the
-- indices below its length. The inode at the end of a path comes from the file system, which is a parameter.
use own_os.Prelude.{
  ℕ, zero, suc, ◌+◌, ◌-◌, ◌<◌, ◌≤◌, ◌≡◌, ◌≢◌, ◌∙◌, sym, ap, refl, true, Option, none, some, List,
  [], ◌∷◌, ◌++◌, All, ◌==◌, if◌then◌else◌, arith, leb, Bool-cases, inl, inr, ==_iff,
}

-- `kstring(cname + a, n)`.
unfoldable pub part : (a n : ℕ) → (ℕ → ℕ) → List ℕ
part a zero name = []
part a (suc n) name = name a ∷ part (suc a) n name

abbrev pub max_file_nr : ℕ
max_file_nr = 20

-- `kvector::length`.
unfoldable pub nr_names : List (List ℕ) → ℕ
nr_names [] = 0
nr_names (x ∷ xs) = suc (nr_names xs)

-- `refused` is the file that is not valid, `wild` an assignment through the reference to NULL, which the vector gives
-- for an index from `max_file_nr` on.
pub data Opened (Inode : Type 0) : Type 0 where
  opened : List (List ℕ) → Inode → Opened Inode
  refused wild : Opened Inode

unfoldable pub found_inode : {Inode : Type 0} → List (List ℕ) → Option Inode → Opened Inode
found_inode path none = refused
found_inode path (some inode) = opened path inode

module _ (name : ℕ → ℕ) (length : ℕ) where
  -- The loop at `cpos`, with the last separator at `ppos`.
  unfoldable pub path_loop : (k cpos ppos : ℕ) → List (List ℕ)
  unfolding part
  path_loop zero cpos ppos = []
  path_loop (suc k) cpos ppos =
      let after_end = path_loop k (suc cpos) cpos in
      let after_byte = path_loop k (suc cpos) ppos in
      let name_here = part (ppos + 1) (cpos - ppos - 1) name in
      if cpos == length
      then name_here ∷ []
      else (if name cpos == 47 then name_here ∷ after_end else after_byte)

  unfoldable pub fopen : {Inode : Type 0} → (List (List ℕ) → Option Inode) → Opened Inode
  unfolding path_loop nr_names found_inode
  fopen get_inode_path =
      let path = path_loop length 1 0 in
      if name 0 == 47
      then (if leb (nr_names path) max_file_nr
          then found_inode path (get_inode_path path)
          else wild)
      else refused

-- The names, each behind a separator.
pub joined : List (List ℕ) → List ℕ
joined [] = []
joined (x ∷ xs) = (47 ∷ x) ++ joined xs

abbrev pub NoSlash : List ℕ → Type 0
NoSlash = All (λ c. c ≢ 47)

append_nil : (xs : List ℕ) → xs ++ [] ≡ xs
append_nil [] = refl
append_nil (x ∷ xs) = ap (λ y. x ∷ y) (append_nil xs)

part-append :
    (a n m : ℕ) (name : ℕ → ℕ) → part a n name ++ part (a + n) m name ≡ part a (n + m) name
unfolding part
part-append a zero m name =
    let z : a + 0 ≡ a = omega arith in let y : 0 + m ≡ m = omega arith in rw (z, y) refl
part-append a (suc n) m name =
    let z : a + suc n ≡ suc a + n = omega arith in
    let y : suc n + m ≡ suc (n + m) = omega arith in
    rw (z, y) (ap (λ x. name a ∷ x) (part-append (suc a) n m name))

part-NoSlash :
    (a n : ℕ) (name : ℕ → ℕ) → ((i : ℕ) → a ≤ i → i < a + n → name i ≢ 47) → NoSlash (part a n name)
unfolding part
part-NoSlash a zero name h = tt
part-NoSlash a (suc n) name h = (
  h a (omega arith) (omega arith),
  part-NoSlash (suc a) n name (λ i l m. h i (omega arith) (omega arith)),
)

module _ (name : ℕ → ℕ) (length : ℕ) where
  slash_first : (a n : ℕ) → name a ≡ 47 → 47 ∷ part (suc a) n name ≡ part a (suc n) name
  unfolding part
  slash_first a n s = rw s refl

  -- A name with the separator in front.
  part-slash :
      (ppos cpos : ℕ)
      → ppos < cpos
      → name ppos ≡ 47
      → 47 ∷ part (ppos + 1) (cpos - ppos - 1) name ≡ part ppos (cpos - ppos) name
  part-slash ppos cpos l s =
      let z : cpos - ppos ≡ suc (cpos - ppos - 1) = omega arith in
      let y : ppos + 1 ≡ suc ppos = omega arith in
      ap (λ x. 47 ∷ part x (cpos - ppos - 1) name) y
      ∙ slash_first ppos (cpos - ppos - 1) s
      ∙ ap (λ x. part ppos x name) (sym z)

  path_loop-joined :
      (k cpos ppos : ℕ)
      → length < cpos + k
      → ppos < cpos
      → cpos ≤ length
      → name ppos ≡ 47
      → joined (path_loop name length k cpos ppos) ≡ part ppos (length - ppos) name
  unfolding path_loop joined
  path_loop-joined zero cpos ppos f l b s = absurd (omega arith)
  path_loop-joined (suc k) cpos ppos f l b s = elim (Bool-cases (cpos == length)) [
    | inl e ↦
        let z : cpos - ppos ≡ length - ppos = ground arith in
        rw e (
          ap (λ x. 47 ∷ x) (append_nil (part (ppos + 1) (cpos - ppos - 1) name))
          ∙ part-slash ppos cpos l s
          ∙ ap (λ x. part ppos x name) z)
    | inr e ↦ elim (Bool-cases (name cpos == 47)) [
      | inl t ↦
          let r =
            path_loop-joined k (suc cpos) cpos (omega arith) (omega arith) (ground arith)
              ((==_iff _ _).0 t) in
          let z : ppos + (cpos - ppos) ≡ cpos = omega arith in
          let y : cpos - ppos + (length - cpos) ≡ length - ppos = omega arith in
          let v = rw (z, y) at (part-append ppos (cpos - ppos) (length - cpos) name) in
          rw (e, t)
            (ap (λ x. 47 ∷ (part (ppos + 1) (cpos - ppos - 1) name ++ x)) r
              ∙ ap (λ x. x ++ part cpos (length - cpos) name) (part-slash ppos cpos l s)
              ∙ v)
      | inr t ↦
          rw (e, t)
            (path_loop-joined k (suc cpos) ppos (omega arith) (omega arith) (ground arith) s)
    ]
  ]

  path_loop-NoSlash :
      (k cpos ppos : ℕ)
      → ppos < cpos
      → ((i : ℕ) → ppos < i → i < cpos → name i ≢ 47)
      → All NoSlash (path_loop name length k cpos ppos)
  unfolding path_loop
  path_loop-NoSlash zero cpos ppos l h = tt
  path_loop-NoSlash (suc k) cpos ppos l h =
      let here =
        part-NoSlash (ppos + 1) (cpos - ppos - 1) name (λ i a b. h i (omega arith) (omega arith)) in
      elim (Bool-cases (cpos == length)) [
        | inl e ↦ rw e (here, tt)
        | inr e ↦ elim (Bool-cases (name cpos == 47)) [
          | inl t ↦
              rw (e, t)
                (
                  here,
                  path_loop-NoSlash k (suc cpos) cpos (omega arith) (λ i a b. absurd (omega arith)),
                )
          | inr t ↦
              rw (e, t)
                (path_loop-NoSlash k (suc cpos) ppos (omega arith) (λ i a b. ground (arith, h i a)))
        ]
      ]

  -- What `fopen` comes to for a name of `n` parts.
  abbrev pub opens : {Inode : Type 0} → (n : ℕ) → List (List ℕ) → Option Inode → Opened Inode
  opens n path (some inode) = if leb n 20 then opened path inode else wild
  opens n path none = if leb n 20 then refused else wild

  found_inode-opens :
      {Inode : Type 0} (n : ℕ) (path : List (List ℕ)) (r : Option Inode)
      → (if leb n 20 then found_inode path r else wild) ≡ opens n path r
  unfolding found_inode
  found_inode-opens n path none = refl
  found_inode-opens n path (some inode) = refl

  -- For a name that is not empty and begins with a separator there is a path, without a separator in any of its names,
  -- whose names, each behind a separator, are the whole name again. Where it has at most twenty names, `fopen` asks the
  -- file system for its inode, and returns the inode and the path where there is one, and the file that is not valid
  -- where there is none; with more names it writes through NULL.
  pub fopen-joined :
      {Inode : Type 0} (get_inode_path : List (List ℕ) → Option Inode)
      → 0 < length
      → name 0 ≡ 47
      → (path : List (List ℕ)) × (fopen name length get_inode_path
          ≡ opens (nr_names path) path (get_inode_path path))
        × All NoSlash path
        × (joined path ≡ part 0 length name)
  unfolding fopen
  fopen-joined get_inode_path l s =
      let e : (name 0 == 47) ≡ true = ground arith in
      let n = path_loop-NoSlash length 1 0 (omega arith) (λ i a b. absurd (omega arith)) in
      let j = path_loop-joined length 1 0 (omega arith) (omega arith) (omega arith) s in
      let z : length - 0 ≡ length = omega arith in
      let path = path_loop name length length 1 0 in
      (
        path,
        rw (fopen, e) (found_inode-opens (nr_names path) path (get_inode_path path)),
        n,
        rw z at j,
      )
