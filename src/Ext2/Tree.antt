-- ===== src/Ext2/Tree.antt =====
-- The indirect blocks as trees of a depth, whose leaves are the blocks of the file in order.
use native.Mathlib.Nat.{
  div-one, div-div-eq-div-mul, div-add-mod, mul-add-mod_self_right, mod-mod, mod-lt, div-eq_of_lt,
  mul-add-div_right,
}
use own_os.Prelude.{
  ℕ, zero, suc, ◌+◌, ◌-◌, ◌*◌, ◌/◌, ◌%◌, ◌<◌, ◌≤◌, ◌≡◌, refl, ◌∙◌, ap, false, arith, ltb,
  if◌then◌else◌,
}
use own_os.Prelude.Words.{u32_mod, add32}
use own_os.Ext2.{Inode, Outcome, filled, untouched, entry, nr_entry, read_block_pos}

expand : (q e s t : ℕ) → (q * e + s) * e + t ≡ q * (e * e) + (s * e + t)
expand q e s t = omega arith

-- The remainder by a square in two digits.
digits : (k e : ℕ) → 0 < e → k % (e * e) ≡ k / e % e * e + k % e
digits k e p =
    let d = div-div-eq-div-mul k e e in
    let a = div-add-mod k (e * e) in
    let b = div-add-mod k e in
    let c = div-add-mod (k / e) e in
    let x = expand (k / e / e) e (k / e % e) (k % e) in
    let a' : e * e * (k / e / e) + k % (e * e) ≡ k = rw d a in
    let c' : k / e / e * e + k / e % e ≡ k / e = omega arith in
    let y : (k / e / e * e + k / e % e) * e + k % e ≡ k = rw c' (omega arith) in omega arith

powers : (e : ℕ) → 0 < e → (0 < e * e) × (0 < e * e * e)
powers zero p = omega arith
powers (suc e) p = (omega arith, omega arith)

mod_mod : (k e : ℕ) → 0 < e → k % (e * e) % e ≡ k % e
mod_mod k e p = rw (digits k e p) (mul-add-mod_self_right (k / e % e) e (k % e) ∙ mod-mod k e)

mod_div : (k e : ℕ) → 0 < e → k % (e * e) / e ≡ k / e % e
mod_div k e p =
    let z : k % e / e ≡ 0 = div-eq_of_lt (mod-lt k p) in
    rw (digits k e p) (mul-add-div_right p (k / e % e) (k % e) ∙ rw z (omega arith))

module _ (first_blockaddr block_size : ℕ) (word : ℕ → ℕ) where
  -- Leaf `k` of the tree of a depth under a block, `width` being the leaves of one child.
  abbrev pub width : ℕ → ℕ
  width zero = 1
  width (suc depth) = nr_entry first_blockaddr block_size word * width depth

  pub leaf : (depth root k : ℕ) → ℕ
  leaf zero root k = root
  leaf (suc depth) root k =
      leaf depth (entry first_blockaddr block_size word root (k / width depth)) (k % width depth)

  -- The block that holds the block `k` of a file: the twelve direct blocks, and then the leaves of
  -- the trees of depth one, two and three.
  pub file_block : ℕ → Inode → Outcome
  unfolding leaf
  file_block k node =
      if ltb k 12
      then filled (leaf 0 (node.i_block k) 0)
      else (if ltb (k - 12) (width 1)
          then filled (leaf 1 (node.i_block 12) (k - 12))
          else (if ltb (k - 12 - width 1) (width 2)
              then filled (leaf 2 (node.i_block 13) (k - 12 - width 1))
              else (if ltb (k - 12 - width 1 - width 2) (width 3)
                  then filled (leaf 3 (node.i_block 14) (k - 12 - width 1 - width 2))
                  else untouched)))

  abbrev e : ℕ
  e = nr_entry first_blockaddr block_size word

  abbrev at : ℕ → ℕ → ℕ
  at = entry first_blockaddr block_size word

  leaf-one : (r k : ℕ) → leaf 1 r k ≡ at r k
  unfolding leaf
  leaf-one r k = ap (at r) (div-one k)

  leaf-two : (r k : ℕ) → leaf 2 r k ≡ at (at r (k / e)) (k % e)
  unfolding leaf
  leaf-two r k = rw (width_one, div-one (k % e)) refl
    where
      width_one : e * 1 ≡ e
      width_one = omega arith

  leaf-three : (r k : ℕ) → 0 < e → leaf 3 r k ≡ at (at (at r (k / (e * e))) (k / e % e)) (k % e)
  unfolding leaf
  leaf-three r k p =
      let width_one : e * 1 ≡ e = omega arith in
      rw (width_one, div-one (k % (e * e) % e), mod_div k e p, mod_mod k e p) refl

  -- For a block of at least four bytes, a position whose whole block lies in the file and below
  -- 4 GiB is read from the block of the file that holds it.
  pub read_block_pos-file_block :
      (pos : ℕ) (node : Inode)
      → 4 ≤ block_size
      → pos + block_size < u32_mod
      → pos + block_size ≤ node.i_size
      → read_block_pos first_blockaddr block_size word pos node ≡ file_block (pos / block_size) node
  unfolding read_block_pos file_block
  read_block_pos-file_block pos node h b i =
      let e = nr_entry first_blockaddr block_size word in
      let p : 0 < e = omega arith in
      let k = pos / block_size in
      let r : ltb node.i_size (add32 pos block_size) ≡ false = ground arith in
      let (q, c) = powers e p in
      let x : ltb (k - 12) (e * 1) ≡ ltb k (12 + e) = ground arith in
      let y : ltb (k - 12 - e * 1) (e * (e * 1)) ≡ ltb k (12 + e + e * e) = ground arith in
      let z : ltb (k - 12 - e * 1 - e * (e * 1)) (e * (e * (e * 1)))
          ≡ ltb k (12 + e + e * e + e * e * e) =
        ground arith in
      let l = leaf-one (node.i_block 12) (k - 12) in
      let m = leaf-two (node.i_block 13) (k - (12 + e)) in
      let n = leaf-three (node.i_block 14) (k - (12 + e + e * e)) p in
      let m' : k - 12 - e * 1 ≡ k - (12 + e) = omega arith in
      let n' : k - (12 + e) - e * (e * 1) ≡ k - (12 + e + e * e) = omega arith in
      rw (r, x, y, z, m', n', l, m, n) refl
