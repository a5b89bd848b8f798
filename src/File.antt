-- ===== src/File.antt =====
-- The class `File` of kernel/FileSystem.cpp: how a read of a span of bytes is made of reads of
-- blocks. `FileSystem::read_block`, which fills a block from the disk, is the parameter `block`: the
-- byte at an offset of the block that it reads for a position. The size of a block is a power of two.
pub mod Span
pub mod Path
mod Tests
use own_os.Prelude.{
  ℕ, zero, suc, ◌+◌, ◌-◌, ◌*◌, ◌/◌, ◌%◌, Bool, true, false, Option, none, some, List, [], ◌∷◌, ◌++◌,
  ltb, leb, ◌&&◌, ◌==◌, ◌<◌, ◌≤◌, ◌≡◌, ◌∙◌, refl, ap, arith, if◌then◌else◌,
}
use own_os.Prelude.Words.{u32_mod, add32, sub32}

-- A call of `File::read_block`.
pub record Call : Type 0 where
  pub src : ℕ
  pub dest : ℕ
  pub size : ℕ

abbrev pub call : ℕ → ℕ → ℕ → Call
call s d n = record { src = s; dest = d; size = n }

-- The conjunction with a mask of high bits: 2 ^ 32 less a power of two, or 0.
abbrev pub and_high : ℕ → ℕ → ℕ
and_high a m = if m == 0 then 0 else a / (u32_mod - m) * (u32_mod - m)

-- The copy of a buffer, where there is one.
unfoldable pub put_bytes : (dest size : ℕ) → Option (ℕ → ℕ) → (ℕ → ℕ) → ℕ → ℕ
put_bytes dest size none m x = m x
put_bytes dest size (some f) m x = if leb dest x && ltb x (dest + size) then f (x - dest) else m x

and_high_zero : (m : ℕ) → and_high 0 m ≡ 0
and_high_zero m = ground arith

module _ (block_size : ℕ) where
  -- The loop of `read` over whole blocks.
  pub blocks : ℕ → ℕ → ℕ → List Call
  blocks zero src dest = []
  blocks (suc n) src dest =
      call src dest block_size ∷ blocks n (add32 src block_size) (add32 dest block_size)

  abbrev pub some_bytes : ℕ → ℕ → ℕ → List Call
  some_bytes src dest n = if n == 0 then [] else call src dest n ∷ []

  -- The source and the destination after the loop.
  abbrev pub after : ℕ → ℕ → ℕ
  after a n = (a + n * block_size) % u32_mod

  -- The calls behind those for the first block, by the word `remain` that the code reads as an `int`: a negative one
  -- has no whole block, and its remainder, where there is one, is a size of almost 4 GiB.
  pub rest_calls : (remain src to : ℕ) → List Call
  unfolding blocks
  rest_calls remain src to =
      let nr_blocks = remain / block_size in
      let minus = (u32_mod - remain) % block_size in
      if ltb remain 0x80000000
      then blocks nr_blocks src to
        ++ some_bytes (after src nr_blocks) (after to nr_blocks) (remain % block_size)
      else (if minus == 0 then [] else call src to (u32_mod - minus) ∷ [])

  -- The calls that `read` makes. The code makes the first one unless `edge_size` is 0, which it never is.
  pub read : (addr size dest : ℕ) → List Call
  unfolding rest_calls
  read addr size dest =
      let edge_size = block_size - addr % block_size in
      if ltb block_size size
      then some_bytes addr dest edge_size
        ++ rest_calls (sub32 size edge_size) (add32 addr edge_size) (add32 dest edge_size)
      else call addr dest size ∷ []

  module _ (block : ℕ → ℕ → ℕ) where
    -- The buffer that the bytes are copied from: two blocks where the span crosses a boundary.
    pub buffer : (addr size : ℕ) → ℕ → ℕ
    buffer addr size i =
        let mask = u32_mod - block_size in
        if ltb block_size (addr % block_size + size)
        then (if ltb i block_size
            then block (and_high addr mask) i
            else block (and_high addr (add32 mask block_size)) (i - block_size))
        else block (and_high addr mask) i

    -- The byte `i` that `read_block` leaves at the destination.
    pub read_block : (addr size : ℕ) → Option (ℕ → ℕ)
    unfolding buffer
    read_block addr size =
        if ltb block_size size then none else some (λ i. buffer addr size (addr % block_size + i))

    -- What a call of `read_block` leaves in a memory, and what calls leave one after the other.
    unfoldable pub copy_call : Call → (ℕ → ℕ) → ℕ → ℕ
    unfolding read_block put_bytes
    copy_call c m = put_bytes c.dest c.size (read_block c.src c.size) m

    unfoldable pub copy_calls : List Call → (ℕ → ℕ) → ℕ → ℕ
    unfolding copy_call
    copy_calls [] m = m
    copy_calls (c ∷ cs) m = copy_calls cs (copy_call c m)

    -- The bytes that `read` leaves in a new buffer.
    unfoldable pub read_bytes : (addr size : ℕ) → ℕ → ℕ
    unfolding copy_calls read
    read_bytes addr size = copy_calls (read addr size 0) (λ x. 0)

    read-small :
        (addr size dest : ℕ) → size ≤ block_size → read addr size dest ≡ call addr dest size ∷ []
    unfolding read
    read-small addr size dest l = let a : ltb block_size size ≡ false = ground arith in rw a refl

    read_block-first :
        (size : ℕ)
        → size ≤ block_size
        → read_block 0 size ≡ some (λ i. buffer 0 size (0 % block_size + i))
    unfolding read_block
    read_block-first size l = let a : ltb block_size size ≡ false = ground arith in rw a refl

    buffer-first : (size i : ℕ) → size ≤ block_size → buffer 0 size (0 % block_size + i) ≡ block 0 i
    unfolding buffer
    buffer-first size i l =
        let z : 0 % block_size ≡ 0 = omega arith in
        let k : ltb block_size (0 + size) ≡ false = ground arith in
        let w : 0 + i ≡ i = omega arith in
        let q = and_high_zero (u32_mod - block_size) in rw (z, k, w, q) refl

    put_bytes-first : (size i : ℕ) (f m : ℕ → ℕ) → i < size → put_bytes 0 size (some f) m i ≡ f i
    unfolding put_bytes
    put_bytes-first size i f m h =
        let u : ltb i (0 + size) ≡ true = ground arith in
        let e : leb 0 i ≡ true = ground arith in
        let v : i - 0 ≡ i = omega arith in rw (e, u, v) refl

    -- A read from the beginning that is not larger than a block brings the bytes of the first block.
    pub read_bytes-first :
        (size i : ℕ) → size ≤ block_size → i < size → read_bytes 0 size i ≡ block 0 i
    unfolding read_bytes copy_calls copy_call
    read_bytes-first size i l h =
        ap (λ cs. copy_calls cs (λ x. 0) i) (read-small 0 size 0 l)
        ∙ ap (λ r. put_bytes 0 size r (λ x. 0) i) (read_block-first size l)
        ∙ put_bytes-first size i (λ i. buffer 0 size (0 % block_size + i)) (λ x. 0) h
        ∙ buffer-first size i l
