-- ===== src/Ext2.antt =====
-- kernel/Ext2.cpp: which block of the disk holds a position of a file. The driver's `read` is the
-- parameter `word`, the word at an address of the disk.
pub mod Tree
pub mod Directory
mod Tests
use own_os.Prelude.{ℕ, ◌+◌, ◌-◌, ◌*◌, ◌/◌, ◌%◌, Bool, true, false, ltb, if◌then◌else◌}
use own_os.Prelude.Words.{add32, mul32}

pub record Inode : Type 0 where
  pub i_size : ℕ
  pub i_block : ℕ → ℕ

-- `false` with nothing read, `true` with the block of an index in the buffer, or `true` with nothing
-- read.
pub data Outcome : Type 0 where
  refused : Outcome
  filled : ℕ → Outcome
  untouched : Outcome

module _ (first_blockaddr block_size : ℕ) (word : ℕ → ℕ) where
  pub block_index2addr : ℕ → ℕ
  block_index2addr index = add32 first_blockaddr (mul32 index block_size)

  -- An element of the buffer that `read_block` has filled, as an array of words.
  pub entry : ℕ → ℕ → ℕ
  unfolding block_index2addr
  entry index i = word (add32 (block_index2addr index) (4 * i))

  abbrev pub nr_entry : ℕ
  nr_entry = block_size / 4

  pub read_block_pos : ℕ → Inode → Outcome
  unfolding entry
  read_block_pos pos node =
      let k = pos / block_size in
      let e = nr_entry in
      let ind = 12 + e in
      let dind = ind + e * e in
      let tind = dind + e * e * e in
      if ltb node.i_size (add32 pos block_size)
      then refused
      else (if ltb k 12
          then filled (node.i_block k)
          else (if ltb k ind
              then filled (entry (node.i_block 12) (k - 12))
              else (if ltb k dind
                  then filled (entry (entry (node.i_block 13) ((k - ind) / e)) ((k - ind) % e))
                  else (if ltb k tind
                      then filled (
                          entry
                            (entry (entry (node.i_block 14) ((k - dind) / (e * e)))
                              ((k - dind) / e % e))
                            ((k - dind) % e))
                      else untouched))))
