-- ===== src/PfAllocator/Alloc/Remove.antt =====
-- One round of `removeChunk`: what it makes of one free range.
use own_os.Prelude.{
  ℕ, ◌+◌, ◌-◌, ◌*◌, ◌%◌, ◌/◌, ◌<◌, ◌≤◌, ◌≡◌, ◌∙◌, false, some, arith, ◌==◌, if◌then◌else◌, ◌&&◌,
  ◌⊎◌, inl, inr, ltb, leb,
}
use own_os.Prelude.Words.{u32_mod}
use own_os.PfAllocator.{
  PfAllocator, np_of, assign, ok, get_seg, put, segment, chunk_size, set_begin, set_blocks,
}
use own_os.PfAllocator.Alloc.{remove_step, split_range}
use own_os.PfAllocator.Chain.{cell}
use own_os.PfAllocator.Pages.{hits}

-- A range of whole blocks, as the code keeps them, that ends below 4 GiB.
pub record Aligned (s : PfAllocator) (c : ℕ) : Type 0 where
  pub aligned : (s.segs c).begin % chunk_size ≡ 0
  pub below : (s.segs c).begin + (s.segs c).blocks * chunk_size < u32_mod

split_range-ok :
    (l_begin l_blocks r_begin r_blocks c r : ℕ) (s s' : PfAllocator)
    → get_seg s ≡ ok r s'
    → let left = set_blocks c l_blocks (set_begin c l_begin s') in
      split_range l_begin l_blocks r_begin r_blocks c s
      ≡ ok tt (
          assign
            (np_of c)
            (some r)
            (put r (segment (left.segs r).free r_begin r_blocks (left.segs c).np) left))
unfolding split_range
split_range-ok l_begin l_blocks r_begin r_blocks c r s s' got = rw got

module _ (b e c : ℕ) (s : PfAllocator) (a : Aligned s c) (b_ok : b % chunk_size ≡ 0)
    (b_lt : b < u32_mod) where
  -- For a range and a region that begin at block boundaries below 4 GiB, a region that lies behind
  -- the range is not left alone: the range grows up to the region, over whatever memory is between
  -- them.
  pub remove_step_grows :
      (s.segs c).begin + (s.segs c).blocks * chunk_size ≤ b
      → b ≤ e
      → (s.segs c).begin < b
      → (t : PfAllocator) × (remove_step b e c s ≡ ok tt t)
        × ((t.segs c).begin ≡ (s.segs c).begin)
        × ((t.segs c).begin + (t.segs c).blocks * chunk_size ≡ b)
  unfolding remove_step
  remove_step_grows h k l =
      let n = (b - (s.segs c).begin) / chunk_size in
      (set_blocks c n (set_begin c (s.segs c).begin s), ground arith, ground arith, ground arith)

  -- For a range and a region at block boundaries below 4 GiB, a region that reaches over one end of
  -- the range takes exactly its own addresses from it.
  pub remove_step_cuts :
      b < (s.segs c).begin + (s.segs c).blocks * chunk_size
      → (s.segs c).begin < e
      → e % chunk_size ≡ 0
      → ((s.segs c).begin < b) × ((s.segs c).begin + (s.segs c).blocks * chunk_size ≤ e)
        ⊎ ((b ≤ (s.segs c).begin) × (e < (s.segs c).begin + (s.segs c).blocks * chunk_size))
      → (t : PfAllocator) × (remove_step b e c s ≡ ok tt t)
        × ((x : ℕ)
            → hits x (cell c (t.segs c).begin (t.segs c).blocks) ≡ (
                if leb b x && ltb x e
                then 0
                else hits x (cell c (s.segs c).begin (s.segs c).blocks)))
  unfolding remove_step
  remove_step_cuts h k al (inl (l, m)) =
      let n = (b - (s.segs c).begin) / chunk_size in
      (set_blocks c n (set_begin c (s.segs c).begin s), ground arith, λ x. ground arith)
  remove_step_cuts h k al (inr (l, m)) =
      let stop = (s.segs c).begin + (s.segs c).blocks * chunk_size in
      (set_blocks c ((stop - e) / chunk_size) (set_begin c e s), ground arith, λ x. ground arith)

  -- A region that holds the whole range leaves it in the list as it was.
  pub remove_step_ignores :
      b ≤ (s.segs c).begin
      → (s.segs c).begin + (s.segs c).blocks * chunk_size ≤ e
      → remove_step b e c s ≡ ok tt s
  unfolding remove_step
  remove_step_ignores h k = ground arith

  -- For a range and a region at block boundaries below 4 GiB, where another segment is unused, a
  -- region strictly inside the range splits it, into the addresses before and behind the region. The
  -- second part comes next in the list.
  pub remove_step_splits :
      (r : ℕ) (s' : PfAllocator)
      → get_seg s ≡ ok r s'
      → s'.segs c ≡ s.segs c
      → (r == c) ≡ false
      → (s.segs c).begin < b
      → b < e
      → e % chunk_size ≡ 0
      → e < (s.segs c).begin + (s.segs c).blocks * chunk_size
      → (t : PfAllocator) × (remove_step b e c s ≡ ok tt t)
        × ((t.segs c).np ≡ some r)
        × ((t.segs r).np ≡ (s.segs c).np)
        × ((x : ℕ)
            → hits x (cell c (t.segs c).begin (t.segs c).blocks)
                + hits x (cell r (t.segs r).begin (t.segs r).blocks)
              ≡ (if leb b x && ltb x e
                  then 0
                  else hits x (cell c (s.segs c).begin (s.segs c).blocks)))
  unfolding remove_step
  remove_step_splits r s' got same ne h k al l =
      let l_begin = (s.segs c).begin in
      let stop = l_begin + (s.segs c).blocks * chunk_size in
      let left = set_blocks c ((b - l_begin) / chunk_size) (set_begin c l_begin s') in
      let right = segment (left.segs r).free e ((stop - e) / chunk_size) (left.segs c).np in
      let n = (b - l_begin) / chunk_size in
      let m = (stop - e) / chunk_size in
      let run : remove_step b e c s ≡ split_range l_begin n e m c s = ground arith in
      let ran = split_range-ok l_begin n e m c r s s' got in
      let t = assign (np_of c) (some r) (put r right left) in
      (t, run ∙ ran, ground arith, ground arith, λ x. ground arith)
