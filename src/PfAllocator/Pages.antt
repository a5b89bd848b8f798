-- ===== src/PfAllocator/Pages.antt =====
-- The memory that a list of kernel/PFAllocator.cpp covers, address by address.
use own_os.Prelude.{
  ℕ, ◌+◌, ◌*◌, ◌<◌, ◌≡◌, refl, Bool, ◌&&◌, Option, none, some, [], ◌∷◌, arith, ltb, leb,
  if◌then◌else◌, inl, inr, Bool-cases, All,
}
use own_os.Prelude.Words.{u32_mod}
use own_os.PfAllocator.{chunk_size}
use own_os.PfAllocator.Chain.{Cell, Cells}
use own_os.PfAllocator.Insert.{
  insert_onto, insert_free, insert_used, join_between, join_last, fits_between,
}
use own_os.PfAllocator.Alloc.Take.{take_first, behind}

-- `a` lies in the `n` blocks from `b` on.
abbrev pub in_range : (a b n : ℕ) → Bool
in_range a b n = leb b a && ltb a (b + n * chunk_size)

abbrev pub hits : ℕ → Cell → ℕ
hits a c = if in_range a c.begin c.blocks then 1 else 0

-- How many ranges of the list hold the address `a`.
unfoldable pub cover : ℕ → Cells → ℕ
cover a [] = 0
cover a (c ∷ cs) = hits a c + cover a cs

-- The range ends below 4 GiB, so that no address in the code's arithmetic wraps.
abbrev pub Fits : Cell → Type 0
Fits c = c.begin + c.blocks * chunk_size < u32_mod

pub cover-insert_used :
    (a : ℕ) (seg : Cell) (cs : Cells) → cover a (insert_used seg cs) ≡ hits a seg + cover a cs
unfolding cover insert_used
cover-insert_used a seg [] = refl
cover-insert_used a seg (c ∷ []) = omega arith
cover-insert_used a seg (c ∷ n ∷ cs) = elim (Bool-cases (fits_between seg c n)) [
  | inl h ↦ rw h (omega arith)
  | inr h ↦ rw h (omega (arith, cover-insert_used a seg (n ∷ cs)))
]

cover-join_between :
    (a : ℕ) (seg c n : Cell) (cs : Cells)
    → Fits seg
    → Fits c
    → Fits n
    → cover a (join_between seg c n cs) ≡ hits a seg + cover a (c ∷ n ∷ cs)
unfolding cover join_between
cover-join_between a seg c n cs f g h = ground arith

cover-join_last :
    (a : ℕ) (seg c : Cell)
    → Fits seg
    → Fits c
    → cover a (join_last [] seg c) ≡ hits a seg + cover a (c ∷ [])
unfolding cover join_last
cover-join_last a seg c f g = ground arith

-- Joining ranges loses no address and counts none twice.
pub cover-insert_free :
    (a : ℕ) (seg : Cell) (cs : Cells)
    → Fits seg
    → All Fits cs
    → cover a (insert_free seg cs) ≡ hits a seg + cover a cs
unfolding insert_onto cover
cover-insert_free a seg [] f g = refl
cover-insert_free a seg (c ∷ []) f g = cover-join_last a seg c f g.0
cover-insert_free a seg (c ∷ n ∷ cs) f g = elim (Bool-cases (fits_between seg c n)) [
  | inl h ↦ rw h (cover-join_between a seg c n cs f g.0 g.1.0)
  | inr h ↦ rw h (omega (arith, cover-insert_free a seg (n ∷ cs) f g.1))
]

abbrev pub Splits : ℕ → ℕ → Cells → Option (ℕ × Cells) → Type 0
Splits a n cs none = Unit
Splits a n cs (some (b, ds)) = (if in_range a b n then 1 else 0) + cover a ds ≡ cover a cs

pub cover-take_first : (a n : ℕ) (cs : Cells) → All Fits cs → Splits a n cs (take_first n cs)
unfolding take_first cover
cover-take_first a n [] f = tt
cover-take_first a n (c ∷ cs) f = elim (Bool-cases (leb n c.blocks)) [
  | inl h ↦ rw h (ground arith)
  | inr h ↦ rw h (go (take_first n cs) (cover-take_first a n cs f.1))
]
  where
    go : (r : Option (ℕ × Cells)) → Splits a n cs r → Splits a n (c ∷ cs) (behind c r)
    go none s = tt
    go (some (b, ds)) s = omega (arith, s)
