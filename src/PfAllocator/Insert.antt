-- ===== src/PfAllocator/Insert.antt =====
-- `addChunk` and `usedChunk` of kernel/PFAllocator.cpp on lists of cells: what the walks along the
-- pointers compute.
pub mod Between
pub mod Walk
pub mod UsedWalk
use own_os.Prelude.{ℕ, Bool, true, false, ◌&&◌, [], ◌∷◌, ltb, ◌==◌, if◌then◌else◌}
use own_os.Prelude.Words.{add32}
use own_os.PfAllocator.{end_of}
use own_os.PfAllocator.Chain.{Cell, cell, Cells}

abbrev pub stop : Cell → ℕ
stop c = end_of c.begin c.blocks

-- `c` with the blocks of `d` behind it.
abbrev pub joined : Cell → Cell → Cell
joined c d = cell c.id c.begin (add32 c.blocks d.blocks)

unfoldable pub join_between : (seg c n : Cell) → Cells → Cells
join_between seg c n cs =
    if stop c == seg.begin
    then (if stop (joined c seg) == n.begin
        then joined (joined c seg) n ∷ cs
        else joined c seg ∷ n ∷ cs)
    else (if stop seg == n.begin
        then c ∷ cell n.id seg.begin (add32 n.blocks seg.blocks) ∷ cs
        else c ∷ seg ∷ n ∷ cs)

unfoldable pub join_last : (tl : Cells) (seg c : Cell) → Cells
join_last tl seg c = if stop c == seg.begin then joined c seg ∷ [] else c ∷ seg ∷ tl

abbrev pub fits_between : (seg c n : Cell) → Bool
fits_between seg c n = ltb c.begin seg.begin && ltb seg.begin n.begin

-- `addChunk` of a segment whose `np` leads to `tl`: it is not reset where the segment comes last.
unfoldable pub insert_onto : (tl : Cells) → Cell → Cells → Cells
unfolding join_between join_last
insert_onto tl seg [] = seg ∷ tl
insert_onto tl seg (c ∷ []) = join_last tl seg c
insert_onto tl seg (c ∷ n ∷ cs) =
    let rest = insert_onto tl seg (n ∷ cs) in
    if fits_between seg c n then join_between seg c n cs else c ∷ rest

-- `addChunk` of a segment whose `np` is NULL.
abbrev pub insert_free : Cell → Cells → Cells
insert_free = insert_onto []

unfoldable pub insert_used : Cell → Cells → Cells
insert_used seg [] = seg ∷ []
insert_used seg (c ∷ []) = c ∷ seg ∷ []
insert_used seg (c ∷ n ∷ cs) =
    let rest = insert_used seg (n ∷ cs) in
    if fits_between seg c n then c ∷ seg ∷ n ∷ cs else c ∷ rest
