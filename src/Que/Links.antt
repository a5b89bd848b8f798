-- ===== src/Que/Links.antt =====
-- The entries of a queue as a list that is linked in both directions.
use own_os.Prelude.{ℕ, ◌≡◌, ◌≢◌, ◌∙◌, sym, subst, List, [], ◌∷◌, ◌++◌, All, arith}
use own_os.Que.{assign}

-- The entries behind `a`, up to the tail.
unfoldable pub Links : (next prev : ℕ → ℕ) → (tail a : ℕ) → List ℕ → Type 0
Links next prev tail a [] = (next a ≡ tail) × (prev tail ≡ a)
Links next prev tail a (p ∷ ps) = (next a ≡ p) × (prev p ≡ a) × Links next prev tail p ps

abbrev pub Fresh : ℕ → List ℕ → Type 0
Fresh x ps = All (λ p. p ≢ x) ps

unfoldable pub Distinct : List ℕ → Type 0
Distinct [] = Unit
Distinct (p ∷ ps) = Fresh p ps × Distinct ps

pub Fresh-append :
    (x c : ℕ) (bs cs : List ℕ) → Fresh x (bs ++ c ∷ cs) → Fresh x bs × (c ≢ x) × Fresh x cs
Fresh-append x c [] cs (h, k) = (tt, h, k)
Fresh-append x c (b ∷ bs) cs (h, k) = let (l, m, n) = Fresh-append x c bs cs k in ((h, l), m, n)

pub All-append :
    (P : ℕ → Type 0) (c : ℕ) (bs cs : List ℕ) → All P (bs ++ c ∷ cs) → All P (bs ++ cs) × P c
All-append P c [] cs (h, k) = (k, h)
All-append P c (b ∷ bs) cs (h, k) = let (l, m) = All-append P c bs cs k in ((h, l), m)

pub Distinct-append :
    (c : ℕ) (bs cs : List ℕ) → Distinct (bs ++ c ∷ cs) → Distinct (bs ++ cs) × Fresh c (bs ++ cs)
unfolding Distinct
Distinct-append c [] cs (h, k) = (k, h)
Distinct-append c (b ∷ bs) cs (h, k) =
    let (l, m) = Distinct-append c bs cs k in
    let (u, v) = All-append (λ p. p ≢ b) c bs cs h in ((u, l), ((λ e. v (sym e)), m))

assign-same : (i v : ℕ) (f : ℕ → ℕ) → assign i v f i ≡ v
assign-same i v f = ground arith

assign-other : (i v j : ℕ) (f : ℕ → ℕ) → j ≢ i → assign i v f j ≡ f j
assign-other i v j f h = ground arith

frame-next :
    (next prev : ℕ → ℕ) (tail a j v : ℕ) (ps : List ℕ)
    → a ≢ j
    → Fresh j ps
    → Links next prev tail a ps
    → Links (assign j v next) prev tail a ps
unfolding Links
frame-next next prev tail a j v [] n f (h, k) = (assign-other j v a next n ∙ h, k)
frame-next next prev tail a j v (p ∷ ps) n (g, f) (h, k, l) =
    (assign-other j v a next n ∙ h, k, frame-next next prev tail p j v ps g f l)

frame-prev :
    (next prev : ℕ → ℕ) (tail a j v : ℕ) (ps : List ℕ)
    → tail ≢ j
    → Fresh j ps
    → Links next prev tail a ps
    → Links next (assign j v prev) tail a ps
unfolding Links
frame-prev next prev tail a j v [] n f (h, k) = (h, assign-other j v tail prev n ∙ k)
frame-prev next prev tail a j v (p ∷ ps) n (g, f) (h, k, l) =
    (h, assign-other j v p prev g ∙ k, frame-prev next prev tail p j v ps n f l)

-- An entry behind the head.
pub insert-Links :
    (next prev : ℕ → ℕ) (tail head p : ℕ) (ps : List ℕ)
    → head ≢ p
    → tail ≢ p
    → tail ≢ head
    → Fresh p ps
    → Fresh head ps
    → Fresh tail ps
    → Distinct ps
    → Links next prev tail head ps
    → Links
        (assign head p (assign p (next head) next))
        (assign (next head) p (assign p head prev))
        tail
        head
        (p ∷ ps)
unfolding Links Distinct
insert-Links next prev tail head p [] a b c d e f g (h, k) =
    rw h (ground arith, ground arith, (ground arith, ground arith))
insert-Links next prev tail head p (r ∷ rs) a b c (d, d') (e, e') (f, f') (g, g') (h, k, l) =
    let n = assign head p (assign p r next) in
    let m = assign r p (assign p head prev) in
    let l1 = frame-next next prev tail r p r rs d d' l in
    let l2 = frame-next (assign p r next) prev tail r head p rs e e' l1 in
    let l3 = frame-prev n prev tail r p head rs b d' l2 in
    let l4 = frame-prev n (assign p head prev) tail r r p rs (λ z. f (sym z)) g l3 in
    subst
      (λ x.
        Links (assign head p (assign p x next)) (assign x p (assign p head prev)) tail head
          (p ∷ r ∷ rs))
      (sym h) (ground arith, ground arith, (ground arith, ground arith, l4))

prev-of :
    (next prev : ℕ → ℕ) (tail a c : ℕ) (bs cs : List ℕ) (P : ℕ → Type 0)
    → Links next prev tail a (bs ++ c ∷ cs)
    → P a
    → All P bs
    → P (prev c)
unfolding Links
prev-of next prev tail a c [] cs P (h, k, l) p ps = subst P (sym k) p
prev-of next prev tail a c (b ∷ bs) cs P (h, k, l) p (q, ps) =
    prev-of next prev tail b c bs cs P l q ps

next-of :
    (next prev : ℕ → ℕ) (tail a c : ℕ) (bs cs : List ℕ) (P : ℕ → Type 0)
    → Links next prev tail a (bs ++ c ∷ cs)
    → P tail
    → All P cs
    → P (next c)
unfolding Links
next-of next prev tail a c [] [] P (h, k, (l, l')) p ps = subst P (sym l) p
next-of next prev tail a c [] (d ∷ ds) P (h, k, (l, l', l2)) p (q, ps) = subst P (sym l) q
next-of next prev tail a c (b ∷ bs) cs P (h, k, l) p ps = next-of next prev tail b c bs cs P l p ps

-- The entry `c` taken out from between its neighbours.
pub remove-Links :
    (next prev : ℕ → ℕ) (tail a c : ℕ) (bs cs : List ℕ)
    → tail ≢ a
    → Fresh a (bs ++ c ∷ cs)
    → Fresh tail (bs ++ c ∷ cs)
    → Distinct (bs ++ c ∷ cs)
    → Links next prev tail a (bs ++ c ∷ cs)
    → Links (assign (prev c) (next c) next) (assign (next c) (prev c) prev) tail a (bs ++ cs)
unfolding Links Distinct
remove-Links next prev tail a c [] [] t f g d (h, k, (l, l')) =
    rw (k, l) (ground arith, ground arith)
remove-Links next prev tail a c [] (r ∷ rs) t (f, (f1, f2)) (g, (g1, g2)) (d, (d1, d2))
      (h, k, (l, l', m)) =
    let m1 = frame-next next prev tail r a r rs f1 f2 m in
    let m2 = frame-prev (assign a r next) prev tail r r a rs (λ z. g1 (sym z)) d1 m1 in
    subst (λ x. Links (assign x (next c) next) (assign (next c) x prev) tail a (r ∷ rs)) (sym k)
      (subst (λ y. Links (assign a y next) (assign y a prev) tail a (r ∷ rs)) (sym l)
        (ground arith, ground arith, m2))
remove-Links next prev tail a c (b ∷ bs) cs t (f, f') (g, g') (d, d') (h, k, l) =
    let (u, v, w) = Fresh-append a c bs cs f' in
    let (u', v', w') = Fresh-append b c bs cs d in
    let x = prev-of next prev tail b c bs cs (λ p. p ≢ a) l f u in
    let y = next-of next prev tail b c bs cs (λ p. p ≢ b) l (λ z. g (sym z)) w' in
    (
      assign-other (prev c) (next c) a next (λ z. x (sym z)) ∙ h,
      assign-other (next c) (prev c) b prev (λ z. y (sym z)) ∙ k,
      remove-Links next prev tail b c bs cs (λ z. g (sym z)) d g' d' l,
    )

-- The entry behind `c`.
pub next-is :
    (next prev : ℕ → ℕ) (tail a c d : ℕ) (bs ds : List ℕ)
    → Links next prev tail a (bs ++ c ∷ d ∷ ds)
    → next c ≡ d
unfolding Links
next-is next prev tail a c d [] ds (h, k, (l, l', m)) = l
next-is next prev tail a c d (b ∷ bs) ds (h, k, l) = next-is next prev tail b c d bs ds l

-- The last entry.
pub last-is :
    (next prev : ℕ → ℕ) (tail a c : ℕ) (bs : List ℕ)
    → Links next prev tail a (bs ++ c ∷ [])
    → (next c ≡ tail) × (prev tail ≡ c)
unfolding Links
last-is next prev tail a c [] (h, k, l) = l
last-is next prev tail a c (b ∷ bs) (h, k, l) = last-is next prev tail b c bs l
