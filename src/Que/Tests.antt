-- ===== src/Que/Tests.antt =====
-- A queue of two numbers.
use own_os.Prelude.{ℕ, ◌≡◌, refl, arith, ◌==◌, List, [], ◌∷◌, ◌++◌, Bool}
use own_os.Que.{Que, init, get, enque, deque, deque_same}
use own_os.Que.Order.{Holds, enque-Holds}
use own_os.Que.Take.{deque-Holds, taken, Took, deque_same-Took}
use own_os.Que.Full.{init-Holds, enque-full}

abbrev empty : Que ℕ
empty = init 2 0 (λ i. 0) (λ i. 0)

-- 7 was put in first.
abbrev pair : Que ℕ
pair = enque 2 8 (enque 2 7 empty)

pair-Holds : Holds 2 pair (8 ∷ 7 ∷ [])
pair-Holds =
    enque-Holds 2 8 (enque 2 7 empty) (7 ∷ [])
      (enque-Holds 2 7 empty [] (init-Holds 2 0 (λ i. 0) (λ i. 0)) (omega arith)) (omega arith)

deque-Holds_example :
    (zs : List ℕ) × ((8 ∷ 7 ∷ []) ≡ zs ++ (deque 2 pair).0 ∷ []) × Holds 2 (deque 2 pair).1 zs
deque-Holds_example = deque-Holds 2 pair 8 (7 ∷ []) pair-Holds

deque-oldest : (deque 2 pair).0 ≡ 7
unfolding deque enque init get
deque-oldest = refl

abbrev same : ℕ → ℕ → Bool
same x y = x == y

deque_same-Took_example : Took same 7 2 pair (taken same 7 (8 ∷ 7 ∷ [])) (deque_same 2 same 7 pair)
deque_same-Took_example = deque_same-Took same 7 2 pair (8 ∷ 7 ∷ []) pair-Holds

enque-full_run :
    ((enque 2 9 pair).next pair.head ≡ 0)
    × ((enque 2 9 pair).content 0 ≡ 9)
    × ((enque 2 9 pair).num ≡ 3)
enque-full_run = enque-full 2 9 pair (8 ∷ 7 ∷ []) pair-Holds refl
