-- ===== src/Fork/Rooms.antt =====
-- The rooms of the table of processes: the one that `allocProc` takes, and the one that a number names.
use own_os.Prelude.{
  ℕ, zero, suc, ◌+◌, ◌<◌, ◌≤◌, ◌≡◌, ap, subst, true, ◌&&◌, not, some, ◌==◌, arith, Bool-cases, inl,
  inr, ==_iff,
}
use own_os.Process.{Proc, find_loop}
use own_os.Fork.{get_loop}

pub get_loop-free :
    (n i c : ℕ) (procs : ℕ → Proc)
    → get_loop n i procs ≡ some c
    → ((procs c).is_free ≡ true) × (i ≤ c) × (c < i + n)
unfolding get_loop
get_loop-free zero i c procs e = absurd cc
get_loop-free (suc n) i c procs e = elim (Bool-cases (procs i).is_free) [
  | inl f ↦
      let g : some i ≡ some c = rw f at e in
      let k : i ≡ c = cc in (subst (λ c. (procs c).is_free ≡ true) k f, omega arith, omega arith)
  | inr f ↦
      let (x, l, u) = get_loop-free n (suc i) c procs (rw f at e) in (x, omega arith, omega arith)
]

-- The lookup finds the only process that has the number.
pub find_loop-only :
    (pid c n i : ℕ) (procs : ℕ → Proc)
    → i ≤ c
    → c < i + n
    → ((q : ℕ) → (not (procs q).is_free && ((procs q).id == pid)) ≡ (q == c))
    → find_loop pid n i procs ≡ some c
unfolding find_loop
find_loop-only pid c zero i procs l u h = absurd (omega arith)
find_loop-only pid c (suc n) i procs l u h = elim (Bool-cases (i == c)) [
  | inl e ↦ rw (h i, e) (ap some ((==_iff i c).0 e))
  | inr e ↦ rw (h i, e) (find_loop-only pid c n (suc i) procs (ground arith) (omega arith) h)
]
