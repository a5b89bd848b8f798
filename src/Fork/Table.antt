-- ===== src/Fork/Table.antt =====
-- The table of processes with one more process.
use own_os.Prelude.{
  ℕ, ◌<◌, ◌≡◌, ◌⊎◌, refl, true, false, some, ◌==◌, arith, Bool-cases, inl, inr, ==_iff,
}
use own_os.Prelude.Words.{add32}
use own_os.Process.{Status, Proc, PManager, task_stopped, task_running, append, find_loop}
use own_os.Process.Queues.{IsState, is_running}
use own_os.Fork.{World}
use own_os.Fork.Rooms.{find_loop-only}
use own_os.Fork.Child.{readied}

-- The run queues are in order, no free room runs, and the numbers in use are below the next one, except for
-- `PID_KERNEL`.
abbrev pub IsOrdered : {F : Type 0} → World F → Type 0
IsOrdered w =
    let procs = w.kernel.manager.procs in
    IsState w.kernel.manager
    × ((q : ℕ) → (procs q).is_free ≡ true → is_running (procs q).status ≡ false)
    × ((q : ℕ) → (procs q).is_free ≡ false → ((procs q).id < w.num) ⊎ ((procs q).id ≡ 0xffffffff))

module _ {F : Type 0} (c : ℕ) (w : World F) (l : w.num < 0xffffffff) (ordered : IsOrdered w)
    (free : (w.kernel.manager.procs c).is_free ≡ true) where
  -- A table that differs in the room `c` only.
  abbrev pub Adds : (s : Status) → (ℕ → Proc) → Type 0
  Adds s procs =
      ((procs c).is_free ≡ false)
      × ((procs c).id ≡ w.num)
      × ((procs c).status ≡ s)
      × ((q : ℕ) → (q == c) ≡ false → procs q ≡ w.kernel.manager.procs q)

  pub Adds-finds :
      (s : Status) (procs : ℕ → Proc) → Adds s procs → c < 32 → find_loop w.num 32 0 procs ≡ some c
  Adds-finds s procs (f, i, _, o) b = find_loop-only w.num c 32 0 procs (omega arith) b (λ q.
      elim (Bool-cases (q == c)) [
        | inl e ↦
            let k : q ≡ c = (==_iff q c).0 e in
            let t : (w.num == w.num) ≡ true = ground arith in
            let u : (c == c) ≡ true = ground arith in rw (k, f, i, t, u) refl
        | inr e ↦
            rw (e, o q e)
              (elim (Bool-cases (w.kernel.manager.procs q).is_free) [
                | inl x ↦ rw x refl
                | inr x ↦
                    let y = ordered.2 q x in
                    let z : ((w.kernel.manager.procs q).id == w.num) ≡ false = ground arith in
                    rw (x, z) refl
              ])
      ])

  pub Adds-IsState :
      (m : PManager) → Adds task_stopped m.procs → m.heads ≡ w.kernel.manager.heads → IsState m
  Adds-IsState m (f, i, st, o) h q = elim (Bool-cases (q == c)) [
    | inl e ↦
        let k : q ≡ c = (==_iff q c).0 e in rw (k, h, st) (rw (ordered.1 c free) at (ordered.0 c))
    | inr e ↦ rw (h, o q e) (ordered.0 q)
  ]

  pub Adds-readied :
      (starts : ℕ) (s : Status) (m : PManager) → Adds s m.procs → Adds s (readied c starts m).procs
  Adds-readied starts s m (f, i, st, o) =
      let u : (c == c) ≡ true = ground arith in (rw u f, rw u i, rw u st, λ q e. rw e (o q e))

  -- With the child woken.
  pub Adds-IsOrdered :
      (w' : World F)
      → Adds task_running w'.kernel.manager.procs
      → IsState w'.kernel.manager
      → w'.num ≡ add32 w.num 1
      → IsOrdered w'
  Adds-IsOrdered w' (f, i, st, o) s n = (
    s,
    λ q x. elim (Bool-cases (q == c)) [
      | inl e ↦
          let k : q ≡ c = (==_iff q c).0 e in
          let z : (w'.kernel.manager.procs c).is_free ≡ true = rw k at x in absurd cc
      | inr e ↦ rw (o q e) (ordered.1 q (rw (o q e) at x))
    ],
    λ q x. elim (Bool-cases (q == c)) [
      | inl e ↦ let k : q ≡ c = (==_iff q c).0 e in rw (k, i, n) (inl (omega arith))
      | inr e ↦ let y = ordered.2 q (rw (o q e) at x) in rw (o q e, n) (ground arith)
    ],
  )

  pub Adds-started :
      (starts : ℕ) (w1 w' : World F) (prior : ℕ)
      → Adds task_stopped w1.kernel.manager.procs
      → w'.kernel.manager ≡ append c prior (readied c starts w1.kernel.manager)
      → Adds task_running w'.kernel.manager.procs
        × ((w'.kernel.manager.procs c).prior ≡ (w1.kernel.manager.procs c).prior)
        × ((w'.kernel.manager.procs c).ret_from ≡ starts)
        × ((w'.kernel.manager.procs c).cr3 ≡ (w1.kernel.manager.procs c).cr3)
  unfolding append
  Adds-started starts w1 w' prior (f, i, st, o) m =
      let u : (c == c) ≡ true = ground arith in
      rw m ((rw u f, rw u i, rw u refl, λ q e. rw e (o q e)), rw u refl, rw u refl, rw u refl)
