-- ===== src/Que/Rooms.antt =====
-- The rooms that are free: `get` leases one of them if there is one, and `free` gives it back.
use own_os.Prelude.{
  ℕ, zero, suc, ◌+◌, ◌<◌, ◌≤◌, ◌≡◌, refl, Bool, true, false, ◌==◌, if◌then◌else◌, arith, Bool-cases,
  inl, inr, ==_iff,
}
use own_os.Que.{assign, get, give_back}

-- How many of `k` rooms from room `i` on are free.
unfoldable pub vacant : (k i : ℕ) → (ℕ → Bool) → ℕ
vacant zero i free = 0
vacant (suc k) i free = (if free i then 1 else 0) + vacant k (suc i) free

-- Rooms in front do not count.
pub vacant-frame :
    (k i j : ℕ) (v : Bool) (free : ℕ → Bool)
    → j < i
    → vacant k i (assign j v free) ≡ vacant k i free
unfolding vacant
vacant-frame zero i j v free h = refl
vacant-frame (suc k) i j v free h =
    let e : (i == j) ≡ false = ground arith in
    rw (e, vacant-frame k (suc i) j v free (omega arith)) refl

-- A lease of the room `j`, which was free, and is the only one that changes.
pub record Leased (k i : ℕ) (free : ℕ → Bool) (j p : ℕ) (free' : ℕ → Bool) : Type 0 where
  pub pointer : p ≡ suc j
  pub inside : (i ≤ j) × (j < i + k)
  pub was_free : free j ≡ true
  pub taken : free' ≡ assign j false free
  pub counted : vacant k i free' + 1 ≡ vacant k i free

first-Leased :
    (k i : ℕ) (free : ℕ → Bool)
    → free i ≡ true
    → Leased (suc k) i free i (suc i) (assign i false free)
unfolding vacant
first-Leased k i free e =
    let s : (i == i) ≡ true = ground arith in
    record {
      pointer = refl;
      inside = (omega arith, omega arith);
      was_free = e;
      taken = refl;
      counted = rw (e, s, vacant-frame k (suc i) i false free (omega arith)) (omega arith);
    }

later-Leased :
    (k i j p : ℕ) (free free' : ℕ → Bool)
    → free i ≡ false
    → Leased k (suc i) free j p free'
    → Leased (suc k) i free j p free'
unfolding vacant
later-Leased k i j p free free' e r = record {
  pointer = r.pointer;
  inside = (omega (arith, r.inside), omega (arith, r.inside));
  was_free = r.was_free;
  taken = r.taken;
  counted =
      let o : (i == j) ≡ false = ground (arith, r.inside) in
      let o' : free' i ≡ false = rw (r.taken, o) e in rw (o', e) (omega (arith, r.counted));
}

pub get-Leased :
    (k i : ℕ) (free : ℕ → Bool)
    → 0 < vacant k i free
    → (j : ℕ) × Leased k i free j (get k i free).0 (get k i free).1
unfolding vacant get
get-Leased zero i free h = absurd (omega arith)
get-Leased (suc k) i free h = elim (Bool-cases (free i)) [
  | inl e ↦ rw e (i, first-Leased k i free e)
  | inr e ↦
      let (j, r) = get-Leased k (suc i) free (let h' = rw e at h in omega arith) in
      rw e (j, later-Leased k i j _ free _ e r)
]

-- Without a free room the pointer is NULL, and nothing changes.
pub get_none : (k i : ℕ) (free : ℕ → Bool) → vacant k i free ≡ 0 → get k i free ≡ (0, free)
unfolding vacant get
get_none zero i free h = refl
get_none (suc k) i free h = elim (Bool-cases (free i)) [
  | inl e ↦ absurd (let h' = rw e at h in omega arith)
  | inr e ↦ rw e (get_none k (suc i) free (let h' = rw e at h in omega arith))
]

pub give_back-assign :
    (k i j : ℕ) (free : ℕ → Bool)
    → i ≤ j
    → j < i + k
    → give_back k i (suc j) free ≡ assign j true free
unfolding give_back
give_back-assign zero i j free l h = absurd (omega arith)
give_back-assign (suc k) i j free l h = elim (Bool-cases (suc j == suc i)) [
  | inl e ↦ let z : i ≡ j = ground arith in rw (e, z) refl
  | inr e ↦ rw e (give_back-assign k (suc i) j free (ground arith) (omega arith))
]

-- A room that is given back is one more.
pub vacant-given :
    (k i j : ℕ) (free : ℕ → Bool)
    → i ≤ j
    → j < i + k
    → free j ≡ false
    → vacant k i (assign j true free) ≡ vacant k i free + 1
unfolding vacant
vacant-given zero i j free l h f = absurd (omega arith)
vacant-given (suc k) i j free l h f = elim (Bool-cases (i == j)) [
  | inl e ↦
      let z : i ≡ j = (==_iff _ _).0 e in
      let f' : free i ≡ false = rw z f in
      rw (e, f', vacant-frame k (suc i) j true free (omega arith)) (omega arith)
  | inr e ↦ rw (e, vacant-given k (suc i) j free (ground arith) (omega arith) f) (omega arith)
]
