-- ===== src/Console/Itoa.antt =====
-- The number that is read back from what `tk_itoa` writes.
use native.Mathlib.Nat.{div-add-mod, mod-lt}
use own_os.Prelude.{
  ℕ, zero, suc, ◌+◌, ◌-◌, ◌*◌, ◌/◌, ◌%◌, ◌<◌, ◌≤◌, ◌≡◌, ◌≢◌, ◌∙◌, ◌⊎◌, ap, refl, true, ◌&&◌, ltb,
  leb, ◌==◌, if◌then◌else◌, arith, Bool-cases, ==_iff, inl, inr,
}
use own_os.Prelude.Memory.{Mem, write}
use own_os.Prelude.Words.{u32_mod}
use own_os.Console.{digit, emit, swap_ends, itoa_digits, tk_itoa}

-- The value of a digit.
abbrev pub value : ℕ → ℕ
value c = if ltb c 58 then c - 48 else c - 87

module _ (divisor : ℕ) where
  -- The number that `n` digits at an address stand for, after the digits of `acc`.
  pub read_digits : (n acc a : ℕ) → Mem → ℕ
  read_digits zero acc a m = acc
  read_digits (suc n) acc a m = read_digits n (acc * divisor + value (m a)) (suc a) m

  -- The number without its last `k` digits.
  shift : ℕ → ℕ → ℕ
  shift zero ud = ud
  shift (suc k) ud = shift k (ud / divisor)

  shift-suc : (k ud : ℕ) → shift (suc k) ud ≡ shift k ud / divisor
  unfolding shift
  shift-suc zero ud = refl
  shift-suc (suc k) ud = shift-suc k (ud / divisor)

  -- The first loop writes `k` digits, the last one first, and nothing else.
  record Emitted (p ud : ℕ) (m : Mem) (k q : ℕ) (m' : Mem) : Type 0 where
    end : q ≡ p + k
    some_digits : 0 < k
    none_left : shift k ud ≡ 0
    written : (j : ℕ) → j < k → m' (p + j) ≡ digit (shift j ud % divisor)
    kept : (x : ℕ) → (x < p) ⊎ (p + k ≤ x) → m' x ≡ m x

  one :
      (ud p : ℕ) (m : Mem)
      → ud / divisor ≡ 0
      → Emitted p ud m 1 (suc p) (write p (digit (ud % divisor)) m)
  unfolding shift
  one ud p m h = record {
    end = omega arith;
    some_digits = omega arith;
    none_left = h;
    written = written;
    kept = λ x o. ground arith;
  }
    where
      written :
          (j : ℕ) → j < 1 → write p (digit (ud % divisor)) m (p + j) ≡ digit (shift j ud % divisor)
      written zero l = ground arith
      written (suc j) l = absurd (omega arith)

  more :
      (ud p : ℕ) (m : Mem) (k q : ℕ) (m' : Mem)
      → Emitted (suc p) (ud / divisor) (write p (digit (ud % divisor)) m) k q m'
      → Emitted p ud m (suc k) q m'
  unfolding shift
  more ud p m k q m' r = record {
    end = omega (arith, r.end);
    some_digits = omega arith;
    none_left = r.none_left;
    written = written;
    kept = λ x o. r.kept x (ground arith) ∙ ground arith;
  }
    where
      written : (j : ℕ) → j < suc k → m' (p + j) ≡ digit (shift j ud % divisor)
      written zero l = r.kept (p + 0) (ground arith) ∙ ground arith
      written (suc j) l =
          let e : p + suc j ≡ suc p + j = omega arith in rw e (r.written j (omega arith))

  emit-Emitted :
      (n ud p : ℕ) (m : Mem)
      → shift (suc n) ud ≡ 0
      → (k : ℕ) × (k ≤ suc n)
        × Emitted p ud m k (emit (suc n) divisor ud p m).0 (emit (suc n) divisor ud p m).1
  unfolding emit shift
  emit-Emitted zero ud p m h =
      let e : (ud / divisor == 0) ≡ true = (==_iff _ _).1 h in rw e (1, omega arith, one ud p m h)
  emit-Emitted (suc n) ud p m h = elim (Bool-cases (ud / divisor == 0)) [
    | inl e ↦ rw e (1, omega arith, one ud p m ((==_iff _ _).0 e))
    | inr e ↦
        let w = write p (digit (ud % divisor)) m in
        let (k, l, r) = emit-Emitted n (ud / divisor) (suc p) w h in
        rw e (suc k, omega arith, more ud p m k _ _ r)
  ]

swap : (p1 p2 : ℕ) → Mem → Mem
swap p1 p2 m = write p2 (m p1) (write p1 (m p2) m)

swap-at : (p1 p2 x : ℕ) (m : Mem) → (x ≡ p1) ⊎ (x ≡ p2) → swap p1 p2 m x ≡ m (p1 + p2 - x)
unfolding swap
swap-at p1 p2 x m (inl h) = let e : p1 + p2 - x ≡ p2 = omega arith in rw (e, h) (ground arith)
swap-at p1 p2 x m (inr h) = let e : p1 + p2 - x ≡ p1 = omega arith in rw e (ground arith)

swap-off : (p1 p2 x : ℕ) (m : Mem) → x ≢ p1 → x ≢ p2 → swap p1 p2 m x ≡ m x
unfolding swap
swap-off p1 p2 x m a b = ground arith

-- The second loop leaves the bytes that are not between `p1` and `p2`.
swap_ends-outside : (n p1 p2 x : ℕ) (m : Mem) → (x < p1) ⊎ (p2 < x) → swap_ends n p1 p2 m x ≡ m x
unfolding swap_ends swap
swap_ends-outside zero p1 p2 x m h = refl
swap_ends-outside (suc n) p1 p2 x m h = elim (Bool-cases (ltb p1 p2)) [
  | inl e ↦ rw e (
      swap_ends-outside n (suc p1) (p2 - 1) x (swap p1 p2 m) (ground arith)
      ∙ swap-off p1 p2 x m (ground arith) (ground arith))
  | inr e ↦ rw e refl
]

-- It turns the bytes from `p1` to `p2` round.
swap_ends-inside :
    (n p1 p2 x : ℕ) (m : Mem)
    → p2 ≤ p1 + 2 * n
    → p1 ≤ x
    → x ≤ p2
    → swap_ends n p1 p2 m x ≡ m (p1 + p2 - x)
unfolding swap_ends swap
swap_ends-inside zero p1 p2 x m h a b = ap m (omega arith)
swap_ends-inside (suc n) p1 p2 x m h a b = elim (Bool-cases (ltb p1 p2)) [
  | inl e ↦ elim (Bool-cases (ltb p1 x && ltb x p2)) [
    | inl i ↦
        let j : suc p1 + (p2 - 1) - x ≡ p1 + p2 - x = ground arith in
        rw e (
          swap_ends-inside n (suc p1) (p2 - 1) x (swap p1 p2 m) (ground arith) (ground arith)
            (ground arith)
          ∙ ap (swap p1 p2 m) j
          ∙ swap-off p1 p2 (p1 + p2 - x) m (ground arith) (ground arith))
    | inr i ↦ rw e (
        swap_ends-outside n (suc p1) (p2 - 1) x (swap p1 p2 m) (ground arith)
        ∙ swap-at p1 p2 x m (ground arith))
  ]
  | inr e ↦ rw e (ap m (ground arith))
]

-- Read from the front, the digits behind a number give the number.
read_digits-shift :
    (divisor n ud a k : ℕ) (m : Mem)
    → 9 < divisor
    → divisor ≤ 16
    → ((j : ℕ) → j < k → m (a + k - suc j) ≡ digit (shift divisor j ud % divisor))
    → n ≤ k
    → read_digits divisor n (shift divisor n ud) (a + k - n) m ≡ shift divisor 0 ud
unfolding read_digits
read_digits-shift divisor zero ud a k m l h d b = refl
read_digits-shift divisor (suc n) ud a k m l h d b =
    let p : suc (a + k - suc n) ≡ a + k - n = omega arith in
    let r = mod-lt (shift divisor n ud) {m = divisor} (omega arith) in
    let v : value (digit (shift divisor n ud % divisor)) ≡ shift divisor n ud % divisor =
      ground arith in
    let q : shift divisor n ud / divisor * divisor + shift divisor n ud % divisor
        ≡ shift divisor n ud =
      omega (arith, div-add-mod (shift divisor n ud) divisor) in
    rw (p, d n (omega arith), v, shift-suc divisor n ud, q)
      (read_digits-shift divisor n ud a k m l h d (omega arith))

-- A word has at most ten digits.
shift_ten :
    (divisor ud : ℕ) → (divisor ≡ 10) ⊎ (divisor ≡ 16) → ud < u32_mod → shift divisor 10 ud ≡ 0
unfolding shift
shift_ten divisor ud (inl e) h = rw e (omega arith)
shift_ten divisor ud (inr e) h = rw e (omega arith)

-- The digits of a word, which stand for it, with the terminator behind them, and nothing in front.
pub record IsNumber (divisor ud buf : ℕ) (m m' : Mem) : Type 0 where
  pub count : ℕ
  pub some_digits : 0 < count
  pub few_digits : count ≤ 10
  pub value_of : read_digits divisor count 0 buf m' ≡ ud
  pub terminated : m' (buf + count) ≡ 0
  pub kept : (x : ℕ) → (x < buf) ⊎ (buf + count < x) → m' x ≡ m x

module _ (divisor ud buf : ℕ) (m : Mem) (k q : ℕ) (m' : Mem) where
  -- From the end of the first loop on.
  turned :
      Emitted divisor buf ud m k q m'
      → k ≤ 10
      → 9 < divisor
      → divisor ≤ 16
      → IsNumber divisor ud buf m (swap_ends 5 buf (q - 1) (write q 0 m'))
  unfolding shift
  turned r b l h = record {
    count = k;
    some_digits = r.some_digits;
    few_digits = b;
    value_of =
        let v =
          read_digits-shift divisor k ud buf k (swap_ends 5 buf (q - 1) w) l h at_ (omega arith) in
        let e : buf + k - k ≡ buf = omega arith in rw (r.none_left, e) at v;
    terminated =
        swap_ends-outside 5 buf (q - 1) (buf + k) w (omega (arith, r.end, r.some_digits))
        ∙ ground (arith, r.end);
    kept = λ x o.
        swap_ends-outside 5 buf (q - 1) x w (ground (arith, r.end, r.some_digits))
        ∙ ground (arith, r.end)
        ∙ r.kept x (ground arith);
  }
    where
      w : Mem
      w = write q 0 m'

      at_ :
          (j : ℕ)
          → j < k
          → swap_ends 5 buf (q - 1) w (buf + k - suc j) ≡ digit (shift divisor j ud % divisor)
      at_ j o =
          let e : buf + (q - 1) - (buf + k - suc j) ≡ buf + j = omega (arith, r.end) in
          swap_ends-inside 5 buf (q - 1) (buf + k - suc j) w (omega (arith, r.end)) (omega arith)
            (omega (arith, r.end))
          ∙ ap w e
          ∙ (ground (arith, r.end))
          ∙ r.written j o

itoa_digits-IsNumber :
    (divisor ud buf : ℕ) (m : Mem)
    → (divisor ≡ 10) ⊎ (divisor ≡ 16)
    → ud < u32_mod
    → IsNumber divisor ud buf m (itoa_digits divisor ud buf m)
unfolding itoa_digits
itoa_digits-IsNumber divisor ud buf m base h =
    let (k, l, r) = emit-Emitted divisor 9 ud buf m (shift_ten divisor ud base h) in
    turned divisor ud buf m k _ _ r l (omega arith) (omega arith)

abbrev divisor_of : ℕ → ℕ
divisor_of base = if base == 120 then 16 else 10

-- What `tk_itoa` writes for the three bases: of a negative number, its sign and its opposite.
pub Written : (buf base d : ℕ) → (m m' : Mem) → Type 0
Written buf base d m m' =
    ((base ≡ 100)
      × (0x80000000 ≤ d)
      × (m' buf ≡ 45)
      × IsNumber 10 (u32_mod - d) (buf + 1) (write buf 45 m) m')
    ⊎ (((base ≢ 100) ⊎ (d < 0x80000000)) × IsNumber (divisor_of base) d buf m m')

two_bases : (base : ℕ) → (divisor_of base ≡ 10) ⊎ (divisor_of base ≡ 16)
two_bases base = elim (Bool-cases (base == 120)) [
  | inl e ↦ rw e (inr refl)
  | inr e ↦ rw e (inl refl)
]

-- `tk_itoa` writes the sign of a word that the base `d` takes as a negative number, and then digits that
-- stand for the number without its sign, at most ten, in base sixteen for `x` and ten for the others,
-- with a terminator behind them; other bytes stay.
pub tk_itoa-Written :
    (buf base d : ℕ) (m : Mem) → d < u32_mod → Written buf base d m (tk_itoa buf base d m)
unfolding tk_itoa Written
tk_itoa-Written buf base d m h = elim (Bool-cases (base == 100 && leb 0x80000000 d)) [
  | inl e ↦
      let r =
        itoa_digits-IsNumber 10 (u32_mod - d) (buf + 1) (write buf 45 m) (inl refl)
          (ground arith) in
      rw e (inl (ground arith, ground arith, r.kept buf (omega arith) ∙ ground arith, r))
  | inr e ↦
      let r = itoa_digits-IsNumber (divisor_of base) d buf m (two_bases base) h in
      rw e (inr (ground arith, r))
]

-- Twelve bytes are enough.
pub tk_itoa-outside :
    (buf base d x : ℕ) (m : Mem)
    → d < u32_mod
    → (x < buf) ⊎ (buf + 12 ≤ x)
    → tk_itoa buf base d m x ≡ m x
unfolding Written
tk_itoa-outside buf base d x m h o = elim (tk_itoa-Written buf base d m h) [
  | inl (a, b, c, r) ↦ r.kept x (omega (arith, r.few_digits)) ∙ ground arith
  | inr (a, r) ↦ r.kept x (omega (arith, r.few_digits))
]
