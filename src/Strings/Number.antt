-- ===== src/Strings/Number.antt =====
-- The numbers that are read back from what `num2str` writes.
use native.Mathlib.Nat.{div-add-mod, mod-lt, div-lt_iff_lt-mul}
use own_os.Prelude.{
  ℕ, zero, suc, ◌+◌, ◌-◌, ◌*◌, ◌/◌, ◌%◌, ◌<◌, ◌≤◌, ◌≡◌, refl, ◌∙◌, true, false, ◌==◌, if◌then◌else◌,
  arith, Bool-cases, ==_iff, inl, inr,
}
use own_os.Prelude.Memory.{Mem, write}
use own_os.Prelude.Words.{u32_mod, u8_mod}
use own_os.Strings.{fig_loop, put_loop, num2str_pos}

unfoldable pub pow10 : ℕ → ℕ
pow10 zero = 1
pow10 (suc n) = 10 * pow10 n

-- The number that `n` decimal digits at an address stand for.
unfoldable pub read_dec : (n p : ℕ) → Mem → ℕ
unfolding pow10
read_dec zero p m = 0
read_dec (suc n) p m = (m p - 48) * pow10 n + read_dec n (suc p) m

-- The number of digits, in at most `n`.
pub digits : (n tmp : ℕ) → ℕ
digits zero tmp = 0
digits (suc n) tmp = let rest = suc (digits n (tmp / 10)) in if tmp == 0 then 0 else rest

pow10_mono : (j k : ℕ) → j ≤ k → pow10 j ≤ pow10 k
unfolding pow10
pow10_mono zero zero h = omega arith
pow10_mono zero (suc k) h = omega (arith, pow10_mono zero k (omega arith))
pow10_mono (suc j) zero h = absurd (omega arith)
pow10_mono (suc j) (suc k) h = omega (arith, pow10_mono j k (omega arith))

pub pow10-pos : (n : ℕ) → 0 < pow10 n
unfolding pow10
pow10-pos zero = omega arith
pow10-pos (suc n) = omega (arith, pow10-pos n)

-- A number has as many digits as the power of ten above it says.
pow10-digits : (n tmp : ℕ) → tmp < pow10 n → (tmp < pow10 (digits n tmp)) × (digits n tmp ≤ n)
unfolding pow10 digits
pow10-digits zero tmp h = (h, omega arith)
pow10-digits (suc n) tmp h = ground (arith, pow10-digits n (tmp / 10))

le_mul : (a p : ℕ) → 0 < p → a ≤ a * p
le_mul a zero h = absurd (omega arith)
le_mul a (suc p) h = omega arith

digits-zero : (n tmp : ℕ) → tmp ≡ 0 → digits n tmp ≡ 0
unfolding digits
digits-zero zero tmp e = refl
digits-zero (suc n) tmp e = rw e refl

digits-le : (n k tmp : ℕ) → tmp < pow10 k → digits n tmp ≤ k
unfolding pow10 digits
digits-le zero k tmp h = omega arith
digits-le (suc n) zero tmp h = ground arith
digits-le (suc n) (suc k) tmp h = ground (arith, digits-le n k (tmp / 10))

-- The leading digit is not a zero.
digits_low :
    (n tmp : ℕ) → 0 < tmp → tmp < pow10 n → (d : ℕ) × (digits n tmp ≡ suc d) × (pow10 d ≤ tmp)
unfolding pow10 digits
digits_low zero tmp p h = absurd (omega arith)
digits_low (suc n) tmp p h =
    let e : (tmp == 0) ≡ false = ground arith in
    elim (Bool-cases (tmp / 10 == 0)) [
      | inl z ↦
          let d : digits n (tmp / 10) ≡ 0 = digits-zero n (tmp / 10) ((==_iff _ _).0 z) in
          (0, rw (e, d) refl, omega arith)
      | inr z ↦
          let (d, r, l) = digits_low n (tmp / 10) (ground arith) (omega arith) in
          (suc d, rw (e, r) refl, omega arith)
    ]

fig_loop_lem :
    (n tmp fig : ℕ)
    → tmp < pow10 n
    → fig * pow10 (digits n tmp) < u32_mod
    → fig_loop n tmp fig ≡ fig * pow10 (digits n tmp)
unfolding fig_loop digits pow10
fig_loop_lem zero tmp fig h b = omega arith
fig_loop_lem (suc n) tmp fig h b = elim (Bool-cases (tmp == 0)) [
  | inl e ↦ rw e (omega arith)
  | inr e ↦
      let d = digits n (tmp / 10) in
      let b' : fig * (10 * pow10 d) < u32_mod = rw e at b in
      let r : fig * 10 * pow10 d ≡ fig * (10 * pow10 d) = omega arith in
      let l = le_mul (fig * 10) (pow10 d) (pow10-pos d) in
      let w : fig * 10 % u32_mod ≡ fig * 10 = omega arith in
      rw (e, w) (fig_loop_lem n (tmp / 10) (fig * 10) (omega arith) (omega arith) ∙ r)
]

-- The loop leaves what lies in front of it.
pub put_loop-outside :
    (n fig num i str x : ℕ) (m : Mem) → x < str + i → put_loop n fig num i str m x ≡ m x
unfolding put_loop
put_loop-outside zero fig num i str x m h = ground arith
put_loop-outside (suc n) fig num i str x m h = elim (Bool-cases (fig == 0)) [
  | inl e ↦ rw e (ground arith)
  | inr e ↦ rw e (
      put_loop-outside n (fig / 10) (num % fig) (suc i) str x
        (write (str + i) ((48 + num / fig) % u8_mod) m) (omega arith)
      ∙ ground arith)
]

put_loop-zero : (n num i str : ℕ) (m : Mem) → put_loop n 0 num i str m ≡ write (str + i) 0 m
unfolding put_loop
put_loop-zero zero num i str m = refl
put_loop-zero (suc n) num i str m = refl

pub put_loop-step :
    (n fig num i str : ℕ) (m : Mem)
    → 0 < fig
    → put_loop (suc n) fig num i str m
      ≡ put_loop n
          (fig / 10)
          (num % fig)
          (suc i)
          str
          (write (str + i) ((48 + num / fig) % u8_mod) m)
unfolding put_loop
put_loop-step n fig num i str m h =
    let e : (fig == 0) ≡ false = ground arith in rw (e, put_loop) refl

-- The leading digit is one digit.
pub leading : (p num : ℕ) → 0 < p → num < 10 * p → (48 + num / p) % u8_mod ≡ 48 + num / p
leading p num h b = let l = (div-lt_iff_lt-mul h).1 b in omega arith

-- With the power of ten of `k` digits more, the loop writes `k + 1` digits, which stand for the
-- number, and a terminator.
pub put_loop-read_dec :
    (n k num i str : ℕ) (m : Mem)
    → k < n
    → num < pow10 (suc k)
    → (read_dec (suc k) (str + i) (put_loop n (pow10 k) num i str m) ≡ num)
      × (put_loop n (pow10 k) num i str m (str + i + suc k) ≡ 0)
unfolding read_dec pow10
put_loop-read_dec zero k num i str m h b = absurd (omega arith)
put_loop-read_dec (suc n) zero num i str m h b =
    let s = put_loop-step n 1 num i str m (omega arith) in
    let z = put_loop-zero n (num % 1) (suc i) str (write (str + i) ((48 + num / 1) % u8_mod) m) in
    rw (s, z) (ground arith, ground arith)
put_loop-read_dec (suc n) (suc k) num i str m h b =
    let p = pow10 (suc k) in
    let pos = pow10-pos (suc k) in
    let s = put_loop-step n p num i str m pos in
    let w = write (str + i) ((48 + num / p) % u8_mod) m in
    let f : p / 10 ≡ pow10 k = omega arith in
    let (r, z) = put_loop-read_dec n k (num % p) (suc i) str w (omega arith) (mod-lt num pos) in
    let o = put_loop-outside n (pow10 k) (num % p) (suc i) str (str + i) w (omega arith) in
    let same : (str + i == str + i) ≡ true = ground arith in
    let e : str + suc i ≡ suc (str + i) = omega arith in
    let e' : suc (str + i) + suc k ≡ str + i + suc (suc k) = omega arith in
    let r' = rw e at r in
    let z' = rw (e, e') at z in
    let d = div-add-mod num p in
    let v : w (str + i) ≡ 48 + num / p = rw same (leading p num pos b) in
    let o' = o ∙ v in
    let q : 48 + num / p - 48 ≡ num / p = omega arith in
    rw (s, f) (rw (o', r', q) (omega arith), z')

below9 : (num : ℕ) → num < 1000000000 → num < pow10 9
unfolding pow10
below9 num h = h

below10 : (num : ℕ) → num < 1000000000 → num < pow10 10
unfolding pow10
below10 num h = omega arith

fig_of :
    (num d : ℕ)
    → num < 1000000000
    → digits 10 num ≡ suc d
    → pow10 (suc d) ≤ pow10 9
    → fig_loop 10 num 1 / 10 ≡ pow10 d
unfolding pow10
fig_of num d h e c =
    let f = fig_loop_lem 10 num 1 (omega arith) (rw e (omega arith)) in
    let g : 1 * pow10 (digits 10 num) ≡ 10 * pow10 d = rw e (omega arith) in omega arith

some_lem :
    (num d str : ℕ) (m : Mem)
    → (num == 0) ≡ false
    → fig_loop 10 num 1 / 10 ≡ pow10 d
    → num2str_pos num str m ≡ put_loop 10 (pow10 d) num 0 str m
unfolding num2str_pos
some_lem num d str m z f = rw (z, f) refl

-- A number with at most nine digits, which is not zero, is written by the second loop from its leading digit on.
pub num2str_pos-put_loop :
    (num str : ℕ) (m : Mem)
    → num < 1000000000
    → (num == 0) ≡ false
    → (n : ℕ) × ((num2str_pos num str m ≡ put_loop 10 (pow10 n) num 0 str m)
        × (n < 10)
        × (num < pow10 (suc n))
        × (pow10 n ≤ num))
num2str_pos-put_loop num str m h z =
    let (d, e, l) = digits_low 10 num (ground arith) (below10 num h) in
    let b = digits-le 10 9 num (below9 num h) in
    let c = pow10_mono (suc d) 9 (omega arith) in
    let f : fig_loop 10 num 1 / 10 ≡ pow10 d = fig_of num d h e c in
    let t : num < pow10 (suc d) = rw e at ((pow10-digits 10 num (below10 num h)).0) in
    (d, (some_lem num d str m z f, omega arith, t, l))

fig_loop_ten : (num : ℕ) → 1000000000 ≤ num → num < 10000000000 → fig_loop 10 num 1 ≡ 1410065408
unfolding fig_loop
fig_loop_ten num l h = ground arith

put_loop_nine : (num str : ℕ) (m : Mem) → put_loop 10 141006540 num 0 str m (str + 9) ≡ 0
unfolding put_loop
put_loop_nine num str m = let e : (str + 9 == str + 9) ≡ true = ground arith in rw e refl

-- A number with ten digits gets nine characters at most, since the power of ten above it does not fit
-- into a word.
pub num2str_pos_cut :
    (num str : ℕ) (m : Mem)
    → 1000000000 ≤ num
    → num < 10000000000
    → num2str_pos num str m (str + 9) ≡ 0
unfolding num2str_pos
num2str_pos_cut num str m l h =
    let z : (num == 0) ≡ false = ground arith in
    rw (z, fig_loop_ten num l h) (put_loop_nine num str m)
