-- ===== src/Strings/Digits.antt =====
-- The digits that `num2str` writes.
use own_os.Prelude.{
  ℕ, zero, suc, ◌+◌, ◌*◌, ◌/◌, ◌%◌, ◌<◌, ◌≤◌, ◌≡◌, ◌⊎◌, ◌∙◌, refl, sym, subst, true, ◌==◌, arith,
  Bool-cases, inl, inr, ==_iff,
}
use native.Mathlib.Nat.{mod-lt, div-lt_iff_lt-mul}
use own_os.Prelude.Words.{u8_mod}
use own_os.Prelude.Memory.{Mem, write}
use own_os.Strings.{put_loop, num2str_pos}
use own_os.Strings.Number.{
  pow10, pow10-pos, read_dec, leading, put_loop-step, put_loop-outside, put_loop-read_dec,
  num2str_pos-put_loop,
}

abbrev pub IsDigit : ℕ → Type 0
IsDigit c = (48 ≤ c) × (c < 58)

put_loop-first :
    (n k num i str : ℕ) (m : Mem)
    → num < pow10 (suc k)
    → put_loop (suc n) (pow10 k) num i str m (str + i) ≡ 48 + num / pow10 k
unfolding pow10
put_loop-first n k num i str m b =
    let p = pow10 k in
    let pos = pow10-pos k in
    let w = write (str + i) ((48 + num / p) % u8_mod) m in
    let same : (str + i == str + i) ≡ true = ground arith in
    rw (put_loop-step n p num i str m pos) (
      put_loop-outside n (p / 10) (num % p) (suc i) str (str + i) w (omega arith)
      ∙ rw same (leading p num pos b))

div-IsDigit : (p num : ℕ) → 0 < p → num < 10 * p → IsDigit (48 + num / p)
div-IsDigit p num h b = let l = (div-lt_iff_lt-mul h).1 b in (omega arith, omega arith)

above : (d num : ℕ) → pow10 d ≤ num → 0 < num / pow10 d
above d num o = let p = pow10-pos d in ground arith

put_loop-at :
    (n k num i j str : ℕ) (m : Mem)
    → num < pow10 (suc k)
    → (j == i) ≡ true
    → IsDigit (put_loop (suc n) (pow10 k) num i str m (str + j))
unfolding pow10
put_loop-at n k num i j str m b e =
    subst (λ j. IsDigit (put_loop (suc n) (pow10 k) num i str m (str + j))) (sym ((==_iff j i).0 e))
      (rw (put_loop-first n k num i str m b) (div-IsDigit (pow10 k) num (pow10-pos k) b))

put_loop-IsDigit :
    (n k num i j str : ℕ) (m : Mem)
    → k < n
    → num < pow10 (suc k)
    → i ≤ j
    → j < i + suc k
    → IsDigit (put_loop n (pow10 k) num i str m (str + j))
unfolding pow10
put_loop-IsDigit zero k num i j str m h b l u = absurd (omega arith)
put_loop-IsDigit (suc n) zero num i j str m h b l u = put_loop-at n 0 num i j str m b (ground arith)
put_loop-IsDigit (suc n) (suc k) num i j str m h b l u =
    let p = pow10 (suc k) in
    let pos = pow10-pos (suc k) in
    let f : p / 10 ≡ pow10 k = omega arith in
    let w = write (str + i) ((48 + num / p) % u8_mod) m in
    elim (Bool-cases (j == i)) [
      | inl e ↦ put_loop-at n (suc k) num i j str m b e
      | inr e ↦
          rw (put_loop-step n p num i str m pos, f)
            (put_loop-IsDigit n k (num % p) (suc i) j str w (omega arith) (mod-lt num pos)
              (ground arith) (omega arith))
    ]

-- The string at `str` has `n + 1` decimal digits, which stand for the number, with a terminator behind them, and the
-- first of them is not a zero unless it is the only one.
abbrev pub IsDecimal : (n num str : ℕ) → Mem → Type 0
IsDecimal n num str m =
    (read_dec (suc n) str m ≡ num)
    × ((j : ℕ) → j < suc n → IsDigit (m (str + j)))
    × (m (str + suc n) ≡ 0)
    × ((n ≡ 0) ⊎ (48 < m str))

zero-IsDecimal :
    (num str : ℕ) (m : Mem) → (num == 0) ≡ true → IsDecimal 0 num str (num2str_pos num str m)
unfolding num2str_pos read_dec
zero-IsDecimal num str m z =
    rw z (ground arith, λ j l. (ground arith, ground arith), ground arith, inl refl)

-- For a number with at most nine digits, `num2str` writes decimal digits that stand for it, the first of them not a
-- zero unless it is the only one, and a terminator behind them.
pub num2str_pos-IsDecimal :
    (num str : ℕ) (m : Mem)
    → num < 1000000000
    → (n : ℕ) × IsDecimal n num str (num2str_pos num str m)
num2str_pos-IsDecimal num str m h = elim (Bool-cases (num == 0)) [
  | inl z ↦ (0, zero-IsDecimal num str m z)
  | inr z ↦
      let (d, (e, l, t, o)) = num2str_pos-put_loop num str m h z in
      let (r, w) = put_loop-read_dec 10 d num 0 str m l t in
      let g : str + 0 ≡ str = omega arith in
      let first = rw g at (put_loop-first 9 d num 0 str m t) in
      let r' = rw g at r in
      let w' = rw g at w in
      let q : 0 < num / pow10 d = above d num o in
      (
        d,
        (
          rw e r',
          λ j u. rw e (put_loop-IsDigit 10 d num 0 j str m l t (omega arith) (omega arith)),
          rw e w',
          inr (rw (e, first) (omega arith)),
        ),
      )
]
