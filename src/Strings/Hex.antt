-- ===== src/Strings/Hex.antt =====
-- The number that is read back from what `num2str_hex` writes.
use own_os.Prelude.{
  ℕ, zero, suc, ◌+◌, ◌-◌, ◌*◌, ◌/◌, ◌%◌, ◌<◌, ◌≤◌, ◌≡◌, ◌∙◌, refl, false, ◌&&◌, ltb, leb, ◌==◌,
  if◌then◌else◌, arith, Bool-cases, ==_iff, inl, inr,
}
use own_os.Prelude.Memory.{Mem, write}
use own_os.Prelude.Words.{u32_mod}
use own_os.Strings.{hex_digit, hex_loop, zeros, num2str_hex}

-- The value of a digit.
abbrev pub hex_value : ℕ → ℕ
hex_value c = if ltb c 58 then c - 48 else c - 87

-- The number that `n` hexadecimal digits at an address stand for, after the digits of `acc`.
pub read_hex : (n acc p : ℕ) → Mem → ℕ
read_hex zero acc p m = acc
read_hex (suc n) acc p m = read_hex n (acc * 16 + hex_value (m p)) (suc p) m

shift : ℕ → ℕ → ℕ
shift zero num = num
shift (suc k) num = shift k (num / 16)

shift-zero : (k : ℕ) → shift k 0 ≡ 0
unfolding shift
shift-zero zero = refl
shift-zero (suc k) = shift-zero k

-- The positions behind the last digit written so far are left.
hex_loop-outside :
    (n i num str x : ℕ) (m : Mem) → i + n ≤ 8 → str + 9 < x + i → hex_loop n i num str m x ≡ m x
unfolding hex_loop
hex_loop-outside zero i num str x m b h = refl
hex_loop-outside (suc n) i num str x m b h = elim (Bool-cases (num == 0)) [
  | inl e ↦ rw e refl
  | inr e ↦ rw e (
      hex_loop-outside n (suc i) (num / 16) str x (write (str + 9 - i) (hex_digit (num % 16)) m)
        (omega arith) (omega arith)
      ∙ ground arith)
]

hex_loop-digit :
    (n i k num str : ℕ) (m : Mem)
    → i + n ≡ 8
    → i + k < 8
    → ((j : ℕ) → i ≤ j → j < 8 → m (str + 9 - j) ≡ 48)
    → hex_loop n i num str m (str + 9 - (i + k)) ≡ hex_digit (shift k num % 16)
unfolding hex_loop shift
hex_loop-digit zero i k num str m b h z = absurd (omega arith)
hex_loop-digit (suc n) i zero num str m b h z = elim (Bool-cases (num == 0)) [
  | inl e ↦ let o : num ≡ 0 = (==_iff num 0).0 e in rw e (z (i + 0) (omega arith) h ∙ rw o refl)
  | inr e ↦ rw e (
      hex_loop-outside n (suc i) (num / 16) str (str + 9 - (i + 0))
        (write (str + 9 - i) (hex_digit (num % 16)) m) (omega arith) (omega arith)
      ∙ ground arith)
]
hex_loop-digit (suc n) i (suc k) num str m b h z = elim (Bool-cases (num == 0)) [
  | inl e ↦
      let o : num ≡ 0 = (==_iff num 0).0 e in
      let s : shift (suc k) num ≡ 0 = rw o (shift-zero (suc k)) in
      rw e (z (i + suc k) (omega arith) h ∙ rw s refl)
  | inr e ↦
      let g : i + suc k ≡ suc i + k = omega arith in
      rw (e, g)
        (hex_loop-digit n (suc i) k (num / 16) str (write (str + 9 - i) (hex_digit (num % 16)) m)
          (omega arith) (omega arith)
          (λ j l t.
            let q : (str + 9 - j == str + 9 - i) ≡ false = ground arith in
            rw q (z j (omega arith) t)))
]

zeros_lem : (n a x : ℕ) (m : Mem) → zeros n a m x ≡ (if leb a x && ltb x (a + n) then 48 else m x)
unfolding zeros
zeros_lem zero a x m = ground arith
zeros_lem (suc n) a x m = zeros_lem n (suc a) x (write a 48 m) ∙ ground arith

num2str_hex-digit :
    (num str k : ℕ) (m : Mem)
    → k < 8
    → num2str_hex num str m (str + 9 - k) ≡ hex_digit (shift k num % 16)
unfolding num2str_hex
num2str_hex-digit num str k m h =
    let w = write (str + 1) 120 (write str 48 m) in
    let e : 0 + k ≡ k = omega arith in
    rw e at (
      hex_loop-digit 8 0 k num str (zeros 8 (str + 2) w) (omega arith) (omega arith)
        (λ j l t. zeros_lem 8 (str + 2) (str + 9 - j) w ∙ ground arith))

shift-suc : (k num : ℕ) → shift (suc k) num ≡ shift k num / 16
unfolding shift
shift-suc zero num = refl
shift-suc (suc k) num = shift-suc k (num / 16)

-- The digits from the `n`-th last on, after a number that the digits before stand for.
read_hex-shift :
    (n num str : ℕ) (m : Mem)
    → ((k : ℕ) → k < 8 → m (str + 9 - k) ≡ hex_digit (shift k num % 16))
    → n ≤ 8
    → read_hex n (shift n num) (str + 10 - n) m ≡ shift 0 num
unfolding read_hex
read_hex-shift zero num str m d h = refl
read_hex-shift (suc n) num str m d h =
    let p : str + 10 - suc n ≡ str + 9 - n = omega arith in
    let q : suc (str + 9 - n) ≡ str + 10 - n = omega arith in
    let v : hex_value (hex_digit (shift n num % 16)) ≡ shift n num % 16 = ground arith in
    let a : shift n num / 16 * 16 + shift n num % 16 ≡ shift n num = omega arith in
    rw (p, q, d n (omega arith), v, shift-suc n num, a) (read_hex-shift n num str m d (omega arith))

-- `num2str_hex` writes eight digits that stand for the word.
pub num2str_hex-read_hex :
    (num str : ℕ) (m : Mem) → num < u32_mod → read_hex 8 0 (str + 2) (num2str_hex num str m) ≡ num
unfolding shift
num2str_hex-read_hex num str m h =
    let e : shift 8 num ≡ 0 = omega arith in
    let p : str + 10 - 8 ≡ str + 2 = omega arith in
    rw (e, p) at
      (read_hex-shift 8 num str (num2str_hex num str m) (λ k l. num2str_hex-digit num str k m l)
        (omega arith))
