-- ===== src/Strings/Compare.antt =====
-- Lengths and comparisons of strings, and a copy of a string.
use own_os.Prelude.{
  ℕ, zero, suc, ◌+◌, ◌-◌, ◌<◌, ◌≤◌, ◌≡◌, ◌↔◌, ◌⊎◌, refl, sym, ◌∙◌, true, false, ◌&&◌, ltb, leb,
  ◌==◌, arith, Bool-cases, ==_iff, inl, inr,
}
use own_os.Prelude.Memory.{Mem}
use own_os.Strings.{strlen, strlen_loop, strlen_max, strcpy, strcmp, strncmp, differ, minimum}
use own_os.Strings.Copy.{copied, copy_up_lem}

-- The loop of `strlen` stops within its rounds.
strlen_loop_bounds :
    (n i s : ℕ) (m : Mem) → (i ≤ strlen_loop n i s m) × (strlen_loop n i s m ≤ i + n)
unfolding strlen_loop
strlen_loop_bounds zero i s m = omega arith
strlen_loop_bounds (suc n) i s m = ground (arith, strlen_loop_bounds n (suc i) s m)

-- It reads no byte behind the one at which it stops.
strlen_loop_same :
    (n i s d : ℕ) (m m' : Mem)
    → ((j : ℕ) → j ≤ strlen_loop n i s m → j < i + n → m' (d + j) ≡ m (s + j))
    → strlen_loop n i d m' ≡ strlen_loop n i s m
unfolding strlen_loop
strlen_loop_same zero i s d m m' h = refl
strlen_loop_same (suc n) i s d m m' h =
    let b = (strlen_loop_bounds (suc n) i s m).0 in
    let same : m' (d + i) ≡ m (s + i) = h i b (omega arith) in
    elim (Bool-cases (m (s + i) == 0)) [
      | inl e ↦ rw (same, e) refl
      | inr e ↦
          let l : strlen_loop (suc n) i s m ≡ strlen_loop n (suc i) s m =
            rw (e, strlen_loop) refl in
          rw (same, e)
            (strlen_loop_same n (suc i) s d m m' (λ j x y. h j (omega arith) (omega arith)))
    ]

-- `differ` is 0 exactly where the bytes agree.
differ_iff :
    (n i s1 s2 : ℕ) (m : Mem)
    → (differ n i s1 s2 m ≡ 0) ↔ ((j : ℕ) → i ≤ j → j < i + n → m (s1 + j) ≡ m (s2 + j))
unfolding differ
differ_iff zero i s1 s2 m = (λ e j k l. absurd (omega arith), λ h. refl)
differ_iff (suc n) i s1 s2 m =
    let (f, g) = differ_iff n (suc i) s1 s2 m in
    (
      λ e j k l. elim (Bool-cases (j == i)) [
        | inl x ↦ rw ((==_iff j i).0 x) (ground arith)
        | inr x ↦ f (ground arith) j (ground arith) (omega arith)
      ],
      λ h.
          let a = h i (omega arith) (omega arith) in
          let b = g (λ j k l. h j (omega arith) (omega arith)) in ground arith,
    )

lt_minimum : {j a b : ℕ} → ((j < a) × (j < b)) ↔ (j < 0 + minimum a b)
lt_minimum = (λ h. ground arith, λ h. (ground arith, ground arith))

-- `strncmp` is 0 exactly where the first `num` bytes agree, and `strcmp` where the lengths agree as
-- well and the bytes up to `num` or the end do.
pub strcmp_iff :
    (s1 s2 num : ℕ) (m : Mem)
    → ((strncmp s1 s2 num m ≡ 0) ↔ ((j : ℕ) → j < num → m (s1 + j) ≡ m (s2 + j)))
      × ((strcmp s1 s2 num m ≡ 0) ↔ (
          (strlen s1 m ≡ strlen s2 m)
          × ((j : ℕ) → j < num → j < strlen s1 m → m (s1 + j) ≡ m (s2 + j))))
unfolding strncmp strcmp
strcmp_iff s1 s2 num m =
    let (f, g) = differ_iff num 0 s1 s2 m in
    let (f', g') = differ_iff (minimum num (strlen s1 m)) 0 s1 s2 m in
    (
      (λ e j l. f e j (omega arith) (omega arith), λ h. g (λ j k l. h j (omega arith))),
      (
        λ e. elim (Bool-cases (strlen s1 m == strlen s2 m)) [
          | inl x ↦
              let e' : differ (minimum num (strlen s1 m)) 0 s1 s2 m ≡ 0 = rw x at e in
              ((==_iff _ _).0 x, λ j k l. f' e' j (omega arith) (lt_minimum.0 (k, l)))
          | inr x ↦ let e' : 1 ≡ 0 = rw x at e in absurd (omega arith)
        ],
        λ h.
            let x : (strlen s1 m == strlen s2 m) ≡ true = (==_iff _ _).1 h.0 in
            rw x (g' (λ j k l. let (a, b) = lt_minimum.1 l in h.1 j a b)),
      ),
    )

inside : (len d s j : ℕ) (m : Mem) → j ≤ len → copied (suc len) d s m (d + j) ≡ m (s + j)
inside len d s j m l =
    let a : d + j - d ≡ j = omega arith in
    let b : leb d (d + j) && ltb (d + j) (d + suc len) ≡ true = ground arith in rw (b, a) refl

outside :
    (len d s j : ℕ) (m : Mem)
    → j ≤ len
    → (d + len < s) ⊎ (s + len < d)
    → copied (suc len) d s m (s + j) ≡ m (s + j)
outside len d s j m l o =
    let b : leb d (s + j) && ltb (s + j) (d + suc len) ≡ false = ground arith in rw b refl

-- A copy of a string that does not overlap it has the same length, and compares equal to it.
pub strcmp-strcpy :
    (d s num : ℕ) (m : Mem)
    → (d + strlen s m < s) ⊎ (s + strlen s m < d)
    → (strlen d (strcpy d s m) ≡ strlen s m) × (strcmp d s num (strcpy d s m) ≡ 0)
unfolding strcpy strlen
strcmp-strcpy d s num m apart =
    let len = strlen s m in
    let m' = strcpy d s m in
    let out : (j : ℕ) → j ≤ len → m' (d + j) ≡ m (s + j) =
      λ j l. copy_up_lem (suc len) d s m (ground arith) (d + j) ∙ inside len d s j m l in
    let kept : (j : ℕ) → j ≤ len → m' (s + j) ≡ m (s + j) =
      λ j l. copy_up_lem (suc len) d s m (ground arith) (s + j) ∙ outside len d s j m l apart in
    let e : strlen d m' ≡ len = strlen_loop_same strlen_max 0 s d m m' (λ j l k. out j l) in
    let f : strlen s m' ≡ len = strlen_loop_same strlen_max 0 s s m m' (λ j l k. kept j l) in
    (
      e,
      (strcmp_iff d s num m').1.1
          (e ∙ sym f, λ j k l. let l' : j ≤ len = omega (arith, e) in out j l' ∙ sym (kept j l')),
    )
