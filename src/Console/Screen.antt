-- ===== src/Console/Screen.antt =====
-- The cursor stays on the screen, and the output leaves the memory outside the screen as it was.
use own_os.Prelude.{
  ℕ, zero, suc, ◌+◌, ◌*◌, ◌<◌, ◌≤◌, ◌≡◌, ◌⊎◌, ◌∙◌, refl, ◌||◌, List, [], ◌∷◌, leb, ◌==◌, arith,
  Bool-cases, inl, inr,
}
use own_os.Prelude.Memory.{Mem, write}
use own_os.Console.{Console, columns, lines, video, clear_line, newline, place, tk_putchar, put_all}

-- The memory of 25 rows: a line feed on the last of the 24 rows clears the one behind it.
abbrev pub Outside : ℕ → Type 0
Outside a = (a < video) ⊎ (video + 80 * 25 * 2 ≤ a)

-- The cursor is on the screen.
pub record IsOnScreen (s : Console) : Type 0 where
  pub column : s.xpos < columns
  pub row : s.ypos < lines

clear_line-Outside :
    (n i y a : ℕ) (m : Mem) → y ≤ 24 → i + n ≤ 80 → Outside a → clear_line n i y m a ≡ m a
unfolding clear_line
clear_line-Outside zero i y a m h b o = refl
clear_line-Outside (suc n) i y a m h b o =
    clear_line-Outside n (suc i) y a (write (video + (i + y * columns) * 2) 0 m) h (omega arith) o
    ∙ ground arith

newline-IsOnScreen : (s : Console) → s.ypos < lines → IsOnScreen (newline s)
unfolding newline
newline-IsOnScreen s h = ground arith

newline-Outside : (s : Console) (a : ℕ) → s.ypos < lines → Outside a → (newline s).mem a ≡ s.mem a
unfolding newline
newline-Outside s a h o = clear_line-Outside 80 0 (s.ypos + 1) a s.mem (omega arith) (omega arith) o

place-Outside :
    (c : ℕ) (s : Console) (a : ℕ) → IsOnScreen s → Outside a → (place c s).mem a ≡ s.mem a
place-Outside c s a v o = ground arith

-- A character leaves the cursor on the screen, and the memory outside the screen as it was.
pub tk_putchar-screen :
    (c : ℕ) (s : Console)
    → IsOnScreen s
    → IsOnScreen (tk_putchar c s) × ((a : ℕ) → Outside a → (tk_putchar c s).mem a ≡ s.mem a)
unfolding tk_putchar
tk_putchar-screen c s v = elim (Bool-cases (c == 10 || c == 13)) [
  | inl e ↦ rw e (newline-IsOnScreen s v.row, λ a o. newline-Outside s a v.row o)
  | inr e ↦ elim (Bool-cases (leb columns (s.xpos + 1))) [
    | inl w ↦
        rw (e, w)
          (
            newline-IsOnScreen (place c s) v.row,
            λ a o. newline-Outside (place c s) a v.row o ∙ place-Outside c s a v o,
          )
    | inr w ↦
        rw (e, w) (record { column = ground arith; row = v.row }, λ a o. place-Outside c s a v o)
  ]
]

pub put_all-screen :
    (cs : List ℕ) (s : Console)
    → IsOnScreen s
    → IsOnScreen (put_all cs s) × ((a : ℕ) → Outside a → (put_all cs s).mem a ≡ s.mem a)
unfolding put_all
put_all-screen [] s v = (v, λ a o. refl)
put_all-screen (c ∷ cs) s v =
    let (v', k) = tk_putchar-screen c s v in
    let (w, l) = put_all-screen cs (tk_putchar c s) v' in (w, λ a o. l a o ∙ k a o)
