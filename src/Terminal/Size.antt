-- ===== src/Terminal/Size.antt =====
-- `normalizeSize`, and the size that the PTY gets.
use noderax_agent.Prelude.{
  ℕ, ◌%◌, ◌^◌, ◌≤◌, ◌<◌, ◌≡◌, ap, subst, ◌↔◌, ◌⊎◌, inl, inr, false, ◌||◌, List, arith, ◌==◌,
  if◌then◌else◌, Bool-cases, ℤ, pos, negsuc, pos_part, ltb_ℤ, Text, Outcome, ok, err,
}

abbrev pub default_cols : ℕ
default_cols = 120

abbrev pub default_rows : ℕ
default_rows = 34

-- The errors of the manager, one constructor for each message.
pub data TerminalError : Type 0 where
  session_exists session_not_found invalid_terminal_size : TerminalError
  session_id_required no_shell root_not_allowed : TerminalError
  start_failed : List Text → TerminalError
  undecodable_input write_failed resize_failed stop_failed : Text → TerminalError

pub record Size : Type 0 where
  pub cols : ℕ
  pub rows : ℕ

abbrev or_default : ℤ → ℕ → ℤ
or_default (pos n) d = if n == 0 then pos d else pos n
or_default (negsuc n) d = negsuc n

-- A size that is accepted is no negative number, so a number holds it.
unfoldable pub normalize_size : ℤ → ℤ → Outcome TerminalError Size
normalize_size cols rows =
    let c = or_default cols default_cols in
    let r = or_default rows default_rows in
    if ltb_ℤ c (pos 20) || ltb_ℤ r (pos 10)
    then err invalid_terminal_size
    else ok (record { cols = pos_part c; rows = pos_part r })

-- `uint16(n)`.
abbrev pub uint16 : ℕ → ℕ
uint16 n = n % 2 ^ 16

-- `pty.Winsize`.
unfoldable pub winsize : Size → Size
winsize s = record { cols = uint16 s.cols; rows = uint16 s.rows }

-- An accepted size has at least 20 columns and 10 rows, and each is the one asked for, or the default
-- where zero was asked for. The PTY gets that size exactly if both numbers are less than 65536.
pub record IsSize (cols rows : ℤ) (s : Size) : Type 0 where
  pub cols_least : 20 ≤ s.cols
  pub rows_least : 10 ≤ s.rows
  pub cols_eq : (cols ≡ pos s.cols) ⊎ ((cols ≡ pos 0) × (s.cols ≡ default_cols))
  pub rows_eq : (rows ≡ pos s.rows) ⊎ ((rows ≡ pos 0) × (s.rows ≡ default_rows))
  pub pty_iff : (winsize s ≡ s) ↔ ((s.cols < 65536) × (s.rows < 65536))

size_eq : (a b : Size) → ◌≡◌ {A = Outcome TerminalError Size} (ok a) (ok b) → a ≡ b
size_eq a b h = cc

winsize_iff : (s : Size) → (winsize s ≡ s) ↔ ((s.cols < 65536) × (s.rows < 65536))
unfolding winsize
winsize_iff s = (
  λ e. (omega (arith, ap (λ (t : Size). t.cols) e), omega (arith, ap (λ (t : Size). t.rows) e)),
  λ (c, r).
      let ec : s.cols % 65536 ≡ s.cols = omega arith in
      let er : s.rows % 65536 ≡ s.rows = omega arith in cc,
)

asked_cases :
    (z : ℤ) (d least : ℕ)
    → ltb_ℤ (or_default z d) (pos least) ≡ false
    → (least ≤ pos_part (or_default z d))
      × ((z ≡ pos (pos_part (or_default z d))) ⊎ ((z ≡ pos 0) × (pos_part (or_default z d) ≡ d)))
asked_cases (pos n) d least h = ground arith
asked_cases (negsuc n) d least h = absurd (ground arith)

pub normalize_size-IsSize :
    (cols rows : ℤ) (s : Size) → normalize_size cols rows ≡ ok s → IsSize cols rows s
unfolding normalize_size
normalize_size-IsSize cols rows s e =
    elim (Bool-cases (ltb_ℤ (or_default cols default_cols) (pos 20))) [
      | inl small ↦ cc (simp small at e)
      | inr c ↦ elim (Bool-cases (ltb_ℤ (or_default rows default_rows) (pos 10))) [
        | inl small ↦ cc (simp (c, small) at e)
        | inr r ↦
            let same = size_eq _ _ (simp (c, r) at e) in
            let (c_least, c_eq) = asked_cases cols default_cols 20 c in
            let (r_least, r_eq) = asked_cases rows default_rows 10 r in
            subst (IsSize cols rows) same (record {
              cols_least = c_least;
              rows_least = r_least;
              cols_eq = c_eq;
              rows_eq = r_eq;
              pty_iff = winsize_iff _;
            })
      ]
    ]
