-- ===== src/Logscan/Tail.antt =====
-- `tailFileEntries`: the last lines of a file within the limits.
use noderax_agent.Prelude.{
  ℕ, suc, ◌+◌, ◌-◌, ap, Bool, not, List, [], ◌∷◌, ◌++◌, map, ltb, leb, ◌==◌, if◌then◌else◌, length,
  take, drop, Text, is_empty, Outcome, ok, err, ◌>>=◌, ◌>>◌, fail_if,
}
pub mod Window
pub mod Bounds
use noderax_agent.Logscan.Types.{Entry, ScanError, open_failed, scan_failed, cancelled}
use noderax_agent.Logscan.Lines.{Bytes, FileView, token, is_too_long, split_after}

pub record LineInfo : Type 0 where
  pub text : Bytes
  pub size : ℕ

unfoldable pub line_info : Bytes → LineInfo
line_info chunk = record { text = token chunk; size = length (token chunk) + 1 }

-- The window holds the last `backfill_lines` lines.
unfoldable pub push_line : ℕ → List LineInfo → LineInfo → List LineInfo
push_line backfill_lines lines l =
    if length lines == backfill_lines then drop 1 lines ++ l ∷ [] else lines ++ l ∷ []

-- `for scanner.Scan()`; `done k` tells whether the context is done at the k-th check.
unfoldable pub tail_loop :
    ℕ → (ℕ → Bool) → ℕ → List Bytes → List LineInfo → Outcome ScanError (List LineInfo)
tail_loop backfill_lines done k [] lines = ok lines
tail_loop backfill_lines done k (chunk ∷ chunks) lines =
    let rest =
      tail_loop backfill_lines done (suc k) chunks
        (push_line backfill_lines lines (line_info chunk)) in
    if is_too_long chunk then err scan_failed else if done k then err cancelled else rest

unfoldable pub total_bytes : List LineInfo → ℕ
total_bytes [] = 0
total_bytes (l ∷ ls) = l.size + total_bytes ls

-- `for len(selected) > 0`: lines are dropped at the front until the rest fits.
unfoldable pub fit : ℕ → List LineInfo → List LineInfo
unfolding total_bytes
fit max_bytes [] = []
fit max_bytes (l ∷ ls) =
    let rest = fit max_bytes ls in if leb (total_bytes (l ∷ ls)) max_bytes then l ∷ ls else rest

unfoldable pub file_entry : Text → LineInfo → Entry
file_entry identifier l = record {
  timestamp = [];
  message = l.text;
  unit = [];
  identifier = identifier;
}

-- The second half of `tailFileEntries`, from `start := 0` on.
unfoldable pub select_lines : ℕ → ℕ → Text → List LineInfo → List Entry × ℕ × Bool
unfolding fit file_entry
select_lines max_lines max_bytes identifier lines =
    let start = if ltb max_lines (length lines) then length lines - max_lines else 0 in
    let selected = fit max_bytes (drop start lines) in
    if is_empty selected then ([], 0, ltb 0 (length lines)) else (
      map (file_entry identifier) selected,
      total_bytes selected,
      ltb (length selected) (length lines),
    )

unfoldable pub tail_file_entries :
    FileView → (ℕ → Bool) → ℕ → ℕ → ℕ → Text → Outcome ScanError (List Entry × ℕ × Bool)
unfolding tail_loop select_lines
tail_file_entries file done backfill_lines max_lines max_bytes identifier = do
  fail_if (not file.opens) open_failed
  lines ← tail_loop backfill_lines done 0 (split_after file.content) []
  fail_if file.read_fails scan_failed
  ok (select_lines max_lines max_bytes identifier lines)

-- The last `n` elements.
abbrev pub take_last {ℓ} : {A : Type ℓ} → ℕ → List A → List A
take_last n xs = drop (length xs - n) xs

-- What a tail of the file can see: the lines that are left in the window.
abbrev pub file_lines : FileView → List LineInfo
file_lines file = map line_info (split_after file.content)
