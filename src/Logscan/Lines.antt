-- ===== src/Logscan/Lines.antt =====
-- What the scans use of package bufio: `Scanner` with its default split into lines, and
-- `Reader.ReadBytes('\n')`.
use noderax_agent.Prelude.{
  ℕ, ◌≡◌, refl, Bool, false, ◌&&◌, ◌||◌, List, [], ◌∷◌, ◌++◌, arith, leb, ◌==◌, if◌then◌else◌,
  length, is_empty,
}

abbrev pub Bytes : Type 0
Bytes = List ℕ

-- The longest token, `scanner.Buffer(make([]byte, 0, 64*1024), 1024*1024)`.
abbrev pub max_token : ℕ
max_token = 1048576

-- `ReadBytes('\n')`: the bytes up to and with the newline, and the rest. At the end of the input it
-- returns what is left, with no newline.
unfoldable pub read_bytes : Bytes → Bytes × Bytes
read_bytes [] = ([], [])
read_bytes (c ∷ s) =
    let (chunk, rest) = read_bytes s in if c == b'\n' then (c ∷ [], s) else (c ∷ chunk, rest)

-- The chunk of `ReadBytes` ends in the newline: its error is nil.
unfoldable pub is_terminated : Bytes → Bool
is_terminated [] = false
is_terminated (c ∷ s) = c == b'\n' || is_terminated s

-- All the chunks of an input, each with its newline: the reference for both readers.
push_byte : ℕ → List Bytes → List Bytes
push_byte c [] = (c ∷ []) ∷ []
push_byte c (l ∷ ls) = (c ∷ l) ∷ ls

unfoldable pub split_after : Bytes → List Bytes
unfolding push_byte
split_after [] = []
split_after (c ∷ s) = let ls = split_after s in if c == b'\n' then (c ∷ []) ∷ ls else push_byte c ls

unfoldable pub concat : List Bytes → Bytes
concat [] = []
concat (l ∷ ls) = l ++ concat ls

-- The chunks spell the input.
pub concat-split_after : (s : Bytes) → concat (split_after s) ≡ s
unfolding concat split_after
concat-split_after [] = refl
concat-split_after (c ∷ s) = grind (arith, concat-split_after s)

-- `ReadBytes` takes the first chunk off and leaves the others.
pub split_after-read_bytes :
    (c : ℕ) (s : Bytes)
    → split_after (c ∷ s) ≡ (read_bytes (c ∷ s)).0 ∷ split_after (read_bytes (c ∷ s)).1
unfolding split_after read_bytes
split_after-read_bytes c [] = ground arith
split_after-read_bytes c (d ∷ s) = ground (arith, split_after-read_bytes d s)

-- One byte `b` off the end, if it stands there.
strip_end : ℕ → Bytes → Bytes
strip_end b [] = []
strip_end b (c ∷ s) = if is_empty s && c == b then [] else c ∷ strip_end b s

-- The token of `bufio.ScanLines`: the line without its newline and one carriage return before it.
unfoldable pub token : Bytes → Bytes
unfolding strip_end
token chunk = strip_end b'\r' (strip_end b'\n' chunk)

-- The scanner stops with `ErrTooLong` where a line fills its buffer.
unfoldable pub is_too_long : Bytes → Bool
unfolding strip_end
is_too_long chunk = leb max_token (length (strip_end b'\n' chunk))

-- What the host shows of a file: whether it opens, its bytes, and whether reading past them fails
-- with an error other than the end of the file.
pub record FileView : Type 0 where
  pub opens : Bool
  pub content : Bytes
  pub read_fails : Bool
