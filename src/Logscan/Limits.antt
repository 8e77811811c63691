-- ===== src/Logscan/Limits.antt =====
-- `normalizeLimits` and `clamp`.
use noderax_agent.Prelude.{
  ℕ, ℤ, pos, ◌≤◌, ◌≡◌, arith, pos_part, ◌≤ℤ◌, ltb_ℤ, leb_ℤ, if◌then◌else◌, ◌==◌, Bool, false,
}
use noderax_agent.Logscan.Types.{Limits}

abbrev pub default_max_lines : ℕ
default_max_lines = 500

abbrev pub default_max_bytes : ℕ
default_max_bytes = 65536

abbrev pub default_backfill_lines : ℕ
default_backfill_lines = 200

abbrev pub hard_max_lines : ℕ
hard_max_lines = 2000

abbrev pub hard_max_bytes : ℕ
hard_max_bytes = 262144

abbrev pub hard_backfill_lines : ℕ
hard_backfill_lines = 500

abbrev is_zero : ℤ → Bool
is_zero (pos n) = n == 0
is_zero _ = false

unfoldable pub clamp : ℤ → ℤ → ℤ → ℤ → ℤ
clamp value min_value max_value default_value =
    let v = if is_zero value then default_value else value in
    if ltb_ℤ v min_value then min_value else if ltb_ℤ max_value v then max_value else v

-- The limits in force. They are at least 1 (`normalize_limits_bounds`), so numbers hold them.
pub record NormalizedLimits : Type 0 where
  pub max_lines : ℕ
  pub max_bytes : ℕ
  pub backfill_lines : ℕ

unfoldable pub normalize_limits : Limits → ℤ → NormalizedLimits
unfolding clamp
normalize_limits input default_backfill =
    let backfill_default =
      if leb_ℤ default_backfill (pos 0) then pos default_backfill_lines else default_backfill in
    record {
      max_lines =
          pos_part (clamp input.max_lines (pos 1) (pos hard_max_lines) (pos default_max_lines));
      max_bytes =
          pos_part (clamp input.max_bytes (pos 1) (pos hard_max_bytes) (pos default_max_bytes));
      backfill_lines =
          pos_part (clamp input.backfill_lines (pos 1) (pos hard_backfill_lines) backfill_default);
    }

-- `clamp` lands between its bounds, whatever the value and the default.
pub clamp_bounds : (v lo hi d : ℤ) → lo ≤ℤ hi → (lo ≤ℤ clamp v lo hi d) × (clamp v lo hi d ≤ℤ hi)
unfolding clamp
clamp_bounds v lo hi d h = ground arith

pub record InLimits (l : NormalizedLimits) : Type 0 where
  pub lines_pos : 1 ≤ l.max_lines
  pub lines_cap : l.max_lines ≤ hard_max_lines
  pub bytes_pos : 1 ≤ l.max_bytes
  pub bytes_cap : l.max_bytes ≤ hard_max_bytes
  pub backfill_pos : 1 ≤ l.backfill_lines
  pub backfill_cap : l.backfill_lines ≤ hard_backfill_lines

-- Every request, negative or huge limits included, is scanned under limits from 1 to the hard caps.
pub normalize_limits_bounds :
    (input : Limits) (default_backfill : ℤ) → InLimits (normalize_limits input default_backfill)
unfolding normalize_limits
normalize_limits_bounds input b = record {
  lines_pos = ground arith;
  lines_cap = ground arith;
  bytes_pos = ground arith;
  bytes_cap = ground arith;
  backfill_pos = ground arith;
  backfill_cap = ground arith;
}

-- Limits that are already within the caps are taken as they are.
pub normalize_limits_keeps :
    (l : NormalizedLimits) (default_backfill : ℤ)
    → InLimits l
    → normalize_limits
        (record {
          max_lines = pos l.max_lines;
          max_bytes = pos l.max_bytes;
          backfill_lines = pos l.backfill_lines;
        })
        default_backfill
      ≡ l
unfolding normalize_limits
normalize_limits_keeps l b h = ground arith
