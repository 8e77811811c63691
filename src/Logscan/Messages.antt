-- ===== src/Logscan/Messages.antt =====
-- The size of the messages that a scan returns.
use noderax_agent.Prelude.{
  ℕ, ◌+◌, ◌≤◌, ◌≡◌, Bool, List, [], ◌∷◌, ◌++◌, arith, length, Text, trim_right,
}
use noderax_agent.Logscan.Types.{Entry}

unfoldable pub message_size : List Entry → ℕ
message_size [] = 0
message_size (e ∷ es) = length e.message + message_size es

pub message_size-append :
    (es es' : List Entry) → message_size (es ++ es') ≡ message_size es + message_size es'
unfolding message_size
message_size-append [] es' = omega arith
message_size-append (e ∷ es) es' = omega (arith, message_size-append es es')

pub length-trim_right : (p : ℕ → Bool) (s : Text) → length (trim_right p s) ≤ length s
unfolding trim_right
length-trim_right p [] = omega arith
length-trim_right p (c ∷ s) = ground (arith, length-trim_right p s)
