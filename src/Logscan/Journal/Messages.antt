-- ===== src/Logscan/Journal/Messages.antt =====
-- The messages of a scan of the journal are no longer than its lines.
use noderax_agent.Prelude.{
  ℕ, ◌+◌, ◌≤◌, ◌≡◌, refl, inl, inr, Bool-cases, List, [], ◌∷◌, ◌++◌, arith, length, Text, codes,
  is_empty, trim_space, Outcome, ok, err,
}
use noderax_agent.Logscan.Types.{Entry, Preset}
use noderax_agent.Logscan.Lines.{Bytes, token}
use noderax_agent.Logscan.Messages.{message_size, message_size-append}
use noderax_agent.Logscan.Journal.{
  Codec, JsonObject, string_field, parse_payload, parse_journal_entry,
}
use noderax_agent.Logscan.Journal.Outputs.{parsed}
use noderax_agent.Logscan.Journal.Parts.{entry_of, size_of, entries_of, sizes_of}

-- Package encoding/json: the message of a decoded line has no more runes than the line has bytes.
abbrev pub MessagesFit : Codec → Type 0
MessagesFit codec =
    (line : Bytes) (payload : JsonObject)
    → codec.unmarshal line ≡ ok payload
    → length (string_field (codes "MESSAGE") payload) ≤ length line

module _ (codec : Codec) (preset : Preset) where
  parse_payload-fits :
      (payload : JsonObject) (n : ℕ)
      → length (string_field (codes "MESSAGE") payload) ≤ n
      → message_size (entry_of (parse_payload codec preset payload))
        ≤ size_of (n + 1) (parse_payload codec preset payload)
  unfolding parse_payload entry_of size_of message_size
  parse_payload-fits payload n h =
      elim (Bool-cases (is_empty (trim_space (string_field (codes "MESSAGE") payload)))) [
        | inl missing ↦ rw missing (omega arith)
        | inr given ↦ rw given (omega (arith, h))
      ]

  parsed-fits :
      (c : Bytes)
      → MessagesFit codec
      → message_size (entry_of (parsed codec preset c))
        ≤ size_of (length (token c) + 1) (parsed codec preset c)
  unfolding parse_journal_entry
  parsed-fits c fit = by_decoded (codec.unmarshal (token c)) (λ payload e. fit (token c) payload e)
    where
      by_decoded :
          (o : Outcome Text JsonObject)
          → ((payload : JsonObject)
              → o ≡ ok payload
              → length (string_field (codes "MESSAGE") payload) ≤ length (token c))
          → let p : Outcome Text (Entry × Text) = elim o [
            | err e ↦ err (codes "journal entry parse failed: " ++ e)
            | ok payload ↦ parse_payload codec preset payload
          ] in
            message_size (entry_of p) ≤ size_of (length (token c) + 1) p
      by_decoded (err e) h = unfold entry_of size_of message_size in omega arith
      by_decoded (ok payload) h = parse_payload-fits payload (length (token c)) (h payload refl)

  pub message_size-entries_of :
      (cs : List Bytes)
      → MessagesFit codec
      → message_size (entries_of codec preset cs) ≤ sizes_of codec preset cs
  unfolding entries_of sizes_of message_size
  message_size-entries_of [] fit = omega arith
  message_size-entries_of (c ∷ cs) fit = omega (
    arith,
    message_size-append (entry_of (parsed codec preset c)) (entries_of codec preset cs),
    parsed-fits c fit,
    message_size-entries_of cs fit,
  )
