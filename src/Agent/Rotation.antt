-- ===== src/Agent/Rotation.antt =====
-- What a rotation of the token leaves, and what the next start makes of it.
use noderax_agent.Prelude.{
  ◌≡◌, refl, sym, ap, ◌∙◌, subst, inl, inr, true, arith, Bool-cases, Text, trim_space, Outcome, ok,
  err,
}
use noderax_agent.Config.Types.{Config, ConfigHost}
use noderax_agent.Agent.Identity.{
  Identity, is_ready, IdentityFile, holds, IdentityHost, Files, persist_config, save_identity, made,
  written, after_save, persist_identity,
}
use noderax_agent.Agent.Service.{Agent, AgentError, rotate_token, rotated}

-- What a rotation to an identity does: the agent is as it was but for its files, or the identity is
-- held, sent and stored.
pub data Rotates (next : Identity) (a : Agent)
    : Outcome AgentError (Unit {0}) × Agent → Type 0 where
  kept : (e : AgentError) (files : Files) → Rotates next a (err e, record a { files = files })
  taken :
      (a' : Agent)
      → is_ready next ≡ true
      → a'.identity ≡ next
      → a'.client_node_id ≡ next.node_id
      → a'.client_token ≡ next.agent_token
      → a'.files.identity_file ≡ holds next
      → Rotates next a (ok tt, a')

identity_file-persist_config :
    (ch : ConfigHost) (cfg : Config) (i : Identity) (files : Files)
    → (persist_config ch cfg i files).identity_file ≡ files.identity_file
unfolding persist_config
identity_file-persist_config ch cfg i files = ground arith

identity_file-written :
    (i : Identity) (w : Outcome (Text × IdentityFile) (Unit {0})) (files after : Files)
    → written i w files ≡ (ok tt, after)
    → after.identity_file ≡ holds i
unfolding written
identity_file-written i (ok _) files after e = cc
identity_file-written i (err (m, left)) files after e = cc

identity_file-made :
    (i : Identity) (made_it : Outcome Text (Unit {0})) (next : Outcome Text (Unit {0}) × Files)
    (files after : Files)
    → made made_it next files ≡ (ok tt, after)
    → next ≡ (ok tt, after)
identity_file-made i (ok _) next files after e = e
identity_file-made i (err m) next files after e = cc

identity_file-save_identity :
    (h : IdentityHost) (i : Identity) (files after : Files)
    → save_identity h i files ≡ (ok tt, after)
    → after.identity_file ≡ holds i
unfolding save_identity
identity_file-save_identity h i files after e =
    identity_file-written i h.write_file files after
      (identity_file-made i h.make_directory _ files after e)

identity_file-after_save :
    (ch : ConfigHost) (cfg : Config) (i : Identity) (saved : Outcome Text (Unit {0}) × Files)
    (after : Files)
    → ((f : Files) → saved ≡ (ok tt, f) → f.identity_file ≡ holds i)
    → after_save ch cfg i saved ≡ (ok tt, after)
    → after.identity_file ≡ holds i
identity_file-after_save ch cfg i (err e, f) after stored h = cc
identity_file-after_save ch cfg i (ok tt, f) after stored h =
    let same : persist_config ch cfg i f ≡ after = cc in
    ap (λ (x : Files). x.identity_file) (sym same)
    ∙ identity_file-persist_config ch cfg i f
    ∙ stored f refl

-- An identity that is persisted is in its file, whatever becomes of the configuration.
pub identity_file-persist_identity :
    (h : IdentityHost) (ch : ConfigHost) (cfg : Config) (i : Identity) (files after : Files)
    → persist_identity h ch cfg i files ≡ (ok tt, after)
    → after.identity_file ≡ holds i
unfolding persist_identity
identity_file-persist_identity h ch cfg i files after e =
    identity_file-after_save ch cfg i (save_identity h i files) after
      (identity_file-save_identity h i files) e

abbrev pub rotated_identity : Text → Agent → Identity
rotated_identity token a = record (a.identity) { agent_token = trim_space token }

rotated-Rotates :
    (next : Identity) (a : Agent) (saved : Outcome Text (Unit {0}) × Files)
    → is_ready next ≡ true
    → ((after : Files) → saved ≡ (ok tt, after) → after.identity_file ≡ holds next)
    → Rotates next a (rotated next a saved)
rotated-Rotates next a (err e, files) ready stored = kept _ files
rotated-Rotates next a (ok tt, files) ready stored =
    taken _ ready refl refl refl (stored files refl)

-- A rotation of the token, on any host, either returns an error and leaves the identity that the agent
-- holds and sends as it was, or succeeds, and then the agent holds, sends and has stored its identity
-- with the new token, trimmed, which is not empty.
pub rotate_token-Rotates :
    (h : IdentityHost) (ch : ConfigHost) (cfg : Config) (token : Text) (a : Agent)
    → Rotates (rotated_identity token a) a (rotate_token h ch cfg token a)
unfolding rotate_token
rotate_token-Rotates h ch cfg token a =
    let next = rotated_identity token a in
    elim (Bool-cases (is_ready next)) [
      | inr incomplete ↦ rw incomplete (kept _ a.files)
      | inl ready ↦ rw ready (
          rotated-Rotates next a (persist_identity h ch cfg next a.files) ready
            (identity_file-persist_identity h ch cfg next a.files))
    ]

pub identity_file-rotate_token :
    (h : IdentityHost) (ch : ConfigHost) (cfg : Config) (token : Text) (a a' : Agent)
    → rotate_token h ch cfg token a ≡ (ok tt, a')
    → a'.files.identity_file ≡ holds (rotated_identity token a)
identity_file-rotate_token h ch cfg token a a' r =
    of_taken
      (subst (Rotates (rotated_identity token a) a) r (rotate_token-Rotates h ch cfg token a))
  where
    of_taken :
        Rotates (rotated_identity token a) a (ok tt, a')
        → a'.files.identity_file ≡ holds (rotated_identity token a)
    of_taken (taken _ ready i n t f) = f

pub identity-rotate_token :
    (h : IdentityHost) (ch : ConfigHost) (cfg : Config) (token : Text) (a a' : Agent)
    → rotate_token h ch cfg token a ≡ (ok tt, a')
    → a'.identity ≡ rotated_identity token a
identity-rotate_token h ch cfg token a a' r =
    of_taken
      (subst (Rotates (rotated_identity token a) a) r (rotate_token-Rotates h ch cfg token a))
  where
    of_taken :
        Rotates (rotated_identity token a) a (ok tt, a') → a'.identity ≡ rotated_identity token a
    of_taken (taken _ ready i n t f) = i
