-- ===== src/Agent/Identity.antt =====
-- identity.go: the identity of the agent and its file; and `persistIdentity` of enrollment.go.
use noderax_agent.Prelude.{Bool, not, ◌&&◌, if◌then◌else◌, [], Text, is_empty, Outcome, ok, err}
use noderax_agent.Config.Types.{Config, ConfigHost, Disk, is_blank}
use noderax_agent.Config.Load.{save_file}

-- The time of the registration is a text, empty where there is none.
pub record Identity : Type 0 where
  pub node_id : Text
  pub agent_token : Text
  pub registered_at : Text

unfoldable pub is_ready : Identity → Bool
is_ready i = not (is_empty i.node_id) && not (is_empty i.agent_token)

-- The state file: absent, not readable, not the JSON of an identity, or the JSON of one.
pub data IdentityFile : Type 0 where
  missing : IdentityFile
  unreadable undecodable : Text → IdentityFile
  holds : Identity → IdentityFile

pub data IdentityError : Type 0 where
  identity_not_found : IdentityError
  read_failed decode_failed : Text → IdentityError

unfoldable pub load_identity : IdentityFile → Outcome IdentityError Identity
load_identity missing = err identity_not_found
load_identity (unreadable e) = err (read_failed e)
load_identity (undecodable e) = err (decode_failed e)
load_identity (holds i) = ok i

-- What `Save` sees of the host. A write that fails leaves some file behind.
pub record IdentityHost : Type 0 where
  pub make_directory : Outcome Text (Unit {0})
  pub write_file : Outcome (Text × IdentityFile) (Unit {0})

-- The files that the agent writes.
pub record Files : Type 0 where
  pub identity_file : IdentityFile
  pub configs : Disk

unfoldable pub written :
    Identity → Outcome (Text × IdentityFile) (Unit {0}) → Files → Outcome Text (Unit {0}) × Files
written i (ok _) files = (ok tt, record files { identity_file = holds i })
written i (err (e, left)) files = (err e, record files { identity_file = left })

abbrev pub made {ℓ} :
    {A : Type ℓ}
    → Outcome Text (Unit {0})
    → Outcome Text (Unit {0}) × A
    → A
    → Outcome Text (Unit {0}) × A
made (err e) next files = (err e, files)
made (ok _) next files = next

-- Behind `json.MarshalIndent`, which encodes every identity.
unfoldable pub save_identity : IdentityHost → Identity → Files → Outcome Text (Unit {0}) × Files
unfolding written
save_identity h i files = made h.make_directory (written i h.write_file files) files

-- The configuration that goes with an identity: the token of the enrollment is used up.
unfoldable pub with_identity : Identity → Config → Config
with_identity i cfg = record cfg {
  enrollment_token = [];
  node_id = i.node_id;
  agent_token = i.agent_token;
}

-- An error of `SaveFile` is logged.
unfoldable pub persist_config : ConfigHost → Config → Identity → Files → Files
unfolding with_identity
persist_config ch cfg i files = if is_blank cfg.config_file then files else record files {
  configs = (save_file ch cfg.config_file (with_identity i cfg) files.configs).1;
}

abbrev pub after_save :
    ConfigHost
    → Config
    → Identity
    → Outcome Text (Unit {0}) × Files
    → Outcome Text (Unit {0}) × Files
after_save ch cfg i (err e, files) = (err e, files)
after_save ch cfg i (ok _, files) = (ok tt, persist_config ch cfg i files)

unfoldable pub persist_identity :
    IdentityHost → ConfigHost → Config → Identity → Files → Outcome Text (Unit {0}) × Files
unfolding persist_config save_identity
persist_identity h ch cfg i files = after_save ch cfg i (save_identity h i files)
