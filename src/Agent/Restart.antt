-- ===== src/Agent/Restart.antt =====
-- A start of the agent behind a rotation of its token.
use noderax_agent.Prelude.{
  ◌≡◌, refl, sym, ap, ◌∙◌, inl, inr, true, false, some, List, [], Bool-cases, Text, is_empty,
  trim_space, Outcome, ok, err,
}
use noderax_agent.Config.Types.{Config, ConfigError, ConfigHost, Disk, is_blank}
use noderax_agent.Config.Env.{fix_paths}
use noderax_agent.Config.Load.{load, save_file, normalize}
use noderax_agent.Config.Checks.{validate}
use noderax_agent.Config.RoundTrip.{ReadsDurations, IsSettled}
use noderax_agent.Config.Restart.{only_config_file, load-save_file}
use noderax_agent.Agent.Identity.{
  Identity, is_ready, IdentityFile, holds, IdentityHost, Files, with_identity, persist_config,
  save_identity, made, written, after_save, persist_identity,
}
use noderax_agent.Agent.Enrollment.{Poll}
use noderax_agent.Agent.Service.{
  Agent, new_service, bootstrap_identity, rotate_token, rotated, start,
}
use noderax_agent.Agent.Rotation.{rotated_identity, identity_file-rotate_token}

configs-written :
    (i : Identity) (w : Outcome (Text × IdentityFile) (Unit {0})) (files : Files)
    → (written i w files).1.configs ≡ files.configs
unfolding written
configs-written i (ok _) files = refl
configs-written i (err (m, left)) files = refl

configs-save_identity :
    (h : IdentityHost) (i : Identity) (files : Files)
    → (save_identity h i files).1.configs ≡ files.configs
unfolding save_identity
configs-save_identity h i files = by_directory h.make_directory
  where
    by_directory :
        (o : Outcome Text (Unit {0}))
        → (made o (written i h.write_file files) files).1.configs ≡ files.configs
    by_directory (ok _) = configs-written i h.write_file files
    by_directory (err e) = refl

configs-persist_config :
    (ch : ConfigHost) (cfg : Config) (i : Identity) (files : Files)
    → is_blank cfg.config_file ≡ false
    → (persist_config ch cfg i files).configs
      ≡ (save_file ch cfg.config_file (with_identity i cfg) files.configs).1
unfolding persist_config
configs-persist_config ch cfg i files given = rw given

-- Where the configuration has a file and the identity is stored, what `SaveFile` leaves is there.
configs-rotated :
    (ch : ConfigHost) (cfg : Config) (next : Identity) (a a' : Agent)
    (saved : Outcome Text (Unit {0}) × Files)
    → is_blank cfg.config_file ≡ false
    → saved.1.configs ≡ a.files.configs
    → rotated next a (after_save ch cfg next saved) ≡ (ok tt, a')
    → a'.files.configs ≡ (save_file ch cfg.config_file (with_identity next cfg) a.files.configs).1
configs-rotated ch cfg next a a' (err e, f) given same r = cc
configs-rotated ch cfg next a a' (ok tt, f) given same r =
    let after : persist_config ch cfg next f ≡ a'.files = cc in
    ap (λ (x : Files). x.configs) (sym after)
    ∙ configs-persist_config ch cfg next f given
    ∙ ap (λ (d : Disk). (save_file ch cfg.config_file (with_identity next cfg) d).1) same

configs-rotate_token :
    (h : IdentityHost) (ch : ConfigHost) (cfg : Config) (token : Text) (a a' : Agent)
    → is_blank cfg.config_file ≡ false
    → rotate_token h ch cfg token a ≡ (ok tt, a')
    → (is_ready (rotated_identity token a) ≡ true)
      × (a'.files.configs
          ≡ (save_file ch cfg.config_file
              (with_identity (rotated_identity token a) cfg)
              a.files.configs).1)
unfolding rotate_token persist_identity
configs-rotate_token h ch cfg token a a' given r =
    let next = rotated_identity token a in
    elim (Bool-cases (is_ready next)) [
      | inr incomplete ↦ absurd (cc (rw incomplete at r))
      | inl ready ↦ (
        ready,
        configs-rotated ch cfg next a a' (save_identity h next a.files) given
            (configs-save_identity h next a.files) (rw ready at r),
      )
    ]

IsSettled-with_identity :
    (ch : ConfigHost) (cfg : Config) (i : Identity)
    → IsSettled ch cfg
    → IsSettled ch (with_identity i cfg)
unfolding with_identity normalize validate
IsSettled-with_identity ch cfg i s = record {
  is_normal =
      ap
        (λ (d : Config). record d {
          enrollment_token = [];
          node_id = i.node_id;
          agent_token = i.agent_token;
        })
        s.is_normal;
  trimmed = s.trimmed;
  is_valid = s.is_valid;
  level_given = s.level_given;
  tls_clean = s.tls_clean;
}

-- An identity as a start takes it from the configuration.
abbrev pub agent_of : Identity → Files → Agent
agent_of i files = record {
  identity = record i { registered_at = [] };
  client_node_id = i.node_id;
  client_token = i.agent_token;
  files = files;
}

-- A start takes the identity of the configuration wherever that is ready.
start_from_config :
    (h : IdentityHost) (ch : ConfigHost) (cfg : Config) (polls : List Poll) (files : Files)
    (i : Identity)
    → load ch files.configs ≡ ok cfg
    → cfg.node_id ≡ i.node_id
    → cfg.agent_token ≡ i.agent_token
    → is_ready i ≡ true
    → start h ch polls files ≡ some (ok (agent_of i files))
unfolding start bootstrap_identity new_service is_ready
start_from_config h ch cfg polls files i e n t ready = rw (e, n, t) (rw ready)

-- The configuration of a running agent, as a start found it in its file: what a restart reads back.
pub record IsManaged (ch : ConfigHost) (cfg : Config) : Type 0 where
  pub durations : ReadsDurations ch
  pub settled : IsSettled ch cfg
  pub environment : ch.getenv ≡ only_config_file cfg.config_file
  pub path_given : is_blank cfg.config_file ≡ false
  pub path_trimmed : trim_space cfg.config_file ≡ cfg.config_file
  pub paths_fixed : fix_paths ch cfg ≡ cfg

IsManaged-path :
    (ch : ConfigHost) (cfg : Config) → IsManaged ch cfg → is_empty cfg.config_file ≡ false
IsManaged-path ch cfg m = rw m.path_trimmed at m.path_given

-- Where the environment only names the file of the configuration, and the rotated token is written
-- to it, the next start of the agent holds and sends its identity with the new token.
pub start-rotate_token :
    (h : IdentityHost) (ch : ConfigHost) (cfg : Config) (token : Text) (polls : List Poll)
    (a a' : Agent) (disk : Disk)
    → IsManaged ch cfg
    → save_file ch cfg.config_file (with_identity (rotated_identity token a) cfg) a.files.configs
      ≡ (ok tt, disk)
    → rotate_token h ch cfg token a ≡ (ok tt, a')
    → start h ch polls a'.files ≡ some (ok (agent_of (rotated_identity token a) a'.files))
start-rotate_token h ch cfg token polls a a' disk m saved r =
    let next = rotated_identity token a in
    let cfg' = with_identity next cfg in
    let (ready, configs) = configs-rotate_token h ch cfg token a a' m.path_given r in
    let there : a'.files.configs ≡ disk =
      configs ∙ ap (λ (s : Outcome ConfigError (Unit {0}) × Disk). s.1) saved in
    let fixed : fix_paths ch cfg' ≡ cfg' =
      (unfold fix_paths in
        unfold with_identity in
        ap
          (λ (d : Config). record d {
            enrollment_token = [];
            node_id = next.node_id;
            agent_token = next.agent_token;
          })
          m.paths_fixed) in
    let loaded : load ch disk ≡ ok cfg' =
      (unfold with_identity in
        load-save_file ch cfg.config_file cfg' a.files.configs disk m.durations
          (IsSettled-with_identity ch cfg next m.settled) m.environment (IsManaged-path ch cfg m)
          m.path_trimmed fixed saved) in
    start_from_config h ch cfg' polls a'.files next (ap (load ch) there ∙ loaded)
      (unfold with_identity in refl) (unfold with_identity in refl) ready

-- Where the configuration that a start finds has an identity that is ready, and a rotation succeeds
-- but the configuration is not written, the next start holds and sends the old token, although the
-- new one is in the identity file.
pub start-rotate_token_stale :
    (h : IdentityHost) (ch : ConfigHost) (cfg : Config) (token : Text) (polls : List Poll)
    (a a' : Agent)
    → load ch a.files.configs ≡ ok cfg
    → is_ready (new_service cfg a.files).identity ≡ true
    → rotate_token h ch cfg token a ≡ (ok tt, a')
    → a'.files.configs ≡ a.files.configs
    → (start h ch polls a'.files ≡ some (ok (agent_of (new_service cfg a.files).identity a'.files)))
      × (a'.files.identity_file ≡ holds (rotated_identity token a))
start-rotate_token_stale h ch cfg token polls a a' loaded ready r same = (
  unfold new_service in
      start_from_config h ch cfg polls a'.files (new_service cfg a.files).identity
        (ap (load ch) same ∙ loaded) refl refl ready,
  identity_file-rotate_token h ch cfg token a a' r,
)
