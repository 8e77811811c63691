-- ===== src/Config/RoundTrip.antt =====
-- A configuration that `SaveFile` has written is the one that `LoadFile` reads.
use noderax_agent.Prelude.{
  ◌≡◌, refl, sym, ap, ◌∙◌, subst, ◌⊎◌, inl, inr, Bool, true, false, ◌||◌, Option, none, some, [],
  ◌∷◌, arith, if◌then◌else◌, Bool-cases, ℤ, Text, codes, is_empty, text_eq, text_eq_refl, trim_left,
  trim_right, trim_space, has_prefix, lookup, insert, lookup-insert, Outcome, ok, err,
}
use noderax_agent.Config.Types.{
  Float64, Config, FileConfig, default_config, ConfigFile, decoded, Disk, ConfigHost, is_blank,
}
use noderax_agent.Config.Merge.{
  set_text, set_pointer, set_optional, apply_duration, apply_fields, apply_durations,
  merge_config_file,
}
use noderax_agent.Config.Valid.{IsValid, validate-IsValid}
use noderax_agent.Config.Load.{
  normalize, checked, load_file, file_config, is_encodable, Saved, made, wrote, write_mirror,
  write_config_file, save_file,
}
use noderax_agent.Config.Checks.{validate}

-- `time.ParseDuration` reads what `Duration.String` prints.
pub record ReadsDurations (h : ConfigHost) : Type 0 where
  pub not_blank : (d : ℤ) → is_blank (h.duration_string d) ≡ false
  pub reads : (d : ℤ) → h.parse_duration (trim_space (h.duration_string d)) ≡ some d

-- A configuration as loading leaves it: it is normal and valid, its level of logging is given, and the
-- path of its certificates is clean.
pub record IsSettled (h : ConfigHost) (c : Config) : Type 0 where
  pub is_normal : normalize c ≡ c
  pub trimmed : trim_space c.api_url ≡ c.api_url
  pub is_valid : validate h c ≡ ok tt
  pub level_given : is_empty c.log_level ≡ false
  pub tls_clean :
      (c.api_tls_ca_file ≡ []) ⊎ (h.clean (trim_space c.api_tls_ca_file) ≡ c.api_tls_ca_file)

made-eq-ok :
    (path : Text) (made_it : Outcome Text (Unit {0})) (next : Saved) (disk after : Disk)
    → made path made_it next disk ≡ (ok tt, after)
    → next ≡ (ok tt, after)
made-eq-ok path (ok _) next disk after e = e
made-eq-ok path (err m) next disk after e = cc

wrote-eq-ok :
    (path : Text) (raw : FileConfig) (disk after : Disk) (written : Outcome ConfigFile (Unit {0}))
    → wrote path raw disk written ≡ (ok tt, after)
    → after ≡ insert path (decoded raw) disk
wrote-eq-ok path raw disk after (ok _) e = cc
wrote-eq-ok path raw disk after (err left) e = cc

write_config_file-eq-ok :
    (h : ConfigHost) (path : Text) (raw : FileConfig) (disk after : Disk)
    → write_config_file h path raw disk ≡ (ok tt, after)
    → after ≡ insert path (decoded raw) disk
unfolding write_config_file
write_config_file-eq-ok h path raw disk after e =
    wrote-eq-ok path raw disk after (h.write_file path)
      (made-eq-ok path (h.make_directory path) _ disk after e)

lookup-insert_self :
    (path : Text) (file : ConfigFile) (disk : Disk)
    → lookup path (insert path file disk) ≡ some file
lookup-insert_self path file disk = rw (lookup-insert path path file disk, text_eq_refl path)

-- A mirror has the same content, so it may even stand at the same path.
lookup-write_mirror :
    (h : ConfigHost) (path mirror : Text) (raw : FileConfig) (disk after : Disk)
    → lookup path disk ≡ some (decoded raw)
    → write_mirror h path mirror raw (ok tt, disk) ≡ (ok tt, after)
    → lookup path after ≡ some (decoded raw)
lookup-write_mirror h path mirror raw disk after there e =
    elim (Bool-cases (is_empty mirror || text_eq (h.clean mirror) (h.clean path))) [
      | inl none_due ↦ ground arith
      | inr due ↦
          let wrote_it : write_config_file h (h.clean mirror) raw disk ≡ (ok tt, after) =
            (rw due at e) in
          rw (write_config_file-eq-ok h (h.clean mirror) raw disk after wrote_it)
            (rw (lookup-insert (h.clean mirror) path (decoded raw) disk) (ground arith))
    ]

save_mirrored :
    (h : ConfigHost) (path mirror : Text) (raw : FileConfig) (disk after : Disk) (saved : Saved)
    → saved ≡ write_config_file h path raw disk
    → write_mirror h path mirror raw saved ≡ (ok tt, after)
    → lookup path after ≡ some (decoded raw)
save_mirrored h path mirror raw disk after (err e, d) s w = cc
save_mirrored h path mirror raw disk after (ok tt, d) s w =
    lookup-write_mirror h path mirror raw d after
      (rw (write_config_file-eq-ok h path raw disk d (sym s)) (lookup-insert_self path _ disk)) w

-- What is behind a save that succeeds.
pub lookup-save_file :
    (h : ConfigHost) (path : Text) (c : Config) (disk after : Disk)
    → save_file h path c disk ≡ (ok tt, after)
    → lookup path after ≡ some (decoded (file_config h c))
unfolding save_file
lookup-save_file h path c disk after e = elim (Bool-cases (is_blank path)) [
  | inl blank ↦ absurd (ground arith)
  | inr given ↦ elim (Bool-cases (is_encodable c)) [
    | inl encodes ↦
        save_mirrored h path (trim_space (h.getenv (codes "NODERAX_CONFIG_MIRROR_FILE")))
          (file_config h c) disk after _ refl
          (made-eq-ok path h.make_parent _ disk after (rw (given, encodes) at e))
    | inr refuses ↦
        absurd (cc (made-eq-ok path h.make_parent _ disk after (rw (given, refuses) at e)))
  ]
]

apply_duration-string :
    (h : ConfigHost) (target d : ℤ) (name : Text)
    → ReadsDurations h
    → apply_duration h target name (h.duration_string d) ≡ ok d
unfolding apply_duration
apply_duration-string h target d name r = rw (r.not_blank d, r.reads d)

pub set_durations : Config → Config → Config
set_durations c d = record c {
  heartbeat_interval = d.heartbeat_interval;
  metrics_interval = d.metrics_interval;
  task_poll_interval = d.task_poll_interval;
  request_timeout = d.request_timeout;
  task_timeout = d.task_timeout;
  shutdown_timeout = d.shutdown_timeout;
  realtime_ping_interval = d.realtime_ping_interval;
}

pub apply_durations-file_config :
    (h : ConfigHost) (c target : Config)
    → ReadsDurations h
    → apply_durations h (file_config h c) target ≡ ok (set_durations target c)
unfolding apply_durations file_config set_durations
apply_durations-file_config h c target r = simp (
  apply_duration-string h target.heartbeat_interval c.heartbeat_interval
      (codes "heartbeat_interval") r,
  apply_duration-string h target.metrics_interval c.metrics_interval (codes "metrics_interval") r,
  apply_duration-string h target.task_poll_interval c.task_poll_interval
      (codes "task_poll_interval") r,
  apply_duration-string h target.request_timeout c.request_timeout (codes "request_timeout") r,
  apply_duration-string h target.task_timeout c.task_timeout (codes "task_timeout") r,
  apply_duration-string h target.shutdown_timeout c.shutdown_timeout (codes "shutdown_timeout") r,
  apply_duration-string h target.realtime_ping_interval c.realtime_ping_interval
      (codes "realtime_ping_interval") r,
)

set_empty : (s : Text) → set_text [] s ≡ s
set_empty [] = refl
set_empty (x ∷ s) = refl

set_given : (t s : Text) → is_empty s ≡ false → set_text t s ≡ s
set_given t s h = rw h

pub blank_empty : (s : Text) → is_blank s ≡ false → is_empty s ≡ false
unfolding trim_space trim_left trim_right
blank_empty [] h = cc
blank_empty (x ∷ s) h = refl

set_pointer-flag : (b : Bool) → set_pointer false (if b then some true else none) ≡ b
set_pointer-flag true = refl
set_pointer-flag false = refl

trimmed_empty : (s : Text) → trim_space s ≡ s → (if is_empty s then [] else trim_space s) ≡ s
trimmed_empty [] h = refl
trimmed_empty (x ∷ s) h = h

set_optional-none : (o : Option Float64) → set_optional none o ≡ o
set_optional-none none = refl
set_optional-none (some x) = refl

tls_kept :
    (h : ConfigHost) (s : Text)
    → (s ≡ []) ⊎ (h.clean (trim_space s) ≡ s)
    → (if is_empty s then [] else h.clean (trim_space s)) ≡ s
tls_kept h [] e = refl
tls_kept h (x ∷ s) (inl e) = cc
tls_kept h (x ∷ s) (inr e) = e

pub record NotEmpty (c : Config) : Type 0 where
  namespace : is_empty c.realtime_namespace ≡ false
  path : is_empty c.realtime_path ≡ false
  state : is_empty c.state_file ≡ false
  level : is_empty c.log_level ≡ false

-- The file's fields over the defaults are those of the configuration.
pub fields_kept :
    (h : ConfigHost) (c : Config) (path : Text)
    → NotEmpty c
    → trim_space c.api_url ≡ c.api_url
    → trim_space c.ip_info_token ≡ c.ip_info_token
    → (c.api_tls_ca_file ≡ []) ⊎ (h.clean (trim_space c.api_tls_ca_file) ≡ c.api_tls_ca_file)
    → record (set_durations (apply_fields h (file_config h c) default_config) c) {
      config_file = path;
    }
      ≡ record c { config_file = path }
unfolding apply_fields file_config set_durations default_config
fields_kept h c path n url token tls = simp (
  n.namespace,
  n.path,
  n.state,
  n.level,
  trimmed_empty c.api_url url,
  trimmed_empty c.ip_info_token token,
  tls_kept h c.api_tls_ca_file tls,
  set_empty,
  set_pointer-flag,
  set_optional-none,
)

has_prefix_empty : (s : Text) → has_prefix s (codes "/") ≡ true → is_empty s ≡ false
unfolding has_prefix
has_prefix_empty [] h = cc
has_prefix_empty (x ∷ s) h = refl

pub IsSettled-NotEmpty : (h : ConfigHost) (c : Config) → IsSettled h c → NotEmpty c
IsSettled-NotEmpty h c s =
    let v : IsValid h c =
      subst (IsValid h) s.is_normal (validate-IsValid h c (rw s.is_normal s.is_valid)) in
    record {
      namespace = has_prefix_empty c.realtime_namespace v.namespace;
      path = has_prefix_empty c.realtime_path v.path;
      state = blank_empty c.state_file v.state;
      level = s.level_given;
    }

pub checked_settled :
    (h : ConfigHost) (c : Config) (path : Text)
    → IsSettled h c
    → checked h (record c { config_file = path }) ≡ ok (record c { config_file = path })
unfolding validate
checked_settled h c path s =
    let same : normalize (record c { config_file = path }) ≡ record c { config_file = path } =
      (unfold normalize in ap (λ (d : Config). record d { config_file = path }) s.is_normal) in
    rw (same, s.is_valid)

-- On a host that reads the durations it prints, a settled configuration that was saved, with or
-- without a mirror, is what `LoadFile` then returns for its path, with that path as its file.
pub load_file-save_file :
    (h : ConfigHost) (path : Text) (c : Config) (disk after : Disk)
    → ReadsDurations h
    → IsSettled h c
    → save_file h path c disk ≡ (ok tt, after)
    → load_file h after path ≡ ok (record c { config_file = path })
unfolding load_file merge_config_file
load_file-save_file h path c disk after r s saved =
    let token : trim_space c.ip_info_token ≡ c.ip_info_token =
      (unfold normalize in ap (λ (d : Config). d.ip_info_token) s.is_normal) in
    let kept = fields_kept h c path (IsSettled-NotEmpty h c s) s.trimmed token s.tls_clean in
    rw
      (
        lookup-save_file h path c disk after saved,
        apply_durations-file_config h c (apply_fields h (file_config h c) default_config) r,
      )
      (ap (checked h) kept ∙ checked_settled h c path s)
