-- ===== src/Config/Restart.antt =====
-- `Load`, where the environment only names the file of the configuration.
use noderax_agent.Prelude.{
  ◌≡◌, sym, ap, ◌∙◌, subst, false, [], if◌then◌else◌, Text, codes, is_empty, text_eq, trim_left,
  trim_right, trim_space, Outcome, ok, ◌>>=◌,
}
use noderax_agent.Config.Types.{Config, default_config, ConfigError, Disk, ConfigHost, is_blank}
use noderax_agent.Config.Merge.{apply_fields, merge_config_file}
use noderax_agent.Config.Env.{
  first_env, override_strings, override_flags, override_durations, override_numbers, fix_paths,
  merge_env,
}
use noderax_agent.Config.Load.{checked, normalize, load, detect_config_file, save_file, file_config}
use noderax_agent.Config.RoundTrip.{
  ReadsDurations, IsSettled, lookup-save_file, apply_durations-file_config, fields_kept,
  IsSettled-NotEmpty, checked_settled,
}

abbrev pub config_file_key : Text
config_file_key = codes "NODERAX_CONFIG_FILE"

-- An environment with one variable.
unfoldable pub only_config_file : Text → Text → Text
only_config_file path key = if text_eq key config_file_key then path else []

module _ (h : ConfigHost) (path : Text) (env : h.getenv ≡ only_config_file path) where
  merge_env_quiet : (c : Config) → fix_paths h c ≡ c → merge_env h c ≡ ok c
  unfolding merge_env override_strings override_flags override_durations override_numbers fix_paths
      first_env only_config_file text_eq trim_space trim_left trim_right
  merge_env_quiet c fixed =
      subst (λ (g : Text → Text). merge_env (record h { getenv = g }) c ≡ ok c) (sym env)
        (ap ok fixed)

  detect_config_file_quiet :
      (disk : Disk) → is_blank path ≡ false → detect_config_file h disk ≡ trim_space path
  unfolding detect_config_file only_config_file text_eq
  detect_config_file_quiet disk given =
      subst
        (λ (g : Text → Text). detect_config_file (record h { getenv = g }) disk ≡ trim_space path)
        (sym env) (rw given)

-- Where the environment only names the file, `Load` returns the settled configuration that was saved
-- there, as `LoadFile` does. The path has no space around it, and the paths of the configuration are
-- clean and end in a slash where they must.
pub load-save_file :
    (h : ConfigHost) (path : Text) (c : Config) (disk after : Disk)
    → ReadsDurations h
    → IsSettled h c
    → h.getenv ≡ only_config_file path
    → is_empty path ≡ false
    → trim_space path ≡ path
    → fix_paths h c ≡ c
    → save_file h path c disk ≡ (ok tt, after)
    → load h after ≡ ok (record c { config_file = path })
unfolding load merge_config_file
load-save_file h path c disk after r s env given trimmed fixed saved =
    let blank : is_blank path ≡ false = rw trimmed given in
    let token : trim_space c.ip_info_token ≡ c.ip_info_token =
      (unfold normalize in ap (λ (d : Config). d.ip_info_token) s.is_normal) in
    let kept = fields_kept h c path (IsSettled-NotEmpty h c s) s.trimmed token s.tls_clean in
    let fixed' : fix_paths h (record c { config_file = path }) ≡ record c { config_file = path } =
      (unfold fix_paths in ap (λ (d : Config). record d { config_file = path }) fixed) in
    rw
      (
        detect_config_file_quiet h path env after blank,
        trimmed,
        given,
        lookup-save_file h path c disk after saved,
        apply_durations-file_config h c (apply_fields h (file_config h c) default_config) r,
      )
      (ap (λ (d : Config). merge_env h d >>= checked h) kept
        ∙ ap (λ (o : Outcome ConfigError Config). o >>= checked h)
            (merge_env_quiet h path env (record c { config_file = path }) fixed')
        ∙ checked_settled h c path s)
