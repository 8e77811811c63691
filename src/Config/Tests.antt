-- ===== src/Config/Tests.antt =====
-- The configuration at concrete inputs.
use noderax_agent.Prelude.{
  ℕ, ◌≡◌, refl, inl, inr, false, Option, none, some, [], ◌∷◌, if◌then◌else◌, Bool-cases, ℤ, pos,
  negsuc, Text, codes, is_empty, is_space, trim_left, trim_right, trim_space, has_prefix, contains,
  text_eq, lookup, insert, ok, err,
}
use noderax_agent.Config.Types.{
  nan, finite, float_lt, float_gt, is_finite, Config, default_config, decoded, Disk, ConfigHost,
  seconds, namespace_slash, encode_failed,
}
use noderax_agent.Config.Merge.{merge_config_file, apply_duration, apply_fields, apply_durations}
use noderax_agent.Config.Env.{
  fix_paths, merge_env, override_strings, override_flags, override_durations, override_numbers,
  first_env, ends_in_slash, with_leading_slash, with_last_slash,
}
use noderax_agent.Config.Load.{
  normalize, normalize_api_url, fit_request_timeout, add_int64, load_file, load, detect_config_file,
  file_config, is_encodable, write_config_file, save_file,
}
use noderax_agent.Config.Checks.{
  validate, validate_intervals, validate_realtime, validate_manual_location,
}
use noderax_agent.Config.Valid.{IsValid, load-IsValid}
use noderax_agent.Config.RoundTrip.{ReadsDurations, IsSettled, load_file-save_file}
use noderax_agent.Config.Restart.{only_config_file}

-- The path of the file of the configuration.
abbrev pub file_path : Text
file_path = codes "/etc/a.json"

-- A duration is one rune behind a sign.
unfoldable pub duration_text : ℤ → Text
duration_text (pos n) = b'+' ∷ n ∷ b's' ∷ []
duration_text (negsuc n) = b'-' ∷ n ∷ b's' ∷ []

trimmed :
    (sign n : ℕ) → is_space sign ≡ false → trim_space (sign ∷ n ∷ b's' ∷ []) ≡ sign ∷ n ∷ b's' ∷ []
unfolding trim_space trim_left trim_right is_space
trimmed sign n h = elim (Bool-cases (is_space n)) [ inl e ↦ simp (e, h) | inr e ↦ simp (e, h) ]

unfoldable pub duration_of : Text → Option ℤ
duration_of [] = none
duration_of (sign ∷ []) = none
duration_of (sign ∷ n ∷ rest) =
    if text_eq (sign ∷ []) (codes "+") then some (pos n) else some (negsuc n)

abbrev pub host : ConfigHost
host = record {
  getenv = only_config_file file_path;
  make_parent = ok tt;
  make_directory = λ path. ok tt;
  write_file = λ path. ok tt;
  stat_ca_file = λ path. false;
  parse_duration = duration_of;
  duration_string = duration_text;
  parse_float = λ s. none;
  parse_url = λ s. some (codes "https", codes "x.io");
  clean = λ s. s;
}

abbrev pub config : Config
config = record default_config {
  api_url = codes "https://x.io";
  node_id = codes "n";
  agent_token = codes "t";
  request_timeout = seconds 40;
  realtime_backoff_jitter = finite (pos 1) 1;
  config_file = file_path;
}

not_blank : (d : ℤ) → is_empty (trim_space (duration_text d)) ≡ false
unfolding duration_text is_space
not_blank (pos n) = rw (trimmed (b'+') n refl) refl
not_blank (negsuc n) = rw (trimmed (b'-') n refl) refl

reads : (d : ℤ) → duration_of (trim_space (duration_text d)) ≡ some d
unfolding duration_text is_space duration_of text_eq
reads (pos n) = rw (trimmed (b'+') n refl) refl
reads (negsuc n) = rw (trimmed (b'-') n refl) refl

pub durations : ReadsDurations host
durations = record { not_blank = not_blank; reads = reads }

pub settled : IsSettled host config
unfolding default_config normalize normalize_api_url fit_request_timeout add_int64 validate
    validate_intervals validate_realtime validate_manual_location float_lt float_gt trim_space
    trim_left trim_right has_prefix text_eq ends_in_slash is_space contains
settled = record {
  is_normal = refl;
  trimmed = refl;
  is_valid = refl;
  level_given = refl;
  tls_clean = inl refl;
}

abbrev saved_disk : Disk
saved_disk = (file_path, decoded (file_config host config)) ∷ []

saved : save_file host file_path config [] ≡ (ok tt, saved_disk)
unfolding save_file write_config_file is_encodable is_finite only_config_file trim_space trim_left
    trim_right is_space text_eq insert default_config
saved = refl

load_file-save_file_example : load_file host saved_disk file_path ≡ ok config
unfolding default_config
load_file-save_file_example =
    load_file-save_file host file_path config [] saved_disk durations settled saved

load-IsValid_example : IsValid host config
load-IsValid_example = load-IsValid host saved_disk config (
    inr
      (file_path, load_file-save_file host file_path config [] saved_disk durations settled saved))

-- A jitter that is no number is valid, but cannot be saved.
abbrev odd_jitter : Config
odd_jitter = record config { realtime_backoff_jitter = nan }

odd_jitter_test :
    (validate host odd_jitter ≡ ok tt)
    × (save_file host file_path odd_jitter [] ≡ (err encode_failed, []))
unfolding default_config validate validate_intervals validate_realtime validate_manual_location
    float_lt float_gt trim_space trim_left trim_right has_prefix text_eq ends_in_slash is_space
    save_file is_encodable is_finite
odd_jitter_test = (refl, refl)

-- `LoadFile` adds no slash to a namespace, and refuses it; `Load` adds it.
abbrev bare_namespace : Disk
bare_namespace =
    (file_path, decoded (record (file_config host config) { realtime_namespace = codes "s" })) ∷ []

bare_namespace_test :
    (load_file host bare_namespace file_path ≡ err namespace_slash)
    × (load host bare_namespace ≡ ok (record config { realtime_namespace = codes "/s" }))
unfolding load_file load merge_config_file apply_fields apply_durations apply_duration merge_env
    override_strings override_flags override_durations override_numbers first_env detect_config_file
    fix_paths with_leading_slash with_last_slash file_config only_config_file default_config
    validate normalize normalize_api_url fit_request_timeout add_int64 validate_intervals
    validate_realtime validate_manual_location float_lt float_gt trim_space trim_left trim_right
    has_prefix text_eq ends_in_slash is_space contains lookup duration_text duration_of
bare_namespace_test = (refl, refl)
