-- ===== src/Config/Env.antt =====
-- `mergeEnv`: what the environment says of the configuration.
use noderax_agent.Prelude.{
  Bool, true, false, ◌||◌, Option, none, some, List, [], ◌∷◌, ◌++◌, if◌then◌else◌, ℤ, Text, codes,
  is_empty, text_eq, trim_space, has_prefix, parse_int64, Outcome, ok, ◌>>=◌,
}
use noderax_agent.Config.Types.{Float64, Config, ConfigError, ConfigHost}
use noderax_agent.Config.Merge.{apply_duration, parsed, set_text}

-- The first key whose value is not blank, with its trimmed value, or the empty text.
unfoldable pub first_env : ConfigHost → List Text → Text × Text
first_env h [] = ([], [])
first_env h (key ∷ keys) =
    let value = trim_space (h.getenv key) in
    if is_empty value then first_env h keys else (key, value)

-- `overrideString`, `overrideStringAny` and the others: one key is a list of one.
abbrev pub override_string : ConfigHost → Text → List Text → Text
override_string h target keys = set_text target (first_env h keys).1

abbrev pub override_duration : ConfigHost → ℤ → List Text → Outcome ConfigError ℤ
override_duration h target keys =
    let (key, value) = first_env h keys in
    if is_empty value then ok target else apply_duration h target key value

abbrev pub override_with {ℓ} :
    {A : Type ℓ} → ConfigHost → (Text → Option A) → A → List Text → Outcome ConfigError A
override_with h parse target keys =
    let (key, value) = first_env h keys in
    if is_empty value then ok target else parsed key (parse value)

-- `strconv.ParseBool`.
unfoldable pub parse_bool : Text → Option Bool
parse_bool s =
    if text_eq s (codes "1")
      || text_eq s (codes "t")
      || text_eq s (codes "T")
      || text_eq s (codes "TRUE")
      || text_eq s (codes "true")
      || text_eq s (codes "True")
    then some true
    else if text_eq s (codes "0")
        || text_eq s (codes "f")
        || text_eq s (codes "F")
        || text_eq s (codes "FALSE")
        || text_eq s (codes "false")
        || text_eq s (codes "False")
    then some false
    else none

abbrev pub parse_float_pointer : ConfigHost → Text → Option (Option Float64)
parse_float_pointer h s = elim (h.parse_float s) [ none ↦ none | some x ↦ some (some x) ]

abbrev pub keys2 : Text → Text → List Text
keys2 first second = first ∷ second ∷ []

unfoldable pub override_strings : ConfigHost → Config → Config
unfolding first_env
override_strings h cfg = record cfg {
  api_url = override_string h cfg.api_url (keys2 (codes "NODERAX_API_URL") (codes "API_URL"));
  api_tls_ca_file =
      override_string h cfg.api_tls_ca_file
        (keys2 (codes "NODERAX_API_TLS_CA_FILE") (codes "API_TLS_CA_FILE"));
  enrollment_token = override_string h cfg.enrollment_token (codes "ENROLLMENT_TOKEN" ∷ []);
  node_id = override_string h cfg.node_id (codes "NODE_ID" ∷ []);
  agent_token = override_string h cfg.agent_token (codes "AGENT_TOKEN" ∷ []);
  state_file = override_string h cfg.state_file (codes "STATE_FILE" ∷ []);
  log_level = override_string h cfg.log_level (codes "LOG_LEVEL" ∷ []);
  realtime_namespace =
      override_string h cfg.realtime_namespace
        (keys2 (codes "NODERAX_REALTIME_NAMESPACE") (codes "REALTIME_NAMESPACE"));
  realtime_path =
      override_string h cfg.realtime_path
        (keys2 (codes "NODERAX_REALTIME_PATH") (codes "REALTIME_PATH"));
  location_manual_region =
      override_string h cfg.location_manual_region
        (keys2 (codes "NODERAX_LOCATION_MANUAL_REGION") (codes "LOCATION_MANUAL_REGION"));
  location_manual_zone =
      override_string h cfg.location_manual_zone
        (keys2 (codes "NODERAX_LOCATION_MANUAL_ZONE") (codes "LOCATION_MANUAL_ZONE"));
  ip_info_token =
      override_string h cfg.ip_info_token
        (keys2 (codes "NODERAX_IPINFO_TOKEN") (codes "IPINFO_TOKEN"));
}

unfoldable pub override_flags : ConfigHost → Config → Outcome ConfigError Config
unfolding first_env
override_flags h cfg = do
  enabled ← override_with h parse_bool cfg.realtime_enabled (codes "REALTIME_ENABLED" ∷ [])
  public_ip ←
      override_with h parse_bool cfg.location_public_ip_enabled
        (keys2 (codes "NODERAX_LOCATION_PUBLIC_IP_ENABLED") (codes "LOCATION_PUBLIC_IP_ENABLED"))
  latitude ←
      override_with h (parse_float_pointer h) cfg.location_manual_latitude
        (keys2 (codes "NODERAX_LOCATION_MANUAL_LATITUDE") (codes "LOCATION_MANUAL_LATITUDE"))
  longitude ←
      override_with h (parse_float_pointer h) cfg.location_manual_longitude
        (keys2 (codes "NODERAX_LOCATION_MANUAL_LONGITUDE") (codes "LOCATION_MANUAL_LONGITUDE"))
  ok (record cfg {
    realtime_enabled = enabled;
    location_public_ip_enabled = public_ip;
    location_manual_latitude = latitude;
    location_manual_longitude = longitude;
  })

unfoldable pub override_durations : ConfigHost → Config → Outcome ConfigError Config
unfolding first_env apply_duration
override_durations h cfg = do
  heartbeat ← override_duration h cfg.heartbeat_interval (codes "HEARTBEAT_INTERVAL" ∷ [])
  metrics ←
      override_duration h cfg.metrics_interval
        (keys2 (codes "NODERAX_REALTIME_METRICS_INTERVAL") (codes "METRICS_INTERVAL"))
  poll ← override_duration h cfg.task_poll_interval (codes "TASK_POLL_INTERVAL" ∷ [])
  request ← override_duration h cfg.request_timeout (codes "REQUEST_TIMEOUT" ∷ [])
  task ← override_duration h cfg.task_timeout (codes "TASK_TIMEOUT" ∷ [])
  shutdown ← override_duration h cfg.shutdown_timeout (codes "SHUTDOWN_TIMEOUT" ∷ [])
  ping ←
      override_duration h cfg.realtime_ping_interval
        (keys2 (codes "NODERAX_REALTIME_PING_INTERVAL") (codes "REALTIME_PING_INTERVAL"))
  ok (record cfg {
    heartbeat_interval = heartbeat;
    metrics_interval = metrics;
    task_poll_interval = poll;
    request_timeout = request;
    task_timeout = task;
    shutdown_timeout = shutdown;
    realtime_ping_interval = ping;
  })

-- `strconv.Atoi`, to an int of 64 bits, and `strconv.ParseFloat`.
unfoldable pub override_numbers : ConfigHost → Config → Outcome ConfigError Config
unfolding first_env
override_numbers h cfg = do
  queue_size ←
      override_with h parse_int64 cfg.realtime_queue_size (codes "REALTIME_QUEUE_SIZE" ∷ [])
  jitter ←
      override_with h h.parse_float cfg.realtime_backoff_jitter
        (codes "REALTIME_BACKOFF_JITTER" ∷ [])
  ok (record cfg { realtime_queue_size = queue_size; realtime_backoff_jitter = jitter })

-- `strings.HasSuffix(s, "/")`.
unfoldable pub ends_in_slash : Text → Bool
ends_in_slash [] = false
ends_in_slash (c ∷ []) = text_eq (c ∷ []) (codes "/")
ends_in_slash (c ∷ d ∷ s) = ends_in_slash (d ∷ s)

unfoldable pub with_leading_slash : Text → Text
with_leading_slash s = if has_prefix s (codes "/") then s else codes "/" ++ s

unfoldable pub with_last_slash : Text → Text
unfolding ends_in_slash
with_last_slash s = if ends_in_slash s then s else s ++ codes "/"

abbrev pub unless_empty : (Text → Text) → Text → Text
unless_empty f s = if is_empty s then s else f s

-- The end of `mergeEnv`.
unfoldable pub fix_paths : ConfigHost → Config → Config
unfolding with_leading_slash with_last_slash
fix_paths h cfg = record cfg {
  state_file = unless_empty h.clean cfg.state_file;
  api_tls_ca_file = unless_empty h.clean cfg.api_tls_ca_file;
  realtime_namespace = unless_empty with_leading_slash cfg.realtime_namespace;
  realtime_path =
      unless_empty (λ path. with_last_slash (with_leading_slash path)) cfg.realtime_path;
}

unfoldable pub merge_env : ConfigHost → Config → Outcome ConfigError Config
unfolding override_strings override_flags override_durations override_numbers fix_paths
merge_env h cfg = do
  flagged ← override_flags h (override_strings h cfg)
  timed ← override_durations h flagged
  numbered ← override_numbers h timed
  ok (fix_paths h numbered)
