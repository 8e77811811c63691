-- ===== src/Config/Merge.antt =====
-- `mergeConfigFile`: what the file of the configuration says over the defaults.
use noderax_agent.Prelude.{
  Option, none, some, if◌then◌else◌, ℤ, Text, codes, is_empty, trim_space, lookup, Outcome, ok, err,
  ◌>>=◌,
}
use noderax_agent.Config.Types.{
  Config, FileConfig, ConfigError, read_failed, decode_failed, parse_failed, ConfigFile, unreadable,
  undecodable, decoded, Disk, ConfigHost, is_blank,
}

-- `if raw.Field != "" { cfg.Field = raw.Field }`, and the same for a pointer.
abbrev pub set_text : Text → Text → Text
set_text target value = if is_empty value then target else value

abbrev pub set_pointer {ℓ} : {A : Type ℓ} → A → Option A → A
set_pointer target none = target
set_pointer target (some value) = value

abbrev pub set_optional {ℓ} : {A : Type ℓ} → Option A → Option A → Option A
set_optional target none = target
set_optional target (some value) = some value

abbrev pub parsed {ℓ} : {A : Type ℓ} → Text → Option A → Outcome ConfigError A
parsed name none = err (parse_failed name)
parsed name (some value) = ok value

unfoldable pub apply_duration : ConfigHost → ℤ → Text → Text → Outcome ConfigError ℤ
apply_duration h target name value =
    if is_blank value then ok target else parsed name (h.parse_duration (trim_space value))

-- The fields whose texts are taken as they are.
unfoldable pub apply_fields : ConfigHost → FileConfig → Config → Config
apply_fields h raw cfg = record cfg {
  api_url = if is_empty raw.api_url then cfg.api_url else trim_space raw.api_url;
  api_tls_ca_file =
      if is_empty raw.api_tls_ca_file
      then cfg.api_tls_ca_file
      else h.clean (trim_space raw.api_tls_ca_file);
  enrollment_token = set_text cfg.enrollment_token raw.enrollment_token;
  node_id = set_text cfg.node_id raw.node_id;
  agent_token = set_text cfg.agent_token raw.agent_token;
  state_file = set_text cfg.state_file raw.state_file;
  log_level = set_text cfg.log_level raw.log_level;
  realtime_enabled = set_pointer cfg.realtime_enabled raw.realtime_enabled;
  realtime_queue_size = set_pointer cfg.realtime_queue_size raw.realtime_queue_size;
  realtime_backoff_jitter = set_pointer cfg.realtime_backoff_jitter raw.realtime_backoff_jitter;
  realtime_namespace = set_text cfg.realtime_namespace raw.realtime_namespace;
  realtime_path = set_text cfg.realtime_path raw.realtime_path;
  location_manual_region = set_text cfg.location_manual_region raw.location_manual_region;
  location_manual_zone = set_text cfg.location_manual_zone raw.location_manual_zone;
  location_manual_latitude = set_optional cfg.location_manual_latitude raw.location_manual_latitude;
  location_manual_longitude =
      set_optional cfg.location_manual_longitude raw.location_manual_longitude;
  location_public_ip_enabled =
      set_pointer cfg.location_public_ip_enabled raw.location_public_ip_enabled;
  ip_info_token =
      if is_empty raw.ip_info_token then cfg.ip_info_token else trim_space raw.ip_info_token;
}

unfoldable pub apply_durations : ConfigHost → FileConfig → Config → Outcome ConfigError Config
unfolding apply_duration
apply_durations h raw cfg = do
  heartbeat ←
      apply_duration h cfg.heartbeat_interval (codes "heartbeat_interval") raw.heartbeat_interval
  metrics ← apply_duration h cfg.metrics_interval (codes "metrics_interval") raw.metrics_interval
  poll ← apply_duration h cfg.task_poll_interval (codes "task_poll_interval") raw.task_poll_interval
  request ← apply_duration h cfg.request_timeout (codes "request_timeout") raw.request_timeout
  task ← apply_duration h cfg.task_timeout (codes "task_timeout") raw.task_timeout
  shutdown ← apply_duration h cfg.shutdown_timeout (codes "shutdown_timeout") raw.shutdown_timeout
  ping ←
      apply_duration h cfg.realtime_ping_interval (codes "realtime_ping_interval")
        raw.realtime_ping_interval
  ok (record cfg {
    heartbeat_interval = heartbeat;
    metrics_interval = metrics;
    task_poll_interval = poll;
    request_timeout = request;
    task_timeout = task;
    shutdown_timeout = shutdown;
    realtime_ping_interval = ping;
  })

abbrev pub read_config_file : Text → Option ConfigFile → Outcome ConfigError FileConfig
read_config_file path none = err (read_failed path)
read_config_file path (some unreadable) = err (read_failed path)
read_config_file path (some undecodable) = err (decode_failed path)
read_config_file path (some (decoded raw)) = ok raw

unfoldable pub merge_config_file : ConfigHost → Disk → Text → Config → Outcome ConfigError Config
unfolding apply_durations
merge_config_file h disk path cfg = do
  raw ← read_config_file path (lookup path disk)
  apply_durations h raw (apply_fields h raw cfg)
