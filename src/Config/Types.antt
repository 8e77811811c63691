-- ===== src/Config/Types.antt =====
-- The data of internal/config/config.go: the configuration, its file, and what a call sees of the host.
use noderax_agent.Prelude.{
  ℕ, ◌+◌, ◌-◌, ◌*◌, ◌^◌, [], Bool, true, false, not, Option, none, List, ℤ, pos, negsuc, ltb_ℤ,
  Text, codes, is_empty, trim_space, Outcome,
}

-- A float64: every finite one is `finite m k`, for m / 2 ^ k.
pub data Float64 : Type 0 where
  nan : Float64
  infinite : Bool → Float64
  finite : ℤ → ℕ → Float64

abbrev scale : ℤ → ℕ → ℤ
scale (pos n) k = pos (n * 2 ^ k)
scale (negsuc n) k = negsuc (n * 2 ^ k + (2 ^ k - 1))

-- `x < c` and `x <= c` for a whole number c; no comparison holds of NaN. The flag of an infinity is
-- set for the negative one.
unfoldable pub float_lt : Float64 → ℤ → Bool
float_lt nan c = false
float_lt (infinite negative) c = negative
float_lt (finite m k) c = ltb_ℤ m (scale c k)

unfoldable pub float_gt : Float64 → ℤ → Bool
float_gt nan c = false
float_gt (infinite negative) c = not negative
float_gt (finite m k) c = ltb_ℤ (scale c k) m

unfoldable pub is_finite : Float64 → Bool
is_finite nan = false
is_finite (infinite negative) = false
is_finite (finite m k) = true

-- Durations are in nanoseconds.
pub record Config : Type 0 where
  pub api_url : Text
  pub api_tls_ca_file : Text
  pub enrollment_token : Text
  pub node_id : Text
  pub agent_token : Text
  pub heartbeat_interval : ℤ
  pub metrics_interval : ℤ
  pub task_poll_interval : ℤ
  pub request_timeout : ℤ
  pub task_timeout : ℤ
  pub shutdown_timeout : ℤ
  pub realtime_enabled : Bool
  pub realtime_ping_interval : ℤ
  pub realtime_queue_size : ℤ
  pub realtime_backoff_jitter : Float64
  pub realtime_namespace : Text
  pub realtime_path : Text
  pub location_manual_region : Text
  pub location_manual_zone : Text
  pub location_manual_latitude : Option Float64
  pub location_manual_longitude : Option Float64
  pub location_public_ip_enabled : Bool
  pub ip_info_token : Text
  pub state_file : Text
  pub config_file : Text
  pub log_level : Text

-- What the JSON of a configuration file decodes to.
pub record FileConfig : Type 0 where
  pub api_url : Text
  pub api_tls_ca_file : Text
  pub enrollment_token : Text
  pub node_id : Text
  pub agent_token : Text
  pub heartbeat_interval : Text
  pub metrics_interval : Text
  pub task_poll_interval : Text
  pub request_timeout : Text
  pub task_timeout : Text
  pub shutdown_timeout : Text
  pub realtime_enabled : Option Bool
  pub realtime_ping_interval : Text
  pub realtime_queue_size : Option ℤ
  pub realtime_backoff_jitter : Option Float64
  pub realtime_namespace : Text
  pub realtime_path : Text
  pub location_manual_region : Text
  pub location_manual_zone : Text
  pub location_manual_latitude : Option Float64
  pub location_manual_longitude : Option Float64
  pub location_public_ip_enabled : Option Bool
  pub ip_info_token : Text
  pub state_file : Text
  pub log_level : Text

abbrev pub seconds : ℕ → ℤ
seconds n = pos (n * 1_000_000_000)

unfoldable pub default_config : Config
default_config = record {
  api_url = [];
  api_tls_ca_file = [];
  enrollment_token = [];
  node_id = [];
  agent_token = [];
  heartbeat_interval = seconds 30;
  metrics_interval = seconds 2;
  task_poll_interval = seconds 15;
  request_timeout = seconds 30;
  task_timeout = seconds 600;
  shutdown_timeout = seconds 20;
  realtime_enabled = true;
  realtime_ping_interval = seconds 2;
  realtime_queue_size = pos 1024;
  realtime_backoff_jitter = finite (pos 3602879701896397) 54;
  realtime_namespace = codes "/agent-realtime";
  realtime_path = codes "/socket.io/";
  location_manual_region = [];
  location_manual_zone = [];
  location_manual_latitude = none;
  location_manual_longitude = none;
  location_public_ip_enabled = false;
  ip_info_token = [];
  state_file = codes "./data/agent_identity.json";
  config_file = [];
  log_level = codes "info";
}

pub data ConfigError : Type 0 where
  read_failed decode_failed write_failed mkdir_failed : Text → ConfigError
  parse_failed : Text → ConfigError
  path_required encode_failed : ConfigError
  api_url_required api_url_invalid api_url_scheme api_url_host tls_ca_invalid : ConfigError
  not_positive : Text → ConfigError
  jitter_range namespace_required namespace_slash path_empty path_slash : ConfigError
  state_file_required region_required coordinates_required : ConfigError
  latitude_range longitude_range : ConfigError

-- A file that is there: what reading and decoding it gives.
pub data ConfigFile : Type 0 where
  unreadable undecodable : ConfigFile
  decoded : FileConfig → ConfigFile

abbrev pub Disk : Type 0
Disk = List (Text × ConfigFile)

-- What a call sees of the host and of the standard library: the environment; whether a directory can be
-- made, for `SaveFile` and then for each file; whether a file can be written, or else what is left of it;
-- whether the file with the certificates is there; the text of durations and floats; `url.Parse`, to the
-- scheme and the host; and `filepath.Clean`.
pub record ConfigHost : Type 0 where
  pub getenv : Text → Text
  pub make_parent : Outcome Text (Unit {0})
  pub make_directory : Text → Outcome Text (Unit {0})
  pub write_file : Text → Outcome ConfigFile (Unit {0})
  pub stat_ca_file : Text → Bool
  pub parse_duration : Text → Option ℤ
  pub duration_string : ℤ → Text
  pub parse_float : Text → Option Float64
  pub parse_url : Text → Option (Text × Text)
  pub clean : Text → Text

abbrev pub is_blank : Text → Bool
is_blank s = is_empty (trim_space s)
