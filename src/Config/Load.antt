-- ===== src/Config/Load.antt =====
-- `Load`, `LoadFile`, `SaveFile` and `normalize`.
use noderax_agent.Prelude.{
  ℕ, ◌+◌, ◌-◌, ◌^◌, Bool, true, ◌&&◌, ◌||◌, Option, none, some, List, [], ◌∷◌, ◌++◌, ltb, ◌==◌,
  if◌then◌else◌, ℤ, pos, negsuc, leb_ℤ, Text, codes, is_empty, text_eq, trim_right, trim_space,
  contains, lookup, insert, Outcome, ok, err, ◌>>=◌, ◌>>◌,
}
use noderax_agent.Config.Types.{
  Float64, is_finite, Config, FileConfig, default_config, ConfigError, path_required, encode_failed,
  write_failed, mkdir_failed, ConfigFile, decoded, Disk, ConfigHost, is_blank,
}
use noderax_agent.Config.Merge.{merge_config_file}
use noderax_agent.Config.Env.{merge_env}
use noderax_agent.Config.Checks.{validate}

-- `strings.TrimRight(s, "/")`.
abbrev pub trim_slashes : Text → Text
trim_slashes s = trim_right (λ c. c == b'/') s

unfoldable pub normalize_api_url : Text → Text
normalize_api_url raw =
    let value = trim_space raw in
    if is_empty value
    then []
    else if contains value (codes "://")
    then trim_slashes value
    else trim_slashes (codes "https://" ++ value)

-- The sum of two int64 that are not negative: it wraps around to a negative one.
unfoldable pub add_int64 : ℕ → ℕ → ℤ
add_int64 a b = if ltb (a + b) (2 ^ 63) then pos (a + b) else negsuc (2 ^ 64 - (a + b) - 1)

-- A request may last longer than a long poll for a task.
unfoldable pub fit_request_timeout : ℤ → ℤ → ℤ
unfolding add_int64
fit_request_timeout (negsuc n) request = request
fit_request_timeout (pos n) request =
    if ltb 0 n && leb_ℤ request (pos n) then add_int64 n 10_000_000_000 else request

unfoldable pub normalize : Config → Config
unfolding normalize_api_url fit_request_timeout
normalize c = record c {
  api_url = normalize_api_url c.api_url;
  location_manual_region = trim_space c.location_manual_region;
  location_manual_zone = trim_space c.location_manual_zone;
  ip_info_token = trim_space c.ip_info_token;
  request_timeout = fit_request_timeout c.task_poll_interval c.request_timeout;
}

-- What `Load` and `LoadFile` do last.
abbrev pub checked : ConfigHost → Config → Outcome ConfigError Config
checked h c = do validate h (normalize c); ok (normalize c)

unfoldable pub load_file : ConfigHost → Disk → Text → Outcome ConfigError Config
unfolding merge_config_file normalize validate
load_file h disk path = do
  c ← merge_config_file h disk path default_config
  checked h (record c { config_file = path })

abbrev config_candidates : List Text
config_candidates =
    codes "./config.local.json"
    ∷ codes "./config.json"
    ∷ codes "./config/config.json"
    ∷ codes "/usr/local/etc/noderax-agent/config.json"
    ∷ codes "/etc/noderax-agent/config.json"
    ∷ []

-- `os.Stat` also finds a file that cannot be read.
unfoldable pub first_present : Disk → List Text → Text
first_present disk [] = []
first_present disk (path ∷ paths) = elim (lookup path disk) [
  | none ↦ first_present disk paths
  | some file ↦ path
]

unfoldable pub detect_config_file : ConfigHost → Disk → Text
unfolding first_present
detect_config_file h disk =
    let value = trim_space (h.getenv (codes "NODERAX_CONFIG_FILE")) in
    if is_empty value then first_present disk config_candidates else value

abbrev pub merge_detected : ConfigHost → Disk → Text → Outcome ConfigError Config
merge_detected h disk path =
    if is_empty path
    then ok default_config
    else (merge_config_file h disk path default_config >>= λ c.
        ok (record c { config_file = path }))

unfoldable pub load : ConfigHost → Disk → Outcome ConfigError Config
unfolding merge_config_file merge_env normalize validate detect_config_file
load h disk = do
  merged ← merge_detected h disk (detect_config_file h disk)
  overridden ← merge_env h merged
  checked h overridden

-- The JSON that `SaveFile` writes. A disabled public IP is left out of it.
unfoldable pub file_config : ConfigHost → Config → FileConfig
file_config h c = record {
  api_url = c.api_url;
  api_tls_ca_file = c.api_tls_ca_file;
  enrollment_token = c.enrollment_token;
  node_id = c.node_id;
  agent_token = c.agent_token;
  heartbeat_interval = h.duration_string c.heartbeat_interval;
  metrics_interval = h.duration_string c.metrics_interval;
  task_poll_interval = h.duration_string c.task_poll_interval;
  request_timeout = h.duration_string c.request_timeout;
  task_timeout = h.duration_string c.task_timeout;
  shutdown_timeout = h.duration_string c.shutdown_timeout;
  realtime_enabled = some c.realtime_enabled;
  realtime_ping_interval = h.duration_string c.realtime_ping_interval;
  realtime_queue_size = some c.realtime_queue_size;
  realtime_backoff_jitter = some c.realtime_backoff_jitter;
  realtime_namespace = c.realtime_namespace;
  realtime_path = c.realtime_path;
  location_manual_region = c.location_manual_region;
  location_manual_zone = c.location_manual_zone;
  location_manual_latitude = c.location_manual_latitude;
  location_manual_longitude = c.location_manual_longitude;
  location_public_ip_enabled = if c.location_public_ip_enabled then some true else none;
  ip_info_token = c.ip_info_token;
  state_file = c.state_file;
  log_level = c.log_level;
}

abbrev encodes : Option Float64 → Bool
encodes none = true
encodes (some x) = is_finite x

-- `json.MarshalIndent` refuses a float that is not finite.
unfoldable pub is_encodable : Config → Bool
is_encodable c =
    is_finite c.realtime_backoff_jitter
    && encodes c.location_manual_latitude
    && encodes c.location_manual_longitude

abbrev pub Saved : Type 0
Saved = Outcome ConfigError (Unit {0}) × Disk

abbrev pub wrote : Text → FileConfig → Disk → Outcome ConfigFile (Unit {0}) → Saved
wrote path raw disk (ok _) = (ok tt, insert path (decoded raw) disk)
wrote path raw disk (err left) = (err (write_failed path), insert path left disk)

abbrev pub made : Text → Outcome Text (Unit {0}) → Saved → Disk → Saved
made path (ok _) next disk = next
made path (err e) next disk = (err (mkdir_failed path), disk)

unfoldable pub write_config_file : ConfigHost → Text → FileConfig → Disk → Saved
write_config_file h path raw disk =
    made path (h.make_directory path) (wrote path raw disk (h.write_file path)) disk

-- The mirror is written only behind the file itself.
abbrev pub write_mirror : ConfigHost → Text → Text → FileConfig → Saved → Saved
write_mirror h path mirror raw (err e, disk) = (err e, disk)
write_mirror h path mirror raw (ok _, disk) =
    if is_empty mirror || text_eq (h.clean mirror) (h.clean path)
    then (ok tt, disk)
    else write_config_file h (h.clean mirror) raw disk

unfoldable pub save_file : ConfigHost → Text → Config → Disk → Saved
unfolding write_config_file
save_file h path c disk =
    if is_blank path
    then (err path_required, disk)
    else made path h.make_parent
        (if is_encodable c
          then write_mirror h path (trim_space (h.getenv (codes "NODERAX_CONFIG_MIRROR_FILE")))
              (file_config h c) (write_config_file h path (file_config h c) disk)
          else (err encode_failed, disk))
        disk
