-- ===== src/Config/Checks.antt =====
-- `Validate` of internal/config/config.go.
use noderax_agent.Prelude.{
  ℕ, ◌-◌, Bool, true, false, not, ◌&&◌, ◌||◌, Option, none, some, if◌then◌else◌, ℤ, pos, negsuc,
  leb_ℤ, Text, codes, is_empty, text_eq, has_prefix, Outcome, ok, err, ◌>>◌, fail_if,
}
use noderax_agent.Config.Types.{
  Float64, float_lt, float_gt, is_finite, Config, ConfigError, api_url_required, api_url_invalid,
  api_url_scheme, api_url_host, tls_ca_invalid, not_positive, jitter_range, namespace_required,
  namespace_slash, path_empty, path_slash, state_file_required, region_required,
  coordinates_required, latitude_range, longitude_range, ConfigHost, is_blank,
}

abbrev pub present {ℓ} : {A : Type ℓ} → Option A → Bool
present none = false
present (some x) = true

-- Whether a latitude, or a longitude, is out of range.
abbrev pub out_of_range : ℕ → Float64 → Bool
out_of_range limit x =
    not (is_finite x) || float_lt x (negsuc (limit - 1)) || float_gt x (pos limit)

abbrev pub check_coordinates : Option Float64 → Option Float64 → Outcome ConfigError (Unit {0})
check_coordinates (some latitude) (some longitude) = do
  fail_if (out_of_range 90 latitude) latitude_range
  fail_if (out_of_range 180 longitude) longitude_range
check_coordinates (some latitude) none = err coordinates_required
check_coordinates none longitude = err coordinates_required

unfoldable pub validate_manual_location : Config → Outcome ConfigError (Unit {0})
validate_manual_location c =
    let manual =
      not (is_blank c.location_manual_region)
      || not (is_blank c.location_manual_zone)
      || present c.location_manual_latitude
      || present c.location_manual_longitude in
    if not manual
    then ok tt
    else if is_blank c.location_manual_region
    then err region_required
    else check_coordinates c.location_manual_latitude c.location_manual_longitude

abbrev pub check_url : Option (Text × Text) → Outcome ConfigError (Unit {0})
check_url none = err api_url_invalid
check_url (some (scheme, host)) = do
  fail_if (not (text_eq scheme (codes "http")) && not (text_eq scheme (codes "https")))
      api_url_scheme
  fail_if (is_empty host) api_url_host

abbrev pub require_positive : ℤ → Text → Outcome ConfigError (Unit {0})
require_positive value name = fail_if (leb_ℤ value (pos 0)) (not_positive name)

unfoldable pub validate_intervals : Config → Outcome ConfigError (Unit {0})
validate_intervals c = do
  require_positive c.heartbeat_interval (codes "HEARTBEAT_INTERVAL")
  require_positive c.metrics_interval (codes "METRICS_INTERVAL")
  require_positive c.task_poll_interval (codes "TASK_POLL_INTERVAL")
  require_positive c.request_timeout (codes "REQUEST_TIMEOUT")
  require_positive c.task_timeout (codes "TASK_TIMEOUT")
  require_positive c.shutdown_timeout (codes "SHUTDOWN_TIMEOUT")
  require_positive c.realtime_ping_interval (codes "REALTIME_PING_INTERVAL")
  require_positive c.realtime_queue_size (codes "REALTIME_QUEUE_SIZE")

unfoldable pub validate_realtime : Config → Outcome ConfigError (Unit {0})
validate_realtime c = do
  fail_if (float_lt c.realtime_backoff_jitter (pos 0) || float_gt c.realtime_backoff_jitter (pos 1))
      jitter_range
  fail_if (is_blank c.realtime_namespace) namespace_required
  fail_if (not (has_prefix c.realtime_namespace (codes "/"))) namespace_slash
  fail_if (is_blank c.realtime_path) path_empty
  fail_if (not (has_prefix c.realtime_path (codes "/"))) path_slash
  fail_if (is_blank c.state_file) state_file_required

unfoldable pub validate : ConfigHost → Config → Outcome ConfigError (Unit {0})
unfolding validate_intervals validate_realtime validate_manual_location
validate h c = do
  fail_if (is_blank c.api_url) api_url_required
  check_url (h.parse_url c.api_url)
  fail_if (not (is_blank c.api_tls_ca_file) && not (h.stat_ca_file c.api_tls_ca_file))
      tls_ca_invalid
  validate_intervals c
  validate_realtime c
  validate_manual_location c
