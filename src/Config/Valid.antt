-- ===== src/Config/Valid.antt =====
-- What a configuration that `Load` or `LoadFile` returns keeps to.
use noderax_agent.Prelude.{
  ℕ, ◌-◌, ◌≡◌, refl, subst, ◌⊎◌, inl, inr, true, false, not, ◌&&◌, Option, none, some, arith,
  Bool-cases, ℤ, pos, negsuc, ◌<ℤ◌, Text, codes, is_empty, text_eq-eq, has_prefix, Outcome, ok, err,
  ◌>>=◌, ◌>>◌, fail_if, >>=-eq-ok,
}
use noderax_agent.Config.Types.{
  Float64, float_lt, float_gt, is_finite, Config, api_url_required, tls_ca_invalid, Disk,
  ConfigHost, is_blank, default_config,
}
use noderax_agent.Config.Merge.{merge_config_file}
use noderax_agent.Config.Env.{merge_env}
use noderax_agent.Config.Load.{
  add_int64, fit_request_timeout, normalize, checked, load_file, load, merge_detected,
  detect_config_file,
}
use noderax_agent.Config.Checks.{
  validate_manual_location, validate_intervals, validate_realtime, validate, check_url,
  check_coordinates,
}

-- The first step of a chain that succeeds, succeeds.
pub >>-eq-ok {ℓ} :
    {E : Type 0} {A : Type ℓ} (first : Outcome E (Unit {0})) (next : Outcome E A) {a : A}
    → (first >> next) ≡ ok a
    → (first ≡ ok tt) × (next ≡ ok a)
>>-eq-ok (ok tt) next h = (refl, h)
>>-eq-ok (err e) next h = cc

-- Every interval is positive, and so is the size of the queue.
pub record IsPositive (c : Config) : Type 0 where
  pub heartbeat : pos 0 <ℤ c.heartbeat_interval
  pub metrics : pos 0 <ℤ c.metrics_interval
  pub poll : pos 0 <ℤ c.task_poll_interval
  pub request : pos 0 <ℤ c.request_timeout
  pub task : pos 0 <ℤ c.task_timeout
  pub shutdown : pos 0 <ℤ c.shutdown_timeout
  pub ping : pos 0 <ℤ c.realtime_ping_interval
  pub queue : pos 0 <ℤ c.realtime_queue_size

validate_intervals-IsPositive : (c : Config) → validate_intervals c ≡ ok tt → IsPositive c
unfolding validate_intervals
validate_intervals-IsPositive c h = ground arith

-- The URL of the backend is one of HTTP with a host.
abbrev pub IsHttp : Option (Text × Text) → Type 0
IsHttp none = ⊥
IsHttp (some (scheme, host)) =
    ((scheme ≡ codes "http") ⊎ (scheme ≡ codes "https")) × (is_empty host ≡ false)

-- The place is found by the host, or by a region with coordinates in range.
abbrev pub InRange : ℕ → Option Float64 → Type 0
InRange limit none = ⊥
InRange limit (some x) =
    (is_finite x ≡ true)
    × (float_lt x (negsuc (limit - 1)) ≡ false)
    × (float_gt x (pos limit) ≡ false)

check_coordinates-InRange :
    (latitude longitude : Option Float64)
    → check_coordinates latitude longitude ≡ ok tt
    → InRange 90 latitude × InRange 180 longitude
check_coordinates-InRange none longitude h = cc
check_coordinates-InRange (some x) none h = cc
check_coordinates-InRange (some x) (some y) h = ground arith

abbrev pub IsLocated : Config → Type 0
IsLocated c =
    ((is_blank c.location_manual_region ≡ true)
      × (is_blank c.location_manual_zone ≡ true)
      × (c.location_manual_latitude ≡ none)
      × (c.location_manual_longitude ≡ none))
    ⊎ ((is_blank c.location_manual_region ≡ false)
        × InRange 90 c.location_manual_latitude
        × InRange 180 c.location_manual_longitude)

validate_manual_location-IsLocated : (c : Config) → validate_manual_location c ≡ ok tt → IsLocated c
unfolding validate_manual_location
validate_manual_location-IsLocated c h = elim (Bool-cases (is_blank c.location_manual_region)) [
  | inl none_given ↦ ground arith
  | inr given ↦
      let (low, long) =
        check_coordinates-InRange c.location_manual_latitude c.location_manual_longitude
          (ground arith) in
      inr (given, low, long)
]

-- A configuration that the agent can run with. A jitter that is no number passes for one.
pub record IsValid (h : ConfigHost) (c : Config) : Type 0 where
  pub http : IsHttp (h.parse_url c.api_url)
  pub certificates : (is_blank c.api_tls_ca_file ≡ true) ⊎ (h.stat_ca_file c.api_tls_ca_file ≡ true)
  pub positive : IsPositive c
  pub outlasts : c.task_poll_interval <ℤ c.request_timeout
  pub jitter_low : float_lt c.realtime_backoff_jitter (pos 0) ≡ false
  pub jitter_high : float_gt c.realtime_backoff_jitter (pos 1) ≡ false
  pub namespace : has_prefix c.realtime_namespace (codes "/") ≡ true
  pub path : has_prefix c.realtime_path (codes "/") ≡ true
  pub state : is_blank c.state_file ≡ false
  pub located : IsLocated c

check_url-IsHttp : (u : Option (Text × Text)) → check_url u ≡ ok tt → IsHttp u
check_url-IsHttp none h = cc
check_url-IsHttp (some (scheme, host)) h =
    ground (arith, text_eq-eq scheme (codes "http"), text_eq-eq scheme (codes "https"))

-- A request timeout that was fitted and is positive outlasts the poll.
fit_request_timeout-outlasts :
    (poll request : ℤ)
    → pos 0 <ℤ fit_request_timeout poll request
    → pos 0 <ℤ poll
    → poll <ℤ fit_request_timeout poll request
unfolding fit_request_timeout add_int64
fit_request_timeout-outlasts (negsuc n) request h p = absurd (omega arith)
fit_request_timeout-outlasts (pos n) request h p = ground arith

-- The six steps of `Validate`.
abbrev Passed : ConfigHost → Config → Type 0
Passed h c =
    (is_blank c.api_url ≡ false)
    × (check_url (h.parse_url c.api_url) ≡ ok tt)
    × ((is_blank c.api_tls_ca_file ≡ true) ⊎ (h.stat_ca_file c.api_tls_ca_file ≡ true))
    × (validate_intervals c ≡ ok tt)
    × (validate_realtime c ≡ ok tt)
    × (validate_manual_location c ≡ ok tt)

validate-Passed : (h : ConfigHost) (c : Config) → validate h c ≡ ok tt → Passed h c
unfolding validate
validate-Passed h c e =
    let (url_there, e1) = >>-eq-ok (fail_if (is_blank c.api_url) api_url_required) _ e in
    let (url, e2) = >>-eq-ok _ _ e1 in
    let (tls, e3) =
      >>-eq-ok
        (fail_if (not (is_blank c.api_tls_ca_file) && not (h.stat_ca_file c.api_tls_ca_file))
          tls_ca_invalid)
        _ e2 in
    let (intervals, e4) = >>-eq-ok _ _ e3 in
    let (realtime, location) = >>-eq-ok _ _ e4 in
    let there : is_blank c.api_url ≡ false = ground arith in
    let found : (is_blank c.api_tls_ca_file ≡ true) ⊎ (h.stat_ca_file c.api_tls_ca_file ≡ true) =
      ground arith in
    (there, url, found, intervals, realtime, location)

record IsRealtime (c : Config) : Type 0 where
  jitter_low : float_lt c.realtime_backoff_jitter (pos 0) ≡ false
  jitter_high : float_gt c.realtime_backoff_jitter (pos 1) ≡ false
  namespace : has_prefix c.realtime_namespace (codes "/") ≡ true
  path : has_prefix c.realtime_path (codes "/") ≡ true
  state : is_blank c.state_file ≡ false

validate_realtime-IsRealtime : (c : Config) → validate_realtime c ≡ ok tt → IsRealtime c
unfolding validate_realtime
validate_realtime-IsRealtime c h = ground arith

pub validate-IsValid :
    (h : ConfigHost) (c : Config) → validate h (normalize c) ≡ ok tt → IsValid h (normalize c)
unfolding normalize
validate-IsValid h c e =
    let (there, url, tls, intervals, realtime, location) = validate-Passed h (normalize c) e in
    let p = validate_intervals-IsPositive (normalize c) intervals in
    let r = validate_realtime-IsRealtime (normalize c) realtime in
    record {
      http = check_url-IsHttp (h.parse_url (normalize c).api_url) url;
      certificates = tls;
      positive = p;
      outlasts =
          fit_request_timeout-outlasts c.task_poll_interval c.request_timeout p.request p.poll;
      jitter_low = r.jitter_low;
      jitter_high = r.jitter_high;
      namespace = r.namespace;
      path = r.path;
      state = r.state;
      located = validate_manual_location-IsLocated (normalize c) location;
    }

checked-IsValid : (h : ConfigHost) (c d : Config) → checked h c ≡ ok d → IsValid h d
checked-IsValid h c d e =
    let (passed, same) = >>-eq-ok (validate h (normalize c)) (ok (normalize c)) e in
    subst (IsValid h) (cc) (validate-IsValid h c passed)

-- The configuration came from a call of `Load` or of `LoadFile`.
abbrev pub IsLoaded : ConfigHost → Disk → Config → Type 0
IsLoaded h disk c = (load h disk ≡ ok c) ⊎ ((path : Text) × (load_file h disk path ≡ ok c))

-- A configuration that `Load` or `LoadFile` returns, whatever the file and the environment say, has
-- an HTTP URL with a host, certificates that are there, positive intervals and queue size, a
-- request timeout that is longer than the poll for tasks, a jitter that is not below zero or above
-- one, a namespace and a path that start with a slash, a state file, and a manual place that is
-- absent or complete and in range.
pub load-IsValid : (h : ConfigHost) (disk : Disk) (c : Config) → IsLoaded h disk c → IsValid h c
unfolding load load_file
load-IsValid h disk c (inl e) =
    let rest = λ (m : Config). merge_env h m >>= checked h in
    let (m, _, e1) = >>=-eq-ok (merge_detected h disk (detect_config_file h disk)) rest e in
    let (o, _, e2) = >>=-eq-ok (merge_env h m) (checked h) e1 in checked-IsValid h o c e2
load-IsValid h disk c (inr (path, e)) =
    let rest = λ (m : Config). checked h (record m { config_file = path }) in
    let (m, _, e1) = >>=-eq-ok (merge_config_file h disk path default_config) rest e in
    checked-IsValid h (record m { config_file = path }) c e1
