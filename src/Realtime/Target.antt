-- ===== src/Realtime/Target.antt =====
-- `normalizeRealtimeTarget`: where the service connects to.
use noderax_agent.Prelude.{
  ◌≡◌, refl, subst, ◌⊎◌, inl, inr, Bool, true, false, not, ◌&&◌, ◌||◌, Option, none, some, [], ◌∷◌,
  ◌++◌, arith, if◌then◌else◌, Bool-cases, Text, codes, is_empty, text_eq, text_eq-eq, trim_space,
  has_prefix, contains, Outcome, ok, err, ◌>>◌, fail_if,
}
use noderax_agent.Config.Types.{is_blank}
use noderax_agent.Config.Env.{ends_in_slash, with_leading_slash, with_last_slash}

pub record Target : Type 0 where
  pub dial_url : Text
  pub health_url : Text
  pub namespace : Text
  pub path : Text

pub data TargetError : Type 0 where
  url_required url_invalid url_scheme url_host : TargetError

-- `url.URL{Scheme: scheme, Host: host, Path: path, RawQuery: query}.String()`, where the path has
-- nothing to escape. Both paths begin with a slash.
abbrev url_string : Text → Text → Text → Text → Text
url_string scheme host path query =
    let base = scheme ++ codes "://" ++ host ++ path in
    if is_empty query then base else base ++ codes "?" ++ query

abbrev or_default : Text → Text → Text
or_default value default = if is_blank value then default else value

unfoldable pub realtime_namespace : Text → Text
realtime_namespace namespace = with_leading_slash (or_default namespace (codes "/agent-realtime"))

unfoldable pub realtime_path : Text → Text
realtime_path path = with_last_slash (with_leading_slash (or_default path (codes "/socket.io/")))

abbrev pub target_of : Option (Text × Text) → Text → Text → Outcome TargetError Target
target_of none namespace path = err url_invalid
target_of (some (scheme, host)) namespace path = do
  fail_if (not (text_eq scheme (codes "http")) && not (text_eq scheme (codes "https"))) url_scheme
  fail_if (is_empty host) url_host
  ok (record {
    dial_url = url_string scheme host (realtime_path path) [];
    health_url = url_string scheme host (realtime_path path) (codes "EIO=4&transport=polling");
    namespace = realtime_namespace namespace;
    path = realtime_path path;
  })

unfoldable pub normalize_realtime_target :
    (Text → Option (Text × Text)) → Text → Text → Text → Outcome TargetError Target
unfolding realtime_namespace realtime_path
normalize_realtime_target parse_url api_url namespace path =
    let trimmed = trim_space api_url in
    let url = if contains trimmed (codes "://") then trimmed else codes "https://" ++ trimmed in
    if is_empty trimmed then err url_required else target_of (parse_url url) namespace path

-- The namespace and the path of a target.
pub record IsTarget (t : Target) : Type 0 where
  pub namespace_starts : has_prefix t.namespace (codes "/") ≡ true
  pub path_starts : has_prefix t.path (codes "/") ≡ true
  pub path_ends : ends_in_slash t.path ≡ true
  pub dials :
      (has_prefix t.dial_url (codes "http://") || has_prefix t.dial_url (codes "https://")) ≡ true

leading : (s : Text) → has_prefix (with_leading_slash s) (codes "/") ≡ true
unfolding with_leading_slash has_prefix
leading s = elim (Bool-cases (has_prefix s (codes "/"))) [
  | inl there ↦ rw there there
  | inr missing ↦ rw missing refl
]

has_prefix-append_slash :
    (s : Text) → has_prefix s (codes "/") ≡ true → has_prefix (s ++ codes "/") (codes "/") ≡ true
unfolding has_prefix
has_prefix-append_slash [] h = refl
has_prefix-append_slash (c ∷ s) h = h

last_keeps :
    (s : Text) → has_prefix s (codes "/") ≡ true → has_prefix (with_last_slash s) (codes "/") ≡ true
unfolding with_last_slash
last_keeps s h = elim (Bool-cases (ends_in_slash s)) [
  | inl there ↦ rw there h
  | inr missing ↦ rw missing (has_prefix-append_slash s h)
]

ends_in_slash-append : (s : Text) → ends_in_slash (s ++ codes "/") ≡ true
unfolding ends_in_slash text_eq
ends_in_slash-append [] = refl
ends_in_slash-append (c ∷ []) = refl
ends_in_slash-append (c ∷ d ∷ s) = ends_in_slash-append (d ∷ s)

ends : (s : Text) → ends_in_slash (with_last_slash s) ≡ true
unfolding with_last_slash
ends s = elim (Bool-cases (ends_in_slash s)) [
  | inl there ↦ rw there there
  | inr missing ↦ rw missing (ends_in_slash-append s)
]

-- What the realtime service makes of any API URL, namespace and path that it accepts: a target that is
-- dialled over HTTP, and whose namespace and path start with a slash, the path ending in one too; a
-- namespace that starts with a slash and is not blank is kept, and so is such a path that ends in one.
pub record Normalizes (namespace path : Text) (t : Target) : Type 0 where
  pub is_target : IsTarget t
  pub keeps_namespace :
      (t.namespace ≡ namespace)
      ⊎ ((is_blank namespace || not (has_prefix namespace (codes "/"))) ≡ true)
  pub keeps_path :
      (t.path ≡ path)
      ⊎ ((is_blank path || not (has_prefix path (codes "/")) || not (ends_in_slash path)) ≡ true)

namespace_kept :
    (s : Text)
    → (realtime_namespace s ≡ s) ⊎ ((is_blank s || not (has_prefix s (codes "/"))) ≡ true)
unfolding realtime_namespace with_leading_slash
namespace_kept s = elim (Bool-cases (is_blank s)) [
  | inl blank ↦ inr (ground arith)
  | inr given ↦ elim (Bool-cases (has_prefix s (codes "/"))) [
    | inl there ↦ inl (ground arith)
    | inr missing ↦ inr (ground arith)
  ]
]

path_kept :
    (s : Text)
    → (realtime_path s ≡ s)
      ⊎ ((is_blank s || not (has_prefix s (codes "/")) || not (ends_in_slash s)) ≡ true)
unfolding realtime_path with_leading_slash with_last_slash
path_kept s = elim (Bool-cases (is_blank s)) [
  | inl blank ↦ inr (ground arith)
  | inr given ↦ elim (Bool-cases (has_prefix s (codes "/"))) [
    | inr missing ↦ inr (ground arith)
    | inl there ↦ elim (Bool-cases (ends_in_slash s)) [
      | inr open_end ↦ inr (ground arith)
      | inl closed ↦ inl (rw (given, there, closed) refl)
    ]
  ]
]

IsHttpUrl : Text → Type 0
IsHttpUrl url = (has_prefix url (codes "http://") || has_prefix url (codes "https://")) ≡ true

dials_http :
    (scheme host path : Text)
    → (not (text_eq scheme (codes "http")) && not (text_eq scheme (codes "https"))) ≡ false
    → IsHttpUrl (scheme ++ codes "://" ++ host ++ path)
unfolding IsHttpUrl has_prefix
dials_http scheme host path h = elim (Bool-cases (text_eq scheme (codes "http"))) [
  | inl plain ↦ rw (text_eq-eq scheme (codes "http") plain) refl
  | inr other ↦ rw (text_eq-eq scheme (codes "https") (ground arith)) refl
]

made : Text → Text → Text → Text → Target
made scheme host namespace path = record {
  dial_url = url_string scheme host (realtime_path path) [];
  health_url = url_string scheme host (realtime_path path) (codes "EIO=4&transport=polling");
  namespace = realtime_namespace namespace;
  path = realtime_path path;
}

made-Normalizes :
    (scheme host namespace path : Text)
    → (not (text_eq scheme (codes "http")) && not (text_eq scheme (codes "https"))) ≡ false
    → Normalizes namespace path (made scheme host namespace path)
unfolding made IsHttpUrl realtime_namespace realtime_path
made-Normalizes scheme host namespace path http = record {
  is_target = record {
    namespace_starts = leading (or_default namespace (codes "/agent-realtime"));
    path_starts =
        last_keeps (with_leading_slash (or_default path (codes "/socket.io/")))
          (leading (or_default path (codes "/socket.io/")));
    path_ends = ends (with_leading_slash (or_default path (codes "/socket.io/")));
    dials = dials_http scheme host (realtime_path path) http;
  };
  keeps_namespace = namespace_kept namespace;
  keeps_path = path_kept path;
}

passes_guards :
    (a b : Bool) (m t : Target)
    → (fail_if a url_scheme >> (fail_if b url_host >> ok m)) ≡ ok t
    → (m ≡ t) × (a ≡ false)
passes_guards true b m t e = absurd cc
passes_guards false true m t e = absurd cc
passes_guards false false m t e = (cc, refl)

target_of-Normalizes :
    (u : Option (Text × Text)) (namespace path : Text) (t : Target)
    → target_of u namespace path ≡ ok t
    → Normalizes namespace path t
unfolding made
target_of-Normalizes none namespace path t e = absurd cc
target_of-Normalizes (some (scheme, host)) namespace path t e =
    let (same, http) =
      passes_guards (not (text_eq scheme (codes "http")) && not (text_eq scheme (codes "https")))
        (is_empty host) (made scheme host namespace path) t e in
    subst (Normalizes namespace path) same (made-Normalizes scheme host namespace path http)

of_given :
    (b : Bool) (u : Option (Text × Text)) (namespace path : Text) (t : Target)
    → (if b then err url_required else target_of u namespace path) ≡ ok t
    → Normalizes namespace path t
of_given true u namespace path t e = absurd cc
of_given false u namespace path t e = target_of-Normalizes u namespace path t e

-- Whatever the URL parser answers, a target that the service makes of an API URL is dialled over HTTP or
-- HTTPS, and its namespace and path start with a slash, the path ending in one too; a configured
-- namespace that starts with a slash is kept, and so is a configured path that starts and ends in one.
pub normalize_realtime_target-Normalizes :
    (parse_url : Text → Option (Text × Text)) (api_url namespace path : Text) (t : Target)
    → normalize_realtime_target parse_url api_url namespace path ≡ ok t
    → Normalizes namespace path t
unfolding normalize_realtime_target
normalize_realtime_target-Normalizes parse_url api_url namespace path t e =
    of_given (is_empty (trim_space api_url)) (parse_url _) namespace path t e
