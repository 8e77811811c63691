-- ===== src/Update/Options.antt =====
-- `parseUpdateOptions` and `consumeManagedUpdateRequest`, with package flag; and the command line that
-- `launchDetachedUpdate` runs.
use noderax_agent.Prelude.{
  Bool, true, false, not, ◌||◌, Option, none, some, List, [], ◌∷◌, ◌++◌, ◌==◌, if◌then◌else◌, Text,
  codes, is_empty, text_eq, trim_space, join, Outcome, ok, err, ◌>>=◌, ◌>>◌, fail_if,
}
use noderax_agent.Config.Env.{parse_bool}
use noderax_agent.Update.Unit.{sanitize_systemd_unit_component}

pub record UpdateOptions : Type 0 where
  pub target_version : Text
  pub target_id : Text
  pub request_file : Text
  pub rollback : Bool
  pub apply_now : Bool

abbrev pub no_options : UpdateOptions
no_options = record {
  target_version = [];
  target_id = [];
  request_file = [];
  rollback = false;
  apply_now = false;
}

pub data OptionError : Type 0 where
  bad_flag_syntax undefined_flag invalid_value needs_argument : Text → OptionError
  unexpected_arguments : Text → OptionError
  request_file_combined version_required id_required : OptionError
  read_failed remove_failed decode_failed : Text → OptionError
  version_missing id_missing : Text → OptionError

pub data Flag : Type 0 where
  version_flag id_flag request_flag rollback_flag apply_flag : Flag

unfoldable pub lookup_flag : Text → Option Flag
lookup_flag name =
    if text_eq name (codes "target-version")
    then some version_flag
    else if text_eq name (codes "target-id")
    then some id_flag
    else if text_eq name (codes "request-file")
    then some request_flag
    else if text_eq name (codes "rollback")
    then some rollback_flag
    else if text_eq name (codes "apply-now")
    then some apply_flag
    else none

-- The name of an argument and, behind its first equals sign, its value.
unfoldable pub split_value : Text → Text × Option Text
split_value [] = ([], none)
split_value (c ∷ s) =
    let (name, value) = split_value s in if c == b'=' then ([], some s) else (c ∷ name, value)

-- An argument: the first that is no flag, the mark behind which no flags are, or a flag.
pub data Argument : Type 0 where
  plain terminator bad : Argument
  flag : Text → Option Text → Argument

abbrev pub named : Text → Argument
named [] = bad
named (c ∷ s) =
    if c == b'-' || c == b'='
    then bad
    else let (name, value) = split_value s in flag (c ∷ name) value

unfoldable pub argument : Text → Argument
unfolding split_value
argument [] = plain
argument (c ∷ []) = plain
argument (c ∷ d ∷ s) =
    if not (c == b'-')
    then plain
    else if not (d == b'-')
    then named (d ∷ s)
    else if is_empty s
    then terminator
    else named s

unfoldable pub set_text : Flag → Text → UpdateOptions → UpdateOptions
set_text version_flag v o = record o { target_version = v }
set_text id_flag v o = record o { target_id = v }
set_text request_flag v o = record o { request_file = v }
set_text rollback_flag v o = o
set_text apply_flag v o = o

unfoldable pub set_bool : Flag → Bool → UpdateOptions → UpdateOptions
set_bool rollback_flag b o = record o { rollback = b }
set_bool apply_flag b o = record o { apply_now = b }
set_bool version_flag b o = o
set_bool id_flag b o = o
set_bool request_flag b o = o

unfoldable pub is_bool_flag : Flag → Bool
is_bool_flag rollback_flag = true
is_bool_flag apply_flag = true
is_bool_flag version_flag = false
is_bool_flag id_flag = false
is_bool_flag request_flag = false

-- What a flag does: it fails, it sets an option, or it waits for the next argument.
pub data Effect : Type 0 where
  fails : OptionError → Effect
  sets : UpdateOptions → Effect
  waits : Flag → Effect

abbrev pub bool_effect : Flag → Text → Option Bool → UpdateOptions → Effect
bool_effect f v none o = fails (invalid_value v)
bool_effect f v (some b) o = sets (set_bool f b o)

abbrev pub flag_effect : Text → Option Flag → Option Text → UpdateOptions → Effect
flag_effect name none value o = fails (undefined_flag name)
flag_effect name (some f) none o = if is_bool_flag f then sets (set_bool f true o) else waits f
flag_effect name (some f) (some v) o =
    if is_bool_flag f then bool_effect f v (parse_bool v) o else sets (set_text f v o)

-- `fs.Parse`, to the options and the arguments behind the flags. A flag may wait for its value.
unfoldable pub parse_flags :
    Option (Text × Flag)
    → List Text
    → UpdateOptions
    → Outcome OptionError (UpdateOptions × List Text)
unfolding argument lookup_flag is_bool_flag set_bool set_text parse_bool
parse_flags (some (name, f)) [] o = err (needs_argument name)
parse_flags (some (name, f)) (v ∷ args) o = parse_flags none args (set_text f v o)
parse_flags none [] o = ok (o, [])
parse_flags none (a ∷ args) o = elim (argument a) [
  | plain ↦ ok (o, a ∷ args)
  | terminator ↦ ok (o, args)
  | bad ↦ err (bad_flag_syntax a)
  | flag name value ↦ elim (flag_effect name (lookup_flag name) value o) [
    | fails e ↦ err e
    | sets o' ↦ parse_flags none args o'
    | waits f ↦ parse_flags (some (name, f)) args o
  ]
]

-- What a call sees of the request file: its content, whether it can be removed or is gone, and what
-- its JSON decodes to.
pub record RequestHost : Type 0 where
  pub read_file : Text → Outcome Text Text
  pub remove : Text → Outcome (Text × Bool) (Unit {0})
  pub decode : Text → Outcome Text UpdateOptions

abbrev pub removed : Outcome (Text × Bool) (Unit {0}) → Outcome OptionError (Unit {0})
removed (ok _) = ok tt
removed (err (e, true)) = ok tt
removed (err (e, false)) = err (remove_failed e)

abbrev pub read : Outcome Text Text → Outcome OptionError Text
read (ok content) = ok content
read (err e) = err (read_failed e)

abbrev pub decoded : Outcome Text UpdateOptions → Outcome OptionError UpdateOptions
decoded (ok o) = ok o
decoded (err e) = err (decode_failed e)

abbrev pub trim_options : UpdateOptions → UpdateOptions
trim_options o = record o {
  target_version = trim_space o.target_version;
  target_id = trim_space o.target_id;
}

unfoldable pub consume_managed_update_request :
    RequestHost → Text → Outcome OptionError UpdateOptions
consume_managed_update_request h path = do
  content ← read (h.read_file path)
  removed (h.remove path)
  request ← decoded (h.decode content)
  let o : UpdateOptions = record (trim_options request) { request_file = []; apply_now = false }
  fail_if (is_empty o.target_version) (version_missing path)
  fail_if (is_empty o.target_id) (id_missing path)
  ok o

abbrev pub take_request : RequestHost → UpdateOptions → Outcome OptionError UpdateOptions
take_request h o = do
  fail_if (not (is_empty o.target_version) || not (is_empty o.target_id) || o.rollback)
      request_file_combined
  request ← consume_managed_update_request h o.request_file
  ok (record request { apply_now = o.apply_now })

abbrev pub take_flags : UpdateOptions → Outcome OptionError UpdateOptions
take_flags o = do
  fail_if (is_empty o.target_version) version_required
  fail_if (is_empty o.target_id) id_required
  ok o

abbrev pub check_options :
    RequestHost → UpdateOptions × List Text → Outcome OptionError UpdateOptions
check_options h (parsed, rest) = do
  fail_if (not (is_empty rest)) (unexpected_arguments (join rest (codes " ")))
  let o : UpdateOptions = record (trim_options parsed) {
    request_file = trim_space parsed.request_file;
  }
  if is_empty o.request_file then take_flags o else take_request h o

unfoldable pub parse_update_options : RequestHost → List Text → Outcome OptionError UpdateOptions
unfolding parse_flags consume_managed_update_request
parse_update_options h args = parse_flags none args no_options >>= check_options h

-- The arguments of the updater.
unfoldable pub updater_arguments : UpdateOptions → List Text
updater_arguments o =
    codes "--target-version"
    ∷ o.target_version
    ∷ codes "--target-id"
    ∷ o.target_id
    ∷ codes "--apply-now"
    ∷ (if o.rollback then codes "--rollback" ∷ [] else [])

-- The arguments of systemd-run, which starts the updater.
unfoldable pub detached_arguments : Text → UpdateOptions → List Text
unfolding sanitize_systemd_unit_component updater_arguments
detached_arguments binary_path o =
    codes "--unit"
    ∷ (codes "noderax-agent-updater-" ++ sanitize_systemd_unit_component o.target_id)
    ∷ codes "--collect"
    ∷ codes "--property=Type=exec"
    ∷ binary_path
    ∷ codes "update"
    ∷ updater_arguments o
