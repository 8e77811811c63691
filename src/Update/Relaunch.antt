-- ===== src/Update/Relaunch.antt =====
-- The updater that is started with the options of an update has these options.
use noderax_agent.Prelude.{
  ◌≡◌, refl, inl, inr, true, false, none, [], Bool-cases, is_empty, text_eq, trim_left, trim_right,
  trim_space, ok,
}
use noderax_agent.Update.Options.{
  UpdateOptions, no_options, lookup_flag, split_value, argument, set_text, set_bool, is_bool_flag,
  parse_flags, RequestHost, parse_update_options, updater_arguments,
}

parse_flags-updater_arguments :
    (o : UpdateOptions)
    → parse_flags none (updater_arguments o) no_options
      ≡ ok (record o { request_file = []; apply_now = true }, [])
unfolding parse_flags updater_arguments argument split_value lookup_flag is_bool_flag set_bool
    set_text text_eq
parse_flags-updater_arguments o = elim (Bool-cases o.rollback) [
  | inl back ↦ rw back refl
  | inr ahead ↦ rw ahead refl
]

-- The arguments that start the updater are read back as the version, the ID and the rollback they
-- were made of, to be applied now. The version and the ID are as parsing leaves them, trimmed and
-- not empty.
pub parse_update_options-updater_arguments :
    (h : RequestHost) (o : UpdateOptions)
    → trim_space o.target_version ≡ o.target_version
    → trim_space o.target_id ≡ o.target_id
    → is_empty o.target_version ≡ false
    → is_empty o.target_id ≡ false
    → parse_update_options h (updater_arguments o)
      ≡ ok (record o { request_file = []; apply_now = true })
unfolding parse_update_options trim_space trim_left trim_right
parse_update_options-updater_arguments h o v i v' i' =
    rw (parse_flags-updater_arguments o) (simp (v, i, v', i'))
