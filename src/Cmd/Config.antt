-- ===== src/Cmd/Config.antt =====
-- cmd/docker-volume-gcepd/main.go: the settings in the environment.
use docker_plugin_gce_pd.Prelude.{
  ℕ, ◌&&◌, ◌||◌, Option, none, some, [], ok, err, ltb, if◌then◌else◌,
}
use docker_plugin_gce_pd.Prelude.Bytes.{Bytes, codes, str_eq}
use docker_plugin_gce_pd.Errors.{Res, invalid_setting}
use docker_plugin_gce_pd.Gce.Client.{scope_local, scope_global, default_force_detach_after}
use docker_plugin_gce_pd.Cmd.Durations.{Duration, parse_duration}

abbrev pub scope_env : Bytes
scope_env = codes "GCEPD_SCOPE"

abbrev pub force_detach_after_env : Bytes
force_detach_after_env = codes "GCEPD_FORCE_DETACH_AFTER"

-- resolveScope, with the value of its variable.
unfoldable pub resolve_scope : Bytes → Res Bytes
resolve_scope v =
    if str_eq v [] || str_eq v scope_local
    then ok scope_local
    else if str_eq v scope_global
    then ok scope_global
    else err (invalid_setting scope_env v)

-- resolveForceDetachAfter after ParseDuration; `d < 0` is a negative sign with a size above 0.
unfoldable pub checked_duration : Bytes → Option Duration → Res ℕ
checked_duration v none = err (invalid_setting force_detach_after_env v)
checked_duration v (some d) =
    if d.negative && ltb 0 d.nanoseconds
    then err (invalid_setting force_detach_after_env v)
    else ok d.nanoseconds

-- resolveForceDetachAfter, with the value of its variable.
unfoldable pub resolve_force_detach_after : (ℕ → ℕ → ℕ → ℕ) → Bytes → Res ℕ
unfolding checked_duration
resolve_force_detach_after fraction v =
    if str_eq v []
    then ok default_force_detach_after
    else checked_duration v (parse_duration fraction v)
