-- ===== src/Settings/Source.antt =====
-- What a setting's value is: `_resolve_source`, `_resolve_effective_config` and the masking of
-- src/app/api/settings/v1/service.py.
use work_behavior_analytics.Prelude.{
  ℕ, Bool, true, false, ◌||◌, String, Option, none, some, List, [], ◌∷◌, ◌==◌, text_key, contains,
  is_some, if◌then◌else◌,
}
use work_behavior_analytics.Prelude.Text.{is_empty, strip, upper, lower, has_text}
use work_behavior_analytics.Prelude.Dict.{Dict, lookup, insert}
use work_behavior_analytics.Prelude.Json.{Json, null, bool, num, str, arr, obj}
use work_behavior_analytics.Settings.Config.{
  Env, Kind, int_field, flag_field, text_field, timezone_field, fields, default_of, Config,
  runtime_config,
}
use work_behavior_analytics.Settings.Table.{Setting}

pub data Source : Type 0 where
  from_db : Source
  from_env : Source
  from_default : Source

abbrev pub is_null : Json → Bool
is_null null = true
is_null (bool b) = false
is_null (num n) = false
is_null (str s) = false
is_null (arr xs) = false
is_null (obj d) = false

abbrev pub number_from : Option ℕ → Option (Json × Source)
number_from none = none
number_from (some n) = some (num n, from_env)

-- The raw text as a value of the field's type.
abbrev pub from_environment : Env → String → Option Kind → Option (Json × Source)
from_environment env raw none = some (str raw, from_env)
from_environment env raw (some (flag_field d)) =
    some (bool (contains ("1" ∷ "true" ∷ "yes" ∷ []) (lower raw)), from_env)
from_environment env raw (some (int_field d ge le)) = number_from (env.int_of raw)
from_environment env raw (some (text_field d)) = some (str raw, from_env)
from_environment env raw (some (timezone_field d)) = some (str raw, from_env)

abbrev pub from_code : Option Kind → Json × Source
from_code none = (null, from_default)
from_code (some kind) = (default_of kind, from_default)

abbrev pub without_override : Env → Option String → Option Kind → Option (Json × Source)
without_override env (some raw) kind = from_environment env raw kind
without_override env none kind = some (from_code kind)

-- none where `int` raises ValueError
unfoldable pub resolve_source : Env → Json → String → Option (Json × Source)
unfolding lookup lower
resolve_source env v key =
    if is_null v
    then without_override env (env.environ key) (lookup fields key)
    else some (v, from_db)

abbrev pub keep_override : Dict String Json → String → Json → Dict String Json
keep_override overrides key v = if is_null v then overrides else insert overrides key v

abbrev pub value_part : Option (Json × Source) → Option Json
value_part none = none
value_part (some (v, source)) = some v

-- null for a row that the loop passes over
abbrev pub override_of : Env → Setting → Option Json
override_of env row =
    if row.is_sensitive then some null else value_part (resolve_source env row.value row.key)

abbrev pub unless_raised : {A : Type 0} → Option Json → (Json → Option A) → Option A
unless_raised none next = none
unless_raised (some v) next = next v

-- The first loop; `overrides` is what it has so far.
unfoldable pub collect_overrides : Env → List Setting → Dict String Json → Option (Dict String Json)
unfolding resolve_source insert
collect_overrides env [] overrides = some overrides
collect_overrides env (row ∷ rows) overrides =
    unless_raised (override_of env row)
      (λ v. collect_overrides env rows (keep_override overrides row.key v))

-- `RuntimeConfig(**{key: value})` does not raise.
unfoldable pub accepts_alone : Env → String → Json → Bool
unfolding runtime_config
accepts_alone env key v = is_some (runtime_config env ((key, v) ∷ []))

-- The loop after a ValidationError; `valid` is what it has so far.
unfoldable pub keep_valid :
    (String → Json → Bool) → Dict String Json → Dict String Json → Dict String Json
unfolding insert
keep_valid is_valid [] valid = valid
keep_valid is_valid ((key, v) ∷ overrides) valid =
    let kept = keep_valid is_valid overrides (insert valid key v) in
    let dropped = keep_valid is_valid overrides valid in if is_valid key v then kept else dropped

abbrev pub or_per_key : Env → Dict String Json → Option Config → Option Config
or_per_key env overrides (some config) = some config
or_per_key env overrides none = runtime_config env (keep_valid (accepts_alone env) overrides [])

unfoldable pub config_of : Env → Dict String Json → Option Config
unfolding keep_valid runtime_config accepts_alone
config_of env overrides = or_per_key env overrides (runtime_config env overrides)

abbrev pub config_from : Env → Option (Dict String Json) → Option Config
config_from env none = none
config_from env (some overrides) = config_of env overrides

-- none where it raises
abbrev pub resolve_effective_config : Env → List Setting → Option Config
resolve_effective_config env rows = config_from env (collect_overrides env rows [])

abbrev pub mask_value : Json → Json
mask_value v = if is_null v then null else str "*******"

abbrev pub is_placeholder : String → Bool
is_placeholder stripped =
    is_empty stripped || (upper stripped == "FIXME" || has_text "FIXME" (upper stripped))

unfoldable pub is_unconfigured : Json → Bool
unfolding strip upper has_text
is_unconfigured null = true
is_unconfigured (str s) = is_placeholder (strip s)
is_unconfigured (bool b) = false
is_unconfigured (num n) = false
is_unconfigured (arr xs) = false
is_unconfigured (obj d) = false
