-- ===== src/Settings/Effective.antt =====
-- What the effective configuration of src/app/api/settings/v1/service.py is, key by key.
use work_behavior_analytics.Prelude.{
  ℕ, true, String, Option, none, some, List, [], ◌∷◌, is_some, or_else, text_key, Bool-cases,
  Option-cases, ◌≡◌, refl, ap, ◌∙◌, inl, inr, arith,
}
use work_behavior_analytics.Prelude.Dict.{Dict, lookup}
use work_behavior_analytics.Prelude.Json.{Json}
use work_behavior_analytics.Settings.Config.{
  Env, Kind, int_field, flag_field, text_field, timezone_field, fields,
}
use work_behavior_analytics.Settings.Table.{Setting}
use work_behavior_analytics.Settings.Source.{
  Source, resolve_source, is_null, value_part, override_of, unless_raised, collect_overrides,
  resolve_effective_config, from_environment,
}
use work_behavior_analytics.Settings.Build.{reference}
use work_behavior_analytics.Settings.Collected.{
  config_of-reference, override_at, reference_config, DistinctRows, collect_overrides-Collected,
}

-- The texts that the environment has for number fields are numbers.
abbrev pub NumbersParse : Env → Type 0
NumbersParse env =
    (key raw : String) (d ge : ℕ) (le : Option ℕ)
    → env.environ key ≡ some raw
    → lookup fields key ≡ some (int_field d ge le)
    → is_some (env.int_of raw) ≡ true

from_environment-some :
    (env : Env) (key raw : String) (kind : Option Kind)
    → NumbersParse env
    → env.environ key ≡ some raw
    → lookup fields key ≡ kind
    → is_some (from_environment env raw kind) ≡ true
from_environment-some env key raw none p e f = refl
from_environment-some env key raw (some (flag_field d)) p e f = refl
from_environment-some env key raw (some (text_field d)) p e f = refl
from_environment-some env key raw (some (timezone_field d)) p e f = refl
from_environment-some env key raw (some (int_field d ge le)) p e f =
    elim (Option-cases (env.int_of raw)) [
      | inr (n, h) ↦ rw h refl
      | inl h ↦ absurd (ground (arith, p key raw d ge le e f))
    ]

pub resolve_source-some :
    (env : Env) (v : Json) (key : String)
    → NumbersParse env
    → is_some (resolve_source env v key) ≡ true
unfolding resolve_source
resolve_source-some env v key p = elim (Bool-cases (is_null v)) [
  | inr e ↦ rw e refl
  | inl e ↦ elim (Option-cases (env.environ key)) [
    | inl f ↦ rw (e, f) refl
    | inr (raw, f) ↦ rw (e, f) (from_environment-some env key raw _ p f refl)
  ]
]

value_part-some : (o : Option (Json × Source)) → is_some o ≡ true → is_some (value_part o) ≡ true
value_part-some none h = h
value_part-some (some (v, source)) h = refl

override_of-some :
    (env : Env) (row : Setting) → NumbersParse env → is_some (override_of env row) ≡ true
override_of-some env row p = elim (Bool-cases row.is_sensitive) [
  | inl e ↦ rw e refl
  | inr e ↦ rw e (value_part-some _ (resolve_source-some env row.value row.key p))
]

unless_raised-some :
    {A : Type 0} (o : Option Json) (next : Json → Option A)
    → is_some o ≡ true
    → ((v : Json) → is_some (next v) ≡ true)
    → is_some (unless_raised o next) ≡ true
unless_raised-some none next h k = absurd cc
unless_raised-some (some v) next h k = k v

collect_overrides-some :
    (env : Env) (rows : List Setting) (acc : Dict String Json)
    → NumbersParse env
    → is_some (collect_overrides env rows acc) ≡ true
unfolding collect_overrides
collect_overrides-some env [] acc p = refl
collect_overrides-some env (row ∷ rows) acc p =
    unless_raised-some _ _ (override_of-some env row p) (λ v. collect_overrides-some env rows _ p)

reference-ext :
    (env : Env) (fs : List (String × Kind)) (f g : String → Option Json)
    → ((k : String) → f k ≡ g k)
    → reference env fs f ≡ reference env fs g
reference-ext env [] f g h = refl
reference-ext env ((key, kind) ∷ fs) f g h = rw (h key, reference-ext env fs f g h) refl

or_else-none : (o : Option Json) → or_else o none ≡ o
or_else-none none = refl
or_else-none (some v) = refl

-- The effective configuration exists, and for every field it has the override of the field's row
-- where the row is not sensitive and the field accepts it, and the default in the code otherwise;
-- the override of a row is its value in the database or, without one, that of the environment. Rows
-- have distinct keys, and the environment has numbers for the fields that are numbers.
pub resolve_effective_config-reference :
    (env : Env) (rows : List Setting)
    → DistinctRows rows
    → NumbersParse env
    → resolve_effective_config env rows ≡ some (reference_config env rows)
unfolding lookup reference_config
resolve_effective_config-reference env rows u p =
    elim (Option-cases (collect_overrides env rows [])) [
      | inl e ↦ absurd (ground (arith, collect_overrides-some env rows [] p))
      | inr (overrides, e) ↦
          let c = collect_overrides-Collected env rows [] overrides u e in
          rw (e, config_of-reference env overrides (c.distinct tt))
            (ap (λ r. some r)
              (reference-ext env fields (lookup overrides) (override_at env rows)
                (λ k. c.found k ∙ or_else-none (override_at env rows k))))
    ]
