-- ===== src/Settings/Collected.antt =====
-- The two loops of `_resolve_effective_config` of src/app/api/settings/v1/service.py.
use mathlib.Core.Path.{subst}
use work_behavior_analytics.Prelude.{
  String, Option, none, some, List, [], ◌∷◌, All, or_else, ◌==◌, text_key, eq_iff, if◌then◌else◌,
  Bool-cases, Option-cases, ◌≡◌, refl, sym, ap, inl, inr,
}
use work_behavior_analytics.Prelude.Dict.{Dict, lookup, lookup-insert}
use work_behavior_analytics.Prelude.Json.{Json}
use work_behavior_analytics.Settings.Config.{
  Env, Kind, fields, validate_field, field_value, Config, build,
}
use work_behavior_analytics.Settings.Table.{Setting, get_setting_by_key}
use work_behavior_analytics.Settings.Source.{
  is_null, override_of, unless_raised, keep_override, collect_overrides, accepts_alone, keep_valid,
  config_of,
}
use work_behavior_analytics.Settings.Build.{
  reference_value, reference, IsField, fields-IsField, all_valid, accepts_alone_iff, DistinctKeys,
  some-injective, lookup-keep_valid, insert-DistinctKeys,
}

head_value :
    (env : Env) (overrides : Dict String Json) (key : String) (kind : Kind)
    → DistinctKeys overrides
    → lookup fields key ≡ some kind
    → field_value env kind (lookup (keep_valid (accepts_alone env) overrides []) key)
      ≡ some (reference_value env kind (lookup overrides key))
unfolding lookup
head_value env overrides key kind u a =
    let found = lookup-keep_valid (accepts_alone env) overrides [] key u in
    elim (Option-cases (lookup overrides key)) [
      | inl e ↦ rw (found, e) refl
      | inr (v, e) ↦ elim (Option-cases (validate_field env kind v)) [
        | inl f ↦ rw (found, e, accepts_alone_iff env key kind v a, f) refl
        | inr (w, f) ↦ rw (found, e, accepts_alone_iff env key kind v a, f, f) refl
      ]
    ]

-- What is left after the loop builds, with a value as in the reference.
valid_builds :
    (env : Env) (overrides : Dict String Json) (fs : List (String × Kind))
    → DistinctKeys overrides
    → All IsField fs
    → build env fs (keep_valid (accepts_alone env) overrides [])
      ≡ some (reference env fs (lookup overrides))
unfolding build
valid_builds env overrides [] u a = refl
valid_builds env overrides ((key, kind) ∷ fs) u a =
    rw (head_value env overrides key kind u a.0, valid_builds env overrides fs u a.1) refl

pub config_of-reference :
    (env : Env) (overrides : Dict String Json)
    → DistinctKeys overrides
    → config_of env overrides ≡ some (reference env fields (lookup overrides))
unfolding config_of
config_of-reference env overrides u = elim (all_valid env fields overrides) [
  | inr e ↦ rw e refl
  | inl e ↦ rw e (valid_builds env overrides fields u fields-IsField)
]

abbrev pub non_null : Option Json → Option Json
non_null none = none
non_null (some v) = if is_null v then none else some v

abbrev pub override_of_row : Env → Option Setting → Option Json
override_of_row env none = none
override_of_row env (some row) = non_null (override_of env row)

-- The override of a key: of its row, unless that is sensitive.
abbrev pub override_at : Env → List Setting → String → Option Json
override_at env rows key = override_of_row env (get_setting_by_key rows key)

-- No two rows of one key.
abbrev pub DistinctRows : List Setting → Type 0
DistinctRows [] = Unit {0}
DistinctRows (row ∷ rows) = (get_setting_by_key rows row.key ≡ none) × DistinctRows rows

keep_override-DistinctKeys :
    (d : Dict String Json) (key : String) (v : Json)
    → DistinctKeys d
    → DistinctKeys (keep_override d key v)
keep_override-DistinctKeys d key v u = elim (Bool-cases (is_null v)) [
  | inl e ↦ rw e u
  | inr e ↦ rw e (insert-DistinctKeys d key v u)
]

lookup-keep_override :
    (d : Dict String Json) (key : String) (v : Json) (k : String)
    → lookup (keep_override d key v) k
      ≡ (if key == k then or_else (non_null (some v)) (lookup d k) else lookup d k)
lookup-keep_override d key v k = elim (Bool-cases (is_null v)) [
  | inl e ↦ elim (Bool-cases (key == k)) [ inl f ↦ rw (e, f) refl | inr f ↦ rw (e, f) refl ]
  | inr e ↦ elim (Bool-cases (key == k)) [
    | inl f ↦ rw (e, lookup-insert d key k v, f) refl
    | inr f ↦ rw (e, lookup-insert d key k v, f) refl
  ]
]

-- The loop over the rows.
pub record Collected (env : Env) (rows : List Setting) (acc overrides : Dict String Json)
    : Type 0 where
  pub distinct : DistinctKeys acc → DistinctKeys overrides
  pub found : (k : String) → lookup overrides k ≡ or_else (override_at env rows k) (lookup acc k)

found_step :
    (env : Env) (row : Setting) (rows : List Setting) (acc overrides : Dict String Json) (v : Json)
    (k : String)
    → get_setting_by_key rows row.key ≡ none
    → override_of env row ≡ some v
    → lookup overrides k ≡ or_else (override_at env rows k) (lookup (keep_override acc row.key v) k)
    → lookup overrides k ≡ or_else (override_at env (row ∷ rows) k) (lookup acc k)
unfolding get_setting_by_key
found_step env row rows acc overrides v k n e h = elim (Bool-cases (row.key == k)) [
  | inl f ↦
      let gone = subst (λ q. get_setting_by_key rows q ≡ none) ((eq_iff row.key k).0 f) n in
      rw (h, lookup-keep_override acc row.key v k, f, gone, e) refl
  | inr f ↦ rw (h, lookup-keep_override acc row.key v k, f) refl
]

Collected-step :
    (env : Env) (row : Setting) (rows : List Setting) (acc overrides : Dict String Json)
    → get_setting_by_key rows row.key ≡ none
    → (o : Option Json) → override_of env row ≡ o
    → unless_raised o (λ v. collect_overrides env rows (keep_override acc row.key v))
      ≡ some overrides
    → ((v : Json)
        → collect_overrides env rows (keep_override acc row.key v) ≡ some overrides
        → Collected env rows (keep_override acc row.key v) overrides)
    → Collected env (row ∷ rows) acc overrides
Collected-step env row rows acc overrides n none e h next = absurd cc
Collected-step env row rows acc overrides n (some v) e h next =
    let rest = next v h in
    record {
      distinct = λ d. rest.distinct (keep_override-DistinctKeys acc row.key v d);
      found = λ k. found_step env row rows acc overrides v k n e (rest.found k);
    }

pub collect_overrides-Collected :
    (env : Env) (rows : List Setting) (acc overrides : Dict String Json)
    → DistinctRows rows
    → collect_overrides env rows acc ≡ some overrides
    → Collected env rows acc overrides
unfolding collect_overrides get_setting_by_key
collect_overrides-Collected env [] acc overrides u h =
    let same = some-injective acc overrides h in
    record {
      distinct = λ d. subst DistinctKeys same d;
      found = λ k. ap (λ d. lookup d k) (sym same);
    }
collect_overrides-Collected env (row ∷ rows) acc overrides u h =
    Collected-step env row rows acc overrides u.0 (override_of env row) refl h
      (λ v e. collect_overrides-Collected env rows _ overrides u.1 e)

-- The snapshot that the rows ask for, by its fields.
unfoldable pub reference_config : Env → List Setting → Config
reference_config env rows = reference env fields (override_at env rows)
