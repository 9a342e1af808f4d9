-- ===== src/Settings/Reads.antt =====
-- What readers of the cache of src/common/runtime_settings/cache.py get.
use mathlib.Core.Path.{subst}
use work_behavior_analytics.Prelude.{
  ℕ, ◌≤◌, Bool, true, ◌&&◌, String, Option, none, some, List, [], ◌∷◌, All, leb, ◌==◌, text_key,
  eq_iff, Bool-cases, ◌≡◌, refl, ap, ◌∙◌, inl, inr, arith,
}
use work_behavior_analytics.Prelude.Dict.{lookup}
use work_behavior_analytics.Prelude.Json.{Json, null, bool, num, str, arr, obj}
use work_behavior_analytics.Settings.Config.{
  Env, Config, Kind, int_field, flag_field, text_field, timezone_field, fields, at_most, in_bounds,
  as_int, validate_field, value, get_int, get_bool,
}
use work_behavior_analytics.Settings.Build.{reference_value, value_or, reference}
use work_behavior_analytics.Settings.Collected.{override_at, reference_config}
use work_behavior_analytics.Settings.Table.{Setting}

first_field :
    (k key : String) (kind' kind : Kind) (fs : List (String × Kind))
    → (k == key) ≡ true
    → lookup ((k, kind') ∷ fs) key ≡ some kind
    → kind' ≡ kind
unfolding lookup
first_field k key kind' kind fs e h = ground arith

lookup-reference :
    (env : Env) (fs : List (String × Kind)) (override : String → Option Json) (key : String)
    (kind : Kind)
    → lookup fs key ≡ some kind
    → lookup (reference env fs override) key ≡ some (reference_value env kind (override key))
unfolding lookup
lookup-reference env [] override key kind h = absurd cc
lookup-reference env ((k, kind') ∷ fs) override key kind h = elim (Bool-cases (k == key)) [
  | inl e ↦ rw (e, (eq_iff k key).0 e, first_field k key kind' kind fs e h) refl
  | inr e ↦ rw e (lookup-reference env fs override key kind (ground arith))
]

-- The defaults of the numbers are within their bounds.
abbrev DefaultFits : Kind → Type 0
DefaultFits (int_field d ge le) = (leb ge d && at_most d le) ≡ true
DefaultFits (flag_field d) = Unit
DefaultFits (text_field s) = Unit
DefaultFits (timezone_field s) = Unit

fields-DefaultFits : All (λ f. DefaultFits f.1) fields
fields-DefaultFits = ground arith

lookup-DefaultFits :
    (fs : List (String × Kind)) (key : String) (kind : Kind)
    → All (λ f. DefaultFits f.1) fs
    → lookup fs key ≡ some kind
    → DefaultFits kind
unfolding lookup
lookup-DefaultFits [] key kind a h = absurd cc
lookup-DefaultFits ((k, kind') ∷ fs) key kind a h = elim (Bool-cases (k == key)) [
  | inl e ↦ subst DefaultFits (first_field k key kind' kind fs e h) a.0
  | inr e ↦ lookup-DefaultFits fs key kind a.1 (ground arith)
]

-- A number within the bounds.
abbrev pub FitsInt : ℕ → Option ℕ → Json → Type 0
FitsInt ge le v = (n : ℕ) × (v ≡ num n) × (ge ≤ n) × (at_most n le ≡ true)

in_bounds-FitsInt :
    (d ge : ℕ) (le o : Option ℕ)
    → (leb ge d && at_most d le) ≡ true
    → FitsInt ge le (value_or (num d) (in_bounds ge le o))
in_bounds-FitsInt d ge le none f = (d, refl, ground arith, ground arith)
in_bounds-FitsInt d ge le (some n) f = elim (Bool-cases (leb ge n && at_most n le)) [
  | inl e ↦ rw e (n, refl, ground arith, ground arith)
  | inr e ↦ rw e (d, refl, ground arith, ground arith)
]

reference_value-FitsInt :
    (env : Env) (d ge : ℕ) (le : Option ℕ) (o : Option Json)
    → (leb ge d && at_most d le) ≡ true
    → FitsInt ge le (reference_value env (int_field d ge le) o)
unfolding validate_field
reference_value-FitsInt env d ge le none f = (d, refl, ground arith, ground arith)
reference_value-FitsInt env d ge le (some v) f = in_bounds-FitsInt d ge le (as_int env v) f

abbrev IsFlag : Json → Type 0
IsFlag v = (b : Bool) × (v ≡ bool b)

reference_value-IsFlag :
    (env : Env) (d : Bool) (o : Option Json) → IsFlag (reference_value env (flag_field d) o)
unfolding validate_field
reference_value-IsFlag env d none = (d, refl)
reference_value-IsFlag env d (some (bool b)) = (b, refl)
reference_value-IsFlag env d (some null) = (d, refl)
reference_value-IsFlag env d (some (num n)) = (d, refl)
reference_value-IsFlag env d (some (str s)) = (d, refl)
reference_value-IsFlag env d (some (arr xs)) = (d, refl)
reference_value-IsFlag env d (some (obj x)) = (d, refl)

cached :
    (env : Env) (rows : List Setting) (config : Config) (key : String) (kind : Kind)
    → config ≡ reference_config env rows
    → lookup fields key ≡ some kind
    → lookup config key ≡ some (reference_value env kind (override_at env rows key))
unfolding reference_config
cached env rows config key kind s h =
    ap (λ c. lookup c key) s ∙ lookup-reference env fields (override_at env rows) key kind h

-- Of a snapshot that is the effective configuration of some rows: reading a number never raises TypeError
-- or AttributeError, and gives a number within the bounds of its field, whatever the rows and the
-- environment hold; and reading a flag gives a flag.
pub reference_config-reads :
    (env : Env) (rows : List Setting) (config : Config)
    → config ≡ reference_config env rows
    → ((key : String) (d ge : ℕ) (le : Option ℕ)
        → lookup fields key ≡ some (int_field d ge le)
        → (n : ℕ) × (get_int config key ≡ value n) × (ge ≤ n) × (at_most n le ≡ true))
      × ((key : String) (d : Bool)
          → lookup fields key ≡ some (flag_field d)
          → (b : Bool) × (get_bool config key ≡ value b))
unfolding get_int get_bool
reference_config-reads env rows config s = (
  λ key d ge le h.
      let (n, v, l, m) =
        reference_value-FitsInt env d ge le (override_at env rows key)
          (lookup-DefaultFits fields key (int_field d ge le) fields-DefaultFits h) in
      (n, rw (cached env rows config key (int_field d ge le) s h, v) refl, l, m),
  λ key d h.
      let (b, v) = reference_value-IsFlag env d (override_at env rows key) in
      (b, rw (cached env rows config key (flag_field d) s h, v) refl),
)
