-- ===== src/Settings/Build.antt =====
-- What `RuntimeConfig` of src/common/runtime_settings/config.py makes of overrides, field by field.
use mathlib.Core.Path.{subst}
use work_behavior_analytics.Prelude.{
  Bool, true, false, String, Option, none, some, List, [], ◌∷◌, All, is_some, ◌==◌, text_key,
  eq_iff, if◌then◌else◌, Bool-cases, Option-cases, ◌≡◌, refl, sym, ap, ◌∙◌, ◌⊎◌, inl, inr, arith,
}
use work_behavior_analytics.Prelude.Dict.{Dict, lookup, insert, lookup-insert}
use work_behavior_analytics.Prelude.Json.{Json}
use work_behavior_analytics.Settings.Config.{
  Env, Kind, fields, default_of, validate_field, field_value, Config, with_field, build,
}
use work_behavior_analytics.Settings.Source.{keep_valid, accepts_alone}

abbrev pub value_or : Json → Option Json → Json
value_or d none = d
value_or d (some v) = v

-- An override where it is valid, and the default otherwise.
abbrev pub reference_value : Env → Kind → Option Json → Json
reference_value env kind none = default_of kind
reference_value env kind (some v) = value_or (default_of kind) (validate_field env kind v)

abbrev pub reference : Env → List (String × Kind) → (String → Option Json) → Config
reference env [] override = []
reference env ((key, kind) ∷ fs) override =
    (key, reference_value env kind (override key)) ∷ reference env fs override

-- The first field of a key is the one that is meant.
abbrev pub IsField : String × Kind → Type 0
IsField (key, kind) = lookup fields key ≡ some kind

pub fields-IsField : All IsField fields
unfolding lookup
fields-IsField = ground arith

pub field_value-cases :
    (env : Env) (kind : Kind) (o : Option Json)
    → (field_value env kind o ≡ none) ⊎ (field_value env kind o ≡ some (reference_value env kind o))
field_value-cases env kind none = inr refl
field_value-cases env kind (some v) = elim (Option-cases (validate_field env kind v)) [
  | inl e ↦ inl e
  | inr (w, e) ↦ inr (rw e refl)
]

pub all_valid :
    (env : Env) (fs : List (String × Kind)) (overrides : Dict String Json)
    → (build env fs overrides ≡ none)
      ⊎ (build env fs overrides ≡ some (reference env fs (lookup overrides)))
unfolding build
all_valid env [] overrides = inr refl
all_valid env ((key, kind) ∷ fs) overrides =
    elim (field_value-cases env kind (lookup overrides key)) [
      | inl e ↦ inl (rw e refl)
      | inr e ↦ elim (all_valid env fs overrides) [
        | inl f ↦ inl (rw (e, f) refl)
        | inr f ↦ inr (rw (e, f) refl)
      ]
    ]

single-invalid :
    (env : Env) (k : String) (kind : Kind) (v : Json) (fs : List (String × Kind))
    → lookup fs k ≡ some kind
    → validate_field env kind v ≡ none
    → build env fs ((k, v) ∷ []) ≡ none
unfolding build lookup
single-invalid env k kind v [] e h = absurd cc
single-invalid env k kind v ((key, kind') ∷ fs) e h =
    ground (arith, eq_iff k key, eq_iff key k, single-invalid env k kind v fs)

with_field-some :
    (key : String) (v : Json) (rest : Option Config)
    → is_some rest ≡ true
    → is_some (with_field key (some v) rest) ≡ true
with_field-some key v none h = h
with_field-some key v (some c) h = refl

pub some-injective : {A : Type 0} (a b : A) → Option.some a ≡ some b → a ≡ b
some-injective a b e = cc

single-valid :
    (env : Env) (k : String) (kind : Kind) (v w : Json) (fs : List (String × Kind))
    → All IsField fs
    → lookup fields k ≡ some kind
    → validate_field env kind v ≡ some w
    → is_some (build env fs ((k, v) ∷ [])) ≡ true
unfolding build lookup
single-valid env k kind v w [] a e h = refl
single-valid env k kind v w ((key, kind') ∷ fs) a e h =
    let rest = single-valid env k kind v w fs a.1 e h in
    elim (Bool-cases (k == key)) [
      | inr n ↦ rw n (with_field-some key _ _ rest)
      | inl y ↦
          let same =
            some-injective kind' kind
              (sym a.0 ∙ sym (ap (lookup fields) ((eq_iff k key).0 y)) ∙ e) in
          rw (y, same, h) (with_field-some key w _ rest)
    ]

-- `RuntimeConfig(**{key: value})` accepts just what the field of the key accepts.
pub accepts_alone_iff :
    (env : Env) (k : String) (kind : Kind) (v : Json)
    → lookup fields k ≡ some kind
    → accepts_alone env k v ≡ is_some (validate_field env kind v)
unfolding accepts_alone
accepts_alone_iff env k kind v e = elim (Option-cases (validate_field env kind v)) [
  | inl h ↦ rw (h, single-invalid env k kind v fields e h) refl
  | inr (w, h) ↦ rw (h, single-valid env k kind v w fields fields-IsField e h) refl
]

-- Each key once.
abbrev pub DistinctKeys : Dict String Json → Type 0
DistinctKeys [] = Unit {0}
DistinctKeys ((k, v) ∷ d) = (lookup d k ≡ none) × DistinctKeys d

abbrev pub if_valid : (String → Json → Bool) → String → Option Json → Option Json → Option Json
if_valid is_valid k none other = other
if_valid is_valid k (some v) other = if is_valid k v then some v else other

module _ (is_valid : String → Json → Bool) where
  pub lookup-keep_valid :
      (d acc : Dict String Json) (k : String)
      → DistinctKeys d
      → lookup (keep_valid is_valid d acc) k ≡ if_valid is_valid k (lookup d k) (lookup acc k)
  unfolding keep_valid lookup
  lookup-keep_valid [] acc k u = refl
  lookup-keep_valid ((j, v) ∷ d) acc k u = elim (Bool-cases (j == k)) [
    | inl e ↦
        let same = (eq_iff j k).0 e in
        let gone = subst (λ q. lookup d q ≡ none) same u.0 in
        elim (Bool-cases (is_valid j v)) [
          | inl y ↦
              rw
                (
                  y,
                  lookup-keep_valid d (insert acc j v) k u.1,
                  lookup-insert acc j k v,
                  e,
                  gone,
                  subst (λ q. is_valid q v ≡ true) same y,
                )
                refl
          | inr n ↦
              rw
                (
                  n,
                  lookup-keep_valid d acc k u.1,
                  e,
                  gone,
                  subst (λ q. is_valid q v ≡ false) same n,
                )
                refl
        ]
    | inr e ↦ elim (Bool-cases (is_valid j v)) [
      | inl y ↦ rw (y, lookup-keep_valid d (insert acc j v) k u.1, lookup-insert acc j k v, e) refl
      | inr n ↦ rw (n, lookup-keep_valid d acc k u.1, e) refl
    ]
  ]

pub insert-DistinctKeys :
    (d : Dict String Json) (k : String) (v : Json) → DistinctKeys d → DistinctKeys (insert d k v)
unfolding insert lookup
insert-DistinctKeys [] k v u = (refl, tt)
insert-DistinctKeys ((j, w) ∷ d) k v u = elim (Bool-cases (j == k)) [
  | inl e ↦ rw e u
  | inr e ↦ rw e (
    ground (arith, lookup-insert d k j v, eq_iff k j, eq_iff j k, u.0),
    insert-DistinctKeys d k v u.1,
  )
]
