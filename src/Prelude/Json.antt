-- ===== src/Prelude/Json.antt =====
-- JSON documents, which the commands carry as `parameters` and `result_summary`. The numbers that
-- the program itself writes there are natural.
use Prim.Native.Nat.{ℕ, zero}
use Prim.Native.String.{String}
use mathlib.Core.Bool.{Bool, true, false}
use mathlib.Core.Option.{Option, none, some}
use work_behavior_analytics.Prelude.Tests.{if◌then◌else◌}
use work_behavior_analytics.Prelude.Classes.{◌==◌, text_key}
use work_behavior_analytics.Prelude.Text.{is_empty}

mutual
  pub data Json : Type 0 where
    null : Json
    bool : Bool → Json
    num : ℕ → Json
    str : String → Json
    arr : Items → Json
    obj : Fields → Json

  pub data Items : Type 0 where
    nil : Items
    cons : Json → Items → Items

  pub data Fields : Type 0 where
    end : Fields
    field : String → Json → Fields → Fields

-- `d.get(k)` on a decoded object
unfoldable pub get : Fields → String → Option Json
get end k = none
get (field j v d) k = if j == k then some v else get d k

abbrev is_zero : ℕ → Bool
is_zero zero = true
is_zero _ = false

-- Python's truth value of a decoded document
abbrev pub is_falsy : Json → Bool
is_falsy null = true
is_falsy (bool true) = false
is_falsy (bool false) = true
is_falsy (num n) = is_zero n
is_falsy (str s) = is_empty s
is_falsy (arr nil) = true
is_falsy (arr (cons _ _)) = false
is_falsy (obj end) = true
is_falsy (obj (field _ _ _)) = false
