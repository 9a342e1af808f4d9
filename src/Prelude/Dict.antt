-- ===== src/Prelude/Dict.antt =====
-- Python's `dict`: entries in the order of insertion, each key once when built by these operations.
-- A write to a key that is there keeps its place.
use Prim.Native.Nat.{◌+◌, ◌≤◌}
use mathlib.Core.Path.{◌≡◌, refl}
use mathlib.Core.Option.{Option, none, some}
use mathlib.Core.List.{List, [], ◌∷◌}
use native.Mathlib.Omega.{arith}
use work_behavior_analytics.Prelude.Tests.{if◌then◌else◌}
use work_behavior_analytics.Prelude.Classes.{Key, ◌==◌, same_refl}
use work_behavior_analytics.Prelude.Lists.{length}

abbrev pub Dict {ℓ κ} : Type ℓ → Type κ → Type (ℓ ⊔ κ)
Dict K V = List (K × V)

module _ {ℓ κ} {K : Type ℓ} {V : Type κ} ⦃e : Key K⦄ where
  -- d.get(k)
  unfoldable pub lookup : Dict K V → K → Option V
  lookup [] k = none
  lookup ((j, v) ∷ d) k = if j == k then some v else lookup d k

  -- d[k] = v
  unfoldable pub insert : Dict K V → K → V → Dict K V
  insert [] k v = (k, v) ∷ []
  insert ((j, w) ∷ d) k v = if j == k then (j, v) ∷ d else (j, w) ∷ insert d k v

  -- d.pop(k, None)
  unfoldable pub erase : Dict K V → K → Dict K V
  erase [] k = []
  erase ((j, w) ∷ d) k = let rest = erase d k in if j == k then rest else (j, w) ∷ rest

  pub lookup-insert :
      (d : Dict K V) (k j : K) (v : V)
      → lookup (insert d k v) j ≡ (if k == j then some v else lookup d j)
  unfolding lookup insert
  lookup-insert [] k j v = refl
  lookup-insert ((i, w) ∷ d) k j v =
      ground (arith, lookup-insert d k j v, e.same_iff i k, e.same_iff i j, e.same_iff k j)

  pub lookup-erase :
      (d : Dict K V) (k j : K) → lookup (erase d k) j ≡ (if k == j then none else lookup d j)
  unfolding lookup erase
  lookup-erase [] k j = ground arith
  lookup-erase ((i, w) ∷ d) k j =
      ground (arith, lookup-erase d k j, e.same_iff i k, e.same_iff i j, e.same_iff k j)

  pub length-erase-le : (d : Dict K V) (k : K) → length (erase d k) ≤ length d
  unfolding erase
  length-erase-le [] k = omega arith
  length-erase-le ((i, w) ∷ d) k = ground (arith, length-erase-le d k)

  pub length-insert-le : (d : Dict K V) (k : K) (v : V) → length (insert d k v) ≤ length d + 1
  unfolding insert
  length-insert-le [] k v = omega arith
  length-insert-le ((i, w) ∷ d) k v = ground (arith, length-insert-le d k v)

  pub lookup-insert_self : (d : Dict K V) (k : K) (v : V) → lookup (insert d k v) k ≡ some v
  lookup-insert_self d k v = ground (arith, lookup-insert d k k v, same_refl k)

  pub lookup-erase_self : (d : Dict K V) (k : K) → lookup (erase d k) k ≡ none
  lookup-erase_self d k = ground (arith, lookup-erase d k k, same_refl k)

pub ruleset dict_laws = (lookup-insert, lookup-erase)
