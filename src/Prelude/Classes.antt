-- ===== src/Prelude/Classes.antt =====
-- Python's `==` on what the program compares and uses as keys: numbers, texts and pairs of texts.
use Prim.Native.Nat.{ℕ}
use Prim.Native.String.{String}
use mathlib.Core.Path.{◌≡◌, refl}
use mathlib.Core.Logic.{◌↔◌}
use mathlib.Core.Bool.{Bool, true, ◌&&◌}
use native.Mathlib.Omega.{arith}
use text.Mathlib.Text.{◌==◌ as same_text}
use text.Mathlib.TextEquality.{eq_iff}
use work_behavior_analytics.Prelude.Tests.{nat_beq, nat_beq_iff}

-- A type whose values can be tested for equality.
pub record Key {ℓ} (K : Type ℓ) : Type ℓ where
  pub same : K → K → Bool
  pub same_iff : (j k : K) → (same j k ≡ true) ↔ (j ≡ k)

abbrev pub same_pair : String × String → String × String → Bool
same_pair (provider, id) (provider', id') = same_text provider provider' && same_text id id'

pub same_pair_iff : (p q : String × String) → (same_pair p q ≡ true) ↔ (p ≡ q)
same_pair_iff (a, b) (c, d) = ground (arith, eq_iff a c, eq_iff b d)

instance abbrev pub ℕ_key : Key ℕ
ℕ_key = record { same = nat_beq; same_iff = nat_beq_iff }

-- Keys such as `(provider, external_id)`.
instance abbrev pub pair_key : Key (String × String)
pair_key = record { same = same_pair; same_iff = same_pair_iff }

instance abbrev pub text_key : Key String
text_key = record { same = same_text; same_iff = eq_iff }

infix 50 ◌==◌
abbrev pub ◌==◌ {ℓ} : {K : Type ℓ} ⦃key : Key K⦄ → K → K → Bool
◌==◌ ⦃key⦄ j k = key.same j k

pub same_refl {ℓ} : {K : Type ℓ} ⦃key : Key K⦄ (k : K) → (k == k) ≡ true
same_refl ⦃key⦄ k = (key.same_iff k k).1 refl
