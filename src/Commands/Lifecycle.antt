-- ===== src/Commands/Lifecycle.antt =====
-- The lifecycle of a command as its specification states it, and `validate_state_transition`
-- against it (src/app/api/commands/v1/service.py).
pub mod Update
pub mod History
use work_behavior_analytics.Prelude.{
  List, [], ◌∷◌, ℕ, ◌≤◌, ◌<◌, Bool, true, false, String, ◌≡◌, ◌≢◌, ◌↔◌, ◌⊎◌, inl, inr, refl, arith,
  eq_iff, ◌==◌, text_key, if◌then◌else◌, Bool-cases,
}
use work_behavior_analytics.Commands.Service.{
  Result, ok, err, invalid_transition, validate_state_transition, allowed_from,
}

-- One step forward in the lifecycle.
pub data Step (current new : String) : Type 0 where
  accept : current ≡ "pending" → new ≡ "accepted" → Step current new
  reject : current ≡ "pending" → new ≡ "failed" → Step current new
  start : current ≡ "accepted" → new ≡ "running" → Step current new
  drop : current ≡ "accepted" → new ≡ "failed" → Step current new
  withdraw : current ≡ "accepted" → new ≡ "cancelled" → Step current new
  complete : current ≡ "running" → new ≡ "completed" → Step current new
  fail : current ≡ "running" → new ≡ "failed" → Step current new
  cancel : current ≡ "running" → new ≡ "cancelled" → Step current new

abbrev pub IsTerminal : String → Type 0
IsTerminal s = (s ≡ "completed") ⊎ (s ≡ "failed") ⊎ (s ≡ "cancelled")

-- The table of transitions, row by row.
allowed_cases :
    (s : String)
    → (s ≡ "pending") × (allowed_from s ≡ "accepted" ∷ "failed" ∷ [])
      ⊎ (s ≡ "accepted") × (allowed_from s ≡ "running" ∷ "failed" ∷ "cancelled" ∷ [])
      ⊎ (s ≡ "running") × (allowed_from s ≡ "completed" ∷ "failed" ∷ "cancelled" ∷ [])
      ⊎ (allowed_from s ≡ [])
unfolding allowed_from
allowed_cases s = ground (
  arith,
  eq_iff "pending" s,
  eq_iff "accepted" s,
  eq_iff "running" s,
  eq_iff "completed" s,
  eq_iff "failed" s,
  eq_iff "cancelled" s,
)

validate_sound :
    (current new : String)
    → validate_state_transition current new ≡ ok tt
    → (current ≡ new) ⊎ Step current new
unfolding validate_state_transition
validate_sound current new h = elim (allowed_cases current) [
  | inl (p, e) ↦
      ground
        (arith, eq_iff current new, eq_iff "accepted" new, eq_iff "failed" new, accept p, reject p)
  | inr (inl (p, e)) ↦ ground (
    arith,
    eq_iff current new,
    eq_iff "running" new,
    eq_iff "failed" new,
    eq_iff "cancelled" new,
    start p,
    drop p,
    withdraw p,
  )
  | inr (inr (inl (p, e))) ↦ ground (
    arith,
    eq_iff current new,
    eq_iff "completed" new,
    eq_iff "failed" new,
    eq_iff "cancelled" new,
    complete p,
    fail p,
    cancel p,
  )
  | inr (inr (inr e)) ↦ ground (arith, eq_iff current new)
]

validate_step :
    (current new : String) → Step current new → validate_state_transition current new ≡ ok tt
unfolding validate_state_transition allowed_from
validate_step current new (accept p q) = rw (p, q)
validate_step current new (reject p q) = rw (p, q)
validate_step current new (start p q) = rw (p, q)
validate_step current new (drop p q) = rw (p, q)
validate_step current new (withdraw p q) = rw (p, q)
validate_step current new (complete p q) = rw (p, q)
validate_step current new (fail p q) = rw (p, q)
validate_step current new (cancel p q) = rw (p, q)

validate_same : (s : String) → validate_state_transition s s ≡ ok tt
unfolding validate_state_transition
validate_same s = ground (arith, eq_iff s s)

-- A change of status is accepted exactly when it is none or one step of the lifecycle.
pub validate_iff :
    (current new : String)
    → (validate_state_transition current new ≡ ok tt) ↔ ((current ≡ new) ⊎ Step current new)
validate_iff current new = (
  validate_sound current new,
  λ h. elim h [
    | inl same ↦ rw (← same) (validate_same current)
    | inr step ↦ validate_step current new step
  ],
)

-- The verdict, and what the error holds.
pub validate_cases :
    (current new : String)
    → (validate_state_transition current new ≡ ok tt)
      ⊎ (validate_state_transition current new ≡ err (invalid_transition current new))
unfolding validate_state_transition
validate_cases current new = ground arith

pub rank : String → ℕ
rank s =
    if s == "pending" then 0 else if s == "accepted" then 1 else if s == "running" then 2 else 3

-- Every step goes up, so there are at most three.
pub rank-Step : {s t : String} → Step s t → rank s < rank t
unfolding rank
rank-Step (accept p q) = rw (p, q) (omega arith)
rank-Step (reject p q) = rw (p, q) (omega arith)
rank-Step (start p q) = rw (p, q) (omega arith)
rank-Step (drop p q) = rw (p, q) (omega arith)
rank-Step (withdraw p q) = rw (p, q) (omega arith)
rank-Step (complete p q) = rw (p, q) (omega arith)
rank-Step (fail p q) = rw (p, q) (omega arith)
rank-Step (cancel p q) = rw (p, q) (omega arith)

pub rank-terminal : {s : String} → IsTerminal s → rank s ≡ 3
unfolding rank
rank-terminal (inl e) = rw e
rank-terminal (inr (inl e)) = rw e
rank-terminal (inr (inr e)) = rw e

pub rank-le : (s : String) → rank s ≤ 3
unfolding rank
rank-le s = ground arith

-- A terminal status has no step out of it.
pub Step-not-IsTerminal : {s t : String} → Step s t → ¬ IsTerminal s
Step-not-IsTerminal st h = omega (arith, rank-Step st, rank-terminal h, rank-le _)
