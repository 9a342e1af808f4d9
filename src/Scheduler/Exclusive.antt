-- ===== src/Scheduler/Exclusive.antt =====
-- One leader at a time: what attempts at the lease of src/app/scheduler.py do to each other.
use work_behavior_analytics.Prelude.{
  ℕ, ◌+◌, ◌*◌, ◌≤◌, ◌<◌, Bool, true, false, String, ◌≡◌, ◌↔◌, ◌⊎◌, refl, Option, none, some, List,
  [], ◌∷◌, arith, eq_iff, text_key, All,
}
use work_behavior_analytics.Scheduler.Lease.{
  SchedulerLease, is_holder, may_claim, lease_seconds, claim_row, try_acquire_lease,
}

-- An attempt of an instance at a time.
pub record Attempt : Type 0 where
  pub instance_id : String
  pub at : ℕ
  pub tick_minutes : ℕ

-- The results of attempts one after the other, and the lease in the end.
unfoldable pub attempts : List SchedulerLease → List Attempt → List Bool × List SchedulerLease
attempts leases [] = ([], leases)
attempts leases (a ∷ rest) =
    let (claimed, after) = try_acquire_lease leases a.instance_id a.at a.tick_minutes in
    let (results, end) = attempts after rest in (claimed ∷ results, end)

is_holder_iff :
    (held_by : Option String) (a : String) → (is_holder held_by a ≡ true) ↔ (held_by ≡ some a)
is_holder_iff none a = ground arith
is_holder_iff (some b) a = ground (arith, eq_iff b a)

-- An instance gets the lease exactly when the lease has expired or is its own. Then the row is its own
-- until two tick lengths from now; otherwise the row stays.
pub try_acquire_iff :
    (lease : SchedulerLease) (a : String) (now tick_minutes : ℕ)
    → let r : Bool × List SchedulerLease = try_acquire_lease (lease ∷ []) a now tick_minutes in
      ((r.0 ≡ true) ↔ ((lease.expires_at < now) ⊎ (lease.held_by ≡ some a)))
      × (r.0 ≡ true → r.1 ≡ claim_row lease a now tick_minutes ∷ [])
      × (r.0 ≡ false → r.1 ≡ lease ∷ [])
unfolding try_acquire_lease may_claim
try_acquire_iff lease a now tick_minutes = ground (arith, is_holder_iff lease.held_by a)

module _ (owner : String) (lease : SchedulerLease) where
  -- An attempt of another instance before the lease expires.
  abbrev pub IsTooEarly : Attempt → Type 0
  IsTooEarly b = (¬ (b.instance_id ≡ owner)) × (b.at ≤ lease.expires_at)

  abbrev pub AllFail : List Bool × List SchedulerLease → Type 0
  AllFail r = All (λ claimed. claimed ≡ false) r.0 × (r.1 ≡ lease ∷ [])

  fails :
      (b : Attempt)
      → lease.held_by ≡ some owner
      → IsTooEarly b
      → try_acquire_lease (lease ∷ []) b.instance_id b.at b.tick_minutes ≡ (false, lease ∷ [])
  unfolding try_acquire_lease may_claim
  fails b held early = ground (arith, is_holder_iff lease.held_by b.instance_id)

  attempts-AllFail :
      (others : List Attempt)
      → lease.held_by ≡ some owner
      → All IsTooEarly others
      → AllFail (attempts (lease ∷ []) others)
  unfolding attempts
  attempts-AllFail [] held early = (tt, refl)
  attempts-AllFail (b ∷ rest) held early =
      rw (fails b held early.0)
        (let after = attempts-AllFail rest held early.1 in ((refl, after.0), after.1))

within_lease :
    (a : String) (now tick_minutes : ℕ) (others : List Attempt)
    → All (λ b. (¬ (b.instance_id ≡ a)) × (b.at ≤ now + 120 * tick_minutes)) others
    → All (λ b. (¬ (b.instance_id ≡ a)) × (b.at ≤ now + lease_seconds tick_minutes)) others
within_lease a now tick_minutes [] h = tt
within_lease a now tick_minutes (b ∷ rest) h =
    ((h.0.0, (let early = h.0.1 in omega arith)), within_lease a now tick_minutes rest h.1)

-- After an instance got the lease, every attempt of any other instance within two tick lengths, 120
-- seconds for each minute of a tick, fails
-- and leaves the lease as it is, whatever the order and number of the attempts.
pub leader_is_exclusive :
    (lease : SchedulerLease) (a : String) (now tick_minutes : ℕ) (others : List Attempt)
    → (try_acquire_lease (lease ∷ []) a now tick_minutes).0 ≡ true
    → All (λ b. (¬ (b.instance_id ≡ a)) × (b.at ≤ now + 120 * tick_minutes)) others
    → All
        (λ claimed. claimed ≡ false)
        (attempts (try_acquire_lease (lease ∷ []) a now tick_minutes).1 others).0
      × ((attempts (try_acquire_lease (lease ∷ []) a now tick_minutes).1 others).1
          ≡ (try_acquire_lease (lease ∷ []) a now tick_minutes).1)
leader_is_exclusive lease a now tick_minutes others got early =
    rw ((try_acquire_iff lease a now tick_minutes).1 got) (
      attempts-AllFail a (claim_row lease a now tick_minutes) others refl
        (within_lease a now tick_minutes others early))
