-- ===== src/Daemon/Reconcile/Exits.antt =====
-- `_poll_scan_children` of src/connectors/producers/daemon_common.py over a network that delivers.
use work_behavior_analytics.Prelude.{
  ℕ, String, ◌≡◌, ◌≢◌, refl, ◌⊎◌, inl, inr, Option, none, some, [], ◌∷◌, arith, ◌==◌, nat_beq_iff,
  text_key, ℕ_key, if◌then◌else◌, Bool-cases, contains,
}
use work_behavior_analytics.Prelude.Dict.{Dict, lookup, lookup-erase}
use work_behavior_analytics.Prelude.Json.{Fields}
use work_behavior_analytics.Commands.Lifecycle.{IsTerminal}
use work_behavior_analytics.Daemon.World.{Environment, World, terminal_states, finalize_if_active}
use work_behavior_analytics.Daemon.State.{
  Daemon, Exit, reconcile_exit, poll_exits, poll_scan_children,
}
use work_behavior_analytics.Daemon.Reconcile.Delivered.{
  Delivers, IsLive, HasStatus, finalize_live, finalize_terminal, finalize_other,
}

-- How a command ends whose scan child is gone.
abbrev pub closed_status : String → String
closed_status s = if contains terminal_states s then s else "failed"

closed_live : (s : String) → IsLive s → closed_status s ≡ "failed"
closed_live s (inl p) = rw p
closed_live s (inr (inl p)) = rw p
closed_live s (inr (inr p)) = rw p

closed_terminal : (s : String) → IsTerminal s → closed_status s ≡ s
closed_terminal s (inl p) = rw p
closed_terminal s (inr (inl p)) = rw p
closed_terminal s (inr (inr p)) = rw p

pub closed_status-IsTerminal : (s : String) → IsLive s ⊎ IsTerminal s → IsTerminal (closed_status s)
closed_status-IsTerminal s (inl h) = inr (inl (closed_live s h))
closed_status-IsTerminal s (inr h) = rw (closed_terminal s h) h

-- One of the exits is the command's.
abbrev pub Exited : ℕ → Dict ℕ Exit → Type 0
Exited id [] = ⊥
Exited id ((pid, e) ∷ rest) = (e.0 ≡ id) ⊎ Exited id rest

module _ (env : Environment) (net : Delivers env) (id : ℕ) where
  pub finalize_closes :
      (w : World) (s message : String) (summary : Option Fields)
      → HasStatus w.db id s
      → IsLive s ⊎ IsTerminal s
      → HasStatus (finalize_if_active env w id message summary).1.db id (closed_status s)
  finalize_closes w s message summary h (inl live) =
      rw (closed_live s live) (finalize_live env net w id s _ _ h live)
  finalize_closes w s message summary h (inr done) =
      rw (closed_terminal s done) (finalize_terminal env net w id s _ _ h done)

  reconcile_self :
      (d : Daemon) (pid code : ℕ) (s : String)
      → HasStatus d.world.db id s
      → IsLive s ⊎ IsTerminal s
      → HasStatus (reconcile_exit env d pid (id, code)).world.db id (closed_status s)
  unfolding reconcile_exit
  reconcile_self d pid code s h c = finalize_closes d.world s _ _ h c

  reconcile_other :
      (d : Daemon) (pid : ℕ) (e : Exit) (s : String)
      → e.0 ≢ id
      → HasStatus d.world.db id s
      → HasStatus (reconcile_exit env d pid e).world.db id s
  unfolding reconcile_exit
  reconcile_other d pid (j, code) s ne h = finalize_other env net d.world j id s _ _ ne h

  -- A closed command stays as it is.
  poll_exits_keeps :
      (d : Daemon) (exits : Dict ℕ Exit) (s : String)
      → IsTerminal s
      → HasStatus d.world.db id s
      → HasStatus (poll_exits env d exits).world.db id s
  unfolding poll_exits
  poll_exits_keeps d [] s t h = h
  poll_exits_keeps d ((pid, (j, code)) ∷ rest) s t h = elim (Bool-cases (j == id)) [
    | inl same ↦ poll_exits_keeps (reconcile_exit env d pid (j, code)) rest s t (
        rw ((nat_beq_iff j id).0 same)
          (rw (closed_terminal s t) at (reconcile_self d pid code s h (inr t))))
    | inr other ↦
        poll_exits_keeps (reconcile_exit env d pid (j, code)) rest s t
          (reconcile_other d pid (j, code) s (ground (arith, nat_beq_iff j id)) h)
  ]

  poll_exits_closes :
      (d : Daemon) (exits : Dict ℕ Exit) (s : String)
      → Exited id exits
      → HasStatus d.world.db id s
      → IsLive s ⊎ IsTerminal s
      → HasStatus (poll_exits env d exits).world.db id (closed_status s)
  unfolding poll_exits
  poll_exits_closes d [] s x h c = elim x [ ]
  poll_exits_closes d ((pid, (j, code)) ∷ rest) s x h c = elim (Bool-cases (j == id)) [
    | inl same ↦
        poll_exits_keeps (reconcile_exit env d pid (j, code)) rest (closed_status s)
          (closed_status-IsTerminal s c)
          (rw ((nat_beq_iff j id).0 same) (reconcile_self d pid code s h c))
    | inr other ↦
        let ne : j ≢ id = ground (arith, nat_beq_iff j id) in
        elim x [
          | inl e ↦ absurd (ne e)
          | inr later ↦
              poll_exits_closes (reconcile_exit env d pid (j, code)) rest s later
                (reconcile_other d pid (j, code) s ne h) c
        ]
  ]

-- After the idle tick's reconciliation the command of every exited scan child is closed: failed if it
-- was still pending, accepted or running, and as it was if it had ended. It takes a network that
-- delivers.
pub poll_scan_children-closes :
    (env : Environment) (d : Daemon) (id : ℕ) (s : String)
    → Delivers env
    → Exited id d.exited
    → HasStatus d.world.db id s
    → IsLive s ⊎ IsTerminal s
    → HasStatus (poll_scan_children env d).world.db id (closed_status s)
      × IsTerminal (closed_status s)
unfolding poll_scan_children
poll_scan_children-closes env d id s net x h c =
    (poll_exits_closes env net id d d.exited s x h c, closed_status-IsTerminal s c)

-- Each exit is reconciled once, also if the network loses the requests: the record is empty after.
exited_after :
    (env : Environment) (d : Daemon) (exits : Dict ℕ Exit) (pid : ℕ)
    → lookup (poll_exits env d exits).exited pid
      ≡ elim (lookup exits pid) [ none ↦ lookup d.exited pid | some _ ↦ none ]
unfolding poll_exits reconcile_exit lookup
exited_after env d [] pid = refl
exited_after env d ((p, (j, code)) ∷ rest) pid = ground (
  arith,
  exited_after env (reconcile_exit env d p (j, code)) rest pid,
  lookup-erase d.exited p pid,
)

all_absent {ℓ} : {V : Type ℓ} (m : Dict ℕ V) → ((k : ℕ) → lookup m k ≡ none) → m ≡ []
unfolding lookup
all_absent [] h = refl
all_absent ((k, v) ∷ m) h = ground (arith, h k, nat_beq_iff k k)

-- The reconciliation empties the record of exits, whatever the network does.
pub exited-poll_scan_children :
    (env : Environment) (d : Daemon) → (poll_scan_children env d).exited ≡ []
unfolding poll_scan_children
exited-poll_scan_children env d = all_absent _ (λ k. ground (arith, exited_after env d d.exited k))
