-- ===== src/Daemon/Reconcile/Cancelled.antt =====
-- `_cancel_scan` and `run_scan` of src/connectors/producers/daemon_common.py over a network that
-- delivers.
use work_behavior_analytics.Prelude.{
  ℕ, true, String, ◌≡◌, ◌≢◌, refl, sym, ◌⊎◌, inl, inr, none, some, List, [], ◌∷◌, ◌++◌ as ◌⧺◌,
  text_key, ℕ_key, if◌then◌else◌, Bool-cases,
}
use work_behavior_analytics.Prelude.Dict.{lookup, lookup-erase_self}
use work_behavior_analytics.Prelude.Json.{Json}
use work_behavior_analytics.Commands.Row.{Envelope}
use work_behavior_analytics.Commands.Lifecycle.{
  Step, IsTerminal, start, withdraw, cancel, complete, fail,
}
use work_behavior_analytics.Daemon.World.{
  Environment, World, update_status, finalize_if_active, running_update, final_update,
}
use work_behavior_analytics.Daemon.State.{Daemon, patch_running, find_pid_by_command_id}
use work_behavior_analytics.Daemon.Cancel.{
  cancel_running, cancel_orphan, cancel_pid, cancel_target, cancel_scan,
}
use work_behavior_analytics.Daemon.Loop.{ScanOutcome, returned, raised, run_scan}
use work_behavior_analytics.Daemon.Reconcile.Delivered.{
  Delivers, IsLive, HasStatus, finalize_other, update_status-HasStatus, update_status-other,
}
use work_behavior_analytics.Daemon.Reconcile.Exits.{closed_status, finalize_closes}

-- A scan that a cancel can end.
abbrev pub IsCancellable : String → Type 0
IsCancellable s = (s ≡ "accepted") ⊎ (s ≡ "running")

to_cancelled : (s : String) → IsCancellable s → Step s "cancelled"
to_cancelled s (inl p) = withdraw p refl
to_cancelled s (inr p) = cancel p refl

-- What a cancel leaves behind.
pub record Cancelled (id target pid : ℕ) (before : List ℕ) (after : Daemon) : Type 0 where
  pub target_status : HasStatus after.world.db target "cancelled"
  pub cancel_status : HasStatus after.world.db id "completed"
  pub forgotten : lookup after.children pid ≡ none
  pub signal_sent : after.signalled ≡ before ⧺ pid ∷ []

module _ (env : Environment) (net : Delivers env) (id target : ℕ) (ne : id ≢ target) where
  cancel_running-Cancelled :
      (d : Daemon) (pid : ℕ) (s : String)
      → HasStatus d.world.db target s
      → IsCancellable s
      → HasStatus d.world.db id "running"
      → Cancelled id target pid d.signalled (cancel_running env d id target pid)
  unfolding cancel_running
  cancel_running-Cancelled d pid s ht c hi =
      let u1 = final_update "cancelled" (env.clock d.world.sent) none none in
      let w1 = update_status env d.world target u1 in
      let t1 = update_status-HasStatus env net d.world target u1 s ht (inr (to_cancelled s c)) in
      let i1 = update_status-other env net d.world target id u1 "running" (λ e. ne (sym e)) hi in
      record {
        target_status = update_status-other env net w1 id target _ "cancelled" ne t1;
        cancel_status =
            update_status-HasStatus env net w1 id _ "running" i1 (inr (complete refl refl));
        forgotten = lookup-erase_self d.children pid;
        signal_sent = refl;
      }

  -- The cancel of a target whose process is not there closes it, and the cancel completes.
  cancel_orphan_closes :
      (d : Daemon) (s : String)
      → HasStatus d.world.db target s
      → IsLive s ⊎ IsTerminal s
      → HasStatus d.world.db id "running"
      → HasStatus (cancel_orphan env d id target).world.db target (closed_status s)
        × HasStatus (cancel_orphan env d id target).world.db id "completed"
  unfolding cancel_orphan
  cancel_orphan_closes d s ht c hi =
      let w1 = (finalize_if_active env d.world target "Scan process not found — orphaned" none).1 in
      let t1 = finalize_closes env net target d.world s _ _ ht c in
      let i1 = finalize_other env net d.world target id "running" _ _ (λ e. ne (sym e)) hi in
      (
        update_status-other env net w1 id target _ (closed_status s) ne t1,
        update_status-HasStatus env net w1 id _ "running" i1 (inr (complete refl refl)),
      )

  started :
      (d : Daemon) (s : String)
      → HasStatus d.world.db target s
      → HasStatus d.world.db id "accepted"
      → HasStatus (patch_running env d id).world.db target s
        × HasStatus (patch_running env d id).world.db id "running"
  unfolding patch_running
  started d s ht hi = (
    update_status-other env net d.world id target _ s ne ht,
    update_status-HasStatus env net d.world id _ "accepted" hi (inr (start refl refl)),
  )

module _ (env : Environment) (show_json : Json → String) (d : Daemon) (e : Envelope) (target : ℕ)
    (v : Json) (s : String) (net : Delivers env) (ne : e.command_id ≢ target)
    (named : cancel_target e.parameters ≡ some v) (parsed : env.parse_uuid v ≡ some target)
    (ht : HasStatus d.world.db target s) (hi : HasStatus d.world.db e.command_id "accepted") where
  -- A cancel of a scan that runs in a child, over a network that delivers: the child gets a SIGTERM and
  -- is forgotten, the scan is cancelled, and the cancel command is completed.
  pub cancel_scan-Cancelled :
      (pid : ℕ)
      → find_pid_by_command_id d.children target ≡ some pid
      → env.alive pid ≡ true
      → IsCancellable s
      → Cancelled e.command_id target pid d.signalled (cancel_scan env show_json d e)
  unfolding cancel_scan cancel_pid patch_running
  cancel_scan-Cancelled pid found there c =
      let (t1, i1) = started env net e.command_id target ne d s ht hi in
      rw (named, parsed, found, there)
        (cancel_running-Cancelled env net e.command_id target ne (patch_running env d e.command_id)
          pid s t1 c i1)

  -- A cancel of a scan that no child runs closes the scan, which fails unless it had ended, and is
  -- itself completed.
  pub cancel_scan_orphan :
      find_pid_by_command_id d.children target ≡ none
      → IsLive s ⊎ IsTerminal s
      → HasStatus (cancel_scan env show_json d e).world.db target (closed_status s)
        × HasStatus (cancel_scan env show_json d e).world.db e.command_id "completed"
  unfolding cancel_scan cancel_pid patch_running
  cancel_scan_orphan absent c =
      let (t1, i1) = started env net e.command_id target ne d s ht hi in
      rw (named, parsed, absent)
        (cancel_orphan_closes env net e.command_id target ne (patch_running env d e.command_id) s t1
          c i1)

-- The status that a scan's outcome earns, and the exit code.
abbrev pub earned : ScanOutcome → String × ℕ
earned (raised _) = ("failed", 1)
earned (returned r) = if r.success then ("completed", 0) else ("failed", 1)

-- An accepted scan ends completed, with exit code 0, exactly when its result is a success; with a
-- failed item or an exception it ends failed, with exit code 1. It takes a network that delivers.
pub run_scan-earned :
    (env : Environment) (w : World) (id : ℕ) (outcome : ScanOutcome)
    → Delivers env
    → HasStatus w.db id "accepted"
    → HasStatus (run_scan env w id outcome).0.db id (earned outcome).0
      × ((run_scan env w id outcome).1 ≡ (earned outcome).1)
unfolding run_scan
run_scan-earned env w id (raised message) net h =
    let u = running_update (env.clock w.sent) in
    let h1 = update_status-HasStatus env net w id u "accepted" h (inr (start refl refl)) in
    (
      update_status-HasStatus env net (update_status env w id u) id _ "running" h1
          (inr (fail refl refl)),
      refl,
    )
run_scan-earned env w id (returned r) net h =
    let u = running_update (env.clock w.sent) in
    let h1 = update_status-HasStatus env net w id u "accepted" h (inr (start refl refl)) in
    elim (Bool-cases r.success) [
      | inl good ↦ rw good (
        update_status-HasStatus env net (update_status env w id u) id _ "running" h1
            (inr (complete refl refl)),
        refl,
      )
      | inr bad ↦ rw bad (
        update_status-HasStatus env net (update_status env w id u) id _ "running" h1
            (inr (fail refl refl)),
        refl,
      )
    ]
