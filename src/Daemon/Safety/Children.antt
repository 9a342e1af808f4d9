-- ===== src/Daemon/Safety/Children.antt =====
-- Spawning and polling children, of src/connectors/producers/daemon_common.py, only move rows forward.
use work_behavior_analytics.Prelude.{
  ℕ, String, inl, inr, Option, none, some, [], ◌∷◌, text_key, ℕ_key, leb, length, Bool-cases,
}
use work_behavior_analytics.Prelude.Json.{Fields}
use work_behavior_analytics.Prelude.Dict.{Dict}
use work_behavior_analytics.Commands.Row.{Envelope}
use work_behavior_analytics.Daemon.World.{Environment}
use work_behavior_analytics.Daemon.State.{
  Daemon, Exit, patch, patch_running, finalize, spawn_scan, spawn_test, Finished, finish_test,
  poll_test_child, poll_tests, reconcile_exit, poll_exits,
}
use work_behavior_analytics.Daemon.Safety.Requests.{
  Keeps, Keeps-refl, Keeps-trans, Keeps-update_status, Keeps-finalize_if_active,
}

module _ (env : Environment) where
  pub Keeps-patch :
      (d : Daemon) (id : ℕ) (status : String) (message : Option String) (summary : Option Fields)
      → Keeps d.world (patch env d id status message summary).world
  unfolding patch
  Keeps-patch d id status message summary = Keeps-update_status env d.world id _

  pub Keeps-patch_running : (d : Daemon) (id : ℕ) → Keeps d.world (patch_running env d id).world
  unfolding patch_running
  Keeps-patch_running d id = Keeps-update_status env d.world id _

  pub Keeps-finalize :
      (d : Daemon) (id : ℕ) (message : String) (summary : Option Fields)
      → Keeps d.world (finalize env d id message summary).world
  unfolding finalize
  Keeps-finalize d id message summary = Keeps-finalize_if_active env d.world id message summary

  pub Keeps-spawn_scan :
      (d : Daemon) (e : Envelope) (pid : ℕ) → Keeps d.world (spawn_scan env d e pid).world
  unfolding spawn_scan
  Keeps-spawn_scan d e pid = elim (Bool-cases (leb env.max_scans (length d.children))) [
    | inl full ↦ rw full (Keeps-patch d e.command_id "failed" _ _)
    | inr room ↦ rw room (Keeps-refl d.world)
  ]

  pub Keeps-spawn_test :
      (d : Daemon) (e : Envelope) (pid : ℕ) → Keeps d.world (spawn_test env d e pid).world
  unfolding spawn_test
  Keeps-spawn_test d e pid = elim (Bool-cases (leb env.max_scans (length d.test_children))) [
    | inl full ↦ rw full (Keeps-patch d e.command_id "failed" _ _)
    | inr room ↦ rw room (Keeps-refl d.world)
  ]

  pub Keeps-finish_test :
      (d : Daemon) (pid id : ℕ) (f : Finished) → Keeps d.world (finish_test env d pid id f).world
  unfolding finish_test
  Keeps-finish_test d pid id f =
      Keeps-trans (Keeps-patch_running d id) (Keeps-patch (patch_running env d id) id _ _ _)

  pub Keeps-poll_tests :
      (poll : ℕ → Option Finished) (d : Daemon) (keys : Dict ℕ ℕ)
      → Keeps d.world (poll_tests env poll d keys).world
  unfolding poll_tests
  Keeps-poll_tests poll d [] = Keeps-refl d.world
  Keeps-poll_tests poll d ((pid, id) ∷ rest) =
      Keeps-trans (one (poll pid))
        (Keeps-poll_tests poll (poll_test_child env poll d pid id (poll pid)) rest)
    where
      one : (o : Option Finished) → Keeps d.world (poll_test_child env poll d pid id o).world
      one none = Keeps-refl d.world
      one (some f) = Keeps-finish_test d pid id f

  pub Keeps-reconcile_exit :
      (d : Daemon) (pid : ℕ) (e : Exit) → Keeps d.world (reconcile_exit env d pid e).world
  unfolding reconcile_exit
  Keeps-reconcile_exit d pid (id, code) = Keeps-finalize_if_active env d.world id _ _

  pub Keeps-poll_exits :
      (d : Daemon) (exits : Dict ℕ Exit) → Keeps d.world (poll_exits env d exits).world
  unfolding poll_exits
  Keeps-poll_exits d [] = Keeps-refl d.world
  Keeps-poll_exits d ((pid, e) ∷ rest) =
      Keeps-trans (Keeps-reconcile_exit d pid e)
        (Keeps-poll_exits (reconcile_exit env d pid e) rest)
