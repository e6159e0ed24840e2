-- ===== src/Orchestrator/Controller/Spawn/Effect.antt =====
-- What spawnSingleRunner and the removal of a runner change of the controller.
use gh_runner.Prelude.{ℕ, ◌+◌, ◌≤◌, ◌<◌, ◌≡◌, refl, ◌⊎◌, Bool, Option, arith}
use gh_runner.Prelude.Text.{GoString}
use gh_runner.Orchestrator.Tracking.{RunnerStatus, pool_active, total_active}
use gh_runner.Orchestrator.Tracking.Counting.{pool_active-track_runner}
use gh_runner.Orchestrator.Tracking.Moves.{Moves, stay, untracks, tracks, running_one-le}
use gh_runner.Orchestrator.Platform.{RunnerPool, Platform, Options}
use gh_runner.Orchestrator.Controller.{Controller}
use gh_runner.Orchestrator.Controller.Spawn.{
  Launch, failed, launched, launched_status, settle, spawn_single_runner, drain_runner,
}

-- The controller's state and its quota are the same.
abbrev pub SameMode : {W : Type 0} → Controller W → Controller W → Type 0
SameMode s t = (t.state ≡ s.state) × (t.global_max_runners ≡ s.global_max_runners)

pub SameMode-trans :
    {W : Type 0} (s t u : Controller W) → SameMode s t → SameMode t u → SameMode s u
SameMode-trans s t u a b = (cc (a.0, b.0), cc (a.1, b.1))

module _ (P : Platform) where
  open P use {World, GitProvider}

  settle-rest :
      (p : RunnerPool) (d : Bool) (s : Controller World) (a : Launch) (w : World)
      → SameMode s (settle P p d s a w).1 × ((settle P p d s a w).1.queue ≡ s.queue)
  unfolding settle
  settle-rest p d s (failed e) w = ((refl, refl), refl)
  settle-rest p d s (launched id name url time) w = ((refl, refl), refl)

  pub spawn_single_runner-rest :
      (p : RunnerPool) (prov : Option GitProvider) (d : Bool) (url : GoString)
      (s : Controller World)
      → SameMode s (spawn_single_runner P p prov d url s).1
        × ((spawn_single_runner P p prov d url s).1.queue ≡ s.queue)
  unfolding spawn_single_runner
  spawn_single_runner-rest p prov d url s = settle-rest p d s _ _

  settle-active :
      (p : RunnerPool) (d : Bool) (s : Controller World) (a : Launch) (w : World)
      → pool_active p.name (settle P p d s a w).1.tracked ≤ pool_active p.name s.tracked + 1
  unfolding settle
  settle-active p d s (failed e) w = omega arith
  settle-active p d s (launched id name url time) w =
      let r = launched_status P p d id name url time in
      ground (arith, pool_active-track_runner r p.name s.tracked, running_one-le r)

  pub spawn_single_runner-active :
      (p : RunnerPool) (prov : Option GitProvider) (d : Bool) (url : GoString)
      (s : Controller World)
      → pool_active p.name (spawn_single_runner P p prov d url s).1.tracked
        ≤ pool_active p.name s.tracked + 1
  unfolding spawn_single_runner
  spawn_single_runner-active p prov d url s = settle-active p d s _ _

  module _ (limit : ℕ) (Caps : GoString → ℕ → Type 0) (Drains : GoString → Type 0) where
    settle-Moves :
        (p : RunnerPool) (d : Bool) (s : Controller World) (a : Launch) (w : World) (m : ℕ)
        → Caps p.name m
        → ((limit ≡ 0) ⊎ (total_active s.tracked < limit))
        → ((m ≡ 0) ⊎ (pool_active p.name s.tracked < m))
        → Moves limit Caps Drains s.tracked (settle P p d s a w).1.tracked
    unfolding settle launched_status
    settle-Moves p d s (failed e) w m c g h = stay
    settle-Moves p d s (launched id name url time) w m c g h =
        tracks (launched_status P p d id name url time) m c g h stay

    -- Under the two limits a spawn is a move.
    pub spawn_single_runner-Moves :
        (p : RunnerPool) (prov : Option GitProvider) (d : Bool) (url : GoString)
        (s : Controller World) (m : ℕ)
        → Caps p.name m
        → ((limit ≡ 0) ⊎ (total_active s.tracked < limit))
        → ((m ≡ 0) ⊎ (pool_active p.name s.tracked < m))
        → Moves limit Caps Drains s.tracked (spawn_single_runner P p prov d url s).1.tracked
    unfolding spawn_single_runner
    spawn_single_runner-Moves p prov d url s m c g h = settle-Moves p d s _ _ m c g h

    pub drain_runner-Moves :
        (c : Options) (name : GoString) (r : RunnerStatus) (s : Controller World)
        → Drains name
        → Moves limit Caps Drains s.tracked (drain_runner P c name r s).tracked
    unfolding drain_runner
    drain_runner-Moves c name r s d = untracks name r.id d stay
