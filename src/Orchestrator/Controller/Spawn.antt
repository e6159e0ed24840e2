-- ===== src/Orchestrator/Controller/Spawn.antt =====
-- internal/orchestrator/controller.go: spawnSingleRunner, and the removal of one idle runner.
pub mod Effect
use gh_runner.Prelude.{ℕ, Bool, true, false, Option, none, some, List, [], ◌∷◌, ◌++◌, if◌then◌else◌}
use gh_runner.Prelude.Text.{GoString, codes, is_empty, contains}
use gh_runner.Orchestrator.Tracking.{
  RunnerStatus, Tracked, running_state, track_runner, untrack_runner,
}
use gh_runner.Orchestrator.Naming.{generate_container_name}
use gh_runner.Orchestrator.Platform.{
  RunnerPool, RunnerConfig, Error, resolve_failed, token_failed, spawn_failed, Platform, Options,
}
use gh_runner.Orchestrator.Controller.{Controller, format_labels, deregister_runner}

-- What the engine and the provider answered to one spawn.
pub data Launch : Type 0 where
  failed : Error → Launch
  launched : (id name target_url : GoString) (spawned_at : ℕ) → Launch

module _ (P : Platform) where
  open P use {World, GitProvider, unicode}

  instance_url_env : RunnerPool → GoString → List GoString
  instance_url_env p url =
      let provider = unicode.to_lower p.provider in
      if contains provider (codes "gitea")
      then (codes "GITEA_INSTANCE_URL=" ++ url) ∷ []
      else if contains provider (codes "forgejo")
      then (codes "FORGEJO_INSTANCE_URL=" ++ url) ∷ []
      else []

  abbrev or_blank : Option GoString → GoString
  or_blank none = []
  or_blank (some s) = s

  unfoldable pub runner_config : RunnerPool → GoString → GoString → GoString → RunnerConfig
  unfolding instance_url_env
  runner_config p name url token = record {
    name = name;
    pool_name = p.name;
    repo_url = url;
    token = token;
    image = p.runner_image;
    allow_docker = p.allow_docker;
    env =
        (codes "GITHUB_REPOSITORY_URL=" ++ url)
        ∷ (codes "RUNNER_TOKEN=" ++ token)
        ∷ (codes "RUNNER_NAME=" ++ name)
        ∷ (codes "RUNNER_LABELS=" ++ format_labels P.json_strings p.labels)
        ∷ codes "RUNNER_WORKDIR=_work"
        ∷ codes "RUNNER_EPHEMERAL=1"
        ∷ instance_url_env p url;
    cpu_limit = or_blank p.cpu_limit;
    memory_limit = or_blank p.memory_limit;
  }

  -- The part of spawnSingleRunner behind the resolved provider, up to the engine's answer.
  launch_with : RunnerPool → GoString → GitProvider → World → Launch × World
  launch_with p url git w =
      let (token, w1) = P.get_registration_token git p.scope url w in
      elim token [
        | none ↦ (failed token_failed, w1)
        | some tok ↦
            let (hex, w2) = P.random_hex w1 in
            let name = generate_container_name unicode hex p.name in
            let (spawned, w3) = P.spawn_runner (runner_config p name url tok) w2 in
            elim spawned [
              | none ↦ (failed spawn_failed, w3)
              | some id ↦ let (time, w4) = P.now w3 in (launched id name url time, w4)
            ]
      ]

  unfoldable pub launch_runner : RunnerPool → Option GitProvider → GoString → World → Launch × World
  unfolding launch_with
  launch_runner p prov target_url w =
      let url = if is_empty target_url then p.repository_url else target_url in
      elim prov [
        | some git ↦ launch_with p url git w
        | none ↦
            let (resolved, w1) = P.resolve_provider p.auth_profile_id w in
            elim resolved [
              | none ↦ (failed resolve_failed, w1)
              | some git ↦ launch_with p url git w1
            ]
      ]

  -- The status that is tracked for a launched container.
  unfoldable pub launched_status :
      RunnerPool → Bool → GoString → GoString → GoString → ℕ → RunnerStatus
  launched_status p on_demand id name url time = record {
    id = id;
    name = name;
    pool_name = p.name;
    state = running_state;
    ip_address = [];
    exit_code = 0;
    spawned_at = time;
    is_busy = false;
    on_demand = on_demand;
    target_url = url;
  }

  -- The end of spawnSingleRunner: the error is returned, or the new container is tracked.
  unfoldable pub settle :
      RunnerPool → Bool → Controller World → Launch → World → Option Error × Controller World
  unfolding launched_status
  settle p on_demand s (failed e) w = (some e, record s { world = w })
  settle p on_demand s (launched id name url time) w = (
    none,
    record s {
      tracked = track_runner (launched_status p on_demand id name url time) s.tracked;
      world = w;
    },
  )

  -- The result is Go's `error`, `none` for nil. (A nil resolver, which would be a panic here, is
  -- left to `resolve_provider`.)
  unfoldable pub spawn_single_runner :
      RunnerPool
      → Option GitProvider
      → Bool
      → GoString
      → Controller World
      → Option Error × Controller World
  unfolding settle
  spawn_single_runner p prov on_demand target_url s =
      let (answer, w) = launch_runner p prov target_url s.world in settle p on_demand s answer w

  -- Deregister, terminate and untrack one runner; the errors are only logged.
  unfoldable pub drain_runner :
      Options → GoString → RunnerStatus → Controller World → Controller World
  drain_runner c pool_name r s = record s {
    tracked = untrack_runner pool_name r.id s.tracked;
    world = (P.terminate_runner r.id (deregister_runner P c r s.world)).1;
  }
