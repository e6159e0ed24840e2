-- ===== src/Orchestrator/Controller.antt =====
-- internal/orchestrator/controller.go: the state of the PoolController and the parts of its methods
-- that change nothing but the outside world. Log lines are left out.
pub mod Spawn
pub mod Queue
pub mod Pool
use gh_runner.Prelude.{
  ℕ, ◌+◌, ◌==◌, Bool, true, false, ◌&&◌, ◌||◌, Option, none, some, List, [], ◌∷◌, ◌++◌,
  if◌then◌else◌, count,
}
use gh_runner.Prelude.Text.{GoString, codes, is_empty, text_eq, contains, join, Unicode}
use gh_runner.Orchestrator.Tracking.{RunnerStatus, Tracked}
use gh_runner.Orchestrator.Platform.{RunnerPool, ProvisionRequest, ScalingMode, Platform, Options}

pub data ControllerState : Type 0 where
  stopped booting running paused : ControllerState

-- The mutable fields of PoolController, its reconciler's map and the outside world.
pub record Controller (W : Type 0) : Type 0 where
  pub tracked : Tracked
  pub queue : List ProvisionRequest
  pub state : ControllerState
  pub last_heartbeat : ℕ
  pub global_max_runners : ℕ
  pub world : W

unfoldable pub queue_length_for_pool : GoString → List ProvisionRequest → ℕ
unfolding count
queue_length_for_pool p queue = count (λ r. text_eq r.pool_name p) queue

-- strings.TrimSpace(t) for each target, without the empty ones.
unfoldable pub trimmed_targets : Unicode → List GoString → List GoString
trimmed_targets u [] = []
trimmed_targets u (t ∷ ts) =
    let url = u.trim_space t in
    let rest = trimmed_targets u ts in if is_empty url then rest else url ∷ rest

-- formatLabels. `none` of the decoder is its error.
unfoldable pub format_labels : (GoString → Option (List GoString)) → GoString → GoString
format_labels json raw =
    if is_empty raw
    then codes "self-hosted,linux"
    else elim (json raw) [ none ↦ raw | some [] ↦ raw | some (l ∷ ls) ↦ join (codes ",") (l ∷ ls) ]

module _ (P : Platform) (c : Options) where
  open P use {World, GitProvider, unicode}

  unfoldable pub load_pools : World → Option (List RunnerPool) × World
  load_pools w = if c.has_db then P.list_runner_pools w else (some [], w)

  -- The fallback of loadPoolTargets: the pool's own URL.
  unfoldable pub own_target : RunnerPool → List GoString
  own_target p =
      let url = unicode.trim_space p.repository_url in if is_empty url then [] else url ∷ []

  abbrev or_own_target : RunnerPool → List GoString → List GoString
  or_own_target p [] = own_target p
  or_own_target p (u ∷ us) = u ∷ us

  unfoldable pub load_pool_targets : RunnerPool → World → List GoString × World
  unfolding own_target
  load_pool_targets p w =
      if c.has_targets_repository
      then (let (targets, w') = P.list_pool_targets p.id w in
          (
            elim targets [
              | none ↦ own_target p
              | some ts ↦ or_own_target p (trimmed_targets unicode ts)
            ],
            w',
          ))
      else (own_target p, w)

  abbrev or_else : GoString → GoString → GoString
  or_else a b = if is_empty a then b else a

  -- The body of deregisterRunner's loop for the runner's pool.
  deregister_in : RunnerStatus → RunnerPool → World → World
  deregister_in r p w =
      let (prov, w1) = P.resolve_provider p.auth_profile_id w in
      elim prov [
        | none ↦ w1
        | some git ↦
            if P.is_deregistrar git
            then (P.deregister git p.scope (or_else r.target_url p.repository_url)
                (or_else r.name r.id) w1).1
            else w1
      ]

  deregister_from : RunnerStatus → List RunnerPool → World → World
  deregister_from r [] w = w
  deregister_from r (p ∷ ps) w =
      let rest = deregister_from r ps w in
      if text_eq p.name r.pool_name then deregister_in r p w else rest

  unfoldable pub deregister_runner : RunnerStatus → World → World
  unfolding deregister_in deregister_from
  deregister_runner r w =
      if c.has_provider_resolver
      then (let (pools, w1) = load_pools w in
          elim pools [ none ↦ w1 | some ps ↦ deregister_from r ps w1 ])
      else w

  -- The polling of reconcilePoolWithProvider: the queued jobs of all targets.
  unfoldable pub poll_targets : GitProvider → List GoString → ℕ → World → ℕ × World
  poll_targets git [] total w = (total, w)
  poll_targets git (t ∷ ts) total w =
      let (queued, w') = P.poll_queued_jobs git t w in
      poll_targets git ts (elim queued [ none ↦ total | some n ↦ total + n ]) w'

  abbrev pub is_polling : Option GitProvider → Bool
  is_polling none = false
  is_polling (some git) = elim (P.scaling_mode git) [
    | ScalingMode.polling ↦ true
    | ScalingMode.webhook ↦ false
  ]

  -- CaptureLogs before a container goes, if a data directory is set.
  unfoldable pub capture_exit_logs : GoString → World → World
  capture_exit_logs id w =
      if is_empty c.data_dir
      then w
      else if c.has_engine
      then (P.capture_logs id c.data_dir w).1
      else w
