-- ===== src/Orchestrator/Controller/Queue.antt =====
-- internal/orchestrator/controller.go: the internal provisioning queue and drainQueue.
pub mod Effects
pub mod Promises
pub mod Paused
use gh_runner.Prelude.{
  ℕ, ◌%◌, Bool, true, false, ◌&&◌, Option, none, some, List, [], ◌∷◌, ◌++◌, if◌then◌else◌, ltb, leb,
  length, get_elem?, is_some,
}
use gh_runner.Prelude.Text.{GoString, is_empty}
use gh_runner.Prelude.Dict.{Dict, lookup, insert}
use gh_runner.Orchestrator.Tracking.{pool_active, total_active}
use gh_runner.Orchestrator.Platform.{RunnerPool, ProvisionRequest, Platform, Options}
use gh_runner.Orchestrator.Controller.{Controller, load_pools, load_pool_targets}
use gh_runner.Orchestrator.Controller.Spawn.{spawn_single_runner}

-- targets[i % len(targets)], and the default where there is no target.
unfoldable pub pick_target : List GoString → ℕ → GoString → GoString
pick_target targets i default = elim (get_elem? targets (i % length targets)) [
  | none ↦ default
  | some url ↦ url
]

-- The map from names to pools: a later pool of the same name replaces an earlier one.
unfoldable pub index_pools : List RunnerPool → Dict RunnerPool → Dict RunnerPool
index_pools [] m = m
index_pools (p ∷ ps) m = index_pools ps (insert p.name p m)

module _ {W : Type 0} where
  -- The global circuit breaker's test.
  unfoldable pub quota_saturated : Controller W → Bool
  quota_saturated s =
      ltb 0 s.global_max_runners && leb s.global_max_runners (total_active s.tracked)

  -- The per-pool concurrency test.
  unfoldable pub pool_full : RunnerPool → Controller W → Bool
  pool_full p s = ltb 0 p.max_concurrency && leb p.max_concurrency (pool_active p.name s.tracked)

module _ (P : Platform) (c : Options) where
  open P use {World}

  unfoldable pub enqueue_request : GoString → GoString → Controller World → Controller World
  enqueue_request pool_name target_url s =
      let (time, w) = P.now s.world in
      record s {
        queue =
            s.queue
            ++ record { pool_name = pool_name; target_url = target_url; created_at = time } ∷ [];
        world = w;
      }

  unfoldable pub request_target :
      RunnerPool → ProvisionRequest → Controller World → GoString × World
  unfolding pick_target
  request_target p req s =
      if is_empty req.target_url
      then (let (targets, w) = load_pool_targets P c p s.world in
          (pick_target targets (pool_active p.name s.tracked) p.repository_url, w))
      else (req.target_url, s.world)

  unfoldable pub drain_for :
      RunnerPool → ProvisionRequest → Controller World → Bool × Controller World
  unfolding request_target pool_full
  drain_for p req s =
      if pool_full p s
      then (true, s)
      else (let (url, w) = request_target p req s in
          let (err, s') = spawn_single_runner P p none true url (record s { world = w }) in
          (is_some err, s'))

  -- One round of drainQueue's loop; the flag says that the request remains queued.
  unfoldable pub drain_request :
      Dict RunnerPool → ProvisionRequest → Controller World → Bool × Controller World
  unfolding quota_saturated drain_for
  drain_request pools req s =
      if quota_saturated s
      then (true, s)
      else elim (lookup req.pool_name pools) [ none ↦ (false, s) | some p ↦ drain_for p req s ]

  unfoldable pub drain_requests :
      Dict RunnerPool
      → List ProvisionRequest
      → Controller World
      → List ProvisionRequest × Controller World
  drain_requests pools [] s = ([], s)
  drain_requests pools (req ∷ reqs) s =
      let (kept, s1) = drain_request pools req s in
      let (remaining, s2) = drain_requests pools reqs s1 in
      (if kept then req ∷ remaining else remaining, s2)

  process_loaded :
      Option (List RunnerPool)
      → List ProvisionRequest
      → Controller World
      → Option (List ProvisionRequest) × Controller World
  unfolding index_pools
  process_loaded none copy s = (none, s)
  process_loaded (some ps) copy s =
      let (remaining, s') = drain_requests (index_pools ps []) copy s in (some remaining, s')

  -- The work of drainQueue between its two critical sections: from the copy of the queue to the
  -- remaining requests, `none` where the pools cannot be loaded.
  unfoldable pub process_queue :
      List ProvisionRequest → Controller World → Option (List ProvisionRequest) × Controller World
  unfolding process_loaded
  process_queue copy s =
      let (pools, w) = load_pools P c s.world in process_loaded pools copy (record s { world = w })

  -- c.queue = remaining, under the lock.
  unfoldable pub commit_queue : Option (List ProvisionRequest) → Controller World → Controller World
  commit_queue none s = s
  commit_queue (some remaining) s = record s { queue = remaining }

  unfoldable pub drain_copy : List ProvisionRequest → Controller World → Controller World
  drain_copy [] s = s
  drain_copy (r ∷ rs) s =
      let (remaining, s') = process_queue (r ∷ rs) s in commit_queue remaining s'

  unfoldable pub drain_queue : Controller World → Controller World
  unfolding drain_copy
  drain_queue s = drain_copy s.queue s
