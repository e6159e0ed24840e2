-- ===== src/Orchestrator/Controller/Queue/Effects.antt =====
-- drainQueue as moves of the tracking map, and what happens to the queued requests.
use gh_runner.Prelude.{
  ℕ, ◌<◌, ◌≡◌, refl, ◌⊎◌, true, Option, none, some, List, [], ◌∷◌, inl, inr, arith, Bool-cases,
  Option-cases, All,
}
use gh_runner.Prelude.Text.{GoString}
use gh_runner.Prelude.Dict.{Dict, lookup, insert, All-insert, All-lookup}
use gh_runner.Orchestrator.Tracking.{total_active}
use gh_runner.Orchestrator.Tracking.Moves.{stay}
use gh_runner.Orchestrator.Platform.{RunnerPool, ProvisionRequest, Platform, Options}
use gh_runner.Orchestrator.Controller.{Controller, load_pools}
use gh_runner.Orchestrator.Controller.Queue.{
  index_pools, quota_saturated, pool_full, request_target, drain_for, drain_request, drain_requests,
  process_loaded, process_queue, commit_queue, drain_queue, drain_copy,
}
use gh_runner.Orchestrator.Controller.Pool.Provision.{
  Effect, Effect-refl, Effect-trans, quota_open, spawn-Effect,
}

index_pools-All {κ} :
    (P : GoString × RunnerPool → Type κ) (ps : List RunnerPool) (m : Dict RunnerPool)
    → All (λ p. P (p.name, p)) ps
    → All P m
    → All P (index_pools ps m)
unfolding index_pools
index_pools-All P [] m h hs = hs
index_pools-All P (p ∷ ps) m h hs =
    index_pools-All P ps (insert p.name p m) h.1 (All-insert P p.name p m h.0 hs)

module _ (P : Platform) (c : Options) (limit : ℕ) (Caps : GoString → ℕ → Type 0)
    (Drains : GoString → Type 0) where
  open P use {World}

  abbrev pub IsCapped : RunnerPool → Type 0
  IsCapped p = Caps p.name p.max_concurrency

  drain_for-Effect :
      (p : RunnerPool) (req : ProvisionRequest) (s : Controller World)
      → IsCapped p
      → ((limit ≡ 0) ⊎ (total_active s.tracked < limit))
      → Effect limit Caps Drains s (drain_for P c p req s).1
  unfolding drain_for
  drain_for-Effect p req s cap g = elim (Bool-cases (pool_full p s)) [
    | inl full ↦ rw full (Effect-refl s)
    | inr room ↦
        let (url, w) = request_target P c p req s in
        rw room (
          spawn-Effect P c p limit Caps Drains cap none true url (record s { world = w }) g
            (unfold pool_full in ground arith))
  ]

  abbrev pub EntryIsCapped : GoString × RunnerPool → Type 0
  EntryIsCapped (q, p) = IsCapped p

  drain_request-Effect :
      (pools : Dict RunnerPool) (req : ProvisionRequest) (s : Controller World)
      → All EntryIsCapped pools
      → s.global_max_runners ≡ limit
      → Effect limit Caps Drains s (drain_request P c pools req s).1
  unfolding drain_request
  drain_request-Effect pools req s caps e = elim (Bool-cases (quota_saturated s)) [
    | inl closed ↦ rw closed (Effect-refl s)
    | inr open_ ↦ elim (Option-cases (lookup req.pool_name pools)) [
      | inl missing ↦ rw (open_, missing, drain_request) (Effect-refl s)
      | inr (p, found) ↦
          rw (open_, found, drain_request)
            (drain_for-Effect p req s (All-lookup EntryIsCapped req.pool_name p pools found caps)
              (quota_open s limit e open_))
    ]
  ]

  drain_requests-Effect :
      (pools : Dict RunnerPool) (reqs : List ProvisionRequest) (s : Controller World)
      → All EntryIsCapped pools
      → s.global_max_runners ≡ limit
      → Effect limit Caps Drains s (drain_requests P c pools reqs s).1
  unfolding drain_requests
  drain_requests-Effect pools [] s caps e = Effect-refl s
  drain_requests-Effect pools (req ∷ reqs) s caps e =
      let s1 = (drain_request P c pools req s).1 in
      let first = drain_request-Effect pools req s caps e in
      Effect-trans s s1 (drain_requests P c pools reqs s1).1 first
        (drain_requests-Effect pools reqs s1 caps (cc (first.0.1, e)))

  process_loaded-Effect :
      (pools : Option (List RunnerPool)) (copy : List ProvisionRequest) (s : Controller World)
      → ((ps : List RunnerPool) → pools ≡ some ps → All IsCapped ps)
      → s.global_max_runners ≡ limit
      → Effect limit Caps Drains s (process_loaded P c pools copy s).1
  unfolding process_loaded
  process_loaded-Effect none copy s caps e = Effect-refl s
  process_loaded-Effect (some ps) copy s caps e =
      drain_requests-Effect (index_pools ps []) copy s
        (index_pools-All EntryIsCapped ps [] (caps ps refl) tt) e

  -- The pools that the next load gives are capped.
  abbrev pub LoadsCapped : Controller World → Type 0
  LoadsCapped s = (ps : List RunnerPool) → (load_pools P c s.world).0 ≡ some ps → All IsCapped ps

  commit_queue-Effect :
      (remaining : Option (List ProvisionRequest)) (s : Controller World)
      → Effect limit Caps Drains s (commit_queue P c remaining s)
  unfolding commit_queue
  commit_queue-Effect none s = Effect-refl s
  commit_queue-Effect (some remaining) s = ((refl, refl), stay)

  drain_copy-Effect :
      (copy : List ProvisionRequest) (s : Controller World)
      → LoadsCapped s
      → s.global_max_runners ≡ limit
      → Effect limit Caps Drains s (drain_copy P c copy s)
  unfolding drain_copy process_queue
  drain_copy-Effect [] s caps e = Effect-refl s
  drain_copy-Effect (r ∷ rs) s caps e =
      let (pools, w) = load_pools P c s.world in
      let s1 = record s { world = w } in
      let (remaining, s2) = process_loaded P c pools (r ∷ rs) s1 in
      Effect-trans s s2 (commit_queue P c remaining s2)
        (process_loaded-Effect pools (r ∷ rs) s1 caps e) (commit_queue-Effect remaining s2)

  pub drain_queue-Effect :
      (s : Controller World)
      → LoadsCapped s
      → s.global_max_runners ≡ limit
      → Effect limit Caps Drains s (drain_queue P c s)
  unfolding drain_queue
  drain_queue-Effect s caps e = drain_copy-Effect s.queue s caps e
