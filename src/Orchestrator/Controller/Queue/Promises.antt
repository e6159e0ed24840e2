-- ===== src/Orchestrator/Controller/Queue/Promises.antt =====
-- drainQueue against the quota, the limits, the order of the queue and a concurrent enqueueRequest.
use mathlib.Core.List.{Sublist, Sublistᴰ}
use gh_runner.Prelude.{
  ℕ, ◌≤◌, ◌<◌, ◌≡◌, refl, subst, Option, none, some, List, [], ◌∷◌, ◌++◌, inl, inr, Bool-cases, max,
  All,
}
use gh_runner.Prelude.Text.{GoString}
use gh_runner.Prelude.Dict.{Dict}
use gh_runner.Orchestrator.Tracking.{pool_active, total_active}
use gh_runner.Orchestrator.Tracking.Valid.{IsValid}
use gh_runner.Orchestrator.Tracking.Moves.{Moves-IsValid, Moves-total, Moves-pool}
use gh_runner.Orchestrator.Platform.{RunnerPool, ProvisionRequest, Platform, Options}
use gh_runner.Orchestrator.Controller.{Controller, load_pools}
use gh_runner.Orchestrator.Controller.Queue.{
  index_pools, drain_request, drain_requests, process_loaded, process_queue, commit_queue,
  enqueue_request, drain_queue, drain_copy,
}
use gh_runner.Orchestrator.Controller.Queue.Effects.{drain_queue-Effect}

Sublistᴰ-refl : (xs : List ProvisionRequest) → Sublistᴰ xs xs
Sublistᴰ-refl [] = Sublistᴰ.slnil
Sublistᴰ-refl (x ∷ xs) = Sublistᴰ.cons-cons refl (Sublistᴰ-refl xs)

All-trivial {ℓ} : {A : Type ℓ} (xs : List A) → All (λ _. Unit {0}) xs
All-trivial [] = tt
All-trivial (x ∷ xs) = (tt, All-trivial xs)

module _ (P : Platform) (c : Options) where
  open P use {World}

  drain_requests-Sublistᴰ :
      (pools : Dict RunnerPool) (reqs : List ProvisionRequest) (s : Controller World)
      → Sublistᴰ (drain_requests P c pools reqs s).0 reqs
  unfolding drain_requests
  drain_requests-Sublistᴰ pools [] s = Sublistᴰ.slnil
  drain_requests-Sublistᴰ pools (req ∷ reqs) s =
      let s1 = (drain_request P c pools req s).1 in
      elim (Bool-cases (drain_request P c pools req s).0) [
        | inl kept ↦ rw kept (Sublistᴰ.cons-cons refl (drain_requests-Sublistᴰ pools reqs s1))
        | inr gone ↦ rw gone (Sublistᴰ.cons (drain_requests-Sublistᴰ pools reqs s1))
      ]

  process_loaded-Sublistᴰ :
      (pools : Option (List RunnerPool)) (copy : List ProvisionRequest) (s : Controller World)
      → s.queue ≡ copy
      → let (remaining, t) = process_loaded P c pools copy s in
        Sublistᴰ (commit_queue P c remaining t).queue copy
  unfolding process_loaded commit_queue
  process_loaded-Sublistᴰ none copy s e = subst (λ q. Sublistᴰ s.queue q) e (Sublistᴰ-refl s.queue)
  process_loaded-Sublistᴰ (some ps) copy s e = drain_requests-Sublistᴰ (index_pools ps []) copy s

  process_loaded_some :
      (pools : Option (List RunnerPool)) (copy : List ProvisionRequest) (s : Controller World)
      (remaining : List ProvisionRequest)
      → (process_loaded P c pools copy s).0 ≡ some remaining
      → Sublistᴰ remaining copy
  unfolding process_loaded
  process_loaded_some none copy s remaining e = cc
  process_loaded_some (some ps) copy s remaining e =
      subst (λ q. Sublistᴰ q copy) (cc e) (drain_requests-Sublistᴰ (index_pools ps []) copy s)

  drain_copy-Sublistᴰ :
      (copy : List ProvisionRequest) (s : Controller World)
      → s.queue ≡ copy
      → Sublistᴰ (drain_copy P c copy s).queue copy
  unfolding drain_copy process_queue
  drain_copy-Sublistᴰ [] s e = rw e Sublistᴰ.slnil
  drain_copy-Sublistᴰ (r ∷ rs) s e =
      let (pools, w) = load_pools P c s.world in
      process_loaded-Sublistᴰ pools (r ∷ rs) (record s { world = w }) e

  -- Draining the queue keeps the requests that remain in their order and adds none, never takes the
  -- running runners past the global quota unless they stood above it before, and keeps the quota,
  -- the controller's state and the shape of the tracking maps.
  pub drain_queue-total :
      (s : Controller World)
      → IsValid s.tracked
      → 0 < s.global_max_runners
      → let t = drain_queue P c s in
        Sublist t.queue s.queue
        × (total_active t.tracked ≤ max (total_active s.tracked) s.global_max_runners)
        × (t.global_max_runners ≡ s.global_max_runners)
        × (t.state ≡ s.state)
        × IsValid t.tracked
  drain_queue-total s v pos =
      let (mode, moves) =
        drain_queue-Effect P c s.global_max_runners (λ _ _. Unit {0}) (λ _. Unit {0}) s
          (λ ps _. All-trivial ps) refl in
      (
        ∣ (unfold drain_queue in drain_copy-Sublistᴰ s.queue s refl) ∣₁,
        Moves-total pos moves,
        mode.1,
        mode.0,
        Moves-IsValid moves v,
      )

  -- If the database lists every pool of a name with a limit that is positive and at most `bound`,
  -- draining the queue never takes that pool past `bound`, unless it stood above it before.
  pub drain_queue-pool_active :
      (s : Controller World) (q : GoString) (bound : ℕ)
      → ((ps : List RunnerPool)
          → (load_pools P c s.world).0 ≡ some ps
          → All (λ p. p.name ≡ q → (0 < p.max_concurrency) × (p.max_concurrency ≤ bound)) ps)
      → pool_active q (drain_queue P c s).tracked ≤ max (pool_active q s.tracked) bound
  drain_queue-pool_active s q bound listed =
      let (_, moves) =
        drain_queue-Effect P c s.global_max_runners (λ r m. r ≡ q → (0 < m) × (m ≤ bound))
          (λ _. Unit {0}) s listed refl in
      Moves-pool q bound (λ m h. h refl) moves

  -- A request that is enqueued after drainQueue took its copy and before it writes the remaining
  -- requests back is lost: the queue is what it would be without the request.
  pub commit_queue-enqueue_request_lost :
      (s : Controller World) (name url : GoString) (remaining : List ProvisionRequest)
      → (process_queue P c s.queue s).0 ≡ some remaining
      → let t = (process_queue P c s.queue s).1 in
        ((commit_queue P c (some remaining) (enqueue_request P c name url t)).queue ≡ remaining)
        × Sublist remaining s.queue
        × ((enqueue_request P c name url (commit_queue P c (some remaining) t)).queue
            ≡ remaining
              ++ record { pool_name = name; target_url = url; created_at = (P.now t.world).0 } ∷ [])
  unfolding commit_queue enqueue_request process_queue
  commit_queue-enqueue_request_lost s name url remaining e =
      let (pools, w) = load_pools P c s.world in
      (refl, ∣ process_loaded_some pools s.queue (record s { world = w }) remaining e ∣₁, refl)
