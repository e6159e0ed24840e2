-- ===== src/Orchestrator/Controller/Queue/Paused.antt =====
-- drainQueue and the controller's state.
use gh_runner.Prelude.{
  ◌≡◌, ◌∙◌, refl, ap, Bool, true, Option, none, some, is_some, List, [], ◌∷◌, inl, inr, Bool-cases,
  Option-cases,
}
use gh_runner.Prelude.Dict.{Dict, lookup}
use gh_runner.Orchestrator.Platform.{RunnerPool, ProvisionRequest, Platform, Options}
use gh_runner.Orchestrator.Controller.{Controller, ControllerState, load_pools}
use gh_runner.Orchestrator.Controller.Spawn.{
  Launch, failed, launched, settle, launch_runner, spawn_single_runner,
}
use gh_runner.Orchestrator.Controller.Queue.{
  index_pools, request_target, pool_full, quota_saturated, drain_for, drain_request, drain_requests,
  process_loaded, process_queue, commit_queue, drain_copy, drain_queue,
}

-- The same controller in another state.
abbrev pub in_state : {W : Type 0} → ControllerState → Controller W → Controller W
in_state st s = record s { state = st }

-- The state of the second component.
abbrev in_result : {W : Type 0} {A : Type 0} → ControllerState → A × Controller W → A × Controller W
in_result st (a, s) = (a, in_state st s)

module _ (P : Platform) (c : Options) (st : ControllerState) where
  open P use {World}

  settle-in_state :
      (p : RunnerPool) (d : Bool) (s : Controller World) (a : Launch) (w : World)
      → settle P p d (in_state st s) a w ≡ in_result st (settle P p d s a w)
  unfolding settle
  settle-in_state p d s (failed e) w = refl
  settle-in_state p d s (launched id name url time) w = refl

  drain_for-in_state :
      (p : RunnerPool) (req : ProvisionRequest) (s : Controller World)
      → drain_for P c p req (in_state st s) ≡ in_result st (drain_for P c p req s)
  unfolding drain_for pool_full request_target spawn_single_runner
  drain_for-in_state p req s = elim (Bool-cases (pool_full p s)) [
    | inl full ↦ rw (full, pool_full) refl
    | inr room ↦
        let (url, w) = request_target P c p req s in
        let s' = record s { world = w } in
        let (a, w') = launch_runner P p none url s'.world in
        rw (room, pool_full) (ap (λ r. (is_some r.0, r.1)) (settle-in_state p true s' a w'))
  ]

  drain_request-in_state :
      (pools : Dict RunnerPool) (req : ProvisionRequest) (s : Controller World)
      → drain_request P c pools req (in_state st s) ≡ in_result st (drain_request P c pools req s)
  unfolding drain_request quota_saturated
  drain_request-in_state pools req s = elim (Bool-cases (quota_saturated s)) [
    | inl closed ↦ rw (closed, quota_saturated) refl
    | inr free ↦ elim (Option-cases (lookup req.pool_name pools)) [
      | inl missing ↦ rw (free, quota_saturated, missing) refl
      | inr (p, found) ↦ rw (free, quota_saturated, found) (drain_for-in_state p req s)
    ]
  ]

  drain_requests-in_state :
      (pools : Dict RunnerPool) (reqs : List ProvisionRequest) (s : Controller World)
      → drain_requests P c pools reqs (in_state st s)
        ≡ in_result st (drain_requests P c pools reqs s)
  unfolding drain_requests
  drain_requests-in_state pools [] s = refl
  drain_requests-in_state pools (req ∷ reqs) s =
      let (kept, s1) = drain_request P c pools req s in
      let here = drain_request-in_state pools req s in
      let later = drain_requests-in_state pools reqs s1 in rw (here, drain_request) (rw later refl)

  process_loaded-in_state :
      (pools : Option (List RunnerPool)) (copy : List ProvisionRequest) (s : Controller World)
      → process_loaded P c pools copy (in_state st s)
        ≡ in_result st (process_loaded P c pools copy s)
  unfolding process_loaded
  process_loaded-in_state none copy s = refl
  process_loaded-in_state (some ps) copy s =
      ap (λ r. (some r.0, r.1)) (drain_requests-in_state (index_pools ps []) copy s)

  commit_queue-in_state :
      (remaining : Option (List ProvisionRequest)) (s : Controller World)
      → commit_queue P c remaining (in_state st s) ≡ in_state st (commit_queue P c remaining s)
  unfolding commit_queue
  commit_queue-in_state none s = refl
  commit_queue-in_state (some remaining) s = refl

  drain_copy-in_state :
      (copy : List ProvisionRequest) (s : Controller World)
      → drain_copy P c copy (in_state st s) ≡ in_state st (drain_copy P c copy s)
  unfolding drain_copy process_queue
  drain_copy-in_state [] s = refl
  drain_copy-in_state (r ∷ rs) s =
      let (pools, w) = load_pools P c s.world in
      let done = process_loaded P c pools (r ∷ rs) (record s { world = w }) in
      ap (λ x. commit_queue P c x.0 x.1)
        (process_loaded-in_state pools (r ∷ rs) (record s { world = w }))
      ∙ commit_queue-in_state done.0 done.1

  -- Draining the queue does not look at the controller's state: in any state, also when paused or
  -- stopped, it makes the same calls, tracks the same new runners and leaves the same queue.
  pub drain_queue-in_state :
      (s : Controller World) → drain_queue P c (in_state st s) ≡ in_state st (drain_queue P c s)
  unfolding drain_queue
  drain_queue-in_state s = drain_copy-in_state s.queue s
