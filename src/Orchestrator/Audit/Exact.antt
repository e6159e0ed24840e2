-- ===== src/Orchestrator/Audit/Exact.antt =====
-- The tracking maps after the whole Audit.
use gh_runner.Prelude.{
  ◌≡◌, refl, Bool, true, false, ◌||◌, none, List, [], ◌∷◌, arith, if◌then◌else◌, is_some, All,
}
use gh_runner.Prelude.Text.{GoString, text_eq, text_eq_iff}
use gh_runner.Prelude.Dict.{Dict, lookup, Distinct, lookup-insert}
use gh_runner.Orchestrator.Tracking.{RunnerStatus, Tracked, pool_map}
use gh_runner.Orchestrator.Tracking.Valid.{IsValid, IsKeyed, IsPool}
use gh_runner.Orchestrator.Audit.{Pass, audit_one, audit_all, sweep_pool, cons_pool, sweep, audit}
use gh_runner.Orchestrator.Audit.Sync.{IsTracked, IsSeen, audit_all-IsSeen, audit_all-IsValid}

-- The sweep keeps a runner exactly if its id is live.
pub lookup-sweep_pool :
    (live m : Dict RunnerStatus) (id : GoString)
    → lookup id (sweep_pool live m).0 ≡ (if is_some (lookup id live) then lookup id m else none)
unfolding sweep_pool lookup
lookup-sweep_pool live [] id = ground arith
lookup-sweep_pool live ((j, s) ∷ m) id =
    ground (arith, text_eq_iff j id, lookup-sweep_pool live m id)

sweep_pool-Distinct : (live m : Dict RunnerStatus) → Distinct m → Distinct (sweep_pool live m).0
unfolding sweep_pool
sweep_pool-Distinct live [] d = tt
sweep_pool-Distinct live ((j, s) ∷ m) d =
    ground (arith, lookup-sweep_pool live m j, sweep_pool-Distinct live m d.1)

sweep_pool-IsKeyed :
    (p : GoString) (live m : Dict RunnerStatus)
    → All (IsKeyed p) m
    → All (IsKeyed p) (sweep_pool live m).0
unfolding sweep_pool
sweep_pool-IsKeyed p live [] a = tt
sweep_pool-IsKeyed p live ((j, s) ∷ m) a = ground (arith, sweep_pool-IsKeyed p live m a.1)

lookup-cons_pool :
    (p q : GoString) (m : Dict RunnerStatus) (t : Tracked)
    → lookup p t ≡ none
    → pool_map q (cons_pool p m t) ≡ (if text_eq p q then m else pool_map q t)
unfolding pool_map lookup
lookup-cons_pool p q [] t e = ground (arith, text_eq_iff p q)
lookup-cons_pool p q (x ∷ m) t e = ground arith

lookup-sweep-none :
    (live : Dict RunnerStatus) (t : Tracked) (p : GoString)
    → lookup p t ≡ none
    → lookup p (sweep live t).0 ≡ none
unfolding sweep lookup
lookup-sweep-none live [] p e = refl
lookup-sweep-none live ((q, m) ∷ t) p e =
    ground (arith, lookup-sweep-none live t p, (sweep_pool live m).0)

pool_map-sweep :
    (live : Dict RunnerStatus) (t : Tracked) (p : GoString)
    → Distinct t
    → pool_map p (sweep live t).0 ≡ (sweep_pool live (pool_map p t)).0
unfolding sweep pool_map lookup
pool_map-sweep live [] p d = unfold sweep_pool in refl
pool_map-sweep live ((q, m) ∷ t) p d = ground (
  arith,
  lookup-cons_pool q p (sweep_pool live m).0 (sweep live t).0 (lookup-sweep-none live t q d.0),
  pool_map-sweep live t p d.1,
)

cons_pool-IsValid :
    (p : GoString) (m : Dict RunnerStatus) (t : Tracked)
    → lookup p t ≡ none
    → IsPool (p, m)
    → IsValid t
    → IsValid (cons_pool p m t)
cons_pool-IsValid p [] t e h v = v
cons_pool-IsValid p (x ∷ m) t e h v = record {
  pools_distinct = (e, v.pools_distinct);
  pools = (h, v.pools);
}

sweep-IsValid : (live : Dict RunnerStatus) (t : Tracked) → IsValid t → IsValid (sweep live t).0
unfolding sweep
sweep-IsValid live [] v = v
sweep-IsValid live ((p, m) ∷ t) v =
    cons_pool-IsValid p (sweep_pool live m).0 (sweep live t).0
      (lookup-sweep-none live t p v.pools_distinct.0)
      (sweep_pool-Distinct live m v.pools.0.0, sweep_pool-IsKeyed p live m v.pools.0.1)
      (sweep-IsValid live t (record { pools_distinct = v.pools_distinct.1; pools = v.pools.1 }))

-- Whether a status of the list has the id.
abbrev pub lists_id : GoString → List RunnerStatus → Bool
lists_id id [] = false
lists_id id (s ∷ ss) = text_eq s.id id || lists_id id ss

audit_all-live :
    (ss : List RunnerStatus) (pass : Pass) (id : GoString)
    → is_some (lookup id (audit_all ss pass).live)
      ≡ (lists_id id ss || is_some (lookup id pass.live))
unfolding audit_all audit_one
audit_all-live [] pass id = refl
audit_all-live (s ∷ ss) pass id =
    ground (arith, audit_all-live ss (audit_one s pass) id, lookup-insert s.id id s pass.live)

audit_all-live_start :
    (ss : List RunnerStatus) (t : Tracked) (id : GoString)
    → is_some (
        lookup id
          (audit_all ss
            (record { tracked = t; live = []; active = []; exited = []; adopted = [] })).live)
      ≡ (lists_id id ss || false)
unfolding lookup
audit_all-live_start ss t id =
    audit_all-live ss (record { tracked = t; live = []; active = []; exited = []; adopted = [] }) id

seen_kept :
    (pass : Pass) (v : IsValid pass.tracked) (ss : List RunnerStatus)
    → All (IsSeen pass) ss
    → All (λ s. IsTracked s.pool_name s.id (sweep pass.live pass.tracked).0) ss
seen_kept pass v [] a = tt
seen_kept pass v (s ∷ ss) a = (
  ground (
    arith,
    pool_map-sweep pass.live pass.tracked s.pool_name v.pools_distinct,
    lookup-sweep_pool pass.live (pool_map s.pool_name pass.tracked) s.id,
  ),
  seen_kept pass v ss a.1,
)

-- An audit brings the tracking maps in line with the engine's list: every listed container is
-- tracked under its pool and its id, every tracked container is listed, and the maps keep their
-- shape.
pub audit_sync :
    (ss : List RunnerStatus) (t : Tracked)
    → IsValid t
    → let t' = (audit ss t).1 in
      All (λ s. IsTracked s.pool_name s.id t') ss
      × ((p id : GoString) → IsTracked p id t' → lists_id id ss ≡ true)
      × IsValid t'
unfolding audit
audit_sync ss t v =
    let start : Pass = record { tracked = t; live = []; active = []; exited = []; adopted = [] } in
    let pass = audit_all ss start in
    let v' = audit_all-IsValid ss start v in
    (
      seen_kept pass v' ss (audit_all-IsSeen ss start),
      λ p id h. ground (
        arith,
        pool_map-sweep pass.live pass.tracked p v'.pools_distinct,
        lookup-sweep_pool pass.live (pool_map p pass.tracked) id,
        audit_all-live_start ss t id,
      ),
      sweep-IsValid pass.live pass.tracked v',
    )
