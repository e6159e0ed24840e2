-- ===== src/Orchestrator/Tracking/Valid.antt =====
-- The shape of the tracking maps: no key twice, and each runner stands under its own pool name and
-- its own container id. And what a snapshot of a pool says of the maps while its runners are
-- untracked one by one.
use gh_runner.Prelude.{
  ◌≡◌, refl, Bool, true, false, none, some, List, [], ◌∷◌, inl, inr, arith, Option-cases, All, keep,
}
use gh_runner.Prelude.Text.{GoString, text_eq, text_eq_iff, text_eq_refl}
use gh_runner.Prelude.Dict.{
  Dict, lookup, insert, delete, values, Distinct, lookup-delete, insert-Distinct, delete-Distinct,
  All-insert, All-delete, All-lookup,
}
use gh_runner.Orchestrator.Tracking.{
  RunnerStatus, Tracked, is_running, pool_map, track_runner, put_pool, untrack_runner,
}
use gh_runner.Orchestrator.Tracking.Counting.{pool_map-untrack_runner}

abbrev pub IsKeyed : GoString → GoString × RunnerStatus → Type 0
IsKeyed p (k, s) = (s.id ≡ k) × (s.pool_name ≡ p)

abbrev pub IsPool : GoString × Dict RunnerStatus → Type 0
IsPool (p, m) = Distinct m × All (IsKeyed p) m

pub record IsValid (t : Tracked) : Type 0 where
  pub pools_distinct : Distinct t
  pub pools : All IsPool t

pool_map-IsPool : (p : GoString) (t : Tracked) → IsValid t → IsPool (p, pool_map p t)
unfolding pool_map
pool_map-IsPool p t v = elim (Option-cases (lookup p t)) [
  | inl e ↦ rw (e, pool_map) (tt, tt)
  | inr (m, e) ↦ rw (e, pool_map) (All-lookup IsPool p m t e v.pools)
]

pub track_runner-IsValid : (s : RunnerStatus) (t : Tracked) → IsValid t → IsValid (track_runner s t)
unfolding track_runner
track_runner-IsValid s t v =
    let m = pool_map s.pool_name t in
    let h = pool_map-IsPool s.pool_name t v in
    record {
      pools_distinct = insert-Distinct s.pool_name (insert s.id s m) t v.pools_distinct;
      pools =
          All-insert IsPool s.pool_name (insert s.id s m) t
            (
              insert-Distinct s.id s m h.0,
              All-insert (IsKeyed s.pool_name) s.id s m (refl, refl) h.1,
            )
            v.pools;
    }

pub put_pool-IsValid :
    (p : GoString) (m : Dict RunnerStatus) (t : Tracked)
    → IsPool (p, m)
    → IsValid t
    → IsValid (put_pool p m t)
unfolding put_pool
put_pool-IsValid p [] t h v = record {
  pools_distinct = delete-Distinct p t v.pools_distinct;
  pools = All-delete IsPool p t v.pools;
}
put_pool-IsValid p (e ∷ m) t h v = record {
  pools_distinct = insert-Distinct p (e ∷ m) t v.pools_distinct;
  pools = All-insert IsPool p (e ∷ m) t h v.pools;
}

pub untrack_runner-IsValid :
    (p id : GoString) (t : Tracked) → IsValid t → IsValid (untrack_runner p id t)
unfolding untrack_runner
untrack_runner-IsValid p id t v = elim (Option-cases (lookup p t)) [
  | inl e ↦ rw (e, untrack_runner) v
  | inr (m, e) ↦
      let h = All-lookup IsPool p m t e v.pools in
      rw (e, untrack_runner)
        (put_pool-IsValid p (delete id m) t
          (delete-Distinct id m h.0, All-delete (IsKeyed p) id m h.1) v)
]

-- No runner of the list has the id.
abbrev pub Absent : GoString → List RunnerStatus → Type 0
Absent id = All (λ r. text_eq id r.id ≡ false)

-- The list holds distinct runners, each tracked in the map as it stands and running.
abbrev pub PendingIn : Dict RunnerStatus → List RunnerStatus → Type 0
PendingIn m [] = Unit
PendingIn m (r ∷ rs) =
    (lookup r.id m ≡ some r) × (is_running r ≡ true) × Absent r.id rs × PendingIn m rs

abbrev pub Pending : GoString → List RunnerStatus → Tracked → Type 0
Pending p rs t = PendingIn (pool_map p t) rs

PendingIn-delete :
    (id : GoString) (m : Dict RunnerStatus) (rs : List RunnerStatus)
    → Absent id rs
    → PendingIn m rs
    → PendingIn (delete id m) rs
PendingIn-delete id m [] a h = tt
PendingIn-delete id m (r ∷ rs) a h =
    ground (arith, lookup-delete id r.id m, PendingIn-delete id m rs a.1 h.3)

-- Untracking the first runner keeps the others pending and frees one place.
pub Pending-untrack_runner :
    (p : GoString) (r : RunnerStatus) (rs : List RunnerStatus) (t : Tracked)
    → Pending p (r ∷ rs) t
    → Pending p rs (untrack_runner p r.id t)
Pending-untrack_runner p r rs t h =
    rw (pool_map-untrack_runner p r.id p t, text_eq_refl p)
      (PendingIn-delete r.id (pool_map p t) rs h.2 h.3)

-- Runners that are not counted as one of the list: none of the later keys is the first.
PendingIn-cons :
    (k : GoString) (s : RunnerStatus) (m : Dict RunnerStatus) (rs : List RunnerStatus)
    → lookup k m ≡ none
    → PendingIn m rs
    → PendingIn ((k, s) ∷ m) rs × Absent k rs
unfolding lookup
PendingIn-cons k s m [] e h = (tt, tt)
PendingIn-cons k s m (r ∷ rs) e h =
    ground (arith, text_eq_iff k r.id, PendingIn-cons k s m rs e h.3)

pub PendingIn-keep :
    (p : GoString) (test : RunnerStatus → Bool) (m : Dict RunnerStatus)
    → ((r : RunnerStatus) → test r ≡ true → is_running r ≡ true)
    → Distinct m
    → All (IsKeyed p) m
    → PendingIn m (keep test (values m))
unfolding keep values lookup
PendingIn-keep p test [] run d a = tt
PendingIn-keep p test ((k, s) ∷ m) run d a = ground (
  arith,
  PendingIn-cons k s m (keep test (values m)) d.0 (PendingIn-keep p test m run d.1 a.1),
  text_eq_iff k s.id,
  run s,
)

-- The runners that a pass over a snapshot selects are pending.
pub Pending-snapshot :
    (p : GoString) (test : RunnerStatus → Bool) (t : Tracked)
    → ((r : RunnerStatus) → test r ≡ true → is_running r ≡ true)
    → IsValid t
    → Pending p (keep test (values (pool_map p t))) t
Pending-snapshot p test t run v =
    let h = pool_map-IsPool p t v in PendingIn-keep p test (pool_map p t) run h.0 h.1
