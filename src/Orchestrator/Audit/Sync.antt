-- ===== src/Orchestrator/Audit/Sync.antt =====
-- The audit's loop over the live statuses.
use gh_runner.Prelude.{◌≡◌, refl, true, Option, none, some, List, [], ◌∷◌, arith, is_some, All}
use gh_runner.Prelude.Text.{GoString, text_eq_iff, text_eq_refl}
use gh_runner.Prelude.Dict.{lookup, lookup-insert}
use gh_runner.Orchestrator.Tracking.{RunnerStatus, Tracked, pool_map, track_runner}
use gh_runner.Orchestrator.Tracking.Counting.{pool_map-track_runner}
use gh_runner.Orchestrator.Tracking.Valid.{IsValid, track_runner-IsValid}
use gh_runner.Orchestrator.Audit.{Pass, merged, audit_one, audit_all}

-- The container is tracked under the pool.
abbrev pub IsTracked : GoString → GoString → Tracked → Type 0
IsTracked p id t = is_some (lookup id (pool_map p t)) ≡ true

abbrev pub IsSeen : Pass → RunnerStatus → Type 0
IsSeen pass s = IsTracked s.pool_name s.id pass.tracked × (is_some (lookup s.id pass.live) ≡ true)

merged_place :
    (o : Option RunnerStatus) (s : RunnerStatus)
    → ((merged o s).id ≡ s.id) × ((merged o s).pool_name ≡ s.pool_name)
unfolding merged
merged_place none s = (refl, refl)
merged_place (some existing) s = (refl, refl)

IsTracked-track_runner :
    (s : RunnerStatus) (p id : GoString) (t : Tracked)
    → IsTracked p id t
    → IsTracked p id (track_runner s t)
IsTracked-track_runner s p id t h = ground (
  arith,
  pool_map-track_runner s p t,
  lookup-insert s.id id s (pool_map s.pool_name t),
  text_eq_iff s.pool_name p,
)

IsTracked-track_runner_self :
    (s : RunnerStatus) (t : Tracked) → IsTracked s.pool_name s.id (track_runner s t)
IsTracked-track_runner_self s t = ground (
  arith,
  pool_map-track_runner s s.pool_name t,
  lookup-insert s.id s.id s (pool_map s.pool_name t),
  text_eq_refl s.pool_name,
  text_eq_refl s.id,
)

audit_one-IsSeen_self : (s : RunnerStatus) (pass : Pass) → IsSeen (audit_one s pass) s
unfolding audit_one
audit_one-IsSeen_self s pass =
    let s' = merged (lookup s.id (pool_map s.pool_name pass.tracked)) s in
    let (same_id, same_pool) = merged_place (lookup s.id (pool_map s.pool_name pass.tracked)) s in
    (
      ground (arith, IsTracked-track_runner_self s' pass.tracked, same_id, same_pool),
      ground (arith, lookup-insert s.id s.id s pass.live, text_eq_refl s.id),
    )

audit_one-IsSeen : (r s : RunnerStatus) (pass : Pass) → IsSeen pass s → IsSeen (audit_one r pass) s
unfolding audit_one
audit_one-IsSeen r s pass h =
    let r' = merged (lookup r.id (pool_map r.pool_name pass.tracked)) r in
    (
      IsTracked-track_runner r' s.pool_name s.id pass.tracked h.0,
      ground (arith, lookup-insert r.id s.id r pass.live),
    )

audit_all-IsSeen_old :
    (ss : List RunnerStatus) (s : RunnerStatus) (pass : Pass)
    → IsSeen pass s
    → IsSeen (audit_all ss pass) s
unfolding audit_all
audit_all-IsSeen_old [] s pass h = h
audit_all-IsSeen_old (r ∷ ss) s pass h =
    audit_all-IsSeen_old ss s (audit_one r pass) (audit_one-IsSeen r s pass h)

-- Every live status is tracked and in the live map when the loop ends.
pub audit_all-IsSeen : (ss : List RunnerStatus) (pass : Pass) → All (IsSeen (audit_all ss pass)) ss
unfolding audit_all
audit_all-IsSeen [] pass = tt
audit_all-IsSeen (s ∷ ss) pass = (
  audit_all-IsSeen_old ss s (audit_one s pass) (audit_one-IsSeen_self s pass),
  audit_all-IsSeen ss (audit_one s pass),
)

pub audit_all-IsValid :
    (ss : List RunnerStatus) (pass : Pass)
    → IsValid pass.tracked
    → IsValid (audit_all ss pass).tracked
unfolding audit_all audit_one
audit_all-IsValid [] pass v = v
audit_all-IsValid (s ∷ ss) pass v = audit_all-IsValid ss (audit_one s pass) (
    track_runner-IsValid (merged (lookup s.id (pool_map s.pool_name pass.tracked)) s) pass.tracked
      v)
