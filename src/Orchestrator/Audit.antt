-- ===== src/Orchestrator/Audit.antt =====
-- internal/orchestrator/auditor.go: Audit, as a function of the statuses that the container engine
-- lists and of the tracking maps.
pub mod Sync
pub mod Exact
use gh_runner.Prelude.{
  ℕ, ◌+◌, Bool, true, false, ◌&&◌, ◌||◌, not, Option, none, some, List, [], ◌∷◌, ◌++◌,
  if◌then◌else◌, ltb, ◌==◌, is_some, length,
}
use gh_runner.Prelude.Text.{GoString}
use gh_runner.Prelude.Dict.{Dict, lookup, insert, weigh}
use gh_runner.Orchestrator.Tracking.{RunnerStatus, Tracked, is_running, pool_map, track_runner}

pub record AuditReport : Type 0 where
  pub total_tracked : ℕ
  pub active : List RunnerStatus
  pub exited : List RunnerStatus
  pub adopted : List RunnerStatus
  pub disappeared : List GoString

-- The variables of the loop over the live statuses.
pub record Pass : Type 0 where
  pub tracked : Tracked
  pub live : Dict RunnerStatus
  pub active : List RunnerStatus
  pub exited : List RunnerStatus
  pub adopted : List RunnerStatus

-- What a tracked runner keeps when the engine does not know it: its job, its start, its origin.
unfoldable pub merge_status : RunnerStatus → RunnerStatus → RunnerStatus
merge_status existing s = record s {
  is_busy = if not s.is_busy && existing.is_busy then existing.is_busy else s.is_busy;
  spawned_at =
      if s.spawned_at == 0 && not (existing.spawned_at == 0)
      then existing.spawned_at
      else s.spawned_at;
  on_demand = if not s.on_demand && existing.on_demand then existing.on_demand else s.on_demand;
}

unfoldable pub merged : Option RunnerStatus → RunnerStatus → RunnerStatus
unfolding merge_status
merged none s = s
merged (some existing) s = merge_status existing s

abbrev append_if {ℓ} : {A : Type ℓ} → Bool → List A → A → List A
append_if b xs x = if b then xs ++ x ∷ [] else xs

-- One round of the loop over the live statuses.
unfoldable pub audit_one : RunnerStatus → Pass → Pass
unfolding merged
audit_one s pass =
    let existing = lookup s.id (pool_map s.pool_name pass.tracked) in
    let s' = merged existing s in
    record {
      tracked = track_runner s' pass.tracked;
      live = insert s.id s pass.live;
      active = append_if (is_running s') pass.active s';
      exited = append_if (not (is_running s')) pass.exited s';
      adopted = append_if (not (is_some existing)) pass.adopted s;
    }

unfoldable pub audit_all : List RunnerStatus → Pass → Pass
audit_all [] pass = pass
audit_all (s ∷ ss) pass = audit_all ss (audit_one s pass)

-- The runners of one pool that are still live, and the ids of the others.
unfoldable pub sweep_pool :
    Dict RunnerStatus → Dict RunnerStatus → Dict RunnerStatus × List GoString
sweep_pool live [] = ([], [])
sweep_pool live ((id, s) ∷ m) =
    let (kept, gone) = sweep_pool live m in
    if is_some (lookup id live) then ((id, s) ∷ kept, gone) else (kept, id ∷ gone)

abbrev cons_pool : GoString → Dict RunnerStatus → Tracked → Tracked
cons_pool p [] t = t
cons_pool p (e ∷ m) t = (p, e ∷ m) ∷ t

unfoldable pub sweep : Dict RunnerStatus → Tracked → Tracked × List GoString
sweep live [] = ([], [])
sweep live ((p, m) ∷ t) =
    let (kept, gone) = sweep_pool live m in
    let (rest, more) = sweep live t in (cons_pool p kept rest, gone ++ more)

unfoldable pub audit : List RunnerStatus → Tracked → AuditReport × Tracked
audit statuses t =
    let pass =
      audit_all statuses
        (record { tracked = t; live = []; active = []; exited = []; adopted = [] }) in
    let (swept, gone) = sweep pass.live pass.tracked in
    (
      record {
        total_tracked = weigh length swept;
        active = pass.active;
        exited = pass.exited;
        adopted = pass.adopted;
        disappeared = gone;
      },
      swept,
    )
