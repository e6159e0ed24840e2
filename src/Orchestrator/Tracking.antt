-- ===== src/Orchestrator/Tracking.antt =====
-- internal/orchestrator/auditor.go: the in-memory tracking state of the Reconciler, without the
-- audit itself, and RunnerStatus of internal/orchestrator/provider.go. A time.Time is the number
-- of nanoseconds since Go's zero time, so `0` is the zero time.
pub mod Counting
pub mod Valid
pub mod Moves
use gh_runner.Prelude.{
  ℕ, ◌+◌, ◌&&◌, ◌||◌, not, Bool, true, false, Option, none, some, List, [], ◌∷◌, if◌then◌else◌,
  count,
}
use gh_runner.Prelude.Text.{GoString, codes, text_eq}
use gh_runner.Prelude.Dict.{Dict, lookup, insert, delete, values, weigh}

pub record RunnerStatus : Type 0 where
  pub id : GoString
  pub name : GoString
  pub pool_name : GoString
  pub state : GoString
  pub ip_address : GoString
  pub exit_code : ℕ
  pub spawned_at : ℕ
  pub is_busy : Bool
  pub on_demand : Bool
  pub target_url : GoString

-- tracked: pool name to container id to status.
abbrev pub Tracked : Type 0
Tracked = Dict (Dict RunnerStatus)

abbrev pub running_state : GoString
running_state = codes "running"

-- r.State == "running"
unfoldable pub is_running : RunnerStatus → Bool
is_running r = text_eq r.state running_state

-- tracked[poolName], a nil map where the key is missing.
unfoldable pub pool_map : GoString → Tracked → Dict RunnerStatus
pool_map p t = elim (lookup p t) [ none ↦ [] | some m ↦ m ]

unfoldable pub tracked_pool_runners : GoString → Tracked → List RunnerStatus
unfolding pool_map
tracked_pool_runners p t = values (pool_map p t)

unfoldable pub track_runner : RunnerStatus → Tracked → Tracked
track_runner s t = insert s.pool_name (insert s.id s (pool_map s.pool_name t)) t

-- delete(r.tracked, poolName) where the pool's map is empty.
unfoldable pub put_pool : GoString → Dict RunnerStatus → Tracked → Tracked
put_pool p [] t = delete p t
put_pool p (e ∷ m) t = insert p (e ∷ m) t

unfoldable pub untrack_runner : GoString → GoString → Tracked → Tracked
unfolding put_pool
untrack_runner p id t = elim (lookup p t) [ none ↦ t | some m ↦ put_pool p (delete id m) t ]

-- One pool of MarkRunnerBusy's search; `none` where no runner of the pool matches.
unfoldable pub mark_in : GoString → Bool → Dict RunnerStatus → Option (Dict RunnerStatus)
mark_in x busy [] = none
mark_in x busy ((id, s) ∷ m) =
    let rest = mark_in x busy m in
    if text_eq s.id x || text_eq s.name x
    then some ((id, record s { is_busy = busy }) ∷ m)
    else elim rest [ none ↦ none | some m' ↦ some ((id, s) ∷ m') ]

unfoldable pub mark_runner_busy : GoString → Bool → Tracked → Tracked
unfolding mark_in
mark_runner_busy x busy [] = []
mark_runner_busy x busy ((p, m) ∷ t) =
    let rest = mark_runner_busy x busy t in
    elim (mark_in x busy m) [ none ↦ (p, m) ∷ rest | some m' ↦ (p, m') ∷ t ]

-- The weight that a count of running runners gives to one runner.
unfoldable pub running_one : RunnerStatus → ℕ
unfolding is_running
running_one r = if is_running r then 1 else 0

unfoldable pub running_in : Dict RunnerStatus → ℕ
running_in m = weigh running_one m

-- The `activeCount` that the controller computes from TrackedPoolRunners.
unfoldable pub pool_active : GoString → Tracked → ℕ
pool_active p t = running_in (pool_map p t)

-- TotalActiveRunners.
unfoldable pub total_active : Tracked → ℕ
total_active t = weigh running_in t

-- r.State == "running" && r.IsBusy, and the same without a job.
unfoldable pub is_working : RunnerStatus → Bool
unfolding is_running
is_working r = is_running r && r.is_busy

unfoldable pub is_idle : RunnerStatus → Bool
unfolding is_running
is_idle r = is_running r && not r.is_busy

-- PoolStats: the busy and the idle runners of a pool.
unfoldable pub pool_stats : GoString → Tracked → ℕ × ℕ
unfolding is_working is_idle tracked_pool_runners
pool_stats p t =
    (count is_working (tracked_pool_runners p t), count is_idle (tracked_pool_runners p t))

-- SystemRunnerStats: the same over all pools.
unfoldable pub system_runner_stats : Tracked → ℕ × ℕ
unfolding is_working is_idle
system_runner_stats [] = (0, 0)
system_runner_stats ((p, m) ∷ t) =
    let (active, idle) = system_runner_stats t in
    (count is_working (values m) + active, count is_idle (values m) + idle)
