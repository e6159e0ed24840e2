-- ===== src/Orchestrator/Health.antt =====
-- internal/orchestrator/degraded.go: the tracker of an unreachable Docker daemon. Times are
-- nanoseconds with 0 for the zero time.
pub mod Alerts
use gh_runner.Prelude.{
  ℕ, suc, ◌+◌, ◌-◌, ◌*◌, ◌==◌, Bool, true, false, ◌&&◌, ◌||◌, not, List, [], ◌∷◌, if◌then◌else◌,
  leb,
}
use gh_runner.Prelude.Text.{GoString}

pub record HealthTracker : Type 0 where
  pub down_since : ℕ
  pub is_down : Bool
  pub alert_raised : Bool
  pub last_logged : ℕ
  pub log_cooldown : ℕ

-- PersistentDockerDownThreshold: five minutes.
abbrev pub down_threshold : ℕ
down_threshold = 300 * 1_000_000_000

-- DefaultLogCooldown: thirty seconds.
abbrev default_log_cooldown : ℕ
default_log_cooldown = 30 * 1_000_000_000

unfoldable pub new_health_tracker : HealthTracker
new_health_tracker = record {
  down_since = 0;
  is_down = false;
  alert_raised = false;
  last_logged = 0;
  log_cooldown = default_log_cooldown;
}

-- What RecordFailure returns: downDuration, shouldLog and raisedAlert.
pub record Failure : Type 0 where
  pub down_duration : ℕ
  pub should_log : Bool
  pub raised_alert : Bool

-- The first failure of an outage.
unfoldable pub mark_down : ℕ → HealthTracker → HealthTracker
mark_down now t =
    if t.is_down then t else record t { is_down = true; down_since = now; alert_raised = false }

unfoldable pub record_failure : ℕ → HealthTracker → Failure × HealthTracker
unfolding mark_down
record_failure now t =
    let down = mark_down now t in
    let logs = down.last_logged == 0 || leb (down.last_logged + down.log_cooldown) now in
    let alerts = leb (down.down_since + down_threshold) now && not down.alert_raised in
    (
      record { down_duration = now - down.down_since; should_log = logs; raised_alert = alerts },
      record down {
        last_logged = if logs then now else down.last_logged;
        alert_raised = down.alert_raised || alerts;
      },
    )

unfoldable pub record_success : HealthTracker → Bool × HealthTracker
record_success t = (t.is_down, record t { is_down = false; down_since = 0; alert_raised = false })

unfoldable pub can_spawn : HealthTracker → Bool
can_spawn t = not t.is_down

unfoldable pub down_duration : ℕ → HealthTracker → ℕ
down_duration now t = if t.is_down then now - t.down_since else 0
