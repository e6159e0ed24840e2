-- ===== src/Orchestrator/Health/Alerts.antt =====
-- The alerts of one outage.
use gh_runner.Prelude.{
  ℕ, suc, ◌+◌, ◌≡◌, refl, Bool, true, false, ◌||◌, List, [], ◌∷◌, if◌then◌else◌, leb, arith,
}
use gh_runner.Orchestrator.Health.{
  HealthTracker, down_threshold, mark_down, record_failure, record_success,
}

-- The alerts that failures at these times raise.
unfoldable pub alerts : List ℕ → HealthTracker → ℕ
unfolding record_failure
alerts [] t = 0
alerts (now ∷ times) t =
    let (failure, t') = record_failure now t in
    let rest = alerts times t' in if failure.raised_alert then suc rest else rest

-- Whether a failure comes as late as the deadline.
unfoldable pub any_late : ℕ → List ℕ → Bool
any_late deadline [] = false
any_late deadline (now ∷ times) = leb deadline now || any_late deadline times

alerts-raised :
    (times : List ℕ) (t : HealthTracker)
    → t.is_down ≡ true
    → t.alert_raised ≡ true
    → alerts times t ≡ 0
unfolding alerts
alerts-raised [] t down raised = refl
alerts-raised (now ∷ times) t down raised =
    let ih = alerts-raised times (record_failure now t).1 in
    unfold record_failure mark_down in ground arith

alerts-down :
    (times : List ℕ) (t : HealthTracker)
    → t.is_down ≡ true
    → t.alert_raised ≡ false
    → alerts times t ≡ (if any_late (t.down_since + down_threshold) times then 1 else 0)
unfolding alerts any_late
alerts-down [] t down fresh = refl
alerts-down (now ∷ times) t down fresh =
    let ih = alerts-down times (record_failure now t).1 in
    let done = alerts-raised times (record_failure now t).1 in
    unfold record_failure mark_down in ground arith

-- An outage that begins at `now` and goes on with failures at `times` raises exactly one alert if
-- one of them comes five minutes or more after the first, and none otherwise.
pub record_failure-alerts :
    (now : ℕ) (times : List ℕ) (t : HealthTracker)
    → alerts (now ∷ times) (record_success t).1
      ≡ (if any_late (now + down_threshold) times then 1 else 0)
unfolding alerts record_success
record_failure-alerts now times t =
    let ih = alerts-down times (record_failure now (record_success t).1).1 in
    unfold record_failure mark_down record_success in ground arith
