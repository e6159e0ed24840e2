-- ===== src/Orchestrator/Tracking/Counting.antt =====
-- How tracking and untracking one runner change the counts of running runners.
use gh_runner.Prelude.{
  ◌+◌, ◌≤◌, ◌≡◌, refl, true, some, [], ◌∷◌, inl, inr, arith, if◌then◌else◌, Option-cases,
}
use gh_runner.Prelude.Text.{GoString, text_eq, text_eq_iff, text_eq_refl}
use gh_runner.Prelude.Dict.{
  Dict, lookup, insert, delete, weigh, lookup-insert, lookup-delete, weigh-insert, weigh-delete,
  weigh_at-le,
}
use gh_runner.Orchestrator.Tracking.{
  RunnerStatus, Tracked, is_running, pool_map, track_runner, put_pool, untrack_runner, running_one,
  running_in, pool_active, total_active,
}

pub pool_map-put_pool :
    (p q : GoString) (m : Dict RunnerStatus) (t : Tracked)
    → pool_map q (put_pool p m t) ≡ (if text_eq p q then m else pool_map q t)
unfolding pool_map put_pool
pool_map-put_pool p q [] t = ground (arith, lookup-delete p q t)
pool_map-put_pool p q (e ∷ m) t = ground (arith, lookup-insert p q (e ∷ m) t)

pub pool_map-track_runner :
    (s : RunnerStatus) (q : GoString) (t : Tracked)
    → pool_map q (track_runner s t)
      ≡ (if text_eq s.pool_name q then insert s.id s (pool_map s.pool_name t) else pool_map q t)
unfolding pool_map track_runner
pool_map-track_runner s q t =
    ground (arith, lookup-insert s.pool_name q (insert s.id s (pool_map s.pool_name t)) t)

pub pool_map-untrack_runner :
    (p id q : GoString) (t : Tracked)
    → pool_map q (untrack_runner p id t)
      ≡ (if text_eq p q then delete id (pool_map p t) else pool_map q t)
unfolding pool_map untrack_runner delete
pool_map-untrack_runner p id q t = elim (Option-cases (lookup p t)) [
  | inl e ↦ ground (arith, text_eq_iff p q)
  | inr (m, e) ↦ ground (arith, pool_map-put_pool p q (delete id m) t)
]

running_in-insert :
    (s : RunnerStatus) (m : Dict RunnerStatus)
    → running_in (insert s.id s m) ≤ running_in m + running_one s
unfolding running_in
running_in-insert s m = omega (arith, weigh-insert running_one s.id s m)

running_in-delete :
    (id : GoString) (m : Dict RunnerStatus) → running_in (delete id m) ≤ running_in m
unfolding running_in
running_in-delete id m = omega (arith, weigh-delete running_one id m)

running_in-none : running_in [] ≡ 0
unfolding running_in weigh
running_in-none = refl

put_pool-le :
    (p : GoString) (m m' : Dict RunnerStatus) (t : Tracked)
    → lookup p t ≡ some m
    → running_in m' ≤ running_in m
    → weigh running_in (put_pool p m' t) ≤ weigh running_in t
unfolding put_pool
put_pool-le p m [] t e h = omega (arith, weigh-delete running_in p t)
put_pool-le p m (x ∷ xs) t e h = ground (arith, weigh-insert running_in p (x ∷ xs) t)

total_active-put_pool :
    (p id : GoString) (m : Dict RunnerStatus) (t : Tracked)
    → lookup p t ≡ some m
    → weigh running_in (put_pool p (delete id m) t) ≤ weigh running_in t
total_active-put_pool p id m t e = put_pool-le p m (delete id m) t e (running_in-delete id m)

running_in-pool_map-le : (p : GoString) (t : Tracked) → running_in (pool_map p t) ≤ total_active t
unfolding total_active pool_map running_in weigh
running_in-pool_map-le p t = ground (arith, weigh_at-le running_in p t)

-- Tracking one runner raises no pool but its own, and that one by at most the runner.
pub pool_active-track_runner :
    (s : RunnerStatus) (q : GoString) (t : Tracked)
    → pool_active q (track_runner s t)
      ≤ pool_active q t + (if text_eq s.pool_name q then running_one s else 0)
unfolding pool_active
pool_active-track_runner s q t = ground (
  arith,
  pool_map-track_runner s q t,
  running_in-insert s (pool_map s.pool_name t),
  text_eq_iff s.pool_name q,
)

pub total_active-track_runner :
    (s : RunnerStatus) (t : Tracked)
    → total_active (track_runner s t) ≤ total_active t + running_one s
unfolding total_active track_runner pool_map
total_active-track_runner s t = ground (
  arith,
  weigh-insert running_in s.pool_name (insert s.id s (pool_map s.pool_name t)) t,
  running_in-insert s (pool_map s.pool_name t),
  running_in-none,
)

pub pool_active-untrack_runner :
    (p id q : GoString) (t : Tracked) → pool_active q (untrack_runner p id t) ≤ pool_active q t
unfolding pool_active
pool_active-untrack_runner p id q t =
    ground (
      arith,
      pool_map-untrack_runner p id q t,
      running_in-delete id (pool_map p t),
      text_eq_iff p q,
    )

pub total_active-untrack_runner :
    (p id : GoString) (t : Tracked) → total_active (untrack_runner p id t) ≤ total_active t
unfolding total_active untrack_runner
total_active-untrack_runner p id t = elim (Option-cases (lookup p t)) [
  | inl e ↦ ground arith
  | inr (m, e) ↦ ground (arith, total_active-put_pool p id m t e)
]

-- Untracking a running runner frees its place.
pub pool_active-untrack_running :
    (p id : GoString) (t : Tracked) (s : RunnerStatus)
    → lookup id (pool_map p t) ≡ some s
    → is_running s ≡ true
    → pool_active p (untrack_runner p id t) + 1 ≤ pool_active p t
unfolding pool_active running_in running_one
pool_active-untrack_running p id t s e r = ground (
  arith,
  pool_map-untrack_runner p id p t,
  text_eq_refl p,
  weigh-delete running_one id (pool_map p t),
)
