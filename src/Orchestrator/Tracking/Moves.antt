-- ===== src/Orchestrator/Tracking/Moves.antt =====
-- The changes that the controller's methods make to the tracking maps, as a relation: untracking,
-- and tracking a running runner under a global and a per-pool limit.
use gh_runner.Prelude.{ℕ, ◌≤◌, ◌<◌, ◌≡◌, refl, ◌⊎◌, inl, inr, arith, max, Bool-cases}
use gh_runner.Prelude.Text.{GoString, text_eq, text_eq_iff}
use gh_runner.Orchestrator.Tracking.{
  RunnerStatus, Tracked, running_one, pool_map, track_runner, untrack_runner, pool_active,
  total_active,
}
use gh_runner.Orchestrator.Tracking.Counting.{
  pool_map-track_runner, pool_map-untrack_runner, pool_active-track_runner,
  total_active-track_runner, pool_active-untrack_runner, total_active-untrack_runner,
}
use gh_runner.Orchestrator.Tracking.Valid.{IsValid, track_runner-IsValid, untrack_runner-IsValid}

-- `limit` is the global limit and `Caps p m` says that pool `p` may be filled up to `m`; a limit of
-- 0 is none. `Drains p` says that runners of `p` may be untracked.
pub data Moves (limit : ℕ) (Caps : GoString → ℕ → Type 0) (Drains : GoString → Type 0) (t : Tracked)
    : Tracked → Type 0 where
  stay : Moves limit Caps Drains t t
  untracks :
      {u : Tracked} (p id : GoString)
      → Drains p
      → Moves limit Caps Drains t u
      → Moves limit Caps Drains t (untrack_runner p id u)
  tracks :
      {u : Tracked} (s : RunnerStatus) (m : ℕ)
      → Caps s.pool_name m
      → ((limit ≡ 0) ⊎ (total_active u < limit))
      → ((m ≡ 0) ⊎ (pool_active s.pool_name u < m))
      → Moves limit Caps Drains t u
      → Moves limit Caps Drains t (track_runner s u)

pub running_one-le : (s : RunnerStatus) → running_one s ≤ 1
unfolding running_one
running_one-le s = ground arith

module _ {limit : ℕ} {Caps : GoString → ℕ → Type 0} {Drains : GoString → Type 0} where
  pub Moves-trans :
      {t u v : Tracked}
      → Moves limit Caps Drains t u
      → Moves limit Caps Drains u v
      → Moves limit Caps Drains t v
  Moves-trans a stay = a
  Moves-trans a (untracks p id d b) = untracks p id d (Moves-trans a b)
  Moves-trans a (tracks s m c g h b) = tracks s m c g h (Moves-trans a b)

  pub Moves-IsValid : {t u : Tracked} → Moves limit Caps Drains t u → IsValid t → IsValid u
  Moves-IsValid stay v = v
  Moves-IsValid (untracks {u} p id d b) v = untrack_runner-IsValid p id u (Moves-IsValid b v)
  Moves-IsValid (tracks {u} s m c g h b) v = track_runner-IsValid s u (Moves-IsValid b v)

  -- The running runners never pass the global limit, unless they stood above it before.
  pub Moves-total :
      {t u : Tracked}
      → 0 < limit
      → Moves limit Caps Drains t u
      → total_active u ≤ max (total_active t) limit
  Moves-total pos stay = omega arith
  Moves-total pos (untracks {u} p id d b) =
      omega (arith, total_active-untrack_runner p id u, Moves-total pos b)
  Moves-total pos (tracks {u} s m c g h b) =
      omega (arith, total_active-track_runner s u, running_one-le s, Moves-total pos b)

  -- Nor does one pool pass a bound on its limits.
  pub Moves-pool :
      {t u : Tracked} (p : GoString) (bound : ℕ)
      → ((m : ℕ) → Caps p m → (0 < m) × (m ≤ bound))
      → Moves limit Caps Drains t u
      → pool_active p u ≤ max (pool_active p t) bound
  Moves-pool p bound caps stay = omega arith
  Moves-pool p bound caps (untracks {u} q id d b) =
      omega (arith, pool_active-untrack_runner q id p u, Moves-pool p bound caps b)
  Moves-pool p bound caps (tracks {u} s m c g h b) = elim (Bool-cases (text_eq s.pool_name p)) [
    | inl same ↦
        let e = (text_eq_iff s.pool_name p).0 same in
        let (pos, le) = caps m (rw e at c) in
        let h' : (m ≡ 0) ⊎ (pool_active p u < m) = (rw e at h) in
        omega (arith, rw same at (pool_active-track_runner s p u), running_one-le s, h', pos, le)
    | inr other ↦
        omega (arith, rw other at (pool_active-track_runner s p u), Moves-pool p bound caps b)
  ]

  -- A pool that is neither filled nor drained keeps its runners.
  pub Moves-frame :
      {t u : Tracked} (p : GoString)
      → ((m : ℕ) → ¬ Caps p m)
      → ¬ Drains p
      → Moves limit Caps Drains t u
      → pool_map p u ≡ pool_map p t
  Moves-frame p caps drains stay = refl
  Moves-frame p caps drains (untracks {u} q id d b) = elim (Bool-cases (text_eq q p)) [
    | inl same ↦ absurd (drains (rw ((text_eq_iff q p).0 same) at d))
    | inr other ↦ rw (pool_map-untrack_runner q id p u, other) (Moves-frame p caps drains b)
  ]
  Moves-frame p caps drains (tracks {u} s m c g h b) = elim (Bool-cases (text_eq s.pool_name p)) [
    | inl same ↦ absurd (caps m (rw ((text_eq_iff s.pool_name p).0 same) at c))
    | inr other ↦ rw (pool_map-track_runner s p u, other) (Moves-frame p caps drains b)
  ]
