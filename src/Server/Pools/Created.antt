-- ===== src/Server/Pools/Created.antt =====
-- internal/server/pool.go: what CreatePool writes.
use gh_runner.Prelude.{
  ◌≡◌, refl, ap, subst, inl, inr, Bool, true, Option, some, Bool-cases, Option-cases,
}
use gh_runner.Prelude.Text.{GoString, Unicode}
use gh_runner.Prelude.Results.{ok, failed}
use gh_runner.Orchestrator.Matching.{UrlLibrary}
use gh_runner.Server.Pools.{
  invalid_argument, PoolInput, PoolColumns, PoolRow, Written, written, foreign_key, other_error,
  PoolDatabase, folded, or_repo, is_scope, validate_pool_input, columns_of, schedule_is_valid,
}
use gh_runner.Server.Pools.Service.{finish_create, create_validated, create_pool}
use gh_runner.Server.Pools.Checked.{
  IsPool, IsChecked, validate_pool_input-IsChecked, valid_parts, columns_of-IsPool,
}

module _ (text : Unicode) (urls : UrlLibrary) (parse_schedule : GoString → Bool) (db : PoolDatabase)
    (has_stats : Bool) where
  finish_create-written :
      (p : PoolInput) (answer : Written) (row : PoolRow) (w w' : db.World)
      → finish_create text urls parse_schedule db has_stats p answer w ≡ (ok row, w')
      → answer ≡ written row
  unfolding finish_create
  finish_create-written p foreign_key row w w' h = cc
  finish_create-written p other_error row w w' h = cc
  finish_create-written p (written made) row w w' h =
      elim (Bool-cases (schedule_is_valid text urls parse_schedule p.renovate)) [
        | inr bad ↦
            let never : (failed invalid_argument, w) ≡ (ok row, w') =
              (rw (bad, finish_create) at h) in
            cc
        | inl good ↦
            let first : ok made ≡ ok row = ap (λ r. r.0) (rw (good, finish_create) at h) in cc
      ]

  -- The row comes from a query with the columns of a pool.
  abbrev pub CreatedFrom : PoolInput → PoolRow → db.World → Type 0
  CreatedFrom p row w =
      (columns : PoolColumns) × IsPool text urls parse_schedule columns
      × (columns.scope ≡ or_repo text urls parse_schedule (text.trim_space p.scope))
      × (is_scope text urls parse_schedule
            (or_repo text urls parse_schedule (folded text urls parse_schedule p.scope))
          ≡ true)
      × ((db.create_runner_pool columns w).0 ≡ written row)

  create_validated-CreatedFrom :
      (q : PoolInput) (row : PoolRow) (w w' : db.World)
      → IsChecked text urls parse_schedule q
      → create_validated text urls parse_schedule db has_stats (some q) w ≡ (ok row, w')
      → CreatedFrom q row w
  unfolding create_validated columns_of
  create_validated-CreatedFrom q row w w' checked h =
      let scope : GoString = or_repo text urls parse_schedule (text.trim_space q.scope) in
      let columns : PoolColumns = columns_of text urls parse_schedule q scope in
      (
        columns,
        columns_of-IsPool text urls parse_schedule q scope checked,
        refl,
        (valid_parts text urls parse_schedule q checked.valid).0,
        finish_create-written q (db.create_runner_pool columns w).0 row
            (db.create_runner_pool columns w).1 w' h,
      )

  -- When CreatePool succeeds, the row that it returns was written with columns that the orchestrator
  -- can rely on: a name, a supported provider, Docker allowed where the provider needs it, a
  -- positive profile, and no negative count or lifetime. The scope is one of the three only up to
  -- its case, since it is stored as it was typed, blank ends aside.
  pub create_pool-IsPool :
      (input : Option PoolInput) (row : PoolRow) (w w' : db.World)
      → create_pool text urls parse_schedule db has_stats input w ≡ (ok row, w')
      → (p : PoolInput) × (input ≡ some p) × CreatedFrom p row w
  unfolding create_pool
  create_pool-IsPool input row w w' h =
      elim (Option-cases (validate_pool_input text urls parse_schedule input)) [
        | inl refused ↦
            let never : (failed invalid_argument, w) ≡ (ok row, w') =
              (rw (refused, create_pool, create_validated) at h) in
            cc
        | inr (q, passed) ↦
            let (p, given, checked, same) =
              validate_pool_input-IsChecked text urls parse_schedule input q passed in
            (
              p,
              given,
              subst
                  (λ s.
                    (columns : PoolColumns) × IsPool text urls parse_schedule columns
                    × (columns.scope ≡ or_repo text urls parse_schedule (text.trim_space s))
                    × (is_scope text urls parse_schedule
                          (or_repo text urls parse_schedule (folded text urls parse_schedule s))
                        ≡ true)
                    × ((db.create_runner_pool columns w).0 ≡ written row))
                  same.0
                  (create_validated-CreatedFrom q row w w' checked (rw (passed, create_pool) at h)),
            )
      ]
