-- ===== src/Server/Pools/Updated.antt =====
-- internal/server/pool.go: what UpdatePool writes.
use gh_runner.Prelude.{
  ◌≡◌, refl, ap, subst, inl, inr, Bool, Option, none, some, Bool-cases, Option-cases,
}
use gh_runner.Prelude.Text.{GoString, Unicode}
use gh_runner.Prelude.Integers.{ℤ, is_not_positive}
use gh_runner.Prelude.Results.{ok, failed}
use gh_runner.Orchestrator.Matching.{UrlLibrary}
use gh_runner.Server.Pools.{
  invalid_argument, PoolInput, PoolColumns, PoolRow, Written, written, foreign_key, other_error,
  PoolDatabase, validate_pool_input, columns_of, schedule_is_valid,
}
use gh_runner.Server.Pools.Service.{
  finish_update, kept_scope, update_existing, update_validated, update_pool,
}
use gh_runner.Server.Pools.Checked.{
  IsPositive, is_not_positive-IsPositive, IsPool, IsChecked, validate_pool_input-IsChecked,
  columns_of-IsPool,
}

module _ (text : Unicode) (urls : UrlLibrary) (parse_schedule : GoString → Bool) (db : PoolDatabase)
    (has_stats : Bool) where
  finish_update-written :
      (p : PoolInput) (answer : Written) (row : PoolRow) (w w' : db.World)
      → finish_update text urls parse_schedule db has_stats p answer w ≡ (ok row, w')
      → answer ≡ written row
  unfolding finish_update
  finish_update-written p foreign_key row w w' h = cc
  finish_update-written p other_error row w w' h = cc
  finish_update-written p (written made) row w w' h =
      elim (Bool-cases (schedule_is_valid text urls parse_schedule p.renovate)) [
        | inr bad ↦
            let never : (failed invalid_argument, w) ≡ (ok row, w') =
              (rw (bad, finish_update) at h) in
            cc
        | inl good ↦
            let first : ok made ≡ ok row = ap (λ r. r.0) (rw (good, finish_update) at h) in cc
      ]

  -- The row comes from a query on the pool of that id, which was there.
  abbrev pub UpdatedFrom : ℤ → PoolRow → db.World → Type 0
  UpdatedFrom id row w =
      IsPositive id
      × ((existing : PoolRow) × (db.get_runner_pool_by_id id w ≡ some existing))
      × ((columns : PoolColumns) × IsPool text urls parse_schedule columns
          × ((db.update_runner_pool id columns w).0 ≡ written row))

  update_existing-written :
      (q : PoolInput) (o : Option PoolRow) (row : PoolRow) (w w' : db.World)
      → IsChecked text urls parse_schedule q
      → update_existing text urls parse_schedule db has_stats q o w ≡ (ok row, w')
      → ((existing : PoolRow) × (o ≡ some existing))
        × ((columns : PoolColumns) × IsPool text urls parse_schedule columns
            × ((db.update_runner_pool q.id columns w).0 ≡ written row))
  unfolding update_existing
  update_existing-written q none row w w' checked h = cc
  update_existing-written q (some existing) row w w' checked h =
      let scope : GoString =
        kept_scope text urls parse_schedule db has_stats (text.trim_space q.scope)
          existing.columns.scope in
      let columns : PoolColumns = columns_of text urls parse_schedule q scope in
      (
        (existing, refl),
        (
          columns,
          columns_of-IsPool text urls parse_schedule q scope checked,
          finish_update-written q (db.update_runner_pool q.id columns w).0 row
              (db.update_runner_pool q.id columns w).1 w' h,
        ),
      )

  update_validated-UpdatedFrom :
      (q : PoolInput) (row : PoolRow) (w w' : db.World)
      → IsChecked text urls parse_schedule q
      → update_validated text urls parse_schedule db has_stats (some q) w ≡ (ok row, w')
      → UpdatedFrom q.id row w
  unfolding update_validated
  update_validated-UpdatedFrom q row w w' checked h = elim (Bool-cases (is_not_positive q.id)) [
    | inl bad ↦
        let never : (failed invalid_argument, w) ≡ (ok row, w') =
          (rw (bad, update_validated) at h) in
        cc
    | inr good ↦
        let (there, made) =
          update_existing-written q (db.get_runner_pool_by_id q.id w) row w w' checked
            (rw (good, update_validated) at h) in
        (is_not_positive-IsPositive q.id good, there, made)
  ]

  -- When UpdatePool succeeds, the id of the payload is positive and that of a stored pool, and the
  -- row that it returns was written with columns of the same kind as CreatePool's.
  pub update_pool-IsPool :
      (input : Option PoolInput) (row : PoolRow) (w w' : db.World)
      → update_pool text urls parse_schedule db has_stats input w ≡ (ok row, w')
      → (p : PoolInput) × (input ≡ some p) × UpdatedFrom p.id row w
  unfolding update_pool
  update_pool-IsPool input row w w' h =
      elim (Option-cases (validate_pool_input text urls parse_schedule input)) [
        | inl refused ↦
            let never : (failed invalid_argument, w) ≡ (ok row, w') =
              (rw (refused, update_pool, update_validated) at h) in
            cc
        | inr (q, passed) ↦
            let (p, given, checked, same) =
              validate_pool_input-IsChecked text urls parse_schedule input q passed in
            (
              p,
              given,
              subst (λ id. UpdatedFrom id row w) same.1
                  (update_validated-UpdatedFrom q row w w' checked (rw (passed, update_pool) at h)),
            )
      ]
