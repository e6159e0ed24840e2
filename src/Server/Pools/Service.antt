-- ===== src/Server/Pools/Service.antt =====
-- internal/server/pool.go: CreatePool, UpdatePool and DeletePool. Errors of the queries on targets and
-- on Renovate settings do not fail a call.
use gh_runner.Prelude.{Bool, not, Option, none, some, List, [], ◌∷◌, if◌then◌else◌}
use gh_runner.Prelude.Text.{GoString, codes, is_empty, Unicode}
use gh_runner.Prelude.Integers.{ℤ, is_not_positive}
use gh_runner.Prelude.Results.{Result, ok, failed}
use gh_runner.Orchestrator.Matching.{UrlLibrary}
use gh_runner.Server.Pools.{
  PoolError, invalid_argument, not_found, internal_error, RenovateInput, PoolInput, PoolRow,
  Written, written, foreign_key, other_error, PoolDatabase, or_repo, targets_of, schedule_is_valid,
  validate_pool_input, columns_of, renovate_columns,
}

module _ (text : Unicode) (urls : UrlLibrary) (parse_schedule : GoString → Bool) (db : PoolDatabase)
    (has_stats : Bool) where
  open db use {World}

  add_targets : ℤ → List GoString → World → World
  add_targets id [] w = w
  add_targets id (t ∷ ts) w =
      let url = text.trim_space t in
      let w' = if is_empty url then w else db.add_pool_target id url w in add_targets id ts w'

  stored_targets : PoolInput → PoolRow → List GoString
  unfolding targets_of
  stored_targets p row =
      targets_of text urls parse_schedule (record p { repository_url = row.columns.repository_url })

  reloaded : World → World
  reloaded w = if has_stats then db.reload w else w

  create_renovate : ℤ → Option RenovateInput → World → World
  unfolding renovate_columns
  create_renovate id none w = w
  create_renovate id (some r) w =
      db.create_renovate_config id (renovate_columns text urls parse_schedule r) w

  -- A missing row, which is `false`, is created; other errors are not looked at.
  update_renovate : ℤ → Option RenovateInput → World → World
  unfolding renovate_columns
  update_renovate id none w = w
  update_renovate id (some r) w =
      let (found, w') =
        db.update_renovate_config id (renovate_columns text urls parse_schedule r) w in
      if found
      then w'
      else db.create_renovate_config id (renovate_columns text urls parse_schedule r) w'

  unfoldable pub finish_create : PoolInput → Written → World → Result PoolError PoolRow × World
  unfolding create_renovate add_targets stored_targets reloaded
  finish_create p foreign_key w = (failed invalid_argument, w)
  finish_create p other_error w = (failed internal_error, w)
  finish_create p (written row) w =
      let w1 = create_renovate row.id p.renovate w in
      let w2 = add_targets row.id (stored_targets p row) w1 in
      if not (schedule_is_valid text urls parse_schedule p.renovate)
      then (failed invalid_argument, w)
      else (ok row, reloaded (db.audit (codes "pool.create") row w2))

  unfoldable pub create_validated : Option PoolInput → World → Result PoolError PoolRow × World
  unfolding finish_create columns_of or_repo
  create_validated none w = (failed invalid_argument, w)
  create_validated (some p) w =
      let columns =
        columns_of text urls parse_schedule p
          (or_repo text urls parse_schedule (text.trim_space p.scope)) in
      let (answer, w') = db.create_runner_pool columns w in finish_create p answer w'

  unfoldable pub create_pool : Option PoolInput → World → Result PoolError PoolRow × World
  unfolding create_validated validate_pool_input
  create_pool input w = create_validated (validate_pool_input text urls parse_schedule input) w

  unfoldable pub finish_update : PoolInput → Written → World → Result PoolError PoolRow × World
  unfolding update_renovate add_targets stored_targets reloaded
  finish_update p foreign_key w = (failed invalid_argument, w)
  finish_update p other_error w = (failed internal_error, w)
  finish_update p (written row) w =
      let w1 = update_renovate row.id p.renovate w in
      let w2 = add_targets p.id (stored_targets p row) (db.delete_pool_targets p.id w1) in
      if not (schedule_is_valid text urls parse_schedule p.renovate)
      then (failed invalid_argument, w)
      else (ok row, reloaded (db.audit (codes "pool.update") row w2))

  unfoldable pub kept_scope : GoString → GoString → GoString
  kept_scope scope existing = if is_empty scope then existing else scope

  unfoldable pub update_existing :
      PoolInput → Option PoolRow → World → Result PoolError PoolRow × World
  unfolding finish_update columns_of kept_scope
  update_existing p none w = (failed not_found, w)
  update_existing p (some existing) w =
      let columns =
        columns_of text urls parse_schedule p
          (kept_scope (text.trim_space p.scope) existing.columns.scope) in
      let (answer, w') = db.update_runner_pool p.id columns w in finish_update p answer w'

  unfoldable pub update_validated : Option PoolInput → World → Result PoolError PoolRow × World
  unfolding update_existing
  update_validated none w = (failed invalid_argument, w)
  update_validated (some p) w =
      if is_not_positive p.id
      then (failed invalid_argument, w)
      else update_existing p (db.get_runner_pool_by_id p.id w) w

  unfoldable pub update_pool : Option PoolInput → World → Result PoolError PoolRow × World
  unfolding update_validated validate_pool_input
  update_pool input w = update_validated (validate_pool_input text urls parse_schedule input) w

  delete_existing : ℤ → Option PoolRow → World → Result PoolError (Unit {0}) × World
  unfolding reloaded
  delete_existing id none w = (failed not_found, w)
  delete_existing id (some existing) w =
      let (deleted, w') = db.delete_runner_pool id (db.delete_pool_targets id w) in
      if deleted
      then (ok tt, reloaded (db.audit (codes "pool.delete") existing w'))
      else (failed internal_error, w')

  unfoldable pub delete_pool : ℤ → World → Result PoolError (Unit {0}) × World
  unfolding delete_existing
  delete_pool id w =
      if is_not_positive id
      then (failed invalid_argument, w)
      else delete_existing id (db.get_runner_pool_by_id id w) w
