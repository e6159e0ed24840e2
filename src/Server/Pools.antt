-- ===== src/Server/Pools.antt =====
-- internal/server/pool.go: what the pool service writes. The generated queries, package net/url, the
-- parser of schedules and the Unicode tables are parameters; an error of a query that does not
-- fail the call is not looked at.
pub mod Service
pub mod Checked
pub mod Created
pub mod Updated
use gh_runner.Prelude.{
  ℕ, Bool, true, false, ◌&&◌, ◌||◌, not, Option, none, some, List, [], ◌∷◌, ◌++◌, reverse,
  if◌then◌else◌, ltb, leb, length, ◌==◌,
}
use gh_runner.Prelude.Text.{GoString, codes, text_eq, is_empty, join, split, Unicode}
use gh_runner.Prelude.Integers.{ℤ, is_negative, is_not_positive}
use gh_runner.Prelude.Results.{Result, ok, failed}
use gh_runner.Orchestrator.Matching.{Url, UrlLibrary}

pub data PoolError : Type 0 where
  invalid_argument not_found internal_error : PoolError

-- supervisorv1.RenovateConfig and supervisorv1.Pool, without the fields that only answers have.
pub record RenovateInput : Type 0 where
  pub enabled : Bool
  pub cron_schedule : GoString
  pub image : GoString

pub record PoolInput : Type 0 where
  pub id : ℤ
  pub name : GoString
  pub provider : GoString
  pub repository_url : GoString
  pub target_urls : List GoString
  pub scope : GoString
  pub auth_profile_id : ℤ
  pub min_idle_runners : ℤ
  pub max_concurrency : ℤ
  pub labels : List GoString
  pub runner_image : GoString
  pub allow_docker : Bool
  pub max_runner_lifetime_seconds : ℤ
  pub cpu_limit : GoString
  pub memory_limit : GoString
  pub renovate : Option RenovateInput

-- The columns that the two writing queries set; `none` is NULL.
pub record PoolColumns : Type 0 where
  pub name : GoString
  pub provider : GoString
  pub repository_url : GoString
  pub scope : GoString
  pub auth_profile_id : ℤ
  pub min_idle_runners : ℤ
  pub max_concurrency : ℤ
  pub labels : GoString
  pub runner_image : GoString
  pub allow_docker : Bool
  pub max_runner_lifetime_seconds : ℤ
  pub cpu_limit : Option GoString
  pub memory_limit : Option GoString

pub record PoolRow : Type 0 where
  pub id : ℤ
  pub columns : PoolColumns

pub record RenovateColumns : Type 0 where
  pub enabled : Bool
  pub cron_schedule : Option GoString
  pub image : GoString

-- A write: the row, a violated foreign key or another error.
pub data Written : Type 0 where
  written : PoolRow → Written
  foreign_key other_error : Written

pub record PoolDatabase : Type 1 where
  pub World : Type 0
  pub create_runner_pool : PoolColumns → World → Written × World
  pub update_runner_pool : ℤ → PoolColumns → World → Written × World
  pub delete_runner_pool : ℤ → World → Bool × World
  pub get_runner_pool_by_id : ℤ → World → Option PoolRow
  pub create_renovate_config : ℤ → RenovateColumns → World → World
  pub update_renovate_config : ℤ → RenovateColumns → World → Bool × World
  pub add_pool_target : ℤ → GoString → World → World
  pub delete_pool_targets : ℤ → World → World
  pub audit : GoString → PoolRow → World → World
  pub reload : World → World

-- sql.NullString{String: s, Valid: s != ""}.
abbrev pub nullable : GoString → Option GoString
nullable [] = none
nullable (a ∷ s) = some (a ∷ s)

drop_slashes : GoString → GoString
drop_slashes [] = []
drop_slashes (a ∷ s) = let rest = drop_slashes s in if a == b'/' then rest else a ∷ s

-- strings.Trim(path, "/").
unfoldable pub trim_slashes : GoString → GoString
unfolding drop_slashes
trim_slashes s = reverse (drop_slashes (reverse (drop_slashes s)))

module _ (text : Unicode) (urls : UrlLibrary) (parse_schedule : GoString → Bool) where
  abbrev pub folded : GoString → GoString
  folded s = text.to_lower (text.trim_space s)

  unfoldable pub is_provider : GoString → Bool
  is_provider name =
      text_eq name (codes "github")
      || text_eq name (codes "gitea")
      || text_eq name (codes "forgejo")

  unfoldable pub needs_docker : GoString → Bool
  needs_docker name = text_eq name (codes "gitea") || text_eq name (codes "forgejo")

  unfoldable pub or_repo : GoString → GoString
  or_repo scope = if is_empty scope then codes "repo" else scope

  unfoldable pub is_scope : GoString → Bool
  is_scope scope =
      text_eq scope (codes "repo") || text_eq scope (codes "org") || text_eq scope (codes "global")

  -- The path of a target against the scope.
  fits_scope : GoString → GoString → Bool
  unfolding trim_slashes
  fits_scope scope path =
      let trimmed = trim_slashes path in
      let parts = length (split b'/' trimmed) in
      not (text_eq scope (codes "repo") && (is_empty trimmed || ltb parts 2))
      && not (text_eq scope (codes "org") && leb 2 parts)

  parsed_fits : GoString → Option Url → Bool
  unfolding fits_scope
  parsed_fits scope none = false
  parsed_fits scope (some u) = not (is_empty u.host) && fits_scope scope u.path

  unfoldable pub check_target : GoString → GoString → Bool
  unfolding parsed_fits
  check_target scope target =
      let t = text.trim_space target in is_empty t || parsed_fits scope (urls.parse t)

  unfoldable pub check_targets : GoString → List GoString → Bool
  unfolding check_target
  check_targets scope [] = true
  check_targets scope (t ∷ ts) = check_target scope t && check_targets scope ts

  unfoldable pub targets_of : PoolInput → List GoString
  targets_of p = elim p.target_urls [
    | [] ↦ if is_empty p.repository_url then [] else p.repository_url ∷ []
    | t ∷ ts ↦ t ∷ ts
  ]

  unfoldable pub schedule_is_valid : Option RenovateInput → Bool
  schedule_is_valid none = true
  schedule_is_valid (some r) =
      let schedule = text.trim_space r.cron_schedule in
      not (r.enabled && not (is_empty schedule)) || parse_schedule schedule

  -- The repository URL, or the first target in its place.
  unfoldable pub filled_url : PoolInput → Option GoString
  filled_url p =
      if is_empty (text.trim_space p.repository_url)
      then (elim p.target_urls [ [] ↦ none | t ∷ ts ↦ some (text.trim_space t) ])
      else some p.repository_url

  -- The checks after the URL is filled in; all of them fail with the same code.
  unfoldable pub is_valid : PoolInput → Bool
  unfolding is_scope or_repo check_targets targets_of schedule_is_valid needs_docker
  is_valid p =
      let scope = or_repo (folded p.scope) in
      is_scope scope
      && check_targets scope (targets_of p)
      && not (needs_docker (folded p.provider) && not p.allow_docker)
      && not (is_not_positive p.auth_profile_id)
      && not (is_negative p.min_idle_runners)
      && not (is_negative p.max_concurrency)
      && not (is_negative p.max_runner_lifetime_seconds)
      && schedule_is_valid p.renovate

  unfoldable pub check_filled : PoolInput → Option GoString → Option PoolInput
  unfolding is_valid
  check_filled p none = none
  check_filled p (some url) =
      if is_valid (record p { repository_url = url })
      then some (record p { repository_url = url })
      else none

  -- `none` is the error; else the payload, whose URL the check fills in.
  unfoldable pub validate_pool_input : Option PoolInput → Option PoolInput
  unfolding check_filled filled_url is_provider
  validate_pool_input none = none
  validate_pool_input (some p) =
      if is_empty (text.trim_space p.name) || not (is_provider (folded p.provider))
      then none
      else check_filled p (filled_url p)

  -- The parameters of both writing queries, up to the scope.
  unfoldable pub columns_of : PoolInput → GoString → PoolColumns
  columns_of p scope = record {
    name = text.trim_space p.name;
    provider = folded p.provider;
    repository_url = text.trim_space p.repository_url;
    scope = scope;
    auth_profile_id = p.auth_profile_id;
    min_idle_runners = p.min_idle_runners;
    max_concurrency = p.max_concurrency;
    labels = join (codes ",") p.labels;
    runner_image = text.trim_space p.runner_image;
    allow_docker = p.allow_docker;
    max_runner_lifetime_seconds = p.max_runner_lifetime_seconds;
    cpu_limit = nullable p.cpu_limit;
    memory_limit = nullable p.memory_limit;
  }

  unfoldable pub renovate_columns : RenovateInput → RenovateColumns
  renovate_columns r =
      let image = text.trim_space r.image in
      record {
        enabled = r.enabled;
        cron_schedule = nullable (text.trim_space r.cron_schedule);
        image = if is_empty image then codes "renovate/renovate:latest" else image;
      }
