-- ===== src/Examples/Requests.antt =====
-- The theorems on the pool service at a concrete payload: a database that stores what it is given.
use gh_runner.Prelude.{◌≡◌, refl, Bool, true, false, Option, none, some, [], ◌∷◌}
use gh_runner.Prelude.Text.{GoString, codes, text_eq, split, join}
use gh_runner.Prelude.Integers.{pos}
use gh_runner.Prelude.Results.{ok}
use gh_runner.Orchestrator.Matching.{Url, UrlLibrary}
use gh_runner.Server.Pools.{PoolInput, PoolRow, written, PoolDatabase}
use gh_runner.Server.Pools.Service.{create_pool, update_pool}
use gh_runner.Server.Pools.Created.{CreatedFrom, create_pool-IsPool}
use gh_runner.Server.Pools.Updated.{UpdatedFrom, update_pool-IsPool}
use gh_runner.Examples.{ascii}

abbrev forge_url : Url
forge_url = record {
  scheme = codes "https";
  host = codes "h";
  path = codes "/a/b";
  raw_query = [];
  fragment = [];
  other = [];
}

abbrev url_library : UrlLibrary
url_library = record {
  parse = λ s. some forge_url;
  print = λ u. [];
  equal_fold = λ s t. text_eq s t;
}

abbrev schedules : GoString → Bool
schedules s = true

abbrev storing : PoolDatabase
storing = record {
  World = Option PoolRow;
  create_runner_pool = λ columns w. (
    written (record { id = pos 1; columns = columns }),
    some (record { id = pos 1; columns = columns }),
  );
  update_runner_pool = λ id columns w. (
    written (record { id = id; columns = columns }),
    some (record { id = id; columns = columns }),
  );
  delete_runner_pool = λ id w. (true, none);
  get_runner_pool_by_id = λ id w. w;
  create_renovate_config = λ id columns w. w;
  update_renovate_config = λ id columns w. (true, w);
  add_pool_target = λ id url w. w;
  delete_pool_targets = λ id w. w;
  audit = λ action row w. w;
  reload = λ w. w;
}

abbrev payload : PoolInput
payload = record {
  id = pos 1;
  name = codes "web";
  provider = codes "github";
  repository_url = codes "u";
  target_urls = [];
  scope = [];
  auth_profile_id = pos 1;
  min_idle_runners = pos 0;
  max_concurrency = pos 5;
  labels = codes "linux" ∷ [];
  runner_image = codes "img";
  allow_docker = false;
  max_runner_lifetime_seconds = pos 0;
  cpu_limit = [];
  memory_limit = [];
  renovate = none;
}

abbrev stored_row : PoolRow
stored_row = record {
  id = pos 1;
  columns = record {
    name = codes "web";
    provider = codes "github";
    repository_url = codes "u";
    scope = codes "repo";
    auth_profile_id = pos 1;
    min_idle_runners = pos 0;
    max_concurrency = pos 5;
    labels = codes "linux";
    runner_image = codes "img";
    allow_docker = false;
    max_runner_lifetime_seconds = pos 0;
    cpu_limit = none;
    memory_limit = none;
  };
}

creates :
    create_pool ascii url_library schedules storing true (some payload) none
    ≡ (ok stored_row, some stored_row)
unfolding create_pool text_eq split join
creates = refl

updates :
    update_pool ascii url_library schedules storing true (some payload) (some stored_row)
    ≡ (ok stored_row, some stored_row)
unfolding update_pool text_eq split join
updates = refl

create_pool-IsPool_example :
    (p : PoolInput) × (some payload ≡ some p)
    × CreatedFrom ascii url_library schedules storing true p stored_row none
create_pool-IsPool_example =
    create_pool-IsPool ascii url_library schedules storing true (some payload) stored_row none
      (some stored_row) creates

update_pool-IsPool_example :
    (p : PoolInput) × (some payload ≡ some p)
    × UpdatedFrom ascii url_library schedules storing true p.id stored_row (some stored_row)
update_pool-IsPool_example =
    update_pool-IsPool ascii url_library schedules storing true (some payload) stored_row
      (some stored_row) (some stored_row) updates
