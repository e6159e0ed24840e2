-- ===== src/Server/Pools/Checked.antt =====
-- internal/server/pool.go: payloads after validatePoolInput.
use gh_runner.Prelude.{
  ℕ, zero, suc, ◌≡◌, refl, subst, inl, inr, Bool, true, false, ◌&&◌, not, Option, none, some,
  Bool-cases,
}
use gh_runner.Prelude.Text.{GoString, is_empty, Unicode}
use gh_runner.Prelude.Integers.{ℤ, pos, negsuc, is_negative, is_not_positive}
use gh_runner.Orchestrator.Matching.{UrlLibrary}
use gh_runner.Server.Pools.{
  PoolInput, PoolColumns, folded, is_provider, needs_docker, or_repo, is_scope, filled_url,
  is_valid, check_filled, check_targets, targets_of, validate_pool_input, columns_of,
  schedule_is_valid,
}

abbrev pub IsNatural : ℤ → Type 0
IsNatural x = (n : ℕ) × (x ≡ pos n)

is_negative-IsNatural : (x : ℤ) → is_negative x ≡ false → IsNatural x
is_negative-IsNatural (pos n) h = (n, refl)
is_negative-IsNatural (negsuc n) h = cc

abbrev pub IsPositive : ℤ → Type 0
IsPositive x = (n : ℕ) × (x ≡ pos (suc n))

pub is_not_positive-IsPositive : (x : ℤ) → is_not_positive x ≡ false → IsPositive x
is_not_positive-IsPositive (pos zero) h = cc
is_not_positive-IsPositive (pos (suc n)) h = (n, refl)
is_not_positive-IsPositive (negsuc n) h = cc

all_true :
    (a b c d e f g h : Bool)
    → (a && b && not c && not d && not e && not f && not g && h) ≡ true
    → (a ≡ true) × (c ≡ false) × (d ≡ false) × (e ≡ false) × (f ≡ false) × (g ≡ false)
all_true true true false false false false false true k = (refl, refl, refl, refl, refl, refl)
all_true false b c d e f g h k = cc
all_true true false c d e f g h k = cc
all_true true true true d e f g h k = cc
all_true true true false true e f g h k = cc
all_true true true false false true f g h k = cc
all_true true true false false false true g h k = cc
all_true true true false false false false true h k = cc
all_true true true false false false false false false k = cc

needs_allow : (needs allow : Bool) → (needs && not allow) ≡ false → needs ≡ true → allow ≡ true
needs_allow true true h n = refl
needs_allow true false h n = cc
needs_allow false allow h n = cc

module _ (text : Unicode) (urls : UrlLibrary) (parse_schedule : GoString → Bool) where
  -- What the orchestrator relies on in a row.
  pub record IsPool (c : PoolColumns) : Type 0 where
    pub named : is_empty c.name ≡ false
    pub supported : is_provider text urls parse_schedule c.provider ≡ true
    pub docker : needs_docker text urls parse_schedule c.provider ≡ true → c.allow_docker ≡ true
    pub profile : IsPositive c.auth_profile_id
    pub idle : IsNatural c.min_idle_runners
    pub concurrency : IsNatural c.max_concurrency
    pub lifetime : IsNatural c.max_runner_lifetime_seconds

  -- The facts that the checks establish of a payload.
  pub record IsChecked (p : PoolInput) : Type 0 where
    pub named : is_empty (text.trim_space p.name) ≡ false
    pub supported :
        is_provider text urls parse_schedule (folded text urls parse_schedule p.provider) ≡ true
    pub valid : is_valid text urls parse_schedule p ≡ true

  check_filled-IsChecked :
      (p q : PoolInput) (o : Option GoString)
      → is_empty (text.trim_space p.name) ≡ false
      → is_provider text urls parse_schedule (folded text urls parse_schedule p.provider) ≡ true
      → check_filled text urls parse_schedule p o ≡ some q
      → IsChecked q × ((q.scope ≡ p.scope) × (q.id ≡ p.id))
  unfolding check_filled
  check_filled-IsChecked p q none named supported h = cc
  check_filled-IsChecked p q (some url) named supported h =
      let filled : PoolInput = record p { repository_url = url } in
      elim (Bool-cases (is_valid text urls parse_schedule filled)) [
        | inr bad ↦ let never : none ≡ some q = (rw (bad, check_filled) at h) in cc
        | inl good ↦
            let answer : some filled ≡ some q = (rw (good, check_filled) at h) in
            let same : filled ≡ q = cc in
            subst (λ r. IsChecked r × ((PoolInput.scope r ≡ p.scope) × (PoolInput.id r ≡ p.id)))
              same (record { named = named; supported = supported; valid = good }, (refl, refl))
      ]

  pub validate_pool_input-IsChecked :
      (input : Option PoolInput) (q : PoolInput)
      → validate_pool_input text urls parse_schedule input ≡ some q
      → (p : PoolInput) × (input ≡ some p) × IsChecked q × ((q.scope ≡ p.scope) × (q.id ≡ p.id))
  unfolding validate_pool_input
  validate_pool_input-IsChecked none q h = cc
  validate_pool_input-IsChecked (some p) q h =
      elim (Bool-cases (is_empty (text.trim_space p.name))) [
        | inl blank ↦ let never : none ≡ some q = (rw (blank, validate_pool_input) at h) in cc
        | inr named ↦
            elim (Bool-cases
              (is_provider text urls parse_schedule (folded text urls parse_schedule p.provider))) [
                | inr unknown ↦
                    let never : none ≡ some q = (rw (named, unknown, validate_pool_input) at h) in
                    cc
                | inl supported ↦
                    let (checked, same) =
                      check_filled-IsChecked p q (filled_url text urls parse_schedule p) named
                        supported (rw (named, supported, validate_pool_input) at h) in
                    (p, refl, checked, same)
              ]
      ]

  -- The checks of a payload, one by one.
  pub valid_parts :
      (p : PoolInput)
      → is_valid text urls parse_schedule p ≡ true
      → (is_scope text urls parse_schedule
            (or_repo text urls parse_schedule (folded text urls parse_schedule p.scope))
          ≡ true)
        × ((needs_docker text urls parse_schedule (folded text urls parse_schedule p.provider)
              && not p.allow_docker)
            ≡ false)
        × (is_not_positive p.auth_profile_id ≡ false)
        × (is_negative p.min_idle_runners ≡ false)
        × (is_negative p.max_concurrency ≡ false)
        × (is_negative p.max_runner_lifetime_seconds ≡ false)
  unfolding is_valid
  valid_parts p =
      all_true
        (is_scope text urls parse_schedule
          (or_repo text urls parse_schedule (folded text urls parse_schedule p.scope)))
        (check_targets text urls parse_schedule
          (or_repo text urls parse_schedule (folded text urls parse_schedule p.scope))
          (targets_of text urls parse_schedule p))
        (needs_docker text urls parse_schedule (folded text urls parse_schedule p.provider)
          && not p.allow_docker)
        (is_not_positive p.auth_profile_id) (is_negative p.min_idle_runners)
        (is_negative p.max_concurrency) (is_negative p.max_runner_lifetime_seconds)
        (schedule_is_valid text urls parse_schedule p.renovate)

  pub columns_of-IsPool :
      (p : PoolInput) (scope : GoString)
      → IsChecked p
      → IsPool (columns_of text urls parse_schedule p scope)
  unfolding columns_of
  columns_of-IsPool p scope checked =
      let (scoped, docker, profile, idle, concurrency, lifetime) = valid_parts p checked.valid in
      record {
        named = checked.named;
        supported = checked.supported;
        docker =
            needs_allow
              (needs_docker text urls parse_schedule (folded text urls parse_schedule p.provider))
              p.allow_docker docker;
        profile = is_not_positive-IsPositive p.auth_profile_id profile;
        idle = is_negative-IsNatural p.min_idle_runners idle;
        concurrency = is_negative-IsNatural p.max_concurrency concurrency;
        lifetime = is_negative-IsNatural p.max_runner_lifetime_seconds lifetime;
      }
