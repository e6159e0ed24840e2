-- ===== src/Orchestrator/Matching.antt =====
-- internal/orchestrator/webhook_scaling.go: which pool a workflow_job event is for. Package net/url
-- is a parameter: parsing, printing and the case folding of host names.
pub mod Best
use gh_runner.Prelude.{
  ℕ, ◌==◌, Bool, true, false, ◌&&◌, ◌||◌, not, Option, none, some, List, [], ◌∷◌, ◌++◌, reverse,
  if◌then◌else◌, ltb,
}
use gh_runner.Prelude.Text.{
  GoString, codes, is_empty, text_eq, has_prefix, has_suffix, split, Unicode,
}
use gh_runner.Prelude.Dict.{Dict}
use gh_runner.Orchestrator.Platform.{RunnerPool}

-- webhook.WorkflowJobEvent, the fields that the orchestrator reads.
pub record WorkflowJobEvent : Type 0 where
  pub action : GoString
  pub labels : List GoString
  pub runner_name : GoString
  pub html_url : GoString
  pub clone_url : GoString
  pub full_name : GoString

-- url.URL; `other` is what the normalization leaves alone.
pub record Url : Type 0 where
  pub scheme : GoString
  pub host : GoString
  pub path : GoString
  pub raw_query : GoString
  pub fragment : GoString
  pub other : GoString

pub record UrlLibrary : Type 0 where
  pub parse : GoString → Option Url
  pub print : Url → GoString
  pub equal_fold : GoString → GoString → Bool

-- strings.TrimSuffix.
unfoldable pub drop_length : {A : Type 0} → List A → GoString → GoString
drop_length [] s = s
drop_length (_ ∷ _) [] = []
drop_length (_ ∷ t) (_ ∷ s) = drop_length t s

unfoldable pub trim_suffix : GoString → GoString → GoString
unfolding drop_length
trim_suffix s t = if has_suffix s t then reverse (drop_length t (reverse s)) else s

abbrev any_text : (GoString → Bool) → List GoString → Bool
any_text test [] = false
any_text test (s ∷ ss) = test s || any_text test ss

module _ (u : Unicode) (net : UrlLibrary) where
  -- strings.ToLower(strings.TrimSpace(s)).
  unfoldable pub clean : GoString → GoString
  clean s = u.to_lower (u.trim_space s)

  -- The three TrimSuffix calls of both branches.
  abbrev trim_repository : GoString → GoString
  trim_repository s =
      let slash = codes "/" in trim_suffix (trim_suffix (trim_suffix s slash) (codes ".git")) slash

  normalize_parsed : GoString → Option Url → GoString
  normalize_parsed url none = trim_repository (u.to_lower url)
  normalize_parsed url (some x) =
      trim_suffix
        (net.print (record x {
          scheme = u.to_lower x.scheme;
          host = u.to_lower x.host;
          path = u.to_lower (trim_repository x.path);
          raw_query = [];
          fragment = [];
        }))
        (codes "/")

  unfoldable pub normalize_repository_url : GoString → GoString
  unfolding normalize_parsed
  normalize_repository_url raw =
      let url = u.trim_space raw in
      if is_empty url then [] else normalize_parsed url (net.parse url)

  abbrev default_labels : List GoString
  default_labels = codes "self-hosted" ∷ codes "linux" ∷ []

  abbrev or_default_labels : List GoString → List GoString
  or_default_labels [] = default_labels
  or_default_labels (l ∷ ls) = l ∷ ls

  trimmed_labels : List GoString → List GoString
  trimmed_labels [] = []
  trimmed_labels (p ∷ ps) =
      let trimmed = u.trim_space p in
      let rest = trimmed_labels ps in if is_empty trimmed then rest else trimmed ∷ rest

  -- 44 is the comma.
  unfoldable pub parse_pool_labels : (GoString → Option (List GoString)) → GoString → List GoString
  unfolding trimmed_labels
  parse_pool_labels json raw =
      let parts = or_default_labels (trimmed_labels (split 44 raw)) in
      if is_empty raw
      then default_labels
      else elim (json raw) [ none ↦ parts | some [] ↦ parts | some (l ∷ ls) ↦ l ∷ ls ]

  -- The loop of LabelsMatch over the required labels; `have` is the pool's list.
  unfoldable pub provides_all : List GoString → List GoString → Bool
  unfolding clean
  provides_all have [] = true
  provides_all have (r ∷ rs) =
      let wanted = clean r in
      (is_empty wanted || any_text (λ l. text_eq (clean l) wanted) have) && provides_all have rs

  unfoldable pub labels_match :
      (GoString → Option (List GoString)) → GoString → List GoString → Bool
  unfolding provides_all parse_pool_labels
  labels_match json raw required = provides_all (parse_pool_labels json raw) required

  -- candidateURLs.
  unfoldable pub candidate_urls : GoString → WorkflowJobEvent → List GoString
  unfolding normalize_repository_url
  candidate_urls provider e =
      let html = if is_empty e.html_url then [] else normalize_repository_url e.html_url ∷ [] in
      let clone = if is_empty e.clone_url then [] else normalize_repository_url e.clone_url ∷ [] in
      let full =
        if not (is_empty e.full_name) && text_eq provider (codes "github")
        then normalize_repository_url (codes "https://github.com/" ++ e.full_name) ∷ []
        else [] in
      html ++ (clone ++ full)

  abbrev first_part : List GoString → GoString
  first_part [] = []
  first_part (p ∷ ps) = p

  unfoldable pub matches_repo : List GoString → GoString → GoString → Bool
  matches_repo candidates full target =
      any_text (λ url. text_eq target url) candidates
      || (not (is_empty full) && has_suffix target (codes "/" ++ full))

  -- 47 is the slash: the part of the full name before the first one.
  unfoldable pub matches_org : List GoString → GoString → GoString → Bool
  matches_org candidates full target =
      any_text (λ url. has_prefix url (target ++ codes "/")) candidates
      || (not (is_empty full) && has_suffix target (codes "/" ++ first_part (split 47 full)))

  abbrev parsed_host : Option Url → GoString
  parsed_host none = []
  parsed_host (some x) = x.host

  same_host : GoString → GoString → Bool
  same_host host url =
      let h = parsed_host (net.parse url) in not (is_empty h) && net.equal_fold host h

  unfoldable pub matches_global : List GoString → GoString → Bool
  unfolding same_host
  matches_global candidates target =
      let host = parsed_host (net.parse target) in
      not (is_empty host) && any_text (same_host host) candidates

  -- The score plus one: 0 stands for the -1 of no match.
  unfoldable pub score_target : GoString → List GoString → GoString → GoString → ℕ
  unfolding matches_repo matches_org matches_global normalize_repository_url
  score_target scope candidates full raw =
      let target = normalize_repository_url raw in
      if text_eq scope (codes "repo")
      then (if matches_repo candidates full target then 301 else 0)
      else if text_eq scope (codes "org")
      then (if matches_org candidates full target then 201 else 0)
      else if text_eq scope (codes "global")
      then (if matches_global candidates target then 101 else 0)
      else 0

  unfoldable pub pool_scope : RunnerPool → GoString
  unfolding clean
  pool_scope p = let scope = clean p.scope in if is_empty scope then codes "repo" else scope

  abbrev pub or_pool_url : RunnerPool → List GoString → List GoString
  or_pool_url p [] = if is_empty p.repository_url then [] else p.repository_url ∷ []
  or_pool_url p (t ∷ ts) = t ∷ ts

  -- The candidates of the double loop, in its order: pool, raw target and score plus one.
  unfoldable pub scored_targets :
      GoString
      → List GoString
      → GoString
      → RunnerPool
      → List GoString
      → List (RunnerPool × GoString × ℕ)
  unfolding score_target
  scored_targets scope candidates full p [] = []
  scored_targets scope candidates full p (t ∷ ts) =
      (p, t, score_target scope candidates full t) ∷ scored_targets scope candidates full p ts

  -- The two continue statements, and the targets of the pool.
  unfoldable pub eligible :
      (GoString → Option (List GoString)) → GoString → WorkflowJobEvent → RunnerPool → Bool
  unfolding clean
  eligible json provider e p =
      text_eq (clean p.provider) provider && labels_match json p.labels e.labels

  unfoldable pub scored_pools :
      (GoString → Option (List GoString))
      → GoString
      → WorkflowJobEvent
      → List (RunnerPool × List GoString)
      → List (RunnerPool × GoString × ℕ)
  unfolding scored_targets eligible pool_scope
  scored_pools json provider e [] = []
  scored_pools json provider e ((p, targets) ∷ ps) =
      let rest = scored_pools json provider e ps in
      let here =
        scored_targets (pool_scope p) (candidate_urls provider e) (clean e.full_name) p
          (or_pool_url p targets) in
      if eligible json provider e p then here ++ rest else rest

-- score > bestScore: the first of the highest scores wins.
unfoldable pub pick_best :
    List (RunnerPool × GoString × ℕ)
    → Option (RunnerPool × GoString)
    → ℕ
    → Option (RunnerPool × GoString)
pick_best [] best score = best
pick_best ((p, t, n) ∷ xs) best score =
    let better = pick_best xs (some (p, t)) n in
    let same = pick_best xs best score in if ltb score n then better else same

abbrev pub or_repository_url : Option (RunnerPool × GoString) → Option (RunnerPool × GoString)
or_repository_url none = none
or_repository_url (some (p, t)) = some (p, if is_empty t then p.repository_url else t)

-- MatchPoolForEventWithTargets, on each pool with the targets of its ID.
unfoldable pub match_pool_for_event_with_targets :
    Unicode
    → UrlLibrary
    → (GoString → Option (List GoString))
    → List (RunnerPool × List GoString)
    → GoString
    → WorkflowJobEvent
    → Option (RunnerPool × GoString)
unfolding scored_pools pick_best
match_pool_for_event_with_targets u net json pools provider_name e =
    or_repository_url
      (pick_best (scored_pools u net json (clean u net provider_name) e pools) none 0)
