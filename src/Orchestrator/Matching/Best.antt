-- ===== src/Orchestrator/Matching/Best.antt =====
-- The choice that MatchPoolForEventWithTargets makes.
use mathlib.Core.List.Memᴰ
use mathlib.Core.List.{Memᴰ}
use gh_runner.Prelude.{
  ℕ, ◌≤◌, ◌<◌, ◌≡◌, refl, ap, ◌⊎◌, inl, inr, true, Option, none, some, List, [], ◌∷◌, if◌then◌else◌,
  ltb, arith, Bool-cases, All,
}
use gh_runner.Prelude.Text.{GoString, is_empty, Unicode}
use gh_runner.Orchestrator.Platform.{RunnerPool}
use gh_runner.Orchestrator.Matching.{
  WorkflowJobEvent, UrlLibrary, clean, scored_targets, eligible, scored_pools, pool_scope,
  candidate_urls, or_pool_url, pick_best, match_pool_for_event_with_targets,
}

-- A candidate: pool, raw target and score plus one.
abbrev Candidate : Type 0
Candidate = RunnerPool × GoString × ℕ

abbrev pub score_of : Candidate → ℕ
score_of (p, t, n) = n

-- Nothing in the list is better.
abbrev pub IsBest : List Candidate → ℕ → Type 0
IsBest xs n = All (λ x. score_of x ≤ n) xs

IsBest-mono : (xs : List Candidate) (m n : ℕ) → m ≤ n → IsBest xs m → IsBest xs n
IsBest-mono [] m n le h = tt
IsBest-mono (x ∷ xs) m n le h = (omega (arith, h.0), IsBest-mono xs m n le h.1)

-- Either the start is kept, and nothing beats it, or a best candidate is picked that does.
abbrev Picked : List Candidate → Option (RunnerPool × GoString) → ℕ → Type 0
Picked xs best score =
    ((pick_best xs best score ≡ best) × IsBest xs score)
    ⊎ ((p : RunnerPool) × (t : GoString) × (n : ℕ) × (pick_best xs best score ≡ some (p, t))
        × Memᴰ (p, t, n) xs
        × (score < n)
        × IsBest xs n)

pick_best-Picked :
    (xs : List Candidate) (best : Option (RunnerPool × GoString)) (score : ℕ) → Picked xs best score
unfolding pick_best
pick_best-Picked [] best score = inl (refl, tt)
pick_best-Picked ((p, t, n) ∷ xs) best score = elim (Bool-cases (ltb score n)) [
  | inl better ↦ elim (pick_best-Picked xs (some (p, t)) n) [
    | inl (e, bound) ↦
        inr (p, t, n, rw better e, Memᴰ.head refl, (ground arith), ((omega arith), bound))
    | inr (q, t', m, e, mem, more, bound) ↦
        inr (q, t', m, rw better e, Memᴰ.tail mem, (ground arith), ((omega arith), bound))
  ]
  | inr same ↦ elim (pick_best-Picked xs best score) [
    | inl (e, bound) ↦ inl (rw same e, ((ground arith), bound))
    | inr (q, t', m, e, mem, more, bound) ↦
        inr (q, t', m, rw same e, Memᴰ.tail mem, more, ((ground arith), bound))
  ]
]

module _ (u : Unicode) (net : UrlLibrary) (json : GoString → Option (List GoString))
    (provider : GoString) (e : WorkflowJobEvent) where
  scored_targets-pool :
      (scope : GoString) (candidates : List GoString) (full : GoString) (p : RunnerPool)
      (ts : List GoString) (q : RunnerPool) (t : GoString) (n : ℕ)
      → Memᴰ (q, t, n) (scored_targets u net scope candidates full p ts)
      → q ≡ p
  unfolding scored_targets
  scored_targets-pool scope candidates full p [] q t n m = absurd (Memᴰ.not-nil m)
  scored_targets-pool scope candidates full p (x ∷ ts) q t n m = elim (Memᴰ.cases_cons m) [
    | inl same ↦ ap (λ c. c.0) same
    | inr later ↦ scored_targets-pool scope candidates full p ts q t n later
  ]

  -- Only eligible pools have candidates.
  scored_pools-eligible :
      (ps : List (RunnerPool × List GoString)) (q : RunnerPool) (t : GoString) (n : ℕ)
      → Memᴰ (q, t, n) (scored_pools u net json provider e ps)
      → eligible u net json provider e q ≡ true
  unfolding scored_pools
  scored_pools-eligible [] q t n m = absurd (Memᴰ.not-nil m)
  scored_pools-eligible ((p, targets) ∷ ps) q t n m =
      let ih = scored_pools-eligible ps q t n in
      elim (Bool-cases (eligible u net json provider e p)) [
        | inl fits ↦
            elim (Memᴰ.append_cases
              (scored_targets u net (pool_scope u net p) (candidate_urls u net provider e)
                (clean u net e.full_name) p (or_pool_url u net p targets))
              (rw (fits, scored_pools) at m)) [
                | inl here ↦
                    let same =
                      scored_targets-pool (pool_scope u net p) (candidate_urls u net provider e)
                        (clean u net e.full_name) p (or_pool_url u net p targets) q t n here in
                    rw same fits
                | inr later ↦ ih later
              ]
        | inr skipped ↦ ih (rw (skipped, scored_pools) at m)
      ]

module _ (u : Unicode) (net : UrlLibrary) (json : GoString → Option (List GoString))
    (pools : List (RunnerPool × List GoString)) (provider : GoString) (e : WorkflowJobEvent) where
  abbrev candidates : List Candidate
  candidates = scored_pools u net json (clean u net provider) e pools

  -- A matched pool has the event's provider and labels, and one of its targets matches the event
  -- with the highest score among all candidates; without a match no candidate scores.
  abbrev pub Promise : Option (RunnerPool × GoString) → Type 0
  Promise none = IsBest candidates 0
  Promise (some (p, url)) =
      (eligible u net json (clean u net provider) e p ≡ true)
      × ((t : GoString) × (n : ℕ) × Memᴰ (p, t, n) candidates
          × (0 < n)
          × IsBest candidates n
          × (url ≡ (if is_empty t then p.repository_url else t)))

  -- The pool that an event is matched to has the event's provider and its labels, and one of its
  -- targets matches the event with the highest score of all candidates; where no pool is matched,
  -- no target of an eligible pool matches.
  pub match_pool_for_event_with_targets-Promise :
      Promise (match_pool_for_event_with_targets u net json pools provider e)
  unfolding match_pool_for_event_with_targets
  match_pool_for_event_with_targets-Promise = elim (pick_best-Picked candidates none 0) [
    | inl (same, bound) ↦ rw same bound
    | inr (p, t, n, same, mem, pos, bound) ↦ rw same (
      scored_pools-eligible u net json (clean u net provider) e pools p t n mem,
      (t, n, mem, pos, bound, refl),
    )
  ]
