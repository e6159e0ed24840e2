-- ===== src/Cron/Scheduler/Overlap.antt =====
-- The tasks in flight against the running flags of the registered entries.
use gh_runner.Prelude.{
  ℕ, ◌+◌, ◌==◌, ◌≡◌, ◌∙◌, refl, false, List, [], ◌∷◌, ◌++◌, if◌then◌else◌, arith, All,
}
use gh_runner.Cron.Scheduler.{CronLibrary, JobEntry, Scheduler, fire_due, fire_all, fire_due_jobs}

-- The tasks in flight that were started for one entry object.
unfoldable pub in_flight : ℕ → List (ℕ × ℕ) → ℕ
in_flight o [] = 0
in_flight o ((x, id) ∷ ts) = (if x == o then 1 else 0) + in_flight o ts

in_flight-append :
    (o : ℕ) (xs ys : List (ℕ × ℕ)) → in_flight o (xs ++ ys) ≡ in_flight o xs + in_flight o ys
unfolding in_flight
in_flight-append o [] ys = omega arith
in_flight-append o ((x, id) ∷ xs) ys = omega (arith, in_flight-append o xs ys)

module _ {S : Type 0} where
  -- Every entry has one task in flight if its flag says that it runs, and none otherwise.
  abbrev pub IsTruthful : List (ℕ × ℕ) → List (JobEntry S) → Type 0
  IsTruthful ts es = All (λ e. in_flight e.object ts ≡ (if e.running then 1 else 0)) es

  abbrev pub IsAbsent : ℕ → List (JobEntry S) → Type 0
  IsAbsent o es = All (λ e. (o == e.object) ≡ false) es

  -- No two entries are the same object.
  abbrev pub HasDistinctObjects : List (JobEntry S) → Type 0
  HasDistinctObjects [] = Unit {0}
  HasDistinctObjects (e ∷ es) = IsAbsent e.object es × HasDistinctObjects es

module _ (cron : CronLibrary) (now : ℕ) where
  open cron use {Schedule}

  -- fireDueJobs starts tasks for the entry's own object only.
  fire_due-other :
      (o : ℕ) (e : JobEntry Schedule)
      → (e.object == o) ≡ false
      → in_flight o (fire_due cron now e).1 ≡ 0
  unfolding fire_due in_flight
  fire_due-other o e h = ground arith

  fire_due-object : (e : JobEntry Schedule) → (fire_due cron now e).0.object ≡ e.object
  unfolding fire_due
  fire_due-object e = ground arith

  fire_due-own :
      (e : JobEntry Schedule) (n : ℕ)
      → n ≡ (if e.running then 1 else 0)
      → in_flight e.object (fire_due cron now e).1 + n
        ≡ (if (fire_due cron now e).0.running then 1 else 0)
  unfolding fire_due in_flight
  fire_due-own e n h = ground arith

  fire_all-other :
      (o : ℕ) (es : List (JobEntry Schedule))
      → All (λ e. (e.object == o) ≡ false) es
      → in_flight o (fire_all cron now es).1 ≡ 0
  unfolding fire_all in_flight
  fire_all-other o [] h = refl
  fire_all-other o (e ∷ es) h = omega (
    arith,
    in_flight-append o (fire_due cron now e).1 (fire_all cron now es).1,
    fire_due-other o e h.0,
    fire_all-other o es h.1,
  )

  flip :
      (o : ℕ) (es : List (JobEntry Schedule))
      → IsAbsent o es
      → All (λ e. (e.object == o) ≡ false) es
  flip o [] h = tt
  flip o (e ∷ es) h = (ground (arith, h.0), flip o es h.1)

  fire_all-IsAbsent :
      (o : ℕ) (es : List (JobEntry Schedule)) → IsAbsent o es → IsAbsent o (fire_all cron now es).0
  unfolding fire_all
  fire_all-IsAbsent o [] h = tt
  fire_all-IsAbsent o (e ∷ es) h =
      let same = fire_due-object e in (rw same h.0, fire_all-IsAbsent o es h.1)

  fire_all-HasDistinctObjects :
      (es : List (JobEntry Schedule))
      → HasDistinctObjects es
      → HasDistinctObjects (fire_all cron now es).0
  unfolding fire_all
  fire_all-HasDistinctObjects [] h = tt
  fire_all-HasDistinctObjects (e ∷ es) h =
      let same = fire_due-object e in
      (rw same (fire_all-IsAbsent e.object es h.0), fire_all-HasDistinctObjects es h.1)

  -- The task of one entry does not count for the others.
  prepend-IsTruthful :
      (e : JobEntry Schedule) (ts st : List (ℕ × ℕ)) (xs : List (JobEntry Schedule))
      → IsAbsent e.object xs
      → IsTruthful (ts ++ st) xs
      → IsTruthful (((fire_due cron now e).1 ++ ts) ++ st) xs
  prepend-IsTruthful e ts st [] h truth = tt
  prepend-IsTruthful e ts st (x ∷ xs) h truth =
      let t = (fire_due cron now e).1 in
      let all = in_flight-append x.object (t ++ ts) st in
      let two = in_flight-append x.object t ts in
      let old = in_flight-append x.object ts st in
      let none_of_it = fire_due-other x.object e h.0 in
      let same : in_flight x.object ((t ++ ts) ++ st) ≡ in_flight x.object (ts ++ st) =
        omega (arith, all, two, old, none_of_it) in
      (same ∙ truth.0, prepend-IsTruthful e ts st xs h.1 truth.1)

  fire_all-IsTruthful :
      (st : List (ℕ × ℕ)) (es : List (JobEntry Schedule))
      → HasDistinctObjects es
      → IsTruthful st es
      → IsTruthful ((fire_all cron now es).1 ++ st) (fire_all cron now es).0
  unfolding fire_all
  fire_all-IsTruthful st [] h truth = tt
  fire_all-IsTruthful st (e ∷ es) h truth =
      let t = (fire_due cron now e).1 in
      let ts = (fire_all cron now es).1 in
      let same = fire_due-object e in
      let own = fire_due-own e (in_flight e.object st) truth.0 in
      let all = in_flight-append e.object (t ++ ts) st in
      let two = in_flight-append e.object t ts in
      let others = fire_all-other e.object es (flip e.object es h.0) in
      let sum : in_flight e.object ((t ++ ts) ++ st)
          ≡ in_flight e.object t + in_flight e.object st =
        omega (arith, all, two, others) in
      (
        rw same (sum ∙ own),
        prepend-IsTruthful e ts st (fire_all cron now es).0 (fire_all-IsAbsent e.object es h.0)
            (fire_all-IsTruthful st es h.1 truth.1),
      )

  -- While each entry has one task in flight exactly if it is marked as running, and no two entries
  -- are the same object, firing the due jobs keeps both: it never starts a task for an entry that
  -- has one in flight.
  pub fire_due_jobs-IsTruthful :
      (s : Scheduler Schedule)
      → HasDistinctObjects s.jobs
      → IsTruthful s.started s.jobs
      → let t = fire_due_jobs cron now s in HasDistinctObjects t.jobs × IsTruthful t.started t.jobs
  unfolding fire_due_jobs
  fire_due_jobs-IsTruthful s h truth =
      (fire_all-HasDistinctObjects s.jobs h, fire_all-IsTruthful s.started s.jobs h truth)
