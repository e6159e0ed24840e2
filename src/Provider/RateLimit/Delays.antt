-- ===== src/Provider/RateLimit/Delays.antt =====
-- How long and how often the transport waits.
use gh_runner.Prelude.{
  ℕ, zero, suc, ◌+◌, ◌*◌, ◌^◌, ◌≤◌, ◌<◌, ◌≡◌, Bool, true, false, Option, none, some, [], ◌∷◌,
  if◌then◌else◌, arith, All, length, List, min, ltb, refl, inl, inr, Bool-cases, sym, subst,
}
use gh_runner.Prelude.Text.{GoString, is_empty}
use gh_runner.Provider.RateLimit.{
  RateLimitTracker, Response, Network, Transport, min_delay, backoff_cap, clamp_delay,
  seconds_duration, or_else, retry_after_delay, reset_delay, backoff_delay, calculate_delay,
  response_is_limited, record_rate_limit, answered, Outcome, Attempt, finished, limited,
  request_once, round_trip_from, round_trip,
}

-- The delay lies between 100 milliseconds and the cap.
abbrev pub InBounds : Transport → ℕ → Type 0
InBounds t d = (min_delay ≤ d) × (d ≤ backoff_cap t)

clamp_delay-InBounds :
    (t : Transport) (d : ℕ) → min_delay ≤ backoff_cap t → InBounds t (clamp_delay t d)
unfolding clamp_delay
clamp_delay-InBounds t d h = ground arith

-- The wait that a Retry-After of so many seconds asks for: the seconds up to the cap, but the
-- shortest wait where they are more than an int64 of nanoseconds holds.
abbrev pub asked_wait : Transport → ℕ → ℕ
asked_wait t seconds =
    if ltb (seconds * 1_000_000_000) (2 ^ 63)
    then min (seconds * 1_000_000_000) (backoff_cap t)
    else min_delay

clamp_delay-seconds_duration :
    (t : Transport) (seconds : ℕ)
    → 0 < seconds
    → seconds * 1_000_000_000 < 2 ^ 64
    → clamp_delay t (seconds_duration seconds) ≡ asked_wait t seconds
unfolding clamp_delay seconds_duration
clamp_delay-seconds_duration t seconds pos high = ground arith

module _ (net : Network) (t : Transport) (unix : ℕ → ℕ) where
  open net use {World}

  backoff_delay-InBounds :
      (d : Option ℕ) (attempt : ℕ) (w : World)
      → min_delay ≤ backoff_cap t
      → InBounds t (backoff_delay net t d attempt w).0
  unfolding backoff_delay
  backoff_delay-InBounds none attempt w h = clamp_delay-InBounds t _ h
  backoff_delay-InBounds (some d) attempt w h = clamp_delay-InBounds t d h

  calculate_delay-InBounds :
      (r : Response) (attempt : ℕ) (w : World)
      → min_delay ≤ backoff_cap t
      → InBounds t (calculate_delay net t unix r attempt w).0
  unfolding calculate_delay
  calculate_delay-InBounds r attempt w h =
      let (now, w') = net.now w in
      backoff_delay-InBounds
        (or_else net t (retry_after_delay net t now r.retry_after)
          (reset_delay net t unix now r.reset))
        attempt w' h

  -- The waits of an outcome: in bounds, and at most so many.
  abbrev Waits : ℕ → Outcome World → Type 0
  Waits left o = All (InBounds t) o.delays × (length o.delays ≤ left)

  Waits-if :
      (left delay : ℕ) (awake : Bool) (rest : Outcome World) (response : Option Response)
      (tr : RateLimitTracker) (w : World)
      → InBounds t delay
      → Waits left rest
      → Waits (suc left) (
          if awake
          then record rest { delays = delay ∷ rest.delays }
          else record { response = response; delays = delay ∷ []; tracker = tr; world = w })
  unfolding length
  Waits-if left delay true rest response tr w h (all, few) = ((h, all), (omega (arith, few)))
  Waits-if left delay false rest response tr w h hs = ((h, tt), (omega arith))

  Waits-last :
      (a : Attempt World)
      → Waits 0 (elim a as (λ _. Outcome World) [
        | finished r tr' w' ↦ record { response = r; delays = []; tracker = tr'; world = w' }
        | limited r tr' w' ↦ record { response = some r; delays = []; tracker = tr'; world = w' }
      ])
  unfolding length
  Waits-last (finished r tr w) = (tt, omega arith)
  Waits-last (limited r tr w) = (tt, omega arith)

  Waits-next :
      (left attempt : ℕ) (a : Attempt World)
      → min_delay ≤ backoff_cap t
      → ((tr : RateLimitTracker) (w : World)
          → Waits left (round_trip_from net t unix left (attempt + 1) tr w))
      → Waits (suc left) (elim a as (λ _. Outcome World) [
        | finished r tr' w' ↦ record { response = r; delays = []; tracker = tr'; world = w' }
        | limited r tr' w' ↦
            let (delay, w1) = calculate_delay net t unix r attempt w' in
            let (awake, w2) = net.sleep delay w1 in
            let rest = round_trip_from net t unix left (attempt + 1) tr' w2 in
            if awake
            then record rest { delays = delay ∷ rest.delays }
            else record { response = none; delays = delay ∷ []; tracker = tr'; world = w2 }
      ])
  unfolding length
  Waits-next left attempt (finished r tr w) h next = (tt, omega arith)
  Waits-next left attempt (limited r tr w) h next =
      let (delay, w1) = calculate_delay net t unix r attempt w in
      let (awake, w2) = net.sleep delay w1 in
      Waits-if left delay awake (round_trip_from net t unix left (attempt + 1) tr w2) none tr w2
        (calculate_delay-InBounds r attempt w h) (next tr w2)

  round_trip_from-Waits :
      (left attempt : ℕ) (tr : RateLimitTracker) (w : World)
      → min_delay ≤ backoff_cap t
      → Waits left (round_trip_from net t unix left attempt tr w)
  unfolding round_trip_from
  round_trip_from-Waits zero attempt tr w h = Waits-last (request_once net t attempt tr w)
  round_trip_from-Waits (suc left) attempt tr w h =
      Waits-next left attempt (request_once net t attempt tr w) h
        (λ tr' w'. round_trip_from-Waits left (attempt + 1) tr' w' h)

  -- A transport whose cap is at least 100 milliseconds sleeps at most as often as it may retry, each
  -- time between 100 milliseconds and the cap, whatever the headers say.
  pub round_trip-delays :
      (tr : RateLimitTracker) (w : World)
      → min_delay ≤ backoff_cap t
      → let o = round_trip net t unix tr w in
        All (InBounds t) o.delays × (length o.delays ≤ t.max_retries)
  unfolding round_trip
  round_trip-delays tr w h = round_trip_from-Waits t.max_retries 0 tr w h

  retry_after_delay-some :
      (now seconds : ℕ) (header : GoString)
      → is_empty header ≡ false
      → net.parse_positive header ≡ some seconds
      → retry_after_delay net t now header ≡ some (seconds_duration seconds)
  retry_after_delay-some now seconds header full parsed =
      unfold retry_after_delay in rw (full, parsed) refl

  calculate_delay-asked_wait :
      (r : Response) (seconds attempt : ℕ) (w : World)
      → is_empty r.retry_after ≡ false
      → net.parse_positive r.retry_after ≡ some seconds
      → 0 < seconds
      → seconds * 1_000_000_000 < 2 ^ 64
      → (calculate_delay net t unix r attempt w).0 ≡ asked_wait t seconds
  calculate_delay-asked_wait r seconds attempt w full parsed pos high =
      let e = retry_after_delay-some (net.now w).0 seconds r.retry_after full parsed in
      let wait = clamp_delay-seconds_duration t seconds pos high in
      unfold calculate_delay backoff_delay in rw e wait

  -- The first request of a round trip whose answer says that the rate is limited.
  request_once-limited :
      (r : Response) (tr : RateLimitTracker) (w : World)
      → (net.round_trip w).0 ≡ some r
      → response_is_limited r ≡ true
      → (tr' : RateLimitTracker) × (w' : World) × (request_once net t 0 tr w ≡ limited r tr' w')
  request_once-limited r tr w answer full =
      let w2 = (net.round_trip w).1 in
      let (time, w') = net.now w2 in
      elim (Bool-cases t.has_tracker) [
        | inl tracked ↦ (
          (record_rate_limit t.provider_name time tr).1,
          w',
          unfold request_once answered in rw (answer, full, tracked) refl,
        )
        | inr untracked ↦
            (tr, w2, unfold request_once answered in rw (answer, full, untracked) refl)
      ]

  delays-if :
      (delay : ℕ) (awake : Bool) (rest : Outcome World) (response : Option Response)
      (tr : RateLimitTracker) (w : World)
      → (ds : List ℕ) × ((if awake then record rest { delays = delay ∷ rest.delays } else record {
        response = response;
        delays = delay ∷ [];
        tracker = tr;
        world = w;
      }).delays
          ≡ delay ∷ ds)
  delays-if delay true rest response tr w = (rest.delays, refl)
  delays-if delay false rest response tr w = ([], refl)

  round_trip_from-asked_wait :
      (r : Response) (left seconds : ℕ) (tr : RateLimitTracker) (w : World)
      → (net.round_trip w).0 ≡ some r
      → response_is_limited r ≡ true
      → is_empty r.retry_after ≡ false
      → net.parse_positive r.retry_after ≡ some seconds
      → 0 < seconds
      → seconds * 1_000_000_000 < 2 ^ 64
      → (ds : List ℕ) × ((round_trip_from net t unix (suc left) 0 tr w).delays
          ≡ asked_wait t seconds ∷ ds)
  unfolding round_trip_from
  round_trip_from-asked_wait r left seconds tr w answer full header parsed pos high =
      let (tr', w', e) = request_once-limited r tr w answer full in
      let wait = calculate_delay-asked_wait r seconds 0 w' header parsed pos high in
      let (delay, w1) = calculate_delay net t unix r 0 w' in
      let (awake, w2) = net.sleep delay w1 in
      let (ds, same) =
        delays-if delay awake (round_trip_from net t unix left 1 tr' w2) none tr' w2 in
      (ds, rw (round_trip_from, e, wait) (rw wait at same))

  -- When the first answer limits the rate, a transport that may retry first waits the number of
  -- seconds of the Retry-After header, or the cap if that is less. The exception are numbers of
  -- seconds that overflow an int64 of nanoseconds into the negative numbers (from 2^63 to 2^64
  -- nanoseconds): then it waits for the shortest delay in place of the cap. The header is one whose
  -- positive seconds are below 2^64 nanoseconds.
  pub round_trip-asked_wait :
      (r : Response) (left seconds : ℕ) (tr : RateLimitTracker) (w : World)
      → t.max_retries ≡ suc left
      → (net.round_trip w).0 ≡ some r
      → response_is_limited r ≡ true
      → is_empty r.retry_after ≡ false
      → net.parse_positive r.retry_after ≡ some seconds
      → 0 < seconds
      → seconds * 1_000_000_000 < 2 ^ 64
      → (ds : List ℕ) × ((round_trip net t unix tr w).delays ≡ asked_wait t seconds ∷ ds)
  unfolding round_trip
  round_trip-asked_wait r left seconds tr w retries answer full header parsed pos high =
      subst
        (λ n.
          (ds : List ℕ) × ((round_trip_from net t unix n 0 tr w).delays
            ≡ asked_wait t seconds ∷ ds))
        (sym retries)
        (round_trip_from-asked_wait r left seconds tr w answer full header parsed pos high)
