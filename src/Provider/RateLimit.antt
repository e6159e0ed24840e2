-- ===== src/Provider/RateLimit.antt =====
-- internal/provider/ratelimit.go: RateLimitTracker and RateLimitTransport. A Duration is an int64,
-- kept as its two's complement: from 2^63 on it is negative. Times are nanoseconds.
pub mod Delays
use gh_runner.Prelude.{
  ℕ, zero, suc, ◌+◌, ◌-◌, ◌*◌, ◌%◌, ◌^◌, ◌==◌, min, Bool, true, false, ◌&&◌, ◌||◌, not, Option,
  none, some, List, [], ◌∷◌, if◌then◌else◌, ltb, leb, is_some,
}
use gh_runner.Prelude.Text.{GoString, codes, is_empty, text_eq}
use gh_runner.Prelude.Dict.{Dict, lookup, insert, delete}

-- The tracker's two maps.
pub record RateLimitTracker : Type 0 where
  pub started_at : Dict ℕ
  pub alert_raised : Dict Bool

-- PersistentAlertThreshold: ten minutes. MaxBackoffCap: fifteen minutes.
abbrev pub persistent_alert_threshold : ℕ
persistent_alert_threshold = 600 * 1_000_000_000

abbrev pub max_backoff_cap : ℕ
max_backoff_cap = 900 * 1_000_000_000

abbrev pub default_base_delay : ℕ
default_base_delay = 1_000_000_000

abbrev pub min_delay : ℕ
min_delay = 100 * 1_000_000

abbrev is_raised : Option Bool → Bool
is_raised none = false
is_raised (some b) = b

-- The duration, and whether an alert is raised; the start is now for a provider that is not limited.
limited_since : GoString → ℕ → ℕ → RateLimitTracker → (ℕ × Bool) × RateLimitTracker
limited_since provider now start t =
    let alerts =
      leb (start + persistent_alert_threshold) now
      && not (is_raised (lookup provider t.alert_raised)) in
    (
      (min (now - start) (2 ^ 63 - 1), alerts),
      (if alerts then record t { alert_raised = insert provider true t.alert_raised } else t),
    )

unfoldable pub record_rate_limit : GoString → ℕ → RateLimitTracker → (ℕ × Bool) × RateLimitTracker
unfolding limited_since
record_rate_limit provider now t = elim (lookup provider t.started_at) [
  | some start ↦ limited_since provider now start t
  | none ↦ limited_since provider now now (record {
    started_at = insert provider now t.started_at;
    alert_raised = insert provider false t.alert_raised;
  })
]

unfoldable pub record_success : GoString → RateLimitTracker → RateLimitTracker
record_success provider t = record {
  started_at = delete provider t.started_at;
  alert_raised = delete provider t.alert_raised;
}

unfoldable pub is_rate_limited : GoString → RateLimitTracker → Bool
is_rate_limited provider t = is_some (lookup provider t.started_at)

-- An http.Response: the status, and the headers that the transport reads.
pub record Response : Type 0 where
  pub status_code : ℕ
  pub remaining : GoString
  pub retry_after : GoString
  pub reset : GoString

-- What the transport calls: the base transport, the clock, sleeping, the jitter for a back-off, the
-- number parsers (strconv.Atoi and ParseInt after TrimSpace, `none` for errors and what is not
-- positive) and http.ParseTime.
pub record Network : Type 1 where
  pub World : Type 0
  pub round_trip : World → Option Response × World
  pub reset_body : World → Bool × World
  pub now : World → ℕ × World
  pub sleep : ℕ → World → Bool × World
  pub jitter : ℕ → World → ℕ × World
  pub parse_positive : GoString → Option ℕ
  pub parse_time : GoString → Option ℕ

-- The fields of the transport that do not change. A zero stands for a value that is not positive.
pub record Transport : Type 0 where
  pub provider_name : GoString
  pub base_delay : ℕ
  pub max_backoff : ℕ
  pub max_retries : ℕ
  pub has_tracker : Bool
  pub has_get_body : Bool

unfoldable pub response_is_limited : Response → Bool
response_is_limited r =
    r.status_code == 429
    || (r.status_code == 403 && (text_eq r.remaining (codes "0") || not (is_empty r.retry_after)))

abbrev pub backoff_cap : Transport → ℕ
backoff_cap t = if t.max_backoff == 0 then max_backoff_cap else t.max_backoff

-- The comparisons are signed.
unfoldable pub clamp_delay : Transport → ℕ → ℕ
clamp_delay t d =
    if leb (2 ^ 63) d
    then min_delay
    else if ltb (backoff_cap t) d
    then backoff_cap t
    else if ltb d min_delay
    then min_delay
    else d

-- time.Duration(seconds) * time.Second.
unfoldable pub seconds_duration : ℕ → ℕ
seconds_duration seconds = (seconds * 1_000_000_000) % 2 ^ 64

-- base * time.Duration(1 << attempt).
unfoldable pub backoff : Transport → ℕ → ℕ
backoff t attempt =
    ((if t.base_delay == 0 then default_base_delay else t.base_delay) * 2 ^ attempt) % 2 ^ 64

-- The result of RoundTrip: a response or an error, and the delays that it slept.
pub record Outcome (W : Type 0) : Type 0 where
  pub response : Option Response
  pub delays : List ℕ
  pub tracker : RateLimitTracker
  pub world : W

-- One request: RoundTrip is over, or the provider limits its rate.
pub data Attempt (W : Type 0) : Type 0 where
  finished : Option Response → RateLimitTracker → W → Attempt W
  limited : Response → RateLimitTracker → W → Attempt W

module _ (net : Network) (t : Transport) where
  open net use {World}

  -- A time in the future gives its distance. Time.Sub stops at the largest Duration.
  unfoldable pub until : ℕ → Option ℕ → Option ℕ
  until now none = none
  until now (some target) = if ltb now target then some (min (target - now) (2 ^ 63 - 1)) else none

  abbrev pub or_else : Option ℕ → Option ℕ → Option ℕ
  or_else none b = b
  or_else (some a) b = some a

  unfoldable pub retry_after_delay : ℕ → GoString → Option ℕ
  unfolding until seconds_duration
  retry_after_delay now header =
      let date = until now (net.parse_time header) in
      if is_empty header then none else elim (net.parse_positive header) [
        | some seconds ↦ some (seconds_duration seconds)
        | none ↦ date
      ]

  -- The header counts seconds since the Unix epoch; `unix` is time.Unix.
  unfoldable pub reset_delay : (ℕ → ℕ) → ℕ → GoString → Option ℕ
  unfolding until
  reset_delay unix now header = if is_empty header then none else elim (net.parse_positive header) [
    | none ↦ none
    | some seconds ↦ until now (some (unix seconds))
  ]

  backoff_delay : Option ℕ → ℕ → World → ℕ × World
  unfolding clamp_delay backoff
  backoff_delay (some d) attempt w = (clamp_delay t d, w)
  backoff_delay none attempt w =
      let (extra, w') = net.jitter (backoff t attempt) w in
      (clamp_delay t ((backoff t attempt + extra) % 2 ^ 64), w')

  unfoldable pub calculate_delay : (ℕ → ℕ) → Response → ℕ → World → ℕ × World
  unfolding backoff_delay retry_after_delay reset_delay
  calculate_delay unix r attempt w =
      let (now, w') = net.now w in
      backoff_delay (or_else (retry_after_delay now r.retry_after) (reset_delay unix now r.reset))
        attempt w'

  answered : Option Response → RateLimitTracker → World → Attempt World
  unfolding response_is_limited record_rate_limit record_success
  answered none tr w = finished none tr w
  answered (some r) tr w =
      let (time, w') = net.now w in
      let cleared = if t.has_tracker then record_success t.provider_name tr else tr in
      if response_is_limited r
      then (if t.has_tracker
          then limited r (record_rate_limit t.provider_name time tr).1 w'
          else limited r tr w)
      else finished (some r) cleared w

  -- The part of RoundTrip's loop up to the test for the last attempt.
  unfoldable pub request_once : ℕ → RateLimitTracker → World → Attempt World
  unfolding answered
  request_once attempt tr w =
      let (reset, w1) = if ltb 0 attempt && t.has_get_body then net.reset_body w else (true, w) in
      let (response, w2) = net.round_trip w1 in
      if reset then answered response tr w2 else finished none tr w1

  -- RoundTrip from an attempt on, with that many retries left.
  unfoldable pub round_trip_from : (ℕ → ℕ) → ℕ → ℕ → RateLimitTracker → World → Outcome World
  unfolding request_once calculate_delay
  round_trip_from unix zero attempt tr w = elim (request_once attempt tr w) [
    | finished r tr' w' ↦ record { response = r; delays = []; tracker = tr'; world = w' }
    | limited r tr' w' ↦ record { response = some r; delays = []; tracker = tr'; world = w' }
  ]
  round_trip_from unix (suc left) attempt tr w = elim (request_once attempt tr w) [
    | finished r tr' w' ↦ record { response = r; delays = []; tracker = tr'; world = w' }
    | limited r tr' w' ↦
        let (delay, w1) = calculate_delay unix r attempt w' in
        let (awake, w2) = net.sleep delay w1 in
        let rest = round_trip_from unix left (attempt + 1) tr' w2 in
        if awake
        then record rest { delays = delay ∷ rest.delays }
        else record { response = none; delays = delay ∷ []; tracker = tr'; world = w2 }
  ]

  unfoldable pub round_trip : (ℕ → ℕ) → RateLimitTracker → World → Outcome World
  unfolding round_trip_from
  round_trip unix tr w = round_trip_from unix t.max_retries 0 tr w
