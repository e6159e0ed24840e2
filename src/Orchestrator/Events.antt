-- ===== src/Orchestrator/Events.antt =====
-- internal/orchestrator/events.go: the listener to the engine's event stream and the table of recent
-- reaps. Times are nanoseconds.
pub mod Once
use gh_runner.Prelude.{
  ℕ, ◌+◌, ◌-◌, ◌*◌, Bool, true, false, ◌&&◌, ◌||◌, not, Option, none, some, List, [], ◌∷◌, ◌==◌,
  if◌then◌else◌, ltb, is_some, keep,
}
use gh_runner.Prelude.Dict.{Dict, lookup, insert}
use gh_runner.Prelude.Text.{GoString, codes, text_eq, is_empty}
use gh_runner.Orchestrator.Lifecycle.{ContainerEvent}

pub record ReapDeduplicator : Type 0 where
  pub reaped : Dict ℕ
  pub ttl : ℕ

abbrev pub default_ttl : ℕ
default_ttl = 300_000_000_000

-- A zero stands for a duration that is not positive.
unfoldable pub new_reap_deduplicator : ℕ → ReapDeduplicator
new_reap_deduplicator ttl = record { reaped = []; ttl = if ttl == 0 then default_ttl else ttl }

-- The entries that are not expired.
unfoldable pub prune : ℕ → ReapDeduplicator → Dict ℕ
prune now d = keep (λ entry. not (ltb d.ttl (now - entry.1))) d.reaped

unfoldable pub should_reap : GoString → ℕ → ReapDeduplicator → Bool × ReapDeduplicator
unfolding prune lookup insert
should_reap container_id now d =
    let live = prune now d in
    if is_empty container_id
    then (false, d)
    else if is_some (lookup container_id live)
    then (false, record d { reaped = live })
    else (true, record d { reaped = insert container_id now live })

-- A message of the stream, as far as the listener reads it.
pub record Message : Type 0 where
  pub action : GoString
  pub actor_id : GoString
  pub attributes : Dict GoString

-- What the two select statements receive, in the order in which it happens: the context's end, an
-- error or the end of a channel, an error that is nil, a message at the clock's time, and the
-- end of the back-off, after which the engine hands out channels or none.
pub data Happening : Type 0 where
  cancelled stream_ended nil_error : Happening
  received : ℕ → Message → Happening
  backed_off : Bool → Happening

-- A call of onReap: when, for what, and whether the logs were captured before.
pub record Reap : Type 0 where
  pub time : ℕ
  pub event : ContainerEvent
  pub logs_captured : Bool

unfoldable pub is_exit : GoString → Bool
is_exit action = text_eq action (codes "die") || text_eq action (codes "destroy")

abbrev pub also : List Reap → List Reap × ReapDeduplicator → List Reap × ReapDeduplicator
also [] rest = rest
also (r ∷ rs) rest = let (later, d) = also rs rest in (r ∷ later, d)

-- `atoi` is strconv.Atoi, and the last argument says whether a log capturer is set.
module _ (atoi : GoString → Option ℕ) (has_capturer : Bool) where
  or_zero : Option ℕ → ℕ
  or_zero none = 0
  or_zero (some n) = n

  or_empty : Option GoString → GoString
  or_empty none = []
  or_empty (some s) = s

  code_of : Option GoString → ℕ
  unfolding or_zero
  code_of none = 0
  code_of (some s) = or_zero (atoi s)

  unfoldable pub event_of : Message → ContainerEvent
  unfolding code_of or_empty
  event_of msg = record {
    container_id = msg.actor_id;
    pool_name = or_empty (lookup (codes "com.github-runner-supervisor.pool-name") msg.attributes);
    action = msg.action;
    exit_code = code_of (lookup (codes "exitCode") msg.attributes);
  }

  unfoldable pub reap_of : ℕ → Message → Reap
  unfolding event_of
  reap_of now msg = record {
    time = now;
    event = event_of msg;
    logs_captured = text_eq msg.action (codes "die") && has_capturer;
  }

  unfoldable pub receive : ℕ → Message → ReapDeduplicator → List Reap × ReapDeduplicator
  unfolding reap_of should_reap is_exit
  receive now msg d =
      let (fresh, d') = should_reap msg.actor_id now d in
      if not (is_exit msg.action) then ([], d) else (if fresh then reap_of now msg ∷ [] else [], d')

  -- Listen, reading messages (`true`) or waiting to connect again (`false`); what a select does not
  -- look at is passed over.
  unfoldable pub listen : Bool → List Happening → ReapDeduplicator → List Reap × ReapDeduplicator
  unfolding receive
  listen connected [] d = ([], d)
  listen connected (cancelled ∷ hs) d = ([], d)
  listen connected (stream_ended ∷ hs) d = listen false hs d
  listen connected (nil_error ∷ hs) d = listen connected hs d
  listen true (received now msg ∷ hs) d =
      let (reaps, d') = receive now msg d in also reaps (listen true hs d')
  listen false (received now msg ∷ hs) d = listen false hs d
  listen true (backed_off found ∷ hs) d = listen true hs d
  listen false (backed_off true ∷ hs) d = listen true hs d
  listen false (backed_off false ∷ hs) d = ([], d)
