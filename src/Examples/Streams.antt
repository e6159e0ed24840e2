-- ===== src/Examples/Streams.antt =====
-- The theorems on the log collector, the event listener and the webhook receiver at concrete inputs.
use gh_runner.Prelude.{ℕ, ◌+◌, ◌≡◌, ◌≢◌, refl, ◌⊎◌, true, none, some, List, [], ◌∷◌, ◌++◌, arith}
use gh_runner.Prelude.Text.{GoString, codes, split}
use gh_runner.Orchestrator.Logs.{TimeLibrary, add_lines, write_all, flush}
use gh_runner.Orchestrator.Logs.Chunks.{concat, closed, flush-write_all}
use gh_runner.Orchestrator.Events.{
  new_reap_deduplicator, Message, Happening, received, stream_ended, backed_off, listen,
}
use gh_runner.Orchestrator.Events.Once.{IsSpaced, listen-IsSpaced}
use gh_runner.Orchestrator.Matching.{WorkflowJobEvent}
use gh_runner.Webhook.{Request, Library, accepted, dispatched, handle}
use gh_runner.Webhook.Accepted.{IsSigned, handle-IsSigned}
use gh_runner.Examples.{ascii}

-- A clock that counts its readings; no line has a time of its own.
abbrev counting : TimeLibrary
counting = record {
  World = ℕ;
  Time = ℕ;
  now = λ w. (w, w + 1);
  parse_rfc3339_nano = λ s. none;
  parse_rfc3339 = λ s. none;
  format_utc = λ t. t ∷ [];
}

abbrev chunks : List GoString
chunks = (codes "he") ∷ (codes "llo" ++ 13 ∷ 10 ∷ codes "wor") ∷ (codes "ld") ∷ []

flush-write_all_example :
    flush counting (codes "stdout") (write_all counting (codes "stdout") chunks (closed ([], 3)))
    ≡ closed (add_lines counting (codes "stdout") (split 10 (concat chunks)) ([], 3))
flush-write_all_example = flush-write_all counting (codes "stdout") chunks [] 3

abbrev death : Message
death = record { action = codes "die"; actor_id = codes "c0"; attributes = [] }

abbrev removal : Message
removal = record death { action = codes "destroy" }

-- The second message comes within the retention time, the third after it.
abbrev story : List Happening
story =
    received 10 death
    ∷ received 20 removal
    ∷ stream_ended
    ∷ backed_off true
    ∷ received 900_000_000_000 death
    ∷ []

ttl_set : (new_reap_deduplicator 0).ttl ≡ 300_000_000_000
unfolding new_reap_deduplicator
ttl_set = refl

listen-IsSpaced_example :
    IsSpaced 300_000_000_000 (listen (λ s. none) true true story (new_reap_deduplicator 0)).0
listen-IsSpaced_example =
    listen-IsSpaced (λ s. none) true true story 0 300_000_000_000 (new_reap_deduplicator 0) ttl_set
      (omega arith)

abbrev job_event : WorkflowJobEvent
job_event = record {
  action = codes "queued";
  labels = codes "linux" ∷ [];
  runner_name = [];
  html_url = codes "https://github.com/acme/app";
  clone_url = [];
  full_name = codes "acme/app";
}

abbrev hook_library : Library
hook_library = record {
  text = ascii;
  hmac_sha256_hex = λ secret payload. secret ++ payload;
  unmarshal = λ body. some job_event;
  resolve_secret = λ provider. some (codes "k");
}

abbrev hook : Request
hook = record { header = λ name. codes "kbody"; read_body = λ limit. some (codes "body") }

abbrev count_event : GoString → WorkflowJobEvent → ℕ → ℕ
count_event provider event n = n + 1

handle-IsSigned_example :
    (((event : WorkflowJobEvent) × IsSigned hook_library hook (codes "github") event
        × (handle hook_library (some count_event) (codes "github") hook 6
            ≡ (accepted, dispatched hook_library (some count_event) (codes "github") event 6)))
      ⊎ (((handle hook_library (some count_event) (codes "github") hook 6).0 ≢ accepted)
          × ((handle hook_library (some count_event) (codes "github") hook 6).1 ≡ 6)))
    × ((event : WorkflowJobEvent)
        → IsSigned hook_library hook (codes "github") event
        → handle hook_library (some count_event) (codes "github") hook 6
          ≡ (accepted, dispatched hook_library (some count_event) (codes "github") event 6))
handle-IsSigned_example = handle-IsSigned hook_library hook (some count_event) (codes "github") 6
