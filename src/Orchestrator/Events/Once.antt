-- ===== src/Orchestrator/Events/Once.antt =====
-- internal/orchestrator/events.go: the reaps of one container.
use gh_runner.Prelude.{
  ℕ, ◌+◌, ◌≤◌, ◌<◌, ◌≡◌, ◌∙◌, Bool, true, false, Option, some, List, [], ◌∷◌, ltb, keep, All,
  Bool-cases, inl, inr, arith,
}
use gh_runner.Prelude.Dict.{Dict, lookup, lookup-insert}
use gh_runner.Prelude.Text.{GoString, text_eq, text_eq_iff}
use gh_runner.Orchestrator.Events.{
  ReapDeduplicator, prune, should_reap, Message, Happening, cancelled, stream_ended, nil_error,
  received, backed_off, Reap, is_exit, event_of, reap_of, receive, also, listen,
}

-- The clock does not go back.
abbrev pub Rising : ℕ → List Happening → Type 0
Rising since [] = Unit
Rising since (received now msg ∷ hs) = (since ≤ now) × Rising now hs
Rising since (_ ∷ hs) = Rising since hs

-- A later reap of the same container comes after the retention time.
abbrev pub Apart : ℕ → Reap → Reap → Type 0
Apart ttl r s = r.event.container_id ≡ s.event.container_id → r.time + ttl < s.time

abbrev pub IsSpaced : ℕ → List Reap → Type 0
IsSpaced ttl [] = Unit
IsSpaced ttl (r ∷ rs) = All (Apart ttl r) rs × IsSpaced ttl rs

-- Pruning keeps an entry that is not expired.
lookup-prune :
    (k : GoString) (now ttl t : ℕ) (m : Dict ℕ)
    → lookup k m ≡ some t
    → now ≤ t + ttl
    → lookup k (prune now (record { reaped = m; ttl = ttl })) ≡ some t
unfolding lookup prune keep
lookup-prune k now ttl t [] h fresh = cc
lookup-prune k now ttl t ((j, u) ∷ m) h fresh = ground (arith, lookup-prune k now ttl t m)

-- The table after a call, for a container whose entry is not expired.
should_reap-kept :
    (id k : GoString) (now t : ℕ) (d : ReapDeduplicator)
    → lookup k d.reaped ≡ some t
    → now ≤ t + d.ttl
    → ((should_reap id now d).0 ≡ true → text_eq id k ≡ false)
      × (lookup k (should_reap id now d).1.reaped ≡ some t)
unfolding should_reap
should_reap-kept id k now t d h fresh =
    let live : lookup k (prune now d) ≡ some t = lookup-prune k now d.ttl t d.reaped h fresh in
    ground (arith, live, text_eq_iff id k, lookup-insert id k now (prune now d))

should_reap-ttl :
    (id : GoString) (now : ℕ) (d : ReapDeduplicator) → (should_reap id now d).1.ttl ≡ d.ttl
unfolding should_reap
should_reap-ttl id now d = ground arith

-- A container that is reaped is in the table.
should_reap-marks :
    (id : GoString) (now : ℕ) (d : ReapDeduplicator)
    → (should_reap id now d).0 ≡ true
    → lookup id (should_reap id now d).1.reaped ≡ some now
unfolding should_reap
should_reap-marks id now d h =
    ground (arith, text_eq_iff id id, lookup-insert id id now (prune now d))

also-All :
    (P : Reap → Type 0) (rs : List Reap) (rest : List Reap × ReapDeduplicator)
    → All P rs
    → All P rest.0
    → All P (also rs rest).0
also-All P [] rest here later = later
also-All P (r ∷ rs) rest here later = (here.0, also-All P rs rest here.1 later)

All-weaken :
    (P Q : Reap → Type 0) → ((r : Reap) → P r → Q r) → (rs : List Reap) → All P rs → All Q rs
All-weaken P Q f [] h = tt
All-weaken P Q f (r ∷ rs) h = (f r h.0, All-weaken P Q f rs h.1)

module _ (atoi : GoString → Option ℕ) (has_capturer : Bool) where
  -- The three ends of a message: passed over, known already, reaped.
  receive-cases :
      (Q : List Reap × ReapDeduplicator → Type 0) (now : ℕ) (msg : Message) (d : ReapDeduplicator)
      → Q ([], d)
      → Q ([], (should_reap msg.actor_id now d).1)
      → ((should_reap msg.actor_id now d).0 ≡ true
          → Q (reap_of atoi has_capturer now msg ∷ [], (should_reap msg.actor_id now d).1))
      → Q (receive atoi has_capturer now msg d)
  unfolding receive
  receive-cases Q now msg d passed known reaped = elim (Bool-cases (is_exit msg.action)) [
    | inr other ↦ rw (other, receive) passed
    | inl exit ↦ elim (Bool-cases (should_reap msg.actor_id now d).0) [
      | inl fresh ↦ rw (exit, fresh, receive) (reaped fresh)
      | inr again ↦ rw (exit, again, receive) known
    ]
  ]

  receive-All :
      (P : Reap → Type 0) (now : ℕ) (msg : Message) (d : ReapDeduplicator)
      → ((should_reap msg.actor_id now d).0 ≡ true → P (reap_of atoi has_capturer now msg))
      → All P (receive atoi has_capturer now msg d).0
  receive-All P now msg d h =
      receive-cases (λ r. All P r.0) now msg d tt tt (λ fresh. (h fresh, tt))

  receive_table :
      (P : ReapDeduplicator → Type 0) (now : ℕ) (msg : Message) (d : ReapDeduplicator)
      → P d
      → P (should_reap msg.actor_id now d).1
      → P (receive atoi has_capturer now msg d).1
  receive_table P now msg d before after =
      receive-cases (λ r. P r.1) now msg d before after (λ fresh. after)

  abbrev run : Bool → List Happening → ReapDeduplicator → List Reap
  run connected hs d = (listen atoi has_capturer connected hs d).0

  run-late :
      (connected : Bool) (hs : List Happening) (since from : ℕ) (d : ReapDeduplicator)
      → from ≤ since
      → Rising since hs
      → All (λ r. from ≤ r.time) (run connected hs d)
  unfolding listen reap_of
  run-late connected [] since from d le h = tt
  run-late connected (cancelled ∷ hs) since from d le h = tt
  run-late connected (stream_ended ∷ hs) since from d le h = run-late false hs since from d le h
  run-late connected (nil_error ∷ hs) since from d le h = run-late connected hs since from d le h
  run-late true (received now msg ∷ hs) since from d le h =
      let reached : from ≤ now = (omega arith) in
      also-All (λ r. from ≤ r.time) (receive atoi has_capturer now msg d).0
        (listen atoi has_capturer true hs (receive atoi has_capturer now msg d).1)
        (receive-All (λ r. from ≤ r.time) now msg d (λ fresh. reached))
        (run-late true hs now from (receive atoi has_capturer now msg d).1 reached h.1)
  run-late false (received now msg ∷ hs) since from d le h =
      run-late false hs now from d (omega arith) h.1
  run-late true (backed_off found ∷ hs) since from d le h = run-late true hs since from d le h
  run-late false (backed_off true ∷ hs) since from d le h = run-late true hs since from d le h
  run-late false (backed_off false ∷ hs) since from d le h = tt

  -- The same for ShouldReap's table when an entry is kept.
  abbrev Holds : GoString → ℕ → ℕ → ReapDeduplicator → Type 0
  Holds k t ttl d = (lookup k d.reaped ≡ some t) × (d.ttl ≡ ttl)

  run-apart :
      (connected : Bool) (hs : List Happening) (since t ttl : ℕ) (k : GoString)
      (d : ReapDeduplicator)
      → Holds k t ttl d
      → Rising since hs
      → All (λ r. k ≡ r.event.container_id → t + ttl < r.time) (run connected hs d)
  unfolding listen reap_of event_of
  run-apart connected [] since t ttl k d held h = tt
  run-apart connected (cancelled ∷ hs) since t ttl k d held h = tt
  run-apart connected (stream_ended ∷ hs) since t ttl k d held h =
      run-apart false hs since t ttl k d held h
  run-apart connected (nil_error ∷ hs) since t ttl k d held h =
      run-apart connected hs since t ttl k d held h
  run-apart true (received now msg ∷ hs) since t ttl k d held h =
      elim (Bool-cases (ltb (t + ttl) now)) [
        | inl expired ↦
            All-weaken (λ r. now ≤ r.time) (λ r. k ≡ r.event.container_id → t + ttl < r.time)
              (λ r later same. ground arith) (run true (received now msg ∷ hs) d)
              (run-late true (received now msg ∷ hs) now now d (omega arith) (omega arith, h.1))
        | inr fresh ↦
            let kept = should_reap-kept msg.actor_id k now t d held.0 (ground arith) in
            also-All (λ r. k ≡ r.event.container_id → t + ttl < r.time)
              (receive atoi has_capturer now msg d).0
              (listen atoi has_capturer true hs (receive atoi has_capturer now msg d).1)
              (receive-All (λ r. k ≡ r.event.container_id → t + ttl < r.time) now msg d
                (λ reaped same. ground (arith, text_eq_iff msg.actor_id k, kept.0 reaped)))
              (run-apart true hs now t ttl k (receive atoi has_capturer now msg d).1
                (receive_table (Holds k t ttl) now msg d held
                  (kept.1, should_reap-ttl msg.actor_id now d ∙ held.1))
                h.1)
      ]
  run-apart false (received now msg ∷ hs) since t ttl k d held h =
      run-apart false hs now t ttl k d held h.1
  run-apart true (backed_off found ∷ hs) since t ttl k d held h =
      run-apart true hs since t ttl k d held h
  run-apart false (backed_off true ∷ hs) since t ttl k d held h =
      run-apart true hs since t ttl k d held h
  run-apart false (backed_off false ∷ hs) since t ttl k d held h = tt

  received-IsSpaced :
      (now ttl : ℕ) (msg : Message) (hs : List Happening) (d : ReapDeduplicator)
      → d.ttl ≡ ttl
      → Rising now hs
      → IsSpaced ttl (run true hs (receive atoi has_capturer now msg d).1)
      → IsSpaced ttl (run true (received now msg ∷ hs) d)
  unfolding listen reap_of event_of
  received-IsSpaced now ttl msg hs d same h =
      receive-cases
        (λ r.
          IsSpaced ttl (run true hs r.1)
          → IsSpaced ttl (also r.0 (listen atoi has_capturer true hs r.1)).0)
        now msg d (λ ih. ih) (λ ih. ih)
        (λ fresh ih. (
          run-apart true hs now now ttl msg.actor_id (should_reap msg.actor_id now d).1
              (
                should_reap-marks msg.actor_id now d fresh,
                should_reap-ttl msg.actor_id now d ∙ same,
              )
              h,
          ih,
        ))

  -- While the clock does not go back, in whatever the listener receives, over errors and
  -- reconnections and from any table, two reaps of the same container are further apart than the
  -- retention time.
  pub listen-IsSpaced :
      (connected : Bool) (hs : List Happening) (since ttl : ℕ) (d : ReapDeduplicator)
      → d.ttl ≡ ttl
      → Rising since hs
      → IsSpaced ttl (listen atoi has_capturer connected hs d).0
  unfolding listen
  listen-IsSpaced connected [] since ttl d same h = tt
  listen-IsSpaced connected (cancelled ∷ hs) since ttl d same h = tt
  listen-IsSpaced connected (stream_ended ∷ hs) since ttl d same h =
      listen-IsSpaced false hs since ttl d same h
  listen-IsSpaced connected (nil_error ∷ hs) since ttl d same h =
      listen-IsSpaced connected hs since ttl d same h
  listen-IsSpaced true (received now msg ∷ hs) since ttl d same h =
      received-IsSpaced now ttl msg hs d same h.1 (
        listen-IsSpaced true hs now ttl (receive atoi has_capturer now msg d).1
          (receive_table (λ e. e.ttl ≡ ttl) now msg d same
            (should_reap-ttl msg.actor_id now d ∙ same))
          h.1)
  listen-IsSpaced false (received now msg ∷ hs) since ttl d same h =
      listen-IsSpaced false hs now ttl d same h.1
  listen-IsSpaced true (backed_off found ∷ hs) since ttl d same h =
      listen-IsSpaced true hs since ttl d same h
  listen-IsSpaced false (backed_off true ∷ hs) since ttl d same h =
      listen-IsSpaced true hs since ttl d same h
  listen-IsSpaced false (backed_off false ∷ hs) since ttl d same h = tt
