-- ===== src/Webhook/Accepted.antt =====
-- internal/webhook/webhook.go: which events reach the handler.
use gh_runner.Prelude.{
  ◌*◌, ◌≡◌, ◌≢◌, refl, ap, ◌∙◌, ◌⊎◌, inl, inr, true, false, Option, none, some, Bool-cases, arith,
}
use gh_runner.Prelude.Text.{GoString, codes, text_eq, text_eq_refl, text_eq_iff, is_empty}
use gh_runner.Orchestrator.Matching.{WorkflowJobEvent}
use gh_runner.Webhook.{
  Request, Library, Status, accepted, bare_signature, verify_signature, extract_signature_header,
  extract_event_header, is_known_provider, is_job_action, dispatched, handle_parsed, handle_body,
  handle_resolved, handle,
}

module _ (lib : Library) (req : Request) where
  -- The request for a provider carries this event, signed with the provider's secret.
  pub record IsSigned (provider : GoString) (event : WorkflowJobEvent) : Type 0 where
    pub secret : GoString
    pub body : GoString
    pub supported : is_known_provider lib provider ≡ true
    pub resolved : lib.resolve_secret provider ≡ some secret
    pub has_secret : is_empty secret ≡ false
    pub has_signature : is_empty (extract_signature_header lib req provider) ≡ false
    pub read : req.read_body (10 * 1024 * 1024) ≡ some body
    pub signed :
        bare_signature lib (extract_signature_header lib req provider)
        ≡ lib.hmac_sha256_hex secret body
    pub no_ping : text_eq (extract_event_header lib req provider) (codes "ping") ≡ false
    pub parsed : lib.unmarshal body ≡ some event
    pub is_action : is_job_action lib event.action ≡ true

  verified :
      (secret body signature : GoString)
      → verify_signature lib secret body signature ≡ true
      → (is_empty secret ≡ false) × (bare_signature lib signature ≡ lib.hmac_sha256_hex secret body)
  unfolding verify_signature
  verified secret body signature h =
      ground (arith, text_eq_iff (bare_signature lib signature) (lib.hmac_sha256_hex secret body))

  verifies :
      (secret body signature : GoString)
      → is_empty secret ≡ false
      → is_empty signature ≡ false
      → bare_signature lib signature ≡ lib.hmac_sha256_hex secret body
      → verify_signature lib secret body signature ≡ true
  unfolding verify_signature
  verifies secret body signature set given signed =
      rw (set, given, signed, verify_signature) (text_eq_refl (lib.hmac_sha256_hex secret body))

  module _ {S : Type 0} (event_handler : Option (GoString → WorkflowJobEvent → S → S)) where
    -- The handler has run on a signed event, or the state is as before.
    abbrev Outcome : GoString → S → Status × S → Type 0
    Outcome provider s r =
        ((event : WorkflowJobEvent) × IsSigned provider event
          × (r ≡ (accepted, dispatched lib event_handler provider event s)))
        ⊎ ((r.0 ≢ accepted) × (r.1 ≡ s))

    handle_parsed-Outcome :
        (provider : GoString) (o : Option WorkflowJobEvent) (s : S)
        → ((event : WorkflowJobEvent)
            → o ≡ some event
            → is_job_action lib event.action ≡ true
            → IsSigned provider event)
        → Outcome provider s (handle_parsed lib event_handler provider o s)
    unfolding handle_parsed
    handle_parsed-Outcome provider none s signs = inr ((λ e. cc), refl)
    handle_parsed-Outcome provider (some event) s signs =
        elim (Bool-cases (is_job_action lib event.action)) [
          | inl action ↦ inl (event, signs event refl action, rw (action, handle_parsed) refl)
          | inr other ↦ elim (Bool-cases (is_empty event.action)) [
            | inl empty ↦ rw (other, empty, handle_parsed) (inr ((λ e. cc), refl))
            | inr named ↦ rw (other, named, handle_parsed) (inr ((λ e. cc), refl))
          ]
        ]

    handle_body-Outcome :
        (provider secret : GoString) (o : Option GoString) (s : S)
        → is_known_provider lib provider ≡ true
        → lib.resolve_secret provider ≡ some secret
        → is_empty (extract_signature_header lib req provider) ≡ false
        → req.read_body (10 * 1024 * 1024) ≡ o
        → Outcome provider s (
            handle_body lib event_handler provider secret req
              (extract_signature_header lib req provider)
              o
              s)
    unfolding handle_body
    handle_body-Outcome provider secret none s supported resolved given read = inr ((λ e. cc), refl)
    handle_body-Outcome provider secret (some body) s supported resolved given read =
        let signature : GoString = extract_signature_header lib req provider in
        elim (Bool-cases (verify_signature lib secret body signature)) [
          | inr forged ↦ rw (forged, handle_body) (inr ((λ e. cc), refl))
          | inl valid ↦
              elim (Bool-cases (text_eq (extract_event_header lib req provider) (codes "ping"))) [
                | inl ping ↦ rw (valid, ping, handle_body) (inr ((λ e. cc), refl))
                | inr no_ping ↦
                    let (full, signed) = verified secret body signature valid in
                    rw (valid, no_ping, handle_body)
                      (handle_parsed-Outcome provider (lib.unmarshal body) s (λ event parsed action.
                        record {
                          secret = secret;
                          body = body;
                          supported = supported;
                          resolved = resolved;
                          has_secret = full;
                          has_signature = given;
                          read = read;
                          signed = signed;
                          no_ping = no_ping;
                          parsed = parsed;
                          is_action = action;
                        }))
              ]
        ]

    handle_resolved-Outcome :
        (provider : GoString) (o : Option GoString) (s : S)
        → is_known_provider lib provider ≡ true
        → lib.resolve_secret provider ≡ o
        → Outcome provider s (handle_resolved lib event_handler provider o req s)
    unfolding handle_resolved
    handle_resolved-Outcome provider none s supported resolved = inr ((λ e. cc), refl)
    handle_resolved-Outcome provider (some secret) s supported resolved =
        elim (Bool-cases (is_empty secret)) [
          | inl unset ↦ rw (unset, handle_resolved) (inr ((λ e. cc), refl))
          | inr set ↦ elim (Bool-cases (is_empty (extract_signature_header lib req provider))) [
            | inl missing ↦ rw (set, missing, handle_resolved) (inr ((λ e. cc), refl))
            | inr given ↦
                rw (set, given, handle_resolved)
                  (handle_body-Outcome provider secret (req.read_body (10 * 1024 * 1024)) s
                    supported resolved given refl)
          ]
        ]

    -- The name in the path, as the receiver compares it.
    abbrev pub provider_of : GoString → GoString
    provider_of raw_provider = lib.text.to_lower (lib.text.trim_space raw_provider)

    handle-Outcome :
        (raw_provider : GoString) (s : S)
        → Outcome (provider_of raw_provider) s (handle lib event_handler raw_provider req s)
    unfolding handle
    handle-Outcome raw_provider s =
        let provider : GoString = provider_of raw_provider in
        elim (Bool-cases (is_known_provider lib provider)) [
          | inr unknown ↦ rw (unknown, handle) (inr ((λ e. cc), refl))
          | inl supported ↦
              rw (supported, handle)
                (handle_resolved-Outcome provider (lib.resolve_secret provider) s supported refl)
        ]

    handle_parsed-accepts :
        (provider : GoString) (event : WorkflowJobEvent) (s : S)
        → is_job_action lib event.action ≡ true
        → handle_parsed lib event_handler provider (some event) s
          ≡ (accepted, dispatched lib event_handler provider event s)
    unfolding handle_parsed
    handle_parsed-accepts provider event s action = rw (action, handle_parsed) refl

    handle_body-passes :
        (provider secret body : GoString) (s : S)
        → verify_signature lib secret body (extract_signature_header lib req provider) ≡ true
        → text_eq (extract_event_header lib req provider) (codes "ping") ≡ false
        → handle_body lib event_handler provider secret req
            (extract_signature_header lib req provider)
            (some body)
            s
          ≡ handle_parsed lib event_handler provider (lib.unmarshal body) s
    unfolding handle_body
    handle_body-passes provider secret body s valid no_ping = rw (valid, no_ping, handle_body) refl

    handle_resolved-passes :
        (provider secret : GoString) (s : S)
        → is_empty secret ≡ false
        → is_empty (extract_signature_header lib req provider) ≡ false
        → handle_resolved lib event_handler provider (some secret) req s
          ≡ handle_body lib event_handler provider secret req
              (extract_signature_header lib req provider)
              (req.read_body (10 * 1024 * 1024))
              s
    unfolding handle_resolved
    handle_resolved-passes provider secret s set given = rw (set, given, handle_resolved) refl

    handle-passes :
        (raw_provider : GoString) (s : S)
        → is_known_provider lib (provider_of raw_provider) ≡ true
        → handle lib event_handler raw_provider req s
          ≡ handle_resolved lib event_handler
              (provider_of raw_provider)
              (lib.resolve_secret (provider_of raw_provider))
              req
              s
    unfolding handle
    handle-passes raw_provider s supported = rw (supported, handle) refl

    handle-accepts :
        (raw_provider : GoString) (s : S) (event : WorkflowJobEvent)
        → IsSigned (provider_of raw_provider) event
        → handle lib event_handler raw_provider req s
          ≡ (accepted, dispatched lib event_handler (provider_of raw_provider) event s)
    handle-accepts raw_provider s event h =
        let provider : GoString = provider_of raw_provider in
        let signature : GoString = extract_signature_header lib req provider in
        handle-passes raw_provider s h.supported
        ∙ ap (λ o. handle_resolved lib event_handler provider o req s) h.resolved
        ∙ handle_resolved-passes provider h.secret s h.has_secret h.has_signature
        ∙ ap (λ o. handle_body lib event_handler provider h.secret req signature o s) h.read
        ∙ handle_body-passes provider h.secret h.body s
            (verifies h.secret h.body signature h.has_secret h.has_signature h.signed) h.no_ping
        ∙ ap (λ o. handle_parsed lib event_handler provider o s) h.parsed
        ∙ handle_parsed-accepts provider event s h.is_action

    -- Either the request is signed with the provider's secret, carries a job event with one of the
    -- four actions, is answered as accepted, and the state is what the handler makes of that event;
    -- or the answer is another one and the state is unchanged. And every request that is so signed is
    -- accepted, and its event handed to the handler.
    pub handle-IsSigned :
        (raw_provider : GoString) (s : S)
        → (((event : WorkflowJobEvent) × IsSigned (provider_of raw_provider) event
              × (handle lib event_handler raw_provider req s
                  ≡ (accepted, dispatched lib event_handler (provider_of raw_provider) event s)))
            ⊎ (((handle lib event_handler raw_provider req s).0 ≢ accepted)
                × ((handle lib event_handler raw_provider req s).1 ≡ s)))
          × ((event : WorkflowJobEvent)
              → IsSigned (provider_of raw_provider) event
              → handle lib event_handler raw_provider req s
                ≡ (accepted, dispatched lib event_handler (provider_of raw_provider) event s))
    handle-IsSigned raw_provider s = (handle-Outcome raw_provider s, handle-accepts raw_provider s)
