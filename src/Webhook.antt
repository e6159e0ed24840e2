-- ===== src/Webhook.antt =====
-- internal/webhook/webhook.go: the receiver of POST /hooks/{provider}. The resolver of secrets, HMAC,
-- JSON and net/http are parameters.
pub mod Accepted
use gh_runner.Prelude.{
  ℕ, ◌*◌, Bool, true, false, ◌&&◌, ◌||◌, not, Option, none, some, List, [], ◌∷◌, ◌++◌, ◌==◌,
  if◌then◌else◌, drop,
}
use gh_runner.Prelude.Text.{GoString, codes, text_eq, is_empty, has_prefix, Unicode}
use gh_runner.Prelude.Dict.{Dict, lookup}
use gh_runner.Orchestrator.Matching.{WorkflowJobEvent}

-- The request: header.Get, and what is read of the body up to a limit, `none` for an error.
pub record Request : Type 0 where
  pub header : GoString → GoString
  pub read_body : ℕ → Option GoString

pub record Library : Type 0 where
  pub text : Unicode
  pub hmac_sha256_hex : GoString → GoString → GoString
  pub unmarshal : GoString → Option WorkflowJobEvent
  pub resolve_secret : GoString → Option GoString

-- http.StatusOK and so on.
pub data Status : Type 0 where
  accepted pong ignored bad_request unauthorized internal_server_error : Status

unfoldable pub or_header : GoString → GoString → GoString
or_header a b = if is_empty a then b else a

module _ (lib : Library) where
  -- StaticSecretResolver.
  resolved_text : Option GoString → Option GoString
  resolved_text none = none
  resolved_text (some s) = if is_empty s then none else some s

  unfoldable pub static_secret : Dict GoString → GoString → Option GoString
  unfolding resolved_text
  static_secret secrets provider = resolved_text (lookup (lib.text.to_lower provider) secrets)

  unfoldable pub sign_payload : GoString → GoString → GoString
  sign_payload payload secret = lib.hmac_sha256_hex secret payload

  -- The signature without blanks at its ends and without its scheme.
  unfoldable pub bare_signature : GoString → GoString
  unfolding has_prefix
  bare_signature signature_header =
      let sig = lib.text.trim_space signature_header in
      if has_prefix (lib.text.to_lower sig) (codes "sha256=") then drop 7 sig else sig

  unfoldable pub verify_signature : GoString → GoString → GoString → Bool
  unfolding bare_signature text_eq
  verify_signature secret payload signature_header =
      if is_empty secret || is_empty signature_header
      then false
      else text_eq (bare_signature signature_header) (lib.hmac_sha256_hex secret payload)

  unfoldable pub extract_signature_header : Request → GoString → GoString
  unfolding or_header
  extract_signature_header req provider =
      let name = lib.text.to_lower provider in
      let hub = req.header (codes "X-Hub-Signature-256") in
      let gitea = req.header (codes "X-Gitea-Signature") in
      if text_eq name (codes "github")
      then hub
      else if text_eq name (codes "gitea")
      then or_header gitea hub
      else if text_eq name (codes "forgejo")
      then or_header (req.header (codes "X-Forgejo-Signature")) (or_header gitea hub)
      else or_header hub gitea

  unfoldable pub extract_event_header : Request → GoString → GoString
  unfolding or_header
  extract_event_header req provider =
      let name = lib.text.to_lower provider in
      let github = req.header (codes "X-GitHub-Event") in
      let gitea = req.header (codes "X-Gitea-Event") in
      if text_eq name (codes "github")
      then github
      else if text_eq name (codes "gitea")
      then or_header gitea github
      else if text_eq name (codes "forgejo")
      then or_header (req.header (codes "X-Forgejo-Event")) gitea
      else or_header github gitea

  unfoldable pub is_known_provider : GoString → Bool
  is_known_provider provider =
      text_eq provider (codes "github")
      || text_eq provider (codes "gitea")
      || text_eq provider (codes "forgejo")

  unfoldable pub is_job_action : GoString → Bool
  is_job_action action =
      text_eq action (codes "queued")
      || text_eq action (codes "in_progress")
      || text_eq action (codes "completed")
      || text_eq action (codes "waiting")

  -- The handler acts on a state, and its error is only logged.
  module _ {S : Type 0} (event_handler : Option (GoString → WorkflowJobEvent → S → S)) where
    dispatch : Option (GoString → WorkflowJobEvent → S → S) → GoString → WorkflowJobEvent → S → S
    dispatch none provider event s = s
    dispatch (some handler) provider event s = handler provider event s

    -- What the handler that is configured makes of an event.
    unfoldable pub dispatched : GoString → WorkflowJobEvent → S → S
    unfolding dispatch
    dispatched provider event s = dispatch event_handler provider event s

    unfoldable pub handle_parsed : GoString → Option WorkflowJobEvent → S → Status × S
    unfolding dispatched is_job_action
    handle_parsed provider none s = (bad_request, s)
    handle_parsed provider (some event) s =
        if is_job_action event.action
        then (accepted, dispatched provider event s)
        else if is_empty event.action
        then (bad_request, s)
        else (ignored, s)

    unfoldable pub handle_body :
        GoString → GoString → Request → GoString → Option GoString → S → Status × S
    unfolding handle_parsed verify_signature extract_event_header
    handle_body provider secret req signature none s = (bad_request, s)
    handle_body provider secret req signature (some body) s =
        if not (verify_signature secret body signature)
        then (unauthorized, s)
        else if text_eq (extract_event_header req provider) (codes "ping")
        then (pong, s)
        else handle_parsed provider (lib.unmarshal body) s

    unfoldable pub handle_resolved : GoString → Option GoString → Request → S → Status × S
    unfolding handle_body extract_signature_header
    handle_resolved provider none req s = (internal_server_error, s)
    handle_resolved provider (some secret) req s =
        let signature = extract_signature_header req provider in
        if is_empty secret
        then (internal_server_error, s)
        else if is_empty signature
        then (unauthorized, s)
        else handle_body provider secret req signature (req.read_body (10 * 1024 * 1024)) s

    unfoldable pub handle : GoString → Request → S → Status × S
    unfolding handle_resolved is_known_provider
    handle raw_provider req s =
        let provider = lib.text.to_lower (lib.text.trim_space raw_provider) in
        if not (is_known_provider provider)
        then (bad_request, s)
        else handle_resolved provider (lib.resolve_secret provider) req s
