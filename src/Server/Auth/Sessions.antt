-- ===== src/Server/Auth/Sessions.antt =====
-- internal/server/auth.go: who may run a protected procedure.
use gh_runner.Prelude.{
  ◌≤◌, ◌≡◌, refl, ap, ◌⊎◌, inl, inr, Bool, false, Option, some, ltb, Bool-cases, Option-cases,
  arith,
}
use gh_runner.Prelude.Text.{GoString, is_empty, Unicode}
use gh_runner.Prelude.Results.{Result, ok, failed}
use gh_runner.Server.Auth.{
  Code, unauthenticated, Claims, Session, UserContext, Headers, AuthDatabase, extract_session_token,
  is_public_procedure, validate_token, checked_session, checked_claims, check_session, known,
  authenticate, wrap,
}

module _ (db : AuthDatabase) (text : Unicode) (secret : GoString) (is_secure_cookie : Bool) where
  -- The request carries a valid token of the user, whose session is stored and not over.
  pub record HasSession (headers : Headers) (w : db.World) (user : UserContext) : Type 0 where
    pub claims : Claims
    pub session : Session
    pub carried : is_empty (extract_session_token headers) ≡ false
    pub validated :
        validate_token db text secret is_secure_cookie (extract_session_token headers) w
        ≡ some claims
    pub stored :
        db.get_session_by_token_hash (db.sha256_hex (extract_session_token headers)) w
        ≡ some session
    pub not_over : db.now w ≤ session.expires_at
    pub is_user : user ≡ record { user_id = claims.user_id; username = claims.username }

  -- Whether the check has a result, and which.
  abbrev Decides : Headers → db.World → Result Code UserContext → Type 0
  Decides headers w r =
      ((user : UserContext) × HasSession headers w user × (r ≡ ok user))
      ⊎ (((user : UserContext) → HasSession headers w user → ⊥) × (r ≡ failed unauthenticated))

  check_session-Decides :
      (headers : Headers) (w : db.World)
      → Decides headers w (check_session db text secret is_secure_cookie headers w)
  unfolding check_session checked_claims checked_session
  check_session-Decides headers w =
      let token : GoString = extract_session_token headers in
      elim (Bool-cases (is_empty token)) [
        | inl missing ↦ inr ((λ user h. ground (arith, h.carried)), rw (missing) refl)
        | inr carried ↦
            elim (Option-cases (validate_token db text secret is_secure_cookie token w)) [
              | inl bad ↦ inr ((λ user h. cc), rw (carried, bad) refl)
              | inr (claims, valid) ↦
                  elim (Option-cases (db.get_session_by_token_hash (db.sha256_hex token) w)) [
                    | inl revoked ↦ inr ((λ user h. cc), rw (carried, valid, revoked) refl)
                    | inr (session, stored) ↦
                        elim (Bool-cases (ltb session.expires_at (db.now w))) [
                          | inl expired ↦ inr (
                            (λ user h.
                                let same : session ≡ h.session = cc in
                                ground (arith, ap (λ s. Session.expires_at s) same, h.not_over)),
                            rw (carried, valid, stored, expired) refl,
                          )
                          | inr live ↦ inl (
                            record { user_id = claims.user_id; username = claims.username },
                            record {
                              claims = claims;
                              session = session;
                              carried = carried;
                              validated = valid;
                              stored = stored;
                              not_over = (ground arith);
                              is_user = refl;
                            },
                            rw (carried, valid, stored, live) refl,
                          )
                        ]
                  ]
            ]
      ]

  -- A procedure that is not public is run for a user with a session, in the context of that user;
  -- without a session it is not run: the answer is the code Unauthenticated and nothing changes.
  pub wrap-HasSession :
      {A : Type 0} (next : Option UserContext → db.World → Result Code A × db.World)
      (headers : Headers) (procedure : GoString) (w : db.World)
      → is_public_procedure procedure ≡ false
      → ((user : UserContext) × HasSession headers w user
          × (wrap db text secret is_secure_cookie next headers procedure w ≡ next (some user) w))
        ⊎ (((user : UserContext) → HasSession headers w user → ⊥)
            × (wrap db text secret is_secure_cookie next headers procedure w
                ≡ (failed unauthenticated, w)))
  unfolding wrap authenticate known
  wrap-HasSession next headers procedure w protected = elim (check_session-Decides headers w) [
    | inl (user, has, checked) ↦ inl (user, has, rw (protected, checked, wrap) refl)
    | inr (none_has, checked) ↦ inr (none_has, rw (protected, checked, wrap) refl)
  ]
