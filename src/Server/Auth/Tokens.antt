-- ===== src/Server/Auth/Tokens.antt =====
-- internal/server/auth.go: the token and the stored session that a login leaves.
use gh_runner.Prelude.{
  ℕ, ◌+◌, ◌≤◌, ◌≡◌, refl, ap, subst, inl, inr, Bool, true, false, Option, none, some, Bool-cases,
  Option-cases,
}
use gh_runner.Prelude.Text.{GoString, is_empty, Unicode}
use gh_runner.Prelude.Results.{ok, failed}
use gh_runner.Server.Auth.{
  internal_error, Claims, AdminUser, Session, AuditEntry, AuthDatabase, session_duration, sign_with,
  generate_token,
}
use gh_runner.Server.Auth.Handlers.{record_session, open_session}

-- The documented behaviour of the JWT package, which rounds the expiry down to a second, of the
-- table of sessions and of the audit log.
pub record KeepsSessions (db : AuthDatabase) : Type 0 where
  pub parse-sign :
      (secret nonce token : GoString) (claims : Claims) (w : db.World)
      → db.sign secret nonce claims ≡ some token
      → db.now w + 1_000_000_000 ≤ claims.expires_at
      → (parsed : Claims) × (db.parse token secret w ≡ some parsed)
        × (parsed.user_id ≡ claims.user_id)
        × (parsed.username ≡ claims.username)
  pub signed :
      (secret nonce token : GoString) (claims : Claims)
      → db.sign secret nonce claims ≡ some token
      → is_empty token ≡ false
  pub created :
      (session : Session) (w : db.World)
      → (db.create_session session w).0 ≡ true
      → db.get_session_by_token_hash session.token_hash (db.create_session session w).1
        ≡ some session
  pub logged :
      (hash : GoString) (entry : AuditEntry) (w : db.World)
      → db.get_session_by_token_hash hash (db.create_audit_log entry w)
        ≡ db.get_session_by_token_hash hash w

module _ (db : AuthDatabase) (text : Unicode) (secret : GoString) (is_secure_cookie : Bool) where
  -- A token and its expiry that GenerateToken returned.
  abbrev pub IsToken : ℕ → GoString → db.World → GoString × ℕ → Type 0
  IsToken id username w (token, expires) =
      (nonce : GoString) × (is_empty secret ≡ false)
      × (expires ≡ db.now w + session_duration)
      × (db.sign secret nonce
            (record { user_id = id; username = username; expires_at = db.now w + session_duration })
          ≡ some token)

  sign_with-IsToken :
      (id : ℕ) (username : GoString) (w : db.World) (nonce : Option GoString) (made : GoString × ℕ)
      → is_empty secret ≡ false
      → sign_with db text secret is_secure_cookie id username (db.now w + session_duration) nonce
        ≡ some made
      → IsToken id username w made
  unfolding sign_with
  sign_with-IsToken id username w none made set h = cc
  sign_with-IsToken id username w (some nonce) made set h =
      let claims : Claims = record {
        user_id = id;
        username = username;
        expires_at = db.now w + session_duration;
      } in
      elim (Option-cases (db.sign secret nonce claims)) [
        | inl refused ↦ let never : none ≡ some made = (rw (refused, sign_with) at h) in cc
        | inr (token, signed) ↦
            let same : some (token, db.now w + session_duration) ≡ some made =
              (rw (signed, sign_with) at h) in
            let pair : (token, db.now w + session_duration) ≡ made = cc in
            subst (IsToken id username w) pair (nonce, set, refl, signed)
      ]

  generate_token-IsToken :
      (id : ℕ) (username : GoString) (w : db.World) (made : GoString × ℕ)
      → (generate_token db text secret is_secure_cookie id username w).0 ≡ some made
      → IsToken id username w made
  unfolding generate_token
  generate_token-IsToken id username w made h = elim (Bool-cases (is_empty secret)) [
    | inl unset ↦ let never : none ≡ some made = (rw (unset, generate_token) at h) in cc
    | inr set ↦
        sign_with-IsToken id username w (db.read_nonce w).0 made set (rw (set, generate_token) at h)
  ]

  -- The session of a token is stored under its hash.
  abbrev pub IsStored : ℕ → GoString × ℕ → db.World → Type 0
  IsStored id (token, expires) w =
      db.get_session_by_token_hash (db.sha256_hex token) w
      ≡ some (record { user_id = id; token_hash = db.sha256_hex token; expires_at = expires })

  module _ (laws : KeepsSessions db) where
    record_session-IsStored :
        (id : ℕ) (o : Option (GoString × ℕ)) (w w' : db.World) (token : GoString)
        → record_session db text secret is_secure_cookie id o w ≡ (ok token, w')
        → (expires : ℕ) × (o ≡ some (token, expires)) × IsStored id (token, expires) w'
    unfolding record_session
    record_session-IsStored id none w w' token h = cc
    record_session-IsStored id (some (made, expires)) w w' token h =
        let session : Session = record {
          user_id = id;
          token_hash = db.sha256_hex made;
          expires_at = expires;
        } in
        elim (Bool-cases (db.create_session session w).0) [
          | inr refused ↦
              let never : (failed internal_error, (db.create_session session w).1)
                  ≡ (ok token, w') =
                (rw (refused, record_session) at h) in
              cc
          | inl done ↦
              let answer : (ok made, (db.create_session session w).1) ≡ (ok token, w') =
                (rw (done, record_session) at h) in
              let same : made ≡ token = cc in
              let later : (db.create_session session w).1 ≡ w' = cc in
              (
                expires,
                ap (λ t. some (t, expires)) same,
                subst (λ t. IsStored id (t, expires) w') same
                    (subst (IsStored id (made, expires)) later (laws.created session w done)),
              )
        ]

    pub open_session-IsStored :
        (user : AdminUser) (w w' : db.World) (token : GoString)
        → open_session db text secret is_secure_cookie user w ≡ (ok token, w')
        → (expires : ℕ) × IsToken user.id user.username w (token, expires)
          × IsStored user.id (token, expires) w'
    unfolding open_session
    open_session-IsStored user w w' token h =
        let made = generate_token db text secret is_secure_cookie user.id user.username w in
        let (expires, signed, stored) = record_session-IsStored user.id made.0 made.1 w' token h in
        (expires, generate_token-IsToken user.id user.username w (token, expires) signed, stored)
