-- ===== src/Server/Auth/Logins.antt =====
-- internal/server/auth.go: a login and the calls that follow it.
use gh_runner.Prelude.{
  ℕ, ◌+◌, ◌≤◌, ◌≡◌, refl, sym, ap, ◌∙◌, inl, inr, Bool, true, false, ◌||◌, Option, none, some, [],
  ◌∷◌, ltb, Bool-cases, arith,
}
use gh_runner.Prelude.Text.{GoString, codes, is_empty, Unicode}
use gh_runner.Prelude.Results.{Result, ok, failed}
use gh_runner.Server.Auth.{
  Code, invalid_argument, Claims, AdminUser, Session, Headers, Cookie, AuthDatabase,
  session_duration, extract_session_token, is_public_procedure, validate_token, checked_session,
  checked_claims, check_session, known, authenticate, positive_id, record_audit_log,
}
use gh_runner.Server.Auth.Handlers.{
  open_session, cookie_of, refuse_login, log_in, log_in_user, login,
}
use gh_runner.Server.Auth.Tokens.{KeepsSessions, IsToken, IsStored, open_session-IsStored}

module _ (db : AuthDatabase) (text : Unicode) (secret : GoString) (is_secure_cookie : Bool) where
  module _ (laws : KeepsSessions db) where
    -- Who is logged in, and what is stored of it in the world after.
    abbrev LoggedIn : GoString → GoString → db.World → GoString → db.World → Type 0
    LoggedIn username password w token w' =
        (user : AdminUser) × (db.get_admin_user_by_username username w ≡ some user)
        × (db.compare_hash_and_password user.password_hash password ≡ true)
        × (expires : ℕ) × IsToken db text secret is_secure_cookie user.id user.username w
            (token, expires)
        × IsStored db text secret is_secure_cookie user.id (token, expires) w'

    log_in-IsStored :
        (username : GoString) (user : AdminUser) (opened : Result Code GoString × db.World)
        (w' : db.World) (cookie : Cookie)
        → log_in db text secret is_secure_cookie username user opened ≡ (ok cookie, w')
        → (w1 : db.World) × (opened ≡ (ok cookie.value, w1))
          × ((hash : GoString)
              → db.get_session_by_token_hash hash w' ≡ db.get_session_by_token_hash hash w1)
    unfolding log_in record_audit_log
    log_in-IsStored username user (failed code, w1) w' cookie h = cc
    log_in-IsStored username user (ok token, w1) w' cookie h =
        let same : cookie_of db text secret is_secure_cookie token ≡ cookie = cc in
        let later = ap (λ r. r.1) h in
        (
          w1,
          ap (λ c. (ok (Cookie.value c), w1)) same,
          λ hash.
              ap (λ v. db.get_session_by_token_hash hash v) (sym later)
              ∙ laws.logged hash
                  (record {
                    user_id = positive_id (some user.id);
                    action = codes "auth.login";
                    resource_type = codes "admin_user";
                    resource_id = positive_id (some user.id);
                    details = (codes "username", username) ∷ (codes "status", codes "success") ∷ [];
                  })
                  w1,
        )

    log_in_user-LoggedIn :
        (username password : GoString) (o : Option AdminUser) (w w' : db.World) (cookie : Cookie)
        → db.get_admin_user_by_username username w ≡ o
        → log_in_user db text secret is_secure_cookie username password o w ≡ (ok cookie, w')
        → LoggedIn username password w cookie.value w'
    unfolding log_in_user refuse_login
    log_in_user-LoggedIn username password none w w' cookie found h = cc
    log_in_user-LoggedIn username password (some user) w w' cookie found h =
        elim (Bool-cases (db.compare_hash_and_password user.password_hash password)) [
          | inr wrong ↦
              let never : refuse_login db text secret is_secure_cookie username (some user.id)
                    (codes "invalid_password") w
                  ≡ (ok cookie, w') =
                (rw (wrong, log_in_user) at h) in
              cc
          | inl right ↦
              let (w1, opened, kept) =
                log_in-IsStored username user (open_session db text secret is_secure_cookie user w)
                  w' cookie (rw (right, log_in_user) at h) in
              let (expires, signed, stored) =
                open_session-IsStored db text secret is_secure_cookie laws user w w1 cookie.value
                  opened in
              (user, found, right, expires, signed, kept (db.sha256_hex cookie.value) ∙ stored)
        ]

    login-LoggedIn :
        (raw_username password : GoString) (w w' : db.World) (cookie : Cookie)
        → login db text secret is_secure_cookie raw_username password w ≡ (ok cookie, w')
        → LoggedIn (text.trim_space raw_username) password w cookie.value w'
    unfolding login
    login-LoggedIn raw_username password w w' cookie h =
        let username : GoString = text.trim_space raw_username in
        elim (Bool-cases (is_empty username || is_empty password)) [
          | inl missing ↦
              let never : (failed invalid_argument, w) ≡ (ok cookie, w') =
                (rw (missing, login) at h) in
              cc
          | inr given ↦
              log_in_user-LoggedIn username password (db.get_admin_user_by_username username w) w w'
                cookie refl (rw (given, login) at h)
        ]

    carried_token :
        (headers : Headers) (token : GoString)
        → headers.session_cookie ≡ some token
        → is_empty token ≡ false
        → extract_session_token headers ≡ token
    unfolding extract_session_token
    carried_token headers token carried full = rw (carried, full, extract_session_token) refl

    in_time : (now expires : ℕ) → now ≤ expires → ltb expires now ≡ false
    in_time now expires h = ground arith

    check_session-accepts :
        (headers : Headers) (token : GoString) (claims : Claims) (session : Session) (w : db.World)
        → extract_session_token headers ≡ token
        → is_empty token ≡ false
        → is_empty secret ≡ false
        → db.parse token secret w ≡ some claims
        → db.get_session_by_token_hash (db.sha256_hex token) w ≡ some session
        → db.now w ≤ session.expires_at
        → check_session db text secret is_secure_cookie headers w
          ≡ ok (record { user_id = claims.user_id; username = claims.username })
    unfolding check_session validate_token checked_claims checked_session
    check_session-accepts headers token claims session w carried full set parsed stored early =
        rw
          (
            carried,
            full,
            set,
            parsed,
            stored,
            in_time (db.now w) session.expires_at early,
            check_session,
            checked_session,
          )
          refl

    -- A token of a user whose session is stored is accepted until a second before its expiry.
    authenticate-IsToken :
        (user : AdminUser) (token procedure : GoString) (expires : ℕ) (headers : Headers)
        (w w'' : db.World)
        → IsToken db text secret is_secure_cookie user.id user.username w (token, expires)
        → IsStored db text secret is_secure_cookie user.id (token, expires) w''
        → is_public_procedure procedure ≡ false
        → headers.session_cookie ≡ some token
        → db.now w'' + 1_000_000_000 ≤ db.now w + session_duration
        → authenticate db text secret is_secure_cookie headers procedure w''
          ≡ ok (some (record { user_id = user.id; username = user.username }))
    unfolding authenticate known
    authenticate-IsToken user token procedure expires headers w w'' (nonce, set, ends, signed)
          stored protected carried early =
        let claims : Claims = record {
          user_id = user.id;
          username = user.username;
          expires_at = db.now w + session_duration;
        } in
        let full : is_empty token ≡ false = laws.signed secret nonce token claims signed in
        let (parsed, is_parsed, same_id, same_name) =
          laws.parse-sign secret nonce token claims w'' signed early in
        let session : Session = record {
          user_id = user.id;
          token_hash = db.sha256_hex token;
          expires_at = expires;
        } in
        rw
          (
            protected,
            check_session-accepts headers token parsed session w''
                (carried_token headers token carried full) full set is_parsed stored (omega arith),
            same_id,
            same_name,
            authenticate,
          )
          refl

  -- With the laws of the JWT package and of the tables: the cookie that a login hands out is
  -- accepted for every protected procedure, in any later world that keeps the sessions, until a
  -- second before 24 hours are over. The caller is taken for the user whose name was given, whose
  -- password hash the password matches.
  pub authenticate-login :
      KeepsSessions db
      → (raw_username password procedure : GoString) (w w' w'' : db.World) (cookie : Cookie)
        (headers : Headers)
      → login db text secret is_secure_cookie raw_username password w ≡ (ok cookie, w')
      → is_public_procedure procedure ≡ false
      → headers.session_cookie ≡ some cookie.value
      → ((hash : GoString)
          → db.get_session_by_token_hash hash w'' ≡ db.get_session_by_token_hash hash w')
      → db.now w'' + 1_000_000_000 ≤ db.now w + session_duration
      → (user : AdminUser) × (db.get_admin_user_by_username (text.trim_space raw_username) w
          ≡ some user)
        × (db.compare_hash_and_password user.password_hash password ≡ true)
        × (authenticate db text secret is_secure_cookie headers procedure w''
            ≡ ok (some (record { user_id = user.id; username = user.username })))
  authenticate-login laws raw_username password procedure w w' w'' cookie headers logged protected
        carried kept early =
      let (user, found, right, expires, signed, stored) =
        login-LoggedIn laws raw_username password w w' cookie logged in
      (
        user,
        found,
        right,
        authenticate-IsToken laws user cookie.value procedure expires headers w w'' signed
            (kept (db.sha256_hex cookie.value) ∙ stored) protected carried early,
      )
