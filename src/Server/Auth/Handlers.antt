-- ===== src/Server/Auth/Handlers.antt =====
-- internal/server/auth.go: SetupAdmin, Login and GetSession.
use gh_runner.Prelude.{ℕ, Bool, ◌||◌, Option, none, some, [], ◌∷◌, if◌then◌else◌, ltb}
use gh_runner.Prelude.Text.{GoString, codes, is_empty, Unicode}
use gh_runner.Prelude.Results.{Result, ok, failed}
use gh_runner.Server.Auth.{
  Code, unauthenticated, invalid_argument, failed_precondition, internal_error, AdminUser,
  UserContext, Headers, Cookie, AuthDatabase, generate_token, record_audit_log, check_session,
}

module _ (db : AuthDatabase) (text : Unicode) (secret : GoString) (is_secure_cookie : Bool) where
  open db use {World}

  abbrev pub cookie_of : GoString → Cookie
  cookie_of token = record { value = token; max_age = 86_400; secure = is_secure_cookie }

  unfoldable pub record_session : ℕ → Option (GoString × ℕ) → World → Result Code GoString × World
  record_session user_id none w = (failed internal_error, w)
  record_session user_id (some (token, expires)) w =
      let (created, w') =
        db.create_session
          (record { user_id = user_id; token_hash = db.sha256_hex token; expires_at = expires })
          w in
      if created then (ok token, w') else (failed internal_error, w')

  -- GenerateToken, HashToken and CreateSession, as SetupAdmin and Login call them.
  unfoldable pub open_session : AdminUser → World → Result Code GoString × World
  unfolding generate_token record_session
  open_session user w =
      let (token, w') = generate_token db text secret is_secure_cookie user.id user.username w in
      record_session user.id token w'

  unfoldable pub set_cookie : Result Code GoString × World → Result Code Cookie × World
  set_cookie (failed code, w) = (failed code, w)
  set_cookie (ok token, w) = (ok (cookie_of token), w)

  unfoldable pub set_up_user : GoString → Option AdminUser → World → Result Code Cookie × World
  unfolding open_session set_cookie record_audit_log
  set_up_user username none w = (failed internal_error, w)
  set_up_user username (some user) w = set_cookie (
      open_session user (
        record_audit_log db text secret is_secure_cookie (some user.id) (codes "auth.setup_admin")
          (some user.id) ((codes "username", username) ∷ []) w))

  unfoldable pub set_up_hashed : GoString → Option GoString → World → Result Code Cookie × World
  unfolding set_up_user
  set_up_hashed username none w = (failed internal_error, w)
  set_up_hashed username (some hash) w =
      let (user, w') = db.create_admin_user username hash w in set_up_user username user w'

  unfoldable pub set_up_counted :
      GoString → GoString → Option ℕ → World → Result Code Cookie × World
  unfolding set_up_hashed
  set_up_counted username password none w = (failed internal_error, w)
  set_up_counted username password (some count) w =
      let (hash, w') = db.generate_from_password password w in
      if ltb 0 count then (failed failed_precondition, w) else set_up_hashed username hash w'

  unfoldable pub setup_admin : GoString → GoString → World → Result Code Cookie × World
  unfolding set_up_counted
  setup_admin raw_username password w =
      let username = text.trim_space raw_username in
      if is_empty username || is_empty password
      then (failed invalid_argument, w)
      else set_up_counted username password (db.count_admin_users w) w

  unfoldable pub refuse_login : GoString → Option ℕ → GoString → World → Result Code Cookie × World
  unfolding record_audit_log
  refuse_login username user_id reason w = (
    failed unauthenticated,
    record_audit_log db text secret is_secure_cookie user_id (codes "auth.login_failed") user_id
        ((codes "username", username) ∷ (codes "reason", reason) ∷ []) w,
  )

  -- A login is recorded after the session is.
  unfoldable pub log_in :
      GoString → AdminUser → Result Code GoString × World → Result Code Cookie × World
  unfolding record_audit_log
  log_in username user (failed code, w) = (failed code, w)
  log_in username user (ok token, w) = (
    ok (cookie_of token),
    record_audit_log db text secret is_secure_cookie (some user.id) (codes "auth.login")
        (some user.id) ((codes "username", username) ∷ (codes "status", codes "success") ∷ []) w,
  )

  unfoldable pub log_in_user :
      GoString → GoString → Option AdminUser → World → Result Code Cookie × World
  unfolding refuse_login log_in open_session
  log_in_user username password none w = refuse_login username none (codes "user_not_found") w
  log_in_user username password (some user) w =
      if db.compare_hash_and_password user.password_hash password
      then log_in username user (open_session user w)
      else refuse_login username (some user.id) (codes "invalid_password") w

  unfoldable pub login : GoString → GoString → World → Result Code Cookie × World
  unfolding log_in_user
  login raw_username password w =
      let username = text.trim_space raw_username in
      if is_empty username || is_empty password
      then (failed invalid_argument, w)
      else log_in_user username password (db.get_admin_user_by_username username w) w

  unfoldable pub answered_session : Result Code UserContext → Result Code GoString
  answered_session (failed code) = failed code
  answered_session (ok user) = ok user.username

  -- GetSession's answer is the user's name.
  unfoldable pub get_session : Headers → World → Result Code GoString
  unfolding check_session answered_session
  get_session headers w = answered_session (check_session db text secret is_secure_cookie headers w)
