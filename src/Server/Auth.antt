-- ===== src/Server/Auth.antt =====
-- internal/server/auth.go, with RecordAuditLogWithUser of audit.go: sessions of the administrators.
-- The JWT and bcrypt packages, net/http's cookie parser and the generated queries are parameters;
-- times are nanoseconds.
pub mod Sessions
pub mod Handlers
pub mod Accounts
pub mod Tokens
pub mod Logins
use gh_runner.Prelude.{
  ℕ, ◌+◌, Bool, true, false, ◌||◌, not, Option, none, some, [], ◌∷◌, if◌then◌else◌, ltb, ◌==◌,
}
use gh_runner.Prelude.Text.{GoString, codes, text_eq, is_empty, has_prefix, Unicode}
use gh_runner.Prelude.Dict.{Dict}
use gh_runner.Prelude.Results.{Result, ok, failed}
use gh_runner.Orchestrator.Matching.{drop_length}

-- connect.Code, as far as the handlers return it.
pub data Code : Type 0 where
  unauthenticated invalid_argument failed_precondition internal_error : Code

pub record Claims : Type 0 where
  pub user_id : ℕ
  pub username : GoString
  pub expires_at : ℕ

pub record AdminUser : Type 0 where
  pub id : ℕ
  pub username : GoString
  pub password_hash : GoString

pub record Session : Type 0 where
  pub user_id : ℕ
  pub token_hash : GoString
  pub expires_at : ℕ

pub record UserContext : Type 0 where
  pub user_id : ℕ
  pub username : GoString

-- The request's headers, as r.Cookie and header.Get read them.
pub record Headers : Type 0 where
  pub session_cookie : Option GoString
  pub authorization : GoString

-- The cookie that carries the token; it is HttpOnly and SameSite=Strict.
pub record Cookie : Type 0 where
  pub value : GoString
  pub max_age : ℕ
  pub secure : Bool

pub record AuditEntry : Type 0 where
  pub user_id : Option ℕ
  pub action : GoString
  pub resource_type : GoString
  pub resource_id : Option ℕ
  pub details : Dict GoString

-- `sign` and `parse` take the secret; the nonce of `sign` is the token's id. The world holds the
-- clock, which `parse` reads, and the database. A query's `none` or `false` is an error.
pub record AuthDatabase : Type 1 where
  pub World : Type 0
  pub now : World → ℕ
  pub read_nonce : World → Option GoString × World
  pub sign : GoString → GoString → Claims → Option GoString
  pub parse : GoString → GoString → World → Option Claims
  pub sha256_hex : GoString → GoString
  pub generate_from_password : GoString → World → Option GoString × World
  pub compare_hash_and_password : GoString → GoString → Bool
  pub count_admin_users : World → Option ℕ
  pub create_admin_user : GoString → GoString → World → Option AdminUser × World
  pub get_admin_user_by_username : GoString → World → Option AdminUser
  pub create_session : Session → World → Bool × World
  pub get_session_by_token_hash : GoString → World → Option Session
  pub create_audit_log : AuditEntry → World → World

-- SessionDuration, 24 hours.
abbrev pub session_duration : ℕ
session_duration = 86_400_000_000_000

unfoldable pub extract_session_token : Headers → GoString
unfolding has_prefix
extract_session_token h =
    let bearer =
      if has_prefix h.authorization (codes "Bearer ")
      then drop_length (codes "Bearer ") h.authorization
      else [] in
    elim h.session_cookie [ none ↦ bearer | some value ↦ if is_empty value then bearer else value ]

unfoldable pub is_public_procedure : GoString → Bool
unfolding text_eq
is_public_procedure procedure =
    text_eq procedure (codes "/supervisor.v1.AuthService/SetupAdmin")
    || text_eq procedure (codes "/supervisor.v1.AuthService/Login")
    || text_eq procedure (codes "/supervisor.v1.OnboardingService/GetOnboardingStatus")

unfoldable pub positive_id : Option ℕ → Option ℕ
positive_id none = none
positive_id (some n) = if n == 0 then none else some n

-- `secret` is the JWT secret.
module _ (db : AuthDatabase) (text : Unicode) (secret : GoString) (is_secure_cookie : Bool) where
  open db use {World}

  unfoldable pub record_audit_log : Option ℕ → GoString → Option ℕ → Dict GoString → World → World
  unfolding positive_id
  record_audit_log user_id action resource_id details w =
      db.create_audit_log
        (record {
          user_id = positive_id user_id;
          action = action;
          resource_type = codes "admin_user";
          resource_id = positive_id resource_id;
          details = details;
        })
        w

  -- The token and its expiry.
  unfoldable pub sign_with : ℕ → GoString → ℕ → Option GoString → Option (GoString × ℕ)
  sign_with user_id username expires none = none
  sign_with user_id username expires (some nonce) =
      elim (db.sign secret nonce
        (record { user_id = user_id; username = username; expires_at = expires })) [
          | none ↦ none
          | some token ↦ some (token, expires)
        ]

  unfoldable pub generate_token : ℕ → GoString → World → Option (GoString × ℕ) × World
  unfolding sign_with
  generate_token user_id username w =
      let (nonce, w') = db.read_nonce w in
      if is_empty secret
      then (none, w)
      else (sign_with user_id username (db.now w + session_duration) nonce, w')

  unfoldable pub validate_token : GoString → World → Option Claims
  validate_token token w = if is_empty secret then none else db.parse token secret w

  -- The end of the checks that authenticate and GetSession share.
  unfoldable pub checked_session : Claims → Option Session → World → Result Code UserContext
  checked_session claims none w = failed unauthenticated
  checked_session claims (some session) w =
      if ltb session.expires_at (db.now w)
      then failed unauthenticated
      else ok (record { user_id = claims.user_id; username = claims.username })

  unfoldable pub checked_claims : GoString → Option Claims → World → Result Code UserContext
  unfolding checked_session
  checked_claims token none w = failed unauthenticated
  checked_claims token (some claims) w =
      checked_session claims (db.get_session_by_token_hash (db.sha256_hex token) w) w

  unfoldable pub check_session : Headers → World → Result Code UserContext
  unfolding checked_claims validate_token extract_session_token
  check_session headers w =
      let token = extract_session_token headers in
      if is_empty token
      then failed unauthenticated
      else checked_claims token (validate_token token w) w

  unfoldable pub known : Result Code UserContext → Result Code (Option UserContext)
  known (failed code) = failed code
  known (ok user) = ok (some user)

  -- The context's user is `none` where the context is passed on as it is.
  unfoldable pub authenticate : Headers → GoString → World → Result Code (Option UserContext)
  unfolding check_session known is_public_procedure
  authenticate headers procedure w =
      if is_public_procedure procedure then ok none else known (check_session headers w)

  -- WrapUnary and WrapStreamingHandler: the handler runs when the call is authenticated.
  unfoldable pub wrap :
      {A : Type 0}
      → (Option UserContext → World → Result Code A × World)
      → Headers
      → GoString
      → World
      → Result Code A × World
  unfolding authenticate
  wrap next headers procedure w = elim (authenticate headers procedure w) [
    | failed code ↦ (failed code, w)
    | ok user ↦ next user w
  ]
