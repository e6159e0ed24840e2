-- ===== src/Examples/Accounts.antt =====
-- The theorems on sessions and accounts at concrete inputs: a database in memory, whose tokens spell
-- their claims out.
use gh_runner.Prelude.{
  ℕ, ◌+◌, ◌≤◌, ◌≡◌, refl, subst, ◌⊎◌, true, false, Option, none, some, List, [], ◌∷◌, if◌then◌else◌,
  ltb, length, arith,
}
use gh_runner.Prelude.Text.{GoString, codes, text_eq, text_eq_refl, is_empty}
use gh_runner.Prelude.Results.{Result, ok, failed}
use gh_runner.Server.Auth.{
  Code, unauthenticated, failed_precondition, Claims, AdminUser, Session, UserContext, Headers,
  Cookie, AuthDatabase, is_public_procedure, authenticate, wrap,
}
use gh_runner.Server.Auth.Handlers.{setup_admin, login}
use gh_runner.Server.Auth.Sessions.{HasSession, wrap-HasSession}
use gh_runner.Server.Auth.Accounts.{CountsAdmins, setup_admin-setup_admin}
use gh_runner.Server.Auth.Tokens.{KeepsSessions}
use gh_runner.Server.Auth.Logins.{authenticate-login}
use gh_runner.Examples.{ascii}

record Office : Type 0 where
  admins : List AdminUser
  sessions : List Session
  time : ℕ

abbrev find_session : GoString → List Session → Option Session
find_session hash [] = none
find_session hash (s ∷ ss) = if text_eq s.token_hash hash then some s else find_session hash ss

abbrev find_admin : GoString → List AdminUser → Option AdminUser
find_admin name [] = none
find_admin name (u ∷ us) = if text_eq u.username name then some u else find_admin name us

abbrev read_token : GoString → ℕ → Option Claims
read_token (tag ∷ id ∷ expires ∷ name) now =
    if ltb now expires
    then some (record { user_id = id; username = name; expires_at = expires })
    else none
read_token _ now = none

abbrev new_admin : GoString → GoString → AdminUser
new_admin username hash = record { id = 1; username = username; password_hash = hash }

abbrev office_database : AuthDatabase
office_database = record {
  World = Office;
  now = λ w. w.time;
  read_nonce = λ w. (some (codes "n"), w);
  sign = λ secret nonce claims. some (1 ∷ claims.user_id ∷ claims.expires_at ∷ claims.username);
  parse = λ token secret w. read_token token w.time;
  sha256_hex = λ token. token;
  generate_from_password = λ password w. (some password, w);
  compare_hash_and_password = λ hash password. text_eq hash password;
  count_admin_users = λ w. some (length w.admins);
  create_admin_user = λ username hash w.
      (some (new_admin username hash), record w { admins = new_admin username hash ∷ w.admins });
  get_admin_user_by_username = λ username w. find_admin username w.admins;
  create_session = λ session w. (true, record w { sessions = session ∷ w.sessions });
  get_session_by_token_hash = λ hash w. find_session hash w.sessions;
  create_audit_log = λ entry w. w;
}

read_token-signed :
    (id expires now : ℕ) (name : GoString)
    → now + 1_000_000_000 ≤ expires
    → read_token (1 ∷ id ∷ expires ∷ name) now
      ≡ some (record { user_id = id; username = name; expires_at = expires })
read_token-signed id expires now name h = ground arith

find_session-first : (s : Session) (ss : List Session) → find_session s.token_hash (s ∷ ss) ≡ some s
find_session-first s ss = rw (text_eq_refl s.token_hash) refl

office-KeepsSessions : KeepsSessions office_database
office-KeepsSessions = record {
  parse-sign = λ secret nonce token claims w signed early.
      let same : 1 ∷ claims.user_id ∷ claims.expires_at ∷ claims.username ≡ token = cc in
      (
        claims,
        subst (λ t. read_token t w.time ≡ some claims) same
            (read_token-signed claims.user_id claims.expires_at w.time claims.username early),
        refl,
        refl,
      );
  signed = λ secret nonce token claims signed.
      let same : 1 ∷ claims.user_id ∷ claims.expires_at ∷ claims.username ≡ token = cc in
      subst (λ t. is_empty t ≡ false) same refl;
  created = λ session w done. find_session-first session w.sessions;
  logged = λ hash entry w. refl;
}

office-CountsAdmins : CountsAdmins office_database
office-CountsAdmins = record {
  added = λ username hash w user made. (length w.admins, refl);
  audit_log = λ entry w. refl;
  nonce = λ w. refl;
  session = λ s w. refl;
}

abbrev secret : GoString
secret = codes "jwt"

abbrev root : AdminUser
root = new_admin (codes "root") (codes "pw")

abbrev open_office : Office
open_office = record { admins = root ∷ []; sessions = []; time = 5 }

-- The token expires a day after the login.
abbrev root_token : GoString
root_token = 1 ∷ 1 ∷ 86_400_000_000_005 ∷ codes "root"

abbrev root_cookie : Cookie
root_cookie = record { value = root_token; max_age = 86_400; secure = true }

abbrev root_session : Session
root_session = record { user_id = 1; token_hash = root_token; expires_at = 86_400_000_000_005 }

abbrev busy_office : Office
busy_office = record open_office { sessions = root_session ∷ [] }

abbrev later_office : Office
later_office = record busy_office { time = 3_000_000_000 }

abbrev root_headers : Headers
root_headers = record { session_cookie = some root_token; authorization = [] }

abbrev list_pools : GoString
list_pools = codes "/supervisor.v1.PoolService/ListPools"

is_protected : is_public_procedure list_pools ≡ false
unfolding is_public_procedure
is_protected = refl

logs_in :
    login office_database ascii secret true (codes "root") (codes "pw") open_office
    ≡ (ok root_cookie, busy_office)
unfolding login text_eq
logs_in = refl

authenticate-login_example :
    (user : AdminUser) × (find_admin (codes "root") (root ∷ []) ≡ some user)
    × (text_eq user.password_hash (codes "pw") ≡ true)
    × (authenticate office_database ascii secret true root_headers list_pools later_office
        ≡ ok (some (record { user_id = user.id; username = user.username })))
authenticate-login_example =
    authenticate-login office_database ascii secret true office-KeepsSessions (codes "root")
      (codes "pw") list_pools open_office busy_office later_office root_cookie root_headers logs_in
      is_protected refl (λ hash. refl) (omega arith)

abbrev empty_office : Office
empty_office = record open_office { admins = [] }

sets_up :
    setup_admin office_database ascii secret true (codes "root") (codes "pw") empty_office
    ≡ (ok root_cookie, busy_office)
unfolding setup_admin text_eq
sets_up = refl

setup_admin-setup_admin_example :
    setup_admin office_database ascii secret true (codes "eve") (codes "x") busy_office
    ≡ (failed failed_precondition, busy_office)
setup_admin-setup_admin_example =
    setup_admin-setup_admin office_database ascii secret true office-CountsAdmins (codes "root")
      (codes "pw") (codes "eve") (codes "x") empty_office busy_office root_cookie sets_up refl

-- A handler that answers with the time.
abbrev tell_time : Option UserContext → Office → Result Code ℕ × Office
tell_time user w = (ok w.time, w)

wrap-HasSession_example :
    ((user : UserContext) × HasSession office_database ascii secret true root_headers later_office
        user
      × (wrap office_database ascii secret true tell_time root_headers list_pools later_office
          ≡ tell_time (some user) later_office))
    ⊎ (((user : UserContext)
          → HasSession office_database ascii secret true root_headers later_office user
          → ⊥)
        × (wrap office_database ascii secret true tell_time root_headers list_pools later_office
            ≡ (failed unauthenticated, later_office)))
wrap-HasSession_example =
    wrap-HasSession office_database ascii secret true tell_time root_headers list_pools later_office
      is_protected
