-- ===== src/Server/Auth/Accounts.antt =====
-- internal/server/auth.go: the first administrator.
use gh_runner.Prelude.{
  ℕ, suc, ◌≡◌, refl, sym, ap, ◌∙◌, inl, inr, Bool, true, false, ◌||◌, Option, none, some, [], ◌∷◌,
  ltb, Bool-cases, Option-cases, arith,
}
use gh_runner.Prelude.Text.{GoString, codes, is_empty, Unicode}
use gh_runner.Prelude.Dict.{Dict}
use gh_runner.Prelude.Results.{Result, ok, failed}
use gh_runner.Server.Auth.{
  Code, failed_precondition, invalid_argument, internal_error, AdminUser, Session, Cookie,
  AuditEntry, AuthDatabase, generate_token, record_audit_log,
}
use gh_runner.Server.Auth.Handlers.{
  record_session, open_session, set_cookie, set_up_user, set_up_hashed, set_up_counted, setup_admin,
}

-- The documented behaviour of the table of administrators, which only grows.
pub record CountsAdmins (db : AuthDatabase) : Type 0 where
  pub added :
      (username hash : GoString) (w : db.World) (user : AdminUser)
      → (db.create_admin_user username hash w).0 ≡ some user
      → (n : ℕ) × (db.count_admin_users (db.create_admin_user username hash w).1 ≡ some (suc n))
  pub audit_log :
      (entry : AuditEntry) (w : db.World)
      → db.count_admin_users (db.create_audit_log entry w) ≡ db.count_admin_users w
  pub nonce : (w : db.World) → db.count_admin_users (db.read_nonce w).1 ≡ db.count_admin_users w
  pub session :
      (s : Session) (w : db.World)
      → db.count_admin_users (db.create_session s w).1 ≡ db.count_admin_users w

module _ (db : AuthDatabase) (text : Unicode) (secret : GoString) (is_secure_cookie : Bool) where
  -- A number of administrators that is not zero.
  abbrev HasAdmin : db.World → Type 0
  HasAdmin w = (n : ℕ) × (db.count_admin_users w ≡ some (suc n))

  module _ (counts : CountsAdmins db) where
    count-record_session :
        (id : ℕ) (o : Option (GoString × ℕ)) (w : db.World)
        → db.count_admin_users (record_session db text secret is_secure_cookie id o w).1
          ≡ db.count_admin_users w
    unfolding record_session
    count-record_session id none w = refl
    count-record_session id (some (token, expires)) w =
        let session : Session = record {
          user_id = id;
          token_hash = db.sha256_hex token;
          expires_at = expires;
        } in
        elim (Bool-cases (db.create_session session w).0) [
          | inl done ↦ rw (done, record_session) (counts.session session w)
          | inr not_done ↦ rw (not_done, record_session) (counts.session session w)
        ]

    count-generate_token :
        (id : ℕ) (username : GoString) (w : db.World)
        → db.count_admin_users (generate_token db text secret is_secure_cookie id username w).1
          ≡ db.count_admin_users w
    unfolding generate_token
    count-generate_token id username w = elim (Bool-cases (is_empty secret)) [
      | inl unset ↦ rw (unset, generate_token) refl
      | inr set ↦ rw (set, generate_token) (counts.nonce w)
    ]

    world-set_cookie :
        (r : Result Code GoString × db.World)
        → (set_cookie db text secret is_secure_cookie r).1 ≡ r.1
    unfolding set_cookie
    world-set_cookie (failed code, w) = refl
    world-set_cookie (ok token, w) = refl

    count-record_audit_log :
        (uid : Option ℕ) (action : GoString) (rid : Option ℕ) (details : Dict GoString)
        (w : db.World)
        → db.count_admin_users
            (record_audit_log db text secret is_secure_cookie uid action rid details w)
          ≡ db.count_admin_users w
    unfolding record_audit_log
    count-record_audit_log uid action rid details w = counts.audit_log _ w

    count-open_session :
        (user : AdminUser) (w : db.World)
        → db.count_admin_users (open_session db text secret is_secure_cookie user w).1
          ≡ db.count_admin_users w
    unfolding open_session
    count-open_session user w =
        let token = generate_token db text secret is_secure_cookie user.id user.username w in
        count-record_session user.id token.0 token.1 ∙ count-generate_token user.id user.username w

    count-set_up_user :
        (username : GoString) (user : AdminUser) (w : db.World)
        → db.count_admin_users
            (set_up_user db text secret is_secure_cookie username (some user) w).1
          ≡ db.count_admin_users w
    unfolding set_up_user
    count-set_up_user username user w =
        let logged : db.World =
          record_audit_log db text secret is_secure_cookie (some user.id) (codes "auth.setup_admin")
            (some user.id) ((codes "username", username) ∷ []) w in
        ap (λ v. db.count_admin_users v)
          (world-set_cookie (open_session db text secret is_secure_cookie user logged))
        ∙ (count-open_session user logged
            ∙ count-record_audit_log (some user.id) (codes "auth.setup_admin") (some user.id)
                ((codes "username", username) ∷ []) w)

    set_up_hashed-HasAdmin :
        (username : GoString) (hash : Option GoString) (w w' : db.World) (cookie : Cookie)
        → set_up_hashed db text secret is_secure_cookie username hash w ≡ (ok cookie, w')
        → HasAdmin w'
    unfolding set_up_hashed set_up_user
    set_up_hashed-HasAdmin username none w w' cookie h = cc
    set_up_hashed-HasAdmin username (some hash) w w' cookie h =
        elim (Option-cases (db.create_admin_user username hash w).0) [
          | inl refused ↦
              let never : (failed internal_error, (db.create_admin_user username hash w).1)
                  ≡ (ok cookie, w') =
                (rw (refused, set_up_hashed) at h) in
              cc
          | inr (user, made) ↦
              let count = counts.added username hash w user made in
              let finished : set_up_user db text secret is_secure_cookie username (some user)
                    (db.create_admin_user username hash w).1
                  ≡ (ok cookie, w') =
                (rw (made, set_up_hashed) at h) in
              (
                count.0,
                ap (λ r. db.count_admin_users r.1) (sym finished)
                    ∙ (count-set_up_user username user (db.create_admin_user username hash w).1
                        ∙ count.1),
              )
        ]

    set_up_counted-HasAdmin :
        (username password : GoString) (count : Option ℕ) (w w' : db.World) (cookie : Cookie)
        → set_up_counted db text secret is_secure_cookie username password count w ≡ (ok cookie, w')
        → HasAdmin w'
    unfolding set_up_counted
    set_up_counted-HasAdmin username password none w w' cookie h = cc
    set_up_counted-HasAdmin username password (some n) w w' cookie h = elim (Bool-cases (ltb 0 n)) [
      | inl present ↦
          let never : (failed failed_precondition, w) ≡ (ok cookie, w') =
            (rw (present, set_up_counted) at h) in
          cc
      | inr absent ↦
          set_up_hashed-HasAdmin username (db.generate_from_password password w).0
            (db.generate_from_password password w).1 w' cookie (rw (absent, set_up_counted) at h)
    ]

    setup_admin-HasAdmin :
        (username password : GoString) (w w' : db.World) (cookie : Cookie)
        → setup_admin db text secret is_secure_cookie username password w ≡ (ok cookie, w')
        → HasAdmin w'
    unfolding setup_admin
    setup_admin-HasAdmin username password w w' cookie h =
        elim (Bool-cases (is_empty (text.trim_space username) || is_empty password)) [
          | inl missing ↦
              let never : (failed invalid_argument, w) ≡ (ok cookie, w') =
                (rw (missing, setup_admin) at h) in
              cc
          | inr given ↦
              set_up_counted-HasAdmin (text.trim_space username) password (db.count_admin_users w) w
                w' cookie (rw (given, setup_admin) at h)
        ]

  positive : (n : ℕ) → ltb 0 (suc n) ≡ true
  positive n = ground arith

  set_up_counted-suc :
      (username password : GoString) (n : ℕ) (w : db.World)
      → set_up_counted db text secret is_secure_cookie username password (some (suc n)) w
        ≡ (failed failed_precondition, w)
  unfolding set_up_counted
  set_up_counted-suc username password n w = rw (positive n, set_up_counted) refl

  -- With the laws of the table of administrators, once the first administrator has been set up, a
  -- further call with a name and a password is refused as a failed precondition, and changes
  -- nothing.
  pub setup_admin-setup_admin :
      CountsAdmins db
      → (username password other_username other_password : GoString) (w w' : db.World)
        (cookie : Cookie)
      → setup_admin db text secret is_secure_cookie username password w ≡ (ok cookie, w')
      → (is_empty (text.trim_space other_username) || is_empty other_password) ≡ false
      → setup_admin db text secret is_secure_cookie other_username other_password w'
        ≡ (failed failed_precondition, w')
  unfolding setup_admin
  setup_admin-setup_admin counts username password other_username other_password w w' cookie h
        given =
      let (n, has) = setup_admin-HasAdmin counts username password w w' cookie h in
      rw (given, has, setup_admin)
        (set_up_counted-suc (text.trim_space other_username) other_password n w')
