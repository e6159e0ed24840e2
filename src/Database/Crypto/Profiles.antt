-- ===== src/Database/Crypto/Profiles.antt =====
-- internal/db/crypto.go: the queries on auth_profiles that encrypt and decrypt the credentials.
use gh_runner.Prelude.{ℕ, not, Option, none, some}
use gh_runner.Prelude.Text.{GoString, is_empty}
use gh_runner.Prelude.Results.{Result, ok, failed}
use gh_runner.Database.Crypto.{
  CryptoError, no_encryptor, query_error, Cryptography, Encryptor, NullString, encrypt_null_string,
  decrypt,
}

-- The columns that CreateAuthProfileParams and UpdateAuthProfileParams set.
pub record ProfileColumns : Type 0 where
  pub name : GoString
  pub auth_method : GoString
  pub app_id : Option ℕ
  pub private_key_encrypted : NullString
  pub token_encrypted : NullString

pub record AuthProfile : Type 0 where
  pub id : ℕ
  pub columns : ProfileColumns

pub record DecryptedAuthProfile : Type 0 where
  pub profile : AuthProfile
  pub private_key : GoString
  pub token : GoString

-- What the caller hands to the two writing calls: the credentials in the clear.
pub record RawProfile : Type 0 where
  pub name : GoString
  pub auth_method : GoString
  pub app_id : Option ℕ
  pub private_key : GoString
  pub token : GoString

-- The generated queries on the table; `none` is an error.
pub record ProfileQueries (W : Type 0) : Type 0 where
  pub create_auth_profile : ProfileColumns → W → Option AuthProfile × W
  pub update_auth_profile : ℕ → ProfileColumns → W → Option AuthProfile × W
  pub get_auth_profile_by_id : ℕ → W → Option AuthProfile
  pub get_auth_profile_by_name : GoString → W → Option AuthProfile

unfoldable pub answer : {A : Type 0} → Option A → Result CryptoError A
answer none = failed query_error
answer (some a) = ok a

abbrev pub column_of : GoString → NullString
column_of s = record { string = s; valid = not (is_empty s) }

-- The columns of the row, when both credentials could be encrypted; the private key is first.
unfoldable pub assemble :
    RawProfile → NullString → Result CryptoError NullString → Result CryptoError ProfileColumns
assemble raw key_column (failed x) = failed x
assemble raw key_column (ok token_column) = ok (record {
  name = raw.name;
  auth_method = raw.auth_method;
  app_id = raw.app_id;
  private_key_encrypted = key_column;
  token_encrypted = token_column;
})

-- The private key's error is the one returned when both fail.
unfoldable pub decrypted :
    AuthProfile
    → Result CryptoError GoString
    → Result CryptoError GoString
    → Result CryptoError DecryptedAuthProfile
decrypted profile (failed x) token = failed x
decrypted profile (ok private_key) (failed x) = failed x
decrypted profile (ok private_key) (ok token) =
    ok (record { profile = profile; private_key = private_key; token = token })

module _ (c : Cryptography) (queries : ProfileQueries c.World) where
  open c use {World}

  unfoldable pub encrypt_token :
      Encryptor
      → RawProfile
      → Result CryptoError NullString
      → World
      → Result CryptoError ProfileColumns × World
  unfolding encrypt_null_string assemble
  encrypt_token e raw (failed x) w = (failed x, w)
  encrypt_token e raw (ok key_column) w =
      let (sealed, w') = encrypt_null_string c e (column_of raw.token) w in
      (assemble raw key_column sealed, w')

  unfoldable pub encrypt_columns :
      Encryptor → RawProfile → World → Result CryptoError ProfileColumns × World
  unfolding encrypt_token
  encrypt_columns e raw w =
      let (sealed, w') = encrypt_null_string c e (column_of raw.private_key) w in
      encrypt_token e raw sealed w'

  -- The row is written when both columns are.
  unfoldable pub write_columns :
      (ProfileColumns → World → Option AuthProfile × World)
      → Result CryptoError ProfileColumns
      → World
      → Result CryptoError AuthProfile × World
  unfolding answer
  write_columns query (failed x) w = (failed x, w)
  write_columns query (ok columns) w = let (row, w') = query columns w in (answer row, w')

  unfoldable pub create_encrypted_auth_profile :
      Option Encryptor → RawProfile → World → Result CryptoError AuthProfile × World
  unfolding encrypt_columns write_columns
  create_encrypted_auth_profile none raw w = (failed no_encryptor, w)
  create_encrypted_auth_profile (some e) raw w =
      let (columns, w') = encrypt_columns e raw w in
      write_columns queries.create_auth_profile columns w'

  unfoldable pub update_encrypted_auth_profile :
      Option Encryptor → ℕ → RawProfile → World → Result CryptoError AuthProfile × World
  unfolding encrypt_columns write_columns
  update_encrypted_auth_profile none id raw w = (failed no_encryptor, w)
  update_encrypted_auth_profile (some e) id raw w =
      let (columns, w') = encrypt_columns e raw w in
      write_columns (queries.update_auth_profile id) columns w'

  unfoldable pub decrypt_profile :
      Encryptor → Option AuthProfile → Result CryptoError DecryptedAuthProfile
  unfolding decrypt decrypted
  decrypt_profile e none = failed query_error
  decrypt_profile e (some profile) =
      decrypted profile (decrypt c e profile.columns.private_key_encrypted.string)
        (decrypt c e profile.columns.token_encrypted.string)

  unfoldable pub get_decrypted_auth_profile_by_id :
      Option Encryptor → ℕ → World → Result CryptoError DecryptedAuthProfile
  unfolding decrypt_profile
  get_decrypted_auth_profile_by_id none id w = failed no_encryptor
  get_decrypted_auth_profile_by_id (some e) id w =
      decrypt_profile e (queries.get_auth_profile_by_id id w)

  unfoldable pub get_decrypted_auth_profile_by_name :
      Option Encryptor → GoString → World → Result CryptoError DecryptedAuthProfile
  unfolding decrypt_profile
  get_decrypted_auth_profile_by_name none name w = failed no_encryptor
  get_decrypted_auth_profile_by_name (some e) name w =
      decrypt_profile e (queries.get_auth_profile_by_name name w)
