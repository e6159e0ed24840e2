-- ===== src/Database/Crypto/Readback.antt =====
-- internal/db/crypto.go: reading a stored profile after it was created.
use gh_runner.Prelude.{◌≡◌, refl, sym, ap, ◌∙◌, subst, true, Option, none, some, length, [], ◌∷◌}
use gh_runner.Prelude.Text.{GoString}
use gh_runner.Prelude.Results.{Result, ok, failed}
use gh_runner.Database.Crypto.{
  CryptoError, Cryptography, Encryptor, NullString, null, encrypt, as_column, encrypt_null_string,
  decrypt,
}
use gh_runner.Database.Crypto.RoundTrip.{IsLawful, decrypt-encrypt}
use gh_runner.Database.Crypto.Profiles.{
  ProfileColumns, AuthProfile, RawProfile, ProfileQueries, column_of, assemble, decrypted,
  encrypt_token, encrypt_columns, write_columns, answer, create_encrypted_auth_profile,
  get_decrypted_auth_profile_by_id, decrypt_profile,
}

-- The documented behaviour of the INSERT ... RETURNING query and of the look-up by id: the row
-- that is returned has the columns handed in, and is found under its id afterwards.
pub record KeepsRows (c : Cryptography) (queries : ProfileQueries c.World) : Type 0 where
  pub returned :
      (columns : ProfileColumns) (w w' : c.World) (profile : AuthProfile)
      → queries.create_auth_profile columns w ≡ (some profile, w')
      → profile.columns ≡ columns
  pub found :
      (columns : ProfileColumns) (w w' : c.World) (profile : AuthProfile)
      → queries.create_auth_profile columns w ≡ (some profile, w')
      → queries.get_auth_profile_by_id profile.id w' ≡ some profile

module _ (c : Cryptography) (laws : IsLawful c) where
  decrypt-as_column :
      (e : Encryptor) (text : GoString) (column : NullString) (w w' : c.World)
      → length e.key ≡ 32
      → (sealed : Result CryptoError GoString) → encrypt c e text w ≡ (sealed, w')
      → as_column c sealed ≡ ok column
      → decrypt c e column.string ≡ ok text
  unfolding as_column
  decrypt-as_column e text column w w' k (failed x) h made = cc
  decrypt-as_column e text column w w' k (ok s) h made =
      let made_column : record { string = s; valid = true } ≡ column = cc in
      subst (λ s. decrypt c e s ≡ ok text) (ap (λ col. NullString.string col) made_column)
        (decrypt-encrypt c laws e text s w w' k h)

  -- A credential's column gives the credential again, the empty one included.
  decrypt-encrypt_null_string :
      (e : Encryptor) (text : GoString) (column : NullString) (w : c.World)
      → length e.key ≡ 32
      → (encrypt_null_string c e (column_of text) w).0 ≡ ok column
      → decrypt c e column.string ≡ ok text
  unfolding encrypt_null_string decrypt
  decrypt-encrypt_null_string e [] column w k h =
      let made : null ≡ column = cc in
      subst (λ col. decrypt c e (NullString.string col) ≡ ok []) made refl
  decrypt-encrypt_null_string e (a ∷ text) column w k h =
      decrypt-as_column e (a ∷ text) column w (encrypt c e (a ∷ text) w).1 k
        (encrypt c e (a ∷ text) w).0 refl h

  -- The columns read back to the raw credentials.
  abbrev ReadsBack : Encryptor → RawProfile → ProfileColumns → Type 0
  ReadsBack e raw columns =
      (decrypt c e columns.private_key_encrypted.string ≡ ok raw.private_key)
      × (decrypt c e columns.token_encrypted.string ≡ ok raw.token)

  module _ (queries : ProfileQueries c.World) (e : Encryptor) (k : length e.key ≡ 32) where
    assemble-ReadsBack :
        (raw : RawProfile) (key_column : NullString) (columns : ProfileColumns)
        (sealed : Result CryptoError NullString)
        → decrypt c e key_column.string ≡ ok raw.private_key
        → ((column : NullString) → sealed ≡ ok column → decrypt c e column.string ≡ ok raw.token)
        → assemble raw key_column sealed ≡ ok columns
        → ReadsBack e raw columns
    unfolding assemble
    assemble-ReadsBack raw key_column columns (failed x) key_reads reads h = cc
    assemble-ReadsBack raw key_column columns (ok token_column) key_reads reads h =
        let made : record {
          name = raw.name;
          auth_method = raw.auth_method;
          app_id = raw.app_id;
          private_key_encrypted = key_column;
          token_encrypted = token_column;
        }
            ≡ columns =
          cc in
        subst (ReadsBack e raw) made (key_reads, reads token_column refl)

    encrypt_token-ReadsBack :
        (raw : RawProfile) (columns : ProfileColumns) (key : Result CryptoError NullString)
        (w : c.World)
        → ((column : NullString) → key ≡ ok column → decrypt c e column.string ≡ ok raw.private_key)
        → (encrypt_token c queries e raw key w).0 ≡ ok columns
        → ReadsBack e raw columns
    unfolding encrypt_token
    encrypt_token-ReadsBack raw columns (failed x) w reads h = cc
    encrypt_token-ReadsBack raw columns (ok key_column) w reads h =
        assemble-ReadsBack raw key_column columns
          (encrypt_null_string c e (column_of raw.token) w).0 (reads key_column refl)
          (λ column made. decrypt-encrypt_null_string e raw.token column w k made) h

    encrypt_columns-ReadsBack :
        (raw : RawProfile) (columns : ProfileColumns) (w : c.World)
        → (encrypt_columns c queries e raw w).0 ≡ ok columns
        → ReadsBack e raw columns
    unfolding encrypt_columns
    encrypt_columns-ReadsBack raw columns w =
        encrypt_token-ReadsBack raw columns
          (encrypt_null_string c e (column_of raw.private_key) w).0
          (encrypt_null_string c e (column_of raw.private_key) w).1
          (λ column made. decrypt-encrypt_null_string e raw.private_key column w k made)

    decrypt_profile-ReadsBack :
        (raw : RawProfile) (profile : AuthProfile)
        → ReadsBack e raw profile.columns
        → decrypt_profile c queries e (some profile)
          ≡ ok (record { profile = profile; private_key = raw.private_key; token = raw.token })
    unfolding decrypt_profile decrypted
    decrypt_profile-ReadsBack raw profile (key_reads, token_reads) = rw (key_reads, token_reads)

  answer-eq-ok :
      (row : Option AuthProfile) (profile : AuthProfile)
      → answer row ≡ ok profile
      → row ≡ some profile
  unfolding answer
  answer-eq-ok none profile h = cc
  answer-eq-ok (some row) profile h = cc

  module _ (queries : ProfileQueries c.World) (rows : KeepsRows c queries) (e : Encryptor)
      (k : length e.key ≡ 32) where
    write_columns-reads :
        (raw : RawProfile) (columns : Result CryptoError ProfileColumns) (w w' : c.World)
        (profile : AuthProfile)
        → ((made : ProfileColumns) → columns ≡ ok made → ReadsBack e raw made)
        → write_columns c queries queries.create_auth_profile columns w ≡ (ok profile, w')
        → get_decrypted_auth_profile_by_id c queries (some e) profile.id w'
          ≡ ok (record { profile = profile; private_key = raw.private_key; token = raw.token })
    unfolding write_columns get_decrypted_auth_profile_by_id
    write_columns-reads raw (failed x) w w' profile reads h = cc
    write_columns-reads raw (ok columns) w w' profile reads h =
        let row : Option AuthProfile × c.World = queries.create_auth_profile columns w in
        let first : row.0 ≡ some profile = answer-eq-ok row.0 profile (ap (λ r. r.0) h) in
        let written : row ≡ (some profile, w') =
          ap (λ o. (o, row.1)) first ∙ ap (λ z. (some profile, z)) (ap (λ r. r.1) h) in
        rw (rows.found columns w w' profile written) (
          decrypt_profile-ReadsBack queries e k raw profile (
            subst (ReadsBack e raw) (sym (rows.returned columns w w' profile written))
              (reads columns refl)))

-- With the laws of the libraries, and of the two queries, a profile that has been created with a
-- 32-byte key is read back by its id with the credentials that were handed in, empty ones included.
pub get_decrypted_auth_profile_by_id-create_encrypted_auth_profile :
    (c : Cryptography)
    → IsLawful c
    → (queries : ProfileQueries c.World) → KeepsRows c queries
    → (e : Encryptor) (raw : RawProfile) (profile : AuthProfile) (w w' : c.World)
    → length e.key ≡ 32
    → create_encrypted_auth_profile c queries (some e) raw w ≡ (ok profile, w')
    → get_decrypted_auth_profile_by_id c queries (some e) profile.id w'
      ≡ ok (record { profile = profile; private_key = raw.private_key; token = raw.token })
unfolding create_encrypted_auth_profile
get_decrypted_auth_profile_by_id-create_encrypted_auth_profile c laws queries rows e raw profile w
      w' k =
    write_columns-reads c laws queries rows e k raw (encrypt_columns c queries e raw w).0
      (encrypt_columns c queries e raw w).1 w' profile
      (λ columns made. encrypt_columns-ReadsBack c laws queries e k raw columns w made)
