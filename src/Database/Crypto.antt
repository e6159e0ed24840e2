-- ===== src/Database/Crypto.antt =====
-- internal/db/crypto.go: the encrypted columns of auth_profiles. AES-GCM, base64, the source of
-- randomness and the generated queries are parameters.
pub mod Profiles
pub mod RoundTrip
pub mod Authentic
pub mod Readback
use gh_runner.Prelude.{
  ℕ, ◌+◌, ◌==◌, Bool, true, false, not, ◌||◌, Option, none, some, if◌then◌else◌, ltb, length, take,
  drop, [], ◌++◌,
}
use gh_runner.Prelude.Text.{GoString, is_empty}
use gh_runner.Prelude.Results.{Result, ok, failed}

-- `authentication_failed` is ErrAuthenticationFailed; a cipher error is one of crypto/aes or
-- crypto/cipher, a nonce error one of crypto/rand.
pub data CryptoError : Type 0 where
  invalid_key invalid_ciphertext authentication_failed no_encryptor cipher_error nonce_error
        query_error :
      CryptoError

-- crypto/aes with crypto/cipher's GCM, encoding/base64 and crypto/rand. `new_gcm` says whether a
-- key gives a cipher; `seal` and `unseal` take the key, the nonce and the text.
pub record Cryptography : Type 1 where
  pub World : Type 0
  pub new_gcm : GoString → Bool
  pub nonce_size : ℕ
  pub overhead : ℕ
  pub seal : GoString → GoString → GoString → GoString
  pub unseal : GoString → GoString → GoString → Option GoString
  pub encode : GoString → GoString
  pub decode : GoString → Option GoString
  pub read_random : ℕ → World → Option GoString × World

pub record Encryptor : Type 0 where
  pub key : GoString

-- sql.NullString.
pub record NullString : Type 0 where
  pub string : GoString
  pub valid : Bool

unfoldable pub new_encryptor : GoString → Result CryptoError Encryptor
new_encryptor key = if not (length key == 32) then failed invalid_key else ok (record { key = key })

abbrev pub null : NullString
null = record { string = []; valid = false }

module _ (c : Cryptography) where
  open c use {World}

  abbrev pub Fallible : Type 0 → Type 0
  Fallible A = World → Result CryptoError A × World

  unfoldable pub encrypt_with : GoString → GoString → Option GoString → Result CryptoError GoString
  encrypt_with key plaintext none = failed nonce_error
  encrypt_with key plaintext (some nonce) = ok (c.encode (nonce ++ c.seal key nonce plaintext))

  unfoldable pub encrypt : Encryptor → GoString → Fallible GoString
  unfolding encrypt_with
  encrypt e plaintext w =
      let (nonce, w') = c.read_random c.nonce_size w in
      if is_empty plaintext
      then (ok [], w)
      else if not (c.new_gcm e.key)
      then (failed cipher_error, w)
      else (encrypt_with e.key plaintext nonce, w')

  unfoldable pub opened : Option GoString → Result CryptoError GoString
  opened none = failed authentication_failed
  opened (some plaintext) = ok plaintext

  unfoldable pub decrypt_data : Encryptor → Option GoString → Result CryptoError GoString
  unfolding opened
  decrypt_data e none = failed invalid_ciphertext
  decrypt_data e (some bytes) =
      if not (c.new_gcm e.key)
      then failed cipher_error
      else if ltb (length bytes) (c.nonce_size + c.overhead)
      then failed invalid_ciphertext
      else opened (c.unseal e.key (take c.nonce_size bytes) (drop c.nonce_size bytes))

  unfoldable pub decrypt : Encryptor → GoString → Result CryptoError GoString
  unfolding decrypt_data
  decrypt e encoded = if is_empty encoded then ok [] else decrypt_data e (c.decode encoded)

  unfoldable pub as_column : Result CryptoError GoString → Result CryptoError NullString
  as_column (ok s) = ok (record { string = s; valid = true })
  as_column (failed e) = failed e

  unfoldable pub encrypt_null_string : Encryptor → NullString → Fallible NullString
  unfolding encrypt as_column
  encrypt_null_string e ns w =
      let (sealed, w') = encrypt e ns.string w in
      if not ns.valid || is_empty ns.string then (ok null, w) else (as_column sealed, w')

  unfoldable pub decrypt_null_string : Encryptor → NullString → Result CryptoError NullString
  unfolding decrypt as_column
  decrypt_null_string e ns =
      if not ns.valid || is_empty ns.string then ok null else as_column (decrypt e ns.string)

  -- The helpers that take a bare key.
  unfoldable pub encrypt_with_key : GoString → GoString → Fallible GoString
  unfolding new_encryptor encrypt
  encrypt_with_key key plaintext w = elim (new_encryptor key) [
    | failed e ↦ (failed e, w)
    | ok e ↦ encrypt e plaintext w
  ]

  unfoldable pub decrypt_with_key : GoString → GoString → Result CryptoError GoString
  unfolding new_encryptor decrypt
  decrypt_with_key key ciphertext = elim (new_encryptor key) [
    | failed e ↦ failed e
    | ok e ↦ decrypt e ciphertext
  ]
