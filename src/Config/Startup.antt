-- ===== src/Config/Startup.antt =====
-- internal/config, internal/keys and internal/db: the keys of a loaded configuration.
use gh_runner.Prelude.{
  ℕ, ◌≡◌, refl, sym, ap, ◌∙◌, Bool, true, false, ◌||◌, not, Option, none, some, [], ◌∷◌,
  if◌then◌else◌, ltb, ◌==◌, length, arith,
}
use gh_runner.Prelude.Text.{GoString, codes, is_empty, Unicode}
use gh_runner.Prelude.Integers.{is_not_positive}
use gh_runner.Prelude.Results.{Result, ok}
use gh_runner.Config.{
  Config, ConfigError, is_log_level, exceeds, validate_db_encryption_key, validate, normalize,
  checked, load_merged, Derived, KeyError, both_derived, derive,
}
use gh_runner.Database.Crypto.{Cryptography, Encryptor, new_encryptor, encrypt, decrypt}
use gh_runner.Database.Crypto.RoundTrip.{IsLawful, decrypt-encrypt}

-- RFC 5869 gives as many bytes as are asked for, up to 255 hash lengths.
abbrev pub IsHkdf : (GoString → GoString → ℕ → Option GoString) → Type 0
IsHkdf hkdf =
    (key label : GoString) → (out : GoString) × (hkdf key label 32 ≡ some out) × (length out ≡ 32)

passed :
    (b : Bool) (e : ConfigError) (rest : Option ConfigError)
    → (if b then some e else rest) ≡ none
    → rest ≡ none
passed true e rest h = cc
passed false e rest h = h

validate-key : (c : Config) → validate c ≡ none → validate_db_encryption_key c ≡ none
unfolding validate
validate-key c h = passed (is_not_positive c.backup_retention_count) _ _ (
    passed (is_not_positive c.backup_interval_hours) _ _ (
      passed (is_empty c.docker_host) _ _ (
        passed (is_empty c.db_path) _ _ (
          passed (is_empty c.data_dir) _ _ (
            passed (is_not_positive c.port || exceeds 65_535 c.port) _ _
              (passed (not (is_log_level c.log_level)) _ _ h))))))

validate-strong : (c : Config) → validate c ≡ none → ltb (length c.db_encryption_key) 32 ≡ false
unfolding validate_db_encryption_key
validate-strong c h = ground (arith, validate-key c h)

is_thirty_two : (n : ℕ) → n ≡ 32 → (n == 32) ≡ true
is_thirty_two n h = ground arith

new_encryptor-accepts :
    (key : GoString) → length key ≡ 32 → new_encryptor key ≡ ok (record { key = key })
unfolding new_encryptor
new_encryptor-accepts key h = rw (is_thirty_two (length key) h) refl

not_empty : (s : GoString) → length s ≡ 32 → is_empty s ≡ false
not_empty [] h = ground arith
not_empty (a ∷ s) h = refl

-- The secrets derived from a key are there, and start the server and the database.
abbrev pub StartsWith : (c : Cryptography) → Result KeyError Derived → Type 0
StartsWith c r =
    (d : Derived) × (r ≡ ok d)
    × (is_empty d.jwt_signing_secret ≡ false)
    × ((e : Encryptor) × (new_encryptor d.db_encryption_key ≡ ok e)
        × ((text sealed : GoString) (w w' : c.World)
            → encrypt c e text w ≡ (ok sealed, w')
            → decrypt c e sealed ≡ ok text))

both_derived-StartsWith :
    (c : Cryptography)
    → IsLawful c
    → (key jwt : GoString) → length key ≡ 32
    → length jwt ≡ 32
    → StartsWith c (both_derived (some key) (some jwt))
unfolding both_derived
both_derived-StartsWith c laws key jwt k j = (
  record { db_encryption_key = key; jwt_signing_secret = jwt },
  refl,
  not_empty jwt j,
  (
    record { key = key },
    new_encryptor-accepts key k,
    λ text sealed w w' h. decrypt-encrypt c laws (record { key = key }) text sealed w w' k h,
  ),
)

derive-StartsWith :
    (c : Cryptography)
    → IsLawful c
    → (hkdf : GoString → GoString → ℕ → Option GoString) → IsHkdf hkdf
    → (master_key : GoString) → ltb (length master_key) 32 ≡ false
    → StartsWith c (derive hkdf master_key)
unfolding derive
derive-StartsWith c laws hkdf expands master_key strong =
    let (key, is_key, k) =
      expands master_key (codes "gh-runner/supervisor/db-encryption/aes-256/v1") in
    let (jwt, is_jwt, j) =
      expands master_key (codes "gh-runner/supervisor/jwt-signing/hmac-sha256/v1") in
    rw (strong, is_key, is_jwt, derive) (both_derived-StartsWith c laws key jwt k j)

checked-valid :
    (text : Unicode) (join_path : GoString → GoString → GoString) (c d : Config)
    (o : Option ConfigError)
    → checked text join_path c o ≡ ok d
    → (o ≡ none) × (c ≡ d)
unfolding checked
checked-valid text join_path c d none h = (refl, cc)
checked-valid text join_path c d (some e) h = cc

-- With RFC 5869 and the laws of the cryptographic packages: whenever a configuration is loaded, both
-- secrets are derived from its key, the secret of the session tokens is not empty, the database's
-- encryptor is accepted, and what it encrypts it decrypts.
pub load_merged-StartsWith :
    (text : Unicode) (join_path : GoString → GoString → GoString) (c : Cryptography)
    → IsLawful c
    → (hkdf : GoString → GoString → ℕ → Option GoString) → IsHkdf hkdf
    → (raw config : Config) → load_merged text join_path raw ≡ ok config
    → StartsWith c (derive hkdf config.db_encryption_key)
unfolding load_merged
load_merged-StartsWith text join_path c laws hkdf expands raw config h =
    let normal : Config = normalize text join_path raw in
    let (valid, same) = checked-valid text join_path normal config (validate normal) h in
    derive-StartsWith c laws hkdf expands config.db_encryption_key (
      ap (λ k. ltb (length (Config.db_encryption_key k)) 32) (sym same)
      ∙ validate-strong normal valid)
