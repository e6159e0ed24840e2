-- ===== src/Examples/Secrets.antt =====
-- The theorems on the encrypted columns, the configuration and the scan of container specs, at concrete inputs. The
-- cipher is a tag in front of the text.
use gh_runner.Prelude.{
  ℕ, zero, suc, ◌≡◌, refl, sym, ap, ◌∙◌, subst, ◌↔◌, true, false, Option, none, some, [], ◌∷◌, ◌++◌,
  ◌==◌, if◌then◌else◌, length, arith,
}
use gh_runner.Prelude.Text.{GoString, codes, text_eq}
use gh_runner.Prelude.Results.{ok}
use gh_runner.Database.Crypto.{Cryptography, Encryptor, decrypt}
use gh_runner.Database.Crypto.Profiles.{
  AuthProfile, RawProfile, ProfileQueries, create_encrypted_auth_profile,
  get_decrypted_auth_profile_by_id,
}
use gh_runner.Database.Crypto.RoundTrip.{IsLawful}
use gh_runner.Prelude.Integers.{pos}
use gh_runner.Config.{Config, derive, load_merged}
use gh_runner.Config.Startup.{StartsWith, load_merged-StartsWith}
use gh_runner.Database.Crypto.Readback.{
  KeepsRows, get_decrypted_auth_profile_by_id-create_encrypted_auth_profile,
}
use gh_runner.Database.Crypto.Authentic.{IsSealed, decrypt-IsSealed}
use gh_runner.Provider.Segregation.{ContainerSpec, new_segregation_scanner, scan, build_runner_env}
use gh_runner.Provider.Segregation.Clean.{IsClean, scan-IsClean}
use gh_runner.Examples.{ascii}

abbrev repeat : ℕ → GoString
repeat zero = []
repeat (suc n) = 7 ∷ repeat n

abbrev untag : GoString → GoString → Option GoString
untag key [] = none
untag key (tag ∷ text) = if tag == length key then some text else none

abbrev tagging : Cryptography
tagging = record {
  World = Option AuthProfile;
  new_gcm = λ key. length key == 32;
  nonce_size = 2;
  overhead = 1;
  seal = λ key nonce text. length key ∷ text;
  unseal = λ key nonce sealed. untag key sealed;
  encode = λ bytes. bytes;
  decode = λ bytes. some bytes;
  read_random = λ n w. (some (repeat n), w);
}

length-repeat : (n : ℕ) → length (repeat n) ≡ n
length-repeat zero = refl
length-repeat (suc n) = ap suc (length-repeat n)

tagged : (key : GoString) (text : GoString) → untag key (length key ∷ text) ≡ some text
tagged key text = ground arith

untag-eq-some :
    (key sealed text : GoString) → untag key sealed ≡ some text → sealed ≡ length key ∷ text
untag-eq-some key [] text h = cc
untag-eq-some key (tag ∷ body) text h = ground arith

tagging-IsLawful : IsLawful tagging
tagging-IsLawful = record {
  long_keys = λ key h. (ground arith);
  nonces = (omega arith);
  sealed_length = λ key nonce text. (omega arith);
  unseal-seal = λ key nonce text h. tagged key text;
  decode-encode = λ bytes. refl;
  encoded_length = λ bytes. (omega arith);
  full_reads = λ n w bytes h.
      let same : repeat n ≡ bytes = cc in ap (λ s. length s) (sym same) ∙ length-repeat n;
}

abbrev master_key : GoString
master_key = codes "0123456789abcdef0123456789abcdef"

abbrev sealed_token : GoString
sealed_token = 7 ∷ 7 ∷ 32 ∷ codes "token"

abbrev stretch : GoString → GoString → ℕ → Option GoString
stretch key label n = some (repeat n)

abbrev settings : Config
settings = record {
  db_encryption_key = master_key;
  port = pos 8_090;
  db_path = codes "/data/supervisor.db";
  log_level = codes "info";
  docker_host = codes "unix:///var/run/docker.sock";
  data_dir = codes "/data";
  backup_interval_hours = pos 6;
  backup_retention_count = pos 7;
  config_file = [];
  secure_cookie = true;
}

abbrev join_path : GoString → GoString → GoString
join_path a b = a ++ (codes "/" ++ b)

-- The path of the database is filled in.
loads : load_merged ascii join_path (record settings { db_path = [] }) ≡ ok settings
unfolding load_merged text_eq
loads = refl

load_merged-StartsWith_example : StartsWith tagging (derive stretch master_key)
load_merged-StartsWith_example =
    load_merged-StartsWith ascii join_path tagging tagging-IsLawful stretch
      (λ key label. (repeat 32, refl, length-repeat 32)) (record settings { db_path = [] }) settings
      loads

abbrev encryptor : Encryptor
encryptor = record { key = master_key }

decrypts : decrypt tagging encryptor sealed_token ≡ ok (codes "token")
unfolding decrypt
decrypts = refl

decrypt-IsSealed_example : IsSealed tagging master_key sealed_token (codes "token")
decrypt-IsSealed_example =
    decrypt-IsSealed tagging (λ key nonce sealed text h. untag-eq-some key sealed text h) encryptor
      sealed_token (codes "token") refl decrypts

-- A table of one row.
abbrev stored_at : ℕ → Option AuthProfile → Option AuthProfile
stored_at id none = none
stored_at id (some row) = if row.id == id then some row else none

abbrev one_row : ProfileQueries (Option AuthProfile)
one_row = record {
  create_auth_profile = λ columns w.
      (some (record { id = 4; columns = columns }), some (record { id = 4; columns = columns }));
  update_auth_profile = λ id columns w.
      (some (record { id = id; columns = columns }), some (record { id = id; columns = columns }));
  get_auth_profile_by_id = λ id w. stored_at id w;
  get_auth_profile_by_name = λ name w. w;
}

abbrev raw_profile : RawProfile
raw_profile = record {
  name = codes "app";
  auth_method = codes "pat";
  app_id = none;
  private_key = [];
  token = codes "token";
}

abbrev stored_profile : AuthProfile
stored_profile = record {
  id = 4;
  columns = record {
    name = codes "app";
    auth_method = codes "pat";
    app_id = none;
    private_key_encrypted = record { string = []; valid = false };
    token_encrypted = record { string = sealed_token; valid = true };
  };
}

one_row-KeepsRows : KeepsRows tagging one_row
one_row-KeepsRows = record {
  returned = λ columns w w' profile h.
      let row : AuthProfile = record { id = 4; columns = columns } in
      let same : row ≡ profile = cc in ap (λ p. AuthProfile.columns p) (sym same);
  found = λ columns w w' profile h.
      let row : AuthProfile = record { id = 4; columns = columns } in
      let same : row ≡ profile = cc in
      let later : some row ≡ w' = cc in
      subst (λ p. stored_at (AuthProfile.id p) w' ≡ some p) same
        (subst (λ v. stored_at 4 v ≡ some row) later refl);
}

creates :
    create_encrypted_auth_profile tagging one_row (some encryptor) raw_profile none
    ≡ (ok stored_profile, some stored_profile)
unfolding create_encrypted_auth_profile
creates = refl

get_decrypted_auth_profile_by_id-create_encrypted_auth_profile_example :
    get_decrypted_auth_profile_by_id tagging one_row (some encryptor) 4 (some stored_profile)
    ≡ ok (record { profile = stored_profile; private_key = []; token = codes "token" })
get_decrypted_auth_profile_by_id-create_encrypted_auth_profile_example =
    get_decrypted_auth_profile_by_id-create_encrypted_auth_profile tagging tagging-IsLawful one_row
      one_row-KeepsRows encryptor raw_profile stored_profile none (some stored_profile) refl creates

abbrev runner_spec : ContainerSpec
runner_spec = record {
  env =
      build_runner_env (codes "github") (codes "reg-token") (codes "https://github.com/a/b")
        (codes "r1") [] (codes "/work");
  labels = (codes "pool", codes "web") ∷ [];
  mounts = codes "/cache" ∷ [];
  image = codes "runner";
  cmd = [];
}

scan-IsClean_example :
    (scan ascii text_eq new_segregation_scanner (codes "master-pat" ∷ []) runner_spec ≡ none)
    ↔ IsClean ascii text_eq new_segregation_scanner (codes "master-pat" ∷ []) runner_spec
scan-IsClean_example =
    scan-IsClean ascii text_eq new_segregation_scanner (codes "master-pat" ∷ []) runner_spec
