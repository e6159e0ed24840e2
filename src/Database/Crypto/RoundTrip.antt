-- ===== src/Database/Crypto/RoundTrip.antt =====
-- internal/db/crypto.go: Decrypt after Encrypt.
use gh_runner.Prelude.{
  ℕ, ◌+◌, ◌≤◌, ◌<◌, ◌≡◌, refl, sym, ap, ◌∙◌, subst, true, false, Option, none, some, ltb, length,
  take, drop, [], ◌∷◌, ◌++◌, arith, length-append, zero, suc,
}
use gh_runner.Prelude.Text.{GoString, is_empty}
use gh_runner.Prelude.Results.{ok}
use gh_runner.Database.Crypto.{Cryptography, Encryptor, encrypt, encrypt_with, decrypt}

-- The documented behaviour of the cryptographic packages that the round trip relies on.
pub record IsLawful (c : Cryptography) : Type 0 where
  pub long_keys : (key : GoString) → length key ≡ 32 → c.new_gcm key ≡ true
  pub nonces : 0 < c.nonce_size
  pub sealed_length :
      (key nonce text : GoString) → length (c.seal key nonce text) ≡ length text + c.overhead
  pub unseal-seal :
      (key nonce text : GoString)
      → length nonce ≡ c.nonce_size
      → c.unseal key nonce (c.seal key nonce text) ≡ some text
  pub decode-encode : (bytes : GoString) → c.decode (c.encode bytes) ≡ some bytes
  pub encoded_length : (bytes : GoString) → length bytes ≤ length (c.encode bytes)
  pub full_reads :
      (n : ℕ) (w : c.World) (bytes : GoString)
      → (c.read_random n w).0 ≡ some bytes
      → length bytes ≡ n

take-append : (n : ℕ) (xs ys : GoString) → length xs ≡ n → take n (xs ++ ys) ≡ xs
take-append zero [] ys h = refl
take-append zero (x ∷ xs) ys h = ground arith
take-append (suc n) [] ys h = ground arith
take-append (suc n) (x ∷ xs) ys h = ap (λ zs. x ∷ zs) (take-append n xs ys (omega arith))

drop-append : (n : ℕ) (xs ys : GoString) → length xs ≡ n → drop n (xs ++ ys) ≡ ys
drop-append zero [] ys h = refl
drop-append zero (x ∷ xs) ys h = ground arith
drop-append (suc n) [] ys h = ground arith
drop-append (suc n) (x ∷ xs) ys h = drop-append n xs ys (omega arith)

not_empty : (s : GoString) → 0 < length s → is_empty s ≡ false
not_empty [] h = ground arith
not_empty (a ∷ s) h = refl

at_least : (a b : ℕ) → b ≤ a → ltb a b ≡ false
at_least a b h = ground arith

module _ (c : Cryptography) (laws : IsLawful c) where
  -- A sealed text under a nonce of the right length is opened again.
  decrypt-sealed :
      (e : Encryptor) (nonce text : GoString)
      → length e.key ≡ 32
      → length nonce ≡ c.nonce_size
      → decrypt c e (c.encode (nonce ++ c.seal e.key nonce text)) ≡ ok text
  unfolding decrypt
  decrypt-sealed e nonce text k n =
      let bytes : GoString = nonce ++ c.seal e.key nonce text in
      let size : length bytes ≡ c.nonce_size + (length text + c.overhead) = omega (
        arith,
        length-append nonce (c.seal e.key nonce text),
        laws.sealed_length e.key nonce text,
        n,
      ) in
      rw (
        not_empty (c.encode bytes) (omega (arith, laws.encoded_length bytes, size, laws.nonces)),
        laws.decode-encode bytes,
        laws.long_keys e.key k,
        at_least (length bytes) (c.nonce_size + c.overhead) (omega (arith, size)),
        take-append c.nonce_size nonce (c.seal e.key nonce text) n,
        drop-append c.nonce_size nonce (c.seal e.key nonce text) n,
        laws.unseal-seal e.key nonce text n,
      )

  encrypt-answer :
      (e : Encryptor) (a : ℕ) (text : GoString) (w : c.World)
      → length e.key ≡ 32
      → (encrypt c e (a ∷ text) w).0
        ≡ encrypt_with c e.key (a ∷ text) (c.read_random c.nonce_size w).0
  unfolding encrypt
  encrypt-answer e a text w k = rw (laws.long_keys e.key k)

  decrypt-encrypt_with :
      (e : Encryptor) (text sealed : GoString) (nonce : Option GoString)
      → length e.key ≡ 32
      → ((bytes : GoString) → nonce ≡ some bytes → length bytes ≡ c.nonce_size)
      → encrypt_with c e.key text nonce ≡ ok sealed
      → decrypt c e sealed ≡ ok text
  unfolding encrypt_with
  decrypt-encrypt_with e text sealed none k n h = cc
  decrypt-encrypt_with e text sealed (some nonce) k n h =
      let made : c.encode (nonce ++ c.seal e.key nonce text) ≡ sealed = cc in
      subst (λ s. decrypt c e s ≡ ok text) made (decrypt-sealed e nonce text k (n nonce refl))

  -- A text that is encrypted is decrypted to itself by the same encryptor.
  pub decrypt-encrypt :
      (e : Encryptor) (text sealed : GoString) (w w' : c.World)
      → length e.key ≡ 32
      → encrypt c e text w ≡ (ok sealed, w')
      → decrypt c e sealed ≡ ok text
  unfolding encrypt decrypt
  decrypt-encrypt e [] sealed w w' k h =
      let made : [] ≡ sealed = (ground arith) in subst (λ s. decrypt c e s ≡ ok []) made refl
  decrypt-encrypt e (a ∷ text) sealed w w' k h =
      decrypt-encrypt_with e (a ∷ text) sealed (c.read_random c.nonce_size w).0 k
        (λ bytes read. laws.full_reads c.nonce_size w bytes read)
        (sym (encrypt-answer e a text w k) ∙ ap (λ r. r.0) h)
