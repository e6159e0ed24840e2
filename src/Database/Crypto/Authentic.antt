-- ===== src/Database/Crypto/Authentic.antt =====
-- internal/db/crypto.go: which texts Decrypt accepts.
use gh_runner.Prelude.{
  ℕ, ◌+◌, ◌≤◌, ◌≡◌, refl, sym, ap, ◌∙◌, false, Option, none, some, ltb, length, take, drop, [], ◌∷◌,
  ◌++◌, arith, Bool-cases, inl, inr, Option-cases, zero, suc,
}
use gh_runner.Prelude.Text.{GoString, is_empty}
use gh_runner.Prelude.Results.{ok, failed}
use gh_runner.Database.Crypto.{
  cipher_error, invalid_ciphertext, Cryptography, Encryptor, opened, decrypt_data, decrypt,
}

-- The documented guarantee of AES-GCM in the form of its definition: what is opened under a key and
-- a nonce is the seal of the text that it gives.
abbrev pub IsAuthentic : Cryptography → Type 0
IsAuthentic c =
    (key nonce sealed text : GoString)
    → c.unseal key nonce sealed ≡ some text
    → sealed ≡ c.seal key nonce text

take-drop : (n : ℕ) (xs : GoString) → take n xs ++ drop n xs ≡ xs
take-drop zero xs = refl
take-drop (suc n) [] = refl
take-drop (suc n) (x ∷ xs) = ap (λ zs. x ∷ zs) (take-drop n xs)

length-take : (n : ℕ) (xs : GoString) → n ≤ length xs → length (take n xs) ≡ n
length-take zero xs h = refl
length-take (suc n) [] h = omega arith
length-take (suc n) (x ∷ xs) h = omega (arith, length-take n xs (omega arith))

-- The encoded text is a nonce and the seal of the text under it.
abbrev pub IsSealed : Cryptography → GoString → GoString → GoString → Type 0
IsSealed c key encoded text =
    (nonce : GoString) × (length nonce ≡ c.nonce_size)
    × (c.decode encoded ≡ some (nonce ++ c.seal key nonce text))

module _ (c : Cryptography) (authentic : IsAuthentic c) (e : Encryptor) (text : GoString) where
  unsealed :
      (nonce sealed : GoString) (o : Option GoString)
      → c.unseal e.key nonce sealed ≡ o
      → opened c o ≡ ok text
      → sealed ≡ c.seal e.key nonce text
  unfolding opened
  unsealed nonce sealed none h made = cc
  unsealed nonce sealed (some plain) h made =
      let same : plain ≡ text = cc in authentic e.key nonce sealed text (h ∙ ap (λ t. some t) same)

  decrypt_data-IsSealed :
      (encoded bytes : GoString)
      → c.decode encoded ≡ some bytes
      → decrypt_data c e (some bytes) ≡ ok text
      → IsSealed c e.key encoded text
  unfolding decrypt_data
  decrypt_data-IsSealed encoded bytes decodes h =
      let nonce : GoString = take c.nonce_size bytes in
      elim (Bool-cases (c.new_gcm e.key)) [
        | inr bad ↦
            let refused : failed cipher_error ≡ ok text = (rw (bad, decrypt_data) at h) in cc
        | inl good ↦ elim (Bool-cases (ltb (length bytes) (c.nonce_size + c.overhead))) [
          | inl short ↦
              let refused : failed invalid_ciphertext ≡ ok text =
                (rw (good, short, decrypt_data) at h) in
              cc
          | inr long ↦
              let seal_of : drop c.nonce_size bytes ≡ c.seal e.key nonce text =
                unsealed nonce (drop c.nonce_size bytes)
                  (c.unseal e.key nonce (drop c.nonce_size bytes)) refl
                  (rw (good, long, decrypt_data) at h) in
              (
                nonce,
                length-take c.nonce_size bytes (ground arith),
                decodes
                    ∙ ap (λ b. some b)
                        (sym (take-drop c.nonce_size bytes) ∙ ap (λ z. nonce ++ z) seal_of),
              )
        ]
      ]

-- With the guarantee of AES-GCM, a text that is not empty is decrypted to a plaintext only when it
-- is a nonce followed by the seal of that plaintext under the encryptor's own key.
pub decrypt-IsSealed :
    (c : Cryptography)
    → IsAuthentic c
    → (e : Encryptor) (encoded text : GoString) → is_empty encoded ≡ false
    → decrypt c e encoded ≡ ok text
    → IsSealed c e.key encoded text
unfolding decrypt
decrypt-IsSealed c authentic e encoded text full h =
    let data_opened : decrypt_data c e (c.decode encoded) ≡ ok text = (rw (full, decrypt) at h) in
    elim (Option-cases (c.decode encoded)) [
      | inl bad ↦
          let refused : failed invalid_ciphertext ≡ ok text =
            (rw (bad, decrypt_data) at data_opened) in
          cc
      | inr (bytes, decodes) ↦
          decrypt_data-IsSealed c authentic e text encoded bytes decodes (rw decodes at data_opened)
    ]
