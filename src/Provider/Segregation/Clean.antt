-- ===== src/Provider/Segregation/Clean.antt =====
-- internal/provider/segregation.go: which specs pass the scan.
use gh_runner.Prelude.{
  ◌≤◌, ◌≡◌, refl, ◌↔◌, Bool, false, ◌||◌, Option, none, some, List, [], ◌∷◌, length, All, arith,
}
use gh_runner.Prelude.Text.{GoString, contains, Unicode}
use gh_runner.Provider.Segregation.{
  ScanError, ContainerSpec, SegregationScanner, split_env, or_else, first_error, check_secret,
  check_key, scan_env, scan_label, check_mount, scan_arg, scan_mount, scan,
}

-- Which of the two checks failed does not matter for whether one did.
or_else-none : (a b : Option ScanError) → (or_else a b ≡ none) ↔ ((a ≡ none) × (b ≡ none))
or_else-none none b = ((λ h. (refl, h)), λ h. h.1)
or_else-none (some e) b = ((λ h. cc), λ h. cc)

first_error-none :
    {A : Type 0} (check : A → Option ScanError) (P : A → Type 0)
    → ((x : A) → (check x ≡ none) ↔ P x)
    → (xs : List A) → (first_error check xs ≡ none) ↔ All P xs
unfolding first_error
first_error-none check P each [] = ((λ h. tt), λ h. refl)
first_error-none check P each (x ∷ xs) =
    let both = or_else-none (check x) (first_error check xs) in
    let later = first_error-none check P each xs in
    (
      (λ h. ((each x).0 (both.0 h).0, later.0 (both.0 h).1)),
      λ h. both.1 ((each x).1 h.0, later.1 h.1),
    )

module _ (text : Unicode) (equal_fold : GoString → GoString → Bool) (s : SegregationScanner) where
  -- No place of a text holds the secret, its blank ends aside, unless it is shorter than six bytes.
  abbrev pub IsHidden : (GoString → Bool) → GoString → Type 0
  IsHidden found secret =
      6 ≤ length (text.trim_space secret) → found (text.trim_space secret) ≡ false

  check_secret-none :
      (found : GoString → Bool) (secret : GoString)
      → (check_secret text equal_fold found secret ≡ none) ↔ IsHidden found secret
  unfolding check_secret
  check_secret-none found secret = ground arith

  check_key-none :
      (key forbidden : GoString)
      → (check_key text equal_fold key forbidden ≡ none) ↔ (equal_fold key forbidden ≡ false)
  unfolding check_key
  check_key-none key forbidden = ground arith

  module _ (credentials : List GoString) where
    -- None of the credentials stands in the places.
    abbrev pub AllHidden : (GoString → Bool) → Type 0
    AllHidden found = All (IsHidden found) credentials

    abbrev pub IsCleanEntry : GoString → Type 0
    IsCleanEntry entry =
        All (λ forbidden. equal_fold (text.trim_space (split_env entry).0) forbidden ≡ false)
          s.forbidden_env_keys
        × AllHidden (λ secret.
          contains (text.trim_space (split_env entry).0) secret
          || contains (split_env entry).1 secret)

    abbrev pub IsCleanMount : GoString → Type 0
    IsCleanMount mount =
        All (λ forbidden. contains mount forbidden ≡ false) s.forbidden_mounts
        × AllHidden (λ secret. contains mount secret)

    -- Every place of the spec that the policy names.
    abbrev pub IsClean : ContainerSpec → Type 0
    IsClean spec =
        All IsCleanEntry spec.env
        × (All (λ label. AllHidden (λ secret. contains label.0 secret || contains label.1 secret))
              spec.labels
            × (All IsCleanMount spec.mounts
                × All (λ arg. AllHidden (λ secret. contains arg secret)) spec.cmd))

    secrets-none :
        (found : GoString → Bool)
        → (first_error (check_secret text equal_fold found) credentials ≡ none) ↔ AllHidden found
    secrets-none found =
        first_error-none (check_secret text equal_fold found) (IsHidden found)
          (check_secret-none found) credentials

    both :
        {P Q : Type 0} (a b : Option ScanError)
        → ((a ≡ none) ↔ P)
        → ((b ≡ none) ↔ Q)
        → (or_else a b ≡ none) ↔ (P × Q)
    both a b p q =
        let split = or_else-none a b in
        ((λ h. (p.0 (split.0 h).0, q.0 (split.0 h).1)), λ h. split.1 (p.1 h.0, q.1 h.1))

    scan_env-none :
        (entry : GoString)
        → (scan_env text equal_fold s credentials entry ≡ none) ↔ IsCleanEntry entry
    unfolding scan_env
    scan_env-none entry =
        let key : GoString = text.trim_space (split_env entry).0 in
        let found : GoString → Bool =
          λ secret. contains key secret || contains (split_env entry).1 secret in
        both (first_error (check_key text equal_fold key) s.forbidden_env_keys)
          (first_error (check_secret text equal_fold found) credentials)
          (first_error-none (check_key text equal_fold key) (λ f. equal_fold key f ≡ false)
            (check_key-none key) s.forbidden_env_keys)
          (secrets-none found)

    check_mount-none :
        (mount forbidden : GoString)
        → (check_mount text equal_fold s credentials mount forbidden ≡ none)
          ↔ (contains mount forbidden ≡ false)
    unfolding check_mount
    check_mount-none mount forbidden = ground arith

    scan_mount-none :
        (mount : GoString)
        → (scan_mount text equal_fold s credentials mount ≡ none) ↔ IsCleanMount mount
    unfolding scan_mount scan_arg
    scan_mount-none mount =
        both (first_error (check_mount text equal_fold s credentials mount) s.forbidden_mounts)
          (first_error (check_secret text equal_fold (λ secret. contains mount secret)) credentials)
          (first_error-none (check_mount text equal_fold s credentials mount)
            (λ f. contains mount f ≡ false) (check_mount-none mount) s.forbidden_mounts)
          (secrets-none (λ secret. contains mount secret))

    -- The scan returns no error exactly for a clean spec: no environment entry has a forbidden key,
    -- no mount a forbidden part, and no credential of six bytes or more, its blank ends aside,
    -- stands in the key or value of an entry or a label, in a mount or in an argument.
    pub scan-IsClean :
        (spec : ContainerSpec) → (scan text equal_fold s credentials spec ≡ none) ↔ IsClean spec
    unfolding scan scan_label scan_arg
    scan-IsClean spec =
        both (first_error (scan_env text equal_fold s credentials) spec.env) _
          (first_error-none (scan_env text equal_fold s credentials) IsCleanEntry scan_env-none
            spec.env)
          (both (first_error (scan_label text equal_fold s credentials) spec.labels) _
            (first_error-none (scan_label text equal_fold s credentials)
              (λ label. AllHidden (λ secret. contains label.0 secret || contains label.1 secret))
              (λ label. secrets-none (λ secret. contains label.0 secret || contains label.1 secret))
              spec.labels)
            (both (first_error (scan_mount text equal_fold s credentials) spec.mounts) _
              (first_error-none (scan_mount text equal_fold s credentials) IsCleanMount
                scan_mount-none spec.mounts)
              (first_error-none (scan_arg text equal_fold s credentials)
                (λ arg. AllHidden (λ secret. contains arg secret))
                (λ arg. secrets-none (λ secret. contains arg secret)) spec.cmd)))
