-- ===== src/Orchestrator/Naming/Bounds.antt =====
-- The length and the bytes of container names.
use gh_runner.Prelude.{
  ℕ, zero, suc, ◌+◌, ◌≤◌, ◌≡◌, refl, ◌==◌, Bool, true, false, ◌||◌, not, [], ◌∷◌, ◌++◌, reverse,
  if◌then◌else◌, ltb, length, take, length-append, arith, inl, inr, Bool-cases, All,
}
use mathlib.Core.List.{reverse_aux}
use gh_runner.Prelude.Text.{GoString, codes, Unicode}
use gh_runner.Orchestrator.Naming.{
  is_slug_byte, replace_runs, trim_left, trim_right, docker_max_container_name_len, max_slug_len,
  or_pool, slugify_pool_name, generate_container_name,
}

length-reverse_aux : (xs ys : GoString) → length (reverse_aux xs ys) ≡ length xs + length ys
length-reverse_aux [] ys = omega arith
length-reverse_aux (x ∷ xs) ys = omega (arith, length-reverse_aux xs (x ∷ ys))

length-trim_left : (s : GoString) → length (trim_left s) ≤ length s
unfolding trim_left
length-trim_left [] = omega arith
length-trim_left (c ∷ s) = ground (arith, length-trim_left s)

length-trim_right : (s : GoString) → length (trim_right s) ≤ length s
unfolding trim_right
length-trim_right s = omega (
  arith,
  length-reverse_aux (trim_left (reverse s)) [],
  length-trim_left (reverse s),
  length-reverse_aux s [],
)

length-take : (n : ℕ) (s : GoString) → length (take n s) ≤ n
length-take zero s = omega arith
length-take (suc n) [] = omega arith
length-take (suc n) (c ∷ s) = omega (arith, length-take n s)

length-or_pool : (s : GoString) (n : ℕ) → 4 ≤ n → length s ≤ n → length (or_pool s) ≤ n
length-or_pool [] n four h = four
length-or_pool (c ∷ s) n four h = h

-- The bytes of a slug: lower-case letters, digits and dashes.
abbrev pub is_name_byte : ℕ → Bool
is_name_byte c = is_slug_byte c || c == b'-'

abbrev pub IsName : GoString → Type 0
IsName s = All (λ c. is_name_byte c ≡ true) s

replace_runs-IsName : (run : Bool) (s : GoString) → IsName (replace_runs run s)
unfolding replace_runs
replace_runs-IsName run [] = tt
replace_runs-IsName run (c ∷ s) =
    let rest = replace_runs-IsName (not (is_slug_byte c)) s in
    elim (Bool-cases (is_slug_byte c)) [
      | inl slug ↦ rw slug ((rw slug refl), (rw slug at rest))
      | inr other ↦ elim (Bool-cases run) [
        | inl again ↦ rw (other, again) (rw other at rest)
        | inr first ↦ rw (other, first) (refl, (rw other at rest))
      ]
    ]

reverse_aux-IsName : (s t : GoString) → IsName s → IsName t → IsName (reverse_aux s t)
reverse_aux-IsName [] t h hs = hs
reverse_aux-IsName (c ∷ s) t h hs = reverse_aux-IsName s (c ∷ t) h.1 (h.0, hs)

trim_left-IsName : (s : GoString) → IsName s → IsName (trim_left s)
unfolding trim_left
trim_left-IsName [] h = tt
trim_left-IsName (c ∷ s) h = elim (Bool-cases (c == b'-')) [
  | inl dash ↦ rw dash (trim_left-IsName s h.1)
  | inr other ↦ rw other h
]

trim_right-IsName : (s : GoString) → IsName s → IsName (trim_right s)
unfolding trim_right
trim_right-IsName s h =
    reverse_aux-IsName (trim_left (reverse s)) []
      (trim_left-IsName (reverse s) (reverse_aux-IsName s [] h tt)) tt

take-IsName : (n : ℕ) (s : GoString) → IsName s → IsName (take n s)
take-IsName zero s h = tt
take-IsName (suc n) [] h = tt
take-IsName (suc n) (c ∷ s) h = (h.0, take-IsName n s h.1)

or_pool-IsName : (s : GoString) → IsName s → IsName (or_pool s)
unfolding is_slug_byte
or_pool-IsName [] h = (refl, (refl, (refl, (refl, tt))))
or_pool-IsName (c ∷ s) h = h

append-IsName : (s t : GoString) → IsName s → IsName t → IsName (s ++ t)
append-IsName [] t h hs = hs
append-IsName (c ∷ s) t h hs = (h.0, append-IsName s t h.1 hs)

-- Trimmed and cut to the length that leaves room for the prefix and the suffix.
cut_slug : GoString → GoString
cut_slug s = if ltb max_slug_len (length s) then trim_right (take max_slug_len s) else s

cut_slug-fits : (s : GoString) → length (cut_slug s) ≤ max_slug_len
unfolding cut_slug
cut_slug-fits s =
    ground (arith, length-trim_right (take max_slug_len s), length-take max_slug_len s)

cut_slug-IsName : (s : GoString) → IsName s → IsName (cut_slug s)
unfolding cut_slug
cut_slug-IsName s h = elim (Bool-cases (ltb max_slug_len (length s))) [
  | inl long ↦ rw long (trim_right-IsName (take max_slug_len s) (take-IsName max_slug_len s h))
  | inr short ↦ rw short h
]

slugify_pool_name-fits :
    (u : Unicode) (name : GoString)
    → (length (slugify_pool_name u name) ≤ max_slug_len) × IsName (slugify_pool_name u name)
unfolding slugify_pool_name cut_slug
slugify_pool_name-fits u name =
    let lower = u.to_lower (u.trim_space name) in
    let trimmed = or_pool (trim_right (trim_left (replace_runs false lower))) in
    (
      length-or_pool (cut_slug trimmed) max_slug_len (omega arith) (cut_slug-fits trimmed),
      or_pool-IsName (cut_slug trimmed) (
          cut_slug-IsName trimmed (
            or_pool-IsName (trim_right (trim_left (replace_runs false lower))) (
              trim_right-IsName (trim_left (replace_runs false lower))
                (trim_left-IsName (replace_runs false lower) (replace_runs-IsName false lower))))),
    )

-- A container name is at most 64 bytes long and made of lower-case letters, digits and dashes, for
-- every pool name, if the random suffix is six such bytes.
pub generate_container_name-fits :
    (u : Unicode) (hex name : GoString)
    → length hex ≡ 6
    → IsName hex
    → (length (generate_container_name u hex name) ≤ docker_max_container_name_len)
      × IsName (generate_container_name u hex name)
unfolding generate_container_name is_slug_byte
generate_container_name-fits u hex name six h =
    let slug = slugify_pool_name u name in
    let (fits, named) = slugify_pool_name-fits u name in
    (
      omega (arith, length-append slug (codes "-" ++ hex), fits),
      append-IsName (codes "ghrs-") (slug ++ (codes "-" ++ hex))
          (refl, (refl, (refl, (refl, (refl, tt)))))
          (append-IsName slug (codes "-" ++ hex) named (refl, h)),
    )
