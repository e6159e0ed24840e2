-- ===== src/Orchestrator/Naming.antt =====
-- internal/orchestrator/naming.go: container names. The Unicode tables of package strings and the
-- random hexadecimal suffix are arguments.
pub mod Bounds
use gh_runner.Prelude.{
  ℕ, ◌-◌, Bool, false, ◌&&◌, ◌||◌, not, List, [], ◌∷◌, ◌++◌, if◌then◌else◌, leb, ltb, ◌==◌, length,
  take,
}
use mathlib.Core.List.{reverse}
use gh_runner.Prelude.Text.{GoString, codes, is_empty, Unicode}

-- The class [a-z0-9] of nonAlphaNumRegex.
unfoldable pub is_slug_byte : ℕ → Bool
is_slug_byte c = (leb b'a' c && leb c b'z') || (leb b'0' c && leb c b'9')

-- nonAlphaNumRegex.ReplaceAllString(s, "-"): each longest run of other bytes becomes one dash.
-- The flag says that the byte before belonged to a run, whose dash is already written.
unfoldable pub replace_runs : Bool → GoString → GoString
unfolding is_slug_byte
replace_runs in_run [] = []
replace_runs in_run (c ∷ s) =
    let rest = replace_runs (not (is_slug_byte c)) s in
    if is_slug_byte c then c ∷ rest else if in_run then rest else b'-' ∷ rest

-- strings.TrimLeft(s, "-"), TrimRight and Trim.
unfoldable pub trim_left : GoString → GoString
trim_left [] = []
trim_left (c ∷ s) = let rest = trim_left s in if c == b'-' then rest else c ∷ s

unfoldable pub trim_right : GoString → GoString
unfolding trim_left
trim_right s = reverse (trim_left (reverse s))

abbrev pub docker_max_container_name_len : ℕ
docker_max_container_name_len = 64

abbrev pub max_slug_len : ℕ
max_slug_len = docker_max_container_name_len - length (codes "ghrs-") - length (codes "-123456")

abbrev pub or_pool : GoString → GoString
or_pool s = if is_empty s then codes "pool" else s

unfoldable pub slugify_pool_name : Unicode → GoString → GoString
unfolding replace_runs trim_left trim_right
slugify_pool_name u pool_name =
    let lower = u.to_lower (u.trim_space pool_name) in
    let cleaned = replace_runs false lower in
    let trimmed = or_pool (trim_right (trim_left cleaned)) in
    let cut =
      if ltb max_slug_len (length trimmed)
      then trim_right (take max_slug_len trimmed)
      else trimmed in
    or_pool cut

-- `hex` is what randomHexSuffix(6) returned.
unfoldable pub generate_container_name : Unicode → GoString → GoString → GoString
unfolding slugify_pool_name
generate_container_name u hex pool_name =
    codes "ghrs-" ++ (slugify_pool_name u pool_name ++ (codes "-" ++ hex))
