-- ===== src/Identity.antt =====
-- pkg/identity/identity.go, with the sender of pkg/bus/types.go. ParseCanonicalID returns `none`
-- where its third result is false.
pub mod RoundTrip
pub mod Matching
use ebiclaw.Prelude.{
  ℕ, Bool, true, false, ◌&&◌, ◌||◌, not, Option, none, some, List, [], ◌∷◌, ◌++◌, if◌then◌else◌,
  is_empty, leb, map, ◌==◌,
}
use ebiclaw.Strings.{Text, codes, text_eq, trim_space, to_lower, has_prefix, cut}

pub record SenderInfo : Type 0 where
  pub platform : Text
  pub platform_id : Text
  pub canonical_id : Text
  pub username : Text
  pub display_name : Text

-- strings.EqualFold, where `fold` gives one code point for all that unicode.SimpleFold holds equal.
unfoldable pub equal_fold : (ℕ → ℕ) → Text → Text → Bool
equal_fold fold s t = text_eq (map fold s) (map fold t)

unfoldable pub build_canonical_id : Text → Text → Text
build_canonical_id platform platform_id =
    let p = to_lower (trim_space platform) in
    let id = trim_space platform_id in
    if is_empty p || is_empty id then [] else p ++ (codes ":" ++ id)

unfoldable pub parse_canonical_id : Text → Option (Text × Text)
parse_canonical_id canonical = elim (cut 58 (trim_space canonical)) [
  | none ↦ none
  | some (platform, id) ↦ if is_empty platform || is_empty id then none else some (platform, id)
]

unfoldable pub all_digits : Text → Bool
all_digits [] = true
all_digits (c ∷ s) = (leb 48 c && leb c 57) && all_digits s

unfoldable pub is_numeric : Text → Bool
unfolding all_digits
is_numeric [] = false
is_numeric (c ∷ s) = if c == 45 && not (is_empty s) then all_digits s else all_digits (c ∷ s)

-- The branch for an entry "platform:id" whose platform is not numeric.
unfoldable pub matches_canonical : (ℕ → ℕ) → SenderInfo → Text → Text → Bool
unfolding equal_fold
matches_canonical fold sender platform id =
    let candidate = build_canonical_id platform id in
    if not (is_empty candidate) && not (is_empty sender.canonical_id)
    then equal_fold fold sender.canonical_id candidate
    else equal_fold fold platform sender.platform && text_eq sender.platform_id id

-- strings.TrimPrefix(s, "@")
unfoldable pub trim_at : Text → Text
trim_at [] = []
trim_at (c ∷ s) = if c == 64 then s else c ∷ s

-- The compound entry "id|username": the id, and the username or the empty text.
unfoldable pub split_entry : Text → Text × Text
split_entry trimmed = elim (cut 124 trimmed) [
  | none ↦ (trimmed, [])
  | some (id, user) ↦ if is_empty id then (trimmed, []) else (id, user)
]

-- The tests for the older formats.
unfoldable pub matches_legacy : SenderInfo → Text → Bool
unfolding trim_at split_entry
matches_legacy sender allowed =
    let is_at_username = has_prefix allowed (codes "@") in
    let trimmed = trim_at allowed in
    let (allowed_id, allowed_user) = split_entry trimmed in
    if not (is_empty sender.platform_id) && text_eq sender.platform_id allowed_id
    then true
    else if is_at_username && (not (is_empty sender.username) && text_eq sender.username trimmed)
    then true
    else if not (is_empty allowed_user)
        && (not (is_empty sender.platform_id) && text_eq sender.platform_id allowed_id)
    then true
    else not (is_empty allowed_user)
      && (not (is_empty sender.username) && text_eq sender.username allowed_user)

unfoldable pub match_allowed : (ℕ → ℕ) → SenderInfo → Text → Bool
unfolding parse_canonical_id is_numeric matches_canonical matches_legacy
match_allowed fold sender allowed =
    let entry = trim_space allowed in
    let legacy = matches_legacy sender entry in
    if is_empty entry then false else elim (parse_canonical_id entry) [
      | none ↦ legacy
      | some (platform, id) ↦
          if is_numeric platform then legacy else matches_canonical fold sender platform id
    ]
