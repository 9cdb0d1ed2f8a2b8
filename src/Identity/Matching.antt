-- ===== src/Identity/Matching.antt =====
-- Whom an allow-list entry admits.
use ebiclaw.Prelude.{
  ℕ, ◌≡◌, map, Bool, true, false, ◌&&◌, not, none, [], ◌∷◌, ◌++◌, ap, ◌∙◌, if◌then◌else◌, is_empty,
  refl, arith,
}
use ebiclaw.Strings.{Text, codes, text_eq, trim_space, to_lower, has_prefix}
use ebiclaw.Strings.Equal.{text_eq_refl}
use ebiclaw.Strings.Trim.{trim_space-trim_space, trim_space_id}
use ebiclaw.Strings.Cut.{Without, cut-Without}
use ebiclaw.Identity.RoundTrip.{
  build_canonical_id-parts, build_canonical_id_twice, build_canonical_id-IsTrimmed,
  parse-build_canonical_id,
}
use ebiclaw.Identity.{
  SenderInfo, build_canonical_id, parse_canonical_id, is_numeric, matches_canonical, matches_legacy,
  match_allowed, trim_at, split_entry, equal_fold,
}

-- A blank entry admits nobody.
pub match_allowed-blank :
    (fold : ℕ → ℕ) (sender : SenderInfo) (allowed : Text)
    → is_empty (trim_space allowed) ≡ true
    → match_allowed fold sender allowed ≡ false
unfolding match_allowed
match_allowed-blank fold sender allowed e = rw e refl

-- A plain entry: no colon, no bar and no "@" in front.
pub record IsPlain (entry : Text) : Type 0 where
  pub nonempty : is_empty entry ≡ false
  pub no_colon : Without 58 entry
  pub no_bar : Without 124 entry
  pub no_at : has_prefix entry (codes "@") ≡ false

trim_at_id : (s : Text) → has_prefix s (codes "@") ≡ false → trim_at s ≡ s
unfolding trim_at has_prefix
trim_at_id [] h = refl
trim_at_id (c ∷ s) h = ground arith

parse-no_colon : (s : Text) → Without 58 (trim_space s) → parse_canonical_id (trim_space s) ≡ none
unfolding parse_canonical_id
parse-no_colon s h =
    rw (trim_space-trim_space s, cut-Without 58 (trim_space s) h, parse_canonical_id) refl

split_entry-no_bar : (s : Text) → Without 124 s → split_entry s ≡ (s, [])
unfolding split_entry
split_entry-no_bar s h = rw (cut-Without 124 s h, split_entry) refl

matches_legacy-plain :
    (sender : SenderInfo) (entry : Text)
    → IsPlain entry
    → matches_legacy sender entry
      ≡ (not (is_empty sender.platform_id) && text_eq sender.platform_id entry)
unfolding matches_legacy
matches_legacy-plain sender entry h =
    rw (h.no_at, trim_at_id entry h.no_at, split_entry-no_bar entry h.no_bar)
      (only (not (is_empty sender.platform_id) && text_eq sender.platform_id entry))
  where
    only :
        (b : Bool) → (if b then true else if false then true else if false then true else false) ≡ b
    only true = refl
    only false = refl

-- A plain entry admits exactly the senders whose platform id is that entry, trimmed, and not empty:
-- the username, which a sender may be free to choose, plays no part.
pub match_allowed-plain :
    (fold : ℕ → ℕ) (sender : SenderInfo) (allowed : Text)
    → IsPlain (trim_space allowed)
    → match_allowed fold sender allowed
      ≡ (not (is_empty sender.platform_id) && text_eq sender.platform_id (trim_space allowed))
unfolding match_allowed
match_allowed-plain fold sender allowed h =
    rw (h.nonempty, parse-no_colon allowed h.no_colon)
      (matches_legacy-plain sender (trim_space allowed) h)

built_nonempty :
    (platform id : Text)
    → is_empty (to_lower (trim_space platform)) ≡ false
    → is_empty (trim_space id) ≡ false
    → is_empty (build_canonical_id platform id) ≡ false
built_nonempty platform id e f =
    ap is_empty (build_canonical_id-parts platform id e f)
    ∙ first (to_lower (trim_space platform)) e
  where
    first : (p : Text) → is_empty p ≡ false → is_empty (p ++ (codes ":" ++ trim_space id)) ≡ false
    first [] h = cc
    first (c ∷ p) h = refl

-- A sender whose canonical id is the one that BuildCanonicalID makes of a platform and an id is
-- admitted by that canonical id as an allow-list entry, whatever the folding of case is. The platform
-- is not blank, not numeric and has no colon, and the id is not blank.
pub match_allowed-own :
    (fold : ℕ → ℕ) (sender : SenderInfo) (platform id : Text)
    → sender.canonical_id ≡ build_canonical_id platform id
    → is_empty (to_lower (trim_space platform)) ≡ false
    → is_empty (trim_space id) ≡ false
    → Without 58 (to_lower (trim_space platform))
    → is_numeric (to_lower (trim_space platform)) ≡ false
    → match_allowed fold sender sender.canonical_id ≡ true
unfolding match_allowed matches_canonical equal_fold
match_allowed-own fold sender platform id own e f w n =
    let built = build_canonical_id platform id in
    let trimmed : trim_space sender.canonical_id ≡ built =
      ap trim_space own ∙ trim_space_id built (build_canonical_id-IsTrimmed platform id e f) in
    let nonempty = built_nonempty platform id e f in
    let parsed = parse-build_canonical_id platform id e f w in
    let again = build_canonical_id_twice platform id e f in
    rw (trimmed, nonempty, parsed, n, again, nonempty, own, nonempty)
      (text_eq_refl (map fold built))
