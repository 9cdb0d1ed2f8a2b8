-- ===== src/Identity/RoundTrip.antt =====
-- A canonical id that is built can be parsed.
use ebiclaw.Prelude.{◌≡◌, false, some, [], ◌∷◌, ◌++◌, is_empty, refl, ap, sym, ◌∙◌}
use ebiclaw.Strings.{Text, codes, trim_space, to_lower, is_space}
use ebiclaw.Strings.Trim.{
  Ends-append, IsTrimmed, trim_space_id, trim_space-IsTrimmed, trim_space-trim_space,
  to_lower-IsTrimmed,
}
use ebiclaw.Strings.Case.{to_lower-to_lower}
use ebiclaw.Strings.Cut.{Without, cut-append}
use ebiclaw.Identity.{build_canonical_id, parse_canonical_id}

joined-IsTrimmed :
    (p id : Text)
    → IsTrimmed p
    → IsTrimmed id
    → is_empty p ≡ false
    → is_empty id ≡ false
    → IsTrimmed (p ++ (codes ":" ++ id))
joined-IsTrimmed [] id h k e f = cc
joined-IsTrimmed (c ∷ p) [] h k e f = cc
joined-IsTrimmed (c ∷ p) (d ∷ id) h k e f = record {
  starts = h.starts;
  ends = Ends-append is_space (c ∷ p) 58 (d ∷ id) k.ends;
}

parse-joined :
    (p t : Text)
    → IsTrimmed p
    → IsTrimmed t
    → is_empty p ≡ false
    → is_empty t ≡ false
    → Without 58 p
    → parse_canonical_id (p ++ (codes ":" ++ t)) ≡ some (p, t)
unfolding parse_canonical_id
parse-joined p t h k e f w =
    rw
      (
        trim_space_id (p ++ (codes ":" ++ t)) (joined-IsTrimmed p t h k e f),
        cut-append 58 p t w,
        parse_canonical_id,
      )
      (rw (e, f) refl)

pub build_canonical_id-parts :
    (platform id : Text)
    → is_empty (to_lower (trim_space platform)) ≡ false
    → is_empty (trim_space id) ≡ false
    → build_canonical_id platform id
      ≡ to_lower (trim_space platform) ++ (codes ":" ++ trim_space id)
unfolding build_canonical_id
build_canonical_id-parts platform id e f = rw (e, f) refl

-- Building it again from its parts changes nothing.
pub build_canonical_id_twice :
    (platform id : Text)
    → is_empty (to_lower (trim_space platform)) ≡ false
    → is_empty (trim_space id) ≡ false
    → build_canonical_id (to_lower (trim_space platform)) (trim_space id)
      ≡ build_canonical_id platform id
build_canonical_id_twice platform id e f =
    build_canonical_id-parts p t (rw same e) (rw (trim_space-trim_space id) f)
    ∙ ap (λ (q : Text). q ++ (codes ":" ++ trim_space t)) same
    ∙ ap (λ (u : Text). p ++ (codes ":" ++ u)) (trim_space-trim_space id)
    ∙ sym (build_canonical_id-parts platform id e f)
  where
    p : Text
    p = to_lower (trim_space platform)

    t : Text
    t = trim_space id

    same : to_lower (trim_space p) ≡ p
    same =
        ap to_lower (
          trim_space_id p
            (to_lower-IsTrimmed (trim_space platform) (trim_space-IsTrimmed platform)))
        ∙ to_lower-to_lower (trim_space platform)

pub build_canonical_id-IsTrimmed :
    (platform id : Text)
    → is_empty (to_lower (trim_space platform)) ≡ false
    → is_empty (trim_space id) ≡ false
    → IsTrimmed (build_canonical_id platform id)
build_canonical_id-IsTrimmed platform id e f = rw (build_canonical_id-parts platform id e f) (
    joined-IsTrimmed (to_lower (trim_space platform)) (trim_space id)
      (to_lower-IsTrimmed (trim_space platform) (trim_space-IsTrimmed platform))
      (trim_space-IsTrimmed id) e f)

-- ParseCanonicalID of BuildCanonicalID gives back the platform, trimmed and in lower case, and the
-- trimmed id, where neither is blank and the platform has no colon.
pub parse-build_canonical_id :
    (platform id : Text)
    → is_empty (to_lower (trim_space platform)) ≡ false
    → is_empty (trim_space id) ≡ false
    → Without 58 (to_lower (trim_space platform))
    → parse_canonical_id (build_canonical_id platform id)
      ≡ some (to_lower (trim_space platform), trim_space id)
parse-build_canonical_id platform id e f w =
    ap parse_canonical_id (build_canonical_id-parts platform id e f)
    ∙ parse-joined (to_lower (trim_space platform)) (trim_space id)
        (to_lower-IsTrimmed (trim_space platform) (trim_space-IsTrimmed platform))
        (trim_space-IsTrimmed id) e f w
