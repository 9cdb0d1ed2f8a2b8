-- ===== src/Session/FileNames.antt =====
-- The file names of sessions.
use ebiclaw.Prelude.{
  ℕ, suc, ◌≡◌, ◌≢◌, [], ◌∷◌, ◌++◌, if◌then◌else◌, length, ◌==◌, arith, refl, ap, ◌∙◌, sym, All,
}
use ebiclaw.Strings.{Text, codes}
use ebiclaw.Session.{replace_rune, sanitize_filename}

-- No colon, slash or backslash.
abbrev pub IsSafe : ℕ → Type 0
IsSafe c = (c ≢ 58) × (c ≢ 47) × (c ≢ 92)

length-replace_rune : (old new : ℕ) (s : Text) → length (replace_rune old new s) ≡ length s
unfolding replace_rune
length-replace_rune old new [] = refl
length-replace_rune old new (c ∷ s) = ap suc (length-replace_rune old new s)

replace_rune-append :
    (old new : ℕ) (s t : Text)
    → replace_rune old new (s ++ t) ≡ replace_rune old new s ++ replace_rune old new t
unfolding replace_rune
replace_rune-append old new [] t = refl
replace_rune-append old new (c ∷ s) t =
    ap (λ (r : Text). (if c == old then new else c) ∷ r) (replace_rune-append old new s t)

sanitize-IsSafe : (s : Text) → All IsSafe (sanitize_filename s)
unfolding sanitize_filename
sanitize-IsSafe [] = tt
sanitize-IsSafe (c ∷ s) = (first c, sanitize-IsSafe s)
  where
    first :
        (x : ℕ)
        → let a : ℕ = if x == 58 then 95 else x in
          let b : ℕ = if a == 47 then 95 else a in IsSafe (if b == 92 then 95 else b)
    first x = ground arith

sanitize-append :
    (s t : Text) → sanitize_filename (s ++ t) ≡ sanitize_filename s ++ sanitize_filename t
unfolding sanitize_filename
sanitize-append s t =
    ap (λ (r : Text). replace_rune 92 95 (replace_rune 47 95 r)) (replace_rune-append 58 95 s t)
    ∙ ap (replace_rune 92 95)
        (replace_rune-append 47 95 (replace_rune 58 95 s) (replace_rune 58 95 t))
    ∙ replace_rune-append 92 95 (replace_rune 47 95 (replace_rune 58 95 s))
        (replace_rune 47 95 (replace_rune 58 95 t))

-- The file name of a session has no colon, slash or backslash, and as many code points as its key.
pub sanitize_filename-IsSafe :
    (key : Text)
    → All IsSafe (sanitize_filename key) × (length (sanitize_filename key) ≡ length key)
unfolding sanitize_filename
sanitize_filename-IsSafe key = (
  sanitize-IsSafe key,
  length-replace_rune 92 95 (replace_rune 47 95 (replace_rune 58 95 key))
      ∙ length-replace_rune 47 95 (replace_rune 58 95 key)
      ∙ length-replace_rune 58 95 key,
)

-- Different sessions may share a file: keys that differ in a colon, a slash or a backslash against an
-- underscore have the same file name.
pub sanitize_filename_collision :
    (s t : Text)
    → (sanitize_filename (s ++ (codes ":" ++ t)) ≡ sanitize_filename (s ++ (codes "_" ++ t)))
      × (sanitize_filename (s ++ (codes "/" ++ t)) ≡ sanitize_filename (s ++ (codes "_" ++ t)))
      × (sanitize_filename (s ++ (codes "\\" ++ t)) ≡ sanitize_filename (s ++ (codes "_" ++ t)))
sanitize_filename_collision s t =
    (same (codes ":") refl_at, same (codes "/") refl_at', same (codes "\\") refl_at'')
  where
    same :
        (mid : Text)
        → sanitize_filename (mid ++ t) ≡ sanitize_filename (codes "_" ++ t)
        → sanitize_filename (s ++ (mid ++ t)) ≡ sanitize_filename (s ++ (codes "_" ++ t))
    same mid e =
        sanitize-append s (mid ++ t)
        ∙ ap (λ (r : Text). sanitize_filename s ++ r) e
        ∙ sym (sanitize-append s (codes "_" ++ t))

    refl_at : sanitize_filename (codes ":" ++ t) ≡ sanitize_filename (codes "_" ++ t)
    refl_at = unfold sanitize_filename in refl

    refl_at' : sanitize_filename (codes "/" ++ t) ≡ sanitize_filename (codes "_" ++ t)
    refl_at' = unfold sanitize_filename in refl

    refl_at'' : sanitize_filename (codes "\\" ++ t) ≡ sanitize_filename (codes "_" ++ t)
    refl_at'' = unfold sanitize_filename in refl
