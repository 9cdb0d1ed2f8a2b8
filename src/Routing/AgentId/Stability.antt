-- ===== src/Routing/AgentId/Stability.antt =====
-- What a second normalisation does, and where the result misses the documented pattern.
use ebiclaw.Prelude.{
  ℕ, ◌≡◌, ◌≤◌, true, false, [], ◌∷◌, ltb, length, arith, refl, Bool-cases, inl, inr, &&-eq-true,
  All, ◌∙◌, ap,
}
use ebiclaw.Strings.{Text, trim_space, to_lower, is_space}
use ebiclaw.Strings.Trim.{Starts, Ends, trim_left_id, trim_right_id, IsTrimmed, trim_space_id}
use ebiclaw.Strings.Case.{NotCapital, to_lower_id}
use ebiclaw.Routing.AgentId.{
  is_id_head, is_id_char, all_id_chars, valid_id, replace_invalid, is_dash, strip_dashes, clip,
  sanitize, normalize_id, normalize_agent_id,
}
use ebiclaw.Routing.AgentId.Shape.{IdChars, IsId, normalize_agent_id-IsId}

is_id_char-NotCapital : (c : ℕ) → is_id_char c ≡ true → NotCapital c
unfolding is_id_char is_id_head
is_id_char-NotCapital c h = ground arith

is_id_char-is_space : (c : ℕ) → is_id_char c ≡ true → is_space c ≡ false
unfolding is_id_char is_id_head is_space
is_id_char-is_space c h = ground arith

pub IdChars-NotCapital : (s : Text) → IdChars s → All NotCapital s
unfolding all_id_chars
IdChars-NotCapital [] h = tt
IdChars-NotCapital (c ∷ s) h =
    let (a, b) = &&-eq-true (is_id_char c) (all_id_chars s) h in
    (is_id_char-NotCapital c a, IdChars-NotCapital s b)

IdChars-Starts : (s : Text) → IdChars s → Starts is_space s
unfolding all_id_chars
IdChars-Starts [] h = tt
IdChars-Starts (c ∷ s) h = is_id_char-is_space c (&&-eq-true (is_id_char c) (all_id_chars s) h).0

IdChars-Ends : (s : Text) → IdChars s → Ends is_space s
unfolding all_id_chars
IdChars-Ends [] h = tt
IdChars-Ends (c ∷ []) h = is_id_char-is_space c (&&-eq-true (is_id_char c) true h).0
IdChars-Ends (c ∷ d ∷ s) h =
    IdChars-Ends (d ∷ s) (&&-eq-true (is_id_char c) (all_id_chars (d ∷ s)) h).1

pub IdChars-IsTrimmed : (s : Text) → IdChars s → IsTrimmed s
IdChars-IsTrimmed s h = record { starts = IdChars-Starts s h; ends = IdChars-Ends s h }

-- Trimming and lower case leave such a text alone.
pub IdChars-lower_trim : (s : Text) → IdChars s → to_lower (trim_space s) ≡ s
IdChars-lower_trim s h =
    ap to_lower (trim_space_id s (IdChars-IsTrimmed s h)) ∙ to_lower_id s (IdChars-NotCapital s h)

-- The first character is one of [a-z0-9], as the documented pattern wants.
abbrev pub HasIdHead : Text → Type 0
HasIdHead [] = ⊥
HasIdHead (c ∷ s) = is_id_head c ≡ true

IsId-valid_id : (s : Text) → IsId s → HasIdHead s → valid_id s ≡ true
unfolding valid_id all_id_chars
IsId-valid_id [] h k = absurd k
IsId-valid_id (c ∷ s) h k =
    let e : all_id_chars (c ∷ s) ≡ true = h.chars in
    let n : length (c ∷ s) ≤ 64 = h.short in ground (arith, e, n, k)

pub normalize_agent_id_id : (s : Text) → IsId s → HasIdHead s → normalize_agent_id s ≡ s
unfolding normalize_agent_id normalize_id
normalize_agent_id_id [] h k = absurd k
normalize_agent_id_id (c ∷ s) h k =
    rw
      (
        trim_space_id (c ∷ s) (IdChars-IsTrimmed (c ∷ s) h.chars),
        to_lower_id (c ∷ s) (IdChars-NotCapital (c ∷ s) h.chars),
        IsId-valid_id (c ∷ s) h k,
      )
      refl

-- Where a normal form begins with a letter or a digit, normalising it again changes nothing.
pub normalize_agent_id-idempotent :
    (id : Text)
    → HasIdHead (normalize_agent_id id)
    → normalize_agent_id (normalize_agent_id id) ≡ normalize_agent_id id
normalize_agent_id-idempotent id h =
    normalize_agent_id_id (normalize_agent_id id) (normalize_agent_id-IsId id) h

replace_invalid_id : (s : Text) → IdChars s → replace_invalid false s ≡ s
unfolding replace_invalid all_id_chars
replace_invalid_id [] h = refl
replace_invalid_id (c ∷ s) h =
    let (a, b) = &&-eq-true (is_id_char c) (all_id_chars s) h in rw (a, replace_invalid_id s b) refl

clip_id : (s : Text) → length s ≤ 64 → clip s ≡ s
unfolding clip
clip_id s h = elim (Bool-cases (ltb 64 (length s))) [
  | inl e ↦ absurd (ground arith)
  | inr e ↦ rw e refl
]

sanitize_id :
    (s : Text) → IdChars s → Starts is_dash s → Ends is_dash s → length s ≤ 64 → sanitize s ≡ s
unfolding sanitize strip_dashes
sanitize_id s h a b n =
    rw (replace_invalid_id s h, trim_left_id is_dash s a, trim_right_id is_dash s b) (clip_id s n)

-- An identifier of [a-z0-9_-] that begins with an underscore, has at most 64 characters and does
-- not end with a dash is returned as it is, although the documented pattern
-- [a-z0-9][a-z0-9_-]{0,63} refuses it.
pub normalize_agent_id-underscore :
    (s : Text)
    → IdChars s
    → length s ≤ 63
    → Ends is_dash (95 ∷ s)
    → (normalize_agent_id (95 ∷ s) ≡ 95 ∷ s) × (valid_id (normalize_agent_id (95 ∷ s)) ≡ false)
normalize_agent_id-underscore s h n e = (same, ap valid_id same ∙ refused)
  where
    chars : IdChars (95 ∷ s)
    chars = unfold all_id_chars is_id_char is_id_head in h

    refused : valid_id (95 ∷ s) ≡ false
    refused = unfold valid_id is_id_head in refl

    same : normalize_agent_id (95 ∷ s) ≡ 95 ∷ s
    same =
        unfold normalize_agent_id normalize_id in
        rw
          (
            trim_space_id (95 ∷ s) (IdChars-IsTrimmed (95 ∷ s) chars),
            to_lower_id (95 ∷ s) (IdChars-NotCapital (95 ∷ s) chars),
            refused,
            sanitize_id (95 ∷ s) chars refl e (omega arith),
          )
          refl
