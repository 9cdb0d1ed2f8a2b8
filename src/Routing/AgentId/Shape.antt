-- ===== src/Routing/AgentId/Shape.antt =====
-- What a normalised identifier looks like.
use ebiclaw.Prelude.{
  ℕ, zero, suc, ◌≡◌, ◌≤◌, ◌≢◌, Bool, true, false, [], ◌∷◌, ltb, is_empty, length, take, arith, refl,
  Bool-cases, inl, inr, &&-eq-true, length-take,
}
use ebiclaw.Strings.{Text, codes, trim_space, to_lower, trim_left, trim_right, keep_unless}
use ebiclaw.Strings.Trim.{Starts, trim_left-Starts, trim_right-Starts}
use ebiclaw.Routing.AgentId.{
  is_id_head, is_id_char, all_id_chars, valid_id, replace_invalid, is_dash, strip_dashes, clip,
  sanitize, normalize_id, normalize_agent_id, normalize_account_id,
}

abbrev pub IdChars : Text → Type 0
IdChars s = all_id_chars s ≡ true

-- Not empty, at most 64 characters, all of [a-z0-9_-], the first no dash.
pub record IsId (s : Text) : Type 0 where
  pub chars : IdChars s
  pub nonempty : s ≢ []
  pub short : length s ≤ 64
  pub head : Starts is_dash s

replace_invalid-IdChars : (b : Bool) (s : Text) → IdChars (replace_invalid b s)
unfolding replace_invalid all_id_chars
replace_invalid-IdChars b [] = refl
replace_invalid-IdChars b (c ∷ s) =
    ground (arith, replace_invalid-IdChars true s, replace_invalid-IdChars false s)

trim_left-IdChars : (p : ℕ → Bool) (s : Text) → IdChars s → IdChars (trim_left p s)
unfolding trim_left all_id_chars
trim_left-IdChars p [] h = refl
trim_left-IdChars p (c ∷ s) h = ground (arith, trim_left-IdChars p s)

keep_unless-IdChars :
    (p : ℕ → Bool) (c : ℕ) (r : Text)
    → is_id_char c ≡ true
    → IdChars r
    → IdChars (keep_unless p c r)
unfolding keep_unless all_id_chars
keep_unless-IdChars p c [] h k = ground arith
keep_unless-IdChars p c (d ∷ r) h k = ground arith

trim_right-IdChars : (p : ℕ → Bool) (s : Text) → IdChars s → IdChars (trim_right p s)
unfolding trim_right all_id_chars
trim_right-IdChars p [] h = refl
trim_right-IdChars p (c ∷ s) h =
    let (a, b) = &&-eq-true (is_id_char c) (all_id_chars s) h in
    keep_unless-IdChars p c (trim_right p s) a (trim_right-IdChars p s b)

take-IdChars : (n : ℕ) (s : Text) → IdChars s → IdChars (take n s)
unfolding all_id_chars
take-IdChars zero s h = refl
take-IdChars (suc n) [] h = refl
take-IdChars (suc n) (c ∷ s) h = ground (arith, take-IdChars n s)

clip-IdChars : (s : Text) → IdChars s → IdChars (clip s)
unfolding clip
clip-IdChars s h = elim (Bool-cases (ltb 64 (length s))) [
  | inl e ↦ rw e (take-IdChars 64 s h)
  | inr e ↦ rw e h
]

clip_short : (s : Text) → length (clip s) ≤ 64
unfolding clip
clip_short s = elim (Bool-cases (ltb 64 (length s))) [
  | inl e ↦ rw e (omega (arith, length-take 64 s))
  | inr e ↦ rw e (ground arith)
]

clip-Starts : (s : Text) → Starts is_dash s → Starts is_dash (clip s)
unfolding clip
clip-Starts [] h = tt
clip-Starts (c ∷ s) h = elim (Bool-cases (ltb 64 (length (c ∷ s)))) [
  | inl e ↦ rw e h
  | inr e ↦ rw e h
]

-- The head of a valid identifier is no dash.
valid_id-IsId : (s : Text) → valid_id s ≡ true → IsId s
unfolding valid_id all_id_chars is_id_char is_id_head
valid_id-IsId [] h = cc
valid_id-IsId (c ∷ s) h = record {
  chars = ground arith;
  nonempty = λ e. cc;
  short = ground arith;
  head = ground arith;
}

-- What the sanitising leaves, where it is not empty.
pub sanitize-IsId : (lower : Text) → is_empty (sanitize lower) ≡ false → IsId (sanitize lower)
unfolding sanitize strip_dashes
sanitize-IsId lower h =
    let s = replace_invalid false lower in
    let t = trim_left is_dash s in
    record {
      chars = clip-IdChars (trim_right is_dash t) (
          trim_right-IdChars is_dash t
            (trim_left-IdChars is_dash s (replace_invalid-IdChars false lower)));
      nonempty = λ e. cc;
      short = clip_short (trim_right is_dash t);
      head =
          clip-Starts (trim_right is_dash t)
            (trim_right-Starts is_dash t (trim_left-Starts is_dash s));
    }

-- The three sources of a result: the default, the text as it stands, the sanitised text.
pub normalize_id_induction {κ} :
    (P : Text → Type κ) (default id : Text)
    → P default
    → (valid_id (to_lower (trim_space id)) ≡ true → P (to_lower (trim_space id)))
    → (is_empty (sanitize (to_lower (trim_space id))) ≡ false
        → P (sanitize (to_lower (trim_space id))))
    → P (normalize_id default id)
unfolding normalize_id
normalize_id_induction P default id h v s = elim (Bool-cases (is_empty (trim_space id))) [
  | inl e ↦ rw e h
  | inr e ↦ rw e (elim (Bool-cases (valid_id (to_lower (trim_space id)))) [
    | inl a ↦ rw a (v a)
    | inr a ↦ rw a (elim (Bool-cases (is_empty (sanitize (to_lower (trim_space id))))) [
      | inl b ↦ rw b h
      | inr b ↦ rw b (s b)
    ])
  ])
]

normalize_id-IsId : (default id : Text) → IsId default → IsId (normalize_id default id)
normalize_id-IsId default id h =
    normalize_id_induction IsId default id h (valid_id-IsId (to_lower (trim_space id)))
      (sanitize-IsId (to_lower (trim_space id)))

main-IsId : IsId (codes "main")
unfolding all_id_chars
main-IsId = record { chars = refl; nonempty = λ e. cc; short = omega arith; head = refl }

default-IsId : IsId (codes "default")
unfolding all_id_chars
default-IsId = record { chars = refl; nonempty = λ e. cc; short = omega arith; head = refl }

-- Whatever the input, NormalizeAgentID gives a text that is not empty, has at most 64 characters,
-- all of [a-z0-9_-], and does not begin with a dash.
pub normalize_agent_id-IsId : (id : Text) → IsId (normalize_agent_id id)
unfolding normalize_agent_id
normalize_agent_id-IsId id = normalize_id-IsId (codes "main") id main-IsId

-- The same of NormalizeAccountID.
pub normalize_account_id-IsId : (id : Text) → IsId (normalize_account_id id)
unfolding normalize_account_id
normalize_account_id-IsId id = normalize_id-IsId (codes "default") id default-IsId
