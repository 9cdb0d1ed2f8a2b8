-- ===== src/Providers/ErrorClassifier/Reasons.antt =====
-- What a classification can be, and how a status is read.
use ebiclaw.Prelude.{
  ℕ, ◌+◌, ◌-◌, ◌*◌, ◌≡◌, ◌≢◌, inl, inr, Bool, true, false, ◌||◌, Option, none, some, List, [], ◌∷◌,
  ◌++◌, if◌then◌else◌, ltb, ◌==◌, refl, ap, Bool-cases, arith,
}
use ebiclaw.Strings.{Text, codes, to_lower}
use ebiclaw.Providers.Reason.{
  FailoverReason, unset, auth, rate_limit, billing, timeout, format, context_overflow, reason_eq,
  GoError, canceled, deadline_exceeded, message, FailoverError,
}
use ebiclaw.Providers.Pattern.{
  Item, captured, find_match, find_from, match_here, match_star, or_else,
}
use ebiclaw.Providers.ErrorClassifier.{
  matches_any, is_transient, classify_by_status, classify_by_message, classify_text, classify_error,
  extract_http_status, first_status, is_image_dimension_error, is_image_size_error,
}
use ebiclaw.Providers.ErrorClassifier.Tables.{
  rate_limit_patterns, overloaded_patterns, timeout_patterns, billing_patterns, auth_patterns,
  format_patterns, context_overflow_patterns, status_pattern, is_digit, is_blank,
}

-- The reasons that the classifier gives; `overloaded` and `unknown` are not among them.
abbrev pub IsGiven : FailoverReason → Type 0
IsGiven auth = Unit
IsGiven rate_limit = Unit
IsGiven billing = Unit
IsGiven timeout = Unit
IsGiven format = Unit
IsGiven context_overflow = Unit
IsGiven other = ⊥

-- Such a reason, or none.
record IsGivenOrUnset (r : FailoverReason) : Type 0 where
  given : reason_eq r unset ≡ false → IsGiven r

if_given :
    (b : Bool) (x y : FailoverReason)
    → IsGiven x
    → IsGivenOrUnset y
    → IsGivenOrUnset (if b then x else y)
if_given true x y h k = record { given = λ e. h }
if_given false x y h k = k

unset_given : IsGivenOrUnset unset
unset_given = record { given = λ e. cc }

classify_by_status_given : (status : ℕ) → IsGivenOrUnset (classify_by_status status)
unfolding classify_by_status
classify_by_status_given status = if_given (status == 401 || status == 403) auth _ tt (
    if_given (status == 402) billing _ tt (
      if_given (status == 408) timeout _ tt (
        if_given (status == 429) rate_limit _ tt (
          if_given (status == 400) format _ tt
            (if_given (is_transient status) timeout _ tt unset_given)))))

classify_by_message_given : (msg : Text) → IsGivenOrUnset (classify_by_message msg)
unfolding classify_by_message
classify_by_message_given msg = if_given (matches_any msg rate_limit_patterns) rate_limit _ tt (
    if_given (matches_any msg overloaded_patterns) rate_limit _ tt (
      if_given (matches_any msg billing_patterns) billing _ tt (
        if_given (matches_any msg timeout_patterns) timeout _ tt (
          if_given (matches_any msg auth_patterns) auth _ tt (
            if_given (matches_any msg format_patterns) format _ tt (
              if_given (matches_any msg context_overflow_patterns) context_overflow _ tt
                unset_given))))))

by_status_given :
    (status : ℕ) → IsGivenOrUnset (if ltb 0 status then classify_by_status status else unset)
by_status_given status = elim (Bool-cases (ltb 0 status)) [
  | inl e ↦ rw e (classify_by_status_given status)
  | inr e ↦ rw e unset_given
]

classify_text_given : (msg : Text) → IsGivenOrUnset (classify_text msg).0
unfolding classify_text
classify_text_given msg =
    let status = extract_http_status msg in
    elim (Bool-cases (is_image_dimension_error msg || is_image_size_error msg)) [
      | inl e ↦ rw e (record { given = λ k. tt })
      | inr e ↦
          rw e
            (elim (Bool-cases
              (reason_eq (if ltb 0 status then classify_by_status status else unset) unset)) [
                | inl u ↦ rw u (classify_by_message_given msg)
                | inr u ↦ rw u (by_status_given status)
              ])
    ]

-- ClassifyError gives nothing for a nil error and for the user's cancellation. A classification that
-- it gives names the provider, the model and the error that it was asked about, and its reason is one
-- of auth, rate_limit, billing, timeout, format and context_overflow.
pub classify_error_sound :
    (err : Option GoError) (provider model : Text) {f : FailoverError}
    → classify_error err provider model ≡ some f
    → (err ≡ some f.wrapped)
      × (f.wrapped ≢ canceled)
      × (f.provider ≡ provider)
      × (f.model ≡ model)
      × IsGiven f.reason
unfolding classify_error
classify_error_sound none provider model h = cc
classify_error_sound (some canceled) provider model h = cc
classify_error_sound (some deadline_exceeded) provider model {f} h =
    let e : f ≡ record {
      reason = timeout;
      provider = provider;
      model = model;
      status = 0;
      wrapped = deadline_exceeded;
    } =
      cc in
    rw e (refl, (λ p. cc), refl, refl, tt)
classify_error_sound (some (message t)) provider model {f} h =
    elim (Bool-cases (reason_eq (classify_text (to_lower t)).0 unset)) [
      | inl u ↦ absurd (missing (rw u at h))
      | inr u ↦
          let e : f ≡ record {
            reason = (classify_text (to_lower t)).0;
            provider = provider;
            model = model;
            status = (classify_text (to_lower t)).1;
            wrapped = message t;
          } =
            cc (rw u at h) in
          rw e (refl, (λ p. cc), refl, refl, (classify_text_given (to_lower t)).given u)
    ]
  where
    missing : ◌≡◌ {A = Option FailoverError} none (some f) → ⊥
    missing p = cc

digit_no_gap : (a : ℕ) → is_digit a ≡ true → ((a == 58) || is_blank a) ≡ false
digit_no_gap a h = ground arith

abbrev three_digits : List Item
three_digits = captured is_digit ∷ captured is_digit ∷ captured is_digit ∷ []

module _ (a b c : ℕ) (rest : Text) (ha : is_digit a ≡ true) (hb : is_digit b ≡ true)
    (hc : is_digit c ≡ true) where
  capture_three : (w : Bool) → match_here three_digits w (a ∷ b ∷ c ∷ rest) ≡ some (a ∷ b ∷ c ∷ [])
  unfolding match_here
  capture_three w = simp (ha, hb, hc)

  star_three :
      (w : Bool)
      → match_star (λ x. x == 58 || is_blank x) (match_here three_digits) w (a ∷ b ∷ c ∷ rest)
        ≡ some (a ∷ b ∷ c ∷ [])
  unfolding match_star
  star_three w = rw (digit_no_gap a ha, capture_three w) refl

  match_status :
      find_match status_pattern (codes "status: " ++ (a ∷ b ∷ c ∷ rest)) ≡ some (a ∷ b ∷ c ∷ [])
  unfolding find_match status_pattern
  match_status =
      ap
        (λ (m : Option Text).
          or_else (or_else m none)
            (find_from status_pattern true (codes "tatus: " ++ (a ∷ b ∷ c ∷ rest))))
        (star_three false)

-- A message that begins with "status: " and three digits has the status that they spell, whatever
-- follows.
pub extract_http_status-status :
    (a b c : ℕ) (rest : Text)
    → is_digit a ≡ true
    → is_digit b ≡ true
    → is_digit c ≡ true
    → extract_http_status (codes "status: " ++ (a ∷ b ∷ c ∷ rest))
      ≡ 100 * (a - 48) + 10 * (b - 48) + (c - 48)
unfolding extract_http_status
extract_http_status-status a b c rest ha hb hc =
    rw (match_status a b c rest ha hb hc, first_status) (rw (ha, hb, hc) (omega arith))
