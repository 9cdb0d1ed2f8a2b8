-- ===== src/Providers/ErrorClassifier.antt =====
-- pkg/providers/error_classifier.go. A nil error, and a nil FailoverError, are `none`.
pub mod Tables
pub mod Reasons
use ebiclaw.Prelude.{
  ℕ, ◌+◌, ◌-◌, ◌*◌, Bool, true, false, ◌&&◌, ◌||◌, not, Option, none, some, List, [], ◌∷◌,
  if◌then◌else◌, is_empty, leb, ltb, ◌==◌,
}
use ebiclaw.Strings.{Text, codes, to_lower, contains}
use ebiclaw.Providers.Reason.{
  FailoverReason, unset, auth, rate_limit, billing, timeout, format, context_overflow, reason_eq,
  GoError, canceled, deadline_exceeded, message, error_text, FailoverError,
}
use ebiclaw.Providers.Pattern.{Item, find_match}
use Tables.{
  ErrorPattern, substr, rxp, status_pattern, http_pattern, code_pattern, rate_limit_patterns,
  overloaded_patterns, timeout_patterns, billing_patterns, auth_patterns, format_patterns,
  context_overflow_patterns, image_dimension_patterns, image_size_patterns,
}

unfoldable pub matches : Text → ErrorPattern → Bool
unfolding find_match contains
matches msg (rxp items) = elim (find_match items msg) [ none ↦ false | some group ↦ true ]
matches msg (substr s) = not (is_empty s) && contains msg s

unfoldable pub matches_any : Text → List ErrorPattern → Bool
unfolding matches
matches_any msg [] = false
matches_any msg (p ∷ ps) = let rest = matches_any msg ps in if matches msg p then true else rest

unfoldable pub digits_from : ℕ → Text → ℕ
digits_from n [] = n
digits_from n (c ∷ s) = digits_from (if leb 48 c && leb c 57 then n * 10 + (c - 48) else n) s

unfoldable pub parse_digits : Text → ℕ
unfolding digits_from
parse_digits s = digits_from 0 s

-- httpStatusPatterns
unfoldable pub http_status_patterns : List (List Item)
unfolding status_pattern http_pattern code_pattern
http_status_patterns = status_pattern ∷ http_pattern ∷ code_pattern ∷ []

unfoldable pub first_status : List (List Item) → Text → ℕ
unfolding find_match parse_digits
first_status [] msg = 0
first_status (p ∷ ps) msg =
    let rest = first_status ps msg in
    elim (find_match p msg) [ none ↦ rest | some group ↦ parse_digits group ]

unfoldable pub extract_http_status : Text → ℕ
unfolding first_status http_status_patterns
extract_http_status msg = first_status http_status_patterns msg

-- transientStatusCodes[status]
unfoldable pub is_transient : ℕ → Bool
is_transient s =
    (s == 500)
    || (s == 502)
    || (s == 503)
    || (s == 521)
    || (s == 522)
    || (s == 523)
    || (s == 524)
    || (s == 529)

-- `unset` is the empty reason.
unfoldable pub classify_by_status : ℕ → FailoverReason
unfolding is_transient
classify_by_status status =
    if status == 401 || status == 403
    then auth
    else if status == 402
    then billing
    else if status == 408
    then timeout
    else if status == 429
    then rate_limit
    else if status == 400
    then format
    else if is_transient status
    then timeout
    else unset

unfoldable pub classify_by_message : Text → FailoverReason
classify_by_message msg =
    if matches_any msg rate_limit_patterns
    then rate_limit
    else if matches_any msg overloaded_patterns
    then rate_limit
    else if matches_any msg billing_patterns
    then billing
    else if matches_any msg timeout_patterns
    then timeout
    else if matches_any msg auth_patterns
    then auth
    else if matches_any msg format_patterns
    then format
    else if matches_any msg context_overflow_patterns
    then context_overflow
    else unset

unfoldable pub is_image_dimension_error : Text → Bool
is_image_dimension_error msg = matches_any msg image_dimension_patterns

unfoldable pub is_image_size_error : Text → Bool
is_image_size_error msg = matches_any msg image_size_patterns

-- The reason and the status that the text of an error gives.
unfoldable pub classify_text : Text → FailoverReason × ℕ
unfolding classify_by_status
classify_text msg =
    let status = extract_http_status msg in
    let by_status = if ltb 0 status then classify_by_status status else unset in
    if is_image_dimension_error msg || is_image_size_error msg
    then (format, 0)
    else if not (reason_eq by_status unset)
    then (by_status, status)
    else (classify_by_message msg, 0)

unfoldable pub classify_error : Option GoError → Text → Text → Option FailoverError
unfolding classify_text
classify_error none provider model = none
classify_error (some canceled) provider model = none
classify_error (some deadline_exceeded) provider model = some (record {
  reason = timeout;
  provider = provider;
  model = model;
  status = 0;
  wrapped = deadline_exceeded;
})
classify_error (some (message t)) provider model =
    let (reason, status) = classify_text (to_lower t) in
    if reason_eq reason unset
    then none
    else some (record {
      reason = reason;
      provider = provider;
      model = model;
      status = status;
      wrapped = message t;
    })
