-- ===== src/Providers/ErrorClassifier/Tables.antt =====
-- The pattern tables of pkg/providers/error_classifier.go.
use ebiclaw.Prelude.{ℕ, ◌&&◌, ◌||◌, not, List, [], ◌∷◌, ◌++◌, leb, ◌==◌, ◌-◌}
use ebiclaw.Strings.{Text, codes}
use ebiclaw.Providers.Pattern.{Class, Item, one, optional, star, plus, captured, boundary}

-- errorPattern
pub data ErrorPattern : Type 0 where
  substr : Text → ErrorPattern
  rxp : List Item → ErrorPattern

-- A letter under (?i): its two cases, and the two letters outside ASCII that fold to k and to s.
unfoldable pub letter : ℕ → Class
letter l c =
    (c == l)
    || (leb 97 l && leb l 122 && (c == l - 32))
    || (l == 115 && (c == 0x17f))
    || (l == 107 && (c == 0x212a))

-- A literal text.
unfoldable pub literal : Text → List Item
unfolding letter
literal [] = []
literal (c ∷ s) = one (letter c) ∷ literal s

-- A literal text without (?i).
unfoldable pub exact : Text → List Item
exact [] = []
exact (c ∷ s) = one (λ x. x == c) ∷ exact s

-- \s, \d, `.` and [_ ]
abbrev pub is_blank : Class
is_blank c = (c == 9) || (c == 10) || (c == 12) || (c == 13) || (c == 32)

abbrev pub is_digit : Class
is_digit c = leb 48 c && leb c 57

abbrev pub is_any : Class
is_any c = not (c == 10)

abbrev pub is_gap : Class
is_gap c = (c == 95) || (c == 32)

-- status[:\s]+(\d{3})
unfoldable pub status_pattern : List Item
unfolding exact
status_pattern =
    exact (codes "status")
    ++ (plus (λ c. c == 58 || is_blank c)
        ∷ captured is_digit
        ∷ captured is_digit
        ∷ captured is_digit
        ∷ [])

-- http[/\s]+\d*\.?\d*\s+(\d{3})
unfoldable pub http_pattern : List Item
unfolding exact
http_pattern =
    exact (codes "http")
    ++ (plus (λ c. c == 47 || is_blank c)
        ∷ star is_digit
        ∷ optional (λ c. c == 46)
        ∷ star is_digit
        ∷ plus is_blank
        ∷ captured is_digit
        ∷ captured is_digit
        ∷ captured is_digit
        ∷ [])

-- \b([3-5]\d{2})\b
unfoldable pub code_pattern : List Item
code_pattern =
    boundary
    ∷ captured (λ c. leb 51 c && leb c 53)
    ∷ captured is_digit
    ∷ captured is_digit
    ∷ boundary
    ∷ []

-- Three literal digits between word boundaries.
unfoldable pub whole_word : Text → List Item
unfolding literal
whole_word w = boundary ∷ (literal w ++ (boundary ∷ []))

-- a.*b
unfoldable pub apart : Text → Text → List Item
unfolding literal
apart a b = literal a ++ (star is_any ∷ literal b)

unfoldable pub rate_limit_patterns : List ErrorPattern
unfolding literal apart
rate_limit_patterns =
    rxp (literal (codes "rate") ++ (one is_gap ∷ literal (codes "limit")))
    ∷ substr (codes "too many requests")
    ∷ substr (codes "429")
    ∷ substr (codes "exceeded your current quota")
    ∷ rxp (apart (codes "exceeded") (codes "quota"))
    ∷ rxp (literal (codes "resource has been exhausted"))
    ∷ rxp (apart (codes "resource") (codes "exhausted"))
    ∷ substr (codes "resource_exhausted")
    ∷ substr (codes "quota exceeded")
    ∷ substr (codes "usage limit")
    ∷ []

unfoldable pub overloaded_patterns : List ErrorPattern
unfolding literal
overloaded_patterns =
    rxp (literal (codes "overloaded_error"))
    ∷ rxp (
        literal (codes "\"type\"")
        ++ (star is_blank
            ∷ one (λ c. c == 58)
            ∷ star is_blank
            ∷ literal (codes "\"overloaded_error\"")))
    ∷ substr (codes "overloaded")
    ∷ []

abbrev pub timeout_patterns : List ErrorPattern
timeout_patterns =
    substr (codes "timeout")
    ∷ substr (codes "timed out")
    ∷ substr (codes "deadline exceeded")
    ∷ substr (codes "context deadline exceeded")
    ∷ []

unfoldable pub billing_patterns : List ErrorPattern
unfolding whole_word
billing_patterns =
    rxp (whole_word (codes "402"))
    ∷ substr (codes "payment required")
    ∷ substr (codes "insufficient credits")
    ∷ substr (codes "credit balance")
    ∷ substr (codes "plans & billing")
    ∷ substr (codes "insufficient balance")
    ∷ []

unfoldable pub auth_patterns : List ErrorPattern
unfolding literal whole_word
auth_patterns =
    rxp (
      literal (codes "invalid")
      ++ (optional is_gap ∷ (literal (codes "api") ++ (optional is_gap ∷ literal (codes "key")))))
    ∷ substr (codes "incorrect api key")
    ∷ substr (codes "invalid token")
    ∷ substr (codes "authentication")
    ∷ substr (codes "re-authenticate")
    ∷ substr (codes "oauth token refresh failed")
    ∷ substr (codes "unauthorized")
    ∷ substr (codes "forbidden")
    ∷ substr (codes "access denied")
    ∷ substr (codes "expired")
    ∷ substr (codes "token has expired")
    ∷ rxp (whole_word (codes "401"))
    ∷ rxp (whole_word (codes "403"))
    ∷ substr (codes "no credentials found")
    ∷ substr (codes "no api key found")
    ∷ []

abbrev pub format_patterns : List ErrorPattern
format_patterns =
    substr (codes "string should match pattern")
    ∷ substr (codes "tool_use.id")
    ∷ substr (codes "tool_use_id")
    ∷ substr (codes "messages.1.content.1.tool_use.id")
    ∷ substr (codes "invalid request format")
    ∷ []

unfoldable pub context_overflow_patterns : List ErrorPattern
unfolding literal
context_overflow_patterns =
    rxp (
      literal (codes "context")
      ++ (optional is_gap
          ∷ (literal (codes "length") ++ (optional is_gap ∷ literal (codes "exceeded")))))
    ∷ rxp (
        literal (codes "context")
        ++ (optional is_gap
            ∷ (literal (codes "window") ++ (optional is_gap ∷ literal (codes "exceeded")))))
    ∷ substr (codes "maximum context length")
    ∷ substr (codes "token limit")
    ∷ substr (codes "too many tokens")
    ∷ substr (codes "prompt is too long")
    ∷ substr (codes "request too large")
    ∷ []

unfoldable pub image_dimension_patterns : List ErrorPattern
unfolding literal
image_dimension_patterns = rxp (literal (codes "image dimensions exceed max")) ∷ []

unfoldable pub image_size_patterns : List ErrorPattern
unfolding apart
image_size_patterns = rxp (apart (codes "image exceeds") (codes "mb")) ∷ []
