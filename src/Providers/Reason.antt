-- ===== src/Providers/Reason.antt =====
-- pkg/providers/types.go: why a request to a model failed. `unset` is the empty string.
use ebiclaw.Prelude.{ℕ, Bool, ◌&&◌, not, ◌==◌}
use ebiclaw.Strings.{Text, codes}

pub data FailoverReason : Type 0 where
  unset auth rate_limit billing timeout format context_overflow overloaded unknown : FailoverReason

abbrev pub reason_index : FailoverReason → ℕ
reason_index unset = 0
reason_index auth = 1
reason_index rate_limit = 2
reason_index billing = 3
reason_index timeout = 4
reason_index format = 5
reason_index context_overflow = 6
reason_index overloaded = 7
reason_index unknown = 8

abbrev pub reason_eq : FailoverReason → FailoverReason → Bool
reason_eq a b = reason_index a == reason_index b

-- An error value: the two that the context package exports, by which the code compares, and any other
-- by its text.
pub data GoError : Type 0 where
  canceled : GoError
  deadline_exceeded : GoError
  message : Text → GoError

-- err.Error()
unfoldable pub error_text : GoError → Text
error_text canceled = codes "context canceled"
error_text deadline_exceeded = codes "context deadline exceeded"
error_text (message t) = t

pub record FailoverError : Type 0 where
  pub reason : FailoverReason
  pub provider : Text
  pub model : Text
  pub status : ℕ
  pub wrapped : GoError

-- FailoverError.IsRetriable
unfoldable pub is_retriable : FailoverError → Bool
is_retriable e = not (reason_eq e.reason format) && not (reason_eq e.reason context_overflow)
