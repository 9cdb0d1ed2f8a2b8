-- ===== src/Providers/Cooldown.antt =====
-- pkg/providers/cooldown.go. A time is the count of nanoseconds since Go's zero time, which is 0, and
-- a duration one of nanoseconds; both are left unbounded. Each method holds the mutex, so it is one
-- step; the clock that it reads is its argument `now`.
pub mod Durations
pub mod Availability
pub mod Counting
use ebiclaw.Prelude.{
  ℕ, ◌+◌, ◌-◌, ◌*◌, ◌^◌, Bool, true, false, ◌&&◌, not, Option, none, some, [], ltb, ◌==◌,
  if◌then◌else◌, min, max,
}
use ebiclaw.Strings.{Text}
use ebiclaw.Maps.{Map, get, put}
use ebiclaw.Providers.Reason.{FailoverReason, unset, billing, reason_eq}

abbrev pub nanos_per_ms : ℕ
nanos_per_ms = 1000000

-- 24 * time.Hour
abbrev pub default_failure_window : ℕ
default_failure_window = 86400000 * nanos_per_ms

pub record CooldownEntry : Type 0 where
  pub error_count : ℕ
  pub failure_counts : FailoverReason → ℕ
  pub cooldown_end : ℕ
  pub disabled_until : ℕ
  pub disabled_reason : FailoverReason
  pub last_failure : ℕ

pub record CooldownTracker : Type 0 where
  pub entries : Map CooldownEntry
  pub failure_window : ℕ

abbrev pub no_counts : FailoverReason → ℕ
no_counts r = 0

abbrev pub new_entry : CooldownEntry
new_entry = record {
  error_count = 0;
  failure_counts = no_counts;
  cooldown_end = 0;
  disabled_until = 0;
  disabled_reason = unset;
  last_failure = 0;
}

unfoldable pub new_cooldown_tracker : CooldownTracker
new_cooldown_tracker = record { entries = []; failure_window = default_failure_window }

-- calculateStandardCooldown
unfoldable pub standard_cooldown : ℕ → ℕ
standard_cooldown error_count =
    let n = max 1 error_count in
    let exp = min (n - 1) 3 in let ms = 60000 * 5 ^ exp in min 3600000 ms * nanos_per_ms

-- calculateBillingCooldown
unfoldable pub billing_cooldown : ℕ → ℕ
billing_cooldown billing_error_count =
    let n = max 1 billing_error_count in
    let exp = min (n - 1) 10 in let raw = 18000000 * 2 ^ exp in min 86400000 raw * nanos_per_ms

-- getOrCreate, with the entry that it returns; MarkFailure stores it back.
unfoldable pub get_or_create : CooldownTracker → Text → CooldownEntry
get_or_create ct provider = elim (get provider ct.entries) [ none ↦ new_entry | some e ↦ e ]

-- entry.FailureCounts[reason]++
unfoldable pub bump_count : FailoverReason → (FailoverReason → ℕ) → FailoverReason → ℕ
bump_count reason counts r = if reason_eq reason r then counts r + 1 else counts r

-- The reset of the failure window.
unfoldable pub reset_stale : ℕ → ℕ → CooldownEntry → CooldownEntry
reset_stale window now e =
    if not (e.last_failure == 0) && ltb window (now - e.last_failure)
    then record e { error_count = 0; failure_counts = no_counts }
    else e

-- The rest of MarkFailure, on the entry.
unfoldable pub count_failure : FailoverReason → ℕ → CooldownEntry → CooldownEntry
unfolding bump_count
count_failure reason now e =
    let counts = bump_count reason e.failure_counts in
    let counted = record e {
      error_count = e.error_count + 1;
      failure_counts = counts;
      last_failure = now;
    } in
    if reason_eq reason billing
    then record counted {
      disabled_until = now + billing_cooldown (counts billing);
      disabled_reason = billing;
    }
    else record counted { cooldown_end = now + standard_cooldown (e.error_count + 1) }

unfoldable pub mark_failure : Text → FailoverReason → ℕ → CooldownTracker → CooldownTracker
unfolding get_or_create reset_stale count_failure
mark_failure provider reason now ct =
    let entry = reset_stale ct.failure_window now (get_or_create ct provider) in
    record ct { entries = put provider (count_failure reason now entry) ct.entries }

unfoldable pub clear_entry : CooldownEntry → CooldownEntry
clear_entry e = record e {
  error_count = 0;
  failure_counts = no_counts;
  cooldown_end = 0;
  disabled_until = 0;
  disabled_reason = unset;
}

unfoldable pub mark_success : Text → CooldownTracker → CooldownTracker
unfolding clear_entry
mark_success provider ct = elim (get provider ct.entries) [
  | none ↦ ct
  | some e ↦ record ct { entries = put provider (clear_entry e) ct.entries }
]

-- `!until.IsZero() && now.Before(until)`
unfoldable pub is_pending : ℕ → ℕ → Bool
is_pending until now = not (until == 0) && ltb now until

unfoldable pub is_available : CooldownTracker → Text → ℕ → Bool
unfolding is_pending
is_available ct provider now = elim (get provider ct.entries) [
  | none ↦ true
  | some e ↦
      if is_pending e.disabled_until now
      then false
      else if is_pending e.cooldown_end now
      then false
      else true
]

-- One of the two blocks of CooldownRemaining.
unfoldable pub longer_wait : ℕ → ℕ → ℕ → ℕ
unfolding is_pending
longer_wait until now remaining =
    if is_pending until now
    then (if ltb remaining (until - now) then until - now else remaining)
    else remaining

unfoldable pub cooldown_remaining : CooldownTracker → Text → ℕ → ℕ
unfolding longer_wait
cooldown_remaining ct provider now = elim (get provider ct.entries) [
  | none ↦ 0
  | some e ↦ longer_wait e.cooldown_end now (longer_wait e.disabled_until now 0)
]

unfoldable pub error_count : CooldownTracker → Text → ℕ
error_count ct provider = elim (get provider ct.entries) [ none ↦ 0 | some e ↦ e.error_count ]

unfoldable pub failure_count : CooldownTracker → Text → FailoverReason → ℕ
failure_count ct provider reason = elim (get provider ct.entries) [
  | none ↦ 0
  | some e ↦ e.failure_counts reason
]
