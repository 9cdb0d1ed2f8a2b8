-- ===== src/Providers/Cooldown/Availability.antt =====
-- When a provider may be tried again.
use ebiclaw.Prelude.{
  ℕ, ◌+◌, ◌<◌, ◌≡◌, ◌↔◌, Bool, true, false, none, some, if◌then◌else◌, arith, refl, ◌∙◌,
  Option-cases, inl, inr,
}
use ebiclaw.Strings.{Text, text_eq}
use ebiclaw.Maps.{get, put, get-put_self, get-put_ne}
use ebiclaw.Providers.Reason.{FailoverReason, billing, reason_eq}
use ebiclaw.Providers.Cooldown.{
  CooldownEntry, CooldownTracker, standard_cooldown, billing_cooldown, get_or_create, reset_stale,
  count_failure, mark_failure, clear_entry, mark_success, is_pending, is_available, longer_wait,
  cooldown_remaining, error_count, failure_count,
}

-- The two tests of IsAvailable and the two blocks of CooldownRemaining, on one entry.
entry_available : CooldownEntry → ℕ → Bool
unfolding is_pending
entry_available e now =
    if is_pending e.disabled_until now
    then false
    else if is_pending e.cooldown_end now
    then false
    else true

entry_remaining : CooldownEntry → ℕ → ℕ
unfolding longer_wait
entry_remaining e now = longer_wait e.cooldown_end now (longer_wait e.disabled_until now 0)

entry_available-remaining :
    (e : CooldownEntry) (now : ℕ)
    → ((entry_available e now ≡ true) ↔ (entry_remaining e now ≡ 0))
      × (entry_available e (now + entry_remaining e now) ≡ true)
unfolding entry_available entry_remaining
entry_available-remaining e now = (ground arith, ground arith)

is_available-get :
    (ct : CooldownTracker) (provider : Text) (now : ℕ) {e : CooldownEntry}
    → get provider ct.entries ≡ some e
    → is_available ct provider now ≡ entry_available e now
unfolding is_available entry_available
is_available-get ct provider now h = rw (h, is_available) refl

cooldown_remaining-get :
    (ct : CooldownTracker) (provider : Text) (now : ℕ) {e : CooldownEntry}
    → get provider ct.entries ≡ some e
    → cooldown_remaining ct provider now ≡ entry_remaining e now
unfolding cooldown_remaining entry_remaining
cooldown_remaining-get ct provider now h = rw (h, cooldown_remaining) refl

is_available-missing :
    (ct : CooldownTracker) (provider : Text) (now : ℕ)
    → get provider ct.entries ≡ none
    → (is_available ct provider now ≡ true) × (cooldown_remaining ct provider now ≡ 0)
unfolding is_available cooldown_remaining
is_available-missing ct provider now h =
    (rw (h, is_available) refl, rw (h, cooldown_remaining) refl)

-- IsAvailable and CooldownRemaining agree: a provider is available exactly when no time remains, and
-- it is available once the remaining time has passed.
pub is_available-cooldown_remaining :
    (ct : CooldownTracker) (provider : Text) (now : ℕ)
    → ((is_available ct provider now ≡ true) ↔ (cooldown_remaining ct provider now ≡ 0))
      × (is_available ct provider (now + cooldown_remaining ct provider now) ≡ true)
is_available-cooldown_remaining ct provider now = elim (Option-cases (get provider ct.entries)) [
  | inl n ↦
      let (a, r) = is_available-missing ct provider now n in
      (
        (λ h. r, λ h. a),
        (is_available-missing ct provider (now + cooldown_remaining ct provider now) n).0,
      )
  | inr (e, p) ↦
      rw
        (
          is_available-get ct provider now p,
          cooldown_remaining-get ct provider now p,
          is_available-get ct provider (now + entry_remaining e now) p,
        )
        (entry_available-remaining e now)
]

is_pending-lt : (until now : ℕ) → now < until → is_pending until now ≡ true
unfolding is_pending
is_pending-lt until now h = ground arith

-- The cooldown that a failure sets, by its counters.
abbrev pub cooldown_of : FailoverReason → ℕ → ℕ → ℕ
cooldown_of reason errors billings =
    if reason_eq reason billing then billing_cooldown billings else standard_cooldown errors

second : (p : Bool) → (if p then false else (if true then false else true)) ≡ false
second true = refl
second false = refl

-- Availability depends on the provider's own entry alone.
available_same :
    (ct ct' : CooldownTracker) (provider : Text) (t : ℕ)
    → get provider ct.entries ≡ get provider ct'.entries
    → is_available ct provider t ≡ is_available ct' provider t
unfolding is_available
available_same ct ct' provider t h = rw (h, is_available) refl

count_failure_unavailable :
    (reason : FailoverReason) (now t : ℕ) (e : CooldownEntry)
    → t
      < now
        + cooldown_of reason
            (count_failure reason now e).error_count
            ((count_failure reason now e).failure_counts billing)
    → entry_available (count_failure reason now e) t ≡ false
unfolding entry_available count_failure
count_failure_unavailable billing now t e h =
    rw (is_pending-lt (now + billing_cooldown (e.failure_counts billing + 1)) t h) refl
count_failure_unavailable _ now t e h =
    rw (is_pending-lt (now + standard_cooldown (e.error_count + 1)) t h)
      (second (is_pending e.disabled_until t))

module _ (ct : CooldownTracker) (provider : Text) (reason : FailoverReason) (now : ℕ) where
  abbrev pub failed : CooldownTracker
  failed = mark_failure provider reason now ct

  abbrev before_failure : CooldownEntry
  before_failure = reset_stale ct.failure_window now (get_or_create ct provider)

  get-mark_failure : get provider failed.entries ≡ some (count_failure reason now before_failure)
  unfolding mark_failure
  get-mark_failure = get-put_self provider (count_failure reason now before_failure) ct.entries

  get-mark_failure_ne :
      (other : Text)
      → text_eq provider other ≡ false
      → get other failed.entries ≡ get other ct.entries
  unfolding mark_failure
  get-mark_failure_ne other h =
      get-put_ne provider other (count_failure reason now before_failure) ct.entries h

  error_count-mark_failure :
      error_count failed provider ≡ (count_failure reason now before_failure).error_count
  unfolding error_count
  error_count-mark_failure = rw (get-mark_failure, error_count) refl

  failure_count-mark_failure :
      failure_count failed provider billing
      ≡ (count_failure reason now before_failure).failure_counts billing
  unfolding failure_count
  failure_count-mark_failure = rw (get-mark_failure, failure_count) refl

  -- After a failure the provider is unavailable until its cooldown is over: the standard one of its
  -- error count, or for a billing failure that of its count of billing failures. Any other provider
  -- is available at every time exactly when it was before.
  pub mark_failure-is_available :
      (t : ℕ) (other : Text)
      → t
        < now
          + cooldown_of reason (error_count failed provider) (failure_count failed provider billing)
      → text_eq provider other ≡ false
      → (is_available failed provider t ≡ false)
        × (is_available failed other t ≡ is_available ct other t)
  mark_failure-is_available t other h n = (
    is_available-get failed provider t get-mark_failure
        ∙ count_failure_unavailable reason now t before_failure
            (rw (error_count-mark_failure, failure_count-mark_failure) at h),
    available_same failed ct other t (get-mark_failure_ne other n),
  )

clear_entry_available : (e : CooldownEntry) (t : ℕ) → entry_available (clear_entry e) t ≡ true
unfolding entry_available is_pending clear_entry
clear_entry_available e t = refl

module _ (ct : CooldownTracker) (provider : Text) where
  -- After a success the provider is available at every time and has no errors counted; any other
  -- provider is available exactly when it was before.
  pub mark_success-is_available :
      (t : ℕ) (other : Text)
      → text_eq provider other ≡ false
      → (is_available (mark_success provider ct) provider t ≡ true)
        × (error_count (mark_success provider ct) provider ≡ 0)
        × (is_available (mark_success provider ct) other t ≡ is_available ct other t)
  unfolding mark_success
  mark_success-is_available t other n = elim (Option-cases (get provider ct.entries)) [
    | inl e ↦
        rw (e, mark_success)
          (
            (is_available-missing ct provider t e).0,
            unfold error_count in (rw (e, error_count) refl),
            refl,
          )
    | inr (c, e) ↦ rw (e, mark_success) (stored c)
  ]
    where
      stored :
          (c : CooldownEntry)
          → let ct' = record ct { entries = put provider (clear_entry c) ct.entries } in
            (is_available ct' provider t ≡ true)
            × (error_count ct' provider ≡ 0)
            × (is_available ct' other t ≡ is_available ct other t)
      stored c =
          let ct' = record ct { entries = put provider (clear_entry c) ct.entries } in
          let found = get-put_self provider (clear_entry c) ct.entries in
          (
            is_available-get ct' provider t found ∙ clear_entry_available c t,
            unfold error_count clear_entry in (rw (found, error_count) refl),
            available_same ct' ct other t (get-put_ne provider other (clear_entry c) ct.entries n),
          )
