-- ===== src/Providers/Cooldown/Counting.antt =====
-- The counters of failures over any history of a tracker.
use ebiclaw.Prelude.{
  ℕ, ◌+◌, ◌-◌, ◌≡◌, ◌&&◌, not, some, List, [], ◌∷◌, ltb, ◌==◌, arith, refl, ap, sym, ◌∙◌,
  Bool-cases, Option-cases, inl, inr, subst,
}
use ebiclaw.Strings.{Text}
use ebiclaw.Strings.Equal.{text_eq-cases}
use ebiclaw.Maps.{get, put, get-put_self, get-put_ne}
use ebiclaw.Providers.Reason.{
  FailoverReason, unset, auth, rate_limit, billing, timeout, format, context_overflow, overloaded,
  unknown,
}
use ebiclaw.Providers.Cooldown.{
  CooldownEntry, CooldownTracker, new_cooldown_tracker, get_or_create, reset_stale, count_failure,
  bump_count, mark_failure, clear_entry, mark_success, error_count, failure_count,
}

-- The failures of every reason.
abbrev pub total : (FailoverReason → ℕ) → ℕ
total counts =
    counts unset
    + counts auth
    + counts rate_limit
    + counts billing
    + counts timeout
    + counts format
    + counts context_overflow
    + counts overloaded
    + counts unknown

total-bump_count :
    (r : FailoverReason) (counts : FailoverReason → ℕ)
    → total (bump_count r counts) ≡ total counts + 1
unfolding bump_count
total-bump_count unset counts = omega arith
total-bump_count _ counts = omega arith

abbrev IsCounted : CooldownEntry → Type 0
IsCounted e = total e.failure_counts ≡ e.error_count

count_failure-IsCounted :
    (r : FailoverReason) (now : ℕ) (e : CooldownEntry)
    → IsCounted e
    → IsCounted (count_failure r now e)
unfolding count_failure
count_failure-IsCounted unset now e h =
    total-bump_count unset e.failure_counts ∙ ap (λ (n : ℕ). n + 1) h
count_failure-IsCounted r now e h = total-bump_count r e.failure_counts ∙ ap (λ (n : ℕ). n + 1) h

reset_stale-IsCounted :
    (window now : ℕ) (e : CooldownEntry) → IsCounted e → IsCounted (reset_stale window now e)
unfolding reset_stale
reset_stale-IsCounted window now e h =
    elim (Bool-cases (not (e.last_failure == 0) && ltb window (now - e.last_failure))) [
      | inl b ↦ rw b refl
      | inr b ↦ rw b h
    ]

-- Every entry is counted.
abbrev pub EntriesCounted : CooldownTracker → Type 0
EntriesCounted ct = (p : Text) (e : CooldownEntry) → get p ct.entries ≡ some e → IsCounted e

put-EntriesCounted :
    (ct : CooldownTracker) (p : Text) (e : CooldownEntry)
    → IsCounted e
    → EntriesCounted ct
    → EntriesCounted (record ct { entries = put p e ct.entries })
put-EntriesCounted ct p e c h q d eq = elim (text_eq-cases p q) [
  | inl (same, t) ↦ own same
  | inr (ne, t) ↦ h q d (sym (get-put_ne p q e ct.entries t) ∙ eq)
]
  where
    own : p ≡ q → IsCounted d
    own same =
        let stored : get q (put p e ct.entries) ≡ some e =
          subst (λ r. get r (put p e ct.entries) ≡ some e) same (get-put_self p e ct.entries) in
        let s : some e ≡ some d = sym stored ∙ eq in
        let same_entry : e ≡ d = cc in subst IsCounted same_entry c

get_or_create-IsCounted :
    (ct : CooldownTracker) (p : Text) → EntriesCounted ct → IsCounted (get_or_create ct p)
unfolding get_or_create
get_or_create-IsCounted ct p h = elim (Option-cases (get p ct.entries)) [
  | inl e ↦ rw (e, get_or_create) refl
  | inr (d, e) ↦ rw (e, get_or_create) (h p d e)
]

-- One call of the tracker that changes it.
pub data Event : Type 0 where
  failed : Text → FailoverReason → ℕ → Event
  succeeded : Text → Event

pub apply : Event → CooldownTracker → CooldownTracker
apply (failed p r now) ct = mark_failure p r now ct
apply (succeeded p) ct = mark_success p ct

pub run : List Event → CooldownTracker → CooldownTracker
run [] ct = ct
run (e ∷ es) ct = run es (apply e ct)

mark_failure-EntriesCounted :
    (p : Text) (r : FailoverReason) (now : ℕ) (ct : CooldownTracker)
    → EntriesCounted ct
    → EntriesCounted (mark_failure p r now ct)
unfolding mark_failure
mark_failure-EntriesCounted p r now ct h =
    let entry = reset_stale ct.failure_window now (get_or_create ct p) in
    put-EntriesCounted ct p (count_failure r now entry)
      (count_failure-IsCounted r now entry (
        reset_stale-IsCounted ct.failure_window now (get_or_create ct p)
          (get_or_create-IsCounted ct p h)))
      h

mark_success-EntriesCounted :
    (p : Text) (ct : CooldownTracker) → EntriesCounted ct → EntriesCounted (mark_success p ct)
unfolding mark_success clear_entry
mark_success-EntriesCounted p ct h = elim (Option-cases (get p ct.entries)) [
  | inl e ↦ rw (e, mark_success) h
  | inr (d, e) ↦ rw (e, mark_success) (put-EntriesCounted ct p (clear_entry d) refl h)
]

apply-EntriesCounted :
    (e : Event) (ct : CooldownTracker) → EntriesCounted ct → EntriesCounted (apply e ct)
unfolding apply
apply-EntriesCounted (failed p r now) ct h = mark_failure-EntriesCounted p r now ct h
apply-EntriesCounted (succeeded p) ct h = mark_success-EntriesCounted p ct h

run-EntriesCounted :
    (es : List Event) (ct : CooldownTracker) → EntriesCounted ct → EntriesCounted (run es ct)
unfolding run
run-EntriesCounted [] ct h = h
run-EntriesCounted (e ∷ es) ct h = run-EntriesCounted es (apply e ct) (apply-EntriesCounted e ct h)

new-EntriesCounted : EntriesCounted new_cooldown_tracker
unfolding new_cooldown_tracker get
new-EntriesCounted p e h = cc

-- After any sequence of failures and successes of any providers, at any times, ErrorCount of a
-- provider is the sum of its FailureCount over all reasons.
pub error_count-total :
    (es : List Event) (provider : Text)
    → error_count (run es new_cooldown_tracker) provider
      ≡ total (λ r. failure_count (run es new_cooldown_tracker) provider r)
unfolding error_count failure_count
error_count-total es provider =
    let ct = run es new_cooldown_tracker in
    elim (Option-cases (get provider ct.entries)) [
      | inl e ↦ rw (e, error_count, failure_count) refl
      | inr (d, e) ↦
          rw (e, error_count, failure_count)
            (sym (run-EntriesCounted es new_cooldown_tracker new-EntriesCounted provider d e))
    ]
