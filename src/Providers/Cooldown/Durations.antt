-- ===== src/Providers/Cooldown/Durations.antt =====
-- How long a cooldown lasts.
use ebiclaw.Prelude.{
  ℕ, ◌-◌, ◌<◌, ◌^◌, ◌||◌, true, ltb, leb, every_below, every_below_sound, zero, suc, ◌+◌, ◌*◌, ◌≤◌,
  ◌≡◌, arith, refl, ap, min, max,
}
use ebiclaw.Providers.Cooldown.{standard_cooldown, billing_cooldown, nanos_per_ms}

abbrev pub minutes : ℕ → ℕ
minutes n = n * 60000 * nanos_per_ms

-- A standard cooldown lasts 1, 5 and 25 minutes after the first three errors in a row and an hour
-- after four or more, as the comment in the source says.
pub standard_cooldown_table :
    (n : ℕ)
    → (standard_cooldown 1 ≡ minutes 1)
      × (standard_cooldown 2 ≡ minutes 5)
      × (standard_cooldown 3 ≡ minutes 25)
      × (standard_cooldown (n + 4) ≡ minutes 60)
unfolding standard_cooldown
standard_cooldown_table n = (refl, refl, refl, capped)
  where
    capped : standard_cooldown (n + 4) ≡ minutes 60
    capped = let e : min (max 1 (n + 4) - 1) 3 ≡ 3 = omega arith in rw e refl

pow_table : every_below 11 (λ e. ltb e 3 || leb 8 (2 ^ e)) ≡ true
unfolding every_below
pow_table = refl

pow_large : (e : ℕ) → 3 ≤ e → e < 11 → 8 ≤ 2 ^ e
pow_large e h k = large (2 ^ e) (every_below_sound 11 (λ x. ltb x 3 || leb 8 (2 ^ x)) e pow_table k)
  where
    large : (p : ℕ) → (ltb e 3 || leb 8 p) ≡ true → 8 ≤ p
    large p t = ground arith

cap_large : (p : ℕ) → 8 ≤ p → min 86400000 (18000000 * p) ≡ 86400000
cap_large p h = omega arith

-- A billing disable lasts 5, 10 and 20 hours after the first three billing errors and a day after
-- four or more, as the comment in the source says.
pub billing_cooldown_table :
    (n : ℕ)
    → (billing_cooldown 1 ≡ minutes 300)
      × (billing_cooldown 2 ≡ minutes 600)
      × (billing_cooldown 3 ≡ minutes 1200)
      × (billing_cooldown (n + 4) ≡ minutes 1440)
unfolding billing_cooldown
billing_cooldown_table n = (refl, refl, refl, capped)
  where
    capped : billing_cooldown (n + 4) ≡ minutes 1440
    capped =
        let exp : ℕ = min (max 1 (n + 4) - 1) 10 in
        let large : 8 ≤ 2 ^ exp = pow_large exp (omega arith) (omega arith) in
        ap (λ (ms : ℕ). ms * nanos_per_ms) (cap_large (2 ^ exp) large)

pub standard_cooldown-pos : (n : ℕ) → minutes 1 ≤ standard_cooldown n
unfolding standard_cooldown
standard_cooldown-pos zero = omega arith
standard_cooldown-pos (suc zero) = omega arith
standard_cooldown-pos (suc (suc zero)) = omega arith
standard_cooldown-pos (suc (suc (suc zero))) = omega arith
standard_cooldown-pos (suc (suc (suc (suc n)))) =
    let e : min (max 1 (suc (suc (suc (suc n)))) - 1) 3 ≡ 3 = omega arith in rw e (omega arith)
