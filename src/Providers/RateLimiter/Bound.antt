-- ===== src/Providers/RateLimiter/Bound.antt =====
-- How many calls of TryAcquire a limiter grants while its clock shows the same time.
use ebiclaw.Prelude.{
  ℕ, zero, suc, ◌-◌, ◌≤◌, ◌<◌, ◌≡◌, true, false, List, [], ◌∷◌, if◌then◌else◌, ltb, min, arith,
  refl, ap, ◌∙◌, Bool-cases, inl, inr,
}
use ebiclaw.Providers.RateLimiter.{
  RateLimiter, Float64, seconds, refill, new_rate_limiter, try_acquire,
}

-- What IEEE 754 says of numbers that are not negative, with the bits for the numbers: adding, and
-- taking one away, are monotonic when they round, and the integers up to 2^53 are exact.
pub record IsFloat64 (fl : Float64) : Type 0 where
  pub add_zero : (x : ℕ) → fl.add x (fl.of_int 0) ≡ x
  pub zero_mul : (n : ℕ) → fl.mul (fl.of_int 0) (fl.of_int n) ≡ fl.of_int 0
  pub zero_div : (n : ℕ) → 0 < n → fl.div (fl.of_int 0) (fl.of_int n) ≡ fl.of_int 0
  pub le-add : (x y : ℕ) → x ≤ fl.add x y
  pub of_int_mono : (m n : ℕ) → m ≤ n → fl.of_int m ≤ fl.of_int n
  pub of_int-pred :
      (n : ℕ) → n < 9007199254740992 → fl.sub (fl.of_int (suc n)) (fl.of_int 1) ≡ fl.of_int n
  pub sub_mono :
      (x y : ℕ) → fl.of_int 1 ≤ x → x ≤ y → fl.sub x (fl.of_int 1) ≤ fl.sub y (fl.of_int 1)
  pub zero-lt-one : fl.of_int 0 < fl.of_int 1

-- So many calls at one time.
abbrev pub at_once : ℕ → ℕ → List ℕ
at_once zero now = []
at_once (suc n) now = now ∷ at_once n now

module _ (fl : Float64) where
  -- TryAcquire at each of the times, and how often it granted a token.
  abbrev pub granted : List ℕ → RateLimiter → ℕ
  granted [] rl = 0
  granted (t ∷ ts) rl =
      let rest = granted ts (try_acquire fl t rl).1 in
      if (try_acquire fl t rl).0 then suc rest else rest

  -- What those calls leave.
  abbrev pub after : List ℕ → RateLimiter → RateLimiter
  after [] rl = rl
  after (t ∷ ts) rl = after ts (try_acquire fl t rl).1

module _ (fl : Float64) (lawful : IsFloat64 fl) where
  no_seconds : seconds fl 0 ≡ fl.of_int 0
  unfolding seconds
  no_seconds =
      ap (λ (x : ℕ). fl.add (fl.of_int 0) x) (lawful.zero_div 1000000000 (omega arith))
      ∙ lawful.add_zero (fl.of_int 0)

  -- A second refill at the same time adds nothing.
  refill_again :
      (now : ℕ) (rl : RateLimiter)
      → rl.last_tick ≡ now
      → (refill fl now rl).tokens ≡ min rl.max_burst rl.tokens
  unfolding refill
  refill_again now rl h =
      ap (λ (x : ℕ). min rl.max_burst (fl.add rl.tokens x)) nothing
      ∙ ap (λ (x : ℕ). min rl.max_burst x) (lawful.add_zero rl.tokens)
    where
      at_zero : now - rl.last_tick ≡ 0
      at_zero = omega (arith, h)

      nothing :
          fl.div (fl.mul (seconds fl (now - rl.last_tick)) (fl.of_int rl.rpm)) (fl.of_int 60)
          ≡ fl.of_int 0
      nothing =
          ap (λ (d : ℕ). fl.div (fl.mul (seconds fl d) (fl.of_int rl.rpm)) (fl.of_int 60)) at_zero
          ∙ ap (λ (x : ℕ). fl.div (fl.mul x (fl.of_int rl.rpm)) (fl.of_int 60)) no_seconds
          ∙ ap (λ (x : ℕ). fl.div x (fl.of_int 60)) (lawful.zero_mul rl.rpm)
          ∙ lawful.zero_div 60 (omega arith)

  -- A call that is refused, and what is there when the next one comes at the same time.
  refused :
      (now : ℕ) (rl : RateLimiter)
      → ltb (refill fl now rl).tokens (fl.of_int 1) ≡ true
      → ((try_acquire fl now rl).0 ≡ false)
        × ((refill fl now (try_acquire fl now rl).1).tokens
            ≡ min rl.max_burst (refill fl now rl).tokens)
        × ((try_acquire fl now rl).1.max_burst ≡ rl.max_burst)
  unfolding try_acquire
  refused now rl e = rw e (
    refl,
    refill_again now (refill fl now rl) (unfold refill in refl) ∙ (unfold refill in refl),
    unfold refill in refl,
  )

  -- A call that takes a token, likewise.
  served :
      (now : ℕ) (rl : RateLimiter)
      → ltb (refill fl now rl).tokens (fl.of_int 1) ≡ false
      → ((try_acquire fl now rl).0 ≡ true)
        × ((refill fl now (try_acquire fl now rl).1).tokens
            ≡ min rl.max_burst (fl.sub (refill fl now rl).tokens (fl.of_int 1)))
        × ((try_acquire fl now rl).1.max_burst ≡ rl.max_burst)
  unfolding try_acquire
  served now rl e = rw e (
    refl,
    refill_again now
          (record (refill fl now rl) { tokens = fl.sub (refill fl now rl).tokens (fl.of_int 1) })
          (unfold refill in refl)
        ∙ (unfold refill in refl),
    unfold refill in refl,
  )

  not_less : (a b : ℕ) → ltb a b ≡ false → b ≤ a
  not_less a b k = ground arith

  granted-at_once :
      (n k now : ℕ) (rl : RateLimiter)
      → n ≤ 9007199254740992
      → (refill fl now rl).tokens ≤ fl.of_int n
      → granted fl (at_once k now) rl ≤ n
  granted-at_once n zero now rl b h = omega arith
  granted-at_once n (suc k) now rl b h =
      elim (Bool-cases (ltb (refill fl now rl).tokens (fl.of_int 1))) [
        | inl e ↦
            let (r, t, m) = refused now rl e in
            rw r (granted-at_once n k now (try_acquire fl now rl).1 b (omega (arith, t, h)))
        | inr e ↦
            by_count n b h (not_less (refill fl now rl).tokens (fl.of_int 1) e) (served now rl e)
              (λ m c g. granted-at_once m k now (try_acquire fl now rl).1 c g)
      ]
    where
      by_count :
          (n : ℕ)
          → n ≤ 9007199254740992
          → (refill fl now rl).tokens ≤ fl.of_int n
          → fl.of_int 1 ≤ (refill fl now rl).tokens
          → ((try_acquire fl now rl).0 ≡ true)
            × ((refill fl now (try_acquire fl now rl).1).tokens
                ≡ min rl.max_burst (fl.sub (refill fl now rl).tokens (fl.of_int 1)))
            × ((try_acquire fl now rl).1.max_burst ≡ rl.max_burst)
          → ((m : ℕ)
              → m ≤ 9007199254740992
              → (refill fl now (try_acquire fl now rl).1).tokens ≤ fl.of_int m
              → granted fl (at_once k now) (try_acquire fl now rl).1 ≤ m)
          → (if (try_acquire fl now rl).0
              then suc (granted fl (at_once k now) (try_acquire fl now rl).1)
              else granted fl (at_once k now) (try_acquire fl now rl).1)
            ≤ n
      by_count zero b h one s ih = absurd (omega (arith, lawful.zero-lt-one))
      by_count (suc n) b h one (r, t, m) ih =
          let less = lawful.sub_mono (refill fl now rl).tokens (fl.of_int (suc n)) one h in
          let exact = lawful.of_int-pred n (omega arith) in
          let rest = ih n (omega arith) (omega (arith, t, less, exact)) in
          rw r (omega (arith, rest))

  refill-le : (now : ℕ) (rl : RateLimiter) → (refill fl now rl).tokens ≤ rl.max_burst
  unfolding refill
  refill-le now rl = omega arith

  max_burst-after : (ts : List ℕ) (rl : RateLimiter) → (after fl ts rl).max_burst ≡ rl.max_burst
  max_burst-after [] rl = refl
  max_burst-after (t ∷ ts) rl =
      max_burst-after ts (try_acquire fl t rl).1
      ∙ elim (Bool-cases (ltb (refill fl t rl).tokens (fl.of_int 1))) [
        | inl e ↦ (refused t rl e).2
        | inr e ↦ (served t rl e).2
      ]

  -- Of any number of calls of TryAcquire that see one time on the clock, no more than rpm get a
  -- token, whatever calls came before and at whatever times. The rpm is at most 2^53, and the
  -- arithmetic keeps the rules of IEEE 754 in IsFloat64.
  pub granted-le :
      (rpm start : ℕ) (ts : List ℕ) (k now : ℕ)
      → rpm ≤ 9007199254740992
      → granted fl (at_once k now) (after fl ts (new_rate_limiter fl rpm start)) ≤ rpm
  granted-le rpm start ts k now b =
      granted-at_once rpm k now (after fl ts (new_rate_limiter fl rpm start)) b
        (omega (arith, refill-le now (after fl ts (new_rate_limiter fl rpm start)), full))
    where
      full : (after fl ts (new_rate_limiter fl rpm start)).max_burst ≡ fl.of_int rpm
      full = max_burst-after ts (new_rate_limiter fl rpm start) ∙ (unfold new_rate_limiter in refl)

  granted_exactly :
      (rpm n k now : ℕ) (rl : RateLimiter)
      → rpm ≤ 9007199254740992
      → n ≤ rpm
      → rl.max_burst ≡ fl.of_int rpm
      → (refill fl now rl).tokens ≡ fl.of_int n
      → granted fl (at_once k now) rl ≡ min k n
  granted_exactly rpm n zero now rl b h m e = omega arith
  granted_exactly rpm zero (suc k) now rl b h m e =
      let (r, t, mb) =
        refused now rl (rw e (less (fl.of_int 0) (fl.of_int 1) lawful.zero-lt-one)) in
      let none_left : (refill fl now (try_acquire fl now rl).1).tokens ≡ fl.of_int 0 =
        omega (arith, t, e, m, lawful.of_int_mono 0 rpm (omega arith)) in
      rw r (
        granted_exactly rpm 0 k now (try_acquire fl now rl).1 b (omega arith) (mb ∙ m) none_left
        ∙ omega arith)
    where
      less : (a b : ℕ) → a < b → ltb a b ≡ true
      less a b k = ground arith
  granted_exactly rpm (suc n) (suc k) now rl b h m e =
      let (r, t, mb) = served now rl (
        rw e (
          no_less (fl.of_int (suc n)) (fl.of_int 1)
            (lawful.of_int_mono 1 (suc n) (omega arith)))) in
      let one_less : fl.sub (refill fl now rl).tokens (fl.of_int 1) ≡ fl.of_int n =
        ap (λ (x : ℕ). fl.sub x (fl.of_int 1)) e ∙ lawful.of_int-pred n (omega arith) in
      let left : (refill fl now (try_acquire fl now rl).1).tokens ≡ fl.of_int n =
        omega (arith, t, one_less, m, lawful.of_int_mono n rpm (omega arith)) in
      let rest =
        granted_exactly rpm n k now (try_acquire fl now rl).1 b (omega arith) (mb ∙ m) left in
      rw r (omega (arith, rest))
    where
      no_less : (a b : ℕ) → b ≤ a → ltb a b ≡ false
      no_less a b k = ground arith

  -- Of k calls of TryAcquire that see one time on the clock, a new limiter grants the first rpm, or
  -- all if there are fewer, however long after its making they come. The rpm is at most 2^53, and
  -- the arithmetic keeps the rules of IEEE 754 in IsFloat64.
  pub granted-min :
      (rpm start k now : ℕ)
      → rpm ≤ 9007199254740992
      → granted fl (at_once k now) (new_rate_limiter fl rpm start) ≡ min k rpm
  granted-min rpm start k now b =
      granted_exactly rpm rpm k now (new_rate_limiter fl rpm start) b (omega arith)
        (unfold new_rate_limiter in refl) full
    where
      full : (refill fl now (new_rate_limiter fl rpm start)).tokens ≡ fl.of_int rpm
      full = unfold new_rate_limiter refill in omega (arith, lawful.le-add (fl.of_int rpm) _)
