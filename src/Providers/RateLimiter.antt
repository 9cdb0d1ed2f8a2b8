-- ===== src/Providers/RateLimiter.antt =====
-- pkg/providers/ratelimiter.go. A float64 that is not negative is its bits, whose order is that of
-- the numbers; the arithmetic on them is an argument. The clock is monotonic, as Go's is, so that no
-- refill is negative. Each locked section is one step.
pub mod Bound
use ebiclaw.Prelude.{
  ℕ, zero, suc, ◌+◌, ◌-◌, ◌/◌, ◌%◌, Bool, true, false, Option, none, some, List, [], ◌∷◌,
  if◌then◌else◌, ltb, leb, ◌==◌, min,
}
use ebiclaw.Strings.{Text}
use ebiclaw.Maps.{Map, get, put}
use ebiclaw.Providers.Reason.{GoError}

-- The arithmetic of float64 on bits: `sub` where the second is not the larger one, and the
-- conversions from an int and to a time.Duration.
pub record Float64 : Type 0 where
  pub of_int : ℕ → ℕ
  pub to_duration : ℕ → ℕ
  pub add : ℕ → ℕ → ℕ
  pub sub : ℕ → ℕ → ℕ
  pub mul : ℕ → ℕ → ℕ
  pub div : ℕ → ℕ → ℕ

-- time.Duration.Seconds
unfoldable pub seconds : Float64 → ℕ → ℕ
seconds fl d =
    fl.add (fl.of_int (d / 1000000000)) (fl.div (fl.of_int (d % 1000000000)) (fl.of_int 1000000000))

pub record RateLimiter : Type 0 where
  pub rpm : ℕ
  pub tokens : ℕ
  pub max_burst : ℕ
  pub last_tick : ℕ

unfoldable pub refill : Float64 → ℕ → RateLimiter → RateLimiter
unfolding seconds
refill fl now rl =
    let elapsed = seconds fl (now - rl.last_tick) in
    let more = fl.div (fl.mul elapsed (fl.of_int rl.rpm)) (fl.of_int 60) in
    record rl { last_tick = now; tokens = min rl.max_burst (fl.add rl.tokens more) }

unfoldable pub new_rate_limiter : Float64 → ℕ → ℕ → RateLimiter
new_rate_limiter fl rpm now = record {
  rpm = rpm;
  tokens = fl.of_int rpm;
  max_burst = fl.of_int rpm;
  last_tick = now;
}

unfoldable pub try_acquire : Float64 → ℕ → RateLimiter → Bool × RateLimiter
unfolding refill
try_acquire fl now rl =
    let full = refill fl now rl in
    if ltb full.tokens (fl.of_int 1)
    then (false, full)
    else (true, record full { tokens = fl.sub full.tokens (fl.of_int 1) })

-- The nanoseconds that Wait sleeps, when a token is not there.
unfoldable pub wait_time : Float64 → RateLimiter → ℕ
wait_time fl rl =
    let deficit = fl.sub (fl.of_int 1) rl.tokens in
    let wait_sec = fl.div deficit (fl.div (fl.of_int rl.rpm) (fl.of_int 60)) in
    fl.to_duration (fl.mul wait_sec (fl.of_int 1000000000))

-- What the world outside gives: the clock, and a sleep that ends by its timer or, with an error, by
-- the context.
pub record Clock (W : Type 0) : Type 0 where
  pub now : W → ℕ
  pub sleep : ℕ → W → Option GoError × W

pub data WaitResult : Type 0 where
  acquired : WaitResult
  stopped : GoError → WaitResult
  still_waiting : WaitResult

module _ {W : Type 0} (fl : Float64) (clock : Clock W) where
  -- The loop of Wait, for the given number of rounds; `still_waiting` when they are used up.
  unfoldable pub wait : ℕ → RateLimiter → W → WaitResult × RateLimiter × W
  unfolding refill wait_time
  wait zero rl w = (still_waiting, rl, w)
  wait (suc rounds) rl w =
      let full = refill fl (clock.now w) rl in
      let (woken, w') = clock.sleep (wait_time fl full) w in
      let again = wait rounds full w' in
      if leb (fl.of_int 1) full.tokens
      then (acquired, record full { tokens = fl.sub full.tokens (fl.of_int 1) }, w)
      else elim woken [ none ↦ again | some e ↦ (stopped e, full, w') ]

-- RateLimiterRegistry
abbrev pub Registry : Type 0
Registry = Map RateLimiter

unfoldable pub register : Float64 → Text → ℕ → ℕ → Registry → Registry
unfolding new_rate_limiter
register fl key rpm now r = if rpm == 0 then r else put key (new_rate_limiter fl rpm now) r

unfoldable pub registry_try_acquire : Float64 → Text → ℕ → Registry → Bool × Registry
unfolding try_acquire
registry_try_acquire fl key now r = elim (get key r) [
  | none ↦ (true, r)
  | some rl ↦ let (granted, rl') = try_acquire fl now rl in (granted, put key rl' r)
]

module _ {W : Type 0} (fl : Float64) (clock : Clock W) where
  unfoldable pub registry_wait : ℕ → Text → Registry → W → WaitResult × Registry × W
  unfolding wait
  registry_wait rounds key r w = elim (get key r) [
    | none ↦ (acquired, r, w)
    | some rl ↦ let (result, rl', w') = wait fl clock rounds rl w in (result, put key rl' r, w')
  ]
