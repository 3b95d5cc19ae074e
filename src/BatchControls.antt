-- ===== src/BatchControls.antt =====
-- api/batch_controls.py: the token bucket that limits batch work, and the pause on lag. Python's floats
-- are exact here: a clock reading is in microseconds, a rate in millionths of a token per second, and a
-- count of tokens in the unit that makes a rate times a time one, 10^12 of which are a token. The
-- rounding of floats is left out. The clock readings are arguments.
pub mod Budget
mod Tests
use Prim.Native.Nat.{◌/◌, min}
use clearfeature.Prelude.{
  ℕ, ◌+◌, ◌-◌, ◌*◌, Bool, true, false, not, ◌||◌, Option, none, some, ltb, ◌==◌, if◌then◌else◌, ℤ,
  pos, negsuc, Result, ok, err, reject_if, ◌>>◌,
}

abbrev pub one_token : ℕ
one_token = 1000000000000

-- The burst, in the unit of `one_token`, that a rate stands for.
abbrev pub burst_of_rate : ℕ → ℕ
burst_of_rate rate = rate * 1000000

pub record TokenBucket : Type 0 where
  pub rate : ℕ
  pub burst : ℕ
  pub tokens : ℕ
  pub last : ℕ

pub data ControlsError : Type 0 where
  negative_rate_or_burst : ControlsError

abbrev pub is_negative : ℤ → Bool
is_negative (pos _) = false
is_negative (negsuc _) = true

abbrev pub magnitude : ℤ → ℕ
magnitude (pos n) = n
magnitude (negsuc _) = 0

-- `TokenBucketRateLimiter(rate_per_sec, burst, clock)`, the first clock reading being `now`
unfoldable pub token_bucket : ℤ → ℤ → ℕ → Result ControlsError TokenBucket
token_bucket rate_per_sec burst now = do
  reject_if (is_negative rate_per_sec || is_negative burst) negative_rate_or_burst
  ok (record {
    rate = magnitude rate_per_sec;
    burst = magnitude burst;
    tokens = magnitude burst;
    last = now;
  })

-- `_refill`; the subtraction stops at 0, as `max(0.0, now - last)` does.
unfoldable pub refill : ℕ → TokenBucket → TokenBucket
refill now b = record b { last = now; tokens = min b.burst (b.tokens + (now - b.last) * b.rate) }

abbrev pub take : ℕ → TokenBucket → ℕ × TokenBucket
take n b =
    let granted = min n (b.tokens / one_token) in
    (granted, record b { tokens = b.tokens - granted * one_token })

-- `try_acquire`
unfoldable pub try_acquire : ℤ → ℕ → TokenBucket → ℕ × TokenBucket
unfolding refill
try_acquire (negsuc _) now b = (0, b)
try_acquire (pos n) now b = if n == 0 then (0, b) else take n (refill now b)

-- The limiters of `RateLimiter`.
pub data RateLimiter : Type 0 where
  unlimited turned_off : RateLimiter
  bucket : TokenBucket → RateLimiter

unfoldable pub acquire : ℤ → ℕ → RateLimiter → ℤ × RateLimiter
unfolding try_acquire
acquire n now unlimited = (n, unlimited)
acquire n now turned_off = (pos 0, turned_off)
acquire n now (bucket b) = let (granted, b') = try_acquire n now b in (pos granted, bucket b')

pub record Controls : Type 0 where
  pub rate_limiter : RateLimiter
  pub online_refresh_limiter : RateLimiter
  pub online_refresh_max_features : ℕ
  pub pause_enabled : Bool
  pub max_consumer_lag : ℕ
  -- Whether there is a `lag_fn`.
  pub has_lag_source : Bool

-- `NoopBatchRuntimeControls`
abbrev pub noop_controls : Controls
noop_controls = record {
  rate_limiter = unlimited;
  online_refresh_limiter = unlimited;
  online_refresh_max_features = 0;
  pause_enabled = false;
  max_consumer_lag = 0;
  has_lag_source = false;
}

abbrev pub lag_exceeds : Option ℕ → ℕ → Bool
lag_exceeds none bound = false
lag_exceeds (some lag) bound = ltb bound lag

-- `should_pause().paused`, with what `lag_fn()` returns
unfoldable pub should_pause : Option ℕ → Controls → Bool
should_pause lag c =
    if not c.pause_enabled || not c.has_lag_source
    then false
    else lag_exceeds lag c.max_consumer_lag

-- `_limiter`, of a rate and a burst that are not negative; a burst of 0 stands for the rate.
unfoldable pub limiter : ℕ → ℕ → ℕ → RateLimiter
limiter rate burst now =
    if rate == 0
    then unlimited
    else (let size = if burst == 0 then burst_of_rate rate else burst in
        bucket (record { rate = rate; burst = size; tokens = size; last = now }))

-- What `build_batch_runtime_controls` reads of the settings.
pub record BatchSettings : Type 0 where
  pub batch_online_refresh_enabled : Bool
  pub batch_online_refresh_tokens_per_sec : ℕ
  pub batch_online_refresh_burst : ℕ
  pub batch_rate_limit_chunks_per_sec : ℕ
  pub batch_online_refresh_max_features_per_chunk : ℕ
  pub batch_pause_enabled : Bool
  pub batch_max_consumer_lag : ℕ

unfoldable pub build_batch_runtime_controls : BatchSettings → Bool → ℕ → Controls
unfolding limiter
build_batch_runtime_controls settings has_lag_source now = record {
  rate_limiter =
      limiter settings.batch_rate_limit_chunks_per_sec
        (burst_of_rate settings.batch_rate_limit_chunks_per_sec) now;
  online_refresh_limiter =
      if settings.batch_online_refresh_enabled
      then limiter settings.batch_online_refresh_tokens_per_sec settings.batch_online_refresh_burst
          now
      else turned_off;
  online_refresh_max_features = settings.batch_online_refresh_max_features_per_chunk;
  pause_enabled = settings.batch_pause_enabled;
  max_consumer_lag = settings.batch_max_consumer_lag;
  has_lag_source = has_lag_source;
}
