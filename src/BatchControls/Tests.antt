-- ===== src/BatchControls/Tests.antt =====
-- Runs of api/batch_controls.py.
use clearfeature.Prelude.{
  ◌+◌, ◌-◌, ◌*◌, ◌≤◌, ◌≡◌, refl, true, false, none, some, List, [], ◌∷◌, arith, pos, negsuc, ok,
  err,
}
use clearfeature.BatchControls.{
  TokenBucket, one_token, token_bucket, negative_rate_or_burst, refill, try_acquire, Controls,
  should_pause, BatchSettings, build_batch_runtime_controls, limiter, unlimited, turned_off,
}
use clearfeature.BatchControls.Budget.{Ask, granted_in_all, IsBounded, granted-le}

-- Two tokens per second, and a burst of three.
abbrev full : TokenBucket
full = record { rate = 2000000; burst = 3000000000000; tokens = 3000000000000; last = 5 }

started : token_bucket (pos 2000000) (pos 3000000000000) 5 ≡ ok full
unfolding token_bucket
started = refl

refused : token_bucket (negsuc 0) (pos 3) 5 ≡ err negative_rate_or_burst
unfolding token_bucket
refused = refl

-- Three of five at once, none right after, two a second later.
abbrev asks : List Ask
asks =
    record { wanted = pos 5; now = 5 }
    ∷ record { wanted = pos 1; now = 5 }
    ∷ record { wanted = pos 5; now = 1000005 }
    ∷ []

abbrev empty : TokenBucket
empty = record { rate = 2000000; burst = 3000000000000; tokens = 0; last = 1000005 }

granted : granted_in_all asks full ≡ (5, empty)
unfolding granted_in_all try_acquire refill
granted = refl

granted-le_example :
    ((granted_in_all asks full).0 * one_token + (granted_in_all asks full).1.tokens
      ≤ 3000000000000 + (1000005 - 5) * 2000000)
    × IsBounded (granted_in_all asks full).1
granted-le_example =
    granted-le asks full 1000005 (omega arith)
      (omega arith, (omega arith, (omega arith, omega arith)))

abbrev settings : BatchSettings
settings = record {
  batch_online_refresh_enabled = false;
  batch_online_refresh_tokens_per_sec = 1;
  batch_online_refresh_burst = 0;
  batch_rate_limit_chunks_per_sec = 0;
  batch_online_refresh_max_features_per_chunk = 4;
  batch_pause_enabled = true;
  batch_max_consumer_lag = 10;
}

-- No limit on chunks, no online refresh, and a pause on lag over 10 where the lag is known.
abbrev built : Controls
built = record {
  rate_limiter = unlimited;
  online_refresh_limiter = turned_off;
  online_refresh_max_features = 4;
  pause_enabled = true;
  max_consumer_lag = 10;
  has_lag_source = true;
}

wired : build_batch_runtime_controls settings true 5 ≡ built
unfolding build_batch_runtime_controls limiter
wired = refl

pauses : should_pause (some 11) built ≡ true
unfolding should_pause
pauses = refl

unknown_lag : should_pause none built ≡ false
unfolding should_pause
unknown_lag = refl
