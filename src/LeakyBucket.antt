-- ===== src/LeakyBucket.antt =====
-- src/client/Temporizable/LeakyBucket.hpp and LeakyBucket.cpp: the tokens that bound the upload. Both
-- methods hold the mutex of the tokens, so each is one step here; a `DecToken` that finds too few
-- tokens returns false after its wait for the next `IncToken`, and changes nothing.
pub mod Rate
mod Tests
use tvpp_dev_base.Base.{
  ℕ, ◌+◌, ◌-◌, ◌%◌, ◌^◌, ◌≤◌, ◌<◌, Bool, true, false, ltb, leb, if◌then◌else◌, List, [], ◌∷◌,
}

pub record LeakyBucket : Type 0 where
  pub bucket_size : ℕ
  pub tokens : ℕ

-- The constructor fills the bucket.
unfoldable pub make_bucket : ℕ → LeakyBucket
make_bucket size = record { bucket_size = size; tokens = size }

-- `IncToken`, whose sum is taken in `uint32_t`.
unfoldable pub inc_token : LeakyBucket → ℕ → LeakyBucket
inc_token b replaced =
    let sum = (b.tokens + replaced) % 2 ^ 32 in
    record b { tokens = if ltb b.bucket_size sum then b.bucket_size else sum }

-- `DecToken`
unfoldable pub dec_token : LeakyBucket → ℕ → Bool × LeakyBucket
dec_token b requested =
    if leb requested b.tokens
    then (true, record b { tokens = b.tokens - requested })
    else (false, b)

-- `Replenish`; `scaled` is the `float` product with the percentage, as a `uint32_t`.
unfoldable pub replenish : (ℕ → ℕ) → LeakyBucket → LeakyBucket
unfolding inc_token
replenish scaled b = inc_token b (scaled b.bucket_size)

-- `TimerAlarm`, which replenishes by the share of a second that its period is.
unfoldable pub timer_alarm : (ℕ → ℕ) → LeakyBucket → LeakyBucket
timer_alarm scaled b = replenish scaled b
