-- ===== src/Limiter.antt =====
-- control_plane/scheduler/limiter.go: one token bucket for each key. The buckets are those of
-- golang.org/x/time/rate, a parameter here: `B` is *rate.Limiter as a value, and a reservation is
-- what Reserve returns. The rates that the scheduler asks for are whole numbers per second.
use flux_forge.Base.{
  ℕ, String, Bool, true, false, Option, none, some, [], string_eq, ltb, if◌then◌else◌,
}
use flux_forge.Base.Dict.{Dict, lookup, insert}

-- The calls of the package that the limiter makes, at a time.
pub record RateLib (B R : Type 0) : Type 0 where
  pub new_limiter : ℕ → ℕ → B
  pub allow : ℕ → B → B × Bool
  pub reserve : ℕ → B → B × R
  pub delay : ℕ → R → ℕ
  pub cancel : ℕ → R → B → B

pub record TokenBucketLimiter (B : Type 0) : Type 0 where
  pub limiters : Dict String B
  pub r : ℕ
  pub b : ℕ

abbrev pub or_new {ℓ} : {A : Type ℓ} → A → Option A → A
or_new d none = d
or_new d (some a) = a

module _ {B R : Type 0} (lib : RateLib B R) where
  unfoldable pub new_token_bucket_limiter : ℕ → ℕ → TokenBucketLimiter B
  new_token_bucket_limiter r b = record { limiters = []; r = r; b = b }

  -- The bucket of a key, which a first use creates.
  abbrev pub bucket : String → TokenBucketLimiter B → B
  bucket key l = or_new (lib.new_limiter l.r l.b) (lookup key l.limiters)

  unfoldable pub allow_key : ℕ → String → TokenBucketLimiter B → TokenBucketLimiter B × Bool
  allow_key now key l =
      let (bucket', allowed) = lib.allow now (bucket key l) in
      (record l { limiters = insert key bucket' l.limiters }, allowed)

  -- Allowed, or the delay after which to ask again: a reservation that must wait is cancelled.
  unfoldable pub reserve_key : ℕ → String → TokenBucketLimiter B → TokenBucketLimiter B × (Bool × ℕ)
  reserve_key now key l =
      let (bucket', reservation) = lib.reserve now (bucket key l) in
      let wait = lib.delay now reservation in
      if ltb 0 wait
      then (
        record l { limiters = insert key (lib.cancel now reservation bucket') l.limiters },
        (false, wait),
      )
      else (record l { limiters = insert key bucket' l.limiters }, (true, 0))

  unfoldable pub ensure_limiter : String → TokenBucketLimiter B → TokenBucketLimiter B
  ensure_limiter key l = record l { limiters = ensured (lookup key l.limiters) }
    where
      ensured : Option B → Dict String B
      ensured none = insert key (lib.new_limiter l.r l.b) l.limiters
      ensured (some _) = l.limiters
