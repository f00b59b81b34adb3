-- ===== src/Redis/Idempotency/Fresh.antt =====
-- control_plane/store/redis_idempotency.go: what ExecuteIdempotent runs under a fresh key.
use flux_forge.Base.{
  String, false, Option, none, some, ◌≡◌, ◌≢◌, ◌⊎◌, refl, ◌==◌, string_eq, ==_iff,
}
use text.Mathlib.TextLemmas.{append_cancel_right}
use flux_forge.Redis.{RedisServer, TextLaws}
use flux_forge.Redis.Records.{Codec}
use flux_forge.Redis.Idempotency.{IdempotencyResult, result_key, lock_key}

module _ {S : Type 0} (redis : RedisServer S) (laws : TextLaws redis)
    (codec : Codec IdempotencyResult) where
  -- The results under the key are in their final state.
  abbrev pub IsFinal : String → S → Type 0
  IsFinal key s =
      (text : String) (r : IdempotencyResult)
      → redis.get (result_key key) s ≡ some text
      → codec.unmarshal text ≡ some r
      → r.state ≡ "RESULT"

  pub keys_differ : (key : String) → lock_key key ≢ result_key key
  keys_differ key h =
      let fact : (◌==◌ {A = String} "idempotency:lock:" "idempotency:result:") ≡ false = refl in
      cc (
        fact,
        (==_iff {A = String} "idempotency:lock:" "idempotency:result:").1
            (append_cancel_right _ _ key h),
      )

  -- An answer that ends the call: an error, or a final result.
  abbrev Settles : Option IdempotencyResult × Option String → Type 0
  Settles (state, err) =
      (err ≢ none) ⊎ ((r : IdempotencyResult) × (state ≡ some r) × (r.state ≡ "RESULT"))
