-- ===== src/Pool/Candidates/Retry.antt =====
-- When to try again after a refusal for cooling providers (internal/pool/failover.go: retryAfter,
-- clampRetryAfter). Durations are in nanoseconds.
pub mod Laws
use morpheus_uplink.Base.{
  ℕ, ◌+◌, ◌-◌, ◌*◌, ◌/◌, Bool, ◌&&◌, ◌||◌, List, [], ◌∷◌, ◌++◌, Text, ltb, ◌==◌, if◌then◌else◌, map,
  Map, lower_trim, has_prefix,
}
use morpheus_uplink.Pool.Slot.{second}
use morpheus_uplink.Pool.Candidates.{
  RatedBid, Memory, norm_prov, is_in, bar, after_prefix, max_retry_after,
}

unfoldable pub clamp_retry_after : ℕ → ℕ
clamp_retry_after d =
    if d == 0
    then second
    else let capped : ℕ = if ltb max_retry_after d then max_retry_after else d in
      let sec : ℕ = (capped + second - 1) / second in (if ltb sec 1 then 1 else sec) * second

-- Whether a mark is of the model, has not run out and is of a provider of the pool.
unfoldable pub counts : Text → List Text → ℕ → Text × ℕ → Bool
counts prefix in_pool now (k, until) =
    has_prefix k prefix && ltb now until && is_in in_pool (after_prefix prefix k)

-- The loop over the marks; 0 is no cool-down seen yet.
unfoldable pub shortest : Text → List Text → ℕ → Map ℕ → ℕ → ℕ
unfolding counts
shortest prefix in_pool now [] best = best
shortest prefix in_pool now ((k, until) ∷ marks) best =
    let d : ℕ = until - now in
    shortest prefix in_pool now marks
      (if counts prefix in_pool now (k, until) && (best == 0 || ltb d best) then d else best)

unfoldable pub retry_after : Memory → ℕ → Text → List RatedBid → ℕ
unfolding clamp_retry_after shortest
retry_after mem now model_id pool =
    let best : ℕ =
      shortest (lower_trim model_id ++ bar) (map (λ b. norm_prov b.provider) pool) now mem.cooling
        0 in
    if best == 0 then 0 else clamp_retry_after best
