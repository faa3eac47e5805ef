-- ===== src/Pool/Candidates/Retry/Laws.antt =====
-- What a Retry-After tells the caller (internal/pool/failover.go: retryAfter).
use morpheus_uplink.Base.{
  ℕ, ◌+◌, ◌-◌, ◌%◌, ◌≤◌, ◌<◌, ◌≡◌, ◌⊎◌, ◌&&◌, ◌||◌, false, List, [], ◌∷◌, ◌++◌, arith, Text, Map,
  All, ltb, ◌==◌, map, lower_trim, if◌then◌else◌,
}
use morpheus_uplink.Pool.Slot.{second}
use morpheus_uplink.Pool.Candidates.{RatedBid, Memory, norm_prov, bar, max_retry_after}
use morpheus_uplink.Pool.Candidates.Retry.{clamp_retry_after, counts, shortest, retry_after}

clamp_retry_after_bounds :
    (d : ℕ)
    → (second ≤ clamp_retry_after d)
      × (clamp_retry_after d ≤ max_retry_after)
      × (clamp_retry_after d % second ≡ 0)
      × (clamp_retry_after d < d + second + 1)
unfolding clamp_retry_after
clamp_retry_after_bounds d = ground arith

counts_live :
    (prefix : Text) (in_pool : List Text) (now : ℕ) (k : Text) (until : ℕ)
    → (counts prefix in_pool now (k, until) ≡ false) ⊎ (now < until)
unfolding counts
counts_live prefix in_pool now k until = ground arith

shortest_lem :
    (prefix : Text) (in_pool : List Text) (now : ℕ) (marks : Map ℕ) (best : ℕ)
    → let res = shortest prefix in_pool now marks best in
      All
        (λ (r : Text × ℕ). (counts prefix in_pool now r ≡ false) ⊎ ((0 < res) × (res ≤ r.1 - now)))
        marks
      × ((best ≡ 0) ⊎ ((0 < res) × (res ≤ best)))
unfolding shortest
shortest_lem prefix in_pool now [] best = (tt, ground arith)
shortest_lem prefix in_pool now ((k, until) ∷ marks) best =
    let next : ℕ =
      if counts prefix in_pool now (k, until) && (best == 0 || ltb (until - now) best)
      then until - now
      else best in
    let ih = shortest_lem prefix in_pool now marks next in
    (
      (ground (arith, ih.1, counts_live prefix in_pool now k until), ih.0),
      ground (arith, ih.1, counts_live prefix in_pool now k until),
    )

All-map : (P Q : Text × ℕ → Type 0) (l : Map ℕ) → ((r : Text × ℕ) → P r → Q r) → All P l → All Q l
All-map P Q [] f h = tt
All-map P Q (r ∷ l) f h = (f r h.0, All-map P Q l f h.1)

-- A Retry-After of 0 is answered only when no provider of the pool cools down for the model; every
-- other is a whole number of seconds from 1 to 600, and is at most a second longer than the time that
-- is left of any of their cool-downs.
pub retry_after_lem :
    (mem : Memory) (now : ℕ) (model_id : Text) (pool : List RatedBid)
    → let res = retry_after mem now model_id pool in
      let cools = counts (lower_trim model_id ++ bar) (map (λ b. norm_prov b.provider) pool) now in
      All
        (λ (r : Text × ℕ). (cools r ≡ false) ⊎ ((0 < res) × (res ≤ r.1 - now + second)))
        mem.cooling
      × ((res ≡ 0) ⊎ ((second ≤ res) × (res ≤ max_retry_after) × (res % second ≡ 0)))
unfolding retry_after
retry_after_lem mem now model_id pool =
    let prefix : Text = lower_trim model_id ++ bar in
    let in_pool : List Text = map (λ b. norm_prov b.provider) pool in
    let best : ℕ = shortest prefix in_pool now mem.cooling 0 in
    (
      All-map _ _ mem.cooling (λ r h. ground (arith, h, clamp_retry_after_bounds best))
          (shortest_lem prefix in_pool now mem.cooling 0).0,
      ground (arith, clamp_retry_after_bounds best),
    )
