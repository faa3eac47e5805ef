-- ===== src/Pool/Candidates.antt =====
-- Which rated bids an open may use (internal/pool/failover.go). Times are in nanoseconds. The sets of
-- providers and bid ids are lists. The rated bids and the health source come from the router and the
-- catalog and are arguments; log lines are left out.
pub mod Laws
pub mod Retry
mod Tests
use morpheus_uplink.Base.{
  ℕ, ◌+◌, ◌-◌, ◌*◌, ◌/◌, Bool, true, false, ◌&&◌, ◌||◌, Option, none, some, List, [], ◌∷◌, ◌++◌,
  Text, same, ltb, leb, ◌==◌, if◌then◌else◌, any, keep, map, not, Map, lookup, insert, lower_trim,
  has_prefix, is_some,
}
use morpheus_uplink.Pool.Slot.{second}
use morpheus_uplink.Stake.{ℤ}

pub record RatedBid : Type 0 where
  pub id : Text
  pub provider : Text
  pub price_per_second : Option ℤ

unfoldable pub norm_prov : Text → Text
unfolding lower_trim
norm_prov = lower_trim

abbrev pub is_in : List Text → Text → Bool
is_in l t = any (λ x. same x t) l

abbrev pub max_retry_after : ℕ
max_retry_after = 600 * second

-- The failover memory: `cooling` maps "model|provider" to the end of the cool-down, `cut_next` a model
-- to the provider that cut its stream, and `exclude` is a set.
pub record Memory : Type 0 where
  pub cooldown : ℕ
  pub cooling : Map ℕ
  pub cut_next : Map Text
  pub exclude : List Text

abbrev pub bar : Text
bar = b'|' ∷ []

pub cool_key : Text → Text → Text
cool_key model_id provider = lower_trim model_id ++ bar ++ lower_trim provider

-- The marks that have run out are dropped on every write; no cool-down when it is 0.
unfoldable pub mark_cooling : Memory → ℕ → Text → Text → Memory
unfolding cool_key
mark_cooling mem now model_id provider =
    let live : Map ℕ = keep (λ r. ltb now r.1) mem.cooling in
    if same (lower_trim provider) []
    then mem
    else if mem.cooldown == 0
    then record mem { cooling = live }
    else record mem { cooling = insert (cool_key model_id provider) (now + mem.cooldown) live }

before_end : Option ℕ → ℕ → Bool
before_end none now = false
before_end (some until) now = ltb now until

pub is_cooling : Memory → ℕ → Text → Text → Bool
unfolding cool_key before_end
is_cooling mem now model_id provider =
    not (same (lower_trim provider) [])
    && before_end (lookup (cool_key model_id provider) mem.cooling) now

-- `SetProviderExclude`: the addresses that are not empty.
pub set_provider_exclude : Memory → List Text → Memory
set_provider_exclude mem provs = record mem {
  exclude = keep (λ p. not (same p [])) (map lower_trim provs);
}

pub mark_stream_cut : Memory → Text → Text → Memory
mark_stream_cut mem model_id provider =
    if same (lower_trim provider) []
    then mem
    else record mem { cut_next = insert (lower_trim model_id) (lower_trim provider) mem.cut_next }

-- `strings.TrimPrefix` of a key that has the prefix.
pub after_prefix : Text → Text → Text
after_prefix [] s = s
after_prefix (c ∷ p) [] = []
after_prefix (c ∷ p) (d ∷ s) = after_prefix p s

-- The providers of the model that cool down.
pub cooling_providers : Memory → ℕ → Text → List Text
unfolding after_prefix
cooling_providers mem now model_id =
    let prefix : Text = lower_trim model_id ++ bar in
    map (λ r. after_prefix prefix r.0)
      (keep (λ r. has_prefix r.0 prefix && ltb now r.1) mem.cooling)

with_cut : Option Text → List Text → List Text
with_cut none l = l
with_cut (some c) l = if same c [] then l else c ∷ l

pub avoided_providers : Memory → ℕ → Text → List Text
unfolding with_cut cooling_providers
avoided_providers mem now model_id =
    with_cut (lookup (lower_trim model_id) mem.cut_next) (cooling_providers mem now model_id)

-- What the read of the rated bids answered: an unreachable router, a list with unusable rows left out,
-- another error, or the whole list.
pub data RatedError : Type 0 where
  unreachable incomplete other_error : RatedError

-- Why nothing is opened; `all_excluded` is ErrNoEligibleProvider, the others are NoAvailableError.
pub data Refusal : Type 0 where
  router_unreachable rated_unreadable all_excluded health_unknown : Refusal
  none_healthy healthy_all_excluded : Refusal
  all_cooling : List RatedBid → Refusal

pub data Outcome : Type 0 where
  refused : Refusal → Outcome
  found : List RatedBid → List RatedBid → Outcome

-- The rows of the pool that are not avoided; the answer carries the pool for Retry-After.
pick_from : List RatedBid → List RatedBid → Outcome
pick_from [] pool = refused (all_cooling pool)
pick_from (b ∷ bs) pool = found (b ∷ bs) pool

avoid_rows : List RatedBid → List Text → Outcome
unfolding pick_from norm_prov
avoid_rows [] avoid = refused healthy_all_excluded
avoid_rows (b ∷ bs) avoid =
    pick_from (keep (λ r. not (is_in avoid (norm_prov r.provider))) (b ∷ bs)) (b ∷ bs)

exclude_rows : List RatedBid → List Text → List Text → Outcome
unfolding avoid_rows norm_prov
exclude_rows [] excluded avoid = refused none_healthy
exclude_rows (b ∷ bs) excluded avoid =
    avoid_rows (keep (λ r. not (is_in excluded (norm_prov r.provider))) (b ∷ bs)) avoid

healthy_rows : Option (List Text) → List RatedBid → List Text → List Text → Outcome
unfolding exclude_rows
healthy_rows none rows excluded avoid = refused health_unknown
healthy_rows (some h) rows excluded avoid =
    exclude_rows (keep (λ r. is_in h (lower_trim r.id)) rows) excluded avoid

filter_rows : List RatedBid → Option (List Text) → List Text → List Text → Outcome
unfolding healthy_rows norm_prov
filter_rows [] health excluded avoid = refused rated_unreadable
filter_rows (b ∷ bs) health excluded avoid =
    if not (any (λ r. not (is_in excluded (norm_prov r.provider))) (b ∷ bs))
    then refused all_excluded
    else healthy_rows health (b ∷ bs) excluded avoid

-- An incomplete answer counts while it has a row; with none it is unreadable, as an empty list is.
read_rows : Option RatedError → List RatedBid → Option (List Text) → List Text → List Text → Outcome
unfolding filter_rows
read_rows none rows health excluded avoid = filter_rows rows health excluded avoid
read_rows (some unreachable) rows health excluded avoid = refused router_unreachable
read_rows (some incomplete) rows health excluded avoid = filter_rows rows health excluded avoid
read_rows (some other_error) rows health excluded avoid = refused rated_unreadable

-- `none` for the health source is an error of it. The extra provider to avoid may be empty.
unfoldable pub filter_candidates :
    Memory → ℕ → Text → Text → Option RatedError → List RatedBid → Option (List Text) → Outcome
unfolding read_rows avoided_providers norm_prov
filter_candidates mem now model_id extra rerr rows health =
    let avoid : List Text = avoided_providers mem now model_id in
    read_rows rerr rows health mem.exclude
      (if same (norm_prov extra) [] then avoid else norm_prov extra ∷ avoid)
