-- ===== src/Catalog.antt =====
-- The health feeds (internal/catalog/health.go): which bids of a model a gateway marks as healthy. A
-- `Feed` is a file after its JSON is decoded: rows that do not decode are `none`, and so is a status
-- that is no JSON string. Stamps are Unix seconds from 1970 on, pool times nanoseconds. The fetch and
-- the log lines are left out.
mod Laws
mod Tests
use morpheus_uplink.Base.{
  ℕ, zero, suc, ◌+◌, ◌*◌, Bool, true, false, ◌&&◌, ◌||◌, Option, none, some, List, [], ◌∷◌, ◌++◌,
  Text, codes, same, ltb, leb, ◌==◌, if◌then◌else◌, is_some, not, length, any, Map, lookup, insert,
  lower_trim, has_prefix,
}
use mathlib.Core.Option
use morpheus_uplink.Pool.Slot.{second}

abbrev pub max_feed_skew : ℕ
max_feed_skew = 300 * second

abbrev is_digit : ℕ → Bool
is_digit c = (leb b'0' c && leb c b'9') || (leb b'a' c && leb c b'f')

abbrev every : (ℕ → Bool) → Text → Bool
every p [] = true
every p (c ∷ s) = p c && every p s

abbrev from_2 : Text → Text
from_2 (a ∷ b ∷ s) = s
from_2 _ = []

-- 0x and 64 hex digits that are not all zeros, in lowercase.
unfoldable pub hex_id : Text → Option Text
unfolding lower_trim has_prefix
hex_id text =
    let s : Text = lower_trim text in
    if not (length s == 66) || not (has_prefix s (codes "0x"))
    then none
    else if not (every is_digit (from_2 s)) || every (λ c. c == b'0') (from_2 s)
    then none
    else some s

unfoldable pub is_healthy : Text → Bool
unfolding lower_trim
is_healthy status = same (lower_trim status) (codes "healthy")

pub record Row : Type 0 where
  pub id : Text
  pub model : Text
  pub status : Option Text

-- `last_updated`: missing, no integer, or a stamp.
pub data Stamp : Type 0 where
  missing not_integer : Stamp
  at : ℕ → Stamp

pub data FeedError : Type 0 where
  fetch_error malformed bad_timestamp no_usable_rows rollback : FeedError

pub record HealthSnap : Type 0 where
  pub set : Map (List Text)
  pub last_updated : ℕ
  pub fetched_at : ℕ

pub data Parsed : Type 0 where
  good : HealthSnap → Parsed
  bad : FeedError → Parsed

-- A usable row: its model, its id, and whether it is healthy.
usable_of : Option Text → Option Text → Option Text → Option (Text × Text × Bool)
unfolding is_healthy
usable_of (some id) (some model) (some status) = some (model, id, is_healthy status)
usable_of _ _ _ = none

unfoldable pub usable_row : Option Row → Option (Text × Text × Bool)
unfolding usable_of hex_id
usable_row none = none
usable_row (some r) = usable_of (hex_id r.id) (hex_id r.model) r.status

abbrev pub ids_of : Option (List Text) → List Text
ids_of none = []
ids_of (some ids) = ids

unfoldable pub add_row : Option (Text × Text × Bool) → Map (List Text) → Map (List Text)
add_row none set = set
add_row (some (model, id, false)) set = set
add_row (some (model, id, true)) set = insert model (id ∷ ids_of (lookup model set)) set

-- The loop over the rows, with the number that are usable.
unfoldable pub add_rows : List (Option Row) → Map (List Text) → ℕ → Map (List Text) × ℕ
unfolding add_row usable_row
add_rows [] set usable = (set, usable)
add_rows (r ∷ rs) set usable =
    add_rows rs (add_row (usable_row r) set) (if is_some (usable_row r) then usable + 1 else usable)

feed_stamp : Stamp → ℕ → Option ℕ
feed_stamp missing now = none
feed_stamp not_integer now = none
feed_stamp (at n) now = if ltb (now + max_feed_skew) (n * second) then none else some n

with_rows : ℕ → List (Option Row) → Parsed
unfolding add_rows
with_rows n rows =
    let (set, usable) = add_rows rows [] 0 in
    if usable == 0
    then bad no_usable_rows
    else good (record { set = set; last_updated = n; fetched_at = 0 })

with_array : Option ℕ → Option (List (Option Row)) → Parsed
unfolding with_rows
with_array none rows = bad bad_timestamp
with_array (some n) none = bad malformed
with_array (some n) (some rows) = with_rows n rows

-- `parseBidsFeed`, with the rows of the array, `none` for a value that is no array; and
-- `parseBidDetail`, whose rows are those of all models.
unfoldable pub parse_feed : Stamp → Option (List (Option Row)) → ℕ → Parsed
unfolding feed_stamp with_array
parse_feed stamp rows now = with_array (feed_stamp stamp now) rows

-- A newer copy replaces the one there, one of the same stamp refreshes its time, an older one is a
-- failed file.
unfoldable pub replace_snap :
    Option HealthSnap → HealthSnap → ℕ → Option HealthSnap × Option FeedError
replace_snap none next now = (some (record next { fetched_at = now }), none)
replace_snap (some cur) next now =
    if ltb next.last_updated cur.last_updated
    then (some cur, some rollback)
    else if next.last_updated == cur.last_updated
    then (some (record cur { fetched_at = now }), none)
    else (some (record next { fetched_at = now }), none)

-- One feed: its copy, and its last failure with the time.
pub record Feed : Type 0 where
  pub snap : Option HealthSnap
  pub error : Option (FeedError × ℕ)

recorded : Option HealthSnap × Option FeedError → ℕ → Feed
recorded (s, none) now = record { snap = s; error = none }
recorded (s, some e) now = record { snap = s; error = some (e, now) }

-- The end of `refreshBids`, and of `applyDetailLocked`.
unfoldable pub apply_feed : Feed → Parsed → ℕ → Feed
unfolding recorded replace_snap
apply_feed f (bad e) now = record f { error = some (e, now) }
apply_feed f (good next) now = recorded (replace_snap f.snap next now) now

young : Option ℕ → ℕ → ℕ → Bool
young none now ttl = false
young (some t) now ttl = ltb now (t + ttl)

-- `bidsState`: whether a fetch is due. `configured` says that the feed has an address.
unfoldable pub is_due : Bool → Feed → ℕ → ℕ → ℕ → Bool
unfolding young
is_due configured f now ttl retry_after =
    configured
    && not (young (Option.map (λ s. s.fetched_at) f.snap) now ttl)
    && not (young (Option.map (λ e. e.1) f.error) now retry_after)

served : Option HealthSnap → Text → Option (List Text)
served none model = none
served (some s) model = some (ids_of (lookup model s.set))

-- The bids feed once it has a copy, else the detail of the models feed, else unknown.
unfoldable pub healthy_bid_ids : Feed → Feed → Text → Option (List Text)
unfolding served lower_trim
healthy_bid_ids bids detail model_id =
    if is_some bids.snap
    then served bids.snap (lower_trim model_id)
    else served detail.snap (lower_trim model_id)
