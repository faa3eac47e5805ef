-- ===== src/Store/Usage.antt =====
-- Usage counters and the open sessions that they are credited from (internal/store/store.go:
-- RecordUsage, TrackSessionOpen, RecordSessionClose, PruneUsageOlderThan, the migration in Open). An
-- int64 is a number below 2 ^ 64 in two's complement; the day is an argument. These calls ignore
-- whether the write of the state file worked.
mod Laws
mod Tests
use morpheus_uplink.Base.{
  ℕ, ◌+◌, ◌%◌, ◌^◌, Bool, ◌||◌, not, Option, none, some, List, [], ◌∷◌, ◌++◌, Text, same, codes,
  if◌then◌else◌, ltb, leb, ◌==◌, trim_space, text_ltb, Map, lookup, insert, delete, keep, map,
  length,
}

pub record UsageRow : Type 0 where
  pub day : Text
  pub key_id : Text
  pub model : Text
  pub requests : ℕ
  pub prompt_tokens : ℕ
  pub completion_tokens : ℕ
  pub session_seconds : ℕ

pub record OpenSessionMeta : Type 0 where
  pub key_id : Text
  pub model : Text
  pub tracked : ℕ

pub record UsageState : Type 0 where
  pub usage : Map UsageRow
  pub open_sessions : Map OpenSessionMeta
  pub session_time_mode : Text

abbrev pub plus : ℕ → ℕ → ℕ
plus a b = (a + b) % 2 ^ 64

abbrev pub not_positive : ℕ → Bool
not_positive n = n == 0 || leb (2 ^ 63) n

pub row_id : Text → Text → Text → Text
row_id day key_id model = day ++ codes "|" ++ key_id ++ codes "|" ++ model

pub row_or_new : Option UsageRow → Text → Text → Text → UsageRow
row_or_new (some row) day key_id model = row
row_or_new none day key_id model = record {
  day = day;
  key_id = key_id;
  model = model;
  requests = 0;
  prompt_tokens = 0;
  completion_tokens = 0;
  session_seconds = 0;
}

-- The row of the day, the key and the model, made if there is none, after the change.
pub with_row : (UsageRow → UsageRow) → Text → Text → Text → Map UsageRow → Map UsageRow
unfolding row_or_new row_id
with_row change day key_id model m =
    let id : Text = row_id day key_id model in
    insert id (change (row_or_new (lookup id m) day key_id model)) m

pub add_request : ℕ → ℕ → UsageRow → UsageRow
add_request prompt completion row = record row {
  requests = plus row.requests 1;
  prompt_tokens = plus row.prompt_tokens prompt;
  completion_tokens = plus row.completion_tokens completion;
}

pub add_seconds : ℕ → UsageRow → UsageRow
add_seconds seconds row = record row { session_seconds = plus row.session_seconds seconds }

pub record_usage : Text → Text → Text → ℕ → ℕ → UsageState → UsageState
unfolding with_row add_request
record_usage day key_id model prompt completion s = record s {
  usage = with_row (add_request prompt completion) day key_id model s.usage;
}

pub track_session_open : ℕ → Text → Text → Text → UsageState → UsageState
track_session_open now session_id key_id model s =
    let id : Text = trim_space session_id in
    if same id [] then s else record s {
      open_sessions =
          insert id (record { key_id = key_id; model = model; tracked = now }) s.open_sessions;
    }

abbrev named_or : Text → Text → Text
named_or t other = if same t [] then other else t

-- The key and the model that the seconds go to.
pub credited_to : Option OpenSessionMeta → Text → Text × Text
credited_to none fallback = (codes "unknown", named_or fallback (codes "unknown"))
credited_to (some meta) fallback = (
  named_or meta.key_id (codes "unknown"),
  named_or (named_or meta.model fallback) (codes "unknown"),
)

pub record_session_close : Text → Text → ℕ → Text → UsageState → UsageState
unfolding with_row add_seconds credited_to
record_session_close day session_id seconds fallback s =
    let id : Text = trim_space session_id in
    let (key_id, model) = credited_to (lookup id s.open_sessions) fallback in
    if same id [] || not_positive seconds then s else record s {
      usage = with_row (add_seconds seconds) day key_id model s.usage;
      open_sessions = delete id s.open_sessions;
    }

-- The rows that stay, and how many went.
pub prune_usage : Text → UsageState → UsageState × ℕ
prune_usage cutoff s =
    let kept : Map UsageRow = keep (λ r. not (text_ltb r.1.day cutoff)) s.usage in
    (
      record s { usage = kept },
      length (keep (λ (r : Text × UsageRow). text_ltb r.1.day cutoff) s.usage),
    )

abbrev pub actual : Text
actual = codes "actual"

-- The one-time migration of `Open`.
pub migrate : UsageState → UsageState
migrate s = if same s.session_time_mode actual then s else record s {
  usage = map (λ r. (r.0, record r.1 { session_seconds = 0 })) s.usage;
  session_time_mode = actual;
}

pub data UsageEvent : Type 0 where
  requested : Text → Text → Text → ℕ → ℕ → UsageEvent
  opens : ℕ → Text → Text → Text → UsageEvent
  closes : Text → Text → ℕ → Text → UsageEvent

pub step : UsageEvent → UsageState → UsageState
unfolding record_usage track_session_open record_session_close
step (requested day key_id model prompt completion) s =
    record_usage day key_id model prompt completion s
step (opens now session_id key_id model) s = track_session_open now session_id key_id model s
step (closes day session_id seconds fallback) s =
    record_session_close day session_id seconds fallback s

pub run : List UsageEvent → UsageState → UsageState
unfolding step
run [] s = s
run (e ∷ es) s = run es (step e s)
