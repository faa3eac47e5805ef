-- ===== src/Store/Usage/Laws.antt =====
-- The usage rows add up to what was reported (internal/store/store.go: RecordUsage, TrackSessionOpen,
-- RecordSessionClose).
use morpheus_uplink.Base.{
  ℕ, ◌+◌, ◌%◌, ◌^◌, ◌≡◌, refl, sym, ◌∙◌, ◌||◌, Option, none, some, List, [], ◌∷◌, Text, same, arith,
  if◌then◌else◌, trim_space, Map, lookup, insert, Bool-cases, inl, inr, Option-cases,
}
use morpheus_uplink.Store.Usage.{
  UsageRow, UsageState, not_positive, row_id, row_or_new, with_row, add_request, add_seconds,
  record_usage, track_session_open, credited_to, record_session_close, UsageEvent, requested, opens,
  closes, step, run,
}

abbrev pub total : (UsageRow → ℕ) → Map UsageRow → ℕ
total f [] = 0
total f ((id, row) ∷ m) = f row + total f m

value_at : (UsageRow → ℕ) → Option UsageRow → ℕ
value_at f none = 0
value_at f (some row) = f row

total-insert :
    (f : UsageRow → ℕ) (id : Text) (row : UsageRow) (m : Map UsageRow)
    → total f (insert id row m) + value_at f (lookup id m) ≡ total f m + f row
unfolding insert lookup value_at
total-insert f id row [] = omega arith
total-insert f id row ((j, r) ∷ m) = ground (arith, total-insert f id row m)

-- A change that adds `n` to one counter of a row adds it to the total.
total-with_row :
    (f : UsageRow → ℕ) (change : UsageRow → UsageRow) (n : ℕ) (day key_id model : Text)
    (m : Map UsageRow)
    → ((row : UsageRow) → f (change row) % 2 ^ 64 ≡ (f row + n) % 2 ^ 64)
    → f (row_or_new none day key_id model) ≡ 0
    → total f (with_row change day key_id model m) % 2 ^ 64 ≡ (total f m + n) % 2 ^ 64
unfolding with_row value_at
total-with_row f change n day key_id model m adds zero_row =
    let id : Text = row_id day key_id model in
    let row : UsageRow = row_or_new (lookup id m) day key_id model in
    let here : value_at f (lookup id m) ≡ f row = elim (Option-cases (lookup id m)) [
      | inl missing ↦ rw missing (sym zero_row)
      | inr (r, there) ↦ rw there (unfold row_or_new in refl)
    ] in
    omega (arith, total-insert f id (change row) m, here, adds row)

abbrev requests_in : UsageEvent → ℕ
requests_in (requested day key_id model prompt completion) = 1
requests_in (opens now id key_id model) = 0
requests_in (closes day id seconds fallback) = 0

abbrev prompt_in : UsageEvent → ℕ
prompt_in (requested day key_id model prompt completion) = prompt
prompt_in (opens now id key_id model) = 0
prompt_in (closes day id seconds fallback) = 0

abbrev completion_in : UsageEvent → ℕ
completion_in (requested day key_id model prompt completion) = completion
completion_in (opens now id key_id model) = 0
completion_in (closes day id seconds fallback) = 0

-- A close counts when it names a session and its time is above zero.
abbrev seconds_in : UsageEvent → ℕ
seconds_in (requested day key_id model prompt completion) = 0
seconds_in (opens now id key_id model) = 0
seconds_in (closes day id seconds fallback) =
    if same (trim_space id) [] || not_positive seconds then 0 else seconds

abbrev reported : (UsageEvent → ℕ) → List UsageEvent → ℕ
reported d [] = 0
reported d (e ∷ es) = d e + reported d es

-- The counter `f` of the rows follows what the events report as `d`.
abbrev Follows : (UsageRow → ℕ) → (UsageEvent → ℕ) → Type 0
Follows f d =
    (e : UsageEvent) (s : UsageState)
    → total f (step e s).usage % 2 ^ 64 ≡ (total f s.usage + d e) % 2 ^ 64

track-usage :
    (now : ℕ) (id key_id model : Text) (s : UsageState)
    → (track_session_open now id key_id model s).usage ≡ s.usage
unfolding track_session_open
track-usage now id key_id model s = elim (Bool-cases (same (trim_space id) [])) [
  | inl e ↦ rw e refl
  | inr e ↦ rw e refl
]

close-total :
    (f : UsageRow → ℕ) (n : ℕ) (day id : Text) (seconds : ℕ) (fallback : Text) (s : UsageState)
    → ((row : UsageRow) → f (add_seconds seconds row) % 2 ^ 64 ≡ (f row + n) % 2 ^ 64)
    → ((day key_id model : Text) → f (row_or_new none day key_id model) ≡ 0)
    → total f (record_session_close day id seconds fallback s).usage % 2 ^ 64
      ≡ (total f s.usage + (if same (trim_space id) [] || not_positive seconds then 0 else n))
        % 2 ^ 64
unfolding record_session_close
close-total f n day id seconds fallback s adds new =
    let to = credited_to (lookup (trim_space id) s.open_sessions) fallback in
    elim (Bool-cases (same (trim_space id) [] || not_positive seconds)) [
      | inl ignored ↦ rw ignored (omega arith)
      | inr counted ↦
          rw counted (
            total-with_row f (add_seconds seconds) n day to.0 to.1 s.usage adds (new day to.0 to.1))
    ]

requests-Follows : Follows (λ row. row.requests) requests_in
unfolding step record_usage add_request add_seconds row_or_new
requests-Follows (requested day key_id model prompt completion) s =
    total-with_row (λ row. row.requests) (add_request prompt completion) 1 day key_id model s.usage
      (λ row. omega arith) refl
requests-Follows (opens now id key_id model) s =
    rw (track-usage now id key_id model s) (omega arith)
requests-Follows (closes day id seconds fallback) s =
    close-total (λ row. row.requests) 0 day id seconds fallback s (λ row. omega arith)
      (λ d k m. refl)
    ∙ ground arith

prompt-Follows : Follows (λ row. row.prompt_tokens) prompt_in
unfolding step record_usage add_request add_seconds row_or_new
prompt-Follows (requested day key_id model prompt completion) s =
    total-with_row (λ row. row.prompt_tokens) (add_request prompt completion) prompt day key_id
      model s.usage (λ row. omega arith) refl
prompt-Follows (opens now id key_id model) s = rw (track-usage now id key_id model s) (omega arith)
prompt-Follows (closes day id seconds fallback) s =
    close-total (λ row. row.prompt_tokens) 0 day id seconds fallback s (λ row. omega arith)
      (λ d k m. refl)
    ∙ ground arith

completion-Follows : Follows (λ row. row.completion_tokens) completion_in
unfolding step record_usage add_request add_seconds row_or_new
completion-Follows (requested day key_id model prompt completion) s =
    total-with_row (λ row. row.completion_tokens) (add_request prompt completion) completion day
      key_id model s.usage (λ row. omega arith) refl
completion-Follows (opens now id key_id model) s =
    rw (track-usage now id key_id model s) (omega arith)
completion-Follows (closes day id seconds fallback) s =
    close-total (λ row. row.completion_tokens) 0 day id seconds fallback s (λ row. omega arith)
      (λ d k m. refl)
    ∙ ground arith

seconds-Follows : Follows (λ row. row.session_seconds) seconds_in
unfolding step record_usage add_request add_seconds row_or_new
seconds-Follows (requested day key_id model prompt completion) s =
    total-with_row (λ row. row.session_seconds) (add_request prompt completion) 0 day key_id model
      s.usage (λ row. omega arith) refl
seconds-Follows (opens now id key_id model) s = rw (track-usage now id key_id model s) (omega arith)
seconds-Follows (closes day id seconds fallback) s =
    close-total (λ row. row.session_seconds) seconds day id seconds fallback s (λ row. omega arith)
      (λ d k m. refl)

run-total :
    (f : UsageRow → ℕ) (d : UsageEvent → ℕ) (es : List UsageEvent) (s : UsageState)
    → Follows f d
    → total f (run es s).usage % 2 ^ 64 ≡ (total f s.usage + reported d es) % 2 ^ 64
unfolding run
run-total f d [] s follows = omega arith
run-total f d (e ∷ es) s follows = omega (arith, run-total f d es (step e s) follows, follows e s)

-- Over any calls, each counter, summed over the rows of all days, keys and models, has grown by exactly
-- what the calls reported, modulo 2 ^ 64: one request for each recorded usage, its prompt and completion
-- tokens, and the seconds of each close that names a session and has a time above zero. Nothing is lost
-- or counted twice, whichever rows exist and whichever sessions are tracked.
pub run-reported :
    (es : List UsageEvent) (s : UsageState)
    → let q = run es s in
      (total (λ row. row.requests) q.usage % 2 ^ 64
        ≡ (total (λ row. row.requests) s.usage + reported requests_in es) % 2 ^ 64)
      × (total (λ row. row.prompt_tokens) q.usage % 2 ^ 64
          ≡ (total (λ row. row.prompt_tokens) s.usage + reported prompt_in es) % 2 ^ 64)
      × (total (λ row. row.completion_tokens) q.usage % 2 ^ 64
          ≡ (total (λ row. row.completion_tokens) s.usage + reported completion_in es) % 2 ^ 64)
      × (total (λ row. row.session_seconds) q.usage % 2 ^ 64
          ≡ (total (λ row. row.session_seconds) s.usage + reported seconds_in es) % 2 ^ 64)
run-reported es s = (
  run-total (λ row. row.requests) requests_in es s requests-Follows,
  run-total (λ row. row.prompt_tokens) prompt_in es s prompt-Follows,
  run-total (λ row. row.completion_tokens) completion_in es s completion-Follows,
  run-total (λ row. row.session_seconds) seconds_in es s seconds-Follows,
)
