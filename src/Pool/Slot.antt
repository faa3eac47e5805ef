-- ===== src/Pool/Slot.antt =====
-- The wallet slot (internal/pool/slot.go): one holder, a FIFO queue, a hand-over on release.
-- Each section under `s.mu` is a function, and time is an argument. A token or a waiter is a Go
-- pointer: `ref` is its address, taken from the counter `fresh`. `handed` is what lies in the
-- waiters' channels, `released` the tokens whose `released` flag is set. Log lines, the watchdog and
-- the test-only time scale are left out.
mod Invariant
mod Handoff
mod Deadlines
mod Tests
use morpheus_uplink.Base.{
  ℕ, ◌+◌, ◌-◌, ◌*◌, ◌%◌, ◌^◌, Bool, true, false, ◌&&◌, ◌||◌, Option, none, some, List, [], ◌∷◌,
  ◌++◌, Text, same, ltb, leb, ◌==◌, if◌then◌else◌, is_some, length, keep, count_if, any, not,
}

-- time.Duration counts nanoseconds.
abbrev pub second : ℕ
second = 1_000_000_000

abbrev pub slot_hold_cap : ℕ
slot_hold_cap = 60 * second

abbrev pub max_queued_per_key : ℕ
max_queued_per_key = 2

pub record SlotToken : Type 0 where
  pub ref : ℕ
  pub id : ℕ  -- uint64
  pub key : Text
  pub acquired : ℕ
  pub deadline : ℕ

pub record SlotWaiter : Type 0 where
  pub ref : ℕ
  pub key : Text

pub record WalletSlot : Type 0 where
  pub holder : Option SlotToken
  pub waiters : List SlotWaiter
  pub next_id : ℕ  -- uint64
  pub held : ℕ  -- int64
  pub max_held : ℕ  -- int64
  pub handed : List (ℕ × SlotToken)
  pub released : List ℕ
  pub fresh : ℕ

pub empty_slot : WalletSlot
empty_slot = record {
  holder = none;
  waiters = [];
  next_id = 0;
  held = 0;
  max_held = 0;
  handed = [];
  released = [];
  fresh = 0;
}

pub new_token : WalletSlot → ℕ → Text → SlotToken
new_token s now key = record {
  ref = s.fresh;
  id = (s.next_id + 1) % 2 ^ 64;
  key = key;
  acquired = now;
  deadline = now + slot_hold_cap;
}

-- `s.held.Add(1)` and the running maximum.
pub grant_locked : WalletSlot → ℕ → Text → WalletSlot
unfolding new_token
grant_locked s now key = record s {
  next_id = (s.next_id + 1) % 2 ^ 64;
  holder = some (new_token s now key);
  held = s.held + 1;
  max_held = if ltb s.max_held (s.held + 1) then s.held + 1 else s.max_held;
  fresh = s.fresh + 1;
}

abbrev pub is_free : WalletSlot → Bool
is_free s = not (is_some s.holder) && length s.waiters == 0

-- `nil` is `none`; the token handed out is the new holder.
pub try_acquire : WalletSlot → ℕ → Text → WalletSlot × Option SlotToken
unfolding grant_locked
try_acquire s now key =
    if is_free s then (grant_locked s now key, some (new_token s now key)) else (s, none)

-- How `acquire` leaves its first critical section.
pub data Entered : Type 0 where
  ctx_ended : Entered
  granted : SlotToken → Entered
  slot_busy : Entered
  queued : SlotWaiter → Entered

abbrev pub queued_for : Text → List SlotWaiter → ℕ
queued_for key = count_if λ w. same w.key key

-- The empty key is exempt.
abbrev pub at_cap : WalletSlot → Text → Bool
at_cap s key = not (same key []) && leb max_queued_per_key (queued_for key s.waiters)

enqueue : WalletSlot → Text → WalletSlot × Entered
enqueue s key =
    let w : SlotWaiter = record { ref = s.fresh; key = key } in
    (record s { waiters = s.waiters ++ w ∷ []; fresh = s.fresh + 1 }, queued w)

-- `acquire` up to its `select`; `ctx_done` says that the context had ended at the call.
pub acquire_enter : WalletSlot → ℕ → Bool → Text → WalletSlot × Entered
unfolding grant_locked enqueue
acquire_enter s now ctx_done key =
    if ctx_done
    then (s, ctx_ended)
    else if is_free s
    then (grant_locked s now key, granted (new_token s now key))
    else if at_cap s key
    then (s, slot_busy)
    else enqueue s key

-- `tok := <-w.ch`
pub channel : ℕ → List (ℕ × SlotToken) → Option SlotToken
channel w [] = none
channel w ((v, tok) ∷ rest) = if v == w then some tok else channel w rest

pub drain : ℕ → List (ℕ × SlotToken) → List (ℕ × SlotToken)
drain w [] = []
drain w ((v, tok) ∷ rest) = if v == w then rest else (v, tok) ∷ drain w rest

pub receive : WalletSlot → ℕ → WalletSlot × Option SlotToken
unfolding channel drain
receive s w = (record s { handed = drain w s.handed }, channel w s.handed)

abbrev pub is_released : WalletSlot → ℕ → Bool
is_released s ref = any (λ r. r == ref) s.released

abbrev pub holds_ref : Option SlotToken → ℕ → Bool
holds_ref none ref = false
holds_ref (some tok) ref = tok.ref == ref

-- The head waiter, if any, gets the slot through its channel.
hand_over : List SlotWaiter → WalletSlot → ℕ → WalletSlot
unfolding grant_locked
hand_over [] s now = s
hand_over (w ∷ ws) s now = record (grant_locked (record s { waiters = ws }) now w.key) {
  handed = s.handed ++ (w.ref, new_token s now w.key) ∷ [];
}

-- A waiter's channel takes a token whose address is `s.fresh`.
release_ref : WalletSlot → ℕ → ℕ → WalletSlot
unfolding hand_over
release_ref s now ref =
    let marked : WalletSlot = record s { released = ref ∷ s.released } in
    if is_released s ref
    then s
    else if not (holds_ref s.holder ref)
    then marked
    else hand_over s.waiters (record marked { holder = none; held = s.held - 1 }) now

pub release : WalletSlot → ℕ → Option SlotToken → WalletSlot
unfolding release_ref
release s now none = s
release s now (some tok) = release_ref s now tok.ref

leave_with : Option SlotToken → WalletSlot → ℕ → ℕ → WalletSlot
unfolding release
leave_with none s now w = record s { waiters = keep (λ v. not (v.ref == w)) s.waiters }
leave_with (some tok) s now w = release (record s { handed = drain w s.handed }) now (some tok)

-- The second critical section of `acquire`, after the context or the timer fired.
pub acquire_leave : WalletSlot → ℕ → ℕ → WalletSlot
unfolding leave_with channel
acquire_leave s now w = leave_with (channel w s.handed) s now w

unfoldable pub holds : WalletSlot → Option SlotToken → Bool
holds s none = false
holds s (some tok) = not (is_released s tok.ref) && holds_ref s.holder tok.ref

-- The time that `callCtx` gives a router call, never negative; `per` 0 asks for all that is left.
pub call_time : SlotToken → ℕ → ℕ → ℕ
call_time tok now per =
    let left : ℕ = tok.deadline - now in if ltb 0 per && ltb per left then per else left

-- The critical sections that goroutines run, in any order.
pub data Event : Type 0 where
  enters : Bool → Text → Event
  tries : Text → Event
  receives : ℕ → Event
  leaves : ℕ → Event
  releases : Option SlotToken → Event

pub step : WalletSlot → ℕ × Event → WalletSlot
unfolding acquire_enter try_acquire receive acquire_leave release
step s (now, enters ctx_done key) = (acquire_enter s now ctx_done key).0
step s (now, tries key) = (try_acquire s now key).0
step s (now, receives w) = (receive s w).0
step s (now, leaves w) = acquire_leave s now w
step s (now, releases tok) = release s now tok

pub run : WalletSlot → List (ℕ × Event) → WalletSlot
run s [] = s
run s (e ∷ es) = run (step s e) es
