-- ===== src/Pool/Scan/Close.antt =====
-- One close while holding the wallet slot, and the count of what is close-due (internal/pool/sweep.go:
-- closeWithToken, localDueLocked, oldestDueLocked). The set `closedByUs` and the copy for the status
-- page only feed warnings and are left out, and so are the audit event and the hook of a closed session.
use morpheus_uplink.Base.{
  ℕ, ◌+◌, ◌-◌, ◌*◌, Bool, false, ◌&&◌, ◌||◌, Option, none, some, [], ◌∷◌, Text, same, ltb, ◌==◌,
  if◌then◌else◌, is_some, keep, not, Map, lookup, insert, delete, to_lower, length,
}
use morpheus_uplink.Pool.Slot.{WalletSlot, SlotToken, holds, second}
use morpheus_uplink.Pool.Lease.{SessState, closing_marked, unheld_since}
use morpheus_uplink.Pool.Lease.Drop.{forget}
use morpheus_uplink.Pool.Transient.{CallError, is_transport_err, status}
use morpheus_uplink.Pool.Attempts.{ChainSession}
use morpheus_uplink.Pool.Scan.{Wallet}

abbrev pub router_close_max_life : ℕ
router_close_max_life = 600 * second

pub data CloseOutcome : Type 0 where
  close_ok close_already close_failed close_cut : CloseOutcome

-- What the router answers when it is asked for the session after a close that failed.
pub data Reread : Type 0 where
  session : ChainSession → Reread
  read_failed : CallError → Reread

is_not_found : CallError → Bool
is_not_found (status code text) = code == 404
is_not_found _ = false

pub is_closed : Reread → Bool
unfolding is_not_found
is_closed (session s) = not (s.closed_at == 0)
is_closed (read_failed e) = is_not_found e

mark_as : Wallet → Text → ℕ → Wallet
mark_as w lid expiry = record w {
  pool = record (w.pool) { closing_ids = insert lid expiry w.pool.closing_ids };
}

unmark : Wallet → Text → Wallet
unmark w lid = record w { pool = record (w.pool) { closing_ids = delete lid w.pool.closing_ids } }

-- The closure `done`; `notifyClosed` forgets the session.
closed : Wallet → Text → Wallet
unfolding unmark forget
closed w id = record (unmark w (to_lower id)) {
  pool = forget (unmark w (to_lower id)).pool id;
  close_due_at = delete (to_lower id) w.close_due_at;
  known_dup = keep (λ d. not (same d (to_lower id))) w.known_dup;
}

-- The close as the router answered it at `now`. The session is read again only when some of the hold
-- is left.
answered : Option CallError → Option Reread → ℕ → Wallet → Text → Wallet × CloseOutcome
unfolding closed mark_as unmark is_closed is_transport_err
answered none reread now w id = (closed w id, close_ok)
answered (some e) none now w id =
    if is_transport_err e
    then (mark_as w (to_lower id) (now + router_close_max_life), close_cut)
    else (unmark w (to_lower id), close_failed)
answered (some e) (some r) now w id =
    if is_transport_err e
    then (mark_as w (to_lower id) (now + router_close_max_life), close_cut)
    else if is_closed r
    then (closed w id, close_already)
    else (unmark w (to_lower id), close_failed)

unfoldable pub close_with_token :
    WalletSlot
    → Option SlotToken
    → Text
    → Option CallError
    → Option Reread
    → ℕ
    → Wallet
    → Wallet × CloseOutcome
unfolding answered mark_as
close_with_token slot tok id answer reread now w =
    if not (holds slot tok)
    then (w, close_failed)
    else answered answer reread now (mark_as w (to_lower id) 0) id

unfoldable pub oldest_due : Map ℕ → ℕ → ℕ
oldest_due [] now = 0
oldest_due ((lid, t) ∷ m) now =
    let rest = oldest_due m now in if ltb rest (now - t) then now - t else rest

unfoldable pub is_waiting : Wallet → Text × SessState → Bool
is_waiting w (id, st) =
    not (not st.retired || st.closing || ltb 0 st.inflight || closing_marked w.pool id)

-- The loop over the sessions, with the count and the longest time so far.
count_waiting : Wallet → ℕ → Map SessState → ℕ × ℕ → ℕ × ℕ
unfolding is_waiting unheld_since
count_waiting w now [] (n, oldest) = (n, oldest)
count_waiting w now ((id, st) ∷ m) (n, oldest) =
    let d : ℕ = now - unheld_since st in
    let seen : Bool = is_some (lookup (to_lower id) w.close_due_at) in
    let further =
      count_waiting w now m (if seen then n else n + 1, if ltb oldest d then d else oldest) in
    let skipped = count_waiting w now m (n, oldest) in
    if is_waiting w (id, st) then further else skipped

unfoldable pub local_due : Wallet → ℕ → ℕ × ℕ
unfolding count_waiting oldest_due
local_due w now =
    count_waiting w now w.pool.sess (length w.close_due_at, oldest_due w.close_due_at now)

abbrev pub sweep_max_skips : ℕ
sweep_max_skips = 3

abbrev pub orphan_alert_age : ℕ
orphan_alert_age = 600 * second

-- Whether a sweep tick that finds the slot busy queues for it, after `skips` such ticks.
unfoldable pub must_queue : Wallet → ℕ → ℕ → Bool
unfolding local_due
must_queue w skips now =
    let (due, oldest) = local_due w now in
    not (ltb skips sweep_max_skips && (due == 0 || ltb oldest orphan_alert_age))
