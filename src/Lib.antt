-- ===== src/Lib.antt =====
-- Verification of Morpheus Uplink, a gateway that opens paid sessions with model providers through a
-- router and one wallet, and hands them to the requests of its API keys.
--
-- The program's parts, and the files that model them:
-- * The wallet slot (internal/pool/slot.go): one wallet call at a time, a FIFO queue with a cap for
--   each key. Pool/Slot.antt has the two critical sections of `acquire` (`acquire_enter`,
--   `acquire_leave`), `try_acquire`, `release`, `holds` and the time that `callCtx` gives a call;
--   `step` and `run` let the sections of many goroutines interleave in any order.
-- * Sessions and their leases (internal/pool/lease.go, internal/pool/pool.go). Pool/Lease.antt has the
--   state and the leases (`try_pooled_locked`, `lease_session`, `done`), Pool/Lease/Release.antt the
--   release by a key, Pool/Lease/Sweep.antt the two critical sections of the idle sweep (`claim`,
--   `close_failed`) with the close marks of internal/pool/sweep.go, and Pool/Lease/Drop.antt how
--   sessions enter and leave the pool. Pool/Lease/Steps.antt lets the sections run in
--   any order for which its `Step` has a case; `forget` and the pruning of a scan have none.
-- * The choice of provider (internal/pool/failover.go): Pool/Candidates.antt has the failover memory
--   (cool-downs, stream cuts, exclusions) and `filterCandidates`, Pool/Candidates/Retry.antt the
--   Retry-After of its refusal.
-- * What an open error proves (internal/pool/transient.go): Pool/Transient.antt has the error class,
--   its text tables and the backoff, Pool/Transient/Reads.antt which failed reads are tried again and
--   when a failed open waits on the chain.
-- * One open operation (internal/pool/failover.go, openOp): Pool/Open.antt has its state and backoff,
--   Pool/Open/Adopt.antt the search for a session whose open lost its answer and the adoption of one
--   that the router names, Pool/Open/Walk.antt the walk over the bids under the stake cap, and
--   Pool/Open/Normal.antt the open as a whole (`open_avoiding_cooling`).
-- * Requests and failovers as a whole: Pool/Acquire.antt has `acquire` (internal/pool/lease.go,
--   AcquireCtx), which looks at the pool, waits for the slot, scans the wallet and opens;
--   Pool/Failover.antt has `failover` (internal/pool/failover.go, FailoverCtx), which cools the failed
--   provider, closes its session and opens on another. Each runs alone.
-- * Opens with an unknown outcome (internal/pool/sweep.go): Pool/Attempts.antt has the list of pending
--   attempts. The plan of the boot reconcile (internal/pool/reconcile.go) is in Pool/Reconcile.antt, and
--   a pass with its closes in Pool/Reconcile/Boot.antt.
-- * The scan of the wallet's open sessions (internal/pool/sweep.go): Pool/Scan.antt sorts the listed
--   sessions, Pool/Scan/Apply.antt adopts, prunes and chooses one close (`apply_scan`), and
--   Pool/Scan/Close.antt has one close call and the count of what is close-due.
-- * The admin login (internal/adminauth/lockout.go, internal/adminauth/session.go):
--   Adminauth/Lockout.antt and Adminauth/Sessions.antt. Its second factor (internal/adminauth/totp.go,
--   internal/adminauth/recovery.go, internal/api/second_factor.go) is in Adminauth/Factor.antt, and
--   Adminauth/Factor/Replay.antt runs a sequence of its requests.
-- * The admin console (internal/api/admin_login.go, internal/api/stepup.go, internal/api/hostgate.go,
--   internal/api/csrf.go, internal/api/totp_handlers.go): Admin/Gate.antt has the host gate and the CSRF
--   check, Admin/Access.antt which requests reach a handler (`require_admin`, `require_session`), and
--   Admin/Login.antt the login, the step-up and the ends of sessions, over the state of the lockout, the
--   second factor and the sessions.
-- * The store (internal/store/store.go, internal/keymaker/keymaker.go): Store/Keys.antt has the API keys,
--   Store/Usage.antt the usage rows.
-- * The audit log (internal/auditlog/stream.go): Audit.antt has the live file, its rotated copies and the
--   reading of the newest lines.
-- * The health feeds (internal/catalog/health.go): Catalog.antt has the parse of a file, the rule by which
--   it replaces the copy, and the healthy bids of a model.
-- * The stake of a session (internal/router/stake.go, internal/config/stake_limit.go): Stake.antt, and
--   Stake/Setting.antt for the text of the cap's setting, and Stake/Setting/Format.antt for the cap at boot.
--
-- An open holds the wallet slot while it reads the candidates, calls the router and pools what was
-- opened; its error class decides whether the next bid is tried. The sweep holds the slot while it
-- claims and closes a session. Each section under a mutex is one function from the state before to
-- the state after, and what other goroutines do in between is another step.
--
-- Conventions:
-- * Times and durations are native naturals in nanoseconds, and 0 is the zero time; the time of a
--   section is an argument, so theorems hold for any clock. A difference of times that would be
--   negative is 0 where the source tests the order first.
-- * Counters of type int are unbounded, the uint64 of token ids wraps, and amounts of wei are
--   unbounded as big.Int is.
-- * A string is the list of its bytes, and case and space are those of ASCII: ids, addresses and
--   error texts are ASCII.
-- * A Go map is an association list. Where the source ranges over one and the order shows, the model
--   takes the order of the list, which is any.
-- * A Go pointer that is compared (a slot token, a waiter) is a number taken from a counter.
-- * The clock is past the first minutes of its count, so a time before its zero does not occur.
-- * Hashing of a session cookie is an argument of the definitions that use it; so is a random number.
-- * An open operation runs against a `World` that answers each call, sleep and read of the clock by the
--   number of the tick: any router, any clock and any end of the request is a World.
-- * Three loops have fuel. The eviction of admin sessions has the length of the store, and each round
--   drops a session. The rounds on one bid, and those of the read of the candidates, are five, and each
--   but the last spends one of the operation's four retries.
--
-- Not modelled: HTTP, JSON, the state file and the chain (parameters or out of scope), log lines, the
-- refusals that the status page shows, hooks of the tests; what other requests do between the critical
-- sections of one AcquireCtx or FailoverCtx, the gate and the retries of the boot reconcile, the loops of
-- the sweep, enrolment of the second factor, the list of models, the settings and the other HTTP handlers.
pub mod Base
pub mod Pool
pub mod Adminauth
pub mod Admin
pub mod Store
pub mod Stake
pub mod Audit
pub mod Catalog
