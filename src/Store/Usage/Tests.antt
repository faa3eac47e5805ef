-- ===== src/Store/Usage/Tests.antt =====
-- A small store of usage, and an instance of the theorem (internal/store/store.go).
use morpheus_uplink.Base.{◌%◌, ◌^◌, ◌≡◌, List, [], ◌∷◌, codes, dec_text}
use morpheus_uplink.Store.Usage.{UsageState, UsageEvent, requested, opens, closes, run}
use morpheus_uplink.Store.Usage.Laws.{total, run-reported}

abbrev no_usage : UsageState
no_usage = record { usage = []; open_sessions = []; session_time_mode = codes "actual" }

abbrev calls : List UsageEvent
calls =
    requested (codes "2026-01-02") (codes "k1") (codes "m") 10 20
    ∷ opens 5 (codes "s") (codes "k1") (codes "m")
    ∷ closes (codes "2026-01-02") (codes " s ") 60 (codes "other")
    ∷ []

run-reported_example : total (λ row. row.session_seconds) (run calls no_usage).usage % 2 ^ 64 ≡ 60
unfolding dec_text
run-reported_example = (run-reported calls no_usage).3
