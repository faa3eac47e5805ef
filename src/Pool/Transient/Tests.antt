-- ===== src/Pool/Transient/Tests.antt =====
-- Open errors of the router (internal/pool/transient.go), and instances of the theorems.
use morpheus_uplink.Base.{◌*◌, ◌≡◌, refl, true, false, some, codes, contains}
use morpheus_uplink.Pool.Slot.{second}
use morpheus_uplink.Pool.Transient.{
  CallError, status, transient_pre_send, transient_window, maybe_sent, classify_open_err,
  provider_stage_texts, pre_send_prefixes, window_prefixes, has_funding_marker, cut,
  open_stage_funds,
}

abbrev no_bid : CallError
no_bid = status 500 (codes "failed to get bid: timeout")

abbrev no_nonce : CallError
no_nonce =
    status 500 (codes "failed to send transaction: open session failed: failed to get nonce: eof")

bid_retried : classify_open_err (some no_bid) 0 false ≡ transient_pre_send
unfolding contains has_funding_marker cut classify_open_err provider_stage_texts pre_send_prefixes
    window_prefixes
bid_retried = refl

nonce_in_time : classify_open_err (some no_nonce) (17 * second) true ≡ transient_window
unfolding contains open_stage_funds has_funding_marker cut classify_open_err provider_stage_texts
    pre_send_prefixes window_prefixes
nonce_in_time = refl

nonce_too_late : classify_open_err (some no_nonce) (18 * second) true ≡ maybe_sent
unfolding contains open_stage_funds has_funding_marker cut classify_open_err provider_stage_texts
    pre_send_prefixes window_prefixes
nonce_too_late = refl
