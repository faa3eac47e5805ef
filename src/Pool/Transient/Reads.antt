-- ===== src/Pool/Transient/Reads.antt =====
-- Which failed reads are tried again, and when a failed open waits on the chain
-- (internal/pool/transient.go: isTransientRead, hasRateLimitMarker, chainWaitReason).
use morpheus_uplink.Base.{
  ℕ, Bool, true, false, ◌&&◌, ◌||◌, List, [], ◌∷◌, Text, codes, leb, ◌==◌, if◌then◌else◌, any, not,
  has_prefix, contains, ◌≡◌, refl,
}
use morpheus_uplink.Pool.Attempts.{ChainWait, wallet_tx_pending, chain_congested, other_wait}
use morpheus_uplink.Pool.Transient.{
  CallError, transport, status, unreadable, is_transport_err, cut, open_stage_prefix,
}

unfoldable pub rate_limit_markers : List Text
rate_limit_markers =
    codes "too many requests"
    ∷ codes "rate limit"
    ∷ codes "usage limit"
    ∷ codes "quota exceeded"
    ∷ codes "request limit"
    ∷ codes "daily limit"
    ∷ codes "monthly limit"
    ∷ codes "compute units per second"
    ∷ []

unfoldable pub read_prefix : Text
read_prefix = codes "failed to call contract"

is_word : ℕ → Bool
is_word c =
    leb b'0' c && leb c b'9' || leb b'a' c && leb c b'z' || leb b'A' c && leb c b'Z' || c == b'_'

starts_word : Text → Bool
unfolding is_word
starts_word [] = false
starts_word (c ∷ s) = is_word c

-- `\b429\b`; the flag says that a word character stands before the text.
unfoldable pub whole_429 : Bool → Text → Bool
unfolding starts_word is_word has_prefix
whole_429 inside [] = false
whole_429 inside (c ∷ s) =
    not inside && has_prefix (c ∷ s) (codes "429") && not (starts_word (cut (c ∷ s) (codes "429")))
    || whole_429 (is_word c) s

unfoldable pub has_rate_limit_marker : Text → Bool
unfolding whole_429 rate_limit_markers contains
has_rate_limit_marker rest =
    not (contains rest (codes "revert"))
    && (whole_429 false rest || any (contains rest) rate_limit_markers)

read_text : Text → Bool
unfolding has_rate_limit_marker has_prefix read_prefix
read_text text =
    if has_prefix text read_prefix
    then has_rate_limit_marker (cut text read_prefix)
    else has_prefix text (codes "429 ") || has_prefix text (codes "too many requests")

read_reply : CallError → Bool
unfolding read_text
read_reply transport = false
read_reply unreadable = false
read_reply (status code text) = code == 429 || read_text text

unfoldable pub is_transient_read : CallError → Bool
unfolding read_reply is_transport_err
is_transient_read e = is_transport_err e || read_reply e

wait_text : Text → ChainWait
unfolding contains
wait_text rest =
    if contains rest (codes "replacement transaction underpriced")
    then wallet_tx_pending
    else if contains rest (codes "transaction not mined after all escalation attempts")
        || contains rest (codes "transaction could not be confirmed on-chain")
    then chain_congested
    else other_wait

wait_reply : CallError → ChainWait
unfolding wait_text has_prefix open_stage_prefix
wait_reply transport = other_wait
wait_reply unreadable = other_wait
wait_reply (status code text) =
    if has_prefix text open_stage_prefix then wait_text (cut text open_stage_prefix) else other_wait

-- `other_wait` is the empty reason.
unfoldable pub chain_wait_reason : CallError → ChainWait
unfolding wait_reply is_transport_err
chain_wait_reason e = if is_transport_err e then other_wait else wait_reply e

limited : is_transient_read (status 500 (codes "failed to call contract: http 429 seen")) ≡ true
unfolding is_transient_read has_prefix contains cut is_transport_err
limited = refl

not_limited : is_transient_read (status 500 (codes "failed to call contract: id 4291")) ≡ false
unfolding is_transient_read has_prefix contains cut is_transport_err
not_limited = refl
